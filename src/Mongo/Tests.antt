-- ===== src/Mongo/Tests.antt =====
-- Runs of `MongoStore` over the sample driver, and the theorems at them.
use enterprise_workflow_plat.Mongo.Pending.{pending_count}
use enterprise_workflow_plat.Common.{
  List, ◌∷◌, [], ℕ, arith, String, [], ◌∷◌, some, none, true, false, ◌≡◌, ◌≢◌, refl, ok, err,
  contains,
}
use enterprise_workflow_plat.Common.Decimal.{decimal}
use enterprise_workflow_plat.Common.Int64.{inc64}
use enterprise_workflow_plat.Domain.{
  Record, WorkflowDefinition, OutboxEvent, Notification, zero_record, zero_workflow,
}
use enterprise_workflow_plat.Domain.Value.{end, member, text}
use enterprise_workflow_plat.Store.{not_found, conflict, invalid_workflow}
use enterprise_workflow_plat.Store.Memory.{updated_record}
use enterprise_workflow_plat.Mongo.Bson.{
  bson_eq, holds, matches, apply_update, workflow_field, record_field, change_record,
  idempotency_field, stored_record, millis,
}
use enterprise_workflow_plat.Mongo.Driver.{refused}
use enterprise_workflow_plat.Mongo.Records.{
  is_empty, audit_event, outbox_event, create_workflow, write_audit_and_outbox, get_record,
}
use enterprise_workflow_plat.Mongo.Create.{
  filled_record, find_replay, write_created, insert_into, insert_record, create_body, after_failure,
  create_new, replay_first, create_record,
}
use enterprise_workflow_plat.Mongo.Update.{
  update_document, replace_allowed, write_version, update_body, update_record,
}
use enterprise_workflow_plat.Mongo.Outbox.{store_notification}
use enterprise_workflow_plat.Mongo.Laws.{Database}
use enterprise_workflow_plat.Mongo.Sample.{World, sample_driver}
use enterprise_workflow_plat.Mongo.Sample.Proofs.{sample_driver-Lawful}
use enterprise_workflow_plat.Mongo.Outcome.{IsReplayed, create_record-IsOutcome}
use enterprise_workflow_plat.Mongo.Repeat.{create_record-create_record}
use enterprise_workflow_plat.Mongo.Versioned.{IsUpdated, update_record-ok}
use enterprise_workflow_plat.Mongo.Refused.{Cause, update_record-Cause}
use enterprise_workflow_plat.Mongo.Aborted.{CreateCause, create_record-CreateCause}
use enterprise_workflow_plat.Mongo.View.{catalog, HasDistinctIds}
use enterprise_workflow_plat.Mongo.Refines.{mongo_store, mongo_store-Implements}
use enterprise_workflow_plat.Store.Spec.{Implements}
use enterprise_workflow_plat.Events.{notification_of}
use enterprise_workflow_plat.Events.Projection.{
  IsOnce, handle_event, deliver, IsProjected, deliver-IsProjected,
}
use enterprise_workflow_plat.Relay.{Failure, drain_outbox}
use enterprise_workflow_plat.Relay.Mongo.{mongo_ports, IsEmptied, drain_outbox-IsEmptied}

-- What a run has to see through.
mongo : Unit {0}
unfolding decimal millis inc64 contains updated_record bson_eq holds matches apply_update
    workflow_field record_field change_record idempotency_field is_empty audit_event outbox_event
    create_workflow write_audit_and_outbox get_record filled_record find_replay write_created
    insert_into insert_record create_body after_failure create_new replay_first create_record
    update_document replace_allowed write_version update_body update_record store_notification
    handle_event notification_of
mongo = tt

abbrev contents : World → Database
contents w = w.database

abbrev empty_world : World
empty_world = record {
  database = record {
    workflows = [];
    records = [];
    idempotency = [];
    audit = [];
    outbox = [];
    notifications = [];
  };
  given = 0;
}

abbrev equipment : WorkflowDefinition
equipment = record zero_workflow { name = "Equipment"; states = "SUBMITTED" ∷ "APPROVED" ∷ [] }

abbrev defined_world : World
defined_world = (create_workflow sample_driver "acme" equipment empty_world).1

abbrev request : Record
request = record zero_record {
  workflow_id = "0";
  record_data = some (member "device" (text "laptop") end);
}

abbrev laptop : Record
laptop = record {
  id = "1";
  tenant_id = "acme";
  workflow_id = "0";
  state = "SUBMITTED";
  record_data = some (member "device" (text "laptop") end);
  version = 1;
  idempotency = "k1";
  created_at = 1500001;
  updated_at = 1500001;
}

abbrev stored_laptop : Record
stored_laptop = record laptop { created_at = 1000000; updated_at = 1000000 }

abbrev created_world : World
created_world = (create_record sample_driver "acme" "k1" request defined_world).1

created_laptop :
    (create_record sample_driver "acme" "k1" request defined_world).0 ≡ ok (laptop, false)
unfolding mongo
created_laptop = refl

replayed_laptop :
    (create_record sample_driver "acme" "k1" request created_world).0 ≡ ok (stored_laptop, true)
unfolding mongo
replayed_laptop = refl

create_record-IsOutcome_example :
    IsReplayed "acme" "k1" stored_laptop
      (contents created_world)
      (contents (create_record sample_driver "acme" "k1" request created_world).1)
create_record-IsOutcome_example =
    create_record-IsOutcome sample_driver contents sample_driver-Lawful "acme" "k1" request
      stored_laptop true created_world replayed_laptop

k1-ne-empty : ◌≢◌ {A = String} "k1" ""
k1-ne-empty e = cc

replayed_other :
    (create_record sample_driver "acme" "k1" zero_record created_world).0 ≡ ok (stored_laptop, true)
unfolding mongo
replayed_other = refl

create_record-create_record_example :
    (stored_laptop ≡ stored_record laptop)
    × (true ≡ true)
    × (contents (create_record sample_driver "acme" "k1" zero_record created_world).1
        ≡ contents created_world)
create_record-create_record_example =
    create_record-create_record sample_driver contents sample_driver-Lawful "acme" "k1" request
      zero_record laptop stored_laptop true defined_world created_world k1-ne-empty created_laptop
      refl replayed_other

abbrev approved_laptop : Record
approved_laptop = record stored_laptop { state = "APPROVED"; version = 2; updated_at = 6000000 }

abbrev approved_world : World
approved_world = (update_record sample_driver "acme" "1" 1 "APPROVED" none created_world).1

accepted_update :
    (update_record sample_driver "acme" "1" 1 "APPROVED" none created_world).0
    ≡ (approved_laptop, none)
unfolding mongo
accepted_update = refl

update_record-ok_example :
    IsUpdated "acme" "1" 1 "APPROVED" none approved_laptop
      (contents created_world)
      (contents approved_world)
update_record-ok_example =
    update_record-ok sample_driver contents sample_driver-Lawful "acme" "1" 1 "APPROVED" none
      approved_laptop created_world accepted_update

refused_updates :
    ((update_record sample_driver "acme" "1" 7 "APPROVED" none created_world).0.1
      ≡ some (refused conflict))
    × ((update_record sample_driver "evil" "1" 1 "APPROVED" none created_world).0.1
        ≡ some (refused not_found))
    × ((update_record sample_driver "acme" "1" 1 "LOST" none created_world).0.1
        ≡ some (refused invalid_workflow))
unfolding mongo
refused_updates = (refl, refl, refl)

update_record-Cause_example :
    Cause sample_driver "acme" "1" 7 "APPROVED" (contents created_world) conflict
    × (contents (update_record sample_driver "acme" "1" 7 "APPROVED" none created_world).1
        ≡ contents created_world)
update_record-Cause_example =
    update_record-Cause sample_driver contents sample_driver-Lawful "acme" "1" 7 "APPROVED" none
      conflict created_world refused_updates.0

refused_creation :
    (create_record sample_driver "evil" "k1" request defined_world).0
    ≡ err (refused invalid_workflow)
unfolding mongo
refused_creation = refl

create_record-CreateCause_example :
    CreateCause sample_driver "evil" request (contents defined_world) invalid_workflow
    × (contents (create_record sample_driver "evil" "k1" request defined_world).1
        ≡ contents defined_world)
create_record-CreateCause_example =
    create_record-CreateCause sample_driver contents sample_driver-Lawful "evil" "k1" request
      invalid_workflow defined_world refused_creation

abbrev second_laptop : Record
second_laptop = record laptop {
  id = "6";
  idempotency = "k2";
  created_at = 9000001;
  updated_at = 9000001;
}

abbrev note : Notification
note = record {
  id = "id-1";
  tenant_id = "acme";
  record_id = "1";
  event_type = "record.created";
  state = "SUBMITTED";
  created_at = 1;
}

stored_once : (store_notification sample_driver note empty_world).0 ≡ ok true
unfolding mongo
stored_once = refl

stored_twice :
    (store_notification sample_driver note (store_notification sample_driver note empty_world).1).0
    ≡ ok false
unfolding mongo
stored_twice = refl

mongo_store-Implements_example :
    Implements
      (mongo_store sample_driver)
      (λ w. catalog (contents w))
      stored_record
      (λ w. HasDistinctIds (contents w))
mongo_store-Implements_example = mongo_store-Implements sample_driver contents sample_driver-Lawful

abbrev crowded_world : World
crowded_world = (create_record sample_driver "acme" "k2" request approved_world).1

abbrev accept : OutboxEvent → World → Failure × World
accept event w = (none, w)

abbrev accept_batch : List OutboxEvent → World → Failure × World
accept_batch items w = (none, w)

created_pending : pending_count (contents created_world) ≡ 1
unfolding mongo
created_pending = refl

drain_outbox-IsEmptied_example :
    (r : (ℕ × Failure) × World) × (drain_outbox
        (mongo_ports sample_driver accept accept_batch)
        2
        250
        created_world
      ≡ some r)
    × IsEmptied sample_driver contents sample_driver-Lawful accept accept_batch
        (λ _ _. refl)
        r.0.1
        r.1
drain_outbox-IsEmptied_example =
    drain_outbox-IsEmptied sample_driver contents sample_driver-Lawful accept accept_batch
      (λ _ _. refl) 2 250 created_world (omega (arith, created_pending))

nothing_twice : IsOnce (contents empty_world)
nothing_twice id = omega arith

abbrev created_event : OutboxEvent
created_event = record {
  id = "3";
  tenant_id = "acme";
  aggregate_id = "1";
  topic = "workflow.record-events";
  key = "1";
  event_type = "record.created";
  payload = none;
  created_at = 1;
  published_at = none;
  attempts = 0;
  last_error = "";
}

abbrev delivered_twice : World
delivered_twice = (deliver sample_driver (created_event ∷ created_event ∷ []) empty_world).1

handled_twice : (deliver sample_driver (created_event ∷ created_event ∷ []) empty_world).0 ≡ true
unfolding mongo
handled_twice = refl

deliver-IsProjected_example :
    IsProjected sample_driver contents sample_driver-Lawful
      (created_event ∷ created_event ∷ [])
      (contents empty_world)
      (contents delivered_twice)
deliver-IsProjected_example =
    deliver-IsProjected sample_driver contents sample_driver-Lawful
      (created_event ∷ created_event ∷ []) empty_world nothing_twice handled_twice
