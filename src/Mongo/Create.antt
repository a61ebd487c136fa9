-- ===== src/Mongo/Create.antt =====
-- `CreateRecord` of `MongoStore`, with `findReplay`.
use enterprise_workflow_plat.Common.{
  String, List, [], ◌∷◌, Option, none, some, Bool, true, false, not, ◌&&◌, ◌==◌, Result, ok, err,
  if◌then◌else◌,
}
use enterprise_workflow_plat.Domain.{Time, WorkflowDefinition, Record, zero_record}
use enterprise_workflow_plat.Store.{index_out_of_range}
use enterprise_workflow_plat.Mongo.Bson as B
use enterprise_workflow_plat.Mongo.Bson.{
  Filter, Update, Change, equals, set_value, set_document, increment, Order, descending,
  IdempotencyDoc,
}
use enterprise_workflow_plat.Mongo.Driver.{
  Driver, DriverError, MongoError, no_documents, duplicate_key, failed, refused, driver_error,
}
use enterprise_workflow_plat.Mongo.Action.{Action, ◌>>=◌, ◌>>◌, pure, raise, as_action}
use enterprise_workflow_plat.Mongo.Records.{
  by_id, failure_of, write_audit_and_outbox, find_workflow, read_clock, next_object_id,
}

abbrev pub by_key : String → String → Filter
by_key tenant key = ("tenantId", equals (B.text tenant)) ∷ ("key", equals (B.text key)) ∷ []

-- The record as both versions of `CreateRecord` fill it in.
unfoldable pub filled_record : Time → String → String → String → String → Record → Record
filled_record now id tenant key first r = record r {
  id = id;
  tenant_id = tenant;
  state = first;
  version = 1;
  idempotency = key;
  created_at = now;
  updated_at = now;
}

abbrev pub value_or : Record → Result MongoError Record → Record
value_or old (ok r) = r
value_or old (err _) = old

-- `findReplay`, from the idempotency document on.
abbrev pub replayed : Result DriverError Record → Result MongoError (Option Record)
replayed (ok r) = ok (some r)
replayed (err e) = err (driver_error e)

abbrev pub is_duplicate_key : MongoError → Bool
is_duplicate_key (driver_error (duplicate_key _)) = true
is_duplicate_key (driver_error no_documents) = false
is_duplicate_key (driver_error (failed _)) = false
is_duplicate_key (refused _) = false

abbrev pub replay_or :
    MongoError → Result MongoError (Option Record) → Result MongoError (Record × Bool)
replay_or e (ok (some r)) = ok (r, true)
replay_or e (ok none) = err e
replay_or e (err _) = err e

module _ {W : Type 0} (driver : Driver W) where
  abbrev pub read_replay : String → Result DriverError IdempotencyDoc → Action W (Option Record)
  read_replay tenant (ok d) w =
      let (found, w') = driver.records.find_one (by_id d.record_id tenant) w in (replayed found, w')
  read_replay tenant (err no_documents) w = (ok none, w)
  read_replay tenant (err (duplicate_key s)) w = (err (driver_error (duplicate_key s)), w)
  read_replay tenant (err (failed s)) w = (err (driver_error (failed s)), w)

  unfoldable pub find_replay : String → String → Action W (Option Record)
  find_replay tenant key w =
      let (entry, w') = driver.idempotency.find_one (by_key tenant key) w in
      read_replay tenant entry w'

  -- The first state of a workflow, or Go's panic.
  abbrev pub first_state : List String → Action W String
  first_state [] = raise (refused index_out_of_range)
  first_state (first ∷ _) = pure first

  abbrev pub remember : Time → String → String → String → Action W (Unit {0})
  remember now tenant key id =
      if key == ""
      then pure tt
      else as_action (
          driver.idempotency.insert_one
            (record { tenant_id = tenant; key = key; record_id = id; created_at = now }))

  -- The writes of the transaction of `CreateRecord`.
  unfoldable pub write_created : Time → String → String → Record → Action W Record
  write_created now tenant key created = do
    as_action (driver.records.insert_one created)
    remember now tenant key created.id
    write_audit_and_outbox driver created "record.created"
    pure created

  unfoldable pub insert_into : String → String → Record → WorkflowDefinition → Action W Record
  insert_into tenant key r wf = do
    now ← read_clock driver
    id ← next_object_id driver
    first ← first_state wf.states
    write_created now tenant key (filled_record now id tenant key first r)

  -- The function of the transaction, up to the write of `created`.
  unfoldable pub insert_record : String → String → Record → Action W Record
  insert_record tenant key r = do
    wf ← find_workflow driver r.workflow_id tenant
    insert_into tenant key r wf

  -- That function, which writes `created` when nothing has failed.
  unfoldable pub create_body :
      String → String → Record → Record × W → Option MongoError × (Record × W)
  create_body tenant key r (created, w) =
      let (result, w') = insert_record tenant key r w in
      (failure_of result, (value_or created result, w'))

  -- After a failed transaction: another call with the key may have been faster.
  unfoldable pub after_failure : String → String → MongoError → Action W (Record × Bool)
  after_failure tenant key e w =
      if not (key == "") && is_duplicate_key e
      then (replay_or e (find_replay tenant key w).0, (find_replay tenant key w).1)
      else (err e, w)

  abbrev pub finish : String → String → Option MongoError → Record → Action W (Record × Bool)
  finish tenant key none created w = (ok (created, false), w)
  finish tenant key (some e) created w = after_failure tenant key e w

  unfoldable pub create_new : String → String → Record → Action W (Record × Bool)
  create_new tenant key r w =
      let (failure, (created, w')) =
        driver.with_transaction (create_body tenant key r) (zero_record, w) in
      finish tenant key failure created w'

  unfoldable pub replay_first : String → String → Action W (Option Record)
  replay_first tenant key w = if key == "" then (ok none, w) else find_replay tenant key w

  abbrev pub create_unless : String → String → Record → Option Record → Action W (Record × Bool)
  create_unless tenant key r (some existing) = pure (existing, true)
  create_unless tenant key r none = as_action driver.start_session >> create_new tenant key r

  unfoldable pub create_record : String → String → Record → Action W (Record × Bool)
  create_record tenant key r = do found ← replay_first tenant key; create_unless tenant key r found
