-- ===== src/Mongo/Records.antt =====
-- The workflows and records of `MongoStore`: creation, reading, update, audit.
use enterprise_workflow_plat.Common.{
  String, List, [], ◌∷◌, Option, none, some, Bool, true, false, ◌||◌, ◌==◌, Result, ok, err,
  if◌then◌else◌,
}
use enterprise_workflow_plat.Domain.{
  Time, WorkflowDefinition, Record, AuditEvent, OutboxEvent, zero_workflow,
}
use enterprise_workflow_plat.Domain.Value.{end, member, text, int}
use enterprise_workflow_plat.Store.{StoreError, not_found, invalid_workflow, record_events_topic}
use enterprise_workflow_plat.Mongo.Bson as B
use enterprise_workflow_plat.Mongo.Bson.{
  Filter, Update, Change, equals, set_value, set_document, increment, Order, descending,
  IdempotencyDoc,
}
use enterprise_workflow_plat.Mongo.Driver.{
  Driver, DriverError, MongoError, no_documents, duplicate_key, failed, refused, driver_error,
}
use enterprise_workflow_plat.Mongo.Action.{Action, ◌>>◌, with_error, as_action}

-- `bson.M{"_id": id, "tenantId": tenantID}`.
abbrev pub by_id : String → String → Filter
by_id id tenant = ("_id", equals (B.text id)) ∷ ("tenantId", equals (B.text tenant)) ∷ []

abbrev pub by_tenant : String → Filter
by_tenant tenant = ("tenantId", equals (B.text tenant)) ∷ []

unfoldable pub is_empty {ℓ} : {A : Type ℓ} → List A → Bool
is_empty [] = true
is_empty (x ∷ xs) = false

unfoldable pub audit_event : Time → String → Record → String → AuditEvent
audit_event now id r typ = record {
  id = id;
  tenant_id = r.tenant_id;
  record_id = r.id;
  event_type = typ;
  occurred_at = now;
  payload = some (member "state" (text r.state) (member "version" (int r.version) end));
}

unfoldable pub outbox_event : Time → String → Record → String → OutboxEvent
outbox_event now id r typ = record {
  id = id;
  tenant_id = r.tenant_id;
  aggregate_id = r.id;
  topic = record_events_topic;
  key = r.id;
  event_type = typ;
  payload = some (
      member "recordId" (text r.id) (
        member "workflowId" (text r.workflow_id)
          (member "state" (text r.state) (member "version" (int r.version) end))));
  created_at = now;
  published_at = none;
  attempts = 0;
  last_error = "";
}

abbrev pub or_invalid : {A : Type 0} → Result DriverError A → Result MongoError A
or_invalid (ok a) = ok a
or_invalid (err _) = err (refused invalid_workflow)

-- `errors.Is(err, mongo.ErrNoDocuments)` becomes an error of the store.
abbrev pub or_refused : {A : Type 0} → StoreError → Result DriverError A → Result MongoError A
or_refused e (ok a) = ok a
or_refused e (err no_documents) = err (refused e)
or_refused e (err (duplicate_key s)) = err (driver_error (duplicate_key s))
or_refused e (err (failed s)) = err (driver_error (failed s))

abbrev pub failure_of : {A : Type 0} → Result MongoError A → Option MongoError
failure_of (ok _) = none
failure_of (err e) = some e

abbrev pub passed_on : Option DriverError → Option MongoError
passed_on none = none
passed_on (some e) = some (driver_error e)

module _ {W : Type 0} (driver : Driver W) where
  -- `return wf, err`: the filled document comes back beside an error too.
  unfoldable pub create_workflow :
      String → WorkflowDefinition → W → (WorkflowDefinition × Option MongoError) × W
  create_workflow tenant wf w =
      if tenant == "" || (wf.name == "" || is_empty wf.states)
      then ((zero_workflow, some (refused invalid_workflow)), w)
      else let (id, w') = driver.new_object_id w in
        let stored = record wf {
          id = id;
          tenant_id = tenant;
          version = 1;
          created_at = driver.now w;
          updated_at = driver.now w;
        } in
        let (failed_with, w'') = driver.workflows.insert_one stored w' in
        ((stored, passed_on failed_with), w'')

  unfoldable pub list_workflows : String → Action W (List WorkflowDefinition)
  list_workflows tenant w =
      let (found, w') = driver.workflows.find (by_tenant tenant) none 0 w in (with_error found, w')

  -- `writeAuditAndOutbox`: one reading of the clock for both events.
  unfoldable pub write_audit_and_outbox : Record → String → Action W (Unit {0})
  write_audit_and_outbox r typ w =
      let now = driver.now w in
      let (audit_id, w₁) = driver.new_object_id w in
      let (outbox_id, w₂) = driver.new_object_id w₁ in
      let write =
        as_action (driver.audit.insert_one (audit_event now audit_id r typ))
        >> as_action (driver.outbox.insert_one (outbox_event now outbox_id r typ)) in
      write w₂

  -- Any error of the read becomes `ErrInvalidWorkflow`.
  abbrev pub find_workflow : String → String → Action W WorkflowDefinition
  find_workflow id tenant w =
      let (found, w') = driver.workflows.find_one (by_id id tenant) w in (or_invalid found, w')

  abbrev pub read_clock : Action W Time
  read_clock w = (ok (driver.now w), w)

  abbrev pub next_object_id : Action W String
  next_object_id w = let (id, w') = driver.new_object_id w in (ok id, w')

  unfoldable pub list_records : String → String → Action W (List Record)
  list_records tenant state w =
      let (found, w') =
        driver.records.find
          (if state == ""
            then by_tenant tenant
            else ("tenantId", equals (B.text tenant)) ∷ ("state", equals (B.text state)) ∷ [])
          (some ("updatedAt", descending)) 0 w in
      (with_error found, w')

  unfoldable pub get_record : String → String → Action W Record
  get_record tenant id w =
      let (found, w') = driver.records.find_one (by_id id tenant) w in
      (or_refused not_found found, w')

  unfoldable pub list_audit_events : String → Action W (List AuditEvent)
  list_audit_events tenant w =
      let (found, w') =
        driver.audit.find (by_tenant tenant) (some ("occurredAt", descending)) 0 w in
      (with_error found, w')
