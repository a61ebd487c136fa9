-- ===== src/Mongo/Update.antt =====
-- `UpdateRecord` of `MongoStore`.
use enterprise_workflow_plat.Common.{
  String, [], ◌∷◌, Option, none, some, not, ◌&&◌, ◌==◌, Result, ok, err, nat_beq, contains,
  if◌then◌else◌,
}
use enterprise_workflow_plat.Domain.{Time, Int64, WorkflowDefinition, Record, zero_record}
use enterprise_workflow_plat.Domain.Value.{Members}
use enterprise_workflow_plat.Store.{conflict, invalid_workflow}
use enterprise_workflow_plat.Mongo.Bson as B
use enterprise_workflow_plat.Mongo.Bson.{
  Filter, Update, Change, equals, set_value, set_document, increment, Order, descending,
  IdempotencyDoc,
}
use enterprise_workflow_plat.Mongo.Driver.{Driver, MongoError, refused, driver_error}
use enterprise_workflow_plat.Mongo.Action.{Action, ◌>>=◌, ◌>>◌, pure, raise}
use enterprise_workflow_plat.Mongo.Records.{
  or_refused, failure_of, write_audit_and_outbox, find_workflow, read_clock, get_record,
}

abbrev with_state : String → Update → Update
with_state state rest = if state == "" then rest else ("state", set_value (B.text state)) ∷ rest

abbrev with_data : Option Members → Update → Update
with_data none rest = rest
with_data (some m) rest = ("data", set_document m) ∷ rest

-- What `bson.M{"$set": set, "$inc": …}` of `UpdateRecord` has.
unfoldable pub update_document : Time → String → Option Members → Update
update_document now state new_data =
    ("updatedAt", set_value (B.date now))
    ∷ with_state state (with_data new_data (("version", increment) ∷ []))

module _ {W : Type 0} (driver : Driver W) where
  abbrev pub check_version : Int64 → Record → Action W (Unit {0})
  check_version expected current =
      if nat_beq current.version expected then pure tt else raise (refused conflict)

  abbrev pub check_state : String → WorkflowDefinition → Action W (Unit {0})
  check_state state wf =
      if not (state == "") && not (contains wf.states state)
      then raise (refused invalid_workflow)
      else pure tt

  -- `FindOneAndUpdate` with the version in its filter, and the document after it.
  abbrev pub replace_version :
      String → String → Int64 → String → Option Members → Time → Action W Record
  replace_version tenant id expected state new_data now w =
      let (found, w') =
        driver.records.find_one_and_update
          (("_id", equals (B.text id))
            ∷ ("tenantId", equals (B.text tenant))
            ∷ ("version", equals (B.number expected))
            ∷ [])
          (update_document now state new_data) w in
      (or_refused conflict found, w')

  -- The step of `UpdateRecord` once the workflow is read.
  unfoldable pub replace_allowed :
      String → String → Int64 → String → Option Members → WorkflowDefinition → Action W Record
  replace_allowed tenant id expected state new_data wf = do
    check_state state wf
    now ← read_clock driver
    replace_version tenant id expected state new_data now

  -- The function of the transaction of `UpdateRecord`, up to the write of `updated`.
  unfoldable pub write_version : String → String → Int64 → String → Option Members → Action W Record
  write_version tenant id expected state new_data = do
    current ← get_record driver tenant id
    check_version expected current
    wf ← find_workflow driver current.workflow_id tenant
    replace_allowed tenant id expected state new_data wf

  -- That function: `updated` stays written when the last step fails.
  abbrev pub log_update : Result MongoError Record → Record × W → Option MongoError × (Record × W)
  log_update (err e) s = (some e, s)
  log_update (ok new) (_, w) =
      let (logged, w') = write_audit_and_outbox driver new "record.updated" w in
      (failure_of logged, (new, w'))

  unfoldable pub update_body :
      String
      → String
      → Int64
      → String
      → Option Members
      → Record × W
      → Option MongoError × (Record × W)
  update_body tenant id expected state new_data (updated, w) =
      let (result, w') = write_version tenant id expected state new_data w in
      log_update result (updated, w')

  -- `return updated, err`: the record comes back beside an error too.
  unfoldable pub update_record :
      String → String → Int64 → String → Option Members → W → (Record × Option MongoError) × W
  update_record tenant id expected state new_data w =
      let (started, w') = driver.start_session w in
      elim started [
        | some e ↦ ((zero_record, some (driver_error e)), w')
        | none ↦
            let (failure, (updated, w'')) =
              driver.with_transaction (update_body tenant id expected state new_data)
                (zero_record, w') in
            ((updated, failure), w'')
      ]
