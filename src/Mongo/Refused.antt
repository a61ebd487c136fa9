-- ===== src/Mongo/Refused.antt =====
-- The errors of its own that `MongoStore` returns, and that they leave the database as it was.
use enterprise_workflow_plat.Common.{
  false, eq_iff, String, [], ◌∷◌, Option, some, not, ◌==◌, ◌&&◌, Result, ok, err, ◌≡◌, ◌≢◌, ◌⊎◌,
  sym, ◌∙◌, ap, subst, inl, inr, arith, nat_beq, contains, Bool-cases, Option-cases,
}
use enterprise_workflow_plat.Domain.{Int64, Record, WorkflowDefinition, zero_record}
use enterprise_workflow_plat.Domain.Value.{Members}
use enterprise_workflow_plat.Store.{
  StoreError, not_found, conflict, invalid_workflow, index_out_of_range,
}
use enterprise_workflow_plat.Mongo.Bson as B
use enterprise_workflow_plat.Mongo.Bson.{Filter, equals, matches, record_field}
use enterprise_workflow_plat.Mongo.Driver.{Driver, MongoError, refused}
use enterprise_workflow_plat.Mongo.Action.{bind-err, Action, ◌>>=◌}
use enterprise_workflow_plat.Mongo.Records.{
  by_id, get_record, find_workflow, write_audit_and_outbox,
}
use enterprise_workflow_plat.Mongo.Update.{
  update_document, check_version, check_state, replace_version, replace_allowed, write_version,
  log_update, update_body, update_record,
}
use enterprise_workflow_plat.Mongo.Laws.{Database, In, Lacks, Lawful}
use enterprise_workflow_plat.Mongo.Causes.{
  or_refused-refused, or_invalid-refused, failure_of-some, write_audit_and_outbox-ne-refused,
  IsUnread, unread,
}
use enterprise_workflow_plat.Mongo.Created.{workflow-matches, or_invalid-ok}
use enterprise_workflow_plat.Mongo.Replay.{record-matches}
use enterprise_workflow_plat.Mongo.Updated.{or_refused-ok, check_version-ok, check_state-ok}

abbrev versioned : String → String → Int64 → Filter
versioned id tenant expected =
    ("_id", equals (B.text id))
    ∷ ("tenantId", equals (B.text tenant))
    ∷ ("version", equals (B.number expected))
    ∷ []

-- A record of the tenant under the identifier.
pub record IsFound (tenant id : String) (db : Database) : Type 0 where
  pub current : Record
  pub there : In current db.records
  pub id_is : current.id ≡ id
  pub tenant_is : current.tenant_id ≡ tenant

-- Why the requested state was not accepted: the workflow was not read, or does not have it.
abbrev pub IsDisallowed :
    {W : Type 0} → Driver W → (tenant state : String) → Record → Database → Type 0
IsDisallowed driver tenant state current db =
    IsUnread driver current.workflow_id tenant db
    ⊎ ((wf : WorkflowDefinition) × In wf db.workflows
        × (wf.id ≡ current.workflow_id)
        × (wf.tenant_id ≡ tenant)
        × (state ≢ "")
        × (contains wf.states state ≡ false))

-- Why `UpdateRecord` refuses.
abbrev pub Cause :
    {W : Type 0}
    → Driver W
    → (tenant id : String) (expected : Int64) (state : String) → Database
    → StoreError
    → Type 0
Cause driver tenant id expected state db not_found =
    Lacks (matches record_field (by_id id tenant)) db.records
Cause driver tenant id expected state db conflict =
    ((found : IsFound tenant id db) × (found.current.version ≢ expected))
    ⊎ Lacks (matches record_field (versioned id tenant expected)) db.records
Cause driver tenant id expected state db invalid_workflow =
    (found : IsFound tenant id db) × (found.current.version ≡ expected)
    × IsDisallowed driver tenant state found.current db
Cause driver tenant id expected state db index_out_of_range = ⊥

module _ {W : Type 0} (driver : Driver W) where
  check_version-refused :
      (expected : Int64) (current : Record) (e : StoreError) (w : W)
      → (check_version driver expected current w).0 ≡ err (refused e)
      → (conflict ≡ e) × (current.version ≢ expected)
  check_version-refused expected current e w h =
      elim (Bool-cases (nat_beq current.version expected)) [
        | inl on ↦ let h' = rw on at h in cc
        | inr off ↦ let h' = rw off at h in (cc, ground arith)
      ]

  check_state-refused :
      (state : String) (wf : WorkflowDefinition) (e : StoreError) (w : W)
      → (check_state driver state wf w).0 ≡ err (refused e)
      → (invalid_workflow ≡ e) × (state ≢ "") × (contains wf.states state ≡ false)
  check_state-refused state wf e w h =
      elim (Bool-cases (not (state == "") && not (contains wf.states state))) [
        | inl on ↦ let h' = rw on at h in (cc, ground (arith, eq_iff state ""), ground arith)
        | inr off ↦ let h' = rw off at h in cc
      ]

module _ {W : Type 0} (driver : Driver W) (contents : W → Database)
    (law : Lawful driver contents) where
  get_record-refused :
      (tenant id : String) (e : StoreError) (w : W)
      → (get_record driver tenant id w).0 ≡ err (refused e)
      → (not_found ≡ e) × Lacks (matches record_field (by_id id tenant)) (contents w).records
  unfolding get_record
  get_record-refused tenant id e w h =
      let (same, missing) =
        or_refused-refused not_found e (driver.records.find_one (by_id id tenant) w).0 h in
      (same, law.records.find_one_missing (by_id id tenant) w missing)

  replace_allowed-refused :
      (tenant id : String) (expected : Int64) (state : String) (new_data : Option Members)
      (wf : WorkflowDefinition) (e : StoreError) (w : W)
      → (replace_allowed driver tenant id expected state new_data wf w).0 ≡ err (refused e)
      → ((invalid_workflow ≡ e) × (state ≢ "") × (contains wf.states state ≡ false))
        ⊎ ((conflict ≡ e)
            × Lacks (matches record_field (versioned id tenant expected)) (contents w).records)
  unfolding replace_allowed
  replace_allowed-refused tenant id expected state new_data wf e w h =
      let f : Unit {0} → Action W Record =
        λ _ s. replace_version driver tenant id expected state new_data (driver.now s) s in
      elim (bind-err (check_state driver state wf) f w (refused e) h) [
        | inl bad ↦ inl (check_state-refused driver state wf e w bad)
        | inr (_, checked, gone) ↦
            let (_, kept) = check_state-ok driver state wf w checked in
            let gone' = ap (λ s. (f tt s).0) (sym kept) ∙ gone in
            let update = update_document (driver.now w) state new_data in
            let filter = versioned id tenant expected in
            let (same, missing) =
              or_refused-refused conflict e (driver.records.find_one_and_update filter update w).0
                gone' in
            inr (same, law.records.find_one_and_update_missing filter update w missing)
      ]

  -- After the version is checked, in a database that is still the same.
  workflow_refused :
      (tenant id : String) (expected : Int64) (state : String) (new_data : Option Members)
      (e : StoreError) (w w₀ : W) (found : IsFound tenant id (contents w₀))
      → found.current.version ≡ expected
      → contents w ≡ contents w₀
      → ((find_workflow driver found.current.workflow_id tenant
            >>= replace_allowed driver tenant id expected state new_data)
          w).0
        ≡ err (refused e)
      → Cause driver tenant id expected state (contents w₀) e
  workflow_refused tenant id expected state new_data e w w₀ found version same h =
      let workflow_id = found.current.workflow_id in
      let filter = by_id workflow_id tenant in
      let n = find_workflow driver workflow_id tenant in
      let f = replace_allowed driver tenant id expected state new_data in
      let C = Cause driver tenant id expected state (contents w₀) in
      elim (bind-err n f w (refused e) h) [
        | inl broke ↦
            let (is, x, failed_with) =
              or_invalid-refused e (driver.workflows.find_one filter w).0 broke in
            let why = unread driver contents law workflow_id tenant x w failed_with in
            subst C is (found, version, inl (subst (IsUnread driver workflow_id tenant) same why))
        | inr (wf, read, h') ↦
            elim (replace_allowed-refused tenant id expected state new_data wf e (n w).1 h') [
              | inl (is, given, off) ↦
                  let (there, fits) =
                    law.workflows.find_one_found filter w wf
                      (or_invalid-ok (driver.workflows.find_one filter w).0 wf read) in
                  let (wf_id, wf_tenant) = workflow-matches workflow_id tenant wf fits in
                  let there' = subst (λ (db : Database). In wf db.workflows) same there in
                  subst C is (found, version, inr (wf, there', wf_id, wf_tenant, given, off))
              | inr (is, lacks) ↦ subst C is (
                  inr (
                    subst
                      (λ (db : Database).
                        Lacks (matches record_field (versioned id tenant expected)) db.records)
                      (law.workflows.find_one_keeps filter w ∙ same) lacks))
            ]
      ]

  -- After the record is read, in a database that is still the same.
  checked_refused :
      (tenant id : String) (expected : Int64) (state : String) (new_data : Option Members)
      (e : StoreError) (w w₀ : W) (found : IsFound tenant id (contents w₀))
      → contents w ≡ contents w₀
      → ((check_version driver expected found.current >>= λ _.
            find_workflow driver found.current.workflow_id tenant
            >>= replace_allowed driver tenant id expected state new_data)
          w).0
        ≡ err (refused e)
      → Cause driver tenant id expected state (contents w₀) e
  checked_refused tenant id expected state new_data e w w₀ found same h =
      let m = check_version driver expected found.current in
      let n = find_workflow driver found.current.workflow_id tenant in
      let f = replace_allowed driver tenant id expected state new_data in
      elim (bind-err m (λ _. n >>= f) w (refused e) h) [
        | inl stale ↦
            let (is, other) = check_version-refused driver expected found.current e w stale in
            subst (Cause driver tenant id expected state (contents w₀)) is (inl (found, other))
        | inr (_, checked, h') ↦
            let (version, kept) = check_version-ok driver expected found.current w checked in
            workflow_refused tenant id expected state new_data e w w₀ found version same
              (ap (λ s. ((n >>= f) s).0) (sym kept) ∙ h')
      ]

  write_version-refused :
      (tenant id : String) (expected : Int64) (state : String) (new_data : Option Members)
      (e : StoreError) (w : W)
      → (write_version driver tenant id expected state new_data w).0 ≡ err (refused e)
      → Cause driver tenant id expected state (contents w) e
  unfolding write_version get_record
  write_version-refused tenant id expected state new_data e w h =
      let filter = by_id id tenant in
      let f : Record → Action W Record = λ current. check_version driver expected current >>= λ _.
      find_workflow driver current.workflow_id tenant
      >>= replace_allowed driver tenant id expected state new_data in
      elim (bind-err (get_record driver tenant id) f w (refused e) h) [
        | inl absent ↦
            let (same, lacks) = get_record-refused tenant id e w absent in
            subst (Cause driver tenant id expected state (contents w)) same lacks
        | inr (current, found, h₁) ↦
            let (there, fits) =
              law.records.find_one_found filter w current
                (or_refused-ok not_found (driver.records.find_one filter w).0 current found) in
            let (id_is, tenant_is) = record-matches id tenant current fits in
            checked_refused tenant id expected state new_data e (driver.records.find_one filter w).1
              w (record { current = current; there = there; id_is = id_is; tenant_is = tenant_is })
              (law.records.find_one_keeps filter w) h₁
      ]

  log_update-refused :
      (result : Result MongoError Record) (old : Record) (e : StoreError) (w : W)
      → (log_update driver result (old, w)).0 ≡ some (refused e)
      → result ≡ err (refused e)
  log_update-refused (err x) old e w h = let same : x ≡ refused e = cc in ap err same
  log_update-refused (ok new) old e w h = absurd (
      write_audit_and_outbox-ne-refused driver new "record.updated" e w
        (failure_of-some (write_audit_and_outbox driver new "record.updated" w).0 (refused e) h))

  -- Over a lawful driver, an update that is refused leaves the database as it was, and does not
  -- panic. It is refused with not_found only if there was no record of the tenant under the
  -- identifier, with conflict only if the record read has another version or none has the expected
  -- one, and with invalid_workflow only if the version is the expected one and the record's
  -- workflow was not read, as it is missing or a read failed, or lacks the requested state.
  pub update_record-Cause :
      (tenant id : String) (expected : Int64) (state : String) (new_data : Option Members)
      (e : StoreError) (w : W)
      → (update_record driver tenant id expected state new_data w).0.1 ≡ some (refused e)
      → Cause driver tenant id expected state (contents w) e
        × (contents (update_record driver tenant id expected state new_data w).1 ≡ contents w)
  unfolding update_record update_body
  update_record-Cause tenant id expected state new_data e w h =
      let w' = (driver.start_session w).1 in
      elim (Option-cases (driver.start_session w).0) [
        | inr (x, broke) ↦ let h' = rw (broke, update_record) at h in cc
        | inl started ↦
            let h' = rw (started, update_record) at h in
            let body = update_body driver tenant id expected state new_data in
            let (run, ran, keeps) = law.aborted body zero_record w' e h' in
            let result = (write_version driver tenant id expected state new_data run.start).0 in
            (
              subst (λ db. Cause driver tenant id expected state db e)
                  (run.from ∙ law.session_keeps w)
                  (write_version-refused tenant id expected state new_data e run.start
                    (log_update-refused result run.variable e _ ran)),
              rw (started, update_record) (keeps ∙ law.session_keeps w),
            )
      ]
