-- ===== src/Mongo/Updated.antt =====
-- What `UpdateRecord` of `MongoStore` has done when it returns no error.
use enterprise_workflow_plat.Common.{
  String, [], ◌∷◌, ◌++◌, Option, none, some, true, not, ◌==◌, ◌&&◌, Result, ok, err, ◌≡◌, ◌⊎◌, refl,
  sym, ◌∙◌, ap, subst, inl, inr, arith, eq_iff, contains, nat_beq, Bool-cases,
}
use enterprise_workflow_plat.Domain.{Time, Int64, Record, WorkflowDefinition}
use enterprise_workflow_plat.Domain.Value.{Members}
use enterprise_workflow_plat.Store.{StoreError, conflict, not_found}
use enterprise_workflow_plat.Store.Memory.{updated_record}
use enterprise_workflow_plat.Mongo.Bson as B
use enterprise_workflow_plat.Mongo.Bson.{
  Filter, equals, matches, holds, bson_eq, record_field, apply_update, change_record, millis,
}
use enterprise_workflow_plat.Mongo.Driver.{Driver, DriverError, no_documents, duplicate_key, failed}
use enterprise_workflow_plat.Mongo.Action.{Action, ◌>>=◌, bind-ok}
use enterprise_workflow_plat.Mongo.Records.{by_id, get_record, find_workflow, or_refused}
use enterprise_workflow_plat.Mongo.Update.{
  replace_allowed, update_document, check_version, check_state, replace_version, write_version,
}
use enterprise_workflow_plat.Mongo.Laws.{Database, In, Lawful}
use enterprise_workflow_plat.Mongo.Created.{or_invalid-ok, workflow-matches}
use enterprise_workflow_plat.Mongo.Replay.{record-matches}

pub or_refused-ok :
    {A : Type 0} (e : StoreError) (found : Result DriverError A) (a : A)
    → or_refused e found ≡ ok a
    → found ≡ ok a
or_refused-ok e (ok b) a h = let same : b ≡ a = cc in ap ok same
or_refused-ok e (err no_documents) a h = cc
or_refused-ok e (err (duplicate_key s)) a h = cc
or_refused-ok e (err (failed s)) a h = cc

version-matches :
    (id tenant : String) (expected : Int64) (r : Record)
    → matches record_field
        (("_id", equals (B.text id))
          ∷ ("tenantId", equals (B.text tenant))
          ∷ ("version", equals (B.number expected))
          ∷ [])
        r
      ≡ true
    → (r.id ≡ id) × (r.tenant_id ≡ tenant) × (r.version ≡ expected)
unfolding matches holds bson_eq record_field
version-matches id tenant expected r e = ground (arith, eq_iff r.id id, eq_iff r.tenant_id tenant)

-- The update document means the assignments of `MemoryStore`, at the time in milliseconds.
pub apply_update-update_document :
    (now : Time) (state : String) (new_data : Option Members) (r : Record)
    → apply_update change_record (update_document now state new_data) r
      ≡ updated_record (millis now) state new_data r
unfolding apply_update update_document change_record updated_record
apply_update-update_document now state none r = elim (Bool-cases (state == "")) [
  | inl on ↦ rw on refl
  | inr off ↦ rw off refl
]
apply_update-update_document now state (some m) r = elim (Bool-cases (state == "")) [
  | inl on ↦ rw on refl
  | inr off ↦ rw off refl
]

-- What `FindOneAndUpdate` has found and written.
pub record IsWritten (tenant id : String) (expected : Int64) (state : String)
    (new_data : Option Members) (now : Time) (new : Record) (before after : Database) : Type 0 where
  pub old : Record
  pub there : In old before.records
  pub old_id : old.id ≡ id
  pub old_tenant : old.tenant_id ≡ tenant
  pub old_version : old.version ≡ expected
  pub is : new ≡ updated_record now state new_data old
  pub writes : after ≡ record before { records = there.before ++ new ∷ there.after }

-- What `UpdateRecord` has read before it writes.
pub record IsAllowed (tenant id : String) (expected : Int64) (state : String) (db : Database)
    : Type 0 where
  pub current : Record
  pub current_there : In current db.records
  pub current_id : current.id ≡ id
  pub current_tenant : current.tenant_id ≡ tenant
  pub current_version : current.version ≡ expected
  pub workflow : WorkflowDefinition
  pub workflow_there : In workflow db.workflows
  pub workflow_is : workflow.id ≡ current.workflow_id
  pub workflow_tenant : workflow.tenant_id ≡ tenant
  pub allowed : (state ≡ "") ⊎ (contains workflow.states state ≡ true)

module _ {W : Type 0} (driver : Driver W) where
  pub check_version-ok :
      (expected : Int64) (current : Record) (w : W)
      → (check_version driver expected current w).0 ≡ ok tt
      → (current.version ≡ expected) × ((check_version driver expected current w).1 ≡ w)
  check_version-ok expected current w h = elim (Bool-cases (nat_beq current.version expected)) [
    | inl on ↦ (ground arith, rw on refl)
    | inr off ↦ let h' = rw off at h in cc
  ]

  pub check_state-ok :
      (state : String) (wf : WorkflowDefinition) (w : W)
      → (check_state driver state wf w).0 ≡ ok tt
      → ((state ≡ "") ⊎ (contains wf.states state ≡ true)) × ((check_state driver state wf w).1 ≡ w)
  check_state-ok state wf w h =
      elim (Bool-cases (not (state == "") && not (contains wf.states state))) [
        | inl on ↦ let h' = rw on at h in cc
        | inr off ↦ (ground (arith, eq_iff state ""), rw off refl)
      ]

module _ {W : Type 0} (driver : Driver W) (contents : W → Database)
    (law : Lawful driver contents) where
  replace_version-ok :
      (tenant id : String) (expected : Int64) (state : String) (new_data : Option Members)
      (now : Time) (new : Record) (w : W)
      → (replace_version driver tenant id expected state new_data now w).0 ≡ ok new
      → IsWritten tenant id expected state new_data
          (millis now)
          new
          (contents w)
          (contents (replace_version driver tenant id expected state new_data now w).1)
  replace_version-ok tenant id expected state new_data now new w h =
      let filter : Filter =
        ("_id", equals (B.text id))
        ∷ ("tenantId", equals (B.text tenant))
        ∷ ("version", equals (B.number expected))
        ∷ [] in
      let update = update_document now state new_data in
      let (old, there, fits, is, writes) =
        law.records.find_one_and_update_done filter update w new
          (or_refused-ok conflict (driver.records.find_one_and_update filter update w).0 new h) in
      let (old_id, old_tenant, old_version) = version-matches id tenant expected old fits in
      record {
        old = old;
        there = there;
        old_id = old_id;
        old_tenant = old_tenant;
        old_version = old_version;
        is = is ∙ apply_update-update_document now state new_data old;
        writes = writes;
      }

  -- The reads before the write, in a database that is still the same at the second.
  IsAllowed_lem :
      (tenant id : String) (expected : Int64) (state : String) (current : Record)
      (wf : WorkflowDefinition) (w w₁ : W)
      → contents w₁ ≡ contents w
      → (get_record driver tenant id w).0 ≡ ok current
      → current.version ≡ expected
      → (find_workflow driver current.workflow_id tenant w₁).0 ≡ ok wf
      → (state ≡ "") ⊎ (contains wf.states state ≡ true)
      → IsAllowed tenant id expected state (contents w)
  unfolding get_record
  IsAllowed_lem tenant id expected state current wf w w₁ same found version found' allowed =
      let record_filter = by_id id tenant in
      let workflow_filter = by_id current.workflow_id tenant in
      let (current_there, fits) =
        law.records.find_one_found record_filter w current
          (or_refused-ok not_found (driver.records.find_one record_filter w).0 current found) in
      let (workflow_there, fits') =
        law.workflows.find_one_found workflow_filter w₁ wf
          (or_invalid-ok (driver.workflows.find_one workflow_filter w₁).0 wf found') in
      let (current_id, current_tenant) = record-matches id tenant current fits in
      let (workflow_is, workflow_tenant) = workflow-matches current.workflow_id tenant wf fits' in
      record {
        current = current;
        current_there = current_there;
        current_id = current_id;
        current_tenant = current_tenant;
        current_version = version;
        workflow = wf;
        workflow_there = subst (λ db. In wf db.workflows) same workflow_there;
        workflow_is = workflow_is;
        workflow_tenant = workflow_tenant;
        allowed = allowed;
      }

  replace_allowed-ok :
      (tenant id : String) (expected : Int64) (state : String) (new_data : Option Members)
      (wf : WorkflowDefinition) (new : Record) (w : W)
      → (replace_allowed driver tenant id expected state new_data wf w).0 ≡ ok new
      → ((state ≡ "") ⊎ (contains wf.states state ≡ true))
        × (now : Time) × IsWritten tenant id expected state new_data now new
            (contents w)
            (contents (replace_allowed driver tenant id expected state new_data wf w).1)
  unfolding replace_allowed
  replace_allowed-ok tenant id expected state new_data wf new w h =
      let f : Unit {0} → Action W Record =
        λ _ s. replace_version driver tenant id expected state new_data (driver.now s) s in
      let (_, checked, eq) = bind-ok (check_state driver state wf) f w new h in
      let (allowed, kept) = check_state-ok driver state wf w checked in
      let eq' : replace_allowed driver tenant id expected state new_data wf w ≡ f tt w =
        eq ∙ ap (f tt) kept in
      (
        allowed,
        millis (driver.now w),
        subst (IsWritten tenant id expected state new_data (millis (driver.now w)) new (contents w))
            (ap (λ x. contents x.1) (sym eq'))
            (replace_version-ok tenant id expected state new_data (driver.now w) new w
              (ap (λ x. x.0) (sym eq') ∙ h)),
      )

  pub write_version-ok :
      (tenant id : String) (expected : Int64) (state : String) (new_data : Option Members)
      (new : Record) (w : W)
      → (write_version driver tenant id expected state new_data w).0 ≡ ok new
      → IsAllowed tenant id expected state (contents w)
        × (now : Time) × IsWritten tenant id expected state new_data now new
            (contents w)
            (contents (write_version driver tenant id expected state new_data w).1)
  unfolding write_version get_record
  write_version-ok tenant id expected state new_data new w h =
      let f₃ = replace_allowed driver tenant id expected state new_data in
      let f₂ : Record → Unit {0} → Action W Record =
        λ current _. find_workflow driver current.workflow_id tenant >>= f₃ in
      let f₁ : Record → Action W Record =
        λ current. check_version driver expected current >>= f₂ current in
      let (current, ok₁, eq₁) = bind-ok (get_record driver tenant id) f₁ w new h in
      let w₁ = (get_record driver tenant id w).1 in
      let h₁ = ap (λ x. x.0) (sym eq₁) ∙ h in
      let (_, ok₂, eq₂) = bind-ok (check_version driver expected current) (f₂ current) w₁ new h₁ in
      let (version, kept) = check_version-ok driver expected current w₁ ok₂ in
      let eq₂' : f₁ current w₁ ≡ f₂ current tt w₁ = eq₂ ∙ ap (f₂ current tt) kept in
      let h₂ = ap (λ x. x.0) (sym eq₂') ∙ h₁ in
      let m₃ = find_workflow driver current.workflow_id tenant in
      let (wf, ok₃, eq₃) = bind-ok m₃ f₃ w₁ new h₂ in
      let w₂ = (m₃ w₁).1 in
      let same : contents w₂ ≡ contents w =
        law.workflows.find_one_keeps (by_id current.workflow_id tenant) w₁
        ∙ law.records.find_one_keeps (by_id id tenant) w in
      let (allowed, now, written) =
        replace_allowed-ok tenant id expected state new_data wf new w₂
          (ap (λ x. x.0) (sym eq₃) ∙ h₂) in
      (
        IsAllowed_lem tenant id expected state current wf w w₁
            (law.records.find_one_keeps (by_id id tenant) w) ok₁ version ok₃ allowed,
        now,
        subst
            (λ db.
              IsWritten tenant id expected state new_data now new db
                (contents (write_version driver tenant id expected state new_data w).1))
            same
            (subst (IsWritten tenant id expected state new_data now new (contents w₂))
              (ap (λ x. contents x.1) (sym (eq₁ ∙ eq₂' ∙ eq₃))) written),
      )
