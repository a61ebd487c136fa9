-- ===== src/Mongo/Created.antt =====
-- What `CreateRecord` of `MongoStore` has done when it returns a new record.
use enterprise_workflow_plat.Common.{
  String, List, [], ◌∷◌, ◌++◌, true, ◌==◌, ◌&&◌, Result, ok, err, ◌≡◌, ◌⊎◌, refl, sym, ◌∙◌, ap,
  subst, inl, inr, arith, eq_iff, if◌then◌else◌, Text-cases,
}
use enterprise_workflow_plat.Domain.{Time, WorkflowDefinition, Record}
use enterprise_workflow_plat.Mongo.Bson.{
  matches, holds, bson_eq, workflow_field, IdempotencyDoc, millis, stored_record,
}
use enterprise_workflow_plat.Mongo.Driver.{Driver, DriverError}
use enterprise_workflow_plat.Mongo.Action.{Action, ◌>>=◌, pure, as_action, bind-ok, pure-ok}
use enterprise_workflow_plat.Mongo.Records.{
  by_id, write_audit_and_outbox, find_workflow, or_invalid,
}
use enterprise_workflow_plat.Mongo.Create.{
  filled_record, insert_record, insert_into, write_created, first_state, remember,
}
use enterprise_workflow_plat.Mongo.Logged.{IsLogged, insert-ok, write_audit_and_outbox-ok}
use enterprise_workflow_plat.Mongo.Laws.{Database, In, Lacks, Lawful}

abbrev pub add_record : Record → Database → Database
add_record r db = record db { records = db.records ++ r ∷ [] }

-- The idempotency document of a record, if there is a key.
abbrev pub add_key : Time → Record → Database → Database
add_key now r db = if r.idempotency == "" then db else record db {
  idempotency =
      db.idempotency
      ++ record { tenant_id = r.tenant_id; key = r.idempotency; record_id = r.id; created_at = now }
        ∷ [];
}

pub first_state-ok :
    {W : Type 0} (driver : Driver W) (states : List String) (first : String) (w : W)
    → (first_state driver states w).0 ≡ ok first
    → ((rest : List String) × (states ≡ first ∷ rest)) × ((first_state driver states w).1 ≡ w)
first_state-ok driver [] first w e = cc
first_state-ok driver (x ∷ rest) first w e =
    let same : x ≡ first = cc in ((rest, ap (λ y. y ∷ rest) same), refl)

pub or_invalid-ok :
    {A : Type 0} (found : Result DriverError A) (a : A) → or_invalid found ≡ ok a → found ≡ ok a
or_invalid-ok (ok b) a e = let same : b ≡ a = cc in ap ok same
or_invalid-ok (err x) a e = cc

pub workflow-matches :
    (id tenant : String) (wf : WorkflowDefinition)
    → matches workflow_field (by_id id tenant) wf ≡ true
    → (wf.id ≡ id) × (wf.tenant_id ≡ tenant)
unfolding matches holds bson_eq workflow_field
workflow-matches id tenant wf e = ground (arith, eq_iff wf.id id, eq_iff wf.tenant_id tenant)

module _ {W : Type 0} (driver : Driver W) (contents : W → Database)
    (law : Lawful driver contents) where
  remember-ok :
      (now : Time) (r : Record) (w : W)
      → (remember driver now r.tenant_id r.idempotency r.id w).0 ≡ ok tt
      → (contents (remember driver now r.tenant_id r.idempotency r.id w).1
          ≡ add_key (millis now) r (contents w))
        × ((r.idempotency ≡ "")
            ⊎ Lacks
                (λ x. x.tenant_id == r.tenant_id && x.key == r.idempotency)
                (contents w).idempotency)
  remember-ok now r w e = elim (Text-cases r.idempotency "") [
    | inl empty ↦
        let test : (r.idempotency == "") ≡ true = (eq_iff r.idempotency "").1 empty in
        (rw test refl, inl empty)
    | inr (_, test) ↦
        let d : IdempotencyDoc = record {
          tenant_id = r.tenant_id;
          key = r.idempotency;
          record_id = r.id;
          created_at = now;
        } in
        let (writes, lacks) =
          insert-ok driver contents law _ driver.idempotency law.idempotency d w (rw test at e) in
        (rw test writes, inr lacks)
  ]

  -- What the writes of a creation have done.
  pub record IsStored (now : Time) (r : Record) (before after : Database) : Type 0 where
    pub logged :
        IsLogged r "record.created"
          (add_key (millis now) r (add_record (stored_record r) before))
          after
    pub new_id : Lacks (λ x. x.id == r.id) before.records
    pub new_key :
        (r.idempotency ≡ "")
        ⊎ Lacks (λ x. x.tenant_id == r.tenant_id && x.key == r.idempotency) before.idempotency

  write_created-ok :
      (now : Time) (r new : Record) (w : W)
      → (write_created driver now r.tenant_id r.idempotency r w).0 ≡ ok new
      → (r ≡ new)
        × IsStored now r
            (contents w)
            (contents (write_created driver now r.tenant_id r.idempotency r w).1)
  unfolding write_created
  write_created-ok now r new w e =
      let m₁ = as_action (driver.records.insert_one r) in
      let m₂ = remember driver now r.tenant_id r.idempotency r.id in
      let m₃ = write_audit_and_outbox driver r "record.created" in
      let f₃ : Unit {0} → Action W Record = λ _. pure r in
      let f₂ : Unit {0} → Action W Record = λ _. m₃ >>= f₃ in
      let f₁ : Unit {0} → Action W Record = λ _. m₂ >>= f₂ in
      let (_, ok₁, eq₁) = bind-ok m₁ f₁ w new e in
      let w₁ = (m₁ w).1 in
      let e₁ = ap (λ x. x.0) (sym eq₁) ∙ e in
      let (_, ok₂, eq₂) = bind-ok m₂ f₂ w₁ new e₁ in
      let w₂ = (m₂ w₁).1 in
      let e₂ = ap (λ x. x.0) (sym eq₂) ∙ e₁ in
      let (_, ok₃, eq₃) = bind-ok m₃ f₃ w₂ new e₂ in
      let (stored, new_id) = insert-ok driver contents law _ driver.records law.records r w ok₁ in
      let (remembered, new_key) = remember-ok now r w₁ ok₂ in
      let logged = write_audit_and_outbox-ok driver contents law r "record.created" w₂ ok₃ in
      let start : contents w₂ ≡ add_key (millis now) r (add_record (stored_record r) (contents w)) =
        remembered ∙ ap (add_key (millis now) r) stored in
      let end_ : contents (m₃ w₂).1
          ≡ contents (write_created driver now r.tenant_id r.idempotency r w).1 =
        sym (ap (λ x. contents x.1) (eq₁ ∙ eq₂ ∙ eq₃)) in
      (
        pure-ok r new (m₃ w₂).1 (ap (λ x. x.0) (sym eq₃) ∙ e₂),
        record {
          logged =
              subst
                (λ db.
                  IsLogged r "record.created" db
                    (contents (write_created driver now r.tenant_id r.idempotency r w).1))
                start (subst (IsLogged r "record.created" (contents w₂)) end_ logged);
          new_id = new_id;
          new_key =
              subst
                (λ ds.
                  (r.idempotency ≡ "")
                  ⊎ Lacks (λ x. x.tenant_id == r.tenant_id && x.key == r.idempotency) ds)
                (ap (λ db. db.idempotency) stored) new_key;
        },
      )

  -- What a new record is, and what its creation has done to the database.
  pub record IsNew (tenant key : String) (r new : Record) (before after : Database) : Type 0 where
    pub workflow : WorkflowDefinition
    pub there : In workflow before.workflows
    pub workflow_is : workflow.id ≡ r.workflow_id
    pub own : workflow.tenant_id ≡ tenant
    pub time : Time
    pub later_states : List String
    pub state_is : workflow.states ≡ new.state ∷ later_states
    pub tenant_is : new.tenant_id ≡ tenant
    pub key_is : new.idempotency ≡ key
    pub version_is : new.version ≡ 1
    pub same_workflow : new.workflow_id ≡ r.workflow_id
    pub same_data : new.record_data ≡ r.record_data
    pub created : new.created_at ≡ time
    pub updated : new.updated_at ≡ time
    pub stored : IsStored time new before after

  insert_into-ok :
      (tenant key : String) (r new : Record) (wf : WorkflowDefinition) (w : W) (db : Database)
      → contents w ≡ db
      → In wf db.workflows
      → wf.id ≡ r.workflow_id
      → wf.tenant_id ≡ tenant
      → (insert_into driver tenant key r wf w).0 ≡ ok new
      → IsNew tenant key r new db (contents (insert_into driver tenant key r wf w).1)
  unfolding insert_into filled_record
  insert_into-ok tenant key r new wf w db start there named own e =
      let now = driver.now w in
      let (id, w₁) = driver.new_object_id w in
      let f : String → Action W Record =
        λ first. write_created driver now tenant key (filled_record now id tenant key first r) in
      let (first, found, eq) = bind-ok (first_state driver wf.states) f w₁ new e in
      let ((rest, states), kept) = first_state-ok driver wf.states first w₁ found in
      let r' = filled_record now id tenant key first r in
      let eq' : insert_into driver tenant key r wf w ≡ write_created driver now tenant key r' w₁ =
        eq ∙ ap (f first) kept in
      let (same, stored) = write_created-ok now r' new w₁ (ap (λ x. x.0) (sym eq') ∙ e) in
      record {
        workflow = wf;
        there = there;
        workflow_is = named;
        own = own;
        time = now;
        later_states = rest;
        state_is = states ∙ ap (λ x. x.state ∷ rest) same;
        tenant_is = ap (λ x. x.tenant_id) (sym same);
        key_is = ap (λ x. x.idempotency) (sym same);
        version_is = ap (λ x. x.version) (sym same);
        same_workflow = ap (λ x. x.workflow_id) (sym same);
        same_data = ap (λ x. x.record_data) (sym same);
        created = ap (λ x. x.created_at) (sym same);
        updated = ap (λ x. x.updated_at) (sym same);
        stored =
            subst (λ x. IsStored now x db (contents (insert_into driver tenant key r wf w).1)) same
              (subst (λ b. IsStored now r' b (contents (insert_into driver tenant key r wf w).1))
                (law.ids_keep w ∙ start)
                (subst (IsStored now r' (contents w₁)) (ap (λ x. contents x.1) (sym eq')) stored));
      }

  pub insert_record-ok :
      (tenant key : String) (r new : Record) (w : W)
      → (insert_record driver tenant key r w).0 ≡ ok new
      → IsNew tenant key r new (contents w) (contents (insert_record driver tenant key r w).1)
  unfolding insert_record
  insert_record-ok tenant key r new w e =
      let m = find_workflow driver r.workflow_id tenant in
      let f = insert_into driver tenant key r in
      let (wf, found, eq) = bind-ok m f w new e in
      let filter = by_id r.workflow_id tenant in
      let (there, fits) =
        law.workflows.find_one_found filter w wf
          (or_invalid-ok (driver.workflows.find_one filter w).0 wf found) in
      let (named, own) = workflow-matches r.workflow_id tenant wf fits in
      subst (IsNew tenant key r new (contents w)) (ap (λ x. contents x.1) (sym eq)) (
        insert_into-ok tenant key r new wf (m w).1 (contents w)
          (law.workflows.find_one_keeps filter w) there named own (ap (λ x. x.0) (sym eq) ∙ e))
