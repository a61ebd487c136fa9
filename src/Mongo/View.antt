-- ===== src/Mongo/View.antt =====
-- The view of the database by identifiers, and what a creation and an update are in it.
use enterprise_workflow_plat.Common.{
  String, [], ◌∷◌, ◌++◌, Option, some, ◌==◌, ◌≡◌, refl, sym, ◌∙◌, ap, subst, inl, inr, Bool-cases,
}
use enterprise_workflow_plat.Domain.{Time, Record, WorkflowDefinition, Int64}
use enterprise_workflow_plat.Domain.Value.{Members}
use enterprise_workflow_plat.Store.Spec.{Catalog, IsCreation, IsRevised, IsUpdate}
use enterprise_workflow_plat.Store.Memory.Revised.{updated_record-IsRevised}
use enterprise_workflow_plat.Mongo.Driver.{Driver}
use enterprise_workflow_plat.Mongo.Bson.{millis, stored_record}
use enterprise_workflow_plat.Mongo.Laws.{Database, Lawful}
use enterprise_workflow_plat.Mongo.Created.{IsNew, add_key, add_record}
use enterprise_workflow_plat.Mongo.Repeat.{key-keeps}
use enterprise_workflow_plat.Mongo.Versioned.{IsUpdated}
use enterprise_workflow_plat.Mongo.Ids.{
  Distinct, find_id, replace-Distinct, snoc-Distinct, find_id-middle, find_id-In, find_id-lacks,
  find_id-replace, find_id-snoc,
}

abbrev pub workflow_id_of : WorkflowDefinition → String
workflow_id_of wf = wf.id

abbrev pub record_id_of : Record → String
record_id_of r = r.id

-- `_id` is unique in the two collections.
abbrev pub HasDistinctIds : Database → Type 0
HasDistinctIds db = Distinct workflow_id_of db.workflows × Distinct record_id_of db.records

abbrev pub catalog : Database → Catalog
catalog db = record {
  workflow_of = λ k. find_id workflow_id_of k db.workflows;
  record_of = λ k. find_id record_id_of k db.records;
}

workflows_keep :
    (now : Time) (r : Record) (db : Database) → (add_key now r db).workflows ≡ db.workflows
workflows_keep now r db = elim (Bool-cases (r.idempotency == "")) [
  | inl on ↦ rw on refl
  | inr off ↦ rw off refl
]

module _ {W : Type 0} (driver : Driver W) (contents : W → Database)
    (law : Lawful driver contents) where
  IsNew-records :
      (tenant key : String) (r new : Record) (before after : Database)
      → IsNew driver contents law tenant key r new before after
      → (after.records ≡ before.records ++ stored_record new ∷ [])
        × (after.workflows ≡ before.workflows)
  IsNew-records tenant key r new before after n = (
    ap (λ db. db.records) n.stored.logged.writes
        ∙ key-keeps (millis n.time) new (add_record (stored_record new) before),
    ap (λ db. db.workflows) n.stored.logged.writes
        ∙ workflows_keep (millis n.time) new (add_record (stored_record new) before),
  )

  pub IsNew-IsCreation :
      (tenant key : String) (r new : Record) (before after : Database)
      → HasDistinctIds before
      → IsNew driver contents law tenant key r new before after
      → IsCreation tenant key r new (stored_record new) (catalog before) (catalog after)
  IsNew-IsCreation tenant key r new before after (workflows, records) n =
      let (stored, kept) = IsNew-records tenant key r new before after n in
      record {
        workflow = n.workflow;
        known =
            find_id-In workflow_id_of r.workflow_id before.workflows n.workflow n.there workflows
              n.workflow_is;
        allowed = n.own;
        later_states = n.later_states;
        state_is = n.state_is;
        tenant_is = n.tenant_is;
        key_is = n.key_is;
        version_is = n.version_is;
        workflow_is = n.same_workflow;
        data_is = n.same_data;
        unused = find_id-lacks record_id_of new.id before.records n.stored.new_id;
        writes = record {
          there =
              ap (find_id record_id_of new.id) stored
              ∙ find_id-middle record_id_of before.records [] (stored_record new) (
                  snoc-Distinct record_id_of before.records (stored_record new) n.stored.new_id
                    records);
          others = λ k other.
              ap (find_id record_id_of k) stored
              ∙ find_id-snoc record_id_of k before.records (stored_record new) other;
          workflows = λ k. ap (find_id workflow_id_of k) kept;
        };
      }

  pub IsNew-HasDistinctIds :
      (tenant key : String) (r new : Record) (before after : Database)
      → HasDistinctIds before
      → IsNew driver contents law tenant key r new before after
      → HasDistinctIds after
  IsNew-HasDistinctIds tenant key r new before after (workflows, records) n =
      let (stored, kept) = IsNew-records tenant key r new before after n in
      (
        subst (Distinct workflow_id_of) (sym kept) workflows,
        subst (Distinct record_id_of) (sym stored)
            (snoc-Distinct record_id_of before.records (stored_record new) n.stored.new_id records),
      )

-- The record that was replaced, and the collections afterwards.
module _ (tenant id : String) (expected : Int64) (state : String) (new_data : Option Members)
    (new : Record) (before after : Database)
    (u : IsUpdated tenant id expected state new_data new before after) where
  updated-IsRevised : IsRevised state new_data u.writes.old new
  updated-IsRevised =
      subst (IsRevised state new_data u.writes.old) (sym u.writes.is)
        (updated_record-IsRevised u.time state new_data u.writes.old)

  updated_records : after.records ≡ u.writes.there.before ++ new ∷ u.writes.there.after
  updated_records = ap (λ db. db.records) u.logged.writes ∙ ap (λ db. db.records) u.writes.writes

  updated_workflows : after.workflows ≡ before.workflows
  updated_workflows =
      ap (λ db. db.workflows) u.logged.writes ∙ ap (λ db. db.workflows) u.writes.writes

  pub IsUpdated-HasDistinctIds : HasDistinctIds before → HasDistinctIds after
  IsUpdated-HasDistinctIds (workflows, records) = (
    subst (Distinct workflow_id_of) (sym updated_workflows) workflows,
    subst (Distinct record_id_of) (sym updated_records) (
        replace-Distinct record_id_of u.writes.there.before u.writes.there.after u.writes.old new
          updated-IsRevised.same_id (subst (Distinct record_id_of) u.writes.there.split records)),
  )

  pub IsUpdated-IsUpdate :
      HasDistinctIds before
      → IsUpdate tenant id expected state new_data new (catalog before) (catalog after)
  IsUpdated-IsUpdate (workflows, records) =
      let old = u.writes.old in
      let was : find_id record_id_of id before.records ≡ some old =
        find_id-In record_id_of id before.records old u.writes.there records u.writes.old_id in
      let was' =
        find_id-In record_id_of id before.records u.checks.current u.checks.current_there records
          u.checks.current_id in
      let same : u.checks.current ≡ old = cc (sym was' ∙ was) in
      let new_id : new.id ≡ id = updated-IsRevised.same_id ∙ u.writes.old_id in
      record {
        old = old;
        was = was;
        tenant_is = u.writes.old_tenant;
        version_is = u.writes.old_version;
        allowed = elim u.checks.allowed [
          | inl none_given ↦ inl none_given
          | inr has ↦ inr (
            u.checks.workflow,
            find_id-In workflow_id_of old.workflow_id before.workflows u.checks.workflow
                u.checks.workflow_there workflows
                (u.checks.workflow_is ∙ ap (λ (r : Record). r.workflow_id) same),
            has,
          )
        ];
        revised = updated-IsRevised;
        writes = record {
          there =
              ap (find_id record_id_of id) updated_records
              ∙ ap
                  (λ k.
                    find_id record_id_of k (u.writes.there.before ++ new ∷ u.writes.there.after))
                  (sym new_id)
              ∙ find_id-middle record_id_of u.writes.there.before u.writes.there.after new (
                  replace-Distinct record_id_of u.writes.there.before u.writes.there.after old new
                    updated-IsRevised.same_id
                    (subst (Distinct record_id_of) u.writes.there.split records));
          others = λ k other.
              ap (find_id record_id_of k) updated_records
              ∙ find_id-replace record_id_of k u.writes.there.before u.writes.there.after old new
                  updated-IsRevised.same_id (λ e. other (e ∙ u.writes.old_id))
              ∙ ap (find_id record_id_of k) (sym u.writes.there.split);
          workflows = λ k. ap (find_id workflow_id_of k) updated_workflows;
        };
      }
