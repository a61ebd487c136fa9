-- ===== src/Store/Memory/Change.antt =====
-- What one call does to a `MemoryStore`, as a relation: the methods implement it, and the
-- invariants are proved from it alone.
use enterprise_workflow_plat.Common.{
  String, List, [], ◌∷◌, Option, none, some, true, ◌≡◌, ◌≢◌, ◌⊎◌, refl, inl, inr, Option-cases,
  contains, get_or,
}
use enterprise_workflow_plat.Common.Map.{lookup, insert}
use enterprise_workflow_plat.Domain.{
  Time, WorkflowDefinition, Record, Int64, OutboxEvent, zero_workflow,
}
use enterprise_workflow_plat.Domain.Value.{Members}
use enterprise_workflow_plat.Store.Memory.{
  MemoryStore, Clock, next_id, create_record, find_replay, new_record, write_new, update_record,
  updated_record, write_update,
}
use enterprise_workflow_plat.Store.Memory.Cases.{
  stored_workflow, create_workflow_cases, create_record_cases, insert_record_cases,
  update_record_cases,
}
use enterprise_workflow_plat.Store.Memory.Outbox.{
  change_first, set_published, set_failed, mark_outbox_published, mark_outbox_failed,
}
use enterprise_workflow_plat.Store.Memory.Trace.{
  Call, creates_workflow, creates_record, updates_record, marks_published, marks_failed, step,
}

-- The record that a creating call writes.
abbrev pub first_version : Clock → String → String → String → Record → MemoryStore → Record
first_version clock tenant key first r s =
    new_record (clock 0) (next_id "rec" s).0 tenant key first r

pub data Change (s : MemoryStore) : MemoryStore → Type 0 where
  unchanged : Change s s
  counted : Change s (next_id "rec" s).1
  defined :
      (clock : Clock) (tenant : String) (wf : WorkflowDefinition)
      → tenant ≢ ""
      → wf.states ≢ []
      → wf.name ≢ ""
      → Change s (record (next_id "wf" s).1 {
        workflows =
            insert
              (next_id "wf" s).0
              (stored_workflow clock tenant wf s)
              (next_id "wf" s).1.workflows;
      })
  created :
      (clock : Clock) (tenant key : String) (wf : WorkflowDefinition) (r : Record) (first : String)
      (rest : List String)
      → lookup r.workflow_id s.workflows ≡ some wf
      → wf.tenant_id ≡ tenant
      → wf.states ≡ first ∷ rest
      → find_replay tenant key s ≡ none
      → Change s
          (write_new clock tenant key
            (first_version clock tenant key first r s)
            (next_id "rec" s).1).1
  updated :
      (clock : Clock) (id state : String) (new_data : Option Members) (r : Record)
      → lookup id s.records ≡ some r
      → (state ≡ "")
        ⊎ (contains (get_or (lookup r.workflow_id s.workflows) zero_workflow).states state ≡ true)
      → Change s (write_update clock id (updated_record (clock 0) state new_data r) s).1
  published :
      (now : Time) (id : String) (events : List OutboxEvent)
      → change_first id (set_published now) s.outbox ≡ some events
      → Change s (record s { outbox = events })
  failed :
      (id reason : String) (events : List OutboxEvent)
      → change_first id (set_failed reason) s.outbox ≡ some events
      → Change s (record s { outbox = events })

create_record-Change :
    (clock : Clock) (tenant key : String) (r : Record) (s : MemoryStore)
    → Change s (create_record clock tenant key r s).1
create_record-Change clock tenant key r s =
    create_record_cases (λ o. Change s o.1) clock tenant key r s unchanged (λ _ _. unchanged)
      λ wf found own new.
        insert_record_cases (λ o. Change s o.1) clock tenant key wf r s wf.states refl
          (λ _. counted) λ first rest e. created clock tenant key wf r first rest found own e new

update_record-Change :
    (clock : Clock) (tenant id : String) (expected : Int64) (state : String)
    (new_data : Option Members) (s : MemoryStore)
    → Change s (update_record clock tenant id expected state new_data s).1
update_record-Change clock tenant id expected state new_data s =
    update_record_cases (λ o. Change s o.1) clock tenant id expected state new_data s
      (λ _ _ _. unchanged) (λ _. unchanged) (λ _ _ _ _. unchanged) (λ _ _ _ _ _ _. unchanged)
      λ r found _ _ allowed. updated clock id state new_data r found allowed

mark_outbox_published-Change :
    (now : Time) (id : String) (s : MemoryStore) → Change s (mark_outbox_published now id s).1
unfolding mark_outbox_published
mark_outbox_published-Change now id s =
    elim (Option-cases (change_first id (set_published now) s.outbox)) [
      | inl missing ↦ rw (missing, mark_outbox_published) unchanged
      | inr (events, e) ↦ rw (e, mark_outbox_published) (published now id events e)
    ]

mark_outbox_failed-Change :
    (id reason : String) (s : MemoryStore) → Change s (mark_outbox_failed id reason s).1
unfolding mark_outbox_failed
mark_outbox_failed-Change id reason s =
    elim (Option-cases (change_first id (set_failed reason) s.outbox)) [
      | inl missing ↦ rw (missing, mark_outbox_failed) unchanged
      | inr (events, e) ↦ rw (e, mark_outbox_failed) (failed id reason events e)
    ]

-- Every call is one of the changes.
pub step-Change : (c : Call) (s : MemoryStore) → Change s (step c s)
unfolding step
step-Change (creates_workflow clock tenant wf) s =
    create_workflow_cases (λ o. Change s o.1) clock tenant wf s unchanged (defined clock tenant wf)
step-Change (creates_record clock tenant key r) s = create_record-Change clock tenant key r s
step-Change (updates_record clock tenant id expected state new_data) s =
    update_record-Change clock tenant id expected state new_data s
step-Change (marks_published now id) s = mark_outbox_published-Change now id s
step-Change (marks_failed id reason) s = mark_outbox_failed-Change id reason s
