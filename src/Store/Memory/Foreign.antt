-- ===== src/Store/Memory/Foreign.antt =====
-- No call by one tenant changes what another tenant reads.
use enterprise_workflow_plat.Common.{
  String, [], ◌∷◌, ◌++◌, Option, some, ◌≡◌, ◌≢◌, refl, sym, ◌∙◌, ap, arith,
}
use enterprise_workflow_plat.Common.Map.{lookup, insert, lookup-insert_cases, lookup-insert_unused}
use enterprise_workflow_plat.Domain.{Record, WorkflowDefinition, Int64}
use enterprise_workflow_plat.Domain.Value.{Members}
use enterprise_workflow_plat.Store.Memory.{
  MemoryStore, Clock, next_id, append_events, write_new, write_update, new_record, updated_record,
  create_workflow, create_record, update_record, get_record,
}
use enterprise_workflow_plat.Store.Memory.Outbox.{mark_outbox_published, mark_outbox_failed}
use enterprise_workflow_plat.Store.Memory.Cases.{
  create_workflow_cases, create_record_cases, insert_record_cases, update_record_cases,
  stored_workflow,
}
use enterprise_workflow_plat.Store.Memory.Fresh.{HasRoom, IsFresh}
use enterprise_workflow_plat.Store.Memory.Validity.{
  next_id-unused, maps-write_new, maps-write_update,
}
use enterprise_workflow_plat.Store.Memory.Queries.{list_audit_events}
use enterprise_workflow_plat.Store.Memory.Trace.{
  Call, creates_workflow, creates_record, updates_record, marks_published, marks_failed, step,
}
use enterprise_workflow_plat.Store.Memory.Isolation.{
  SameView, SameView-refl, get_record-write, list_audit_events-append, audit-append_events,
}

-- A call that is not the tenant's: another tenant's, or the relay's.
abbrev pub IsForeign : String → Call → Type 0
IsForeign tenant (creates_workflow _ caller _) = caller ≢ tenant
IsForeign tenant (creates_record _ caller _ _) = caller ≢ tenant
IsForeign tenant (updates_record _ caller _ _ _ _) = caller ≢ tenant
IsForeign tenant (marks_published _ _) = Unit
IsForeign tenant (marks_failed _ _) = Unit

-- Stores that differ in the outbox and the counter only.
SameView-fields :
    (tenant : String) (s t : MemoryStore)
    → t.records ≡ s.records
    → t.workflows ≡ s.workflows
    → t.audit ≡ s.audit
    → SameView tenant s t
unfolding list_audit_events get_record
SameView-fields tenant s t r w a = record {
  records = λ id. rw (r, get_record);
  workflows = λ id wf _. (λ e. sym (ap (lookup id) w) ∙ e, λ e. ap (lookup id) w ∙ e);
  audit = rw (a, list_audit_events);
}

next_id-SameView :
    (tenant prefix : String) (s : MemoryStore) → SameView tenant s (next_id prefix s).1
unfolding next_id
next_id-SameView tenant prefix s = SameView-fields tenant s (next_id prefix s).1 refl refl refl

create_workflow-SameView :
    (tenant caller : String) (clock : Clock) (wf : WorkflowDefinition) (s : MemoryStore)
    → HasRoom s
    → IsFresh s
    → caller ≢ tenant
    → SameView tenant s (create_workflow clock caller wf s).1
unfolding next_id get_record list_audit_events
create_workflow-SameView tenant caller clock wf s h f foreign =
    create_workflow_cases (λ o. SameView tenant s o.1) clock caller wf s (SameView-refl tenant s)
      λ _ _ _. record {
        records = λ _. refl;
        workflows = λ id x own. (
          λ e.
              lookup-insert_cases (λ j y. y.tenant_id ≡ tenant → lookup j s.workflows ≡ some y)
                (next_id "wf" s).0 (stored_workflow clock caller wf s) s.workflows
                (λ e'. absurd (foreign e')) (λ _ _ _ found _. found) id x e own,
          λ e. lookup-insert_unused _ id _ x s.workflows (next_id-unused s h f).0 e,
        );
        audit = refl;
      }

-- A record of the caller is written and logged.
write-SameView :
    (tenant typ k : String) (clock : Clock) (r : Record) (s t u : MemoryStore)
    → t.records ≡ insert k r s.records
    → t.workflows ≡ s.workflows
    → u.audit ≡ s.audit
    → t.audit ≡ (append_events clock r typ u).audit
    → r.tenant_id ≢ tenant
    → ((old : Record) → lookup k s.records ≡ some old → old.tenant_id ≢ tenant)
    → SameView tenant s t
write-SameView tenant typ k clock r s t u records workflows before audit foreign was =
    let (e, logged, same_tenant) = audit-append_events clock r typ u in
    record {
      records = get_record-write tenant k r s t records foreign was;
      workflows = λ id wf _.
          (λ e'. sym (ap (lookup id) workflows) ∙ e', λ e'. ap (lookup id) workflows ∙ e');
      audit =
          list_audit_events-append tenant e s t (audit ∙ logged ∙ ap (λ xs. xs ++ e ∷ []) before)
            (λ own. foreign (sym same_tenant ∙ own));
    }

create_record-SameView :
    (tenant caller key : String) (clock : Clock) (r : Record) (s : MemoryStore)
    → HasRoom s
    → IsFresh s
    → caller ≢ tenant
    → SameView tenant s (create_record clock caller key r s).1
unfolding next_id new_record write_new
create_record-SameView tenant caller key clock r s h f foreign =
    create_record_cases (λ o. SameView tenant s o.1) clock caller key r s (SameView-refl tenant s)
      (λ _ _. SameView-refl tenant s)
      λ wf found own _.
        insert_record_cases (λ o. SameView tenant s o.1) clock caller key wf r s wf.states refl
          (λ _. next_id-SameView tenant "rec" s)
          λ first rest _.
            let stored = new_record (clock 0) (next_id "rec" s).0 caller key first r in
            let (workflows, records, _) =
              maps-write_new clock caller key stored (next_id "rec" s).1 in
            write-SameView tenant "record.created" stored.id clock stored s _ _ records workflows
              refl refl foreign (λ old e. cc (sym (next_id-unused s h f).1 ∙ e))

update_record-SameView :
    (tenant caller id state : String) (clock : Clock) (expected : Int64) (new_data : Option Members)
    (s : MemoryStore)
    → caller ≢ tenant
    → SameView tenant s (update_record clock caller id expected state new_data s).1
unfolding updated_record write_update
update_record-SameView tenant caller id state clock expected new_data s foreign =
    update_record_cases (λ o. SameView tenant s o.1) clock caller id expected state new_data s
      (λ _ _ _. SameView-refl tenant s) (λ _. SameView-refl tenant s)
      (λ _ _ _ _. SameView-refl tenant s) (λ _ _ _ _ _ _. SameView-refl tenant s)
      λ r found own _ _.
        let new = updated_record (clock 0) state new_data r in
        let (workflows, records, _) = maps-write_update clock id new s in
        write-SameView tenant "record.updated" id clock new s _ _ records workflows refl refl
          (λ e. foreign (sym own ∙ e))
          λ old e e'.
            let same : old ≡ r = cc (sym e ∙ found) in
            foreign (sym own ∙ sym (ap (λ x. x.tenant_id) same) ∙ e')

-- Whatever a call by another tenant or by the relay does and returns, the tenant's records, its
-- workflows and its audit events read as before. The store's identifiers are fresh and its counter
-- has room for the call.
pub step-SameView :
    (tenant : String) (c : Call) (s : MemoryStore)
    → HasRoom s
    → IsFresh s
    → IsForeign tenant c
    → SameView tenant s (step c s)
unfolding step mark_outbox_published mark_outbox_failed
step-SameView tenant (creates_workflow clock caller wf) s h f foreign =
    create_workflow-SameView tenant caller clock wf s h f foreign
step-SameView tenant (creates_record clock caller key r) s h f foreign =
    create_record-SameView tenant caller key clock r s h f foreign
step-SameView tenant (updates_record clock caller id expected state new_data) s h f foreign =
    update_record-SameView tenant caller id state clock expected new_data s foreign
step-SameView tenant (marks_published now id) s h f _ =
    SameView-fields tenant s _ (ground arith) (ground arith) (ground arith)
step-SameView tenant (marks_failed id reason) s h f _ =
    SameView-fields tenant s _ (ground arith) (ground arith) (ground arith)
