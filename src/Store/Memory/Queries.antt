-- ===== src/Store/Memory/Queries.antt =====
-- The listing methods of `MemoryStore`. Go visits the entries of a map in an order that it does not
-- specify, and that may differ from one loop to the next: the order is an argument.
use enterprise_workflow_plat.Common.{
  String, List, [], ◌∷◌, not, ◌&&◌, ◌==◌, if◌then◌else◌, map, keep,
}
use enterprise_workflow_plat.Common.Map.{Map}
use enterprise_workflow_plat.Domain.{WorkflowDefinition, Record, AuditEvent}
use enterprise_workflow_plat.Store.Memory.{MemoryStore}

-- The entries of a map as one `range` loop visits them.
abbrev pub Range : Type 0 → Type 0
Range V = Map V → Map V

abbrev pub values : {V : Type 0} → Map V → List V
values = map (λ e. e.1)

unfoldable pub collect_workflows : String → List WorkflowDefinition → List WorkflowDefinition
collect_workflows tenant [] = []
collect_workflows tenant (wf ∷ wfs) =
    if wf.tenant_id == tenant
    then wf ∷ collect_workflows tenant wfs
    else collect_workflows tenant wfs

unfoldable pub list_workflows :
    Range WorkflowDefinition → String → MemoryStore → List WorkflowDefinition
list_workflows visit tenant s = collect_workflows tenant (values (visit s.workflows))

-- The loop of `ListRecords`, with its two `continue`s.
unfoldable pub collect_records : String → String → List Record → List Record
collect_records tenant state [] = []
collect_records tenant state (r ∷ rs) =
    let rest = collect_records tenant state rs in
    if not (r.tenant_id == tenant)
    then rest
    else if not (state == "") && not (r.state == state)
    then rest
    else r ∷ rest

unfoldable pub list_records : Range Record → String → String → MemoryStore → List Record
list_records visit tenant state s = collect_records tenant state (values (visit s.records))

unfoldable pub list_audit_events : String → MemoryStore → List AuditEvent
list_audit_events tenant s = keep (λ e. e.tenant_id == tenant) s.audit
