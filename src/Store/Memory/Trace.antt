-- ===== src/Store/Memory/Trace.antt =====
-- The calls that change a `MemoryStore`, and sequences of them. The mutex makes each call atomic,
-- so every interleaving of the service's goroutines is such a sequence.
use enterprise_workflow_plat.Common.{String, List, [], ◌∷◌, Option}
use enterprise_workflow_plat.Domain.{Time, Int64, WorkflowDefinition, Record}
use enterprise_workflow_plat.Domain.Value.{Members}
use enterprise_workflow_plat.Store.Memory.{
  MemoryStore, Clock, create_workflow, create_record, update_record,
}
use enterprise_workflow_plat.Store.Memory.Outbox.{mark_outbox_published, mark_outbox_failed}

pub data Call : Type 0 where
  creates_workflow : Clock → (tenant : String) → WorkflowDefinition → Call
  creates_record : Clock → (tenant key : String) → Record → Call
  updates_record : Clock → (tenant id : String) → Int64 → (state : String) → Option Members → Call
  marks_published : Time → (id : String) → Call
  marks_failed : (id reason : String) → Call

-- The store after a call, whatever the call returned.
unfoldable pub step : Call → MemoryStore → MemoryStore
step (creates_workflow clock tenant wf) s = (create_workflow clock tenant wf s).1
step (creates_record clock tenant key r) s = (create_record clock tenant key r s).1
step (updates_record clock tenant id expected state new_data) s =
    (update_record clock tenant id expected state new_data s).1
step (marks_published now id) s = (mark_outbox_published now id s).1
step (marks_failed id reason) s = (mark_outbox_failed id reason s).1

unfoldable pub run : List Call → MemoryStore → MemoryStore
run [] s = s
run (c ∷ cs) s = run cs (step c s)
