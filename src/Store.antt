-- ===== src/Store.antt =====
-- services/api/internal/store: the errors, the topic and the two interfaces of store.go.
pub mod Memory
pub mod Spec
use enterprise_workflow_plat.Common.{String}

-- `ErrNotFound`, `ErrConflict`, `ErrInvalidWorkflow`, and Go's run-time panic on `wf.States[0]`.
pub data StoreError : Type 0 where
  not_found conflict invalid_workflow index_out_of_range : StoreError

abbrev pub record_events_topic : String
record_events_topic = "workflow.record-events"
