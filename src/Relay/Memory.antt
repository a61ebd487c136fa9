-- ===== src/Relay/Memory.antt =====
-- The relay over the in-memory store, with a publisher that decides event by event.
pub mod Round
pub mod Drain
use enterprise_workflow_plat.Common.{
  String, List, [], ◌∷◌, ◌++◌, Option, none, some, Result, ok, err,
}
use enterprise_workflow_plat.Domain.{Time, OutboxEvent}
use enterprise_workflow_plat.Store.{
  StoreError, not_found, conflict, invalid_workflow, index_out_of_range,
}
use enterprise_workflow_plat.Store.Memory.{MemoryStore, Outcome}
use enterprise_workflow_plat.Store.Memory.Outbox.{
  list_pending_outbox, mark_outbox_published, mark_outbox_failed,
}
use enterprise_workflow_plat.Relay.{Failure, Ports}

-- The store, and the events that the publisher has accepted, oldest first.
pub record World : Type 0 where
  pub store : MemoryStore
  pub sent : List OutboxEvent

-- `err.Error()` of the store's errors.
abbrev pub message : StoreError → String
message not_found = "not found"
message conflict = "version conflict"
message invalid_workflow = "invalid workflow"
message index_out_of_range = "runtime error: index out of range [0] with length 0"

abbrev pub as_failure : World → Outcome (Unit {0}) → Failure × World
as_failure w (ok _, s) = (none, record w { store = s })
as_failure w (err e, s) = (some (message e), record w { store = s })

-- `refuses event sent` is the publisher's error for an event, if it has one.
abbrev pub send : (OutboxEvent → List OutboxEvent → Failure) → OutboxEvent → World → Failure × World
send refuses event w = elim (refuses event w.sent) [
  | some e ↦ (some e, w)
  | none ↦ (none, record w { sent = w.sent ++ event ∷ [] })
]

-- `MemoryStore` has no `MarkOutboxPublishedBatch`, so the relay publishes one by one.
abbrev pub memory_ports : (World → Time) → (OutboxEvent → List OutboxEvent → Failure) → Ports World
memory_ports now refuses = record {
  list_pending = λ limit w. (ok (list_pending_outbox limit w.store), w);
  mark_published = λ id w. as_failure w (mark_outbox_published (now w) id w.store);
  mark_failed = λ id reason w. as_failure w (mark_outbox_failed id reason w.store);
  publish = send refuses;
  publish_batch = none;
  mark_published_batch = none;
}
