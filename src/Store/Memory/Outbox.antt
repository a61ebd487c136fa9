-- ===== src/Store/Memory/Outbox.antt =====
-- `ListPendingOutbox`, `MarkOutboxPublished` and `MarkOutboxFailed` of `MemoryStore`.
use enterprise_workflow_plat.Common.{
  ℕ, String, List, [], ◌∷◌, ◌++◌, Option, none, some, Bool, true, false, ◌==◌, ok, err,
  if◌then◌else◌, nat_beq, length,
}
use mathlib.Core.Option
use enterprise_workflow_plat.Common.Int64.{inc64, is_positive}
use enterprise_workflow_plat.Domain.{Time, Int64, OutboxEvent}
use enterprise_workflow_plat.Store.{not_found}
use enterprise_workflow_plat.Store.Memory.{MemoryStore, Outcome}

-- `event.PublishedAt == nil`.
abbrev pub is_pending : OutboxEvent → Bool
is_pending e = elim e.published_at [ none ↦ true | some _ ↦ false ]

-- `if limit <= 0 { limit = 100 }`.
unfoldable pub effective_limit : Int64 → ℕ
effective_limit limit = if is_positive limit then limit else 100

-- The loop of `ListPendingOutbox`, which stops when `out` is full.
unfoldable pub pending_loop : ℕ → List OutboxEvent → List OutboxEvent → List OutboxEvent
pending_loop limit out [] = out
pending_loop limit out (e ∷ es) =
    let out' = out ++ e ∷ [] in
    let more = pending_loop limit out' es in
    let rest = pending_loop limit out es in
    if is_pending e then if nat_beq (length out') limit then out' else more else rest

unfoldable pub list_pending_outbox : Int64 → MemoryStore → List OutboxEvent
unfolding pending_loop
list_pending_outbox limit s = pending_loop (effective_limit limit) [] s.outbox

-- `for i := range s.outbox { if s.outbox[i].ID == id { …; return nil } }`: the first event with the
-- id is changed, and `none` stands for the end of the loop.
unfoldable pub change_first :
    String → (OutboxEvent → OutboxEvent) → List OutboxEvent → Option (List OutboxEvent)
change_first id change [] = none
change_first id change (e ∷ es) =
    if e.id == id then some (change e ∷ es) else Option.map (◌∷◌ e) (change_first id change es)

abbrev pub set_published : Time → OutboxEvent → OutboxEvent
set_published now e = record e { published_at = some now; last_error = "" }

abbrev pub set_failed : String → OutboxEvent → OutboxEvent
set_failed reason e = record e { attempts = inc64 e.attempts; last_error = reason }

abbrev write_outbox : MemoryStore → Option (List OutboxEvent) → Outcome (Unit {0})
write_outbox s none = (err not_found, s)
write_outbox s (some events) = (ok tt, record s { outbox = events })

unfoldable pub mark_outbox_published : Time → String → MemoryStore → Outcome (Unit {0})
mark_outbox_published now id s = write_outbox s (change_first id (set_published now) s.outbox)

unfoldable pub mark_outbox_failed : String → String → MemoryStore → Outcome (Unit {0})
mark_outbox_failed id reason s = write_outbox s (change_first id (set_failed reason) s.outbox)
