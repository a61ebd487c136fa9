-- ===== src/Store/Memory/Marks.antt =====
-- What the loop of `MarkOutboxPublished` and `MarkOutboxFailed` does to the list of events.
use enterprise_workflow_plat.Common.{
  String, List, [], ◌∷◌, some, ◌≡◌, inl, inr, arith, map, Option-cases, Bool-cases, ◌==◌,
}
use enterprise_workflow_plat.Domain.{OutboxEvent}
use enterprise_workflow_plat.Store.Memory.Outbox.{change_first}

module _ (id : String) (change : OutboxEvent → OutboxEvent) where
  -- A view of the events that the change leaves alone is the same afterwards.
  pub map-change_first :
      {B : Type 0} (f : OutboxEvent → B)
      → ((e : OutboxEvent) → f (change e) ≡ f e)
      → (es events : List OutboxEvent) → change_first id change es ≡ some events
      → map f events ≡ map f es
  unfolding change_first
  map-change_first f keeps [] events e = cc
  map-change_first f keeps (x ∷ es) events e = elim (Bool-cases (x.id == id)) [
    | inl hit ↦ ground (arith, keeps x)
    | inr miss ↦ elim (Option-cases (change_first id change es)) [
      | inl ended ↦ ground arith
      | inr (rest, e') ↦ ground (arith, map-change_first f keeps es rest e')
    ]
  ]
