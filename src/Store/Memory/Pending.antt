-- ===== src/Store/Memory/Pending.antt =====
-- What the relay sees of the outbox: which events are pending, and what marking does to them.
use enterprise_workflow_plat.Common.{
  ℕ, suc, zero, String, List, [], ◌∷◌, ◌++◌, some, none, true, false, not, ◌≡◌, ◌≢◌, ◌<◌, ◌+◌, ◌-◌,
  refl, sym, ◌∙◌, ap, arith, inl, inr, err, ok, map, keep, take, length, length-append,
  append_assoc, append-nil, All, nat_beq, ◌==◌, eq_iff, if◌then◌else◌, Option-cases, Bool-cases,
  subst, ◌↔◌, ◌⊎◌,
}
use enterprise_workflow_plat.Common.Int64.{inc64}
use enterprise_workflow_plat.Domain.{Time, Int64, OutboxEvent}
use enterprise_workflow_plat.Store.{not_found}
use enterprise_workflow_plat.Store.Memory.{MemoryStore, Outcome}
use enterprise_workflow_plat.Store.Memory.Outbox.{
  is_pending, effective_limit, pending_loop, list_pending_outbox, change_first, set_published,
  set_failed, mark_outbox_published, mark_outbox_failed,
}
use enterprise_workflow_plat.Store.Memory.Ids.{ids, Distinct}

nat_beq-true : (m n : ℕ) → m ≡ n → nat_beq m n ≡ true
nat_beq-true m n h = ground arith

nat_beq-false : (m n : ℕ) → m ≢ n → nat_beq m n ≡ false
nat_beq-false m n h = ground arith

push_size : (e : OutboxEvent) (out : List OutboxEvent) → length (out ++ e ∷ []) ≡ suc (length out)
push_size e out = omega (arith, length-append out (e ∷ []))

-- The loop from any point on, with room for `suc room` more events.
pending_loop-eq :
    (limit room : ℕ) (out es : List OutboxEvent)
    → length out + suc room ≡ limit
    → pending_loop limit out es ≡ out ++ take (suc room) (keep is_pending es)
unfolding pending_loop
pending_loop-eq limit room out [] h = sym (append-nil out)
pending_loop-eq limit zero out (e ∷ es) h = elim (Bool-cases (is_pending e)) [
  | inr done ↦ rw (done, pending_loop) (pending_loop-eq limit zero out es h)
  | inl pending ↦ rw (
    pending,
    pending_loop,
    nat_beq-true (length (out ++ e ∷ [])) limit (omega (arith, push_size e out)),
  )
]
pending_loop-eq limit (suc k) out (e ∷ es) h = elim (Bool-cases (is_pending e)) [
  | inr done ↦ rw (done, pending_loop) (pending_loop-eq limit (suc k) out es h)
  | inl pending ↦
      rw
        (
          pending,
          pending_loop,
          nat_beq-false (length (out ++ e ∷ [])) limit (omega (arith, push_size e out)),
        )
        (pending_loop-eq limit k (out ++ e ∷ []) es (omega (arith, push_size e out))
          ∙ append_assoc out (e ∷ []) (take (suc k) (keep is_pending es)))
]

effective_limit-pos : (limit : Int64) → 0 < effective_limit limit
unfolding effective_limit
effective_limit-pos limit = ground arith

-- The events listed are the first pending ones in the order of the outbox, as many as the limit
-- allows; a limit of zero or less stands for one hundred.
pub list_pending_outbox-eq :
    (limit : Int64) (s : MemoryStore)
    → list_pending_outbox limit s ≡ take (effective_limit limit) (keep is_pending s.outbox)
unfolding list_pending_outbox
list_pending_outbox-eq limit s =
    let room : effective_limit limit ≡ suc (effective_limit limit - 1) =
      omega (arith, effective_limit-pos limit) in
    pending_loop-eq (effective_limit limit) (effective_limit limit - 1) [] s.outbox (omega arith)
    ∙ ap (λ n. take n (keep is_pending s.outbox)) (sym room)

-- The change of the one event with an identifier.
abbrev pub at_id : String → (OutboxEvent → OutboxEvent) → OutboxEvent → OutboxEvent
at_id id change e = if e.id == id then change e else e

map-at_id_absent :
    (id : String) (change : OutboxEvent → OutboxEvent) (es : List OutboxEvent)
    → All (λ k. k ≢ id) (ids es)
    → map (at_id id change) es ≡ es
map-at_id_absent id change [] h = refl
map-at_id_absent id change (e ∷ es) (other, h) =
    ground (arith, eq_iff e.id id, map-at_id_absent id change es h)

-- Where identifiers are distinct, the loop changes the event with the identifier and no other.
pub change_first-eq :
    (id : String) (change : OutboxEvent → OutboxEvent) (es events : List OutboxEvent)
    → Distinct (ids es)
    → change_first id change es ≡ some events
    → events ≡ map (at_id id change) es
unfolding change_first
change_first-eq id change [] events d e = cc
change_first-eq id change (x ∷ es) events (first, d) e = elim (Bool-cases (x.id == id)) [
  | inl hit ↦
      let same : x.id ≡ id = (eq_iff x.id id).0 hit in
      ground
        (arith, map-at_id_absent id change es (subst (λ k. All (λ j. j ≢ k) (ids es)) same first))
  | inr miss ↦ elim (Option-cases (change_first id change es)) [
    | inl ended ↦ ground arith
    | inr (rest, e') ↦ ground (arith, change_first-eq id change es rest d e')
  ]
]

-- The loop fails exactly when no event has the identifier.
pub change_first-none_iff :
    (id : String) (change : OutboxEvent → OutboxEvent) (es : List OutboxEvent)
    → (change_first id change es ≡ none) ↔ All (λ k. k ≢ id) (ids es)
unfolding change_first
change_first-none_iff id change [] = (λ _. tt, λ _. refl)
change_first-none_iff id change (x ∷ es) =
    let rest = change_first-none_iff id change es in
    elim (Option-cases (change_first id change es)) [
      | inl ended ↦
          (λ e. (ground (arith, eq_iff x.id id), rest.0 ended), λ h. ground (arith, eq_iff x.id id))
      | inr (events, e') ↦ (λ e. absurd (ground arith), λ h. cc (sym (rest.1 h.1) ∙ e'))
    ]

-- Publishing an event takes it, and it alone, out of the pending ones.
pub keep-set_published :
    (id : String) (now : Time) (es : List OutboxEvent)
    → keep is_pending (map (at_id id (set_published now)) es)
      ≡ keep (λ e. not (e.id == id)) (keep is_pending es)
keep-set_published id now [] = refl
keep-set_published id now (e ∷ es) = ground (arith, keep-set_published id now es)

-- Either no event has the identifier, and marking fails and changes nothing; or one has, and
-- marking succeeds and changes that event alone. Identifiers are distinct.
abbrev pub MarksOne :
    String → (OutboxEvent → OutboxEvent) → MemoryStore → Outcome (Unit {0}) → Type 0
MarksOne id change s o =
    (All (λ k. k ≢ id) (ids s.outbox) × (o ≡ (err not_found, s)))
    ⊎ ((¬ All (λ k. k ≢ id) (ids s.outbox))
        × (o ≡ (ok tt, record s { outbox = map (at_id id change) s.outbox })))

-- On a store whose events have distinct identifiers, `mark_outbox_published` fails with `not_found`
-- and changes nothing if no event has the identifier; otherwise it succeeds, sets the time of
-- publication of that event and clears its last error, and changes nothing else.
pub mark_outbox_published-MarksOne :
    (now : Time) (id : String) (s : MemoryStore)
    → Distinct (ids s.outbox)
    → MarksOne id
        (λ e. record e { published_at = some now; last_error = "" })
        s
        (mark_outbox_published now id s)
unfolding mark_outbox_published
mark_outbox_published-MarksOne now id s d =
    elim (Option-cases (change_first id (set_published now) s.outbox)) [
      | inl ended ↦
          rw (ended, mark_outbox_published)
            (inl ((change_first-none_iff id (set_published now) s.outbox).0 ended, refl))
      | inr (events, e) ↦
          rw (e, mark_outbox_published)
            (inr (
              λ h. cc (sym ((change_first-none_iff id (set_published now) s.outbox).1 h) ∙ e),
              rw (change_first-eq id (set_published now) s.outbox events d e),
            ))
    ]

-- On a store whose events have distinct identifiers, `mark_outbox_failed` fails with `not_found`
-- and changes nothing if no event has the identifier; otherwise it succeeds, adds one to the attempts
-- of that event, with the wrap of `int64`, and sets its last error to the reason, and changes nothing
-- else.
pub mark_outbox_failed-MarksOne :
    (id reason : String) (s : MemoryStore)
    → Distinct (ids s.outbox)
    → MarksOne id
        (λ e. record e { attempts = inc64 e.attempts; last_error = reason })
        s
        (mark_outbox_failed id reason s)
unfolding mark_outbox_failed
mark_outbox_failed-MarksOne id reason s d =
    elim (Option-cases (change_first id (set_failed reason) s.outbox)) [
      | inl ended ↦
          rw (ended, mark_outbox_failed)
            (inl ((change_first-none_iff id (set_failed reason) s.outbox).0 ended, refl))
      | inr (events, e) ↦
          rw (e, mark_outbox_failed)
            (inr (
              λ h. cc (sym ((change_first-none_iff id (set_failed reason) s.outbox).1 h) ∙ e),
              rw (change_first-eq id (set_failed reason) s.outbox events d e),
            ))
    ]
