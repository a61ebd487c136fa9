-- ===== src/Relay/Memory/Round.antt =====
-- One batch of `publishSequential` over the in-memory store.
use enterprise_workflow_plat.Common.{
  ℕ, ◌+◌, String, List, [], ◌∷◌, ◌++◌, none, some, ok, ◌≡◌, ◌≢◌, refl, sym, ◌∙◌, ap, arith, inl,
  inr, map, keep, length, not, Bool, ◌==◌, eq_iff, All, Option-cases, Bool-cases, subst,
  append_assoc, append-nil,
}
use enterprise_workflow_plat.Domain.{Time, OutboxEvent}
use enterprise_workflow_plat.Store.Memory.{MemoryStore}
use enterprise_workflow_plat.Store.Memory.Outbox.{is_pending, set_published, mark_outbox_published}
use enterprise_workflow_plat.Store.Memory.Ids.{ids, Distinct}
use enterprise_workflow_plat.Store.Memory.Pending.{
  at_id, keep-set_published, mark_outbox_published-MarksOne,
}
use enterprise_workflow_plat.Relay.{Failure, Ports, publish_loop, join_errors, publish_error}
use enterprise_workflow_plat.Relay.Memory.{World, memory_ports, send, as_failure}

abbrev pub pending : MemoryStore → List OutboxEvent
pending s = keep is_pending s.outbox

module _ {W : Type 0} (ports : Ports W) (n : ℕ) (b : Failure) (event : OutboxEvent)
    (items : List OutboxEvent) (w w' : W) where
  -- A refused item.
  publish_loop-refused :
      (e : String)
      → ports.publish event w ≡ (some e, w')
      → publish_loop ports n b (event ∷ items) w
        ≡ publish_loop ports n
            (join_errors b (publish_error event e))
            items
            (ports.mark_failed event.id e w').1
  unfolding publish_loop
  publish_loop-refused e h = rw (h, publish_loop, h)

  -- An item that is sent and marked.
  publish_loop-sent :
      (w'' : W)
      → ports.publish event w ≡ (none, w')
      → ports.mark_published event.id w' ≡ (none, w'')
      → publish_loop ports n b (event ∷ items) w ≡ publish_loop ports (n + 1) b items w''
  unfolding publish_loop
  publish_loop-sent w'' h k = rw (h, publish_loop, h, k, h, k)

-- Once there is an error, the loop returns one.
publish_loop-keeps_error :
    {W : Type 0} (ports : Ports W) (n : ℕ) (e : String) (items : List OutboxEvent) (w : W)
    → (publish_loop ports n (some e) items w).0.1 ≢ none
unfolding publish_loop
publish_loop-keeps_error ports n e [] w = λ h. cc
publish_loop-keeps_error ports n e (event ∷ items) w =
    elim (Option-cases (ports.publish event w).0) [
      | inr (reason, refused) ↦
          rw (refused, publish_loop) (publish_loop-keeps_error ports n _ items _)
      | inl sent ↦ elim (Option-cases (ports.mark_published event.id (ports.publish event w).1).0) [
        | inr (reason, unmarked) ↦
            rw (sent, publish_loop, unmarked) (publish_loop-keeps_error ports n _ items _)
        | inl marked ↦
            rw (sent, publish_loop, marked) (publish_loop-keeps_error ports (n + 1) e items _)
      ]
    ]

ids-at_id :
    (id : String) (now : Time) (es : List OutboxEvent)
    → ids (map (at_id id (set_published now)) es) ≡ ids es
ids-at_id id now [] = refl
ids-at_id id now (e ∷ es) = ground (arith, ids-at_id id now es)

-- An event that is listed is in the outbox.
not_absent :
    (id : String) (es : List OutboxEvent) (e : OutboxEvent) (more : List OutboxEvent)
    → keep is_pending es ≡ e ∷ more
    → e.id ≡ id
    → ¬ All (λ k. k ≢ id) (ids es)
not_absent id [] e more h own = λ _. cc
not_absent id (x ∷ es) e more h own = λ a. elim (Bool-cases (is_pending x)) [
  | inl here ↦ a.0 (let same : x ≡ e = ground arith in ap (λ y. y.id) same ∙ own)
  | inr other ↦ not_absent id es e more (ground arith) own a.1
]

All-ids-keep :
    (k : String) (p : OutboxEvent → Bool) (es : List OutboxEvent)
    → All (λ j. j ≢ k) (ids es)
    → All (λ j. j ≢ k) (ids (keep p es))
All-ids-keep k p [] a = tt
All-ids-keep k p (e ∷ es) a = ground (arith, All-ids-keep k p es a.1)

Distinct-keep :
    (p : OutboxEvent → Bool) (es : List OutboxEvent)
    → Distinct (ids es)
    → Distinct (ids (keep p es))
Distinct-keep p [] d = tt
Distinct-keep p (e ∷ es) d = ground (arith, Distinct-keep p es d.1, All-ids-keep e.id p es d.0)

keep-other :
    (id : String) (es : List OutboxEvent)
    → All (λ j. j ≢ id) (ids es)
    → keep (λ e. not (e.id == id)) es ≡ es
keep-other id [] a = refl
keep-other id (e ∷ es) a = ground (arith, eq_iff e.id id, keep-other id es a.1)

-- Publishing the first pending event succeeds and leaves the others pending.
record PublishesFirst (now : Time) (e : OutboxEvent) (more : List OutboxEvent) (s : MemoryStore)
    : Type 0 where
  after : MemoryStore
  marked : mark_outbox_published now e.id s ≡ (ok tt, after)
  left : pending after ≡ more
  distinct : Distinct (ids after.outbox)

publishes_first :
    (now : Time) (e : OutboxEvent) (more : List OutboxEvent) (s : MemoryStore)
    → Distinct (ids s.outbox)
    → pending s ≡ e ∷ more
    → PublishesFirst now e more s
publishes_first now e more s d h = elim (mark_outbox_published-MarksOne now e.id s d) [
  | inl (absent, _) ↦ absurd (not_absent e.id s.outbox e more h refl absent)
  | inr (_, marked) ↦ record {
    after = record s { outbox = map (at_id e.id (set_published now)) s.outbox };
    marked = marked;
    left =
        keep-set_published e.id now s.outbox
        ∙ ap (keep (λ x. not (x.id == e.id))) h
        ∙ ground (
          arith,
          eq_iff e.id e.id,
          keep-other e.id more
              (subst (λ l. Distinct (ids l)) h (Distinct-keep is_pending s.outbox d)).0,
        );
    distinct = subst Distinct (sym (ids-at_id e.id now s.outbox)) d;
  }
]

-- What a batch without an error has done: every item is published, in order, and no longer pending.
pub record IsPublished (n : ℕ) (items rest : List OutboxEvent) (w : World)
    (r : (ℕ × Failure) × World) : Type 0 where
  pub counted : r.0.0 ≡ n + length items
  pub left : pending r.1.store ≡ rest
  pub distinct : Distinct (ids r.1.store.outbox)
  pub sent : r.1.sent ≡ w.sent ++ items

module _ (now : World → Time) (refuses : OutboxEvent → List OutboxEvent → Failure) where
  abbrev after_first :
      {t : Time} {event : OutboxEvent} {more : List OutboxEvent} (w : World) (e : OutboxEvent)
      → PublishesFirst t event more w.store
      → World
  after_first w e first = record { store = first.after; sent = w.sent ++ e ∷ [] }

  -- An accepted first item is marked, counted and logged.
  publish_loop-first :
      (n : ℕ) (event : OutboxEvent) (items rest : List OutboxEvent) (w : World)
      → Distinct (ids w.store.outbox)
      → pending w.store ≡ event ∷ (items ++ rest)
      → refuses event w.sent ≡ none
      → (first : PublishesFirst
          (now (record w { sent = w.sent ++ event ∷ [] }))
          event
          (items ++ rest)
          w.store)
        × (publish_loop (memory_ports now refuses) n none (event ∷ items) w
            ≡ publish_loop
                (memory_ports now refuses)
                (n + 1)
                none
                items
                (after_first w event first))
  publish_loop-first n event items rest w d h accepted =
      let w' : World = record w { sent = w.sent ++ event ∷ [] } in
      let first = publishes_first (now w') event (items ++ rest) w.store d h in
      (
        first,
        publish_loop-sent (memory_ports now refuses) n none event items w w'
            (after_first w event first) (rw (accepted, send)) (rw (first.marked, as_failure)),
      )

  pub publish_loop-IsPublished :
      (n : ℕ) (items rest : List OutboxEvent) (w : World)
      → Distinct (ids w.store.outbox)
      → pending w.store ≡ items ++ rest
      → (publish_loop (memory_ports now refuses) n none items w).0.1 ≡ none
      → IsPublished n items rest w (publish_loop (memory_ports now refuses) n none items w)
  unfolding publish_loop
  publish_loop-IsPublished n [] rest w d h e = record {
    counted = omega arith;
    left = h;
    distinct = d;
    sent = sym (append-nil w.sent);
  }
  publish_loop-IsPublished n (event ∷ items) rest w d h e =
      elim (Option-cases (refuses event w.sent)) [
        | inr (reason, refused) ↦ absurd (
            publish_loop-keeps_error (memory_ports now refuses) n _ items _ (
              ap (λ r. r.0.1)
                (sym (
                  publish_loop-refused (memory_ports now refuses) n none event items w w reason
                    (rw (refused, send))))
              ∙ e))
        | inl accepted ↦
            let (first, step) = publish_loop-first n event items rest w d h accepted in
            let r =
              publish_loop-IsPublished (n + 1) items rest (after_first w event first) first.distinct
                first.left (ap (λ x. x.0.1) (sym step) ∙ e) in
            subst (IsPublished n (event ∷ items) rest w) (sym step) (record {
              counted = r.counted ∙ omega arith;
              left = r.left;
              distinct = r.distinct;
              sent = r.sent ∙ append_assoc w.sent (event ∷ []) items;
            })
      ]

  -- A publisher that accepts everything causes no error.
  pub publish_loop-no_error :
      ((e : OutboxEvent) (sent : List OutboxEvent) → refuses e sent ≡ none)
      → (n : ℕ) (items rest : List OutboxEvent) (w : World) → Distinct (ids w.store.outbox)
      → pending w.store ≡ items ++ rest
      → (publish_loop (memory_ports now refuses) n none items w).0.1 ≡ none
  unfolding publish_loop
  publish_loop-no_error accepts n [] rest w d h = refl
  publish_loop-no_error accepts n (event ∷ items) rest w d h =
      let (first, step) = publish_loop-first n event items rest w d h (accepts event w.sent) in
      ap (λ x. x.0.1) step
      ∙ publish_loop-no_error accepts (n + 1) items rest (after_first w event first) first.distinct
          first.left
