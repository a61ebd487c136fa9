-- ===== src/Relay/Memory/Drain.antt =====
-- `drainOutbox` over the in-memory store: it ends, and what it has done when it does.
use enterprise_workflow_plat.Common.{
  ℕ, zero, suc, ◌+◌, ◌<◌, String, List, [], ◌∷◌, ◌++◌, none, some, ok, ◌≡◌, refl, sym, ◌∙◌, ap,
  arith, inl, inr, length, length-append, take, drop, true, false, ltb, Option-cases, List-cases,
  Bool-cases, append_assoc, append-nil,
}
use enterprise_workflow_plat.Common.Int64.{is_positive}
use enterprise_workflow_plat.Domain.{Time, Int64, OutboxEvent}
use enterprise_workflow_plat.Store.Memory.Ids.{ids, Distinct}
use enterprise_workflow_plat.Store.Memory.Outbox.{effective_limit}
use enterprise_workflow_plat.Store.Memory.Pending.{list_pending_outbox-eq}
use enterprise_workflow_plat.Relay.{
  Failure, Ports, publish_items, publish_sequential, publish_loop, drain_loop, drain_outbox,
  outbox_batch_size,
}
use enterprise_workflow_plat.Relay.Memory.{World, memory_ports}
use enterprise_workflow_plat.Relay.Memory.Round.{
  pending, IsPublished, publish_loop-IsPublished, publish_loop-no_error,
}

take-append-drop : (n : ℕ) (es : List OutboxEvent) → take n es ++ drop n es ≡ es
take-append-drop zero es = refl
take-append-drop (suc n) [] = refl
take-append-drop (suc n) (e ∷ es) = ap (◌∷◌ e) (take-append-drop n es)

drop-short : (n : ℕ) (es : List OutboxEvent) → length (take n es) < n → drop n es ≡ []
drop-short zero es h = absurd (omega arith)
drop-short (suc n) [] h = refl
drop-short (suc n) (e ∷ es) h = drop-short n es (omega arith)

module _ {W : Type 0} (ports : Ports W) (fuel : ℕ) (batch : Int64) (total : ℕ) (w : W) where
  drain_loop-nothing :
      (w' : W)
      → ports.list_pending batch w ≡ (ok [], w')
      → drain_loop ports (suc fuel) batch total w ≡ some ((total, none), w')
  unfolding drain_loop
  drain_loop-nothing w' h = rw (h, drain_loop, h) refl

  module _ (e : OutboxEvent) (es : List OutboxEvent) (w' w'' : W) (count : ℕ)
      (h : ports.list_pending batch w ≡ (ok (e ∷ es), w')) where
    drain_loop-failed :
        (reason : String)
        → publish_items ports (e ∷ es) w' ≡ ((count, some reason), w'')
        → drain_loop ports (suc fuel) batch total w ≡ some ((total + count, some reason), w'')
    unfolding drain_loop
    drain_loop-failed reason k = rw (h, drain_loop, h, k, h, k) refl

    drain_loop-last :
        publish_items ports (e ∷ es) w' ≡ ((count, none), w'')
        → ltb (length (e ∷ es)) batch ≡ true
        → drain_loop ports (suc fuel) batch total w ≡ some ((total + count, none), w'')
    unfolding drain_loop
    drain_loop-last k short = rw (h, drain_loop, h, k, h, k, short) refl

    drain_loop-again :
        publish_items ports (e ∷ es) w' ≡ ((count, none), w'')
        → ltb (length (e ∷ es)) batch ≡ false
        → drain_loop ports (suc fuel) batch total w
          ≡ drain_loop ports fuel batch (total + count) w''
    unfolding drain_loop
    drain_loop-again k full = rw (h, drain_loop, h, k, h, k, full) refl

module _ (now : World → Time) (refuses : OutboxEvent → List OutboxEvent → Failure) where
  abbrev ports : Ports World
  ports = memory_ports now refuses

  abbrev pub Accepts : Type 0
  Accepts = (e : OutboxEvent) (sent : List OutboxEvent) → refuses e sent ≡ none

  -- How a drain that began with a total of `total` at `w` has ended.
  pub record IsDrained (total : ℕ) (w : World) (r : (ℕ × Failure) × World) : Type 0 where
    pub counted : r.0.1 ≡ none → r.0.0 ≡ total + length (pending w.store)
    pub empty : r.0.1 ≡ none → pending r.1.store ≡ []
    pub in_order : r.0.1 ≡ none → r.1.sent ≡ w.sent ++ pending w.store
    pub accepted : Accepts → r.0.1 ≡ none

  abbrev Ends : ℕ → Int64 → ℕ → World → Type 0
  Ends fuel batch total w =
      (r : (ℕ × Failure) × World) × (drain_loop ports fuel batch total w ≡ some r)
      × IsDrained total w r

  -- Nothing was pending.
  IsDrained-nothing :
      (total : ℕ) (w : World) → pending w.store ≡ [] → IsDrained total w ((total, none), w)
  IsDrained-nothing total w h = record {
    counted = λ _. omega (arith, ap length h);
    empty = λ _. h;
    in_order = λ _. sym (ap (◌++◌ w.sent) h ∙ append-nil w.sent);
    accepted = λ _. refl;
  }

  -- A batch ended with an error.
  IsDrained-failure :
      (total count : ℕ) (e : String) (w w' : World)
      → ¬ Accepts
      → IsDrained total w ((total + count, some e), w')
  IsDrained-failure total count e w w' refused = record {
    counted = λ h. cc;
    empty = λ h. cc;
    in_order = λ h. cc;
    accepted = λ a. absurd (refused a);
  }

  -- A batch went well, and the rest drains from where it ended.
  IsDrained-more :
      (total : ℕ) (items rest : List OutboxEvent) (w : World) (b : (ℕ × Failure) × World)
      (r : (ℕ × Failure) × World)
      → pending w.store ≡ items ++ rest
      → IsPublished 0 items rest w b
      → IsDrained (total + b.0.0) b.1 r
      → IsDrained total w r
  IsDrained-more total items rest w b r h p d = record {
    counted = λ e.
        omega
          (arith, d.counted e, p.counted, ap length p.left, ap length h, length-append items rest);
    empty = d.empty;
    in_order = λ e.
        d.in_order e
        ∙ ap (◌++◌ b.1.sent) p.left
        ∙ ap (λ xs. xs ++ rest) p.sent
        ∙ append_assoc w.sent items rest
        ∙ ap (◌++◌ w.sent) (sym h);
    accepted = d.accepted;
  }

  listed_batch :
      (batch : Int64) (w : World)
      → is_positive batch ≡ true
      → ports.list_pending batch w ≡ (ok (take batch (pending w.store)), w)
  unfolding effective_limit
  listed_batch batch w h =
      ap (λ es. (ok es, w))
        (list_pending_outbox-eq batch w.store ∙ ap (λ n. take n (pending w.store)) (rw h refl))

  -- The rest of the pending events, after a batch that was not cut short.
  drain_step :
      (fuel : ℕ) (batch : Int64) (total : ℕ) (w : World) (e : OutboxEvent)
      (es rest : List OutboxEvent)
      → ports.list_pending batch w ≡ (ok (e ∷ es), w)
      → pending w.store ≡ e ∷ es ++ rest
      → (ltb (length (e ∷ es)) batch ≡ true → rest ≡ [])
      → Distinct (ids w.store.outbox)
      → ((total' : ℕ) (w' : World)
          → pending w'.store ≡ rest
          → Distinct (ids w'.store.outbox)
          → Ends fuel batch total' w')
      → Ends (suc fuel) batch total w
  unfolding publish_items publish_sequential
  drain_step fuel batch total w e es rest h split short d more =
      let b : (ℕ × Failure) × World = publish_loop ports 0 none (e ∷ es) w in
      elim (Option-cases b.0.1) [
        | inr (reason, failed) ↦ (
          ((total + b.0.0, some reason), b.1),
          drain_loop-failed ports fuel batch total w e es w b.1 b.0.0 h reason
              (ap (λ f. ((b.0.0, f), b.1)) failed),
          IsDrained-failure total b.0.0 reason w b.1
              (λ a. cc (publish_loop-no_error now refuses a 0 (e ∷ es) rest w d split)),
        )
        | inl went ↦
            let p = publish_loop-IsPublished now refuses 0 (e ∷ es) rest w d split went in
            let items : publish_items ports (e ∷ es) w ≡ ((b.0.0, none), b.1) =
              ap (λ f. ((b.0.0, f), b.1)) went in
            elim (Bool-cases (ltb (length (e ∷ es)) batch)) [
              | inl last ↦ (
                ((total + b.0.0, none), b.1),
                drain_loop-last ports fuel batch total w e es w b.1 b.0.0 h items last,
                IsDrained-more total (e ∷ es) rest w b ((total + b.0.0, none), b.1) split p
                    (IsDrained-nothing (total + b.0.0) b.1 (p.left ∙ short last)),
              )
              | inr full ↦
                  let (r, ends, drained) = more (total + b.0.0) b.1 p.left p.distinct in
                  (
                    r,
                    drain_loop-again ports fuel batch total w e es w b.1 b.0.0 h items full ∙ ends,
                    IsDrained-more total (e ∷ es) rest w b r split p drained,
                  )
            ]
      ]

  take-none : (n : ℕ) (es : List OutboxEvent) → 0 < n → take n es ≡ [] → es ≡ []
  take-none zero es p h = absurd (omega arith)
  take-none (suc n) [] p h = refl
  take-none (suc n) (e ∷ es) p h = cc

  drain_loop-Ends :
      (fuel : ℕ) (batch : Int64) (total : ℕ) (w : World)
      → is_positive batch ≡ true
      → length (pending w.store) < fuel
      → Distinct (ids w.store.outbox)
      → Ends fuel batch total w
  drain_loop-Ends zero batch total w h f d = absurd (omega arith)
  drain_loop-Ends (suc fuel) batch total w h f d =
      let some_room : 0 < batch = ground arith in
      let split = take-append-drop batch (pending w.store) in
      elim (List-cases (take batch (pending w.store))) [
        | inl nothing ↦
            let empty = take-none batch (pending w.store) some_room nothing in
            (
              ((total, none), w),
              drain_loop-nothing ports fuel batch total w w
                  (listed_batch batch w h ∙ ap (λ es. (ok es, w)) nothing),
              IsDrained-nothing total w empty,
            )
        | inr (e, es, items) ↦
            let split' : pending w.store ≡ e ∷ es ++ drop batch (pending w.store) =
              sym split ∙ ap (λ xs. xs ++ drop batch (pending w.store)) items in
            drain_step fuel batch total w e es (drop batch (pending w.store))
              (listed_batch batch w h ∙ ap (λ xs. (ok xs, w)) items) split'
              (λ short. drop-short batch (pending w.store) (ground (arith, ap length items))) d
              (λ total' w' left d'.
                drain_loop-Ends fuel batch total' w' h
                  (omega (
                    arith,
                    f,
                    ap length left,
                    ap length split',
                    length-append (e ∷ es) (drop batch (pending w.store)),
                  ))
                  d')
      ]

  -- `drainOutbox` over the in-memory store, from a store whose outbox identifiers differ, ends within
  -- one round more than there are pending events, whatever batch size it is given and whatever the
  -- publisher refuses. If it returns no error, its count is the number of pending events, none is
  -- pending any more, and the publisher has received all of them, each once, in outbox order. If the
  -- publisher refuses nothing, it returns no error.
  pub drain_outbox-IsDrained :
      (batch : Int64) (fuel : ℕ) (w : World)
      → Distinct (ids w.store.outbox)
      → length (pending w.store) < fuel
      → (r : (ℕ × Failure) × World) × (drain_outbox ports fuel batch w ≡ some r) × IsDrained 0 w r
  unfolding drain_outbox
  drain_outbox-IsDrained batch fuel w d f = elim (Bool-cases (is_positive batch)) [
    | inl positive ↦ rw positive (drain_loop-Ends fuel batch 0 w positive f d)
    | inr default ↦ rw default (drain_loop-Ends fuel outbox_batch_size 0 w refl f d)
  ]
