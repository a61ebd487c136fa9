-- ===== src/Relay/Mongo.antt =====
-- The relay over `MongoStore` and a publisher that takes batches, as main of outbox-relay runs it.
use Prim.Native.String.{◌++◌}
use enterprise_workflow_plat.Common.{
  ℕ, zero, suc, ◌+◌, ◌<◌, String, List, [], ◌∷◌, none, some, true, Result, ok, err, ◌≡◌, refl, sym,
  ◌∙◌, ap, subst, arith, map, length, ltb, inl, inr, Bool-cases, Option-cases, Result-cases,
}
use enterprise_workflow_plat.Common.Int64.{is_positive}
use enterprise_workflow_plat.Domain.{Int64, OutboxEvent}
use enterprise_workflow_plat.Relay.{
  Failure, Ports, outbox_batch_size, publish_items, publish_in_batch, drain_loop, drain_outbox,
}
use enterprise_workflow_plat.Relay.Memory.{message}
use enterprise_workflow_plat.Mongo.Driver.{
  Driver, MongoError, no_documents, duplicate_key, failed, refused, driver_error,
}
use enterprise_workflow_plat.Mongo.Outbox.{
  list_pending_outbox, mark_outbox_published, mark_outbox_published_batch, mark_outbox_failed,
}
use enterprise_workflow_plat.Mongo.Laws.{Database, Lawful}
use enterprise_workflow_plat.Mongo.Pending.{
  number_of-zero, is_pending, pending_count, IsListed, list_pending_outbox-IsListed, marked-lt,
  marked-zero,
}

-- `err.Error()`.
abbrev pub error_text : MongoError → String
error_text (refused e) = message e
error_text (driver_error no_documents) = "mongo: no documents in result"
error_text (driver_error (duplicate_key s)) = s
error_text (driver_error (failed s)) = s

abbrev pub with_text : {A : Type 0} → Result MongoError A → Result String A
with_text (ok a) = ok a
with_text (err e) = err (error_text e)

abbrev pub as_failure : Result MongoError (Unit {0}) → Failure
as_failure (ok _) = none
as_failure (err e) = some (error_text e)

module _ {W : Type 0} (driver : Driver W) (send : OutboxEvent → W → Failure × W)
    (send_batch : List OutboxEvent → W → Failure × W) where
  abbrev pub mongo_ports : Ports W
  mongo_ports = record {
    list_pending =
        λ limit w. let (result, w') = list_pending_outbox driver limit w in (with_text result, w');
    mark_published =
        λ id w. let (result, w') = mark_outbox_published driver id w in (as_failure result, w');
    mark_failed = λ id reason w.
        let (result, w') = mark_outbox_failed driver id reason w in (as_failure result, w');
    publish = send;
    publish_batch = some send_batch;
    mark_published_batch = some (λ ids w.
        let (result, w') = mark_outbox_published_batch driver ids w in (as_failure result, w'));
  }

with_text-ok : {A : Type 0} (r : Result MongoError A) (a : A) → with_text r ≡ ok a → r ≡ ok a
with_text-ok (ok x) a h = let same : x ≡ a = cc in ap ok same
with_text-ok (err e) a h = cc

as_failure-none : (r : Result MongoError (Unit {0})) → as_failure r ≡ none → r ≡ ok tt
as_failure-none (ok tt) h = refl
as_failure-none (err e) h = cc

module _ {W : Type 0} (driver : Driver W) (contents : W → Database) (law : Lawful driver contents)
    (send : OutboxEvent → W → Failure × W) (send_batch : List OutboxEvent → W → Failure × W)
    (send_keeps : (items : List OutboxEvent) (w : W)
      → contents (send_batch items w).1 ≡ contents w) where
  -- Without an error nothing is pending.
  abbrev pub IsEmptied : Failure → W → Type 0
  IsEmptied none w = pending_count (contents w) ≡ 0
  IsEmptied (some e) w = Unit

  -- A batch that was sent and marked.
  publish_items-ok :
      (first : OutboxEvent) (more : List OutboxEvent) (w : W)
      → (publish_items (mongo_ports driver send send_batch) (first ∷ more) w).0.1 ≡ none
      → let w₁ = (send_batch (first ∷ more) w).1 in
        let ids = map (λ (e : OutboxEvent). e.id) (first ∷ more) in
        ((mark_outbox_published_batch driver ids w₁).0 ≡ ok tt)
        × ((publish_items (mongo_ports driver send send_batch) (first ∷ more) w).1
            ≡ (mark_outbox_published_batch driver ids w₁).1)
  unfolding publish_items publish_in_batch
  publish_items-ok first more w h =
      let w₁ = (send_batch (first ∷ more) w).1 in
      let ids = map (λ (e : OutboxEvent). e.id) (first ∷ more) in
      elim (Option-cases (send_batch (first ∷ more) w).0) [
        | inr (e, broke) ↦ let h' = rw (broke, publish_in_batch) at h in cc
        | inl sent ↦
            let h' = rw (sent, publish_in_batch) at h in
            elim (Option-cases (as_failure (mark_outbox_published_batch driver ids w₁).0)) [
              | inr (e, broke) ↦ let h'' = rw broke at h' in cc
              | inl marked ↦ (
                as_failure-none (mark_outbox_published_batch driver ids w₁).0 marked,
                rw (sent, publish_in_batch, marked) refl,
              )
            ]
      ]

  -- Such a batch leaves fewer events pending, and none if it had them all.
  batch_left :
      (batch_size : Int64) (first : OutboxEvent) (more : List OutboxEvent) (w : W)
      → IsListed driver contents law batch_size (first ∷ more) (contents w)
      → (publish_items (mongo_ports driver send send_batch) (first ∷ more) w).0.1 ≡ none
      → let w' = (publish_items (mongo_ports driver send send_batch) (first ∷ more) w).1 in
        (pending_count (contents w') < pending_count (contents w))
        × (length (first ∷ more) < batch_size → pending_count (contents w') ≡ 0)
  batch_left batch_size first more w listed h =
      let (marked, same) = publish_items-ok first more w h in
      let w₁ = (send_batch (first ∷ more) w).1 in
      let kept = send_keeps (first ∷ more) w in
      let listed' : IsListed driver contents law batch_size (first ∷ more) (contents w₁) =
        subst (IsListed driver contents law batch_size (first ∷ more)) (sym kept) listed in
      let (there, fits) = listed'.pending.0 in
      let less = marked-lt driver contents law first more w₁ there fits marked in
      (
        subst (λ s. pending_count (contents s) < pending_count (contents w)) (sym same)
            (subst
              (λ db.
                pending_count (
                  contents
                    (mark_outbox_published_batch driver
                      (map (λ (e : OutboxEvent). e.id) (first ∷ more)) w₁).1)
                < pending_count db)
              kept less),
        λ short.
            ap (λ s. pending_count (contents s)) same
            ∙ marked-zero driver contents law first more w₁ (listed'.complete short) marked,
      )

  drain_loop-IsEmptied :
      (fuel : ℕ) (batch_size : Int64) (total : ℕ) (w : W)
      → is_positive batch_size ≡ true
      → pending_count (contents w) < fuel
      → (r : (ℕ × Failure) × W) × (drain_loop
            (mongo_ports driver send send_batch)
            fuel
            batch_size
            total
            w
          ≡ some r)
        × IsEmptied r.0.1 r.1
  unfolding drain_loop
  drain_loop-IsEmptied zero batch_size total w positive h = absurd (omega arith)
  drain_loop-IsEmptied (suc fuel) batch_size total w positive h =
      let w₁ = (list_pending_outbox driver batch_size w).1 in
      let ports = mongo_ports driver send send_batch in
      elim (Result-cases (list_pending_outbox driver batch_size w).0) [
        | inl (e, broke) ↦ (
          ((total, some ("list pending outbox: " ++ error_text e)), w₁),
          rw (broke, drain_loop) refl,
          tt,
        )
        | inr ([], found) ↦
            let (kept, listed) =
              list_pending_outbox-IsListed driver contents law batch_size [] w positive found in
            let positive_size : 0 < batch_size = ground arith in
            (
              ((total, none), w₁),
              rw (found, drain_loop) refl,
              ap pending_count kept
                  ∙ number_of-zero is_pending (contents w).outbox (listed.complete positive_size),
            )
        | inr (first ∷ more, found) ↦
            let (kept, listed) =
              list_pending_outbox-IsListed driver contents law batch_size (first ∷ more) w positive
                found in
            let listed' =
              subst (IsListed driver contents law batch_size (first ∷ more)) (sym kept) listed in
            let w₂ = (publish_items ports (first ∷ more) w₁).1 in
            let count = (publish_items ports (first ∷ more) w₁).0.0 in
            elim (Option-cases (publish_items ports (first ∷ more) w₁).0.1) [
              | inr (e, broke) ↦
                  (((total + count, some e), w₂), rw (found, drain_loop, broke) refl, tt)
              | inl fine ↦
                  let (less, none_left) = batch_left batch_size first more w₁ listed' fine in
                  let less' : pending_count (contents w₂) < pending_count (contents w) =
                    subst (λ db. pending_count (contents w₂) < pending_count db) kept less in
                  elim (Bool-cases (ltb (length (first ∷ more)) batch_size)) [
                    | inl short ↦ (
                      ((total + count, none), w₂),
                      rw (found, drain_loop, fine, short) refl,
                      none_left (ground arith),
                    )
                    | inr full ↦
                        let (r, is, emptied) =
                          drain_loop-IsEmptied fuel batch_size (total + count) w₂ positive
                            (omega arith) in
                        (r, rw (found, drain_loop, fine, full) is, emptied)
                  ]
            ]
      ]

  -- Over a lawful driver and a publisher that leaves the database alone, the drain in batches returns
  -- a result on any fuel above the number of pending events. Without an error no event is pending.
  pub drain_outbox-IsEmptied :
      (fuel : ℕ) (batch_size : Int64) (w : W)
      → pending_count (contents w) < fuel
      → (r : (ℕ × Failure) × W) × (drain_outbox
            (mongo_ports driver send send_batch)
            fuel
            batch_size
            w
          ≡ some r)
        × IsEmptied r.0.1 r.1
  unfolding drain_outbox
  drain_outbox-IsEmptied fuel batch_size w h = elim (Bool-cases (is_positive batch_size)) [
    | inl on ↦ rw on (drain_loop-IsEmptied fuel batch_size 0 w on h)
    | inr off ↦ rw off (drain_loop-IsEmptied fuel outbox_batch_size 0 w refl h)
  ]
