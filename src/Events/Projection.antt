-- ===== src/Events/Projection.antt =====
-- services/api/internal/events/consumer.go: `NotificationHandler.Handle` with `MongoStore` as its sink,
-- under messages that are delivered again.
use enterprise_workflow_plat.Common.{
  ℕ, ◌+◌, ◌≤◌, String, List, [], ◌∷◌, ◌++◌, Option, none, some, Bool, true, false, ◌==◌, Result, ok,
  err, ◌≡◌, ◌≢◌, refl, sym, ◌∙◌, ap, subst, arith, All, Bool-cases, Option-cases, Text-cases,
  eq_refl, inl, inr,
}
use enterprise_workflow_plat.Domain.{OutboxEvent, Notification}
use enterprise_workflow_plat.Events.{notification_of}
use enterprise_workflow_plat.Mongo.Bson.{stored_notification}
use enterprise_workflow_plat.Mongo.Driver.{Driver, MongoError}
use enterprise_workflow_plat.Mongo.Records.{failure_of}
use enterprise_workflow_plat.Mongo.Outbox.{store_notification}
use enterprise_workflow_plat.Mongo.Laws.{Database, Lacks, Lawful}
use enterprise_workflow_plat.Mongo.Notified.{IsNotified, store_notification-IsNotified}
use enterprise_workflow_plat.Mongo.Pending.{number_of}

-- How many notifications have an identifier.
abbrev pub copies : String → Database → ℕ
copies id db = number_of (λ (n : Notification). n.id == id) db.notifications

-- No identifier has more than one notification.
abbrev pub IsOnce : Database → Type 0
IsOnce db = (id : String) → copies id db ≤ 1

lacks-number_of : {A : Type 0} (p : A → Bool) (ds : List A) → Lacks p ds → number_of p ds ≡ 0
lacks-number_of p [] lacks = refl
lacks-number_of p (d ∷ ds) lacks = rw (lacks.0, number_of) (lacks-number_of p ds lacks.1)

number_of-lacks : {A : Type 0} (p : A → Bool) (ds : List A) → number_of p ds ≡ 0 → Lacks p ds
number_of-lacks p [] h = tt
number_of-lacks p (d ∷ ds) h = elim (Bool-cases (p d)) [
  | inl on ↦ let h' = rw (on, number_of) at h in absurd (omega arith)
  | inr off ↦ let h' = rw (off, number_of) at h in (off, number_of-lacks p ds h')
]

number_of-snoc :
    {A : Type 0} (p : A → Bool) (ds : List A) (x : A)
    → number_of p (ds ++ x ∷ []) ≡ number_of p ds + number_of p (x ∷ [])
number_of-snoc p [] x = omega arith
number_of-snoc p (d ∷ ds) x =
    let rest = number_of-snoc p ds x in
    elim (Bool-cases (p d)) [
      | inl on ↦ rw (on, number_of) (omega arith)
      | inr off ↦ rw (off, number_of) rest
    ]

number_of-one : {A : Type 0} (p : A → Bool) (x : A) → number_of p (x ∷ []) ≤ 1
number_of-one p x = elim (Bool-cases (p x)) [
  | inl on ↦ rw (on, number_of) (omega arith)
  | inr off ↦ rw (off, number_of) (omega arith)
]

-- What a delivery that was handled leaves.
record IsHandled (id : String) (before after : Database) : Type 0 where
  once : IsOnce after
  there : copies id after ≡ 1
  keeps : (k : String) → copies k before ≤ copies k after

exactly_one : (n : ℕ) → n ≤ 1 → n ≢ 0 → n ≡ 1
exactly_one n le other = omega arith

failure_of-nothing :
    {A : Type 0} (r : Result MongoError A) → failure_of r ≡ none → (a : A) × (r ≡ ok a)
failure_of-nothing (ok a) h = (a, refl)
failure_of-nothing (err e) h = cc

IsNotified-IsHandled :
    (n : Notification) (new : Bool) (before after : Database)
    → IsOnce before
    → IsNotified n new before after
    → IsHandled n.id before after
IsNotified-IsHandled n true before after once (lacks, writes) =
    let here : String → ℕ = λ k. number_of (λ (x : Notification). x.id == k) (n ∷ []) in
    let grown : (k : String) → copies k after ≡ copies k before + here k = λ k.
      ap (copies k) writes
      ∙ number_of-snoc (λ (x : Notification). x.id == k) before.notifications
          (stored_notification n) in
    let none_before : copies n.id before ≡ 0 =
      lacks-number_of (λ (x : Notification). x.id == n.id) before.notifications lacks in
    let one_here : here n.id ≡ 1 = rw (eq_refl n.id, number_of) refl in
    let own : copies n.id after ≡ 1 = let g = grown n.id in omega arith in
    record {
      once = λ k. elim (Text-cases n.id k) [
        | inl same ↦ subst (λ x. copies x after ≤ 1) same (omega arith)
        | inr (_, off) ↦
            let none_here : here k ≡ 0 = rw (off, number_of) refl in
            let g = grown k in let o = once k in omega arith
      ];
      there = own;
      keeps = λ k. let g = grown k in omega arith;
    }
IsNotified-IsHandled n false before after once (known, keeps) = record {
  once = subst IsOnce (sym keeps) once;
  there =
      ap (copies n.id) keeps
      ∙ exactly_one (copies n.id before) (once n.id) (λ z.
        known (number_of-lacks (λ (x : Notification). x.id == n.id) before.notifications z));
  keeps = λ k. let same = ap (copies k) keeps in omega arith;
}

-- `NotificationHandler.Handle`; an event keeps its identifier in its notification.
unfoldable pub handle_event : {W : Type 0} → Driver W → OutboxEvent → W → Option MongoError × W
handle_event driver event w =
    let (stored, w') = store_notification driver (notification_of (driver.now w) event) w in
    (failure_of stored, w')

-- Deliveries in a row, as the consumer makes them, and whether each was handled without an error.
abbrev pub deliver : {W : Type 0} → Driver W → List OutboxEvent → W → Bool × W
deliver driver [] w = (true, w)
deliver driver (event ∷ events) w =
    let (failure, w') = handle_event driver event w in
    let (rest, w'') = deliver driver events w' in
    elim failure [ none ↦ (rest, w'') | some _ ↦ (false, w') ]

module _ {W : Type 0} (driver : Driver W) (contents : W → Database)
    (law : Lawful driver contents) where
  handle_event-IsHandled :
      (event : OutboxEvent) (w : W)
      → IsOnce (contents w)
      → (handle_event driver event w).0 ≡ none
      → IsHandled event.id (contents w) (contents (handle_event driver event w).1)
  unfolding handle_event notification_of
  handle_event-IsHandled event w once h =
      let n = notification_of (driver.now w) event in
      let (new, stored) = failure_of-nothing (store_notification driver n w).0 h in
      IsNotified-IsHandled n new (contents w) (contents (store_notification driver n w).1) once
        (store_notification-IsNotified driver contents law n new w stored)

  -- Once each, and nothing is lost.
  pub record IsProjected (events : List OutboxEvent) (before after : Database) : Type 0 where
    pub once : IsOnce after
    pub there : All (λ event. copies event.id after ≡ 1) events
    pub keeps : (k : String) → copies k before ≤ copies k after

  -- Over a lawful driver, if no identifier has more than one notification and a row of deliveries,
  -- with repetitions or without, is handled without an error, then every delivered event has exactly
  -- one notification, no identifier has more, and none has fewer than before.
  pub deliver-IsProjected :
      (events : List OutboxEvent) (w : W)
      → IsOnce (contents w)
      → (deliver driver events w).0 ≡ true
      → IsProjected events (contents w) (contents (deliver driver events w).1)
  deliver-IsProjected [] w once h = record { once = once; there = tt; keeps = λ k. omega arith }
  deliver-IsProjected (event ∷ events) w once h =
      let w' = (handle_event driver event w).1 in
      elim (Option-cases (handle_event driver event w).0) [
        | inr (e, broke) ↦ let h' = rw (broke, deliver) at h in cc
        | inl handled ↦
            let h' : (deliver driver events w').0 ≡ true = rw (handled, deliver) at h in
            let first = handle_event-IsHandled event w once handled in
            let rest = deliver-IsProjected events w' first.once h' in
            let own =
              exactly_one (copies event.id (contents (deliver driver events w').1))
                (rest.once event.id)
                (λ z. let k = rest.keeps event.id in let t = first.there in omega arith) in
            rw (handled, deliver)
              (record {
                once = rest.once;
                there = (own, rest.there);
                keeps = λ k. let a = first.keeps k in let b = rest.keeps k in omega arith;
              })
      ]
