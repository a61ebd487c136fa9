-- ===== src/Events/Attempts.antt =====
-- `retry` as a relation: the attempts, the waits between them, and how they end.
use enterprise_workflow_plat.Common.{
  ℕ, zero, suc, ◌+◌, ◌*◌, ◌<◌, String, none, some, ◌≡◌, refl, ap, arith, inl, inr, Option-cases,
  subst,
}
use enterprise_workflow_plat.Relay.{Failure}
use enterprise_workflow_plat.Events.{Services, retry_loop, retry_delay}

module _ {W : Type 0} (services : Services W) where
  -- The attempts at a function from number `attempt` on, of three at most: where they start, their
  -- error and where they end. A failure that is not the third is followed by a wait that grows with
  -- the number, and the error of a wait ends the attempts.
  pub data Attempts (fn : W → Failure × W) : ℕ → W → Failure → W → Type 0 where
    succeeded :
        {attempt : ℕ} {w after : W} → fn w ≡ (none, after) → Attempts fn attempt w none after
    exhausted : {e : String} {w after : W} → fn w ≡ (some e, after) → Attempts fn 3 w (some e) after
    stopped :
        {attempt : ℕ} {e ended : String} {w middle after : W}
        → attempt < 3
        → fn w ≡ (some e, middle)
        → services.wait (retry_delay * attempt) middle ≡ (some ended, after)
        → Attempts fn attempt w (some ended) after
    again :
        {attempt : ℕ} {e : String} {result : Failure} {w middle next after : W}
        → attempt < 3
        → fn w ≡ (some e, middle)
        → services.wait (retry_delay * attempt) middle ≡ (none, next)
        → Attempts fn (attempt + 1) next result after
        → Attempts fn attempt w result after

  last-Attempts :
      (fn : W → Failure × W) (result : Failure) (w after : W)
      → fn w ≡ (result, after)
      → Attempts fn 3 w result after
  last-Attempts fn none w after h = succeeded h
  last-Attempts fn (some e) w after h = exhausted h

  pub retry_loop-Attempts :
      (left attempt : ℕ) (fn : W → Failure × W) (w : W)
      → left + attempt ≡ 3
      → Attempts fn attempt w
          (retry_loop services left attempt retry_delay fn w).0
          (retry_loop services left attempt retry_delay fn w).1
  unfolding retry_loop
  retry_loop-Attempts zero attempt fn w sum =
      let third : 3 ≡ attempt = omega arith in
      subst (λ n. Attempts fn n w (fn w).0 (fn w).1) third (last-Attempts fn _ w _ refl)
  retry_loop-Attempts (suc left) attempt fn w sum = elim (Option-cases (fn w).0) [
    | inl went ↦ rw (went, retry_loop) (succeeded (ap (λ f. (f, (fn w).1)) went))
    | inr (reason, failed) ↦
        let pause = services.wait (retry_delay * attempt) (fn w).1 in
        let one : fn w ≡ (some reason, (fn w).1) = ap (λ f. (f, (fn w).1)) failed in
        let early : attempt < 3 = omega arith in
        elim (Option-cases pause.0) [
          | inr (ended, cancelled) ↦
              rw (failed, retry_loop, cancelled)
                (stopped early one (ap (λ f. (f, pause.1)) cancelled))
          | inl waited ↦
              let next : left + (attempt + 1) ≡ 3 = omega arith in
              rw (failed, retry_loop, waited)
                (again early one (ap (λ f. (f, pause.1)) waited)
                  (retry_loop-Attempts left (attempt + 1) fn pause.1 next))
        ]
  ]
