-- ===== src/Loadtest/Wait.antt =====
-- `waitUntilPipelineComplete` of services/api/cmd/loadtest/main.go, with its polling loop on fuel.
use Prim.Native.String.{◌++◌}
use enterprise_workflow_plat.Common.{
  ℕ, zero, suc, ◌+◌, ◌-◌, ◌%◌, ◌<◌, ◌≤◌, String, Option, none, some, Bool, true, false, ok, err,
  ◌≡◌, ◌⊎◌, refl, inl, inr, arith, Bool-cases, Result-cases,
}
use enterprise_workflow_plat.Common.Int64.{two_64, is_positive, format_int}
use enterprise_workflow_plat.Domain.{Int64}
use enterprise_workflow_plat.Loadtest.{
  Duration, PipelineSnapshot, PipelineMilestones, observe_pipeline_milestones, pipeline_complete,
  IsMilestone, observe_pipeline_milestones-AllSeen,
}
use enterprise_workflow_plat.Loadtest.Probe.{ProbeCalls, snapshot}

-- The zero value of a snapshot.
abbrev pub zero_snapshot : PipelineSnapshot
zero_snapshot = record { records = 0; unpublished = 0; notifications = 0; kafka_lag = 0 }

abbrev pub started_milestones : Duration → PipelineMilestones
started_milestones http_elapsed = record {
  http_complete = http_elapsed;
  outbox_published = 0;
  notifications_complete = 0;
  kafka_caught_up = 0;
  end_to_end = 0;
}

-- What the function returns.
pub record Waited : Type 0 where
  pub latest : PipelineSnapshot
  pub milestones : PipelineMilestones
  pub error : Option String

-- `a - b` with its wrap, in decimal.
abbrev difference : Int64 → Int64 → String
difference a b = format_int ((a + (two_64 - b)) % two_64)

abbrev probe_error : Option String → String
probe_error none = ""
probe_error (some e) = " lastProbeError=" ++ e

unfoldable pub timeout_message :
    PipelineSnapshot → PipelineSnapshot → Int64 → Option String → String
unfolding format_int
timeout_message latest baseline expected last_error =
    "timed out waiting for pipeline: records="
    ++ (difference latest.records baseline.records
        ++ ("/"
            ++ (format_int expected
                ++ (" unpublished="
                    ++ (format_int latest.unpublished
                        ++ (" notifications="
                            ++ (difference latest.notifications baseline.notifications
                                ++ ("/"
                                    ++ (format_int expected
                                        ++ (" kafkaLag="
                                            ++ (format_int latest.kafka_lag
                                                ++ probe_error last_error)))))))))))

-- `since` is `time.Since(started)`; `select` waits for the next tick and tells whether the context
-- has ended instead.
module _ {W : Type 0} (calls : ProbeCalls W) (since : W → Duration) (select : W → Bool × W)
    (workflow_id : String) (baseline : PipelineSnapshot) (expected : Int64) where
  abbrev pub timed_out : PipelineSnapshot → Option String → PipelineMilestones → W → Waited
  timed_out latest last_error m w = record {
    latest = latest;
    milestones = record m { end_to_end = since w };
    error = some (timeout_message latest baseline expected last_error);
  }

  abbrev pub found_complete : PipelineSnapshot → PipelineMilestones → W → Waited
  found_complete s m w = record {
    latest = s;
    milestones = record m { end_to_end = since w };
    error = none;
  }

  abbrev pub observed : PipelineSnapshot → PipelineMilestones → W → PipelineMilestones
  observed s m w = observe_pipeline_milestones m s baseline expected (since w)

  -- The rounds; `none` is that the fuel is used up.
  unfoldable pub wait_loop :
      ℕ → PipelineSnapshot → Option String → PipelineMilestones → W → Option (Waited × W)
  wait_loop zero latest last_error m w = none
  wait_loop (suc fuel) latest last_error m w =
      let (result, w₁) = snapshot calls workflow_id w in
      let (done, w₂) = select w₁ in
      elim result [
        | ok s ↦ elim (pipeline_complete s baseline expected) [
          | true ↦ some (found_complete s (observed s m w₁) w₁, w₁)
          | false ↦ elim done [
            | true ↦ some (timed_out s none (observed s m w₁) w₂, w₂)
            | false ↦ wait_loop fuel s none (observed s m w₁) w₂
          ]
        ]
        | err e ↦ elim done [
          | true ↦ some (timed_out latest (some e) m w₂, w₂)
          | false ↦ wait_loop fuel latest (some e) m w₂
        ]
      ]

  unfoldable pub wait_until_pipeline_complete : ℕ → Duration → W → Option (Waited × W)
  wait_until_pipeline_complete fuel http_elapsed w =
      wait_loop fuel zero_snapshot none (started_milestones http_elapsed) w

  -- What is known at the end: the last snapshot is complete and every stage has been seen, or no
  -- complete snapshot was seen.
  abbrev pub IsEnded : Option String → PipelineSnapshot → PipelineMilestones → Type 0
  IsEnded none latest m =
      (pipeline_complete latest baseline expected ≡ true)
      × (is_positive m.outbox_published ≡ true)
      × (is_positive m.notifications_complete ≡ true)
      × (is_positive m.kafka_caught_up ≡ true)
      × (is_positive m.end_to_end ≡ true)
  IsEnded (some e) latest m =
      (latest ≡ zero_snapshot) ⊎ (pipeline_complete latest baseline expected ≡ false)

  -- The stages that have been seen have positive durations.
  record HasMilestones (m : PipelineMilestones) : Type 0 where
    outbox : IsMilestone m.outbox_published
    notifications : IsMilestone m.notifications_complete
    kafka : IsMilestone m.kafka_caught_up

  observed-HasMilestones :
      (s : PipelineSnapshot) (m : PipelineMilestones) (w : W)
      → is_positive (since w) ≡ true
      → HasMilestones m
      → HasMilestones (observed s m w)
  unfolding observe_pipeline_milestones
  observed-HasMilestones s m w h seen = record {
    outbox = λ n. ground (arith, seen.outbox);
    notifications = λ n. ground (arith, seen.notifications);
    kafka = λ n. ground (arith, seen.kafka);
  }

  -- Waiting ends with every call of the probe and every tick.
  module _ (left : W → ℕ) (probe_le : (w : W) → left (snapshot calls workflow_id w).1 ≤ left w)
      (tick_lt : (w : W) → (select w).0 ≡ false → left (select w).1 < left w)
      (since_positive : (w : W) → is_positive (since w) ≡ true) where
    complete-IsEnded :
        (s : PipelineSnapshot) (m : PipelineMilestones) (w : W)
        → HasMilestones m
        → pipeline_complete s baseline expected ≡ true
        → IsEnded none s (found_complete s (observed s m w) w).milestones
    complete-IsEnded s m w seen complete =
        let all =
          observe_pipeline_milestones-AllSeen m s baseline expected (since w) seen.outbox
            seen.notifications seen.kafka (since_positive w) complete in
        (complete, all.outbox, all.notifications, all.kafka, since_positive w)

    wait_loop-IsEnded :
        (fuel : ℕ) (latest : PipelineSnapshot) (last_error : Option String) (m : PipelineMilestones)
        (w : W)
        → left w < fuel
        → HasMilestones m
        → (latest ≡ zero_snapshot) ⊎ (pipeline_complete latest baseline expected ≡ false)
        → (r : Waited × W) × (wait_loop fuel latest last_error m w ≡ some r)
          × IsEnded r.0.error r.0.latest r.0.milestones
    unfolding wait_loop
    wait_loop-IsEnded zero latest last_error m w h seen before = absurd (omega arith)
    wait_loop-IsEnded (suc fuel) latest last_error m w h seen before =
        let w₁ = (snapshot calls workflow_id w).1 in
        let w₂ = (select w₁).1 in
        let rest : (select w₁).0 ≡ false → left w₂ < fuel =
          λ off. let less = tick_lt w₁ off in let le = probe_le w in omega arith in
        elim (Result-cases (snapshot calls workflow_id w).0) [
          | inr (s, went) ↦ elim (Bool-cases (pipeline_complete s baseline expected)) [
            | inl complete ↦ (
              (found_complete s (observed s m w₁) w₁, w₁),
              rw (went, wait_loop, complete) refl,
              complete-IsEnded s m w₁ seen complete,
            )
            | inr incomplete ↦ elim (Bool-cases (select w₁).0) [
              | inl done ↦ (
                (timed_out s none (observed s m w₁) w₂, w₂),
                rw (went, wait_loop, incomplete, done) refl,
                inr incomplete,
              )
              | inr on ↦
                  let (r, is, ended) =
                    wait_loop-IsEnded fuel s none (observed s m w₁) w₂ (rest on)
                      (observed-HasMilestones s m w₁ (since_positive w₁) seen) (inr incomplete) in
                  (r, rw (went, wait_loop, incomplete, on) is, ended)
            ]
          ]
          | inl (e, broke) ↦ elim (Bool-cases (select w₁).0) [
            | inl done ↦
                ((timed_out latest (some e) m w₂, w₂), rw (broke, wait_loop, done) refl, before)
            | inr on ↦
                let (r, is, ended) =
                  wait_loop-IsEnded fuel latest (some e) m w₂ (rest on) seen before in
                (r, rw (broke, wait_loop, on) is, ended)
          ]
        ]

    -- Waiting ends, on any fuel above a number that no probe raises and every tick lowers. Without an
    -- error the last snapshot is complete and every stage, the whole included, has a positive
    -- duration; with one, the last snapshot is incomplete, or there was none. The time since the
    -- start is always positive.
    pub wait_until_pipeline_complete-IsEnded :
        (fuel : ℕ) (http_elapsed : Duration) (w : W)
        → left w < fuel
        → (r : Waited × W) × (wait_until_pipeline_complete fuel http_elapsed w ≡ some r)
          × IsEnded r.0.error r.0.latest r.0.milestones
    unfolding wait_until_pipeline_complete
    wait_until_pipeline_complete-IsEnded fuel http_elapsed w h =
        wait_loop-IsEnded fuel zero_snapshot none (started_milestones http_elapsed) w h
          (record {
            outbox = λ n. absurd (n refl);
            notifications = λ n. absurd (n refl);
            kafka = λ n. absurd (n refl);
          })
          (inl refl)
