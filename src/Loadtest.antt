-- ===== src/Loadtest.antt =====
-- services/api/cmd/loadtest/main.go: the lag, and when the stages of the pipeline are seen complete.
pub mod Lag
pub mod Probe
pub mod Wait
pub mod Setup
mod Tests
use enterprise_workflow_plat.Common.{
  ℕ, ◌+◌, ◌-◌, ◌%◌, List, [], ◌∷◌, Bool, true, false, not, ◌&&◌, ◌≡◌, ◌≢◌, refl, arith, inl, inr,
  Bool-cases, nat_beq, if◌then◌else◌,
}
use enterprise_workflow_plat.Common.Int64.{two_64, is_positive, leb_signed}
use enterprise_workflow_plat.Domain.{Int64}

-- A `time.Duration` is an `int64`.
abbrev pub Duration : Type 0
Duration = Int64

pub record PipelineSnapshot : Type 0 where
  pub records : Int64
  pub unpublished : Int64
  pub notifications : Int64
  pub kafka_lag : Int64

pub record PipelineMilestones : Type 0 where
  pub http_complete : Duration
  pub outbox_published : Duration
  pub notifications_complete : Duration
  pub kafka_caught_up : Duration
  pub end_to_end : Duration

-- `a - b >= expected`, with the wrap of the subtraction.
unfoldable pub reaches : Int64 → Int64 → Int64 → Bool
reaches a b expected = leb_signed expected ((a + (two_64 - b)) % two_64)

abbrev pub set_once : Duration → Bool → Duration → Duration
set_once old seen elapsed = if nat_beq old 0 && seen then elapsed else old

unfoldable pub observe_pipeline_milestones :
    PipelineMilestones → PipelineSnapshot → PipelineSnapshot → Int64 → Duration → PipelineMilestones
observe_pipeline_milestones m snapshot baseline expected elapsed =
    let records_complete = reaches snapshot.records baseline.records expected in
    let notifications_complete = reaches snapshot.notifications baseline.notifications expected in
    let published =
      set_once m.outbox_published (records_complete && nat_beq snapshot.unpublished 0) elapsed in
    record m {
      outbox_published = published;
      notifications_complete = set_once m.notifications_complete notifications_complete elapsed;
      kafka_caught_up =
          set_once m.kafka_caught_up (is_positive published && nat_beq snapshot.kafka_lag 0)
            elapsed;
    }

unfoldable pub pipeline_complete : PipelineSnapshot → PipelineSnapshot → Int64 → Bool
pipeline_complete snapshot baseline expected =
    reaches snapshot.records baseline.records expected
    && nat_beq snapshot.unpublished 0
    && reaches snapshot.notifications baseline.notifications expected
    && nat_beq snapshot.kafka_lag 0

-- A milestone that is not set, or set to a positive duration.
abbrev pub IsMilestone : Duration → Type 0
IsMilestone d = d ≢ 0 → is_positive d ≡ true

-- What holds of the milestones when the pipeline is found complete: each stage has a positive
-- duration, which is the one seen before if there was one, and else the present one.
pub record AllSeen (old new : PipelineMilestones) (elapsed : Duration) : Type 0 where
  pub outbox : is_positive new.outbox_published ≡ true
  pub notifications : is_positive new.notifications_complete ≡ true
  pub kafka : is_positive new.kafka_caught_up ≡ true
  pub outbox_kept : old.outbox_published ≢ 0 → new.outbox_published ≡ old.outbox_published
  pub notifications_kept :
      old.notifications_complete ≢ 0 → new.notifications_complete ≡ old.notifications_complete
  pub kafka_kept : old.kafka_caught_up ≢ 0 → new.kafka_caught_up ≡ old.kafka_caught_up

-- If the pipeline is complete at a snapshot, then observing it after a positive time leaves every
-- stage with a positive duration, and the stages seen before with the one they had. Milestones seen
-- before are positive.
pub observe_pipeline_milestones-AllSeen :
    (m : PipelineMilestones) (snapshot baseline : PipelineSnapshot) (expected : Int64)
    (elapsed : Duration)
    → IsMilestone m.outbox_published
    → IsMilestone m.notifications_complete
    → IsMilestone m.kafka_caught_up
    → is_positive elapsed ≡ true
    → pipeline_complete snapshot baseline expected ≡ true
    → AllSeen m (observe_pipeline_milestones m snapshot baseline expected elapsed) elapsed
unfolding observe_pipeline_milestones pipeline_complete
observe_pipeline_milestones-AllSeen m snapshot baseline expected elapsed o n k e c = record {
  outbox = ground arith;
  notifications = ground arith;
  kafka = ground arith;
  outbox_kept = ground arith;
  notifications_kept = ground arith;
  kafka_kept = ground arith;
}
