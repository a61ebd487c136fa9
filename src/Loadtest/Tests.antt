-- ===== src/Loadtest/Tests.antt =====
-- A pipeline that completes at the second probe, and its lag.
use enterprise_workflow_plat.Common.{
  ℕ, zero, suc, ◌<◌, ◌≤◌, [], ◌∷◌, Bool, true, false, some, none, ok, ◌≡◌, ◌↔◌, refl, arith,
}
use enterprise_workflow_plat.Common.Actions.{pure}
use enterprise_workflow_plat.Common.Int64.{leb_signed}
use enterprise_workflow_plat.Loadtest.{PipelineSnapshot}
use enterprise_workflow_plat.Loadtest.Lag.{
  Offsets, IsCaughtUp, calculate_kafka_lag, calculate_kafka_lag_iff, set_offset, offset_at,
  lag_loop, partition_lag,
}
use enterprise_workflow_plat.Loadtest.Probe.{
  ProbeCalls, snapshot, kafka_lag, collect_offsets, has_offset, check_partitions,
  count_notifications_for_workflow,
}
use enterprise_workflow_plat.Common.Texts.{split, trim_space, trim_left, trim_right, is_space}
use enterprise_workflow_plat.Events.{clean_brokers}
use enterprise_workflow_plat.Loadtest.Setup.{
  split_csv, SetupCalls, new_pipeline_probe, partition_ids,
}
use enterprise_workflow_plat.Loadtest.Wait.{
  Waited, wait_until_pipeline_complete, IsEnded, wait_until_pipeline_complete-IsEnded,
}

-- The state counts the ticks that are left; at 2 the last record is still on its way.
abbrev early_or : ℕ → ℕ → ℕ → ℕ
early_or early late (suc (suc w)) = early
early_or early late _ = late

abbrev two_ticks : ProbeCalls ℕ
two_ticks = record {
  partitions = 0 ∷ [];
  count_records = λ _ w. (ok (early_or 3 4 w), w);
  count_unpublished = λ _ w. (ok (early_or 1 0 w), w);
  find_outbox = λ _. pure tt;
  read_outbox_ids = pure ("out_1" ∷ "out_2" ∷ []);
  count_notifications = λ _ w. (ok (early_or 1 3 w), w);
  list_offsets = pure (record { partition = 0; offset = 5; error = none } ∷ []);
  offset_fetch = λ w. (
    ok (record {
      error = none;
      offsets = record { partition = 0; offset = early_or 3 5 w; error = none } ∷ [];
    }),
    w,
  );
}

abbrev tick : ℕ → Bool × ℕ
tick zero = (true, zero)
tick (suc w) = (false, w)

abbrev before : PipelineSnapshot
before = record { records = 2; unpublished = 1; notifications = 1; kafka_lag = 1 }

abbrev after : PipelineSnapshot
after = record { records = 4; unpublished = 0; notifications = 3; kafka_lag = 0 }

snapshot_after : (snapshot two_ticks "wf_1" 1).0 ≡ ok after
unfolding snapshot kafka_lag collect_offsets has_offset check_partitions lag_loop partition_lag
    set_offset offset_at calculate_kafka_lag count_notifications_for_workflow leb_signed
snapshot_after = refl

tick_lt : (w : ℕ) → (tick w).0 ≡ false → (tick w).1 < w
tick_lt zero h = cc
tick_lt (suc w) h = omega arith

probe_le : (w : ℕ) → (snapshot two_ticks "wf_1" w).1 ≤ w
unfolding snapshot kafka_lag collect_offsets has_offset check_partitions set_offset
    count_notifications_for_workflow
probe_le zero = omega arith
probe_le (suc zero) = omega arith
probe_le (suc (suc w)) = omega arith

wait_until_pipeline_complete-IsEnded_example :
    (r : Waited × ℕ) × (wait_until_pipeline_complete two_ticks (λ _. 9) tick "wf_1" before 2 3 5 2
      ≡ some r)
    × IsEnded two_ticks (λ _. 9) tick "wf_1" before 2 r.0.error r.0.latest r.0.milestones
wait_until_pipeline_complete-IsEnded_example =
    wait_until_pipeline_complete-IsEnded two_ticks (λ _. 9) tick "wf_1" before 2 (λ w. w) probe_le
      tick_lt (λ _. refl) 3 5 2 (omega arith)

abbrev two_ends : Offsets
two_ends = (0, 5) ∷ (1, 7) ∷ []

abbrev two_commits : Offsets
two_commits = (1, 7) ∷ (0, 4) ∷ []

calculate_kafka_lag_iff_example :
    (calculate_kafka_lag two_ends two_commits ≡ 0) ↔ IsCaughtUp two_ends two_commits
calculate_kafka_lag_iff_example =
    calculate_kafka_lag_iff two_ends two_commits (omega arith, (omega arith, tt)) (omega arith)

one_behind : calculate_kafka_lag two_ends two_commits ≡ 1
unfolding calculate_kafka_lag lag_loop partition_lag offset_at leb_signed
one_behind = refl

two_brokers : split_csv " a:1,, b:2 " ≡ "a:1" ∷ "b:2" ∷ []
unfolding split_csv split clean_brokers trim_space trim_left trim_right is_space
two_brokers = refl

abbrev calm : SetupCalls ℕ
calm = record {
  connect = λ _ w. (none, w);
  ping = λ w. (none, w);
  disconnect = λ w. suc w;
  lookup_partitions = λ _ _ w. (ok ((2, none) ∷ (0, none) ∷ []), w);
}

probe_made :
    new_pipeline_probe calm (λ s. s) "mongodb://db" "app" "kafka:9092" "topic" "group" 0
    ≡ (ok (0 ∷ 2 ∷ []), 0)
unfolding new_pipeline_probe split_csv split clean_brokers trim_space trim_left trim_right is_space
    partition_ids
probe_made = refl
