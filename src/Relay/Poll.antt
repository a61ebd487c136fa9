-- ===== src/Relay/Poll.antt =====
-- The loop of main of services/api/cmd/outbox-relay/main.go: drain, and wait if there was an error or
-- nothing to do.
use enterprise_workflow_plat.Common.{ℕ, zero, suc, Option, none, some, Bool, true, false}
use enterprise_workflow_plat.Relay.{Ports, outbox_batch_size, drain_outbox}

-- In nanoseconds.
abbrev pub idle_poll_delay : ℕ
idle_poll_delay = 250000000

abbrev pub error_backoff : ℕ
error_backoff = 500000000

-- `sleep` is `sleepContext`: whether the time has passed before the context has ended. Each drain has
-- fuel of its own, which depends on the state; `none` is that some fuel is used up.
module _ {W : Type 0} (ports : Ports W) (sleep : ℕ → W → Bool × W) (drain_fuel : W → ℕ) where
  unfoldable pub poll_loop : ℕ → W → Option W
  poll_loop zero w = none
  poll_loop (suc fuel) w = elim (drain_outbox ports (drain_fuel w) outbox_batch_size w) [
    | none ↦ none
    | some ((drained, some e), w') ↦
        let (slept, w'') = sleep error_backoff w' in
        elim slept [ true ↦ poll_loop fuel w'' | false ↦ some w'' ]
    | some ((zero, none), w') ↦
        let (slept, w'') = sleep idle_poll_delay w' in
        elim slept [ true ↦ poll_loop fuel w'' | false ↦ some w'' ]
    | some ((suc drained, none), w') ↦ poll_loop fuel w'
  ]
