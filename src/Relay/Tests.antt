-- ===== src/Relay/Tests.antt =====
-- Runs of the outbox relay on a small outbox, and the theorems at them.
use enterprise_workflow_plat.Common.{
  ℕ, String, List, [], ◌∷◌, Option, some, none, ◌≡◌, arith, eq_iff,
}
use enterprise_workflow_plat.Common.Int64.{inc64}
use enterprise_workflow_plat.Domain.{Time, OutboxEvent}
use enterprise_workflow_plat.Store.Memory.{MemoryStore}
use enterprise_workflow_plat.Store.Memory.Ids.{ids, Distinct}
use enterprise_workflow_plat.Store.Memory.Outbox.{
  mark_outbox_published, mark_outbox_failed, list_pending_outbox, is_pending, effective_limit,
}
use enterprise_workflow_plat.Common.{take, keep}
use enterprise_workflow_plat.Store.Memory.Pending.{
  MarksOne, list_pending_outbox-eq, mark_outbox_published-MarksOne, mark_outbox_failed-MarksOne,
}
use enterprise_workflow_plat.Relay.{Failure, drain_outbox}
use enterprise_workflow_plat.Relay.Memory.{World, memory_ports}
use enterprise_workflow_plat.Relay.Memory.Drain.{IsDrained, drain_outbox-IsDrained}

abbrev event : String → Option Time → OutboxEvent
event id published = record {
  id = id;
  tenant_id = "acme";
  aggregate_id = "rec_000002";
  topic = "workflow.record-events.v1";
  key = "acme:rec_000002";
  event_type = "record.created.v1";
  payload = none;
  created_at = 1;
  published_at = published;
  attempts = 0;
  last_error = "";
}

-- One published event between two pending ones.
abbrev busy : MemoryStore
busy = record {
  workflows = [];
  records = [];
  idempotency = [];
  audit = [];
  outbox = event "out_000004" none ∷ event "out_000006" (some 3) ∷ event "out_000008" none ∷ [];
  counter = 8;
}

busy-Distinct : Distinct (ids busy.outbox)
busy-Distinct = ground (
  arith,
  eq_iff "out_000004" "out_000006",
  eq_iff "out_000004" "out_000008",
  eq_iff "out_000006" "out_000008",
)

abbrev outbox : World
outbox = record { store = busy; sent = [] }

abbrev accepts : OutboxEvent → List OutboxEvent → Failure
accepts e sent = none

drain_outbox-IsDrained_example :
    (r : (ℕ × Failure) × World) × (drain_outbox (memory_ports (λ w. 9) accepts) 3 1 outbox ≡ some r)
    × IsDrained (λ w. 9) accepts 0 outbox r
drain_outbox-IsDrained_example =
    drain_outbox-IsDrained (λ w. 9) accepts 1 3 outbox busy-Distinct (omega arith)

list_pending_outbox-eq_example :
    list_pending_outbox 1 busy ≡ take (effective_limit 1) (keep is_pending busy.outbox)
list_pending_outbox-eq_example = list_pending_outbox-eq 1 busy

mark_outbox_published-MarksOne_example :
    MarksOne "out_000004"
      (λ e. record e { published_at = some 9; last_error = "" })
      busy
      (mark_outbox_published 9 "out_000004" busy)
mark_outbox_published-MarksOne_example =
    mark_outbox_published-MarksOne 9 "out_000004" busy busy-Distinct

mark_outbox_failed-MarksOne_example :
    MarksOne "out_000008"
      (λ e. record e { attempts = inc64 e.attempts; last_error = "timeout" })
      busy
      (mark_outbox_failed "out_000008" "timeout" busy)
mark_outbox_failed-MarksOne_example =
    mark_outbox_failed-MarksOne "out_000008" "timeout" busy busy-Distinct
