-- ===== src/Events/Tests.antt =====
-- The consumer on small topics, and the theorems at them.
use enterprise_workflow_plat.Common.{
  ℕ, ◌+◌, ◌≤◌, [], ◌∷◌, none, some, ok, err, ◌≡◌, refl, arith, ◌==◌, leb, if◌then◌else◌,
}
use enterprise_workflow_plat.Common.Int64.{is_positive}
use enterprise_workflow_plat.Domain.{OutboxEvent}
use enterprise_workflow_plat.Relay.{Failure}
use enterprise_workflow_plat.Events.{
  Message, Services, cancelled, retry, retry_loop, kafka_message, consume_message, run_consumer,
  publish_dlq, dead_letter, decode_failed, handler_failed, header_value,
}
use enterprise_workflow_plat.Events.Delivery.{
  Settled, retry-count, consume_message-Settled, decode_failed-kafka_message,
}
use enterprise_workflow_plat.Events.Commits.{Topic, Ended, topic_services, run_consumer-Ended}

abbrev created : OutboxEvent
created = record {
  id = "out_000004";
  tenant_id = "acme";
  aggregate_id = "rec_000002";
  topic = "workflow.record-events";
  key = "rec_000002";
  event_type = "record.created";
  payload = none;
  created_at = 1;
  published_at = none;
  attempts = 0;
  last_error = "";
}

abbrev message : Message
message = record {
  topic = "workflow.record-events";
  key = "rec_000002";
  value = "event";
  headers =
      ("event-id", "out_000004") ∷ ("event-type", "record.created") ∷ ("tenant-id", "acme") ∷ [];
}

abbrev broken : Message
broken = record message { value = "?" }

-- The state counts the calls of the handler, which fails as long as there are fewer than `good`.
-- The context ends in the wait if `ends` says so.
abbrev services : ℕ → Failure → Services ℕ
services good ends = record {
  fetch = λ n. (cancelled, n);
  commit = λ _ n. (none, n);
  decode = λ s. if s == "event" then ok created else err "invalid character";
  handle_event = λ _ n. ((if leb good n then none else some "sink is down"), n + 1);
  publish_event = λ _ n. (none, n);
  wait = λ _ n. (ends, n);
  now = λ n. n;
}

retry-count_example :
    (0 + 1 ≤ (retry (services 2 none) 3 150 ((services 2 none).handle_event created) 0).1)
    × ((retry (services 2 none) 3 150 ((services 2 none).handle_event created) 0).1
        ≤ 0 + (if is_positive 3 then 3 else 1))
retry-count_example =
    retry-count (services 2 none) (λ n. n) (λ _ _. refl) ((services 2 none).handle_event created)
      (λ _. refl) 3 150 0

runs : Unit {0}
unfolding consume_message retry retry_loop publish_dlq dead_letter decode_failed handler_failed
    run_consumer kafka_message
runs = tt

third_time : consume_message (services 2 none) "dlq" message 0 ≡ (none, 3)
unfolding runs
third_time = refl

consume_message-Settled_example :
    Settled (services 2 none) "dlq" message 0 (consume_message (services 2 none) "dlq" message 0).1
unfolding runs
consume_message-Settled_example = consume_message-Settled (services 2 none) "dlq" message 0 refl

abbrev topic : Topic ℕ
topic = record { unread = message ∷ broken ∷ message ∷ []; committed = []; world = 0 }

abbrev accepts : Message → ℕ → Failure
accepts _ _ = none

run_consumer-Ended_example :
    (r : Failure × Topic ℕ) × (run_consumer (topic_services (services 2 none) accepts) 4 "dlq" topic
      ≡ some r)
    × Ended (services 2 none) accepts "dlq" topic r
run_consumer-Ended_example =
    run_consumer-Ended (services 2 none) accepts 4 "dlq" topic (omega arith)

decode_failed-kafka_message_example :
    let dead = decode_failed "dlq" 7 "invalid character" message in
    (dead.id ≡ created.id)
    × (dead.tenant_id ≡ created.tenant_id)
    × (dead.key ≡ created.key)
    × (dead.aggregate_id ≡ created.key)
    × (dead.topic ≡ "dlq")
    × (header_value message.headers "event-type" ≡ created.event_type)
unfolding runs
decode_failed-kafka_message_example =
    decode_failed-kafka_message (λ _. ok "event") created message "dlq" "invalid character" 7 refl
