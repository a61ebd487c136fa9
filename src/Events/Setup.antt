-- ===== src/Events/Setup.antt =====
-- services/api/internal/events: `NewKafkaPublisher` and `NewKafkaConsumer`.
use enterprise_workflow_plat.Common.{
  ℕ, String, List, [], ◌∷◌, Bool, true, false, not, ◌||◌, ◌==◌, Result, ok, err, if◌then◌else◌,
}
use Prim.Native.String.{◌++◌}
use enterprise_workflow_plat.Events.{clean_brokers, max_attempts, retry_delay}

abbrev no_brokers : List String → Bool
no_brokers [] = true
no_brokers (broker ∷ brokers) = false

-- The addresses that the writer is made for.
unfoldable pub new_kafka_publisher : List String → Result String (List String)
new_kafka_publisher brokers =
    if no_brokers (clean_brokers brokers)
    then err "at least one kafka broker is required"
    else ok (clean_brokers brokers)

-- What the reader and the consumer are made with.
pub record ConsumerSettings : Type 0 where
  pub brokers : List String
  pub group_id : String
  pub topic : String
  pub dlq_topic : String
  pub attempts : ℕ
  pub delay : ℕ

-- `has_handler` and `has_dlq`: the handler and the publisher are not nil.
unfoldable pub new_kafka_consumer :
    (brokers : List String) (group_id topic : String) (has_handler has_dlq : Bool)
    → Result String ConsumerSettings
new_kafka_consumer brokers group_id topic has_handler has_dlq =
    if no_brokers (clean_brokers brokers)
      || (group_id == "" || (topic == "" || (not has_handler || not has_dlq)))
    then err "brokers, group ID, topic, handler, and DLQ publisher are required"
    else ok (record {
      brokers = clean_brokers brokers;
      group_id = group_id;
      topic = topic;
      dlq_topic = topic ++ ".dlq";
      attempts = max_attempts;
      delay = retry_delay;
    })
