-- ===== src/Events.antt =====
-- services/api/internal/events: the consumer and its retries, the publisher's messages.
-- The Kafka client, JSON, the handler and the clock are fields of `Services`, each a function of the
-- state `W` of the world; an error is the text that it prints.
pub mod Attempts
pub mod Letters
pub mod Delivery
pub mod Commits
pub mod Projection
pub mod Setup
mod Tests
use Prim.Native.String.{◌++◌}
use enterprise_workflow_plat.Common.{
  ℕ, zero, suc, ◌+◌, ◌-◌, ◌*◌, String, List, [], ◌∷◌, Option, none, some, Bool, true, false, ◌==◌,
  Result, ok, err, if◌then◌else◌, get_or,
}
use enterprise_workflow_plat.Common.Decimal.{decimal}
use enterprise_workflow_plat.Common.Int64.{is_positive}
use enterprise_workflow_plat.Common.Texts.{trim_space}
use enterprise_workflow_plat.Domain.{Time, Int64, OutboxEvent, Notification}
use enterprise_workflow_plat.Domain.Value.{
  Value, Members, end, member, text, int, set_member, payload_text,
}
use enterprise_workflow_plat.Relay.{Failure}

-- What the program reads and writes of a `kafka.Message`.
pub record Message : Type 0 where
  pub topic : String
  pub key : String
  pub value : String
  pub headers : List (String × String)

-- `kafkaMessage`, with `json.Marshal`.
unfoldable pub kafka_message :
    (OutboxEvent → Result String String) → OutboxEvent → Result String Message
kafka_message marshal event = elim (marshal event) [
  | err e ↦ err e
  | ok payload ↦ ok (record {
    topic = event.topic;
    key = event.key;
    value = payload;
    headers =
        ("event-id", event.id)
        ∷ ("event-type", event.event_type)
        ∷ ("tenant-id", event.tenant_id)
        ∷ [];
  })
]

-- The messages of a batch, or the first error.
unfoldable pub kafka_messages :
    (OutboxEvent → Result String String) → List OutboxEvent → Result String (List Message)
kafka_messages marshal [] = ok []
kafka_messages marshal (event ∷ batch) =
    let rest = kafka_messages marshal batch in
    elim (kafka_message marshal event) [
      | err e ↦ err e
      | ok message ↦ elim rest [ err e ↦ err e | ok messages ↦ ok (message ∷ messages) ]
    ]

-- `Publish` and `PublishBatch`, with `WriteMessages`.
unfoldable pub publish :
    {W : Type 0}
    → (OutboxEvent → Result String String)
    → (List Message → W → Failure × W)
    → OutboxEvent
    → W
    → Failure × W
publish marshal write event w = elim (kafka_message marshal event) [
  | err e ↦ (some e, w)
  | ok message ↦ write (message ∷ []) w
]

unfoldable pub publish_batch :
    {W : Type 0}
    → (OutboxEvent → Result String String)
    → (List Message → W → Failure × W)
    → List OutboxEvent
    → W
    → Failure × W
publish_batch marshal write [] w = (none, w)
publish_batch marshal write (event ∷ batch) w = elim (kafka_messages marshal (event ∷ batch)) [
  | err e ↦ (some e, w)
  | ok messages ↦ write messages w
]

-- The loop of both constructors that cleans the brokers' addresses.
unfoldable pub clean_brokers : List String → List String
clean_brokers [] = []
clean_brokers (broker ∷ brokers) =
    let rest = clean_brokers brokers in
    if trim_space broker == "" then rest else trim_space broker ∷ rest

unfoldable pub header_value : List (String × String) → String → String
header_value [] key = ""
header_value (header ∷ headers) key = if header.0 == key then header.1 else header_value headers key

-- What `NotificationHandler.Handle` stores for an event.
unfoldable pub notification_of : Time → OutboxEvent → Notification
notification_of now event = record {
  id = event.id;
  tenant_id = event.tenant_id;
  record_id = event.aggregate_id;
  event_type = event.event_type;
  state = payload_text "state" event.payload;
  created_at = now;
}

-- A step of a `for` loop over messages.
pub data Fetched : Type 0 where
  fetched : Message → Fetched
  cancelled : Fetched
  fetch_failed : String → Fetched

pub record Services (W : Type 0) : Type 0 where
  pub fetch : W → Fetched × W
  pub commit : Message → W → Failure × W
  pub decode : String → Result String OutboxEvent
  pub handle_event : OutboxEvent → W → Failure × W
  pub publish_event : OutboxEvent → W → Failure × W
  -- The wait after an attempt: `ctx.Err()` if the context ends first.
  pub wait : ℕ → W → Failure × W
  pub now : W → Time

-- `maxAttempts` and `retryDelay`.
abbrev pub max_attempts : ℕ
max_attempts = 3

abbrev pub retry_delay : ℕ
retry_delay = 150000000

-- `publishDLQ`: an event without identifier or key gets one.
unfoldable pub dead_letter : Time → OutboxEvent → OutboxEvent
dead_letter now event = record event {
  id = if event.id == "" then "dlq-" ++ decimal now else event.id;
  key = if event.key == "" then event.aggregate_id else event.key;
}

-- The event for a message that does not decode.
unfoldable pub decode_failed : String → Time → String → Message → OutboxEvent
decode_failed dlq_topic now e message = record {
  id = header_value message.headers "event-id";
  tenant_id = header_value message.headers "tenant-id";
  aggregate_id = message.key;
  topic = dlq_topic;
  key = message.key;
  event_type = "consumer.decode_failed";
  payload = some (member "raw" (text message.value) (member "error" (text e) end));
  created_at = now;
  published_at = none;
  attempts = 0;
  last_error = "";
}

-- The event for a message whose handler failed.
unfoldable pub handler_failed : String → String → OutboxEvent → OutboxEvent
handler_failed dlq_topic e event = record event {
  topic = dlq_topic;
  event_type = event.event_type ++ ".failed";
  last_error = e;
  attempts = max_attempts;
  payload = some (
      set_member "consumerAttempts" (int max_attempts)
        (set_member "consumerError" (text e) (get_or event.payload end)));
}

abbrev pub commit_error : String → String
commit_error e = "commit kafka message: " ++ e

module _ {W : Type 0} (services : Services W) where
  -- The loop of `retry`: `left` attempts may follow attempt number `attempt`.
  unfoldable pub retry_loop : (left attempt delay : ℕ) → (W → Failure × W) → W → Failure × W
  retry_loop zero attempt delay fn w = fn w
  retry_loop (suc left) attempt delay fn w =
      let (result, w') = fn w in
      elim result [
        | none ↦ (none, w')
        | some _ ↦
            let (ended, w'') = services.wait (delay * attempt) w' in
            elim ended [
              | some e ↦ (some e, w'')
              | none ↦ retry_loop left (attempt + 1) delay fn w''
            ]
      ]

  unfoldable pub retry : Int64 → ℕ → (W → Failure × W) → W → Failure × W
  retry attempts delay = retry_loop ((if is_positive attempts then attempts else 1) - 1) 1 delay

  unfoldable pub publish_dlq : OutboxEvent → W → Failure × W
  publish_dlq event w =
      let (result, w') = services.publish_event (dead_letter (services.now w) event) w in
      elim result [ none ↦ (none, w') | some e ↦ (some ("publish DLQ event: " ++ e), w') ]

  unfoldable pub consume_message : String → Message → W → Failure × W
  consume_message dlq_topic message w = elim (services.decode message.value) [
    | err e ↦ publish_dlq (decode_failed dlq_topic (services.now w) e message) w
    | ok event ↦
        let (result, w') = retry max_attempts retry_delay (services.handle_event event) w in
        elim result [
          | none ↦ (none, w')
          | some e ↦ publish_dlq (handler_failed dlq_topic e event) w'
        ]
  ]

  -- The loop of `Run`; `none` means that the fuel ran out.
  unfoldable pub run_consumer : ℕ → String → W → Option (Failure × W)
  run_consumer zero dlq_topic w = none
  run_consumer (suc fuel) dlq_topic w =
      let (next, w') = services.fetch w in
      elim next [
        | cancelled ↦ some (none, w')
        | fetch_failed e ↦ some (some ("fetch kafka message: " ++ e), w')
        | fetched message ↦
            let (consumed, w'') = consume_message dlq_topic message w' in
            elim consumed [
              | some e ↦ some (some e, w'')
              | none ↦
                  let (committed, w''') = services.commit message w'' in
                  elim committed [
                    | some e ↦ some (some (commit_error e), w''')
                    | none ↦ run_consumer fuel dlq_topic w'''
                  ]
            ]
      ]
