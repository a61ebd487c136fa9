-- ===== src/Events/Delivery.antt =====
-- What has become of a message that `consumeMessage` returned from, and how often it was tried.
use enterprise_workflow_plat.Common.{
  ℕ, zero, suc, ◌+◌, ◌-◌, ◌*◌, ◌≤◌, ◌<◌, String, [], ◌∷◌, none, some, Result, ok, err, ◌≡◌, refl,
  arith, inl, inr, Option-cases, Result-cases, Bool-cases, if◌then◌else◌, subst,
}
use enterprise_workflow_plat.Common.Int64.{is_positive}
use enterprise_workflow_plat.Domain.{Int64, OutboxEvent, Time}
use enterprise_workflow_plat.Relay.{Failure}
use enterprise_workflow_plat.Events.{
  Message, Services, retry_loop, retry, dead_letter, decode_failed, handler_failed, consume_message,
  max_attempts, retry_delay, kafka_message, header_value,
}
use enterprise_workflow_plat.Events.Attempts.{Attempts, retry_loop-Attempts}
use enterprise_workflow_plat.Events.Letters.{
  IsUnhandled, IsUndecoded, Buried, handler_failed-IsUnhandled, decode_failed-IsUndecoded,
  publish_dlq-Buried,
}

module _ {W : Type 0} (services : Services W) where
  -- The number of attempts that a retry makes, counted by `count`.
  module _ (count : W → ℕ) (waits : (d : ℕ) (w : W) → count (services.wait d w).1 ≡ count w)
      (fn : W → Failure × W) (counts : (w : W) → count (fn w).1 ≡ count w + 1) where
    retry_loop-count :
        (left attempt delay : ℕ) (w : W)
        → (count w + 1 ≤ count (retry_loop services left attempt delay fn w).1)
          × (count (retry_loop services left attempt delay fn w).1 ≤ count w + (left + 1))
    unfolding retry_loop
    retry_loop-count zero attempt delay w = (omega (arith, counts w), omega (arith, counts w))
    retry_loop-count (suc left) attempt delay w = elim (Option-cases (fn w).0) [
      | inl went ↦ rw (went, retry_loop) (omega (arith, counts w), omega (arith, counts w))
      | inr (reason, failed) ↦ elim (Option-cases (services.wait (delay * attempt) (fn w).1).0) [
        | inr (ended, cancelled) ↦
            rw (failed, retry_loop, cancelled)
              (
                omega (arith, counts w, waits (delay * attempt) (fn w).1),
                omega (arith, counts w, waits (delay * attempt) (fn w).1),
              )
        | inl waited ↦
            let (least, most) =
              retry_loop-count left (attempt + 1) delay
                (services.wait (delay * attempt) (fn w).1).1 in
            rw (failed, retry_loop, waited)
              (
                omega (arith, least, counts w, waits (delay * attempt) (fn w).1),
                omega (arith, most, counts w, waits (delay * attempt) (fn w).1),
              )
      ]
    ]

    -- `retry` calls the function at least once and at most as often as asked, or once if that number
    -- is not positive. Each call counts one, and waiting counts nothing.
    pub retry-count :
        (attempts : Int64) (delay : ℕ) (w : W)
        → (count w + 1 ≤ count (retry services attempts delay fn w).1)
          × (count (retry services attempts delay fn w).1
              ≤ count w + (if is_positive attempts then attempts else 1))
    unfolding retry
    retry-count attempts delay w = elim (Bool-cases (is_positive attempts)) [
      | inl positive ↦
          let (least, most) = retry_loop-count (attempts - 1) 1 delay w in
          let some_one : 0 < attempts = ground arith in
          rw (positive, retry) (least, omega (arith, most, some_one))
      | inr negative ↦ rw (negative, retry) (retry_loop-count 0 1 delay w)
    ]

  -- What a message that was consumed has led to, from the state before to the one after.
  pub data Settled (dlq_topic : String) (message : Message) (w after : W) : Type 0 where
    handled :
        (event : OutboxEvent)
        → services.decode message.value ≡ ok event
        → Attempts services (services.handle_event event) 1 w none after
        → Settled dlq_topic message w after
    undecoded :
        (e : String)
        → services.decode message.value ≡ err e
        → IsUndecoded dlq_topic e message
            (dead_letter (services.now w) (decode_failed dlq_topic (services.now w) e message))
        → Buried services (decode_failed dlq_topic (services.now w) e message) w after
        → Settled dlq_topic message w after
    unhandled :
        (event : OutboxEvent) (e : String) (before : W)
        → services.decode message.value ≡ ok event
        → Attempts services (services.handle_event event) 1 w (some e) before
        → IsUnhandled dlq_topic e event
            (dead_letter (services.now before) (handler_failed dlq_topic e event))
        → Buried services (handler_failed dlq_topic e event) before after
        → Settled dlq_topic message w after

  -- If `consume_message` returns no error, then the handler succeeded with the message's event, in
  -- one of three attempts at most, and nothing was done after that; or the attempts ended with an
  -- error, that of the third or of the context in a wait, and directly after them a dead letter for
  -- the event with that error was published; or the message does not decode, the handler was not
  -- called, and a dead letter with the message's value was published.
  pub consume_message-Settled :
      (dlq_topic : String) (message : Message) (w : W)
      → (consume_message services dlq_topic message w).0 ≡ none
      → Settled dlq_topic message w (consume_message services dlq_topic message w).1
  unfolding consume_message retry
  consume_message-Settled dlq_topic message w e =
      elim (Result-cases (services.decode message.value)) [
        | inl (reason, broken) ↦
            let dead = decode_failed dlq_topic (services.now w) reason message in
            rw (broken, consume_message)
              (undecoded reason broken
                (decode_failed-IsUndecoded dlq_topic reason message (services.now w))
                (publish_dlq-Buried services dead w (rw (broken, consume_message) at e)))
        | inr (event, read) ↦
            let tried = retry services max_attempts retry_delay (services.handle_event event) w in
            let attempts : Attempts services (services.handle_event event) 1 w tried.0 tried.1 =
              retry_loop-Attempts services 2 1 (services.handle_event event) w refl in
            elim (Option-cases tried.0) [
              | inl went ↦
                  rw (read, consume_message, went)
                    (handled event read (
                      subst (λ f. Attempts services (services.handle_event event) 1 w f tried.1)
                        went attempts))
              | inr (reason, failed) ↦
                  rw (read, consume_message, failed)
                    (unhandled event reason tried.1 read
                      (subst (λ f. Attempts services (services.handle_event event) 1 w f tried.1)
                        failed attempts)
                      (handler_failed-IsUnhandled dlq_topic reason event (services.now tried.1))
                      (publish_dlq-Buried services (handler_failed dlq_topic reason event) tried.1
                        (rw (read, consume_message, failed) at e)))
            ]
      ]

-- A message that `kafka_message` made of an event carries the event's identifier, type and tenant
-- in its headers, so its dead letter has the event's identifier and tenant even if the message does
-- not decode, and the event's key and an aggregate of that name.
pub decode_failed-kafka_message :
    (marshal : OutboxEvent → Result String String) (event : OutboxEvent) (message : Message)
    (dlq_topic e : String) (now : Time)
    → kafka_message marshal event ≡ ok message
    → let dead = decode_failed dlq_topic now e message in
      (dead.id ≡ event.id)
      × (dead.tenant_id ≡ event.tenant_id)
      × (dead.key ≡ event.key)
      × (dead.aggregate_id ≡ event.key)
      × (dead.topic ≡ dlq_topic)
      × (header_value message.headers "event-type" ≡ event.event_type)
unfolding kafka_message decode_failed header_value
decode_failed-kafka_message marshal event message dlq_topic e now h =
    elim (Result-cases (marshal event)) [
      | inl (reason, failed) ↦
          let bad : err reason ≡ ok message = rw (failed, kafka_message) at h in cc
      | inr (payload, went) ↦
          let built : Message = record {
            topic = event.topic;
            key = event.key;
            value = payload;
            headers =
                ("event-id", event.id)
                ∷ ("event-type", event.event_type)
                ∷ ("tenant-id", event.tenant_id)
                ∷ [];
          } in
          let made : ok built ≡ ok message = rw (went, kafka_message) at h in
          let is : built ≡ message = cc in
          subst
            (λ m.
              let dead = decode_failed dlq_topic now e m in
              (dead.id ≡ event.id)
              × (dead.tenant_id ≡ event.tenant_id)
              × (dead.key ≡ event.key)
              × (dead.aggregate_id ≡ event.key)
              × (dead.topic ≡ dlq_topic)
              × (header_value m.headers "event-type" ≡ event.event_type))
            is (refl, refl, refl, refl, refl, refl)
    ]
