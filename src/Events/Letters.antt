-- ===== src/Events/Letters.antt =====
-- The dead letters of `publishDLQ`: what they say, and that they were published.
use Prim.Native.String.{◌++◌}
use enterprise_workflow_plat.Common.{
  String, none, some, ◌≡◌, ◌≢◌, refl, eq_iff, arith, inl, inr, Option-cases,
}
use enterprise_workflow_plat.Domain.{OutboxEvent, Time}
use enterprise_workflow_plat.Domain.Value.{member, text, end}
use enterprise_workflow_plat.Events.{
  Message, Services, publish_dlq, dead_letter, decode_failed, handler_failed,
}

-- The dead letter of an event that was not handled, and that of a message that does not decode.
pub record IsUnhandled (dlq_topic e : String) (event letter : OutboxEvent) : Type 0 where
  pub to_dlq : letter.topic ≡ dlq_topic
  pub same_id : event.id ≢ "" → letter.id ≡ event.id
  pub same_tenant : letter.tenant_id ≡ event.tenant_id
  pub same_aggregate : letter.aggregate_id ≡ event.aggregate_id
  pub type_is : letter.event_type ≡ event.event_type ++ ".failed"
  pub error_is : letter.last_error ≡ e
  pub counted : letter.attempts ≡ 3

pub record IsUndecoded (dlq_topic e : String) (message : Message) (letter : OutboxEvent)
    : Type 0 where
  pub to_dlq : letter.topic ≡ dlq_topic
  pub key_is : letter.key ≡ message.key
  pub type_is : letter.event_type ≡ "consumer.decode_failed"
  pub payload_is :
      letter.payload ≡ some (member "raw" (text message.value) (member "error" (text e) end))

pub handler_failed-IsUnhandled :
    (dlq_topic e : String) (event : OutboxEvent) (now : Time)
    → IsUnhandled dlq_topic e event (dead_letter now (handler_failed dlq_topic e event))
unfolding handler_failed dead_letter
handler_failed-IsUnhandled dlq_topic e event now = record {
  to_dlq = refl;
  same_id = λ other. ground (arith, eq_iff event.id "");
  same_tenant = refl;
  same_aggregate = refl;
  type_is = refl;
  error_is = refl;
  counted = refl;
}

pub decode_failed-IsUndecoded :
    (dlq_topic e : String) (message : Message) (now : Time)
    → IsUndecoded dlq_topic e message (dead_letter now (decode_failed dlq_topic now e message))
unfolding decode_failed dead_letter
decode_failed-IsUndecoded dlq_topic e message now = record {
  to_dlq = refl;
  key_is = ground (arith, eq_iff message.key "");
  type_is = refl;
  payload_is = refl;
}

module _ {W : Type 0} (services : Services W) where
  -- A dead letter with these contents was published, and the state is the one directly after it.
  abbrev pub Buried : OutboxEvent → W → W → Type 0
  Buried event before after =
      services.publish_event (dead_letter (services.now before) event) before ≡ (none, after)

  pub publish_dlq-Buried :
      (event : OutboxEvent) (w : W)
      → (publish_dlq services event w).0 ≡ none
      → Buried event w (publish_dlq services event w).1
  unfolding publish_dlq
  publish_dlq-Buried event w e =
      let result = services.publish_event (dead_letter (services.now w) event) w in
      elim (Option-cases result.0) [
        | inl went ↦ rw (went, publish_dlq) refl
        | inr (reason, failed) ↦
            let h : some ("publish DLQ event: " ++ reason) ≡ none = rw (failed, publish_dlq) at e in
            cc
      ]
