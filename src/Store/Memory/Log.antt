-- ===== src/Store/Memory/Log.antt =====
-- The audit log and the outbox against the records: what the transactional outbox promises.
use enterprise_workflow_plat.Common.{
  String, List, [], ◌∷◌, ◌++◌, Option, some, none, ◌≡◌, ◌≤◌, ◌∙◌, ap, inl, inr, arith, map,
  append-nil, keep, keep-append, last, length, ◌==◌, Bool-cases, Option-cases, if◌then◌else◌,
}
use mathlib.Core.List.{map-append}
use enterprise_workflow_plat.Common.Map.{lookup}
use enterprise_workflow_plat.Domain.{AuditEvent, OutboxEvent, Record}
use enterprise_workflow_plat.Domain.Value.{Members}
use enterprise_workflow_plat.Store.Memory.{MemoryStore, record_payload}
use enterprise_workflow_plat.Store.Memory.Outbox.{change_first}

-- Whose record an event is about, and what happened to it.
abbrev pub audit_subject : AuditEvent → String × String × String
audit_subject e = (e.tenant_id, e.record_id, e.event_type)

abbrev pub outbox_subject : OutboxEvent → String × String × String
outbox_subject e = (e.tenant_id, e.aggregate_id, e.event_type)

-- The payloads of the events of one record, oldest first.
abbrev pub history : String → List OutboxEvent → List (Option Members)
history id es = map (λ e. e.payload) (keep (λ e. e.aggregate_id == id) es)

pub history-append :
    (id : String) (es fs : List OutboxEvent)
    → history id (es ++ fs) ≡ history id es ++ history id fs
history-append id es fs =
    ap (map (λ e. e.payload)) (keep-append (λ e. e.aggregate_id == id) es fs) ∙ map-append _ _ _

-- A mark on an event is no part of a record's history.
pub history-change_first :
    (k id : String) (change : OutboxEvent → OutboxEvent) (es events : List OutboxEvent)
    → ((e : OutboxEvent)
        → ((change e).aggregate_id ≡ e.aggregate_id) × ((change e).payload ≡ e.payload))
    → change_first id change es ≡ some events
    → history k events ≡ history k es
unfolding change_first
history-change_first k id change [] events keeps e = cc
history-change_first k id change (x ∷ es) events keeps e = elim (Bool-cases (x.id == id)) [
  | inl hit ↦ ground (arith, keeps x)
  | inr miss ↦ elim (Option-cases (change_first id change es)) [
    | inl ended ↦ ground arith
    | inr (rest, e') ↦ ground (arith, history-change_first k id change es rest keeps e')
  ]
]

pub record IsLogged (s : MemoryStore) : Type 0 where
  -- The two logs tell the same story.
  pub paired : map audit_subject s.audit ≡ map outbox_subject s.outbox
  -- A record has one event for each of its versions, and the last one shows it as it is.
  pub counted :
      (id : String) (r : Record)
      → lookup id s.records ≡ some r
      → length (history id s.outbox) ≡ r.version
  pub current :
      (id : String) (r : Record)
      → lookup id s.records ≡ some r
      → last (history id s.outbox) ≡ some (some (record_payload r))
  -- There are no events of records that are not there.
  pub no_other : (id : String) → lookup id s.records ≡ none → history id s.outbox ≡ []
  pub bounded : length s.outbox ≤ s.counter

-- One more event of record `id`, seen from record `k`.
pub history-concat :
    (k : String) (es : List OutboxEvent) (e : OutboxEvent)
    → history k (es ++ e ∷ [])
      ≡ (if e.aggregate_id == k then history k es ++ e.payload ∷ [] else history k es)
history-concat k es e = history-append k es (e ∷ []) ∙ ground (arith, append-nil (history k es))
