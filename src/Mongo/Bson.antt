-- ===== src/Mongo/Bson.antt =====
-- Filters, updates and sort orders as the store writes them in `bson.M`, and the documents' fields
-- by the `bson` tags of services/api/internal/domain.
use enterprise_workflow_plat.Common.{
  String, List, [], ◌∷◌, Option, none, some, Bool, true, false, ◌&&◌, ◌==◌, nat_beq, contains,
  if◌then◌else◌, ◌/◌, ◌*◌,
}
use enterprise_workflow_plat.Common.Int64.{inc64}
use enterprise_workflow_plat.Domain.{
  Time, Int64, WorkflowDefinition, Record, AuditEvent, OutboxEvent, Notification,
}
use enterprise_workflow_plat.Domain.Value.{Members}

-- A value that a filter compares.
pub data Bson : Type 0 where
  text : String → Bson
  number : Int64 → Bson
  date : Time → Bson

-- A value itself, `$exists: false`, and `$in`.
pub data Condition : Type 0 where
  equals : Bson → Condition
  missing : Condition
  one_of : List String → Condition

abbrev pub Filter : Type 0
Filter = List (String × Condition)

-- What `$set` and `$inc` by one do to a field.
pub data Change : Type 0 where
  set_value : Bson → Change
  set_document : Members → Change
  increment : Change

abbrev pub Update : Type 0
Update = List (String × Change)

pub data Order : Type 0 where
  ascending descending : Order

unfoldable pub bson_eq : Bson → Bson → Bool
bson_eq (text s) (text t) = s == t
bson_eq (number m) (number n) = nat_beq m n
bson_eq (date t) (date u) = nat_beq t u
bson_eq _ _ = false

unfoldable pub holds : Condition → Option Bson → Bool
unfolding bson_eq
holds (equals v) none = false
holds (equals v) (some w) = bson_eq w v
holds missing none = true
holds missing (some w) = false
holds (one_of ts) (some (text t)) = contains ts t
holds (one_of ts) _ = false

-- A document matches a filter if each condition holds of its field.
unfoldable pub matches : {A : Type 0} → (String → A → Option Bson) → Filter → A → Bool
unfolding holds
matches field [] d = true
matches field ((name, condition) ∷ filter) d =
    holds condition (field name d) && matches field filter d

unfoldable pub apply_update : {A : Type 0} → (String → Change → A → A) → Update → A → A
apply_update change [] d = d
apply_update change ((name, c) ∷ update) d = apply_update change update (change name c d)

-- The fields that filters name.
unfoldable pub workflow_field : String → WorkflowDefinition → Option Bson
workflow_field name d =
    if name == "_id"
    then some (text d.id)
    else if name == "tenantId"
    then some (text d.tenant_id)
    else none

unfoldable pub record_field : String → Record → Option Bson
record_field name d =
    if name == "_id"
    then some (text d.id)
    else if name == "tenantId"
    then some (text d.tenant_id)
    else if name == "workflowId"
    then some (text d.workflow_id)
    else if name == "state"
    then some (text d.state)
    else if name == "version"
    then some (number d.version)
    else none

-- A BSON date keeps milliseconds: the nanoseconds of a stored time, as it is read back.
unfoldable pub millis : Time → Time
millis t = t / 1000000 * 1000000

-- What an update of a record names.
unfoldable pub change_record : String → Change → Record → Record
change_record name (set_value (text s)) d = if name == "state" then record d { state = s } else d
change_record name (set_value (date t)) d =
    if name == "updatedAt" then record d { updated_at = millis t } else d
change_record name (set_value (number n)) d = d
change_record name (set_document m) d =
    if name == "data" then record d { record_data = some m } else d
change_record name increment d =
    if name == "version" then record d { version = inc64 d.version } else d

unfoldable pub audit_field : String → AuditEvent → Option Bson
audit_field name d =
    if name == "_id"
    then some (text d.id)
    else if name == "tenantId"
    then some (text d.tenant_id)
    else none

-- `publishedAt,omitempty`: a nil pointer is no field.
unfoldable pub outbox_field : String → OutboxEvent → Option Bson
outbox_field name d =
    if name == "_id"
    then some (text d.id)
    else if name == "publishedAt"
    then elim d.published_at [ none ↦ none | some t ↦ some (date t) ]
    else none

unfoldable pub change_outbox : String → Change → OutboxEvent → OutboxEvent
change_outbox name (set_value (text s)) d =
    if name == "lastError" then record d { last_error = s } else d
change_outbox name (set_value (date t)) d =
    if name == "publishedAt" then record d { published_at = some (millis t) } else d
change_outbox name (set_value (number n)) d = d
change_outbox name (set_document m) d = d
change_outbox name increment d =
    if name == "attempts" then record d { attempts = inc64 d.attempts } else d

unfoldable pub notification_field : String → Notification → Option Bson
notification_field name d =
    if name == "_id"
    then some (text d.id)
    else if name == "tenantId"
    then some (text d.tenant_id)
    else none

-- `idempotencyDoc` of mongo_store.go.
pub record IdempotencyDoc : Type 0 where
  pub tenant_id : String
  pub key : String
  pub record_id : String
  pub created_at : Time

unfoldable pub idempotency_field : String → IdempotencyDoc → Option Bson
idempotency_field name d =
    if name == "tenantId"
    then some (text d.tenant_id)
    else if name == "key"
    then some (text d.key)
    else if name == "recordId"
    then some (text d.record_id)
    else none

-- The documents of the collections as they are read back after an insertion: their times are BSON
-- dates.
abbrev pub stored_workflow : WorkflowDefinition → WorkflowDefinition
stored_workflow d = record d { created_at = millis d.created_at; updated_at = millis d.updated_at }

abbrev pub stored_record : Record → Record
stored_record d = record d { created_at = millis d.created_at; updated_at = millis d.updated_at }

abbrev pub stored_key : IdempotencyDoc → IdempotencyDoc
stored_key d = record d { created_at = millis d.created_at }

abbrev pub stored_audit : AuditEvent → AuditEvent
stored_audit d = record d { occurred_at = millis d.occurred_at }

abbrev pub stored_date : Option Time → Option Time
stored_date none = none
stored_date (some t) = some (millis t)

abbrev pub stored_outbox : OutboxEvent → OutboxEvent
stored_outbox d = record d {
  created_at = millis d.created_at;
  published_at = stored_date d.published_at;
}

abbrev pub stored_notification : Notification → Notification
stored_notification d = record d { created_at = millis d.created_at }
