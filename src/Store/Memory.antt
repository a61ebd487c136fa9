-- ===== src/Store/Memory.antt =====
-- `MemoryStore` of services/api/internal/store/store.go. Each method runs under the store's mutex,
-- so it is one step from a state to a state. `clock` gives the readings of `time.Now()` within one
-- call, in their order; a Go map is an association list.
pub mod Queries
pub mod Outbox
pub mod Trace
pub mod Cases
pub mod Change
pub mod Ids
pub mod Marks
pub mod Fresh
pub mod Validity
pub mod Preserved
pub mod Log
pub mod Logged
pub mod Sound
pub mod Later
pub mod Replay
pub mod Revised
pub mod Contract
pub mod Isolation
pub mod Foreign
pub mod Leak
pub mod Pending
pub mod Refines
mod Tests
pub mod Concurrency
use Prim.Native.String.{◌++◌}
use enterprise_workflow_plat.Common.{
  ℕ, String, List, [], ◌∷◌, Option, none, some, Bool, true, false, not, ◌&&◌, ◌||◌, ◌==◌, Result,
  ok, err, if◌then◌else◌, nat_beq, get_or, contains,
}
use mathlib.Core.List.{◌++◌ as append}
use enterprise_workflow_plat.Common.Map.{Map, lookup, insert}
use enterprise_workflow_plat.Common.Int64.{inc64, format_06}
use enterprise_workflow_plat.Domain.{
  Time, Int64, WorkflowDefinition, Record, AuditEvent, OutboxEvent, zero_workflow, zero_record,
}
use enterprise_workflow_plat.Domain.Value.{Members, end, member, text, int}
use enterprise_workflow_plat.Store.{
  StoreError, not_found, conflict, invalid_workflow, index_out_of_range, record_events_topic,
}

pub record MemoryStore : Type 0 where
  pub workflows : Map WorkflowDefinition
  pub records : Map Record
  pub idempotency : Map String
  pub audit : List AuditEvent
  pub outbox : List OutboxEvent
  pub counter : Int64

abbrev pub Clock : Type 0
Clock = ℕ → Time

-- What a method that may fail returns, with the state after it.
abbrev pub Outcome : Type 0 → Type 0
Outcome A = Result StoreError A × MemoryStore

unfoldable pub new_memory_store : MemoryStore
new_memory_store = record {
  workflows = [];
  records = [];
  idempotency = [];
  audit = [];
  outbox = [];
  counter = 0;
}

-- `fmt.Sprintf("%s_%06d", prefix, counter)`.
unfoldable pub make_id : String → Int64 → String
make_id prefix n = prefix ++ ("_" ++ format_06 n)

unfoldable pub next_id : String → MemoryStore → String × MemoryStore
next_id prefix s = let n = inc64 s.counter in (make_id prefix n, record s { counter = n })

unfoldable pub is_empty_list {ℓ} : {A : Type ℓ} → List A → Bool
is_empty_list [] = true
is_empty_list (x ∷ xs) = false

unfoldable pub create_workflow :
    Clock → String → WorkflowDefinition → MemoryStore → Outcome WorkflowDefinition
create_workflow clock tenant wf s =
    if tenant == "" || (is_empty_list wf.states || wf.name == "")
    then (err invalid_workflow, s)
    else let (id, s') = next_id "wf" s in
      let stored = record wf {
        id = id;
        tenant_id = tenant;
        version = 1;
        created_at = clock 0;
        updated_at = clock 0;
      } in
      (ok stored, record s' { workflows = insert id stored s'.workflows })

-- `appendAuditLocked` and `appendOutboxLocked`.
unfoldable pub append_audit : Time → Record → String → MemoryStore → MemoryStore
append_audit now r typ s =
    let (id, s') = next_id "evt" s in
    record s' {
      audit = append s'.audit (
          record {
            id = id;
            tenant_id = r.tenant_id;
            record_id = r.id;
            event_type = typ;
            occurred_at = now;
            payload = some (member "state" (text r.state) (member "version" (int r.version) end));
          }
          ∷ []);
    }

unfoldable pub record_payload : Record → Members
record_payload r = member "recordId" (text r.id) (
    member "workflowId" (text r.workflow_id)
      (member "state" (text r.state) (member "version" (int r.version) end)))

unfoldable pub append_outbox : Time → Record → String → MemoryStore → MemoryStore
append_outbox now r typ s =
    let (id, s') = next_id "out" s in
    record s' {
      outbox = append s'.outbox (
          record {
            id = id;
            tenant_id = r.tenant_id;
            aggregate_id = r.id;
            topic = record_events_topic;
            key = r.id;
            event_type = typ;
            payload = some (record_payload r);
            created_at = now;
            published_at = none;
            attempts = 0;
            last_error = "";
          }
          ∷ []);
    }

-- The key of the idempotency map, `tenantID+":"+key`.
unfoldable pub scoped_key : String → String → String
scoped_key tenant key = tenant ++ (":" ++ key)

-- The record that an earlier call with this key created.
unfoldable pub find_replay : String → String → MemoryStore → Option Record
find_replay tenant key s =
    if key == "" then none else elim (lookup (scoped_key tenant key) s.idempotency) [
      | none ↦ none
      | some existing ↦ some (get_or (lookup existing s.records) zero_record)
    ]

abbrev pub remember : String → String → String → Map String → Map String
remember tenant key id m = if key == "" then m else insert (scoped_key tenant key) id m

-- The two calls that end both writing methods.
unfoldable pub append_events : Clock → Record → String → MemoryStore → MemoryStore
append_events clock r typ s = append_outbox (clock 2) r typ (append_audit (clock 1) r typ s)

-- The record as `CreateRecord` fills it in.
unfoldable pub new_record : (now : Time) (id tenant key first_state : String) → Record → Record
new_record now id tenant key first_state r = record r {
  id = id;
  tenant_id = tenant;
  state = first_state;
  version = 1;
  idempotency = key;
  created_at = now;
  updated_at = now;
}

-- The writes of `CreateRecord`, once the record is filled in.
unfoldable pub write_new : Clock → String → String → Record → MemoryStore → Outcome (Record × Bool)
write_new clock tenant key r s = (
  ok (r, false),
  append_events clock r "record.created" (record s {
    records = insert r.id r s.records;
    idempotency = remember tenant key r.id s.idempotency;
  }),
)

-- The rest of `CreateRecord`, from `now := time.Now().UTC()`; `wf.States[0]` may panic.
unfoldable pub insert_record :
    Clock → String → String → WorkflowDefinition → Record → MemoryStore → Outcome (Record × Bool)
insert_record clock tenant key wf r s =
    let (id, s') = next_id "rec" s in
    elim wf.states [
      | [] ↦ (err index_out_of_range, s')
      | first ∷ _ ↦ write_new clock tenant key (new_record (clock 0) id tenant key first r) s'
    ]

unfoldable pub create_record :
    Clock → String → String → Record → MemoryStore → Outcome (Record × Bool)
create_record clock tenant key r s = elim (lookup r.workflow_id s.workflows) [
  | none ↦ (err invalid_workflow, s)
  | some wf ↦
      if not (wf.tenant_id == tenant)
      then (err invalid_workflow, s)
      else elim (find_replay tenant key s) [
        | some existing ↦ (ok (existing, true), s)
        | none ↦ insert_record clock tenant key wf r s
      ]
]

unfoldable pub get_record : String → String → MemoryStore → Result StoreError Record
get_record tenant id s = elim (lookup id s.records) [
  | none ↦ err not_found
  | some r ↦ if not (r.tenant_id == tenant) then err not_found else ok r
]

abbrev replace_data : Option Members → Option Members → Option Members
replace_data none old = old
replace_data (some m) old = some m

-- The record that a successful `UpdateRecord` writes.
unfoldable pub updated_record : Time → String → Option Members → Record → Record
updated_record now state new_data r = record r {
  state = if state == "" then r.state else state;
  record_data = replace_data new_data r.record_data;
  version = inc64 r.version;
  updated_at = now;
}

-- The rest of `UpdateRecord`, from the write of the record.
unfoldable pub write_update : Clock → String → Record → MemoryStore → Outcome Record
write_update clock id r s =
    (ok r, append_events clock r "record.updated" (record s { records = insert id r s.records }))

unfoldable pub update_record :
    Clock → String → String → Int64 → String → Option Members → MemoryStore → Outcome Record
update_record clock tenant id expected state new_data s = elim (lookup id s.records) [
  | none ↦ (err not_found, s)
  | some r ↦
      if not (r.tenant_id == tenant)
      then (err not_found, s)
      else if not (nat_beq r.version expected)
      then (err conflict, s)
      else let wf = get_or (lookup r.workflow_id s.workflows) zero_workflow in
        if not (state == "") && not (contains wf.states state)
        then (err invalid_workflow, s)
        else write_update clock id (updated_record (clock 0) state new_data r) s
]
