-- ===== src/Store/Memory/Validity.antt =====
-- The well-formedness of a store: what every stored workflow, record and idempotency key satisfies.
use enterprise_workflow_plat.Common.{
  String, [], some, none, true, ◌≡◌, ◌≢◌, refl, sym, ◌∙◌, ap, inl, inr, arith, subst, contains,
  ◌==◌, Text-cases, Bool-cases, eq_iff,
}
use enterprise_workflow_plat.Common.Map.{
  Map, lookup, insert, lookup-insert_unused, lookup-insert_cases, lookup-insert_self,
  lookup-insert_ne,
}
use enterprise_workflow_plat.Domain.{WorkflowDefinition, Record}
use enterprise_workflow_plat.Store.Memory.{
  MemoryStore, Clock, next_id, append_events, append_audit, append_outbox, write_new, write_update,
  scoped_key, remember,
}
use enterprise_workflow_plat.Store.Memory.Ids.{lookup-next}
use enterprise_workflow_plat.Store.Memory.Fresh.{IsFresh, HasRoom}

pub record IsWorkflow (id : String) (wf : WorkflowDefinition) : Type 0 where
  pub own_id : wf.id ≡ id
  pub has_tenant : wf.tenant_id ≢ ""
  pub has_name : wf.name ≢ ""
  pub has_states : wf.states ≢ []

-- A record lies under its own id, belongs to a workflow of its tenant and is in one of its states.
pub record IsRecord (workflows : Map WorkflowDefinition) (id : String) (r : Record) : Type 0 where
  pub own_id : r.id ≡ id
  pub workflow : WorkflowDefinition
  pub belongs : lookup r.workflow_id workflows ≡ some workflow
  pub same_tenant : workflow.tenant_id ≡ r.tenant_id
  pub known_state : contains workflow.states r.state ≡ true

-- An idempotency entry leads to the record that was created under its key.
pub record IsReplay (records : Map Record) (scoped id : String) : Type 0 where
  pub original : Record
  pub present : lookup id records ≡ some original
  pub has_key : original.idempotency ≢ ""
  pub key_matches : scoped ≡ scoped_key original.tenant_id original.idempotency

pub record IsValid (s : MemoryStore) : Type 0 where
  pub workflows_ok :
      (id : String) (wf : WorkflowDefinition) → lookup id s.workflows ≡ some wf → IsWorkflow id wf
  pub records_ok :
      (id : String) (r : Record) → lookup id s.records ≡ some r → IsRecord s.workflows id r
  pub replays_ok :
      (scoped id : String) → lookup scoped s.idempotency ≡ some id → IsReplay s.records scoped id

-- Only the three maps matter.
pub IsValid-maps :
    (s t : MemoryStore)
    → t.workflows ≡ s.workflows
    → t.records ≡ s.records
    → t.idempotency ≡ s.idempotency
    → IsValid s
    → IsValid t
IsValid-maps s t w r i v = record {
  workflows_ok = λ id wf e. v.workflows_ok id wf (sym (ap (lookup id) w) ∙ e);
  records_ok = λ id x e.
      subst (λ m. IsRecord m id x) (sym w) (v.records_ok id x (sym (ap (lookup id) r) ∙ e));
  replays_ok = λ k id e.
      subst (λ m. IsReplay m k id) (sym r) (v.replays_ok k id (sym (ap (lookup k) i) ∙ e));
}

pub next_id-unused :
    (s : MemoryStore)
    → HasRoom s
    → IsFresh s
    → (lookup (next_id "wf" s).0 s.workflows ≡ none) × (lookup (next_id "rec" s).0 s.records ≡ none)
unfolding next_id
next_id-unused s h f = (
  lookup-next "wf" s.counter s.workflows f.workflow_ids (omega arith),
  lookup-next "rec" s.counter s.records f.record_ids (omega arith),
)

pub IsRecord-insert_workflow :
    (m : Map WorkflowDefinition) (k : String) (wf : WorkflowDefinition)
    → lookup k m ≡ none
    → (id : String) (r : Record) → IsRecord m id r
    → IsRecord (insert k wf m) id r
IsRecord-insert_workflow m k wf unused id r ok = record {
  own_id = ok.own_id;
  workflow = ok.workflow;
  belongs = lookup-insert_unused k r.workflow_id wf ok.workflow m unused ok.belongs;
  same_tenant = ok.same_tenant;
  known_state = ok.known_state;
}

-- A rewritten record keeps what the idempotency entries say of it.
pub IsReplay-insert :
    (m : Map Record) (k : String) (r : Record)
    → ((old : Record)
        → lookup k m ≡ some old
        → (r.tenant_id ≡ old.tenant_id) × (r.idempotency ≡ old.idempotency))
    → (scoped id : String) → IsReplay m scoped id
    → IsReplay (insert k r m) scoped id
IsReplay-insert m k r keeps scoped id ok = elim (Text-cases k id) [
  | inl same ↦
      let (tenant, key) = keeps ok.original (ap (λ i. lookup i m) same ∙ ok.present) in
      record {
        original = r;
        present = ap (λ i. lookup i (insert k r m)) (sym same) ∙ lookup-insert_self k r m;
        has_key = λ e. ok.has_key (sym key ∙ e);
        key_matches = rw (tenant, key) ok.key_matches;
      }
  | inr (other, _) ↦ record {
    original = ok.original;
    present = lookup-insert_ne k id r m other ∙ ok.present;
    has_key = ok.has_key;
    key_matches = ok.key_matches;
  }
]

pub IsReplay-remember :
    (tenant key id : String) (r : Record) (records : Map Record) (m : Map String)
    → lookup id records ≡ some r
    → r.tenant_id ≡ tenant
    → r.idempotency ≡ key
    → ((k i : String) → lookup k m ≡ some i → IsReplay records k i)
    → (k i : String) → lookup k (remember tenant key id m) ≡ some i
    → IsReplay records k i
IsReplay-remember tenant key id r records m present own same old k i e =
    elim (Bool-cases (key == "")) [
      | inl empty ↦ old k i (rw empty at e)
      | inr given ↦
          lookup-insert_cases (IsReplay records) (scoped_key tenant key) id m
            (record {
              original = r;
              present = present;
              has_key = ground (arith, eq_iff key "");
              key_matches = rw (own, same);
            })
            (λ j w _. old j w) k i (rw given at e)
    ]

pub maps-append_events :
    (s : MemoryStore) (clock : Clock) (r : Record) (typ : String)
    → let t = append_events clock r typ s in
      (t.workflows ≡ s.workflows) × (t.records ≡ s.records) × (t.idempotency ≡ s.idempotency)
unfolding append_events append_audit append_outbox next_id
maps-append_events s clock r typ = (refl, refl, refl)

pub maps-write_new :
    (clock : Clock) (tenant key : String) (r : Record) (s : MemoryStore)
    → let t = (write_new clock tenant key r s).1 in
      (t.workflows ≡ s.workflows)
      × (t.records ≡ insert r.id r s.records)
      × (t.idempotency ≡ remember tenant key r.id s.idempotency)
unfolding write_new append_events append_audit append_outbox next_id
maps-write_new clock tenant key r s = (refl, refl, refl)

pub maps-write_update :
    (clock : Clock) (id : String) (r : Record) (s : MemoryStore)
    → let t = (write_update clock id r s).1 in
      (t.workflows ≡ s.workflows)
      × (t.records ≡ insert id r s.records)
      × (t.idempotency ≡ s.idempotency)
unfolding write_update append_events append_audit append_outbox next_id
maps-write_update clock id r s = (refl, refl, refl)
