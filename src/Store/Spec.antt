-- ===== src/Store/Spec.antt =====
-- store.go's `Store`, what its methods on records promise of any implementation: an abstract view of
-- the state by identifiers, and the steps between views.
use enterprise_workflow_plat.Common.{
  String, List, ◌∷◌, Option, some, none, Bool, true, false, ◌≡◌, ◌≢◌, ◌⊎◌, contains,
}
use enterprise_workflow_plat.Common.Int64.{inc64}
use enterprise_workflow_plat.Domain.{Record, WorkflowDefinition, Int64}
use enterprise_workflow_plat.Domain.Value.{Members}

pub record Catalog : Type 0 where
  pub workflow_of : String → Option WorkflowDefinition
  pub record_of : String → Option Record

-- The record under `id` is `r` afterwards, and nothing else has changed.
pub record IsOnlyWrite (id : String) (r : Record) (a b : Catalog) : Type 0 where
  pub there : b.record_of id ≡ some r
  pub others : (k : String) → k ≢ id → b.record_of k ≡ a.record_of k
  pub workflows : (k : String) → b.workflow_of k ≡ a.workflow_of k

-- A creation that returns `new` and stores `kept`: under an unused identifier, in the first state of
-- a workflow of the tenant.
pub record IsCreation (tenant key : String) (r new kept : Record) (a b : Catalog) : Type 0 where
  pub workflow : WorkflowDefinition
  pub known : a.workflow_of r.workflow_id ≡ some workflow
  pub allowed : workflow.tenant_id ≡ tenant
  pub later_states : List String
  pub state_is : workflow.states ≡ new.state ∷ later_states
  pub tenant_is : new.tenant_id ≡ tenant
  pub key_is : new.idempotency ≡ key
  pub version_is : new.version ≡ 1
  pub workflow_is : new.workflow_id ≡ r.workflow_id
  pub data_is : new.record_data ≡ r.record_data
  pub unused : a.record_of new.id ≡ none
  pub writes : IsOnlyWrite new.id kept a b

-- What an update makes of a record.
pub record IsRevised (state : String) (new_data : Option Members) (old new : Record) : Type 0 where
  pub same_id : new.id ≡ old.id
  pub same_tenant : new.tenant_id ≡ old.tenant_id
  pub same_workflow : new.workflow_id ≡ old.workflow_id
  pub same_key : new.idempotency ≡ old.idempotency
  pub same_creation : new.created_at ≡ old.created_at
  pub next_version : new.version ≡ inc64 old.version
  pub same_state : state ≡ "" → new.state ≡ old.state
  pub new_state : state ≢ "" → new.state ≡ state
  pub same_data : new_data ≡ none → new.record_data ≡ old.record_data
  pub given_data : (m : Members) → new_data ≡ some m → new.record_data ≡ some m

-- An update of the tenant's record at the expected version to a state of its workflow.
pub record IsUpdate (tenant id : String) (expected : Int64) (state : String)
    (new_data : Option Members) (new : Record) (a b : Catalog) : Type 0 where
  pub old : Record
  pub was : a.record_of id ≡ some old
  pub tenant_is : old.tenant_id ≡ tenant
  pub version_is : old.version ≡ expected
  pub allowed :
      (state ≡ "")
      ⊎ ((workflow : WorkflowDefinition) × (a.workflow_of old.workflow_id ≡ some workflow)
          × (contains workflow.states state ≡ true))
  pub revised : IsRevised state new_data old new
  pub writes : IsOnlyWrite id new a b

-- The methods of an implementation on records; `none` stands for any error.
pub record Operations (S : Type 0) : Type 0 where
  pub create_record : String → String → Record → S → Option (Record × Bool) × S
  pub get_record : String → String → S → Option Record × S
  pub update_record : String → String → Int64 → String → Option Members → S → Option Record × S

-- An implementation, its view, what it keeps of a new record, and what has to hold of its state.
module _ {S : Type 0} (store : Operations S) (view : S → Catalog) (stored : Record → Record)
    (Ready : S → Type 0) where
  pub record Implements : Type 0 where
    pub creates :
        (tenant key : String) (r new : Record) (s : S)
        → Ready s
        → (store.create_record tenant key r s).0 ≡ some (new, false)
        → IsCreation tenant key r new
            (stored new)
            (view s)
            (view (store.create_record tenant key r s).1)
    pub replays :
        (tenant key : String) (r old : Record) (s : S)
        → Ready s
        → (store.create_record tenant key r s).0 ≡ some (old, true)
        → (key ≢ "")
          × ((view s).record_of old.id ≡ some old)
          × (view (store.create_record tenant key r s).1 ≡ view s)
    pub reads :
        (tenant id : String) (r : Record) (s : S)
        → Ready s
        → (store.get_record tenant id s).0 ≡ some r
        → ((view s).record_of id ≡ some r)
          × (r.tenant_id ≡ tenant)
          × (view (store.get_record tenant id s).1 ≡ view s)
    pub updates :
        (tenant id : String) (expected : Int64) (state : String) (new_data : Option Members)
        (new : Record) (s : S)
        → Ready s
        → (store.update_record tenant id expected state new_data s).0 ≡ some new
        → IsUpdate tenant id expected state new_data new
            (view s)
            (view (store.update_record tenant id expected state new_data s).1)
