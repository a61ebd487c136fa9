-- ===== src/Store/Memory/Refines.antt =====
-- `MemoryStore` keeps the promises of `Store`.
use enterprise_workflow_plat.Common.{
  String, Option, some, none, true, false, Bool, ◌≡◌, ◌≢◌, ◌⊎◌, refl, sym, ap, subst, inl, inr,
  arith, Result, err, ok, get_or, contains, eq_iff,
}
use enterprise_workflow_plat.Common.Map.{lookup}
use enterprise_workflow_plat.Domain.{Record, WorkflowDefinition, Int64, zero_workflow}
use enterprise_workflow_plat.Domain.Value.{Members}
use enterprise_workflow_plat.Store.{StoreError}
use enterprise_workflow_plat.Store.Spec.{
  Catalog, IsOnlyWrite, IsCreation, IsUpdate, Operations, Implements,
}
use enterprise_workflow_plat.Store.Memory.{
  MemoryStore, Clock, create_record, get_record, update_record, write_new, find_replay,
}
use enterprise_workflow_plat.Store.Memory.Cases.{create_record_cases, insert_record_cases}
use enterprise_workflow_plat.Store.Memory.Contract.{
  OnlyWrites, create_record-IsCreated, update_record-IsUpdated,
}
use enterprise_workflow_plat.Store.Memory.Fresh.{HasRoom}
use enterprise_workflow_plat.Store.Memory.Isolation.{get_record_iff}
use enterprise_workflow_plat.Store.Memory.Sound.{IsSound}
use enterprise_workflow_plat.Store.Memory.Validity.{IsValid}
use enterprise_workflow_plat.Store.Memory.Leak.{find_replay-IsReplay}

abbrev pub succeeded : {A : Type 0} → Result StoreError A → Option A
succeeded (ok a) = some a
succeeded (err _) = none

-- The methods, at the readings of the clock that `clock` gives to each call.
abbrev pub memory_store : Clock → Operations MemoryStore
memory_store clock = record {
  create_record = λ tenant key r s.
      let (result, s') = create_record clock tenant key r s in (succeeded result, s');
  get_record = λ tenant id s. (succeeded (get_record tenant id s), s);
  update_record = λ tenant id expected state new_data s.
      let (result, s') = update_record clock tenant id expected state new_data s in
      (succeeded result, s');
}

abbrev pub catalog : MemoryStore → Catalog
catalog s = record { workflow_of = λ k. lookup k s.workflows; record_of = λ k. lookup k s.records }

abbrev pub IsReady : MemoryStore → Type 0
IsReady s = HasRoom s × IsSound s

succeeded-some : {A : Type 0} (r : Result StoreError A) (a : A) → succeeded r ≡ some a → r ≡ ok a
succeeded-some (ok x) a h = let same : x ≡ a = cc in ap ok same
succeeded-some (err e) a h = cc

catalog-IsOnlyWrite :
    (id : String) (r : Record) (s t : MemoryStore)
    → OnlyWrites id r s t
    → IsOnlyWrite id r (catalog s) (catalog t)
catalog-IsOnlyWrite id r s t (there, others, workflows) = record {
  there = there;
  others = others;
  workflows = λ k. ap (lookup k) workflows;
}

-- A workflow that is not there has no states.
allowed_is :
    (state : String) (found : Option WorkflowDefinition)
    → (state ≡ "") ⊎ (contains (get_or found zero_workflow).states state ≡ true)
    → (state ≡ "")
      ⊎ ((workflow : WorkflowDefinition) × (found ≡ some workflow)
          × (contains workflow.states state ≡ true))
unfolding contains
allowed_is state found (inl none_given) = inl none_given
allowed_is state none (inr has) = cc
allowed_is state (some wf) (inr has) = inr (wf, refl, has)

memory_store-creates :
    (clock : Clock) (tenant key : String) (r new : Record) (s : MemoryStore)
    → IsReady s
    → (create_record clock tenant key r s).0 ≡ ok (new, false)
    → IsCreation tenant key r new new (catalog s) (catalog (create_record clock tenant key r s).1)
memory_store-creates clock tenant key r new s (room, sound) h =
    let made = create_record-IsCreated clock tenant key r new s room sound h in
    record {
      workflow = made.workflow;
      known = made.known;
      allowed = made.allowed;
      later_states = made.later_states;
      state_is = made.state_is;
      tenant_is = made.tenant_is;
      key_is = made.key_is;
      version_is = made.version_is;
      workflow_is = made.workflow_is;
      data_is = made.data_is;
      unused = made.was_unused;
      writes = catalog-IsOnlyWrite new.id new s (create_record clock tenant key r s).1 made.writes;
    }

-- A replay has a key, and is stored under its own identifier.
find_replay-key :
    (tenant key : String) (r : Record) (s : MemoryStore)
    → find_replay tenant key s ≡ some r
    → key ≢ ""
unfolding find_replay
find_replay-key tenant key r s again e =
    let test = (eq_iff key "").1 e in let h = rw test at again in cc

replay-there :
    (tenant key : String) (r : Record) (s : MemoryStore)
    → IsValid s
    → find_replay tenant key s ≡ some r
    → lookup r.id s.records ≡ some r
replay-there tenant key r s valid again =
    let (id, found, _) = find_replay-IsReplay tenant key r s valid again in
    subst (λ k. lookup k s.records ≡ some r) (sym (valid.records_ok id r found).own_id) found

memory_store-replays :
    (clock : Clock) (tenant key : String) (r old : Record) (s : MemoryStore)
    → IsReady s
    → (create_record clock tenant key r s).0 ≡ ok (old, true)
    → (key ≢ "")
      × (lookup old.id s.records ≡ some old)
      × (catalog (create_record clock tenant key r s).1 ≡ catalog s)
unfolding write_new
memory_store-replays clock tenant key r old s (_, sound) =
    let P : Result StoreError (Record × Bool) × MemoryStore → Type 0 = λ o.
      o.0 ≡ ok (old, true)
      → (key ≢ "") × (lookup old.id s.records ≡ some old) × (catalog o.1 ≡ catalog s) in
    create_record_cases P clock tenant key r s (λ e. cc)
      (λ x again e.
        let same : x ≡ old = ground arith in
        let there = replay-there tenant key x s sound.valid again in
        (
          find_replay-key tenant key x s again,
          subst (λ y. lookup y.id s.records ≡ some y) same there,
          refl,
        ))
      λ wf found own _.
        insert_record_cases P clock tenant key wf r s wf.states refl (λ _ e. cc)
          λ first rest states e. absurd (ground arith)

memory_store-updates :
    (clock : Clock) (tenant id : String) (expected : Int64) (state : String)
    (new_data : Option Members) (new : Record) (s : MemoryStore)
    → (update_record clock tenant id expected state new_data s).0 ≡ ok new
    → IsUpdate tenant id expected state new_data new
        (catalog s)
        (catalog (update_record clock tenant id expected state new_data s).1)
memory_store-updates clock tenant id expected state new_data new s h =
    let made = update_record-IsUpdated clock tenant id expected state new_data new s h in
    record {
      old = made.old;
      was = made.was;
      tenant_is = made.tenant_is;
      version_is = made.version_is;
      allowed = allowed_is state (lookup made.old.workflow_id s.workflows) made.allowed;
      revised = made.revised;
      writes =
          catalog-IsOnlyWrite id new s (update_record clock tenant id expected state new_data s).1
            made.writes;
    }

-- From sound stores with room, every creation, replay, read and update that succeeds is the step of
-- the specification `Store.Spec` on the view of the store by identifiers.
pub memory_store-Implements :
    (clock : Clock) → Implements (memory_store clock) catalog (λ r. r) IsReady
memory_store-Implements clock = record {
  creates = λ tenant key r new s ready h.
      memory_store-creates clock tenant key r new s ready
        (succeeded-some (create_record clock tenant key r s).0 (new, false) h);
  replays = λ tenant key r old s ready h.
      memory_store-replays clock tenant key r old s ready
        (succeeded-some (create_record clock tenant key r s).0 (old, true) h);
  reads = λ tenant id r s ready h.
      let (there, own) =
        (get_record_iff tenant id r s).0 (succeeded-some (get_record tenant id s) r h) in
      (there, own, refl);
  updates = λ tenant id expected state new_data new s ready h.
      memory_store-updates clock tenant id expected state new_data new s
        (succeeded-some (update_record clock tenant id expected state new_data s).0 new h);
}
