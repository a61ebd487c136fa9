-- ===== src/Store/Memory/Sound.antt =====
-- The invariant of a store that the service can reach, and the histories that reach it.
use enterprise_workflow_plat.Common.{
  String, List, [], ◌∷◌, ◌≢◌, ◌+◌, ◌*◌, ◌≤◌, ◌<◌, refl, arith, length, err,
}
use enterprise_workflow_plat.Common.Map.{lookup}
use enterprise_workflow_plat.Common.Int64.{two_63}
use enterprise_workflow_plat.Domain.{Record}
use enterprise_workflow_plat.Store.{index_out_of_range}
use enterprise_workflow_plat.Store.Memory.{
  MemoryStore, Clock, new_memory_store, create_record, write_new,
}
use enterprise_workflow_plat.Store.Memory.Cases.{create_record_cases, insert_record_cases}
use enterprise_workflow_plat.Store.Memory.Change.{step-Change}
use enterprise_workflow_plat.Store.Memory.Fresh.{IsFresh, HasRoom, Change-IsFresh}
use enterprise_workflow_plat.Store.Memory.Validity.{IsValid}
use enterprise_workflow_plat.Store.Memory.Preserved.{Change-IsValid}
use enterprise_workflow_plat.Store.Memory.Log.{IsLogged}
use enterprise_workflow_plat.Store.Memory.Logged.{Change-IsLogged}
use enterprise_workflow_plat.Store.Memory.Trace.{Call, step, run}

pub record IsSound (s : MemoryStore) : Type 0 where
  pub fresh : IsFresh s
  pub valid : IsValid s
  pub logged : IsLogged s

new_memory_store-IsSound : IsSound new_memory_store
unfolding new_memory_store lookup
new_memory_store-IsSound = record {
  fresh = record {
    workflow_ids = λ k v e. cc;
    record_ids = λ k v e. cc;
    outbox_ids = tt;
    distinct = tt;
  };
  valid = record { workflows_ok = λ k v e. cc; records_ok = λ k v e. cc; replays_ok = λ k v e. cc };
  logged = record {
    paired = refl;
    counted = λ k v e. cc;
    current = λ k v e. cc;
    no_other = λ k e. refl;
    bounded = omega arith;
  };
}

-- One call keeps a store sound, and takes three numbers at most.
pub step-IsSound :
    (c : Call) (s : MemoryStore)
    → HasRoom s
    → IsSound s
    → IsSound (step c s) × ((step c s).counter ≤ s.counter + 3)
step-IsSound c s h i =
    let change = step-Change c s in
    let (fresh, count) = Change-IsFresh change h i.fresh in
    (
      record {
        fresh = fresh;
        valid = Change-IsValid change h i.fresh i.valid;
        logged = Change-IsLogged change h i.fresh i.valid i.logged;
      },
      count,
    )

-- Any sequence of calls does, while the counter does not reach 2 ^ 63.
pub run-IsSound :
    (cs : List Call) (s : MemoryStore)
    → s.counter + 3 * length cs < two_63
    → IsSound s
    → IsSound (run cs s) × ((run cs s).counter ≤ s.counter + 3 * length cs)
unfolding run
run-IsSound [] s h i = (i, omega arith)
run-IsSound (c ∷ cs) s h i =
    let (i', count) = step-IsSound c s (omega arith) i in
    let (i'', count') = run-IsSound cs (step c s) (omega arith) i' in (i'', omega arith)

-- Whatever sequence of calls the service has made on a new store, each of them counting up to three
-- identifiers and all together fewer than 2 ^ 63, the store is sound: identifiers are never reused,
-- every record is in a state of a workflow of its tenant, every idempotency entry leads to the
-- record created under it, and the audit log and the outbox agree with each other and with the
-- records.
pub run-new_memory_store-IsSound :
    (cs : List Call) → 3 * length cs < two_63 → IsSound (run cs new_memory_store)
unfolding new_memory_store
run-new_memory_store-IsSound cs h =
    (run-IsSound cs new_memory_store (omega arith) new_memory_store-IsSound).0

-- On a valid store `wf.States[0]` never panics: no call of `create_record` ends with that error.
pub create_record-ne-panic :
    (clock : Clock) (tenant key : String) (r : Record) (s : MemoryStore)
    → IsValid s
    → (create_record clock tenant key r s).0 ≢ err index_out_of_range
unfolding write_new
create_record-ne-panic clock tenant key r s v =
    create_record_cases (λ o. o.0 ≢ err index_out_of_range) clock tenant key r s (λ e. cc)
      (λ _ _ e. cc)
      λ wf found own _.
        insert_record_cases (λ o. o.0 ≢ err index_out_of_range) clock tenant key wf r s wf.states
          refl (λ none_left _. (v.workflows_ok r.workflow_id wf found).has_states none_left)
          λ first rest _ e. cc
