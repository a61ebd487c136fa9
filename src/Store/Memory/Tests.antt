-- ===== src/Store/Memory/Tests.antt =====
-- Runs of `MemoryStore` on small stores, and the theorems at them.
use Prim.Native.Char.{code}
use enterprise_workflow_plat.Common.{
  List, [], ◌∷◌, some, none, true, false, ◌≡◌, ◌≢◌, ap, refl, arith, ok, err, eq_iff, contains, ◌↔◌,
}
use enterprise_workflow_plat.Common.Map.{lookup, insert}
use enterprise_workflow_plat.Common.Int64.{inc64, format_06}
use enterprise_workflow_plat.Domain.{Record, WorkflowDefinition, zero_record, zero_workflow}
use enterprise_workflow_plat.Domain.Value.{end, member, text}
use enterprise_workflow_plat.Store.{not_found, conflict, invalid_workflow, index_out_of_range}
use enterprise_workflow_plat.Store.Memory.{
  MemoryStore, Clock, new_memory_store, make_id, next_id, is_empty_list, create_workflow,
  append_audit, append_outbox, append_events, scoped_key, find_replay, new_record, write_new,
  insert_record, create_record, get_record, updated_record, write_update, update_record,
  record_payload,
}
use enterprise_workflow_plat.Store.Memory.Trace.{
  Call, creates_workflow, creates_record, updates_record, step, run,
}
use enterprise_workflow_plat.Store.Memory.Outbox.{
  change_first, mark_outbox_published, mark_outbox_failed,
}
use enterprise_workflow_plat.Store.Memory.Sound.{
  IsSound, run-new_memory_store-IsSound, create_record-ne-panic,
}
use enterprise_workflow_plat.Store.Memory.Later.{Later, IsLater, run-Later}
use enterprise_workflow_plat.Store.Memory.Replay.{create_record-replay}
use enterprise_workflow_plat.Store.Memory.Contract.{
  IsCreated, create_record-IsCreated, IsUpdated, update_record-IsUpdated, Refused,
  update_record-Refused,
}
use enterprise_workflow_plat.Store.Memory.Concurrency.{update_record_once}
use enterprise_workflow_plat.Store.Memory.Isolation.{SameView, get_record_iff}
use enterprise_workflow_plat.Store.Memory.Foreign.{step-SameView}
use enterprise_workflow_plat.Store.Memory.Leak.{NoColon, create_record-own, create_record_leaks}
use enterprise_workflow_plat.Store.Memory.Refines.{
  memory_store, catalog, IsReady, memory_store-Implements,
}
use enterprise_workflow_plat.Store.Spec.{Implements}

-- What a run has to see through.
memory : Unit {0}
unfolding new_memory_store make_id next_id is_empty_list create_workflow append_audit append_outbox
    append_events scoped_key find_replay new_record write_new insert_record create_record get_record
    updated_record write_update update_record record_payload step run change_first
    mark_outbox_published mark_outbox_failed lookup insert inc64 format_06 contains
memory = tt

abbrev clock : Clock
clock n = n

abbrev equipment : WorkflowDefinition
equipment = record zero_workflow { name = "Equipment"; states = "SUBMITTED" ∷ "APPROVED" ∷ [] }

abbrev request : Record
request = record zero_record {
  workflow_id = "wf_000001";
  record_data = some (member "device" (text "laptop") end);
}

abbrev history_one : List Call
history_one =
    creates_workflow clock "acme" equipment ∷ creates_record clock "acme" "k1" request ∷ []

abbrev defined_store : MemoryStore
defined_store = run (creates_workflow clock "acme" equipment ∷ []) new_memory_store

abbrev created_store : MemoryStore
created_store = run history_one new_memory_store

abbrev laptop : Record
laptop = record {
  id = "rec_000002";
  tenant_id = "acme";
  workflow_id = "wf_000001";
  state = "SUBMITTED";
  record_data = some (member "device" (text "laptop") end);
  version = 1;
  idempotency = "k1";
  created_at = 0;
  updated_at = 0;
}

created_laptop : (create_record clock "acme" "k1" request defined_store).0 ≡ ok (laptop, false)
unfolding memory
created_laptop = refl

laptop_stored : lookup "rec_000002" created_store.records ≡ some laptop
unfolding memory
laptop_stored = refl

counter_after : created_store.counter ≡ 4
unfolding memory
counter_after = refl

created_store-IsSound : IsSound created_store
created_store-IsSound = run-new_memory_store-IsSound history_one (omega arith)

defined_store-IsSound : IsSound defined_store
defined_store-IsSound =
    run-new_memory_store-IsSound (creates_workflow clock "acme" equipment ∷ []) (omega arith)

run-new_memory_store-IsSound_example : IsSound (run history_one new_memory_store)
run-new_memory_store-IsSound_example = run-new_memory_store-IsSound history_one (omega arith)

create_record-ne-panic_example :
    (create_record clock "acme" "k1" request defined_store).0 ≢ err index_out_of_range
create_record-ne-panic_example =
    create_record-ne-panic clock "acme" "k1" request defined_store defined_store-IsSound.valid

abbrev approve : Call
approve = updates_record clock "acme" "rec_000002" 1 "APPROVED" none

run-Later_example : Later "rec_000002" laptop (run (approve ∷ []) created_store)
unfolding memory
run-Later_example =
    run-Later (approve ∷ []) created_store "rec_000002" laptop created_store-IsSound (omega arith)
      laptop_stored

create_record-replay_example :
    (cur : Record) × (lookup "rec_000002" (run (approve ∷ []) created_store).records ≡ some cur)
    × IsLater laptop cur
    × (create_record clock "acme" "k1" request (run (approve ∷ []) created_store)
        ≡ (ok (cur, true), run (approve ∷ []) created_store))
unfolding memory
create_record-replay_example =
    create_record-replay clock clock "acme" "k1" request laptop request
      (record equipment { id = "wf_000001"; tenant_id = "acme"; version = 1 }) defined_store
      (approve ∷ []) defined_store-IsSound (omega arith) (ground (arith, eq_iff "k1" ""))
      created_laptop refl refl

create_record-IsCreated_example : IsCreated "acme" "k1" request laptop defined_store created_store
unfolding memory
create_record-IsCreated_example =
    create_record-IsCreated clock "acme" "k1" request laptop defined_store (omega arith)
      defined_store-IsSound created_laptop

abbrev approved_laptop : Record
approved_laptop = record laptop { state = "APPROVED"; version = 2 }

approved :
    (update_record clock "acme" "rec_000002" 1 "APPROVED" none created_store).0 ≡ ok approved_laptop
unfolding memory
approved = refl

update_record-IsUpdated_example :
    IsUpdated clock "acme" "rec_000002" 1 "APPROVED" none approved_laptop created_store
      (update_record clock "acme" "rec_000002" 1 "APPROVED" none created_store).1
update_record-IsUpdated_example =
    update_record-IsUpdated clock "acme" "rec_000002" 1 "APPROVED" none approved_laptop
      created_store approved

refused :
    ((update_record clock "acme" "rec_000002" 7 "APPROVED" none created_store).0 ≡ err conflict)
    × ((update_record clock "evil" "rec_000002" 1 "APPROVED" none created_store).0 ≡ err not_found)
    × ((update_record clock "acme" "rec_000002" 1 "LOST" none created_store).0
        ≡ err invalid_workflow)
unfolding memory
refused = (refl, refl, refl)

update_record-Refused_example :
    Refused "acme" "rec_000002" 7 "APPROVED" conflict created_store
    × ((update_record clock "acme" "rec_000002" 7 "APPROVED" none created_store).1 ≡ created_store)
update_record-Refused_example =
    update_record-Refused clock "acme" "rec_000002" 7 "APPROVED" none conflict created_store
      refused.0

update_record_once_example :
    let t = run [] (update_record clock "acme" "rec_000002" 1 "APPROVED" none created_store).1 in
    update_record clock "acme" "rec_000002" 1 "SUBMITTED" none t ≡ (err conflict, t)
unfolding memory
update_record_once_example =
    update_record_once clock clock "acme" "rec_000002" 1 "APPROVED" "SUBMITTED" none none
      approved_laptop created_store [] created_store-IsSound (omega arith) approved

step-SameView_example :
    SameView "acme" created_store (step (creates_workflow clock "evil" equipment) created_store)
unfolding memory
step-SameView_example =
    step-SameView "acme" (creates_workflow clock "evil" equipment) created_store (omega arith)
      created_store-IsSound.fresh (ground (arith, eq_iff "evil" "acme"))

get_record_iff_example :
    (get_record "acme" "rec_000002" created_store ≡ ok laptop)
    ↔ ((lookup "rec_000002" created_store.records ≡ some laptop) × (laptop.tenant_id ≡ "acme"))
get_record_iff_example = get_record_iff "acme" "rec_000002" laptop created_store

acme_plain : NoColon "acme"
acme_plain =
    (λ e. cc (ap code e), (λ e. cc (ap code e), (λ e. cc (ap code e), (λ e. cc (ap code e), tt))))

create_record-own_example : (laptop.tenant_id ≡ "acme") × (laptop.idempotency ≡ "k1")
unfolding memory
create_record-own_example =
    create_record-own clock "acme" "k1" request laptop false defined_store (omega arith)
      defined_store-IsSound acme_plain (λ id old e. cc) created_laptop

-- Tenant `a:b` defines a workflow and creates a record; tenant `a` has a workflow of its own.
abbrev two_tenants : MemoryStore
two_tenants =
    run (creates_workflow clock "a:b" equipment ∷ creates_workflow clock "a" equipment ∷ [])
      new_memory_store

two_tenants-IsSound : IsSound two_tenants
two_tenants-IsSound =
    run-new_memory_store-IsSound
      (creates_workflow clock "a:b" equipment ∷ creates_workflow clock "a" equipment ∷ [])
      (omega arith)

abbrev secret : Record
secret = record laptop { id = "rec_000003"; tenant_id = "a:b"; idempotency = "c" }

secret_created : (create_record clock "a:b" "c" request two_tenants).0 ≡ ok (secret, false)
unfolding memory
secret_created = refl

create_record_leaks_example :
    let s = (create_record clock "a:b" "c" request two_tenants).1 in
    (create_record clock "a" "b:c" (record request { workflow_id = "wf_000002" }) s
      ≡ (ok (secret, true), s))
    × (secret.tenant_id ≡ "a:b")
    × (secret.tenant_id ≢ "a")
unfolding memory
create_record_leaks_example =
    create_record_leaks clock clock "a" "b" "c" request
      (record request { workflow_id = "wf_000002" }) secret
      (record equipment { id = "wf_000002"; tenant_id = "a"; version = 1 }) two_tenants
      (omega arith) two_tenants-IsSound (ground (arith, eq_iff "c" "")) secret_created refl refl

memory_store-Implements_example : Implements (memory_store clock) catalog (λ r. r) IsReady
memory_store-Implements_example = memory_store-Implements clock
