-- ===== src/Store/Memory/Contract.antt =====
-- What `CreateRecord` and `UpdateRecord` promise of the record that they write.
use enterprise_workflow_plat.Common.{
  String, List, ◌∷◌, Option, some, none, true, false, ◌≡◌, ◌≢◌, ◌⊎◌, refl, sym, ◌∙◌, ap, arith,
  Result, err, ok, get_or, subst, contains,
}
use enterprise_workflow_plat.Common.Map.{lookup, insert, lookup-insert_self, lookup-insert_ne}
use enterprise_workflow_plat.Domain.{Record, WorkflowDefinition, Int64, zero_workflow}
use enterprise_workflow_plat.Domain.Value.{Members}
use enterprise_workflow_plat.Store.{
  StoreError, not_found, conflict, invalid_workflow, index_out_of_range,
}
use enterprise_workflow_plat.Store.Memory.{
  MemoryStore, Clock, create_record, update_record, write_new, new_record, next_id, write_update,
  updated_record,
}
use enterprise_workflow_plat.Store.Spec.{IsRevised}
use enterprise_workflow_plat.Store.Memory.Revised.{
  updated_record-IsRevised, updated_record-updated_at, IsAnnounced, write_update-IsAnnounced,
}
use enterprise_workflow_plat.Store.Memory.Cases.{
  create_record_cases, insert_record_cases, update_record_cases,
}
use enterprise_workflow_plat.Store.Memory.Fresh.{HasRoom}
use enterprise_workflow_plat.Store.Memory.Validity.{
  next_id-unused, maps-write_new, maps-write_update,
}
use enterprise_workflow_plat.Store.Memory.Sound.{IsSound}
use enterprise_workflow_plat.Store.Memory.Replay.{write_new-eq-ok}

-- `t` is `s` but for the record under `id`, which is `r` in `t`.
abbrev pub OnlyWrites : String → Record → MemoryStore → MemoryStore → Type 0
OnlyWrites id r s t =
    (lookup id t.records ≡ some r)
    × ((k : String) → k ≢ id → lookup k t.records ≡ lookup k s.records)
    × (t.workflows ≡ s.workflows)

OnlyWrites-insert :
    (id : String) (r : Record) (s t : MemoryStore)
    → t.records ≡ insert id r s.records
    → t.workflows ≡ s.workflows
    → OnlyWrites id r s t
OnlyWrites-insert id r s t records workflows = (
  ap (lookup id) records ∙ lookup-insert_self id r s.records,
  λ k other. ap (lookup k) records ∙ lookup-insert_ne id k r s.records (λ e. other (sym e)),
  workflows,
)

-- What a created record is, and what its creation does to the store.
pub record IsCreated (tenant key : String) (r new : Record) (s t : MemoryStore) : Type 0 where
  pub workflow : WorkflowDefinition
  pub known : lookup r.workflow_id s.workflows ≡ some workflow
  pub allowed : workflow.tenant_id ≡ tenant
  pub tenant_is : new.tenant_id ≡ tenant
  pub key_is : new.idempotency ≡ key
  pub version_is : new.version ≡ 1
  pub workflow_is : new.workflow_id ≡ r.workflow_id
  pub data_is : new.record_data ≡ r.record_data
  pub later_states : List String
  pub state_is : workflow.states ≡ new.state ∷ later_states
  pub was_unused : lookup new.id s.records ≡ none
  pub writes : OnlyWrites new.id new s t

write_new-IsCreated :
    (clock : Clock) (tenant key : String) (r : Record) (wf : WorkflowDefinition) (first : String)
    (rest : List String) (s : MemoryStore)
    → HasRoom s
    → IsSound s
    → lookup r.workflow_id s.workflows ≡ some wf
    → wf.tenant_id ≡ tenant
    → wf.states ≡ first ∷ rest
    → IsCreated tenant key r
        (new_record (clock 0) (next_id "rec" s).0 tenant key first r)
        s
        (write_new clock tenant key
          (new_record (clock 0) (next_id "rec" s).0 tenant key first r)
          (next_id "rec" s).1).1
unfolding new_record next_id
write_new-IsCreated clock tenant key r wf first rest s h i found own states =
    let stored = new_record (clock 0) (next_id "rec" s).0 tenant key first r in
    let (workflows, records, _) = maps-write_new clock tenant key stored (next_id "rec" s).1 in
    record {
      workflow = wf;
      known = found;
      allowed = own;
      tenant_is = refl;
      key_is = refl;
      version_is = refl;
      workflow_is = refl;
      data_is = refl;
      later_states = rest;
      state_is = states;
      was_unused = (next_id-unused s h i.fresh).1;
      writes =
          OnlyWrites-insert stored.id stored s
            (write_new clock tenant key stored (next_id "rec" s).1).1 records workflows;
    }

-- If `create_record` on a sound store with room returns a new record, that record belongs to the
-- calling tenant and to a workflow of that tenant, is in the workflow's first state at version 1,
-- carries the key, the workflow and the data of the request, and lies under an id that was not in
-- use; no other record and no workflow has changed.
pub create_record-IsCreated :
    (clock : Clock) (tenant key : String) (r new : Record) (s : MemoryStore)
    → HasRoom s
    → IsSound s
    → (create_record clock tenant key r s).0 ≡ ok (new, false)
    → IsCreated tenant key r new s (create_record clock tenant key r s).1
create_record-IsCreated clock tenant key r new s h i =
    create_record_cases (λ o. o.0 ≡ ok (new, false) → IsCreated tenant key r new s o.1) clock tenant
      key r s (λ e. cc) (λ x _ e. absurd (ground arith))
      λ wf found own _.
        insert_record_cases (λ o. o.0 ≡ ok (new, false) → IsCreated tenant key r new s o.1) clock
          tenant key wf r s wf.states refl (λ _ e. cc)
          λ first rest states e.
            let stored = new_record (clock 0) (next_id "rec" s).0 tenant key first r in
            let s' = (next_id "rec" s).1 in
            subst (λ x. IsCreated tenant key r x s (write_new clock tenant key stored s').1)
              (write_new-eq-ok clock tenant key stored new s' e)
              (write_new-IsCreated clock tenant key r wf first rest s h i found own states)

-- What a record and a request must be for `update_record` to write, and what it writes.
pub record IsUpdated (clock : Clock) (tenant id : String) (expected : Int64) (state : String)
    (new_data : Option Members) (new : Record) (s t : MemoryStore) : Type 0 where
  pub old : Record
  pub was : lookup id s.records ≡ some old
  pub tenant_is : old.tenant_id ≡ tenant
  pub version_is : old.version ≡ expected
  pub allowed :
      (state ≡ "")
      ⊎ (contains (get_or (lookup old.workflow_id s.workflows) zero_workflow).states state ≡ true)
  pub revised : IsRevised state new_data old new
  pub updated_is : new.updated_at ≡ clock 0
  pub writes : OnlyWrites id new s t
  pub same_keys : t.idempotency ≡ s.idempotency
  pub announced : IsAnnounced "record.updated" new s t

write_update-eq-ok :
    (clock : Clock) (id : String) (r new : Record) (s : MemoryStore)
    → (write_update clock id r s).0 ≡ ok new
    → r ≡ new
unfolding write_update
write_update-eq-ok clock id r new s e = cc

-- If `update_record` succeeds, the record was there, was the calling tenant's and had the expected
-- version, and the requested state was empty or one of the workflow's; the record that is returned
-- and stored has the next version, the call's time as that of its update, the requested state and
-- data where they were given and those of the old record otherwise, and all else from the old record;
-- no other record, no workflow and no idempotency entry has changed, and one audit event and one
-- unpublished outbox event of the record were appended.
pub update_record-IsUpdated :
    (clock : Clock) (tenant id : String) (expected : Int64) (state : String)
    (new_data : Option Members) (new : Record) (s : MemoryStore)
    → (update_record clock tenant id expected state new_data s).0 ≡ ok new
    → IsUpdated clock tenant id expected state new_data new s
        (update_record clock tenant id expected state new_data s).1
update_record-IsUpdated clock tenant id expected state new_data new s =
    update_record_cases
      (λ o. o.0 ≡ ok new → IsUpdated clock tenant id expected state new_data new s o.1) clock tenant
      id expected state new_data s (λ _ _ _ e. cc) (λ _ e. cc) (λ _ _ _ _ e. cc)
      (λ _ _ _ _ _ _ e. cc)
      λ r found own version allowed e.
        let written = updated_record (clock 0) state new_data r in
        let (workflows, records, keys) = maps-write_update clock id written s in
        subst
          (λ x.
            IsUpdated clock tenant id expected state new_data x s
              (write_update clock id written s).1)
          (write_update-eq-ok clock id written new s e)
          (record {
            old = r;
            was = found;
            tenant_is = own;
            version_is = version;
            allowed = allowed;
            revised = updated_record-IsRevised (clock 0) state new_data r;
            updated_is = updated_record-updated_at (clock 0) state new_data r;
            writes =
                OnlyWrites-insert id written s (write_update clock id written s).1 records
                  workflows;
            same_keys = keys;
            announced = write_update-IsAnnounced clock id written s;
          })

-- A call that fails changes nothing, and the error says why: no such record, or another tenant's;
-- another version than the one expected; or a state that the workflow does not have.
abbrev pub Refused : String → String → Int64 → String → StoreError → MemoryStore → Type 0
Refused tenant id expected state not_found s =
    (r : Record) → lookup id s.records ≡ some r → r.tenant_id ≢ tenant
Refused tenant id expected state conflict s =
    (r : Record) × (lookup id s.records ≡ some r) × (r.tenant_id ≡ tenant) × (r.version ≢ expected)
Refused tenant id expected state invalid_workflow s =
    (r : Record) × (lookup id s.records ≡ some r)
    × (r.tenant_id ≡ tenant)
    × (r.version ≡ expected)
    × (state ≢ "")
    × (contains (get_or (lookup r.workflow_id s.workflows) zero_workflow).states state ≡ false)
Refused tenant id expected state index_out_of_range s = ⊥

-- What holds at the error that was returned holds at the one it equals.
of_err :
    (P : StoreError → Type 0) (a b : StoreError)
    → ◌≡◌ {A = Result StoreError Record} (err a) (err b)
    → P a
    → P b
of_err P a b h p = let same : a ≡ b = cc in subst P same p

-- If `update_record` fails, the store is as it was, and the error is `not_found` only if no record of
-- the tenant has the id, `conflict` only if the record's version is not the expected one, and
-- `invalid_workflow` only if the version matches and the workflow lacks the state; it never panics.
pub update_record-Refused :
    (clock : Clock) (tenant id : String) (expected : Int64) (state : String)
    (new_data : Option Members) (e : StoreError) (s : MemoryStore)
    → (update_record clock tenant id expected state new_data s).0 ≡ err e
    → Refused tenant id expected state e s
      × ((update_record clock tenant id expected state new_data s).1 ≡ s)
unfolding write_update
update_record-Refused clock tenant id expected state new_data e s =
    update_record_cases (λ o. o.0 ≡ err e → Refused tenant id expected state e s × (o.1 ≡ s)) clock
      tenant id expected state new_data s
      (λ r found foreign h. (
        of_err P not_found e h (λ x found' own.
            let same : r ≡ x = cc (sym found ∙ found') in
            foreign (ap (λ y. y.tenant_id) same ∙ own)),
        refl,
      ))
      (λ absent h. (of_err P not_found e h (λ x found'. cc (sym absent ∙ found')), refl))
      (λ r found own stale h. (of_err P conflict e h (r, found, own, stale), refl))
      (λ r found own version given bad h.
        (of_err P invalid_workflow e h (r, found, own, version, given, bad), refl))
      (λ r found own version allowed h. cc)
  where
    P : StoreError → Type 0
    P x = Refused tenant id expected state x s
