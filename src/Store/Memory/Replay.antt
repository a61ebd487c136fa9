-- ===== src/Store/Memory/Replay.antt =====
-- Idempotent creation: a repeated `CreateRecord` finds the record of the first one.
use enterprise_workflow_plat.Common.{
  String, List, [], ◌∷◌, some, none, true, false, ◌≡◌, ◌≢◌, ◌+◌, ◌*◌, ◌<◌, refl, ◌∙◌, ap, arith,
  length, ok, inl, inr, Option-cases, Bool-cases, eq_iff, eq_refl, subst, ◌==◌,
}
use enterprise_workflow_plat.Common.Map.{Map, lookup, lookup-insert_self, lookup-insert_unused}
use enterprise_workflow_plat.Common.Int64.{two_63}
use enterprise_workflow_plat.Domain.{Record, WorkflowDefinition}
use enterprise_workflow_plat.Store.Memory.{
  MemoryStore, Clock, create_record, find_replay, scoped_key, remember, write_new, next_id,
  new_record, updated_record,
}
use enterprise_workflow_plat.Store.Memory.Cases.{create_record_cases, insert_record_cases}
use enterprise_workflow_plat.Store.Memory.Change.{
  Change, unchanged, counted, defined, created, updated, published, failed, first_version,
  step-Change,
}
use enterprise_workflow_plat.Store.Memory.Validity.{maps-write_new, maps-write_update}
use enterprise_workflow_plat.Store.Memory.Sound.{IsSound, step-IsSound}
use enterprise_workflow_plat.Store.Memory.Trace.{Call, step, run, creates_record}
use enterprise_workflow_plat.Store.Memory.Later.{IsLater, run-Later}

-- A key whose entry is not there has no replay.
find_replay-none :
    (tenant key : String) (s : MemoryStore)
    → key ≢ ""
    → find_replay tenant key s ≡ none
    → lookup (scoped_key tenant key) s.idempotency ≡ none
unfolding find_replay
find_replay-none tenant key s given e =
    elim (Option-cases (lookup (scoped_key tenant key) s.idempotency)) [
      | inl missing ↦ missing
      | inr (id, found) ↦ ground (arith, eq_iff key "")
    ]

pub find_replay-some :
    (tenant key id : String) (r : Record) (s : MemoryStore)
    → key ≢ ""
    → lookup (scoped_key tenant key) s.idempotency ≡ some id
    → lookup id s.records ≡ some r
    → find_replay tenant key s ≡ some r
unfolding find_replay
find_replay-some tenant key id r s given e found = ground (arith, eq_iff key "")

-- An idempotency entry, once made, stays.
Change-keeps_entry :
    {s t : MemoryStore}
    → Change s t
    → (k id : String) → lookup k s.idempotency ≡ some id
    → lookup k t.idempotency ≡ some id
unfolding next_id new_record
Change-keeps_entry unchanged k id e = e
Change-keeps_entry counted k id e = e
Change-keeps_entry (defined _ _ _ _ _ _) k id e = e
Change-keeps_entry {s} (created clock tenant key wf r first rest _ _ _ new) k id e =
    let (_, _, entries) =
      maps-write_new clock tenant key (first_version clock tenant key first r s)
        (next_id "rec" s).1 in
    ap (lookup k) entries ∙ elim (Bool-cases (key == "")) [
      | inl empty ↦ rw empty e
      | inr given ↦ rw given (
          lookup-insert_unused (scoped_key tenant key) k _ id s.idempotency
            (find_replay-none tenant key s (ground (arith, eq_iff key "")) new) e)
    ]
Change-keeps_entry {s} (updated clock k' state new_data r' found _) k id e =
    let (_, _, entries) =
      maps-write_update clock k' (updated_record (clock 0) state new_data r') s in
    ap (lookup k) entries ∙ e
Change-keeps_entry (published _ _ _ _) k id e = e
Change-keeps_entry (failed _ _ _ _) k id e = e

run-keeps_entry :
    (cs : List Call) (s : MemoryStore) (k id : String)
    → lookup k s.idempotency ≡ some id
    → lookup k (run cs s).idempotency ≡ some id
unfolding run
run-keeps_entry [] s k id e = e
run-keeps_entry (c ∷ cs) s k id e =
    run-keeps_entry cs (step c s) k id (Change-keeps_entry (step-Change c s) k id e)

-- What a creating call leaves behind.
abbrev pub HasEntry : String → Record → MemoryStore → Type 0
HasEntry k r s = (lookup k s.idempotency ≡ some r.id) × (lookup r.id s.records ≡ some r)

lookup-remember :
    (tenant key id : String) (m : Map String)
    → key ≢ ""
    → lookup (scoped_key tenant key) (remember tenant key id m) ≡ some id
lookup-remember tenant key id m given =
    ground (arith, eq_iff key "", lookup-insert_self (scoped_key tenant key) id m)

write_new-HasEntry :
    (clock : Clock) (tenant key : String) (r : Record) (s : MemoryStore)
    → key ≢ ""
    → HasEntry (scoped_key tenant key) r (write_new clock tenant key r s).1
write_new-HasEntry clock tenant key r s given =
    let (_, records, entries) = maps-write_new clock tenant key r s in
    (
      ap (lookup (scoped_key tenant key)) entries
          ∙ lookup-remember tenant key r.id s.idempotency given,
      ap (lookup r.id) records ∙ lookup-insert_self r.id r s.records,
    )

-- The result of `write_new`, read back from its first component.
pub write_new-eq-ok :
    (clock : Clock) (tenant key : String) (r new : Record) (s : MemoryStore)
    → (write_new clock tenant key r s).0 ≡ ok (new, false)
    → r ≡ new
unfolding write_new
write_new-eq-ok clock tenant key r new s e = cc

pub create_record-HasEntry :
    (clock : Clock) (tenant key : String) (r new : Record) (s : MemoryStore)
    → key ≢ ""
    → (create_record clock tenant key r s).0 ≡ ok (new, false)
    → HasEntry (scoped_key tenant key) new (create_record clock tenant key r s).1
create_record-HasEntry clock tenant key r new s given =
    create_record_cases (λ o. o.0 ≡ ok (new, false) → HasEntry (scoped_key tenant key) new o.1)
      clock tenant key r s (λ e. cc) (λ x _ e. absurd (ground arith))
      λ wf found own _.
        insert_record_cases (λ o. o.0 ≡ ok (new, false) → HasEntry (scoped_key tenant key) new o.1)
          clock tenant key wf r s wf.states refl (λ _ e. cc)
          λ first rest _ e.
            let stored = new_record (clock 0) (next_id "rec" s).0 tenant key first r in
            let s' = (next_id "rec" s).1 in
            subst (λ x. HasEntry (scoped_key tenant key) x (write_new clock tenant key stored s').1)
              (write_new-eq-ok clock tenant key stored new s' e)
              (write_new-HasEntry clock tenant key stored s' given)

-- With its workflow in place and its entry made, a request is a replay that changes nothing.
pub create_record_again :
    (clock : Clock) (tenant key : String) (r cur : Record) (wf : WorkflowDefinition)
    (s : MemoryStore)
    → lookup r.workflow_id s.workflows ≡ some wf
    → wf.tenant_id ≡ tenant
    → find_replay tenant key s ≡ some cur
    → create_record clock tenant key r s ≡ (ok (cur, true), s)
unfolding create_record
create_record_again clock tenant key r cur wf s found own again =
    rw (found, create_record, own, eq_refl tenant, again)

-- After a call of `create_record` with a key has created a record, and after any further calls, the
-- same tenant and key give that record again, whatever the rest of the request, if it names a
-- workflow of the tenant: it is returned as it stands then, marked as a replay, and the store does
-- not change. The counter stays below 2 ^ 63.
pub create_record-replay :
    (clock again : Clock) (tenant key : String) (r new retried : Record) (wf : WorkflowDefinition)
    (s : MemoryStore) (cs : List Call)
    → IsSound s
    → s.counter + (3 + 3 * length cs) < two_63
    → key ≢ ""
    → (create_record clock tenant key r s).0 ≡ ok (new, false)
    → let t = run cs (create_record clock tenant key r s).1 in
      lookup retried.workflow_id t.workflows ≡ some wf
      → wf.tenant_id ≡ tenant
      → (cur : Record) × (lookup new.id t.records ≡ some cur)
        × IsLater new cur
        × (create_record again tenant key retried t ≡ (ok (cur, true), t))
unfolding step
create_record-replay clock again tenant key r new retried wf s cs i h given e found own =
    let c = creates_record clock tenant key r in
    let s' = (create_record clock tenant key r s).1 in
    let (entry, there) = create_record-HasEntry clock tenant key r new s given e in
    let (i', count) = step-IsSound c s (omega arith) i in
    let (cur, there', later) = run-Later cs s' new.id new i' (omega arith) there in
    (
      cur,
      there',
      later,
      create_record_again again tenant key retried cur wf (run cs s') found own (
          find_replay-some tenant key new.id cur (run cs s') given
            (run-keeps_entry cs s' (scoped_key tenant key) new.id entry) there'),
    )
