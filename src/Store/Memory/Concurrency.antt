-- ===== src/Store/Memory/Concurrency.antt =====
-- Optimistic concurrency: no writer overwrites a version that it has not seen.
use enterprise_workflow_plat.Common.{
  String, List, Option, some, ◌≡◌, ◌≢◌, ◌+◌, ◌*◌, ◌<◌, refl, sym, ◌∙◌, arith, err, ok, length,
}
use enterprise_workflow_plat.Common.Map.{lookup}
use enterprise_workflow_plat.Common.Int64.{two_63, inc64-eq-add}
use enterprise_workflow_plat.Domain.{Record, Int64}
use enterprise_workflow_plat.Domain.Value.{Members}
use enterprise_workflow_plat.Store.{conflict}
use enterprise_workflow_plat.Store.Memory.{MemoryStore, Clock, update_record}
use enterprise_workflow_plat.Store.Memory.Cases.{update_record_cases}
use enterprise_workflow_plat.Store.Memory.Contract.{update_record-IsUpdated}
use enterprise_workflow_plat.Store.Memory.Later.{run-Later, version-le}
use enterprise_workflow_plat.Store.Memory.Sound.{IsSound, step-IsSound}
use enterprise_workflow_plat.Store.Memory.Trace.{Call, step, run, updates_record}

-- A record at another version than expected is not written.
update_record_stale :
    (clock : Clock) (tenant id : String) (expected : Int64) (state : String)
    (new_data : Option Members) (r : Record) (s : MemoryStore)
    → lookup id s.records ≡ some r
    → r.tenant_id ≡ tenant
    → r.version ≢ expected
    → update_record clock tenant id expected state new_data s ≡ (err conflict, s)
update_record_stale clock tenant id expected state new_data r s found own stale =
    update_record_cases (λ o. o ≡ (err conflict, s)) clock tenant id expected state new_data s
      (λ x found' foreign. absurd (foreign (cc (sym found ∙ found'))))
      (λ absent. cc (sym found ∙ absent)) (λ _ _ _ _. refl)
      (λ x found' _ same _ _. absurd (stale (cc (sym found ∙ found'))))
      λ x found' _ same _. absurd (stale (cc (sym found ∙ found')))

-- Once an update has been accepted against a version of a record, every later update of the record
-- by the tenant against that same version is refused with a conflict and changes nothing, whatever
-- calls come between. The store is sound and its counter stays below 2 ^ 63.
pub update_record_once :
    (clock later : Clock) (tenant id : String) (expected : Int64) (state state' : String)
    (new_data new_data' : Option Members) (new : Record) (s : MemoryStore) (cs : List Call)
    → IsSound s
    → s.counter + (3 + 3 * length cs) < two_63
    → (update_record clock tenant id expected state new_data s).0 ≡ ok new
    → let t = run cs (update_record clock tenant id expected state new_data s).1 in
      update_record later tenant id expected state' new_data' t ≡ (err conflict, t)
unfolding step
update_record_once clock later tenant id expected state state' new_data new_data' new s cs i h e =
    let s' = (update_record clock tenant id expected state new_data s).1 in
    let u = update_record-IsUpdated clock tenant id expected state new_data new s e in
    let (i', count) =
      step-IsSound (updates_record clock tenant id expected state new_data) s (omega arith) i in
    let (cur, there, l) = run-Later cs s' id new i' (omega arith) u.writes.0 in
    let version : new.version ≡ u.old.version + 1 =
      u.revised.next_version
      ∙ inc64-eq-add u.old.version (omega (arith, version-le s id u.old i.logged u.was)) in
    update_record_stale later tenant id expected state' new_data' cur (run cs s') there
      (l.same_tenant ∙ u.revised.same_tenant ∙ u.tenant_is)
      (omega (arith, l.no_older, u.version_is))
