-- ===== src/Store/Memory/Logged.antt =====
-- Every call keeps the audit log and the outbox in step with the records.
use enterprise_workflow_plat.Common.{
  String, [], ◌∷◌, ◌++◌, some, ◌≡◌, ◌≢◌, ◌+◌, ◌≤◌, ◌<◌, refl, sym, ◌∙◌, ap, arith, map, keep, last,
  last-concat, length, length-append, length-map, length-keep-le, ◌==◌, eq_iff,
}
use mathlib.Core.List.{map-append}
use enterprise_workflow_plat.Common.Map.{
  lookup, insert, Map, lookup-insert_cases, lookup-insert-none,
}
use enterprise_workflow_plat.Common.Int64.{two_63, inc64, inc64-eq-add}
use enterprise_workflow_plat.Domain.{Record}
use enterprise_workflow_plat.Store.Memory.{
  MemoryStore, Clock, append_events, append_audit, append_outbox, next_id, record_payload,
  write_new, write_update, new_record, updated_record,
}
use enterprise_workflow_plat.Store.Memory.Change.{
  Change, unchanged, counted, defined, created, updated, published, failed, first_version,
}
use enterprise_workflow_plat.Store.Memory.Marks.{map-change_first}
use enterprise_workflow_plat.Store.Memory.Fresh.{IsFresh, HasRoom}
use enterprise_workflow_plat.Store.Memory.Validity.{IsValid, next_id-unused}
use enterprise_workflow_plat.Store.Memory.Log.{
  IsLogged, history, history-concat, history-change_first, audit_subject, outbox_subject,
}

module _ (clock : Clock) (id : String) (r : Record) (typ : String) (m : Map String)
    (s : MemoryStore) (own : r.id ≡ id) (room : s.counter + 2 < two_63) (l : IsLogged s)
    (version : length (history id s.outbox) + 1 ≡ r.version) where
  abbrev written : MemoryStore
  written =
      append_events clock r typ (record s { records = insert id r s.records; idempotency = m })

  history-written_self :
      history id written.outbox ≡ history id s.outbox ++ some (record_payload r) ∷ []
  unfolding append_events append_audit append_outbox next_id
  history-written_self = history-concat id s.outbox _ ∙ ground (arith, eq_iff r.id id)

  history-written_other : (k : String) → id ≢ k → history k written.outbox ≡ history k s.outbox
  unfolding append_events append_audit append_outbox next_id
  history-written_other k other = history-concat k s.outbox _ ∙ ground (arith, eq_iff r.id k, own)

  paired-written : map audit_subject written.audit ≡ map outbox_subject written.outbox
  unfolding append_events append_audit append_outbox next_id
  paired-written =
      map-append _ s.audit _
      ∙ ap (λ xs. xs ++ (r.tenant_id, r.id, typ) ∷ []) l.paired
      ∙ sym (map-append _ s.outbox _)

  bounded-written : length written.outbox ≤ written.counter
  unfolding append_events append_audit append_outbox next_id
  bounded-written = omega (
    arith,
    l.bounded,
    inc64-eq-add s.counter (omega arith),
    inc64-eq-add (inc64 s.counter) (omega (arith, inc64-eq-add s.counter (omega arith))),
    length-append s.outbox (_ ∷ []),
  )

  pub records-written : written.records ≡ insert id r s.records
  unfolding append_events append_audit append_outbox next_id
  records-written = refl

  pub written-IsLogged : IsLogged written
  written-IsLogged = record {
    paired = paired-written;
    counted = λ k v e.
        lookup-insert_cases (λ j w. length (history j written.outbox) ≡ w.version) id r s.records
          (ap length history-written_self ∙ length-append (history id s.outbox) _ ∙ version)
          (λ j w other e'. ap length (history-written_other j other) ∙ l.counted j w e') k v
          (sym (ap (lookup k) records-written) ∙ e);
    current = λ k v e.
        lookup-insert_cases
          (λ j w. last (history j written.outbox) ≡ some (some (record_payload w))) id r s.records
          (ap last history-written_self ∙ last-concat (history id s.outbox) _)
          (λ j w other e'. ap last (history-written_other j other) ∙ l.current j w e') k v
          (sym (ap (lookup k) records-written) ∙ e);
    no_other = λ k e.
        let (other, before) =
          lookup-insert-none id k r s.records (sym (ap (lookup k) records-written) ∙ e) in
        history-written_other k other ∙ l.no_other k before;
    bounded = bounded-written;
  }

-- Only these four fields matter, and the counter may grow.
IsLogged-fields :
    (s t : MemoryStore)
    → t.records ≡ s.records
    → map audit_subject t.audit ≡ map audit_subject s.audit
    → map outbox_subject t.outbox ≡ map outbox_subject s.outbox
    → ((k : String) → history k t.outbox ≡ history k s.outbox)
    → s.counter ≤ t.counter
    → IsLogged s
    → IsLogged t
IsLogged-fields s t r a o h c l = record {
  paired = a ∙ l.paired ∙ sym o;
  counted = λ k v e. ap length (h k) ∙ l.counted k v (sym (ap (lookup k) r) ∙ e);
  current = λ k v e. ap last (h k) ∙ l.current k v (sym (ap (lookup k) r) ∙ e);
  no_other = λ k e. h k ∙ l.no_other k (sym (ap (lookup k) r) ∙ e);
  bounded = omega (
    arith,
    l.bounded,
    length-map outbox_subject t.outbox,
    length-map outbox_subject s.outbox,
    ap length o,
  );
}

next_id-IsLogged :
    (prefix : String) (s : MemoryStore) → HasRoom s → IsLogged s → IsLogged (next_id prefix s).1
unfolding next_id
next_id-IsLogged prefix s h l =
    IsLogged-fields s (next_id prefix s).1 refl refl refl (λ _. refl)
      (omega (arith, inc64-eq-add s.counter (omega arith))) l

-- Every call keeps the logs in step with the records.
pub Change-IsLogged :
    {s t : MemoryStore} → Change s t → HasRoom s → IsFresh s → IsValid s → IsLogged s → IsLogged t
unfolding write_new write_update new_record updated_record next_id
Change-IsLogged {s} unchanged h f v l = l
Change-IsLogged {s} counted h f v l = next_id-IsLogged "rec" s h l
Change-IsLogged {s} (defined clock tenant wf _ _ _) h f v l =
    IsLogged-fields s _ refl refl refl (λ _. refl)
      (omega (arith, inc64-eq-add s.counter (omega arith))) l
Change-IsLogged {s} (created clock tenant key wf r first rest _ _ _ _) h f v l =
    written-IsLogged clock (next_id "rec" s).0 (first_version clock tenant key first r s)
      "record.created" _ (next_id "rec" s).1 refl
      (omega (arith, inc64-eq-add s.counter (omega arith))) (next_id-IsLogged "rec" s h l)
      (omega (arith, ap length (l.no_other _ (next_id-unused s h f).1)))
Change-IsLogged {s} (updated clock id state new_data r found _) h f v l =
    written-IsLogged clock id (updated_record (clock 0) state new_data r) "record.updated"
      s.idempotency s (v.records_ok id r found).own_id (omega arith) l
      (omega (
        arith,
        l.counted id r found,
        l.bounded,
        length-map (λ e. e.payload) (keep (λ e. e.aggregate_id == id) s.outbox),
        length-keep-le (λ e. e.aggregate_id == id) s.outbox,
        inc64-eq-add r.version,
      ))
Change-IsLogged {s} (published now id events e) h f v l =
    IsLogged-fields s _ refl refl
      (map-change_first id _ outbox_subject (λ _. refl) s.outbox events e)
      (λ k. history-change_first k id _ s.outbox events (λ _. (refl, refl)) e) (omega arith) l
Change-IsLogged {s} (failed id reason events e) h f v l =
    IsLogged-fields s _ refl refl
      (map-change_first id _ outbox_subject (λ _. refl) s.outbox events e)
      (λ k. history-change_first k id _ s.outbox events (λ _. (refl, refl)) e) (omega arith) l
