-- ===== src/Store/Memory/Fresh.antt =====
-- The identifiers in a store come from its counter, so that a new one is never in use.
use enterprise_workflow_plat.Common.{
  String, List, [], ◌∷◌, ◌≡◌, ◌+◌, ◌≤◌, ◌<◌, refl, sym, ◌∙◌, arith, All, All-map, All-append, subst,
}
use mathlib.Core.List.{map-append}
use enterprise_workflow_plat.Common.Map.{Map, insert}
use enterprise_workflow_plat.Common.Int64.{two_63, inc64, inc64-eq-add}
use enterprise_workflow_plat.Domain.{Int64, OutboxEvent, Record}
use enterprise_workflow_plat.Store.Memory.{
  MemoryStore, Clock, next_id, make_id, append_events, append_audit, append_outbox, write_new,
  write_update, new_record,
}
use enterprise_workflow_plat.Store.Memory.Change.{
  Change, unchanged, counted, defined, created, updated, published, failed,
}
use enterprise_workflow_plat.Store.Memory.Marks.{map-change_first}
use enterprise_workflow_plat.Store.Memory.Ids.{
  Numbered, Numbered-mono, Numbered-ne-next, AllNumbered, AllNumbered-mono, AllNumbered-insert, ids,
  Distinct, Distinct-append,
}

pub record IsFresh (s : MemoryStore) : Type 0 where
  pub workflow_ids : AllNumbered "wf" s.counter s.workflows
  pub record_ids : AllNumbered "rec" s.counter s.records
  pub outbox_ids : All (Numbered "out" s.counter) (ids s.outbox)
  pub distinct : Distinct (ids s.outbox)

-- The counter is an `int64`: a call may count three times before it wraps.
abbrev pub HasRoom : MemoryStore → Type 0
HasRoom s = s.counter + 3 < two_63

ids_mono :
    (m n : Int64) (ks : List String) → m ≤ n → All (Numbered "out" m) ks → All (Numbered "out" n) ks
ids_mono m n ks h a = All-map (λ k. Numbered-mono "out" m n k h) ks a

-- A write of an event under the next two numbers.
append_events-IsFresh :
    (clock : Clock) (r : Record) (typ : String) (s : MemoryStore)
    → s.counter + 2 < two_63
    → IsFresh s
    → IsFresh (append_events clock r typ s)
      × ((append_events clock r typ s).counter ≡ s.counter + 2)
unfolding append_events append_audit append_outbox next_id
append_events-IsFresh clock r typ s h f =
    let once : inc64 s.counter ≡ s.counter + 1 = inc64-eq-add s.counter (omega arith) in
    let twice : inc64 (inc64 s.counter) ≡ s.counter + 2 =
      inc64-eq-add (inc64 s.counter) (omega arith) ∙ omega arith in
    let before = ids_mono s.counter (inc64 s.counter) (ids s.outbox) (omega arith) f.outbox_ids in
    let id = make_id "out" (inc64 (inc64 s.counter)) in
    (
      record {
        workflow_ids = AllNumbered-mono "wf" s.counter s.workflows f.workflow_ids _ (omega arith);
        record_ids = AllNumbered-mono "rec" s.counter s.records f.record_ids _ (omega arith);
        outbox_ids =
            subst (All (Numbered "out" (inc64 (inc64 s.counter)))) (sym (map-append _ s.outbox _)) (
              All-append _ (ids s.outbox) (id ∷ [])
                (ids_mono (inc64 s.counter) _ (ids s.outbox) (omega arith) before)
                ((inc64 (inc64 s.counter), omega arith, refl), tt));
        distinct = subst Distinct (sym (map-append _ s.outbox _)) (
            Distinct-append (ids s.outbox) id f.distinct (
              All-map (λ k. Numbered-ne-next "out" (inc64 s.counter) k (omega arith)) (ids s.outbox)
                before));
      },
      twice,
    )

-- The number that a new identifier takes.
next_id-IsFresh :
    (prefix : String) (s : MemoryStore)
    → s.counter + 1 < two_63
    → IsFresh s
    → IsFresh (next_id prefix s).1 × ((next_id prefix s).1.counter ≡ s.counter + 1)
unfolding next_id
next_id-IsFresh prefix s h f =
    let once : inc64 s.counter ≡ s.counter + 1 = inc64-eq-add s.counter (omega arith) in
    (
      record {
        workflow_ids = AllNumbered-mono "wf" s.counter s.workflows f.workflow_ids _ (omega arith);
        record_ids = AllNumbered-mono "rec" s.counter s.records f.record_ids _ (omega arith);
        outbox_ids = ids_mono s.counter _ (ids s.outbox) (omega arith) f.outbox_ids;
        distinct = f.distinct;
      },
      once,
    )

-- The identifier that `next_id` returns carries the new count.
next_id-Numbered :
    (prefix : String) (s : MemoryStore)
    → Numbered prefix (next_id prefix s).1.counter (next_id prefix s).0
unfolding next_id
next_id-Numbered prefix s = (inc64 s.counter, omega arith, refl)

-- Writes to the maps keep a store fresh, if their keys are numbered.
insert_record-IsFresh :
    (s : MemoryStore) (k : String) (r : Record) (m : Map String)
    → Numbered "rec" s.counter k
    → IsFresh s
    → IsFresh (record s { records = insert k r s.records; idempotency = m })
insert_record-IsFresh s k r m n f = record {
  workflow_ids = f.workflow_ids;
  record_ids =
      AllNumbered-insert "rec" s.counter s.records f.record_ids s.counter k r (omega arith) n;
  outbox_ids = f.outbox_ids;
  distinct = f.distinct;
}

change_outbox-IsFresh :
    (s : MemoryStore) (events : List OutboxEvent)
    → ids events ≡ ids s.outbox
    → IsFresh s
    → IsFresh (record s { outbox = events })
change_outbox-IsFresh s events e f = record {
  workflow_ids = f.workflow_ids;
  record_ids = f.record_ids;
  outbox_ids = subst (All (Numbered "out" s.counter)) (sym e) f.outbox_ids;
  distinct = subst Distinct (sym e) f.distinct;
}

-- Every call keeps the identifiers fresh and counts three times at most.
pub Change-IsFresh :
    {s t : MemoryStore}
    → Change s t
    → HasRoom s
    → IsFresh s
    → IsFresh t × (t.counter ≤ s.counter + 3)
unfolding write_new write_update new_record
Change-IsFresh {s} unchanged h f = (f, omega arith)
Change-IsFresh {s} counted h f =
    let (f', e) = next_id-IsFresh "rec" s (omega arith) f in (f', omega arith)
Change-IsFresh {s} (defined clock tenant wf _ _ _) h f =
    let (f', e) = next_id-IsFresh "wf" s (omega arith) f in
    (
      record {
        workflow_ids =
            AllNumbered-insert "wf" _ _ f'.workflow_ids _ _ _ (omega arith)
              (next_id-Numbered "wf" s);
        record_ids = f'.record_ids;
        outbox_ids = f'.outbox_ids;
        distinct = f'.distinct;
      },
      omega arith,
    )
Change-IsFresh {s} (created clock tenant key wf r first rest _ _ _ _) h f =
    let (f', e) = next_id-IsFresh "rec" s (omega arith) f in
    let (f'', e') =
      append_events-IsFresh clock _ "record.created" _ (omega arith)
        (insert_record-IsFresh (next_id "rec" s).1 _ _ _ (next_id-Numbered "rec" s) f') in
    (f'', omega arith)
Change-IsFresh {s} (updated clock id state new_data r found _) h f =
    let (f', e) =
      append_events-IsFresh clock _ "record.updated" _ (omega arith)
        (insert_record-IsFresh s id _ s.idempotency (f.record_ids id r found) f) in
    (f', omega arith)
Change-IsFresh {s} (published now id events e) h f = (
  change_outbox-IsFresh s events (map-change_first id _ (λ e. e.id) (λ _. refl) s.outbox events e)
      f,
  omega arith,
)
Change-IsFresh {s} (failed id reason events e) h f = (
  change_outbox-IsFresh s events (map-change_first id _ (λ e. e.id) (λ _. refl) s.outbox events e)
      f,
  omega arith,
)
