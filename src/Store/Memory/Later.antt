-- ===== src/Store/Memory/Later.antt =====
-- Records over time: no call removes one, or changes whose it is.
use enterprise_workflow_plat.Common.{
  String, List, [], ◌∷◌, Option, some, ◌≡◌, ◌+◌, ◌*◌, ◌≤◌, ◌<◌, refl, sym, ◌∙◌, ap, arith, length,
  inl, inr, Text-cases, ◌==◌, keep, length-map, length-keep-le, subst,
}
use enterprise_workflow_plat.Common.Map.{
  lookup, insert, lookup-insert_self, lookup-insert_ne, lookup-insert_unused,
}
use enterprise_workflow_plat.Common.Int64.{two_63, inc64-eq-add}
use enterprise_workflow_plat.Domain.{Record}
use enterprise_workflow_plat.Store.Memory.{MemoryStore, Clock, new_record, next_id, updated_record}
use enterprise_workflow_plat.Store.Memory.Change.{
  Change, unchanged, counted, defined, created, updated, published, failed, first_version,
  step-Change,
}
use enterprise_workflow_plat.Store.Memory.Fresh.{HasRoom}
use enterprise_workflow_plat.Store.Memory.Validity.{
  next_id-unused, maps-write_new, maps-write_update,
}
use enterprise_workflow_plat.Store.Memory.Log.{IsLogged}
use enterprise_workflow_plat.Store.Memory.Sound.{IsSound, step-IsSound}
use enterprise_workflow_plat.Store.Memory.Trace.{Call, step, run}

-- A record at a later time: the same identity, and no smaller version.
pub record IsLater (r later : Record) : Type 0 where
  pub same_id : later.id ≡ r.id
  pub same_tenant : later.tenant_id ≡ r.tenant_id
  pub same_workflow : later.workflow_id ≡ r.workflow_id
  pub same_key : later.idempotency ≡ r.idempotency
  pub same_birth : later.created_at ≡ r.created_at
  pub no_older : r.version ≤ later.version

IsLater-refl : (r : Record) → IsLater r r
IsLater-refl r = record {
  same_id = refl;
  same_tenant = refl;
  same_workflow = refl;
  same_key = refl;
  same_birth = refl;
  no_older = omega arith;
}

IsLater-trans : (a b c : Record) → IsLater a b → IsLater b c → IsLater a c
IsLater-trans a b c p q = record {
  same_id = q.same_id ∙ p.same_id;
  same_tenant = q.same_tenant ∙ p.same_tenant;
  same_workflow = q.same_workflow ∙ p.same_workflow;
  same_key = q.same_key ∙ p.same_key;
  same_birth = q.same_birth ∙ p.same_birth;
  no_older = omega arith;
}

abbrev pub Later : String → Record → MemoryStore → Type 0
Later id r s = (later : Record) × (lookup id s.records ≡ some later) × IsLater r later

-- Versions count events, so they stay below the counter.
pub version-le :
    (s : MemoryStore) (id : String) (r : Record)
    → IsLogged s
    → lookup id s.records ≡ some r
    → r.version ≤ s.counter
version-le s id r l e = omega (
  arith,
  l.counted id r e,
  l.bounded,
  length-map (λ e. e.payload) (keep (λ e. e.aggregate_id == id) s.outbox),
  length-keep-le (λ e. e.aggregate_id == id) s.outbox,
)

updated_record-IsLater :
    (clock : Clock) (state : String) (new_data : Option _) (r : Record)
    → r.version < two_63
    → IsLater r (updated_record (clock 0) state new_data r)
unfolding updated_record
updated_record-IsLater clock state new_data r h = record {
  same_id = refl;
  same_tenant = refl;
  same_workflow = refl;
  same_key = refl;
  same_birth = refl;
  no_older = omega (arith, inc64-eq-add r.version (omega arith));
}

-- No call removes a record or changes whose it is.
Change-Later :
    {s t : MemoryStore}
    → Change s t
    → HasRoom s
    → IsSound s
    → (id : String) (r : Record) → lookup id s.records ≡ some r
    → Later id r t
unfolding next_id new_record
Change-Later unchanged h i id r e = (r, e, IsLater-refl r)
Change-Later counted h i id r e = (r, e, IsLater-refl r)
Change-Later (defined _ _ _ _ _ _) h i id r e = (r, e, IsLater-refl r)
Change-Later {s} (created clock tenant key wf r' first rest _ _ _ _) h i id r e =
    let (_, records, _) =
      maps-write_new clock tenant key (first_version clock tenant key first r' s)
        (next_id "rec" s).1 in
    (
      r,
      ap (lookup id) records
          ∙ lookup-insert_unused _ id _ r (next_id "rec" s).1.records
              ((next_id-unused s h i.fresh).1) (e),
      IsLater-refl r,
    )
Change-Later {s} (updated clock k state new_data r' found _) h i id r e =
    let (_, records, _) =
      maps-write_update clock k (updated_record (clock 0) state new_data r') s in
    elim (Text-cases k id) [
      | inl hit ↦
          let new = updated_record (clock 0) state new_data r' in
          let same : some r' ≡ some r = sym found ∙ ap (λ j. lookup j s.records) hit ∙ e in
          (
            new,
            ap (lookup id) records
                ∙ ap (λ j. lookup j (insert k new s.records)) (sym hit)
                ∙ lookup-insert_self k new s.records,
            subst (λ x. IsLater x new) (cc same)
                (updated_record-IsLater clock state new_data r'
                  (omega (arith, version-le s k r' i.logged found))),
          )
      | inr (other, _) ↦
          (r, ap (lookup id) records ∙ lookup-insert_ne k id _ s.records other ∙ e, IsLater-refl r)
    ]
Change-Later (published _ _ _ _) h i id r e = (r, e, IsLater-refl r)
Change-Later (failed _ _ _ _) h i id r e = (r, e, IsLater-refl r)

Later-trans :
    (id : String) (r : Record) (s t : MemoryStore)
    → ((x : Record) → lookup id s.records ≡ some x → Later id x t)
    → Later id r s
    → Later id r t
Later-trans id r s t go (x, e, l) = let (y, e', l') = go x e in (y, e', IsLater-trans r x y l l')

-- No sequence of calls that keeps the counter below 2 ^ 63 loses a record of a sound store, changes
-- its tenant, workflow, idempotency key or time of creation, or sets its version back.
pub run-Later :
    (cs : List Call) (s : MemoryStore) (id : String) (r : Record)
    → IsSound s
    → s.counter + 3 * length cs < two_63
    → lookup id s.records ≡ some r
    → Later id r (run cs s)
unfolding run
run-Later [] s id r i h e = (r, e, IsLater-refl r)
run-Later (c ∷ cs) s id r i h e =
    let (i', count) = step-IsSound c s (omega arith) i in
    Later-trans id r (step c s) (run cs (step c s))
      (λ x. run-Later cs (step c s) id x i' (omega arith))
      (Change-Later (step-Change c s) (omega arith) i id r e)
