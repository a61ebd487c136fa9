-- ===== src/Store/Memory/Leak.antt =====
-- The idempotency map is keyed by `tenantID+":"+key`: when two tenants can meet in it, and what
-- then happens.
use Prim.Native.String.{String, [], ◌∷◌, ◌++◌}
use Prim.Native.Char.{Char}
use text.Mathlib.TextLemmas.{
  cons-append, nil-append, append_assoc, append-nil, cons-eq-cons, cons-ne-nil, append-eq-nil_iff,
  append_cancel_left, append-ne-nil_of_right_ne-nil,
}
use enterprise_workflow_plat.Common.{
  ◌≡◌, ◌≢◌, refl, sym, ◌∙◌, ap, Bool, true, false, some, ok, Option-cases, inl, inr, arith,
}
use mathlib.Core.Path.{ap₂}
use enterprise_workflow_plat.Common.Map.{lookup}
use enterprise_workflow_plat.Domain.{Record, WorkflowDefinition}
use enterprise_workflow_plat.Store.Memory.{
  MemoryStore, Clock, create_record, find_replay, scoped_key, write_new, next_id,
}
use enterprise_workflow_plat.Store.Memory.Validity.{IsValid}
use enterprise_workflow_plat.Store.Memory.Fresh.{HasRoom}
use enterprise_workflow_plat.Store.Memory.Sound.{IsSound}
use enterprise_workflow_plat.Store.Memory.Cases.{create_record_cases, insert_record_cases}
use enterprise_workflow_plat.Store.Memory.Contract.{create_record-IsCreated}
use enterprise_workflow_plat.Store.Memory.Replay.{
  create_record-HasEntry, create_record_again, find_replay-some,
}

abbrev pub colon : Char
colon = ":"

-- A tenant name without the separator.
abbrev pub NoColon : String → Type 0
NoColon [] = Unit
NoColon (c ∷ s) = (c ≢ colon) × NoColon s

scoped_key-nil : (key : String) → scoped_key [] key ≡ colon ∷ key
unfolding scoped_key
scoped_key-nil key = nil-append _ ∙ cons-append colon [] key ∙ ap (◌∷◌ colon) (nil-append key)

scoped_key-cons :
    (c : Char) (tenant key : String) → scoped_key (c ∷ tenant) key ≡ c ∷ scoped_key tenant key
unfolding scoped_key
scoped_key-cons c tenant key = cons-append c tenant _

colon-ne-nil : (s : String) → ":" ++ s ≢ ""
colon-ne-nil s e = cons-ne-nil colon [] (append-eq-nil_iff.0 e).0

-- Without the separator in the tenant names, the scoped key tells both the tenant and the key.
scoped_key_injective :
    (t u key key' : String)
    → NoColon t
    → NoColon u
    → scoped_key t key ≡ scoped_key u key'
    → (t ≡ u) × (key ≡ key')
scoped_key_injective [] [] key key' nt nu e =
    (refl, (cons-eq-cons.0 (sym (scoped_key-nil key) ∙ e ∙ scoped_key-nil key')).1)
scoped_key_injective [] (d ∷ u) key key' nt (nd, nu) e =
    absurd (nd (sym (cons-eq-cons.0 (sym (scoped_key-nil key) ∙ e ∙ scoped_key-cons d u key')).0))
scoped_key_injective (c ∷ t) [] key key' (nc, nt) nu e =
    absurd (nc (cons-eq-cons.0 (sym (scoped_key-cons c t key) ∙ e ∙ scoped_key-nil key')).0)
scoped_key_injective (c ∷ t) (d ∷ u) key key' (nc, nt) (nd, nu) e =
    let (heads, tails) =
      cons-eq-cons.0 (sym (scoped_key-cons c t key) ∙ e ∙ scoped_key-cons d u key') in
    let (same, keys) = scoped_key_injective t u key key' nt nu tails in (ap₂ ◌∷◌ heads same, keys)

-- Another split of the same text: the tenant takes part of the key.
scoped_key_split :
    (t part key : String)
    → scoped_key t (part ++ (":" ++ key)) ≡ scoped_key (t ++ (":" ++ part)) key
unfolding scoped_key
scoped_key_split t part key = simp append_assoc

-- What a replay returns on a valid store: the record created under the scoped key.
pub find_replay-IsReplay :
    (tenant key : String) (r : Record) (s : MemoryStore)
    → IsValid s
    → find_replay tenant key s ≡ some r
    → (id : String) × (lookup id s.records ≡ some r)
      × (scoped_key tenant key ≡ scoped_key r.tenant_id r.idempotency)
unfolding find_replay
find_replay-IsReplay tenant key r s v e =
    elim (Option-cases (lookup (scoped_key tenant key) s.idempotency)) [
      | inl missing ↦ absurd (ground arith)
      | inr (id, entry) ↦
          let ok = v.replays_ok (scoped_key tenant key) id entry in
          let same : ok.original ≡ r = ground (arith, ok.present) in
          (
            id,
            ok.present ∙ ap some same,
            ok.key_matches ∙ ap (λ x. scoped_key x.tenant_id x.idempotency) same,
          )
    ]

write_new-not_replay :
    (clock : Clock) (tenant key : String) (r : Record) (s : MemoryStore)
    → (write_new clock tenant key r s).0 ≡ ok (r, false)
unfolding write_new
write_new-not_replay clock tenant key r s = refl

replayed-own :
    (clock : Clock) (tenant key : String) (r x : Record) (s : MemoryStore)
    → IsSound s
    → NoColon tenant
    → ((id : String) (old : Record) → lookup id s.records ≡ some old → NoColon old.tenant_id)
    → (create_record clock tenant key r s).0 ≡ ok (x, true)
    → (x.tenant_id ≡ tenant) × (x.idempotency ≡ key)
replayed-own clock tenant key r x s i plain all =
    create_record_cases (λ o. o.0 ≡ ok (x, true) → (x.tenant_id ≡ tenant) × (x.idempotency ≡ key))
      clock tenant key r s (λ e. cc)
      (λ old again e.
        let (id, found, scoped) = find_replay-IsReplay tenant key old s i.valid again in
        let (same, keys) =
          scoped_key_injective tenant old.tenant_id key old.idempotency plain (all id old found)
            scoped in
        let old_is : old ≡ x = ground arith in
        (
          ap (λ y. y.tenant_id) (sym old_is) ∙ sym same,
          ap (λ y. y.idempotency) (sym old_is) ∙ sym keys,
        ))
      λ wf found own _.
        insert_record_cases
          (λ o. o.0 ≡ ok (x, true) → (x.tenant_id ≡ tenant) × (x.idempotency ≡ key)) clock tenant
          key wf r s wf.states refl (λ _ e. cc)
          λ first rest _ e.
            absurd (cc (sym (write_new-not_replay clock tenant key _ (next_id "rec" s).1) ∙ e))

-- If neither the calling tenant's name nor that of any stored record's tenant has a colon in it,
-- then a record that `create_record` returns, new or replayed, is the calling tenant's, and was
-- created under the key of the request. The store is sound.
pub create_record-own :
    (clock : Clock) (tenant key : String) (r x : Record) (replay : Bool) (s : MemoryStore)
    → HasRoom s
    → IsSound s
    → NoColon tenant
    → ((id : String) (old : Record) → lookup id s.records ≡ some old → NoColon old.tenant_id)
    → (create_record clock tenant key r s).0 ≡ ok (x, replay)
    → (x.tenant_id ≡ tenant) × (x.idempotency ≡ key)
create_record-own clock tenant key r x true s h i plain all e =
    replayed-own clock tenant key r x s i plain all e
create_record-own clock tenant key r x false s h i plain all e =
    let new = create_record-IsCreated clock tenant key r x s h i e in (new.tenant_is, new.key_is)

-- A tenant `t:part` creates a record under a key. Whoever is the tenant `t` then gets
-- that record by asking under the key `part:key`, in the reply to a creation that names one of its
-- own workflows; the record is not of tenant `t`.
pub create_record_leaks :
    (clock later : Clock) (t part key : String) (r wanted secret : Record) (wf : WorkflowDefinition)
    (s : MemoryStore)
    → HasRoom s
    → IsSound s
    → key ≢ ""
    → (create_record clock (t ++ (":" ++ part)) key r s).0 ≡ ok (secret, false)
    → let s' = (create_record clock (t ++ (":" ++ part)) key r s).1 in
      lookup wanted.workflow_id s'.workflows ≡ some wf
      → wf.tenant_id ≡ t
      → (create_record later t (part ++ (":" ++ key)) wanted s' ≡ (ok (secret, true), s'))
        × (secret.tenant_id ≡ t ++ (":" ++ part))
        × (secret.tenant_id ≢ t)
create_record_leaks clock later t part key r wanted secret wf s h i given e found own =
    let s' = (create_record clock (t ++ (":" ++ part)) key r s).1 in
    let (entry, there) = create_record-HasEntry clock (t ++ (":" ++ part)) key r secret s given e in
    let new = create_record-IsCreated clock (t ++ (":" ++ part)) key r secret s h i e in
    (
      create_record_again later t (part ++ (":" ++ key)) wanted secret wf s' found own (
          find_replay-some t (part ++ (":" ++ key)) secret.id secret s'
            (append-ne-nil_of_right_ne-nil part (colon-ne-nil key))
            (ap (λ k. lookup k s'.idempotency) (scoped_key_split t part key) ∙ entry) there),
      new.tenant_is,
      λ same.
          colon-ne-nil part
            (append_cancel_left t _ _ (sym new.tenant_is ∙ same ∙ sym (append-nil t))),
    )
