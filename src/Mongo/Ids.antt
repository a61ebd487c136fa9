-- ===== src/Mongo/Ids.antt =====
-- Lists of documents with distinct identifiers, read by identifier.
use enterprise_workflow_plat.Common.{
  String, List, [], ◌∷◌, ◌++◌, Option, none, some, false, ◌==◌, ◌≡◌, ◌≢◌, refl, sym, ◌∙◌, ap, subst,
  eq_iff, eq_refl, arith, if◌then◌else◌,
}
use enterprise_workflow_plat.Mongo.Laws.{In, Lacks}

module _ {A : Type 0} (id : A → String) where
  abbrev pub Distinct : List A → Type 0
  Distinct [] = Unit
  Distinct (d ∷ ds) = Lacks (λ x. id x == id d) ds × Distinct ds

  unfoldable pub find_id : String → List A → Option A
  find_id k [] = none
  find_id k (d ∷ ds) = let rest = find_id k ds in if id d == k then some d else rest

  differs : (s t : String) → (s == t) ≡ false → (t == s) ≡ false
  differs s t e = ground (arith, eq_iff s t, eq_iff t s)

  lacks_middle :
      (k : String) (before after : List A) (d : A)
      → Lacks (λ x. id x == k) (before ++ d ∷ after)
      → (id d == k) ≡ false
  lacks_middle k [] after d lacks = lacks.0
  lacks_middle k (x ∷ before) after d lacks = lacks_middle k before after d lacks.1

  -- A document replaced by one with the same identifier.
  lacks-replace :
      (k : String) (before after : List A) (d new : A)
      → id new ≡ id d
      → Lacks (λ x. id x == k) (before ++ d ∷ after)
      → Lacks (λ x. id x == k) (before ++ new ∷ after)
  lacks-replace k [] after d new same lacks = (ap (λ i. i == k) same ∙ lacks.0, lacks.1)
  lacks-replace k (x ∷ before) after d new same lacks =
      (lacks.0, lacks-replace k before after d new same lacks.1)

  pub replace-Distinct :
      (before after : List A) (d new : A)
      → id new ≡ id d
      → Distinct (before ++ d ∷ after)
      → Distinct (before ++ new ∷ after)
  replace-Distinct [] after d new same distinct =
      (subst (λ i. Lacks (λ x. id x == i) after) (sym same) distinct.0, distinct.1)
  replace-Distinct (x ∷ before) after d new same distinct = (
    lacks-replace (id x) before after d new same distinct.0,
    replace-Distinct before after d new same distinct.1,
  )

  snoc-lacks :
      (k : String) (ds : List A) (d : A)
      → Lacks (λ x. id x == k) ds
      → (id d == k) ≡ false
      → Lacks (λ x. id x == k) (ds ++ d ∷ [])
  snoc-lacks k [] d lacks off = (off, tt)
  snoc-lacks k (x ∷ ds) d lacks off = (lacks.0, snoc-lacks k ds d lacks.1 off)

  pub snoc-Distinct :
      (ds : List A) (d : A) → Lacks (λ x. id x == id d) ds → Distinct ds → Distinct (ds ++ d ∷ [])
  snoc-Distinct [] d lacks distinct = (tt, tt)
  snoc-Distinct (x ∷ ds) d lacks distinct = (
    snoc-lacks (id x) ds d distinct.0 (differs (id x) (id d) lacks.0),
    snoc-Distinct ds d lacks.1 distinct.1,
  )

  pub find_id-middle :
      (before after : List A) (d : A)
      → Distinct (before ++ d ∷ after)
      → find_id (id d) (before ++ d ∷ after) ≡ some d
  unfolding find_id
  find_id-middle [] after d distinct = rw (eq_refl (id d)) refl
  find_id-middle (x ∷ before) after d distinct =
      let off = differs (id d) (id x) (lacks_middle (id x) before after d distinct.0) in
      rw off (find_id-middle before after d distinct.1)

  pub find_id-In :
      (k : String) (ds : List A) (d : A) → In d ds → Distinct ds → id d ≡ k → find_id k ds ≡ some d
  find_id-In k ds d there distinct is =
      ap (λ xs. find_id k xs) there.split
      ∙ ap (λ i. find_id i (there.before ++ d ∷ there.after)) (sym is)
      ∙ find_id-middle there.before there.after d (subst Distinct there.split distinct)

  pub find_id-lacks : (k : String) (ds : List A) → Lacks (λ x. id x == k) ds → find_id k ds ≡ none
  unfolding find_id
  find_id-lacks k [] lacks = refl
  find_id-lacks k (x ∷ ds) lacks = rw lacks.0 (find_id-lacks k ds lacks.1)

  -- Only the identifier of the document in the middle finds another one than before.
  pub find_id-replace :
      (k : String) (before after : List A) (d new : A)
      → id new ≡ id d
      → k ≢ id d
      → find_id k (before ++ new ∷ after) ≡ find_id k (before ++ d ∷ after)
  unfolding find_id
  find_id-replace k [] after d new same other =
      let off : (id d == k) ≡ false = ground (arith, eq_iff (id d) k) in
      let off' : (id new == k) ≡ false = ap (λ i. i == k) same ∙ off in rw (off, off') refl
  find_id-replace k (x ∷ before) after d new same other =
      let rest = find_id-replace k before after d new same other in
      ap (λ (o : Option A). if id x == k then some x else o) rest

  pub find_id-snoc :
      (k : String) (ds : List A) (d : A) → k ≢ id d → find_id k (ds ++ d ∷ []) ≡ find_id k ds
  unfolding find_id
  find_id-snoc k [] d other =
      let off : (id d == k) ≡ false = ground (arith, eq_iff (id d) k) in rw off refl
  find_id-snoc k (x ∷ ds) d other =
      ap (λ (o : Option A). if id x == k then some x else o) (find_id-snoc k ds d other)
