-- ===== src/Store/Memory/Ids.antt =====
-- The identifiers that `nextID` hands out: a text is `Numbered` if an earlier count produced it.
use text.Mathlib.TextLemmas.{append_cancel_left}
use enterprise_workflow_plat.Common.{
  ℕ, String, List, [], ◌∷◌, Option, some, none, ◌≡◌, ◌≢◌, ◌+◌, ◌≤◌, ◌<◌, refl, sym, ◌∙◌, inl, inr,
  arith, map, All, All-append, Text-cases, subst,
}
use mathlib.Core.List.{◌++◌ as append}
use enterprise_workflow_plat.Common.Map.{Map, lookup, insert, lookup-insert_ne}
use enterprise_workflow_plat.Common.Int64.{two_63, inc64, inc64-eq-add, format_06_injective}
use enterprise_workflow_plat.Domain.{Int64, OutboxEvent}
use enterprise_workflow_plat.Store.Memory.{make_id}

pub make_id_injective :
    (prefix : String) (m n : Int64)
    → m < two_63
    → n < two_63
    → make_id prefix m ≡ make_id prefix n
    → m ≡ n
unfolding make_id
make_id_injective prefix m n hm hn h =
    format_06_injective m n hm hn (append_cancel_left "_" _ _ (append_cancel_left prefix _ _ h))

abbrev pub Numbered : String → Int64 → String → Type 0
Numbered prefix n k = (i : ℕ) × (i ≤ n) × (k ≡ make_id prefix i)

pub Numbered-mono :
    (prefix : String) (m n : Int64) (k : String) → m ≤ n → Numbered prefix m k → Numbered prefix n k
Numbered-mono prefix m n k h (i, le, e) = (i, omega arith, e)

-- The next identifier is none of those before it.
pub Numbered-ne-next :
    (prefix : String) (n : Int64) (k : String)
    → n + 1 < two_63
    → Numbered prefix n k
    → k ≢ make_id prefix (inc64 n)
Numbered-ne-next prefix n k h (i, le, e) same =
    let next : inc64 n ≡ n + 1 = inc64-eq-add n (omega arith) in
    let equal : i ≡ inc64 n =
      make_id_injective prefix i (inc64 n) (omega arith) (omega arith) (sym e ∙ same) in
    absurd (omega arith)

abbrev pub AllNumbered : {V : Type 0} → String → Int64 → Map V → Type 0
AllNumbered prefix n m = (k : String) (v : _) → lookup k m ≡ some v → Numbered prefix n k

module _ {V : Type 0} (prefix : String) (n : Int64) (m : Map V)
    (numbered : AllNumbered prefix n m) where
  pub AllNumbered-mono : (n' : Int64) → n ≤ n' → AllNumbered prefix n' m
  AllNumbered-mono n' h k v e = Numbered-mono prefix n n' k h (numbered k v e)

  pub AllNumbered-insert :
      (n' : Int64) (k : String) (v : V)
      → n ≤ n'
      → Numbered prefix n' k
      → AllNumbered prefix n' (insert k v m)
  AllNumbered-insert n' k v h new j w e = elim (Text-cases k j) [
    | inl same ↦ subst (Numbered prefix n') same new
    | inr (other, _) ↦ AllNumbered-mono n' h j w (sym (lookup-insert_ne k j v m other) ∙ e)
  ]

  pub lookup-next : n + 1 < two_63 → lookup (make_id prefix (inc64 n)) m ≡ none
  lookup-next h = go (lookup (make_id prefix (inc64 n)) m) refl
    where
      go : (o : Option V) → lookup (make_id prefix (inc64 n)) m ≡ o → o ≡ none
      go none e = refl
      go (some v) e = absurd (Numbered-ne-next prefix n _ h (numbered _ v e) refl)

abbrev pub ids : List OutboxEvent → List String
ids = map (λ e. e.id)

abbrev pub Distinct : List String → Type 0
Distinct [] = Unit
Distinct (k ∷ ks) = All (λ j. j ≢ k) ks × Distinct ks

pub Distinct-append :
    (ks : List String) (k : String)
    → Distinct ks
    → All (λ j. j ≢ k) ks
    → Distinct (append ks (k ∷ []))
Distinct-append [] k d h = (tt, tt)
Distinct-append (j ∷ ks) k (first, d) (other, h) =
    (All-append (λ i. i ≢ j) ks (k ∷ []) first ((λ e. other (sym e)), tt), Distinct-append ks k d h)
