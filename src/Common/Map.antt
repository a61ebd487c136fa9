-- ===== src/Common/Map.antt =====
-- A Go map with string keys as an association list: reading, writing, the values in it.
use Prim.Native.String.{String}
use mathlib.Core.Path.{◌≡◌, sym, ap, ◌∙◌, subst₂}
use mathlib.Core.Logic.{◌≢◌, inl, inr}
use mathlib.Core.Option.{Option, none, some}
use mathlib.Core.List.{List, [], ◌∷◌}
use native.Mathlib.Omega.{arith}
use text.Mathlib.Text.{◌==◌}
use text.Mathlib.TextEquality.{eq_iff}
use enterprise_workflow_plat.Common.Tests.{if◌then◌else◌, Text-cases}

abbrev pub Map {ℓ} : Type ℓ → Type ℓ
Map V = List (String × V)

module _ {ℓ} {V : Type ℓ} where
  unfoldable pub lookup : String → Map V → Option V
  lookup key [] = none
  lookup key (entry ∷ m) = if entry.0 == key then some entry.1 else lookup key m

  unfoldable pub insert : String → V → Map V → Map V
  insert key v [] = (key, v) ∷ []
  insert key v (entry ∷ m) = if entry.0 == key then (key, v) ∷ m else entry ∷ insert key v m

  -- A read gives the last write to its key.
  pub lookup-insert_self : (k : String) (v : V) (m : Map V) → lookup k (insert k v m) ≡ some v
  unfolding lookup insert
  lookup-insert_self k v [] = ground (arith, eq_iff k k)
  lookup-insert_self k v (e ∷ m) =
      ground (arith, eq_iff k k, eq_iff e.0 k, lookup-insert_self k v m)

  -- A write leaves the other keys alone.
  pub lookup-insert_ne :
      (k j : String) (v : V) (m : Map V) → k ≢ j → lookup j (insert k v m) ≡ lookup j m
  unfolding lookup insert
  lookup-insert_ne k j v [] h = ground (arith, eq_iff k j)
  lookup-insert_ne k j v (e ∷ m) h =
      ground (arith, eq_iff k j, eq_iff e.0 k, eq_iff e.0 j, lookup-insert_ne k j v m h)

  -- A write under an unused key loses nothing.
  pub lookup-insert_unused :
      (k j : String) (v w : V) (m : Map V)
      → lookup k m ≡ none
      → lookup j m ≡ some w
      → lookup j (insert k v m) ≡ some w
  lookup-insert_unused k j v w m h e = elim (Text-cases k j) [
    | inl same ↦ cc (sym e ∙ ap (λ i. lookup i m) (sym same) ∙ h)
    | inr (other, _) ↦ lookup-insert_ne k j v m other ∙ e
  ]

  -- What a read after a write can give.
  pub lookup-insert_cases {κ} :
      (P : String → V → Type κ) (k : String) (v : V) (m : Map V)
      → P k v
      → ((j : String) (w : V) → k ≢ j → lookup j m ≡ some w → P j w)
      → (j : String) (w : V) → lookup j (insert k v m) ≡ some w
      → P j w
  lookup-insert_cases P k v m new old j w e = elim (Text-cases k j) [
    | inl same ↦
        let found : some v ≡ some w =
          sym (lookup-insert_self k v m) ∙ ap (λ i. lookup i (insert k v m)) same ∙ e in
        subst₂ P same (cc) new
    | inr (other, _) ↦ old j w other (sym (lookup-insert_ne k j v m other) ∙ e)
  ]

  pub lookup-insert-none :
      (k j : String) (v : V) (m : Map V)
      → lookup j (insert k v m) ≡ none
      → (k ≢ j) × (lookup j m ≡ none)
  lookup-insert-none k j v m e = elim (Text-cases k j) [
    | inl same ↦ cc (sym (lookup-insert_self k v m) ∙ ap (λ i. lookup i (insert k v m)) same ∙ e)
    | inr (other, _) ↦ (other, sym (lookup-insert_ne k j v m other) ∙ e)
  ]
