-- ===== src/Common/Actions.antt =====
-- Actions that read and write a state and may fail, in `do` blocks.
use mathlib.Core.Path.{◌≡◌, sym, ap, ◌∙◌}
use mathlib.Core.Logic.{◌⊎◌, inl, inr}
use enterprise_workflow_plat.Common.Results.{Result, ok, err, Result-cases}

-- A failed call leaves what it wrote before.
abbrev pub Action : Type 0 → Type 0 → Type 0 → Type 0
Action E S A = S → Result E A × S

module _ {E S A B : Type 0} where
  abbrev pub go_on : (A → Action E S B) → Result E A × S → Result E B × S
  go_on f (ok a, s) = f a s
  go_on f (err e, s) = (err e, s)

  infixl 10 ◌>>=◌
  abbrev pub ◌>>=◌ : Action E S A → (A → Action E S B) → Action E S B
  ◌>>=◌ m f s = go_on f (m s)

infixl 10 ◌>>◌
abbrev pub ◌>>◌ : {E S B : Type 0} → Action E S (Unit {0}) → Action E S B → Action E S B
m >> n = m >>= λ _. n

abbrev pub pure : {E S A : Type 0} → A → Action E S A
pure a s = (ok a, s)

abbrev pub raise : {E S A : Type 0} → E → Action E S A
raise e s = (err e, s)

module _ {E S A B : Type 0} where
  -- How an action that succeeded went.
  pub bind-ok :
      (m : Action E S A) (f : A → Action E S B) (s : S) (b : B)
      → ((m >>= f) s).0 ≡ ok b
      → (a : A) × ((m s).0 ≡ ok a) × ((m >>= f) s ≡ f a (m s).1)
  bind-ok m f s b e = elim (Result-cases (m s).0) [
    | inr (a, went) ↦ (a, went, ap (λ r. go_on f (r, (m s).1)) went)
    | inl (x, broke) ↦ cc (sym (ap (λ r. (go_on f (r, (m s).1)).0) broke) ∙ e)
  ]

  -- How an action that failed went.
  pub bind-err :
      (m : Action E S A) (f : A → Action E S B) (s : S) (e : E)
      → ((m >>= f) s).0 ≡ err e
      → ((m s).0 ≡ err e) ⊎ ((a : A) × ((m s).0 ≡ ok a) × ((f a (m s).1).0 ≡ err e))
  bind-err m f s e h = elim (Result-cases (m s).0) [
    | inr (a, went) ↦ inr (a, went, ap (λ r. (go_on f (r, (m s).1)).0) (sym went) ∙ h)
    | inl (x, broke) ↦
        let same : x ≡ e = cc (sym (ap (λ r. (go_on f (r, (m s).1)).0) broke) ∙ h) in
        inl (broke ∙ ap err same)
  ]

pub pure-ok : {E S A : Type 0} (a b : A) (s : S) → (pure {E = E} a s).0 ≡ ok b → a ≡ b
pure-ok a b s e = cc
