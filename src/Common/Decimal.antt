-- ===== src/Common/Decimal.antt =====
-- `fmt.Sprintf` with `%d` and `%06d`, and why two numbers never print alike.
use Prim.Native.Nat.{ℕ, zero, suc, ◌+◌, ◌-◌, ◌*◌, ◌/◌, ◌%◌, ◌<◌}
use Prim.Native.Char.{Char, code}
use Prim.Native.String.{String, [], ◌∷◌, count}
use mathlib.Core.Path.{◌≡◌, refl, sym, ap, ◌∙◌}
use mathlib.Core.Logic.{inl, inr}
use native.Mathlib.Omega.{arith}
use enterprise_workflow_plat.Common.Tests.{if◌then◌else◌, nat_beq, Bool-cases}

digit : ℕ → Char
digit zero = "0"
digit (suc zero) = "1"
digit (suc (suc zero)) = "2"
digit (suc (suc (suc zero))) = "3"
digit (suc (suc (suc (suc zero)))) = "4"
digit (suc (suc (suc (suc (suc zero))))) = "5"
digit (suc (suc (suc (suc (suc (suc zero)))))) = "6"
digit (suc (suc (suc (suc (suc (suc (suc zero))))))) = "7"
digit (suc (suc (suc (suc (suc (suc (suc (suc zero)))))))) = "8"
digit (suc (suc (suc (suc (suc (suc (suc (suc (suc d))))))))) = "9"

-- The digits of `n` before `out`; more rounds than digits are given.
emit : ℕ → ℕ → String → String
unfolding digit
emit zero n out = out
emit (suc fuel) n out =
    let rest = emit fuel (n / 10) (digit (n % 10) ∷ out) in if nat_beq n 0 then out else rest

unfoldable pub decimal : ℕ → String
unfolding emit
decimal n = if nat_beq n 0 then "0" else emit (suc n) n []

-- Zeros in front, until the text has `width` characters.
pad_with : ℕ → String → String
pad_with zero s = s
pad_with (suc missing) s = "0" ∷ pad_with missing s

unfoldable pub pad_zeros : ℕ → String → String
unfolding pad_with
pad_zeros width s = pad_with (width - count s) s

-- The number that a text of digits stands for.
read_from : ℕ → String → ℕ
read_from n [] = n
read_from n (c ∷ s) = read_from (n * 10 + (code c - 48)) s

code-digit : (d : ℕ) → d < 10 → code (digit d) - 48 ≡ d
unfolding digit
code-digit zero h = refl
code-digit (suc zero) h = refl
code-digit (suc (suc zero)) h = refl
code-digit (suc (suc (suc zero))) h = refl
code-digit (suc (suc (suc (suc zero)))) h = refl
code-digit (suc (suc (suc (suc (suc zero))))) h = refl
code-digit (suc (suc (suc (suc (suc (suc zero)))))) h = refl
code-digit (suc (suc (suc (suc (suc (suc (suc zero))))))) h = refl
code-digit (suc (suc (suc (suc (suc (suc (suc (suc zero)))))))) h = refl
code-digit (suc (suc (suc (suc (suc (suc (suc (suc (suc d))))))))) h = omega arith

read_from-digit :
    (n : ℕ) (out : String) → read_from (n / 10) (digit (n % 10) ∷ out) ≡ read_from n out
unfolding read_from
read_from-digit n out = ap (λ m. read_from m out) (omega (arith, code-digit (n % 10) (omega arith)))

read_from-emit :
    (fuel n : ℕ) (out : String) → n < fuel → read_from 0 (emit fuel n out) ≡ read_from n out
unfolding emit
read_from-emit zero n out h = absurd (omega arith)
read_from-emit (suc fuel) n out h =
    ground (arith, read_from-emit fuel (n / 10) (digit (n % 10) ∷ out), read_from-digit n out)

read_from-decimal : (n : ℕ) → read_from 0 (decimal n) ≡ n
unfolding decimal read_from
read_from-decimal n = elim (Bool-cases (nat_beq n 0)) [
  | inl e ↦ rw (e, decimal) (ground arith)
  | inr e ↦ rw (e, decimal) (rw e at (read_from-emit (suc n) n [] (omega arith)))
]

read_from-pad_with : (k : ℕ) (s : String) → read_from 0 (pad_with k s) ≡ read_from 0 s
unfolding pad_with read_from
read_from-pad_with zero s = refl
read_from-pad_with (suc k) s = read_from-pad_with k s

pub pad_zeros-decimal_injective :
    (width m n : ℕ) → pad_zeros width (decimal m) ≡ pad_zeros width (decimal n) → m ≡ n
unfolding pad_zeros
pad_zeros-decimal_injective width m n h =
    sym (read_from-decimal m)
    ∙ sym (read_from-pad_with (width - count (decimal m)) (decimal m))
    ∙ ap (read_from 0) h
    ∙ read_from-pad_with (width - count (decimal n)) (decimal n)
    ∙ read_from-decimal n
