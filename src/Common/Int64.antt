-- ===== src/Common/Int64.antt =====
-- Go's `int64` as its bit pattern, a number below 2 ^ 64; the patterns from 2 ^ 63 on are negative.
use Prim.Native.Nat.{ℕ, ◌+◌, ◌-◌, ◌*◌, ◌%◌, ◌^◌, ◌<◌}
use Prim.Native.String.{String, ◌++◌}
use mathlib.Core.Bool.{Bool, true, false, ◌&&◌}
use mathlib.Core.Path.{◌≡◌}
use native.Mathlib.Omega.{arith}
use Prim.Native.Char.{code}
use mathlib.Core.Option.{Option, none, some}
use enterprise_workflow_plat.Common.Tests.{ltb, leb, nat_beq, if◌then◌else◌}
use enterprise_workflow_plat.Common.Decimal.{decimal, pad_zeros, pad_zeros-decimal_injective}

abbrev pub two_63 : ℕ
two_63 = 2 ^ 63

abbrev pub two_64 : ℕ
two_64 = 2 ^ 64

-- `v > 0`.
abbrev pub is_positive : ℕ → Bool
is_positive v = ltb 0 v && ltb v two_63

-- `v++`, with the wrap from the largest value to the smallest.
unfoldable pub inc64 : ℕ → ℕ
inc64 v = (v + 1) % two_64

-- `%06d`: the sign counts as one of the six characters.
unfoldable pub format_06 : ℕ → String
unfolding decimal pad_zeros
format_06 v =
    if ltb v two_63 then pad_zeros 6 (decimal v) else "-" ++ pad_zeros 5 (decimal (two_64 - v))

-- `strconv.FormatInt(v, 10)`.
unfoldable pub format_int : ℕ → String
unfolding decimal
format_int v = if ltb v two_63 then decimal v else "-" ++ decimal (two_64 - v)

pub inc64-eq-add : (v : ℕ) → v + 1 < two_64 → inc64 v ≡ v + 1
unfolding inc64
inc64-eq-add v h = omega arith

pub format_06_injective : (m n : ℕ) → m < two_63 → n < two_63 → format_06 m ≡ format_06 n → m ≡ n
unfolding format_06
format_06_injective m n hm hn h = pad_zeros-decimal_injective 6 m n (ground arith)

-- `a <= b` on signed values: with the sign bit turned over, the patterns are in order.
unfoldable pub leb_signed : ℕ → ℕ → Bool
leb_signed a b = leb ((a + two_63) % two_64) ((b + two_63) % two_64)

-- The digits of a text after the number `n`, and whether it is digits alone.
unfoldable pub parse_digits : ℕ → String → Option ℕ
parse_digits n String.[] = some n
parse_digits n (String.◌∷◌ c s) =
    let rest = parse_digits (n * 10 + (code c - 48)) s in
    if leb 48 (code c) && leb (code c) 57 then rest else none

-- A magnitude with its sign, within the range of `int64`.
unfoldable pub in_range : Bool → Option ℕ → Option ℕ
in_range negative none = none
in_range true (some n) = if leb n two_63 then some ((two_64 - n) % two_64) else none
in_range false (some n) = if ltb n two_63 then some n else none

-- At least one digit.
unfoldable pub parse_magnitude : String → Option ℕ
parse_magnitude String.[] = none
parse_magnitude (String.◌∷◌ c s) = parse_digits 0 (String.◌∷◌ c s)

-- `strconv.ParseInt(s, 10, 64)`: a sign, if any, and digits.
unfoldable pub parse_int : String → Option ℕ
parse_int String.[] = none
parse_int (String.◌∷◌ c s) =
    if nat_beq (code c) 45
    then in_range true (parse_magnitude s)
    else if nat_beq (code c) 43
    then in_range false (parse_magnitude s)
    else in_range false (parse_magnitude (String.◌∷◌ c s))
