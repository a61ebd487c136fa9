-- ===== src/Common/Texts.antt =====
-- What the program calls of the package `strings`: `Split`, `Fields`, `TrimSpace`, `EqualFold`, and
-- `len` of a text.
use Prim.Native.Nat.{ℕ, ◌+◌}
use Prim.Native.Char.{Char, code}
use Prim.Native.String.{String, ◌++◌}
use text.Mathlib.TextLemmas.{cons-append, nil-append, head-eq_of_cons-eq}
use text.Mathlib.Text.{◌==◌}
use text.Mathlib.TextEquality.{eq_iff}
use text.Mathlib.TextPositions.{eq_refl}
use mathlib.Core.Path.{◌≡◌, refl, sym, ap, ◌∙◌}
use mathlib.Core.Logic.{◌≢◌, ◌⊎◌, inl, inr}
use mathlib.Core.Bool.{Bool, true, false, ◌&&◌, ◌||◌}
use mathlib.Core.List.{List, [], ◌∷◌}
use enterprise_workflow_plat.Common.Tests.{if◌then◌else◌, leb, ltb, nat_beq, Text-cases}

abbrev pub single : Char → String
single c = String.◌∷◌ c String.[]

abbrev pub same_char : Char → Char → Bool
same_char c d = single c == single d

pub Char-cases :
    (c d : Char) → ((c ≡ d) × (same_char c d ≡ true)) ⊎ ((c ≢ d) × (same_char c d ≡ false))
Char-cases c d = elim (Text-cases (single c) (single d)) [
  | inl same ↦ inl (head-eq_of_cons-eq same, (eq_iff (single c) (single d)).1 same)
  | inr (other, test) ↦ inr (λ e. other (ap single e), test)
]

-- `unicode.IsSpace`.
unfoldable pub is_space : Char → Bool
is_space c =
    let n = code c in
    (leb 9 n && leb n 13)
    || nat_beq n 32
    || nat_beq n 133
    || nat_beq n 160
    || nat_beq n 5760
    || (leb 8192 n && leb n 8202)
    || nat_beq n 8232
    || nat_beq n 8233
    || nat_beq n 8239
    || nat_beq n 8287
    || nat_beq n 12288

-- `strings.Split(s, sep)` for a separator of one character: the first part, and the others.
unfoldable pub split : Char → String → String × List String
split sep String.[] = (String.[], [])
split sep (String.◌∷◌ c s) =
    let (first, others) = split sep s in
    if same_char c sep then (String.[], first ∷ others) else (String.◌∷◌ c first, others)

-- A word that has ended, unless it is empty.
abbrev pub push_word : String → List String → List String
push_word String.[] words = words
push_word (String.◌∷◌ c w) words = String.◌∷◌ c w ∷ words

-- The word that a text begins with, perhaps an empty one, and the words after it.
unfoldable pub scan_words : String → String × List String
scan_words String.[] = (String.[], [])
scan_words (String.◌∷◌ c s) =
    let (word, words) = scan_words s in
    if is_space c then (String.[], push_word word words) else (String.◌∷◌ c word, words)

-- `strings.Fields`.
unfoldable pub fields : String → List String
fields s = let (word, words) = scan_words s in push_word word words

unfoldable pub trim_left : String → String
trim_left String.[] = String.[]
trim_left (String.◌∷◌ c s) = let rest = trim_left s in if is_space c then rest else String.◌∷◌ c s

unfoldable pub trim_right : String → String
trim_right String.[] = String.[]
trim_right (String.◌∷◌ c s) =
    let rest = trim_right s in if is_space c && rest == "" then String.[] else String.◌∷◌ c rest

unfoldable pub trim_space : String → String
trim_space s = trim_right (trim_left s)

-- The bytes of a character and of a text in UTF-8, which `len` counts.
unfoldable pub char_bytes : Char → ℕ
char_bytes c =
    let n = code c in
    if ltb n 128 then 1 else if ltb n 2048 then 2 else if ltb n 65536 then 3 else 4

unfoldable pub byte_length : String → ℕ
byte_length String.[] = 0
byte_length (String.◌∷◌ c s) = char_bytes c + byte_length s

-- `strings.Trim(s, "\"")`.
is_quote : Char → Bool
is_quote c = nat_beq (code c) 34

unfoldable pub drop_quotes : String → String
unfolding is_quote
drop_quotes String.[] = String.[]
drop_quotes (String.◌∷◌ c s) =
    let rest = drop_quotes s in if is_quote c then rest else String.◌∷◌ c s

unfoldable pub drop_quotes_right : String → String
unfolding is_quote
drop_quotes_right String.[] = String.[]
drop_quotes_right (String.◌∷◌ c s) =
    let rest = drop_quotes_right s in
    if is_quote c && rest == "" then String.[] else String.◌∷◌ c rest

unfoldable pub trim_quotes : String → String
trim_quotes s = drop_quotes_right (drop_quotes s)

-- `strings.EqualFold` where one side has no letter with a fold outside ASCII.
abbrev pub fold_code : Char → ℕ
fold_code c = let n = code c in if leb 65 n && leb n 90 then n + 32 else n

unfoldable pub equal_fold : String → String → Bool
equal_fold String.[] String.[] = true
equal_fold String.[] (String.◌∷◌ d t) = false
equal_fold (String.◌∷◌ c s) String.[] = false
equal_fold (String.◌∷◌ c s) (String.◌∷◌ d t) = nat_beq (fold_code c) (fold_code d) && equal_fold s t

-- No character of the text is `c`, and none is a space.
abbrev pub Lacks : Char → String → Type 0
Lacks c String.[] = Unit
Lacks c (String.◌∷◌ d s) = (d ≢ c) × Lacks c s

abbrev pub NoSpace : String → Type 0
NoSpace String.[] = Unit
NoSpace (String.◌∷◌ c s) = (is_space c ≡ false) × NoSpace s

pub split-last : (sep : Char) (s : String) → Lacks sep s → split sep s ≡ (s, [])
unfolding split
split-last sep String.[] h = refl
split-last sep (String.◌∷◌ c s) (h, hs) = elim (Char-cases c sep) [
  | inl (same, _) ↦ absurd (h same)
  | inr (_, test) ↦ rw (test, split, split-last sep s hs) refl
]

pub split-joined :
    (sep : Char) (s t : String)
    → Lacks sep s
    → Lacks sep t
    → split sep (s ++ String.◌∷◌ sep t) ≡ (s, t ∷ [])
unfolding split
split-joined sep String.[] t h k =
    ap (split sep) (nil-append (String.◌∷◌ sep t))
    ∙ rw (eq_refl (single sep), split, split-last sep t k) refl
split-joined sep (String.◌∷◌ c s) t (h, hs) k = elim (Char-cases c sep) [
  | inl (same, _) ↦ absurd (h same)
  | inr (_, test) ↦
      ap (split sep) (cons-append c s (String.◌∷◌ sep t))
      ∙ rw (test, split, split-joined sep s t hs k) refl
]

-- A text that splits into two parts is the two joined.
pub split-eq_one : (sep : Char) (s a : String) → split sep s ≡ (a, []) → s ≡ a
unfolding split
split-eq_one sep String.[] a h = ap (λ p. p.0) h
split-eq_one sep (String.◌∷◌ c s) a h = elim (Char-cases c sep) [
  | inl (same, test) ↦
      let e : (String.[], (split sep s).0 ∷ (split sep s).1) ≡ (a, []) = rw (test, split) at h in
      absurd (cc (ap (λ p. p.1) e))
  | inr (other, test) ↦
      let e : (String.◌∷◌ c (split sep s).0, (split sep s).1) ≡ (a, []) = rw (test, split) at h in
      ap (String.◌∷◌ c)
        (split-eq_one sep s (split sep s).0 (ap (λ r. ((split sep s).0, r)) (ap (λ p. p.1) e)))
      ∙ ap (λ p. p.0) e
]

pub split-eq_two :
    (sep : Char) (s a b : String) → split sep s ≡ (a, b ∷ []) → s ≡ a ++ String.◌∷◌ sep b
unfolding split
split-eq_two sep String.[] a b h = absurd (cc (ap (λ p. p.1) h))
split-eq_two sep (String.◌∷◌ c s) a b h = elim (Char-cases c sep) [
  | inl (same, test) ↦
      let e : ◌≡◌ {A = String × List String} (String.[], (split sep s).0 ∷ (split sep s).1)
          (a, b ∷ []) =
        rw (test, split) at h in
      let parts : (split sep s).0 ∷ (split sep s).1 ≡ b ∷ [] = ap (λ p. p.1) e in
      ap (λ x. String.◌∷◌ x s) same
      ∙ ap (String.◌∷◌ sep) (
          split-eq_one sep s b (
            let head : (split sep s).0 ≡ b = cc in let none_left : (split sep s).1 ≡ [] = cc in cc))
      ∙ sym (nil-append (String.◌∷◌ sep b))
      ∙ ap (λ x. x ++ String.◌∷◌ sep b) (ap (λ p. p.0) e)
  | inr (other, test) ↦
      let e : (String.◌∷◌ c (split sep s).0, (split sep s).1) ≡ (a, b ∷ []) =
        rw (test, split) at h in
      ap (String.◌∷◌ c)
        (split-eq_two sep s (split sep s).0 b (ap (λ r. ((split sep s).0, r)) (ap (λ p. p.1) e)))
      ∙ sym (cons-append c (split sep s).0 (String.◌∷◌ sep b))
      ∙ ap (λ x. x ++ String.◌∷◌ sep b) (ap (λ p. p.0) e)
]

scan_words-NoSpace : (w : String) → NoSpace w → scan_words w ≡ (w, [])
unfolding scan_words
scan_words-NoSpace String.[] h = refl
scan_words-NoSpace (String.◌∷◌ c w) (h, hs) = rw (h, scan_words, scan_words-NoSpace w hs) refl

scan_words-append :
    (w : String) (sp : Char) (t : String)
    → NoSpace w
    → is_space sp ≡ true
    → scan_words (w ++ String.◌∷◌ sp t) ≡ (w, fields t)
unfolding scan_words fields
scan_words-append String.[] sp t h e =
    ap scan_words (nil-append (String.◌∷◌ sp t)) ∙ rw (e, scan_words) refl
scan_words-append (String.◌∷◌ c w) sp t (h, hs) e =
    ap scan_words (cons-append c w (String.◌∷◌ sp t))
    ∙ rw (h, scan_words, scan_words-append w sp t hs e) refl

-- Two words with a space between them.
pub fields-two :
    (c d : Char) (w v : String) (sp : Char)
    → NoSpace (String.◌∷◌ c w)
    → NoSpace (String.◌∷◌ d v)
    → is_space sp ≡ true
    → fields (String.◌∷◌ c w ++ String.◌∷◌ sp (String.◌∷◌ d v))
      ≡ String.◌∷◌ c w ∷ String.◌∷◌ d v ∷ []
unfolding fields
fields-two c d w v sp h k e =
    ap (λ p. push_word p.0 p.1) (scan_words-append (String.◌∷◌ c w) sp (String.◌∷◌ d v) h e)
    ∙ ap (λ p. String.◌∷◌ c w ∷ push_word p.0 p.1) (scan_words-NoSpace (String.◌∷◌ d v) k)
