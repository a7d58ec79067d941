-- ===== src/GoStd/Strings.antt =====
-- What the sources use of Go's package strings, and the runes of a text.
use sap_hana_compatibility_l.Prelude.{
  ℕ, zero, suc, ◌+◌, ◌-◌, Bool, true, false, ◌&&◌, ◌||◌, Option, none, some, List, [], ◌∷◌, ◌++◌,
  leb, ◌==◌, if◌then◌else◌, Bytes, length, drop,
}
use sap_hana_compatibility_l.GoStd.{continuation}

-- `strings.HasPrefix(s, p)`
unfoldable pub has_prefix : Bytes → Bytes → Bool
has_prefix [] s = true
has_prefix (a ∷ p) [] = false
has_prefix (a ∷ p) (b ∷ s) = a == b && has_prefix p s

-- Whether a test holds of the text or of a later part of it, up to its end.
unfoldable pub some_suffix : (Bytes → Bool) → Bytes → Bool
some_suffix test [] = test []
some_suffix test (c ∷ s) = test (c ∷ s) || some_suffix test s

-- `strings.Contains(s, p)`
unfoldable pub contains_text : Bytes → Bytes → Bool
unfolding has_prefix some_suffix
contains_text p s = some_suffix (has_prefix p) s

-- `strings.Split(s, sep)[0]`
unfoldable pub before_first : Bytes → Bytes → Bytes
unfolding has_prefix
before_first sep [] = []
before_first sep (c ∷ s) =
    let rest = before_first sep s in if has_prefix sep (c ∷ s) then [] else c ∷ rest

-- `strings.Replace(s, old, new, 1)`, for an `old` that is not empty.
unfoldable pub replace_first : Bytes → Bytes → Bytes → Bytes
unfolding has_prefix
replace_first old new [] = []
replace_first old new (c ∷ s) =
    let rest = replace_first old new s in
    if has_prefix old (c ∷ s) then new ++ drop (length old) (c ∷ s) else c ∷ rest

-- The last occurrence, at `strings.LastIndex`, replaced, if there is one.
unfoldable pub replace_last : Bytes → Bytes → Bytes → Option Bytes
unfolding has_prefix
replace_last old new [] = none
replace_last old new (c ∷ s) = elim (replace_last old new s) [
  | some r ↦ some (c ∷ r)
  | none ↦ if has_prefix old (c ∷ s) then some (new ++ drop (length old) (c ∷ s)) else none
]

-- `bytes.Replace` of a byte by another, everywhere, and the first `n` times.
unfoldable pub replace_byte : ℕ → ℕ → Bytes → Bytes
replace_byte a b [] = []
replace_byte a b (c ∷ s) = (if c == a then b else c) ∷ replace_byte a b s

unfoldable pub replace_byte_first : ℕ → ℕ → ℕ → Bytes → Bytes
replace_byte_first zero a b s = s
replace_byte_first (suc n) a b [] = []
replace_byte_first (suc n) a b (c ∷ s) = elim (c == a) [
  | true ↦ b ∷ replace_byte_first n a b s
  | false ↦ c ∷ replace_byte_first (suc n) a b s
]

-- The text put in front of the first of the parts.
unfoldable pub onto_first : ℕ → List Bytes → List Bytes
onto_first c [] = (c ∷ []) ∷ []
onto_first c (part ∷ parts) = (c ∷ part) ∷ parts

-- `strings.Split(s, ".")`
unfoldable pub split_dots : Bytes → List Bytes
unfolding onto_first
split_dots [] = [] ∷ []
split_dots (c ∷ s) = let rest = split_dots s in if c == b'.' then [] ∷ rest else onto_first c rest

-- `strings.ToLower`, on ASCII letters and the two other letters whose lower case is an ASCII one
-- (U+0130 and U+212A). Every other letter stays beyond ASCII, and is left as it is here.
unfoldable pub to_lower : Bytes → Bytes
to_lower [] = []
to_lower (c ∷ []) = (if leb b'A' c && leb c b'Z' then c + 32 else c) ∷ []
to_lower (c ∷ d ∷ []) =
    let rest = to_lower (d ∷ []) in
    if c == 196 && d == 176
    then b'i' ∷ []
    else (if leb b'A' c && leb c b'Z' then c + 32 else c) ∷ rest
to_lower (c ∷ d ∷ e ∷ s) = elim (c == 226 && d == 132 && e == 170) [
  | true ↦ b'k' ∷ to_lower s
  | false ↦ elim (c == 196 && d == 176) [
    | true ↦ b'i' ∷ to_lower (e ∷ s)
    | false ↦ (if leb b'A' c && leb c b'Z' then c + 32 else c) ∷ to_lower (d ∷ e ∷ s)
  ]
]

-- The bytes that fall into the ranges, one after the other, and those behind them.
unfoldable pub take_ranges : List (ℕ × ℕ) → Bytes → Option (Bytes × Bytes)
take_ranges [] s = some ([], s)
take_ranges ((lo, hi) ∷ rs) [] = none
take_ranges ((lo, hi) ∷ rs) (c ∷ s) =
    let rest : Option (Bytes × Bytes) = elim (take_ranges rs s) [
      | none ↦ none
      | some (xs, ys) ↦ some (c ∷ xs, ys)
    ] in
    if leb lo c && leb c hi then rest else none

-- `string(utf8.RuneError)`
abbrev pub rune_error : Bytes
rune_error = 239 ∷ 191 ∷ 189 ∷ []

-- The first rune, written as a string, and what follows it.
unfoldable pub first_rune : ℕ → Bytes → Bytes × Bytes
unfolding continuation take_ranges
first_rune c s = elim (continuation c) [
  | none ↦ (rune_error, s)
  | some ranges ↦ elim (take_ranges ranges s) [
    | none ↦ (rune_error, s)
    | some (xs, rest) ↦ (c ∷ xs, rest)
  ]
]

-- `for i, s := range text`: the runes with the positions of their first bytes. A rune takes a byte
-- at least, so that the length of the text is fuel enough.
unfoldable pub runes : ℕ → ℕ → ℕ → Bytes → List (ℕ × Bytes)
unfolding first_rune
runes zero total i s = []
runes (suc f) total i [] = []
runes (suc f) total i (c ∷ s) =
    let (rune, rest) = first_rune c s in (i, rune) ∷ runes f total (total - length rest) rest
