-- ===== src/GoStd/Format.antt =====
-- fmt.Sprintf. What it makes of a float64 (`%f`), and of a format whose directives are others than
-- `%d`, `%s`, `%t`, `%f` and `%%` or do not fit the arguments, are parameters.
use sap_hana_compatibility_l.Prelude.{
  ℕ, ◌-◌, ◌^◌, Bool, true, false, Option, none, some, List, [], ◌∷◌, ◌++◌, ltb, ◌==◌, if◌then◌else◌,
  Bytes, codes,
}
use sap_hana_compatibility_l.GoStd.{itoa}

-- An integer argument is the pattern of an int64.
pub data FormatArg : Type 0 where
  integer : ℕ → FormatArg
  float : ℕ → FormatArg
  text : Bytes → FormatArg
  truth : Bool → FormatArg

pub record Printing : Type 0 where
  pub fixed : ℕ → Bytes
  pub irregular : Bytes → List FormatArg → Bytes

-- `strconv.FormatInt` at an int64.
unfoldable pub integer_text : ℕ → Bytes
integer_text n = if ltb n (2 ^ 63) then itoa n else b'-' ∷ itoa (2 ^ 64 - n)

unfoldable pub truth_text : Bool → Bytes
truth_text true = codes "true"
truth_text false = codes "false"

-- The argument under a verb that is meant for it.
unfoldable pub directive : Printing → ℕ → FormatArg → Option Bytes
unfolding integer_text truth_text
directive P verb (integer n) = if verb == b'd' then some (integer_text n) else none
directive P verb (float x) = if verb == b'f' then some (P.fixed x) else none
directive P verb (text s) = if verb == b's' then some s else none
directive P verb (truth b) = if verb == b't' then some (truth_text b) else none

abbrev pub onto {ℓ} : {A : Type ℓ} → List A → Option (List A) → Option (List A)
onto xs none = none
onto xs (some ys) = some (xs ++ ys)

-- The text, where each directive has an argument of its own and none is left.
unfoldable pub regular : Printing → Bytes → List FormatArg → Option Bytes
unfolding directive
regular P [] [] = some []
regular P [] (a ∷ as₁) = none
regular P (c ∷ []) [] = if c == b'%' then none else some (c ∷ [])
regular P (c ∷ []) (a ∷ as₁) = none
regular P (c ∷ verb ∷ s) [] = elim (c == b'%') [
  | false ↦ onto (c ∷ []) (regular P (verb ∷ s) [])
  | true ↦ elim (verb == b'%') [ true ↦ onto (c ∷ []) (regular P s []) | false ↦ none ]
]
regular P (c ∷ verb ∷ s) (a ∷ as₁) = elim (c == b'%') [
  | false ↦ onto (c ∷ []) (regular P (verb ∷ s) (a ∷ as₁))
  | true ↦ elim (verb == b'%') [
    | true ↦ onto (c ∷ []) (regular P s (a ∷ as₁))
    | false ↦ elim (directive P verb a) [ none ↦ none | some t ↦ onto t (regular P s as₁) ]
  ]
]

-- `fmt.Sprintf(format, args...)`
unfoldable pub sprintf : Printing → Bytes → List FormatArg → Bytes
unfolding regular
sprintf P format args = elim (regular P format args) [ none ↦ P.irregular format args | some s ↦ s ]
