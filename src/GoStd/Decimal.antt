-- ===== src/GoStd/Decimal.antt =====
-- Decimal numerals: no two numbers print alike, and a printed number is plain text.
use sap_hana_compatibility_l.Prelude.{
  ℕ, zero, suc, ◌+◌, ◌-◌, ◌*◌, ◌/◌, ◌%◌, ◌<◌, ◌≤◌, ◌≡◌, refl, ap, [], ◌∷◌, ◌++◌, arith, ◌==◌, All,
  Bytes, All-append, Bool-cases, inl, inr, length, if◌then◌else◌,
}
use sap_hana_compatibility_l.GoStd.{digits, itoa}

-- The number that a numeral stands for.
value_of : ℕ → Bytes → ℕ
value_of acc [] = acc
value_of acc (b ∷ bs) = value_of (acc * 10 + (b - 48)) bs

value_of-append :
    (xs : Bytes) (acc d : ℕ) → value_of acc (xs ++ d ∷ []) ≡ value_of acc xs * 10 + (d - 48)
unfolding value_of
value_of-append [] acc d = refl
value_of-append (x ∷ xs) acc d = value_of-append xs (acc * 10 + (x - 48)) d

value_of-digits : (f n : ℕ) → n < f → value_of 0 (digits f n) ≡ n
unfolding digits value_of
value_of-digits zero n h = absurd (omega arith)
value_of-digits (suc f) n h =
    ground (arith, value_of-append (digits f (n / 10)) 0 (48 + n % 10), value_of-digits f (n / 10))

-- No two indexes have the same numeral.
pub itoa-injective : (n k : ℕ) → itoa n ≡ itoa k → n ≡ k
unfolding itoa
itoa-injective n k h = omega (
  arith,
  value_of-digits (suc n) n (omega arith),
  value_of-digits (suc k) k (omega arith),
  ap (value_of 0) h,
)

abbrev pub IsDigit : ℕ → Type 0
IsDigit b = (48 ≤ b) × (b ≤ 57)

digits-IsDigit : (f n : ℕ) → All IsDigit (digits f n)
unfolding digits
digits-IsDigit zero n = tt
digits-IsDigit (suc f) n = elim (Bool-cases (n / 10 == 0)) [
  | inl e ↦ rw e (omega arith)
  | inr e ↦
      rw e (All-append IsDigit (digits f (n / 10)) _ (digits-IsDigit f (n / 10)) (omega arith))
]

pub itoa-IsDigit : (n : ℕ) → All IsDigit (itoa n)
unfolding itoa
itoa-IsDigit n = digits-IsDigit (suc n) n

pub length-itoa : (n : ℕ) → 0 < length (itoa n)
unfolding itoa digits
length-itoa n = snoc_pos (if n / 10 == 0 then [] else digits n (n / 10)) (48 + n % 10)
  where
    snoc_pos : (xs : Bytes) (x : ℕ) → 0 < length (xs ++ x ∷ [])
    snoc_pos [] x = omega arith
    snoc_pos (y ∷ xs) x = omega arith
