-- ===== src/GoStd/Laws.antt =====
-- What is written is read back, and what was read is what stood there.
use sap_hana_compatibility_l.Prelude.{
  ℕ, zero, suc, ◌+◌, ◌*◌, ◌/◌, ◌%◌, ◌^◌, ◌<◌, ◌≡◌, refl, ap, some, [], ◌∷◌, ◌++◌, arith, ◌==◌, inl,
  inr, Bool-cases, Option-cases, >>=-eq-ok, length, All, All-front, Bytes, ok,
}
use sap_hana_compatibility_l.GoStd.{
  le_bytes, from_le, take_exact, read_full, read_le, read_until_zero,
}

abbrev pub IsByte : ℕ → Type 0
IsByte b = b < 256

-- Bytes with no zero among them: what a cstring can hold.
abbrev pub NoZero : Bytes → Type 0
NoZero = All (λ b. 0 < b)

pub length-le_bytes : (w n : ℕ) → length (le_bytes w n) ≡ w
unfolding le_bytes
length-le_bytes zero n = refl
length-le_bytes (suc w) n = ap suc (length-le_bytes w (n / 256))

pub from_le-le_bytes : (w n : ℕ) → n < 256 ^ w → from_le (le_bytes w n) ≡ n
unfolding le_bytes from_le
from_le-le_bytes zero n h = omega arith
from_le-le_bytes (suc w) n h = omega (arith, from_le-le_bytes w (n / 256) (omega arith))

pub le_bytes-from_le : (bs : Bytes) → All IsByte bs → le_bytes (length bs) (from_le bs) ≡ bs
unfolding le_bytes from_le
le_bytes-from_le [] h = refl
le_bytes-from_le (b ∷ bs) (hb, hbs) =
    let low : (b + 256 * from_le bs) % 256 ≡ b = omega arith in
    let high : (b + 256 * from_le bs) / 256 ≡ from_le bs = omega arith in
    rw (low, high, le_bytes-from_le bs hbs)

pub take_exact-append : (xs ys : Bytes) → take_exact (length xs) (xs ++ ys) ≡ some (xs, ys)
unfolding take_exact
take_exact-append [] ys = refl
take_exact-append (x ∷ xs) ys = rw (take_exact-append xs ys)

pub take_exact_sound :
    (n : ℕ) (bs xs ys : Bytes) → take_exact n bs ≡ some (xs, ys) → (bs ≡ xs ++ ys) × (length xs ≡ n)
unfolding take_exact
take_exact_sound zero bs xs ys h = ground arith
take_exact_sound (suc n) [] xs ys h = cc
take_exact_sound (suc n) (b ∷ bs) xs ys h = elim (Option-cases (take_exact n bs)) [
  | inl e ↦ ground arith
  | inr ((us, vs), e) ↦ ground (arith, take_exact_sound n bs us vs e)
]

pub read_full-append : (xs ys : Bytes) → read_full (length xs) (xs ++ ys) ≡ ok (xs, ys)
unfolding read_full
read_full-append xs ys = rw (take_exact-append xs ys, read_full)

pub read_full_sound :
    (n : ℕ) (bs xs ys : Bytes) → read_full n bs ≡ ok (xs, ys) → (bs ≡ xs ++ ys) × (length xs ≡ n)
unfolding read_full
read_full_sound n bs xs ys h = take_exact_sound n bs xs ys (ground arith)

pub read_le-le_bytes :
    (w n : ℕ) (ys : Bytes) → n < 256 ^ w → read_le w (le_bytes w n ++ ys) ≡ ok (n, ys)
unfolding read_le
read_le-le_bytes w n ys h =
    ground (arith, read_full-append (le_bytes w n) ys, length-le_bytes w n, from_le-le_bytes w n h)

pub read_until_zero-append :
    (xs ys : Bytes) → NoZero xs → read_until_zero (xs ++ 0 ∷ ys) ≡ ok (xs, ys)
unfolding read_until_zero
read_until_zero-append [] ys h = refl
read_until_zero-append (x ∷ xs) ys (hx, hxs) = ground (arith, read_until_zero-append xs ys hxs)

pub read_until_zero_sound :
    (bs xs ys : Bytes) → read_until_zero bs ≡ ok (xs, ys) → (bs ≡ xs ++ 0 ∷ ys) × NoZero xs
unfolding read_until_zero
read_until_zero_sound [] xs ys h = cc
read_until_zero_sound (b ∷ bs) xs ys h = elim (Bool-cases (b == 0)) [
  | inl e ↦ ground arith
  | inr e ↦
      let ((us, vs), p, q) = >>=-eq-ok (read_until_zero bs) _ (rw e at h) in
      ground (arith, read_until_zero_sound bs us vs p)
]

-- The same where the length is known otherwise.
pub read_full_exact : (n : ℕ) (xs ys : Bytes) → length xs ≡ n → read_full n (xs ++ ys) ≡ ok (xs, ys)
read_full_exact n xs ys h = rw (← h) (read_full-append xs ys)

-- A read integer fits its width and is written as it stood there.
pub read_le_sound :
    (w : ℕ) (bs : Bytes) (n : ℕ) (rest : Bytes)
    → All IsByte bs
    → read_le w bs ≡ ok (n, rest)
    → bs ≡ le_bytes w n ++ rest
unfolding read_le
read_le_sound w bs n rest h e =
    let ((b, r), p, q) = >>=-eq-ok (read_full w bs) _ e in
    let (split, len) = read_full_sound w bs b r p in
    let here : All IsByte b = All-front IsByte b r (rw split at h) in
    let value : from_le b ≡ n = cc in
    let tail : r ≡ rest = cc in
    let back : le_bytes w n ≡ b = rw (← value, ← len) (le_bytes-from_le b here) in
    rw (back, ← tail) split
