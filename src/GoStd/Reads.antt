-- ===== src/GoStd/Reads.antt =====
-- What the library's reads take from the bytes: exactly what writing the value would put there.
use sap_hana_compatibility_l.Prelude.{
  ℕ, ◌≡◌, refl, [], ◌∷◌, ◌++◌, arith, ◌==◌, inl, inr, Option-cases, length, All, Bytes, Outcome, ok,
  Ensures, holds, failed, Ensures-bind, Ensures-if,
}
use sap_hana_compatibility_l.GoStd.{
  le_bytes, take_exact, read_full, read_le, read_byte, read_until_zero,
}
use sap_hana_compatibility_l.GoStd.Laws.{IsByte, take_exact_sound, read_le_sound}

pub read_full-Ensures :
    (n : ℕ) (bs : Bytes) → Ensures (λ (b, r). (bs ≡ b ++ r) × (length b ≡ n)) (read_full n bs)
unfolding read_full
read_full-Ensures n bs = elim (Option-cases (take_exact n bs)) [
  | inl e ↦ rw (e, read_full) failed
  | inr ((b, r), e) ↦ rw (e, read_full) (holds (take_exact_sound n bs b r e))
]

pub read_le-Ensures :
    (w : ℕ) (bs : Bytes) → All IsByte bs → Ensures (λ (n, r). bs ≡ le_bytes w n ++ r) (read_le w bs)
read_le-Ensures w bs h = go (read_le w bs) (λ n r. read_le_sound w bs n r h) calm
  where
    calm : Ensures (λ _. Unit {0}) (read_le w bs)
    calm = unfold read_le in Ensures-bind (read_full-Ensures w bs) (λ _ _. holds tt)

    go :
        (o : Outcome (ℕ × Bytes))
        → ((n : ℕ) (r : Bytes) → o ≡ ok (n, r) → bs ≡ le_bytes w n ++ r)
        → Ensures (λ _. Unit {0}) o
        → Ensures (λ (n, r). bs ≡ le_bytes w n ++ r) o
    go o k (holds {a = (n, r)} _) = holds (k n r refl)
    go o k failed = failed

pub read_byte-Ensures : (bs : Bytes) → Ensures (λ (b, r). bs ≡ b ∷ r) (read_byte bs)
unfolding read_byte
read_byte-Ensures [] = failed
read_byte-Ensures (b ∷ bs) = holds refl

pub read_until_zero-Ensures :
    (bs : Bytes) → Ensures (λ (s, r). bs ≡ s ++ 0 ∷ r) (read_until_zero bs)
unfolding read_until_zero
read_until_zero-Ensures [] = failed
read_until_zero-Ensures (b ∷ bs) =
    Ensures-if (b == 0) (λ e. holds (ground arith))
      (λ _. Ensures-bind (read_until_zero-Ensures bs) (λ (s, r) p. holds (rw p)))
