-- ===== src/Wire/Left.antt =====
-- What the reads that a message is made of leave: bytes, and how many.
use sap_hana_compatibility_l.Prelude.{
  [], ◌∷◌, All-front, ℕ, ◌+◌, ◌≤◌, ◌≡◌, ◌++◌, arith, ap, ◌∙◌, Bytes, All, All-back, length,
  length-bytes_append, Ensures, Ensures-map,
}
use sap_hana_compatibility_l.GoStd.{le_bytes, read_le, read_full, read_byte}
use sap_hana_compatibility_l.GoStd.Laws.{IsByte, length-le_bytes}
use sap_hana_compatibility_l.GoStd.Reads.{read_le-Ensures, read_full-Ensures, read_byte-Ensures}
use sap_hana_compatibility_l.Bson.Scalar.{cstring_read_from, cstring_marshal_binary}
use sap_hana_compatibility_l.Bson.ScalarSound.{cstring-Ensures}

-- `rest` is the end of the bytes `bs`, with `n` bytes or more in front of it.
pub record Left (n : ℕ) (bs rest : Bytes) : Type 0 where
  pub are_bytes : All IsByte rest
  pub fewer : n + length rest ≤ length bs

Left-split :
    (n : ℕ) (bs front rest : Bytes)
    → All IsByte bs
    → bs ≡ front ++ rest
    → n ≤ length front
    → Left n bs rest
Left-split n bs front rest h e le =
    let len = ap (λ (xs : Bytes). length xs) e ∙ length-bytes_append front rest in
    record { are_bytes = All-back IsByte front rest (rw e at h); fewer = omega arith }

module _ (bs : Bytes) (h : All IsByte bs) where
  pub read_le-Left : (w : ℕ) → Ensures (λ (n, r). Left w bs r) (read_le w bs)
  read_le-Left w =
      Ensures-map
        (λ (n, r) e. Left-split w bs (le_bytes w n) r h e (omega (arith, length-le_bytes w n)))
        (read_le-Ensures w bs h)

  pub read_byte-Left : Ensures (λ (n, r). Left 1 bs r) (read_byte bs)
  read_byte-Left =
      Ensures-map (λ (b, r) e. Left-split 1 bs (b ∷ []) r h e (omega arith)) (read_byte-Ensures bs)

  pub read_full-Left :
      (w : ℕ) → Ensures (λ (b, r). All IsByte b × (length b ≡ w) × Left w bs r) (read_full w bs)
  read_full-Left w =
      Ensures-map
        (λ (b, r) (e, len).
          (All-front IsByte b r (rw e at h), len, Left-split w bs b r h e (omega arith)))
        (read_full-Ensures w bs)

  pub cstring-Left : Ensures (λ (s, r). Left 0 bs r) (cstring_read_from bs)
  cstring-Left =
      Ensures-map (λ (s, r) e. Left-split 0 bs (cstring_marshal_binary s) r h e (omega arith))
        (cstring-Ensures bs)
