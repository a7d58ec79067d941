-- ===== src/Prelude/Text.antt =====
-- A Go string or byte slice is the list of its bytes; `==` on strings compares bytes.
use Prim.Native.Nat.{ℕ, ◌+◌}
use Prim.Native.Char.{code}
use Prim.Native.String.{String}
use mathlib.Core.Path.{◌≡◌, refl}
use mathlib.Core.Bool.{Bool, true, false, ◌&&◌}
use mathlib.Core.Logic.{◌↔◌}
use mathlib.Core.List.{List, [], ◌∷◌, ◌++◌}
use native.Mathlib.Omega.{arith}
use sap_hana_compatibility_l.Prelude.Tests.{◌==◌}
use sap_hana_compatibility_l.Prelude.Lists.{length, length-append}

abbrev pub Bytes : Type 0
Bytes = List ℕ

-- The bytes of an ASCII text.
abbrev pub codes : String → Bytes
codes String.[] = []
codes (String.◌∷◌ c s) = code c ∷ codes s

unfoldable pub bytes_eq : Bytes → Bytes → Bool
bytes_eq [] [] = true
bytes_eq [] (b ∷ bs) = false
bytes_eq (a ∷ as₁) [] = false
bytes_eq (a ∷ as₁) (b ∷ bs) = a == b && bytes_eq as₁ bs

pub bytes_eq→eq : (a b : Bytes) → bytes_eq a b ≡ true → a ≡ b
unfolding bytes_eq
bytes_eq→eq [] [] h = refl
bytes_eq→eq [] (b ∷ bs) h = cc
bytes_eq→eq (a ∷ as₁) [] h = cc
bytes_eq→eq (a ∷ as₁) (b ∷ bs) h = ground (arith, bytes_eq→eq as₁ bs)

pub bytes_eq_refl : (a : Bytes) → bytes_eq a a ≡ true
unfolding bytes_eq
bytes_eq_refl [] = refl
bytes_eq_refl (a ∷ as₁) = ground (arith, bytes_eq_refl as₁)

pub bytes_eq_comm : (a b : Bytes) → bytes_eq a b ≡ bytes_eq b a
unfolding bytes_eq
bytes_eq_comm [] [] = refl
bytes_eq_comm [] (b ∷ bs) = refl
bytes_eq_comm (a ∷ as₁) [] = refl
bytes_eq_comm (a ∷ as₁) (b ∷ bs) = ground (arith, bytes_eq_comm as₁ bs)

pub length-bytes_append : (xs ys : Bytes) → length (xs ++ ys) ≡ length xs + length ys
length-bytes_append = length-append

-- For `omega`, on byte lists.
pub ruleset lengths = (arith, length-bytes_append)

-- For `ground`, at each pair of byte strings that is compared.
pub bytes_eq_iff : (a b : Bytes) → (bytes_eq a b ≡ true) ↔ (a ≡ b)
bytes_eq_iff a b = (bytes_eq→eq a b, λ e. rw e (bytes_eq_refl b))
