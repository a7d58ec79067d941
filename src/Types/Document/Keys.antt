-- ===== src/Types/Document/Keys.antt =====
-- Facts about lists of keys: `remove_key`, and the pigeonhole principle that makes its panic
-- unreachable.
use sap_hana_compatibility_l.Prelude.{
  suc, List, [], ◌∷◌, ◌++◌, true, false, not, ◌&&◌, some, ◌≡◌, refl, All, arith, ◌<◌, Bytes,
  bytes_eq, bytes_eq_iff, length, if◌then◌else◌,
}
use sap_hana_compatibility_l.Types.Value.{Fields, end, field}
use sap_hana_compatibility_l.Types.Fields.{contains, distinct, keys_of, delete, contains-append}
use sap_hana_compatibility_l.Types.Document.{remove_key}

-- The keys other than `key`, in their order.
unfoldable pub without : Bytes → List Bytes → List Bytes
without key [] = []
without key (k ∷ keys) = let rest = without key keys in if bytes_eq k key then rest else k ∷ rest

pub without_absent :
    (key : Bytes) (keys : List Bytes) → contains key keys ≡ false → without key keys ≡ keys
unfolding contains without
without_absent key [] h = refl
without_absent key (k ∷ keys) h = ground (arith, without_absent key keys)

-- The loop of `Remove` finds a key that is there, and drops it from distinct keys.
pub remove_key-without :
    (key : Bytes) (keys : List Bytes)
    → distinct keys ≡ true
    → contains key keys ≡ true
    → remove_key key keys ≡ some (without key keys)
unfolding remove_key contains distinct without
remove_key-without key [] d h = cc
remove_key-without key (k ∷ keys) d h =
    ground (arith, bytes_eq_iff k key, without_absent key keys, remove_key-without key keys)

pub contains-without :
    (key j : Bytes) (keys : List Bytes)
    → contains j (without key keys) ≡ (not (bytes_eq key j) && contains j keys)
unfolding contains without
contains-without key j [] = ground arith
contains-without key j (k ∷ keys) =
    ground
      (arith, contains-without key j keys, bytes_eq_iff k key, bytes_eq_iff key j, bytes_eq_iff k j)

pub distinct-without :
    (key : Bytes) (keys : List Bytes) → distinct keys ≡ true → distinct (without key keys) ≡ true
unfolding distinct without
distinct-without key [] h = refl
distinct-without key (k ∷ keys) h =
    ground (arith, distinct-without key keys, contains-without key k keys)

pub length-without :
    (key : Bytes) (keys : List Bytes)
    → distinct keys ≡ true
    → contains key keys ≡ true
    → length keys ≡ suc (length (without key keys))
unfolding distinct contains without
length-without key [] d h = cc
length-without key (k ∷ keys) d h =
    ground (arith, bytes_eq_iff k key, without_absent key keys, length-without key keys)

pub distinct-snoc :
    (keys : List Bytes) (key : Bytes)
    → distinct keys ≡ true
    → contains key keys ≡ false
    → distinct (keys ++ key ∷ []) ≡ true
unfolding distinct contains
distinct-snoc [] key d h = refl
distinct-snoc (k ∷ keys) key d h = ground (
  arith,
  contains-append k keys (key ∷ []),
  bytes_eq_iff k key,
  bytes_eq_iff key k,
  distinct-snoc keys key,
)

-- Each of the first keys is among the others.
abbrev pub Among : List Bytes → List Bytes → Type 0
Among xs ys = All (λ x. contains x ys ≡ true) xs

Among-without :
    (x : Bytes) (xs ys : List Bytes) → contains x xs ≡ false → Among xs ys → Among xs (without x ys)
unfolding contains
Among-without x [] ys h a = tt
Among-without x (z ∷ xs) ys h a = (
  ground (arith, contains-without x z ys, bytes_eq_iff x z, bytes_eq_iff z x),
  Among-without x xs ys (ground arith) a.1,
)

-- Distinct keys that miss one of the others are fewer.
pub pigeonhole :
    (key : Bytes) (xs ys : List Bytes)
    → distinct xs ≡ true
    → distinct ys ≡ true
    → Among xs ys
    → contains key ys ≡ true
    → contains key xs ≡ false
    → length xs < length ys
unfolding distinct contains
pigeonhole key [] [] dx dy a h n = cc
pigeonhole key [] (y ∷ ys) dx dy a h n = omega arith
pigeonhole key (x ∷ xs) ys dx dy a h n = ground (
  arith,
  length-without x ys,
  contains-without x key ys,
  bytes_eq_iff x key,
  pigeonhole key xs (without x ys) (ground arith) (distinct-without x ys dy)
      (Among-without x xs ys (ground arith) a.1)
      (ground (arith, contains-without x key ys, bytes_eq_iff x key)) (ground arith),
)

pub keys_of-delete :
    (key : Bytes) (m : Fields)
    → distinct (keys_of m) ≡ true
    → keys_of (delete key m) ≡ without key (keys_of m)
unfolding keys_of delete distinct without
keys_of-delete key end d = refl
keys_of-delete key (field j v m) d =
    ground (arith, bytes_eq_iff j key, without_absent key (keys_of m), keys_of-delete key m)
