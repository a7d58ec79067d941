-- ===== src/Types/Fields.antt =====
-- Go's map operations on `map[string]any`, and the laws that hold of them.
use sap_hana_compatibility_l.Prelude.{
  ℕ, suc, List, [], ◌∷◌, ◌++◌, Bool, true, false, not, ◌&&◌, ◌||◌, Option, none, some, ◌≡◌, refl,
  arith, if◌then◌else◌, ap, Bytes, bytes_eq, bytes_eq_iff, Bool-cases, inl, inr, ◌⊎◌, subst, length,
}
use sap_hana_compatibility_l.Types.Value.{Value, Fields, end, field}

-- `m[k]`, with whether it is there.
unfoldable pub lookup : Bytes → Fields → Option Value
lookup k end = none
lookup k (field j v m) = let rest = lookup k m in if bytes_eq j k then some v else rest

-- `m[k] = v`
unfoldable pub insert : Bytes → Value → Fields → Fields
insert k v end = field k v end
insert k v (field j w m) =
    let rest = insert k v m in if bytes_eq j k then field j v m else field j w rest

-- `delete(m, k)`
unfoldable pub delete : Bytes → Fields → Fields
delete k end = end
delete k (field j v m) = let rest = delete k m in if bytes_eq j k then m else field j v rest

-- `len(m)`
unfoldable pub count : Fields → ℕ
count end = 0
count (field j v m) = suc (count m)

unfoldable pub keys_of : Fields → List Bytes
keys_of end = []
keys_of (field j v m) = j ∷ keys_of m

-- Whether a key stands in a list of keys.
unfoldable pub contains : Bytes → List Bytes → Bool
contains k [] = false
contains k (j ∷ js) = bytes_eq j k || contains k js

-- No key stands there twice.
unfoldable pub distinct : List Bytes → Bool
unfolding contains
distinct [] = true
distinct (k ∷ ks) = not (contains k ks) && distinct ks

unfoldable pub append_fields : Fields → Fields → Fields
append_fields end n = n
append_fields (field j v m) n = field j v (append_fields m n)

abbrev pub is_some {ℓ} : {A : Type ℓ} → Option A → Bool
is_some none = false
is_some (some a) = true

pub is_some-lookup : (k : Bytes) (m : Fields) → is_some (lookup k m) ≡ contains k (keys_of m)
unfolding lookup keys_of contains
is_some-lookup k end = refl
is_some-lookup k (field j v m) = ground (arith, is_some-lookup k m)

pub lookup-insert :
    (k j : Bytes) (v : Value) (m : Fields)
    → lookup j (insert k v m) ≡ (if bytes_eq k j then some v else lookup j m)
unfolding lookup insert
lookup-insert k j v end = refl
lookup-insert k j v (field i w m) =
    ground (arith, bytes_eq_iff k j, bytes_eq_iff i k, bytes_eq_iff i j, lookup-insert k j v m)

pub keys_of-insert :
    (k : Bytes) (v : Value) (m : Fields)
    → keys_of (insert k v m) ≡ (if contains k (keys_of m) then keys_of m else keys_of m ++ k ∷ [])
unfolding insert keys_of contains
keys_of-insert k v end = refl
keys_of-insert k v (field i w m) = ground (arith, keys_of-insert k v m)

pub insert_new :
    (k : Bytes) (v : Value) (m : Fields)
    → contains k (keys_of m) ≡ false
    → insert k v m ≡ append_fields m (field k v end)
unfolding insert keys_of contains append_fields
insert_new k v end h = refl
insert_new k v (field i w m) h = ground (arith, insert_new k v m)

pub count-keys_of : (m : Fields) → count m ≡ length (keys_of m)
unfolding count keys_of
count-keys_of end = refl
count-keys_of (field j v m) = ap suc (count-keys_of m)

pub lookup-delete_ne :
    (k j : Bytes) (m : Fields) → bytes_eq k j ≡ false → lookup j (delete k m) ≡ lookup j m
unfolding lookup delete
lookup-delete_ne k j end h = refl
lookup-delete_ne k j (field i w m) h =
    ground (arith, bytes_eq_iff k j, bytes_eq_iff i k, bytes_eq_iff i j, lookup-delete_ne k j m h)

-- With distinct keys one removal removes the key.
pub lookup-delete_self :
    (k : Bytes) (m : Fields) → distinct (keys_of m) ≡ true → lookup k (delete k m) ≡ none
unfolding lookup delete keys_of distinct
lookup-delete_self k end h = refl
lookup-delete_self k (field i w m) h =
    ground (arith, bytes_eq_iff i k, is_some-lookup k m, lookup-delete_self k m)

pub lookup-append_fields :
    (k : Bytes) (m n : Fields)
    → lookup k (append_fields m n) ≡ (if contains k (keys_of m) then lookup k m else lookup k n)
unfolding lookup append_fields keys_of contains
lookup-append_fields k end n = refl
lookup-append_fields k (field i w m) n = ground (arith, lookup-append_fields k m n)

pub keys_of-append_fields : (m n : Fields) → keys_of (append_fields m n) ≡ keys_of m ++ keys_of n
unfolding append_fields keys_of
keys_of-append_fields end n = refl
keys_of-append_fields (field i w m) n = rw (keys_of-append_fields m n)

pub append_fields_assoc :
    (l m n : Fields) → append_fields (append_fields l m) n ≡ append_fields l (append_fields m n)
unfolding append_fields
append_fields_assoc end m n = refl
append_fields_assoc (field i w l) m n = rw (append_fields_assoc l m n)

pub append_fields-end : (m : Fields) → append_fields m end ≡ m
unfolding append_fields
append_fields-end end = refl
append_fields-end (field i w m) = rw (append_fields-end m)

pub contains-append :
    (k : Bytes) (is js : List Bytes) → contains k (is ++ js) ≡ (contains k is || contains k js)
unfolding contains
contains-append k [] js = refl
contains-append k (i ∷ is) js = ground (arith, contains-append k is js)

-- What is found in a map is its first value or stands further on.
pub lookup_cases :
    (k j : Bytes) (v w : Value) (m : Fields)
    → lookup k (field j v m) ≡ some w
    → (v ≡ w) ⊎ (lookup k m ≡ some w)
unfolding lookup
lookup_cases k j v w m h = elim (Bool-cases (bytes_eq j k)) [
  | inl e ↦ inl (ground arith)
  | inr e ↦ inr (ground arith)
]

-- A property of values that holds of all that a map holds, by its entries.
pub lookup_each {κ} :
    (P : Value → Type κ) (j : Bytes) (v : Value) (m : Fields)
    → P v
    → ((k : Bytes) (w : Value) → lookup k m ≡ some w → P w)
    → (k : Bytes) (w : Value) → lookup k (field j v m) ≡ some w
    → P w
lookup_each P j v m p rest k w h = elim (lookup_cases k j v w m h) [
  | inl e ↦ subst P e p
  | inr e ↦ rest k w e
]
