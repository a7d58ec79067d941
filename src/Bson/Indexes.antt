-- ===== src/Bson/Indexes.antt =====
-- internal/bson/array.go: the indexes of an array as the keys of its document.
use sap_hana_compatibility_l.Prelude.{
  ℕ, suc, ◌+◌, ◌<◌, List, [], ◌∷◌, true, false, some, ◌≡◌, refl, arith, ap, Bytes, bytes_eq,
  bytes_eq_iff, bytes_eq_refl, length, ok, All, Bool-cases, inl, inr,
}
use sap_hana_compatibility_l.Types.Document.Valid.{HasKey}
use sap_hana_compatibility_l.GoStd.{itoa, valid_string, utf8_from}
use sap_hana_compatibility_l.GoStd.Laws.{NoZero}
use sap_hana_compatibility_l.GoStd.Decimal.{itoa-injective, itoa-IsDigit, IsDigit, length-itoa}
use sap_hana_compatibility_l.Types.Value.{Value, Items, Fields, nil, cons, end, field}
use sap_hana_compatibility_l.Types.Fields.{lookup, contains, distinct, keys_of}
use sap_hana_compatibility_l.Types.Validate.{is_valid_key, validate_value}
use sap_hana_compatibility_l.Bson.Marshal.{array_keys, write_elements, marshal_at}
use sap_hana_compatibility_l.Bson.MarshalLaws.{
  array_fields, write_elements-cons, marshal_value-valid,
}
use sap_hana_compatibility_l.Bson.Canon.{select, canon, canon_items, canon_fields}
use sap_hana_compatibility_l.Bson.Read.{collect}

pub itoa-NoZero : (n : ℕ) → NoZero (itoa n)
itoa-NoZero n = go (itoa n) (itoa-IsDigit n)
  where
    go : (s : Bytes) → All IsDigit s → NoZero s
    go [] h = tt
    go (b ∷ bs) h = (omega arith, go bs h.1)

digits_valid : (s : Bytes) → All IsDigit s → utf8_from [] s ≡ true
unfolding utf8_from
digits_valid [] h = refl
digits_valid (b ∷ bs) h = ground (arith, digits_valid bs)

digits_key : (s : Bytes) → All IsDigit s → 0 < length s → is_valid_key s ≡ true
unfolding is_valid_key valid_string
digits_key [] h l = absurd (omega arith)
digits_key (b ∷ bs) h l = ground (arith, digits_valid (b ∷ bs) h)

-- An index is a valid key.
pub itoa-is_valid_key : (n : ℕ) → is_valid_key (itoa n) ≡ true
itoa-is_valid_key n = digits_key (itoa n) (itoa-IsDigit n) (length-itoa n)

-- Different indexes are different keys.
pub itoa-bytes_eq : (i j : ℕ) → i < j → bytes_eq (itoa i) (itoa j) ≡ false
itoa-bytes_eq i j h = elim (Bool-cases (bytes_eq (itoa i) (itoa j))) [
  | inl e ↦ absurd (omega (arith, itoa-injective i j ((bytes_eq_iff _ _).0 e)))
  | inr e ↦ e
]

array_keys-below : (j i : ℕ) (xs : Items) → j < i → contains (itoa j) (array_keys i xs) ≡ false
unfolding contains array_keys
array_keys-below j i nil h = refl
array_keys-below j i (cons v xs) h = ground (
  arith,
  itoa-bytes_eq j i h,
  bytes_eq_iff (itoa i) (itoa j),
  bytes_eq_iff (itoa j) (itoa i),
  array_keys-below j (i + 1) xs (omega arith),
)

pub distinct-array_keys : (i : ℕ) (xs : Items) → distinct (array_keys i xs) ≡ true
unfolding distinct array_keys
distinct-array_keys i nil = refl
distinct-array_keys i (cons v xs) =
    ground (arith, array_keys-below i (i + 1) xs (omega arith), distinct-array_keys (i + 1) xs)

pub NoZero-array_keys : (i : ℕ) (xs : Items) → All NoZero (array_keys i xs)
unfolding array_keys
NoZero-array_keys i nil = tt
NoZero-array_keys i (cons v xs) = (itoa-NoZero i, NoZero-array_keys (i + 1) xs)

pub keys_of-array_fields : (i : ℕ) (xs : Items) → keys_of (array_fields i xs) ≡ array_keys i xs
unfolding keys_of array_fields array_keys
keys_of-array_fields i nil = refl
keys_of-array_fields i (cons v xs) = ap (λ ks. itoa i ∷ ks) (keys_of-array_fields (i + 1) xs)

pub canon_fields-array_fields :
    (i : ℕ) (xs : Items) → canon_fields (array_fields i xs) ≡ array_fields i (canon_items xs)
unfolding canon_fields array_fields
canon_fields-array_fields i nil = refl
canon_fields-array_fields i (cons v xs) =
    ap (λ m. field (itoa i) (canon v) m) (canon_fields-array_fields (i + 1) xs)

pub array_keys-canon_items : (i : ℕ) (xs : Items) → array_keys i (canon_items xs) ≡ array_keys i xs
unfolding array_keys canon_items
array_keys-canon_items i nil = refl
array_keys-canon_items i (cons v xs) = ap (λ ks. itoa i ∷ ks) (array_keys-canon_items (i + 1) xs)

select_skip :
    (k : Bytes) (v : Value) (m : Fields) (keys : List Bytes)
    → contains k keys ≡ false
    → select keys (field k v m) ≡ select keys m
unfolding select lookup contains
select_skip k v m [] h = refl
select_skip k v m (j ∷ keys) h =
    ground (arith, bytes_eq_iff k j, bytes_eq_iff j k, select_skip k v m keys)

-- A map's own keys select it, in its order.
pub select-keys_of : (m : Fields) → distinct (keys_of m) ≡ true → select (keys_of m) m ≡ m
unfolding select keys_of distinct lookup
select-keys_of end h = refl
select-keys_of (field k v m) h = ground (
  arith,
  bytes_eq_refl k,
  select_skip k v m (keys_of m) (ground arith),
  select-keys_of m (ground arith),
)

-- A property of each item.
abbrev pub Each : (Value → Type 0) → Items → Type 0
Each Q nil = Unit
Each Q (cons v xs) = Q v × Each Q xs

abbrev pub AllValid : Items → Type 0
AllValid = Each (λ v. validate_value v ≡ ok tt)

-- The map has the items under their indexes from `i` on.
abbrev pub Holds : Fields → ℕ → Items → Type 0
Holds m i nil = Unit
Holds m i (cons v xs) = (lookup (itoa i) m ≡ some v) × Holds m (i + 1) xs

abbrev pub size : Items → ℕ
size nil = 0
size (cons v xs) = suc (size xs)

-- The loop of `Array.ReadFrom` collects them.
pub collect-Holds :
    (m : Fields) (i : ℕ) (xs : Items)
    → Holds m i xs
    → AllValid xs
    → collect (size xs) i (array_keys i xs) m ≡ ok xs
unfolding collect array_keys
collect-Holds m i nil h valid = refl
collect-Holds m i (cons v xs) (found, h) (valid, valids) =
    rw (bytes_eq_refl, found, valid, collect-Holds m (i + 1) xs h valids)

-- A prior index changes nothing.
Holds-weaken :
    (m : Fields) (i j : ℕ) (v : Value) (xs : Items)
    → i < j
    → Holds m j xs
    → Holds (field (itoa i) v m) j xs
unfolding lookup
Holds-weaken m i j v nil lt h = tt
Holds-weaken m i j v (cons w xs) lt (found, h) =
    (rw (itoa-bytes_eq i j lt) found, Holds-weaken m i (j + 1) v xs (omega arith) h)

-- A prior index was not needed.
pub Holds-strengthen :
    (m : Fields) (i j : ℕ) (v : Value) (xs : Items)
    → i < j
    → Holds (field (itoa i) v m) j xs
    → Holds m j xs
unfolding lookup
Holds-strengthen m i j v nil lt h = tt
Holds-strengthen m i j v (cons w xs) lt (found, h) =
    (rw (itoa-bytes_eq i j lt, lookup) at found, Holds-strengthen m i (j + 1) v xs (omega arith) h)

pub Holds-array_fields : (i : ℕ) (xs : Items) → Holds (array_fields i xs) i xs
unfolding array_fields lookup
Holds-array_fields i nil = tt
Holds-array_fields i (cons v xs) = (
  rw bytes_eq_refl,
  Holds-weaken (array_fields (i + 1) xs) i (i + 1) v xs (omega arith)
      (Holds-array_fields (i + 1) xs),
)

pub length-array_keys : (i : ℕ) (xs : Items) → length (array_keys i xs) ≡ size xs
unfolding array_keys
length-array_keys i nil = refl
length-array_keys i (cons v xs) = ap suc (length-array_keys (i + 1) xs)

-- The items of an array that is written are valid, and its keys are found.
pub written-AllValid :
    (m : Fields) (i : ℕ) (xs : Items) (elist : Bytes)
    → Holds m i xs
    → write_elements (marshal_at m) (array_keys i xs) ≡ ok elist
    → AllValid xs × All (HasKey m) (array_keys i xs)
unfolding array_keys
written-AllValid m i nil elist h e = (tt, tt)
written-AllValid m i (cons v xs) elist (found, h) e =
    let (w, tag, p, more, found', mw, ok_more, _) =
      write_elements-cons m (itoa i) (array_keys (i + 1) xs) elist e in
    let same : w ≡ v = ground (arith, found', found) in
    let valid = rw same at (marshal_value-valid w tag p mw) in
    let (valids, keys) = written-AllValid m (i + 1) xs more h ok_more in
    (
      (valid, valids),
      (
        record { valid_key = itoa-is_valid_key i; value = v; found = found; valid_value = valid },
        keys,
      ),
    )
