-- ===== src/Bson/Canon.antt =====
-- What reading back keeps of a value: the order of a map's entries becomes that of the document's
-- keys, and an instant loses what is beyond its milliseconds.
use sap_hana_compatibility_l.Prelude.{
  List, [], ◌∷◌, true, none, some, ◌≡◌, refl, All, arith, ok, Bytes, bytes_eq, bytes_eq_iff, length,
  Option-cases, Bool-cases, ◌∙◌, inl, inr, if◌then◌else◌,
}
use mathlib.Core.Option
use sap_hana_compatibility_l.Types.Value.{
  Value, Items, Fields, document, array, double, string, binary, object_id, bool, date_time, null,
  regex, int32, timestamp, int64, cstring, other, nil, cons, end, field, Document,
}
use sap_hana_compatibility_l.Types.Fields.{lookup, lookup_each, count, contains, keys_of}
use sap_hana_compatibility_l.Types.Validate.{validate_value}
use sap_hana_compatibility_l.Types.Document.Valid.{HasKey, IsValid, validate_value-IsValid}

-- The entries of the map under the keys, in the order of the keys.
unfoldable pub select : List Bytes → Fields → Fields
select [] m = end
select (k ∷ keys) m = elim (lookup k m) [
  | none ↦ select keys m
  | some v ↦ field k v (select keys m)
]

unfoldable mutual
  unfolding select

  pub canon : Value → Value
  canon (document m keys) = document (select keys (canon_fields m)) keys
  canon (array xs) = array (canon_items xs)
  canon (double n) = double n
  canon (string s) = string s
  canon (binary t s) = binary t s
  canon (object_id s) = object_id s
  canon (bool b) = bool b
  canon (date_time t n) = date_time t 0
  canon null = null
  canon (regex p o) = regex p o
  canon (int32 n) = int32 n
  canon (timestamp n) = timestamp n
  canon (int64 n) = int64 n
  canon (cstring s) = cstring s
  canon other = other

  pub canon_items : Items → Items
  canon_items nil = nil
  canon_items (cons v xs) = cons (canon v) (canon_items xs)

  pub canon_fields : Fields → Fields
  canon_fields end = end
  canon_fields (field k v m) = field k (canon v) (canon_fields m)

-- The same of a document as such.
unfoldable pub canon_document : Document → Document
unfolding canon
canon_document d = record { m = select d.keys (canon_fields d.m); keys = d.keys }

pub lookup-canon_fields :
    (k : Bytes) (m : Fields) → lookup k (canon_fields m) ≡ Option.map canon (lookup k m)
unfolding lookup canon
lookup-canon_fields k end = refl
lookup-canon_fields k (field j v m) = elim (Bool-cases (bytes_eq j k)) [
  | inl e ↦ rw e
  | inr e ↦ rw e (lookup-canon_fields k m)
]

pub lookup-select :
    (k : Bytes) (keys : List Bytes) (m : Fields)
    → lookup k (select keys m) ≡ (if contains k keys then lookup k m else none)
unfolding contains select lookup
lookup-select k [] m = refl
lookup-select k (j ∷ keys) m = elim (Option-cases (lookup j m)) [
  | inl e ↦ ground (arith, bytes_eq_iff j k, lookup-select k keys m)
  | inr (v, e) ↦ ground (arith, bytes_eq_iff j k, lookup-select k keys m)
]

-- Under its keys, the document read back has the same values, each read back in turn.
pub lookup-canon :
    (k : Bytes) (d : Document)
    → contains k d.keys ≡ true
    → lookup k (canon_document d).m ≡ Option.map canon (lookup k d.m)
unfolding canon_document
lookup-canon k d h = lookup-select k d.keys (canon_fields d.m) ∙ rw h (lookup-canon_fields k d.m)

abbrev Found : Fields → List Bytes → Type 0
Found m keys = All (λ k. (v : Value) × (lookup k m ≡ some v)) keys

keys_of-select : (keys : List Bytes) (m : Fields) → Found m keys → keys_of (select keys m) ≡ keys
unfolding select keys_of
keys_of-select [] m h = refl
keys_of-select (k ∷ keys) m ((v, e), h) = ground (arith, e, keys_of-select keys m h)

count-select : (keys : List Bytes) (m : Fields) → Found m keys → count (select keys m) ≡ length keys
unfolding select count
count-select [] m h = refl
count-select (k ∷ keys) m ((v, e), h) = ground (arith, e, count-select keys m h)

-- What validates still validates when it is read back.
abbrev pub CanonIsValid : Value → Type 0
CanonIsValid v = validate_value v ≡ ok tt → validate_value (canon v) ≡ ok tt

-- Of each value in the map.
abbrev FieldsCanonIsValid : Fields → Type 0
FieldsCanonIsValid m = (k : Bytes) (v : Value) → lookup k m ≡ some v → CanonIsValid v

Found-keys : (m : Fields) (keys : List Bytes) → All (HasKey m) keys → Found m keys
Found-keys m [] h = tt
Found-keys m (k ∷ keys) h = ((h.0.value, h.0.found), Found-keys m keys h.1)

Found-canon : (m : Fields) (keys : List Bytes) → Found m keys → Found (canon_fields m) keys
Found-canon m [] h = tt
Found-canon m (k ∷ keys) ((v, e), h) =
    ((canon v, rw (lookup-canon_fields, e)), Found-canon m keys h)

-- Keys that are all among `all_keys`.
has_keys-canon :
    (m : Fields) (all_keys keys : List Bytes)
    → FieldsCanonIsValid m
    → All (λ k. contains k all_keys ≡ true) keys
    → All (HasKey m) keys
    → All (HasKey (select all_keys (canon_fields m))) keys
has_keys-canon m all_keys [] ih a h = tt
has_keys-canon m all_keys (k ∷ keys) ih (a, as₁) (h, hs) = (
  record {
    valid_key = h.valid_key;
    value = canon h.value;
    found = rw (lookup-select, a, lookup-canon_fields, h.found);
    valid_value = ih k h.value h.found h.valid_value;
  },
  has_keys-canon m all_keys keys ih as₁ hs,
)

contains_weaken :
    (j : Bytes) (all_keys keys : List Bytes)
    → All (λ k. contains k all_keys ≡ true) keys
    → All (λ k. contains k (j ∷ all_keys) ≡ true) keys
unfolding contains
contains_weaken j all_keys [] h = tt
contains_weaken j all_keys (k ∷ keys) h = (ground arith, contains_weaken j all_keys keys h.1)

contains_self : (keys : List Bytes) → All (λ k. contains k keys ≡ true) keys
unfolding contains
contains_self [] = tt
contains_self (k ∷ keys) =
    (ground (arith, bytes_eq_iff k k), contains_weaken k keys keys (contains_self keys))

canon-IsValid :
    (m : Fields) (keys : List Bytes)
    → FieldsCanonIsValid m
    → IsValid (record { m = m; keys = keys })
    → IsValid (record { m = select keys (canon_fields m); keys = keys })
canon-IsValid m keys ih v = record {
  same_size =
      count-select keys (canon_fields m) (Found-canon m keys (Found-keys m keys v.has_keys));
  distinct_keys = v.distinct_keys;
  has_keys = has_keys-canon m keys keys ih (contains_self keys) v.has_keys;
}

pub validate_value-canon : (v : Value) → CanonIsValid v
unfolding canon lookup
validate_value-canon v = elim v as CanonIsValid (λ _. Unit {0}) FieldsCanonIsValid [
  | document (m → ih) keys ↦ λ h.
      (validate_value-IsValid (select keys (canon_fields m)) keys).1
        (canon-IsValid m keys ih ((validate_value-IsValid m keys).0 h))
  | array xs ↦ λ h. unfold validate_value in refl
  | date_time t n ↦ λ h. unfold validate_value in refl
  | nil ↦ tt
  | cons w xs ↦ tt
  | end ↦ λ k w e. cc
  | field j (w → ihw) (m → ih) ↦ lookup_each CanonIsValid j w m ihw ih
  | w ↦ λ h. h
]

-- Reading back keeps a valid document valid.
pub canon_document-IsValid : (d : Document) → IsValid d → IsValid (canon_document d)
unfolding canon_document
canon_document-IsValid d v = canon-IsValid d.m d.keys (λ k w e. validate_value-canon w) v
