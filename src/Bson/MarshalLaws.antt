-- ===== src/Bson/MarshalLaws.antt =====
-- internal/bson/{document,array}.go: facts about the writers that the round trip rests on.
use sap_hana_compatibility_l.Prelude.{
  ℕ, ◌+◌, ◌%◌, ◌^◌, ◌<◌, List, [], ◌∷◌, ◌++◌, false, none, some, ◌≡◌, refl, arith, ◌∙◌, Bytes,
  bytes_eq, bytes_eq_iff, length, lengths, length-bytes_append, ok, ◌>>=◌, ◌>>◌, >>=-eq-ok,
  >>-eq-ok, Option-cases, inl, inr, ==_refl,
}
use mathlib.Core.Path.{fun_ext}
use sap_hana_compatibility_l.GoStd.{le_bytes, itoa}
use sap_hana_compatibility_l.GoStd.Laws.{length-le_bytes}
use sap_hana_compatibility_l.Types.Value.{
  Value, Items, Fields, document, array, other, nil, cons, end, field, Document,
}
use sap_hana_compatibility_l.Types.Fields.{lookup}
use sap_hana_compatibility_l.Types.Validate.{validate_value}
use sap_hana_compatibility_l.Bson.Scalar.{cstring_marshal_binary, tag_document, tag_array}
use sap_hana_compatibility_l.Bson.Marshal.{
  write_elements, frame, array_keys, marshal_value, marshal_at, marshal_index,
  document_marshal_binary,
}

-- The bytes of a document whose elements are written.
abbrev pub framed : Bytes → Bytes
framed elist = le_bytes 4 ((length elist + 5) % 2 ^ 32) ++ (elist ++ 0 ∷ [])

pub length-framed : (elist : Bytes) → length (framed elist) ≡ length elist + 5
length-framed elist = omega (
  lengths,
  length-le_bytes 4 ((length elist + 5) % 2 ^ 32),
  length-bytes_append (le_bytes 4 ((length elist + 5) % 2 ^ 32)) (elist ++ 0 ∷ []),
  length-bytes_append elist (0 ∷ []),
)

-- The length check of `MarshalBinary` never fails.
pub frame_lem : (elist : Bytes) → frame elist ≡ ok (framed elist)
unfolding frame
frame_lem elist = rw (length-framed, ==_refl)

pub marshal_at-some :
    (m : Fields) (key : Bytes) (v : Value)
    → lookup key m ≡ some v
    → marshal_at m key ≡ some (marshal_value v)
unfolding lookup marshal_at
marshal_at-some end key v h = cc
marshal_at-some (field j w m) key v h = ground (arith, marshal_at-some m key v)

pub marshal_at-none : (m : Fields) (key : Bytes) → lookup key m ≡ none → marshal_at m key ≡ none
unfolding lookup marshal_at
marshal_at-none end key h = refl
marshal_at-none (field j w m) key h = ground (arith, marshal_at-none m key)

-- A first entry under another key is passed over, and one under the key is taken.
pub marshal_at_skip :
    (k j : Bytes) (v : Value) (m : Fields)
    → bytes_eq k j ≡ false
    → marshal_at (field k v m) j ≡ marshal_at m j
unfolding marshal_at
marshal_at_skip k j v m h = ground arith

pub marshal_at_self :
    (k : Bytes) (v : Value) (m : Fields) → marshal_at (field k v m) k ≡ some (marshal_value v)
unfolding marshal_at
marshal_at_self k v m = ground (arith, bytes_eq_iff k k)

-- One round of the loop, when the whole loop succeeds.
pub write_elements-cons :
    (m : Fields) (key : Bytes) (keys : List Bytes) (elist : Bytes)
    → write_elements (marshal_at m) (key ∷ keys) ≡ ok elist
    → (v : Value) × (tag : ℕ) × (payload : Bytes) × (more : Bytes) × (lookup key m ≡ some v)
      × (marshal_value v ≡ ok (tag, payload))
      × (write_elements (marshal_at m) keys ≡ ok more)
      × (elist ≡ tag ∷ (cstring_marshal_binary key ++ (payload ++ more)))
unfolding write_elements
write_elements-cons m key keys elist h = elim (Option-cases (lookup key m)) [
  | inl e ↦ let h' = rw (marshal_at-none m key e) at h in cc
  | inr (v, e) ↦
      let ((tag, payload), p, h1) =
        >>=-eq-ok (marshal_value v) _ (rw (marshal_at-some m key v e) at h) in
      let (more, q, h2) = >>=-eq-ok (write_elements (marshal_at m) keys) _ h1 in
      (v, tag, payload, more, e, p, q, cc)
]

-- The map that `Array.MarshalBinary` fills: the values under their indexes, from `i` on.
unfoldable pub array_fields : ℕ → Items → Fields
array_fields i nil = end
array_fields i (cons v xs) = field (itoa i) v (array_fields (i + 1) xs)

pub marshal_index-array_fields :
    (xs : Items) (i : ℕ) (key : Bytes) → marshal_index xs i key ≡ marshal_at (array_fields i xs) key
unfolding marshal_index array_fields marshal_at
marshal_index-array_fields nil i key = refl
marshal_index-array_fields (cons v xs) i key =
    ground (arith, marshal_index-array_fields xs (i + 1) key)

-- What is marshalled has been validated, as far as it can be invalid.
pub marshal_value-valid :
    (v : Value) (tag : ℕ) (p : Bytes) → marshal_value v ≡ ok (tag, p) → validate_value v ≡ ok tt
unfolding marshal_value validate_value
marshal_value-valid (document m keys) tag p h = (>>-eq-ok (validate_value (document m keys)) _ h).0
marshal_value-valid other tag p h = cc
marshal_value-valid _ tag p h = refl

-- What is known of a document, or an array, that is marshalled.
pub marshal_value-document :
    (m : Fields) (keys : List Bytes) (tag : ℕ) (p : Bytes)
    → marshal_value (document m keys) ≡ ok (tag, p)
    → (elist : Bytes) × (validate_value (document m keys) ≡ ok tt)
      × (write_elements (marshal_at m) keys ≡ ok elist)
      × (tag ≡ tag_document)
      × (p ≡ framed elist)
unfolding marshal_value
marshal_value-document m keys tag p h =
    let (valid, h1) = >>-eq-ok (validate_value (document m keys)) _ h in
    let (elist, e, h2) = >>=-eq-ok (write_elements (marshal_at m) keys) _ h1 in
    let h3 = rw (frame_lem elist) at h2 in (elist, valid, e, ground arith, ground arith)

pub marshal_value-array :
    (xs : Items) (tag : ℕ) (p : Bytes)
    → marshal_value (array xs) ≡ ok (tag, p)
    → (elist : Bytes) × (write_elements (marshal_at (array_fields 0 xs)) (array_keys 0 xs)
        ≡ ok elist)
      × (tag ≡ tag_array)
      × (p ≡ framed elist)
unfolding marshal_value
marshal_value-array xs tag p h =
    let same : marshal_index xs 0 ≡ marshal_at (array_fields 0 xs) =
      fun_ext (marshal_index-array_fields xs 0) in
    let (elist, e, h1) = >>=-eq-ok (write_elements (marshal_index xs 0) (array_keys 0 xs)) _ h in
    let h2 = rw (frame_lem elist) at h1 in (elist, rw (← same) e, ground arith, ground arith)

-- No tag is the byte that ends a document.
pub marshal_value-tag : (v : Value) (tag : ℕ) (p : Bytes) → marshal_value v ≡ ok (tag, p) → 0 < tag
unfolding marshal_value
marshal_value-tag (document m keys) tag p h =
    let (elist, _, _, t, _) = marshal_value-document m keys tag p h in omega arith
marshal_value-tag (array xs) tag p h =
    let (elist, _, t, _) = marshal_value-array xs tag p h in omega arith
marshal_value-tag _ tag p h = ground arith

-- What is known of a document whose `MarshalBinary` succeeds.
pub document_marshal_binary-framed :
    (d : Document) (b : Bytes)
    → document_marshal_binary d ≡ ok b
    → (elist : Bytes) × (write_elements (marshal_at d.m) d.keys ≡ ok elist) × (b ≡ framed elist)
unfolding document_marshal_binary
document_marshal_binary-framed d b h =
    let (elist, e, h1) = >>=-eq-ok (write_elements (marshal_at d.m) d.keys) frame h in
    (elist, e, ground (arith, h1, frame_lem elist))

marshal_value-step :
    (m : Fields) (keys : List Bytes)
    → marshal_value (document m keys) ≡ (
        validate_value (document m keys)
        >> (write_elements (marshal_at m) keys
            >>= (λ elist. frame elist >>= (λ b. ok (tag_document, b)))))
unfolding marshal_value
marshal_value-step m keys = refl

marshal_array_step :
    (xs : Items)
    → marshal_value (array xs) ≡ (
        write_elements (marshal_index xs 0) (array_keys 0 xs)
        >>= (λ elist. frame elist >>= (λ b. ok (tag_array, b))))
unfolding marshal_value
marshal_array_step xs = refl

-- The other way round: elements that are written, framed.
pub marshal_value-framed :
    (m : Fields) (keys : List Bytes) (elist : Bytes)
    → validate_value (document m keys) ≡ ok tt
    → write_elements (marshal_at m) keys ≡ ok elist
    → marshal_value (document m keys) ≡ ok (tag_document, framed elist)
marshal_value-framed m keys elist v e = marshal_value-step m keys ∙ rw (v, e, frame_lem)

pub marshal_array-framed :
    (xs : Items) (elist : Bytes)
    → write_elements (marshal_at (array_fields 0 xs)) (array_keys 0 xs) ≡ ok elist
    → marshal_value (array xs) ≡ ok (tag_array, framed elist)
marshal_array-framed xs elist e =
    let same : marshal_index xs 0 ≡ marshal_at (array_fields 0 xs) =
      fun_ext (marshal_index-array_fields xs 0) in
    marshal_array_step xs ∙ rw (same, e, frame_lem)

pub document_marshal_binary_lem :
    (d : Document) (elist : Bytes)
    → write_elements (marshal_at d.m) d.keys ≡ ok elist
    → document_marshal_binary d ≡ ok (framed elist)
unfolding document_marshal_binary
document_marshal_binary_lem d elist e = rw (e, frame_lem)
