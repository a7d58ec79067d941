-- ===== src/Bson/RoundTrip.antt =====
-- internal/bson: what MarshalBinary writes, ReadFrom reads back.
use sap_hana_compatibility_l.Prelude.{
  ℕ, zero, suc, ◌+◌, ◌-◌, ◌%◌, ◌^◌, ◌<◌, ◌≤◌, List, [], ◌∷◌, ◌++◌, Bool, true, false, ◌≡◌, refl,
  arith, ap, ◌∙◌, Bytes, length, lengths, length-bytes_append, append_assoc, Outcome, ok, All, ◌==◌,
}
use sap_hana_compatibility_l.GoStd.{le_bytes, itoa}
use sap_hana_compatibility_l.GoStd.Laws.{NoZero, read_le-le_bytes, read_full_exact}
use sap_hana_compatibility_l.Types.Value.{
  Value, Items, Fields, document, array, double, string, binary, object_id, bool, date_time, null,
  regex, int32, timestamp, int64, cstring, other, nil, cons, end, field, Document, to_value,
}
use sap_hana_compatibility_l.Types.Fields.{
  lookup, lookup_each, contains, distinct, keys_of, append_fields, count, count-keys_of,
}
use sap_hana_compatibility_l.Types.Document.Valid.{
  HasKey, IsValid, validate-IsValid, validate_value-IsValid,
}
use sap_hana_compatibility_l.Bson.ScalarLaws.{
  string_read_from-marshal, bool_read_from-marshal, regex_read_from-marshal, length-string,
}
use sap_hana_compatibility_l.Bson.Scalar.{
  tag_document, tag_array, double_marshal_binary, int32_marshal_binary, int64_marshal_binary,
  date_time_marshal_binary,
}
use sap_hana_compatibility_l.Bson.Marshal.{
  write_elements, array_keys, marshal_value, marshal_at, document_marshal_binary,
}
use sap_hana_compatibility_l.Bson.MarshalLaws.{
  framed, length-framed, array_fields, marshal_value-document, marshal_value-array,
  document_marshal_binary-framed,
}
use sap_hana_compatibility_l.Bson.Indexes.{
  distinct-array_keys, NoZero-array_keys, keys_of-array_fields, canon_fields-array_fields,
  array_keys-canon_items, select-keys_of, length-array_keys, written-AllValid, collect-Holds,
  AllValid, size, Holds-array_fields,
}
use sap_hana_compatibility_l.Bson.Read.{
  max_document_len, read_scalar, is_document_len, read_document, read_value, document_read_from,
  array_of_document,
}
use sap_hana_compatibility_l.Bson.Canon.{
  select, canon, canon_items, canon_document, canon_document-IsValid, validate_value-canon,
}
use sap_hana_compatibility_l.Bson.Fits.{Fits, FitsFields, FitsItems}
use sap_hana_compatibility_l.Bson.Elements.{Reads, ReadsFields, read_elements-write, Fresh}

Fresh-end : (keys : List Bytes) → Fresh end keys
unfolding contains keys_of
Fresh-end [] = tt
Fresh-end (k ∷ keys) = (refl, Fresh-end keys)

-- A framed document is read back, as far as it reads its values back.
read_document-framed :
    (m : Fields) (keys : List Bytes) (elist rest : Bytes) (f : ℕ)
    → ReadsFields m
    → FitsFields m
    → All NoZero keys
    → IsValid (record { m = m; keys = keys })
    → write_elements (marshal_at m) keys ≡ ok elist
    → length elist + 5 ≤ max_document_len
    → length elist + 5 < f
    → read_document f (framed elist ++ rest)
      ≡ ok (canon_document (record { m = m; keys = keys }), rest)
unfolding read_document canon_document append_fields
read_document-framed m keys elist rest zero reads fits nz valid e le lt = absurd (omega arith)
read_document-framed m keys elist rest (suc f) reads fits nz valid e le lt =
    let l : ℕ = (length elist + 5) % 2 ^ 32 in
    let len : l ≡ length elist + 5 = omega arith in
    let body : Bytes = elist ++ 0 ∷ [] in
    let ok_len : is_document_len l ≡ true = ground arith in
    let size : length body ≡ l - 4 = omega (lengths, length-bytes_append elist (0 ∷ [])) in
    let d : Document = record { m = m; keys = keys } in
    rw (
      append_assoc (le_bytes 4 l) body rest,
      read_le-le_bytes 4 l (body ++ rest) (omega arith),
      ok_len,
      read_full_exact (l - 4) body rest size,
      read_elements-write m reads fits keys f end [] elist e nz valid.distinct_keys (Fresh-end keys)
          (omega arith) (omega arith),
      (validate-IsValid (canon_document d)).1 (canon_document-IsValid d valid),
    )

-- A document inside another.
Reads-document : (m : Fields) (keys : List Bytes) → ReadsFields m → Reads (document m keys)
unfolding read_value Fits
Reads-document m keys reads zero tag p rest e fits le lt = absurd (omega arith)
Reads-document m keys reads (suc f) tag p rest e fits le lt =
    let (elist, valid, written, t, pe) = marshal_value-document m keys tag p e in
    let size = length-framed elist in
    let len : length p ≡ length (framed elist) = ap (λ (bs : Bytes). length bs) pe in
    let d : Document = record { m = m; keys = keys } in
    let is_valid = (validate_value-IsValid m keys).0 valid in
    rw
      (
        t,
        pe,
        read_document-framed m keys elist rest f reads fits.0 fits.1 is_valid written (omega arith)
            (omega arith),
        (validate-IsValid (canon_document d)).1 (canon_document-IsValid d is_valid),
      )
      (unfold canon canon_document in refl)

FitsFields-array_fields : (i : ℕ) (xs : Items) → FitsItems xs → FitsFields (array_fields i xs)
unfolding Fits array_fields
FitsFields-array_fields i nil h = tt
FitsFields-array_fields i (cons v xs) h = (h.0, FitsFields-array_fields (i + 1) xs h.1)

AllValid-canon_items : (xs : Items) → AllValid xs → AllValid (canon_items xs)
unfolding canon_items
AllValid-canon_items nil h = tt
AllValid-canon_items (cons v xs) h = (validate_value-canon v h.0, AllValid-canon_items xs h.1)

-- The document of an array, read back, is that of the array read back.
canon_document-array :
    (xs : Items)
    → canon_document (record { m = array_fields 0 xs; keys = array_keys 0 xs })
      ≡ record { m = array_fields 0 (canon_items xs); keys = array_keys 0 (canon_items xs) }
unfolding canon_document
canon_document-array xs =
    let ys : Items = canon_items xs in
    let own : keys_of (array_fields 0 ys) ≡ array_keys 0 xs =
      keys_of-array_fields 0 ys ∙ array_keys-canon_items 0 xs in
    let dist : distinct (keys_of (array_fields 0 ys)) ≡ true =
      rw keys_of-array_fields (distinct-array_keys 0 ys) in
    let all : select (array_keys 0 xs) (array_fields 0 ys) ≡ array_fields 0 ys =
      rw (← own) (select-keys_of (array_fields 0 ys) dist) in
    rw (canon_fields-array_fields, all, array_keys-canon_items)

array_of_document-array :
    (ys : Items)
    → AllValid ys
    → array_of_document (record { m = array_fields 0 ys; keys = array_keys 0 ys }) ≡ ok ys
unfolding array_of_document
array_of_document-array ys valid =
    let n : count (array_fields 0 ys) ≡ size ys =
      count-keys_of (array_fields 0 ys) ∙ rw (keys_of-array_fields, length-array_keys) in
    rw (n, collect-Holds (array_fields 0 ys) 0 ys (Holds-array_fields 0 ys) valid)

-- The document of an array that is written is valid.
array-IsValid :
    (xs : Items)
    → All (HasKey (array_fields 0 xs)) (array_keys 0 xs)
    → IsValid (record { m = array_fields 0 xs; keys = array_keys 0 xs })
array-IsValid xs h = record {
  same_size = count-keys_of (array_fields 0 xs) ∙ rw keys_of-array_fields;
  distinct_keys = distinct-array_keys 0 xs;
  has_keys = h;
}

Reads-array : (xs : Items) → ReadsFields (array_fields 0 xs) → Reads (array xs)
unfolding read_value Fits
Reads-array xs reads zero tag p rest e fits le lt = absurd (omega arith)
Reads-array xs reads (suc f) tag p rest e fits le lt =
    let (elist, written, t, pe) = marshal_value-array xs tag p e in
    let size = length-framed elist in
    let len : length p ≡ length (framed elist) = ap (λ (bs : Bytes). length bs) pe in
    let m : Fields = array_fields 0 xs in
    let keys : List Bytes = array_keys 0 xs in
    let (valids, has) = written-AllValid m 0 xs elist (Holds-array_fields 0 xs) written in
    rw
      (
        t,
        pe,
        read_document-framed m keys elist rest f reads (FitsFields-array_fields 0 xs fits)
            (NoZero-array_keys 0 xs) (array-IsValid xs has) written (omega arith) (omega arith),
        canon_document-array xs,
        array_of_document-array (canon_items xs) (AllValid-canon_items xs valids),
      )
      (unfold canon in refl)

abbrev is_scalar : Value → Bool
is_scalar (document m keys) = false
is_scalar (array xs) = false
is_scalar _ = true

-- A scalar has a tag of its own, and the branch of that tag reads it.
abbrev ReadsScalar : Value → Type 0
ReadsScalar v =
    (tag : ℕ) (p rest : Bytes)
    → marshal_value v ≡ ok (tag, p)
    → Fits v
    → length p ≤ max_document_len
    → ((tag == tag_document) ≡ false)
      × ((tag == tag_array) ≡ false)
      × (read_scalar tag (p ++ rest) ≡ ok (canon v, rest))

pair_parts :
    {a t : ℕ} {b p : Bytes}
    → ◌≡◌ {A = Outcome (ℕ × Bytes)} (ok (a, b)) (ok (t, p))
    → (t ≡ a) × (p ≡ b)
pair_parts h = (ground arith, ground arith)

ReadsScalar-all : (v : Value) → is_scalar v ≡ true → ReadsScalar v
unfolding marshal_value read_scalar canon Fits
ReadsScalar-all (document m keys) s tag p rest e fits le = cc
ReadsScalar-all (array xs) s tag p rest e fits le = cc
ReadsScalar-all (double n) s tag p rest e fits le =
    let (t, b) = pair_parts e in
    rw (t, b) (refl, refl, unfold double_marshal_binary in rw (read_le-le_bytes 8 n rest fits))
ReadsScalar-all (string x) s tag p rest e fits le =
    let (t, b) = pair_parts e in
    let len : length p ≡ length x + 5 = ap (λ (bs : Bytes). length bs) b ∙ length-string x in
    rw (t, b) (refl, refl, rw (string_read_from-marshal x rest (omega arith)))
ReadsScalar-all (binary k x) s tag p rest e fits le = cc
ReadsScalar-all (object_id x) s tag p rest e fits le =
    let (t, b) = pair_parts e in rw (t, b) (refl, refl, rw (read_full_exact 12 x rest fits))
ReadsScalar-all (bool x) s tag p rest e fits le =
    let (t, b) = pair_parts e in rw (t, b) (refl, refl, rw (bool_read_from-marshal x rest))
ReadsScalar-all (date_time x n) s tag p rest e fits le =
    let (t, b) = pair_parts e in
    rw (t, b) (refl, refl, unfold date_time_marshal_binary in rw (read_le-le_bytes 8 x rest fits))
ReadsScalar-all null s tag p rest e fits le =
    let (t, b) = pair_parts e in rw (t, b) (refl, refl, refl)
ReadsScalar-all (regex x o) s tag p rest e fits le =
    let (t, b) = pair_parts e in
    rw (t, b) (refl, refl, rw (regex_read_from-marshal x o rest fits.0 fits.1))
ReadsScalar-all (int32 n) s tag p rest e fits le =
    let (t, b) = pair_parts e in
    rw (t, b) (refl, refl, unfold int32_marshal_binary in rw (read_le-le_bytes 4 n rest fits))
ReadsScalar-all (timestamp n) s tag p rest e fits le = cc
ReadsScalar-all (int64 n) s tag p rest e fits le =
    let (t, b) = pair_parts e in
    rw (t, b) (refl, refl, unfold int64_marshal_binary in rw (read_le-le_bytes 8 n rest fits))
ReadsScalar-all (cstring x) s tag p rest e fits le = cc
ReadsScalar-all other s tag p rest e fits le = cc

Reads-scalar : (v : Value) → is_scalar v ≡ true → Reads v
unfolding read_value
Reads-scalar v s zero tag p rest e fits le lt = absurd (omega arith)
Reads-scalar v s (suc f) tag p rest e fits le lt =
    let (a, b, r) = ReadsScalar-all v s tag p rest e fits le in rw (a, b) r

-- Every value is read back.
pub Reads-value : (v : Value) → Reads v
unfolding lookup array_fields
Reads-value v = elim v as Reads (λ xs. (i : ℕ) → ReadsFields (array_fields i xs)) ReadsFields [
  | document (m → ih) keys ↦ Reads-document m keys ih
  | array (xs → ih) ↦ Reads-array xs (ih 0)
  | nil ↦ λ i k w e. cc
  | cons (w → ihw) (xs → ih) ↦
      λ i. lookup_each Reads (itoa i) w (array_fields (i + 1) xs) ihw (ih (i + 1))
  | end ↦ λ k w e. cc
  | field j (w → ihw) (m → ih) ↦ lookup_each Reads j w m ihw ih
  | w ↦ Reads-scalar w refl
]

-- A valid document that BSON can hold, marshalled into at most the bytes that a document may have,
-- is read back up to the order of its maps, and whatever follows it is left to be read.
pub document_read_from-marshal :
    (d : Document) (b rest : Bytes)
    → IsValid d
    → Fits (to_value d)
    → document_marshal_binary d ≡ ok b
    → length b ≤ max_document_len
    → document_read_from (b ++ rest) ≡ ok (canon_document d, rest)
unfolding document_read_from Fits
document_read_from-marshal d b rest valid fits e le =
    let (elist, written, shape) = document_marshal_binary-framed d b e in
    let size = length-framed elist in
    let len : length b ≡ length (framed elist) = ap (λ (bs : Bytes). length bs) shape in
    rw shape (
      read_document-framed d.m d.keys elist rest (suc (length (framed elist ++ rest)))
        (λ k v h. Reads-value v) fits.0 fits.1 valid written (omega arith)
        (omega (lengths, length-bytes_append (framed elist) rest)))
