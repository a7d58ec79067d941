-- ===== src/Bson/Elements.antt =====
-- internal/bson/document.go: the loop of `ReadFrom` over the elements that `MarshalBinary` wrote.
use sap_hana_compatibility_l.Prelude.{
  ℕ, zero, suc, ◌+◌, ◌<◌, ◌≤◌, List, [], ◌∷◌, ◌++◌, true, false, some, ◌≡◌, refl, arith, ap, Bytes,
  bytes_eq_iff, length, lengths, length-bytes_append, append_assoc, append-nil, ok, All, ◌==◌,
}
use sap_hana_compatibility_l.GoStd.Laws.{NoZero}
use sap_hana_compatibility_l.Types.Value.{Value, Fields, end, field}
use sap_hana_compatibility_l.Types.Fields.{
  lookup, lookup_each, insert_new, contains, distinct, keys_of, append_fields, append_fields_assoc,
  append_fields-end, keys_of-append_fields, contains-append,
}
use sap_hana_compatibility_l.Bson.Scalar.{cstring_marshal_binary}
use sap_hana_compatibility_l.Bson.ScalarLaws.{cstring_read_from-marshal}
use sap_hana_compatibility_l.Bson.Marshal.{write_elements, marshal_value, marshal_at}
use sap_hana_compatibility_l.Bson.MarshalLaws.{write_elements-cons, marshal_value-tag}
use sap_hana_compatibility_l.Bson.Read.{max_document_len, read_elements, read_value}
use sap_hana_compatibility_l.Bson.Canon.{select, canon, canon_fields, lookup-canon_fields}
use sap_hana_compatibility_l.Bson.Fits.{Fits, FitsFields}

-- With fuel enough, a marshalled value is read back, and what follows it is left.
abbrev pub Reads : Value → Type 0
Reads v =
    (f tag : ℕ) (payload rest : Bytes)
    → marshal_value v ≡ ok (tag, payload)
    → Fits v
    → length payload ≤ max_document_len
    → length payload + 1 < f
    → read_value f tag (payload ++ rest) ≡ ok (canon v, rest)

abbrev pub ReadsFields : Fields → Type 0
ReadsFields m = (k : Bytes) (v : Value) → lookup k m ≡ some v → Reads v

pub FitsFields-lookup :
    (m : Fields) → FitsFields m → (k : Bytes) (v : Value) → lookup k m ≡ some v → Fits v
unfolding Fits
FitsFields-lookup end h k v e = unfold lookup in cc
FitsFields-lookup (field j w m) (p, h) k v e =
    lookup_each Fits j w m p (FitsFields-lookup m h) k v e

-- One element of the loop of `Document.ReadFrom`.
read_elements-element :
    (f tag : ℕ) (m₀ : Fields) (keys₀ : List Bytes) (key payload more : Bytes) (w : Value)
    → 0 < tag
    → NoZero key
    → contains key (keys_of m₀) ≡ false
    → read_value f tag (payload ++ (more ++ 0 ∷ [])) ≡ ok (w, more ++ 0 ∷ [])
    → read_elements
        (suc f)
        m₀
        keys₀
        ((tag ∷ (cstring_marshal_binary key ++ (payload ++ more))) ++ 0 ∷ [])
      ≡ read_elements f (append_fields m₀ (field key w end)) (keys₀ ++ key ∷ []) (more ++ 0 ∷ [])
unfolding read_elements
read_elements-element f tag m₀ keys₀ key payload more w pos nz new e =
    let not_end : (tag == 0) ≡ false = ground arith in
    rw (
      not_end,
      append_assoc (cstring_marshal_binary key) (payload ++ more) (0 ∷ []),
      append_assoc payload more (0 ∷ []),
      cstring_read_from-marshal key (payload ++ (more ++ 0 ∷ [])) nz,
      e,
      insert_new key w m₀ new,
    )

-- None of the keys is in the map yet.
abbrev pub Fresh : Fields → List Bytes → Type 0
Fresh m₀ keys = All (λ k. contains k (keys_of m₀) ≡ false) keys

Fresh-next :
    (m₀ : Fields) (key : Bytes) (w : Value) (keys : List Bytes)
    → contains key keys ≡ false
    → Fresh m₀ keys
    → Fresh (append_fields m₀ (field key w end)) keys
unfolding contains keys_of
Fresh-next m₀ key w [] n h = tt
Fresh-next m₀ key w (k ∷ keys) n h = (
  ground (
    arith,
    keys_of-append_fields m₀ (field key w end),
    contains-append k (keys_of m₀) (key ∷ []),
    bytes_eq_iff k key,
    bytes_eq_iff key k,
  ),
  Fresh-next m₀ key w keys (ground arith) h.1,
)

ended :
    (f : ℕ) (m₀ : Fields) (keys₀ : List Bytes)
    → read_elements (suc f) m₀ keys₀ (0 ∷ []) ≡ ok (record { m = m₀; keys = keys₀ })
unfolding read_elements
ended f m₀ keys₀ = refl

sizes :
    (elist : Bytes) (tag : ℕ) (key payload more : Bytes)
    → elist ≡ tag ∷ (cstring_marshal_binary key ++ (payload ++ more))
    → length elist ≡ length key + length payload + length more + 2
unfolding cstring_marshal_binary
sizes elist tag key payload more e = omega (
  lengths,
  ap (λ (bs : Bytes). length bs) e,
  length-bytes_append (key ++ 0 ∷ []) (payload ++ more),
  length-bytes_append payload more,
  length-bytes_append key (0 ∷ []),
)

distinct_parts :
    (key : Bytes) (keys : List Bytes)
    → distinct (key ∷ keys) ≡ true
    → (contains key keys ≡ false) × (distinct keys ≡ true)
unfolding distinct
distinct_parts key keys h = ground arith

module _ (m : Fields) (reads : ReadsFields m) (fits : FitsFields m) where
  select_next :
      (key : Bytes) (keys : List Bytes) (v : Value)
      → lookup key m ≡ some v
      → select (key ∷ keys) (canon_fields m) ≡ field key (canon v) (select keys (canon_fields m))
  unfolding select
  select_next key keys v e = ground (arith, e, lookup-canon_fields key m)

  pub read_elements-write :
      (keys : List Bytes) (f : ℕ) (m₀ : Fields) (keys₀ : List Bytes) (elist : Bytes)
      → write_elements (marshal_at m) keys ≡ ok elist
      → All NoZero keys
      → distinct keys ≡ true
      → Fresh m₀ keys
      → length elist ≤ max_document_len
      → length elist + 1 < f
      → read_elements f m₀ keys₀ (elist ++ 0 ∷ [])
        ≡ ok (record { m = append_fields m₀ (select keys (canon_fields m)); keys = keys₀ ++ keys })
  read_elements-write keys zero m₀ keys₀ elist e nz d fr le lt = absurd (omega arith)
  read_elements-write [] (suc f) m₀ keys₀ elist e nz d fr le lt =
      let none_written : elist ≡ [] = unfold write_elements in ground arith in
      rw (none_written, append-nil) (unfold select in rw append_fields-end (ended f m₀ keys₀))
  read_elements-write (key ∷ keys) (suc f) m₀ keys₀ elist e nz d fr le lt =
      let (v, tag, payload, more, found, mv, ok_more, shape) =
        write_elements-cons m key keys elist e in
      let size = sizes elist tag key payload more shape in
      let read =
        reads key v found f tag payload (more ++ 0 ∷ []) mv (FitsFields-lookup m fits key v found)
          (omega arith) (omega arith) in
      let (new, dist) = distinct_parts key keys d in
      rw
        (
          shape,
          read_elements-element f tag m₀ keys₀ key payload more (canon v)
              (marshal_value-tag v tag payload mv) nz.0 fr.0 read,
          read_elements-write keys f (append_fields m₀ (field key (canon v) end))
              (keys₀ ++ key ∷ []) more ok_more nz.1 dist (Fresh-next m₀ key (canon v) keys new fr.1)
              (omega arith) (omega arith),
          select_next key keys v found,
          append_fields_assoc,
          append_assoc,
        )
        (unfold append_fields in refl)
