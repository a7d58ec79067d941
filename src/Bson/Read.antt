-- ===== src/Bson/Read.antt =====
-- internal/bson/{document,array}.go: the ReadFrom methods of documents and arrays.
use sap_hana_compatibility_l.Prelude.{
  ℕ, zero, suc, ◌+◌, ◌-◌, List, [], ◌∷◌, ◌++◌, Bool, not, ◌||◌, none, some, ltb, ◌==◌,
  if◌then◌else◌, Bytes, bytes_eq, length, Outcome, ok, err, panicked, stuck, ◌>>=◌, ◌>>◌, guard,
  eof, invalid_length, unexpected_end, unhandled_tag, bad_array_key, missing_element,
}
use sap_hana_compatibility_l.GoStd.{read_le, read_full, is_negative32, itoa}
use sap_hana_compatibility_l.Types.Value.{
  Value, Items, Fields, document, array, double, string, object_id, bool, date_time, null, regex,
  int32, int64, nil, cons, end, Document,
}
use sap_hana_compatibility_l.Types.Fields.{lookup, insert, count}
use sap_hana_compatibility_l.Types.Validate.{validate_value, validate}
use sap_hana_compatibility_l.Bson.Scalar.{
  tag_double, tag_string, tag_document, tag_array, tag_object_id, tag_bool, tag_date_time, tag_null,
  tag_regex, tag_int32, tag_int64, cstring_read_from, string_read_from, object_id_read_from,
  bool_read_from, regex_read_from, int32_read_from, int64_read_from, double_read_from,
  date_time_read_from,
}

abbrev pub max_document_len : ℕ
max_document_len = 16777216

abbrev pub min_document_len : ℕ
min_document_len = 5

-- The loop of `Array.ReadFrom`: `n` rounds from index `i` on, `keys` are `doc.keys[i:]`. `Append`
-- validates the value.
unfoldable pub collect : ℕ → ℕ → List Bytes → Fields → Outcome Items
collect zero i keys m = ok nil
collect (suc n) i [] m = panicked
collect (suc n) i (k ∷ keys) m = do
  guard (bytes_eq k (itoa i)) bad_array_key
  v ← elim (lookup (itoa i) m) [ none ↦ err missing_element | some v ↦ ok v ]
  validate_value v
  xs ← collect n (i + 1) keys m
  ok (cons v xs)

-- `Array.ReadFrom`, after it has read the document.
unfoldable pub array_of_document : Document → Outcome Items
unfolding collect
array_of_document d = collect (count d.m) 0 d.keys d.m

-- The tags of the scalar types, and the tags that are refused.
unfoldable pub read_scalar : ℕ → Bytes → Outcome (Value × Bytes)
unfolding double_read_from string_read_from object_id_read_from bool_read_from date_time_read_from
    regex_read_from int32_read_from int64_read_from
read_scalar tag bs =
    if tag == tag_double
    then double_read_from bs >>= (λ (v, rest). ok (double v, rest))
    else if tag == tag_string
    then string_read_from bs >>= (λ (v, rest). ok (string v, rest))
    else if tag == tag_object_id
    then object_id_read_from bs >>= (λ (v, rest). ok (object_id v, rest))
    else if tag == tag_bool
    then bool_read_from bs >>= (λ (v, rest). ok (bool v, rest))
    else if tag == tag_date_time
    then date_time_read_from bs >>= (λ ((t, n), rest). ok (date_time t n, rest))
    else if tag == tag_null
    then ok (null, bs)
    else if tag == tag_regex
    then regex_read_from bs >>= (λ ((p, o), rest). ok (regex p o, rest))
    else if tag == tag_int32
    then int32_read_from bs >>= (λ (v, rest). ok (int32 v, rest))
    else if tag == tag_int64
    then int64_read_from bs >>= (λ (v, rest). ok (int64 v, rest))
    else err unhandled_tag

-- What a document's length field may hold.
abbrev pub is_document_len : ℕ → Bool
is_document_len l = not (is_negative32 l || ltb l min_document_len || ltb max_document_len l)

-- After the terminating zero nothing may follow.
unfoldable pub end_of_document : Document → Bytes → Outcome Document
end_of_document d [] = ok d
end_of_document d (b ∷ bs) = err unexpected_end

-- The reads nest as deep as the documents, and a nested document's bytes are no structural part of
-- the outer one's: each call costs a unit of fuel.
unfoldable mutual
  unfolding cstring_read_from read_scalar array_of_document validate end_of_document

  -- `Document.ReadFrom`
  pub read_document : ℕ → Bytes → Outcome (Document × Bytes)
  read_document zero bs = stuck
  read_document (suc f) bs = do
    (l, r) ← read_le 4 bs
    guard (is_document_len l) invalid_length
    (b, rest) ← read_full (l - 4) r
    d ← read_elements f end [] b
    validate d
    ok (d, rest)

  -- Its loop, over what is left of the buffer.
  pub read_elements : ℕ → Fields → List Bytes → Bytes → Outcome Document
  read_elements zero m keys b = stuck
  read_elements (suc f) m keys [] = err eof
  read_elements (suc f) m keys (t ∷ b) =
      let element = do
        (ename, r) ← cstring_read_from b
        (v, rest) ← read_value f t r
        read_elements f (insert ename v m) (keys ++ ename ∷ []) rest
      in if t == 0 then end_of_document (record { m = m; keys = keys }) b else element

  -- The value of an element, by its tag.
  pub read_value : ℕ → ℕ → Bytes → Outcome (Value × Bytes)
  read_value zero tag bs = stuck
  read_value (suc f) tag bs =
      let embedded = do (d, rest) ← read_document f bs; validate d; ok (document d.m d.keys, rest)
      in let embedded_array = do
        (d, rest) ← read_document f bs
        xs ← array_of_document d
        ok (array xs, rest)
        in if tag == tag_document
          then embedded
          else if tag == tag_array
          then embedded_array
          else read_scalar tag bs

-- `Document.ReadFrom` on the bytes of a reader; a unit of fuel for each byte and one more.
unfoldable pub document_read_from : Bytes → Outcome (Document × Bytes)
document_read_from bs = read_document (suc (length bs)) bs
