-- ===== src/Bson/Sound.antt =====
-- internal/bson: ReadFrom on any bytes. It ends in a document or in an error, and what it accepts is
-- exactly what MarshalBinary writes of the document that it returns.
use sap_hana_compatibility_l.Prelude.{
  ℕ, zero, suc, ◌+◌, ◌-◌, ◌%◌, ◌^◌, ◌<◌, ◌≤◌, List, [], ◌∷◌, ◌++◌, append_assoc, true, ◌≡◌, refl,
  arith, ap, sym, subst, ◌∙◌, ◌⊎◌, ◌==◌, ==_iff, Bytes, length, lengths, length-bytes_append, All,
  All-back, All-front, Error, ok, err, Ensures, holds, failed, Ensures-bind, Ensures-map,
  Ensures-guard, Ensures-if, Ensures-cases, Ensures-ok, Ensures-eq, invalid_length, inl, inr,
}
use sap_hana_compatibility_l.GoStd.{le_bytes}
use sap_hana_compatibility_l.GoStd.Laws.{IsByte, length-le_bytes}
use sap_hana_compatibility_l.GoStd.Reads.{read_full-Ensures, read_le-Ensures}
use sap_hana_compatibility_l.Types.Value.{Items, Fields, Document, document, array, end}
use sap_hana_compatibility_l.Types.Fields.{append_fields, keys_of, count, insert}
use sap_hana_compatibility_l.Bson.Indexes.{Holds}
use sap_hana_compatibility_l.Bson.ScalarLaws.{length-cstring}
use sap_hana_compatibility_l.Types.Validate.{validate}
use sap_hana_compatibility_l.Types.Document.Valid.{IsValid, validate_value-IsValid}
use sap_hana_compatibility_l.Bson.Scalar.{tag_document, tag_array, cstring_marshal_binary}
use sap_hana_compatibility_l.Bson.Marshal.{
  write_elements, array_keys, marshal_at, document_marshal_binary,
}
use sap_hana_compatibility_l.Bson.MarshalLaws.{
  length-framed, framed, array_fields, marshal_value-framed, marshal_array-framed,
  document_marshal_binary_lem,
}
use sap_hana_compatibility_l.Bson.Read.{
  is_document_len, max_document_len, array_of_document, end_of_document, read_document,
  read_elements, read_value, document_read_from,
}
use sap_hana_compatibility_l.Bson.ScalarSound.{cstring-Ensures, Written, read_scalar-Ensures}
use sap_hana_compatibility_l.Bson.Calm.{validate_value-Calm, collect-Ensures, fields-array_fields}
use sap_hana_compatibility_l.Bson.ElementsSound.{
  ElementsWritten, ElementsWritten-end, ElementsWritten-element,
}

-- The bytes begin with those of the document, which is valid and has its map in its keys' order.
record DocumentWritten (bs : Bytes) (d : Document) (rest : Bytes) : Type 0 where
  elist : Bytes
  written : write_elements (marshal_at d.m) d.keys ≡ ok elist
  shape : bs ≡ framed elist ++ rest
  is_valid : IsValid d
  in_order : keys_of d.m ≡ d.keys

-- What the body of `ReadFrom` has read, put together again.
document_parts :
    (bs r b rest : Bytes) (l : ℕ) (d : Document)
    → bs ≡ le_bytes 4 l ++ r
    → is_document_len l ≡ true
    → r ≡ b ++ rest
    → length b ≡ l - 4
    → ElementsWritten end [] b d
    → IsValid d
    → DocumentWritten bs d rest
document_parts bs r b rest l d p ok_len q len (keys, elist, body, all, more) valid =
    let (n, whole, own, written) = more valid.distinct_keys (unfold keys_of in refl) in
    let same : d.m ≡ n = whole ∙ (unfold append_fields in refl) in
    let size : length b ≡ length elist + 1 =
      ap (λ (xs : Bytes). length xs) body ∙ omega (lengths, length-bytes_append elist (0 ∷ [])) in
    let low : 5 ≤ l = ground arith in
    let high : l ≤ max_document_len = ground arith in
    let field_is : (length elist + 5) % 2 ^ 32 ≡ l = omega arith in
    record {
      elist = elist;
      written = rw (same, all) written;
      shape = p ∙ rw (field_is, q, body) (sym (append_assoc (le_bytes 4 l) (elist ++ 0 ∷ []) rest));
      is_valid = valid;
      in_order = rw (same, own, all);
    }

validate-Ensures : (d : Document) → Ensures (λ _. IsValid d) (validate d)
unfolding validate
validate-Ensures d =
    Ensures-map (λ _ e. (validate_value-IsValid d.m d.keys).0 e)
      (Ensures-eq (validate_value-Calm (document d.m d.keys)))

-- A document, and an array, as the value of an element.
document_value :
    (tag : ℕ) (bs rest : Bytes) (d : Document)
    → (tag == tag_document) ≡ true
    → DocumentWritten bs d rest
    → Written tag bs (document d.m d.keys, rest)
document_value tag bs rest d e w =
    let valid = (validate_value-IsValid d.m d.keys).1 w.is_valid in
    (
      framed w.elist,
      marshal_value-framed d.m d.keys w.elist valid w.written
          ∙ ap (λ k. ok (k, framed w.elist)) (sym ((==_iff tag tag_document).0 e)),
      w.shape,
    )

array_value :
    (tag : ℕ) (bs rest : Bytes) (d : Document)
    → (tag == tag_array) ≡ true
    → DocumentWritten bs d rest
    → Ensures (λ xs. Written tag bs (array xs, rest)) (array_of_document d)
unfolding array_of_document
array_value tag bs rest d e w =
    Ensures-map finish (collect-Ensures (count d.m) 0 d.keys d.m w.is_valid.same_size)
  where
    finish :
        (xs : Items) → (d.keys ≡ array_keys 0 xs) × Holds d.m 0 xs → Written tag bs (array xs, rest)
    finish xs (p, h) =
        let same : d.m ≡ array_fields 0 xs = fields-array_fields d.m 0 xs (w.in_order ∙ p) h in
        (
          framed w.elist,
          marshal_array-framed xs w.elist (rw (← same, ← p) w.written)
              ∙ ap (λ k. ok (k, framed w.elist)) (sym ((==_iff tag tag_array).0 e)),
          w.shape,
        )

-- What is left is bytes again, and no more than there was.
rest_of :
    (bs front rest : Bytes)
    → All IsByte bs
    → bs ≡ front ++ rest
    → All IsByte rest × (length bs ≡ length front + length rest)
rest_of bs front rest h e = (
  All-back IsByte front rest (rw e at h),
  ap (λ (xs : Bytes). length xs) e ∙ length-bytes_append front rest,
)

end-Ensures :
    (m : Fields) (keys : List Bytes) (t : ℕ) (b : Bytes)
    → (t == 0) ≡ true
    → Ensures (ElementsWritten m keys (t ∷ b)) (end_of_document (record { m = m; keys = keys }) b)
unfolding end_of_document
end-Ensures m keys t [] e = holds (
    subst (λ z. ElementsWritten m keys (z ∷ []) (record { m = m; keys = keys }))
      (sym ((==_iff t 0).0 e)) (ElementsWritten-end m keys))
end-Ensures m keys t (x ∷ b) e = failed

mutual
  unfolding read_document

  sound-document :
      (f : ℕ) (bs : Bytes)
      → All IsByte bs
      → length bs < f
      → Ensures (λ (d, rest). DocumentWritten bs d rest) (read_document f bs)
  sound-document zero bs h lt = absurd (omega arith)
  sound-document (suc f) bs h lt = Ensures-bind (read_le-Ensures 4 bs h) λ (l, r) p.
      let (hr, len_r) = rest_of bs (le_bytes 4 l) r h p in
      Ensures-bind (Ensures-guard (is_document_len l) invalid_length) λ _ ok_len.
        Ensures-bind (read_full-Ensures (l - 4) r) λ (b, rest) (q, len).
          let four = length-le_bytes 4 l in
          let len_b = ap (λ (xs : Bytes). length xs) q ∙ length-bytes_append b rest in
          let hb : All IsByte b = All-front IsByte b rest (rw q at hr) in
          Ensures-bind (sound-elements f end [] b hb (omega arith)) λ d els.
            Ensures-bind (validate-Ensures d)
              λ _ valid. holds (document_parts bs r b rest l d p ok_len q len els valid)

  sound-elements :
      (f : ℕ) (m : Fields) (keys : List Bytes) (bs : Bytes)
      → All IsByte bs
      → length bs < f
      → Ensures (ElementsWritten m keys bs) (read_elements f m keys bs)
  sound-elements zero m keys bs h lt = absurd (omega arith)
  sound-elements (suc f) m keys [] h lt = failed
  sound-elements (suc f) m keys (t ∷ b) h lt = Ensures-if (t == 0) (end-Ensures m keys t b) λ _.
      Ensures-bind (cstring-Ensures b) λ (ename, r) p.
        let (hr, len_r) = rest_of b (cstring_marshal_binary ename) r h.1 p in
        let some_bytes = length-cstring ename in
        Ensures-bind (sound-value f t r hr (omega arith)) λ (v, rest) (payload, mv, q).
          let (hrest, len_rest) = rest_of r payload rest hr q in
          Ensures-map
            (λ d els. ElementsWritten-element m keys ename v t b r rest payload d p mv q els)
            (sound-elements f (insert ename v m) (keys ++ ename ∷ []) rest hrest (omega arith))

  sound-value :
      (f tag : ℕ) (bs : Bytes)
      → All IsByte bs
      → length bs + 1 < f
      → Ensures (Written tag bs) (read_value f tag bs)
  sound-value zero tag bs h lt = absurd (omega arith)
  sound-value (suc f) tag bs h lt =
      Ensures-if (tag == tag_document)
        (λ e. Ensures-bind (sound-document f bs h (omega arith)) λ (d, rest) w.
          Ensures-bind (validate-Ensures d) λ _ _. holds (document_value tag bs rest d e w))
        λ _.
          Ensures-if (tag == tag_array)
            (λ e.
              Ensures-bind (sound-document f bs h (omega arith))
                λ (d, rest) w. Ensures-bind (array_value tag bs rest d e w) λ xs done. holds done)
            λ _. read_scalar-Ensures tag bs h

sound :
    (bs : Bytes)
    → All IsByte bs
    → Ensures (λ (d, rest). DocumentWritten bs d rest) (document_read_from bs)
unfolding document_read_from
sound bs h = sound-document (suc (length bs)) bs h (omega arith)

-- What is left after a document: bytes, and fewer.
pub document_read_from-Ensures :
    (bs : Bytes)
    → All IsByte bs
    → Ensures
        (λ (d, rest). IsValid d × All IsByte rest × (length rest < length bs))
        (document_read_from bs)
document_read_from-Ensures bs h =
    Ensures-map
      (λ (d, rest) w.
        let (hr, len) = rest_of bs (framed w.elist) rest h w.shape in
        (w.is_valid, hr, omega (arith, length-framed w.elist)))
      (sound bs h)

-- On any bytes `Document.ReadFrom` returns a document and the bytes behind it, or an error: it never
-- panics, and the model's fuel never runs out.
pub document_read_from_total :
    (bs : Bytes)
    → All IsByte bs
    → ((p : Document × Bytes) × (document_read_from bs ≡ ok p))
      ⊎ ((e : Error) × (document_read_from bs ≡ err e))
document_read_from_total bs h = elim (Ensures-cases (sound bs h)) [
  | inl (p, e, _) ↦ inl (p, e)
  | inr q ↦ inr q
]

-- A document that `ReadFrom` returns is valid, has its map in the order of its keys, and is
-- marshalled to exactly the bytes that were read.
pub document_read_from_sound :
    (bs rest : Bytes) (d : Document)
    → All IsByte bs
    → document_read_from bs ≡ ok (d, rest)
    → IsValid d
      × (keys_of d.m ≡ d.keys)
      × (b : Bytes) × (document_marshal_binary d ≡ ok b)
      × (bs ≡ b ++ rest)
document_read_from_sound bs rest d h e =
    let w = Ensures-ok (sound bs h) e in
    (
      w.is_valid,
      w.in_order,
      framed w.elist,
      document_marshal_binary_lem d w.elist w.written,
      w.shape,
    )
