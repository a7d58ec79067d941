-- ===== src/Wire/Written.antt =====
-- internal/wire/op_query.go and op_reply.go: what UnmarshalBinary accepts, written again.
use sap_hana_compatibility_l.Prelude.{
  ℕ, suc, zero, ◌%◌, ◌^◌, ◌<◌, [], ◌∷◌, ◌++◌, append_assoc, append-nil, ◌≡◌, refl, arith, sym, ◌∙◌,
  true, not, ◌||◌, ltb, ◌==◌, Bytes, length, ok, All, All-back, Ensures, holds, failed,
  Ensures-bind, Ensures-map, Ensures-guard, Ensures-eq, Ensures-ok, invalid_number_returned,
}
use sap_hana_compatibility_l.GoStd.{le_bytes, is_negative32, read_le}
use sap_hana_compatibility_l.GoStd.Laws.{IsByte}
use sap_hana_compatibility_l.GoStd.Reads.{read_le-Ensures}
use sap_hana_compatibility_l.Types.Value.{Document}
use sap_hana_compatibility_l.Types.Document.Valid.{IsValid}
use sap_hana_compatibility_l.Types.Document.Shape.{must_convert_document-IsValid}
use sap_hana_compatibility_l.Bson.Scalar.{cstring_read_from, cstring_marshal_binary}
use sap_hana_compatibility_l.Bson.ScalarSound.{cstring-Ensures}
use sap_hana_compatibility_l.Bson.Marshal.{document_marshal_binary}
use sap_hana_compatibility_l.Bson.Read.{document_read_from}
use sap_hana_compatibility_l.Bson.Sound.{document_read_from-Ensures, document_read_from_sound}
use sap_hana_compatibility_l.Wire.OpMsg.{at_end}
use sap_hana_compatibility_l.Wire.OpQuery.{
  OpQuery, read_selector, query_read_from, query_unmarshal_binary, must_write, write_selector,
  query_marshal_binary,
}
use sap_hana_compatibility_l.Wire.OpReply.{
  OpReply, max_number_returned, read_reply_documents, reply_read_from, reply_unmarshal_binary,
  write_reply_documents, reply_marshal_binary,
}

pub at_end-Ensures {ℓ} : {A : Type ℓ} (p : A × Bytes) → Ensures (λ a. p ≡ (a, [])) (at_end p)
unfolding at_end
at_end-Ensures (a, []) = holds refl
at_end-Ensures (a, b ∷ bs) = failed

pub read_le-Written :
    (w : ℕ) (bs : Bytes)
    → All IsByte bs
    → Ensures (λ (n, r). (bs ≡ le_bytes w n ++ r) × All IsByte r) (read_le w bs)
read_le-Written w bs h =
    Ensures-map (λ (n, r) e. (e, All-back IsByte (le_bytes w n) r (rw e at h)))
      (read_le-Ensures w bs h)

pub cstring-Written :
    (bs : Bytes)
    → All IsByte bs
    → Ensures (λ (s, r). (bs ≡ cstring_marshal_binary s ++ r) × All IsByte r) (cstring_read_from bs)
cstring-Written bs h =
    Ensures-map (λ (s, r) e. (e, All-back IsByte (cstring_marshal_binary s) r (rw e at h)))
      (cstring-Ensures bs)

-- The bytes of a document that was read, and what is left.
pub record DocumentBytes (bs : Bytes) (d : Document) (rest : Bytes) : Type 0 where
  pub bytes : Bytes
  pub marshalled : document_marshal_binary d ≡ ok bytes
  written : must_write d ≡ ok bytes
  pub shape : bs ≡ bytes ++ rest
  pub left : All IsByte rest
  pub is_valid : IsValid d
  pub fewer : length rest < length bs

pub document-Written :
    (bs : Bytes)
    → All IsByte bs
    → Ensures (λ (d, rest). DocumentBytes bs d rest) (document_read_from bs)
document-Written bs h =
    Ensures-map
      (λ (d, rest) e.
        let (_, _, lt) = Ensures-ok (document_read_from-Ensures bs h) e in
        let (valid, _, b, m, shape) = document_read_from_sound bs rest d h e in
        record {
          bytes = b;
          marshalled = m;
          written = unfold must_write in rw (must_convert_document-IsValid d valid, m);
          shape = shape;
          left = All-back IsByte b rest (rw shape at h);
          is_valid = valid;
          fewer = lt;
        })
      (Ensures-eq (document_read_from-Ensures bs h))

reply_documents-Written :
    (n : ℕ) (bs : Bytes)
    → All IsByte bs
    → Ensures
        (λ (ds, rest).
          (b : Bytes) × (write_reply_documents ds ≡ ok b) × (bs ≡ b ++ rest) × (length ds ≡ n))
        (read_reply_documents n bs)
unfolding read_reply_documents write_reply_documents
reply_documents-Written zero bs h = holds ([], refl, refl, refl)
reply_documents-Written (suc n) bs h = Ensures-bind (document-Written bs h) λ (d, r) w.
    rw (must_convert_document-IsValid d w.is_valid) (
      Ensures-bind (reply_documents-Written n r w.left) λ (ds, rest) (b, written, shape, len).
        holds (
          w.bytes ++ b,
          rw (w.written, written),
          w.shape ∙ rw shape (sym (append_assoc w.bytes b rest)),
          omega (arith, len),
        ))

reply_read_from-Written :
    (bs : Bytes)
    → All IsByte bs
    → Ensures
        (λ (r, rest). (b : Bytes) × (reply_marshal_binary r ≡ ok b) × (bs ≡ b ++ rest))
        (reply_read_from bs)
unfolding reply_read_from reply_marshal_binary
reply_read_from-Written bs h = Ensures-bind (read_le-Written 4 bs h) λ (flags, r1) (p1, h1).
    Ensures-bind (read_le-Written 8 r1 h1) λ (cursor, r2) (p2, h2).
      Ensures-bind (read_le-Written 4 r2 h2) λ (from, r3) (p3, h3).
        Ensures-bind (read_le-Written 4 r3 h3) λ (n, r4) (p4, h4).
          Ensures-bind
            (Ensures-guard (not (is_negative32 n || ltb max_number_returned n))
              invalid_number_returned)
            λ _ in_range.
              Ensures-bind (reply_documents-Written n r4 h4) λ (ds, rest) (b, written, p5, len).
                let same : (length ds % 2 ^ 32 == n) ≡ true = ground (arith, len) in
                holds (
                  le_bytes 4 flags
                      ++ (le_bytes 8 cursor ++ (le_bytes 4 from ++ (le_bytes 4 n ++ b))),
                  rw (same, written),
                  rw (p1, p2, p3, p4, p5) (simp append_assoc),
                )

selector-Written :
    (bs : Bytes)
    → All IsByte bs
    → Ensures
        (λ (o, rest). (b : Bytes) × (write_selector o ≡ ok b) × (bs ≡ b ++ rest))
        (read_selector bs)
unfolding read_selector write_selector
selector-Written [] h = holds ([], refl, refl)
selector-Written (b ∷ bs) h = Ensures-bind (document-Written (b ∷ bs) h) λ (d, r) w.
    rw (must_convert_document-IsValid d w.is_valid) (holds (w.bytes, w.written, w.shape))

query_read_from-Written :
    (bs : Bytes)
    → All IsByte bs
    → Ensures
        (λ (q, rest). (b : Bytes) × (query_marshal_binary q ≡ ok b) × (bs ≡ b ++ rest))
        (query_read_from bs)
unfolding query_read_from query_marshal_binary
query_read_from-Written bs h = Ensures-bind (read_le-Written 4 bs h) λ (flags, r1) (p1, h1).
    Ensures-bind (cstring-Written r1 h1) λ (col, r2) (p2, h2).
      Ensures-bind (read_le-Written 4 r2 h2) λ (skip, r3) (p3, h3).
        Ensures-bind (read_le-Written 4 r3 h3) λ (n, r4) (p4, h4).
          Ensures-bind (document-Written r4 h4) λ (d, r5) w.
            rw (must_convert_document-IsValid d w.is_valid) (
              Ensures-bind (selector-Written r5 w.left) λ (o, rest) (b, written, p6). holds (
                le_bytes 4 flags
                    ++ (cstring_marshal_binary col
                        ++ (le_bytes 4 skip ++ (le_bytes 4 n ++ (w.bytes ++ b)))),
                rw (w.written, written),
                rw (p1, p2, p3, p4, w.shape, p6) (simp append_assoc),
              ))

-- An OP_REPLY that `UnmarshalBinary` accepts is marshalled to exactly the bytes that were read.
pub reply_marshal-unmarshal :
    (b : Bytes) (r : OpReply)
    → All IsByte b
    → reply_unmarshal_binary b ≡ ok r
    → reply_marshal_binary r ≡ ok b
unfolding reply_unmarshal_binary
reply_marshal-unmarshal b r h = Ensures-ok {P = λ s. reply_marshal_binary s ≡ ok b} (
    Ensures-bind (reply_read_from-Written b h) λ (s, rest) (bytes, written, shape).
      Ensures-map (λ t e. cc (written, shape, e, append-nil bytes)) (at_end-Ensures (s, rest)))

-- An OP_QUERY that `UnmarshalBinary` accepts is marshalled to exactly the bytes that were read.
pub query_marshal-unmarshal :
    (b : Bytes) (q : OpQuery)
    → All IsByte b
    → query_unmarshal_binary b ≡ ok q
    → query_marshal_binary q ≡ ok b
unfolding query_unmarshal_binary
query_marshal-unmarshal b q h = Ensures-ok {P = λ s. query_marshal_binary s ≡ ok b} (
    Ensures-bind (query_read_from-Written b h) λ (s, rest) (bytes, written, shape).
      Ensures-map (λ t e. cc (written, shape, e, append-nil bytes)) (at_end-Ensures (s, rest)))
