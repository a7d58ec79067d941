-- ===== src/Wire/Sendable.antt =====
-- The documents that a message can carry without a change, and how they are written and read.
use sap_hana_compatibility_l.Types.Document.Shape.{
  convert_document-IsValid, must_convert_document-IsValid,
}
use sap_hana_compatibility_l.Prelude.{◌≤◌, ◌++◌, ◌≡◌, arith, ap, ◌∙◌, Bytes, length, ok}
use sap_hana_compatibility_l.Types.Value.{Document, to_value}
use sap_hana_compatibility_l.Types.Document.{convert_document, must_convert_document}
use sap_hana_compatibility_l.Types.Document.Valid.{IsValid}
use sap_hana_compatibility_l.Bson.Marshal.{document_marshal_binary}
use sap_hana_compatibility_l.Bson.MarshalLaws.{document_marshal_binary-framed, length-framed}
use sap_hana_compatibility_l.Bson.Read.{max_document_len, document_read_from}
use sap_hana_compatibility_l.Bson.Canon.{canon_document}
use sap_hana_compatibility_l.Bson.Fits.{Fits}
use sap_hana_compatibility_l.Bson.RoundTrip.{document_read_from-marshal}
use sap_hana_compatibility_l.Wire.OpMsg.{write_unchecked}
use sap_hana_compatibility_l.Wire.OpQuery.{must_write}

-- A valid document that BSON can hold, with its maps in the order of their keys and its instants in
-- whole milliseconds, and short enough when it is marshalled.
pub record Sendable (d : Document) : Type 0 where
  pub bytes : Bytes
  pub marshalled : document_marshal_binary d ≡ ok bytes
  pub is_valid : IsValid d
  pub fits : Fits (to_value d)
  pub canonical : canon_document d ≡ d
  pub not_too_long : length bytes ≤ max_document_len

module _ (d : Document) (s : Sendable d) where
  pub Sendable-convert : convert_document d ≡ ok d
  Sendable-convert = convert_document-IsValid d s.is_valid

  pub Sendable-must_convert : must_convert_document d ≡ ok d
  Sendable-must_convert = must_convert_document-IsValid d s.is_valid

  pub Sendable-must_write : must_write d ≡ ok s.bytes
  unfolding must_write
  Sendable-must_write = rw (Sendable-must_convert, s.marshalled)

  pub Sendable-write_unchecked : write_unchecked d ≡ ok s.bytes
  unfolding write_unchecked
  Sendable-write_unchecked = rw (s.marshalled, write_unchecked)

  pub Sendable-read : (rest : Bytes) → document_read_from (s.bytes ++ rest) ≡ ok (d, rest)
  Sendable-read rest =
      document_read_from-marshal d s.bytes rest s.is_valid s.fits s.marshalled s.not_too_long
      ∙ ap (λ e. ok (e, rest)) s.canonical

  pub Sendable_pos : 5 ≤ length s.bytes
  Sendable_pos =
      let (elist, _, shape) = document_marshal_binary-framed d s.bytes s.marshalled in
      let len = ap (λ (bs : Bytes). length bs) shape ∙ length-framed elist in omega arith
