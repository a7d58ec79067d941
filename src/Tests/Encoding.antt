-- ===== src/Tests/Encoding.antt =====
-- The theorems on the encoding of documents, at small documents.

use sap_hana_compatibility_l.GoStd.{valid_string}
use sap_hana_compatibility_l.Prelude.{bytes_eq}
use sap_hana_compatibility_l.Types.Fields.{insert}
use sap_hana_compatibility_l.GoStd.{read_until_zero}
use sap_hana_compatibility_l.GoStd.{read_le}
use sap_hana_compatibility_l.Bson.Read.{read_document}
use sap_hana_compatibility_l.Prelude.{
  [], ◌∷◌, ◌++◌, ◌≡◌, ◌⊎◌, refl, arith, All, Error, codes, Bytes, ok, err,
}
use sap_hana_compatibility_l.GoStd.Laws.{IsByte}
use sap_hana_compatibility_l.Types.Value.{Items, string, int64, cons, nil, Document, to_value}
use sap_hana_compatibility_l.Types.Fields.{keys_of}
use sap_hana_compatibility_l.Types.Document.Valid.{IsValid}
use sap_hana_compatibility_l.Bson.Marshal.{document_marshal_binary}
use sap_hana_compatibility_l.Bson.Read.{document_read_from}
use sap_hana_compatibility_l.Bson.Canon.{canon_document}
use sap_hana_compatibility_l.Bson.Fits.{Fits}
use sap_hana_compatibility_l.Bson.RoundTrip.{document_read_from-marshal}
use sap_hana_compatibility_l.Bson.Sound.{document_read_from_sound, document_read_from_total}
use sap_hana_compatibility_l.Tests.Data.{
  ping, nested, nested-IsValid, nested_bytes, nested-marshal, ping_bytes,
}

nested-Fits : Fits (to_value nested)
unfolding Fits
nested-Fits = ground arith

document_read_from-marshal_example :
    document_read_from (nested_bytes ++ 9 ∷ []) ≡ ok (canon_document nested, 9 ∷ [])
document_read_from-marshal_example =
    document_read_from-marshal nested nested_bytes (9 ∷ []) nested-IsValid nested-Fits
      nested-marshal (omega arith)

ping_bytes-IsByte : All IsByte ping_bytes
ping_bytes-IsByte = ground arith

ping-read : document_read_from ping_bytes ≡ ok (ping, [])
unfolding document_read_from read_document read_le read_until_zero insert bytes_eq valid_string
ping-read = refl

document_read_from_total_example :
    ((p : Document × Bytes) × (document_read_from ping_bytes ≡ ok p))
    ⊎ ((e : Error) × (document_read_from ping_bytes ≡ err e))
document_read_from_total_example = document_read_from_total ping_bytes ping_bytes-IsByte

document_read_from_sound_example :
    IsValid ping
    × (keys_of ping.m ≡ ping.keys)
    × (b : Bytes) × (document_marshal_binary ping ≡ ok b)
    × (ping_bytes ≡ b ++ [])
document_read_from_sound_example =
    document_read_from_sound ping_bytes [] ping ping_bytes-IsByte ping-read

abbrev two : Items
two = cons (string (codes "x")) (cons (int64 7) nil)
