-- ===== src/Handlers/Clauses/Quiet.antt =====
-- internal/handlers/common/where.go: writing a value, a key or a regular expression as SQL ends in a
-- text or an error.
use sap_hana_compatibility_l.Prelude.{
  List, [], ◌∷◌, ◌++◌, Bool, true, false, Option, none, some, Bytes, bytes_eq, Outcome, ok, err,
  holds, failed, Ensures-bind, Ensures-guard, if◌then◌else◌, Ensures-if, codes, not, ◌||◌,
  not_implemented, negative_index, key_not_found, ◌>>=◌,
}
use sap_hana_compatibility_l.GoStd.{ℤ, pos, negsuc, atoi}
use sap_hana_compatibility_l.GoStd.Strings.{contains_text, split_dots}
use sap_hana_compatibility_l.GoStd.Format.{Printing}
use sap_hana_compatibility_l.Types.Value.{
  Value, Fields, document, array, string, binary, date_time, null, regex, timestamp, cstring, other,
  nil, cons, end, field,
}
use sap_hana_compatibility_l.Bson.Calm.{Calm}
use sap_hana_compatibility_l.Handlers.Like.{like_of, like_pattern}
use sap_hana_compatibility_l.Handlers.SqlKey.{index_sql, key_parts, path_sql, where_key}
use sap_hana_compatibility_l.Handlers.SqlValue.{
  Piece, document_pieces, close_document, document_piece, document_at, array_piece, array_pieces,
  array_next, nested_document, scalar_piece, where_document, where_value,
}

abbrev CalmAt : Option (Outcome Piece) → Type 0
CalmAt none = Unit
CalmAt (some o) = Calm o

option-Calm {ℓ κ} :
    {A : Type ℓ} {B : Type κ} (o : Option A) {x : Outcome B} {f : A → Outcome B}
    → Calm x
    → ((a : A) → Calm (f a))
    → Calm (elim o [ none ↦ x | some a ↦ f a ])
option-Calm none c d = c
option-Calm (some a) c d = d a

like_of-Calm : (s : Bytes) → Calm (like_of s)
unfolding like_of
like_of-Calm s =
    Ensures-bind
      (Ensures-guard (not (contains_text (codes "(?i)") s || contains_text (codes "(?-i)") s))
        not_implemented)
      λ _ _. holds tt

pub like_pattern-Calm : (v : Value) → Calm (like_pattern v)
unfolding like_pattern
like_pattern-Calm (regex p []) = like_of-Calm p
like_pattern-Calm (regex p (b ∷ bs)) = failed
like_pattern-Calm (string s) = like_of-Calm s
like_pattern-Calm _ = failed

key_parts-Calm :
    (strict is_int first : Bool) (parts : List Bytes) → Calm (key_parts strict is_int first parts)
unfolding key_parts
key_parts-Calm strict is_int first [] = holds tt
key_parts-Calm strict is_int first (k ∷ parts) =
    option-Calm (atoi k) (Ensures-bind (key_parts-Calm strict false false parts) λ _ _. holds tt)
      λ i. Ensures-if is_int (λ _. failed) λ _. index i (key_parts-Calm strict true false parts)
  where
    index :
        (i : ℤ)
        → Calm (key_parts strict true false parts)
        → Calm (elim i [
          | negsuc n ↦
              if strict
              then err negative_index
              else key_parts strict true false parts >>= λ rest. ok (index_sql (negsuc n) ++ rest)
          | pos n ↦ key_parts strict true false parts >>= λ rest. ok (index_sql (pos n) ++ rest)
        ])
    index (negsuc n) c = Ensures-if strict (λ _. failed) λ _. Ensures-bind c λ _ _. holds tt
    index (pos n) c = Ensures-bind c λ _ _. holds tt

pub where_key-Calm : (key : Bytes) → Calm (where_key key)
unfolding where_key path_sql
where_key-Calm key =
    Ensures-if (contains_text (codes ".") key)
      (λ _. key_parts-Calm true false true (split_dots key)) (λ _. holds tt)

close_document-Calm : (P : Printing) (p : Piece) → Calm (close_document P p)
unfolding close_document
close_document-Calm P p = option-Calm p.failure (holds tt) λ _. failed

document_pieces-Calm :
    (at : Bytes → Option (Outcome Piece))
    → ((k : Bytes) → CalmAt (at k))
    → (first : Bool) (keys : List Bytes) → Calm (document_pieces at first keys)
unfolding document_pieces
document_pieces-Calm at calm first [] = holds tt
document_pieces-Calm at calm first (k ∷ keys) =
    Ensures-bind (found (at k) (calm k))
      λ p _. Ensures-bind (document_pieces-Calm at calm false keys) λ _ _. holds tt
  where
    found :
        (o : Option (Outcome Piece))
        → CalmAt o
        → Calm (elim o [ none ↦ err key_not_found | some r ↦ r ])
    found none c = failed
    found (some r) c = c

pick-Calm :
    (b : Bool) (w : Outcome Piece) (o : Option (Outcome Piece))
    → Calm w
    → CalmAt o
    → CalmAt (elim b [ true ↦ some w | false ↦ o ])
pick-Calm true w o c d = c
pick-Calm false w o c d = d

array_next-Calm :
    (first : Bool) (p : Piece) (others : Outcome Piece)
    → Calm others
    → Calm (array_next first p others)
unfolding array_next
array_next-Calm first p others c =
    option-Calm p.failure (Ensures-bind c λ _ _. holds tt) λ _. holds tt

nested_document-Calm : {o : Outcome Bytes} → Calm o → Calm (nested_document o)
unfolding nested_document
nested_document-Calm (holds h) = holds tt
nested_document-Calm failed = holds tt

document_piece-Calm :
    (P : Printing) (v : Value) → Calm (document_piece P v) × Calm (array_piece P v)
unfolding document_piece scalar_piece
document_piece-Calm P v =
    elim v
      as (λ w. Calm (document_piece P w) × Calm (array_piece P w)) (λ xs.
        (first : Bool) → Calm (array_pieces P first xs)) (λ m.
          (k : Bytes) → CalmAt (document_at P m k)) [
            | document (m → ih) keys ↦ (
              Ensures-bind (document_pieces-Calm (document_at P m) ih true keys)
                  λ p _. Ensures-bind (close_document-Calm P p) λ _ _. holds tt,
              nested_document-Calm (
                  Ensures-bind (document_pieces-Calm (document_at P m) ih true keys)
                    λ p _. close_document-Calm P p),
            )
            | nil ↦ λ first. holds tt
            | cons (w → ihw) (xs → ih) ↦
                λ first. Ensures-bind ihw.1 λ p _. array_next-Calm first p _ (ih false)
            | end ↦ λ k. tt
            | field j (w → ihw) (m → ih) ↦
                λ k. pick-Calm (bytes_eq j k) (document_piece P w) (document_at P m k) ihw.0 (ih k)
            | array (xs → ih) ↦
                (Ensures-bind (ih true) λ _ _. holds tt, Ensures-bind (ih true) λ _ _. holds tt)
            | null ↦ (holds tt, holds tt)
            | regex p o ↦ (failed, holds tt)
            | binary k b ↦ (failed, holds tt)
            | date_time k b ↦ (failed, holds tt)
            | timestamp b ↦ (failed, holds tt)
            | cstring b ↦ (failed, holds tt)
            | other ↦ (failed, holds tt)
            | _ ↦ (holds tt, holds tt)
          ]

document_at-Calm : (P : Printing) (m : Fields) (k : Bytes) → CalmAt (document_at P m k)
unfolding document_piece
document_at-Calm P end k = tt
document_at-Calm P (field j v m) k =
    pick-Calm (bytes_eq j k) (document_piece P v) (document_at P m k) (document_piece-Calm P v).0
      (document_at-Calm P m k)

-- `whereValue` gives a text or an error for every value.
pub where_value-Calm : (P : Printing) (v : Value) → Calm (where_value P v)
unfolding where_value where_document scalar_piece
where_value-Calm P null = holds tt
where_value-Calm P (regex p o) = Ensures-bind (like_pattern-Calm (regex p o)) λ _ _. holds tt
where_value-Calm P (document m keys) =
    Ensures-bind
      (Ensures-bind (document_pieces-Calm (document_at P m) (document_at-Calm P m) true keys)
        λ p _. close_document-Calm P p)
      λ _ _. holds tt
where_value-Calm P (array xs) = failed
where_value-Calm P (binary k b) = failed
where_value-Calm P (date_time k b) = failed
where_value-Calm P (timestamp b) = failed
where_value-Calm P (cstring b) = failed
where_value-Calm P other = failed
where_value-Calm P _ = holds tt
