-- ===== src/Types/Document/Make.antt =====
-- internal/types/document.go: the documents that `MakeDocument` makes, by `add`.
use sap_hana_compatibility_l.Prelude.{
  List, [], ◌∷◌, true, ◌≡◌, refl, arith, Bytes, subst, Option-cases, inl, inr, ok, guard, >>=-eq-ok,
  >>-eq-ok, guard-eq-ok, invalid_key,
}
use sap_hana_compatibility_l.Types.Value.{Value, Document, empty_document}
use sap_hana_compatibility_l.Types.Fields.{lookup, count, distinct, keys_of}
use sap_hana_compatibility_l.Types.Validate.{is_valid_key, validate_value}
use sap_hana_compatibility_l.Types.Document.{add, add_pairs, key_of, is_even, make_document}
use sap_hana_compatibility_l.Types.Document.Valid.{validate-IsValid}
use sap_hana_compatibility_l.Types.Document.Shape.{WellFormed, extend-WellFormed}

empty-WellFormed : WellFormed empty_document
unfolding count distinct keys_of
empty-WellFormed = record {
  is_valid = record { same_size = refl; distinct_keys = refl; has_keys = tt };
  is_map = refl;
}

-- What `add` returns is well formed again, and has the new key last.
pub add-WellFormed :
    (key : Bytes) (v : Value) (d e : Document) → WellFormed d → add key v d ≡ ok e → WellFormed e
unfolding add
add-WellFormed key v d e w h = elim (Option-cases (lookup key d.m)) [
  | inr (u, f) ↦ absurd (ground arith)
  | inl f ↦
      let h0 = rw (f, add) at h in
      let (p, h1) = >>-eq-ok (guard (is_valid_key key) invalid_key) _ h0 in
      let (q, h2) = >>-eq-ok (validate_value v) _ h1 in
      subst WellFormed (cc) (extend-WellFormed key v d w (guard-eq-ok _ _ p) q f)
]

add_pairs-WellFormed :
    (pairs : List Value) (d e : Document) → WellFormed d → add_pairs pairs d ≡ ok e → WellFormed e
unfolding add_pairs
add_pairs-WellFormed [] d e w h = subst WellFormed (cc) w
add_pairs-WellFormed (k ∷ []) d e w h = cc
add_pairs-WellFormed (k ∷ v ∷ rest) d e w h =
    let (key, p, h1) = >>=-eq-ok (key_of k) _ h in
    let (d', q, h2) = >>=-eq-ok (add key v d) _ h1 in
    add_pairs-WellFormed rest d' e (add-WellFormed key v d d' w q) h2

-- The closing `validate` of `MakeDocument` never fails: it returns what its loop returns.
pub make_document-add_pairs :
    (pairs : List Value) (d : Document)
    → is_even pairs ≡ true
    → add_pairs pairs empty_document ≡ ok d
    → make_document pairs ≡ ok d
unfolding make_document
make_document-add_pairs pairs d h e =
    let w = add_pairs-WellFormed pairs empty_document d empty-WellFormed e in
    rw (h, e, (validate-IsValid d).1 w.is_valid)
