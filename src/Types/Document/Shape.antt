-- ===== src/Types/Document/Shape.antt =====
-- internal/types/document.go: documents over proper maps, and a key stored in one.
use sap_hana_compatibility_l.Types.Document.{convert_document, must_convert_document}
use sap_hana_compatibility_l.Prelude.{
  List, [], ◌∷◌, ◌++◌, true, false, none, some, ◌≡◌, refl, ap, All, arith, Bytes, bytes_eq,
  bytes_eq_iff, bytes_eq_refl, length, length-append, All-append, inl, inr, ok, Bool-cases,
}
use sap_hana_compatibility_l.Types.Value.{Value, Fields, Document}
use sap_hana_compatibility_l.Types.Fields.{
  lookup, insert, contains, distinct, keys_of, is_some-lookup, lookup-insert, keys_of-insert,
  count-keys_of,
}
use sap_hana_compatibility_l.Types.Validate.{is_valid_key, validate_value}
use sap_hana_compatibility_l.Types.Document.Valid.{HasKey, IsValid, validate-IsValid}
use sap_hana_compatibility_l.Types.Document.Keys.{distinct-snoc, Among, pigeonhole}

-- A valid document over a proper map, one that has no key twice.
pub record WellFormed (d : Document) : Type 0 where
  pub is_valid : IsValid d
  pub is_map : distinct (keys_of d.m) ≡ true

contains-found : {m : Fields} {key : Bytes} → HasKey m key → contains key (keys_of m) ≡ true
contains-found {m} {key} h = ground (arith, h.found, is_some-lookup key m)

Among-found : (m : Fields) (keys : List Bytes) → All (HasKey m) keys → Among keys (keys_of m)
Among-found m [] h = tt
Among-found m (k ∷ keys) h = (contains-found h.0, Among-found m keys h.1)

pub HasKey-absent :
    (m : Fields) (key : Bytes) (keys : List Bytes)
    → All (HasKey m) keys
    → lookup key m ≡ none
    → contains key keys ≡ false
unfolding contains
HasKey-absent m key [] h e = refl
HasKey-absent m key (k ∷ keys) h e =
    ground (arith, bytes_eq_iff k key, h.0.found, HasKey-absent m key keys h.1 e)

-- Every key of the map of a well-formed document is among its keys.
pub contains-keys :
    (key : Bytes) (d : Document)
    → WellFormed d
    → contains key (keys_of d.m) ≡ true
    → contains key d.keys ≡ true
contains-keys key d w h = elim (Bool-cases (contains key d.keys)) [
  | inl e ↦ e
  | inr e ↦ absurd (
      ground (
        arith,
        count-keys_of d.m,
        w.is_valid.same_size,
        pigeonhole key d.keys (keys_of d.m) w.is_valid.distinct_keys w.is_map
            (Among-found d.m d.keys w.is_valid.has_keys) h e,
      ))
]

HasKey-insert :
    (m : Fields) (key j : Bytes) (v : Value)
    → is_valid_key key ≡ true
    → validate_value v ≡ ok tt
    → HasKey m j
    → HasKey (insert key v m) j
HasKey-insert m key j v hk hv h = elim (Bool-cases (bytes_eq key j)) [
  | inl e ↦ record {
    valid_key = h.valid_key;
    value = v;
    found = rw (lookup-insert, e);
    valid_value = hv;
  }
  | inr e ↦ record {
    valid_key = h.valid_key;
    value = h.value;
    found = rw (lookup-insert, e) h.found;
    valid_value = h.valid_value;
  }
]

All-map {ℓ κ} :
    {A : Type ℓ} (P Q : A → Type κ) → ((a : A) → P a → Q a) → (xs : List A) → All P xs → All Q xs
All-map P Q f [] h = tt
All-map P Q f (x ∷ xs) h = (f x h.0, All-map P Q f xs h.1)

-- A map with a valid value stored under a valid key has the key.
HasKey-insert_self :
    (m : Fields) (key : Bytes) (v : Value)
    → is_valid_key key ≡ true
    → validate_value v ≡ ok tt
    → HasKey (insert key v m) key
HasKey-insert_self m key v hk hv = record {
  valid_key = hk;
  value = v;
  found = rw (lookup-insert, bytes_eq_refl);
  valid_value = hv;
}

module _ (key : Bytes) (v : Value) (d : Document) (w : WellFormed d) (hk : is_valid_key key ≡ true)
    (hv : validate_value v ≡ ok tt) where
  keep : All (HasKey (insert key v d.m)) d.keys
  keep =
      All-map (HasKey d.m) (HasKey (insert key v d.m)) (λ j. HasKey-insert d.m key j v hk hv) d.keys
        w.is_valid.has_keys

  pub overwrite-WellFormed :
      {u : Value}
      → lookup key d.m ≡ some u
      → WellFormed (record { m = insert key v d.m; keys = d.keys })
  overwrite-WellFormed {u} e =
      let there : contains key (keys_of d.m) ≡ true = ground (arith, is_some-lookup key d.m) in
      let same : keys_of (insert key v d.m) ≡ keys_of d.m = rw (keys_of-insert, there) in
      record {
        is_valid = record {
          same_size = omega (
            arith,
            count-keys_of (insert key v d.m),
            count-keys_of d.m,
            w.is_valid.same_size,
            ap (λ (ks : List Bytes). length ks) same,
          );
          distinct_keys = w.is_valid.distinct_keys;
          has_keys = keep;
        };
        is_map = rw same w.is_map;
      }

  pub extend-WellFormed :
      lookup key d.m ≡ none
      → WellFormed (record { m = insert key v d.m; keys = d.keys ++ key ∷ [] })
  extend-WellFormed e =
      let new : contains key (keys_of d.m) ≡ false = ground (arith, is_some-lookup key d.m) in
      let more : keys_of (insert key v d.m) ≡ keys_of d.m ++ key ∷ [] = rw (keys_of-insert, new) in
      record {
        is_valid = record {
          same_size = omega (
            arith,
            count-keys_of (insert key v d.m),
            count-keys_of d.m,
            w.is_valid.same_size,
            ap (λ (ks : List Bytes). length ks) more,
            length-append (keys_of d.m) (key ∷ []),
            length-append d.keys (key ∷ []),
          );
          distinct_keys =
              distinct-snoc d.keys key w.is_valid.distinct_keys
                (HasKey-absent d.m key d.keys w.is_valid.has_keys e);
          has_keys =
              All-append (HasKey (insert key v d.m)) d.keys (key ∷ []) keep
                (HasKey-insert_self d.m key v hk hv, tt);
        };
        is_map = rw more (distinct-snoc (keys_of d.m) key w.is_map new);
      }

-- A valid document is converted without an error, or a panic.
pub convert_document-IsValid : (d : Document) → IsValid d → convert_document d ≡ ok d
unfolding convert_document
convert_document-IsValid d v = let e = (validate-IsValid d).1 v in rw e

pub must_convert_document-IsValid : (d : Document) → IsValid d → must_convert_document d ≡ ok d
unfolding must_convert_document
must_convert_document-IsValid d v = let e = (validate-IsValid d).1 v in rw e
