-- ===== src/Types/Document/Valid.antt =====
-- What `Document.validate` accepts, stated without its loop.
use sap_hana_compatibility_l.Prelude.{
  List, [], ◌∷◌, true, false, not, none, some, ◌≡◌, refl, ◌↔◌, ◌==◌, ==_iff, All, arith, Bytes,
  bytes_eq_iff, length, ok, ◌>>◌, guard, Option-cases, inl, inr, >>-eq-ok, guard-eq-ok,
  count_mismatch, invalid_key, duplicate_key,
}
use sap_hana_compatibility_l.Types.Value.{Value, Fields, end, field, document, Document}
use sap_hana_compatibility_l.Types.Fields.{lookup, count, contains, distinct}
use sap_hana_compatibility_l.Types.Validate.{
  is_valid_key, validate_keys, validate_value, validate_at, validate,
}

-- The key is well formed and the map has a valid value under it.
pub record HasKey (m : Fields) (key : Bytes) : Type 0 where
  pub valid_key : is_valid_key key ≡ true
  pub value : Value
  pub found : lookup key m ≡ some value
  pub valid_value : validate_value value ≡ ok tt

-- The document's keys are distinct, they are as many as the map has, and the map has each of them.
pub record IsValid (d : Document) : Type 0 where
  pub same_size : count d.m ≡ length d.keys
  pub distinct_keys : distinct d.keys ≡ true
  pub has_keys : All (HasKey d.m) d.keys

pub validate_at-some :
    (m : Fields) (key : Bytes) (v : Value)
    → lookup key m ≡ some v
    → validate_at m key ≡ some (validate_value v)
unfolding lookup validate_at
validate_at-some end key v h = cc
validate_at-some (field j w m) key v h = ground (arith, validate_at-some m key v)

validate_at-none : (m : Fields) (key : Bytes) → lookup key m ≡ none → validate_at m key ≡ none
unfolding lookup validate_at
validate_at-none end key h = refl
validate_at-none (field j w m) key h = ground (arith, validate_at-none m key)

-- None of the keys is among `prev`.
abbrev Apart : List Bytes → List Bytes → Type 0
Apart prev keys = All (λ k. contains k prev ≡ false) keys

Apart-cons :
    (k : Bytes) (prev keys : List Bytes)
    → Apart prev keys
    → contains k keys ≡ false
    → Apart (k ∷ prev) keys
unfolding contains
Apart-cons k prev [] h e = tt
Apart-cons k prev (j ∷ keys) h e =
    (ground (arith, bytes_eq_iff k j, bytes_eq_iff j k), Apart-cons k prev keys h.1 (ground arith))

Apart-tail :
    (k : Bytes) (prev keys : List Bytes)
    → Apart (k ∷ prev) keys
    → Apart prev keys × (contains k keys ≡ false)
unfolding contains
Apart-tail k prev [] h = (tt, refl)
Apart-tail k prev (j ∷ keys) h =
    let (p, q) = Apart-tail k prev keys h.1 in
    ground (arith, p, q, bytes_eq_iff k j, bytes_eq_iff j k)

module _ (m : Fields) where
  validate_keys_complete :
      (prev keys : List Bytes)
      → All (HasKey m) keys
      → distinct keys ≡ true
      → Apart prev keys
      → validate_keys (validate_at m) prev keys ≡ ok tt
  unfolding validate_keys distinct
  validate_keys_complete prev [] h d a = refl
  validate_keys_complete prev (k ∷ keys) (hk, hks) d (ak, aks) =
      rw (hk.valid_key, validate_at-some m k hk.value hk.found, ak, hk.valid_value)
        (validate_keys_complete (k ∷ prev) keys hks (ground arith)
          (Apart-cons k prev keys aks (ground arith)))

  validate_keys_sound :
      (prev keys : List Bytes)
      → validate_keys (validate_at m) prev keys ≡ ok tt
      → All (HasKey m) keys × (distinct keys ≡ true) × Apart prev keys
  unfolding validate_keys distinct
  validate_keys_sound prev [] h = (tt, refl, tt)
  validate_keys_sound prev (k ∷ keys) h = elim (Option-cases (lookup k m)) [
    | inl e ↦ absurd (ground (arith, validate_at-none m k e))
    | inr (v, e) ↦
        let at : validate_at m k ≡ some (validate_value v) = validate_at-some m k v e in
        let (ok_key, h1) = >>-eq-ok (guard (is_valid_key k) invalid_key) _ (rw at at h) in
        let (fresh, h2) = >>-eq-ok (guard (not (contains k prev)) duplicate_key) _ h1 in
        let (ok_value, h3) = >>-eq-ok (validate_value v) _ h2 in
        let (has, dist, apart) = validate_keys_sound (k ∷ prev) keys h3 in
        let (apart', out) = Apart-tail k prev keys apart in
        let good = guard-eq-ok _ _ ok_key in
        let new = guard-eq-ok _ _ fresh in
        (
          (record { valid_key = good; value = v; found = e; valid_value = ok_value }, has),
          ground arith,
          (ground arith, apart'),
        )
  ]

-- The first check of `validate` and its loop.
validate_lem :
    (m : Fields) (keys : List Bytes)
    → validate_value (document m keys)
      ≡ (guard (count m == length keys) count_mismatch >> validate_keys (validate_at m) [] keys)
unfolding validate_value
validate_lem m keys = refl

Apart-nil : (keys : List Bytes) → Apart [] keys
unfolding contains
Apart-nil [] = tt
Apart-nil (k ∷ keys) = (refl, Apart-nil keys)

-- `validateValue` accepts a document exactly when it is valid.
pub validate_value-IsValid :
    (m : Fields) (keys : List Bytes)
    → (validate_value (document m keys) ≡ ok tt) ↔ IsValid (record { m = m; keys = keys })
validate_value-IsValid m keys = (sound, complete)
  where
    sound : validate_value (document m keys) ≡ ok tt → IsValid (record { m = m; keys = keys })
    sound h =
        let (size, h') =
          >>-eq-ok (guard (count m == length keys) count_mismatch) _ (rw validate_lem at h) in
        let (has, dist, _) = validate_keys_sound m [] keys h' in
        record {
          same_size = (==_iff _ _).0 (guard-eq-ok _ _ size);
          distinct_keys = dist;
          has_keys = has;
        }

    complete : IsValid (record { m = m; keys = keys }) → validate_value (document m keys) ≡ ok tt
    complete v =
        rw (validate_lem, (==_iff (count m) (length keys)).1 v.same_size)
          (validate_keys_complete m [] keys v.has_keys v.distinct_keys (Apart-nil keys))

-- `validate` returns no error on exactly the valid documents.
pub validate-IsValid : (d : Document) → (validate d ≡ ok tt) ↔ IsValid d
validate-IsValid d = unfold validate in validate_value-IsValid d.m d.keys
