-- ===== src/Bson/Calm.antt =====
-- internal/types and internal/bson: a validation ends in a verdict, and collecting an array's items
-- takes them from their indexes.
use sap_hana_compatibility_l.Prelude.{
  ℕ, zero, suc, ◌+◌, List, [], ◌∷◌, Bool, true, false, not, Option, none, some, ◌≡◌, refl, arith,
  subst, ◌==◌, Bytes, bytes_eq, bytes_eq→eq, bytes_eq_iff, length, Outcome, ok, err, Ensures, holds,
  failed, Ensures-bind, Ensures-guard, Ensures-option, count_mismatch, invalid_key, duplicate_key,
  bad_array_key, missing_element, key_not_found,
}
use sap_hana_compatibility_l.GoStd.{itoa}
use sap_hana_compatibility_l.Types.Value.{
  Value, Items, Fields, document, other, nil, cons, end, field,
}
use sap_hana_compatibility_l.Types.Fields.{lookup, count, contains, keys_of}
use sap_hana_compatibility_l.Types.Validate.{
  is_valid_key, validate_keys, validate_value, validate_at,
}
use sap_hana_compatibility_l.Bson.Marshal.{array_keys}
use sap_hana_compatibility_l.Bson.MarshalLaws.{array_fields}
use sap_hana_compatibility_l.Bson.Indexes.{Holds, Holds-strengthen}
use sap_hana_compatibility_l.Bson.Read.{collect}

-- A validation ends in a verdict.
abbrev pub Calm {ℓ} : {A : Type ℓ} → Outcome A → Type ℓ
Calm o = Ensures (λ _. Unit {0}) o

-- So does each of the map's.
abbrev CalmAt : Option (Outcome (Unit {0})) → Type 0
CalmAt none = Unit
CalmAt (some o) = Calm o

found-Calm :
    (o : Option (Outcome (Unit {0})))
    → CalmAt o
    → Ensures (λ v. Calm v) (elim o [ none ↦ err key_not_found | some v ↦ ok v ])
found-Calm none c = failed
found-Calm (some v) c = holds c

validate_keys-Calm :
    (at : Bytes → Option (Outcome (Unit {0})))
    → ((k : Bytes) → CalmAt (at k))
    → (prev keys : List Bytes) → Calm (validate_keys at prev keys)
unfolding validate_keys
validate_keys-Calm at calm prev [] = holds tt
validate_keys-Calm at calm prev (k ∷ keys) =
    Ensures-bind (Ensures-guard (is_valid_key k) invalid_key) λ _ _.
      Ensures-bind (found-Calm (at k) (calm k)) λ v c.
        Ensures-bind (Ensures-guard (not (contains k prev)) duplicate_key)
          λ _ _. Ensures-bind c λ _ _. validate_keys-Calm at calm (k ∷ prev) keys

-- `validateValue` neither panics nor runs on.
pub validate_value-Calm : (v : Value) → Calm (validate_value v)
unfolding validate_value
validate_value-Calm v =
    elim v
      as (λ w. Calm (validate_value w)) (λ _. Unit {0}) (λ m.
        (k : Bytes) → CalmAt (validate_at m k)) [
          | document (m → ih) keys ↦
              Ensures-bind (Ensures-guard (count m == length keys) count_mismatch)
                λ _ _. validate_keys-Calm (validate_at m) ih [] keys
          | other ↦ failed
          | nil ↦ tt
          | cons w xs ↦ tt
          | end ↦ λ k. tt
          | field j (w → ihw) (m → ih) ↦
              λ k. field_calm (bytes_eq j k) (validate_value w) (validate_at m k) ihw (ih k)
          | _ ↦ holds tt
        ]
  where
    field_calm :
        (b : Bool) (w : Outcome (Unit {0})) (o : Option (Outcome (Unit {0})))
        → Calm w
        → CalmAt o
        → CalmAt (elim b [ true ↦ some w | false ↦ o ])
    field_calm true w o c d = c
    field_calm false w o c d = d

-- What the loop of `Array.ReadFrom` collects stands under the indexes, which are all the keys. It
-- never reads past the keys, where they are as many as its rounds.
pub collect-Ensures :
    (n i : ℕ) (keys : List Bytes) (m : Fields)
    → n ≡ length keys
    → Ensures (λ xs. (keys ≡ array_keys i xs) × Holds m i xs) (collect n i keys m)
unfolding collect array_keys
collect-Ensures zero i [] m e = holds (refl, tt)
collect-Ensures zero i (k ∷ keys) m e = absurd (omega arith)
collect-Ensures (suc n) i [] m e = absurd (omega arith)
collect-Ensures (suc n) i (k ∷ keys) m e =
    Ensures-bind (Ensures-guard (bytes_eq k (itoa i)) bad_array_key) λ _ same.
      Ensures-bind (Ensures-option (lookup (itoa i) m) missing_element) λ v found.
        Ensures-bind (validate_value-Calm v) λ _ _.
          Ensures-bind (collect-Ensures n (i + 1) keys m (omega arith))
            λ xs (p, h). holds (rw (bytes_eq→eq k (itoa i) same, p), (found, h))

-- A map whose keys are the indexes from `i` on is the map of the items that it holds there.
pub fields-array_fields :
    (m : Fields) (i : ℕ) (xs : Items)
    → keys_of m ≡ array_keys i xs
    → Holds m i xs
    → m ≡ array_fields i xs
unfolding keys_of array_keys array_fields
fields-array_fields end i nil e h = refl
fields-array_fields end i (cons v xs) e h = cc
fields-array_fields (field k w m) i nil e h = cc
fields-array_fields (field k w m) i (cons v xs) e (found, h) =
    let key : k ≡ itoa i = ground arith in
    let tail : keys_of m ≡ array_keys (i + 1) xs = ground arith in
    let value : w ≡ v = first_value k w v m key found in
    let at_index = subst (λ j. Holds (field j w m) (i + 1) xs) key h in
    rw (
      key,
      value,
      fields-array_fields m (i + 1) xs tail
          (Holds-strengthen m i (i + 1) w xs (omega arith) at_index),
    )
  where
    first_value :
        (k : Bytes) (w v : Value) (m : Fields)
        → k ≡ itoa i
        → lookup (itoa i) (field k w m) ≡ some v
        → w ≡ v
    first_value k w v m key found = unfold lookup in ground (arith, bytes_eq_iff k (itoa i))
