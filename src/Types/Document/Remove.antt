-- ===== src/Types/Document/Remove.antt =====
-- internal/types/document.go: `Remove` on a well-formed document.
use sap_hana_compatibility_l.Prelude.{
  List, [], ◌∷◌, true, false, none, ◌≡◌, refl, ap, All, arith, Bytes, bytes_eq, bytes_eq_iff,
  bytes_eq→eq, sym, length, Option-cases, inl, inr, if◌then◌else◌, ok, Bool-cases,
}
use sap_hana_compatibility_l.Types.Value.{Fields, Document}
use sap_hana_compatibility_l.Types.Fields.{
  lookup, delete, contains, keys_of, is_some-lookup, lookup-delete_ne, lookup-delete_self,
  count-keys_of,
}
use sap_hana_compatibility_l.Types.Document.{remove}
use sap_hana_compatibility_l.Types.Document.Valid.{HasKey}
use sap_hana_compatibility_l.Types.Document.Keys.{
  without, without_absent, remove_key-without, contains-without, distinct-without, length-without,
  keys_of-delete,
}
use sap_hana_compatibility_l.Types.Document.Shape.{WellFormed, HasKey-absent, contains-keys}

HasKey-delete :
    (m : Fields) (key : Bytes) (keys : List Bytes)
    → contains key keys ≡ false
    → All (HasKey m) keys
    → All (HasKey (delete key m)) keys
unfolding contains
HasKey-delete m key [] n h = tt
HasKey-delete m key (k ∷ keys) n (h, hs) = (
  record {
    valid_key = h.valid_key;
    value = h.value;
    found =
        rw (lookup-delete_ne key k m (ground (arith, bytes_eq_iff k key, bytes_eq_iff key k)))
          h.found;
    valid_value = h.valid_value;
  },
  HasKey-delete m key keys (ground arith) hs,
)

All-without {κ} :
    (P : Bytes → Type κ) (key : Bytes) (keys : List Bytes) → All P keys → All P (without key keys)
unfolding without
All-without P key [] h = tt
All-without P key (k ∷ keys) h = elim (Bool-cases (bytes_eq k key)) [
  | inl e ↦ rw e (All-without P key keys h.1)
  | inr e ↦ rw e (h.0, All-without P key keys h.1)
]

-- A well-formed document with one of its keys removed, from the map and from the keys.
removed-WellFormed :
    (key : Bytes) (d : Document)
    → WellFormed d
    → contains key (keys_of d.m) ≡ true
    → WellFormed (record { m = delete key d.m; keys = without key d.keys })
removed-WellFormed key d w there =
    let fewer : keys_of (delete key d.m) ≡ without key (keys_of d.m) =
      keys_of-delete key d.m w.is_map in
    record {
      is_valid = record {
        same_size = omega (
          arith,
          count-keys_of (delete key d.m),
          count-keys_of d.m,
          w.is_valid.same_size,
          ap (λ (ks : List Bytes). length ks) fewer,
          length-without key (keys_of d.m) w.is_map there,
          length-without key d.keys w.is_valid.distinct_keys (contains-keys key d w there),
        );
        distinct_keys = distinct-without key d.keys w.is_valid.distinct_keys;
        has_keys =
            HasKey-delete d.m key (without key d.keys)
              (ground (arith, contains-without key key d.keys, bytes_eq_iff key key))
              (All-without (HasKey d.m) key d.keys w.is_valid.has_keys);
      };
      is_map = rw fewer (distinct-without key (keys_of d.m) w.is_map);
    }

-- `Remove` never panics on a well-formed document. It leaves a well-formed one without the key, in
-- which every other key has what it had, and the other keys keep their order.
pub remove_lem :
    (key : Bytes) (d : Document)
    → WellFormed d
    → (e : Document) × (remove key d ≡ ok e)
      × WellFormed e
      × ((j : Bytes) → lookup j e.m ≡ (if bytes_eq key j then none else lookup j d.m))
      × (e.keys ≡ without key d.keys)
unfolding remove
remove_lem key d w = elim (Option-cases (lookup key d.m)) [
  | inl e ↦ (
    d,
    rw e,
    w,
    λ j. ground (arith, bytes_eq_iff key j),
    sym (without_absent key d.keys (HasKey-absent d.m key d.keys w.is_valid.has_keys e)),
  )
  | inr (u, e) ↦
      let there : contains key (keys_of d.m) ≡ true = ground (arith, is_some-lookup key d.m) in
      let gone =
        remove_key-without key d.keys w.is_valid.distinct_keys (contains-keys key d w there) in
      (
        record { m = delete key d.m; keys = without key d.keys },
        rw (e, gone),
        removed-WellFormed key d w there,
        λ j. lookup_after j,
        refl,
      )
]
  where
    lookup_after :
        (j : Bytes) → lookup j (delete key d.m) ≡ (if bytes_eq key j then none else lookup j d.m)
    lookup_after j = elim (Bool-cases (bytes_eq key j)) [
      | inl e ↦ rw e (rw (← bytes_eq→eq key j e) (lookup-delete_self key d.m w.is_map))
      | inr e ↦ rw e (lookup-delete_ne key j d.m e)
    ]
