-- ===== src/Types/Document/Set.antt =====
-- internal/types/document.go: `Set` on a well-formed document.
use sap_hana_compatibility_l.Prelude.{
  [], ◌∷◌, ◌++◌, true, some, ◌≡◌, arith, Bytes, bytes_eq, Option-cases, inl, inr, if◌then◌else◌, ok,
}
use sap_hana_compatibility_l.Types.Value.{Value, Document}
use sap_hana_compatibility_l.Types.Fields.{lookup, insert, contains, is_some-lookup, lookup-insert}
use sap_hana_compatibility_l.Types.Validate.{is_valid_key, validate_value}
use sap_hana_compatibility_l.Types.Document.{set}
use sap_hana_compatibility_l.Types.Document.Shape.{
  WellFormed, HasKey-absent, contains-keys, overwrite-WellFormed, extend-WellFormed,
}

-- `Set` of a valid key to a valid value succeeds on a well-formed document; it leaves a well-formed
-- one, in which that key has the value and every other key what it had. The keys keep their order,
-- and a key that was not there comes last.
pub set_lem :
    (key : Bytes) (v : Value) (d : Document)
    → WellFormed d
    → is_valid_key key ≡ true
    → validate_value v ≡ ok tt
    → (e : Document) × (set key v d ≡ ok e)
      × WellFormed e
      × ((j : Bytes) → lookup j e.m ≡ (if bytes_eq key j then some v else lookup j d.m))
      × (e.keys ≡ (if contains key d.keys then d.keys else d.keys ++ key ∷ []))
unfolding set
set_lem key v d w hk hv = elim (Option-cases (lookup key d.m)) [
  | inl e ↦ (
    record { m = insert key v d.m; keys = d.keys ++ key ∷ [] },
    rw (hk, hv, e),
    extend-WellFormed key v d w hk hv e,
    λ j. lookup-insert key j v d.m,
    rw (HasKey-absent d.m key d.keys w.is_valid.has_keys e),
  )
  | inr (u, e) ↦ (
    record { m = insert key v d.m; keys = d.keys },
    rw (hk, hv, e),
    overwrite-WellFormed key v d w hk hv e,
    λ j. lookup-insert key j v d.m,
    rw (contains-keys key d w (ground (arith, is_some-lookup key d.m))),
  )
]
