-- ===== src/Handlers/Clauses/Sizes.antt =====
-- internal/handlers/common/where.go: how deep the calls for a filter go.
use sap_hana_compatibility_l.Prelude.{
  ℕ, suc, ◌+◌, ◌≤◌, some, ◌≡◌, arith, Bool, true, false, if◌then◌else◌, subst, sym, Bytes, bytes_eq,
}
use mathlib.Core.Option.{some-injective}
use sap_hana_compatibility_l.Types.Value.{
  Value, Items, Fields, document, array, nil, cons, end, field,
}
use sap_hana_compatibility_l.Types.Fields.{lookup}

-- How many constructors of documents, arrays and their members a value has.
unfoldable mutual
  pub size : Value → ℕ
  size (document m keys) = suc (fields_size m)
  size (array xs) = suc (items_size xs)
  size _ = 1

  pub items_size : Items → ℕ
  items_size nil = 0
  items_size (cons v xs) = suc (size v + items_size xs)

  pub fields_size : Fields → ℕ
  fields_size end = 0
  fields_size (field k v m) = suc (size v + fields_size m)

pub size-lookup :
    (k : Bytes) (m : Fields) (v : Value) → lookup k m ≡ some v → suc (size v) ≤ fields_size m
unfolding lookup fields_size
size-lookup k end v h = cc
size-lookup k (field j w m) v h = pick (bytes_eq j k) (size-lookup k m v) h
  where
    pick :
        (b : Bool)
        → (lookup k m ≡ some v → suc (size v) ≤ fields_size m)
        → (if b then some w else lookup k m) ≡ some v
        → suc (size v) ≤ suc (size w + fields_size m)
    pick true ih e =
        subst (λ x. suc (size v) ≤ suc (size x + fields_size m)) (sym (some-injective w v e))
          (omega arith)
    pick false ih e = let r = ih e in omega arith
