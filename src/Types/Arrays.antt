-- ===== src/Types/Arrays.antt =====
-- internal/types/array.go: the operations on arrays, on their items. An index is an `int` and may
-- be negative. A method with a pointer receiver returns the new items, so that the sharing of a
-- subslice's elements with the array that it was cut from is not modelled.
pub mod Laws
use sap_hana_compatibility_l.Prelude.{
  ℕ, zero, suc, ◌+◌, ◌-◌, List, [], ◌∷◌, Bool, true, false, not, ◌||◌, Option, none, some, ltb,
  if◌then◌else◌, Bytes, bytes_eq, Outcome, ok, err, panicked, ◌>>=◌, ◌>>◌, guard,
  index_out_of_bounds,
}
use sap_hana_compatibility_l.GoStd.{ℤ, pos, negsuc}
use sap_hana_compatibility_l.Types.Value.{Value, Items, string, nil, cons}
use sap_hana_compatibility_l.Types.Validate.{validate_value}

-- `Array.Len`
unfoldable pub len : Items → ℕ
len nil = 0
len (cons v xs) = suc (len xs)

-- `s[i]`, `s[i] = v`, `s[:i]` and `s[i:]` on a Go slice, and `append(s, t...)`.
unfoldable pub item_at : ℕ → Items → Option Value
item_at i nil = none
item_at zero (cons v xs) = some v
item_at (suc i) (cons v xs) = item_at i xs

unfoldable pub put_item : ℕ → Value → Items → Items
put_item i w nil = nil
put_item zero w (cons v xs) = cons w xs
put_item (suc i) w (cons v xs) = cons v (put_item i w xs)

unfoldable pub before : ℕ → Items → Items
before zero xs = nil
before (suc i) nil = nil
before (suc i) (cons v xs) = cons v (before i xs)

unfoldable pub from : ℕ → Items → Items
from zero xs = xs
from (suc i) nil = nil
from (suc i) (cons v xs) = from i xs

unfoldable pub append_items : Items → Items → Items
append_items nil ys = ys
append_items (cons v xs) ys = cons v (append_items xs ys)

unfoldable pub validate_all : Items → Outcome (Unit {0})
validate_all nil = ok tt
validate_all (cons v xs) = validate_value v >> validate_all xs

-- `NewArray`
unfoldable pub new_array : Items → Outcome Items
unfolding validate_all
new_array values = do validate_all values; ok values

-- The index, if it is one of a slice of the length `l`.
unfoldable pub index_below : ℤ → ℕ → Option ℕ
index_below (negsuc i) l = none
index_below (pos i) l = if ltb i l then some i else none

-- `Array.Get`
unfoldable pub get : ℤ → Items → Outcome Value
unfolding index_below len
get index xs = elim (index_below index (len xs)) [
  | none ↦ err index_out_of_bounds
  | some i ↦ elim (item_at i xs) [ none ↦ panicked | some v ↦ ok v ]
]

-- `Array.Subslice`; the checks are on both bounds, and then on their order.
unfoldable pub subslice : ℤ → ℤ → Items → Outcome Items
unfolding index_below len
subslice low high xs = elim (index_below low (suc (len xs))) [
  | none ↦ err index_out_of_bounds
  | some l ↦ elim (index_below high (suc (len xs))) [
    | none ↦ err index_out_of_bounds
    | some h ↦ if ltb h l then err index_out_of_bounds else ok (from l (before h xs))
  ]
]

-- `Array.Set`
unfoldable pub set : ℤ → Value → Items → Outcome Items
unfolding index_below len
set index v xs = elim (index_below index (len xs)) [
  | none ↦ err index_out_of_bounds
  | some i ↦ do validate_value v; ok (put_item i v xs)
]

-- `Array.Append`
unfoldable pub append : Items → Items → Outcome Items
unfolding validate_all append_items
append values xs = do validate_all values; ok (append_items xs values)

-- `Array.Contains`
unfoldable pub contains_string : Bytes → Items → Bool
contains_string key nil = false
contains_string key (cons (string s) xs) = bytes_eq key s || contains_string key xs
contains_string key (cons v xs) = contains_string key xs

-- `Array.Delete`: it checks the upper bound only, and slicing at a negative index panics.
unfoldable pub delete_at : ℤ → Items → Outcome Items
unfolding len
delete_at (negsuc i) xs = panicked
delete_at (pos i) xs =
    if ltb i (len xs)
    then ok (append_items (before i xs) (from (i + 1) xs))
    else err index_out_of_bounds
