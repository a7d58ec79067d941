-- ===== src/Types/Compare.antt =====
-- internal/types/compare.go: CompareScalars.
pub mod Invert
use sap_hana_compatibility_l.Prelude.{
  ℕ, zero, suc, ◌+◌, ◌-◌, ◌*◌, ◌/◌, ◌%◌, ◌^◌, List, [], ◌∷◌, Bool, true, false, not, ◌&&◌, ◌||◌,
  ltb, leb, ◌==◌, if◌then◌else◌, Bytes, bytes_eq, Outcome, ok, panicked,
}
use sap_hana_compatibility_l.Types.Value.{
  Value, document, array, double, string, binary, object_id, bool, date_time, null, regex, int32,
  timestamp, int64, cstring, other,
}

-- `less` and `greater`; `not_equal` is none of the three.
pub data CompareResult : Type 0 where
  equal less greater not_equal : CompareResult

-- `filterCompareInvert`
unfoldable pub filter_compare_invert : CompareResult → CompareResult
filter_compare_invert equal = equal
filter_compare_invert less = greater
filter_compare_invert greater = less
filter_compare_invert not_equal = not_equal

-- `compareOrdered`, on the results of `==` and `<` one way and the other.
unfoldable pub compare_ordered : Bool → Bool → Bool → CompareResult
compare_ordered is_equal is_less is_greater =
    if is_equal then equal else if is_less then less else if is_greater then greater else not_equal

-- The same on natural numbers.
unfoldable pub compare_nat : ℕ → ℕ → CompareResult
unfolding compare_ordered
compare_nat a b = compare_ordered (a == b) (ltb a b) (ltb b a)

-- The order of two int64 patterns is that of the numbers with their sign bits turned.
unfoldable pub compare_int64 : ℕ → ℕ → CompareResult
unfolding compare_nat
compare_int64 a b = compare_nat ((a + 2 ^ 63) % 2 ^ 64) ((b + 2 ^ 63) % 2 ^ 64)

-- `int64(i)` at an int32.
unfoldable pub to_int64 : ℕ → ℕ
to_int64 i = if ltb i (2 ^ 31) then i else i + (2 ^ 64 - 2 ^ 32)

-- `math.IsNaN`
unfoldable pub is_nan : ℕ → Bool
is_nan x = ltb (2047 * 2 ^ 52) (x % 2 ^ 63)

-- The order of two float64 patterns, neither a NaN: both zeros are the same, the pattern of a number
-- without its sign bit grows with it, and a sign bit turns the order round.
unfoldable pub float_place : ℕ → ℕ
float_place x = if ltb x (2 ^ 63) then 2 ^ 63 + x else 2 ^ 63 - x % 2 ^ 63

-- `compareOrdered` at float64: no test holds of a NaN.
unfoldable pub compare_float : ℕ → ℕ → CompareResult
unfolding compare_nat is_nan float_place
compare_float a b =
    if is_nan a || is_nan b then not_equal else compare_nat (float_place a) (float_place b)

-- How many binary digits a number has; `f` are enough for a number below `2 ^ f`.
unfoldable pub bit_length : ℕ → ℕ → ℕ
bit_length zero m = 0
bit_length (suc f) m = let rest = bit_length f (m / 2) in if m == 0 then 0 else suc rest

-- `m / 2 ^ k`, rounded to the nearest, and to the even one of two.
unfoldable pub round_shift : ℕ → ℕ → ℕ
round_shift m k =
    let q = m / 2 ^ k in
    let r = m % 2 ^ k * 2 in if ltb (2 ^ k) r || (r == 2 ^ k && q % 2 == 1) then q + 1 else q

-- The float64 of a magnitude below `2 ^ 64`: a mantissa that is rounded up to `2 ^ 53` carries into
-- the exponent.
unfoldable pub float_of_magnitude : ℕ → ℕ
unfolding bit_length round_shift
float_of_magnitude m =
    let b = bit_length 64 m in
    let mantissa = if leb b 53 then m * 2 ^ (53 - b) else round_shift m (b - 53) in
    if m == 0 then 0 else (b + 1022) * 2 ^ 52 + (mantissa - 2 ^ 52)

-- `float64(i)` at an int64.
unfoldable pub float_of_int64 : ℕ → ℕ
unfolding float_of_magnitude
float_of_int64 i =
    if ltb i (2 ^ 63) then float_of_magnitude i else 2 ^ 63 + float_of_magnitude (2 ^ 64 - i)

-- `compareNumbers`
unfoldable pub compare_numbers : ℕ → ℕ → CompareResult
unfolding compare_float float_of_int64
compare_numbers a b = compare_float a (float_of_int64 b)

-- `<` on strings, and on the bytes that `bytes.Compare` compares.
unfoldable pub bytes_less : Bytes → Bytes → Bool
bytes_less [] [] = false
bytes_less [] (b ∷ bs) = true
bytes_less (a ∷ as₁) [] = false
bytes_less (a ∷ as₁) (b ∷ bs) = let rest = bytes_less as₁ bs in if a == b then rest else ltb a b

unfoldable pub compare_bytes : Bytes → Bytes → CompareResult
unfolding compare_ordered bytes_less
compare_bytes a b = compare_ordered (bytes_eq a b) (bytes_less a b) (bytes_less b a)

unfoldable pub compare_bools : Bool → Bool → CompareResult
compare_bools false false = equal
compare_bools true true = equal
compare_bools false true = less
compare_bools true false = greater

-- `UnixNano`
unfoldable pub unix_nano : ℕ → ℕ → ℕ
unix_nano ms ns = (ms * 1000000 + ns) % 2 ^ 64

-- The inner switch, over the second value.
unfoldable pub compare_double : ℕ → Value → CompareResult
unfolding compare_float compare_numbers
compare_double a (double b) = if is_nan a && is_nan b then equal else compare_float a b
compare_double a (int32 b) = compare_numbers a (to_int64 b)
compare_double a (int64 b) = compare_numbers a b
compare_double a _ = not_equal

-- For an int32 that has been converted, and for an int64.
unfoldable pub compare_int : ℕ → Value → CompareResult
unfolding compare_int64 compare_numbers filter_compare_invert
compare_int a (double b) = filter_compare_invert (compare_numbers b a)
compare_int a (int32 b) = compare_int64 a (to_int64 b)
compare_int a (int64 b) = compare_int64 a b
compare_int a _ = not_equal

unfoldable pub compare_string : Bytes → Value → CompareResult
unfolding compare_bytes
compare_string a (string b) = compare_bytes a b
compare_string a _ = not_equal

unfoldable pub compare_object_id : Bytes → Value → CompareResult
unfolding compare_bytes
compare_object_id a (object_id b) = compare_bytes a b
compare_object_id a _ = not_equal

unfoldable pub compare_bool : Bool → Value → CompareResult
unfolding compare_bools
compare_bool a (bool b) = compare_bools a b
compare_bool a _ = not_equal

unfoldable pub compare_date_time : ℕ → ℕ → Value → CompareResult
unfolding compare_int64 unix_nano
compare_date_time a ns (date_time b ns') = compare_int64 (unix_nano a ns) (unix_nano b ns')
compare_date_time a ns _ = not_equal

unfoldable pub compare_timestamp : ℕ → Value → CompareResult
unfolding compare_nat
compare_timestamp a (timestamp b) = compare_nat a b
compare_timestamp a _ = not_equal

unfoldable pub is_null : Value → Bool
is_null null = true
is_null _ = false

-- The outer switch.
unfoldable pub compare_present : Value → Value → Outcome CompareResult
unfolding compare_double compare_int compare_string compare_object_id compare_bool compare_date_time
    compare_timestamp
compare_present (double a) b = ok (compare_double a b)
compare_present (string a) b = ok (compare_string a b)
compare_present (object_id a) b = ok (compare_object_id a b)
compare_present (bool a) b = ok (compare_bool a b)
compare_present (date_time a ns) b = ok (compare_date_time a ns b)
compare_present (regex p o) b = ok not_equal
compare_present (int32 a) b = ok (compare_int (to_int64 a) b)
compare_present (timestamp a) b = ok (compare_timestamp a b)
compare_present (int64 a) b = ok (compare_int a b)
compare_present _ b = panicked

-- `CompareScalars`
unfoldable pub compare_scalars : Value → Value → Outcome CompareResult
unfolding compare_present is_null
compare_scalars a b = if is_null a || is_null b then panicked else compare_present a b
