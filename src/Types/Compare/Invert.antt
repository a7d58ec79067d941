-- ===== src/Types/Compare/Invert.antt =====
-- internal/types/compare.go: the two orders in which two values can be compared.
use sap_hana_compatibility_l.Prelude.{
  ℕ, ◌+◌, ◌%◌, ◌^◌, [], ◌∷◌, Bool, true, false, not, ◌≡◌, refl, arith, Bytes, bytes_eq,
  bytes_eq_comm, Bool-cases, inl, inr, ok,
}
use sap_hana_compatibility_l.Types.Value.{
  Value, double, string, object_id, bool, date_time, regex, int32, timestamp, int64,
}
use sap_hana_compatibility_l.Types.Compare.{
  CompareResult, equal, less, greater, not_equal, filter_compare_invert, compare_ordered,
  compare_nat, compare_int64, compare_float, compare_numbers, compare_bytes, compare_bools,
  bytes_less, is_nan, float_place, to_int64, compare_double, compare_int, compare_string,
  compare_object_id, compare_bool, compare_date_time, compare_timestamp, unix_nano, is_null,
  compare_present, compare_scalars,
}

compare_nat-invert : (a b : ℕ) → compare_nat b a ≡ filter_compare_invert (compare_nat a b)
unfolding compare_nat compare_ordered filter_compare_invert
compare_nat-invert a b = ground arith

compare_int64-invert : (a b : ℕ) → compare_int64 b a ≡ filter_compare_invert (compare_int64 a b)
unfolding compare_int64
compare_int64-invert a b = compare_nat-invert ((a + 2 ^ 63) % 2 ^ 64) ((b + 2 ^ 63) % 2 ^ 64)

compare_float-invert : (a b : ℕ) → compare_float b a ≡ filter_compare_invert (compare_float a b)
unfolding compare_float filter_compare_invert
compare_float-invert a b = elim (Bool-cases (is_nan a)) [
  | inl e ↦ elim (Bool-cases (is_nan b)) [ inl f ↦ rw (e, f) | inr f ↦ rw (e, f) ]
  | inr e ↦ elim (Bool-cases (is_nan b)) [
    | inl f ↦ rw (e, f)
    | inr f ↦ rw (e, f) (compare_nat-invert (float_place a) (float_place b))
  ]
]

bytes_less-other : (a b : Bytes) → bytes_eq a b ≡ false → bytes_less b a ≡ not (bytes_less a b)
unfolding bytes_less bytes_eq
bytes_less-other [] [] h = cc
bytes_less-other [] (b ∷ bs) h = refl
bytes_less-other (a ∷ as₁) [] h = refl
bytes_less-other (a ∷ as₁) (b ∷ bs) h = ground (arith, bytes_less-other as₁ bs)

compare_bytes-invert : (a b : Bytes) → compare_bytes b a ≡ filter_compare_invert (compare_bytes a b)
unfolding compare_bytes compare_ordered filter_compare_invert
compare_bytes-invert a b = ground (arith, bytes_eq_comm b a, bytes_less-other a b)

compare_bools-invert : (a b : Bool) → compare_bools b a ≡ filter_compare_invert (compare_bools a b)
unfolding compare_bools filter_compare_invert
compare_bools-invert false false = refl
compare_bools-invert false true = refl
compare_bools-invert true false = refl
compare_bools-invert true true = refl

invert_twice : (r : CompareResult) → r ≡ filter_compare_invert (filter_compare_invert r)
unfolding filter_compare_invert
invert_twice equal = refl
invert_twice less = refl
invert_twice greater = refl
invert_twice not_equal = refl

compare_double-invert :
    (a b : ℕ) → compare_double b (double a) ≡ filter_compare_invert (compare_double a (double b))
unfolding compare_double filter_compare_invert
compare_double-invert a b = elim (Bool-cases (is_nan a)) [
  | inl e ↦ elim (Bool-cases (is_nan b)) [ inl f ↦ rw (e, f) | inr f ↦ rw (e, f) ]
  | inr e ↦ elim (Bool-cases (is_nan b)) [
    | inl f ↦ rw (e, f)
    | inr f ↦ rw (e, f) (compare_nat-invert (float_place a) (float_place b))
  ]
]

-- The results, without the runs.
invert_results :
    (x y r s : CompareResult)
    → y ≡ filter_compare_invert x
    → ok x ≡ ok r
    → ok y ≡ ok s
    → s ≡ filter_compare_invert r
invert_results x y r s e p q = ground (arith, e, p, q)

compare_present-invert :
    (a b : Value) (r s : CompareResult)
    → compare_present a b ≡ ok r
    → compare_present b a ≡ ok s
    → s ≡ filter_compare_invert r
unfolding compare_present compare_int compare_string compare_object_id compare_bool
    compare_date_time compare_timestamp compare_int64 filter_compare_invert
compare_present-invert (double a) (double b) r s p q =
    invert_results _ _ r s (compare_double-invert a b) p q
compare_present-invert (double a) (int32 b) r s p q =
    invert_results (compare_numbers a (to_int64 b)) _ r s refl (unfold compare_double in p) q
compare_present-invert (double a) (int64 b) r s p q =
    invert_results (compare_numbers a b) _ r s refl (unfold compare_double in p) q
compare_present-invert (string a) (string b) r s p q =
    invert_results _ _ r s (compare_bytes-invert a b) p q
compare_present-invert (object_id a) (object_id b) r s p q =
    invert_results _ _ r s (compare_bytes-invert a b) p q
compare_present-invert (bool a) (bool b) r s p q =
    invert_results _ _ r s (compare_bools-invert a b) p q
compare_present-invert (date_time a m) (date_time b n) r s p q =
    invert_results _ _ r s (compare_int64-invert (unix_nano a m) (unix_nano b n)) p q
compare_present-invert (int32 a) (double b) r s p q =
    invert_results _ (compare_numbers b (to_int64 a)) r s (invert_twice _) p
      (unfold compare_double in q)
compare_present-invert (int32 a) (int32 b) r s p q =
    invert_results _ _ r s (compare_int64-invert (to_int64 a) (to_int64 b)) p q
compare_present-invert (int32 a) (int64 b) r s p q =
    invert_results _ _ r s (compare_int64-invert (to_int64 a) b) p q
compare_present-invert (int64 a) (double b) r s p q =
    invert_results _ (compare_numbers b a) r s (invert_twice _) p (unfold compare_double in q)
compare_present-invert (int64 a) (int32 b) r s p q =
    invert_results _ _ r s (compare_int64-invert a (to_int64 b)) p q
compare_present-invert (int64 a) (int64 b) r s p q =
    invert_results _ _ r s (compare_int64-invert a b) p q
compare_present-invert (timestamp a) (timestamp b) r s p q =
    invert_results _ _ r s (compare_nat-invert a b) p q
compare_present-invert (regex x y) (double b) r s p q = unfold compare_double in cc
compare_present-invert _ _ r s p q = unfold compare_double in cc

-- Where `CompareScalars` panics for neither order of two values, the one result is the other with
-- `less` and `greater` swapped.
pub compare_scalars-invert :
    (a b : Value) (r s : CompareResult)
    → compare_scalars a b ≡ ok r
    → compare_scalars b a ≡ ok s
    → s ≡ filter_compare_invert r
unfolding compare_scalars
compare_scalars-invert a b r s p q = elim (Bool-cases (is_null a)) [
  | inl e ↦ absurd (ground arith)
  | inr e ↦ elim (Bool-cases (is_null b)) [
    | inl f ↦ absurd (ground arith)
    | inr f ↦ compare_present-invert a b r s (rw (e, f) at p) (rw (e, f) at q)
  ]
]
