-- ===== src/Bson/ScalarLaws.antt =====
-- internal/bson: the scalar types read back what they write.
use sap_hana_compatibility_l.Prelude.{
  ℕ, ◌+◌, ◌%◌, ◌^◌, ◌<◌, [], ◌∷◌, ◌++◌, Bool, true, false, some, ◌≡◌, refl, arith, Bytes, length,
  lengths, length-bytes_append, not, ◌||◌, append_assoc, ok, ◌==◌,
}
use sap_hana_compatibility_l.GoStd.{le_bytes, read_byte, is_negative32}
use sap_hana_compatibility_l.GoStd.Laws.{
  NoZero, read_le-le_bytes, read_full_exact, read_until_zero-append, length-le_bytes,
}
use sap_hana_compatibility_l.Bson.Scalar.{
  cstring_read_from, cstring_marshal_binary, split_last, string_read_from, string_marshal_binary,
  bool_read_from, bool_marshal_binary, regex_read_from, regex_marshal_binary,
}

pub split_last-snoc : (s : Bytes) (z : ℕ) → split_last (s ++ z ∷ []) ≡ some (s, z)
unfolding split_last
split_last-snoc [] z = refl
split_last-snoc (b ∷ []) z = refl
split_last-snoc (b ∷ c ∷ s) z = rw (split_last-snoc (c ∷ s) z)

pub cstring_read_from-marshal :
    (s rest : Bytes)
    → NoZero s
    → cstring_read_from (cstring_marshal_binary s ++ rest) ≡ ok (s, rest)
unfolding cstring_read_from cstring_marshal_binary
cstring_read_from-marshal s rest h = rw append_assoc (read_until_zero-append s rest h)

pub string_read_from-marshal :
    (s rest : Bytes)
    → length s + 1 < 2 ^ 31
    → string_read_from (string_marshal_binary s ++ rest) ≡ ok (s, rest)
unfolding string_read_from string_marshal_binary
string_read_from-marshal s rest h =
    let l : ℕ = (length s + 1) % 2 ^ 32 in
    let b : Bytes = s ++ 0 ∷ [] in
    let fits : not (is_negative32 l || l == 0) ≡ true = ground arith in
    let size : length b ≡ l = omega (lengths, length-bytes_append s (0 ∷ [])) in
    rw (
      append_assoc (le_bytes 4 l) b rest,
      read_le-le_bytes 4 l (b ++ rest) (omega arith),
      fits,
      read_full_exact l b rest size,
      split_last-snoc s 0,
    )

pub bool_read_from-marshal :
    (b : Bool) (rest : Bytes) → bool_read_from (bool_marshal_binary b ++ rest) ≡ ok (b, rest)
unfolding bool_read_from bool_marshal_binary
bool_read_from-marshal true rest = unfold read_byte in refl
bool_read_from-marshal false rest = unfold read_byte in refl

pub regex_read_from-marshal :
    (p o rest : Bytes)
    → NoZero p
    → NoZero o
    → regex_read_from (regex_marshal_binary p o ++ rest) ≡ ok ((p, o), rest)
unfolding regex_read_from regex_marshal_binary
regex_read_from-marshal p o rest hp ho = rw (
  append_assoc (cstring_marshal_binary p) (cstring_marshal_binary o) rest,
  cstring_read_from-marshal p (cstring_marshal_binary o ++ rest) hp,
  cstring_read_from-marshal o rest ho,
)

pub length-string : (s : Bytes) → length (string_marshal_binary s) ≡ length s + 5
unfolding string_marshal_binary
length-string s = omega (
  lengths,
  length-le_bytes 4 ((length s + 1) % 2 ^ 32),
  length-bytes_append (le_bytes 4 ((length s + 1) % 2 ^ 32)) (s ++ 0 ∷ []),
  length-bytes_append s (0 ∷ []),
)

pub length-cstring : (s : Bytes) → length (cstring_marshal_binary s) ≡ length s + 1
unfolding cstring_marshal_binary
length-cstring s = omega (lengths, length-bytes_append s (0 ∷ []))
