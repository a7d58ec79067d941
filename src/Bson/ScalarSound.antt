-- ===== src/Bson/ScalarSound.antt =====
-- internal/bson: the scalar types read only what they write.
use sap_hana_compatibility_l.Prelude.{
  ℕ, ◌+◌, ◌%◌, ◌^◌, ◌<◌, ◌≡◌, refl, ap, sym, ◌∙◌, none, some, [], ◌∷◌, ◌++◌, arith, ◌==◌, ==_iff,
  not, ◌||◌, length, lengths, length-bytes_append, append_assoc, All, Bytes, Outcome, ok, ◌>>=◌,
  Ensures, holds, failed, Ensures-bind, Ensures-map, Ensures-if, Ensures-guard, true, panicked,
  invalid_length, invalid_terminator,
}
use sap_hana_compatibility_l.GoStd.{le_bytes, is_negative32}
use sap_hana_compatibility_l.GoStd.Laws.{IsByte}
use sap_hana_compatibility_l.GoStd.Reads.{
  read_full-Ensures, read_le-Ensures, read_byte-Ensures, read_until_zero-Ensures,
}
use sap_hana_compatibility_l.Types.Value.{
  Value, double, string, object_id, bool, date_time, regex, int32, int64,
}
use sap_hana_compatibility_l.Bson.Scalar.{
  tag_double, tag_string, tag_object_id, tag_bool, tag_date_time, tag_null, tag_regex, tag_int32,
  tag_int64, cstring_read_from, cstring_marshal_binary, split_last, string_read_from,
  string_marshal_binary, bool_read_from, bool_marshal_binary, regex_read_from, regex_marshal_binary,
  object_id_read_from, double_read_from, double_marshal_binary, int32_read_from,
  int32_marshal_binary, int64_read_from, int64_marshal_binary, date_time_read_from,
  date_time_marshal_binary,
}
use sap_hana_compatibility_l.Bson.Marshal.{marshal_value}
use sap_hana_compatibility_l.Bson.Read.{read_scalar}

pub cstring-Ensures :
    (bs : Bytes) → Ensures (λ (s, r). bs ≡ cstring_marshal_binary s ++ r) (cstring_read_from bs)
unfolding cstring_read_from cstring_marshal_binary
cstring-Ensures bs =
    Ensures-map (λ (s, r) p. p ∙ sym (append_assoc s (0 ∷ []) r)) (read_until_zero-Ensures bs)

split_last-some :
    (b : ℕ) (bs : Bytes)
    → (s : Bytes) × (z : ℕ) × (split_last (b ∷ bs) ≡ some (s, z)) × (b ∷ bs ≡ s ++ z ∷ [])
unfolding split_last
split_last-some b [] = ([], b, refl, refl)
split_last-some b (c ∷ bs) =
    let (s, z, e, p) = split_last-some c bs in (b ∷ s, z, rw e, ap (λ xs. b ∷ xs) p)

split_last_sound :
    (b : Bytes)
    → 0 < length b
    → Ensures (λ (s, z). b ≡ s ++ z ∷ []) (elim (split_last b) [ none ↦ panicked | some p ↦ ok p ])
split_last_sound [] h = absurd (omega arith)
split_last_sound (b ∷ bs) h = let (s, z, e, p) = split_last-some b bs in rw e (holds p)

-- The parts of a string that was read, put together again.
string_parts :
    (bs r b s rest : Bytes) (l z : ℕ)
    → bs ≡ le_bytes 4 l ++ r
    → not (is_negative32 l || l == 0) ≡ true
    → r ≡ b ++ rest
    → length b ≡ l
    → b ≡ s ++ z ∷ []
    → (z == 0) ≡ true
    → bs ≡ string_marshal_binary s ++ rest
unfolding string_marshal_binary
string_parts bs r b s rest l z p ok_len q len last zero =
    let z_zero : z ≡ 0 = (==_iff z 0).0 zero in
    let size : length b ≡ length s + 1 =
      ap (λ (xs : Bytes). length xs) last ∙ omega (lengths, length-bytes_append s (z ∷ [])) in
    let narrow : l < 2 ^ 31 = ground arith in
    let same : (length s + 1) % 2 ^ 32 ≡ l = omega arith in
    let body : b ≡ s ++ 0 ∷ [] = last ∙ ap (λ (y : ℕ). s ++ y ∷ []) z_zero in
    p ∙ rw (same, q, body) (sym (append_assoc (le_bytes 4 l) (s ++ 0 ∷ []) rest))

string-Ensures :
    (bs : Bytes)
    → All IsByte bs
    → Ensures (λ (s, r). bs ≡ string_marshal_binary s ++ r) (string_read_from bs)
unfolding string_read_from
string-Ensures bs h = Ensures-bind (read_le-Ensures 4 bs h) λ (l, r) p.
    Ensures-bind (Ensures-guard (not (is_negative32 l || l == 0)) invalid_length) λ _ ok_len.
      Ensures-bind (read_full-Ensures l r) λ (b, rest) (q, len).
        Ensures-bind (split_last_sound b (ground arith)) λ (s, z) last.
          Ensures-bind (Ensures-guard (z == 0) invalid_terminator)
            λ _ zero. holds (string_parts bs r b s rest l z p ok_len q len last zero)

bool-Ensures :
    (bs : Bytes) → Ensures (λ (b, r). bs ≡ bool_marshal_binary b ++ r) (bool_read_from bs)
unfolding bool_read_from bool_marshal_binary
bool-Ensures bs = Ensures-bind (read_byte-Ensures bs) λ (b, r) p.
    Ensures-if (b == 0) (λ e. holds (ground arith))
      (λ _. Ensures-if (b == 1) (λ e. holds (ground arith)) (λ _. failed))

regex-Ensures :
    (bs : Bytes) → Ensures (λ ((p, o), r). bs ≡ regex_marshal_binary p o ++ r) (regex_read_from bs)
unfolding regex_read_from regex_marshal_binary
regex-Ensures bs = Ensures-bind (cstring-Ensures bs) λ (p, r) e.
    Ensures-bind (cstring-Ensures r) λ (o, rest) e'.
      holds
        (e ∙ rw e' (sym (append_assoc (cstring_marshal_binary p) (cstring_marshal_binary o) rest)))

date_time-Ensures :
    (bs : Bytes)
    → All IsByte bs
    → Ensures (λ ((t, n), r). bs ≡ date_time_marshal_binary t n ++ r) (date_time_read_from bs)
unfolding date_time_read_from date_time_marshal_binary
date_time-Ensures bs h = Ensures-bind (read_le-Ensures 8 bs h) λ (t, r) p. holds p

-- The value's own bytes stand in front, and they are read for the tag that it is written with.
abbrev pub Written : ℕ → Bytes → Value × Bytes → Type 0
Written tag bs (v, rest) =
    (payload : Bytes) × (marshal_value v ≡ ok (tag, payload)) × (bs ≡ payload ++ rest)

-- A branch of the switch over the tags.
branch :
    {A : Type 0} (tag t : ℕ) (bs : Bytes) (run : Outcome (A × Bytes)) (make : A → Value)
    (written : A → Bytes)
    → ((a : A) → marshal_value (make a) ≡ ok (t, written a))
    → Ensures (λ (a, r). bs ≡ written a ++ r) run
    → (tag == t) ≡ true
    → Ensures (Written tag bs) (run >>= (λ (a, r). ok (make a, r)))
branch tag t bs run make written same reads e = Ensures-bind reads λ (a, r) p.
    holds (written a, same a ∙ ap (λ k. ok (k, written a)) (sym ((==_iff tag t).0 e)), p)

-- A scalar is read for the tag that it is written with, from the bytes that it is written as.
pub read_scalar-Ensures :
    (tag : ℕ) (bs : Bytes) → All IsByte bs → Ensures (Written tag bs) (read_scalar tag bs)
unfolding read_scalar marshal_value double_read_from double_marshal_binary int32_read_from
    int32_marshal_binary int64_read_from int64_marshal_binary date_time_read_from
    date_time_marshal_binary object_id_read_from
read_scalar-Ensures tag bs h =
    Ensures-if (tag == tag_double)
      (branch tag tag_double bs _ double _ (λ _. refl) (read_le-Ensures 8 bs h))
      λ _.
        Ensures-if (tag == tag_string)
          (branch tag tag_string bs _ string _ (λ _. refl) (string-Ensures bs h))
          λ _.
            Ensures-if (tag == tag_object_id)
              (branch tag tag_object_id bs _ object_id (λ x. x) (λ _. refl)
                (Ensures-map (λ _ p. p.0) (read_full-Ensures 12 bs)))
              λ _.
                Ensures-if (tag == tag_bool)
                  (branch tag tag_bool bs _ bool _ (λ _. refl) (bool-Ensures bs))
                  λ _.
                    Ensures-if (tag == tag_date_time)
                      (branch tag tag_date_time bs (date_time_read_from bs)
                        (λ (t, n). date_time t n) (λ (t, n). date_time_marshal_binary t n)
                        (λ _. refl) (date_time-Ensures bs h))
                      λ _.
                        Ensures-if (tag == tag_null)
                          (λ e.
                            holds
                              ([], ap (λ k. ok (k, [])) (sym ((==_iff tag tag_null).0 e)), refl))
                          λ _.
                            Ensures-if (tag == tag_regex)
                              (branch tag tag_regex bs _ (λ (p, o). regex p o)
                                (λ (p, o). regex_marshal_binary p o) (λ _. refl) (regex-Ensures bs))
                              λ _.
                                Ensures-if (tag == tag_int32)
                                  (branch tag tag_int32 bs _ int32 _ (λ _. refl)
                                    (read_le-Ensures 4 bs h))
                                  λ _.
                                    Ensures-if (tag == tag_int64)
                                      (branch tag tag_int64 bs _ int64 _ (λ _. refl)
                                        (read_le-Ensures 8 bs h))
                                      λ _. failed
