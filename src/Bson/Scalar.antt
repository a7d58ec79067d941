-- ===== src/Bson/Scalar.antt =====
-- internal/bson/{tag,cstring,string,double,objectid,bool,datetime,regex,int32,int64}.go: the tags and
-- the scalar types. `ReadFrom` takes the bytes still to be read and returns those it leaves; what
-- `WriteTo` writes are the bytes of `MarshalBinary`, which fails for none of these types.
use sap_hana_compatibility_l.Prelude.{
  ℕ, ◌+◌, ◌%◌, ◌^◌, [], ◌∷◌, ◌++◌, Bool, true, false, not, ◌||◌, ◌==◌, if◌then◌else◌, Bytes, length,
  Outcome, ok, err, ◌>>=◌, ◌>>◌, Option, none, some, guard, invalid_length, invalid_terminator,
  invalid_bool, panicked,
}
use sap_hana_compatibility_l.GoStd.{
  le_bytes, read_le, read_full, read_byte, read_until_zero, is_negative32,
}

abbrev pub tag_double : ℕ
tag_double = 0x01

abbrev pub tag_string : ℕ
tag_string = 0x02

abbrev pub tag_document : ℕ
tag_document = 0x03

abbrev pub tag_array : ℕ
tag_array = 0x04

abbrev pub tag_object_id : ℕ
tag_object_id = 0x07

abbrev pub tag_bool : ℕ
tag_bool = 0x08

abbrev pub tag_date_time : ℕ
tag_date_time = 0x09

abbrev pub tag_null : ℕ
tag_null = 0x0a

abbrev pub tag_regex : ℕ
tag_regex = 0x0b

abbrev pub tag_int32 : ℕ
tag_int32 = 0x10

abbrev pub tag_int64 : ℕ
tag_int64 = 0x12

-- `CString.ReadFrom`
unfoldable pub cstring_read_from : Bytes → Outcome (Bytes × Bytes)
cstring_read_from bs = read_until_zero bs

-- `CString.MarshalBinary`: a buffer of zeros, one longer than the string, that it is copied to.
unfoldable pub cstring_marshal_binary : Bytes → Bytes
cstring_marshal_binary s = s ++ 0 ∷ []

-- The bytes before the last one, and the last one.
unfoldable pub split_last : Bytes → Option (Bytes × ℕ)
split_last [] = none
split_last (b ∷ []) = some ([], b)
split_last (b ∷ c ∷ bs) = elim (split_last (c ∷ bs)) [
  | none ↦ none
  | some (front, z) ↦ some (b ∷ front, z)
]

-- `String.ReadFrom`; the read fills the buffer, so that its last byte is there.
unfoldable pub string_read_from : Bytes → Outcome (Bytes × Bytes)
unfolding split_last
string_read_from bs = do
  (l, r) ← read_le 4 bs
  guard (not (is_negative32 l || l == 0)) invalid_length
  (b, rest) ← read_full l r
  (front, z) ← elim (split_last b) [ none ↦ panicked | some p ↦ ok p ]
  guard (z == 0) invalid_terminator
  ok (front, rest)

-- `String.MarshalBinary`
unfoldable pub string_marshal_binary : Bytes → Bytes
string_marshal_binary s = le_bytes 4 ((length s + 1) % 2 ^ 32) ++ (s ++ 0 ∷ [])

-- `ObjectID.ReadFrom`
unfoldable pub object_id_read_from : Bytes → Outcome (Bytes × Bytes)
object_id_read_from bs = read_full 12 bs

-- `Bool.ReadFrom`
unfoldable pub bool_read_from : Bytes → Outcome (Bool × Bytes)
bool_read_from bs = do
  (v, rest) ← read_byte bs
  if v == 0 then ok (false, rest) else if v == 1 then ok (true, rest) else err invalid_bool

-- `Bool.MarshalBinary`
unfoldable pub bool_marshal_binary : Bool → Bytes
bool_marshal_binary b = if b then 1 ∷ [] else 0 ∷ []

-- `Regex.ReadFrom`
unfoldable pub regex_read_from : Bytes → Outcome ((Bytes × Bytes) × Bytes)
unfolding cstring_read_from
regex_read_from bs = do
  (pattern₁, r) ← cstring_read_from bs
  (options, rest) ← cstring_read_from r
  ok ((pattern₁, options), rest)

-- `Regex.MarshalBinary`
unfoldable pub regex_marshal_binary : Bytes → Bytes → Bytes
unfolding cstring_marshal_binary
regex_marshal_binary p o = cstring_marshal_binary p ++ cstring_marshal_binary o

-- `Int32.ReadFrom`
unfoldable pub int32_read_from : Bytes → Outcome (ℕ × Bytes)
int32_read_from bs = read_le 4 bs

-- `Int32.MarshalBinary`
unfoldable pub int32_marshal_binary : ℕ → Bytes
int32_marshal_binary n = le_bytes 4 n

-- `Int64.ReadFrom`
unfoldable pub int64_read_from : Bytes → Outcome (ℕ × Bytes)
int64_read_from bs = read_le 8 bs

-- `Int64.MarshalBinary`
unfoldable pub int64_marshal_binary : ℕ → Bytes
int64_marshal_binary n = le_bytes 8 n

-- `Double.ReadFrom`
unfoldable pub double_read_from : Bytes → Outcome (ℕ × Bytes)
double_read_from bs = read_le 8 bs

-- `Double.MarshalBinary`
unfoldable pub double_marshal_binary : ℕ → Bytes
double_marshal_binary n = le_bytes 8 n

-- `DateTime.ReadFrom`: an instant of whole milliseconds.
unfoldable pub date_time_read_from : Bytes → Outcome ((ℕ × ℕ) × Bytes)
date_time_read_from bs = do (ts, rest) ← read_le 8 bs; ok ((ts, 0), rest)

-- `DateTime.MarshalBinary`: the nanoseconds beyond the milliseconds are dropped.
unfoldable pub date_time_marshal_binary : ℕ → ℕ → Bytes
date_time_marshal_binary ts ns = le_bytes 8 ts
