-- ===== src/GoStd.antt =====
-- The functions of Go's standard library that the modelled packages call: little-endian integers
-- of `encoding/binary`, `io.ReadFull` and `ReadBytes` of `bufio`, `strconv.Itoa`, `strconv.Atoi` and
-- `utf8.ValidString`. A reader is the list of the bytes that are still to be read.
pub mod Laws
pub mod Reads
pub mod Decimal
pub mod Strings
pub mod Format
pub use Prim.Native.Nat.{bit_and}
use sap_hana_compatibility_l.Prelude.{
  ℕ, zero, suc, ◌+◌, ◌-◌, ◌*◌, ◌/◌, ◌%◌, ◌^◌, Bool, true, false, ◌&&◌, Option, none, some, List, [],
  ◌∷◌, ◌++◌, ltb, leb, ◌==◌, if◌then◌else◌, Bytes, Outcome, Error, ok, err, eof, unexpected_eof,
  ◌>>=◌,
}

-- `negsuc n` is -(n + 1).
pub data ℤ : Type 0 where
  pos : ℕ → ℤ
  negsuc : ℕ → ℤ

-- The two's-complement pattern of a negative int32.
abbrev pub is_negative32 : ℕ → Bool
is_negative32 n = leb (2 ^ 31) n

-- What `binary.Write` puts out for an integer of `w` bytes.
unfoldable pub le_bytes : ℕ → ℕ → Bytes
le_bytes zero n = []
le_bytes (suc w) n = (n % 256) ∷ le_bytes w (n / 256)

unfoldable pub from_le : Bytes → ℕ
from_le [] = 0
from_le (b ∷ bs) = b + 256 * from_le bs

-- The first `n` bytes and the others, if there are as many.
unfoldable pub take_exact : ℕ → Bytes → Option (Bytes × Bytes)
take_exact zero bs = some ([], bs)
take_exact (suc n) [] = none
take_exact (suc n) (b ∷ bs) = elim (take_exact n bs) [
  | none ↦ none
  | some (xs, ys) ↦ some (b ∷ xs, ys)
]

-- The error of a read that met the end: `io.EOF` if it had read nothing.
unfoldable pub end_error : Bytes → Error
end_error [] = eof
end_error (b ∷ bs) = unexpected_eof

-- `io.ReadFull` into a buffer of `n` bytes.
unfoldable pub read_full : ℕ → Bytes → Outcome (Bytes × Bytes)
unfolding take_exact end_error
read_full n bs = elim (take_exact n bs) [ none ↦ err (end_error bs) | some p ↦ ok p ]

-- `binary.Read` of an integer of `w` bytes.
unfoldable pub read_le : ℕ → Bytes → Outcome (ℕ × Bytes)
unfolding read_full from_le
read_le w bs = do (b, rest) ← read_full w bs; ok (from_le b, rest)

-- `ReadByte`
unfoldable pub read_byte : Bytes → Outcome (ℕ × Bytes)
read_byte [] = err eof
read_byte (b ∷ bs) = ok (b, bs)

-- `ReadBytes(0)`, without the delimiter.
unfoldable pub read_until_zero : Bytes → Outcome (Bytes × Bytes)
read_until_zero [] = err eof
read_until_zero (b ∷ bs) =
    let more = read_until_zero bs >>= (λ (s, rest). ok (b ∷ s, rest)) in
    if b == 0 then ok ([], bs) else more

-- The decimal digits of `n`; `n + 1` rounds are enough.
unfoldable pub digits : ℕ → ℕ → Bytes
digits zero n = []
digits (suc f) n =
    let front = digits f (n / 10) in (if n / 10 == 0 then [] else front) ++ (48 + n % 10) ∷ []

-- `strconv.Itoa` at a number that is not negative.
unfoldable pub itoa : ℕ → Bytes
unfolding digits
itoa n = digits (suc n) n

unfoldable pub parse_digits : ℕ → Bytes → Option ℕ
parse_digits acc [] = some acc
parse_digits acc (b ∷ bs) =
    let rest = parse_digits (acc * 10 + (b - 48)) bs in if leb 48 b && leb b 57 then rest else none

unfoldable pub parse_number : Bytes → Option ℕ
unfolding parse_digits
parse_number [] = none
parse_number (b ∷ bs) = parse_digits 0 (b ∷ bs)

-- An int64, or the error of a number that is out of range.
unfoldable pub signed : Bool → Option ℕ → Option ℤ
signed minus none = none
signed true (some zero) = some (pos 0)
signed true (some (suc n)) = if ltb n (2 ^ 63) then some (negsuc n) else none
signed false (some n) = if ltb n (2 ^ 63) then some (pos n) else none

-- `strconv.Atoi`
unfoldable pub atoi : Bytes → Option ℤ
unfolding parse_number signed
atoi [] = none
atoi (b ∷ bs) =
    if b == b'-'
    then signed true (parse_number bs)
    else if b == b'+'
    then signed false (parse_number bs)
    else signed false (parse_number (b ∷ bs))

-- The ranges of the bytes that must follow a lead byte, or `none` if it cannot lead.
unfoldable pub continuation : ℕ → Option (List (ℕ × ℕ))
continuation b =
    let tail : ℕ × ℕ = (0x80, 0xbf) in
    if ltb b 0x80
    then some []
    else if ltb b 0xc2
    then none
    else if ltb b 0xe0
    then some (tail ∷ [])
    else if b == 0xe0
    then some ((0xa0, 0xbf) ∷ tail ∷ [])
    else if b == 0xed
    then some ((0x80, 0x9f) ∷ tail ∷ [])
    else if ltb b 0xf0
    then some (tail ∷ tail ∷ [])
    else if b == 0xf0
    then some ((0x90, 0xbf) ∷ tail ∷ tail ∷ [])
    else if ltb b 0xf4
    then some (tail ∷ tail ∷ tail ∷ [])
    else if b == 0xf4
    then some ((0x80, 0x8f) ∷ tail ∷ tail ∷ [])
    else none

-- The first argument is what the character that is being read still needs.
unfoldable pub utf8_from : List (ℕ × ℕ) → Bytes → Bool
unfolding continuation
utf8_from [] [] = true
utf8_from (r ∷ rs) [] = false
utf8_from [] (b ∷ bs) = elim (continuation b) [ none ↦ false | some rs ↦ utf8_from rs bs ]
utf8_from ((lo, hi) ∷ rs) (b ∷ bs) =
    let rest = utf8_from rs bs in if leb lo b && leb b hi then rest else false

-- `utf8.ValidString`
unfoldable pub valid_string : Bytes → Bool
unfolding utf8_from
valid_string bs = utf8_from [] bs
