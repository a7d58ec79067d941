-- ===== src/Handlers/Like.antt =====
-- internal/handlers/common/where.go: regex, which writes a regular expression as a LIKE pattern.
pub mod Matching
use sap_hana_compatibility_l.Prelude.{
  ℕ, zero, suc, ◌+◌, ◌-◌, Bool, true, false, not, ◌&&◌, ◌||◌, List, [], ◌∷◌, ◌++◌, ◌==◌,
  if◌then◌else◌, Bytes, bytes_eq, codes, length, Outcome, ok, err, panicked, stuck, ◌>>=◌, ◌>>◌,
  guard, not_implemented, bad_value,
}
use sap_hana_compatibility_l.GoStd.Strings.{contains_text, runes}
use sap_hana_compatibility_l.Types.Value.{
  Value, document, array, double, string, binary, object_id, bool, date_time, null, regex, int32,
  timestamp, int64, cstring, other,
}

-- The variables of the loop.
pub record LikeState : Type 0 where
  pub sql : Bytes
  pub dot : Bool
  pub escape : Bool

abbrev pub write : Bytes → LikeState → LikeState
write t st = record { sql = st.sql ++ t; dot = st.dot; escape = st.escape }

abbrev pub set_dot : Bool → LikeState → LikeState
set_dot b st = record { sql = st.sql; dot = b; escape = st.escape }

abbrev pub set_escape : LikeState → LikeState
set_escape st = record { sql = st.sql; dot = st.dot; escape = true }

abbrev pub is_wildcard : Bytes → Bool
is_wildcard s = bytes_eq s (codes "%") || bytes_eq s (codes "_")

-- The first rune, `i == 0`.
unfoldable pub first_step : Bytes → LikeState → LikeState
first_step s st =
    if bytes_eq s (codes "^")
    then st
    else if bytes_eq s (codes ".")
    then set_dot true st
    else if is_wildcard s
    then set_escape (write (codes "%^" ++ s) st)
    else write (codes "%" ++ s) st

-- The rest of the round at the last byte, once a pending dot has been written.
unfoldable pub last_rune : Bytes → LikeState → LikeState
last_rune s st =
    if bytes_eq s (codes "$")
    then st
    else if bytes_eq s (codes "*") && st.dot
    then write (codes "%%") st
    else if bytes_eq s (codes ".")
    then write (codes "_%") st
    else if is_wildcard s
    then set_escape (write (codes "^" ++ (s ++ codes "%")) st)
    else write (s ++ codes "%") st

unfoldable pub last_step : Bytes → LikeState → LikeState
unfolding last_rune
last_step s st =
    if st.dot && not (bytes_eq s (codes "*"))
    then if bytes_eq s (codes ".")
      then write (codes "__%") st
      else last_rune s (set_dot false (write (codes "_") st))
    else last_rune s st

-- The rest of a round in the middle, and the round.
unfoldable pub middle_rune : Bytes → LikeState → LikeState
middle_rune s st =
    if bytes_eq s (codes ".")
    then set_dot true st
    else if bytes_eq s (codes "*") && st.dot
    then set_dot false (write (codes "%") st)
    else if is_wildcard s
    then set_escape (write (codes "^" ++ s) st)
    else write s st

unfoldable pub middle_step : Bytes → LikeState → LikeState
unfolding middle_rune
middle_step s st =
    if st.dot && not (bytes_eq s (codes "*"))
    then if bytes_eq s (codes ".")
      then write (codes "_") st
      else middle_rune s (set_dot false (write (codes "_") st))
    else middle_rune s st

unfoldable pub later_step : ℕ → ℕ → Bytes → LikeState → LikeState
unfolding last_step middle_step
later_step len i s st = if i == len - 1 then last_step s st else middle_step s st

-- One round of the loop, at the rune that starts at the byte `i` of `len`.
unfoldable pub like_step : ℕ → ℕ → Bytes → LikeState → LikeState
unfolding first_step later_step
like_step len i s st =
    if i == 0
    then first_step s st
    else if st.dot && not (bytes_eq s (codes "*")) && i == 1
    then if bytes_eq s (codes ".")
      then write (codes "%_") st
      else later_step len i s (set_dot false (write (codes "%_") st))
    else later_step len i s st

unfoldable pub like_loop : ℕ → List (ℕ × Bytes) → LikeState → LikeState
unfolding like_step
like_loop len [] st = st
like_loop len ((i, s) ∷ rs) st = like_loop len rs (like_step len i s st)

abbrev pub like_start : LikeState
like_start = record { sql = []; dot = false; escape = false }

-- The loop over a whole text.
unfoldable pub like_text : Bytes → LikeState
unfolding like_loop runes
like_text value = like_loop (length value) (runes (length value) (length value) 0 value) like_start

unfoldable pub like_of : Bytes → Outcome Bytes
unfolding like_text contains_text
like_of value = do
  guard (not (contains_text (codes "(?i)") value || contains_text (codes "(?-i)") value))
      not_implemented
  let st = like_text value
  ok ((codes "'" ++ (st.sql ++ codes "'")) ++ (if st.escape then codes " ESCAPE '^' " else []))

-- `regex`
unfoldable pub like_pattern : Value → Outcome Bytes
unfolding like_of
like_pattern (regex p []) = like_of p
like_pattern (regex p (b ∷ bs)) = err not_implemented
like_pattern (string s) = like_of s
like_pattern _ = err bad_value
