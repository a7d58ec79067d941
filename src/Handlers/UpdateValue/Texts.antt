-- ===== src/Handlers/UpdateValue/Texts.antt =====
-- internal/handlers/crud/msg_update.go and internal/handlers/common/where.go: getUpdateValue and
-- PrepareArrayForSQL at arrays of texts.
use sap_hana_compatibility_l.Prelude.{
  ◌==◌, Bool, true, false, List, [], ◌∷◌, ◌++◌, some, ◌≡◌, refl, ap, All, All-append, Bytes, codes,
  ok, if◌then◌else◌,
}
use sap_hana_compatibility_l.GoStd.Format.{Printing, regular, sprintf}
use sap_hana_compatibility_l.Types.Value.{Items, array, string, nil, cons}
use sap_hana_compatibility_l.Handlers.SqlValue.{
  piece, array_piece, array_pieces, array_next, close_array, prepare_array_for_sql, scalar_piece,
  scalar_sql,
}
use sap_hana_compatibility_l.Handlers.UpdateValue.{finished, get_update_value}
use sap_hana_compatibility_l.Handlers.Assignments.{joined}

abbrev pub NoPercent : Bytes → Type 0
NoPercent s = All (λ c. (c == b'%') ≡ false) s

abbrev pub texts : List Bytes → Items
texts [] = nil
texts (s ∷ ss) = cons (string s) (texts ss)

-- `'s'`
abbrev pub quotes : List Bytes → List Bytes
quotes [] = []
quotes (s ∷ ss) = (codes "'" ++ (s ++ codes "'")) ∷ quotes ss

append-NoPercent : (s t : Bytes) → NoPercent s → NoPercent t → NoPercent (s ++ t)
append-NoPercent s t hs ht = All-append (λ c. (c == b'%') ≡ false) s t hs ht

joined-NoPercent :
    (first sep : Bytes) (ss : List Bytes)
    → NoPercent first
    → NoPercent sep
    → All NoPercent ss
    → NoPercent (joined first sep (quotes ss))
joined-NoPercent first sep [] hf hs h = tt
joined-NoPercent first sep (s ∷ ss) hf hs (p, h) =
    let quoted = append-NoPercent s (codes "'") p (refl, tt) in
    append-NoPercent first _ hf (
      append-NoPercent (codes "'" ++ (s ++ codes "'")) _ (refl, quoted)
        (joined-NoPercent sep sep ss hs hs h))

-- A text without a directive is its own format.
regular-plain : (P : Printing) (s : Bytes) → NoPercent s → regular P s [] ≡ some s
unfolding regular
regular-plain P [] h = refl
regular-plain P (c ∷ []) (h, none_left) = rw h
regular-plain P (c ∷ d ∷ s) (h, others) =
    let rest = regular-plain P (d ∷ s) others in rw (regular, h, rest)

sprintf-plain : (P : Printing) (s : Bytes) → NoPercent s → sprintf P s [] ≡ s
unfolding sprintf
sprintf-plain P s h = let e = regular-plain P s h in rw (sprintf, e)

array_pieces-texts :
    (P : Printing) (first : Bool) (ss : List Bytes)
    → array_pieces P first (texts ss)
      ≡ ok (piece (joined (if first then [] else codes ", ") (codes ", ") (quotes ss)) [])
unfolding array_piece array_next scalar_piece scalar_sql sprintf
array_pieces-texts P first [] = refl
array_pieces-texts P first (s ∷ ss) = let rest = array_pieces-texts P false ss in rw (rest)

-- An array of texts, none of them with a %, becomes the texts between single quotes, as they are and
-- in their order, with commas between them, in brackets.
pub get_update_value-texts :
    (P : Printing) (ss : List Bytes)
    → All NoPercent ss
    → get_update_value P (array (texts ss))
      ≡ ok (codes "[" ++ (joined [] (codes ", ") (quotes ss) ++ codes "]"))
unfolding get_update_value prepare_array_for_sql close_array finished
get_update_value-texts P ss h =
    let sql = codes "[" ++ (joined [] (codes ", ") (quotes ss) ++ codes "]") in
    let plain : NoPercent sql = (
      refl,
      append-NoPercent _ (codes "]") (joined-NoPercent [] (codes ", ") ss tt (refl, (refl, tt)) h)
          (refl, tt),
    ) in
    let pieces = array_pieces-texts P true ss in
    let same = sprintf-plain P sql plain in rw (pieces, same) (ap ok same)
