-- ===== src/Handlers/SqlKey/Paths.antt =====
-- internal/handlers/common/where.go and internal/handlers/crud/msg_update.go: what whereKey and
-- getUpdateKey make of a path of names, of which each may have an index behind it.
use sap_hana_compatibility_l.Prelude.{
  ℕ, ◌+◌, ◌%◌, ◌^◌, ◌<◌, Bool, true, false, Option, none, some, List, [], ◌∷◌, ◌++◌, append_assoc,
  ◌≡◌, refl, ap, ◌∙◌, arith, ◌==◌, All, if◌then◌else◌, Bytes, codes, ok, ltb,
}
use sap_hana_compatibility_l.GoStd.{pos, atoi, itoa}
use sap_hana_compatibility_l.GoStd.Strings.{contains_text, onto_first, split_dots}
use sap_hana_compatibility_l.GoStd.Format.{integer_text}
use sap_hana_compatibility_l.Handlers.SqlKey.{
  quoted, index_sql, key_parts, path_sql, where_key, get_update_key,
}

abbrev pub NoDot : Bytes → Type 0
NoDot = All (λ c. (c == b'.') ≡ false)

-- A name, and the text and the number of an index behind it.
abbrev pub Step : Type 0
Step = Bytes × Option (Bytes × ℕ)

abbrev IsIndex : Bytes × ℕ → Type 0
IsIndex (t, n) = (atoi t ≡ some (pos n)) × NoDot t × (n + 1 < 2 ^ 63)

-- The name is no number, and the index is one that is not negative.
abbrev pub IsStep : Step → Type 0
IsStep (s, none) = (atoi s ≡ none) × NoDot s
IsStep (s, some i) = (atoi s ≡ none) × NoDot s × IsIndex i

abbrev parts : List Step → List Bytes
parts [] = []
parts ((s, none) ∷ steps) = s ∷ parts steps
parts ((s, some (t, n)) ∷ steps) = s ∷ t ∷ parts steps

abbrev join_dots : List Bytes → Bytes
join_dots [] = []
join_dots (p ∷ []) = p
join_dots (p ∷ q ∷ ps) = p ++ b'.' ∷ join_dots (q ∷ ps)

-- `name.0.other`
abbrev pub dotted : List Step → Bytes
dotted steps = join_dots (parts steps)

-- `"name"[1]."other"`
abbrev pub path_text : Bytes → List Step → Bytes
path_text dot [] = []
path_text dot ((s, none) ∷ steps) =
    dot ++ (codes "\"" ++ (s ++ (codes "\"" ++ path_text (codes ".") steps)))
path_text dot ((s, some (t, n)) ∷ steps) =
    dot
    ++ (codes "\""
        ++ (s ++ (codes "\"[" ++ (itoa (n + 1) ++ (codes "]" ++ path_text (codes ".") steps)))))

index_sql-itoa :
    (n : ℕ) (rest : Bytes)
    → n + 1 < 2 ^ 63
    → index_sql (pos n) ++ rest ≡ codes "[" ++ (itoa (n + 1) ++ (codes "]" ++ rest))
unfolding index_sql integer_text
index_sql-itoa n rest h =
    let small : (n + 1) % 2 ^ 64 ≡ n + 1 = omega arith in
    let less : ltb (n + 1) (2 ^ 63) ≡ true = ground arith in
    rw (small, less, append_assoc (itoa (n + 1)) (codes "]") rest)

quoted-append : (s rest : Bytes) → quoted s ++ rest ≡ codes "\"" ++ (s ++ (codes "\"" ++ rest))
unfolding quoted
quoted-append s rest = ap (λ t. 34 ∷ t) (append_assoc s _ _)

abbrev dot_of : Bool → Bytes
dot_of first = if first then [] else codes "."

key_parts-steps :
    (strict is_int first : Bool) (steps : List Step)
    → All IsStep steps
    → key_parts strict is_int first (parts steps) ≡ ok (path_text (dot_of first) steps)
unfolding key_parts
key_parts-steps strict is_int first [] h = refl
key_parts-steps strict is_int first ((s, none) ∷ steps) ((name, no_dot), h) =
    let rest = key_parts-steps strict false false steps h in
    rw (name, key_parts, rest, quoted-append s (path_text (codes ".") steps))
key_parts-steps strict is_int first ((s, some (t, n)) ∷ steps)
      ((name, no_dot, (number, plain, small)), h) =
    let rest = key_parts-steps strict true false steps h in
    rw (
      name,
      key_parts,
      number,
      rest,
      quoted-append s (index_sql (pos n) ++ path_text (codes ".") steps),
      index_sql-itoa n (path_text (codes ".") steps) small,
    )

split_dots-part : (p s : Bytes) → NoDot p → split_dots (p ++ b'.' ∷ s) ≡ p ∷ split_dots s
unfolding split_dots onto_first
split_dots-part [] s h = refl
split_dots-part (c ∷ p) s (h, hs) = let rest = split_dots-part p s hs in rw (h, rest)

split_dots-last : (p : Bytes) → NoDot p → split_dots p ≡ p ∷ []
unfolding split_dots onto_first
split_dots-last [] h = refl
split_dots-last (c ∷ p) (h, hs) = let rest = split_dots-last p hs in rw (h, rest)

split_dots-join :
    (p : Bytes) (ps : List Bytes)
    → NoDot p
    → All NoDot ps
    → split_dots (join_dots (p ∷ ps)) ≡ p ∷ ps
split_dots-join p [] h hs = split_dots-last p h
split_dots-join p (q ∷ ps) h (hq, hs) =
    split_dots-part p (join_dots (q ∷ ps)) h ∙ ap (λ r. p ∷ r) (split_dots-join q ps hq hs)

contains_text-dot : (p s : Bytes) → contains_text (codes ".") (p ++ b'.' ∷ s) ≡ true
unfolding contains_text
contains_text-dot [] s = refl
contains_text-dot (c ∷ p) s = let e = contains_text-dot p s in ground arith

contains_text-NoDot : (p : Bytes) → NoDot p → contains_text (codes ".") p ≡ false
unfolding contains_text
contains_text-NoDot [] h = refl
contains_text-NoDot (c ∷ p) (h, hs) = let e = contains_text-NoDot p hs in ground arith

parts-NoDot : (steps : List Step) → All IsStep steps → All NoDot (parts steps)
parts-NoDot [] h = tt
parts-NoDot ((s, none) ∷ steps) ((name, no_dot), h) = (no_dot, parts-NoDot steps h)
parts-NoDot ((s, some (t, n)) ∷ steps) ((name, no_dot, (number, plain, small)), h) =
    (no_dot, (plain, parts-NoDot steps h))

path_sql-parts :
    (strict : Bool) (p q : Bytes) (ps : List Bytes)
    → All NoDot (p ∷ q ∷ ps)
    → path_sql strict (join_dots (p ∷ q ∷ ps)) ≡ key_parts strict false true (p ∷ q ∷ ps)
unfolding path_sql
path_sql-parts strict p q ps (h, hs) =
    let dots = contains_text-dot p (join_dots (q ∷ ps)) in
    let split = split_dots-join p (q ∷ ps) h hs in rw (dots, split)

path_sql-steps :
    (strict : Bool) (step : Step) (steps : List Step)
    → All IsStep (step ∷ steps)
    → path_sql strict (dotted (step ∷ steps)) ≡ ok (path_text [] (step ∷ steps))
unfolding path_sql quoted
path_sql-steps strict (s, none) [] ((name, no_dot), h) =
    let none_there = contains_text-NoDot s no_dot in rw none_there
path_sql-steps strict (s, none) ((s', none) ∷ steps) h =
    path_sql-parts strict s s' (parts steps) (parts-NoDot ((s, none) ∷ (s', none) ∷ steps) h)
    ∙ key_parts-steps strict false true ((s, none) ∷ (s', none) ∷ steps) h
path_sql-steps strict (s, none) ((s', some (t, n)) ∷ steps) h =
    path_sql-parts strict s s' (t ∷ parts steps)
      (parts-NoDot ((s, none) ∷ (s', some (t, n)) ∷ steps) h)
    ∙ key_parts-steps strict false true ((s, none) ∷ (s', some (t, n)) ∷ steps) h
path_sql-steps strict (s, some (t, n)) steps h =
    path_sql-parts strict s t (parts steps) (parts-NoDot ((s, some (t, n)) ∷ steps) h)
    ∙ key_parts-steps strict false true ((s, some (t, n)) ∷ steps) h

-- A path that begins with a name, in which every name is followed by at most one index, is written
-- the same for filters and for updates: the names in double quotes, joined by dots, and behind a
-- name the index, counted from 1, in brackets. No name is a number, no name or index has a dot, and
-- no index is negative or too large to be counted from 1.
pub where_key-path :
    (step : Step) (steps : List Step)
    → All IsStep (step ∷ steps)
    → (where_key (dotted (step ∷ steps)) ≡ ok (path_text [] (step ∷ steps)))
      × (get_update_key (dotted (step ∷ steps)) ≡ ok (path_text [] (step ∷ steps)))
unfolding where_key get_update_key
where_key-path step steps h = (path_sql-steps true step steps h, path_sql-steps false step steps h)
