-- ===== src/Handlers/Like/Matching.antt =====
-- internal/handlers/common/where.go: regex at plain texts, with and without anchors.
use sap_hana_compatibility_l.Prelude.{
  ℕ, zero, suc, ◌+◌, ◌-◌, ◌≤◌, Bool, true, false, [], ◌∷◌, ◌++◌, append_assoc, append-nil, length,
  ◌≡◌, refl, sym, ap, ◌∙◌, arith, ◌==◌, ltb, All, Bytes, bytes_eq, codes, ok,
}
use sap_hana_compatibility_l.GoStd.{continuation}
use sap_hana_compatibility_l.GoStd.Strings.{contains_text, take_ranges, first_rune, runes}
use sap_hana_compatibility_l.Types.Value.{regex}
use sap_hana_compatibility_l.Handlers.Like.{
  LikeState, like_start, first_step, last_rune, last_step, middle_step, later_step, like_step,
  like_loop, like_text, like_of, like_pattern,
}

-- An ASCII character that `regex` gives no meaning of its own, and that is no wildcard of LIKE. In
-- regular expressions some of them have one, such as + and ?, which `regex` takes as they are.
pub record IsPlain (c : ℕ) : Type 0 where
  pub ascii : ltb c 128 ≡ true
  pub no_dot : (c == b'.') ≡ false
  pub no_star : (c == b'*') ≡ false
  pub no_dollar : (c == b'$') ≡ false
  pub no_percent : (c == b'%') ≡ false
  pub no_underscore : (c == b'_') ≡ false
  pub no_caret : (c == b'^') ≡ false
  pub no_parenthesis : (c == b'(') ≡ false

abbrev written : Bytes → LikeState
written sql = record { sql = sql; dot = false; escape = false }

first_rune-ascii : (c : ℕ) (s : Bytes) → ltb c 128 ≡ true → first_rune c s ≡ (c ∷ [], s)
unfolding first_rune continuation take_ranges
first_rune-ascii c s h = rw (h, first_rune)

first_step-IsPlain :
    (c : ℕ) → IsPlain c → first_step (c ∷ []) like_start ≡ written (codes "%" ++ c ∷ [])
unfolding first_step bytes_eq
first_step-IsPlain c p = rw (p.no_caret, p.no_dot, p.no_percent, p.no_underscore)

middle_step-IsPlain :
    (c : ℕ) (sql : Bytes) → IsPlain c → middle_step (c ∷ []) (written sql) ≡ written (sql ++ c ∷ [])
unfolding middle_step bytes_eq
middle_step-IsPlain c sql p = rw (p.no_dot, p.no_star, p.no_percent, p.no_underscore)

last_step-IsPlain :
    (c : ℕ) (sql : Bytes)
    → IsPlain c
    → last_step (c ∷ []) (written sql) ≡ written (sql ++ (c ∷ codes "%"))
unfolding last_step bytes_eq
last_step-IsPlain c sql p = rw (p.no_dollar, p.no_dot, p.no_star, p.no_percent, p.no_underscore)

abbrev back : Bool → Bytes
back true = codes "$"
back false = []

abbrev front : Bool → Bytes
front true = codes "^"
front false = []

-- What stands for anything where there is no anchor.
abbrev percent : Bool → Bytes
percent true = []
percent false = codes "%"

last-like_step :
    (total i : ℕ) (s sql : Bytes)
    → 1 ≤ i
    → i + 1 ≡ total
    → like_step total i s (written sql) ≡ last_step s (written sql)
unfolding like_step later_step
last-like_step total i s sql le e =
    let later : (i == 0) ≡ false = ground arith in
    let last : (i == total - 1) ≡ true = ground arith in rw (later, last)

middle-like_step :
    (total i : ℕ) (s sql : Bytes)
    → 1 ≤ i
    → suc (suc i) ≤ total
    → like_step total i s (written sql) ≡ middle_step s (written sql)
unfolding like_step later_step
middle-like_step total i s sql le lt =
    let later : (i == 0) ≡ false = ground arith in
    let last : (i == total - 1) ≡ false = ground arith in rw (later, last)

runes-ascii :
    (f total i c : ℕ) (s : Bytes)
    → ltb c 128 ≡ true
    → runes (suc f) total i (c ∷ s) ≡ (i, c ∷ []) ∷ runes f total (total - length s) s
unfolding runes
runes-ascii f total i c s h = let r = first_rune-ascii c s h in rw (r, runes)

runes-end : (f total i : ℕ) → runes f total i [] ≡ []
unfolding runes
runes-end zero total i = refl
runes-end (suc f) total i = refl

like_loop-last :
    (f total i c : ℕ) (sql : Bytes)
    → ltb c 128 ≡ true
    → 1 ≤ i
    → i + 1 ≡ total
    → like_loop total (runes (suc f) total i (c ∷ [])) (written sql)
      ≡ last_step (c ∷ []) (written sql)
unfolding like_loop
like_loop-last f total i c sql h le e =
    let first = runes-ascii f total i c [] h in
    let none_left = runes-end f total (total - 0) in
    let step = last-like_step total i (c ∷ []) sql le e in rw (first, none_left, step)

like_loop-middle :
    (f total i c d : ℕ) (s sql : Bytes)
    → IsPlain c
    → 1 ≤ i
    → i + length (c ∷ d ∷ s) ≡ total
    → like_loop total (runes (suc f) total i (c ∷ d ∷ s)) (written sql)
      ≡ like_loop total (runes f total (i + 1) (d ∷ s)) (written (sql ++ c ∷ []))
unfolding like_loop
like_loop-middle f total i c d s sql plain le e =
    let first = runes-ascii f total i c (d ∷ s) plain.ascii in
    let next : total - length (d ∷ s) ≡ i + 1 = omega arith in
    let step =
      middle-like_step total i (c ∷ []) sql le (omega arith) ∙ middle_step-IsPlain c sql plain in
    rw (first, next, like_loop, step)

like_loop-IsPlain :
    (f total i : ℕ) (p : Bytes) (ends : Bool) (sql : Bytes)
    → All IsPlain p
    → 1 ≤ i
    → i + length (p ++ back ends) ≡ total
    → length (p ++ back ends) ≤ f
    → 1 ≤ length (p ++ back ends)
    → like_loop total (runes f total i (p ++ back ends)) (written sql)
      ≡ written (sql ++ (p ++ percent ends))
unfolding last_step last_rune bytes_eq
like_loop-IsPlain zero total i p ends sql h le e fuel some_left = absurd (omega arith)
like_loop-IsPlain (suc f) total i [] false sql h le e fuel some_left = absurd (omega arith)
like_loop-IsPlain (suc f) total i [] true sql h le e fuel some_left =
    like_loop-last f total i b'$' sql refl le e ∙ ap written (sym (append-nil sql))
like_loop-IsPlain (suc f) total i (c ∷ []) false sql (plain, h) le e fuel some_left =
    like_loop-last f total i c sql plain.ascii le e ∙ last_step-IsPlain c sql plain
like_loop-IsPlain (suc f) total i (c ∷ []) true sql (plain, h) le e fuel some_left =
    like_loop-middle f total i c b'$' [] sql plain le e
    ∙ like_loop-IsPlain f total (i + 1) [] true (sql ++ c ∷ []) tt (omega arith) (omega arith)
        (omega arith) (omega arith)
    ∙ ap written (append_assoc sql (c ∷ []) [])
like_loop-IsPlain (suc f) total i (c ∷ d ∷ p) ends sql (plain, h) le e fuel some_left =
    like_loop-middle f total i c d (p ++ back ends) sql plain le e
    ∙ like_loop-IsPlain f total (i + 1) (d ∷ p) ends (sql ++ c ∷ []) h (omega arith) (omega arith)
        (omega arith) (omega arith)
    ∙ ap written (append_assoc sql (c ∷ []) (d ∷ (p ++ percent ends)))

abbrev anchored : Bool → Bytes → Bool → Bytes
anchored starts p ends = front starts ++ (p ++ back ends)

like_text-first :
    (c : ℕ) (s : Bytes)
    → ltb c 128 ≡ true
    → like_text (c ∷ s)
      ≡ like_loop
          (suc (length s))
          (runes (length s) (suc (length s)) 1 s)
          (first_step (c ∷ []) like_start)
unfolding like_text like_loop like_step
like_text-first c s h =
    let first = runes-ascii (length s) (suc (length s)) 0 c s h in
    let next : suc (length s) - length s ≡ 1 = omega arith in
    ap (λ rs. like_loop (suc (length s)) rs like_start) first
    ∙ ap
        (λ i.
          like_loop (suc (length s)) (runes (length s) (suc (length s)) i s)
            (first_step (c ∷ []) like_start))
        next

like_text-IsPlain :
    (starts : Bool) (p : Bytes) (ends : Bool)
    → All IsPlain p
    → 2 ≤ length (anchored starts p ends)
    → like_text (anchored starts p ends) ≡ written (percent starts ++ (p ++ percent ends))
unfolding first_step bytes_eq
like_text-IsPlain true p ends h long =
    like_text-first b'^' (p ++ back ends) refl
    ∙ like_loop-IsPlain (length (p ++ back ends)) (suc (length (p ++ back ends))) 1 p ends [] h
        (omega arith) (omega arith) (omega arith) (omega arith)
like_text-IsPlain false [] true h long = absurd (omega arith)
like_text-IsPlain false [] false h long = absurd (omega arith)
like_text-IsPlain false (c ∷ p) ends (plain, h) long =
    like_text-first c (p ++ back ends) plain.ascii
    ∙ ap
        (like_loop (suc (length (p ++ back ends)))
          (runes (length (p ++ back ends)) (suc (length (p ++ back ends))) 1 (p ++ back ends)))
        (first_step-IsPlain c plain)
    ∙ like_loop-IsPlain (length (p ++ back ends)) (suc (length (p ++ back ends))) 1 p ends
        (codes "%" ++ c ∷ []) h (omega arith) (omega arith) (omega arith) (omega arith)

abbrev NoParenthesis : Bytes → Type 0
NoParenthesis = All (λ c. (c == b'(') ≡ false)

contains_text-NoParenthesis :
    (s rest : Bytes) → NoParenthesis s → contains_text (b'(' ∷ rest) s ≡ false
unfolding contains_text
contains_text-NoParenthesis [] rest h = refl
contains_text-NoParenthesis (c ∷ s) rest (plain, h) =
    let e = contains_text-NoParenthesis s rest h in ground arith

plain-NoParenthesis : (p : Bytes) (ends : Bool) → All IsPlain p → NoParenthesis (p ++ back ends)
plain-NoParenthesis [] true h = (refl, tt)
plain-NoParenthesis [] false h = tt
plain-NoParenthesis (c ∷ p) ends (plain, h) = (plain.no_parenthesis, plain-NoParenthesis p ends h)

anchored-NoParenthesis :
    (starts : Bool) (p : Bytes) (ends : Bool)
    → All IsPlain p
    → NoParenthesis (anchored starts p ends)
anchored-NoParenthesis true p ends h = (refl, plain-NoParenthesis p ends h)
anchored-NoParenthesis false p ends h = plain-NoParenthesis p ends h

like_of-written :
    (s sql : Bytes)
    → NoParenthesis s
    → like_text s ≡ written sql
    → like_of s ≡ ok (codes "'" ++ (sql ++ codes "'"))
unfolding like_of
like_of-written s sql h text =
    let on = contains_text-NoParenthesis s (codes "?i)") h in
    let off = contains_text-NoParenthesis s (codes "?-i)") h in
    rw (on, off, text, append-nil (sql ++ codes "'"))

-- A plain text of ASCII characters, with a "^" in front of it or not and a "$" behind it or not, of
-- at least two characters altogether, becomes the text in single quotes, with a "%" where there is
-- no "^" and where there is no "$".
pub like_pattern-IsPlain :
    (starts : Bool) (p : Bytes) (ends : Bool)
    → All IsPlain p
    → 2 ≤ length (anchored starts p ends)
    → like_pattern (regex (anchored starts p ends) [])
      ≡ ok (codes "'" ++ ((percent starts ++ (p ++ percent ends)) ++ codes "'"))
unfolding like_pattern
like_pattern-IsPlain starts p ends h long =
    like_of-written (anchored starts p ends) (percent starts ++ (p ++ percent ends))
      (anchored-NoParenthesis starts p ends h) (like_text-IsPlain starts p ends h long)
