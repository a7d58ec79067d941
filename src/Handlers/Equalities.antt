-- ===== src/Handlers/Equalities.antt =====
-- internal/handlers/common/where.go: filters that ask for the texts of fields.
use sap_hana_compatibility_l.Prelude.{
  ℕ, suc, List, [], ◌∷◌, ◌++◌, append_assoc, append-nil, Bool, true, false, some, ◌≡◌, ap, Bytes,
  codes, ok, All, if◌then◌else◌,
}
use sap_hana_compatibility_l.GoStd.Strings.{has_prefix, contains_text}
use sap_hana_compatibility_l.GoStd.Format.{Printing, sprintf}
use sap_hana_compatibility_l.Types.Value.{string, Fields}
use sap_hana_compatibility_l.Types.Fields.{lookup}
use sap_hana_compatibility_l.Handlers.SqlKey.{path_sql, where_key, quoted}
use sap_hana_compatibility_l.Handlers.Where.State.{Nor, answer}
use sap_hana_compatibility_l.Handlers.Where.{
  is_condition, equal_pair, where_pair, clause_loop, create_where_clause,
}

-- The map has the text under the key, and the key is neither an operator nor a path.
pub record IsEquality (m : Fields) (kv : Bytes × Bytes) : Type 0 where
  pub no_operator : has_prefix (codes "$") kv.0 ≡ false
  pub no_path : contains_text (codes ".") kv.0 ≡ false
  pub found : lookup kv.0 m ≡ some (string kv.1)

abbrev pub keys_of_pairs : List (Bytes × Bytes) → List Bytes
keys_of_pairs [] = []
keys_of_pairs ((k, s) ∷ kvs) = k ∷ keys_of_pairs kvs

-- `"k"`
abbrev pub name_sql : Bytes → Bytes
name_sql k = codes "\"" ++ (k ++ codes "\"")

-- `"k" = 's'`
abbrev pub equality : Bytes × Bytes → Bytes
equality (k, s) = codes "\"" ++ (k ++ (codes "\" = '" ++ (s ++ codes "'")))

-- The same where `isNor` is set: `("k" = 's' AND "k" IS SET)`.
abbrev pub equality_in : Bool → Bytes × Bytes → Bytes
equality_in nor (k, s) =
    if nor
    then codes "(" ++ (equality (k, s) ++ (codes " AND " ++ (name_sql k ++ codes " IS SET)")))
    else equality (k, s)

abbrev pub equalities_in : Bool → Bytes → List (Bytes × Bytes) → Bytes
equalities_in nor word [] = []
equalities_in nor word (kv ∷ kvs) =
    word ++ (equality_in nor kv ++ equalities_in nor (codes " AND ") kvs)

pub quoted-equality :
    (k s : Bytes) → quoted k ++ (codes " = " ++ (codes "'" ++ (s ++ codes "'"))) ≡ equality (k, s)
unfolding quoted
quoted-equality k s = ap (λ t. 34 ∷ t) (append_assoc k _ _)

-- A key that is no path is quoted.
where_key-plain : (k : Bytes) → contains_text (codes ".") k ≡ false → where_key k ≡ ok (quoted k)
unfolding where_key path_sql
where_key-plain k h = rw h

equal_pair-text :
    (P : Printing) (k s : Bytes) (st : Nor)
    → contains_text (codes ".") k ≡ false
    → equal_pair P k (string s) st ≡ ok (answer (equality_in st.is_nor (k, s)), st)
unfolding equal_pair sprintf quoted
equal_pair-text P k s st plain =
    let key = where_key-plain k plain in
    let guarded : Bytes → Bytes =
      λ kv. codes "(" ++ (kv ++ (codes " AND " ++ (name_sql k ++ codes " IS SET)"))) in
    rw (key)
      (ap (λ kv. ok (answer (if st.is_nor then guarded kv else kv), st)) (quoted-equality k s))

pair-text :
    (fuel : ℕ) (P : Printing) (k s : Bytes) (st : Nor)
    → has_prefix (codes "$") k ≡ false
    → contains_text (codes ".") k ≡ false
    → where_pair (suc fuel) P k (string s) st ≡ ok (answer (equality_in st.is_nor (k, s)), st)
unfolding where_pair is_condition
pair-text fuel P k s st no_operator plain =
    let e = equal_pair-text P k s st plain in rw (no_operator, e)

-- The word in front of a pair.
abbrev word : Bool → Bytes
word first = if first then codes " WHERE " else codes " AND "

clause_loop-equalities :
    (fuel : ℕ) (P : Printing) (m : Fields) (first : Bool) (kvs : List (Bytes × Bytes)) (sql : Bytes)
    → (st : Nor) → All (IsEquality m) kvs
    → clause_loop (where_pair (suc fuel) P) m first (keys_of_pairs kvs) sql st
      ≡ ok (answer (sql ++ equalities_in st.is_nor (word first) kvs), st)
unfolding clause_loop where_pair
clause_loop-equalities fuel P m first [] sql st h = rw (append-nil sql)
clause_loop-equalities fuel P m first ((k, s) ∷ kvs) sql st (e, h) =
    let pair = pair-text fuel P k s st e.no_operator e.no_path in
    let start = sql ++ word first in
    let rest =
      clause_loop-equalities fuel P m false kvs (start ++ equality_in st.is_nor (k, s)) st h in
    rw (e.found, pair, rest, append_assoc start _ _, append_assoc sql _ _)

-- With any fuel at all, and where each key of the filter is neither an operator nor a path and has
-- a text as its value, the clause has, after " WHERE " and joined by " AND ", the keys in double
-- quotes, each with " = " and its text in single ones, as it is. If `isNor` is set, as a `$nor`
-- that failed leaves it, each is in parentheses, with the guard that its key IS SET. The state
-- stays as it is.
pub create_where_clause-equalities :
    (fuel : ℕ) (P : Printing) (m : Fields) (kvs : List (Bytes × Bytes)) (st : Nor)
    → All (IsEquality m) kvs
    → create_where_clause (suc fuel) P (record { m = m; keys = keys_of_pairs kvs }) st
      ≡ ok (answer (equalities_in st.is_nor (codes " WHERE ") kvs), st)
unfolding create_where_clause
create_where_clause-equalities fuel P m kvs st h = clause_loop-equalities fuel P m true kvs [] st h
