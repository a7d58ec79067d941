-- ===== src/Handlers/Find/Select.antt =====
-- internal/handlers/crud/msg_find_or_count.go: the statement of a find.
use sap_hana_compatibility_l.Prelude.{
  ℕ, suc, ◌^◌, ◌-◌, ◌==◌, ◌<◌, Bool, true, false, List, [], ◌∷◌, ◌++◌, append_assoc, append-nil,
  none, some, inl, ◌≡◌, refl, sym, ap, ◌∙◌, arith, All, Bytes, codes, ltb, ok, ◌>>=◌, if◌then◌else◌,
}
use sap_hana_compatibility_l.GoStd.{itoa}
use sap_hana_compatibility_l.GoStd.Format.{Printing, sprintf, integer_text}
use sap_hana_compatibility_l.GoStd.Strings.{contains_text}
use sap_hana_compatibility_l.Types.Value.{Value, Fields, document, string, int32, end, field}
use sap_hana_compatibility_l.Types.Fields.{lookup, count}
use sap_hana_compatibility_l.Handlers.Where.State.{Nor, attempt, tried}
use sap_hana_compatibility_l.Handlers.Where.State as State
use sap_hana_compatibility_l.Handlers.Where.{create_where_clause}
use sap_hana_compatibility_l.Handlers.SqlKey.{quoted}
use sap_hana_compatibility_l.Handlers.Equalities.{
  IsEquality, keys_of_pairs, name_sql, equalities_in, create_where_clause-equalities,
}
use sap_hana_compatibility_l.Handlers.Projection.{projection}
use sap_hana_compatibility_l.Handlers.Find.{
  Location, document_or_zero, ascends, sort_key, order_loop, order_by, create_order_by_stmt,
  create_limit_stmt, create_sql_base_stmt, finish_stmt, create_sql_stmt,
}

-- 1 and -1, as int32.
abbrev pub way_value : Bool → Value
way_value true = int32 1
way_value false = int32 (2 ^ 32 - 1)

-- The map sorts by the key, which is no path, upwards or downwards.
abbrev pub IsSort : Fields → Bytes × Bool → Type 0
IsSort m (k, up) = (contains_text (codes ".") k ≡ false) × (lookup k m ≡ some (way_value up))

abbrev pub keys_of_sorts : List (Bytes × Bool) → List Bytes
keys_of_sorts [] = []
keys_of_sorts ((k, up) ∷ sorts) = k ∷ keys_of_sorts sorts

-- `"k"  ASC`
abbrev pub sort_sql : Bytes × Bool → Bytes
sort_sql (k, up) = name_sql k ++ (codes " " ++ (if up then codes " ASC" else codes " DESC"))

abbrev pub sorts_after : Bytes → List (Bytes × Bool) → Bytes
sorts_after word [] = []
sorts_after word (sort ∷ sorts) = word ++ (sort_sql sort ++ sorts_after (codes ",") sorts)

abbrev pub limit_sql : ℕ → Bytes
limit_sql n = if n == 0 then [] else codes " LIMIT " ++ (itoa n ++ codes " ")

ascends-way_value : (up : Bool) → ascends (some (way_value up)) ≡ ok up
unfolding ascends
ascends-way_value true = refl
ascends-way_value false = refl

sort_key-plain :
    (k : Bytes) → contains_text (codes ".") k ≡ false → sort_key k ≡ name_sql k ++ codes " "
unfolding sort_key quoted
sort_key-plain k plain = rw plain

regroup : (a b c d : Bytes) → (a ++ b) ++ (c ++ d) ≡ (a ++ (b ++ c)) ++ d
regroup a b c d =
    append_assoc a b (c ++ d)
    ∙ sym (append_assoc a (b ++ c) d ∙ ap (λ t. a ++ t) (append_assoc b c d))

order_loop-sorts :
    (m : Fields) (first : Bool) (sorts : List (Bytes × Bool))
    → All (IsSort m) sorts
    → order_loop m first (keys_of_sorts sorts)
      ≡ ok (sorts_after (if first then [] else codes ",") sorts)
unfolding order_loop
order_loop-sorts m first [] h = refl
order_loop-sorts m first ((k, up) ∷ sorts) ((plain, found), h) =
    let way = ascends-way_value up in
    let key = sort_key-plain k plain in
    let rest = order_loop-sorts m false sorts h in
    rw (found, way, rest)
      (ap (λ t. ok ((if first then [] else codes ",") ++ t))
        (ap
            (λ q.
              q ++ ((if up then codes " ASC" else codes " DESC") ++ sorts_after (codes ",") sorts))
            key
          ∙ regroup (name_sql k) (codes " ") (if up then codes " ASC" else codes " DESC") _))

count-lookup : (k : Bytes) (v : Value) (m : Fields) → lookup k m ≡ some v → (count m == 0) ≡ false
unfolding lookup count
count-lookup k v end h = cc
count-lookup k v (field j w m) h = ground arith

create_order_by_stmt-sorts :
    (m sm : Fields) (sort : Bytes × Bool) (sorts : List (Bytes × Bool))
    → lookup (codes "sort") m ≡ some (document sm (keys_of_sorts (sort ∷ sorts)))
    → All (IsSort sm) (sort ∷ sorts)
    → create_order_by_stmt m ≡ ok (codes " ORDER BY " ++ sorts_after [] (sort ∷ sorts))
unfolding create_order_by_stmt order_by document_or_zero
create_order_by_stmt-sorts m sm (k, up) sorts found h =
    let some_keys = count-lookup k (way_value up) sm h.0.1 in
    let loop = order_loop-sorts sm true ((k, up) ∷ sorts) h in rw (found, some_keys, loop)

integer_text-itoa : (n : ℕ) → n < 2 ^ 31 → integer_text n ≡ itoa n
unfolding integer_text
integer_text-itoa n le = let small : ltb n (2 ^ 63) ≡ true = ground arith in rw small

create_limit_stmt-limit :
    (P : Printing) (n : ℕ) → n < 2 ^ 31 → create_limit_stmt P (some (int32 n)) ≡ ok (limit_sql n)
unfolding create_limit_stmt sprintf
create_limit_stmt-limit P n le = let text = integer_text-itoa n le in ground (arith, text)

-- The statement of a find, and where it looks.
abbrev pub found_in : Bytes → Bytes → Fields → List Bytes → Location
found_in db collection fm keys = record {
  exclusion = false;
  filter = record { m = fm; keys = keys };
  db = db;
  collection = collection;
}

abbrev pub from_table : Bytes → Bytes → Bytes
from_table db collection = codes "SELECT * FROM " ++ (db ++ (codes "." ++ collection))

create_sql_base_stmt-find :
    (P : Printing) (m fm : Fields) (keys : List Bytes) (db collection : Bytes)
    → lookup (codes "find") m ≡ some (string collection)
    → lookup (codes "projection") m ≡ none
    → lookup (codes "filter") m ≡ some (document fm keys)
    → create_sql_base_stmt P m db ≡ ok (from_table db collection, found_in db collection fm keys)
unfolding create_sql_base_stmt projection count sprintf lookup
create_sql_base_stmt-find P m fm keys db collection find projected filter =
    let short = append-nil collection in rw (find, projected, filter, short)

-- The rest of `createSqlStmt`, from the base.
finish-plain :
    (fuel : ℕ) (P : Printing) (m fm sm : Fields) (base : Bytes) (ctx : Location)
    → (kvs : List (Bytes × Bytes)) (sort : Bytes × Bool) (sorts : List (Bytes × Bool)) (n : ℕ)
    → (st : Nor) → All (IsEquality fm) kvs
    → lookup (codes "sort") m ≡ some (document sm (keys_of_sorts (sort ∷ sorts)))
    → All (IsSort sm) (sort ∷ sorts)
    → lookup (codes "limit") m ≡ some (int32 n)
    → n < 2 ^ 31
    → State.◌>>=◌
        (create_where_clause (suc fuel) P (record { m = fm; keys = keys_of_pairs kvs }))
        (λ a.
          attempt (tried {A = Bytes × Location} (finish_stmt P m base a >>= λ sql. ok (sql, ctx))))
        st
      ≡ ok (
        inl (
          ((base ++ equalities_in st.is_nor (codes " WHERE ") kvs)
                ++ (codes " ORDER BY " ++ sorts_after [] (sort ∷ sorts)))
              ++ limit_sql n,
          ctx,
        ),
        st,
      )
unfolding finish_stmt
finish-plain fuel P m fm sm base ctx kvs sort sorts n st eqs sorted ways limit le =
    let clause = create_where_clause-equalities fuel P fm kvs st eqs in
    let order = create_order_by_stmt-sorts m sm sort sorts sorted ways in
    let short = create_limit_stmt-limit P n le in
    rw (State.◌>>=◌, clause, finish_stmt, order, limit, short)

-- With any fuel at all, a find in a collection, without a projection, where each key of the filter
-- is neither an operator nor a path and has a text as its value, where there are keys to sort by,
-- none of them a path, each with the int32 1 or -1, and a limit that is no negative int32, becomes
-- this statement: it takes everything FROM the collection of the database; then come the equalities
-- of the filter after WHERE, as a filter writes them in the state of `isNor`, ORDER BY with the
-- keys in their order and ASC for 1 or DESC for -1, and LIMIT, unless the limit is 0. The state
-- stays as it is, and with the statement come the database, the collection and the filter.
pub create_sql_stmt-plain :
    (fuel : ℕ) (P : Printing) (m fm sm : Fields) (db collection : Bytes)
    → (kvs : List (Bytes × Bytes)) (sort : Bytes × Bool) (sorts : List (Bytes × Bool)) (n : ℕ)
    → (st : Nor) → lookup (codes "find") m ≡ some (string collection)
    → lookup (codes "projection") m ≡ none
    → lookup (codes "filter") m ≡ some (document fm (keys_of_pairs kvs))
    → All (IsEquality fm) kvs
    → lookup (codes "sort") m ≡ some (document sm (keys_of_sorts (sort ∷ sorts)))
    → All (IsSort sm) (sort ∷ sorts)
    → lookup (codes "limit") m ≡ some (int32 n)
    → n < 2 ^ 31
    → create_sql_stmt (suc fuel) P m db st
      ≡ ok (
        inl (
          ((from_table db collection ++ equalities_in st.is_nor (codes " WHERE ") kvs)
                ++ (codes " ORDER BY " ++ sorts_after [] (sort ∷ sorts)))
              ++ limit_sql n,
          found_in db collection fm (keys_of_pairs kvs),
        ),
        st,
      )
unfolding create_sql_stmt
create_sql_stmt-plain fuel P m fm sm db collection kvs sort sorts n st find projected filter eqs
      sorted ways limit le =
    let base =
      create_sql_base_stmt-find P m fm (keys_of_pairs kvs) db collection find projected filter in
    rw (base) (
      finish-plain fuel P m fm sm (from_table db collection)
        (found_in db collection fm (keys_of_pairs kvs)) kvs sort sorts n st eqs sorted ways limit
        le)
