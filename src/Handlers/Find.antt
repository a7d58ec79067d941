-- ===== src/Handlers/Find.antt =====
-- internal/handlers/crud/msg_find_or_count.go: createSqlStmt and its parts, the statement of a find or
-- a count.
pub mod Select
use sap_hana_compatibility_l.Prelude.{
  ℕ, ◌==◌, ◌-◌, ◌^◌, Bool, true, false, ◌&&◌, ◌||◌, Option, none, some, List, [], ◌∷◌, ◌++◌, ◌⊎◌,
  inl, inr, Bytes, bytes_eq, codes, ltb, Outcome, Error, ok, err, panicked, ◌>>=◌, if◌then◌else◌,
  not_implemented, sort_bad_value,
}
use sap_hana_compatibility_l.GoStd.Format.{FormatArg, integer, text, Printing, sprintf}
use sap_hana_compatibility_l.GoStd.Strings.{contains_text, split_dots}
use sap_hana_compatibility_l.Types.Value.{
  Value, Fields, document, array, double, string, binary, object_id, bool, date_time, null, regex,
  int32, timestamp, int64, cstring, other, end, Document,
}
use sap_hana_compatibility_l.Types.Fields.{lookup, count}
use sap_hana_compatibility_l.Handlers.SqlKey.{quoted}
use sap_hana_compatibility_l.Handlers.Projection.{projection}
use sap_hana_compatibility_l.Handlers.Where.State.{Sql, Answer, attempt, tried}
use sap_hana_compatibility_l.Handlers.Where.State as State
use sap_hana_compatibility_l.Handlers.Where.{create_where_clause}

-- `locatCtx`
pub record Location : Type 0 where
  pub exclusion : Bool
  pub filter : Document
  pub db : Bytes
  pub collection : Bytes

-- `v.(types.Document)`, the zero document if it is none.
unfoldable pub document_or_zero : Option Value → Document
document_or_zero (some (document m keys)) = record { m = m; keys = keys }
document_or_zero _ = record { m = end; keys = [] }

-- The base of a find in the collection, and of a count, where the collection must be a text.
unfoldable pub find_base : Printing → Fields → Bytes → Bytes → Outcome (Bytes × Location)
unfolding projection document_or_zero sprintf
find_base P m db collection = do
  (projected, exclusion) ← projection (document_or_zero (lookup (codes "projection") m))
  ok (
    sprintf P (codes "SELECT %s FROM %s.%s") (text projected ∷ text db ∷ text collection ∷ []),
    record {
      exclusion = exclusion;
      filter = document_or_zero (lookup (codes "filter") m);
      db = db;
      collection = collection;
    },
  )

unfoldable pub count_base : Printing → Fields → Bytes → Option Value → Outcome (Bytes × Location)
unfolding document_or_zero sprintf
count_base P m db (some (string collection)) = ok (
  sprintf P (codes "SELECT COUNT(*) FROM %s.%s") (text db ∷ text collection ∷ []),
  record {
    exclusion = false;
    filter = document_or_zero (lookup (codes "query") m);
    db = db;
    collection = collection;
  },
)
count_base P m db _ = panicked

-- `createSqlBaseStmt`; what `docMap["find"]` holds is the last argument.
unfoldable pub base_for : Printing → Fields → Bytes → Option Value → Outcome (Bytes × Location)
unfolding find_base count_base
base_for P m db (some (string collection)) = find_base P m db collection
base_for P m db _ = count_base P m db (lookup (codes "count") m)

unfoldable pub create_sql_base_stmt : Printing → Fields → Bytes → Outcome (Bytes × Location)
unfolding base_for
create_sql_base_stmt P m db = base_for P m db (lookup (codes "find") m)

-- Whether a sort goes up: for 1 and -1, as an int32 or as a float64. Every other value leads to
-- ErrSortBadValue, at once or after the loop.
unfoldable pub ascends : Option Value → Outcome Bool
ascends (some (int32 n)) =
    if n == 1 then ok true else (if n == 2 ^ 32 - 1 then ok false else err sort_bad_value)
ascends (some (double x)) =
    if x == 0x3ff0000000000000
    then ok true
    else (if x == 0xbff0000000000000 then ok false else err sort_bad_value)
ascends _ = err sort_bad_value

unfoldable pub join_quoted : List Bytes → Bytes
unfolding quoted
join_quoted [] = []
join_quoted (p ∷ []) = quoted p
join_quoted (p ∷ q ∷ ps) = quoted p ++ (codes "." ++ join_quoted (q ∷ ps))

unfoldable pub sort_key : Bytes → Bytes
unfolding quoted join_quoted contains_text split_dots
sort_key k =
    if contains_text (codes ".") k
    then codes " " ++ join_quoted (split_dots k)
    else quoted k ++ codes " "

-- The loop of `createOrderByStmt`.
unfoldable pub order_loop : Fields → Bool → List Bytes → Outcome Bytes
unfolding ascends sort_key
order_loop m first [] = ok []
order_loop m first (k ∷ keys) = do
  up ← ascends (lookup k m)
  rest ← order_loop m false keys
  ok (
      (if first then [] else codes ",")
      ++ (sort_key k ++ ((if up then codes " ASC" else codes " DESC") ++ rest)))

unfoldable pub order_by : Document → Outcome Bytes
unfolding order_loop
order_by d =
    if count d.m == 0
    then ok []
    else (order_loop d.m true d.keys >>= λ sql. ok (codes " ORDER BY " ++ sql))

-- `createOrderByStmt`
unfoldable pub create_order_by_stmt : Fields → Outcome Bytes
unfolding order_by document_or_zero
create_order_by_stmt m = order_by (document_or_zero (lookup (codes "sort") m))

-- `createLimitStmt`, from `docMap["limit"]`.
unfoldable pub create_limit_stmt : Printing → Option Value → Outcome Bytes
unfolding sprintf
create_limit_stmt P (some (int32 n)) =
    if n == 0
    then ok []
    else (if ltb n (2 ^ 31)
        then ok (sprintf P (codes " LIMIT %d ") (integer n ∷ []))
        else err not_implemented)
create_limit_stmt P _ = ok []

-- The end of `createSqlStmt`, with the base and the clause of the filter.
unfoldable pub finish_stmt : Printing → Fields → Bytes → Answer → Outcome Bytes
unfolding create_order_by_stmt create_limit_stmt
finish_stmt P m base (where_sql, some e) = err e
finish_stmt P m base (where_sql, none) = do
  order ← create_order_by_stmt m
  limit ← create_limit_stmt P (lookup (codes "limit") m)
  ok (((base ++ where_sql) ++ order) ++ limit)

-- `createSqlStmt`
unfoldable pub create_sql_stmt : ℕ → Printing → Fields → Bytes → Sql ((Bytes × Location) ⊎ Error)
unfolding create_sql_base_stmt create_where_clause finish_stmt
create_sql_stmt fuel P m db = State.◌>>=◌ (attempt (tried (create_sql_base_stmt P m db))) (λ r.
    elim r [
      | inr e ↦ State.pure (inr e)
      | inl (base, ctx) ↦
          State.◌>>=◌ (create_where_clause fuel P ctx.filter)
            (λ a. attempt (tried (finish_stmt P m base a >>= λ sql. ok (sql, ctx))))
    ])

-- `isPrintShardingStatus`
unfoldable pub is_print_sharding_status : Option Value → Option Value → Bool
is_print_sharding_status (some (string find)) (some (string db)) =
    (bytes_eq find (codes "shards")
      || (bytes_eq find (codes "mongos") || bytes_eq find (codes "version")))
    && bytes_eq db (codes "config")
is_print_sharding_status _ _ = false
