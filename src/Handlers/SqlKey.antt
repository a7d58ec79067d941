-- ===== src/Handlers/SqlKey.antt =====
-- internal/handlers/common/where.go and internal/handlers/crud/msg_update.go: whereKey and
-- getUpdateKey, which write the path of a field as SQL.
pub mod Paths
use sap_hana_compatibility_l.Prelude.{
  ℕ, suc, ◌+◌, ◌-◌, ◌%◌, ◌^◌, Bool, true, false, Option, none, some, List, [], ◌∷◌, ◌++◌,
  if◌then◌else◌, Bytes, codes, Outcome, Error, ok, err, ◌>>=◌, not_implemented, negative_index,
}
use sap_hana_compatibility_l.GoStd.{ℤ, pos, negsuc, atoi}
use sap_hana_compatibility_l.GoStd.Strings.{contains_text, split_dots}
use sap_hana_compatibility_l.GoStd.Format.{integer_text}

-- `"k"`
unfoldable pub quoted : Bytes → Bytes
quoted k = codes "\"" ++ (k ++ codes "\"")

-- `fmt.Sprintf("[%d]", kInt+1)`; arrays count from 1 in SQL. The addition wraps.
unfoldable pub index_sql : ℤ → Bytes
unfolding integer_text
index_sql (pos n) = codes "[" ++ (integer_text ((n + 1) % 2 ^ 64) ++ codes "]")
index_sql (negsuc n) = codes "[" ++ (integer_text ((2 ^ 64 - n) % 2 ^ 64) ++ codes "]")

-- The loop over the parts of a path, where `strict` says whether a negative index is refused.
-- `is_int` tells that the part before was an index, `first` that there is none before.
unfoldable pub key_parts : Bool → Bool → Bool → List Bytes → Outcome Bytes
unfolding quoted index_sql
key_parts strict is_int first [] = ok []
key_parts strict is_int first (k ∷ parts) =
    let dot = if first then [] else codes "." in
    elim (atoi k) [
      | none ↦ key_parts strict false false parts >>= λ rest. ok (dot ++ (quoted k ++ rest))
      | some i ↦ if is_int then err not_implemented else elim i [
        | negsuc n ↦
            if strict
            then err negative_index
            else key_parts strict true false parts >>= λ rest. ok (index_sql (negsuc n) ++ rest)
        | pos n ↦ key_parts strict true false parts >>= λ rest. ok (index_sql (pos n) ++ rest)
      ]
    ]

unfoldable pub path_sql : Bool → Bytes → Outcome Bytes
unfolding key_parts quoted contains_text
path_sql strict key =
    if contains_text (codes ".") key
    then key_parts strict false true (split_dots key)
    else ok (quoted key)

-- `whereKey`
unfoldable pub where_key : Bytes → Outcome Bytes
unfolding path_sql
where_key key = path_sql true key

-- `getUpdateKey`, which takes negative indexes.
unfoldable pub get_update_key : Bytes → Outcome Bytes
unfolding path_sql
get_update_key key = path_sql false key
