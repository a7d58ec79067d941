-- ===== src/Handlers/Projection.antt =====
-- internal/handlers/common/projection.go: Projection, which tells an inclusion from an exclusion and
-- writes an inclusion as SQL.
pub mod Uniform
use sap_hana_compatibility_l.Prelude.{
  ℕ, ◌==◌, Bool, true, false, not, ◌&&◌, Option, none, some, List, [], ◌∷◌, ◌++◌, Bytes, bytes_eq,
  codes, Outcome, Error, ok, err, ◌>>=◌, ◌>>◌, guard, if◌then◌else◌, key_not_found, bad_value,
  not_implemented, projection_in_ex, projection_ex_in,
}
use sap_hana_compatibility_l.GoStd.Strings.{contains_text}
use sap_hana_compatibility_l.Types.Value.{
  Value, Fields, document, array, double, string, binary, object_id, bool, date_time, null, regex,
  int32, timestamp, int64, cstring, other, Document,
}
use sap_hana_compatibility_l.Types.Fields.{lookup, count}
use sap_hana_compatibility_l.Types.Compare.{
  CompareResult, equal, less, greater, not_equal, compare_scalars,
}
use sap_hana_compatibility_l.Handlers.Update.{has_any}

abbrev is_equal : CompareResult → Bool
is_equal equal = true
is_equal _ = false

-- Whether a value says yes: a bool, or a number that is not 0.
unfoldable pub selects : Value → Outcome Bool
unfolding compare_scalars
selects (bool b) = ok b
selects (int32 n) = compare_scalars (int32 n) (int32 0) >>= λ r. ok (not (is_equal r))
selects (int64 n) = compare_scalars (int64 n) (int32 0) >>= λ r. ok (not (is_equal r))
selects (double x) = compare_scalars (double x) (int32 0) >>= λ r. ok (not (is_equal r))
selects _ = err bad_value

unfoldable pub is_switch : Value → Bool
is_switch (bool b) = true
is_switch (int32 n) = true
is_switch (int64 n) = true
is_switch (double x) = true
is_switch _ = false

abbrev pub id_key : Bytes
id_key = codes "_id"

-- Whether the loop passes over the key: "_id" beside others; "_id" with another value is an error.
unfoldable pub skips : Fields → Bytes → Outcome Bool
unfolding is_switch
skips m key =
    if bytes_eq key id_key
    then guard (is_switch (elim (lookup key m) [ none ↦ null | some v ↦ v ])) bad_value
      >> ok (not (count m == 1))
    else ok false

-- What a value does to `inclusion` and `exclusion`.
unfoldable pub switch_step : Bool → Bytes → Bool → Bool → Outcome (Bool × Bool)
unfolding contains_text
switch_step true key inclusion exclusion =
    guard (not exclusion) projection_in_ex
    >> (guard (not (contains_text (codes ".") key)) not_implemented >> ok (true, exclusion))
switch_step false key inclusion exclusion =
    guard (not inclusion) projection_ex_in >> ok (inclusion, true)

-- `projection.Get(k)`, and what its value does.
unfoldable pub flags_after : Fields → Bytes → Bool → Bool → Outcome (Bool × Bool)
unfolding selects switch_step
flags_after m key inclusion exclusion = do
  v ← elim (lookup key m) [ none ↦ err key_not_found | some v ↦ ok v ]
  b ← selects v
  switch_step b key inclusion exclusion

-- The loop of `isProjectionInclusion`.
unfoldable pub inclusion_loop : Fields → List Bytes → Bool → Bool → Outcome Bool
unfolding skips flags_after
inclusion_loop m [] inclusion exclusion = ok inclusion
inclusion_loop m (key ∷ keys) inclusion exclusion = do
  skip ← skips m key
  flags ← if skip then ok (inclusion, exclusion) else flags_after m key inclusion exclusion
  inclusion_loop m keys flags.0 flags.1

-- `isProjectionInclusion`
unfoldable pub is_projection_inclusion : Document → Outcome Bool
unfolding inclusion_loop
is_projection_inclusion d = inclusion_loop d.m d.keys false false

-- `"k": "k"`
unfoldable pub inclusion_pair : Bytes → Bytes
inclusion_pair k = codes "\"" ++ (k ++ (codes "\": \"" ++ (k ++ codes "\"")))

-- The loop of `inclusionProjection`; `id` tells that "_id" was the first key, and was just passed.
unfoldable pub pairs_loop : Bool → Bool → List Bytes → Bytes
unfolding inclusion_pair
pairs_loop first id [] = []
pairs_loop first id (k ∷ keys) =
    let skipped = pairs_loop false (if first then true else id) keys in
    let rest = pairs_loop false false keys in
    if bytes_eq k id_key
    then skipped
    else (if first then [] else (if id then [] else codes ", ")) ++ (inclusion_pair k ++ rest)

-- What `inclusionProjection` writes for an "_id" that is included or not, and whether that is all.
unfoldable pub id_text : Fields → Bool → Bytes × Bool
unfolding inclusion_pair
id_text m false = ([], false)
id_text m true =
    if count m == 1
    then (inclusion_pair id_key ++ codes "}", true)
    else (inclusion_pair id_key ++ codes ", ", false)

unfoldable pub id_part : Fields → Outcome (Bytes × Bool)
unfolding is_switch selects inclusion_pair id_text
id_part m = elim (lookup id_key m) [
  | none ↦ ok (inclusion_pair id_key ++ codes ", ", false)
  | some v ↦ if is_switch v then (selects v >>= λ b. ok (id_text m b)) else ok ([], false)
]

-- `inclusionProjection`
unfoldable pub inclusion_projection : Document → Outcome Bytes
unfolding id_part pairs_loop
inclusion_projection d = do
  id ← id_part d.m
  ok (codes "{" ++ (id.0 ++ (if id.1 then [] else pairs_loop true false d.keys ++ codes "}")))

abbrev pub projection_operators : List Bytes
projection_operators =
    codes "$"
    ∷ codes "$elemMatch"
    ∷ codes "$meta"
    ∷ codes "$slice"
    ∷ codes "$comment"
    ∷ codes "$rand"
    ∷ []

-- What `Projection` makes of the answer of `isProjectionInclusion`.
unfoldable pub projection_sql : Document → Bool → Outcome (Bytes × Bool)
unfolding inclusion_projection
projection_sql d true = inclusion_projection d >>= λ sql. ok (sql, false)
projection_sql d false = ok (codes "*", true)

-- `Projection`: the SQL, and whether it is an exclusion.
unfoldable pub projection : Document → Outcome (Bytes × Bool)
unfolding has_any is_projection_inclusion projection_sql
projection d =
    guard (not (has_any d projection_operators)) not_implemented
    >> (if count d.m == 0
        then ok (codes "*", false)
        else (is_projection_inclusion d >>= λ inclusion. projection_sql d inclusion))
