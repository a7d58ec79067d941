-- ===== src/Handlers/Assignments.antt =====
-- internal/handlers/crud/msg_update.go: updates that set texts and remove fields.
use sap_hana_compatibility_l.Prelude.{
  ℕ, suc, Bool, true, false, List, [], ◌∷◌, ◌++◌, append_assoc, Option, none, some, inl, ◌≡◌, refl,
  ap, ◌∙◌, All, Bytes, codes, ok, if◌then◌else◌,
}
use sap_hana_compatibility_l.GoStd.Format.{Printing, sprintf}
use sap_hana_compatibility_l.GoStd.Strings.{contains_text, has_prefix, replace_first}
use sap_hana_compatibility_l.Types.Value.{Value, Fields, Document, document}
use sap_hana_compatibility_l.Types.Fields.{lookup}
use sap_hana_compatibility_l.Handlers.SqlKey.{quoted, get_update_key, path_sql}
use sap_hana_compatibility_l.Handlers.UpdateValue.{get_update_value}
use sap_hana_compatibility_l.Handlers.Where.State.{Nor}
use sap_hana_compatibility_l.Handlers.Where.State as State
use sap_hana_compatibility_l.Handlers.Equalities.{
  IsEquality, keys_of_pairs, name_sql, equality, equalities_in, create_where_clause-equalities,
}
use sap_hana_compatibility_l.Handlers.Update.{
  has_any, unimplemented_fields, is_id, assignment, assignments, create_set_and_unset, clause_for,
  both_clauses, set_document, set_conditions, set_update, join_update, update_from, update,
}

-- The texts, with `first` in front of the first and `sep` in front of each other.
abbrev pub joined : Bytes → Bytes → List Bytes → Bytes
joined first sep [] = []
joined first sep (t ∷ ts) = first ++ (t ++ joined sep sep ts)

abbrev pub equality_texts : List (Bytes × Bytes) → List Bytes
equality_texts [] = []
equality_texts (kv ∷ kvs) = equality kv ∷ equality_texts kvs

-- The keys in double quotes, each with the word behind it.
abbrev pub names_with : Bytes → List Bytes → List Bytes
names_with word [] = []
names_with word (k ∷ ks) = (name_sql k ++ word) ∷ names_with word ks

abbrev pub names_of : List Bytes → List Bytes
names_of [] = []
names_of (k ∷ ks) = name_sql k ∷ names_of ks

-- A name of a field that an update may set or remove, and no path.
abbrev pub IsName : Bytes → Type 0
IsName k = (is_id k ≡ false) × (contains_text (codes ".") k ≡ false)

get_update_key-plain :
    (k : Bytes) → contains_text (codes ".") k ≡ false → get_update_key k ≡ ok (name_sql k)
unfolding get_update_key path_sql quoted
get_update_key-plain k h = rw h

name_sql-equality :
    (k s : Bytes) → name_sql k ++ (codes " = " ++ (codes "'" ++ (s ++ codes "'"))) ≡ equality (k, s)
name_sql-equality k s = ap (λ t. 34 ∷ t) (append_assoc k _ _)

assignments-set :
    (P : Printing) (m : Fields) (first : Bool) (kvs : List (Bytes × Bytes))
    → All (IsEquality m) kvs
    → All IsName (keys_of_pairs kvs)
    → assignments P true m first (keys_of_pairs kvs)
      ≡ ok (
        joined (if first then [] else codes ", ") (codes ", ") (equality_texts kvs),
        joined
            (if first then [] else codes " OR ")
            (codes " OR ")
            (names_with (codes " IS UNSET") (keys_of_pairs kvs)),
      )
unfolding assignments assignment get_update_value sprintf
assignments-set P m first [] eqs names = refl
assignments-set P m first ((k, s) ∷ kvs) (e, eqs) ((no_id, plain), names) =
    let key = get_update_key-plain k plain in
    let rest = assignments-set P m false kvs eqs names in
    let next : Bytes → Bytes = λ t.
      (if first then [] else codes ", ")
      ++ (t ++ joined (codes ", ") (codes ", ") (equality_texts kvs)) in
    let conditions =
      joined (if first then [] else codes " OR ") (codes " OR ")
        (names_with (codes " IS UNSET") (k ∷ keys_of_pairs kvs)) in
    rw (no_id, key, e.found, rest) (ap (λ t. ok (next t, conditions)) (name_sql-equality k s))

assignments-unset :
    (P : Printing) (m : Fields) (first : Bool) (ks : List Bytes)
    → All IsName ks
    → assignments P false m first ks
      ≡ ok (
        joined (if first then [] else codes ", ") (codes ", ") (names_of ks),
        joined
            (if first then [] else codes " OR ")
            (codes " OR ")
            (names_with (codes " IS SET") ks),
      )
unfolding assignments assignment
assignments-unset P m first [] names = refl
assignments-unset P m first (k ∷ ks) ((no_id, plain), names) =
    let key = get_update_key-plain k plain in
    let rest = assignments-unset P m false ks names in rw (no_id, key, rest)

-- What an update removes: nothing, or the fields under `$unset`.
abbrev pub Removes : Document → List Bytes → Type 0
Removes d [] = lookup (codes "$unset") d.m ≡ none
Removes d (k ∷ ks) =
    (um : Fields) × (lookup (codes "$unset") d.m ≡ some (document um (k ∷ ks)))
    × All IsName (k ∷ ks)

abbrev pub removal_sql : List Bytes → Bytes × Bytes
removal_sql [] = ([], [])
removal_sql (k ∷ ks) = (
  codes " UNSET " ++ joined [] (codes ", ") (names_of (k ∷ ks)),
  joined [] (codes " OR ") (names_with (codes " IS SET") (k ∷ ks)),
)

abbrev pub setting_sql : List (Bytes × Bytes) → Bytes × Bytes
setting_sql kvs = (
  codes " SET " ++ joined [] (codes ", ") (equality_texts kvs),
  joined [] (codes " OR ") (names_with (codes " IS UNSET") (keys_of_pairs kvs)),
)

clause_for-set :
    (P : Printing) (m : Fields) (kvs : List (Bytes × Bytes))
    → All (IsEquality m) kvs
    → All IsName (keys_of_pairs kvs)
    → clause_for P true (some (document m (keys_of_pairs kvs))) ≡ ok (setting_sql kvs)
unfolding clause_for create_set_and_unset
clause_for-set P m kvs eqs names = let set = assignments-set P m true kvs eqs names in rw set

clause_for-unset :
    (P : Printing) (d : Document) (ks : List Bytes)
    → Removes d ks
    → clause_for P false (lookup (codes "$unset") d.m) ≡ ok (removal_sql ks)
unfolding clause_for create_set_and_unset
clause_for-unset P d [] none_there = rw none_there
clause_for-unset P d (k ∷ ks) (um, found, names) =
    let unset = assignments-unset P um true (k ∷ ks) names in rw (found, unset)

-- The condition that some field has another value than it is to have: the clause of the `$set`
-- without its WHERE. And the two texts of the update.
abbrev pub differs : Bool → List (Bytes × Bytes) → Bytes
differs nor kvs = codes " AND ( NOT (   " ++ equalities_in nor [] kvs

abbrev pub update_sql : Bool → List (Bytes × Bytes) → List Bytes → Bytes × Bytes
update_sql nor kvs [] = (
  (setting_sql kvs).0,
  differs nor kvs ++ (codes ") OR (" ++ ((setting_sql kvs).1 ++ codes " )) ")),
)
update_sql nor kvs (k ∷ ks) = (
  (setting_sql kvs).0 ++ (codes ", " ++ (removal_sql (k ∷ ks)).0),
  differs nor kvs
      ++ (codes ") OR ("
          ++ ((setting_sql kvs).1
              ++ (codes " ) OR ( " ++ ((removal_sql (k ∷ ks)).1 ++ codes " ))")))),
)

replace_first-where :
    (sql : Bytes) → replace_first (codes "WHERE") [] (codes " WHERE " ++ sql) ≡ codes "  " ++ sql
unfolding replace_first has_prefix
replace_first-where sql = refl

join_update-texts :
    (fuel : ℕ) (P : Printing) (m : Fields) (kv : Bytes × Bytes) (kvs : List (Bytes × Bytes))
    → (ks : List Bytes) (st : Nor) → All (IsEquality m) (kv ∷ kvs)
    → join_update
        (suc fuel)
        P
        (record { m = m; keys = keys_of_pairs (kv ∷ kvs) })
        (setting_sql (kv ∷ kvs))
        (removal_sql ks)
        st
      ≡ ok (inl (update_sql st.is_nor (kv ∷ kvs) ks), st)
unfolding join_update set_update set_conditions
join_update-texts fuel P m kv kvs [] st eqs =
    let clause = create_where_clause-equalities fuel P m (kv ∷ kvs) st eqs in
    rw (State.◌>>=◌, clause, replace_first-where)
join_update-texts fuel P m kv kvs (k ∷ ks) st eqs =
    let clause = create_where_clause-equalities fuel P m (kv ∷ kvs) st eqs in
    rw (State.◌>>=◌, clause, replace_first-where)

set_document-found :
    (m : Fields) (keys : List Bytes) (o : Option Value)
    → o ≡ some (document m keys)
    → set_document o ≡ record { m = m; keys = keys }
unfolding set_document
set_document-found m keys o found = rw found

-- With any fuel at all, an update with a `$set` of one text or more, under names that are no
-- operators, no paths and not "_id", with a `$unset` of such names or with none, and with no
-- operator that is not supported, becomes SQL that sets each name to its text and then unsets the
-- others, in their order. Its conditions are: not the equalities of the `$set`, as a filter writes
-- them, or a name of the `$set` IS UNSET, or a removed name IS SET. The equalities have the guards
-- of a `$nor` where `isNor` is set. The state stays as it is.
pub update-texts :
    (fuel : ℕ) (P : Printing) (d : Document) (m : Fields) (kv : Bytes × Bytes)
    → (kvs : List (Bytes × Bytes)) (ks : List Bytes) (st : Nor)
    → has_any d unimplemented_fields ≡ false
    → lookup (codes "$set") d.m ≡ some (document m (keys_of_pairs (kv ∷ kvs)))
    → All (IsEquality m) (kv ∷ kvs)
    → All IsName (keys_of_pairs (kv ∷ kvs))
    → Removes d ks
    → update (suc fuel) P d st ≡ ok (inl (update_sql st.is_nor (kv ∷ kvs) ks), st)
unfolding update both_clauses update_from
update-texts fuel P d m kv kvs ks st supported found eqs names removes =
    let set = clause_for-set P m (kv ∷ kvs) eqs names in
    let unset = clause_for-unset P d ks removes in
    let set_made : clause_for P true (lookup (codes "$set") d.m) ≡ ok (setting_sql (kv ∷ kvs)) =
      ap (clause_for P true) found ∙ set in
    let doc = set_document-found m (keys_of_pairs (kv ∷ kvs)) (lookup (codes "$set") d.m) found in
    rw (supported, set_made, unset, doc) (join_update-texts fuel P m kv kvs ks st eqs)
