-- ===== src/Handlers/Updated.antt =====
-- internal/handlers/crud/msg_update.go: how many documents an update of single ones modifies.
use sap_hana_compatibility_l.Prelude.{
  ℕ, ◌+◌, ◌≤◌, Bool, true, false, Option, none, some, [], ◌∷◌, ◌++◌, inl, ◌≡◌, refl, subst, arith,
  Bytes, codes, ok, bytes_eq, not_implemented,
}
use sap_hana_compatibility_l.GoStd.{valid_string}
use sap_hana_compatibility_l.GoStd.Format.{Printing, text, sprintf}
use sap_hana_compatibility_l.Types.Value.{
  Value, Items, document, array, int32, nil, cons, end, field, Document,
}
use sap_hana_compatibility_l.Types.Fields.{lookup, insert}
use sap_hana_compatibility_l.Types.Arrays.{len}
use sap_hana_compatibility_l.Handlers.UpdateValue.{get_update_value}
use sap_hana_compatibility_l.Handlers.Update.{has_any, update}
use sap_hana_compatibility_l.Handlers.MsgDelete.{clause}
use sap_hana_compatibility_l.Handlers.Store.{
  Hana, Run, Handler, pure, ◌>>=◌, lift, with_nor, execute, get_row, the_string, the_document,
  the_array, id_of, on_table, one_double, add_int32,
}
use sap_hana_compatibility_l.Handlers.Store.Runs.{bind-inl, lift-inl, lift-bind, not_refused}
use sap_hana_compatibility_l.Handlers.MsgUpdate.{
  same_error, is_multi, update_by_id, update_rows, update_round, update_loop, update_reply,
  update_unimplemented, msg_update,
}

-- The update has no "multi" that is true.
abbrev IsSingle : Value → Type 0
IsSingle (document m keys) = is_multi (lookup (codes "multi") m) ≡ false
IsSingle _ = Unit

abbrev pub AllSingle : Items → Type 0
AllSingle nil = Unit
AllSingle (cons v xs) = IsSingle v × AllSingle xs

-- The second count is at most one.
abbrev One : {S : Type 0} → Handler S (ℕ × ℕ) → Type 0
One {S} h = (run after : Run S) (r : ℕ × ℕ) → h run ≡ ok (inl r, after) → r.1 ≤ 1

bind-One :
    {S A : Type 0} (h : Handler S A) (f : A → Handler S (ℕ × ℕ))
    → ((a : A) → One (f a))
    → One (h >>= f)
bind-One h f one run after r e =
    let (a, mid, first, rest) = bind-inl h f run after r e in one a mid after r rest

pure-One : {S : Type 0} (matched n : ℕ) → n ≤ 1 → One (pure {S = S} (matched, n))
pure-One matched n le run after r e =
    let same_count : n ≡ r.1 = cc in subst (λ k. k ≤ 1) same_count le

module _ {S : Type 0} (H : Hana S) (P : Printing) where
  update_by_id-One :
      (sql : Bytes) (matched : ℕ) (row : Bytes) → One (update_by_id H P sql matched row)
  unfolding update_by_id
  update_by_id-One sql matched row = bind-One (lift (H.unmarshal row)) _ λ v.
      bind-One (lift (id_of v)) _ λ id. bind-One (lift (get_update_value P id)) _ λ update_id.
        bind-One
          (execute H same_error
            (sql ++ (codes " " ++ sprintf P (codes "WHERE \"_id\" = %s") (text update_id ∷ []))))
          _ λ rows. pure-One matched 1 (omega arith)

  found-One :
      (row : Option Bytes) (sql : Bytes) (matched : ℕ)
      → One (elim row as (λ _. Handler S (ℕ × ℕ)) [
        | none ↦ pure (matched, 0)
        | some b ↦ update_by_id H P sql matched b
      ])
  found-One none sql matched = pure-One matched 0 (omega arith)
  found-One (some b) sql matched = update_by_id-One sql matched b

  abbrev counting : Bytes → Bytes → Bytes → Bytes
  counting db collection where_sql =
      on_table P (codes "SELECT count(*) FROM %s.%s") db collection ++ where_sql

  abbrev selecting : Bytes → Bytes → Bytes → Bytes → Bytes
  selecting db collection where_sql conditions =
      on_table P (codes "SELECT {\"_id\": \"_id\"} FROM %s.%s") db collection
      ++ (where_sql ++ (conditions ++ codes " LIMIT 1"))

  update_rows-One :
      (db collection where_sql : Bytes) (sql : Bytes × Bytes) (multi : Bool)
      → multi ≡ false
      → One (update_rows H P db collection multi where_sql sql)
  unfolding update_rows
  update_rows-One db collection where_sql sql true h = cc
  update_rows-One db collection where_sql sql false h =
      bind-One (λ run. lift (H.count_row (counting db collection where_sql) run.store) run) _
        λ matched.
          bind-One (get_row H (selecting db collection where_sql sql.1)) _
            λ row. found-One row (on_table P (codes "UPDATE %s.%s ") db collection ++ sql.0) matched

  update_round-One :
      (fuel : ℕ) (db collection : Bytes) (v : Value)
      → IsSingle v
      → One (update_round H fuel P db collection v)
  unfolding update_round
  update_round-One fuel db collection (document m keys) single =
      bind-One (lift (the_document (lookup (codes "q") m))) _ λ q.
        bind-One (clause fuel P q) _ λ where_sql.
          bind-One (lift (the_document (lookup (codes "u") m))) _ λ u.
            bind-One (with_nor (update fuel P u)) _ λ sql.
              update_rows-One db collection where_sql sql (is_multi (lookup (codes "multi") m))
                single
  update_round-One fuel db collection _ single = λ run after r e. cc

  update_loop-bound :
      (fuel : ℕ) (db collection : Bytes) (xs : Items) (selected updated : ℕ)
      → AllSingle xs
      → (run after : Run S) (r : ℕ × ℕ)
      → update_loop H fuel P db collection xs selected updated run ≡ ok (inl r, after)
      → r.1 ≤ updated + len xs
  unfolding update_loop len
  update_loop-bound fuel db collection nil selected updated single run after r e =
      let same_count : updated ≡ r.1 = cc in omega arith
  update_loop-bound fuel db collection (cons v xs) selected updated (one, single) run after r e =
      let (k, mid, first, rest) =
        bind-inl (update_round H fuel P db collection v) _ run after r e in
      let at_most_one = update_round-One fuel db collection v one run mid k first in
      let others =
        update_loop-bound fuel db collection xs (add_int32 selected k.0) (add_int32 updated k.1)
          single mid after r rest in
      omega arith

update_reply-n_modified :
    (r : ℕ × ℕ) (reply : Document)
    → update_reply r ≡ ok reply
    → lookup (codes "nModified") reply.m ≡ some (int32 r.1)
unfolding update_reply lookup valid_string insert bytes_eq
update_reply-n_modified (selected, updated) reply e =
    let made : record {
      m =
          field (codes "n") (int32 selected)
            (field (codes "nModified") (int32 updated) (field (codes "ok") one_double end));
      keys = codes "n" ∷ codes "nModified" ∷ codes "ok" ∷ [];
    }
        ≡ reply =
      cc in
    subst (λ r. lookup (codes "nModified") r.m ≡ some (int32 updated)) made refl

abbrev all_rounds :
    {S : Type 0} → Hana S → ℕ → Printing → Bytes → Bytes → Option Value → Handler S Document
all_rounds H fuel P db collection o = lift (the_array o) >>= (λ docs.
    update_loop H fuel P db collection docs 0 0 >>= (λ counts. lift (update_reply counts)))

all_rounds-bound :
    {S : Type 0} (H : Hana S) (fuel : ℕ) (P : Printing) (db collection : Bytes) (docs : Items)
    → (reply : Document) (run after : Run S) → AllSingle docs
    → all_rounds H fuel P db collection (some (array docs)) run ≡ ok (inl reply, after)
    → (n : ℕ) × (lookup (codes "nModified") reply.m ≡ some (int32 n)) × (n ≤ len docs)
unfolding the_array
all_rounds-bound H fuel P db collection docs reply run after single e =
    let (r, mid, looped, f) =
      bind-inl (update_loop H fuel P db collection docs 0 0) _ run after reply e in
    let (made, same_run) = lift-inl (update_reply r) mid after reply f in
    let small = update_loop-bound H P fuel db collection docs 0 0 single run mid r looped in
    (r.1, update_reply-n_modified r reply made, omega arith)

-- Where no update of an accepted MsgUpdate has a "multi" that is true, the reply has under
-- "nModified" at most the number of updates.
pub msg_update-bound :
    {S : Type 0} (H : Hana S) (fuel : ℕ) (P : Printing) (d reply : Document) (docs : Items)
    → (run after : Run S) → lookup (codes "updates") d.m ≡ some (array docs)
    → AllSingle docs
    → msg_update H fuel P d run ≡ ok (inl reply, after)
    → (n : ℕ) × (lookup (codes "nModified") reply.m ≡ some (int32 n)) × (n ≤ len docs)
unfolding msg_update the_array
msg_update-bound H fuel P d reply docs run after there single e =
    let refused = has_any d update_unimplemented in
    let allowed = not_refused refused not_implemented _ run after reply e in
    let (collection, f1) =
      lift-bind (the_string (lookup (codes "update") d.m)) _ run after reply allowed in
    let (db, f2) = lift-bind (the_string (lookup (codes "$db") d.m)) _ run after reply f1 in
    all_rounds-bound H fuel P db collection docs reply run after single
      (subst (λ o. all_rounds H fuel P db collection o run ≡ ok (inl reply, after)) there f2)
