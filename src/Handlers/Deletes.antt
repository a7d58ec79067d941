-- ===== src/Handlers/Deletes.antt =====
-- internal/handlers/crud/msg_delete.go: the reply counts the rows that are gone.
use sap_hana_compatibility_l.Prelude.{
  ℕ, ◌+◌, ◌%◌, ◌^◌, ◌==◌, Bool, true, false, Option, none, some, [], ◌∷◌, ◌⊎◌, inl, inr, ◌≡◌, refl,
  ap, subst, ◌∙◌, arith, Bytes, codes, Outcome, Error, ok, err, panicked, stuck, if◌then◌else◌,
  bytes_eq, not_implemented,
}
use sap_hana_compatibility_l.GoStd.Format.{Printing}
use sap_hana_compatibility_l.Types.Value.{
  Value, Items, document, int32, nil, cons, end, field, Document,
}
use sap_hana_compatibility_l.Types.Fields.{lookup, insert}
use sap_hana_compatibility_l.GoStd.{valid_string}
use sap_hana_compatibility_l.Handlers.Where.State.{Nor, Sql}
use sap_hana_compatibility_l.Handlers.UpdateValue.{get_update_value}
use sap_hana_compatibility_l.Handlers.Update.{has_any}
use sap_hana_compatibility_l.Handlers.Store.{
  Hana, Run, Handler, pure, throw, ◌>>=◌, lift, with_nor, execute, get_row, command, the_string,
  the_array, one_double, the_document, on_table, id_of, add_int32,
}
use sap_hana_compatibility_l.Handlers.Store.Runs.{bind-inl, lift-inl, lift-bind, not_refused}
use sap_hana_compatibility_l.Handlers.MsgDelete.{
  clause, limit_of, delete_error, delete_by_id, delete_round, delete_loop, delete_reply, msg_delete,
}

module _ {S : Type 0} (H : Hana S) (rows : S → ℕ)
    (removes : (sql : Bytes) (s t : S) (n : ℕ)
      → H.exec sql s ≡ ok (n, t)
      → rows s ≡ rows t + n) where
  -- If the handler gives a value, the database has as many rows as before, or as many fewer as the
  -- value says.
  abbrev Still : {A : Type 0} → Handler S A → Type 0
  Still {A} h =
      (run after : Run S) (a : A) → h run ≡ ok (inl a, after) → rows run.store ≡ rows after.store

  abbrev Counts : Handler S ℕ → Type 0
  Counts h =
      (run after : Run S) (n : ℕ)
      → h run ≡ ok (inl n, after)
      → rows run.store ≡ rows after.store + n

  bind-Counts :
      {A : Type 0} (h : Handler S A) (f : A → Handler S ℕ)
      → Still h
      → ((a : A) → Counts (f a))
      → Counts (h >>= f)
  bind-Counts h f still counts run after n e =
      let (a, mid, first, rest) = bind-inl h f run after n e in
      still run mid a first ∙ counts a mid after n rest

  lift-Still : {A : Type 0} (o : Outcome A) → Still (lift {S = S} o)
  lift-Still (ok a) run after b e =
      let same_run : run ≡ after = cc in ap (λ r. rows r.store) same_run
  lift-Still (err x) run after b e = cc
  lift-Still panicked run after b e = cc
  lift-Still stuck run after b e = cc

  get_row-Still : (sql : Bytes) → Still (get_row H sql)
  get_row-Still sql run after b e =
      let same_run : run ≡ after = cc in ap (λ r. rows r.store) same_run

  with_nor-Still : {A : Type 0} (sql : Sql (A ⊎ Error)) → Still (with_nor {S = S} sql)
  with_nor-Still {A} sql run after b e = go (sql run.nor) e
    where
      go :
          (o : Outcome ((A ⊎ Error) × Nor))
          → with_nor {S = S} (λ _. o) run ≡ ok (inl b, after)
          → rows run.store ≡ rows after.store
      go (ok (inl c, nor)) e =
          let same_run : record { nor = nor; store = run.store } ≡ after = cc in
          ap (λ r. rows r.store) same_run
      go (ok (inr x, nor)) e = cc
      go (err x) e = cc
      go panicked e = cc
      go stuck e = cc

  execute-Counts : (wrap : Error → Error) (sql : Bytes) → Counts (execute H wrap sql)
  execute-Counts wrap sql run after n e = go (H.exec sql run.store) refl e
    where
      go :
          (o : Outcome (ℕ × S))
          → H.exec sql run.store ≡ o
          → elim o as (λ _. Outcome ((ℕ ⊎ Error) × Run S)) [
            | ok (n, store) ↦ ok (inl n, record { nor = run.nor; store = store })
            | err e ↦ ok (inr (wrap e), run)
            | panicked ↦ panicked
            | stuck ↦ stuck
          ]
            ≡ ok (inl n, after)
          → rows run.store ≡ rows after.store + n
      go (ok (k, t)) same e =
          let same_run : record { nor = run.nor; store = t } ≡ after = cc in
          let same_rows : k ≡ n = cc in
          let gone = removes sql run.store t k same in
          let left : rows t ≡ rows after.store = ap (λ r. rows r.store) same_run in omega arith
      go (err x) same e = cc
      go panicked same e = cc
      go stuck same e = cc

  none-Counts : Counts (pure 0)
  none-Counts run after n e =
      let same_run : run ≡ after = cc in
      let zero_rows : 0 ≡ n = cc in omega (arith, ap (λ r. rows r.store) same_run)

  if-Counts : (b : Bool) (x y : Handler S ℕ) → Counts x → Counts y → Counts (if b then x else y)
  if-Counts true x y cx cy = cx
  if-Counts false x y cx cy = cy

  throw-Counts : (e : Error) → Counts (throw e)
  throw-Counts x run after n e = cc

  found-Counts :
      (row : Option Bytes) (x : Handler S ℕ) (f : Bytes → Handler S ℕ)
      → Counts x
      → ((b : Bytes) → Counts (f b))
      → Counts (elim row as (λ _. Handler S ℕ) [ none ↦ x | some b ↦ f b ])
  found-Counts none x f cx cf = cx
  found-Counts (some b) x f cx cf = cf b

  delete_by_id-Counts : (P : Printing) (sql row : Bytes) → Counts (delete_by_id H P sql row)
  unfolding delete_by_id
  delete_by_id-Counts P sql row = bind-Counts _ _ (lift-Still (H.unmarshal row)) λ v.
      bind-Counts _ _ (lift-Still (id_of v)) λ id.
        bind-Counts _ _ (lift-Still (get_update_value P id))
          λ delete_id. execute-Counts delete_error _

  delete_round-Counts :
      (fuel : ℕ) (P : Printing) (db collection : Bytes) (v : Value)
      → Counts (delete_round H fuel P db collection v)
  unfolding delete_round clause
  delete_round-Counts fuel P db collection (document m keys) =
      if-Counts (has_any (record { m = m; keys = keys }) (codes "collation" ∷ codes "hint" ∷ [])) _
        _ (throw-Counts not_implemented)
        (bind-Counts _ _ (lift-Still (the_document (lookup (codes "q") m))) λ q.
          bind-Counts _ _ (with_nor-Still _) λ where_sql.
            if-Counts (limit_of (lookup (codes "limit") m) == 0) _ _ (execute-Counts delete_error _)
              (bind-Counts _ _ (get_row-Still _) λ row. found-Counts row _ _ none-Counts λ b.
                delete_by_id-Counts P (on_table P (codes "DELETE FROM %s.%s") db collection) b))
  delete_round-Counts fuel P db collection _ = λ run after n e. cc

  delete_loop-Counts :
      (fuel : ℕ) (P : Printing) (db collection : Bytes) (xs : Items) (deleted : ℕ)
      → (run after : Run S) (n : ℕ)
      → delete_loop H fuel P db collection xs deleted run ≡ ok (inl n, after)
      → (deleted + rows run.store) % 2 ^ 32 ≡ (n + rows after.store) % 2 ^ 32
  unfolding delete_loop
  delete_loop-Counts fuel P db collection nil deleted run after n e =
      let same_run : run ≡ after = cc in
      let same_rows : deleted ≡ n = cc in
      let left : rows run.store ≡ rows after.store = ap (λ r. rows r.store) same_run in omega arith
  delete_loop-Counts fuel P db collection (cons v xs) deleted run after n e =
      let (k, mid, first, rest) =
        bind-inl (delete_round H fuel P db collection v) _ run after n e in
      let gone = delete_round-Counts fuel P db collection v run mid k first in
      let others =
        delete_loop-Counts fuel P db collection xs (add_int32 deleted k) mid after n rest in
      omega arith

  -- The whole loop, where the state after it is one of several names of it.
  deletes-Counts :
      (fuel : ℕ) (P : Printing) (db collection : Bytes) (xs : Items) (run mid after : Run S) (n : ℕ)
      → delete_loop H fuel P db collection xs 0 run ≡ ok (inl n, mid)
      → mid ≡ after
      → rows run.store % 2 ^ 32 ≡ (n + rows after.store) % 2 ^ 32
  deletes-Counts fuel P db collection xs run mid after n looped same_run =
      let gone = delete_loop-Counts fuel P db collection xs 0 run mid n looped in
      let left : rows mid.store ≡ rows after.store = ap (λ r. rows r.store) same_run in omega arith

pub delete_reply-n :
    (n : ℕ) (reply : Document)
    → delete_reply n ≡ ok reply
    → lookup (codes "n") reply.m ≡ some (int32 n)
unfolding delete_reply lookup valid_string insert bytes_eq
delete_reply-n n reply e =
    let made : record {
      m = field (codes "n") (int32 n) (field (codes "ok") one_double end);
      keys = codes "n" ∷ codes "ok" ∷ [];
    }
        ≡ reply =
      cc in
    subst (λ r. lookup (codes "n") r.m ≡ some (int32 n)) made refl

-- Where each statement that the database runs takes as many rows away as it reports, the reply of an
-- accepted MsgDelete has under "n" how many rows fewer there are than before, in 32 bits.
pub msg_delete-rows :
    {S : Type 0} (H : Hana S) (rows : S → ℕ)
    → ((sql : Bytes) (s t : S) (n : ℕ) → H.exec sql s ≡ ok (n, t) → rows s ≡ rows t + n)
    → (fuel : ℕ) (P : Printing) (d reply : Document) (run after : Run S)
    → msg_delete H fuel P d run ≡ ok (inl reply, after)
    → (n : ℕ) × (lookup (codes "n") reply.m ≡ some (int32 n))
      × (rows run.store % 2 ^ 32 ≡ (n + rows after.store) % 2 ^ 32)
unfolding msg_delete
msg_delete-rows H rows removes fuel P d reply run after e =
    let refused = has_any d (codes "let" ∷ codes "writeConcern" ∷ []) in
    let allowed = not_refused refused not_implemented _ run after reply e in
    let (name, f1) = lift-bind (command d) _ run after reply allowed in
    let (collection, f2) = lift-bind (the_string (lookup name d.m)) _ run after reply f1 in
    let (db, f3) = lift-bind (the_string (lookup (codes "$db") d.m)) _ run after reply f2 in
    let (docs, f4) = lift-bind (the_array (lookup (codes "deletes") d.m)) _ run after reply f3 in
    let (n, mid, looped, f5) =
      bind-inl (delete_loop H fuel P db collection docs 0) _ run after reply f4 in
    let (made, same_run) = lift-inl (delete_reply n) mid after reply f5 in
    (
      n,
      delete_reply-n n reply made,
      deletes-Counts H rows removes fuel P db collection docs run mid after n looped same_run,
    )
