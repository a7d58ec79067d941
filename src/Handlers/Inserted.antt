-- ===== src/Handlers/Inserted.antt =====
-- internal/handlers/crud/msg_insert.go: the reply counts the rows that are new.
use sap_hana_compatibility_l.Prelude.{
  ℕ, ◌+◌, ◌%◌, ◌^◌, Bool, true, false, some, [], ◌∷◌, ◌⊎◌, inl, inr, ◌≡◌, refl, ap, ◌∙◌, arith,
  Bytes, codes, Outcome, Error, Option, ok, err, panicked, stuck, if◌then◌else◌, not_implemented,
  duplicate_key,
}
use sap_hana_compatibility_l.GoStd.Format.{Printing}
use sap_hana_compatibility_l.Types.Value.{
  Value, Items, document, string, array, int32, nil, cons, Document,
}
use sap_hana_compatibility_l.Types.Fields.{lookup}
use sap_hana_compatibility_l.Types.Arrays.{len}
use sap_hana_compatibility_l.Types.Document.{make_document, must, must_convert_document}
use sap_hana_compatibility_l.Handlers.Where.State.{Nor, Sql}
use sap_hana_compatibility_l.Handlers.Update.{has_any}
use sap_hana_compatibility_l.Handlers.Store.{
  Run, Handler, pure, throw, ◌>>=◌, lift, with_nor, command, the_string, the_array,
}
use sap_hana_compatibility_l.Handlers.Store.Runs.{bind-inl, lift-inl, lift-bind, not_refused}
use sap_hana_compatibility_l.Handlers.MsgDelete.{clause, delete_reply}
use sap_hana_compatibility_l.Handlers.Deletes.{delete_reply-n}
use sap_hana_compatibility_l.Handlers.MsgInsert.{
  Inserts, value_or_nil, scan, add_row, is_id_unique, insert_round, insert_loop, msg_insert,
}

module _ {S : Type 0} (D : Inserts S) (rows : S → ℕ)
    (adds : (sql row : Bytes) (s t : S) → D.add sql row s ≡ ok t → rows t ≡ rows s + 1) where
  -- If the handler gives a value, the database has `k` rows more than before.
  abbrev Adds : {A : Type 0} → ℕ → Handler S A → Type 0
  Adds {A} k h =
      (run after : Run S) (a : A)
      → h run ≡ ok (inl a, after)
      → rows after.store ≡ rows run.store + k

  bind-Adds :
      {A B : Type 0} (k : ℕ) (h : Handler S A) (f : A → Handler S B)
      → Adds 0 h
      → ((a : A) → Adds k (f a))
      → Adds k (h >>= f)
  bind-Adds k h f still more run after b e =
      let (a, mid, first, rest) = bind-inl h f run after b e in
      let same = still run mid a first in let new = more a mid after b rest in omega arith

  same-Adds : (run after : Run S) → run ≡ after → rows after.store ≡ rows run.store + 0
  same-Adds run after same =
      let left : rows run.store ≡ rows after.store = ap (λ r. rows r.store) same in omega arith

  lift-Adds : {A : Type 0} (o : Outcome A) → Adds 0 (lift {S = S} o)
  lift-Adds o run after b e =
      let (given, same) = lift-inl o run after b e in same-Adds run after same

  scan-Adds : (sql : Bytes) → Adds 0 (scan D sql)
  scan-Adds sql run after b e = lift-Adds (D.finds sql run.store) run after b e

  throw-Adds : {A : Type 0} (k : ℕ) (x : Error) → Adds {A = A} k (throw x)
  throw-Adds k x run after n e = cc

  pure-Adds : {A : Type 0} (a : A) → Adds 0 (pure {S = S} a)
  pure-Adds a run after n e = same-Adds run after cc

  if-Adds :
      {A : Type 0} (k : ℕ) (b : Bool) (x y : Handler S A)
      → Adds k x
      → Adds k y
      → Adds k (if b then x else y)
  if-Adds k true x y cx cy = cx
  if-Adds k false x y cx cy = cy

  with_nor-Adds : {A : Type 0} (sql : Sql (A ⊎ Error)) → Adds 0 (with_nor {S = S} sql)
  with_nor-Adds {A} sql run after b e = go (sql run.nor) e
    where
      go :
          (o : Outcome ((A ⊎ Error) × Nor))
          → with_nor {S = S} (λ _. o) run ≡ ok (inl b, after)
          → rows after.store ≡ rows run.store + 0
      go (ok (inl c, nor)) e =
          let same_run : record { nor = nor; store = run.store } ≡ after = cc in
          same-Adds (record { nor = nor; store = run.store }) after same_run
      go (ok (inr x, nor)) e = cc
      go (err x) e = cc
      go panicked e = cc
      go stuck e = cc

  add_row-Adds : (sql row : Bytes) → Adds 1 (add_row D sql row)
  add_row-Adds sql row run after n e = go (D.add sql row run.store) refl e
    where
      go :
          (o : Outcome S)
          → D.add sql row run.store ≡ o
          → elim o as (λ _. Outcome ((Unit {0} ⊎ Error) × Run S)) [
            | ok store ↦ ok (inl tt, record { nor = run.nor; store = store })
            | err e ↦ ok (inr e, run)
            | panicked ↦ panicked
            | stuck ↦ stuck
          ]
            ≡ ok (inl n, after)
          → rows after.store ≡ rows run.store + 1
      go (ok t) same e =
          let same_run : record { nor = run.nor; store = t } ≡ after = cc in
          let new = adds sql row run.store t same in
          let left : rows t ≡ rows after.store = ap (λ r. rows r.store) same_run in omega arith
      go (err x) same e = cc
      go panicked same e = cc
      go stuck same e = cc

  is_id_unique-Adds :
      (fuel : ℕ) (P : Printing) (id : Value) (db collection : Bytes)
      → Adds 0 (is_id_unique D fuel P id db collection)
  unfolding is_id_unique clause
  is_id_unique-Adds fuel P id db collection =
      bind-Adds 0 _ _ (lift-Adds (must (make_document (string (codes "_id") ∷ id ∷ [])))) λ filter.
        bind-Adds 0 _ _ (with_nor-Adds _) λ where_sql. bind-Adds 0 _ _ (scan-Adds _) λ found.
          if-Adds 0 found _ _
            (bind-Adds 0 _ _ (lift-Adds (D.marshal_value id)) λ byte_id. throw-Adds 0 duplicate_key)
            (pure-Adds tt)

  insert_round-Adds :
      (fuel : ℕ) (P : Printing) (db collection : Bytes) (v : Value)
      → Adds 1 (insert_round D fuel P db collection v)
  unfolding insert_round
  insert_round-Adds fuel P db collection (document m keys) =
      let id = value_or_nil (lookup (codes "_id") m) in
      bind-Adds 1 _ _ (is_id_unique-Adds fuel P id db collection) λ unique.
        bind-Adds 1 _ _ (lift-Adds (must_convert_document (record { m = m; keys = keys })))
          λ d. bind-Adds 1 _ _ (lift-Adds (D.marshal_document d)) λ b. add_row-Adds _ b
  insert_round-Adds fuel P db collection _ = λ run after n e. cc

  insert_loop-Adds :
      (fuel : ℕ) (P : Printing) (db collection : Bytes) (xs : Items) (inserted : ℕ)
      → (run after : Run S) (n : ℕ) → inserted % 2 ^ 32 ≡ inserted
      → insert_loop D fuel P db collection xs inserted run ≡ ok (inl n, after)
      → (rows after.store ≡ rows run.store + len xs) × (n ≡ (inserted + len xs) % 2 ^ 32)
  unfolding insert_loop len
  insert_loop-Adds fuel P db collection nil inserted run after n small e =
      let same_run : run ≡ after = cc in
      let same_count : inserted ≡ n = cc in (same-Adds run after same_run, omega arith)
  insert_loop-Adds fuel P db collection (cons v xs) inserted run after n small e =
      let (done, mid, first, rest) =
        bind-inl (insert_round D fuel P db collection v) _ run after n e in
      let new = insert_round-Adds fuel P db collection v run mid done first in
      let (others, count) =
        insert_loop-Adds fuel P db collection xs ((inserted + 1) % 2 ^ 32) mid after n (omega arith)
          rest in
      (omega arith, omega arith)

  -- The whole loop, where the state after it is one of several names of it.
  inserts-Adds :
      (fuel : ℕ) (P : Printing) (db collection : Bytes) (xs : Items) (run mid after : Run S) (n : ℕ)
      → insert_loop D fuel P db collection xs 0 run ≡ ok (inl n, mid)
      → mid ≡ after
      → (rows after.store ≡ rows run.store + len xs) × (n ≡ len xs % 2 ^ 32)
  inserts-Adds fuel P db collection xs run mid after n looped same_run =
      let (new, count) = insert_loop-Adds fuel P db collection xs 0 run mid n refl looped in
      let left : rows mid.store ≡ rows after.store = ap (λ r. rows r.store) same_run in
      (omega arith, omega arith)

the_array-some : (v : Option Value) (xs : Items) → the_array v ≡ ok xs → v ≡ some (array xs)
unfolding the_array
the_array-some (some (array ys)) xs e = cc
the_array-some _ xs e = cc

-- Where each INSERT that the database runs adds one row, an accepted MsgInsert has added one for each
-- document of the array under "documents", and its reply has their number, in 32 bits, under "n".
pub msg_insert-rows :
    {S : Type 0} (D : Inserts S) (rows : S → ℕ)
    → ((sql row : Bytes) (s t : S) → D.add sql row s ≡ ok t → rows t ≡ rows s + 1)
    → (fuel : ℕ) (P : Printing) (d reply : Document) (run after : Run S)
    → msg_insert D fuel P d run ≡ ok (inl reply, after)
    → (docs : Items) × (lookup (codes "documents") d.m ≡ some (array docs))
      × (rows after.store ≡ rows run.store + len docs)
      × (lookup (codes "n") reply.m ≡ some (int32 (len docs % 2 ^ 32)))
unfolding msg_insert
msg_insert-rows D rows adds fuel P d reply run after e =
    let options = codes "writeConcern" ∷ codes "bypassDocumentValidation" ∷ codes "comment" ∷ [] in
    let allowed = not_refused (has_any d options) not_implemented _ run after reply e in
    let (name, f1) = lift-bind (command d) _ run after reply allowed in
    let (collection, f2) = lift-bind (the_string (lookup name d.m)) _ run after reply f1 in
    let (db, f3) = lift-bind (the_string (lookup (codes "$db") d.m)) _ run after reply f2 in
    let (docs, first, is_array, f4) =
      bind-inl (lift (the_array (lookup (codes "documents") d.m))) _ run after reply f3 in
    let (found, stays) =
      lift-inl (the_array (lookup (codes "documents") d.m)) run first docs is_array in
    let (n, mid, looped, f5) =
      bind-inl (insert_loop D fuel P db collection docs 0) _ first after reply f4 in
    let (made, same_run) = lift-inl (delete_reply n) mid after reply f5 in
    let (new, count) =
      inserts-Adds D rows adds fuel P db collection docs first mid after n looped same_run in
    let left : rows run.store ≡ rows first.store = ap (λ r. rows r.store) stays in
    (
      docs,
      the_array-some (lookup (codes "documents") d.m) docs found,
      omega arith,
      delete_reply-n n reply made ∙ ap (λ k. some (int32 k)) count,
    )
