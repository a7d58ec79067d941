-- ===== src/Handlers/Clauses/Loops.antt =====
-- internal/handlers/common/where.go: the loops of the functions keep `isNor` and `norCounter`, where
-- the calls that they make do.
use sap_hana_compatibility_l.Prelude.{
  ℕ, suc, ◌≤◌, Bool, true, false, Option, none, some, List, [], ◌∷◌, ◌≡◌, refl, arith, Bytes,
  if◌then◌else◌,
}
use sap_hana_compatibility_l.Types.Value.{Value, Items, Fields, document, null, nil, cons}
use sap_hana_compatibility_l.Types.Fields.{lookup}
use sap_hana_compatibility_l.Handlers.Where.State.{Nor, Answer, Sql}
use sap_hana_compatibility_l.Handlers.Where.{clause_loop}
use sap_hana_compatibility_l.Handlers.Where.Logic.{expression_loop, logic_loop}
use sap_hana_compatibility_l.Handlers.Clauses.Sizes.{size, items_size, fields_size, size-lookup}
use sap_hana_compatibility_l.Handlers.Clauses.NorState.{
  IsNorState, Keeps, fails, Keeps-pure, Keeps-bind,
}

-- The calls for values of at most a size keep them.
abbrev pub KeepsPairs : ℕ → (Bytes → Value → Sql Answer) → Type 0
KeepsPairs n pair =
    (k : Bytes) (v : Value) (st : Nor) → size v ≤ n → IsNorState st → Keeps st (pair k v st)

pub Keeps-option :
    {A : Type 0} {st : Nor} (o : Option A) (x : Sql Answer) (f : A → Sql Answer)
    → Keeps st (x st)
    → ((a : A) → o ≡ some a → Keeps st (f a st))
    → Keeps st ((elim o as (λ _. Sql Answer) [ none ↦ x | some a ↦ f a ]) st)
Keeps-option none x f h k = h
Keeps-option (some a) x f h k = k a refl

pub Keeps-if :
    {st : Nor} (b : Bool) (x y : Sql Answer)
    → Keeps st (x st)
    → Keeps st (y st)
    → Keeps st ((if b then x else y) st)
Keeps-if true x y h k = h
Keeps-if false x y h k = k

pub expression_loop-Keeps :
    (pair : Bytes → Value → Sql Answer) (m : Fields)
    → KeepsPairs (fields_size m) pair
    → (first : Bool) (keys : List Bytes) (kv : Bytes) (st : Nor) → IsNorState st
    → Keeps st (expression_loop pair m first keys kv st)
unfolding expression_loop
expression_loop-Keeps pair m keep first [] kv st w = Keeps-pure st _ w
expression_loop-Keeps pair m keep first (k ∷ keys) kv st w =
    Keeps-option (lookup k m) _ _ (Keeps-pure st _ w) λ v e.
      Keeps-bind _ (keep k v st (let s = size-lookup k m v e in omega arith) w)
        (λ t. expression_loop-Keeps pair m keep false keys _ st w) λ t x after. fails

pub logic_loop-Keeps :
    (pair : Bytes → Value → Sql Answer) (logic_expr : Bytes) (nor first : Bool) (xs : Items)
    → KeepsPairs (items_size xs) pair
    → (kv : Bytes) (st : Nor) → IsNorState st
    → Keeps st (logic_loop pair logic_expr nor first xs kv st)
unfolding logic_loop size
logic_loop-Keeps pair logic_expr nor first nil keep kv st w = Keeps-pure st _ w
logic_loop-Keeps pair logic_expr nor first (cons (document m keys) xs) keep kv st w =
    Keeps-bind _
      (expression_loop-Keeps pair m (λ k v st le. keep k v st (omega arith)) true keys _ st w)
      (λ t.
        logic_loop-Keeps pair logic_expr nor false xs (λ k v st le. keep k v st (omega arith)) _ st
          w)
      λ t x after. fails
logic_loop-Keeps pair logic_expr nor first (cons _ xs) keep kv st w = Keeps-pure st _ w

pub clause_loop-Keeps :
    (pair : Bytes → Value → Sql Answer) (m : Fields)
    → KeepsPairs (suc (fields_size m)) pair
    → (first : Bool) (keys : List Bytes) (sql : Bytes) (st : Nor) → IsNorState st
    → Keeps st (clause_loop pair m first keys sql st)
unfolding clause_loop size
clause_loop-Keeps pair m keep first [] sql st w = Keeps-pure st _ w
clause_loop-Keeps pair m keep first (k ∷ keys) sql st w =
    Keeps-bind _ (keep k _ st (small (lookup k m) refl) w)
      (λ t. clause_loop-Keeps pair m keep false keys _ st w) λ t x after. fails
  where
    small :
        (o : Option Value)
        → lookup k m ≡ o
        → size (elim o [ none ↦ null | some v ↦ v ]) ≤ suc (fields_size m)
    small none e = omega arith
    small (some v) e = let s = size-lookup k m v e in omega arith
