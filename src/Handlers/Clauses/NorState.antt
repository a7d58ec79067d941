-- ===== src/Handlers/Clauses/NorState.antt =====
-- internal/handlers/common/where.go: runs that leave `isNor` and `norCounter` as they found them,
-- unless they end in an error.
use sap_hana_compatibility_l.Prelude.{
  ◌≤◌, not, none, some, ◌≡◌, refl, arith, subst, sym, ◌⊎◌, inl, inr, holds, failed, ◌==◌, Bytes,
  Outcome, Error, ok, panicked,
}
use sap_hana_compatibility_l.Bson.Calm.{Calm}
use sap_hana_compatibility_l.Handlers.Where.State.{
  Nor, Answer, answer, fail, Sql, pure, ◌>>=◌, attempt, tried,
}

-- `isNor` is set where `norCounter` is not 0.
abbrev pub IsNorState : Nor → Type 0
IsNorState st = st.is_nor ≡ not (st.nor_counter == 0)

-- The run panics or ends, and without an error it ends in the state it began in; with one, the
-- counter has not gone down.
pub data Keeps (st : Nor) : Outcome (Answer × Nor) → Type 0 where
  kept :
      {a : Answer} {after : Nor}
      → IsNorState after
      → st.nor_counter ≤ after.nor_counter
      → (a.1 ≡ none → after ≡ st)
      → Keeps st (ok (a, after))
  broken : Keeps st panicked

pub Keeps-pure : (st : Nor) (a : Answer) → IsNorState st → Keeps st (pure a st)
Keeps-pure st a h = kept h (omega arith) (λ _. refl)

-- It hands an error on.
pub data Fails (st : Nor) : Outcome (Answer × Nor) → Type 0 where
  fails : {t : Bytes} {e : Error} → Fails st (ok ((t, some e), st))
  breaks : Fails st panicked

Keeps-error :
    {st after : Nor} {r : Outcome (Answer × Nor)}
    → IsNorState after
    → st.nor_counter ≤ after.nor_counter
    → Fails after r
    → Keeps st r
Keeps-error w le fails = kept w le (λ h. cc)
Keeps-error w le breaks = broken

-- What a caller does with the answer of a call: it goes on, or it returns an error of its own.
pub Keeps-bind :
    {st : Nor} {r : Outcome (Answer × Nor)} (f : Answer → Sql Answer)
    → Keeps st r
    → ((t : Bytes) → Keeps st (f (answer t) st))
    → ((t : Bytes) (e : Error) (after : Nor) → Fails after (f (fail t e) after))
    → Keeps st (((λ _. r) >>= f) st)
Keeps-bind {st} f (kept {a = (t, none)} {after} w le back) good bad =
    subst (λ s. Keeps st (f (answer t) s)) (sym (back refl)) (good t)
Keeps-bind f (kept {a = (t, some e)} {after} w le back) good bad = Keeps-error w le (bad t e after)
Keeps-bind f broken good bad = broken

-- A call that does not touch the variables, and whose error the caller looks at.
pub Keeps-tried :
    {A : Type 0} {st : Nor} {o : Outcome A} (f : A ⊎ Error → Sql Answer)
    → Calm o
    → ((a : A) → Keeps st (f (inl a) st))
    → ((e : Error) → Keeps st (f (inr e) st))
    → Keeps st ((attempt (tried o) >>= f) st)
Keeps-tried f (holds {a} h) good bad = good a
Keeps-tried f (failed {e}) good bad = bad e
