-- ===== src/Handlers/Store/Runs.antt =====
-- internal/handlers/crud: the steps of a handler that gives a value.
use sap_hana_compatibility_l.Prelude.{
  Bool, true, false, ◌⊎◌, inl, inr, ◌≡◌, refl, Outcome, Error, ok, err, panicked, stuck,
  if◌then◌else◌,
}
use sap_hana_compatibility_l.Handlers.Store.{Run, Handler, throw, ◌>>=◌, lift}

-- A handler that goes on gave a value first.
pub bind-inl :
    {S A B : Type 0} (h : Handler S A) (f : A → Handler S B) (run after : Run S) (b : B)
    → (h >>= f) run ≡ ok (inl b, after)
    → (a : A) × (mid : Run S) × (h run ≡ ok (inl a, mid)) × (f a mid ≡ ok (inl b, after))
bind-inl {S} {A} h f run after b e = go (h run) refl e
  where
    go :
        (o : Outcome ((A ⊎ Error) × Run S))
        → h run ≡ o
        → ((λ _. o) >>= f) run ≡ ok (inl b, after)
        → (a : A) × (mid : Run S) × (h run ≡ ok (inl a, mid)) × (f a mid ≡ ok (inl b, after))
    go (ok (inl a, mid)) same e = (a, mid, same, e)
    go (ok (inr x, mid)) same e = cc
    go (err x) same e = cc
    go panicked same e = cc
    go stuck same e = cc

pub not_refused :
    {S A : Type 0} (b : Bool) (e : Error) (h : Handler S A) (run after : Run S) (a : A)
    → (if b then throw e else h) run ≡ ok (inl a, after)
    → h run ≡ ok (inl a, after)
not_refused true e h run after a x = cc
not_refused false e h run after a x = x

pub lift-inl :
    {S A : Type 0} (o : Outcome A) (run after : Run S) (a : A)
    → lift o run ≡ ok (inl a, after)
    → (o ≡ ok a) × (run ≡ after)
lift-inl (ok b) run after a e = (cc, cc)
lift-inl (err x) run after a e = cc
lift-inl panicked run after a e = cc
lift-inl stuck run after a e = cc

pub lift-bind :
    {S A B : Type 0} (o : Outcome A) (f : A → Handler S B) (run after : Run S) (b : B)
    → (lift o >>= f) run ≡ ok (inl b, after)
    → (a : A) × (f a run ≡ ok (inl b, after))
lift-bind (ok a) f run after b e = (a, e)
lift-bind (err x) f run after b e = cc
lift-bind panicked f run after b e = cc
lift-bind stuck f run after b e = cc
