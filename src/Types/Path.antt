-- ===== src/Types/Path.antt =====
-- internal/types/path.go: getByPath.
use sap_hana_compatibility_l.Prelude.{
  ℕ, zero, suc, Bool, true, false, List, [], ◌∷◌, Option, none, some, ◌≡◌, refl, ap, subst, ◌∙◌,
  ◌↔◌, arith, ltb, if◌then◌else◌, Bytes, Outcome, ok, err, panicked, ◌>>=◌, >>=-eq-ok,
  key_not_found, index_out_of_bounds, not_a_number, bad_path,
}
use sap_hana_compatibility_l.GoStd.{ℤ, pos, negsuc, atoi}
use sap_hana_compatibility_l.Types.Value.{Value, Items, Fields, nil, cons, document, array}
use sap_hana_compatibility_l.Types.Fields.{lookup}
use sap_hana_compatibility_l.Types.Document.{get}
use sap_hana_compatibility_l.Types.Arrays.{item_at, len}
use sap_hana_compatibility_l.Types.Arrays

-- One round of the loop: a key of a document, or an index of an array.
unfoldable pub step : Value → Bytes → Outcome Value
step (document m keys) p = get p (record { m = m; keys = keys })
step (array xs) p = elim (atoi p) [ none ↦ err not_a_number | some index ↦ Arrays.get index xs ]
step _ p = err bad_path

-- `getByPath`
unfoldable pub get_by_path : Value → List Bytes → Outcome Value
unfolding step
get_by_path next [] = ok next
get_by_path next (p ∷ path) = step next p >>= λ v. get_by_path v path

-- A value, what a part of a path says of it, and the value inside it that the part names: of a
-- document the value under the key, of an array the item whose position the part is the number of.
pub data Inside : Value → Bytes → Value → Type 0 where
  at_key :
      (m : Fields) (keys : List Bytes) (k : Bytes) (w : Value)
      → lookup k m ≡ some w
      → Inside (document m keys) k w
  at_index :
      (xs : Items) (k : Bytes) (i : ℕ) (w : Value)
      → atoi k ≡ some (pos i)
      → item_at i xs ≡ some w
      → Inside (array xs) k w

-- The values that a path leads to.
pub data Leads : Value → List Bytes → Value → Type 0 where
  here : (v : Value) → Leads v [] v
  into :
      {v w u : Value} {k : Bytes} {path : List Bytes}
      → Inside v k w
      → Leads w path u
      → Leads v (k ∷ path) u

item_at-below : (i : ℕ) (xs : Items) (w : Value) → item_at i xs ≡ some w → ltb i (len xs) ≡ true
unfolding item_at len
item_at-below i nil w h = cc
item_at-below zero (cons v xs) w h = ground arith
item_at-below (suc i) (cons v xs) w h = let below = item_at-below i xs w h in ground arith

step-at_key :
    (m : Fields) (keys : List Bytes) (k : Bytes) (w : Value) (o : Option Value)
    → lookup k m ≡ o
    → elim o as (λ _. Outcome Value) [ none ↦ err key_not_found | some v ↦ ok v ] ≡ ok w
    → Inside (document m keys) k w
step-at_key m keys k w none found h = cc
step-at_key m keys k w (some v) found h =
    let same : v ≡ w = cc in at_key m keys k w (found ∙ ap some same)

get-at_index :
    (xs : Items) (k : Bytes) (w : Value) (i : ℕ) (o : Option Value) (b : Bool)
    → atoi k ≡ some (pos i)
    → item_at i xs ≡ o
    → elim (if b then some i else none) as (λ _. Outcome Value) [
      | none ↦ err index_out_of_bounds
      | some j ↦ elim (item_at j xs) [ none ↦ panicked | some v ↦ ok v ]
    ]
      ≡ ok w
    → Inside (array xs) k w
get-at_index xs k w i o false number found h = cc
get-at_index xs k w i none true number found h = let h1 = rw found at h in cc
get-at_index xs k w i (some v) true number found h =
    let h1 = rw found at h in
    let same : v ≡ w = cc in at_index xs k i w number (found ∙ ap some same)

step-at_index :
    (xs : Items) (k : Bytes) (w : Value) (o : Option ℤ)
    → atoi k ≡ o
    → elim o as (λ _. Outcome Value) [ none ↦ err not_a_number | some index ↦ Arrays.get index xs ]
      ≡ ok w
    → Inside (array xs) k w
unfolding Arrays.get
step-at_index xs k w none number h = cc
step-at_index xs k w (some (negsuc i)) number h = cc
step-at_index xs k w (some (pos i)) number h =
    get-at_index xs k w i (item_at i xs) (ltb i (len xs)) number refl h

step-Inside : (v w : Value) (k : Bytes) → step v k ≡ ok w → Inside v k w
unfolding step get
step-Inside (document m keys) w k h = step-at_key m keys k w (lookup k m) refl h
step-Inside (array xs) w k h = step-at_index xs k w (atoi k) refl h
step-Inside _ w k h = cc

Inside-step : {v w : Value} {k : Bytes} → Inside v k w → step v k ≡ ok w
unfolding step get Arrays.get
Inside-step (at_key m keys k w found) = rw (step, get, found)
Inside-step (at_index xs k i w number found) =
    let below = item_at-below i xs w found in rw (step, number, Arrays.get, below, found)

get_by_path-Leads : (v w : Value) (path : List Bytes) → get_by_path v path ≡ ok w → Leads v path w
unfolding get_by_path
get_by_path-Leads v w [] h = let same : v ≡ w = cc in subst (Leads v []) same (here v)
get_by_path-Leads v w (k ∷ path) h =
    let (u, first, rest) = >>=-eq-ok (step v k) _ h in
    into (step-Inside v u k first) (get_by_path-Leads u w path rest)

Leads-get_by_path : {v w : Value} {path : List Bytes} → Leads v path w → get_by_path v path ≡ ok w
unfolding get_by_path
Leads-get_by_path (here v) = refl
Leads-get_by_path (into inside leads) =
    let first = Inside-step inside in let rest = Leads-get_by_path leads in rw (first, rest)

-- `getByPath` returns a value exactly where the path leads to it: every part before the end is a key
-- of the document reached there, or the number of a position in the array reached there.
pub get_by_path-iff_Leads :
    (v w : Value) (path : List Bytes) → (get_by_path v path ≡ ok w) ↔ Leads v path w
get_by_path-iff_Leads v w path = (get_by_path-Leads v w path, λ leads. Leads-get_by_path leads)
