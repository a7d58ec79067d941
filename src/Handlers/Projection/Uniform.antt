-- ===== src/Handlers/Projection/Uniform.antt =====
-- internal/handlers/common/projection.go: a projection includes or excludes, but for "_id".
use sap_hana_compatibility_l.Prelude.{
  ◌==◌, Bool, true, false, not, ◌&&◌, Option, none, some, List, [], ◌∷◌, ◌⊎◌, inl, inr, ◌≡◌, refl,
  subst, arith, All, Bytes, bytes_eq, codes, Outcome, ok, err, ◌>>◌, guard, guard-eq-ok, >>=-eq-ok,
  >>-eq-ok, if◌then◌else◌, not_implemented, projection_in_ex, projection_ex_in, bad_value,
  key_not_found,
}
use sap_hana_compatibility_l.GoStd.Strings.{contains_text}
use sap_hana_compatibility_l.Types.Value.{Value, null, Fields, Document}
use sap_hana_compatibility_l.Types.Fields.{lookup, count}
use sap_hana_compatibility_l.Handlers.Update.{has_any}
use sap_hana_compatibility_l.Handlers.Projection.{
  id_key, is_switch, selects, skips, switch_step, flags_after, inclusion_loop,
  is_projection_inclusion, inclusion_projection, projection_operators, projection_sql, projection,
}

-- The key is "_id", or it has a value that says what `b` does, and is no path if it is included.
abbrev pub Says : Fields → Bool → Bytes → Type 0
Says m b k =
    (bytes_eq k id_key ≡ true)
    ⊎ ((v : Value) × (lookup k m ≡ some v)
        × (selects v ≡ ok b)
        × (b ≡ true → contains_text (codes ".") k ≡ false))

not-false : (b : Bool) → not b ≡ true → b ≡ false
not-false true h = cc
not-false false h = refl

switch_step-flags :
    (b : Bool) (key : Bytes) (inclusion exclusion : Bool) (flags : Bool × Bool)
    → switch_step b key inclusion exclusion ≡ ok flags
    → ((b ≡ true)
        × (exclusion ≡ false)
        × (contains_text (codes ".") key ≡ false)
        × ((true, exclusion) ≡ flags))
      ⊎ ((b ≡ false) × (inclusion ≡ false) × ((inclusion, true) ≡ flags))
unfolding switch_step
switch_step-flags true key inclusion exclusion flags h =
    let (g, h1) = >>-eq-ok (guard (not exclusion) projection_in_ex) _ h in
    let (p, h2) = >>-eq-ok (guard (not (contains_text (codes ".") key)) not_implemented) _ h1 in
    inl (
      refl,
      not-false exclusion (guard-eq-ok (not exclusion) projection_in_ex g),
      not-false (contains_text (codes ".") key)
          (guard-eq-ok (not (contains_text (codes ".") key)) not_implemented p),
      cc,
    )
switch_step-flags false key inclusion exclusion flags h =
    let (g, h1) = >>-eq-ok (guard (not inclusion) projection_ex_in) _ h in
    inr (refl, not-false inclusion (guard-eq-ok (not inclusion) projection_ex_in g), cc)

found :
    (m : Fields) (key : Bytes) (v : Value)
    → elim (lookup key m) [ none ↦ err key_not_found | some w ↦ ok w ] ≡ ok v
    → lookup key m ≡ some v
found m key v h = go (lookup key m) h
  where
    go :
        (o : Option Value) → elim o [ none ↦ err key_not_found | some w ↦ ok w ] ≡ ok v → o ≡ some v
    go none e = cc
    go (some w) e = cc

-- The flags are never both set.
abbrev Apart : Bool → Bool → Type 0
Apart inclusion exclusion = (inclusion && exclusion) ≡ false

abbrev Loop : Fields → List Bytes → Bool → Bool → Bool → Type 0
Loop m keys inclusion exclusion r =
    All (Says m r) keys × (inclusion ≡ true → r ≡ true) × (exclusion ≡ true → r ≡ false)

skips-id : (m : Fields) (key : Bytes) → skips m key ≡ ok true → bytes_eq key id_key ≡ true
unfolding skips
skips-id m key h = go (bytes_eq key id_key) h
  where
    go :
        (b : Bool)
        → (if b
            then guard (is_switch (elim (lookup key m) [ none ↦ null | some v ↦ v ])) bad_value
              >> ok (not (count m == 1))
            else ok false)
          ≡ ok true
        → b ≡ true
    go true e = refl
    go false e = cc

flags_after-switch :
    (m : Fields) (key : Bytes) (inclusion exclusion : Bool) (flags : Bool × Bool)
    → flags_after m key inclusion exclusion ≡ ok flags
    → (v : Value) × (b : Bool) × (lookup key m ≡ some v)
      × (selects v ≡ ok b)
      × (switch_step b key inclusion exclusion ≡ ok flags)
unfolding flags_after
flags_after-switch m key inclusion exclusion flags h =
    let (v, hv, h1) =
      >>=-eq-ok (elim (lookup key m) [ none ↦ err key_not_found | some w ↦ ok w ]) _ h in
    let (b, hb, h2) = >>=-eq-ok (selects v) _ h1 in (v, b, found m key v hv, hb, h2)

-- What a round does to the flags, and what it says of its key once the rest is known.
abbrev Round : Fields → Bytes → List Bytes → Bool → Bool → Bool → Bool × Bool → Type 0
Round m key keys inclusion exclusion r flags =
    Apart flags.0 flags.1
    × (Loop m keys flags.0 flags.1 r → Loop m (key ∷ keys) inclusion exclusion r)

switched-Round :
    (m : Fields) (key : Bytes) (keys : List Bytes) (inclusion exclusion r : Bool)
    → (flags : Bool × Bool) (v : Value) (b : Bool) → lookup key m ≡ some v
    → selects v ≡ ok b
    → ((b ≡ true)
        × (exclusion ≡ false)
        × (contains_text (codes ".") key ≡ false)
        × ((true, exclusion) ≡ flags))
      ⊎ ((b ≡ false) × (inclusion ≡ false) × ((inclusion, true) ≡ flags))
    → Round m key keys inclusion exclusion r flags
switched-Round m key keys inclusion exclusion r flags v b there says (inl (on, free, plain, e)) =
    subst (Round m key keys inclusion exclusion r) e (
      free,
      λ rest.
          let included : r ≡ true = rest.1 refl in
          let said : selects v ≡ ok r = cc in
          ((inr (v, there, said, λ x. plain), rest.0), (λ x. included), λ x. cc),
    )
switched-Round m key keys inclusion exclusion r flags v b there says (inr (off, free, e)) =
    subst (Round m key keys inclusion exclusion r) e (
      ground arith,
      λ rest.
          let excluded : r ≡ false = rest.2 refl in
          let said : selects v ≡ ok r = cc in
          ((inr (v, there, said, λ x. cc), rest.0), (λ x. cc), λ x. excluded),
    )

round-Round :
    (m : Fields) (key : Bytes) (keys : List Bytes) (inclusion exclusion r skip : Bool)
    → (flags : Bool × Bool) → Apart inclusion exclusion
    → skips m key ≡ ok skip
    → (if skip then ok (inclusion, exclusion) else flags_after m key inclusion exclusion) ≡ ok flags
    → Round m key keys inclusion exclusion r flags
round-Round m key keys inclusion exclusion r true flags apart hs hf =
    let e : (inclusion, exclusion) ≡ flags = cc in
    subst (Round m key keys inclusion exclusion r) e
      (apart, λ rest. ((inl (skips-id m key hs), rest.0), rest.1, rest.2))
round-Round m key keys inclusion exclusion r false flags apart hs hf =
    let (v, b, there, says, switched) = flags_after-switch m key inclusion exclusion flags hf in
    switched-Round m key keys inclusion exclusion r flags v b there says
      (switch_step-flags b key inclusion exclusion flags switched)

inclusion_loop-Says :
    (m : Fields) (keys : List Bytes) (inclusion exclusion r : Bool)
    → Apart inclusion exclusion
    → inclusion_loop m keys inclusion exclusion ≡ ok r
    → Loop m keys inclusion exclusion r
unfolding inclusion_loop
inclusion_loop-Says m [] true true r apart h = cc
inclusion_loop-Says m [] true false r apart h = (tt, λ e. cc, λ e. cc)
inclusion_loop-Says m [] false exclusion r apart h = (tt, λ e. cc, λ e. cc)
inclusion_loop-Says m (key ∷ keys) inclusion exclusion r apart h =
    let (skip, hs, h1) = >>=-eq-ok (skips m key) _ h in
    let (flags, hf, h2) =
      >>=-eq-ok (if skip then ok (inclusion, exclusion) else flags_after m key inclusion exclusion)
        _ h1 in
    let (apart', back) = round-Round m key keys inclusion exclusion r skip flags apart hs hf in
    back (inclusion_loop-Says m keys flags.0 flags.1 r apart' h2)

counted :
    {A : Type 0} {a : A} (x y : Outcome A) (b : Bool)
    → b ≡ false
    → (if b then x else y) ≡ ok a
    → y ≡ ok a
counted x y true h e = cc
counted x y false h e = e

projection_sql-flag :
    (d : Document) (inclusion : Bool) (sql : Bytes) (exclusion : Bool)
    → projection_sql d inclusion ≡ ok (sql, exclusion)
    → inclusion ≡ not exclusion
unfolding projection_sql
projection_sql-flag d true sql exclusion h =
    let (t, ht, h1) = >>=-eq-ok (inclusion_projection d) _ h in
    let flag : false ≡ exclusion = cc in ground arith
projection_sql-flag d false sql exclusion h = let flag : true ≡ exclusion = cc in ground arith

-- A projection of a document with fields that is accepted is an inclusion or an exclusion: every key
-- but "_id" has a value that says yes, and no dot in it, or every one has a value that says no.
pub projection-Says :
    (d : Document) (sql : Bytes) (exclusion : Bool)
    → (count d.m == 0) ≡ false
    → projection d ≡ ok (sql, exclusion)
    → All (Says d.m (not exclusion)) d.keys
unfolding projection is_projection_inclusion projection_sql
projection-Says d sql exclusion some_fields h =
    let (g, h1) = >>-eq-ok (guard (not (has_any d projection_operators)) not_implemented) _ h in
    let h2 = counted _ _ (count d.m == 0) some_fields h1 in
    let (inclusion, hi, h3) = >>=-eq-ok (inclusion_loop d.m d.keys false false) _ h2 in
    let says = inclusion_loop-Says d.m d.keys false false inclusion refl hi in
    subst (λ b. All (Says d.m b) d.keys) (projection_sql-flag d inclusion sql exclusion h3) says.0
