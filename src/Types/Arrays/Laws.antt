-- ===== src/Types/Arrays/Laws.antt =====
-- internal/types/array.go: what the operations on arrays do at each index.
use sap_hana_compatibility_l.Prelude.{
  Option-cases, ◌∙◌, sym, ℕ, zero, suc, ◌+◌, ◌-◌, ◌<◌, ◌≤◌, true, false, ◌==◌, none, some, ltb,
  if◌then◌else◌, ◌≡◌, refl, ap, arith, Bool-cases, inl, inr, ok, err, index_out_of_bounds,
}
use sap_hana_compatibility_l.GoStd.{pos}
use sap_hana_compatibility_l.Types.Value.{Value, Items, nil, cons}
use sap_hana_compatibility_l.Types.Validate.{validate_value}
use sap_hana_compatibility_l.Types.Arrays.{
  len, item_at, put_item, before, from, append_items, index_below, get, set, subslice, delete_at,
}

len-put_item : (i : ℕ) (v : Value) (xs : Items) → len (put_item i v xs) ≡ len xs
unfolding len put_item
len-put_item i v nil = refl
len-put_item zero v (cons w xs) = refl
len-put_item (suc i) v (cons w xs) = ap suc (len-put_item i v xs)

item_at-put_item :
    (i j : ℕ) (v : Value) (xs : Items)
    → i < len xs
    → item_at j (put_item i v xs) ≡ (if i == j then some v else item_at j xs)
unfolding len put_item item_at
item_at-put_item i j v nil h = absurd (omega arith)
item_at-put_item zero zero v (cons w xs) h = ground arith
item_at-put_item zero (suc j) v (cons w xs) h = ground arith
item_at-put_item (suc i) zero v (cons w xs) h = ground arith
item_at-put_item (suc i) (suc j) v (cons w xs) h =
    ground (arith, item_at-put_item i j v xs (omega arith))

item_at-before :
    (i j : ℕ) (xs : Items) → item_at j (before i xs) ≡ (if ltb j i then item_at j xs else none)
unfolding before item_at
item_at-before zero j xs = ground arith
item_at-before (suc i) j nil = ground arith
item_at-before (suc i) zero (cons v xs) = ground arith
item_at-before (suc i) (suc j) (cons v xs) = ground (arith, item_at-before i j xs)

item_at-from : (i j : ℕ) (xs : Items) → item_at j (from i xs) ≡ item_at (i + j) xs
unfolding from item_at
item_at-from zero j xs = ap (λ k. item_at k xs) (omega arith)
item_at-from (suc i) j nil = refl
item_at-from (suc i) j (cons v xs) =
    let e : suc (i + j) ≡ suc i + j = omega arith in
    item_at-from i j xs ∙ ap (λ k. item_at k (cons v xs)) e

item_at-append_items :
    (j : ℕ) (xs ys : Items)
    → item_at j (append_items xs ys)
      ≡ (if ltb j (len xs) then item_at j xs else item_at (j - len xs) ys)
unfolding append_items item_at len
item_at-append_items j nil ys =
    let none_before : ltb j 0 ≡ false = ground arith in
    let same : j - 0 ≡ j = omega arith in rw (none_before, same)
item_at-append_items zero (cons v xs) ys = ground arith
item_at-append_items (suc j) (cons v xs) ys = item_at-append_items j xs ys ∙ ground (arith)

len-before : (i : ℕ) (xs : Items) → i ≤ len xs → len (before i xs) ≡ i
unfolding before len
len-before zero xs h = refl
len-before (suc i) nil h = absurd (omega arith)
len-before (suc i) (cons v xs) h = ap suc (len-before i xs (omega arith))

len-from : (i : ℕ) (xs : Items) → len (from i xs) ≡ len xs - i
unfolding from len
len-from zero xs = omega arith
len-from (suc i) nil = omega arith
len-from (suc i) (cons v xs) = omega (arith, len-from i xs)

len-append_items : (xs ys : Items) → len (append_items xs ys) ≡ len xs + len ys
unfolding append_items len
len-append_items nil ys = omega arith
len-append_items (cons v xs) ys = omega (arith, len-append_items xs ys)

item_at-none : (i : ℕ) (xs : Items) → ltb i (len xs) ≡ false → item_at i xs ≡ none
unfolding len item_at
item_at-none i nil h = refl
item_at-none zero (cons v xs) h = ground arith
item_at-none (suc i) (cons v xs) h = item_at-none i xs (ground arith)

item_at-some : (i : ℕ) (xs : Items) → i < len xs → (v : Value) × (item_at i xs ≡ some v)
unfolding len item_at
item_at-some i nil h = absurd (omega arith)
item_at-some zero (cons v xs) h = (v, refl)
item_at-some (suc i) (cons v xs) h = item_at-some i xs (omega arith)

get-item_at : (i : ℕ) (xs : Items) (v : Value) → item_at i xs ≡ some v → get (pos i) xs ≡ ok v
unfolding get index_below
get-item_at i xs v e = elim (Bool-cases (ltb i (len xs))) [
  | inl h ↦ rw (get, index_below, h, e)
  | inr h ↦ cc (item_at-none i xs h, e)
]

get-none : (i : ℕ) (xs : Items) → item_at i xs ≡ none → get (pos i) xs ≡ err index_out_of_bounds
unfolding get index_below
get-none i xs e = elim (Bool-cases (ltb i (len xs))) [
  | inr h ↦ rw (get, index_below, h)
  | inl h ↦ let (v, f) = item_at-some i xs (ground arith) in cc
]

-- `Get` sees an array only through its items.
get-same : (i j : ℕ) (xs ys : Items) → item_at i xs ≡ item_at j ys → get (pos i) xs ≡ get (pos j) ys
get-same i j xs ys e = elim (Option-cases (item_at j ys)) [
  | inl f ↦ get-none i xs (e ∙ f) ∙ sym (get-none j ys f)
  | inr (v, f) ↦ get-item_at i xs v (e ∙ f) ∙ sym (get-item_at j ys v f)
]

-- `Set` at an index of the array, with a value that is allowed, succeeds; the array keeps its
-- length, and `Get` returns that value at that index and what it did at every other.
pub get-set :
    (i : ℕ) (v : Value) (xs : Items)
    → i < len xs
    → validate_value v ≡ ok tt
    → (ys : Items) × (set (pos i) v xs ≡ ok ys)
      × (len ys ≡ len xs)
      × ((j : ℕ) → get (pos j) ys ≡ (if i == j then ok v else get (pos j) xs))
unfolding set index_below
get-set i v xs h valid =
    let below : ltb i (len xs) ≡ true = ground arith in
    (put_item i v xs, rw (set, index_below, below, valid), len-put_item i v xs, λ j. read_back j)
  where
    read_back : (j : ℕ) → get (pos j) (put_item i v xs) ≡ (if i == j then ok v else get (pos j) xs)
    read_back j = elim (Bool-cases (i == j)) [
      | inl e ↦ rw e (get-item_at j (put_item i v xs) v (rw (item_at-put_item i j v xs h, e)))
      | inr e ↦ rw e (get-same j j (put_item i v xs) xs (rw (item_at-put_item i j v xs h, e)))
    ]

-- `Subslice` between two bounds in their order returns the items from the one up to the other.
pub get-subslice :
    (l h : ℕ) (xs : Items)
    → l ≤ h
    → h ≤ len xs
    → (ys : Items) × (subslice (pos l) (pos h) xs ≡ ok ys)
      × (len ys ≡ h - l)
      × ((j : ℕ) → j < h - l → get (pos j) ys ≡ get (pos (l + j)) xs)
unfolding subslice index_below
get-subslice l h xs le fits =
    let low : ltb l (suc (len xs)) ≡ true = ground arith in
    let high : ltb h (suc (len xs)) ≡ true = ground arith in
    let ordered : ltb h l ≡ false = ground arith in
    (
      from l (before h xs),
      rw (subslice, index_below, low, high, ordered),
      omega (arith, len-from l (before h xs), len-before h xs fits),
      λ j within.
          let there : ltb (l + j) h ≡ true = ground arith in
          get-same j (l + j) (from l (before h xs)) xs
            (item_at-from l j (before h xs) ∙ (item_at-before h (l + j) xs ∙ rw there)),
    )

-- `Delete` at an index of the array takes out that item and moves the later ones down.
pub get-delete_at :
    (i : ℕ) (xs : Items)
    → i < len xs
    → (ys : Items) × (delete_at (pos i) xs ≡ ok ys)
      × (suc (len ys) ≡ len xs)
      × ((j : ℕ) → get (pos j) ys ≡ get (pos (if ltb j i then j else j + 1)) xs)
unfolding delete_at
get-delete_at i xs h =
    let below : ltb i (len xs) ≡ true = ground arith in
    (
      append_items (before i xs) (from (i + 1) xs),
      rw below,
      omega (
        arith,
        len-append_items (before i xs) (from (i + 1) xs),
        len-before i xs (omega arith),
        len-from (i + 1) xs,
      ),
      λ j. get-same j _ _ xs (moved j),
    )
  where
    moved :
        (j : ℕ)
        → item_at j (append_items (before i xs) (from (i + 1) xs))
          ≡ item_at (if ltb j i then j else j + 1) xs
    moved j =
        let len_front = len-before i xs (omega arith) in
        item_at-append_items j (before i xs) (from (i + 1) xs) ∙ elim (Bool-cases (ltb j i)) [
          | inl e ↦ rw (len_front, e, item_at-before i j xs, e)
          | inr e ↦
              let same : i + 1 + (j - i) ≡ j + 1 = ground arith in
              rw (len_front, e, item_at-from (i + 1) (j - i) xs, same)
        ]
