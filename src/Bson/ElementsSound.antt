-- ===== src/Bson/ElementsSound.antt =====
-- internal/bson/document.go: what the loop of `ReadFrom` has read, as what `MarshalBinary` writes.
use sap_hana_compatibility_l.Prelude.{
  ℕ, List, [], ◌∷◌, ◌++◌, append_assoc, append-nil, true, false, ◌≡◌, refl, arith, ap, sym, ◌∙◌,
  Bytes, bytes_eq, bytes_eq_iff, ok,
}
use sap_hana_compatibility_l.Types.Value.{Value, Fields, end, field, Document}
use sap_hana_compatibility_l.Types.Fields.{
  insert, insert_new, contains, distinct, keys_of, append_fields, append_fields_assoc,
  append_fields-end, keys_of-append_fields, contains-append,
}
use sap_hana_compatibility_l.Bson.Scalar.{cstring_marshal_binary}
use sap_hana_compatibility_l.Bson.Marshal.{write_elements, marshal_value, marshal_at}
use sap_hana_compatibility_l.Bson.MarshalLaws.{marshal_at_skip, marshal_at_self}

pub distinct_middle :
    (xs : List Bytes) (k : Bytes) (ys : List Bytes)
    → distinct ((xs ++ k ∷ []) ++ ys) ≡ true
    → (contains k xs ≡ false) × (contains k ys ≡ false)
unfolding distinct contains
distinct_middle [] k ys h = (refl, ground arith)
distinct_middle (x ∷ xs) k ys h =
    let (p, q) = distinct_middle xs k ys (ground arith) in
    ground (
      arith,
      p,
      q,
      contains-append x (xs ++ k ∷ []) ys,
      contains-append x xs (k ∷ []),
      bytes_eq_iff k x,
      bytes_eq_iff x k,
    )

-- A first entry under another key changes nothing.
write_elements_skip :
    (k : Bytes) (v : Value) (n : Fields) (keys : List Bytes)
    → contains k keys ≡ false
    → write_elements (marshal_at (field k v n)) keys ≡ write_elements (marshal_at n) keys
unfolding write_elements contains
write_elements_skip k v n [] h = refl
write_elements_skip k v n (j ∷ keys) h =
    let other_key : bytes_eq k j ≡ false = ground (arith, bytes_eq_iff k j, bytes_eq_iff j k) in
    rw (marshal_at_skip k j v n other_key, write_elements_skip k v n keys (ground arith))

write_elements_first :
    (k : Bytes) (v : Value) (n : Fields) (keys : List Bytes) (tag : ℕ) (payload elist : Bytes)
    → contains k keys ≡ false
    → marshal_value v ≡ ok (tag, payload)
    → write_elements (marshal_at n) keys ≡ ok elist
    → write_elements (marshal_at (field k v n)) (k ∷ keys)
      ≡ ok (tag ∷ (cstring_marshal_binary k ++ (payload ++ elist)))
unfolding write_elements
write_elements_first k v n keys tag payload elist new mv h =
    rw (marshal_at_self, mv, write_elements_skip k v n keys new, h)

-- The bytes are elements and the terminating zero; their keys come behind those read before, and
-- if no key is repeated, so do the map's entries, which are written as these elements.
abbrev pub ElementsWritten : Fields → List Bytes → Bytes → Document → Type 0
ElementsWritten m₀ keys₀ bs d =
    (keys : List Bytes) × (elist : Bytes) × (bs ≡ elist ++ 0 ∷ [])
    × (d.keys ≡ keys₀ ++ keys)
    × (distinct d.keys ≡ true
        → keys_of m₀ ≡ keys₀
        → (n : Fields) × (d.m ≡ append_fields m₀ n)
          × (keys_of n ≡ keys)
          × (write_elements (marshal_at n) keys ≡ ok elist))

pub ElementsWritten-end :
    (m₀ : Fields) (keys₀ : List Bytes)
    → ElementsWritten m₀ keys₀ (0 ∷ []) (record { m = m₀; keys = keys₀ })
unfolding keys_of write_elements
ElementsWritten-end m₀ keys₀ =
    ([], [], refl, sym (append-nil keys₀), λ _ _. (end, sym (append_fields-end m₀), refl, refl))

pub ElementsWritten-element :
    (m₀ : Fields) (keys₀ : List Bytes) (key : Bytes) (v : Value) (tag : ℕ)
    (b r rest payload : Bytes) (d : Document)
    → b ≡ cstring_marshal_binary key ++ r
    → marshal_value v ≡ ok (tag, payload)
    → r ≡ payload ++ rest
    → ElementsWritten (insert key v m₀) (keys₀ ++ key ∷ []) rest d
    → ElementsWritten m₀ keys₀ (tag ∷ b) d
ElementsWritten-element m₀ keys₀ key v tag b r rest payload d e mv e'
      (keys, elist, shape, all, more) =
    (
      key ∷ keys,
      tag ∷ (cstring_marshal_binary key ++ (payload ++ elist)),
      ap (λ xs. tag ∷ xs)
          (e ∙ rw (e', shape) (sym (regroup (cstring_marshal_binary key) payload elist))),
      all ∙ append_assoc keys₀ (key ∷ []) keys,
      λ dist own. finish dist own,
    )
  where
    regroup : (x y z : Bytes) → (x ++ (y ++ z)) ++ 0 ∷ [] ≡ x ++ (y ++ (z ++ 0 ∷ []))
    regroup x y z = rw (append_assoc x (y ++ z) (0 ∷ []), append_assoc y z (0 ∷ []))

    finish :
        distinct d.keys ≡ true
        → keys_of m₀ ≡ keys₀
        → (n : Fields) × (d.m ≡ append_fields m₀ n)
          × (keys_of n ≡ key ∷ keys)
          × (write_elements (marshal_at n) (key ∷ keys)
              ≡ ok (tag ∷ (cstring_marshal_binary key ++ (payload ++ elist))))
    finish dist own =
        let (new, apart) = distinct_middle keys₀ key keys (rw all at dist) in
        let new' : contains key (keys_of m₀) ≡ false = rw own new in
        let next : insert key v m₀ ≡ append_fields m₀ (field key v end) =
          insert_new key v m₀ new' in
        let own' : keys_of (insert key v m₀) ≡ keys₀ ++ key ∷ [] =
          rw (next, keys_of-append_fields, own) (unfold keys_of in refl) in
        let (n, whole, own'', written) = more dist own' in
        (
          field key v n,
          whole ∙ rw (next, append_fields_assoc) (unfold append_fields in refl),
          (unfold keys_of in rw own''),
          write_elements_first key v n keys tag payload elist apart mv written,
        )
