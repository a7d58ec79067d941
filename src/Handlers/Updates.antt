-- ===== src/Handlers/Updates.antt =====
-- internal/handlers/crud/msg_update.go: what an update that is accepted can be.
use sap_hana_compatibility_l.Prelude.{
  ℕ, Bool, true, false, not, Option, some, List, [], ◌∷◌, inl, inr, ◌≡◌, refl, sym, subst, All,
  Bytes, codes, Outcome, Error, ok, err, stuck, panicked, >>=-eq-ok, >>-eq-ok, guard, guard-eq-ok,
  if◌then◌else◌, immutable_id, not_implemented,
}
use sap_hana_compatibility_l.GoStd.Format.{Printing}
use sap_hana_compatibility_l.Types.Value.{Value, Fields, document, Document}
use sap_hana_compatibility_l.Types.Fields.{lookup}
use sap_hana_compatibility_l.Handlers.Where.State.{Nor, pure}
use sap_hana_compatibility_l.Handlers.Update.{
  update_from, has_any, unimplemented_fields, is_id, assignment, assignments, create_set_and_unset,
  clause_for, set_document, both_clauses, join_update, update,
}

not-true : (b : Bool) → not b ≡ true → b ≡ false
not-true true h = cc
not-true false h = refl

assignment-no_id :
    (P : Printing) (set : Bool) (m : Fields) (key : Bytes) (r : Bytes × Bytes)
    → assignment P set m key ≡ ok r
    → is_id key ≡ false
unfolding assignment
assignment-no_id P true m key r h =
    let (g, rest) = >>-eq-ok (guard (not (is_id key)) immutable_id) _ h in
    not-true (is_id key) (guard-eq-ok (not (is_id key)) immutable_id g)
assignment-no_id P false m key r h =
    let (g, rest) = >>-eq-ok (guard (not (is_id key)) immutable_id) _ h in
    not-true (is_id key) (guard-eq-ok (not (is_id key)) immutable_id g)

assignments-no_id :
    (P : Printing) (set : Bool) (m : Fields) (first : Bool) (keys : List Bytes) (r : Bytes × Bytes)
    → assignments P set m first keys ≡ ok r
    → All (λ k. is_id k ≡ false) keys
unfolding assignments
assignments-no_id P set m first [] r h = tt
assignments-no_id P set m first (key ∷ keys) r h =
    let (a, ha, h1) = >>=-eq-ok (assignment P set m key) _ h in
    let (b, hb, h2) = >>=-eq-ok (assignments P set m false keys) _ h1 in
    (assignment-no_id P set m key a ha, assignments-no_id P set m false keys b hb)

create_set_and_unset-no_id :
    (P : Printing) (set : Bool) (d : Document) (r : Bytes × Bytes)
    → create_set_and_unset P d set ≡ ok r
    → All (λ k. is_id k ≡ false) d.keys
unfolding create_set_and_unset
create_set_and_unset-no_id P set d r h =
    let (a, ha, h1) = >>=-eq-ok (assignments P set d.m true d.keys) _ h in
    assignments-no_id P set d.m true d.keys a ha

-- What the parts of an accepted update are, and the rest of the run.
record Accepted (fuel : ℕ) (P : Printing) (d : Document) (r : Bytes × Bytes) (st after : Nor)
    : Type 0 where
  set : Bytes × Bytes
  unset : Bytes × Bytes
  set_made : clause_for P true (lookup (codes "$set") d.m) ≡ ok set
  unset_made : clause_for P false (lookup (codes "$unset") d.m) ≡ ok unset
  joined :
      join_update fuel P (set_document (lookup (codes "$set") d.m)) set unset st ≡ ok (inl r, after)

update_from-joined :
    (fuel : ℕ) (P : Printing) (set_doc : Document) (b : Bool)
    → (o : Outcome ((Bytes × Bytes) × (Bytes × Bytes))) (e : Error) (r : Bytes × Bytes)
    → (st after : Nor)
    → (if b then pure (inr e) else update_from fuel P set_doc o) st ≡ ok (inl r, after)
    → (c : (Bytes × Bytes) × (Bytes × Bytes)) × (o ≡ ok c)
      × (join_update fuel P set_doc c.0 c.1 st ≡ ok (inl r, after))
unfolding update_from
update_from-joined fuel P set_doc true o e r st after h = cc
update_from-joined fuel P set_doc false (ok c) e r st after h = (c, refl, h)
update_from-joined fuel P set_doc false (err x) e r st after h = cc
update_from-joined fuel P set_doc false panicked e r st after h = cc
update_from-joined fuel P set_doc false stuck e r st after h = cc

update-Accepted :
    (fuel : ℕ) (P : Printing) (d : Document) (r : Bytes × Bytes) (st after : Nor)
    → update fuel P d st ≡ ok (inl r, after)
    → Accepted fuel P d r st after
unfolding update both_clauses
update-Accepted fuel P d r st after h =
    let (c, made, joined) =
      update_from-joined fuel P (set_document (lookup (codes "$set") d.m))
        (has_any d unimplemented_fields) (both_clauses P d) not_implemented r st after h in
    let (set, set_made, h1) = >>=-eq-ok (clause_for P true (lookup (codes "$set") d.m)) _ made in
    let (unset, unset_made, h2) =
      >>=-eq-ok (clause_for P false (lookup (codes "$unset") d.m)) _ h1 in
    let parts : (set, unset) ≡ c = cc in
    record {
      set = set;
      unset = unset;
      set_made = set_made;
      unset_made = unset_made;
      joined =
          subst
            (λ q.
              join_update fuel P (set_document (lookup (codes "$set") d.m)) q.0 q.1 st
              ≡ ok (inl r, after))
            (sym parts) joined;
    }

clause_for-no_id :
    (P : Printing) (set : Bool) (o : Option Value) (r : Bytes × Bytes)
    → clause_for P set o ≡ ok r
    → All (λ k. is_id k ≡ false) (set_document o).keys
unfolding clause_for set_document
clause_for-no_id P set (some (document m keys)) r h =
    create_set_and_unset-no_id P set (record { m = m; keys = keys }) r h
clause_for-no_id P set _ r h = tt

-- An update that is accepted neither sets nor unsets the field "_id", in any case of its letters.
pub update-no_id :
    (fuel : ℕ) (P : Printing) (d : Document) (r : Bytes × Bytes) (st after : Nor)
    → update fuel P d st ≡ ok (inl r, after)
    → All (λ k. is_id k ≡ false) (set_document (lookup (codes "$set") d.m)).keys
      × All (λ k. is_id k ≡ false) (set_document (lookup (codes "$unset") d.m)).keys
update-no_id fuel P d r st after h =
    let a = update-Accepted fuel P d r st after h in
    (
      clause_for-no_id P true (lookup (codes "$set") d.m) a.set a.set_made,
      clause_for-no_id P false (lookup (codes "$unset") d.m) a.unset a.unset_made,
    )
