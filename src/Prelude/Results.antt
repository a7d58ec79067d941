-- ===== src/Prelude/Results.antt =====
-- What a Go call ends in: a value, a returned error, or a panic. `stuck` is no Go outcome: a model
-- function ran out of the fuel that it was given.
use mathlib.Core.Path.{◌≡◌, refl}
use mathlib.Core.Bool.{Bool, true, false}

-- The error values that the sources return, without their texts.
pub data Error : Type 0 where
  eof unexpected_eof : Error
  invalid_length invalid_terminator invalid_bool unexpected_end unhandled_tag unhandled_type : Error
  count_mismatch invalid_key key_not_found duplicate_key key_present : Error
  odd_arguments invalid_key_type : Error
  bad_array_key missing_element index_out_of_bounds not_a_number bad_path : Error
  bad_kind bad_section_documents doc_not_empty doc_empty empty_identifier section_key_present :
      Error
  invalid_number_returned unhandled_op_code : Error
  not_implemented bad_value array_not_supported negative_index too_few_expressions : Error
  exists_needs_bool unknown_top_level not_a_document immutable_id command_not_found
        namespace_not_found projection_in_ex projection_ex_in sort_bad_value :
      Error

pub data Outcome {ℓ} (A : Type ℓ) : Type ℓ where
  ok : A → Outcome A
  err : Error → Outcome A
  panicked : Outcome A
  stuck : Outcome A

-- `if !b { return e }`
abbrev pub guard : Bool → Error → Outcome (Unit {0})
guard false e = err e
guard true e = ok tt

infixl 5 ◌>>=◌ ◌>>◌
-- The rest of a function, after a call whose error it returns.
abbrev pub ◌>>=◌ {ℓ κ} : {S : Type ℓ} {T : Type κ} → Outcome S → (S → Outcome T) → Outcome T
panicked >>= k = panicked
stuck >>= k = stuck
err e >>= k = err e
ok s >>= k = k s

abbrev pub ◌>>◌ {ℓ} : {T : Type ℓ} → Outcome (Unit {0}) → Outcome T → Outcome T
r >> rest = r >>= λ _. rest

pub >>=-eq-ok {ℓ κ} :
    {S : Type ℓ} {T : Type κ} {t : T} (r : Outcome S) (k : S → Outcome T)
    → (r >>= k) ≡ ok t
    → (s : S) × (r ≡ ok s) × (k s ≡ ok t)
>>=-eq-ok (ok s) k e = (s, refl, e)
>>=-eq-ok panicked k e = cc
>>=-eq-ok stuck k e = cc
>>=-eq-ok (err x) k e = cc

pub >>-eq-ok {ℓ} :
    {B : Type ℓ} (m : Outcome (Unit {0})) (k : Outcome B) {b : B}
    → (m >> k) ≡ ok b
    → (m ≡ ok tt) × (k ≡ ok b)
>>-eq-ok (ok tt) k h = (refl, h)
>>-eq-ok (err e) k h = cc
>>-eq-ok panicked k h = cc
>>-eq-ok stuck k h = cc

pub guard-eq-ok : (b : Bool) (e : Error) → guard b e ≡ ok tt → b ≡ true
guard-eq-ok true e h = refl
guard-eq-ok false e h = cc

pub >>=-cong {ℓ κ} :
    {A : Type ℓ} {B : Type κ} (m : Outcome A) {f g : A → Outcome B}
    → ((a : A) → f a ≡ g a)
    → (m >>= f) ≡ (m >>= g)
>>=-cong (ok a) h = h a
>>=-cong (err e) h = refl
>>=-cong panicked h = refl
>>=-cong stuck h = refl

pub >>=-assoc {ℓ κ μ} :
    {A : Type ℓ} {B : Type κ} {C : Type μ} (m : Outcome A) (f : A → Outcome B) (g : B → Outcome C)
    → ((m >>= f) >>= g) ≡ (m >>= λ a. f a >>= g)
>>=-assoc (ok a) f g = refl
>>=-assoc (err e) f g = refl
>>=-assoc panicked f g = refl
>>=-assoc stuck f g = refl
