-- ===== src/Handlers/Where/State.antt =====
-- internal/handlers/common/where.go: the variables `isNor` and `norCounter`, and functions that may
-- change them, return an error, or panic.
use sap_hana_compatibility_l.Prelude.{
  ℕ, suc, ◌-◌, Bool, true, false, Option, none, some, ◌⊎◌, inl, inr, ◌==◌, if◌then◌else◌, Bytes,
  codes, [], Outcome, Error, ok, err, panicked, stuck,
}

-- `norCounter`, an int, goes down only after it has gone up: it is a natural number here.
pub record Nor : Type 0 where
  pub is_nor : Bool
  pub nor_counter : ℕ

-- As they are when the program starts.
abbrev pub no_nor : Nor
no_nor = record { is_nor = false; nor_counter = 0 }

-- The results `(kvSQL string, err error)`.
abbrev pub Answer : Type 0
Answer = Bytes × Option Error

abbrev pub answer : Bytes → Answer
answer sql = (sql, none)

abbrev pub fail : Bytes → Error → Answer
fail sql e = (sql, some e)

abbrev pub Sql : Type 0 → Type 0
Sql A = Nor → Outcome (A × Nor)

abbrev pub pure : {A : Type 0} → A → Sql A
pure a st = ok (a, st)

infixl 5 ◌>>=◌
abbrev pub ◌>>=◌ : {A B : Type 0} → Sql A → (A → Sql B) → Sql B
◌>>=◌ m f st = elim (m st) [
  | ok (a, st') ↦ f a st'
  | err e ↦ err e
  | panicked ↦ panicked
  | stuck ↦ stuck
]

-- A panic, and a call that does not touch the variables.
abbrev pub attempt : {A : Type 0} → Outcome A → Sql A
attempt o st = elim o [ ok a ↦ ok (a, st) | err e ↦ err e | panicked ↦ panicked | stuck ↦ stuck ]

abbrev pub get_is_nor : Sql Bool
get_is_nor st = ok (st.is_nor, st)

-- `isNor = true; norCounter++`
abbrev pub enter_nor : Sql (Unit {0})
enter_nor st = ok (tt, record { is_nor = true; nor_counter = suc st.nor_counter })

-- `norCounter--; if norCounter == 0 { isNor = false }`
abbrev pub leave_nor : Sql (Unit {0})
leave_nor st =
    let n = st.nor_counter - 1 in
    ok (tt, record { is_nor = if n == 0 then false else st.is_nor; nor_counter = n })

-- `if i != 0 { kvSQL += " AND " }`
abbrev pub conjunction : Bool → Bytes
conjunction first = if first then [] else codes " AND "

-- A call whose error the caller looks at.
abbrev pub tried : {A : Type 0} → Outcome A → Outcome (A ⊎ Error)
tried (ok a) = ok (inl a)
tried (err e) = ok (inr e)
tried panicked = panicked
tried stuck = stuck
