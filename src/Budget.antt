-- ===== src/Budget.antt =====
-- src/runpod_jobrunner/budget.py: the ledger that reserves the full cap of every run under one
-- grant. The ledger file of a scope is a value; `reserve` runs under the scope's exclusive lock, and
-- returns what it leaves in the file beside its result. Amounts are exact, in billionths.
pub mod Reserve
pub mod Decision
mod Tests
use runpod_jobrunner.Prelude.{
  ℕ, ◌+◌, ◌-◌, String, List, [], ◌∷◌, Option, none, some, Bool, true, false, not, ◌==◌, ltb, leb,
  nat_eq, if◌then◌else◌,
}
use runpod_jobrunner.Provider.{Decimal, amount, negative, not_finite}
use runpod_jobrunner.Names.{is_safe_identifier}

pub data BudgetError : Type 0 where
  budget_exceeded value_error type_error : BudgetError

pub data Result (A : Type 0) : Type 0 where
  ok : A → Result A
  err : BudgetError → Result A

infixl 5 ◌>>=◌
abbrev pub ◌>>=◌ : {A B : Type 0} → Result A → (A → Result B) → Result B
ok a >>= f = f a
err e >>= f = err e

-- A value given for money: a `Decimal` or a text with what `Decimal` makes of it (`none` where it
-- raises `InvalidOperation`), or any other value.
pub data Money : Type 0 where
  decimal : Option Decimal → Money
  not_money : Money

unfoldable pub money : Money → Result ℕ
money not_money = err type_error
money (decimal none) = err value_error
money (decimal (some not_finite)) = err value_error
money (decimal (some (negative n))) = err value_error
money (decimal (some (amount n))) = if nat_eq n 0 then err value_error else ok n

-- `format(value, "f")`, as it is read back
abbrev pub written : ℕ → Money
written n = decimal (some (amount n))

abbrev pub Reservations : Type 0
Reservations = List (String × Money)

pub record Ledger : Type 0 where
  pub protocol : String
  pub scope : String
  pub total_authorized_usd : Money
  -- `none` is a value that is no object
  pub reservations : Option Reservations

pub data LedgerFile : Type 0 where
  absent : LedgerFile
  corrupt : LedgerFile
  ledger : Ledger → LedgerFile

unfoldable pub lookup : String → Reservations → Option Money
lookup key [] = none
lookup key ((k, v) ∷ rest) = if k == key then some v else lookup key rest

unfoldable pub assign : String → Money → Reservations → Reservations
assign key v [] = (key, v) ∷ []
assign key v ((k, u) ∷ rest) = if k == key then (key, v) ∷ rest else (k, u) ∷ assign key v rest

-- `sum(_money(value) for value in reservations.values())`
unfoldable pub reserved : Reservations → Result ℕ
reserved [] = ok 0
reserved ((k, v) ∷ rest) = money v >>= λ n. reserved rest >>= λ m. ok (n + m)

pub record Projection : Type 0 where
  pub scope : String
  pub total_authorized_usd : Money
  pub reserved_usd : ℕ
  pub remaining_usd : Decimal
  pub reservations : Reservations

-- `total - reserved`, which may be negative
abbrev pub subtract : ℕ → ℕ → Decimal
subtract total spent =
    if leb spent total then amount (total - spent) else negative (spent - total - 1)

unfoldable pub projection_of : Ledger → ℕ → Option Reservations → Result Projection
projection_of l total none = err value_error
projection_of l total (some entries) = reserved entries >>= λ spent. ok (record {
  scope = l.scope;
  total_authorized_usd = l.total_authorized_usd;
  reserved_usd = spent;
  remaining_usd = subtract total spent;
  reservations = entries;
})

unfoldable pub projection : Ledger → Result Projection
projection l =
    if not (l.protocol == "budget-ledger/1")
    then err value_error
    else money l.total_authorized_usd >>= λ total. projection_of l total l.reservations

-- What is left in the file, with the result.
abbrev pub Outcome : Type 0
Outcome = Result Projection × LedgerFile

abbrev pub fail : BudgetError → LedgerFile → Outcome
fail e file = (err e, file)

-- `f` after a computation that may raise and leaves the file alone
abbrev pub with_result : {A : Type 0} → Result A → LedgerFile → (A → Outcome) → Outcome
with_result (ok a) file f = f a
with_result (err e) file f = fail e file

module _ (run_id : String) (total cap : ℕ) (l : Ledger) (file : LedgerFile) where
  unfoldable pub reserve_new : Reservations → Outcome
  reserve_new entries = with_result (reserved entries) file (λ spent.
      let l' = record l { reservations = some (assign run_id (written cap) entries) } in
      if ltb total (spent + cap) then fail budget_exceeded file else (projection l', ledger l'))

  unfoldable pub reserve_existing : Money → Outcome
  reserve_existing existing =
      with_result (money existing) file
        (λ n. if not (nat_eq n cap) then fail budget_exceeded file else (projection l, file))

  unfoldable pub reserve_in : Option Reservations → Outcome
  reserve_in none = fail value_error file
  reserve_in (some entries) = elim (lookup run_id entries) [
    | some existing ↦ reserve_existing existing
    | none ↦ reserve_new entries
  ]

abbrev pub new_ledger : String → ℕ → Ledger
new_ledger scope total = record {
  protocol = "budget-ledger/1";
  scope = scope;
  total_authorized_usd = written total;
  reservations = some [];
}

-- the body under the lock
unfoldable pub reserve_locked : String → ℕ → String → ℕ → LedgerFile → Outcome
reserve_locked scope total run_id cap absent =
    let l = new_ledger scope total in reserve_in run_id total cap l absent l.reservations
reserve_locked scope total run_id cap corrupt = fail value_error corrupt
reserve_locked scope total run_id cap (ledger l) =
    with_result (money l.total_authorized_usd) (ledger l) (λ existing_total.
      if not (nat_eq existing_total total)
      then fail budget_exceeded (ledger l)
      else reserve_in run_id total cap l (ledger l) l.reservations)

unfoldable pub reserve : String → Money → String → Money → LedgerFile → Outcome
reserve scope total_authorized run_id run_cap file =
    if not (is_safe_identifier scope)
    then fail value_error file
    else with_result (money total_authorized) file (λ total.
      with_result (money run_cap) file (λ cap. reserve_locked scope total run_id cap file))

unfoldable pub status : String → LedgerFile → Result Projection
status scope absent = err value_error
status scope corrupt = err value_error
status scope (ledger l) = if not (is_safe_identifier scope) then err value_error else projection l
