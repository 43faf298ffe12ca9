-- ===== src/Budget/Decision.antt =====
-- What a call of budget.py's `reserve` decides, and that repeating it changes nothing.
use runpod_jobrunner.Prelude.{
  ℕ, ◌+◌, ◌-◌, ◌<◌, ◌≡◌, ◌⊎◌, inl, inr, refl, String, Option, none, some, true, eq_iff, arith, ltb,
  if◌then◌else◌,
}
use text.Mathlib.TextPositions.{eq_refl}
use runpod_jobrunner.Provider.{amount}
use runpod_jobrunner.Names.{is_safe_identifier}
use runpod_jobrunner.Budget.{
  BudgetError, Result, ok, err, Money, money, written, Reservations, Ledger, LedgerFile, absent,
  corrupt, ledger, lookup, assign, reserved, Projection, projection, projection_of, reserve_new,
  reserve_existing, reserve_in, reserve_locked, reserve, budget_exceeded,
}
use runpod_jobrunner.Budget.Reserve.{lookup-assign, reserved-assign, money-pos, money-written}

module _ (scope run_id : String) (total cap : Money) (t n spent : ℕ) (l : Ledger)
    (entries : Reservations) (safe : is_safe_identifier scope ≡ true)
    (total_is : money total ≡ ok t) (cap_is : money cap ≡ ok n)
    (stored_total : money l.total_authorized_usd ≡ ok t) (protocol : l.protocol ≡ "budget-ledger/1")
    (stored : l.reservations ≡ some entries) (spent_is : reserved entries ≡ ok spent)
    (fresh : lookup run_id entries ≡ none) where
  -- A run that has no reservation, on a readable ledger of the same authority: if the sum of the
  -- reservations and the cap is over the total, the call raises `BudgetExceeded` and leaves the
  -- file; otherwise it adds exactly this reservation, and returns the new sum and what remains.
  pub reserve-fresh : reserve scope total run_id cap (ledger l) ≡ (
      if ltb t (spent + n) then (err budget_exceeded, ledger l) else (
        ok (record {
          scope = l.scope;
          total_authorized_usd = l.total_authorized_usd;
          reserved_usd = spent + n;
          remaining_usd = amount (t - (spent + n));
          reservations = assign run_id (written n) entries;
        }),
        ledger (record l { reservations = some (assign run_id (written n) entries) }),
      ))
  unfolding reserve reserve_locked reserve_in reserve_new projection projection_of
  reserve-fresh = ground (
    arith,
    reserved-assign run_id n entries (money-pos cap n cap_is),
    eq_iff l.protocol "budget-ledger/1",
  )

lookup-assign_self :
    (key : String) (v : Money) (entries : Reservations) → lookup key (assign key v entries) ≡ some v
lookup-assign_self key v entries = simp (lookup-assign, eq_refl)

module _ (run_id : String) (total cap : ℕ) (l : Ledger) (file : LedgerFile) where
  -- what a successful call leaves lets the next one through
  reserve_in_again :
      (entries : Option Reservations) (pr : Projection) (l' : Ledger)
      → 0 < cap
      → file ≡ ledger l
      → l.reservations ≡ entries
      → reserve_in run_id total cap l file entries ≡ (ok pr, ledger l')
      → (reserve_in run_id total cap l' (ledger l') l'.reservations ≡ (ok pr, ledger l'))
        × (l'.total_authorized_usd ≡ l.total_authorized_usd)
  unfolding reserve_in reserve_new reserve_existing
  reserve_in_again none pr l' p f e h = absurd (ground arith)
  reserve_in_again (some entries) pr l' p f e h =
      ground (arith, lookup-assign_self run_id (written cap) entries, money-written cap p)

reserve_locked_again :
    (scope : String) (total : ℕ) (run_id : String) (cap : ℕ) (file : LedgerFile) (pr : Projection)
    (l' : Ledger)
    → 0 < cap
    → 0 < total
    → reserve_locked scope total run_id cap file ≡ (ok pr, ledger l')
    → reserve_locked scope total run_id cap (ledger l') ≡ (ok pr, ledger l')
unfolding reserve_locked
reserve_locked_again scope total run_id n absent pr l' p q h =
    unfold reserve_in reserve_new reserve_existing lookup assign in
    ground (arith, money-written n p, money-written total q, eq_refl run_id)
reserve_locked_again scope total run_id n corrupt pr l' p q h = absurd (ground arith)
reserve_locked_again scope total run_id n (ledger l) pr l' p q h =
    ground (arith, reserve_in_again run_id total n l (ledger l) l.reservations pr l' p refl refl)

Result-cases :
    {A : Type 0} (r : Result A) → ((a : A) × (r ≡ ok a)) ⊎ ((e : BudgetError) × (r ≡ err e))
Result-cases (ok a) = inl (a, refl)
Result-cases (err e) = inr (e, refl)

module _ (scope : String) (total : Money) (run_id : String) (run_cap : Money) (file : LedgerFile)
    (pr : Projection) where
  returns_a_ledger :
      (file' : LedgerFile)
      → reserve scope total run_id run_cap file ≡ (ok pr, file')
      → (l' : Ledger) × (file' ≡ ledger l')
  unfolding reserve reserve_locked reserve_in reserve_new reserve_existing lookup
  returns_a_ledger absent h = absurd (ground arith)
  returns_a_ledger corrupt h = absurd (ground arith)
  returns_a_ledger (ledger l') h = (l', refl)

  again_at :
      (l' : Ledger) (t n : ℕ)
      → money total ≡ ok t
      → money run_cap ≡ ok n
      → reserve scope total run_id run_cap file ≡ (ok pr, ledger l')
      → reserve scope total run_id run_cap (ledger l') ≡ (ok pr, ledger l')
  unfolding reserve
  again_at l' t n e f h = ground (
    arith,
    reserve_locked_again scope t run_id n file pr l',
    money-pos total t e,
    money-pos run_cap n f,
  )

  again :
      (l' : Ledger)
      → reserve scope total run_id run_cap file ≡ (ok pr, ledger l')
      → reserve scope total run_id run_cap (ledger l') ≡ (ok pr, ledger l')
  again l' h = elim (Result-cases (money total)) [
    | inl (t, e) ↦ elim (Result-cases (money run_cap)) [
      | inl (n, f) ↦ again_at l' t n e f h
      | inr (x, f) ↦ absurd (unfold reserve in ground arith)
    ]
    | inr (x, e) ↦ absurd (unfold reserve in ground arith)
  ]

-- Repeating a call that returned, with the same arguments, returns the same projection and leaves
-- the file as the first call left it.
pub reserve-reserve :
    (scope : String) (total : Money) (run_id : String) (run_cap : Money) (file file' : LedgerFile)
    (pr : Projection)
    → reserve scope total run_id run_cap file ≡ (ok pr, file')
    → reserve scope total run_id run_cap file' ≡ (ok pr, file')
reserve-reserve scope total run_id run_cap file file' pr h =
    let (l', e) = returns_a_ledger scope total run_id run_cap file pr file' h in
    rw e (again scope total run_id run_cap file pr l' (rw e at h))
