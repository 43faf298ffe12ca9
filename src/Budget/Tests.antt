-- ===== src/Budget/Tests.antt =====
-- The ledger of budget.py on concrete calls, and each theorem at a concrete input.
use runpod_jobrunner.Prelude.{◌+◌, ◌-◌, ◌≡◌, refl, List, [], ◌∷◌, none, some, ltb, if◌then◌else◌}
use runpod_jobrunner.Provider.{amount}
use runpod_jobrunner.Names.{is_safe_identifier}
use runpod_jobrunner.Budget.{
  ok, err, budget_exceeded, money, written, Reservations, Ledger, absent, ledger, lookup, assign,
  reserved, Projection, projection, projection_of, reserve_new, reserve_in, reserve_locked, reserve,
}
use runpod_jobrunner.Budget.Reserve.{
  Request, reserve_all, IsWithin, KeepsTotal, reserve_all-IsWithin, reserve-HasTotal,
}
use runpod_jobrunner.Budget.Decision.{reserve-fresh, reserve-reserve}

abbrev entries : Reservations
entries = ("run-a", written 30) ∷ []

abbrev stored : Ledger
stored = record {
  protocol = "budget-ledger/1";
  scope = "grant";
  total_authorized_usd = written 100;
  reservations = some entries;
}

-- The second cap is over what the first leaves.
abbrev requests : List Request
requests =
    record { total_authorized_usd = written 100; run_id = "run-a"; run_cap_usd = written 60 }
    ∷ record { total_authorized_usd = written 100; run_id = "run-b"; run_cap_usd = written 50 }
    ∷ record { total_authorized_usd = written 100; run_id = "run-c"; run_cap_usd = written 40 }
    ∷ []

reserve_all-IsWithin_example : IsWithin (reserve_all "grant" requests absent)
reserve_all-IsWithin_example = reserve_all-IsWithin "grant" requests

money_100 : money (written 100) ≡ ok 100
unfolding money
money_100 = refl

money_20 : money (written 20) ≡ ok 20
unfolding money
money_20 = refl

reserve-HasTotal_example :
    KeepsTotal 100
      (written 100)
      (ledger stored)
      (reserve "grant" (written 100) "run-b" (written 20) (ledger stored))
reserve-HasTotal_example =
    reserve-HasTotal "grant" (written 100) "run-b" (written 20) 100 (ledger stored)
      (money_100, refl)

reserved-entries : reserved entries ≡ ok 30
unfolding reserved money
reserved-entries = refl

fresh_run : lookup "run-b" entries ≡ none
unfolding lookup
fresh_run = refl

reserve-fresh_example : reserve "grant" (written 100) "run-b" (written 20) (ledger stored) ≡ (
    if ltb 100 (30 + 20) then (err budget_exceeded, ledger stored) else (
      ok (record {
        scope = "grant";
        total_authorized_usd = written 100;
        reserved_usd = 30 + 20;
        remaining_usd = amount (100 - (30 + 20));
        reservations = assign "run-b" (written 20) entries;
      }),
      ledger (record stored { reservations = some (assign "run-b" (written 20) entries) }),
    ))
unfolding is_safe_identifier
reserve-fresh_example =
    reserve-fresh "grant" "run-b" (written 100) (written 20) 100 20 30 stored entries refl money_100
      money_20 money_100 refl refl reserved-entries fresh_run

-- what the first call returns
abbrev second : Ledger
second = record stored { reservations = some (("run-a", written 30) ∷ ("run-b", written 20) ∷ []) }

abbrev second_projection : Projection
second_projection = record {
  scope = "grant";
  total_authorized_usd = written 100;
  reserved_usd = 50;
  remaining_usd = amount 50;
  reservations = ("run-a", written 30) ∷ ("run-b", written 20) ∷ [];
}

reserve_run :
    reserve "grant" (written 100) "run-b" (written 20) (ledger stored)
    ≡ (ok second_projection, ledger second)
unfolding reserve reserve_locked reserve_in reserve_new lookup assign reserved money projection
    projection_of is_safe_identifier
reserve_run = refl

reserve-reserve_example :
    reserve "grant" (written 100) "run-b" (written 20) (ledger second)
    ≡ (ok second_projection, ledger second)
reserve-reserve_example =
    reserve-reserve "grant" (written 100) "run-b" (written 20) (ledger stored) (ledger second)
      second_projection reserve_run
