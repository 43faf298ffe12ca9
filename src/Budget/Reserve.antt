-- ===== src/Budget/Reserve.antt =====
-- What the ledger of budget.py guarantees.
use runpod_jobrunner.Prelude.{
  ℕ, ◌+◌, ◌≤◌, ◌<◌, ◌≡◌, refl, String, List, [], ◌∷◌, Option, none, some, ◌==◌, eq_iff, arith,
  if◌then◌else◌,
}
use runpod_jobrunner.Budget.{
  Result, ok, err, ◌>>=◌, value_error, Money, money, written, Reservations, Ledger, LedgerFile,
  absent, corrupt, ledger, lookup, assign, reserved, reserve_new, reserve_existing, reserve_in,
  reserve_locked, reserve, new_ledger, Projection, projection, projection_of,
}

pub money-written : (n : ℕ) → 0 < n → money (written n) ≡ ok n
unfolding money
money-written n p = ground arith

pub reserved-assign :
    (run_id : String) (cap : ℕ) (entries : Reservations)
    → 0 < cap
    → lookup run_id entries ≡ none
    → reserved (assign run_id (written cap) entries)
      ≡ (reserved entries >>= λ spent. ok (spent + cap))
unfolding lookup assign reserved
reserved-assign run_id cap [] p l = ground (arith, money-written cap p)
reserved-assign run_id cap ((k, v) ∷ rest) p l = ground (arith, reserved-assign run_id cap rest p)

pub lookup-assign :
    (key other : String) (v : Money) (entries : Reservations)
    → lookup other (assign key v entries) ≡ (if key == other then some v else lookup other entries)
unfolding lookup assign
lookup-assign key other v [] = ground arith
lookup-assign key other v ((k, u) ∷ rest) =
    ground (arith, lookup-assign key other v rest, eq_iff k key, eq_iff k other, eq_iff key other)

abbrev pub spent_of : Option Reservations → Result ℕ
spent_of none = err value_error
spent_of (some entries) = reserved entries

abbrev pub Within : Result ℕ → Result ℕ → Type 0
Within (ok total) (ok spent) = spent ≤ total
Within _ _ = Unit

-- The reservations in the file are within the authority that it records.
abbrev pub IsWithin : LedgerFile → Type 0
IsWithin (ledger l) = Within (money l.total_authorized_usd) (spent_of l.reservations)
IsWithin _ = Unit

module _ (run_id : String) (total cap : ℕ) (l : Ledger) (file : LedgerFile) where
  reserve_in-IsWithin :
      (entries : Option Reservations)
      → 0 < cap
      → money l.total_authorized_usd ≡ ok total
      → IsWithin file
      → IsWithin (reserve_in run_id total cap l file entries).1
  unfolding reserve_in reserve_new reserve_existing
  reserve_in-IsWithin none p m h = h
  reserve_in-IsWithin (some entries) p m h = ground (arith, reserved-assign run_id cap entries p)

pub money-pos : (m : Money) (n : ℕ) → money m ≡ ok n → 0 < n
unfolding money
money-pos m n h = ground arith

reserve_locked-IsWithin :
    (scope : String) (total : ℕ) (run_id : String) (cap : ℕ) (file : LedgerFile)
    → 0 < cap
    → 0 < total
    → IsWithin file
    → IsWithin (reserve_locked scope total run_id cap file).1
unfolding reserve_locked
reserve_locked-IsWithin scope total run_id cap absent p q h =
    reserve_in-IsWithin run_id total cap (new_ledger scope total) absent (some []) p
      (money-written total q) tt
reserve_locked-IsWithin scope total run_id cap corrupt p q h = tt
reserve_locked-IsWithin scope total run_id cap (ledger l) p q h =
    ground (arith, reserve_in-IsWithin run_id total cap l (ledger l) l.reservations)

reserve-IsWithin :
    (scope : String) (total : Money) (run_id : String) (run_cap : Money) (file : LedgerFile)
    → IsWithin file
    → IsWithin (reserve scope total run_id run_cap file).1
unfolding reserve
reserve-IsWithin scope total run_id run_cap file h =
    grind (arith, reserve_locked-IsWithin, money-pos)

-- A call of `reserve`, as the principal makes it.
pub record Request : Type 0 where
  pub total_authorized_usd : Money
  pub run_id : String
  pub run_cap_usd : Money

-- The file after some calls under one scope, whatever each of them returned or raised.
unfoldable pub reserve_all : String → List Request → LedgerFile → LedgerFile
reserve_all scope [] file = file
reserve_all scope (r ∷ rest) file =
    reserve_all scope rest (reserve scope r.total_authorized_usd r.run_id r.run_cap_usd file).1

reserve_all-IsWithin_from :
    (scope : String) (requests : List Request) (file : LedgerFile)
    → IsWithin file
    → IsWithin (reserve_all scope requests file)
unfolding reserve_all
reserve_all-IsWithin_from scope [] file h = h
reserve_all-IsWithin_from scope (r ∷ rest) file h =
    reserve_all-IsWithin_from scope rest _
      (reserve-IsWithin scope r.total_authorized_usd r.run_id r.run_cap_usd file h)

-- From no ledger, after any calls under a scope, whatever totals and caps they name and whether they
-- return or raise: where the ledger's total and reservations can be read, their sum is at most the
-- total.
pub reserve_all-IsWithin :
    (scope : String) (requests : List Request) → IsWithin (reserve_all scope requests absent)
reserve_all-IsWithin scope requests = reserve_all-IsWithin_from scope requests absent tt

-- The file a ledger of one authority holds: that authority, in the protocol of this version.
abbrev pub HasTotal : ℕ → LedgerFile → Type 0
HasTotal total (ledger l) =
    (money l.total_authorized_usd ≡ ok total) × (l.protocol ≡ "budget-ledger/1")
HasTotal total _ = ⊥

-- What a call on the ledger of the authority `n` may end in: with a reservation under that authority,
-- which the ledger keeps, or with an error that leaves the file as it was.
abbrev pub KeepsTotal : ℕ → Money → LedgerFile → Result Projection × LedgerFile → Type 0
KeepsTotal n total file (ok p, after) = (money total ≡ ok n) × HasTotal n after
KeepsTotal n total file (err e, after) = after ≡ file

abbrev IsReturned : Result Projection → Type 0
IsReturned (ok p) = Unit
IsReturned (err e) = ⊥

projection-total :
    (l : Ledger) (n spent : ℕ) (entries : Reservations)
    → HasTotal n (ledger l)
    → reserved entries ≡ ok spent
    → IsReturned (projection (record l { reservations = some entries }))
unfolding projection projection_of
projection-total l n spent entries (m, v) r = rw (v, m, r) tt

module _ (n cap : ℕ) (total : Money) (run_id : String) (l : Ledger) (positive : 0 < cap)
    (named : money total ≡ ok n) (h : HasTotal n (ledger l)) where
  reserve_new-KeepsTotal :
      (entries : Reservations)
      → (x : Result ℕ) → reserved entries ≡ x
      → lookup run_id entries ≡ none
      → KeepsTotal n total (ledger l) (reserve_new run_id n cap l (ledger l) entries)
  unfolding reserve_new
  reserve_new-KeepsTotal entries (err e) r q = rw r refl
  reserve_new-KeepsTotal entries (ok spent) r q =
      let k =
        projection-total l n (spent + cap) (assign run_id (written cap) entries) h
          (rw (reserved-assign run_id cap entries positive q, r) refl) in
      ground arith

  reserve_in-KeepsTotal :
      (entries : Option Reservations)
      → KeepsTotal n total (ledger l) (reserve_in run_id n cap l (ledger l) entries)
  unfolding reserve_in reserve_existing
  reserve_in-KeepsTotal none = refl
  reserve_in-KeepsTotal (some entries) =
      ground (arith, reserve_new-KeepsTotal entries (reserved entries) refl)

reserve_locked-KeepsTotal :
    (scope : String) (n t : ℕ) (total : Money) (run_id : String) (cap : ℕ) (l : Ledger)
    → 0 < cap
    → money total ≡ ok t
    → HasTotal n (ledger l)
    → KeepsTotal n total (ledger l) (reserve_locked scope t run_id cap (ledger l))
unfolding reserve_locked
reserve_locked-KeepsTotal scope n t total run_id cap l p m h =
    grind (arith, reserve_in-KeepsTotal n cap total run_id l p)

-- A ledger's authority never changes in place: a call on a ledger of this version with a total that
-- can be read either names that same total, and returns with the ledger's total and protocol kept,
-- or raises with the ledger's file as it was. So a call that names another total raises.
pub reserve-HasTotal :
    (scope : String) (total : Money) (run_id : String) (run_cap : Money) (n : ℕ) (file : LedgerFile)
    → HasTotal n file
    → KeepsTotal n total file (reserve scope total run_id run_cap file)
unfolding reserve
reserve-HasTotal scope total run_id run_cap n (ledger l) h =
    grind (arith, reserve_locked-KeepsTotal, money-pos)
reserve-HasTotal scope total run_id run_cap n absent h = absurd h
reserve-HasTotal scope total run_id run_cap n corrupt h = absurd h
