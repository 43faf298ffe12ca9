-- ===== src/Identity.antt =====
-- src/runpod_jobrunner/identity.py: `_protocol_majors`, which validates a peer's protocol offer, and
-- `_local_ready_identity_error` of src/runpod_jobrunner/application.py, which compares the ready
-- runner with the request. A mapping is its list of entries; its keys are distinct.
pub mod Offer
mod Tests
use runpod_jobrunner.Prelude.{
  ℕ, String, List, [], ◌∷◌, Option, none, some, Bool, true, false, not, ◌&&◌, ◌||◌, ◌==◌, nat_eq,
  leb, is_some, is_empty, if◌then◌else◌,
}

-- An item of a versions array: an integer of at least 0, or any other value, a Boolean included.
pub data Item : Type 0 where
  integer : ℕ → Item
  not_natural : Item

pub data Versions : Type 0 where
  array : List Item → Versions
  not_array : Versions

-- A peer's declaration; a key is `none` where it is no string.
pub data Candidate : Type 0 where
  mapping : List (Option String × Versions) → Candidate
  not_mapping : Candidate

abbrev pub Majors : Type 0
Majors = List (String × List ℕ)

-- the cases of `RunnerIdentityError`
pub data IdentityError : Type 0 where
  not_an_object bad_name not_an_array not_positive not_sorted missing_protocol : IdentityError

pub data Result (A : Type 0) : Type 0 where
  ok : A → Result A
  err : IdentityError → Result A

infixl 5 ◌>>=◌
abbrev pub ◌>>=◌ : {A B : Type 0} → Result A → (A → Result B) → Result B
ok a >>= f = f a
err e >>= f = err e

abbrev pub required_protocols : List String
required_protocols =
    "artifact-manifest" ∷ "launch-authorization" ∷ "run-event" ∷ "run-request" ∷ "run-status" ∷ []

-- the items, where each is a positive integer
unfoldable pub positive_items : List Item → Option (List ℕ)
positive_items [] = some []
positive_items (not_natural ∷ rest) = none
positive_items (integer n ∷ rest) = elim (positive_items rest) [
  | none ↦ none
  | some ns ↦ if nat_eq n 0 then none else some (n ∷ ns)
]

abbrev pub contains_nat : ℕ → List ℕ → Bool
contains_nat n [] = false
contains_nat n (m ∷ rest) = nat_eq m n || contains_nat n rest

-- `len(set(normalized)) != len(normalized)`
abbrev pub has_duplicates : List ℕ → Bool
has_duplicates [] = false
has_duplicates (n ∷ rest) = contains_nat n rest || has_duplicates rest

-- `tuple(sorted(normalized)) == normalized`
abbrev pub is_sorted : List ℕ → Bool
is_sorted [] = true
is_sorted (n ∷ rest) = elim rest [ [] ↦ true | m ∷ more ↦ leb n m && is_sorted rest ]

unfoldable pub check_sorted : Option (List ℕ) → Result (List ℕ)
check_sorted none = err not_positive
check_sorted (some ns) = if has_duplicates ns || not (is_sorted ns) then err not_sorted else ok ns

unfoldable pub check_versions : Versions → Result (List ℕ)
unfolding check_sorted
check_versions not_array = err not_an_array
check_versions (array items) =
    if is_empty items then err not_an_array else check_sorted (positive_items items)

unfoldable pub check_name : Option String → Result String
check_name none = err bad_name
check_name (some name) = if name == "" then err bad_name else ok name

-- the loop over `raw.items()`
unfoldable pub parse_entries : List (Option String × Versions) → Result Majors
unfolding check_name check_versions
parse_entries [] = ok []
parse_entries ((key, versions) ∷ rest) = check_name key >>= λ name.
    check_versions versions >>= λ ns. parse_entries rest >>= λ parsed. ok ((name, ns) ∷ parsed)

unfoldable pub lookup : String → Majors → Option (List ℕ)
lookup key [] = none
lookup key ((name, ns) ∷ rest) = if name == key then some ns else lookup key rest

-- the loop over `_REQUIRED_PROTOCOLS`
unfoldable pub check_required : List String → Majors → Result Majors
check_required [] parsed = ok parsed
check_required (required ∷ rest) parsed =
    let later = check_required rest parsed in
    if not (is_some (lookup required parsed)) then err missing_protocol else later

unfoldable pub protocol_majors : Candidate → Result Majors
unfolding parse_entries
protocol_majors not_mapping = err not_an_object
protocol_majors (mapping raw) =
    parse_entries raw >>= λ parsed. check_required required_protocols parsed

-- The fields of a status or a request that the check reads; a text is `none` where it is missing.
pub record Declaration : Type 0 where
  pub protocol : Option String
  pub run_id : Option String
  pub runner_version : Option String
  pub runner_git_commit : Option String
  pub supported_protocol_majors : Candidate

abbrev pub text_field_eq : Option String → Option String → Bool
text_field_eq none none = true
text_field_eq (some a) (some b) = a == b
text_field_eq _ _ = false

-- What `_local_ready_identity_error` reports.
pub data ReadyError : Type 0 where
  status_differs version_differs commit_differs : ReadyError
  malformed_majors : IdentityError → ReadyError
  major_differs : String → ReadyError

abbrev pub offers_one : Option (List ℕ) → Bool
offers_one none = false
offers_one (some ns) = contains_nat 1 ns

-- the loop over the five protocols
unfoldable pub differing_protocol : List String → Majors → Majors → Option ReadyError
differing_protocol [] runner controller = none
differing_protocol (p ∷ rest) runner controller =
    let later = differing_protocol rest runner controller in
    if not (offers_one (lookup p runner)) || not (offers_one (lookup p controller))
    then some (major_differs p)
    else later

unfoldable pub compare_majors : Result Majors → Result Majors → Option ReadyError
compare_majors (err e) _ = some (malformed_majors e)
compare_majors (ok runner) (err e) = some (malformed_majors e)
compare_majors (ok runner) (ok controller) = differing_protocol required_protocols runner controller

unfoldable pub local_ready_identity_error : Declaration → Declaration → Option ReadyError
unfolding compare_majors
local_ready_identity_error status request =
    if not (text_field_eq status.protocol (some "run-status/1"))
      || not (text_field_eq status.run_id request.run_id)
    then some status_differs
    else if not (text_field_eq status.runner_version request.runner_version)
    then some version_differs
    else if not (text_field_eq status.runner_git_commit request.runner_git_commit)
    then some commit_differs
    else compare_majors (protocol_majors status.supported_protocol_majors)
        (protocol_majors request.supported_protocol_majors)
