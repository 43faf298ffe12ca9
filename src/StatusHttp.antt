-- ===== src/StatusHttp.antt =====
-- The status server of src/runpod_jobrunner/status_http.py: the projection of a stored status, and
-- the handler of a GET.
pub mod Digest
pub mod Project
pub mod Serve
pub mod Public
pub mod Shown
mod Tests
use runpod_jobrunner.Prelude.{
  ℕ, String, List, [], ◌∷◌, Option, none, some, Bool, true, false, ◌&&◌, contains, if◌then◌else◌,
}
use runpod_jobrunner.Provider.{Decimal, amount}
use runpod_jobrunner.Json.{
  Json, null, boolean, integer, negative_integer, number, text, array, object, Items, no_items,
  item, Fields, no_fields, field,
}
use runpod_jobrunner.Identity

abbrev pub states : List String
states = "ready" ∷ "running" ∷ "terminal" ∷ []

abbrev pub outcomes : List String
outcomes = "succeeded" ∷ "failed" ∷ "stopped" ∷ "timed_out" ∷ "limit_exceeded" ∷ []

abbrev pub reasons : List String
reasons =
    "all_enabled_phases_completed" ∷ "phase_nonzero_exit" ∷ "phase_start_failed" ∷ "phase_timeout"
    ∷ "termination_requested" ∷ "controller_stop_requested" ∷ "elapsed_cap" ∷ "cost_cap"
    ∷ "storage_unavailable" ∷ "storage_capacity_below_request" ∷ "runner_restart_unknown_child"
    ∷ "artifact_manifest_missing" ∷ "artifact_manifest_invalid" ∷ "artifact_file_missing"
    ∷ "artifact_size_mismatch" ∷ "artifact_hash_mismatch" ∷ "runner_version_mismatch"
    ∷ "runner_git_commit_mismatch" ∷ "runner_identity_unavailable" ∷ "unsupported_protocol_major"
    ∷ "launch_authorization_invalid" ∷ "launch_authorization_timeout" ∷ []

-- `PHASE_ORDER` of runner.py
abbrev pub phase_order : List String
phase_order = "verify" ∷ "preflight" ∷ "train" ∷ "evaluate" ∷ "package" ∷ []

unfoldable pub then_some : {A B : Type 0} → Option A → (A → Option B) → Option B
then_some none k = none
then_some (some a) k = k a

unfoldable pub guarded : {A : Type 0} → Bool → Option A → Option A
guarded test rest = if test then rest else none

abbrev pub mapping_of : Json → Option Fields
mapping_of (object fields) = some fields
mapping_of _ = none

abbrev pub string_of : Json → Option String
string_of (text s) = some s
string_of _ = none

-- `_optional_string`, as the JSON that is served
abbrev pub optional_text : Json → Option Json
optional_text null = some null
optional_text (text s) = some (text s)
optional_text _ = none

abbrev pub integer_of : Json → Option Json
integer_of (integer n) = some (integer n)
integer_of (negative_integer n) = some (negative_integer n)
integer_of _ = none

-- `_number`; `as_float` is Python's conversion of a number
abbrev pub number_of : (Json → Json) → Json → Option Json
number_of as_float (integer n) = some (as_float (integer n))
number_of as_float (negative_integer n) = some (as_float (negative_integer n))
number_of as_float (number d) = some (as_float (number d))
number_of as_float _ = none

abbrev pub is_nonnegative : Option Decimal → Bool
is_nonnegative (some (amount n)) = true
is_nonnegative _ = false

abbrev pub decimal_string : (String → Option Decimal) → Json → Option Json
decimal_string decimal (text s) = guarded (is_nonnegative (decimal s)) (some (text s))
decimal_string decimal _ = none

abbrev pub known_phase : Json → Bool
known_phase (text phase) = contains phase phase_order
known_phase _ = true

-- what identity.py reads of the offer
abbrev pub version_item : Json → Identity.Item
version_item (integer n) = Identity.integer n
version_item _ = Identity.not_natural

unfoldable pub version_items : Items → List Identity.Item
version_items no_items = []
version_items (item v rest) = version_item v ∷ version_items rest

abbrev pub versions_of : Json → Identity.Versions
versions_of (array items) = Identity.array (version_items items)
versions_of _ = Identity.not_array

unfoldable pub offer_entries : Fields → List (Option String × Identity.Versions)
unfolding version_items
offer_entries no_fields = []
offer_entries (field key v rest) = (some key, versions_of v) ∷ offer_entries rest

abbrev pub candidate_of : Json → Identity.Candidate
candidate_of (object offers) = Identity.mapping (offer_entries offers)
candidate_of _ = Identity.not_mapping

unfoldable pub version_list : List ℕ → Items
version_list [] = no_items
version_list (n ∷ ns) = item (integer n) (version_list ns)

unfoldable pub majors_object : Identity.Majors → Fields
unfolding version_list
majors_object [] = no_fields
majors_object ((name, ns) ∷ rest) = field name (array (version_list ns)) (majors_object rest)

abbrev pub checked_majors : Identity.Result Identity.Majors → Option Json
checked_majors (Identity.ok majors) = some (object (majors_object majors))
checked_majors (Identity.err e) = none

unfoldable pub public_protocol_majors : Json → Option Json
unfolding offer_entries majors_object
public_protocol_majors offer = checked_majors (Identity.protocol_majors (candidate_of offer))
