-- ===== src/Identity/Tests.antt =====
-- Offers of identity.py, and each theorem at a concrete input.
use runpod_jobrunner.Prelude.{ℕ, ◌≡◌, refl, String, List, [], ◌∷◌, Option, none, some, All}
use runpod_jobrunner.Identity.{
  integer, Versions, array, Candidate, mapping, Majors, ok, required_protocols, positive_items,
  check_sorted, check_versions, check_name, parse_entries, lookup, check_required, protocol_majors,
  Declaration, differing_protocol, compare_majors, local_ready_identity_error,
}
use runpod_jobrunner.Identity.Offer.{
  IsOffered, IsPresent, BothOfferOne, protocol_majors-IsOffer, local_ready_identity_error-none,
}

abbrev offered : List ℕ → List String → Majors
offered ns [] = []
offered ns (p ∷ rest) = (p, ns) ∷ offered ns rest

abbrev declared : Versions → List String → List (Option String × Versions)
declared versions [] = []
declared versions (p ∷ rest) = (some p, versions) ∷ declared versions rest

abbrev candidate : Candidate
candidate = mapping (declared (array (integer 1 ∷ integer 3 ∷ [])) required_protocols)

offer_accepted : protocol_majors candidate ≡ ok (offered (1 ∷ 3 ∷ []) required_protocols)
unfolding protocol_majors parse_entries check_name check_versions check_sorted positive_items
    check_required lookup
offer_accepted = refl

protocol_majors-IsOffer_example :
    All IsOffered (offered (1 ∷ 3 ∷ []) required_protocols)
    × All (IsPresent (offered (1 ∷ 3 ∷ []) required_protocols)) required_protocols
protocol_majors-IsOffer_example =
    protocol_majors-IsOffer candidate (offered (1 ∷ 3 ∷ []) required_protocols) offer_accepted

abbrev declaration : Declaration
declaration = record {
  protocol = some "run-status/1";
  run_id = some "run-1";
  runner_version = some "1.0.0";
  runner_git_commit = some "abc";
  supported_protocol_majors = candidate;
}

ready : local_ready_identity_error declaration declaration ≡ none
unfolding local_ready_identity_error compare_majors differing_protocol protocol_majors parse_entries
    check_name check_versions check_sorted positive_items check_required lookup
ready = refl

local_ready_identity_error-none_example :
    (declaration.protocol ≡ some "run-status/1")
    × (declaration.run_id ≡ declaration.run_id)
    × (declaration.runner_version ≡ declaration.runner_version)
    × (declaration.runner_git_commit ≡ declaration.runner_git_commit)
    × ((runner : Majors) × (controller : Majors) × (protocol_majors candidate ≡ ok runner)
        × (protocol_majors candidate ≡ ok controller)
        × All (BothOfferOne runner controller) required_protocols)
local_ready_identity_error-none_example =
    local_ready_identity_error-none declaration declaration ready
