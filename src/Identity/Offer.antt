-- ===== src/Identity/Offer.antt =====
-- What identity.py accepts as a protocol offer, and what application.py concludes from two offers.
use runpod_jobrunner.Prelude.{
  ℕ, ◌<◌, ◌≡◌, refl, ap, ◌∙◌, String, List, [], ◌∷◌, Option, none, some, true, false, ◌==◌, eq_iff,
  is_some, All, arith,
}
use runpod_jobrunner.Identity.{
  Item, integer, not_natural, Versions, array, not_array, Candidate, mapping, not_mapping, Majors,
  Result, ok, err, required_protocols, positive_items, contains_nat, has_duplicates, is_sorted,
  check_sorted, check_versions, check_name, parse_entries, lookup, check_required, protocol_majors,
  Declaration, text_field_eq, offers_one, differing_protocol, compare_majors,
  local_ready_identity_error,
}

-- every number is greater than the one before
abbrev pub IsIncreasing : ℕ → List ℕ → Type 0
IsIncreasing n [] = Unit
IsIncreasing n (m ∷ rest) = (n < m) × IsIncreasing m rest

contains-above : (n : ℕ) (ns : List ℕ) → contains_nat n (n ∷ ns) ≡ true
contains-above n ns = ground arith

increasing :
    (n : ℕ) (ns : List ℕ)
    → has_duplicates (n ∷ ns) ≡ false
    → is_sorted (n ∷ ns) ≡ true
    → IsIncreasing n ns
increasing n [] d s = tt
increasing n (m ∷ ns) d s = (ground arith, increasing m ns (ground arith) (ground arith))

-- A versions array that is accepted: positive numbers, strictly increasing, at least one.
abbrev pub IsVersions : List ℕ → Type 0
IsVersions [] = ⊥
IsVersions (n ∷ ns) = (0 < n) × IsIncreasing n ns

positive_items-head :
    (items : List Item) (n : ℕ) (ns : List ℕ) → positive_items items ≡ some (n ∷ ns) → 0 < n
unfolding positive_items
positive_items-head [] n ns h = absurd (ground arith)
positive_items-head (not_natural ∷ rest) n ns h = absurd (ground arith)
positive_items-head (integer m ∷ rest) n ns h = ground arith

positive_items-nil : (i : Item) (items : List Item) → positive_items (i ∷ items) ≡ some [] → ⊥
unfolding positive_items
positive_items-nil (integer n) items h = ground arith
positive_items-nil not_natural items h = ground arith

check_sorted-lem :
    (given : Option (List ℕ)) (ns : List ℕ)
    → check_sorted given ≡ ok ns
    → (given ≡ some ns) × (has_duplicates ns ≡ false) × (is_sorted ns ≡ true)
unfolding check_sorted
check_sorted-lem none ns h = absurd (ground arith)
check_sorted-lem (some given) ns h = ground arith

check_versions-IsVersions :
    (versions : Versions) (ns : List ℕ) → check_versions versions ≡ ok ns → IsVersions ns
unfolding check_versions
check_versions-IsVersions not_array ns h = absurd (ground arith)
check_versions-IsVersions (array []) ns h = absurd (ground arith)
check_versions-IsVersions (array (i ∷ items)) [] h =
    absurd (positive_items-nil i items (check_sorted-lem (positive_items (i ∷ items)) [] h).0)
check_versions-IsVersions (array (i ∷ items)) (n ∷ ns) h =
    let (a, b, c) = check_sorted-lem (positive_items (i ∷ items)) (n ∷ ns) h in
    (positive_items-head (i ∷ items) n ns a, increasing n ns b c)

-- What an accepted offer says of each protocol that it names.
abbrev pub IsOffered : String × List ℕ → Type 0
IsOffered (name, ns) = ((name == "") ≡ false) × IsVersions ns

abbrev pub IsPresent : Majors → String → Type 0
IsPresent parsed protocol = is_some (lookup protocol parsed) ≡ true

parse_cons :
    (key : Option String) (versions : Versions) (rest : List (Option String × Versions))
    (ms : Majors)
    → parse_entries ((key, versions) ∷ rest) ≡ ok ms
    → (name : String) × (ns : List ℕ) × (ms' : Majors) × (check_name key ≡ ok name)
      × (check_versions versions ≡ ok ns)
      × (parse_entries rest ≡ ok ms')
      × (ms ≡ (name, ns) ∷ ms')
unfolding parse_entries
parse_cons key versions rest ms h = ground arith

check_name-lem :
    (key : Option String) (name : String) → check_name key ≡ ok name → (name == "") ≡ false
unfolding check_name
check_name-lem key name h = ground arith

parse_entries-IsOffered :
    (raw : List (Option String × Versions)) (ms : Majors)
    → parse_entries raw ≡ ok ms
    → All IsOffered ms
parse_entries-IsOffered [] [] h = tt
parse_entries-IsOffered [] (m ∷ ms) h = absurd (unfold parse_entries in ground arith)
parse_entries-IsOffered ((key, versions) ∷ rest) ms h =
    let (name, ns, ms', a, b, c, d) = parse_cons key versions rest ms h in
    rw d (
      (check_name-lem key name a, check_versions-IsVersions versions ns b),
      parse_entries-IsOffered rest ms' c,
    )

check_required-lem :
    (required : List String) (parsed ms : Majors)
    → check_required required parsed ≡ ok ms
    → (parsed ≡ ms) × All (IsPresent ms) required
unfolding check_required
check_required-lem [] parsed ms h = (ground arith, tt)
check_required-lem (p ∷ rest) parsed ms h = ground (arith, check_required-lem rest parsed ms)

protocol_parse :
    (raw : List (Option String × Versions)) (ms : Majors)
    → protocol_majors (mapping raw) ≡ ok ms
    → (parsed : Majors) × (parse_entries raw ≡ ok parsed)
      × (check_required required_protocols parsed ≡ ok ms)
unfolding protocol_majors
protocol_parse raw ms h = ground arith

-- An offer that is accepted names every required protocol, and each protocol that it names has a
-- non-empty name and at least one major version, all positive and strictly increasing.
pub protocol_majors-IsOffer :
    (candidate : Candidate) (ms : Majors)
    → protocol_majors candidate ≡ ok ms
    → All IsOffered ms × All (IsPresent ms) required_protocols
unfolding protocol_majors
protocol_majors-IsOffer not_mapping ms h = absurd (ground arith)
protocol_majors-IsOffer (mapping raw) ms h =
    let (parsed, a, b) = protocol_parse raw ms h in
    let (c, d) = check_required-lem required_protocols parsed ms b in
    (parse_entries-IsOffered raw ms (a ∙ ap ok c), d)

-- both sides offer major version 1
abbrev pub BothOfferOne : Majors → Majors → String → Type 0
BothOfferOne runner controller p =
    (offers_one (lookup p runner) ≡ true) × (offers_one (lookup p controller) ≡ true)

differing_protocol-none :
    (protocols : List String) (runner controller : Majors)
    → differing_protocol protocols runner controller ≡ none
    → All (BothOfferOne runner controller) protocols
unfolding differing_protocol
differing_protocol-none [] runner controller h = tt
differing_protocol-none (p ∷ rest) runner controller h =
    ground (arith, differing_protocol-none rest runner controller)

compare_majors-none :
    (a b : Result Majors)
    → compare_majors a b ≡ none
    → (runner : Majors) × (controller : Majors) × (a ≡ ok runner)
      × (b ≡ ok controller)
      × All (BothOfferOne runner controller) required_protocols
unfolding compare_majors
compare_majors-none (err x) b h = absurd (ground arith)
compare_majors-none (ok runner) (err x) h = absurd (ground arith)
compare_majors-none (ok runner) (ok controller) h =
    (runner, controller, refl, refl, differing_protocol-none required_protocols runner controller h)

text_field_eq-lem : (a b : Option String) → text_field_eq a b ≡ true → a ≡ b
text_field_eq-lem none none h = refl
text_field_eq-lem none (some b) h = absurd (ground arith)
text_field_eq-lem (some a) none h = absurd (ground arith)
text_field_eq-lem (some a) (some b) h = ground (arith, eq_iff a b)

-- A ready runner that the check lets pass reports, in the protocol of this version, the request's
-- run, runner version and Git commit; both offers are accepted, and both sides offer major version 1
-- of every required protocol.
pub local_ready_identity_error-none :
    (status request : Declaration)
    → local_ready_identity_error status request ≡ none
    → (status.protocol ≡ some "run-status/1")
      × (status.run_id ≡ request.run_id)
      × (status.runner_version ≡ request.runner_version)
      × (status.runner_git_commit ≡ request.runner_git_commit)
      × ((runner : Majors) × (controller : Majors) × (protocol_majors
              status.supported_protocol_majors
            ≡ ok runner)
          × (protocol_majors request.supported_protocol_majors ≡ ok controller)
          × All (BothOfferOne runner controller) required_protocols)
unfolding local_ready_identity_error
local_ready_identity_error-none status request h = (
  ground (arith, text_field_eq-lem status.protocol (some "run-status/1")),
  ground (arith, text_field_eq-lem status.run_id request.run_id),
  ground (arith, text_field_eq-lem status.runner_version request.runner_version),
  ground (arith, text_field_eq-lem status.runner_git_commit request.runner_git_commit),
  compare_majors-none (protocol_majors status.supported_protocol_majors)
      (protocol_majors request.supported_protocol_majors) (ground arith),
)
