-- ===== src/StatusHttp/Shown.antt =====
-- The fields that `_public_status` of src/runpod_jobrunner/status_http.py reads and writes.
use runpod_jobrunner.Prelude.{
  ◌≡◌, refl, subst, String, List, [], ◌∷◌, Option, none, some, Bool, true, false, contains,
}
use runpod_jobrunner.Json.{Json, null, object, Fields, no_fields, field, find_field, get_field}
use runpod_jobrunner.StatusHttp.{then_some, guarded}
use runpod_jobrunner.StatusHttp.Project.{Numbers, public_status, status_fields, status_shown}

abbrev or_null : Option Json → Json
or_null none = null
or_null (some v) = v

abbrev pub keys_of : Fields → List String
keys_of no_fields = []
keys_of (field key v rest) = key ∷ keys_of rest

-- the fields of the stored status that may show
abbrev pub read_fields : List String
read_fields =
    "protocol" ∷ "heartbeat_at_unix" ∷ "state" ∷ "phase" ∷ "run_id" ∷ "runner_version"
    ∷ "runner_git_commit" ∷ "supported_protocol_majors" ∷ "heartbeat_monotonic_seconds" ∷ "child"
    ∷ "latest_event_sequence" ∷ "terminal_result" ∷ []

abbrev pub served_fields : List String
served_fields =
    "protocol" ∷ "run_id" ∷ "runner_version" ∷ "runner_git_commit" ∷ "supported_protocol_majors"
    ∷ "state" ∷ "phase" ∷ "heartbeat_age_seconds" ∷ "heartbeat_monotonic_seconds" ∷ "child"
    ∷ "latest_event_sequence" ∷ "terminal_result" ∷ []

-- a projection, where there is one, has the served fields
abbrev pub Shows : Option Fields → Type 0
Shows none = Unit
Shows (some public) = keys_of public ≡ served_fields

then_some-Shows :
    {A : Type 0} (x : Option A) (k : A → Option Fields)
    → ((a : A) → Shows (k a))
    → Shows (then_some x k)
unfolding then_some
then_some-Shows none k h = tt
then_some-Shows (some a) k h = h a

guarded-Shows : (test : Bool) (rest : Option Fields) → Shows rest → Shows (guarded test rest)
unfolding guarded
guarded-Shows true rest h = h
guarded-Shows false rest h = tt

module _ (numbers : Numbers) where
  status_shown-Shows :
      (a b c d e f : Json)
      → (g h i j k l : Json) → Shows (status_shown numbers a b c d e f g h i j k l)
  unfolding status_shown
  status_shown-Shows a b c d e f g h i j k l = guarded-Shows _ _ (
      then_some-Shows _ _ (λ _. then_some-Shows _ _ (λ _. guarded-Shows _ _ (
        then_some-Shows _ _ (λ _. guarded-Shows _ _ (
          then_some-Shows _ _ (λ _. then_some-Shows _ _ (λ _. then_some-Shows _ _ (λ _.
            then_some-Shows _ _ (λ _. then_some-Shows _ _ (λ _.
              then_some-Shows _ _
                (λ _. then_some-Shows _ _ (λ _. then_some-Shows _ _ (λ _. refl))))))))))))))

  status_fields-Shows : (a : Fields) → Shows (status_fields numbers a)
  unfolding status_fields
  status_fields-Shows a =
      status_shown-Shows (get_field "protocol" a) (get_field "heartbeat_at_unix" a)
        (get_field "state" a) (get_field "phase" a) (get_field "run_id" a)
        (get_field "runner_version" a) (get_field "runner_git_commit" a)
        (get_field "supported_protocol_majors" a) (get_field "heartbeat_monotonic_seconds" a)
        (get_field "child" a) (get_field "latest_event_sequence" a) (get_field "terminal_result" a)

  status_fields-cong :
      (a b : Fields)
      → ((key : String) → contains key read_fields ≡ true → find_field key a ≡ find_field key b)
      → status_fields numbers a ≡ status_fields numbers b
  unfolding status_fields
  status_fields-cong a b h = λ i.
      status_shown numbers (or_null (h "protocol" refl i)) (or_null (h "heartbeat_at_unix" refl i))
        (or_null (h "state" refl i)) (or_null (h "phase" refl i)) (or_null (h "run_id" refl i))
        (or_null (h "runner_version" refl i)) (or_null (h "runner_git_commit" refl i))
        (or_null (h "supported_protocol_majors" refl i))
        (or_null (h "heartbeat_monotonic_seconds" refl i)) (or_null (h "child" refl i))
        (or_null (h "latest_event_sequence" refl i)) (or_null (h "terminal_result" refl i))

  -- The projection of a stored object is decided by the twelve fields that it reads, and what is
  -- served has exactly the twelve served fields, in their order: two stored objects that agree on the
  -- fields that are read are projected alike, whatever else they hold.
  pub public_status-fields :
      (a b : Fields)
      → ((key : String) → contains key read_fields ≡ true → find_field key a ≡ find_field key b)
      → (public_status numbers (object a) ≡ public_status numbers (object b))
        × ((public : Fields)
            → public_status numbers (object a) ≡ some public
            → keys_of public ≡ served_fields)
  unfolding public_status then_some
  public_status-fields a b h =
      (status_fields-cong a b h, λ public q. subst Shows q (status_fields-Shows a))
