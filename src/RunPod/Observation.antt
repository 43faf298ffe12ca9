-- ===== src/RunPod/Observation.antt =====
-- How `RunPodProvider` of runpod_provider.py admits an observed pod, deletes one that it rejects, and
-- finds the operation that a pod belongs to.
use runpod_jobrunner.Prelude.{
  ℕ, String, List, [], ◌∷◌, Option, none, some, Bool, false, not, ◌||◌, ◌==◌, nat_eq, ltb, concat,
  is_some, if◌then◌else◌,
}
use runpod_jobrunner.Provider.{
  Answer, returned, raised, rejected, failed, escaped, ProviderResource, ProviderResourceState,
  provisioned, starting, running, stopped,
}
use runpod_jobrunner.RunPod.{
  Mapping, find, PodObservation, Api, ApiError, Reply, got, threw, protocol_error,
  transport_unknown, unhandled, security, value_error,
}
use runpod_jobrunner.RunPod.Secrets.{
  Library, Secrets, content_of, read_operation_text, read_maximum_rate,
}

-- the control plane's state, and the policy files
pub record World (W : Type 0) : Type 0 where
  pub remote : W
  pub secrets : Secrets

abbrev pub message_of : ApiError → String
message_of (protocol_error m) = m
message_of (transport_unknown m) = m
message_of (security m id) = m
message_of (value_error m) = m
message_of (unhandled m) = m

-- `_provider_state`
unfoldable pub provider_state : Option String → ProviderResourceState
provider_state none = provisioned
provider_state (some status) =
    if status == "RUNNING"
    then running
    else if status == "RESTARTING"
    then starting
    else if status == "EXITED"
        || (status == "PAUSED" || (status == "DEAD" || status == "TERMINATED"))
    then stopped
    else provisioned

abbrev pub environment_value : String → PodObservation → Option String
environment_value key pod = elim pod.environment [ none ↦ none | some m ↦ find key m ]

abbrev pub resource_with : PodObservation → String → String → Option ℕ → Answer ProviderResource
resource_with pod operation_id run_id none = raised (failed "RunPod pod has no hourly rate")
resource_with pod operation_id run_id (some rate) = returned (record {
  id = pod.id;
  run_id = run_id;
  create_operation_id = operation_id;
  name = pod.name;
  state = provider_state pod.desired_status;
  hourly_rate_usd = rate;
})

-- `_resource`, where an empty observed run ID gives way to that of the pod's environment
unfoldable pub resource : PodObservation → String → String → Answer ProviderResource
resource pod operation_id observed_run_id =
    if not (observed_run_id == "")
    then resource_with pod operation_id observed_run_id pod.cost_per_hour
    else elim (environment_value "RUNPOD_JOBRUNNER_RUN_ID" pod) [
      | none ↦ raised (failed "RunPod pod lacks run identity")
      | some run_id ↦ resource_with pod operation_id run_id pod.cost_per_hour
    ]

abbrev pub same_text : Option String → String → Bool
same_text none expected = false
same_text (some found) expected = found == expected

abbrev pub is_true : Option Bool → Bool
is_true none = false
is_true (some b) = b

-- a value of the policy, or the exception that its read raises
abbrev pub with_value :
    {W A B : Type 0} → Answer A → World W → (A → Answer B × World W) → Answer B × World W
with_value (returned a) w k = k a
with_value (raised e) w k = (raised e, w)

module _ {W : Type 0} (lib : Library) (api : Api W) where
  abbrev pub rejection :
      {A : Type 0} → String → String → Reply Bool × W → Secrets → Answer A × World W
  rejection pod_id message (got existed, r) s = (
    raised (rejected (concat message "; deletion requested") (pod_id ∷ [])),
    record { remote = r; secrets = s },
  )
  rejection pod_id message (threw (protocol_error m), r) s = (
    raised (
        rejected (concat message (concat "; deletion requested; cleanup outcome unknown: " m))
          (pod_id ∷ [])),
    record { remote = r; secrets = s },
  )
  rejection pod_id message (threw (transport_unknown m), r) s = (
    raised (
        rejected (concat message (concat "; deletion requested; cleanup outcome unknown: " m))
          (pod_id ∷ [])),
    record { remote = r; secrets = s },
  )
  rejection pod_id message (threw e, r) s =
      (raised (escaped (message_of e)), record { remote = r; secrets = s })

  -- `_delete_rejected_pod`
  unfoldable pub delete_rejected_pod : {A : Type 0} → String → String → World W → Answer A × World W
  delete_rejected_pod pod_id message w =
      rejection pod_id message (api.delete_pod pod_id w.remote) w.secrets

  unfoldable pub storage_mode : String → Secrets → Answer String
  storage_mode operation_id s = elim (read_operation_text operation_id "storage-mode" s) [
    | returned mode ↦ returned mode
    | raised e ↦
        if is_some (content_of operation_id "volume-key" s)
        then returned "encrypted-pod-volume"
        else raised e
  ]

  unfoldable pub check_image : PodObservation → String → World W → Answer PodObservation × World W
  unfolding delete_rejected_pod
  check_image pod operation_id w =
      with_value (read_operation_text operation_id "expected-image" w.secrets) w (λ expected.
        if same_text pod.image expected
        then (returned pod, w)
        else delete_rejected_pod pod.id "RunPod image identity does not match the admitted digest"
            w)

  abbrev pub exceeds_message : ℕ → ℕ → String
  exceeds_message rate maximum_rate =
      concat "RunPod hourly rate " (
        concat (lib.decimal_text rate)
          (concat " exceeds admitted " (lib.decimal_text maximum_rate)))

  abbrev pub rate_checked :
      PodObservation → String → ℕ → Option ℕ → World W → Answer PodObservation × World W
  rate_checked pod operation_id maximum_rate none w =
      delete_rejected_pod pod.id "RunPod pod has no hourly rate" w
  rate_checked pod operation_id maximum_rate (some rate) w =
      if nat_eq rate 0
      then delete_rejected_pod pod.id "RunPod pod hourly rate is invalid" w
      else if ltb maximum_rate rate
      then delete_rejected_pod pod.id (exceeds_message rate maximum_rate) w
      else check_image pod operation_id w

  unfoldable pub check_rate : PodObservation → String → World W → Answer PodObservation × World W
  unfolding delete_rejected_pod check_image
  check_rate pod operation_id w =
      with_value (read_maximum_rate lib operation_id w.secrets) w
        (λ maximum_rate. rate_checked pod operation_id maximum_rate pod.cost_per_hour w)

  unfoldable pub check_attached :
      PodObservation → String → World W → Answer PodObservation × World W
  unfolding delete_rejected_pod check_rate
  check_attached pod operation_id w =
      with_value (read_operation_text operation_id "expected-network-volume-id" w.secrets) w
        (λ expected.
          if same_text pod.network_volume_id expected
          then check_rate pod operation_id w
          else delete_rejected_pod pod.id
              "RunPod reconciliation could not prove the requested network volume attachment" w)

  unfoldable pub check_mode :
      PodObservation → String → String → World W → Answer PodObservation × World W
  unfolding delete_rejected_pod check_rate check_attached
  check_mode pod operation_id mode w =
      if mode == "encrypted-pod-volume"
      then (if is_true pod.volume_encrypted
          then check_rate pod operation_id w
          else delete_rejected_pod pod.id "RunPod reconciliation could not prove encrypted storage"
              w)
      else if mode == "network-volume"
      then check_attached pod operation_id w
      else delete_rejected_pod pod.id "RunPod storage policy is invalid" w

  -- `_checked_observation`
  unfoldable pub checked_observation :
      PodObservation → String → World W → Answer PodObservation × World W
  unfolding storage_mode check_mode
  checked_observation pod operation_id w =
      with_value (storage_mode operation_id w.secrets) w
        (λ mode. check_mode pod operation_id mode w)

-- the operations whose `resource-id` is the pod's
unfoldable pub operations_of : String → List String → Secrets → List String
operations_of pod_id [] s = []
operations_of pod_id (name ∷ rest) s =
    let later = operations_of pod_id rest s in
    elim (read_operation_text name "resource-id" s) [
      | returned id ↦ if id == pod_id then name ∷ later else later
      | raised e ↦ later
    ]

unfoldable pub names_of : List (String × Mapping) → List String
names_of [] = []
names_of ((name, files) ∷ rest) = name ∷ names_of rest

abbrev pub only_match : List String → Answer String
only_match (operation_id ∷ []) = returned operation_id
only_match _ = raised (failed "RunPod pod lacks unique operation identity")

-- `_operation_id_for_pod`
unfoldable pub operation_id_for_pod : PodObservation → Secrets → Answer String
unfolding operations_of names_of
operation_id_for_pod pod s = elim (environment_value "RUNPOD_JOBRUNNER_OPERATION_ID" pod) [
  | some operation_id ↦ returned operation_id
  | none ↦
      if not s.is_dir
      then raised (failed "RunPod pod lacks create operation identity")
      else only_match (operations_of pod.id (names_of s.directories) s)
]
