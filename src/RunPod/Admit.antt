-- ===== src/RunPod/Admit.antt =====
-- `RunPodProvider.create` of runpod_provider.py, and the provider as the lifecycle's interface.
use runpod_jobrunner.Prelude.{ℕ, String, List, [], ◌∷◌, Option, none, some, ltb, if◌then◌else◌}
use runpod_jobrunner.Provider.{
  Answer, returned, raised, rejected, escaped, ProviderResource, ProviderCreateRequest, Provider,
}
use runpod_jobrunner.Json.{Fields}
use runpod_jobrunner.RunPod.{
  PodObservation, PodCreateRequest, Api, ApiError, Reply, got, threw, protocol_error,
  transport_unknown, unhandled, security, value_error,
}
use runpod_jobrunner.RunPod.Secrets.{
  Library, Secrets, then_answer, persist_operation_text, persist_maximum_rate, volume_key,
}
use runpod_jobrunner.RunPod.Spec.{Admission, admission_of}
use runpod_jobrunner.RunPod.Observation.{
  World, resource, delete_rejected_pod, exceeds_message, checked_observation,
}
use runpod_jobrunner.RunPod.Operations.{
  find_resources, get, start, delete, current_spend_usd_per_hour, on_secrets, unknown_outcome,
}

abbrev pub storage_mode_of : Option String → String
storage_mode_of none = "encrypted-pod-volume"
storage_mode_of (some id) = "network-volume"

abbrev pub volume_text : Option String → List (String × String)
volume_text none = []
volume_text (some id) = ("expected-network-volume-id", id) ∷ []

-- the texts that `create` makes durable, in their order
abbrev pub policy_texts : ProviderCreateRequest Fields → PodCreateRequest → List (String × String)
policy_texts request pod_request =
    ("resource-name", request.resource_name)
    ∷ ("run-id", request.run_id)
    ∷ ("expected-image", pod_request.image)
    ∷ ("storage-mode", storage_mode_of pod_request.network_volume_id)
    ∷ volume_text pod_request.network_volume_id

unfoldable pub persist_texts : String → List (String × String) → Secrets → Answer Unit × Secrets
persist_texts id [] s = (returned tt, s)
persist_texts id ((name, value) ∷ rest) s =
    then_answer (persist_operation_text id name value s) (λ _ s. persist_texts id rest s)

-- what `create` makes durable before it asks for the pod
unfoldable pub persist_policy :
    Library → ProviderCreateRequest Fields → Admission → Secrets → Answer Unit × Secrets
unfolding persist_texts
persist_policy lib request admission s =
    then_answer (persist_maximum_rate lib request.operation_id admission.maximum_rate s)
      (λ _ s. persist_texts request.operation_id (policy_texts request admission.pod_request) s)

module _ {W : Type 0} (lib : Library) (api : Api W) where
  abbrev pub rejected_ids : Option String → List String
  rejected_ids none = []
  rejected_ids (some id) = id ∷ []

  abbrev pub create_error : {A : Type 0} → String → ApiError → Answer A
  create_error operation_id (transport_unknown m) = unknown_outcome lib api "provision" operation_id
  create_error operation_id (security m id) = raised (rejected m (rejected_ids id))
  create_error operation_id (protocol_error m) = unknown_outcome lib api "provision" operation_id
  create_error operation_id (value_error m) = raised (escaped m)
  create_error operation_id (unhandled m) = raised (escaped m)

  -- the pod's policy again, as the files have it, and the record of its ID
  abbrev pub record_created :
      ProviderCreateRequest Fields → PodObservation → World W → Answer ProviderResource × World W
  record_created request pod w =
      then_answer (checked_observation lib api pod request.operation_id w) (λ checked w.
        then_answer
          (on_secrets lib api w
            (persist_operation_text request.operation_id "resource-id" checked.id w.secrets))
          (λ _ w. (resource checked request.operation_id request.run_id, w)))

  abbrev pub admit_rate :
      ProviderCreateRequest Fields
      → ℕ
      → PodObservation
      → Option ℕ
      → World W
      → Answer ProviderResource × World W
  admit_rate request maximum_rate pod none w =
      delete_rejected_pod lib api pod.id "RunPod pod has no hourly rate" w
  admit_rate request maximum_rate pod (some rate) w =
      if ltb maximum_rate rate
      then delete_rejected_pod lib api pod.id (exceeds_message lib api rate maximum_rate) w
      else record_created request pod w

  abbrev pub created :
      ProviderCreateRequest Fields
      → ℕ
      → Secrets
      → Reply PodObservation × W
      → Answer ProviderResource × World W
  created request maximum_rate s (threw e, r) =
      (create_error request.operation_id e, record { remote = r; secrets = s })
  created request maximum_rate s (got pod, r) =
      admit_rate request maximum_rate pod pod.cost_per_hour (record { remote = r; secrets = s })

  abbrev pub ask_for_pod :
      ProviderCreateRequest Fields
      → Admission
      → Option String
      → World W
      → Answer ProviderResource × World W
  ask_for_pod request admission (some id) w =
      created request admission.maximum_rate w.secrets
        (api.create_network_volume_pod admission.pod_request w.remote)
  ask_for_pod request admission none w =
      then_answer (on_secrets lib api w (volume_key lib request.operation_id w.secrets)) (λ key w.
        created request admission.maximum_rate w.secrets
          (api.create_encrypted_pod admission.pod_request key w.remote))

  abbrev pub create_admitted :
      ProviderCreateRequest Fields → World W → Answer Admission → Answer ProviderResource × World W
  create_admitted request w (raised e) = (raised e, w)
  create_admitted request w (returned admission) =
      then_answer (on_secrets lib api w (persist_policy lib request admission w.secrets))
        (λ _ w. ask_for_pod request admission admission.pod_request.network_volume_id w)

  unfoldable pub create : ProviderCreateRequest Fields → World W → Answer ProviderResource × World W
  unfolding persist_policy
  create request w = create_admitted request w (admission_of lib request)

  -- `RunPodProvider` as the lifecycle's `Provider`
  abbrev pub runpod_provider : Provider Fields (World W)
  runpod_provider = record {
    find_resources = find_resources lib api;
    create = create;
    get = get lib api;
    start = start lib api;
    delete = delete lib api;
    current_spend_usd_per_hour = current_spend_usd_per_hour lib api;
  }
