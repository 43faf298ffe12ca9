-- ===== src/RunPod/Operations.antt =====
-- The operations of `RunPodProvider` of runpod_provider.py over the client's interface and the policy
-- files, and the provider as the lifecycle's interface.
use runpod_jobrunner.Prelude.{
  String, List, [], ◌∷◌, Option, none, some, Bool, true, not, ◌||◌, concat, contains, is_some,
  if◌then◌else◌,
}
use runpod_jobrunner.Prelude.Spaces.{text_ltb}
use runpod_jobrunner.Provider.{
  Decimal, amount, Answer, returned, raised, rejected, outcome_unknown, failed, escaped,
  ProviderResource, DeleteReceipt,
}
use runpod_jobrunner.RunPod.{
  PodObservation, Api, ApiError, Reply, got, threw, transport_unknown, protocol_error,
}
use runpod_jobrunner.RunPod.Secrets.{
  Library, Secrets, content_of, then_answer, read_operation_text, persist_operation_text,
}
use runpod_jobrunner.RunPod.Observation.{
  World, message_of, environment_value, resource, with_value, checked_observation,
  operation_id_for_pod, same_text,
}

-- `dict.fromkeys`
unfoldable pub distinct : List String → List String → List String
distinct seen [] = []
distinct seen (x ∷ xs) =
    let seen_before = contains x seen in
    let later = distinct (if seen_before then seen else x ∷ seen) xs in
    if seen_before then later else x ∷ later

abbrev pub ids_of_pods : List PodObservation → List String
ids_of_pods [] = []
ids_of_pods (pod ∷ pods) = pod.id ∷ ids_of_pods pods

unfoldable pub least_id : String → List PodObservation → String
least_id id [] = id
least_id id (pod ∷ pods) = least_id (if text_ltb pod.id id then pod.id else id) pods

abbrev pub is_match : String → Option String → PodObservation → Bool
is_match operation_id expected_name pod =
    same_text (environment_value "RUNPOD_JOBRUNNER_OPERATION_ID" pod) operation_id
    || same_text expected_name pod.name

unfoldable pub matching : String → Option String → List PodObservation → List PodObservation
matching operation_id expected_name [] = []
matching operation_id expected_name (pod ∷ pods) =
    let later = matching operation_id expected_name pods in
    if is_match operation_id expected_name pod then pod ∷ later else later

abbrev pub expected_name_of : Answer String → Option String
expected_name_of (returned name) = some name
expected_name_of (raised e) = none

unfoldable pub resources : List PodObservation → String → String → Answer (List ProviderResource)
resources [] operation_id run_id = returned []
resources (pod ∷ pods) operation_id run_id =
    let later = resources pods operation_id run_id in
    elim (resource pod operation_id run_id) [
      | raised e ↦ raised e
      | returned r ↦ elim later [ raised e ↦ raised e | returned rs ↦ returned (r ∷ rs) ]
    ]

module _ {W : Type 0} (lib : Library) (api : Api W) where
  -- the pods in their order, up to the first that is not admitted
  unfoldable pub check_all :
      List PodObservation → String → World W → Answer (List PodObservation) × World W
  check_all [] operation_id w = (returned [], w)
  check_all (pod ∷ pods) operation_id w =
      then_answer (checked_observation lib api pod operation_id w) (λ checked after.
        then_answer (check_all pods operation_id after)
          (λ rest last. (returned (checked ∷ rest), last)))

  -- a rejection names every match
  abbrev pub rejection_of_all : {A : Type 0} → List String → Answer A × World W → Answer A × World W
  rejection_of_all ids (raised (rejected m rejected_ids), w) =
      (raised (rejected m (distinct [] ids)), w)
  rejection_of_all ids answer = answer

  abbrev pub on_secrets : {A : Type 0} → World W → Answer A × Secrets → Answer A × World W
  on_secrets w (a, s) = (a, record { remote = w.remote; secrets = s })

  -- the first resource that is found becomes the operation's
  abbrev pub record_primary : List PodObservation → String → World W → Answer Unit × World W
  record_primary [] operation_id w = (returned tt, w)
  record_primary (pod ∷ pods) operation_id w =
      if is_some (content_of operation_id "resource-id" w.secrets)
      then with_value (read_operation_text operation_id "resource-id" w.secrets) w
          (λ id. (returned tt, w))
      else on_secrets w
          (persist_operation_text operation_id "resource-id" (least_id pod.id pods) w.secrets)

  abbrev pub run_id_of : List PodObservation → String → Secrets → Answer String
  run_id_of [] operation_id s = returned ""
  run_id_of (pod ∷ pods) operation_id s = read_operation_text operation_id "run-id" s

  abbrev pub found_pods :
      String → List PodObservation → World W → Answer (List ProviderResource) × World W
  found_pods operation_id matches w =
      then_answer (rejection_of_all (ids_of_pods matches) (check_all matches operation_id w))
        (λ checked after. with_value (run_id_of checked operation_id after.secrets) after (λ run_id.
          then_answer (record_primary checked operation_id after)
            (λ recorded last. (resources checked operation_id run_id, last))))

  -- `str(error)` of the client's error, as an internal protocol error
  abbrev pub internal_error : {A : Type 0} → ApiError → Answer A
  internal_error (protocol_error m) = raised (failed m)
  internal_error (transport_unknown m) = raised (failed m)
  internal_error e = raised (escaped (message_of e))

  abbrev pub listed :
      String → Secrets → Reply (List PodObservation) × W → Answer (List ProviderResource) × World W
  listed operation_id s (threw e, r) = (internal_error e, record { remote = r; secrets = s })
  listed operation_id s (got pods, r) =
      found_pods operation_id
        (matching operation_id
          (expected_name_of (read_operation_text operation_id "resource-name" s)) pods)
        (record { remote = r; secrets = s })

  unfoldable pub find_resources : String → World W → Answer (List ProviderResource) × World W
  unfolding check_all matching resources distinct least_id
  find_resources operation_id w = listed operation_id w.secrets (api.list_pods w.remote)

  -- the resource of a pod that is admitted under its operation
  abbrev pub admitted_resource :
      PodObservation → String → World W → Answer ProviderResource × World W
  admitted_resource pod operation_id w =
      then_answer (checked_observation lib api pod operation_id w) (λ checked after.
        with_value (read_operation_text operation_id "run-id" after.secrets) after
          (λ run_id. (resource checked operation_id run_id, after)))

  abbrev pub observed :
      {A : Type 0} → PodObservation → (ProviderResource → A) → World W → Answer A × World W
  observed pod result w = with_value (operation_id_for_pod pod w.secrets) w (λ operation_id.
      then_answer (admitted_resource pod operation_id w) (λ r after. (returned (result r), after)))

  abbrev pub get_result :
      Secrets → Reply (Option PodObservation) × W → Answer (Option ProviderResource) × World W
  get_result s (threw e, r) = (internal_error e, record { remote = r; secrets = s })
  get_result s (got none, r) = (returned none, record { remote = r; secrets = s })
  get_result s (got (some pod), r) = observed pod (λ x. some x) (record { remote = r; secrets = s })

  unfoldable pub get : String → World W → Answer (Option ProviderResource) × World W
  get resource_id w = get_result w.secrets (api.get_pod resource_id w.remote)

  -- `str(ProviderOutcomeUnknown(kind, operation_id))`
  abbrev pub unknown_outcome : {A : Type 0} → String → String → Answer A
  unknown_outcome kind operation_id = raised (
      outcome_unknown (
        concat "provider "
          (concat kind (concat " outcome is unknown for operation " operation_id))))

  abbrev pub mutation_error : {A : Type 0} → String → String → ApiError → Answer A
  mutation_error kind operation_id (transport_unknown m) = unknown_outcome kind operation_id
  mutation_error kind operation_id e = internal_error e

  abbrev pub start_result :
      String → Secrets → Reply PodObservation × W → Answer ProviderResource × World W
  start_result operation_id s (threw e, r) =
      (mutation_error "start" operation_id e, record { remote = r; secrets = s })
  start_result operation_id s (got pod, r) =
      observed pod (λ x. x) (record { remote = r; secrets = s })

  unfoldable pub start : String → String → World W → Answer ProviderResource × World W
  start resource_id operation_id w =
      start_result operation_id w.secrets (api.start_pod resource_id w.remote)

  abbrev pub delete_result : String → Secrets → Reply Bool × W → Answer DeleteReceipt × World W
  delete_result operation_id s (threw e, r) =
      (mutation_error "delete" operation_id e, record { remote = r; secrets = s })
  delete_result operation_id s (got existed, r) = (
    returned
        (record { operation_id = operation_id; acknowledged = true; already_absent = not existed }),
    record { remote = r; secrets = s },
  )

  unfoldable pub delete : String → String → World W → Answer DeleteReceipt × World W
  delete resource_id operation_id w =
      delete_result operation_id w.secrets (api.delete_pod resource_id w.remote)

  abbrev pub rate_of : Option ProviderResource → Decimal
  rate_of none = amount 0
  rate_of (some r) = amount r.hourly_rate_usd

  abbrev pub checked_spend : Decimal → Answer Decimal
  checked_spend (amount n) = returned (amount n)
  checked_spend _ = raised (failed "RunPod current spend was invalid")

  abbrev pub account_spend : Secrets → Reply Decimal × W → Answer Decimal × World W
  account_spend s (threw e, r) = (internal_error e, record { remote = r; secrets = s })
  account_spend s (got spend, r) = (checked_spend spend, record { remote = r; secrets = s })

  unfoldable pub current_spend_usd_per_hour : Option String → World W → Answer Decimal × World W
  unfolding get
  current_spend_usd_per_hour none w = account_spend w.secrets (api.current_spend_per_hour w.remote)
  current_spend_usd_per_hour (some resource_id) w =
      then_answer (get resource_id w) (λ found after. (returned (rate_of found), after))
