-- ===== src/RunPod/Tests.antt =====
-- The RunPod provider against a control plane of one pod, and each theorem at a concrete input.
use runpod_jobrunner.Prelude.{
  ℕ, zero, suc, ◌≡◌, refl, String, List, [], ◌∷◌, Option, none, some, arith, Bool, true, false,
  ◌==◌, if◌then◌else◌,
}
use runpod_jobrunner.Prelude.Spaces.{strip, lstrip, rstrip, is_space, text_ltb}
use runpod_jobrunner.Provider.{
  Decimal, amount, returned, ProviderResource, provisioned, ProviderCreateRequest,
}
use runpod_jobrunner.Json.{
  Json, boolean, integer, text, array, object, no_items, item, Fields, no_fields, field, find_field,
}
use runpod_jobrunner.RunPod.{PodObservation, got, put, find}
use runpod_jobrunner.RunPod.Texts.{has_line_break, is_volume_key, all_alphanumeric}
use runpod_jobrunner.RunPod.Http.{
  Client, HttpRequest, Exchange, Parsed, parsed, content, http_error, graphql, json_request,
  list_pods, parse_list,
}
use runpod_jobrunner.RunPod.Create.{
  http_api, create_encrypted_pod, create_network_volume_pod, create_pod, create_variables,
  create_query, environment_items, insert_sorted, sorted_items, joined_ports,
}
use runpod_jobrunner.RunPod.Secrets.{
  Library, Secrets, persist_operation_text, read_operation_text, policy_error, required_decimal,
  persist_maximum_rate, content_of, files_of, set_files, write_new, volume_key, read_maximum_rate,
}
use runpod_jobrunner.RunPod.Spec.{Admission, admission_of}
use runpod_jobrunner.RunPod.Observation.{
  World, checked_observation, check_mode, check_rate, check_image, storage_mode, resource,
  provider_state,
}
use runpod_jobrunner.RunPod.Operations.{find_resources, matching, check_all, resources, least_id}
use runpod_jobrunner.RunPod.Admit.{create, persist_policy, persist_texts}
use runpod_jobrunner.RunPod.Ordered.{IsOrdered, create-IsOrdered}
use runpod_jobrunner.RunPod.Cleanup.{IsAccounted, creations-IsAccounted}
use runpod_jobrunner.RunPod.Rejections.{Accounts, create-Accounts}
use runpod_jobrunner.RunPod.Found.{Selects, AreFound, find_resources-AreFound}
use runpod_jobrunner.RunPod.Parse.{
  parse_pod, parse_cost, parse_entries, parse_environment, parse_network_volume_id,
}
use runpod_jobrunner.RunPod.Policy.{persist-write_once}

abbrev decimal_seven : String → Option Decimal
decimal_seven s = if s == "0.5" then some (amount 500000000) else none

abbrev lib : Library
lib = record {
  decimal = decimal_seven;
  decimal_text = λ n. "0.5";
  fixed_text = λ n. "0.5";
  token_hex = "00112233445566778899aabbccddee";
}

abbrev no_secrets : Secrets
no_secrets = record { is_dir = false; directories = [] }

-- a pod that is encrypted or not
abbrev pod_json : Bool → Json
pod_json encrypted = object (
    field "id" (text "pod-1") (
      field "name" (text "job") (
        field "costPerHr" (text "0.5") (
          field "volumeEncrypted" (boolean encrypted) (
            field "imageName" (text "image@sha256:1") (
              field "env"
                (array (
                  item
                    (object (
                      field "key" (text "RUNPOD_JOBRUNNER_OPERATION_ID")
                        (field "value" (text "op-1") no_fields)))
                    no_items))
                no_fields))))))

abbrev created_json : Bool → Json
created_json encrypted = object (
    field "data" (object (field "podFindAndDeployOnDemand" (pod_json encrypted) no_fields))
      no_fields)

-- The state is the methods that were called.
abbrev answer : HttpRequest → List String → Exchange × List String
answer request log = (
  if request.method == "GET"
      then content (1 ∷ [])
      else if request.method == "POST"
      then content (2 ∷ [])
      else http_error 404 none,
  request.method ∷ log,
)

abbrev decode : Bool → List ℕ → Parsed
decode encrypted (suc zero ∷ rest) = parsed (array (item (pod_json encrypted) no_items))
decode encrypted _ = parsed (created_json encrypted)

abbrev client : Bool → Client (List String)
client encrypted = record {
  api_key = "key";
  open_request = answer;
  loads = decode encrypted;
  decimal = decimal_seven;
  quote = λ s. s;
  number_text = λ n. "404";
}

abbrev request : ProviderCreateRequest Fields
request = record {
  run_id = "run-1";
  operation_id = "op-1";
  resource_name = "job";
  spec = field "volume_gb" (integer 20) (
      field "image" (text "image@sha256:1") (
        field "gpu_type_id" (text "gpu") (
          field "gpu_count" (integer 1) (
            field "container_disk_gb" (integer 20) (
              field "volume_mount_path" (text "/workspace") (
                field "ports" (array no_items) (
                  field "terminate_at" (text "2026-01-01T00:00:00Z")
                    (field "max_hourly_rate_usd" (text "0.5") no_fields))))))));
}

abbrev admission : Admission
admission = record {
  pod_request = record {
    name = "job";
    image = "image@sha256:1";
    gpu_type_id = "gpu";
    gpu_count = 1;
    container_disk_gb = 20;
    volume_gb = some 20;
    volume_mount_path = "/workspace";
    ports = [];
    environment =
        ("RUNPOD_JOBRUNNER_RUN_ID", "run-1") ∷ ("RUNPOD_JOBRUNNER_OPERATION_ID", "op-1") ∷ [];
    terminate_at = "2026-01-01T00:00:00Z";
    network_volume_id = none;
    cloud_type = "SECURE";
  };
  maximum_rate = 500000000;
}

request_admitted : admission_of lib request ≡ returned admission
unfolding admission_of find_field required_decimal put
request_admitted = refl

abbrev before : World (List String)
before = record { remote = []; secrets = no_secrets }

persist-write_once_example :
    let t = (persist_operation_text "op-1" "run-id" "run-1" no_secrets).1 in
    (read_operation_text "op-1" "run-id" t ≡ returned "run-1")
    × ((other : String)
        → (other == "") ≡ false
        → has_line_break other ≡ false
        → persist_operation_text "op-1" "run-id" other t
          ≡ ((if "run-1" == other then returned tt else policy_error "run-id" " changed"), t))
unfolding strip lstrip rstrip is_space persist_operation_text has_line_break content_of find
    files_of
persist-write_once_example = persist-write_once "op-1" "run-id" "run-1" no_secrets refl refl

abbrev created_resource : ProviderResource
created_resource = record {
  id = "pod-1";
  run_id = "run-1";
  create_operation_id = "op-1";
  name = "job";
  state = provisioned;
  hourly_rate_usd = 500000000;
}

abbrev after_create : World (List String)
after_create = (create lib (http_api (client true)) request before).1

created_returned :
    create lib (http_api (client true)) request before ≡ (returned created_resource, after_create)
unfolding is_space lstrip rstrip strip text_ltb find_field find put has_line_break is_volume_key
    all_alphanumeric parse_pod parse_cost parse_entries parse_environment parse_network_volume_id
    graphql json_request list_pods parse_list create_pod create_encrypted_pod create_variables
    create_query environment_items insert_sorted sorted_items joined_ports persist_operation_text
    persist_maximum_rate content_of files_of set_files write_new volume_key read_operation_text
    read_maximum_rate required_decimal admission_of checked_observation check_mode check_rate
    check_image storage_mode resource provider_state create persist_policy persist_texts
created_returned = refl

create-IsOrdered_example :
    (pod : PodObservation) × IsOrdered admission pod
    × (created_resource.id ≡ pod.id)
    × (pod.cost_per_hour ≡ some created_resource.hourly_rate_usd)
    × (created_resource.create_operation_id ≡ request.operation_id)
unfolding strip lstrip rstrip is_space
create-IsOrdered_example =
    create-IsOrdered lib (http_api (client true)) request admission refl
      (λ id q. absurd (ground arith)) before created_resource after_create request_admitted
      created_returned

create-Accounts_example :
    Accounts lib (client false) request [] (create lib (http_api (client false)) request before)
create-Accounts_example =
    create-Accounts lib (client false) request admission before request_admitted

creations-IsAccounted_example :
    IsAccounted
      (client false)
      "SECURE"
      []
      (create_encrypted_pod (client false) admission.pod_request "key" [])
    × IsAccounted
        (client false)
        "SECURE"
        []
        (create_network_volume_pod (client false) admission.pod_request [])
creations-IsAccounted_example = creations-IsAccounted (client false) admission.pod_request "key" []

abbrev after_find : World (List String)
after_find = (find_resources lib (http_api (client true)) "op-1" after_create).1

find_returned :
    find_resources lib (http_api (client true)) "op-1" after_create
    ≡ (returned (created_resource ∷ []), after_find)
unfolding is_space lstrip rstrip strip text_ltb find_field find put has_line_break is_volume_key
    all_alphanumeric parse_pod parse_cost parse_entries parse_environment parse_network_volume_id
    graphql json_request list_pods parse_list create_pod create_encrypted_pod create_variables
    create_query environment_items insert_sorted sorted_items joined_ports persist_operation_text
    persist_maximum_rate content_of files_of set_files write_new volume_key read_operation_text
    read_maximum_rate required_decimal admission_of checked_observation check_mode check_rate
    check_image storage_mode resource provider_state create persist_policy persist_texts
    find_resources check_all matching resources least_id
find_returned = refl

find_resources-AreFound_example :
    (pods : List PodObservation) × (((http_api (client true)).list_pods after_create.remote).0
      ≡ got pods)
    × ((matches : List PodObservation) × Selects "op-1"
          (read_operation_text "op-1" "resource-name" after_create.secrets)
          pods
          matches
        × AreFound lib
            (http_api (client true))
            "op-1"
            matches
            (record {
              remote = ((http_api (client true)).list_pods after_create.remote).1;
              secrets = after_create.secrets;
            })
            (created_resource ∷ [])
            after_find)
find_resources-AreFound_example =
    find_resources-AreFound lib (http_api (client true)) "op-1" after_create (created_resource ∷ [])
      after_find find_returned
