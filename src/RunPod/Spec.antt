-- ===== src/RunPod/Spec.antt =====
-- How runpod_provider.py reads a provider spec: the checks of its fields, and the pod request that
-- `RunPodProvider.create` makes of it before anything is written or sent.
use runpod_jobrunner.Prelude.{
  ℕ, String, List, [], ◌∷◌, Option, none, some, not, ◌==◌, nat_eq, concat, is_some, if◌then◌else◌,
}
use runpod_jobrunner.Provider.{Answer, returned, raised, failed, ProviderCreateRequest}
use runpod_jobrunner.Json.{
  Json, integer, text, array, object, Items, no_items, item, Fields, no_fields, field, find_field,
  get_field,
}
use runpod_jobrunner.RunPod.{Mapping, put, PodCreateRequest}
use runpod_jobrunner.RunPod.Texts.{is_volume_id}
use runpod_jobrunner.RunPod.Secrets.{Library, then_value, required_decimal}

abbrev pub spec_error : {A : Type 0} → String → String → Answer A
spec_error key problem = raised (failed (concat "provider spec " (concat key problem)))

unfoldable pub required_string : Fields → String → Answer String
required_string spec key = elim (find_field key spec) [
  | some (text value) ↦ if value == "" then spec_error key " must be a string" else returned value
  | _ ↦ spec_error key " must be a string"
]

unfoldable pub positive_integer : Fields → String → Answer ℕ
positive_integer spec key = elim (find_field key spec) [
  | some (integer n) ↦
      if nat_eq n 0 then spec_error key " must be a positive integer" else returned n
  | _ ↦ spec_error key " must be a positive integer"
]

-- the items where each is a text that is not empty
unfoldable pub string_items : Items → Option (List String)
string_items no_items = some []
string_items (item (text value) rest) =
    let later = string_items rest in
    if value == "" then none else elim later [ none ↦ none | some values ↦ some (value ∷ values) ]
string_items (item _ rest) = none

abbrev pub string_list : String → Option (List String) → Answer (List String)
string_list name none = spec_error name " must be a string array"
string_list name (some values) = returned values

unfoldable pub string_tuple : Json → String → Answer (List String)
unfolding string_items
string_tuple (array items) name = string_list name (string_items items)
string_tuple _ name = spec_error name " must be a string array"

-- the members where each is a text
unfoldable pub string_members : Fields → Option Mapping
string_members no_fields = some []
string_members (field key (text value) rest) = elim (string_members rest) [
  | none ↦ none
  | some members ↦ some ((key, value) ∷ members)
]
string_members (field key _ rest) = none

abbrev pub string_map : String → Option Mapping → Answer Mapping
string_map name none = spec_error name " must be a string map"
string_map name (some members) = returned members

unfoldable pub string_mapping : Json → String → Answer Mapping
unfolding string_members
string_mapping (object members) name = string_map name (string_members members)
string_mapping _ name = spec_error name " must be a string map"

abbrev pub environment_field : Fields → Json
environment_field spec = elim (find_field "environment" spec) [
  | none ↦ object no_fields
  | some value ↦ value
]

-- a network volume, or the size of a volume of the pod's own
pub record Storage : Type 0 where
  pub network_volume_id : Option String
  pub volume_gb : Option ℕ

unfoldable pub storage_of : Fields → Answer Storage
unfolding required_string positive_integer
storage_of spec =
    if is_some (find_field "network_volume_id" spec)
    then then_value (required_string spec "network_volume_id") (λ id.
      if not (is_volume_id id)
      then spec_error "network_volume_id" " must be a non-empty provider ID"
      else if is_some (find_field "volume_gb" spec)
      then raised (failed "provider spec cannot request both network_volume_id and volume_gb")
      else returned (record { network_volume_id = some id; volume_gb = none }))
    else then_value (positive_integer spec "volume_gb")
        (λ gb. returned (record { network_volume_id = none; volume_gb = some gb }))

unfoldable pub pod_request_of :
    ProviderCreateRequest Fields → Storage → Mapping → Answer PodCreateRequest
unfolding required_string positive_integer string_tuple
pod_request_of request storage environment =
    then_value (required_string request.spec "image") (λ image.
      then_value (required_string request.spec "gpu_type_id") (λ gpu_type_id.
        then_value (positive_integer request.spec "gpu_count") (λ gpu_count.
          then_value (positive_integer request.spec "container_disk_gb") (λ container_disk_gb.
            then_value (required_string request.spec "volume_mount_path") (λ volume_mount_path.
              then_value (string_tuple (get_field "ports" request.spec) "ports") (λ ports.
                then_value (required_string request.spec "terminate_at") (λ terminate_at.
                  returned (record {
                    name = request.resource_name;
                    image = image;
                    gpu_type_id = gpu_type_id;
                    gpu_count = gpu_count;
                    container_disk_gb = container_disk_gb;
                    volume_gb = storage.volume_gb;
                    volume_mount_path = volume_mount_path;
                    ports = ports;
                    environment = environment;
                    terminate_at = terminate_at;
                    network_volume_id = storage.network_volume_id;
                    cloud_type = "SECURE";
                  }))))))))

-- the pod request and the highest admitted rate
pub record Admission : Type 0 where
  pub pod_request : PodCreateRequest
  pub maximum_rate : ℕ

unfoldable pub admission_of : Library → ProviderCreateRequest Fields → Answer Admission
unfolding storage_of pod_request_of string_mapping
admission_of lib request = then_value (storage_of request.spec) (λ storage.
    then_value (string_mapping (environment_field request.spec) "environment") (λ environment.
      then_value
        (pod_request_of request storage (
          put "RUNPOD_JOBRUNNER_OPERATION_ID" request.operation_id
            (put "RUNPOD_JOBRUNNER_RUN_ID" request.run_id environment)))
        (λ pod_request.
          then_value (required_decimal lib request.spec "max_hourly_rate_usd") (λ maximum_rate.
            returned (record { pod_request = pod_request; maximum_rate = maximum_rate })))))
