-- ===== src/RunPod.antt =====
-- The types of runpod_provider.py: the pods that the control plane reports, the requests and the
-- errors of its client, and the client's interface `_RunPodAPI`.
pub mod Parse
pub mod Texts
pub mod Http
pub mod Create
pub mod Secrets
pub mod Spec
pub mod Observation
pub mod Operations
pub mod Admit
pub mod Policy
pub mod Admitted
pub mod Rejected
pub mod Cleanup
pub mod Persisted
pub mod Rejections
pub mod Found
mod Tests
pub mod Ordered
use runpod_jobrunner.Prelude.{
  ℕ, String, List, [], ◌∷◌, Option, none, some, Bool, ◌==◌, if◌then◌else◌,
}
use runpod_jobrunner.Provider.{Decimal}
use runpod_jobrunner.Json.{Fields}

-- a dictionary of texts, with unique keys
abbrev pub Mapping : Type 0
Mapping = List (String × String)

unfoldable pub find : String → Mapping → Option String
find key [] = none
find key ((k, v) ∷ rest) = let later = find key rest in if k == key then some v else later

-- `mapping[key] = value`
unfoldable pub put : String → String → Mapping → Mapping
put key value [] = (key, value) ∷ []
put key value ((k, v) ∷ rest) =
    let later = put key value rest in if k == key then (key, value) ∷ rest else (k, v) ∷ later

pub record PodCreateRequest : Type 0 where
  pub name : String
  pub image : String
  pub gpu_type_id : String
  pub gpu_count : ℕ
  pub container_disk_gb : ℕ
  pub volume_gb : Option ℕ
  pub volume_mount_path : String
  pub ports : List String
  pub environment : Mapping
  pub terminate_at : String
  pub network_volume_id : Option String
  pub cloud_type : String

-- The client parses the rate into an amount that is finite and not negative, in billionths.
pub record PodObservation : Type 0 where
  pub id : String
  pub name : String
  pub desired_status : Option String
  pub cost_per_hour : Option ℕ
  pub volume_encrypted : Option Bool
  pub network_volume_id : Option String
  pub image : Option String
  pub public_ip : Option String
  pub port_mappings : Option Fields
  pub environment : Option Mapping

-- `ProviderProtocolError`, its child `RunPodTransportOutcomeUnknown`, `SecurityInvariantError` with
-- its resource ID, `ValueError`, and any other exception, which the client does not catch.
pub data ApiError : Type 0 where
  protocol_error : String → ApiError
  transport_unknown : String → ApiError
  security : String → Option String → ApiError
  value_error : String → ApiError
  unhandled : String → ApiError

pub data Reply (A : Type 0) : Type 0 where
  got : A → Reply A
  threw : ApiError → Reply A

abbrev pub then_parse : {A B : Type 0} → Reply A → (A → Reply B) → Reply B
then_parse (got a) k = k a
then_parse (threw e) k = threw e

abbrev pub then_call : {W A B : Type 0} → Reply A × W → (A → W → Reply B × W) → Reply B × W
then_call (got a, w) k = k a w
then_call (threw e, w) k = (threw e, w)

-- `_RunPodAPI`: a call answers, and may change the control plane's state whether it returns or
-- raises.
pub record Api (W : Type 0) : Type 0 where
  pub create_encrypted_pod : PodCreateRequest → String → W → Reply PodObservation × W
  pub create_network_volume_pod : PodCreateRequest → W → Reply PodObservation × W
  pub list_pods : W → Reply (List PodObservation) × W
  pub get_pod : String → W → Reply (Option PodObservation) × W
  pub start_pod : String → W → Reply PodObservation × W
  pub delete_pod : String → W → Reply Bool × W
  pub current_spend_per_hour : W → Reply Decimal × W
