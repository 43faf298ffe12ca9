-- ===== src/RunPod/Create.antt =====
-- The creations of `RunPodHTTP` of runpod_provider.py, with the deletion of a pod that fails its
-- storage check, and the client as the interface `_RunPodAPI`.
use runpod_jobrunner.Prelude.{
  ℕ, String, List, [], ◌∷◌, Option, none, some, Bool, true, false, not, ◌==◌, nat_eq, concat,
  is_some, if◌then◌else◌,
}
use runpod_jobrunner.Prelude.Spaces.{text_ltb}
use runpod_jobrunner.Json.{
  Json, boolean, integer, text, array, object, Items, no_items, item, Fields, no_fields, field,
  get_field,
}
use runpod_jobrunner.RunPod.{
  Mapping, PodCreateRequest, PodObservation, Api, ApiError, Reply, got, threw, protocol_error,
  transport_unknown, security, value_error, then_call,
}
use runpod_jobrunner.RunPod.Texts.{is_volume_key, is_volume_id}
use runpod_jobrunner.RunPod.Parse.{parse_pod}
use runpod_jobrunner.RunPod.Http.{
  Client, graphql, delete_pod, list_pods, get_pod, start_pod, current_spend_per_hour,
}

unfoldable pub insert_sorted : String → String → Mapping → Mapping
insert_sorted key value [] = (key, value) ∷ []
insert_sorted key value ((k, v) ∷ rest) =
    let later = insert_sorted key value rest in
    if text_ltb k key then (k, v) ∷ later else (key, value) ∷ (k, v) ∷ rest

-- `sorted(environment.items())`
unfoldable pub sorted_items : Mapping → Mapping
unfolding insert_sorted
sorted_items [] = []
sorted_items ((key, value) ∷ rest) = insert_sorted key value (sorted_items rest)

unfoldable pub environment_items : Mapping → Items
environment_items [] = no_items
environment_items ((key, value) ∷ rest) =
    item (object (field "key" (text key) (field "value" (text value) no_fields)))
      (environment_items rest)

-- `",".join(ports)`
unfoldable pub joined_ports : List String → String
joined_ports [] = ""
joined_ports (port ∷ rest) =
    let later = joined_ports rest in elim rest [ [] ↦ port | _ ↦ concat port (concat "," later) ]

unfoldable pub create_query : String
create_query =
    "\n          mutation CreatePod($input: PodFindAndDeployOnDemandInput!) {\n            podFindAndDeployOnDemand(input: $input) {\n              id name imageName desiredStatus costPerHr volumeEncrypted env\n              volumeInGb volumeMountPath\n              networkVolume { id }\n              machine { dataCenterId secureCloud gpuTypeId currentPricePerGpu }\n            }\n          }\n        "

unfoldable pub create_variables : PodCreateRequest → Fields → Fields
unfolding sorted_items environment_items joined_ports
create_variables request storage =
    field "input"
      (object (
        field "name" (text request.name) (
          field "imageName" (text request.image) (
            field "gpuTypeId" (text request.gpu_type_id) (
              field "gpuCount" (integer request.gpu_count) (
                field "cloudType" (text request.cloud_type) (
                  field "containerDiskInGb" (integer request.container_disk_gb) (
                    field "volumeMountPath" (text request.volume_mount_path) (
                      field "ports" (text (joined_ports request.ports)) (
                        field "startSsh" (boolean true) (
                          field "startJupyter" (boolean false) (
                            field "terminateAfter" (text request.terminate_at) (
                              field "env"
                                (array (environment_items (sorted_items request.environment)))
                                storage)))))))))))))
      no_fields

abbrev pub unknown_create : ApiError → ApiError
unknown_create (protocol_error m) = transport_unknown (concat "RunPod create outcome unknown: " m)
unknown_create e = e

-- Once the request may have been sent, every error of the protocol is an unknown outcome.
abbrev pub create_outcome : {W A : Type 0} → Reply A × W → Reply A × W
create_outcome (got a, w) = (got a, w)
create_outcome (threw e, w) = (threw (unknown_create e), w)

module _ {W : Type 0} (c : Client W) where
  abbrev pub created_pod : Json → Reply PodObservation
  created_pod (object raw) = parse_pod c.decimal raw
  created_pod _ = threw (protocol_error "RunPod create returned no pod")

  unfoldable pub create_pod : PodCreateRequest → Fields → W → Reply PodObservation × W
  create_pod request storage w = create_outcome (
      then_call (graphql c create_query (create_variables request storage) w)
        (λ result after. (created_pod (get_field "podFindAndDeployOnDemand" result), after)))

  abbrev pub rejection_after : {A : Type 0} → String → String → Reply Bool × W → Reply A × W
  rejection_after pod_id message (got existed, w) =
      (threw (security (concat message "; deletion requested") (some pod_id)), w)
  rejection_after pod_id message (threw (protocol_error m), w) = (
    threw (
        security (concat message (concat "; deletion requested; cleanup also failed: " m))
          (some pod_id)),
    w,
  )
  rejection_after pod_id message (threw (transport_unknown m), w) = (
    threw (
        security (concat message (concat "; deletion requested; cleanup also failed: " m))
          (some pod_id)),
    w,
  )
  rejection_after pod_id message (threw e, w) = (threw e, w)

  unfoldable pub reject_created_pod : {A : Type 0} → String → String → W → Reply A × W
  reject_created_pod pod_id message w = rejection_after pod_id message (delete_pod c pod_id w)

  abbrev pub is_encrypted : PodObservation → Bool
  is_encrypted pod = elim pod.volume_encrypted [ some true ↦ true | _ ↦ false ]

  abbrev pub check_encrypted : PodObservation → W → Reply PodObservation × W
  check_encrypted pod w =
      if is_encrypted pod
      then (got pod, w)
      else reject_created_pod pod.id "RunPod created an unencrypted pod" w

  abbrev pub encrypted_at : PodCreateRequest → String → Option ℕ → W → Reply PodObservation × W
  encrypted_at request key none w =
      (threw (value_error "encrypted pod storage requires a positive volume size"), w)
  encrypted_at request key (some gb) w =
      if nat_eq gb 0
      then (threw (value_error "encrypted pod storage requires a positive volume size"), w)
      else if is_some request.network_volume_id
      then (threw (value_error "encrypted pod storage cannot attach a network volume"), w)
      else if not (request.cloud_type == "SECURE")
      then (threw (security "encrypted jobs require Secure Cloud" none), w)
      else then_call
          (create_pod request
            (field "volumeInGb" (integer gb) (field "volumeKey" (text key) no_fields)) w)
          (λ pod after. check_encrypted pod after)

  unfoldable pub create_encrypted_pod : PodCreateRequest → String → W → Reply PodObservation × W
  create_encrypted_pod request key w =
      if not (is_volume_key key)
      then (threw (value_error "volume key must be 1-30 alphanumeric characters"), w)
      else encrypted_at request key request.volume_gb w

  abbrev pub is_attached : String → PodObservation → Bool
  is_attached id pod = elim pod.network_volume_id [ some found ↦ found == id | none ↦ false ]

  abbrev pub check_attached : String → PodObservation → W → Reply PodObservation × W
  check_attached id pod w =
      if is_attached id pod
      then (got pod, w)
      else reject_created_pod pod.id "RunPod did not prove the requested network volume attachment"
          w

  abbrev pub attached_at : PodCreateRequest → Option String → W → Reply PodObservation × W
  attached_at request none w =
      (threw (value_error "network volume ID must be a non-empty provider ID"), w)
  attached_at request (some id) w =
      if not (is_volume_id id)
      then (threw (value_error "network volume ID must be a non-empty provider ID"), w)
      else if is_some request.volume_gb
      then (threw (value_error "a network-volume pod must not request a pod volume disk"), w)
      else if not (request.cloud_type == "SECURE")
      then (threw (security "network volumes require Secure Cloud" none), w)
      else then_call (create_pod request (field "networkVolumeId" (text id) no_fields) w)
          (λ pod after. check_attached id pod after)

  unfoldable pub create_network_volume_pod : PodCreateRequest → W → Reply PodObservation × W
  create_network_volume_pod request w = attached_at request request.network_volume_id w

  abbrev pub http_api : Api W
  http_api = record {
    create_encrypted_pod = create_encrypted_pod;
    create_network_volume_pod = create_network_volume_pod;
    list_pods = list_pods c;
    get_pod = get_pod c;
    start_pod = start_pod c;
    delete_pod = delete_pod c;
    current_spend_per_hour = current_spend_per_hour c;
  }
