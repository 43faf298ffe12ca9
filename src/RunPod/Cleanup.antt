-- ===== src/RunPod/Cleanup.antt =====
-- The creations of `RunPodHTTP` of runpod_provider.py: their errors, and what has been sent.
use runpod_jobrunner.Prelude.{
  ℕ, ◌≡◌, refl, sym, ap, String, Option, none, some, Bool, true, false, not, nat_eq, is_some,
  if◌then◌else◌, ◌==◌, arith,
}
use runpod_jobrunner.Provider.{Decimal}
use runpod_jobrunner.Json.{
  Json, null, boolean, integer, negative_integer, number, text, array, object, Fields, no_fields,
  field, get_field,
}
use runpod_jobrunner.RunPod.{
  PodObservation, PodCreateRequest, Reply, got, threw, security, protocol_error, transport_unknown,
  unhandled, value_error, then_call,
}
use runpod_jobrunner.RunPod.Texts.{is_volume_id}
use runpod_jobrunner.RunPod.Parse.{parse_pod, parse_cost, parse_network_volume_id}
use runpod_jobrunner.RunPod.Http.{Client, json_request, graphql, delete_pod}
use runpod_jobrunner.RunPod.Create.{
  create_query, create_variables, created_pod, rejection_after, check_encrypted, check_attached,
  encrypted_at, attached_at, create_outcome, create_pod, reject_created_pod, create_encrypted_pod,
  create_network_volume_pod,
}

-- an error of the wire: neither of the client's own checks
abbrev pub IsWire : {A : Type 0} → Reply A → Type 0
IsWire (got a) = Unit
IsWire (threw (protocol_error m)) = Unit
IsWire (threw (transport_unknown m)) = Unit
IsWire (threw (security m id)) = ⊥
IsWire (threw (value_error m)) = ⊥
IsWire (threw (unhandled m)) = Unit

abbrev pub IsUnknown : {A : Type 0} → Reply A → Type 0
IsUnknown (got a) = Unit
IsUnknown (threw (protocol_error m)) = ⊥
IsUnknown (threw (transport_unknown m)) = Unit
IsUnknown (threw (security m id)) = ⊥
IsUnknown (threw (value_error m)) = ⊥
IsUnknown (threw (unhandled m)) = Unit

create_outcome-IsUnknown :
    {W A : Type 0} (x : Reply A × W) → IsWire x.0 → IsUnknown (create_outcome x).0
create_outcome-IsUnknown x h = ground arith

then_call-IsWire :
    {W A B : Type 0} (x : Reply A × W) (k : A → W → Reply B × W)
    → IsWire x.0
    → ((a : A) (w : W) → IsWire (k a w).0)
    → IsWire (then_call x k).0
then_call-IsWire (got a, w) k h g = g a w
then_call-IsWire (threw e, w) k h g = ground arith

parse_pod-IsWire :
    (decimal : String → Option Decimal) (raw : Fields) → IsWire (parse_pod decimal raw)
unfolding parse_pod parse_cost parse_network_volume_id
parse_pod-IsWire decimal raw = ground arith

module _ {W : Type 0} (c : Client W) where
  -- A pod that fails its storage check has had its deletion requested, where the client catches what
  -- the deletion raises; every other error of a creation is an unknown outcome, or comes before
  -- anything was sent.
  abbrev pub IsAccounted : String → W → Reply PodObservation × W → Type 0
  IsAccounted cloud before (got pod, after) = Unit
  IsAccounted cloud before (threw (security m (some id)), after) =
      (w : W) × (after ≡ (delete_pod c id w).1)
  IsAccounted cloud before (threw (security m none), after) =
      ((cloud == "SECURE") ≡ false) × (after ≡ before)
  IsAccounted cloud before (threw (value_error m), after) = after ≡ before
  IsAccounted cloud before (threw (transport_unknown m), after) = Unit
  IsAccounted cloud before (threw (unhandled m), after) = Unit
  IsAccounted cloud before (threw (protocol_error m), after) = ⊥

  json_request-IsWire :
      (method url : String) (payload : Option Json) (allow authorized : Bool) (w : W)
      → IsWire (json_request c method url payload allow authorized w).0
  unfolding json_request
  json_request-IsWire method url payload allow authorized w = ground arith

  graphql-IsWire :
      (query : String) (variables : Fields) (w : W) → IsWire (graphql c query variables w).0
  unfolding graphql
  graphql-IsWire query variables w = grind (arith, json_request-IsWire)

  delete_pod-IsWire : (id : String) (w : W) → IsWire (delete_pod c id w).0
  unfolding delete_pod
  delete_pod-IsWire id w = grind (arith, json_request-IsWire)

  reject_created_pod-IsAccounted :
      (cloud id message : String) (before w : W)
      → IsAccounted cloud before (reject_created_pod c id message w)
  unfolding reject_created_pod
  reject_created_pod-IsAccounted cloud id message before w =
      after_delete (delete_pod c id w) refl (delete_pod-IsWire id w)
    where
      after_delete :
          (x : Reply Bool × W)
          → delete_pod c id w ≡ x
          → IsWire x.0
          → IsAccounted cloud before (rejection_after c id message x)
      after_delete (got existed, r) q k = (w, ap (λ x. x.1) (sym q))
      after_delete (threw (protocol_error m), r) q k = (w, ap (λ x. x.1) (sym q))
      after_delete (threw (transport_unknown m), r) q k = (w, ap (λ x. x.1) (sym q))
      after_delete (threw (unhandled m), r) q k = tt
      after_delete (threw (security m other), r) q k = absurd k
      after_delete (threw (value_error m), r) q k = absurd k

  created_pod-IsWire : (raw : Json) → IsWire (created_pod c raw)
  created_pod-IsWire (object raw) = parse_pod-IsWire c.decimal raw
  created_pod-IsWire null = tt
  created_pod-IsWire (boolean b) = tt
  created_pod-IsWire (integer n) = tt
  created_pod-IsWire (negative_integer n) = tt
  created_pod-IsWire (number d) = tt
  created_pod-IsWire (text s) = tt
  created_pod-IsWire (array items) = tt

  create_pod-IsUnknown :
      (request : PodCreateRequest) (storage : Fields) (w : W)
      → IsUnknown (create_pod c request storage w).0
  unfolding create_pod
  create_pod-IsUnknown request storage w = create_outcome-IsUnknown _ (
      then_call-IsWire (graphql c create_query (create_variables request storage) w)
        (λ result after. (created_pod c (get_field "podFindAndDeployOnDemand" result), after))
        (graphql-IsWire create_query (create_variables request storage) w)
        (λ result after. created_pod-IsWire (get_field "podFindAndDeployOnDemand" result)))

  -- a check of the pod that was created
  then_check-IsAccounted :
      (cloud : String) (before : W) (x : Reply PodObservation × W)
      (k : PodObservation → W → Reply PodObservation × W)
      → IsUnknown x.0
      → ((pod : PodObservation) (w : W) → IsAccounted cloud before (k pod w))
      → IsAccounted cloud before (then_call x k)
  then_check-IsAccounted cloud before (got pod, w) k u h = h pod w
  then_check-IsAccounted cloud before (threw (transport_unknown m), w) k u h = tt
  then_check-IsAccounted cloud before (threw (unhandled m), w) k u h = tt
  then_check-IsAccounted cloud before (threw (protocol_error m), w) k u h = absurd u
  then_check-IsAccounted cloud before (threw (security m id), w) k u h = absurd u
  then_check-IsAccounted cloud before (threw (value_error m), w) k u h = absurd u

  check_encrypted-IsAccounted :
      (cloud : String) (before w : W) (pod : PodObservation)
      → IsAccounted cloud before (check_encrypted c pod w)
  check_encrypted-IsAccounted cloud before w pod = ground (
    arith,
    reject_created_pod-IsAccounted cloud pod.id "RunPod created an unencrypted pod" before w,
  )

  check_attached-IsAccounted :
      (cloud : String) (before w : W) (id : String) (pod : PodObservation)
      → IsAccounted cloud before (check_attached c id pod w)
  check_attached-IsAccounted cloud before w id pod = ground (
    arith,
    reject_created_pod-IsAccounted cloud pod.id
        "RunPod did not prove the requested network volume attachment" before w,
  )

  -- the checks that stand before a request
  guards-IsAccounted :
      (cloud : String) (w : W) (a b d : Bool) (sent : Reply PodObservation × W) (k m n : String)
      → (d ≡ true → (cloud == "SECURE") ≡ false)
      → IsAccounted cloud w sent
      → IsAccounted cloud w (
          if a
          then (threw (value_error k), w)
          else if b
          then (threw (value_error m), w)
          else if d
          then (threw (security n none), w)
          else sent)
  guards-IsAccounted cloud w true b d sent k m n q h = refl
  guards-IsAccounted cloud w false true d sent k m n q h = refl
  guards-IsAccounted cloud w false false true sent k m n q h = (q refl, refl)
  guards-IsAccounted cloud w false false false sent k m n q h = h

  encrypted_at-IsAccounted :
      (request : PodCreateRequest) (key : String) (size : Option ℕ) (w : W)
      → IsAccounted request.cloud_type w (encrypted_at c request key size w)
  encrypted_at-IsAccounted request key none w = refl
  encrypted_at-IsAccounted request key (some gb) w =
      let storage = field "volumeInGb" (integer gb) (field "volumeKey" (text key) no_fields) in
      guards-IsAccounted request.cloud_type w (nat_eq gb 0) (is_some request.network_volume_id)
        (not (request.cloud_type == "SECURE"))
        (then_call (create_pod c request storage w) (λ pod after. check_encrypted c pod after)) _ _
        _ (λ b. ground arith)
        (then_check-IsAccounted request.cloud_type w (create_pod c request storage w)
          (λ pod after. check_encrypted c pod after) (create_pod-IsUnknown request storage w)
          (λ pod after. check_encrypted-IsAccounted request.cloud_type w after pod))

  attached_at-IsAccounted :
      (request : PodCreateRequest) (volume : Option String) (w : W)
      → IsAccounted request.cloud_type w (attached_at c request volume w)
  attached_at-IsAccounted request none w = refl
  attached_at-IsAccounted request (some id) w =
      let storage = field "networkVolumeId" (text id) no_fields in
      guards-IsAccounted request.cloud_type w (not (is_volume_id id)) (is_some request.volume_gb)
        (not (request.cloud_type == "SECURE"))
        (then_call (create_pod c request storage w) (λ pod after. check_attached c id pod after)) _
        _ _ (λ b. ground arith)
        (then_check-IsAccounted request.cloud_type w (create_pod c request storage w)
          (λ pod after. check_attached c id pod after) (create_pod-IsUnknown request storage w)
          (λ pod after. check_attached-IsAccounted request.cloud_type w after id pod))

  -- Each creation of the client returns a pod; or raises a security error that names a pod, with the
  -- request for its deletion as the last call; or leaves the outcome unknown, by the client's error
  -- for that or by an exception of the transport or the JSON parser that the client does not catch;
  -- or has sent nothing. It never raises a plain protocol error.
  pub creations-IsAccounted :
      (request : PodCreateRequest) (key : String) (w : W)
      → IsAccounted request.cloud_type w (create_encrypted_pod c request key w)
        × IsAccounted request.cloud_type w (create_network_volume_pod c request w)
  unfolding create_encrypted_pod create_network_volume_pod
  creations-IsAccounted request key w = (
    ground (arith, encrypted_at-IsAccounted request key request.volume_gb w),
    attached_at-IsAccounted request request.network_volume_id w,
  )
