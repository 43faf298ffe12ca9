-- ===== src/RunPod/Rejections.antt =====
-- `RunPodProvider.create` over `RunPodHTTP` of runpod_provider.py: its rejections.
use runpod_jobrunner.Prelude.{
  ℕ, ◌≡◌, ◌⊎◌, inl, inr, refl, sym, ap, subst, String, List, [], ◌∷◌, Option, none, some, Bool,
  true, false, arith, if◌then◌else◌, ltb,
}
use runpod_jobrunner.Provider.{
  Answer, returned, raised, rejected, outcome_unknown, failed, escaped, ProviderResource,
  ProviderCreateRequest,
}
use runpod_jobrunner.Json.{Fields}
use runpod_jobrunner.RunPod.{
  PodObservation, Reply, got, threw, security, protocol_error, transport_unknown, unhandled,
  value_error,
}
use runpod_jobrunner.RunPod.Http.{Client, delete_pod}
use runpod_jobrunner.RunPod.Create.{create_encrypted_pod, create_network_volume_pod, http_api}
use runpod_jobrunner.RunPod.Secrets.{
  Library, Secrets, then_answer, persist_operation_text, persist_maximum_rate, volume_key,
}
use runpod_jobrunner.RunPod.Spec.{Admission, admission_of}
use runpod_jobrunner.RunPod.Observation.{
  World, checked_observation, delete_rejected_pod, resource, rejection,
}
use runpod_jobrunner.RunPod.Operations.{on_secrets}
use runpod_jobrunner.RunPod.Admit.{
  create, persist_policy, persist_texts, policy_texts, create_admitted, ask_for_pod, created,
  admit_rate, record_created,
}
use runpod_jobrunner.RunPod.Rejected.{RejectsPod, checked-RejectsPod}
use runpod_jobrunner.RunPod.Cleanup.{IsAccounted, creations-IsAccounted}

-- any answer but a rejection
abbrev pub IsNoRejection : {A : Type 0} → Answer A → Type 0
IsNoRejection (raised (rejected m ids)) = ⊥
IsNoRejection _ = Unit

persist-IsNoRejection :
    (id name value : String) (s : Secrets)
    → IsNoRejection (persist_operation_text id name value s).0
unfolding persist_operation_text
persist-IsNoRejection id name value s = ground arith

persist_texts-IsNoRejection :
    (id : String) (texts : List (String × String)) (s : Secrets)
    → IsNoRejection (persist_texts id texts s).0
unfolding persist_texts
persist_texts-IsNoRejection id [] s = tt
persist_texts-IsNoRejection id ((name, value) ∷ rest) s = ground (
  arith,
  persist-IsNoRejection id name value s,
  persist_texts-IsNoRejection id rest (persist_operation_text id name value s).1,
)

persist_maximum_rate-IsNoRejection :
    (lib : Library) (id : String) (rate : ℕ) (s : Secrets)
    → IsNoRejection (persist_maximum_rate lib id rate s).0
unfolding persist_maximum_rate
persist_maximum_rate-IsNoRejection lib id rate s = ground arith

persist_policy-IsNoRejection :
    (lib : Library) (request : ProviderCreateRequest Fields) (admission : Admission) (s : Secrets)
    → IsNoRejection (persist_policy lib request admission s).0
unfolding persist_policy
persist_policy-IsNoRejection lib request admission s = ground (
  arith,
  persist_maximum_rate-IsNoRejection lib request.operation_id admission.maximum_rate s,
  persist_texts-IsNoRejection request.operation_id (policy_texts request admission.pod_request)
      (persist_maximum_rate lib request.operation_id admission.maximum_rate s).1,
)

volume_key-IsNoRejection :
    (lib : Library) (id : String) (s : Secrets) → IsNoRejection (volume_key lib id s).0
unfolding volume_key
volume_key-IsNoRejection lib id s = ground arith

resource-IsNoRejection :
    (pod : PodObservation) (id run_id : String) → IsNoRejection (resource pod id run_id)
unfolding resource
resource-IsNoRejection pod id run_id = ground arith

module _ {W : Type 0} (lib : Library) (c : Client W) (request : ProviderCreateRequest Fields) where
  -- A rejection names no pod, and nothing was sent; or one, whose deletion was the last call.
  abbrev pub Accounts : {A : Type 0} → W → Answer A × World W → Type 0
  Accounts start (raised (rejected m ids), after) =
      ((ids ≡ []) × (after.remote ≡ start))
      ⊎ ((id : String) × (before : W) × (ids ≡ id ∷ [])
          × (after.remote ≡ (delete_pod c id before).1))
  Accounts start _ = Unit

  record_created-Accounts :
      (start : W) (pod : PodObservation) (w : World W)
      → Accounts start (record_created lib (http_api c) request pod w)
  record_created-Accounts start pod w =
      after_check (checked_observation lib (http_api c) pod request.operation_id w)
        (checked-RejectsPod lib (http_api c) pod request.operation_id w)
    where
      after_check :
          (x : Answer PodObservation × World W)
          → RejectsPod lib (http_api c) pod request.operation_id w x
          → Accounts start (
              then_answer x (λ checked w.
                then_answer
                  (on_secrets lib (http_api c) w (
                    persist_operation_text request.operation_id "resource-id" checked.id w.secrets))
                  (λ _ w. (resource checked request.operation_id request.run_id, w))))
      after_check (returned checked, v) q = ground (
        arith,
        persist-IsNoRejection request.operation_id "resource-id" checked.id v.secrets,
        resource-IsNoRejection checked request.operation_id request.run_id,
      )
      after_check (raised (rejected m ids), v) q =
          inr (pod.id, w.remote, q.0, ap (λ x. x.remote) q.1)
      after_check (raised (outcome_unknown m), v) q = tt
      after_check (raised (failed m), v) q = tt
      after_check (raised (escaped m), v) q = tt

  delete_rejected_pod-Accounts :
      (start : W) (id message : String) (w : World W)
      → Accounts start (delete_rejected_pod lib (http_api c) {A = ProviderResource} id message w)
  unfolding delete_rejected_pod
  delete_rejected_pod-Accounts start id message w = after_delete (delete_pod c id w.remote) refl
    where
      after_delete :
          (x : Reply Bool × W)
          → delete_pod c id w.remote ≡ x
          → Accounts start
              (rejection lib (http_api c) {A = ProviderResource} id message x w.secrets)
      after_delete (got existed, r) q = inr (id, w.remote, refl, ap (λ x. x.1) (sym q))
      after_delete (threw (protocol_error m), r) q = inr (id, w.remote, refl, ap (λ x. x.1) (sym q))
      after_delete (threw (transport_unknown m), r) q =
          inr (id, w.remote, refl, ap (λ x. x.1) (sym q))
      after_delete (threw (security m other), r) q = tt
      after_delete (threw (value_error m), r) q = tt
      after_delete (threw (unhandled m), r) q = tt

  created-Accounts :
      (start : W) (maximum_rate : ℕ) (s : Secrets) (cloud : String) (x : Reply PodObservation × W)
      → IsAccounted c cloud start x
      → Accounts start (created lib (http_api c) request maximum_rate s x)
  created-Accounts start maximum_rate s cloud (got pod, r) h = rated pod.cost_per_hour
    where
      limited :
          (b : Bool) (message : String)
          → Accounts start (
              if b
              then delete_rejected_pod lib
                  (http_api c)
                  pod.id
                  message
                  (record { remote = r; secrets = s })
              else record_created lib (http_api c) request pod (record { remote = r; secrets = s }))
      limited true message = delete_rejected_pod-Accounts start pod.id message _
      limited false message = record_created-Accounts start pod _

      rated :
          (cost : Option ℕ)
          → Accounts start (
              admit_rate lib
                (http_api c)
                request
                maximum_rate
                pod
                cost
                (record { remote = r; secrets = s }))
      rated none = delete_rejected_pod-Accounts start pod.id "RunPod pod has no hourly rate" _
      rated (some rate) = limited (ltb maximum_rate rate) _
  created-Accounts start maximum_rate s cloud (threw (security m (some id)), r) h =
      inr (id, h.0, refl, h.1)
  created-Accounts start maximum_rate s cloud (threw (security m none), r) h = inl (refl, h.1)
  created-Accounts start maximum_rate s cloud (threw (protocol_error m), r) h = absurd h
  created-Accounts start maximum_rate s cloud (threw (transport_unknown m), r) h = tt
  created-Accounts start maximum_rate s cloud (threw (value_error m), r) h = tt
  created-Accounts start maximum_rate s cloud (threw (unhandled m), r) h = tt

  asked-Accounts :
      (admission : Admission) (volume : Option String) (w : World W)
      → Accounts w.remote (ask_for_pod lib (http_api c) request admission volume w)
  asked-Accounts admission (some id) w =
      created-Accounts w.remote admission.maximum_rate w.secrets admission.pod_request.cloud_type
        (create_network_volume_pod c admission.pod_request w.remote)
        (creations-IsAccounted c admission.pod_request "" w.remote).1
  asked-Accounts admission none w =
      keyed (volume_key lib request.operation_id w.secrets)
        (volume_key-IsNoRejection lib request.operation_id w.secrets)
    where
      keyed :
          (x : Answer String × Secrets)
          → IsNoRejection x.0
          → Accounts w.remote (
              then_answer (on_secrets lib (http_api c) w x) (λ key w.
                created lib
                  (http_api c)
                  request
                  admission.maximum_rate
                  w.secrets
                  (create_encrypted_pod c admission.pod_request key w.remote)))
      keyed (returned key, t) h =
          created-Accounts w.remote admission.maximum_rate t admission.pod_request.cloud_type
            (create_encrypted_pod c admission.pod_request key w.remote)
            (creations-IsAccounted c admission.pod_request key w.remote).0
      keyed (raised (rejected m ids), t) h = absurd h
      keyed (raised (outcome_unknown m), t) h = tt
      keyed (raised (failed m), t) h = tt
      keyed (raised (escaped m), t) h = tt

  -- A creation that is rejected, for a request that the spec checks admit, over the HTTP client:
  -- either the rejection names no pod and the control plane is as it was, or it names one pod, whose
  -- deletion was the last call to the control plane.
  pub create-Accounts :
      (admission : Admission) (w : World W)
      → admission_of lib request ≡ returned admission
      → Accounts w.remote (create lib (http_api c) request w)
  unfolding create
  create-Accounts admission w q =
      subst (λ x. Accounts w.remote (create_admitted lib (http_api c) request w x)) (sym q)
        (persisted (persist_policy lib request admission w.secrets)
          (persist_policy-IsNoRejection lib request admission w.secrets))
    where
      persisted :
          (x : Answer Unit × Secrets)
          → IsNoRejection x.0
          → Accounts w.remote (
              then_answer (on_secrets lib (http_api c) w x) (λ _ w.
                ask_for_pod lib
                  (http_api c)
                  request
                  admission
                  admission.pod_request.network_volume_id
                  w))
      persisted (returned a, t) h =
          asked-Accounts admission admission.pod_request.network_volume_id
            (record { remote = w.remote; secrets = t })
      persisted (raised (rejected m ids), t) h = absurd h
      persisted (raised (outcome_unknown m), t) h = tt
      persisted (raised (failed m), t) h = tt
      persisted (raised (escaped m), t) h = tt
