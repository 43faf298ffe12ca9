-- ===== src/RunPod/Rejected.antt =====
-- The rejection of an observed pod in runpod_provider.py.
use runpod_jobrunner.Prelude.{◌≡◌, refl, String, List, [], ◌∷◌, arith}
use runpod_jobrunner.Provider.{Answer, returned, raised, rejected, outcome_unknown, failed, escaped}
use runpod_jobrunner.RunPod.{PodObservation, Api}
use runpod_jobrunner.RunPod.Secrets.{Library, read_operation_text, read_maximum_rate}
use runpod_jobrunner.RunPod.Observation.{
  World, storage_mode, checked_observation, check_rate, check_image, check_attached, check_mode,
  delete_rejected_pod, with_value,
}

module _ {W : Type 0} (lib : Library) (api : Api W) (pod : PodObservation) (operation_id : String)
    (w : World W) where
  -- The files are as they were; a pod that passes has cost no call, and a rejection names the pod,
  -- whose deletion was the only call of the client.
  abbrev pub RejectsPod : {A : Type 0} → Answer A × World W → Type 0
  RejectsPod (returned a, after) = after ≡ w
  RejectsPod (raised (rejected m ids), after) =
      (ids ≡ pod.id ∷ [])
      × (after ≡ record { remote = (api.delete_pod pod.id w.remote).1; secrets = w.secrets })
  RejectsPod (raised e, after) = after.secrets ≡ w.secrets

  delete_rejected_pod-RejectsPod :
      (message : String)
      → RejectsPod (delete_rejected_pod lib api {A = PodObservation} pod.id message w)
  unfolding delete_rejected_pod
  delete_rejected_pod-RejectsPod message = ground arith

  check_image-RejectsPod : RejectsPod (check_image lib api pod operation_id w)
  unfolding check_image read_operation_text
  check_image-RejectsPod = grind (arith, delete_rejected_pod-RejectsPod)

  check_rate-RejectsPod : RejectsPod (check_rate lib api pod operation_id w)
  unfolding check_rate read_maximum_rate
  check_rate-RejectsPod = grind (arith, delete_rejected_pod-RejectsPod, check_image-RejectsPod)

  check_attached-RejectsPod : RejectsPod (check_attached lib api pod operation_id w)
  unfolding check_attached read_operation_text
  check_attached-RejectsPod = grind (arith, delete_rejected_pod-RejectsPod, check_rate-RejectsPod)

  check_mode-RejectsPod : (mode : String) → RejectsPod (check_mode lib api pod operation_id mode w)
  unfolding check_mode
  check_mode-RejectsPod mode =
      grind
        (arith, delete_rejected_pod-RejectsPod, check_rate-RejectsPod, check_attached-RejectsPod)

  storage_mode-failed :
      (m : String) (ids : List String)
      → storage_mode lib api operation_id w.secrets ≡ raised (rejected m ids)
      → ⊥
  unfolding storage_mode read_operation_text
  storage_mode-failed m ids h = ground arith

  pub checked-RejectsPod : RejectsPod (checked_observation lib api pod operation_id w)
  unfolding checked_observation
  checked-RejectsPod = mode_of (storage_mode lib api operation_id w.secrets) refl
    where
      mode_of :
          (a : Answer String)
          → storage_mode lib api operation_id w.secrets ≡ a
          → RejectsPod (with_value a w (λ mode. check_mode lib api pod operation_id mode w))
      mode_of (returned mode) m = check_mode-RejectsPod mode
      mode_of (raised (rejected m ids)) h = absurd (storage_mode-failed m ids h)
      mode_of (raised (outcome_unknown m)) h = refl
      mode_of (raised (failed m)) h = refl
      mode_of (raised (escaped m)) h = refl
