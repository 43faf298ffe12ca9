-- ===== src/RunPod/Admitted.antt =====
-- The admission of an observed pod in runpod_provider.py.
use runpod_jobrunner.Prelude.{
  ℕ, ◌≤◌, ◌<◌, ◌≡◌, ◌⊎◌, refl, String, Option, some, true, eq_iff, arith,
}
use runpod_jobrunner.Provider.{Answer, returned, raised}
use runpod_jobrunner.RunPod.{PodObservation, Api}
use runpod_jobrunner.RunPod.Secrets.{Library, Secrets, read_operation_text, read_maximum_rate}
use runpod_jobrunner.RunPod.Observation.{
  World, storage_mode, checked_observation, check_rate, check_image, check_attached, check_mode,
  delete_rejected_pod, with_value,
}

-- The value is there, and is the one of the policy.
abbrev pub IsExpected : Option String → Answer String → Type 0
IsExpected (some found) (returned expected) = found ≡ expected
IsExpected _ _ = ⊥

-- The rate is there, positive, and within the admitted one.
abbrev pub IsAffordable : Option ℕ → Answer ℕ → Type 0
IsAffordable (some rate) (returned maximum_rate) = (0 < rate) × (rate ≤ maximum_rate)
IsAffordable _ _ = ⊥

module _ {W : Type 0} (lib : Library) (api : Api W) where
  -- A pod satisfies the policy that the files have of its operation.
  pub record IsAdmitted (operation_id : String) (s : Secrets) (pod : PodObservation) : Type 0 where
    pub mode : String
    pub mode_is : storage_mode lib api operation_id s ≡ returned mode
    pub storage :
        ((mode ≡ "encrypted-pod-volume") × (pod.volume_encrypted ≡ some true))
        ⊎ ((mode ≡ "network-volume")
            × IsExpected pod.network_volume_id
                (read_operation_text operation_id "expected-network-volume-id" s))
    pub rate : IsAffordable pod.cost_per_hour (read_maximum_rate lib operation_id s)
    pub image : IsExpected pod.image (read_operation_text operation_id "expected-image" s)

  pub delete_rejected_pod-raises :
      {A : Type 0} (pod_id message : String) (w : World W) (checked : A) (after : World W)
      → delete_rejected_pod lib api pod_id message w ≡ (returned checked, after)
      → ⊥
  unfolding delete_rejected_pod
  delete_rejected_pod-raises pod_id message w checked after h = ground arith

  module _ (pod : PodObservation) (operation_id : String) (w : World W) where
    check_image-IsExpected :
        (checked : PodObservation) (after : World W)
        → check_image lib api pod operation_id w ≡ (returned checked, after)
        → (checked ≡ pod)
          × (after ≡ w)
          × IsExpected pod.image (read_operation_text operation_id "expected-image" w.secrets)
    unfolding check_image
    check_image-IsExpected checked after h = grind (arith, eq_iff, delete_rejected_pod-raises)

    check_rate-IsAffordable :
        (checked : PodObservation) (after : World W)
        → check_rate lib api pod operation_id w ≡ (returned checked, after)
        → (checked ≡ pod)
          × (after ≡ w)
          × IsAffordable pod.cost_per_hour (read_maximum_rate lib operation_id w.secrets)
          × IsExpected pod.image (read_operation_text operation_id "expected-image" w.secrets)
    unfolding check_rate
    check_rate-IsAffordable checked after h =
        grind (arith, check_image-IsExpected checked after, delete_rejected_pod-raises)

    check_attached-IsExpected :
        (checked : PodObservation) (after : World W)
        → check_attached lib api pod operation_id w ≡ (returned checked, after)
        → (checked ≡ pod)
          × (after ≡ w)
          × IsExpected pod.network_volume_id
              (read_operation_text operation_id "expected-network-volume-id" w.secrets)
          × IsAffordable pod.cost_per_hour (read_maximum_rate lib operation_id w.secrets)
          × IsExpected pod.image (read_operation_text operation_id "expected-image" w.secrets)
    unfolding check_attached
    check_attached-IsExpected checked after h =
        grind (arith, eq_iff, check_rate-IsAffordable checked after, delete_rejected_pod-raises)

    check_mode-IsAdmitted :
        (mode : String) (checked : PodObservation) (after : World W)
        → storage_mode lib api operation_id w.secrets ≡ returned mode
        → check_mode lib api pod operation_id mode w ≡ (returned checked, after)
        → (checked ≡ pod) × (after ≡ w) × IsAdmitted operation_id w.secrets pod
    unfolding check_mode
    check_mode-IsAdmitted mode checked after m h = grind (
      arith,
      eq_iff,
      check_rate-IsAffordable checked after,
      check_attached-IsExpected checked after,
      delete_rejected_pod-raises,
    )

    pub checked-IsAdmitted :
        (checked : PodObservation) (after : World W)
        → checked_observation lib api pod operation_id w ≡ (returned checked, after)
        → (checked ≡ pod) × (after ≡ w) × IsAdmitted operation_id w.secrets pod
    unfolding checked_observation
    checked-IsAdmitted checked after h =
        mode_of (storage_mode lib api operation_id w.secrets) refl h
      where
        mode_of :
            (a : Answer String)
            → storage_mode lib api operation_id w.secrets ≡ a
            → with_value a w (λ mode. check_mode lib api pod operation_id mode w)
              ≡ (returned checked, after)
            → (checked ≡ pod) × (after ≡ w) × IsAdmitted operation_id w.secrets pod
        mode_of (returned mode) m k = check_mode-IsAdmitted mode checked after m k
        mode_of (raised e) m k = absurd (ground arith)
