-- ===== src/RunPod/Ordered.antt =====
-- `RunPodProvider.create` of runpod_provider.py: the pod that it returns, against the request.
use runpod_jobrunner.Prelude.{
  ℕ, ◌≤◌, ◌≡◌, ◌⊎◌, inl, inr, refl, sym, ap, ◌∙◌, subst, String, Option, none, some, true, false,
  ◌==◌, arith, Bool-cases, ltb,
}
use runpod_jobrunner.Prelude.Spaces.{strip, lstrip, rstrip, is_space}
use runpod_jobrunner.Provider.{Answer, returned, ProviderResource, ProviderCreateRequest}
use runpod_jobrunner.Json.{Fields}
use runpod_jobrunner.RunPod.{PodObservation, Api, Reply, got, threw}
use runpod_jobrunner.RunPod.Secrets.{
  Library, Secrets, read_operation_text, persist_operation_text, volume_key, then_answer,
}
use runpod_jobrunner.RunPod.Spec.{Admission, admission_of}
use runpod_jobrunner.RunPod.Observation.{World, storage_mode, checked_observation, resource}
use runpod_jobrunner.RunPod.Operations.{on_secrets}
use runpod_jobrunner.RunPod.Admit.{
  create, persist_policy, policy_texts, volume_text, storage_mode_of, create_admitted, ask_for_pod,
  created, admit_rate, record_created,
}
use runpod_jobrunner.RunPod.Policy.{volume_key-Keeps}
use runpod_jobrunner.RunPod.Admitted.{
  IsExpected, IsAffordable, IsAdmitted, checked-IsAdmitted, delete_rejected_pod-raises,
}
use runpod_jobrunner.RunPod.Persisted.{
  then_answer-returned, ReadsBack, ReadsBack-Keeps, persist_policy-ReadsBack,
}

storage_mode_of-stripped :
    (volume : Option String) → strip (storage_mode_of volume) ≡ storage_mode_of volume
unfolding strip lstrip rstrip is_space
storage_mode_of-stripped none = refl
storage_mode_of-stripped (some id) = refl

-- The pod has the image and the storage of the request, and a rate within its limit.
pub record IsOrdered (admission : Admission) (pod : PodObservation) : Type 0 where
  pub image : pod.image ≡ some admission.pod_request.image
  pub encrypted : admission.pod_request.network_volume_id ≡ none → pod.volume_encrypted ≡ some true
  pub attached :
      (id : String)
      → admission.pod_request.network_volume_id ≡ some id
      → pod.network_volume_id ≡ some id
  pub rate : IsAffordable pod.cost_per_hour (returned admission.maximum_rate)

expected-is :
    (found : Option String) (policy : Answer String) (value : String)
    → IsExpected found policy
    → policy ≡ returned value
    → found ≡ some value
expected-is found policy value h p = ground arith

-- what the files say of the volume, where the pod is to have one
volume-ReadsBack :
    (op : String) (s : Secrets) (volume : Option String) (id : String)
    → volume ≡ some id
    → strip id ≡ id
    → ReadsBack op s (volume_text volume)
    → read_operation_text op "expected-network-volume-id" s ≡ returned id
volume-ReadsBack op s none id q v reads = absurd (ground arith)
volume-ReadsBack op s (some found) id q v reads = ground (arith, reads.0)

modes_differ : storage_mode_of none ≡ storage_mode_of (some "") → ⊥
modes_differ p = absurd (false_is_true (ap (λ m. m == storage_mode_of (some "")) p))
  where
    false_is_true : false ≡ true → ⊥
    false_is_true q = ground arith

module _ {A B : Type 0} (mode : String) (volume : Option String) where
  own_volume :
      volume ≡ none
      → mode ≡ storage_mode_of volume
      → ((mode ≡ "encrypted-pod-volume") × A) ⊎ ((mode ≡ "network-volume") × B)
      → A
  own_volume q m (inl (_, a)) = a
  own_volume q m (inr (n, b)) = absurd (modes_differ (sym (m ∙ ap storage_mode_of q) ∙ n))

  other_volume :
      (id : String)
      → volume ≡ some id
      → mode ≡ storage_mode_of volume
      → ((mode ≡ "encrypted-pod-volume") × A) ⊎ ((mode ≡ "network-volume") × B)
      → B
  other_volume id q m (inl (n, a)) = absurd (modes_differ (sym n ∙ m ∙ ap storage_mode_of q))
  other_volume id q m (inr (_, b)) = b

module _ {W : Type 0} (lib : Library) (api : Api W) (request : ProviderCreateRequest Fields)
    (admission : Admission)
    (image_stripped : strip admission.pod_request.image ≡ admission.pod_request.image)
    (volume_stripped : (id : String)
      → admission.pod_request.network_volume_id ≡ some id
      → strip id ≡ id) where
  mode-is :
      (s : Secrets) (pod : PodObservation)
      → ReadsBack request.operation_id s (policy_texts request admission.pod_request)
      → (h : IsAdmitted lib api request.operation_id s pod)
      → h.mode ≡ storage_mode_of admission.pod_request.network_volume_id
  unfolding storage_mode
  mode-is s pod reads h =
      let stored =
        reads.1.1.1.0 (storage_mode_of-stripped admission.pod_request.network_volume_id) in
      ground (arith, stored, h.mode_is)

  admitted-IsOrdered :
      (s : Secrets) (pod : PodObservation) (rate : ℕ)
      → ReadsBack request.operation_id s (policy_texts request admission.pod_request)
      → IsAdmitted lib api request.operation_id s pod
      → pod.cost_per_hour ≡ some rate
      → rate ≤ admission.maximum_rate
      → IsOrdered admission pod
  admitted-IsOrdered s pod rate reads h c b = record {
    image =
        expected-is pod.image _ admission.pod_request.image h.image (reads.1.1.0 image_stripped);
    encrypted = λ q. own_volume h.mode _ q (mode-is s pod reads h) h.storage;
    attached = λ id q.
        expected-is pod.network_volume_id _ id
          (other_volume h.mode _ id q (mode-is s pod reads h) h.storage)
          (volume-ReadsBack request.operation_id s admission.pod_request.network_volume_id id q
            (volume_stripped id q) reads.1.1.1.1);
    rate = ground (arith, h.rate);
  }

  record_created-IsOrdered :
      (pod : PodObservation) (rate : ℕ) (w : World W) (r : ProviderResource) (after : World W)
      → ReadsBack request.operation_id w.secrets (policy_texts request admission.pod_request)
      → pod.cost_per_hour ≡ some rate
      → rate ≤ admission.maximum_rate
      → record_created lib api request pod w ≡ (returned r, after)
      → IsOrdered admission pod
        × (r.id ≡ pod.id)
        × (pod.cost_per_hour ≡ some r.hourly_rate_usd)
        × (r.create_operation_id ≡ request.operation_id)
  unfolding resource
  record_created-IsOrdered pod rate w r after reads c b h =
      let id = request.operation_id in
      let (checked, a, k) =
        then_answer-returned (checked_observation lib api pod id w)
          (λ checked u.
            then_answer
              (on_secrets lib api u (persist_operation_text id "resource-id" checked.id u.secrets))
              (λ _ v. (resource checked id request.run_id, v)))
          r after h in
      let u = (checked_observation lib api pod id w).1 in
      let (same, _, admitted) =
        checked-IsAdmitted lib api pod id w checked u (ap (λ x. (x, u)) a) in
      let (_, _, k') =
        then_answer-returned
          (on_secrets lib api u (persist_operation_text id "resource-id" checked.id u.secrets))
          (λ _ v. (resource checked id request.run_id, v)) r after k in
      (
        admitted-IsOrdered w.secrets pod rate reads admitted c b,
        ground (arith, same, k'),
        ground (arith, same, k'),
        ground (arith, same, k'),
      )

  created-IsOrdered :
      (s : Secrets) (reply : Reply PodObservation) (remote : W) (r : ProviderResource)
      (after : World W)
      → ReadsBack request.operation_id s (policy_texts request admission.pod_request)
      → created lib api request admission.maximum_rate s (reply, remote) ≡ (returned r, after)
      → (pod : PodObservation) × IsOrdered admission pod
        × (r.id ≡ pod.id)
        × (pod.cost_per_hour ≡ some r.hourly_rate_usd)
        × (r.create_operation_id ≡ request.operation_id)
  created-IsOrdered s (threw e) remote r after reads h = absurd (ground arith)
  created-IsOrdered s (got pod) remote r after reads h =
      let (ordered, a, b, d) = rated pod.cost_per_hour refl h in (pod, ordered, a, b, d)
    where
      rated :
          (cost : Option ℕ)
          → pod.cost_per_hour ≡ cost
          → admit_rate lib api request admission.maximum_rate pod cost
              (record { remote = remote; secrets = s })
            ≡ (returned r, after)
          → IsOrdered admission pod
            × (r.id ≡ pod.id)
            × (pod.cost_per_hour ≡ some r.hourly_rate_usd)
            × (r.create_operation_id ≡ request.operation_id)
      rated none c k = absurd (delete_rejected_pod-raises lib api _ _ _ r after k)
      rated (some rate) c k = elim (Bool-cases (ltb admission.maximum_rate rate)) [
        | inl b ↦ absurd (delete_rejected_pod-raises lib api _ _ _ r after (rw b at k))
        | inr b ↦ record_created-IsOrdered pod rate _ r after reads c (ground arith) (rw b at k)
      ]

  asked-IsOrdered :
      (volume : Option String) (w : World W) (r : ProviderResource) (after : World W)
      → ReadsBack request.operation_id w.secrets (policy_texts request admission.pod_request)
      → ask_for_pod lib api request admission volume w ≡ (returned r, after)
      → (pod : PodObservation) × IsOrdered admission pod
        × (r.id ≡ pod.id)
        × (pod.cost_per_hour ≡ some r.hourly_rate_usd)
        × (r.create_operation_id ≡ request.operation_id)
  asked-IsOrdered (some id) w r after reads h = created-IsOrdered w.secrets _ _ r after reads h
  asked-IsOrdered none w r after reads h =
      let op = request.operation_id in
      let (key, a, k) =
        then_answer-returned (on_secrets lib api w (volume_key lib op w.secrets))
          (λ key u.
            created lib api request admission.maximum_rate u.secrets
              (api.create_encrypted_pod admission.pod_request key u.remote))
          r after h in
      created-IsOrdered (volume_key lib op w.secrets).1 _ _ r after
        (ReadsBack-Keeps op w.secrets (volume_key lib op w.secrets).1
          (policy_texts request admission.pod_request) (volume_key-Keeps lib op w.secrets) reads)
        k

  -- The pod whose resource `create` returns has the requested image, an hourly rate that is positive
  -- and within the requested limit, and encrypted storage or, where a network volume was requested,
  -- that volume; the resource has the pod's ID and rate, and the operation of the request. The image
  -- and the volume ID of the request have no surrounding white space.
  pub create-IsOrdered :
      (w : World W) (r : ProviderResource) (after : World W)
      → admission_of lib request ≡ returned admission
      → create lib api request w ≡ (returned r, after)
      → (pod : PodObservation) × IsOrdered admission pod
        × (r.id ≡ pod.id)
        × (pod.cost_per_hour ≡ some r.hourly_rate_usd)
        × (r.create_operation_id ≡ request.operation_id)
  unfolding create
  create-IsOrdered w r after q h =
      let (_, a, k) =
        then_answer-returned (on_secrets lib api w (persist_policy lib request admission w.secrets))
          (λ _ u. ask_for_pod lib api request admission admission.pod_request.network_volume_id u) r
          after (subst (λ x. create_admitted lib api request w x ≡ (returned r, after)) q h) in
      let t = (persist_policy lib request admission w.secrets).1 in
      let (_, reads) =
        persist_policy-ReadsBack lib request admission w.secrets t (ap (λ x. (x, t)) a) in
      asked-IsOrdered admission.pod_request.network_volume_id _ r after reads k
