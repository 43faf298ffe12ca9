-- ===== src/RunPod/Found.antt =====
-- `RunPodProvider.find_resources` of runpod_provider.py: its result, against the listing.
use runpod_jobrunner.Prelude.{
  ◌≡◌, ◌⊎◌, inl, inr, refl, sym, ap, ◌∙◌, subst, String, List, Option, [], ◌∷◌, All, arith, Bool,
  true, false, some, none, eq_iff, ◌==◌,
}
use runpod_jobrunner.Provider.{
  Answer, returned, raised, rejected, outcome_unknown, failed, escaped, ProviderResource,
}
use runpod_jobrunner.RunPod.{Mapping, find, PodObservation, Api, Reply, got, threw}
use runpod_jobrunner.RunPod.Secrets.{Library, then_answer, read_operation_text}
use runpod_jobrunner.RunPod.Observation.{
  World, same_text, checked_observation, resource, with_value,
}
use runpod_jobrunner.RunPod.Operations.{
  find_resources, check_all, matching, expected_name_of, is_match, ids_of_pods, resources, listed,
  found_pods, rejection_of_all, run_id_of, record_primary,
}
use runpod_jobrunner.RunPod.Admitted.{IsAdmitted, checked-IsAdmitted}
use runpod_jobrunner.RunPod.Persisted.{then_answer-returned}

abbrev pub ids_of : List ProviderResource → List String
ids_of [] = []
ids_of (r ∷ rs) = r.id ∷ ids_of rs

abbrev pub AreOf : String → List ProviderResource → Type 0
AreOf operation_id rs = All (λ r. r.create_operation_id ≡ operation_id) rs

resource-id :
    (pod : PodObservation) (operation_id run_id : String) (r : ProviderResource)
    → resource pod operation_id run_id ≡ returned r
    → (r.id ≡ pod.id) × (r.create_operation_id ≡ operation_id)
unfolding resource
resource-id pod operation_id run_id r h = (ground arith, ground arith)

resources-ids :
    (pods : List PodObservation) (operation_id run_id : String) (rs : List ProviderResource)
    → resources pods operation_id run_id ≡ returned rs
    → (ids_of rs ≡ ids_of_pods pods) × AreOf operation_id rs
unfolding resources
resources-ids [] operation_id run_id rs h = (ground arith, ground arith)
resources-ids (pod ∷ pods) operation_id run_id rs h =
    grind (arith, resource-id pod operation_id run_id, resources-ids pods operation_id run_id)

-- a pod of the operation: its environment names the operation, or its name is the recorded one
abbrev pub IsOf : String → Answer String → PodObservation → Type 0
IsOf operation_id recorded pod =
    ((m : Mapping) × (pod.environment ≡ some m)
      × (find "RUNPOD_JOBRUNNER_OPERATION_ID" m ≡ some operation_id))
    ⊎ (recorded ≡ returned pod.name)

-- From a list of pods, in its order, those of the operation and no other.
pub data Selects (operation_id : String) (recorded : Answer String)
    : List PodObservation → List PodObservation → Type 0 where
  done : Selects operation_id recorded [] []
  keep :
      {pod : PodObservation} {pods matches : List PodObservation}
      → IsOf operation_id recorded pod
      → Selects operation_id recorded pods matches
      → Selects operation_id recorded (pod ∷ pods) (pod ∷ matches)
  skip :
      {pod : PodObservation} {pods matches : List PodObservation}
      → ¬ (IsOf operation_id recorded pod)
      → Selects operation_id recorded pods matches
      → Selects operation_id recorded (pod ∷ pods) matches

bool_cases : (b : Bool) → (b ≡ true) ⊎ (b ≡ false)
bool_cases true = inl refl
bool_cases false = inr refl

is_named :
    (recorded : Answer String) (pod : PodObservation)
    → same_text (expected_name_of recorded) pod.name ≡ true
    → recorded ≡ returned pod.name
is_named (returned name) pod h = ap returned ((eq_iff name pod.name).0 h)
is_named (raised e) pod h = absurd (ground arith)

is_match-IsOf :
    (operation_id : String) (recorded : Answer String) (pod : PodObservation)
    → is_match operation_id (expected_name_of recorded) pod ≡ true
    → IsOf operation_id recorded pod
is_match-IsOf operation_id recorded pod h = by_environment pod.environment refl
  where
    by_id :
        (m : Mapping)
        → pod.environment ≡ some m
        → (x : Option String) → find "RUNPOD_JOBRUNNER_OPERATION_ID" m ≡ x
        → IsOf operation_id recorded pod
    by_id m e none q = inr (is_named recorded pod (ground arith))
    by_id m e (some found) q = elim (bool_cases (found == operation_id)) [
      | inl b ↦ inl (m, e, q ∙ ap some ((eq_iff found operation_id).0 b))
      | inr b ↦ inr (is_named recorded pod (ground arith))
    ]

    by_environment : (x : Option Mapping) → pod.environment ≡ x → IsOf operation_id recorded pod
    by_environment none e = inr (is_named recorded pod (ground arith))
    by_environment (some m) e = by_id m e (find "RUNPOD_JOBRUNNER_OPERATION_ID" m) refl

is_match-not :
    (operation_id : String) (recorded : Answer String) (pod : PodObservation)
    → is_match operation_id (expected_name_of recorded) pod ≡ false
    → ¬ (IsOf operation_id recorded pod)
is_match-not operation_id recorded pod h (inl (m, e, f)) =
    absurd (ground (arith, eq_iff operation_id operation_id))
is_match-not operation_id recorded pod h (inr e) = absurd (ground (arith, eq_iff pod.name pod.name))

matching-Selects :
    (operation_id : String) (recorded : Answer String) (pods : List PodObservation)
    → Selects operation_id recorded pods (matching operation_id (expected_name_of recorded) pods)
unfolding matching
matching-Selects operation_id recorded [] = done
matching-Selects operation_id recorded (pod ∷ pods) =
    let later = matching-Selects operation_id recorded pods in
    elim (bool_cases (is_match operation_id (expected_name_of recorded) pod)) [
      | inl y ↦ rw y (keep (is_match-IsOf operation_id recorded pod y) later)
      | inr n ↦ rw n (skip (is_match-not operation_id recorded pod n) later)
    ]

module _ {W : Type 0} (lib : Library) (api : Api W) (operation_id : String) where
  check_all-IsAdmitted :
      (pods checked : List PodObservation) (w after : World W)
      → check_all lib api pods operation_id w ≡ (returned checked, after)
      → (checked ≡ pods) × (after ≡ w) × All (IsAdmitted lib api operation_id w.secrets) pods
  unfolding check_all
  check_all-IsAdmitted [] checked w after h = (ground arith, ground arith, tt)
  check_all-IsAdmitted (pod ∷ pods) checked w after h =
      let u = (checked_observation lib api pod operation_id w).1 in
      let (one, a, k) =
        then_answer-returned (checked_observation lib api pod operation_id w)
          (λ one u.
            then_answer (check_all lib api pods operation_id u)
              (λ rest last. (returned (one ∷ rest), last)))
          checked after h in
      let (same, stays, admitted) =
        checked-IsAdmitted lib api pod operation_id w one u (ap (λ y. (y, u)) a) in
      let v = (check_all lib api pods operation_id u).1 in
      let (rest, b, k') =
        then_answer-returned (check_all lib api pods operation_id u)
          (λ rest last. (returned (one ∷ rest), last)) checked after k in
      let (sames, stay, others) = check_all-IsAdmitted pods rest u v (ap (λ y. (y, v)) b) in
      (
        ground (arith, k', same, sames),
        sym (ap (λ y. y.1) k') ∙ stay ∙ stays,
        (admitted, subst (λ y. All (IsAdmitted lib api operation_id y.secrets) pods) stays others),
      )

  rejection_of_all-returned :
      {A : Type 0} (ids : List String) (x : Answer A × World W) (a : A) (after : World W)
      → rejection_of_all lib api ids x ≡ (returned a, after)
      → x ≡ (returned a, after)
  rejection_of_all-returned ids (returned b, w) a after h = h
  rejection_of_all-returned ids (raised (rejected m others), w) a after h = absurd (ground arith)
  rejection_of_all-returned ids (raised (outcome_unknown m), w) a after h = h
  rejection_of_all-returned ids (raised (failed m), w) a after h = h
  rejection_of_all-returned ids (raised (escaped m), w) a after h = h

  with_value-returned :
      {A B : Type 0} (x : Answer A) (w : World W) (k : A → Answer B × World W) (b : B)
      (after : World W)
      → with_value x w k ≡ (returned b, after)
      → (a : A) × (k a ≡ (returned b, after))
  with_value-returned (returned a) w k b after h = (a, h)
  with_value-returned (raised e) w k b after h = absurd (ground arith)

  record_primary-remote :
      (checked : List PodObservation) (w : World W)
      → (record_primary lib api checked operation_id w).1.remote ≡ w.remote
  unfolding read_operation_text
  record_primary-remote [] w = refl
  record_primary-remote (pod ∷ pods) w = ground arith

  -- The resources are those of the pods, each of which is admitted.
  abbrev pub AreFound : List PodObservation → World W → List ProviderResource → World W → Type 0
  AreFound matches w rs after =
      (ids_of rs ≡ ids_of_pods matches)
      × AreOf operation_id rs
      × All (IsAdmitted lib api operation_id w.secrets) matches
      × (after.remote ≡ w.remote)

  found_pods-AreFound :
      (matches : List PodObservation) (w : World W) (rs : List ProviderResource) (after : World W)
      → found_pods lib api operation_id matches w ≡ (returned rs, after)
      → AreFound matches w rs after
  found_pods-AreFound matches w rs after h =
      let checks = check_all lib api matches operation_id w in
      let guarded = rejection_of_all lib api (ids_of_pods matches) checks in
      let (checked, a, k) =
        then_answer-returned guarded
          (λ checked u. with_value (run_id_of lib api checked operation_id u.secrets) u (λ run_id.
            then_answer (record_primary lib api checked operation_id u)
              (λ recorded last. (resources checked operation_id run_id, last))))
          rs after h in
      let (sames, stays, admitted) = check_all-IsAdmitted matches checked w guarded.1 (
        rejection_of_all-returned (ids_of_pods matches) checks checked guarded.1
          (ap (λ y. (y, guarded.1)) a)) in
      let (run_id, k') =
        with_value-returned (run_id_of lib api checked operation_id guarded.1.secrets) guarded.1
          (λ run_id.
            then_answer (record_primary lib api checked operation_id guarded.1)
              (λ recorded last. (resources checked operation_id run_id, last)))
          rs after k in
      let (_, _, k'') =
        then_answer-returned (record_primary lib api checked operation_id guarded.1)
          (λ recorded last. (resources checked operation_id run_id, last)) rs after k' in
      let (ids, are) = resources-ids checked operation_id run_id rs (ap (λ y. y.0) k'') in
      (
        ids ∙ ap ids_of_pods sames,
        are,
        admitted,
        sym (ap (λ y. y.1.remote) k'')
            ∙ record_primary-remote checked guarded.1
            ∙ ap (λ y. y.remote) stays,
      )

  -- A search for an operation that returns resources has listed the pods, and returns the resources
  -- of exactly the listed pods whose environment names the operation or whose name is the one that
  -- the operation's readable policy records, in their order, all of the operation; each such pod is admitted under the operation's policy, and nothing but the listing was asked of the
  -- control plane.
  pub find_resources-AreFound :
      (w : World W) (rs : List ProviderResource) (after : World W)
      → find_resources lib api operation_id w ≡ (returned rs, after)
      → (pods : List PodObservation) × ((api.list_pods w.remote).0 ≡ got pods)
        × ((matches : List PodObservation) × Selects operation_id
              (read_operation_text operation_id "resource-name" w.secrets)
              pods
              matches
            × AreFound matches
                (record { remote = (api.list_pods w.remote).1; secrets = w.secrets })
                rs
                after)
  unfolding find_resources
  find_resources-AreFound w rs after h = after_list (api.list_pods w.remote).0 refl h
    where
      after_list :
          (x : Reply (List PodObservation))
          → (api.list_pods w.remote).0 ≡ x
          → listed lib api operation_id w.secrets (x, (api.list_pods w.remote).1)
            ≡ (returned rs, after)
          → (pods : List PodObservation) × ((api.list_pods w.remote).0 ≡ got pods)
            × ((matches : List PodObservation) × Selects operation_id
                  (read_operation_text operation_id "resource-name" w.secrets)
                  pods
                  matches
                × AreFound matches
                    (record { remote = (api.list_pods w.remote).1; secrets = w.secrets })
                    rs
                    after)
      after_list (threw e) q k = absurd (ground arith)
      after_list (got pods) q k = (
        pods,
        q,
        (
          _,
          matching-Selects operation_id (read_operation_text operation_id "resource-name" w.secrets)
              pods,
          found_pods-AreFound _ _ rs after k,
        ),
      )
