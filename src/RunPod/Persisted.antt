-- ===== src/RunPod/Persisted.antt =====
-- What `RunPodProvider.create` of runpod_provider.py makes durable before it asks for a pod.
use runpod_jobrunner.Prelude.{◌≡◌, refl, ap, subst, String, List, [], ◌∷◌, arith}
use runpod_jobrunner.Prelude.Spaces.{strip}
use runpod_jobrunner.Provider.{Answer, returned, raised, ProviderCreateRequest}
use runpod_jobrunner.Json.{Fields}
use runpod_jobrunner.RunPod.Secrets.{
  Library, Secrets, read_operation_text, persist_operation_text, persist_maximum_rate, then_answer,
}
use runpod_jobrunner.RunPod.Spec.{Admission}
use runpod_jobrunner.RunPod.Admit.{persist_policy, persist_texts, policy_texts}
use runpod_jobrunner.RunPod.Policy.{
  Keeps, Keeps-trans, persist-Keeps, persist-reads, persist_maximum_rate-Keeps,
}

pub then_answer-returned :
    {S A B : Type 0} (x : Answer A × S) (k : A → S → Answer B × S) (b : B) (t : S)
    → then_answer x k ≡ (returned b, t)
    → (a : A) × (x.0 ≡ returned a) × (k a x.1 ≡ (returned b, t))
then_answer-returned (returned a, s) k b t h = (a, refl, h)
then_answer-returned (raised e, s) k b t h = absurd (ground arith)

pub read-Keeps :
    (s t : Secrets) (id name value : String)
    → Keeps s t
    → read_operation_text id name s ≡ returned value
    → read_operation_text id name t ≡ returned value
unfolding read_operation_text
read-Keeps s t id name value k h = grind (arith, k id name)

-- each text that is its own stripped form reads back
abbrev pub ReadsBack : String → Secrets → List (String × String) → Type 0
ReadsBack id t [] = Unit
ReadsBack id t ((name, value) ∷ rest) =
    (strip value ≡ value → read_operation_text id name t ≡ returned value) × ReadsBack id t rest

pub persist_texts-ReadsBack :
    (id : String) (texts : List (String × String)) (s t : Secrets)
    → persist_texts id texts s ≡ (returned tt, t)
    → Keeps s t × ReadsBack id t texts
unfolding persist_texts
persist_texts-ReadsBack id [] s t h = (subst (Keeps s) (ap (λ x. x.1) h) (λ id name c p. p), tt)
persist_texts-ReadsBack id ((name, value) ∷ rest) s t h =
    let (_, a, k) =
      then_answer-returned (persist_operation_text id name value s) (λ _ u. persist_texts id rest u)
        tt t h in
    let u = (persist_operation_text id name value s).1 in
    let (kept, reads) = persist_texts-ReadsBack id rest u t k in
    (
      Keeps-trans s u t (persist-Keeps id name value s) kept,
      (λ v. read-Keeps u t id name value kept (persist-reads id name value s v a), reads),
    )

pub persist_policy-ReadsBack :
    (lib : Library) (request : ProviderCreateRequest Fields) (admission : Admission) (s t : Secrets)
    → persist_policy lib request admission s ≡ (returned tt, t)
    → Keeps s t × ReadsBack request.operation_id t (policy_texts request admission.pod_request)
unfolding persist_policy
persist_policy-ReadsBack lib request admission s t h =
    let id = request.operation_id in
    let (_, a, k) =
      then_answer-returned (persist_maximum_rate lib id admission.maximum_rate s)
        (λ _ u. persist_texts id (policy_texts request admission.pod_request) u) tt t h in
    let u = (persist_maximum_rate lib id admission.maximum_rate s).1 in
    let (kept, reads) =
      persist_texts-ReadsBack id (policy_texts request admission.pod_request) u t k in
    (Keeps-trans s u t (persist_maximum_rate-Keeps lib id s admission.maximum_rate) kept, reads)

pub ReadsBack-Keeps :
    (op : String) (s t : Secrets) (texts : List (String × String))
    → Keeps s t
    → ReadsBack op s texts
    → ReadsBack op t texts
ReadsBack-Keeps op s t [] k reads = tt
ReadsBack-Keeps op s t ((name, value) ∷ rest) k reads =
    ((λ v. read-Keeps s t op name value k (reads.0 v)), ReadsBack-Keeps op s t rest k reads.1)
