-- ===== src/Lifecycle/Pods/Safety.antt =====
-- The lifecycle of lifecycle.py and the provider fake: the histories that end in a closed run.
use runpod_jobrunner.Prelude.{ℕ, zero, suc, ◌≡◌, refl, sym, ◌∙◌, String, List, [], ◌∷◌, arith}
use runpod_jobrunner.Provider.Memory.{
  MemoryRunPod, MemorySpec, memory_provider, fail_next_after_effect,
}
use runpod_jobrunner.Lifecycle.State.{LifecycleState, WorkloadResult, Disposition}
use runpod_jobrunner.Lifecycle.Step.{Context, Action, commit, create_call, start_call, delete_call}
use runpod_jobrunner.Lifecycle.Controller.{
  initial_state, reconcile, record_workload_result, record_artifact_disposition, request_stop,
}
use runpod_jobrunner.Lifecycle.History.{Track, observe, crash, perform, Reaches, start, next}
use runpod_jobrunner.Lifecycle.Safety.{closed-proved}
use runpod_jobrunner.Lifecycle.Pods.{
  System, Move, reconcile_move, workload_move, artifact_move, stop_move, call_at, step_at, cut,
  Throughout, cut-Throughout, Arises, begin, move, lose_outcome,
}
use runpod_jobrunner.Lifecycle.Pods.Invariant.{IsOwned}
use runpod_jobrunner.Lifecycle.Pods.Steps.{
  intend_provision-IsOwned, reconcile_start-IsOwned, reconcile_provision-IsOwned,
}
use runpod_jobrunner.Lifecycle.Pods.Deletion.{reconcile_delete-IsOwned}

pub reconcile-IsOwned :
    (c : Context MemorySpec) (e : System)
    → IsOwned e
    → Throughout IsOwned
        (reconcile c memory_provider e.state e.pod).world
        e
        (reconcile c memory_provider e.state e.pod).actions
unfolding reconcile
reconcile-IsOwned c e h = grind (
  arith,
  intend_provision-IsOwned c e h,
  reconcile_provision-IsOwned c e h,
  reconcile_start-IsOwned c e h,
  reconcile_delete-IsOwned c e h,
)

module _ (e : System) (h : IsOwned e) (final : MemoryRunPod) where
  record_workload_result-IsOwned :
      (result : WorkloadResult)
      → Throughout IsOwned final e (record_workload_result result e.state e.pod).actions
  unfolding record_workload_result
  record_workload_result-IsOwned result = ground arith

  record_artifact_disposition-IsOwned :
      (c : Context MemorySpec) (disposition : Disposition)
      → Throughout IsOwned final e (record_artifact_disposition c disposition e.state e.pod).actions
  unfolding record_artifact_disposition
  record_artifact_disposition-IsOwned c disposition = ground arith

  pub request_stop-IsOwned :
      (c : Context MemorySpec) (reason : String)
      → Throughout IsOwned final e (request_stop c reason e.state e.pod).actions
  unfolding request_stop
  request_stop-IsOwned c reason = ground arith

step-IsOwned :
    (m : Move) (e : System)
    → IsOwned e
    → Throughout IsOwned (step_at m e).world e (step_at m e).actions
unfolding perform
step-IsOwned (reconcile_move c) e h = reconcile-IsOwned c e h
step-IsOwned (workload_move result) e h = record_workload_result-IsOwned e h _ result
step-IsOwned (artifact_move c disposition) e h =
    record_artifact_disposition-IsOwned e h _ c disposition
step-IsOwned (stop_move c reason) e h = request_stop-IsOwned e h _ c reason

-- the same history, with the creates counted
cut-crash :
    (n : ℕ) (final : MemoryRunPod) (e : System) (t : Track) (actions : List Action)
    → t.state ≡ e.state
    → (crash n t actions).state ≡ (cut n final e actions).state
cut-crash zero final e t actions h = h
cut-crash (suc n) final e t [] h = h
cut-crash (suc n) final e t (commit kind s ∷ actions) h =
    cut-crash n final (record e { state = s }) (record t { state = s }) actions refl
cut-crash (suc n) final e t (create_call id ∷ actions) h =
    cut-crash n final (record e { pod = final }) (observe t (create_call id)) actions h
cut-crash (suc n) final e t (start_call r id ∷ actions) h =
    cut-crash n final (record e { pod = final }) t actions h
cut-crash (suc n) final e t (delete_call r id ∷ actions) h =
    cut-crash n final (record e { pod = final }) t actions h

module _ {run_id : String} {approved : ℕ} where
  pub Arises-IsOwned : {e : System} → Arises run_id approved e → IsOwned e
  unfolding initial_state fail_next_after_effect
  Arises-IsOwned (begin s p) = ground arith
  Arises-IsOwned (move {e = e} m n r q) =
      let h = Arises-IsOwned r in
      rw q (
        cut-Throughout IsOwned n (step_at m e).world e (step_at m e).actions h (step-IsOwned m e h))
  Arises-IsOwned (lose_outcome {e = e} kind r q) = let h = Arises-IsOwned r in rw q (ground arith)

  Arises-Reaches :
      {e : System}
      → Arises run_id approved e
      → (t : Track) × Reaches MemorySpec MemoryRunPod run_id approved t × (t.state ≡ e.state)
  Arises-Reaches (begin s p) =
      (record { state = initial_state run_id approved; creates = 0 }, start refl, sym s)
  Arises-Reaches (move {e = e} m n r q) =
      let (t, reached, same) = Arises-Reaches r in
      (
        crash n t (perform (call_at m e.pod) t.state).actions,
        next (call_at m e.pod) n reached refl,
        rw (q, ← same)
            (cut-crash n (perform (call_at m e.pod) t.state).world
              (record { state = t.state; pod = e.pod }) t
              (perform (call_at m e.pod) t.state).actions refl),
      )
  Arises-Reaches (lose_outcome kind r q) =
      let (t, reached, same) = Arises-Reaches r in (t, reached, same ∙ rw q refl)

  -- Whatever calls are made, in any order and at any times, with any outcomes of effects lost and
  -- with crashes between the commits and the effects: a run that is closed has no resource left at
  -- the provider fake, which began with none.
  pub closed-no-pod :
      {e : System}
      → Arises run_id approved e
      → e.state.lifecycle ≡ LifecycleState.closed
      → e.pod.resources ≡ []
  closed-no-pod {e} r l =
      let (t, reached, same) = Arises-Reaches r in
      let (a, b, found, d) = closed-proved reached (rw same l) in
      let h = Arises-IsOwned r in ground (arith, h.gone)
