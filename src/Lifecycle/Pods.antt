-- ===== src/Lifecycle/Pods.antt =====
-- The controller of lifecycle.py and the provider fake of provider.py together: calls in any order,
-- lost outcomes, and crashes between the durable commits and the provider's effects.
pub mod Invariant
pub mod Steps
pub mod Deletion
pub mod Safety
pub mod Closing
mod Tests
use runpod_jobrunner.Prelude.{ℕ, zero, suc, ◌≡◌, String, List, [], ◌∷◌}
use runpod_jobrunner.Provider.Memory.{
  MemoryRunPod, MemorySpec, EffectKind, memory_provider, fail_next_after_effect,
}
use runpod_jobrunner.Lifecycle.State.{RunState, WorkloadResult, Disposition}
use runpod_jobrunner.Lifecycle.Step.{
  Context, Step, Action, commit, create_call, start_call, delete_call,
}
use runpod_jobrunner.Lifecycle.Controller.{initial_state}
use runpod_jobrunner.Lifecycle.History.{
  Call, reconcile_call, workload_call, artifact_call, stop_call, perform,
}

-- A run on disk, and the provider that it pays.
pub record System : Type 0 where
  pub state : RunState
  pub pod : MemoryRunPod

-- The calls of the controller, at the provider as it stands.
pub data Move : Type 0 where
  reconcile_move : Context MemorySpec → Move
  workload_move : WorkloadResult → Move
  artifact_move : Context MemorySpec → Disposition → Move
  stop_move : Context MemorySpec → String → Move

abbrev pub call_at : Move → MemoryRunPod → Call MemorySpec MemoryRunPod
call_at (reconcile_move c) m = reconcile_call c memory_provider m
call_at (workload_move result) m = workload_call result m
call_at (artifact_move c disposition) m = artifact_call c disposition m
call_at (stop_move c reason) m = stop_call c reason m

-- A call has one effect at most, which leaves the provider as the call does: `final`.
abbrev pub follow : MemoryRunPod → System → Action → System
follow final e (commit kind s) = record e { state = s }
follow final e (create_call id) = record e { pod = final }
follow final e (start_call r id) = record e { pod = final }
follow final e (delete_call r id) = record e { pod = final }

-- what is left after the first `n` actions
abbrev pub cut : ℕ → MemoryRunPod → System → List Action → System
cut zero final e actions = e
cut (suc n) final e [] = e
cut (suc n) final e (a ∷ actions) = cut n final (follow final e a) actions

-- `Q` holds after each action.
abbrev pub Throughout : (System → Type 0) → MemoryRunPod → System → List Action → Type 0
Throughout Q final e [] = Unit
Throughout Q final e (a ∷ actions) =
    Q (follow final e a) × Throughout Q final (follow final e a) actions

pub cut-Throughout :
    (Q : System → Type 0) (n : ℕ) (final : MemoryRunPod) (e : System) (actions : List Action)
    → Q e
    → Throughout Q final e actions
    → Q (cut n final e actions)
cut-Throughout Q zero final e actions h k = h
cut-Throughout Q (suc n) final e [] h k = h
cut-Throughout Q (suc n) final e (a ∷ actions) h k =
    cut-Throughout Q n final (follow final e a) actions k.0 k.1

abbrev pub step_at : Move → System → Step MemoryRunPod
step_at move e = perform (call_at move e.pod) e.state

-- Every system that calls, lost outcomes and crashes can reach; the provider starts with no
-- resource.
pub data Arises (run_id : String) (approved : ℕ) : System → Type 0 where
  begin :
      {e : System}
      → e.state ≡ initial_state run_id approved
      → e.pod.resources ≡ []
      → Arises run_id approved e
  move :
      {e f : System} (m : Move) (n : ℕ)
      → Arises run_id approved e
      → f ≡ cut n (step_at m e).world e (step_at m e).actions
      → Arises run_id approved f
  lose_outcome :
      {e f : System} (kind : EffectKind)
      → Arises run_id approved e
      → f ≡ record e { pod = fail_next_after_effect kind e.pod }
      → Arises run_id approved f
