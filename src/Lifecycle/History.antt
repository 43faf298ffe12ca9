-- ===== src/Lifecycle/History.antt =====
-- What happens to a run over time: controller calls in any order, each cut off by a crash after any
-- of its durable commits and provider calls, with whatever the provider answers.
use runpod_jobrunner.Prelude.{ℕ, zero, suc, ◌+◌, ◌≡◌, String, List, [], ◌∷◌}
use runpod_jobrunner.Provider.{Provider}
use runpod_jobrunner.Lifecycle.State.{RunState, WorkloadResult, Disposition}
use runpod_jobrunner.Lifecycle.Step.{
  Context, Step, Action, commit, create_call, start_call, delete_call,
}
use runpod_jobrunner.Lifecycle.Controller.{
  initial_state, reconcile, record_workload_result, record_artifact_disposition, request_stop,
}

-- A run as it can be found on disk, with the number of creates ever sent to the provider.
pub record Track : Type 0 where
  pub state : RunState
  pub creates : ℕ

abbrev pub observe : Track → Action → Track
observe t (commit kind s) = record t { state = s }
observe t (create_call id) = record t { creates = t.creates + 1 }
observe t (start_call r id) = t
observe t (delete_call r id) = t

-- what is left after the first `n` actions
abbrev pub crash : ℕ → Track → List Action → Track
crash zero t actions = t
crash (suc n) t [] = t
crash (suc n) t (a ∷ actions) = crash n (observe t a) actions

-- `Q` holds of each action and of what was on disk before it.
abbrev pub Along : (Track → Action → Type 0) → Track → List Action → Type 0
Along Q t [] = Unit
Along Q t (a ∷ actions) = Q t a × Along Q (observe t a) actions

-- The calls of the controller; time, request and provider may differ from call to call.
pub data Call (Spec W : Type 0) : Type 1 where
  reconcile_call : Context Spec → Provider Spec W → W → Call Spec W
  workload_call : WorkloadResult → W → Call Spec W
  artifact_call : Context Spec → Disposition → W → Call Spec W
  stop_call : Context Spec → String → W → Call Spec W

unfoldable pub perform : {Spec W : Type 0} → Call Spec W → RunState → Step W
perform (reconcile_call c p w) s = reconcile c p s w
perform (workload_call result w) s = record_workload_result result s w
perform (artifact_call c disposition w) s = record_artifact_disposition c disposition s w
perform (stop_call c reason w) s = request_stop c reason s w

-- Every state of the disk that some history of a run can reach.
pub data Reaches (Spec W : Type 0) (run_id : String) (approved : ℕ) : Track → Type 1 where
  start :
      {t : Track}
      → t ≡ record { state = initial_state run_id approved; creates = 0 }
      → Reaches Spec W run_id approved t
  next :
      {t u : Track} (call : Call Spec W) (n : ℕ)
      → Reaches Spec W run_id approved t
      → u ≡ crash n t (perform call t.state).actions
      → Reaches Spec W run_id approved u

-- What every call keeps, at each of its actions, every history keeps.
module _ (P : Track → Type 0) where
  abbrev pub Keeps : Track → Action → Type 0
  Keeps t a = P (observe t a)

  pub crash-P :
      (n : ℕ) (t : Track) (actions : List Action)
      → P t
      → Along Keeps t actions
      → P (crash n t actions)
  crash-P zero t actions h k = h
  crash-P (suc n) t [] h k = h
  crash-P (suc n) t (a ∷ actions) h k = crash-P n (observe t a) actions k.0 k.1
