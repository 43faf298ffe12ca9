-- ===== src/Application.antt =====
-- src/runpod_jobrunner/application.py: the loop of `SupervisorEngine.drive`, which drives a run's
-- lifecycle and workload until its closeout. A pass of the loop reads the state from disk; each of
-- its calls of the controller commits as in Lifecycle. The executor and the provider are parameters.
pub mod Drive
pub mod Executions
mod Tests
use runpod_jobrunner.Prelude.{
  ℕ, zero, suc, String, List, [], ◌∷◌, ◌++◌, Option, none, some, Bool, true, false, not, is_empty,
  if◌then◌else◌,
}
use runpod_jobrunner.Provider.{Provider}
use runpod_jobrunner.Lifecycle.State.{
  RunState, LifecycleState, WorkloadResult, ArtifactDisposition, Disposition, RecoveryReason,
  duplicate_provider_resources, provision_dispatch_unresolved, resource_disappeared_before_start,
}
use runpod_jobrunner.Lifecycle.Step.{Context, Step, Error, Action, Result, ok, err}
use runpod_jobrunner.Lifecycle.History.{
  Track, observe, Call, reconcile_call, workload_call, artifact_call, stop_call, perform,
}

pub record ExecutionObservation : Type 0 where
  pub result : WorkloadResult
  pub disposition : ArtifactDisposition
  pub detail : String

-- What `drive` raises: `ApplicationError` after `max_steps` passes, an error of the controller, or
-- whatever the executor raises.
pub data DriveError : Type 0 where
  did_not_close : DriveError
  lifecycle_error : Error → DriveError
  executor_error : DriveError

-- the three reasons of the set in `_recovery_must_not_dispatch_workload` are all the reasons there are
abbrev pub forbids_dispatch : Option RecoveryReason → Bool
forbids_dispatch none = false
forbids_dispatch (some resource_disappeared_before_start) = true
forbids_dispatch (some duplicate_provider_resources) = true
forbids_dispatch (some provision_dispatch_unresolved) = true

abbrev pub any_quarantined : Option (List String) → Bool
any_quarantined none = false
any_quarantined (some ids) = not (is_empty ids)

unfoldable pub recovery_must_not_dispatch_workload : RunState → Bool
recovery_must_not_dispatch_workload s = elim s.workload_result [
  | none ↦ true
  | some result ↦
      if forbids_dispatch s.recovery_reason
      then true
      else any_quarantined s.quarantined_resource_ids
]

-- `str(state.get("recovery_reason") or "quarantined resources")`
abbrev pub recovery_detail : Option RecoveryReason → String
recovery_detail none = "fail-closed recovery: quarantined resources"
recovery_detail (some resource_disappeared_before_start) =
    "fail-closed recovery: resource_disappeared_before_start"
recovery_detail (some duplicate_provider_resources) =
    "fail-closed recovery: duplicate_provider_resources"
recovery_detail (some provision_dispatch_unresolved) =
    "fail-closed recovery: provision_dispatch_unresolved"

-- What the executor does: it returns an observation, or raises.
abbrev pub Executor : Type 0 → Type 0
Executor W = RunState → W → Option ExecutionObservation × W

-- What a run of the loop leaves: the result, the disk, the world, and the durable states at which
-- the executor was called.
pub record Driven (W : Type 0) : Type 0 where
  pub outcome : Option DriveError
  pub track : Track
  pub world : W
  pub executions : List RunState

-- What a pass of the loop does.
pub data Pass (W : Type 0) : Type 0 where
  returns : Pass W
  raises : DriveError → Track → W → List RunState → Pass W
  continues : Option ExecutionObservation → Track → W → List RunState → Pass W

-- every action of a call reaches the disk
abbrev pub settle : Track → List Action → Track
settle t [] = t
settle t (a ∷ actions) = settle (observe t a) actions

module _ {W : Type 0} where
  unfoldable pub after_call :
      {Spec : Type 0} → Call Spec W → Option ExecutionObservation → Track → List RunState → Pass W
  after_call call observation t executions =
      let step = perform call t.state in
      elim step.result [
        | ok s ↦ continues observation (settle t step.actions) step.world executions
        | err e ↦ raises (lifecycle_error e) (settle t step.actions) step.world executions
      ]

  -- `request` is the run's; `c` is what the pass reads besides the state
  module _ {Spec : Type 0} (p : Provider Spec W) (executor : Executor W) (c : Context Spec) where
    unfoldable pub record_observed : ExecutionObservation → Track → W → List RunState → Pass W
    unfolding after_call
    record_observed o t w executions =
        after_call (artifact_call c (record { status = o.disposition; detail = some o.detail }) w)
          (some o) t executions

    unfoldable pub workload_observed : Option ExecutionObservation → Track → W → Pass W
    unfolding after_call
    workload_observed none t w = raises executor_error t w (t.state ∷ [])
    workload_observed (some o) t w =
        after_call {Spec = Spec} (workload_call o.result w) (some o) t (t.state ∷ [])

    unfoldable pub executed_again : Option ExecutionObservation → Track → W → Pass W
    unfolding record_observed
    executed_again none t w = raises executor_error t w (t.state ∷ [])
    executed_again (some o) t w = record_observed o t w (t.state ∷ [])

    unfoldable pub recover : Option ExecutionObservation → Track → W → Pass W
    unfolding record_observed executed_again
    recover (some o) t w = record_observed o t w []
    recover none t w = let (answer, w') = executor t.state w in executed_again answer t w'

    -- the branches of the loop's body, by the lifecycle that was read
    unfoldable pub drive_at : LifecycleState → Option ExecutionObservation → Track → W → Pass W
    unfolding workload_observed recover after_call
    drive_at LifecycleState.closed observation t w = returns
    drive_at LifecycleState.planned observation t w =
        after_call (reconcile_call c p w) observation t []
    drive_at LifecycleState.provisioning observation t w =
        after_call (reconcile_call c p w) observation t []
    drive_at LifecycleState.starting observation t w =
        after_call (reconcile_call c p w) observation t []
    drive_at LifecycleState.deleting observation t w =
        after_call (reconcile_call c p w) observation t []
    drive_at LifecycleState.running observation t w =
        let (answer, w') = executor t.state w in workload_observed answer t w'
    drive_at LifecycleState.recovering observation t w =
        if recovery_must_not_dispatch_workload t.state
        then after_call (stop_call c (recovery_detail t.state.recovery_reason) w) observation t []
        else recover observation t w

    unfoldable pub drive_pass : Option ExecutionObservation → Track → W → Pass W
    unfolding drive_at
    drive_pass observation t w = drive_at t.state.lifecycle observation t w

abbrev pub executed_before : {W : Type 0} → List RunState → Driven W → Driven W
executed_before earlier d = record d { executions = earlier ++ d.executions }

abbrev pub ended : {W : Type 0} → Option DriveError → Track → W → List RunState → Driven W
ended outcome t w executions = record {
  outcome = outcome;
  track = t;
  world = w;
  executions = executions;
}

-- after a pass that started at `t`: `rest` is the loop from the next pass on
unfoldable pub follow :
    {W : Type 0}
    → (Option ExecutionObservation → Track → W → Driven W)
    → Track
    → W
    → Pass W
    → Driven W
follow rest t w returns = ended none t w []
follow rest t w (raises e t' w' executions) = ended (some e) t' w' executions
follow rest t w (continues observation t' w' executions) =
    executed_before executions (rest observation t' w')

module _ {Spec W : Type 0} (p : Provider Spec W) (executor : Executor W)
    (contexts : ℕ → Context Spec) where
  -- the loop, with the passes that are left; `contexts` gives what each pass reads
  unfoldable pub drive_from : ℕ → Option ExecutionObservation → Track → W → Driven W
  unfolding follow
  drive_from zero observation t w = ended (some did_not_close) t w []
  drive_from (suc n) observation t w =
      follow (drive_from n) t w (drive_pass p executor (contexts n) observation t w)

  unfoldable pub drive : ℕ → Track → W → Driven W
  unfolding drive_from
  drive max_steps t w = drive_from max_steps none t w
