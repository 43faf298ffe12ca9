-- ===== src/Application/Executions.antt =====
-- When `SupervisorEngine.drive` of application.py calls the executor.
use runpod_jobrunner.Prelude.{
  ℕ, zero, suc, ◌≡◌, ◌⊎◌, inr, List, [], ◌∷◌, ◌++◌, Option, none, true, false, is_some, All, arith,
}
use runpod_jobrunner.Provider.{Provider}
use runpod_jobrunner.Lifecycle.State.{RunState, LifecycleState}
use runpod_jobrunner.Lifecycle.Step.{Context}
use runpod_jobrunner.Lifecycle.History.{Track, Call}
use runpod_jobrunner.Application.{
  ExecutionObservation, Executor, Driven, Pass, returns, raises, continues, after_call,
  record_observed, workload_observed, executed_again, recover, drive_at, drive_pass, follow,
  drive_from, drive, recovery_must_not_dispatch_workload, forbids_dispatch, any_quarantined,
}

-- The durable states at which the workload may be run: a running pod, or a recovery whose workload
-- had run, with no cause that keeps it from being asked again and no quarantined resource.
abbrev pub MayExecute : RunState → Type 0
MayExecute s =
    (s.lifecycle ≡ LifecycleState.running)
    ⊎ ((s.lifecycle ≡ LifecycleState.recovering)
        × (is_some s.workload_result ≡ true)
        × (forbids_dispatch s.recovery_reason ≡ false)
        × (any_quarantined s.quarantined_resource_ids ≡ false))

abbrev executions_of : {W : Type 0} → Pass W → List RunState
executions_of returns = []
executions_of (raises e t w executions) = executions
executions_of (continues o t w executions) = executions

module _ {Spec W : Type 0} (p : Provider Spec W) (executor : Executor W) (c : Context Spec) where
  after_call-executions :
      (call : Call Spec W) (o : Option ExecutionObservation) (t : Track)
      (executions : List RunState)
      → executions_of (after_call call o t executions) ≡ executions
  unfolding after_call
  after_call-executions call o t executions = ground arith

  recovery_lem :
      (s : RunState)
      → s.lifecycle ≡ LifecycleState.recovering
      → recovery_must_not_dispatch_workload s ≡ false
      → MayExecute s
  unfolding recovery_must_not_dispatch_workload
  recovery_lem s l h = inr (ground arith)

  drive_pass-executions :
      (o : Option ExecutionObservation) (t : Track) (w : W)
      → All MayExecute (executions_of (drive_pass p executor c o t w))
  unfolding drive_pass drive_at recover record_observed executed_again workload_observed
  drive_pass-executions o t w = grind (arith, after_call-executions, recovery_lem)

All-++ : (xs ys : List RunState) → All MayExecute xs → All MayExecute ys → All MayExecute (xs ++ ys)
All-++ [] ys h k = k
All-++ (x ∷ xs) ys h k = (h.0, All-++ xs ys h.1 k)

follow-executions :
    {W : Type 0} (rest : Option ExecutionObservation → Track → W → Driven W) (t : Track) (w : W)
    (pass : Pass W)
    → ((o : Option ExecutionObservation) (t' : Track) (w' : W)
        → All MayExecute (rest o t' w').executions)
    → All MayExecute (executions_of pass)
    → All MayExecute (follow rest t w pass).executions
unfolding follow
follow-executions rest t w returns keeps r = r
follow-executions rest t w (raises e t' w' executions) keeps r = r
follow-executions rest t w (continues o t' w' executions) keeps r =
    All-++ executions (rest o t' w').executions r (keeps o t' w')

module _ {Spec W : Type 0} (p : Provider Spec W) (executor : Executor W)
    (contexts : ℕ → Context Spec) where
  drive_from-executions :
      (n : ℕ) (o : Option ExecutionObservation) (t : Track) (w : W)
      → All MayExecute (drive_from p executor contexts n o t w).executions
  unfolding drive_from
  drive_from-executions zero o t w = tt
  drive_from-executions (suc n) o t w =
      follow-executions (drive_from p executor contexts n) t w
        (drive_pass p executor (contexts n) o t w) (drive_from-executions n)
        (drive_pass-executions p executor (contexts n) o t w)

  -- Whatever the provider and the executor do, the driver hands a run to the executor only where the
  -- durable state says that its pod is running, or that its workload has run, with no recovery
  -- reason that forbids it and no quarantined resource.
  pub drive-executions :
      (max_steps : ℕ) (t : Track) (w : W)
      → All MayExecute (drive p executor contexts max_steps t w).executions
  unfolding drive
  drive-executions max_steps t w = drive_from-executions max_steps none t w
