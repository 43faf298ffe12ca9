-- ===== src/Application/Drive.antt =====
-- What `SupervisorEngine.drive` of application.py guarantees.
use runpod_jobrunner.Prelude.{
  ℕ, zero, suc, ◌≤◌, ◌≡◌, refl, inl, inr, String, List, [], ◌∷◌, Option, none, some, true, length,
  arith, Bool-cases,
}
use runpod_jobrunner.Provider.{Provider}
use runpod_jobrunner.Lifecycle.State.{RunState, LifecycleState}
use runpod_jobrunner.Lifecycle.Step.{Context, Action, Result, ok, err}
use runpod_jobrunner.Lifecycle.History.{
  Track, observe, crash, Call, reconcile_call, perform, Reaches, next,
}
use runpod_jobrunner.Lifecycle.Invariant.{all_deleted, provision_settled}
use runpod_jobrunner.Lifecycle.Safety.{creates-le-one, closed-proved}
use runpod_jobrunner.Application.{
  ExecutionObservation, DriveError, Executor, Driven, Pass, returns, raises, continues, settle,
  after_call, record_observed, workload_observed, executed_again, recover, drive_at, drive_pass,
  follow, drive_from, drive, recovery_must_not_dispatch_workload,
}

settle-crash :
    (t : Track) (actions : List Action) → settle t actions ≡ crash (length actions) t actions
settle-crash t [] = refl
settle-crash t (a ∷ actions) = settle-crash (observe t a) actions

-- the disk after a pass that started at `t`
abbrev track_of : {W : Type 0} → Track → Pass W → Track
track_of t returns = t
track_of t (raises e t' w executions) = t'
track_of t (continues o t' w executions) = t'

module _ {Spec W : Type 0} {run_id : String} {approved : ℕ} where
  after_call-Reaches :
      (call : Call Spec W) (o : Option ExecutionObservation) (t : Track)
      (executions : List RunState)
      → Reaches Spec W run_id approved t
      → Reaches Spec W run_id approved (track_of t (after_call call o t executions))
  unfolding after_call
  after_call-Reaches call o t executions r = cases (perform call t.state).result
    where
      cases :
          (result : Result RunState)
          → Reaches Spec W run_id approved (
              track_of t (elim result [
                | ok s ↦
                    continues o
                      (settle t (perform call t.state).actions)
                      (perform call t.state).world
                      executions
                | err e ↦
                    raises
                      (DriveError.lifecycle_error e)
                      (settle t (perform call t.state).actions)
                      (perform call t.state).world
                      executions
              ]))
      cases (ok s) = next call _ r (settle-crash t (perform call t.state).actions)
      cases (err e) = next call _ r (settle-crash t (perform call t.state).actions)

  module _ (p : Provider Spec W) (executor : Executor W) (c : Context Spec) where
    executed_again-Reaches :
        (o : Option ExecutionObservation) (t : Track) (w : W)
        → Reaches Spec W run_id approved t
        → Reaches Spec W run_id approved (track_of t (executed_again p executor c o t w))
    unfolding executed_again record_observed
    executed_again-Reaches none t w r = r
    executed_again-Reaches (some o) t w r = after_call-Reaches _ (some o) t _ r

    recover-Reaches :
        (o : Option ExecutionObservation) (t : Track) (w : W)
        → Reaches Spec W run_id approved t
        → Reaches Spec W run_id approved (track_of t (recover p executor c o t w))
    unfolding recover record_observed
    recover-Reaches none t w r = executed_again-Reaches (executor t.state w).0 t _ r
    recover-Reaches (some o) t w r = after_call-Reaches _ (some o) t _ r

    workload_observed-Reaches :
        (o : Option ExecutionObservation) (t : Track) (w : W)
        → Reaches Spec W run_id approved t
        → Reaches Spec W run_id approved (track_of t (workload_observed p executor c o t w))
    unfolding workload_observed
    workload_observed-Reaches none t w r = r
    workload_observed-Reaches (some o) t w r = after_call-Reaches _ (some o) t _ r

    drive_at-Reaches :
        (lifecycle : LifecycleState) (o : Option ExecutionObservation) (t : Track) (w : W)
        → Reaches Spec W run_id approved t
        → Reaches Spec W run_id approved (track_of t (drive_at p executor c lifecycle o t w))
    unfolding drive_at
    drive_at-Reaches LifecycleState.planned o t w r =
        after_call-Reaches (reconcile_call c p w) o t [] r
    drive_at-Reaches LifecycleState.provisioning o t w r =
        after_call-Reaches (reconcile_call c p w) o t [] r
    drive_at-Reaches LifecycleState.starting o t w r =
        after_call-Reaches (reconcile_call c p w) o t [] r
    drive_at-Reaches LifecycleState.deleting o t w r =
        after_call-Reaches (reconcile_call c p w) o t [] r
    drive_at-Reaches LifecycleState.closed o t w r = r
    drive_at-Reaches LifecycleState.running o t w r =
        workload_observed-Reaches (executor t.state w).0 t (executor t.state w).1 r
    drive_at-Reaches LifecycleState.recovering o t w r =
        elim (Bool-cases (recovery_must_not_dispatch_workload t.state)) [
          | inl e ↦ rw e (after_call-Reaches _ o t [] r)
          | inr e ↦ rw e (recover-Reaches o t w r)
        ]

  follow-Reaches :
      (rest : Option ExecutionObservation → Track → W → Driven W) (t : Track) (w : W)
      (pass : Pass W)
      → ((o : Option ExecutionObservation) (t' : Track) (w' : W)
          → Reaches Spec W run_id approved t'
          → Reaches Spec W run_id approved (rest o t' w').track)
      → Reaches Spec W run_id approved (track_of t pass)
      → Reaches Spec W run_id approved (follow rest t w pass).track
  unfolding follow
  follow-Reaches rest t w returns keeps r = r
  follow-Reaches rest t w (raises e t' w' executions) keeps r = r
  follow-Reaches rest t w (continues o t' w' executions) keeps r = keeps o t' w' r

  module _ (p : Provider Spec W) (executor : Executor W) (contexts : ℕ → Context Spec) where
    drive_from-Reaches :
        (n : ℕ) (o : Option ExecutionObservation) (t : Track) (w : W)
        → Reaches Spec W run_id approved t
        → Reaches Spec W run_id approved (drive_from p executor contexts n o t w).track
    unfolding drive_from drive_pass
    drive_from-Reaches zero o t w r = r
    drive_from-Reaches (suc n) o t w r =
        follow-Reaches (drive_from p executor contexts n) t w
          (drive_at p executor (contexts n) t.state.lifecycle o t w) (drive_from-Reaches n)
          (drive_at-Reaches p executor (contexts n) t.state.lifecycle o t w r)

-- A pass returns only on a closed run.
abbrev ReturnsClosed : {W : Type 0} → Track → Pass W → Type 0
ReturnsClosed t returns = t.state.lifecycle ≡ LifecycleState.closed
ReturnsClosed t _ = Unit

-- A loop that returns leaves a closed run.
abbrev IsClosed : {W : Type 0} → Driven W → Type 0
IsClosed d = d.outcome ≡ none → d.track.state.lifecycle ≡ LifecycleState.closed

follow-IsClosed :
    {W : Type 0} (rest : Option ExecutionObservation → Track → W → Driven W) (t : Track) (w : W)
    (pass : Pass W)
    → ((o : Option ExecutionObservation) (t' : Track) (w' : W) → IsClosed (rest o t' w'))
    → ReturnsClosed t pass
    → IsClosed (follow rest t w pass)
unfolding follow
follow-IsClosed rest t w returns keeps r h = r
follow-IsClosed rest t w (raises e t' w' executions) keeps r h = absurd (ground arith)
follow-IsClosed rest t w (continues o t' w' executions) keeps r h = keeps o t' w' h

module _ {Spec W : Type 0} (p : Provider Spec W) (executor : Executor W) (c : Context Spec) where
  drive_pass-ReturnsClosed :
      (o : Option ExecutionObservation) (t : Track) (w : W)
      → ReturnsClosed t (drive_pass p executor c o t w)
  unfolding drive_pass drive_at workload_observed recover after_call record_observed executed_again
  drive_pass-ReturnsClosed o t w = ground arith

module _ {Spec W : Type 0} (p : Provider Spec W) (executor : Executor W)
    (contexts : ℕ → Context Spec) where
  drive_from-IsClosed :
      (n : ℕ) (o : Option ExecutionObservation) (t : Track) (w : W)
      → IsClosed (drive_from p executor contexts n o t w)
  unfolding drive_from
  drive_from-IsClosed zero o t w = λ h. absurd (ground arith)
  drive_from-IsClosed (suc n) o t w =
      follow-IsClosed (drive_from p executor contexts n) t w
        (drive_pass p executor (contexts n) o t w) (drive_from-IsClosed n)
        (drive_pass-ReturnsClosed p executor (contexts n) o t w)

  -- Started on the disk that any history left, the driver creates at most one pod over that history
  -- and its own passes; where it returns, the run on disk is closed, with every resource
  -- acknowledged as deleted, the provision resolved, the absence observed and zero spend.
  pub drive-closed :
      {run_id : String} {approved : ℕ} (max_steps : ℕ) (t : Track) (w : W)
      → Reaches Spec W run_id approved t
      → ((drive p executor contexts max_steps t w).track.creates ≤ 1)
        × ((drive p executor contexts max_steps t w).outcome ≡ none
            → ((drive p executor contexts max_steps t w).track.state.lifecycle
                ≡ LifecycleState.closed)
              × (all_deleted (drive p executor contexts max_steps t w).track.state ≡ true)
              × (provision_settled (drive p executor contexts max_steps t w).track.state ≡ true)
              × ((drive p executor contexts max_steps t w).track.state.closeout.provider_not_found
                  ≡ true)
              × ((drive p executor contexts max_steps t
                    w).track.state.closeout.current_spend_usd_per_hour
                  ≡ some 0))
  unfolding drive
  drive-closed max_steps t w r =
      let reached = drive_from-Reaches p executor contexts max_steps none t w r in
      (
        creates-le-one reached,
        λ h.
            let closed = drive_from-IsClosed max_steps none t w h in
            let (a, b, c, d) = closed-proved reached closed in (closed, a, b, c, d),
      )
