-- ===== src/Lifecycle/Safety.antt =====
-- What lifecycle.py promises of every run, whatever the provider answers and wherever the
-- controller crashes.
use runpod_jobrunner.Prelude.{ℕ, ◌≤◌, ◌≡◌, String, [], some, true, arith}
use runpod_jobrunner.Lifecycle.State.{RunState, LifecycleState}
use runpod_jobrunner.Lifecycle.Controller.{
  reconcile, record_workload_result, record_artifact_disposition, request_stop,
}
use runpod_jobrunner.Lifecycle.History.{
  Track, Along, Call, reconcile_call, workload_call, artifact_call, stop_call, perform, Reaches,
}
use runpod_jobrunner.Lifecycle.Invariant.{Intended, all_deleted, provision_settled}
use runpod_jobrunner.Lifecycle.Invariant.Calls.{perform-Intended, Reaches-IsBacked, Reaches-IsSound}

module _ {Spec W : Type 0} {run_id : String} {approved : ℕ} {t : Track}
    (r : Reaches Spec W run_id approved t) where
  -- In every history of a run, with every call cut off by a crash at any point and any answers of
  -- the provider, at most one create has been sent to the provider.
  pub creates-le-one : t.creates ≤ 1
  creates-le-one = (Reaches-IsBacked r).once

  -- In every history, whatever call comes next: before a create is sent, the durable state holds
  -- the provision operation with that ID, past its intent, and no create was sent before; before a
  -- start is sent, it holds the start operation with that ID and the resource; before a delete is
  -- sent, it holds the delete operation with that ID, an artifact disposition, and the resource as
  -- the first of the run's resources whose deletion is not acknowledged.
  pub effects-Intended : (call : Call Spec W) → Along Intended t (perform call t.state).actions
  effects-Intended call = perform-Intended call t (Reaches-IsBacked r)

  -- In every history, a closed run has every resource that its state knows acknowledged as deleted,
  -- its provision operation resolved (a known resource, no operation, or a confirmed absence), the
  -- provider's absence observed and zero spend recorded.
  pub closed-proved :
      t.state.lifecycle ≡ LifecycleState.closed
      → (all_deleted t.state ≡ true)
        × (provision_settled t.state ≡ true)
        × (t.state.closeout.provider_not_found ≡ true)
        × (t.state.closeout.current_spend_usd_per_hour ≡ some 0)
  closed-proved e = let h = Reaches-IsSound r in ground (arith, h.proved e, h.acknowledged)

-- the world that a call finds
abbrev pub world_of : {Spec W : Type 0} → Call Spec W → W
world_of (reconcile_call c p w) = w
world_of (workload_call result w) = w
world_of (artifact_call c disposition w) = w
world_of (stop_call c reason w) = w

-- On a closed run no call commits anything or has an effect at the provider, and each leaves the
-- provider's world as it found it, whatever that world records of the calls and queries made.
pub closed-final :
    {Spec W : Type 0} (call : Call Spec W) (s : RunState)
    → s.lifecycle ≡ LifecycleState.closed
    → ((perform call s).actions ≡ []) × ((perform call s).world ≡ world_of call)
unfolding perform reconcile record_workload_result record_artifact_disposition request_stop
closed-final (reconcile_call c p w) s e = (ground arith, ground arith)
closed-final (workload_call result w) s e = (ground arith, ground arith)
closed-final (artifact_call c disposition w) s e = (ground arith, ground arith)
closed-final (stop_call c reason w) s e = (ground arith, ground arith)
