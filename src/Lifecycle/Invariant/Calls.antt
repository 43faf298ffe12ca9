-- ===== src/Lifecycle/Invariant/Calls.antt =====
-- Every call of the controller keeps the invariants, and so does every history of calls and crashes.
use runpod_jobrunner.Prelude.{arith, ℕ, String}
use runpod_jobrunner.Provider.{Provider}
use runpod_jobrunner.Lifecycle.Step.{Context}
use runpod_jobrunner.Lifecycle.Controller.{
  initial_state, reconcile, record_workload_result, record_artifact_disposition, request_stop,
}
use runpod_jobrunner.Lifecycle.History.{
  Track, Along, Keeps, Call, reconcile_call, workload_call, artifact_call, stop_call, perform,
  Reaches, start, next, crash-P,
}
use runpod_jobrunner.Lifecycle.Invariant.{IsBacked, IsSound, Intended}
use runpod_jobrunner.Lifecycle.Invariant.Steps.{
  intend_provision-IsBacked, intend_provision-IsSound, intend_provision-Intended,
  reconcile_provision-IsBacked, reconcile_provision-IsSound, reconcile_provision-Intended,
  reconcile_start-IsBacked, reconcile_start-IsSound, reconcile_start-Intended,
}
use runpod_jobrunner.Lifecycle.Invariant.Deletion.{
  reconcile_delete-IsBacked, reconcile_delete-IsSound, reconcile_delete-Intended,
}

module _ {Spec W : Type 0} (c : Context Spec) (p : Provider Spec W) (t : Track) (w : W) where
  reconcile-IsBacked : IsBacked t → Along (Keeps IsBacked) t (reconcile c p t.state w).actions
  unfolding reconcile
  reconcile-IsBacked h = ground (
    arith,
    intend_provision-IsBacked c t w h,
    reconcile_provision-IsBacked c p t w h,
    reconcile_start-IsBacked c p t w h,
    reconcile_delete-IsBacked c p t w h,
  )

  reconcile-IsSound : IsSound t → Along (Keeps IsSound) t (reconcile c p t.state w).actions
  unfolding reconcile
  reconcile-IsSound h = ground (
    arith,
    intend_provision-IsSound c t w h,
    reconcile_provision-IsSound c p t w h,
    reconcile_start-IsSound c p t w h,
    reconcile_delete-IsSound c p t w h,
  )

  reconcile-Intended : IsBacked t → Along Intended t (reconcile c p t.state w).actions
  unfolding reconcile
  reconcile-Intended h = ground (
    arith,
    intend_provision-Intended c t w,
    reconcile_provision-Intended c p t w h,
    reconcile_start-Intended c p t w,
    reconcile_delete-Intended c p t w,
  )

pub perform-IsBacked :
    {Spec W : Type 0} (call : Call Spec W) (t : Track)
    → IsBacked t
    → Along (Keeps IsBacked) t (perform call t.state).actions
unfolding perform record_workload_result record_artifact_disposition request_stop
perform-IsBacked (reconcile_call c p w) t h = reconcile-IsBacked c p t w h
perform-IsBacked (workload_call result w) t h = ground arith
perform-IsBacked (artifact_call c disposition w) t h = ground arith
perform-IsBacked (stop_call c reason w) t h = ground arith

pub perform-IsSound :
    {Spec W : Type 0} (call : Call Spec W) (t : Track)
    → IsSound t
    → Along (Keeps IsSound) t (perform call t.state).actions
unfolding perform record_workload_result record_artifact_disposition request_stop
perform-IsSound (reconcile_call c p w) t h = reconcile-IsSound c p t w h
perform-IsSound (workload_call result w) t h = ground arith
perform-IsSound (artifact_call c disposition w) t h = ground arith
perform-IsSound (stop_call c reason w) t h = ground arith

pub perform-Intended :
    {Spec W : Type 0} (call : Call Spec W) (t : Track)
    → IsBacked t
    → Along Intended t (perform call t.state).actions
unfolding perform record_workload_result record_artifact_disposition request_stop
perform-Intended (reconcile_call c p w) t h = reconcile-Intended c p t w h
perform-Intended (workload_call result w) t h = ground arith
perform-Intended (artifact_call c disposition w) t h = ground arith
perform-Intended (stop_call c reason w) t h = ground arith

module _ {Spec W : Type 0} {run_id : String} {approved : ℕ} where
  pub Reaches-IsBacked : {t : Track} → Reaches Spec W run_id approved t → IsBacked t
  unfolding initial_state
  Reaches-IsBacked (start e) = ground arith
  Reaches-IsBacked (next {t = t} call n r e) =
      let h = Reaches-IsBacked r in rw e (crash-P IsBacked n t _ h (perform-IsBacked call t h))

  pub Reaches-IsSound : {t : Track} → Reaches Spec W run_id approved t → IsSound t
  unfolding initial_state
  Reaches-IsSound (start e) = ground arith
  Reaches-IsSound (next {t = t} call n r e) =
      let h = Reaches-IsSound r in rw e (crash-P IsSound n t _ h (perform-IsSound call t h))
