-- ===== src/Lifecycle/Pods/Tests.antt =====
-- The lifecycle against the provider fake, and each theorem on both at a concrete input.
use runpod_jobrunner.Prelude.{◌≡◌, refl, List, [], ◌∷◌, none, true, false, arith, is_some}
use runpod_jobrunner.Provider.Memory.{
  MemorySpec, provision, new_memory, fail_next_after_effect, create, find_resources, get,
  delete_resource, current_spend_usd_per_hour, lookup, assign, pop, created_by, memory_pod_id,
}
use runpod_jobrunner.Lifecycle.State.{LifecycleState, iso}
use runpod_jobrunner.Lifecycle.Step.{Context, new_operation}
use runpod_jobrunner.Lifecycle.Provision.{intend_provision, reconcile_provision}
use runpod_jobrunner.Lifecycle.Absence.{nothing_found, absence_at, after_absence_find}
use runpod_jobrunner.Lifecycle.Closeout.{
  provider_termination_deadline, provision_resolution_is_complete, current_spend_scope,
  assert_closeout_ready,
}
use runpod_jobrunner.Lifecycle.Delete.{
  delete_pending, observe_absence, prove_spend, delete_resources, with_delete_operation,
  reconcile_delete, acknowledged_state, resolve_provision,
}
use runpod_jobrunner.Lifecycle.Controller.{initial_state, reconcile, request_stop}
use runpod_jobrunner.Lifecycle.History.{perform}
use runpod_jobrunner.Lifecycle.Tests.{context_at}
use runpod_jobrunner.Lifecycle.Pods.{
  System, Move, reconcile_move, stop_move, cut, step_at, Arises, begin, move, lose_outcome,
}
use runpod_jobrunner.Lifecycle.Pods.Safety.{closed-no-pod}
use runpod_jobrunner.Lifecycle.Pods.Closing.{settle_step, ticks}
use runpod_jobrunner.Lifecycle.Pods.Closing.Ends.{stop-closes}

abbrev made : System → Move → System
made e m = cut 9 (step_at m e).world e (step_at m e).actions

abbrev played : System → List Move → System
played e [] = e
played e (m ∷ ms) = played (made e m) ms

played-Arises :
    (e : System) (ms : List Move) → Arises "run-1" 50 e → Arises "run-1" 50 (played e ms)
played-Arises e [] r = r
played-Arises e (m ∷ ms) r = played-Arises (made e m) ms (move m 9 r refl)

abbrev fresh : System
fresh = record { state = initial_state "run-1" 50; pod = new_memory }

-- its first create loses its outcome
abbrev unlucky : System
unlucky = record {
  state = initial_state "run-1" 50;
  pod = fail_next_after_effect provision new_memory;
}

unlucky-Arises : Arises "run-1" 50 unlucky
unfolding new_memory
unlucky-Arises = lose_outcome provision (begin {e = fresh} refl refl) refl

abbrev asked : List Move
asked = reconcile_move (context_at 1) ∷ reconcile_move (context_at 2) ∷ []

abbrev late_contexts : List (Context MemorySpec)
late_contexts =
    context_at 1000000000
    ∷ context_at 1005000000
    ∷ context_at 1010000000
    ∷ context_at 1015000000
    ∷ context_at 1020000000
    ∷ []

abbrev closing_moves : List Move
closing_moves =
    reconcile_move (context_at 1)
    ∷ reconcile_move (context_at 2)
    ∷ stop_move (context_at 3) "operator"
    ∷ reconcile_move (context_at 1000000000)
    ∷ reconcile_move (context_at 1005000000)
    ∷ reconcile_move (context_at 1010000000)
    ∷ reconcile_move (context_at 1015000000)
    ∷ []

closing_moves_closed : (played unlucky closing_moves).state.lifecycle ≡ LifecycleState.closed
unfolding perform reconcile intend_provision new_operation reconcile_provision request_stop
    reconcile_delete with_delete_operation delete_resources delete_pending acknowledged_state
    observe_absence prove_spend provision_resolution_is_complete assert_closeout_ready
    provider_termination_deadline current_spend_scope nothing_found absence_at initial_state
    new_memory fail_next_after_effect create find_resources get delete_resource
    current_spend_usd_per_hour memory_pod_id lookup assign pop created_by resolve_provision
    after_absence_find
closing_moves_closed = refl

closed-no-pod_example : (played unlucky closing_moves).pod.resources ≡ []
closed-no-pod_example =
    closed-no-pod (played-Arises unlucky closing_moves unlucky-Arises) closing_moves_closed

abbrev lost_create : System
lost_create = played unlucky asked

lost_create_starts : is_some lost_create.state.closeout.artifact_disposition ≡ false
unfolding perform reconcile intend_provision new_operation reconcile_provision initial_state
    new_memory fail_next_after_effect create find_resources memory_pod_id lookup assign created_by
lost_create_starts = refl

lost_create_faultless : lost_create.pod.fail_after_effect ≡ []
unfolding perform reconcile intend_provision new_operation reconcile_provision initial_state
    new_memory fail_next_after_effect create find_resources memory_pod_id lookup assign created_by
lost_create_faultless = refl

lost_create_unforced : lost_create.pod.forced_current_spend_usd_per_hour ≡ none
unfolding perform reconcile intend_provision new_operation reconcile_provision initial_state
    new_memory fail_next_after_effect create find_resources memory_pod_id lookup assign created_by
lost_create_unforced = refl

stop-closes_example :
    let f = ticks late_contexts (
      settle_step lost_create
        (request_stop (context_at 3) "operator" lost_create.state lost_create.pod)) in
    (f.state.lifecycle ≡ LifecycleState.closed) × (f.pod.resources ≡ [])
unfolding provider_termination_deadline
stop-closes_example =
    stop-closes (iso (record { instant = 1000000000; aware = true }))
      (record { instant = 1000000000; aware = true }) (played-Arises unlucky asked unlucky-Arises)
      lost_create_starts lost_create_faultless lost_create_unforced (context_at 3) "operator"
      late_contexts (omega arith)
      (
        refl,
        refl,
        omega arith,
        omega arith,
        (
          refl,
          refl,
          omega arith,
          omega arith,
          (
            refl,
            refl,
            omega arith,
            omega arith,
            (refl, refl, omega arith, omega arith, (refl, refl, omega arith, omega arith, tt)),
          ),
        ),
      )
