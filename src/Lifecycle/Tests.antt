-- ===== src/Lifecycle/Tests.antt =====
-- A run of the lifecycle against the provider fake, and each theorem at a concrete input.
use runpod_jobrunner.Prelude.{ℕ, ◌+◌, ◌≤◌, ◌≡◌, refl, List, [], ◌∷◌, none, some, true, false}
use runpod_jobrunner.Provider.Memory.{
  MemoryRunPod, MemorySpec, no_rate, memory_provider, new_memory, provision, fail_next_after_effect,
  create, find_resources, get, start_resource, delete_resource, current_spend_usd_per_hour,
  memory_pod_id, lookup, assign, pop, created_by,
}
use runpod_jobrunner.Lifecycle.State.{
  RunState, LifecycleState, TimeText, iso, present, succeeded, verified, cancelled, Operation,
  outcome_unknown, Datetime,
}
use runpod_jobrunner.Lifecycle.Step.{Context, Result, ok, err, new_operation, OperationKind}
use runpod_jobrunner.Lifecycle.Provision.{intend_provision, reconcile_provision}
use runpod_jobrunner.Lifecycle.Start.{reconcile_start}
use runpod_jobrunner.Lifecycle.Durability.{durable, durable-perform}
use runpod_jobrunner.Lifecycle.Deadline.{confirmed_complete}
use runpod_jobrunner.Lifecycle.Closeout.{
  needs_resolution, provider_termination_deadline, provision_resolution_is_complete,
  current_spend_scope, assert_closeout_ready,
}
use runpod_jobrunner.Lifecycle.Delete.{
  delete_pending, observe_absence, prove_spend, delete_resources, with_delete_operation,
  reconcile_delete, acknowledged_state,
}
use runpod_jobrunner.Lifecycle.Absence.{nothing_found, absence_at}
use runpod_jobrunner.Lifecycle.Controller.{
  initial_state, reconcile, record_workload_result, record_artifact_disposition, request_stop,
}
use runpod_jobrunner.Lifecycle.History.{
  Track, Along, crash, Call, reconcile_call, workload_call, artifact_call, stop_call, perform,
  Reaches, start, next,
}
use runpod_jobrunner.Lifecycle.Invariant.{Intended, all_deleted, provision_settled}
use runpod_jobrunner.Lifecycle.Safety.{
  creates-le-one, effects-Intended, closed-proved, closed-final,
}

abbrev pub context_at : ℕ → Context MemorySpec
context_at now = record {
  uuid5 = λ name. name;
  empty_spec = no_rate;
  provider = present (record {
    spec = no_rate;
    network_volume_id = none;
    terminate_at = some (iso (record { instant = 1000000000; aware = true }));
  });
  now = record { instant = now; aware = true };
  provision_visibility_grace = 30000000;
}

-- A run on disk, with the provider beside it.
record Scene : Type 0 where
  track : Track
  pod : MemoryRunPod

-- Some calls, each of which is cut off after `n` actions.
data Act : Type 0 where
  tick : ℕ → ℕ → Act
  finish_work : Act
  keep_artifacts : Act
  ask_stop : Act

abbrev call_of : Act → MemoryRunPod → Call MemorySpec MemoryRunPod
call_of (tick n now) m = reconcile_call (context_at now) memory_provider m
call_of finish_work m = workload_call succeeded m
call_of keep_artifacts m =
    artifact_call (context_at 0) (record { status = verified; detail = none }) m
call_of ask_stop m = stop_call (context_at 0) "operator" m

abbrev cut_of : Act → ℕ
cut_of (tick n now) = n
cut_of _ = 9

abbrev act : Scene → Act → Scene
act e a =
    let t = perform (call_of a e.pod) e.track.state in
    record { track = crash (cut_of a) e.track t.actions; pod = t.world }

abbrev play : Scene → List Act → Scene
play e [] = e
play e (a ∷ rest) = play (act e a) rest

abbrev begin : Scene
begin = record {
  track = record { state = initial_state "run-1" 50; creates = 0 };
  pod = fail_next_after_effect provision new_memory;
}

-- The create loses its outcome, and its second commit is lost to a crash; the run finds its
-- resource again, works, and closes.
abbrev whole_life : List Act
whole_life =
    tick 9 1
    ∷ tick 2 2
    ∷ tick 9 3
    ∷ tick 9 4
    ∷ finish_work
    ∷ keep_artifacts
    ∷ tick 9 5
    ∷ tick 9 6
    ∷ tick 9 7
    ∷ []

abbrev finished : Scene
finished = play begin whole_life

play-Reaches :
    (e : Scene) (acts : List Act)
    → Reaches MemorySpec MemoryRunPod "run-1" 50 e.track
    → Reaches MemorySpec MemoryRunPod "run-1" 50 (play e acts).track
play-Reaches e [] r = r
play-Reaches e (a ∷ rest) r = play-Reaches (act e a) rest (next (call_of a e.pod) (cut_of a) r refl)

finished-Reaches : Reaches MemorySpec MemoryRunPod "run-1" 50 finished.track
finished-Reaches = play-Reaches begin whole_life (start refl)

finished_closed : finished.track.state.lifecycle ≡ LifecycleState.closed
unfolding perform reconcile intend_provision new_operation reconcile_provision reconcile_start
    record_workload_result record_artifact_disposition reconcile_delete with_delete_operation
    delete_resources delete_pending acknowledged_state observe_absence prove_spend
    current_spend_scope assert_closeout_ready initial_state new_memory fail_next_after_effect create
    find_resources get start_resource delete_resource current_spend_usd_per_hour memory_pod_id
    lookup assign pop created_by
finished_closed = refl

creates-le-one_example : finished.track.creates ≤ 1
creates-le-one_example = creates-le-one finished-Reaches

-- the run after its create is intended, and before it is sent
abbrev intended_scene : Scene
intended_scene = play begin (tick 9 1 ∷ [])

effects-Intended_example :
    Along Intended intended_scene.track
      (perform
        (reconcile_call (context_at 2) memory_provider intended_scene.pod)
        intended_scene.track.state).actions
effects-Intended_example =
    effects-Intended (play-Reaches begin (tick 9 1 ∷ []) (start refl))
      (reconcile_call (context_at 2) memory_provider intended_scene.pod)

closed-proved_example :
    (all_deleted finished.track.state ≡ true)
    × (provision_settled finished.track.state ≡ true)
    × (finished.track.state.closeout.provider_not_found ≡ true)
    × (finished.track.state.closeout.current_spend_usd_per_hour ≡ some 0)
closed-proved_example = closed-proved finished-Reaches finished_closed

closed-final_example :
    let step = perform (call_of (tick 9 8) finished.pod) finished.track.state in
    (step.actions ≡ []) × (step.world ≡ finished.pod)
closed-final_example =
    closed-final (call_of (tick 9 8) finished.pod) finished.track.state finished_closed

abbrev returned_state : RunState → Result RunState → RunState
returned_state s (ok s') = s'
returned_state s (err e) = s

-- the stop of a run whose create is intended
abbrev stopped_state : RunState
stopped_state =
    let t = perform (call_of ask_stop intended_scene.pod) intended_scene.track.state in
    returned_state intended_scene.track.state t.result

stop_returns :
    (perform (call_of ask_stop intended_scene.pod) intended_scene.track.state).result
    ≡ ok stopped_state
unfolding perform reconcile intend_provision new_operation request_stop initial_state new_memory
    fail_next_after_effect
stop_returns = refl

durable-perform_example :
    durable intended_scene.track.state
      (perform (call_of ask_stop intended_scene.pod) intended_scene.track.state).actions
    ≡ stopped_state
durable-perform_example =
    durable-perform (call_of ask_stop intended_scene.pod) intended_scene.track.state stopped_state
      stop_returns

-- A create whose outcome is lost, in a run that was stopped.
abbrev lost : Operation
lost = record (new_operation (context_at 0) "run-1" OperationKind.provision) {
  status = outcome_unknown;
  attempts = 1;
}

abbrev waiting : RunState
waiting =
    let s = initial_state "run-1" 50 in
    record s {
      lifecycle = LifecycleState.deleting;
      workload_result = some cancelled;
      provision = some lost;
      closeout = record s.closeout {
        provision_absence_first_observed_at =
            some (iso (record { instant = 1000000001; aware = true }));
      };
    }

-- well past the termination deadline
abbrev much_later : Context MemorySpec
much_later = context_at 5000000000

abbrev confirmed_state : RunState
confirmed_state = returned_state waiting (nothing_found much_later waiting lost new_memory).result

nothing_found_returns :
    (nothing_found much_later waiting lost new_memory).result ≡ ok confirmed_state
unfolding nothing_found absence_at new_operation initial_state new_memory
    provider_termination_deadline
nothing_found_returns = refl

absence_is_confirmed : confirmed_state.closeout.provision_absence_confirmed ≡ true
unfolding nothing_found absence_at new_operation initial_state new_memory
    provider_termination_deadline
absence_is_confirmed = refl

needs_resolution-lost : needs_resolution lost ≡ true
unfolding new_operation
needs_resolution-lost = refl

unconfirmed_waiting : waiting.closeout.provision_absence_confirmed ≡ false
unfolding initial_state
unconfirmed_waiting = refl

confirmed_complete_example :
    (d : TimeText × Datetime) × (provider_termination_deadline much_later ≡ ok d)
    × (d.1.instant + 5000000 ≤ much_later.now.instant)
    × (provision_resolution_is_complete much_later confirmed_state confirmed_state.closeout
        ≡ ok true)
confirmed_complete_example =
    confirmed_complete much_later waiting confirmed_state lost new_memory refl needs_resolution-lost
      unconfirmed_waiting nothing_found_returns absence_is_confirmed
