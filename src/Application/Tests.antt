-- ===== src/Application/Tests.antt =====
-- The driver of application.py on a concrete run, and each theorem at a concrete input.
use runpod_jobrunner.Prelude.{ℕ, ◌≤◌, ◌≡◌, refl, ◌-◌, none, some, true, All}
use runpod_jobrunner.Provider.Memory.{
  MemoryRunPod, MemorySpec, no_rate, memory_provider, new_memory, create, find_resources, get,
  start_resource, delete_resource, current_spend_usd_per_hour, memory_pod_id, lookup, assign, pop,
  created_by,
}
use runpod_jobrunner.Lifecycle.Provision.{intend_provision, reconcile_provision}
use runpod_jobrunner.Lifecycle.Start.{reconcile_start}
use runpod_jobrunner.Lifecycle.Closeout.{current_spend_scope, assert_closeout_ready}
use runpod_jobrunner.Lifecycle.Delete.{
  delete_pending, observe_absence, prove_spend, delete_resources, with_delete_operation,
  reconcile_delete, acknowledged_state,
}
use runpod_jobrunner.Lifecycle.State.{LifecycleState, iso, present, succeeded, verified}
use runpod_jobrunner.Lifecycle.Step.{Context, new_operation}
use runpod_jobrunner.Lifecycle.Controller.{
  initial_state, reconcile, record_workload_result, record_artifact_disposition,
}
use runpod_jobrunner.Lifecycle.History.{Track, perform, start}
use runpod_jobrunner.Lifecycle.Invariant.{all_deleted, provision_settled}
use runpod_jobrunner.Application.{
  Executor, Driven, drive_pass, drive, recovery_must_not_dispatch_workload,
}
use runpod_jobrunner.Application.Drive.{drive-closed}
use runpod_jobrunner.Application.Executions.{MayExecute, drive-executions}

abbrev contexts : ℕ → Context MemorySpec
contexts n = record {
  uuid5 = λ name. name;
  empty_spec = no_rate;
  provider = present (record {
    spec = no_rate;
    network_volume_id = none;
    terminate_at = some (iso (record { instant = 1000000000; aware = true }));
  });
  now = record { instant = 100 - n; aware = true };
  provision_visibility_grace = 30000000;
}

abbrev executor : Executor MemoryRunPod
executor s m = (some (record { result = succeeded; disposition = verified; detail = "done" }), m)

abbrev planned_track : Track
planned_track = record { state = initial_state "run-1" 50; creates = 0 }

abbrev driven : Driven MemoryRunPod
driven = drive memory_provider executor contexts 20 planned_track new_memory

driven_closed : driven.outcome ≡ none
unfolding drive drive_pass recovery_must_not_dispatch_workload perform reconcile intend_provision
    new_operation reconcile_provision reconcile_start record_workload_result
    record_artifact_disposition reconcile_delete with_delete_operation delete_resources
    delete_pending acknowledged_state observe_absence prove_spend current_spend_scope
    assert_closeout_ready initial_state new_memory create find_resources get start_resource
    delete_resource current_spend_usd_per_hour memory_pod_id lookup assign pop created_by
driven_closed = refl

drive-closed_example :
    (driven.track.creates ≤ 1)
    × (driven.outcome ≡ none
        → (driven.track.state.lifecycle ≡ LifecycleState.closed)
          × (all_deleted driven.track.state ≡ true)
          × (provision_settled driven.track.state ≡ true)
          × (driven.track.state.closeout.provider_not_found ≡ true)
          × (driven.track.state.closeout.current_spend_usd_per_hour ≡ some 0))
drive-closed_example =
    drive-closed memory_provider executor contexts {run_id = "run-1"} {approved = 50} 20
      planned_track new_memory (start refl)

drive-executions_example : All MayExecute driven.executions
drive-executions_example =
    drive-executions memory_provider executor contexts 20 planned_track new_memory
