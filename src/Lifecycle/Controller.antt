-- ===== src/Lifecycle/Controller.antt =====
-- `LifecycleController` of lifecycle.py: the initial state of `plan`, and the calls that change a
-- run. Each call reads the current state under the run's lock.
use runpod_jobrunner.Prelude.{
  ℕ, String, [], Option, none, some, Bool, true, false, ◌&&◌, ◌==◌, if◌then◌else◌,
}
use runpod_jobrunner.Provider.{Provider}
use runpod_jobrunner.Lifecycle.State.{
  RunState, LifecycleState, WorkloadResult, succeeded, failed, cancelled, ArtifactDisposition,
  verified, partial_recovered, unavailable, not_applicable, Disposition,
}
use runpod_jobrunner.Lifecycle.Step.{
  Context, Step, done, unchanged, raise, ensure_delete, unavailable_because, conflict,
  invalid_transition, workload_terminal, artifact_disposition_recorded, stop_requested,
}
use runpod_jobrunner.Lifecycle.Provision.{intend_provision, reconcile_provision}
use runpod_jobrunner.Lifecycle.Start.{reconcile_start}
use runpod_jobrunner.Lifecycle.Delete.{reconcile_delete}

-- The state that `plan` hands to the run store.
unfoldable pub initial_state : String → ℕ → RunState
initial_state run_id approved = record {
  run_id = run_id;
  lifecycle = LifecycleState.planned;
  workload_result = none;
  approved_max_usd = approved;
  resource = none;
  provision = none;
  start = none;
  delete = none;
  recovery_reason = none;
  closeout = record {
    artifact_disposition = none;
    delete_acknowledged = false;
    delete_already_absent = false;
    provider_not_found = false;
    current_spend_usd_per_hour = none;
    current_spend_scope = none;
    provision_absence_confirmed = false;
    provision_absence_first_observed_at = none;
    provision_resolution = none;
    delete_acknowledged_resource_ids = [];
  };
  quarantined_resource_ids = none;
}

abbrev pub workload_result_eq : WorkloadResult → WorkloadResult → Bool
workload_result_eq succeeded succeeded = true
workload_result_eq failed failed = true
workload_result_eq cancelled cancelled = true
workload_result_eq _ _ = false

abbrev pub artifact_disposition_eq : ArtifactDisposition → ArtifactDisposition → Bool
artifact_disposition_eq verified verified = true
artifact_disposition_eq partial_recovered partial_recovered = true
artifact_disposition_eq unavailable unavailable = true
artifact_disposition_eq not_applicable not_applicable = true
artifact_disposition_eq _ _ = false

abbrev pub is_closed : LifecycleState → Bool
is_closed LifecycleState.closed = true
is_closed _ = false

module _ {Spec W : Type 0} (c : Context Spec) (p : Provider Spec W) where
  unfoldable pub reconcile : RunState → W → Step W
  reconcile s w = elim s.lifecycle [
    | LifecycleState.planned ↦ intend_provision c s w
    | LifecycleState.provisioning ↦ reconcile_provision c p s w
    | LifecycleState.starting ↦ reconcile_start c p s w
    | LifecycleState.running ↦ unchanged s w
    | LifecycleState.recovering ↦ unchanged s w
    | LifecycleState.deleting ↦ reconcile_delete c p s w
    | LifecycleState.closed ↦ unchanged s w
  ]

module _ {W : Type 0} where
  unfoldable pub record_workload_result : WorkloadResult → RunState → W → Step W
  record_workload_result result s w = elim s.workload_result [
    | some existing ↦
        if workload_result_eq existing result
        then unchanged s w
        else raise (conflict "terminal workload result already recorded") w
    | none ↦
        if is_closed s.lifecycle
        then raise (invalid_transition "cannot change workload result after closeout") w
        else done workload_terminal
            (record s { workload_result = some result; lifecycle = LifecycleState.recovering }) w
  ]

abbrev pub detail_eq : Option String → Option String → Bool
detail_eq none none = true
detail_eq (some a) (some b) = a == b
detail_eq _ _ = false

abbrev pub disposition_eq : Disposition → Disposition → Bool
disposition_eq a b = artifact_disposition_eq a.status b.status && detail_eq a.detail b.detail

module _ {Spec W : Type 0} (c : Context Spec) where
  unfoldable pub record_artifact_disposition : Disposition → RunState → W → Step W
  record_artifact_disposition recorded s w = elim s.closeout.artifact_disposition [
    | some existing ↦
        if disposition_eq existing recorded
        then unchanged s w
        else raise (conflict "artifact disposition is already recorded") w
    | none ↦
        if is_closed s.lifecycle
        then raise (invalid_transition "cannot change artifacts after closeout") w
        else done artifact_disposition_recorded
            (record (ensure_delete c s) {
              closeout = record s.closeout { artifact_disposition = some recorded };
              lifecycle = LifecycleState.deleting;
            })
            w
  ]

  unfoldable pub request_stop : String → RunState → W → Step W
  request_stop reason s w =
      if is_closed s.lifecycle
      then unchanged s w
      else done stop_requested
          (record (ensure_delete c s) {
            workload_result = elim s.workload_result [
              | none ↦ some cancelled
              | some result ↦ some result
            ];
            closeout = record s.closeout {
              artifact_disposition = elim s.closeout.artifact_disposition [
                | none ↦ unavailable_because reason
                | some disposition ↦ some disposition
              ];
            };
            lifecycle = LifecycleState.deleting;
          })
          w
