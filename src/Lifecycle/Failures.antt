-- ===== src/Lifecycle/Failures.antt =====
-- The handlers of provider failures that lifecycle.py's operations share.
use runpod_jobrunner.Prelude.{String, List, [], ◌∷◌, some}
use runpod_jobrunner.Provider.{ProviderError}
use runpod_jobrunner.Lifecycle.State.{
  RunState, Operation, rejected, operation_failed, outcome_unknown, cancelled, deleting, bare,
}
use runpod_jobrunner.Lifecycle.Step.{
  Context, Step, OperationKind, done, commit_raise, with_operation, ensure_delete,
  unavailable_because, provider_error, provider_resource_rejected, provider_operation_failed,
  provider_outcome_unknown,
}

abbrev pub quarantine_rejected : List String → RunState → RunState
quarantine_rejected [] s = s
quarantine_rejected (id ∷ ids) s = record s {
  quarantined_resource_ids = some (id ∷ ids);
  resource = some (bare id);
}

module _ {Spec W : Type 0} (c : Context Spec) (kind : OperationKind) (op : Operation)
    (s : RunState) where
  unfoldable pub record_provider_rejection : String → List String → W → Step W
  record_provider_rejection message ids w =
      let op' = record op { status = rejected; last_error = some message } in
      let closeout' = record s.closeout { artifact_disposition = unavailable_because message } in
      let s' = record (with_operation kind op' s) {
        workload_result = some cancelled;
        closeout = closeout';
        lifecycle = deleting;
      } in
      done provider_resource_rejected (quarantine_rejected ids (ensure_delete c s')) w

module _ {W : Type 0} (kind : OperationKind) (op : Operation) (s : RunState) where
  unfoldable pub record_provider_error : String → ProviderError → W → Step W
  record_provider_error message error w =
      commit_raise provider_operation_failed
        (with_operation kind (record op { status = operation_failed; last_error = some message }) s)
        (provider_error error) w

  unfoldable pub record_outcome_unknown : String → ProviderError → W → Step W
  record_outcome_unknown message error w =
      commit_raise provider_outcome_unknown
        (with_operation kind (record op { status = outcome_unknown; last_error = some message }) s)
        (provider_error error) w
