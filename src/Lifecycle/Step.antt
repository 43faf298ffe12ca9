-- ===== src/Lifecycle/Step.antt =====
-- What one call of the lifecycle controller produces: its result, and the durable commits and
-- provider calls that it made, in order. A crash leaves a prefix of these.
use runpod_jobrunner.Prelude.{
  ℕ, String, List, [], ◌∷◌, Option, none, some, Bool, true, false, concat,
}
use runpod_jobrunner.Provider.{ProviderError}
use runpod_jobrunner.Lifecycle.State.{
  RunState, Operation, OperationStatus, intended, dispatched, outcome_unknown, unresolved, Datetime,
  ProviderField, Disposition, unavailable,
}

-- The `kind` of a journal event.
pub data EventKind : Type 0 where
  run_planned provider_operation_intended provider_operation_dispatched : EventKind
  provider_reconciliation_conflict_quarantined provider_outcome_unknown : EventKind
  provider_resource_visibility_pending provider_create_visibility_exhausted : EventKind
  resource_provisioned provider_resource_missing resource_running resource_starting : EventKind
  provider_operation_failed provider_resource_rejected delete_acknowledged : EventKind
  provider_absence_confirmed provider_deletion_pending provider_spend_observed : EventKind
  closeout_completed stopped_rejected_resource_adopted : EventKind
  stopped_duplicate_resources_quarantined stopped_resource_adopted : EventKind
  stopped_provision_not_dispatched stopped_provision_termination_pending : EventKind
  stopped_provision_absence_observed stopped_provision_absence_pending : EventKind
  stopped_provision_absence_confirmed workload_terminal : EventKind
  artifact_disposition_recorded stop_requested : EventKind

pub data Action : Type 0 where
  commit : EventKind → RunState → Action
  create_call : String → Action
  start_call : String → String → Action
  delete_call : String → String → Action

-- `LifecycleConflictError`, `InvalidTransitionError`, `ProviderProtocolError` and the provider's
-- own exceptions, re-raised.
pub data Error : Type 0 where
  conflict : String → Error
  invalid_transition : String → Error
  protocol_error : String → Error
  provider_error : ProviderError → Error

pub data Result (A : Type 0) : Type 0 where
  ok : A → Result A
  err : Error → Result A

infixl 5 ◌>>=◌
abbrev pub ◌>>=◌ : {A B : Type 0} → Result A → (A → Result B) → Result B
ok a >>= f = f a
err e >>= f = err e

pub record Step (W : Type 0) : Type 0 where
  pub result : Result RunState
  pub actions : List Action
  pub world : W

abbrev pub done : {W : Type 0} → EventKind → RunState → W → Step W
done kind s w = record { result = ok s; actions = commit kind s ∷ []; world = w }

abbrev pub unchanged : {W : Type 0} → RunState → W → Step W
unchanged s w = record { result = ok s; actions = []; world = w }

abbrev pub raise : {W : Type 0} → Error → W → Step W
raise e w = record { result = err e; actions = []; world = w }

-- Commits, and then raises.
abbrev pub commit_raise : {W : Type 0} → EventKind → RunState → Error → W → Step W
commit_raise kind s e w = record { result = err e; actions = commit kind s ∷ []; world = w }

abbrev pub after : {W : Type 0} → Action → Step W → Step W
after a t = record { result = t.result; actions = a ∷ t.actions; world = t.world }

-- `f` after a computation that may raise
abbrev pub with_result : {A W : Type 0} → Result A → W → (A → Step W) → Step W
with_result (ok a) w f = f a
with_result (err e) w f = raise e w

-- What a call reads besides the state and the provider: the run's stored request, the time, the
-- controller's grace in microseconds, and `uuid5` in the controller's namespace.
pub record Context (Spec : Type 0) : Type 0 where
  pub uuid5 : String → String
  pub empty_spec : Spec
  pub provider : ProviderField Spec
  pub now : Datetime
  pub provision_visibility_grace : ℕ

pub data OperationKind : Type 0 where
  provision start delete : OperationKind

abbrev pub kind_name : OperationKind → String
kind_name provision = "provision"
kind_name start = "start"
kind_name delete = "delete"

abbrev pub with_operation : OperationKind → Operation → RunState → RunState
with_operation provision op s = record s { provision = some op }
with_operation start op s = record s { start = some op }
with_operation delete op s = record s { delete = some op }

unfoldable pub new_operation : {Spec : Type 0} → Context Spec → String → OperationKind → Operation
new_operation c run_id kind = record {
  id = concat "op-" (
      c.uuid5
        (concat "runpod-jobrunner/" (concat run_id (concat "/" (concat (kind_name kind) "/1")))));
  status = intended;
  attempts = 0;
  last_error = none;
  resource_id = none;
  resource_ids = [];
  dispatched_at = none;
  visibility_first_observed_at = none;
  visibility_observations = 0;
  last_visibility_observed_at = none;
}

-- `dict.setdefault`
abbrev pub set_default : Option Operation → Operation → Option Operation
set_default none op = some op
set_default (some old) op = some old

-- `operations.setdefault("delete", …)`
abbrev pub ensure_delete : {Spec : Type 0} → Context Spec → RunState → RunState
ensure_delete c s = record s { delete = set_default s.delete (new_operation c s.run_id delete) }

abbrev pub unavailable_because : String → Option Disposition
unavailable_because detail = some (record { status = unavailable; detail = some detail })

-- `_UNCERTAIN_PROVISION_STATUSES`
abbrev pub is_uncertain : OperationStatus → Bool
is_uncertain dispatched = true
is_uncertain outcome_unknown = true
is_uncertain unresolved = true
is_uncertain _ = false
