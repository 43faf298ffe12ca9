-- ===== src/Lifecycle/State.antt =====
-- The state that lifecycle.py keeps for a run: the values that its own code writes into the JSON
-- projection, as typed records. A key that the code may leave out is an `Option`.
use runpod_jobrunner.Prelude.{ℕ, String, Bool, true, false, ◌&&◌, List, Option, some, ◌==◌, nat_eq}
use runpod_jobrunner.Provider.{ProviderResource}

pub data LifecycleState : Type 0 where
  planned provisioning starting running recovering deleting closed : LifecycleState

pub data WorkloadResult : Type 0 where
  succeeded failed cancelled : WorkloadResult

pub data ArtifactDisposition : Type 0 where
  verified partial_recovered unavailable not_applicable : ArtifactDisposition

pub record Disposition : Type 0 where
  pub status : ArtifactDisposition
  pub detail : Option String

-- A `datetime`: an instant in microseconds, and whether it carries a time zone.
pub record Datetime : Type 0 where
  pub instant : ℕ
  pub aware : Bool

-- A timestamp text: what `isoformat` writes, or any other text with what `fromisoformat` makes
-- of it.
pub data TimeText : Type 0 where
  iso : Datetime → TimeText
  other : String → Option Datetime → TimeText

abbrev pub from_isoformat : TimeText → Option Datetime
from_isoformat (iso d) = some d
from_isoformat (other text d) = d

abbrev pub bool_eq : Bool → Bool → Bool
bool_eq true b = b
bool_eq false true = false
bool_eq false false = true

abbrev pub time_text_eq : TimeText → TimeText → Bool
time_text_eq (iso a) (iso b) = nat_eq a.instant b.instant && bool_eq a.aware b.aware
time_text_eq (other s d) (other t e) = s == t
time_text_eq _ _ = false

pub data OperationStatus : Type 0 where
  intended dispatched outcome_unknown unresolved observed conflict rejected : OperationStatus
  observed_running resource_not_found acknowledged acknowledged_all : OperationStatus
  not_required_no_resource operation_failed : OperationStatus

pub record Operation : Type 0 where
  pub id : String
  pub status : OperationStatus
  pub attempts : ℕ
  pub last_error : Option String
  pub resource_id : Option String
  pub resource_ids : List String
  pub dispatched_at : Option TimeText
  pub visibility_first_observed_at : Option TimeText
  pub visibility_observations : ℕ
  pub last_visibility_observed_at : Option TimeText

-- `_resource_projection`, or the bare `{"id": …}` of a rejected resource.
pub data ResourceProjection : Type 0 where
  projected : ProviderResource → ResourceProjection
  bare : String → ResourceProjection

abbrev pub projection_id : ResourceProjection → String
projection_id (projected r) = r.id
projection_id (bare id) = id

-- What the zero spend at closeout is a statement about.
pub data SpendScope : Type 0 where
  resource : String → SpendScope
  run_not_dispatched : SpendScope
  operation_not_dispatched : String → SpendScope
  operation_deadline_absence : String → SpendScope
  account : SpendScope

abbrev pub spend_scope_eq : SpendScope → SpendScope → Bool
spend_scope_eq (resource a) (resource b) = a == b
spend_scope_eq run_not_dispatched run_not_dispatched = true
spend_scope_eq (operation_not_dispatched a) (operation_not_dispatched b) = a == b
spend_scope_eq (operation_deadline_absence a) (operation_deadline_absence b) = a == b
spend_scope_eq account account = true
spend_scope_eq _ _ = false

-- Its `source` is always "termination_deadline_elapsed".
pub record Resolution : Type 0 where
  pub operation_id : String
  pub termination_deadline : TimeText
  pub absence_first_observed_at : TimeText
  pub confirmed_at : TimeText

pub record Closeout : Type 0 where
  pub artifact_disposition : Option Disposition
  pub delete_acknowledged : Bool
  pub delete_already_absent : Bool
  pub provider_not_found : Bool
  pub current_spend_usd_per_hour : Option ℕ
  pub current_spend_scope : Option SpendScope
  pub provision_absence_confirmed : Bool
  pub provision_absence_first_observed_at : Option TimeText
  pub provision_resolution : Option Resolution
  pub delete_acknowledged_resource_ids : List String

pub data RecoveryReason : Type 0 where
  duplicate_provider_resources provision_dispatch_unresolved : RecoveryReason
  resource_disappeared_before_start : RecoveryReason

pub record RunState : Type 0 where
  pub run_id : String
  pub lifecycle : LifecycleState
  pub workload_result : Option WorkloadResult
  pub approved_max_usd : ℕ
  pub resource : Option ResourceProjection
  pub provision : Option Operation
  pub start : Option Operation
  pub delete : Option Operation
  pub recovery_reason : Option RecoveryReason
  pub closeout : Closeout
  pub quarantined_resource_ids : Option (List String)

-- request["provider"], as far as the lifecycle reads it.
pub record ProviderSpec (Spec : Type 0) : Type 0 where
  pub spec : Spec
  pub network_volume_id : Option String
  pub terminate_at : Option TimeText

pub data ProviderField (Spec : Type 0) : Type 0 where
  absent : ProviderField Spec
  malformed : ProviderField Spec
  present : ProviderSpec Spec → ProviderField Spec
