-- ===== src/Lifecycle/Delete.antt =====
-- The second half of `_reconcile_delete` of lifecycle.py: delete every resource of the run, observe
-- that it is gone, prove zero spend, close; and `_record_delete_receipt`.
use runpod_jobrunner.Prelude.{
  ◌+◌, String, List, [], ◌∷◌, ◌++◌, Option, none, some, Bool, true, false, not, ◌&&◌, ◌||◌, ◌==◌,
  nat_eq, contains, is_empty, if◌then◌else◌,
}
use runpod_jobrunner.Provider.{
  Provider, ProviderResource, DeleteReceipt, Decimal, amount, negative, not_finite, Answer,
  returned, raised, rejected, outcome_unknown, failed, escaped,
}
use runpod_jobrunner.Lifecycle.State.{
  RunState, LifecycleState, Operation, OperationStatus, SpendScope, resource, run_not_dispatched,
  operation_not_dispatched, operation_deadline_absence, account, spend_scope_eq,
}
use runpod_jobrunner.Lifecycle.Step.{
  Context, Step, OperationKind, delete_call, done, raise, after, with_result, conflict,
  invalid_transition, protocol_error, provider_error, delete_acknowledged,
  provider_absence_confirmed, provider_deletion_pending, provider_spend_observed,
  closeout_completed,
}
use runpod_jobrunner.Lifecycle.Failures.{record_provider_error, record_outcome_unknown}
use runpod_jobrunner.Lifecycle.Closeout.{resource_id_of, current_spend_scope, assert_closeout_ready}
use runpod_jobrunner.Lifecycle.Absence.{after_absence_find}

abbrev pub ids_or_empty : Option (List String) → List String
ids_or_empty none = []
ids_or_empty (some ids) = ids

abbrev pub has_empty : List String → Bool
has_empty [] = false
has_empty (id ∷ ids) = id == "" || has_empty ids

abbrev pub resource_ids : Option String → List String
resource_ids none = []
resource_ids (some id) = id ∷ []

-- `quarantined_ids or ([resource_id] if resource_id is not None else [])`
abbrev pub delete_ids : List String → Option String → List String
delete_ids [] id = resource_ids id
delete_ids (q ∷ quarantined) id = q ∷ quarantined

-- the first ID that is not acknowledged: `pending_ids[0]`
abbrev pub first_pending : List String → List String → Option String
first_pending acknowledged [] = none
first_pending acknowledged (id ∷ ids) =
    if contains id acknowledged then first_pending acknowledged ids else some id

abbrev pub all_acknowledged : List String → List String → Bool
all_acknowledged acknowledged [] = true
all_acknowledged acknowledged (id ∷ ids) =
    contains id acknowledged && all_acknowledged acknowledged ids

abbrev pub acknowledge : String → List String → List String
acknowledge id acknowledged =
    if contains id acknowledged then acknowledged else acknowledged ++ id ∷ []

-- the IDs that `_record_delete_receipt` wants acknowledged
abbrev pub all_resource_ids : RunState → List String
all_resource_ids s = elim s.quarantined_resource_ids [
  | some ids ↦ ids
  | none ↦ resource_ids (resource_id_of s.resource)
]

module _ (s : RunState) (op : Operation) (resource_id : String) where
  -- the state that an accepted receipt leaves
  unfoldable pub acknowledged_state : DeleteReceipt → RunState
  acknowledged_state receipt =
      let acknowledged = acknowledge resource_id s.closeout.delete_acknowledged_resource_ids in
      let complete = all_acknowledged acknowledged (all_resource_ids s) in
      record s {
        delete = some (record op {
          status =
              if complete then OperationStatus.acknowledged_all else OperationStatus.acknowledged;
        });
        closeout = record s.closeout {
          delete_acknowledged_resource_ids = acknowledged;
          delete_acknowledged = if complete then true else s.closeout.delete_acknowledged;
          delete_already_absent = receipt.already_absent;
        };
      }

module _ {W : Type 0} (s : RunState) (op : Operation) (resource_id : String) where
  unfoldable pub record_delete_receipt : DeleteReceipt → W → Step W
  record_delete_receipt receipt w =
      if not receipt.acknowledged
      then raise (protocol_error "provider delete was not acknowledged") w
      else if not (receipt.operation_id == op.id)
      then raise (protocol_error "provider delete receipt operation ID mismatch") w
      else done delete_acknowledged (acknowledged_state s op resource_id receipt) w

  -- `op` counts the attempt already
  unfoldable pub after_delete : Answer DeleteReceipt → W → Step W
  unfolding record_delete_receipt record_provider_error record_outcome_unknown
  after_delete (returned receipt) w = record_delete_receipt receipt w
  after_delete (raised (outcome_unknown m)) w =
      record_outcome_unknown OperationKind.delete op s m (outcome_unknown m) w
  after_delete (raised (rejected m ids)) w =
      record_provider_error OperationKind.delete op s m (rejected m ids) w
  after_delete (raised (failed m)) w =
      record_provider_error OperationKind.delete op s m (failed m) w
  after_delete (raised (escaped m)) w = raise (provider_error (escaped m)) w

module _ {W : Type 0} (s : RunState) (op : Operation) where
  -- nothing is left to delete
  unfoldable pub nothing_pending : List String → W → Step W
  nothing_pending ids w =
      let none_needed = is_empty ids in
      done delete_acknowledged
        (record s {
          delete = some (record op {
            status =
                if none_needed
                then OperationStatus.not_required_no_resource
                else OperationStatus.acknowledged_all;
          });
          closeout = record s.closeout {
            delete_acknowledged = true;
            delete_already_absent = none_needed;
          };
        })
        w

module _ {W : Type 0} (s : RunState) where
  unfoldable pub record_absence : Bool → W → Step W
  record_absence absent w =
      if absent
      then done provider_absence_confirmed
          (record s { closeout = record s.closeout { provider_not_found = true } }) w
      else done provider_deletion_pending s w

  unfoldable pub after_quarantine_find : Answer (List ProviderResource) → W → Step W
  unfolding record_absence
  after_quarantine_find (returned []) w = record_absence true w
  after_quarantine_find (returned (r ∷ rest)) w = record_absence false w
  after_quarantine_find (raised e) w = raise (provider_error e) w

  unfoldable pub after_resource_get : Answer (Option ProviderResource) → W → Step W
  unfolding record_absence
  after_resource_get (returned none) w = record_absence true w
  after_resource_get (returned (some r)) w = record_absence false w
  after_resource_get (raised e) w = raise (provider_error e) w

-- the scopes that need no look at the provider's spend
abbrev pub is_operation_scope : SpendScope → Bool
is_operation_scope (resource id) = false
is_operation_scope account = false
is_operation_scope run_not_dispatched = true
is_operation_scope (operation_not_dispatched id) = true
is_operation_scope (operation_deadline_absence id) = true

abbrev pub scope_conflicts : Option SpendScope → SpendScope → Bool
scope_conflicts none scope = false
scope_conflicts (some recorded) scope = not (spend_scope_eq recorded scope)

module _ {Spec W : Type 0} (c : Context Spec) (s : RunState) (scope : SpendScope) where
  unfoldable pub record_spend : Answer Decimal → W → Step W
  record_spend (returned (amount n)) w =
      let s' = record s {
        closeout = record s.closeout {
          current_spend_usd_per_hour = some n;
          current_spend_scope = some scope;
        };
      } in
      if nat_eq n 0
      then with_result (assert_closeout_ready c s') w
          (λ _. done closeout_completed (record s' { lifecycle = LifecycleState.closed }) w)
      else done provider_spend_observed s' w
  record_spend (returned (negative n)) w =
      raise (protocol_error "provider current spend must be a non-negative Decimal") w
  record_spend (returned not_finite) w =
      raise (protocol_error "provider current spend must be a non-negative Decimal") w
  record_spend (raised e) w = raise (provider_error e) w

module _ {Spec W : Type 0} (c : Context Spec) (p : Provider Spec W) where
  unfoldable pub prove_spend : RunState → W → Step W
  unfolding record_spend
  prove_spend s w =
      with_result (current_spend_scope c s s.closeout (resource_id_of s.resource)) w (λ scope.
        if scope_conflicts s.closeout.current_spend_scope scope
        then raise (conflict "current spend scope differs from closeout proof") w
        else if is_operation_scope scope
        then record_spend c s scope (returned (amount 0)) w
        else let answer = p.current_spend_usd_per_hour (resource_id_of s.resource) w in
          record_spend c s scope answer.0 answer.1)

  unfoldable pub observe_absence : RunState → W → Step W
  unfolding after_quarantine_find after_resource_get record_absence
  observe_absence s w = elim (ids_or_empty s.quarantined_resource_ids) [
    | q ∷ rest ↦ elim s.provision [
      | none ↦ raise (conflict "state field 'provision' must be an object") w
      | some op ↦ let answer = p.find_resources op.id w in after_quarantine_find s answer.0 answer.1
    ]
    | [] ↦ elim (resource_id_of s.resource) [
      | none ↦ record_absence s true w
      | some id ↦ let answer = p.get id w in after_resource_get s answer.0 answer.1
    ]
  ]

  -- with the first ID that is not acknowledged
  unfoldable pub delete_next : RunState → Operation → List String → Option String → W → Step W
  unfolding nothing_pending after_delete
  delete_next s op ids none w = nothing_pending s op ids w
  delete_next s op ids (some id) w =
      let op' = record op { attempts = op.attempts + 1 } in
      let answer = p.delete id op.id w in
      after (delete_call id op.id)
        (after_delete (record s { delete = some op' }) op' id answer.0 answer.1)

  unfoldable pub delete_pending : RunState → Operation → List String → W → Step W
  unfolding delete_next
  delete_pending s op ids w =
      delete_next s op ids (first_pending s.closeout.delete_acknowledged_resource_ids ids) w

  unfoldable pub delete_resources : RunState → Operation → W → Step W
  delete_resources s op w =
      let quarantined = ids_or_empty s.quarantined_resource_ids in
      if has_empty quarantined
      then raise (conflict "quarantined resource IDs are invalid") w
      else if not s.closeout.delete_acknowledged
      then delete_pending s op (delete_ids quarantined (resource_id_of s.resource)) w
      else if not s.closeout.provider_not_found
      then observe_absence s w
      else prove_spend s w

  -- the provision operation of a run that has no known resource
  unfoldable pub resolve_provision : RunState → Operation → Operation → W → Step W
  resolve_provision s op provision w =
      if s.closeout.provision_absence_confirmed
      then delete_resources s op w
      else let answer = p.find_resources provision.id w in
        after_absence_find c s provision answer.0 answer.1

  unfoldable pub with_delete_operation : RunState → Operation → W → Step W
  with_delete_operation s op w = elim s.resource [
    | some r ↦ delete_resources s op w
    | none ↦ elim s.provision [
      | none ↦ delete_resources s op w
      | some provision ↦ resolve_provision s op provision w
    ]
  ]

  unfoldable pub reconcile_delete : RunState → W → Step W
  reconcile_delete s w = elim s.closeout.artifact_disposition [
    | none ↦ raise (invalid_transition "deletion requires an artifact disposition") w
    | some disposition ↦ elim s.delete [
      | none ↦ raise (conflict "state field 'delete' must be an object") w
      | some op ↦ with_delete_operation s op w
    ]
  ]
