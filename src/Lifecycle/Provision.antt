-- ===== src/Lifecycle/Provision.antt =====
-- `_intend_provision`, `_reconcile_provision`, `_record_provision_visibility_pending` and
-- `_record_provisioned` of lifecycle.py, each provider answer with a function of its own.
use runpod_jobrunner.Prelude.{
  ◌+◌, ◌-◌, String, List, [], ◌∷◌, map, Option, none, some, not, ◌&&◌, ◌==◌, ltb, or_else,
  if◌then◌else◌, concat, last_chars,
}
use runpod_jobrunner.Provider.{
  Provider, ProviderResource, ProviderCreateRequest, Answer, returned, raised, rejected,
  outcome_unknown, failed, escaped,
}
use runpod_jobrunner.Lifecycle.State.{
  RunState, Operation, OperationStatus, Datetime, iso, from_isoformat, cancelled, projected, absent,
  malformed, present, duplicate_provider_resources, provision_dispatch_unresolved,
}
use runpod_jobrunner.Lifecycle.State.{LifecycleState}
use runpod_jobrunner.Lifecycle.Step.{
  Context, Step, OperationKind, commit, create_call, done, raise, after, new_operation, set_default,
  ensure_delete, unavailable_because, conflict, protocol_error, provider_error,
  provider_operation_intended, provider_operation_dispatched, resource_provisioned,
  provider_reconciliation_conflict_quarantined, provider_resource_visibility_pending,
  provider_create_visibility_exhausted,
}
use runpod_jobrunner.Lifecycle.Failures.{
  record_provider_rejection, record_provider_error, record_outcome_unknown,
}

abbrev pub resource_ids_of : List ProviderResource → List String
resource_ids_of = map (λ r. r.id)

module _ {Spec W : Type 0} (c : Context Spec) where
  unfoldable pub intend_provision : RunState → W → Step W
  intend_provision s w =
      done provider_operation_intended
        (record s {
          provision = set_default s.provision (new_operation c s.run_id OperationKind.provision);
          lifecycle = LifecycleState.provisioning;
        })
        w

  -- the body of `_record_provisioned`, once the provision operation is at hand
  unfoldable pub record_observed : RunState → Operation → ProviderResource → W → Step W
  record_observed s op r w =
      if not (r.run_id == s.run_id)
      then raise (protocol_error "provider resource run ID mismatch") w
      else if not (r.create_operation_id == op.id)
      then raise (protocol_error "provider resource operation ID mismatch") w
      else done resource_provisioned
          (record s {
            provision =
                some (record op { status = OperationStatus.observed; resource_id = some r.id });
            start = set_default s.start (new_operation c s.run_id OperationKind.start);
            resource = some (projected r);
            lifecycle = LifecycleState.starting;
          })
          w

  unfoldable pub record_provisioned : RunState → ProviderResource → W → Step W
  unfolding record_observed
  record_provisioned s r w = elim s.provision [
    | none ↦ raise (conflict "state field 'provision' must be an object") w
    | some op ↦ record_observed s op r w
  ]

  -- more than one resource for one create
  unfoldable pub quarantine_duplicates :
      RunState → Operation → ProviderResource → List ProviderResource → W → Step W
  quarantine_duplicates s op r rest w =
      let ids = resource_ids_of (r ∷ rest) in
      done provider_reconciliation_conflict_quarantined
        (ensure_delete c (record s {
          recovery_reason = some duplicate_provider_resources;
          provision = some (record op { status = OperationStatus.conflict; resource_ids = ids });
          quarantined_resource_ids = some ids;
          resource = some (projected r);
          workload_result = some cancelled;
          closeout = record s.closeout {
            artifact_disposition = unavailable_because "duplicate provider resources quarantined";
          };
          lifecycle = LifecycleState.deleting;
        }))
        w

  unfoldable pub visibility_exhausted : RunState → Operation → W → Step W
  visibility_exhausted s op w =
      done provider_create_visibility_exhausted
        (ensure_delete c (record s {
          provision = some (record op { status = OperationStatus.unresolved });
          recovery_reason = some provision_dispatch_unresolved;
          workload_result = some cancelled;
          closeout = record s.closeout {
            artifact_disposition =
                unavailable_because
                  "provider create was dispatched but its exact resource did not become visible";
          };
          lifecycle = LifecycleState.recovering;
        }))
        w

  -- `first` is the instant from which visibility is awaited
  unfoldable pub observe_visibility : RunState → Operation → Option Datetime → W → Step W
  unfolding visibility_exhausted
  observe_visibility s op none w = raise (conflict "provision dispatch timestamp is invalid") w
  observe_visibility s op (some first) w =
      if not (first.aware && c.now.aware)
      then raise (conflict "provision dispatch timestamp must be timezone-aware") w
      else if ltb c.now.instant first.instant
      then raise (conflict "provision dispatch timestamp is in the future") w
      else let op' = record op {
        visibility_observations = op.visibility_observations + 1;
        last_visibility_observed_at = some (iso c.now);
      } in
        if ltb (c.now.instant - first.instant) c.provision_visibility_grace
        then done provider_resource_visibility_pending (record s { provision = some op' }) w
        else visibility_exhausted s op' w

  unfoldable pub record_provision_visibility_pending : RunState → Operation → W → Step W
  unfolding observe_visibility
  record_provision_visibility_pending s op w =
      elim (or_else op.dispatched_at op.visibility_first_observed_at) [
        | some first ↦ observe_visibility s op (from_isoformat first) w
        | none ↦
            observe_visibility s (record op { visibility_first_observed_at = some (iso c.now) })
              (some c.now) w
      ]

  -- after `provider.create`; `s` is the state that was committed as dispatched
  unfoldable pub after_create : RunState → Operation → Answer ProviderResource → W → Step W
  unfolding record_provisioned record_provider_rejection record_provider_error
      record_outcome_unknown
  after_create s op (returned r) w = record_provisioned s r w
  after_create s op (raised (rejected m ids)) w =
      record_provider_rejection c OperationKind.provision op s m ids w
  after_create s op (raised (outcome_unknown m)) w =
      record_outcome_unknown OperationKind.provision op s m (outcome_unknown m) w
  after_create s op (raised (failed m)) w =
      record_provider_error OperationKind.provision op s m (failed m) w
  after_create s op (raised (escaped m)) w = raise (provider_error (escaped m)) w

module _ {Spec W : Type 0} (c : Context Spec) (p : Provider Spec W) where
  unfoldable pub dispatch_create : RunState → Operation → Spec → W → Step W
  unfolding after_create
  dispatch_create s op spec w =
      let request : ProviderCreateRequest Spec = record {
        run_id = s.run_id;
        operation_id = op.id;
        resource_name = concat "rjr-" (concat s.run_id (concat "-" (last_chars 8 op.id)));
        spec = spec;
      } in
      let op' = record op {
        attempts = op.attempts + 1;
        status = OperationStatus.dispatched;
        dispatched_at = some (iso c.now);
      } in
      let s' = record s { provision = some op' } in
      let answer = p.create request w in
      after (commit provider_operation_dispatched s')
        (after (create_call op.id) (after_create c s' op' answer.0 answer.1))

  unfoldable pub create_with_request : RunState → Operation → W → Step W
  unfolding dispatch_create
  create_with_request s op w = elim c.provider [
    | absent ↦ dispatch_create s op c.empty_spec w
    | malformed ↦ raise (protocol_error "request.provider must be an object") w
    | present provider ↦ dispatch_create s op provider.spec w
  ]

  -- no resource is visible: create one if the operation is still only intended
  unfoldable pub after_no_match : RunState → Operation → W → Step W
  unfolding create_with_request record_provision_visibility_pending
  after_no_match s op w = elim op.status [
    | OperationStatus.intended ↦ create_with_request s op w
    | _ ↦ record_provision_visibility_pending c s op w
  ]

  unfoldable pub after_provision_find :
      RunState → Operation → Answer (List ProviderResource) → W → Step W
  unfolding after_no_match record_provisioned quarantine_duplicates record_provider_rejection
  after_provision_find s op (returned []) w = after_no_match s op w
  after_provision_find s op (returned (r ∷ [])) w = record_provisioned c s r w
  after_provision_find s op (returned (r ∷ q ∷ rest)) w =
      quarantine_duplicates c s op r (q ∷ rest) w
  after_provision_find s op (raised (rejected m ids)) w =
      record_provider_rejection c OperationKind.provision op s m ids w
  after_provision_find s op (raised (outcome_unknown m)) w =
      raise (provider_error (outcome_unknown m)) w
  after_provision_find s op (raised (failed m)) w = raise (provider_error (failed m)) w
  after_provision_find s op (raised (escaped m)) w = raise (provider_error (escaped m)) w

  unfoldable pub reconcile_provision : RunState → W → Step W
  unfolding after_provision_find
  reconcile_provision s w = elim s.provision [
    | none ↦ raise (conflict "state field 'provision' must be an object") w
    | some op ↦ let answer = p.find_resources op.id w in after_provision_find s op answer.0 answer.1
  ]
