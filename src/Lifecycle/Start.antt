-- ===== src/Lifecycle/Start.antt =====
-- `_reconcile_start` of lifecycle.py.
use runpod_jobrunner.Prelude.{◌+◌, String, Option, none, some}
use runpod_jobrunner.Provider.{
  Provider, ProviderResource, ProviderResourceState, Answer, returned, raised, rejected,
  outcome_unknown, failed, escaped,
}
use runpod_jobrunner.Lifecycle.State.{
  RunState, Operation, OperationStatus, cancelled, projected, projection_id,
  resource_disappeared_before_start,
}
use runpod_jobrunner.Lifecycle.State.{LifecycleState}
use runpod_jobrunner.Lifecycle.Step.{
  Context, Step, OperationKind, start_call, done, raise, after, ensure_delete, unavailable_because,
  conflict, provider_error, provider_resource_missing, resource_running, resource_starting,
}
use runpod_jobrunner.Lifecycle.Failures.{
  record_provider_rejection, record_provider_error, record_outcome_unknown,
}

module _ {Spec W : Type 0} (c : Context Spec) (s : RunState) (op : Operation) where
  unfoldable pub resource_missing : W → Step W
  resource_missing w =
      done provider_resource_missing
        (ensure_delete c (record s {
          recovery_reason = some resource_disappeared_before_start;
          workload_result = some cancelled;
          start = some (record op { status = OperationStatus.resource_not_found });
          closeout = record s.closeout {
            artifact_disposition =
                unavailable_because "provider resource disappeared before workload start";
          };
          lifecycle = LifecycleState.deleting;
        }))
        w

module _ {W : Type 0} (s : RunState) (op : Operation) where
  unfoldable pub start_acknowledged : ProviderResource → W → Step W
  start_acknowledged r w =
      let s' = record s {
        resource = some (projected r);
        start = some (record op { status = OperationStatus.acknowledged });
      } in
      elim r.state [
        | ProviderResourceState.running ↦
            done resource_running (record s' { lifecycle = LifecycleState.running }) w
        | _ ↦ done resource_starting s' w
      ]

module _ {Spec W : Type 0} (c : Context Spec) (s : RunState) (op : Operation) where
  -- `op` counts the attempt already
  unfoldable pub after_start : Answer ProviderResource → W → Step W
  unfolding start_acknowledged record_provider_rejection record_provider_error
      record_outcome_unknown
  after_start (returned r) w = start_acknowledged s op r w
  after_start (raised (rejected m ids)) w =
      record_provider_rejection c OperationKind.start op s m ids w
  after_start (raised (outcome_unknown m)) w =
      record_outcome_unknown OperationKind.start op s m (outcome_unknown m) w
  after_start (raised (failed m)) w = record_provider_error OperationKind.start op s m (failed m) w
  after_start (raised (escaped m)) w = raise (provider_error (escaped m)) w

module _ {Spec W : Type 0} (c : Context Spec) (p : Provider Spec W) (s : RunState)
    (op : Operation) where
  unfoldable pub after_observation : String → ProviderResource → W → Step W
  unfolding after_start
  after_observation resource_id r w =
      let s' = record s { resource = some (projected r) } in
      let op' = record op { attempts = op.attempts + 1 } in
      let answer = p.start resource_id op.id w in
      elim r.state [
        | ProviderResourceState.running ↦
            done resource_running
              (record s' {
                start = some (record op { status = OperationStatus.observed_running });
                lifecycle = LifecycleState.running;
              })
              w
        | _ ↦
            after (start_call resource_id op.id)
              (after_start c (record s' { start = some op' }) op' answer.0 answer.1)
      ]

  unfoldable pub after_get : String → Answer (Option ProviderResource) → W → Step W
  unfolding after_observation resource_missing record_provider_rejection
  after_get resource_id (returned none) w = resource_missing c s op w
  after_get resource_id (returned (some r)) w = after_observation resource_id r w
  after_get resource_id (raised (rejected m ids)) w =
      record_provider_rejection c OperationKind.start op s m ids w
  after_get resource_id (raised (outcome_unknown m)) w =
      raise (provider_error (outcome_unknown m)) w
  after_get resource_id (raised (failed m)) w = raise (provider_error (failed m)) w
  after_get resource_id (raised (escaped m)) w = raise (provider_error (escaped m)) w

module _ {Spec W : Type 0} (c : Context Spec) (p : Provider Spec W) where
  unfoldable pub reconcile_start : RunState → W → Step W
  unfolding after_get
  reconcile_start s w = elim s.resource [
    | none ↦ raise (conflict "state field 'resource' must be an object") w
    | some r ↦ elim s.start [
      | none ↦ raise (conflict "state field 'start' must be an object") w
      | some op ↦
          let answer = p.get (projection_id r) w in
          after_get c p s op (projection_id r) answer.0 answer.1
    ]
  ]
