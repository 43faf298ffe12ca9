-- ===== src/Lifecycle/Pods/Closing/Removal.antt =====
-- The deletion, the absence and the spend in lifecycle.py, after the provision is resolved.
use runpod_jobrunner.Prelude.{
  ◌≡◌, inl, inr, refl, String, [], Option, none, some, true, false, arith, is_some,
}
use text.Mathlib.TextPositions.{eq_refl}
use runpod_jobrunner.Provider.{returned, amount}
use runpod_jobrunner.Provider.Memory.{
  MemorySpec, MemoryRunPod, memory_provider, get, delete_resource, lookup,
  current_spend_usd_per_hour,
}
use runpod_jobrunner.Lifecycle.State.{
  RunState, LifecycleState, Datetime, TimeText, Operation, SpendScope, spend_scope_eq,
}
use runpod_jobrunner.Lifecycle.Step.{Context, Error, ok, err, done, closeout_completed}
use runpod_jobrunner.Lifecycle.Closeout.{
  operation_spend_scope, resolution_proves, provision_resolution_is_complete, check_resolution,
  current_spend_scope, assert_closeout_ready, resource_id_of, provider_termination_deadline,
}
use runpod_jobrunner.Lifecycle.Delete.{
  record_spend, acknowledged_state, delete_next, observe_absence, prove_spend, first_pending,
  delete_ids,
}
use runpod_jobrunner.Lifecycle.Deadline.{Result-cases}
use runpod_jobrunner.Lifecycle.Pods.{System}
use runpod_jobrunner.Lifecycle.Pods.Invariant.{IsOwned}
use runpod_jobrunner.Lifecycle.Pods.Closing.{
  settle_step, resolution_ok, emptied, absent, shut, resolved, IsAt,
}

-- a state with its spend recorded
abbrev spent : RunState → SpendScope → RunState
spent s scope = record s {
  closeout = record s.closeout {
    current_spend_usd_per_hour = some 0;
    current_spend_scope = some scope;
  };
}

module _ (c : Context MemorySpec) (s : RunState) (scope : SpendScope) where
  resolution-spent :
      provision_resolution_is_complete c (spent s scope) (spent s scope).closeout
      ≡ provision_resolution_is_complete c s s.closeout
  unfolding provision_resolution_is_complete check_resolution resolution_proves
  resolution-spent = refl

  scope-spent :
      current_spend_scope c (spent s scope) (spent s scope).closeout (resource_id_of s.resource)
      ≡ current_spend_scope c s s.closeout (resource_id_of s.resource)
  unfolding current_spend_scope operation_spend_scope provision_resolution_is_complete
      check_resolution resolution_proves
  scope-spent = refl

  spend_scope_eq_refl : spend_scope_eq scope scope ≡ true
  spend_scope_eq_refl = grind (arith, eq_refl)

  record_spend-closed :
      (w : MemoryRunPod)
      → current_spend_scope c s s.closeout (resource_id_of s.resource) ≡ ok scope
      → provision_resolution_is_complete c s s.closeout ≡ ok true
      → is_some s.closeout.artifact_disposition ≡ true
      → s.closeout.delete_acknowledged ≡ true
      → s.closeout.provider_not_found ≡ true
      → record_spend c s scope (returned (amount 0)) w
        ≡ done closeout_completed (record (spent s scope) { lifecycle = LifecycleState.closed }) w
  unfolding record_spend assert_closeout_ready
  record_spend-closed w h k a b d =
      ground (arith, scope-spent, resolution-spent, spend_scope_eq_refl)

module _ (text : TimeText) (deadline : Datetime) (c : Context MemorySpec) (e : System)
    (deadline_is : provider_termination_deadline c ≡ ok (text, deadline)) where
  resolution_complete :
      resolution_ok text deadline e.state ≡ true
      → provision_resolution_is_complete c e.state e.state.closeout ≡ ok true
  unfolding provision_resolution_is_complete check_resolution
  resolution_complete h = ground arith

  scope_raises :
      (x : Error)
      → current_spend_scope c e.state e.state.closeout (resource_id_of e.state.resource) ≡ err x
      → resolution_ok text deadline e.state ≡ false
  unfolding current_spend_scope
  scope_raises x h = ground (arith, resolution_complete)

  -- the provider bills nothing, and the scope is one that spends nothing
  prove_spend-closed :
      IsAt text deadline e absent
      → (scope : SpendScope)
      → current_spend_scope c e.state e.state.closeout (resource_id_of e.state.resource) ≡ ok scope
      → prove_spend c memory_provider e.state e.pod
        ≡ done closeout_completed
            (record (spent e.state scope) { lifecycle = LifecycleState.closed })
            e.pod
  unfolding prove_spend current_spend_usd_per_hour lookup
  prove_spend-closed h scope k =
      ground (
        arith,
        record_spend-closed c e.state scope e.pod,
        resolution_complete,
        h.0.0.ownership.gone,
      )

  pub prove_spend-shut :
      IsAt text deadline e absent
      → IsAt text deadline (settle_step e (prove_spend c memory_provider e.state e.pod)) shut
  prove_spend-shut h =
      elim (Result-cases
        (current_spend_scope c e.state e.state.closeout (resource_id_of e.state.resource))) [
          | inl (scope, k) ↦
              rw (prove_spend-closed h scope k) (ground (arith, h.0.0.ownership.gone))
          | inr (x, k) ↦ absurd (ground (arith, scope_raises x k))
        ]

  pub delete_next-emptied :
      IsAt text deadline e resolved
      → (op : Operation) (next : Option String)
      → next ≡ first_pending [] (delete_ids [] (resource_id_of e.state.resource))
      → let f = settle_step e (
          delete_next c memory_provider e.state op
            (delete_ids [] (resource_id_of e.state.resource))
            next
            e.pod) in
        (IsOwned f → IsAt text deadline f emptied)
  unfolding delete_next acknowledged_state delete_resource resolution_proves
  delete_next-emptied h op none n = λ k. grind (arith, eq_refl)
  delete_next-emptied h op (some id) n = λ k. grind (arith, eq_refl)

  pub observe_absence-absent :
      IsAt text deadline e emptied
      → IsOwned (settle_step e (observe_absence c memory_provider e.state e.pod))
      → IsAt text deadline (settle_step e (observe_absence c memory_provider e.state e.pod)) absent
  unfolding observe_absence get lookup resolution_proves
  observe_absence-absent h k = ground (arith, h.0.0.ownership.gone)
