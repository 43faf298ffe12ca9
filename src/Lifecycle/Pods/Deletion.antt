-- ===== src/Lifecycle/Pods/Deletion.antt =====
-- The deletion steps keep the provider's resources owned.
use runpod_jobrunner.Prelude.{◌≡◌, String, [], Option, none, some, true, false, arith}
use text.Mathlib.TextPositions.{eq_refl}
use runpod_jobrunner.Provider.Memory.{
  MemorySpec, memory_provider, find_resources, get, delete_resource, lookup, pop, created_by,
}
use runpod_jobrunner.Lifecycle.State.{LifecycleState, Operation}
use runpod_jobrunner.Lifecycle.Step.{Context}
use runpod_jobrunner.Lifecycle.Absence.{after_absence_find}
use runpod_jobrunner.Lifecycle.Closeout.{resource_id_of}
use runpod_jobrunner.Lifecycle.Delete.{
  first_pending, delete_ids, acknowledged_state, delete_next, delete_pending, observe_absence,
  prove_spend, delete_resources, resolve_provision, with_delete_operation, reconcile_delete,
}
use runpod_jobrunner.Lifecycle.Invariant.{provision_settled}
use runpod_jobrunner.Lifecycle.Pods.{System, Throughout}
use runpod_jobrunner.Lifecycle.Pods.Invariant.{IsOwned}

module _ (c : Context MemorySpec) (e : System) (h : IsOwned e)
    (l : e.state.lifecycle ≡ LifecycleState.deleting) where
  -- the one resource that a run without quarantine can know
  delete_next-IsOwned :
      (op : Operation) (next : Option String)
      → provision_settled e.state ≡ true
      → next
        ≡ first_pending e.state.closeout.delete_acknowledged_resource_ids
            (delete_ids [] (resource_id_of e.state.resource))
      → Throughout IsOwned
          (delete_next c memory_provider e.state op
            (delete_ids [] (resource_id_of e.state.resource))
            next
            e.pod).world
          e
          (delete_next c memory_provider e.state op
            (delete_ids [] (resource_id_of e.state.resource))
            next
            e.pod).actions
  unfolding delete_next acknowledged_state delete_resource pop
  delete_next-IsOwned op none f n = grind (arith, eq_refl)
  delete_next-IsOwned op (some id) f n = grind (arith, eq_refl)

  observe_absence-IsOwned :
      provision_settled e.state ≡ true
      → Throughout IsOwned
          (observe_absence c memory_provider e.state e.pod).world
          e
          (observe_absence c memory_provider e.state e.pod).actions
  unfolding observe_absence find_resources get lookup
  observe_absence-IsOwned f = grind (arith, eq_refl)

  prove_spend-IsOwned :
      Throughout IsOwned
        (prove_spend c memory_provider e.state e.pod).world
        e
        (prove_spend c memory_provider e.state e.pod).actions
  unfolding prove_spend
  prove_spend-IsOwned = ground arith

  delete_resources-IsOwned :
      (op : Operation)
      → provision_settled e.state ≡ true
      → Throughout IsOwned
          (delete_resources c memory_provider e.state op e.pod).world
          e
          (delete_resources c memory_provider e.state op e.pod).actions
  unfolding delete_resources delete_pending
  delete_resources-IsOwned op f =
      grind (arith, delete_next-IsOwned, observe_absence-IsOwned, prove_spend-IsOwned)

  -- the look for a resource of a run that knows none
  after_absence_find-IsOwned :
      (provision : Operation)
      → e.state.provision ≡ some provision
      → e.state.resource ≡ none
      → e.state.closeout.provision_absence_confirmed ≡ false
      → Throughout IsOwned
          (after_absence_find c e.state provision (find_resources provision.id e.pod).0 e.pod).world
          e
          (after_absence_find c e.state provision
            (find_resources provision.id e.pod).0
            e.pod).actions
  unfolding after_absence_find find_resources created_by
  after_absence_find-IsOwned provision v r f = grind (arith, eq_refl provision.id)

  pub reconcile_delete-IsOwned :
      Throughout IsOwned
        (reconcile_delete c memory_provider e.state e.pod).world
        e
        (reconcile_delete c memory_provider e.state e.pod).actions
  unfolding reconcile_delete with_delete_operation resolve_provision find_resources
  reconcile_delete-IsOwned = grind (arith, delete_resources-IsOwned, after_absence_find-IsOwned)
