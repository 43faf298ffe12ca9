-- ===== src/Lifecycle/Pods/Steps.antt =====
-- The provision and start steps keep the provider's resources owned.
use runpod_jobrunner.Prelude.{◌≡◌, [], none, arith}
use text.Mathlib.TextPositions.{eq_refl}
use runpod_jobrunner.Provider.Memory.{
  MemoryRunPod, MemorySpec, memory_provider, find_resources, create, get, start_resource, lookup,
  assign, created_by,
}
use runpod_jobrunner.Lifecycle.State.{LifecycleState, Operation}
use runpod_jobrunner.Lifecycle.Step.{Context}
use runpod_jobrunner.Lifecycle.Provision.{
  intend_provision, dispatch_create, create_with_request, after_no_match, after_provision_find,
  reconcile_provision,
}
use runpod_jobrunner.Lifecycle.Start.{reconcile_start}
use runpod_jobrunner.Lifecycle.Pods.{System, Throughout}
use runpod_jobrunner.Lifecycle.Pods.Invariant.{IsOwned}

module _ (c : Context MemorySpec) (e : System) where
  pub intend_provision-IsOwned :
      IsOwned e
      → e.state.lifecycle ≡ LifecycleState.planned
      → (final : MemoryRunPod)
      → Throughout IsOwned final e (intend_provision c e.state e.pod).actions
  unfolding intend_provision
  intend_provision-IsOwned h l final = ground arith

  pub reconcile_start-IsOwned :
      IsOwned e
      → e.state.lifecycle ≡ LifecycleState.starting
      → Throughout IsOwned
          (reconcile_start c memory_provider e.state e.pod).world
          e
          (reconcile_start c memory_provider e.state e.pod).actions
  unfolding reconcile_start get start_resource lookup assign
  reconcile_start-IsOwned h l = ground arith

  dispatch_create-IsOwned :
      IsOwned e
      → e.state.lifecycle ≡ LifecycleState.provisioning
      → e.pod.resources ≡ []
      → e.state.resource ≡ none
      → (op : Operation) (spec : MemorySpec)
      → Throughout IsOwned
          (dispatch_create c memory_provider e.state op spec e.pod).world
          e
          (dispatch_create c memory_provider e.state op spec e.pod).actions
  unfolding dispatch_create create assign
  dispatch_create-IsOwned h l n r op spec = ground arith

  pub reconcile_provision-IsOwned :
      IsOwned e
      → e.state.lifecycle ≡ LifecycleState.provisioning
      → Throughout IsOwned
          (reconcile_provision c memory_provider e.state e.pod).world
          e
          (reconcile_provision c memory_provider e.state e.pod).actions
  unfolding reconcile_provision after_provision_find after_no_match create_with_request
      find_resources created_by
  reconcile_provision-IsOwned h l = grind (arith, eq_refl, dispatch_create-IsOwned h l)
