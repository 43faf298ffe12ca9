-- ===== src/Lifecycle/Invariant/Steps.antt =====
-- The provision and start steps keep the invariants.
use runpod_jobrunner.Prelude.{◌≡◌, arith}
use runpod_jobrunner.Provider.{Provider}
use runpod_jobrunner.Lifecycle.State.{LifecycleState}
use runpod_jobrunner.Lifecycle.Step.{Context}
use runpod_jobrunner.Lifecycle.Provision.{intend_provision, reconcile_provision}
use runpod_jobrunner.Lifecycle.Start.{reconcile_start}
use runpod_jobrunner.Lifecycle.History.{Track, Along, Keeps}
use runpod_jobrunner.Lifecycle.Invariant.{IsBacked, IsSound, Intended}

module _ {Spec W : Type 0} (c : Context Spec) (t : Track) (w : W) where
  pub intend_provision-IsBacked :
      IsBacked t → Along (Keeps IsBacked) t (intend_provision c t.state w).actions
  unfolding intend_provision
  intend_provision-IsBacked h = ground arith

  pub intend_provision-IsSound :
      IsSound t
      → t.state.lifecycle ≡ LifecycleState.planned
      → Along (Keeps IsSound) t (intend_provision c t.state w).actions
  unfolding intend_provision
  intend_provision-IsSound h e = ground arith

  pub intend_provision-Intended : Along Intended t (intend_provision c t.state w).actions
  unfolding intend_provision
  intend_provision-Intended = ground arith

module _ {Spec W : Type 0} (c : Context Spec) (p : Provider Spec W) (t : Track) (w : W) where
  pub reconcile_provision-IsBacked :
      IsBacked t → Along (Keeps IsBacked) t (reconcile_provision c p t.state w).actions
  unfolding reconcile_provision
  reconcile_provision-IsBacked h = ground arith

  pub reconcile_provision-IsSound :
      IsSound t
      → t.state.lifecycle ≡ LifecycleState.provisioning
      → Along (Keeps IsSound) t (reconcile_provision c p t.state w).actions
  unfolding reconcile_provision
  reconcile_provision-IsSound h e = ground arith

  pub reconcile_provision-Intended :
      IsBacked t → Along Intended t (reconcile_provision c p t.state w).actions
  unfolding reconcile_provision
  reconcile_provision-Intended h = ground arith

  pub reconcile_start-IsBacked :
      IsBacked t → Along (Keeps IsBacked) t (reconcile_start c p t.state w).actions
  unfolding reconcile_start
  reconcile_start-IsBacked h = ground arith

  pub reconcile_start-IsSound :
      IsSound t
      → t.state.lifecycle ≡ LifecycleState.starting
      → Along (Keeps IsSound) t (reconcile_start c p t.state w).actions
  unfolding reconcile_start
  reconcile_start-IsSound h e = ground arith

  pub reconcile_start-Intended : Along Intended t (reconcile_start c p t.state w).actions
  unfolding reconcile_start
  reconcile_start-Intended = ground arith
