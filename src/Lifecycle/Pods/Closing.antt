-- ===== src/Lifecycle/Pods/Closing.antt =====
-- How far a run that lifecycle.py is deleting is from its closeout, with the provider fake free of
-- faults.
pub mod Search
pub mod Removal
pub mod Liveness
pub mod Ends
use runpod_jobrunner.Prelude.{
  ℕ, zero, suc, ◌+◌, ◌≤◌, ◌<◌, ◌≡◌, String, List, [], ◌∷◌, Option, none, some, Bool, true, false,
  not, ◌||◌, is_some, is_empty,
}
use runpod_jobrunner.Provider.Memory.{MemoryRunPod, MemorySpec, memory_provider}
use runpod_jobrunner.Lifecycle.State.{RunState, LifecycleState, Datetime, TimeText, iso}
use runpod_jobrunner.Lifecycle.Step.{Context, Step, Action, ok}
use runpod_jobrunner.Lifecycle.Closeout.{
  provision_absence_grace, needs_resolution, resolution_proves, provider_termination_deadline,
}
use runpod_jobrunner.Lifecycle.Controller.{reconcile}
use runpod_jobrunner.Lifecycle.Invariant.{provision_settled}
use runpod_jobrunner.Lifecycle.Pods.{System, follow}
use runpod_jobrunner.Lifecycle.Pods.Invariant.{IsOwned}

abbrev pub settle : MemoryRunPod → System → List Action → System
settle final e [] = e
settle final e (a ∷ actions) = settle final (follow final e a) actions

abbrev pub settle_step : System → Step MemoryRunPod → System
settle_step e step = settle step.world e step.actions

-- one reconcile, whole
unfoldable pub tick : Context MemorySpec → System → System
tick c e = settle_step e (reconcile c memory_provider e.state e.pod)

unfoldable pub ticks : List (Context MemorySpec) → System → System
ticks [] e = e
ticks (c ∷ cs) e = ticks cs (tick c e)

-- the resolution that closeout wants, where it wants one
abbrev pub resolution_ok : TimeText → Datetime → RunState → Bool
resolution_ok text deadline s = is_some s.resource || elim s.provision [
  | none ↦ true
  | some op ↦ not (needs_resolution op) || elim s.closeout.provision_resolution [
    | none ↦ false
    | some resolution ↦ resolution_proves s.closeout op resolution text deadline
  ]
]

-- What a deleting run has until it is closed, with no fault ahead at the provider.
pub record IsClosing (e : System) : Type 0 where
  pub deleting : e.state.lifecycle ≡ LifecycleState.deleting
  pub disposed : is_some e.state.closeout.artifact_disposition ≡ true
  pub has_delete : is_some e.state.delete ≡ true
  pub no_scope : e.state.closeout.current_spend_scope ≡ none
  pub faultless : e.pod.fail_after_effect ≡ []
  pub unforced : e.pod.forced_current_spend_usd_per_hour ≡ none
  pub ownership : IsOwned e

-- The stages of a deletion, in their order.
pub data Stage : Type 0 where
  searching : Stage
  waiting : Datetime → Stage
  resolved : Stage
  emptied : Stage
  absent : Stage
  shut : Stage

-- the reconciles that are left at most
abbrev pub rank : Stage → ℕ
rank searching = 5
rank (waiting since) = 4
rank resolved = 3
rank emptied = 2
rank absent = 1
rank shut = 0

module _ (text : TimeText) (deadline : Datetime) where
  abbrev pub IsSettled : System → Type 0
  IsSettled e =
      IsClosing e
      × (provision_settled e.state ≡ true)
      × (resolution_ok text deadline e.state ≡ true)

  abbrev pub IsAt : System → Stage → Type 0
  IsAt e searching =
      IsClosing e
      × (e.state.resource ≡ none)
      × (is_some e.state.provision ≡ true)
      × (e.state.closeout.provision_absence_confirmed ≡ false)
      × (e.state.closeout.delete_acknowledged ≡ false)
      × (e.state.closeout.provider_not_found ≡ false)
      × (e.state.closeout.delete_acknowledged_resource_ids ≡ [])
      × (e.state.closeout.provision_absence_first_observed_at ≡ none)
  IsAt e (waiting since) =
      IsClosing e
      × (e.state.resource ≡ none)
      × (is_some e.state.provision ≡ true)
      × (e.state.closeout.provision_absence_confirmed ≡ false)
      × (e.state.closeout.delete_acknowledged ≡ false)
      × (e.state.closeout.provider_not_found ≡ false)
      × (e.state.closeout.delete_acknowledged_resource_ids ≡ [])
      × (e.state.closeout.provision_absence_first_observed_at ≡ some (iso since))
      × (since.aware ≡ true)
      × (deadline.instant ≤ since.instant)
      × (e.pod.resources ≡ [])
  IsAt e resolved =
      IsSettled e
      × (e.state.closeout.delete_acknowledged ≡ false)
      × (e.state.closeout.provider_not_found ≡ false)
      × (e.state.closeout.delete_acknowledged_resource_ids ≡ [])
  IsAt e emptied =
      IsSettled e
      × (e.state.closeout.delete_acknowledged ≡ true)
      × (e.state.closeout.provider_not_found ≡ false)
  IsAt e absent =
      IsSettled e
      × (e.state.closeout.delete_acknowledged ≡ true)
      × (e.state.closeout.provider_not_found ≡ true)
  IsAt e shut = (e.state.lifecycle ≡ LifecycleState.closed) × (e.pod.resources ≡ [])

  -- the earliest time at which the next reconcile makes progress
  abbrev pub not_before : Stage → ℕ
  not_before (waiting since) = since.instant + provision_absence_grace
  not_before _ = deadline.instant

  -- A reconcile with the run's stored request, at a time that is late enough.
  pub record IsDue (stage : Stage) (c : Context MemorySpec) : Type 0 where
    pub deadline_is : provider_termination_deadline c ≡ ok (text, deadline)
    pub aware : c.now.aware ≡ true
    pub due : not_before stage ≤ c.now.instant
    pub after_deadline : deadline.instant ≤ c.now.instant

  -- The next stage is nearer to the end, and is due no later than a grace period after this one.
  abbrev pub Nearer : Context MemorySpec → Stage → System → Type 0
  Nearer c stage e =
      (next : Stage) × (rank next < rank stage)
      × (not_before next ≤ c.now.instant + provision_absence_grace)
      × IsAt e next
