-- ===== src/Lifecycle/Invariant.antt =====
-- What holds of a run's durable state in every history of lifecycle.py's controller. The children
-- prove it of each call.
pub mod Steps
pub mod Deletion
pub mod Calls
use runpod_jobrunner.Prelude.{
  ◌≤◌, ◌<◌, ◌≡◌, String, List, [], ◌∷◌, Option, none, some, Bool, true, false, not, ◌&&◌, ◌||◌,
  is_some,
}
use runpod_jobrunner.Lifecycle.State.{RunState, LifecycleState, Operation, OperationStatus}
use runpod_jobrunner.Lifecycle.Step.{Action, commit, create_call, start_call, delete_call}
use runpod_jobrunner.Lifecycle.Closeout.{resource_id_of, is_zero_spend}
use runpod_jobrunner.Lifecycle.Delete.{ids_or_empty, delete_ids, all_acknowledged, first_pending}
use runpod_jobrunner.Lifecycle.History.{Track}

abbrev pub is_intended : OperationStatus → Bool
is_intended OperationStatus.intended = true
is_intended _ = false

abbrev pub was_dispatched : Option Operation → Bool
was_dispatched none = false
was_dispatched (some op) = not (is_intended op.status)

abbrev pub is_early : LifecycleState → Bool
is_early LifecycleState.planned = true
is_early LifecycleState.provisioning = true
is_early LifecycleState.starting = true
is_early LifecycleState.running = true
is_early _ = false

abbrev pub is_empty_quarantine : Option (List String) → Bool
is_empty_quarantine none = false
is_empty_quarantine (some []) = true
is_empty_quarantine (some (id ∷ ids)) = false

-- every resource that the state knows has an acknowledged deletion
abbrev pub all_deleted : RunState → Bool
all_deleted s =
    all_acknowledged s.closeout.delete_acknowledged_resource_ids
      (delete_ids (ids_or_empty s.quarantined_resource_ids) (resource_id_of s.resource))

abbrev pub provision_settled : RunState → Bool
provision_settled s =
    is_some s.resource || (not (is_some s.provision) || s.closeout.provision_absence_confirmed)

-- The creates that the provider has ever been sent are backed by the durable operation.
pub record IsBacked (t : Track) : Type 0 where
  pub once : t.creates ≤ 1
  pub backed : 0 < t.creates → was_dispatched t.state.provision ≡ true

-- The lifecycle has what its next step needs, and what deletion and closeout have established.
pub record IsSound (t : Track) : Type 0 where
  pub provisioning_ready :
      t.state.lifecycle ≡ LifecycleState.provisioning → is_some t.state.provision ≡ true
  pub starting_ready :
      t.state.lifecycle ≡ LifecycleState.starting
      → (is_some t.state.resource && is_some t.state.start) ≡ true
  pub deleting_ready :
      t.state.lifecycle ≡ LifecycleState.deleting
      → (is_some t.state.delete && is_some t.state.closeout.artifact_disposition) ≡ true
  pub early : is_early t.state.lifecycle ≡ true → t.state.closeout.delete_acknowledged ≡ false
  pub quarantine : is_empty_quarantine t.state.quarantined_resource_ids ≡ false
  pub acknowledged :
      t.state.closeout.delete_acknowledged ≡ true
      → (all_deleted t.state && provision_settled t.state) ≡ true
  pub proved :
      t.state.lifecycle ≡ LifecycleState.closed
      → (t.state.closeout.delete_acknowledged
          && (t.state.closeout.provider_not_found
              && is_zero_spend t.state.closeout.current_spend_usd_per_hour))
        ≡ true

abbrev pub HasId : Option Operation → String → Type 0
HasId none id = ⊥
HasId (some op) id = op.id ≡ id

-- What the durable state holds before each call of the provider that has an effect.
abbrev pub Intended : Track → Action → Type 0
Intended t (commit kind s) = Unit
Intended t (create_call id) =
    HasId t.state.provision id × (was_dispatched t.state.provision ≡ true) × (t.creates ≡ 0)
Intended t (start_call resource id) =
    HasId t.state.start id × (resource_id_of t.state.resource ≡ some resource)
Intended t (delete_call resource id) =
    HasId t.state.delete id
    × (first_pending t.state.closeout.delete_acknowledged_resource_ids (
          delete_ids (ids_or_empty t.state.quarantined_resource_ids)
            (resource_id_of t.state.resource))
        ≡ some resource)
    × (is_some t.state.closeout.artifact_disposition ≡ true)
