-- ===== src/Lifecycle/Pods/Invariant.antt =====
-- What ties a run's durable state to the resources that the provider fake holds.
use runpod_jobrunner.Prelude.{
  ◌≡◌, String, [], ◌∷◌, Option, none, some, Bool, true, false, not, ◌||◌, is_empty, is_some,
}
use runpod_jobrunner.Provider.Memory.{Resources}
use runpod_jobrunner.Lifecycle.State.{RunState, LifecycleState, ResourceProjection, projection_id}
use runpod_jobrunner.Lifecycle.Invariant.{HasId, was_dispatched, is_early}
use runpod_jobrunner.Lifecycle.Pods.{System}

-- the resource that a run knows is the one at this key
abbrev pub Knows : Option ResourceProjection → String → Type 0
Knows none key = Unit
Knows (some r) key = projection_id r ≡ key

-- the states before the deletion begins
abbrev pub is_open : LifecycleState → Bool
is_open LifecycleState.deleting = false
is_open LifecycleState.closed = false
is_open _ = true

-- The provider holds no resource, or one that the run's dispatched operation created.
abbrev pub IsOwnedBy : RunState → Resources → Type 0
IsOwnedBy s [] = Unit
IsOwnedBy s ((key, r) ∷ []) =
    (r.id ≡ key)
    × HasId s.provision r.create_operation_id
    × (was_dispatched s.provision ≡ true)
    × Knows s.resource key
IsOwnedBy s (_ ∷ _ ∷ _) = ⊥

-- what only happens once no resource is left: the absence is confirmed or observed, or some deletion
-- is acknowledged
abbrev pub is_gone : RunState → Bool
is_gone s =
    s.closeout.provider_not_found
    || (s.closeout.provision_absence_confirmed
        || (s.closeout.delete_acknowledged
            || not (is_empty s.closeout.delete_acknowledged_resource_ids)))

pub record IsOwned (e : System) : Type 0 where
  pub owned : IsOwnedBy e.state e.pod.resources
  pub single : e.state.quarantined_resource_ids ≡ none
  pub late : is_gone e.state ≡ true → is_some e.state.closeout.artifact_disposition ≡ true
  pub gone : is_gone e.state ≡ true → e.pod.resources ≡ []
  pub unknown : was_dispatched e.state.provision ≡ false → e.state.resource ≡ none
  pub pristine :
      is_some e.state.closeout.artifact_disposition ≡ false
      → (e.state.closeout.current_spend_scope ≡ none)
        × (e.state.closeout.provision_absence_first_observed_at ≡ none)
  pub disposed :
      is_open e.state.lifecycle ≡ false → is_some e.state.closeout.artifact_disposition ≡ true
  pub fresh :
      is_early e.state.lifecycle ≡ true → is_some e.state.closeout.artifact_disposition ≡ false
