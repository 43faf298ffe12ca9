-- ===== src/Lifecycle/Invariant/Deletion.antt =====
-- The deletion steps keep the invariants.
use runpod_jobrunner.Prelude.{
  ◌≡◌, ◌+◌, refl, arith, true, false, some, none, Option, String, List, [], ◌∷◌, is_some, ◌&&◌,
}
use runpod_jobrunner.Provider.{
  Provider, Answer, returned, raised, rejected, outcome_unknown, failed, escaped, DeleteReceipt,
  ProviderResource,
}
use runpod_jobrunner.Lifecycle.State.{LifecycleState, Operation, RunState}
use runpod_jobrunner.Lifecycle.Step.{Context}
use runpod_jobrunner.Lifecycle.Absence.{after_absence_find}
use runpod_jobrunner.Lifecycle.Delete.{
  acknowledged_state, after_delete, delete_next, delete_pending, observe_absence, prove_spend,
  first_pending, all_acknowledged, all_resource_ids, delete_ids, ids_or_empty, delete_resources,
  resolve_provision, with_delete_operation, reconcile_delete,
}
use runpod_jobrunner.Lifecycle.Closeout.{resource_id_of}
use runpod_jobrunner.Lifecycle.History.{Track, Along, Keeps}
use runpod_jobrunner.Lifecycle.Invariant.{
  IsBacked, IsSound, Intended, is_empty_quarantine, provision_settled,
}

module _ {Spec W : Type 0} (c : Context Spec) (t : Track) (op : Operation)
    (answer : Answer (List ProviderResource)) (w : W) where
  after_absence_find-IsBacked :
      IsBacked t → Along (Keeps IsBacked) t (after_absence_find c t.state op answer w).actions
  unfolding after_absence_find
  after_absence_find-IsBacked h = ground arith

  after_absence_find-IsSound :
      IsSound t
      → t.state.lifecycle ≡ LifecycleState.deleting
      → t.state.resource ≡ none
      → is_some t.state.provision ≡ true
      → t.state.closeout.provision_absence_confirmed ≡ false
      → Along (Keeps IsSound) t (after_absence_find c t.state op answer w).actions
  unfolding after_absence_find
  after_absence_find-IsSound h e r v f = ground arith

  after_absence_find-Intended : Along Intended t (after_absence_find c t.state op answer w).actions
  unfolding after_absence_find
  after_absence_find-Intended = ground arith

module _ {Spec W : Type 0} (c : Context Spec) (p : Provider Spec W) (t : Track) (w : W) where
  observe_absence-IsBacked :
      IsBacked t → Along (Keeps IsBacked) t (observe_absence c p t.state w).actions
  unfolding observe_absence
  observe_absence-IsBacked h = ground arith

  observe_absence-IsSound :
      IsSound t
      → t.state.lifecycle ≡ LifecycleState.deleting
      → Along (Keeps IsSound) t (observe_absence c p t.state w).actions
  unfolding observe_absence
  observe_absence-IsSound h e = ground arith

  prove_spend-IsBacked : IsBacked t → Along (Keeps IsBacked) t (prove_spend c p t.state w).actions
  unfolding prove_spend
  prove_spend-IsBacked h = ground arith

  prove_spend-IsSound :
      IsSound t
      → t.state.lifecycle ≡ LifecycleState.deleting
      → (t.state.closeout.delete_acknowledged && t.state.closeout.provider_not_found) ≡ true
      → Along (Keeps IsSound) t (prove_spend c p t.state w).actions
  unfolding prove_spend
  prove_spend-IsSound h e f = ground arith

  observe_absence-Intended : Along Intended t (observe_absence c p t.state w).actions
  unfolding observe_absence
  observe_absence-Intended = ground arith

  prove_spend-Intended : Along Intended t (prove_spend c p t.state w).actions
  unfolding prove_spend
  prove_spend-Intended = ground arith

first_pending-none :
    (acknowledged ids : List String)
    → first_pending acknowledged ids ≡ none
    → all_acknowledged acknowledged ids ≡ true
first_pending-none acknowledged [] h = refl
first_pending-none acknowledged (id ∷ ids) h = ground (arith, first_pending-none acknowledged ids)

all_resource_ids-eq :
    (s : RunState)
    → is_empty_quarantine s.quarantined_resource_ids ≡ false
    → all_resource_ids s
      ≡ delete_ids (ids_or_empty s.quarantined_resource_ids) (resource_id_of s.resource)
all_resource_ids-eq s h = ground arith

module _ {Spec W : Type 0} (c : Context Spec) (p : Provider Spec W) (t : Track) (op : Operation)
    (w : W) where
  abbrev ids : List String
  ids = delete_ids (ids_or_empty t.state.quarantined_resource_ids) (resource_id_of t.state.resource)

  delete_next-IsBacked :
      (next : Option String)
      → IsBacked t
      → Along (Keeps IsBacked) t (delete_next c p t.state op ids next w).actions
  unfolding delete_next acknowledged_state
  delete_next-IsBacked none h = ground arith
  delete_next-IsBacked (some id) h = ground arith

  acknowledged_state-IsSound :
      (op' : Operation) (id : String) (receipt : DeleteReceipt)
      → IsSound t
      → t.state.lifecycle ≡ LifecycleState.deleting
      → provision_settled t.state ≡ true
      → t.state.closeout.delete_acknowledged ≡ false
      → IsSound (record t {
        state = acknowledged_state (record t.state { delete = some op' }) op' id receipt;
      })
  unfolding acknowledged_state
  acknowledged_state-IsSound op' id receipt h e f g =
      rw (all_resource_ids-eq t.state h.quarantine) (ground arith)

  after_delete-IsSound :
      (op' : Operation) (id : String) (answer : Answer DeleteReceipt) (w' : W)
      → IsSound t
      → t.state.lifecycle ≡ LifecycleState.deleting
      → provision_settled t.state ≡ true
      → t.state.closeout.delete_acknowledged ≡ false
      → Along
          (Keeps IsSound)
          t
          (after_delete (record t.state { delete = some op' }) op' id answer w').actions
  unfolding after_delete
  after_delete-IsSound op' id (returned receipt) w' h e f g =
      ground (arith, acknowledged_state-IsSound op' id receipt h e f g)
  after_delete-IsSound op' id (raised (rejected m ids')) w' h e f g = ground arith
  after_delete-IsSound op' id (raised (outcome_unknown m)) w' h e f g = ground arith
  after_delete-IsSound op' id (raised (failed m)) w' h e f g = ground arith
  after_delete-IsSound op' id (raised (escaped m)) w' h e f g = ground arith

  delete_next-IsSound :
      (next : Option String)
      → next ≡ first_pending t.state.closeout.delete_acknowledged_resource_ids ids
      → IsSound t
      → t.state.lifecycle ≡ LifecycleState.deleting
      → provision_settled t.state ≡ true
      → t.state.closeout.delete_acknowledged ≡ false
      → Along (Keeps IsSound) t (delete_next c p t.state op ids next w).actions
  unfolding delete_next
  delete_next-IsSound none n h e f g =
      ground (arith, first_pending-none t.state.closeout.delete_acknowledged_resource_ids ids)
  delete_next-IsSound (some id) n h e f g =
      let op' = record op { attempts = op.attempts + 1 } in
      let answer = p.delete id op.id w in (h, after_delete-IsSound op' id answer.0 answer.1 h e f g)

  delete_next-Intended :
      (next : Option String)
      → next ≡ first_pending t.state.closeout.delete_acknowledged_resource_ids ids
      → t.state.delete ≡ some op
      → is_some t.state.closeout.artifact_disposition ≡ true
      → Along Intended t (delete_next c p t.state op ids next w).actions
  unfolding delete_next
  delete_next-Intended none n h f = ground arith
  delete_next-Intended (some id) n h f = ground arith

  delete_resources-IsBacked :
      IsBacked t → Along (Keeps IsBacked) t (delete_resources c p t.state op w).actions
  unfolding delete_resources delete_pending
  delete_resources-IsBacked h = ground (
    arith,
    delete_next-IsBacked (first_pending t.state.closeout.delete_acknowledged_resource_ids ids) h,
    observe_absence-IsBacked c p t w h,
    prove_spend-IsBacked c p t w h,
  )

  delete_resources-IsSound :
      IsSound t
      → t.state.lifecycle ≡ LifecycleState.deleting
      → provision_settled t.state ≡ true
      → Along (Keeps IsSound) t (delete_resources c p t.state op w).actions
  unfolding delete_resources delete_pending
  delete_resources-IsSound h e f = ground (
    arith,
    delete_next-IsSound (first_pending t.state.closeout.delete_acknowledged_resource_ids ids) refl h
        e f,
    observe_absence-IsSound c p t w h e,
    prove_spend-IsSound c p t w h e,
  )

  delete_resources-Intended :
      t.state.delete ≡ some op
      → is_some t.state.closeout.artifact_disposition ≡ true
      → Along Intended t (delete_resources c p t.state op w).actions
  unfolding delete_resources delete_pending
  delete_resources-Intended h f = ground (
    arith,
    delete_next-Intended (first_pending t.state.closeout.delete_acknowledged_resource_ids ids) refl
        h f,
    observe_absence-Intended c p t w,
    prove_spend-Intended c p t w,
  )

module _ {Spec W : Type 0} (c : Context Spec) (p : Provider Spec W) (t : Track) (w : W) where
  pub reconcile_delete-IsBacked :
      IsBacked t → Along (Keeps IsBacked) t (reconcile_delete c p t.state w).actions
  unfolding reconcile_delete with_delete_operation resolve_provision
  reconcile_delete-IsBacked h =
      grind (arith, delete_resources-IsBacked, after_absence_find-IsBacked)

  pub reconcile_delete-IsSound :
      IsSound t
      → t.state.lifecycle ≡ LifecycleState.deleting
      → Along (Keeps IsSound) t (reconcile_delete c p t.state w).actions
  unfolding reconcile_delete with_delete_operation resolve_provision
  reconcile_delete-IsSound h e = grind (arith, delete_resources-IsSound, after_absence_find-IsSound)

  pub reconcile_delete-Intended : Along Intended t (reconcile_delete c p t.state w).actions
  unfolding reconcile_delete with_delete_operation resolve_provision
  reconcile_delete-Intended = grind (arith, delete_resources-Intended, after_absence_find-Intended)
