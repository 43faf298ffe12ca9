-- ===== src/Lifecycle/Durability.antt =====
-- What a call of lifecycle.py returns is what it left on disk.
use runpod_jobrunner.Prelude.{◌≡◌, String, List, [], ◌∷◌, Option, none, some, arith}
use runpod_jobrunner.Provider.{Provider, ProviderResource, Answer}
use runpod_jobrunner.Lifecycle.State.{RunState, Operation}
use runpod_jobrunner.Lifecycle.Step.{
  Context, Step, Result, ok, err, Action, commit, create_call, start_call, delete_call,
}
use runpod_jobrunner.Lifecycle.Provision.{intend_provision, reconcile_provision}
use runpod_jobrunner.Lifecycle.Start.{reconcile_start}
use runpod_jobrunner.Lifecycle.Absence.{after_absence_find}
use runpod_jobrunner.Lifecycle.Delete.{
  delete_next, delete_pending, observe_absence, prove_spend, delete_resources, resolve_provision,
  with_delete_operation, reconcile_delete,
}
use runpod_jobrunner.Lifecycle.Controller.{
  reconcile, record_workload_result, record_artifact_disposition, request_stop,
}
use runpod_jobrunner.Lifecycle.History.{
  Call, reconcile_call, workload_call, artifact_call, stop_call, perform,
}

-- the state on disk after the actions
abbrev pub durable : RunState → List Action → RunState
durable s [] = s
durable s (commit kind s' ∷ rest) = durable s' rest
durable s (create_call id ∷ rest) = durable s rest
durable s (start_call r id ∷ rest) = durable s rest
durable s (delete_call r id ∷ rest) = durable s rest

abbrev pub IsReturned : RunState → List Action → Result RunState → Type 0
IsReturned s actions (ok s') = durable s actions ≡ s'
IsReturned s actions (err e) = Unit

abbrev pub IsDurable : {W : Type 0} → RunState → Step W → Type 0
IsDurable s t = IsReturned s t.actions t.result

module _ {Spec W : Type 0} (c : Context Spec) (p : Provider Spec W) (s : RunState) (w : W) where
  reconcile_provision-IsDurable : IsDurable s (reconcile_provision c p s w)
  unfolding reconcile_provision
  reconcile_provision-IsDurable = ground arith

  reconcile_start-IsDurable : IsDurable s (reconcile_start c p s w)
  unfolding reconcile_start
  reconcile_start-IsDurable = ground arith

  after_absence_find-IsDurable :
      (op : Operation) (answer : Answer (List ProviderResource))
      → IsDurable s (after_absence_find c s op answer w)
  unfolding after_absence_find
  after_absence_find-IsDurable op answer = ground arith

  delete_next-IsDurable :
      (op : Operation) (ids : List String) (next : Option String)
      → IsDurable s (delete_next c p s op ids next w)
  unfolding delete_next
  delete_next-IsDurable op ids none = ground arith
  delete_next-IsDurable op ids (some id) = ground arith

  observe_absence-IsDurable : IsDurable s (observe_absence c p s w)
  unfolding observe_absence
  observe_absence-IsDurable = ground arith

  prove_spend-IsDurable : IsDurable s (prove_spend c p s w)
  unfolding prove_spend
  prove_spend-IsDurable = ground arith

  delete_resources-IsDurable : (op : Operation) → IsDurable s (delete_resources c p s op w)
  unfolding delete_resources delete_pending
  delete_resources-IsDurable op =
      grind (arith, delete_next-IsDurable, observe_absence-IsDurable, prove_spend-IsDurable)

module _ {Spec W : Type 0} (c : Context Spec) (p : Provider Spec W) (s : RunState) (w : W) where
  reconcile_delete-IsDurable : IsDurable s (reconcile_delete c p s w)
  unfolding reconcile_delete with_delete_operation resolve_provision
  reconcile_delete-IsDurable =
      grind (arith, delete_resources-IsDurable, after_absence_find-IsDurable)

  reconcile-IsDurable : IsDurable s (reconcile c p s w)
  unfolding reconcile intend_provision
  reconcile-IsDurable = ground (
    arith,
    reconcile_provision-IsDurable c p s w,
    reconcile_start-IsDurable c p s w,
    reconcile_delete-IsDurable,
  )

perform-IsDurable :
    {Spec W : Type 0} (call : Call Spec W) (s : RunState) → IsDurable s (perform call s)
unfolding perform record_workload_result record_artifact_disposition request_stop
perform-IsDurable (reconcile_call c p w) s = reconcile-IsDurable c p s w
perform-IsDurable (workload_call result w) s = ground arith
perform-IsDurable (artifact_call c disposition w) s = ground arith
perform-IsDurable (stop_call c reason w) s = ground arith

-- Whatever the provider answers, a call that returns a state has left exactly that state on disk:
-- its last commit, or the state that it read where it commits nothing.
pub durable-perform :
    {Spec W : Type 0} (call : Call Spec W) (s s' : RunState)
    → (perform call s).result ≡ ok s'
    → durable s (perform call s).actions ≡ s'
durable-perform call s s' e = ground (arith, perform-IsDurable call s)
