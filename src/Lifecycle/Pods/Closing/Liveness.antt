-- ===== src/Lifecycle/Pods/Closing/Liveness.antt =====
-- The reconciles of lifecycle.py that follow a stop, each from its stage to the next.
use runpod_jobrunner.Prelude.{
  ℕ, zero, suc, ◌<◌, ◌≡◌, ◌⊎◌, inl, inr, refl, sym, ap, ◌∙◌, subst, String, List, [], ◌∷◌, Option,
  none, some, true, false, arith, is_some,
}
use text.Mathlib.TextPositions.{eq_refl}
use runpod_jobrunner.Provider.{ProviderResource, returned}
use runpod_jobrunner.Provider.Memory.{
  MemorySpec, MemoryRunPod, Resources, memory_provider, find_resources, created_by,
}
use runpod_jobrunner.Lifecycle.State.{Datetime, TimeText, Operation}
use runpod_jobrunner.Lifecycle.Step.{Context, Action}
use runpod_jobrunner.Lifecycle.Closeout.{resource_id_of}
use runpod_jobrunner.Lifecycle.Absence.{nothing_found, after_absence_find}
use runpod_jobrunner.Lifecycle.Delete.{
  delete_next, delete_pending, observe_absence, prove_spend, delete_resources, resolve_provision,
  with_delete_operation, reconcile_delete, first_pending, delete_ids,
}
use runpod_jobrunner.Lifecycle.Controller.{reconcile}
use runpod_jobrunner.Lifecycle.Pods.{System, follow, Throughout}
use runpod_jobrunner.Lifecycle.Pods.Invariant.{IsOwned}
use runpod_jobrunner.Lifecycle.Pods.Safety.{reconcile-IsOwned}
use runpod_jobrunner.Lifecycle.Pods.Closing.{
  settle, settle_step, tick, IsClosing, Stage, searching, waiting, resolved, emptied, absent, shut,
  rank, IsSettled, IsAt, IsDue, Nearer,
}
use runpod_jobrunner.Lifecycle.Pods.Closing.Search.{nothing_sent, nothing_yet, nothing_since}
use runpod_jobrunner.Lifecycle.Pods.Closing.Removal.{
  prove_spend-shut, delete_next-emptied, observe_absence-absent,
}

zero_or_more : (n : ℕ) → (n ≡ 0) ⊎ (0 < n)
zero_or_more zero = inl refl
zero_or_more (suc n) = inr (omega arith)

some_of : (given : Option Operation) → is_some given ≡ true → (op : Operation) × (given ≡ some op)
some_of none h = absurd (ground arith)
some_of (some op) h = (op, refl)

pub settle-IsOwned :
    (final : MemoryRunPod) (e : System) (actions : List Action)
    → IsOwned e
    → Throughout IsOwned final e actions
    → IsOwned (settle final e actions)
settle-IsOwned final e [] h k = h
settle-IsOwned final e (a ∷ actions) h k = settle-IsOwned final (follow final e a) actions k.0 k.1

pub tick-IsOwned : (c : Context MemorySpec) (e : System) → IsOwned e → IsOwned (tick c e)
unfolding tick
tick-IsOwned c e h =
    settle-IsOwned _ e (reconcile c memory_provider e.state e.pod).actions h
      (reconcile-IsOwned c e h)

module _ (text : TimeText) (deadline : Datetime) (c : Context MemorySpec) (e : System) where
  -- the step that a reconcile takes where the provision is settled
  settled_step :
      IsSettled text deadline e
      → (op : Operation) × (reconcile c memory_provider e.state e.pod
          ≡ delete_resources c memory_provider e.state op e.pod)
  unfolding reconcile reconcile_delete with_delete_operation resolve_provision
  settled_step h = settled_with e.state.delete refl
    where
      settled_with :
          (given : Option Operation)
          → e.state.delete ≡ given
          → (op : Operation) × (reconcile c memory_provider e.state e.pod
              ≡ delete_resources c memory_provider e.state op e.pod)
      settled_with none d = absurd (ground (arith, h.0.has_delete))
      settled_with (some op) d = (op, ground (arith, h.0.deleting, h.0.disposed))

  -- the step that it takes where the provision is not
  open_step :
      (provision : Operation)
      → IsClosing e
      → e.state.resource ≡ none
      → e.state.provision ≡ some provision
      → e.state.closeout.provision_absence_confirmed ≡ false
      → reconcile c memory_provider e.state e.pod
        ≡ after_absence_find c e.state provision (find_resources provision.id e.pod).0 e.pod
  unfolding reconcile reconcile_delete with_delete_operation resolve_provision find_resources
  open_step provision h r v f = ground (arith, h.deleting, h.disposed, h.has_delete)

  tick_absent :
      IsAt text deadline e absent
      → tick c e ≡ settle_step e (prove_spend c memory_provider e.state e.pod)
  unfolding tick delete_resources
  tick_absent h =
      let (op, q) = settled_step h.0 in rw q (ground (arith, h.0.0.ownership.single, h.1, h.2))

  tick_emptied :
      IsAt text deadline e emptied
      → tick c e ≡ settle_step e (observe_absence c memory_provider e.state e.pod)
  unfolding tick delete_resources
  tick_emptied h =
      let (op, q) = settled_step h.0 in rw q (ground (arith, h.0.0.ownership.single, h.1, h.2))

  tick_resolved :
      IsAt text deadline e resolved
      → (op : Operation) × (tick c e
          ≡ settle_step e (
              delete_next c memory_provider e.state op
                (delete_ids [] (resource_id_of e.state.resource))
                (first_pending [] (delete_ids [] (resource_id_of e.state.resource)))
                e.pod))
  unfolding tick delete_resources delete_pending
  tick_resolved h =
      let (op, q) = settled_step h.0 in
      (op, rw q (ground (arith, h.0.0.ownership.single, h.1, h.2, h.3)))

  advance_absent :
      IsAt text deadline e absent
      → IsDue text deadline absent c
      → Nearer text deadline c absent (tick c e)
  advance_absent h d = (
    shut,
    omega arith,
    omega (arith, d.after_deadline),
    rw (tick_absent h) (prove_spend-shut text deadline c e d.deadline_is h),
  )

  advance_emptied :
      IsAt text deadline e emptied
      → IsDue text deadline emptied c
      → Nearer text deadline c emptied (tick c e)
  advance_emptied h d =
      let q = tick_emptied h in
      (
        absent,
        omega arith,
        omega (arith, d.after_deadline),
        subst (λ f. IsAt text deadline f absent) (sym q)
            (observe_absence-absent text deadline c e d.deadline_is h
              (subst IsOwned q (tick-IsOwned c e h.0.0.ownership))),
      )

  advance_resolved :
      IsAt text deadline e resolved
      → IsDue text deadline resolved c
      → Nearer text deadline c resolved (tick c e)
  advance_resolved h d =
      let (op, q) = tick_resolved h in
      (
        emptied,
        omega arith,
        omega (arith, d.after_deadline),
        subst (λ f. IsAt text deadline f emptied) (sym q)
            (delete_next-emptied text deadline c e d.deadline_is h op
              (first_pending [] (delete_ids [] (resource_id_of e.state.resource))) refl
              (subst IsOwned q (tick-IsOwned c e h.0.0.ownership))),
      )

  tick_open :
      (op : Operation)
      → IsClosing e
      → e.state.resource ≡ none
      → e.state.provision ≡ some op
      → e.state.closeout.provision_absence_confirmed ≡ false
      → tick c e
        ≡ settle_step e (after_absence_find c e.state op (find_resources op.id e.pod).0 e.pod)
  unfolding tick
  tick_open op h r v f = rw (open_step op h r v f) refl

  -- what one reconcile does while the run knows no resource
  open_lands :
      (f : System) (next : Stage)
      → tick c e ≡ f
      → (IsOwned f → IsAt text deadline f next)
      → IsClosing e
      → IsAt text deadline (tick c e) next
  open_lands f next q k h =
      subst (λ g. IsAt text deadline g next) (sym q)
        (k (subst IsOwned q (tick-IsOwned c e h.ownership)))

  search_empty :
      (op : Operation)
      → e.pod.resources ≡ []
      → settle_step e (after_absence_find c e.state op (find_resources op.id e.pod).0 e.pod)
        ≡ settle_step e (nothing_found c e.state op e.pod)
  unfolding find_resources created_by after_absence_find
  search_empty op n =
      ap
        (λ rs.
          settle_step e (after_absence_find c e.state op (returned (created_by op.id rs)) e.pod))
        n

  search_one :
      (op : Operation) (key : String) (r : ProviderResource)
      → IsAt text deadline e searching
      → e.state.provision ≡ some op
      → e.pod.resources ≡ (key, r) ∷ []
      → let f =
          settle_step e (after_absence_find c e.state op (find_resources op.id e.pod).0 e.pod) in
        (IsOwned f → IsAt text deadline f resolved)
  unfolding find_resources created_by after_absence_find
  search_one op key r h v n = λ k. grind (arith, eq_refl, h.0.ownership.owned)

  advance_searching :
      (op : Operation) (rs : Resources)
      → e.state.provision ≡ some op
      → e.pod.resources ≡ rs
      → IsAt text deadline e searching
      → IsDue text deadline searching c
      → Nearer text deadline c searching (tick c e)
  advance_searching op [] v n h d =
      let q = tick_open op h.0 h.1 v h.3 ∙ search_empty op n in
      elim (zero_or_more op.attempts) [
        | inl z ↦ (
          resolved,
          omega arith,
          omega (arith, d.after_deadline),
          open_lands _ resolved q (nothing_sent text deadline c e op v h n z) h.0,
        )
        | inr z ↦ (
          waiting c.now,
          omega arith,
          omega (arith, d.after_deadline),
          open_lands _ (waiting c.now) q (nothing_yet text deadline c e op v h d n z) h.0,
        )
      ]
  advance_searching op ((key, r) ∷ []) v n h d = (
    resolved,
    omega arith,
    omega (arith, d.after_deadline),
    open_lands _ resolved (tick_open op h.0 h.1 v h.3) (search_one op key r h v n) h.0,
  )
  advance_searching op (_ ∷ _ ∷ _) v n h d = absurd (ground (arith, h.0.ownership.owned))

  advance_waiting :
      (op : Operation) (since : Datetime)
      → e.state.provision ≡ some op
      → IsAt text deadline e (waiting since)
      → IsDue text deadline (waiting since) c
      → Nearer text deadline c (waiting since) (tick c e)
  advance_waiting op since v h d = (
    resolved,
    omega arith,
    omega (arith, d.after_deadline),
    open_lands _ resolved (tick_open op h.0 h.1 v h.3 ∙ search_empty op (ground arith))
        (nothing_since text deadline c e op v since h d) h.0,
  )

  -- each reconcile that is due brings the run nearer to its closeout
  pub advance :
      (stage : Stage)
      → IsAt text deadline e stage
      → 0 < rank stage
      → IsDue text deadline stage c
      → Nearer text deadline c stage (tick c e)
  advance searching h k d =
      let (op, v) = some_of e.state.provision h.2 in advance_searching op e.pod.resources v refl h d
  advance (waiting since) h k d =
      let (op, v) = some_of e.state.provision h.2 in advance_waiting op since v h d
  advance resolved h k d = advance_resolved h d
  advance emptied h k d = advance_emptied h d
  advance absent h k d = advance_absent h d
  advance shut h k d = absurd (omega arith)

  pub tick_shut : IsAt text deadline e shut → tick c e ≡ e
  unfolding tick reconcile
  tick_shut h = ground arith
