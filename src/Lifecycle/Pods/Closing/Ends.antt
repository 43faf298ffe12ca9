-- ===== src/Lifecycle/Pods/Closing/Ends.antt =====
-- From a stop request of lifecycle.py to the closed run.
use runpod_jobrunner.Prelude.{
  ℕ, ◌+◌, ◌≤◌, ◌<◌, ◌≡◌, ◌⊎◌, inl, inr, refl, sym, subst, String, List, [], ◌∷◌, none, Bool, true,
  false, not, ◌||◌, arith, is_some, length,
}
use runpod_jobrunner.Provider.Memory.{MemorySpec}
use runpod_jobrunner.Lifecycle.State.{LifecycleState, Datetime, TimeText}
use runpod_jobrunner.Lifecycle.Step.{Context, ok}
use runpod_jobrunner.Lifecycle.Closeout.{provision_absence_grace, provider_termination_deadline}
use runpod_jobrunner.Lifecycle.Controller.{request_stop}
use runpod_jobrunner.Lifecycle.Pods.{System, Arises}
use runpod_jobrunner.Lifecycle.Pods.Invariant.{IsOwned}
use runpod_jobrunner.Lifecycle.Pods.Safety.{Arises-IsOwned, request_stop-IsOwned}
use runpod_jobrunner.Lifecycle.Pods.Closing.{
  settle_step, tick, ticks, Stage, searching, waiting, resolved, emptied, absent, shut, rank, IsAt,
  IsDue, not_before,
}
use runpod_jobrunner.Lifecycle.Pods.Closing.Liveness.{settle-IsOwned, advance, tick_shut}

bool_cases : (b : Bool) → (b ≡ true) ⊎ (b ≡ false)
bool_cases true = inl refl
bool_cases false = inr refl

module _ (text : TimeText) (deadline : Datetime) where
  -- Reconciles with the run's stored request, at aware times from the deadline and from `from` on,
  -- each a grace period or more after the one before.
  abbrev pub Paced : ℕ → List (Context MemorySpec) → Type 0
  Paced from [] = Unit
  Paced from (c ∷ cs) =
      (provider_termination_deadline c ≡ ok (text, deadline))
      × (c.now.aware ≡ true)
      × (deadline.instant ≤ c.now.instant)
      × (from ≤ c.now.instant)
      × Paced (c.now.instant + provision_absence_grace) cs

  stay_shut :
      (cs : List (Context MemorySpec)) (e : System)
      → IsAt text deadline e shut
      → IsAt text deadline (ticks cs e) shut
  unfolding ticks
  stay_shut [] e h = h
  stay_shut (c ∷ cs) e h =
      stay_shut cs (tick c e)
        (subst (λ f. IsAt text deadline f shut) (sym (tick_shut text deadline c e h)) h)

  rank_cases : (stage : Stage) → (stage ≡ shut) ⊎ (0 < rank stage)
  rank_cases searching = inr (omega arith)
  rank_cases (waiting since) = inr (omega arith)
  rank_cases resolved = inr (omega arith)
  rank_cases emptied = inr (omega arith)
  rank_cases absent = inr (omega arith)
  rank_cases shut = inl refl

  Paced-IsDue :
      (c : Context MemorySpec) (cs : List (Context MemorySpec)) (stage : Stage) (from : ℕ)
      → Paced from (c ∷ cs)
      → (not_before text deadline stage ≤ from)
        ⊎ (not_before text deadline stage ≤ deadline.instant)
      → IsDue text deadline stage c
  Paced-IsDue c cs stage from p b = record {
    deadline_is = p.0;
    aware = p.1;
    due = omega (arith, p.2, p.3);
    after_deadline = p.2;
  }

  reach :
      (cs : List (Context MemorySpec)) (stage : Stage) (from : ℕ) (e : System)
      → IsAt text deadline e stage
      → rank stage ≤ length cs
      → (not_before text deadline stage ≤ from)
        ⊎ (not_before text deadline stage ≤ deadline.instant)
      → Paced from cs
      → IsAt text deadline (ticks cs e) shut
  unfolding ticks
  reach [] stage from e h n b p = elim (rank_cases stage) [
    | inl q ↦ subst (IsAt text deadline e) q h
    | inr q ↦ absurd (omega arith)
  ]
  reach (c ∷ cs) stage from e h n b p = elim (rank_cases stage) [
    | inl q ↦ stay_shut (c ∷ cs) e (subst (IsAt text deadline e) q h)
    | inr q ↦
        let (next, nearer, soon, k) =
          advance text deadline c e stage h q (Paced-IsDue c cs stage from p b) in
        reach cs next (c.now.instant + provision_absence_grace) (tick c e) k (omega arith)
          (inl soon) p.4
  ]

  module _ (stop : Context MemorySpec) (reason : String) (e : System) (owned : IsOwned e)
      (early : is_some e.state.closeout.artifact_disposition ≡ false)
      (faultless : e.pod.fail_after_effect ≡ [])
      (unforced : e.pod.forced_current_spend_usd_per_hour ≡ none) where
    stopped-IsOwned : IsOwned (settle_step e (request_stop stop reason e.state e.pod))
    stopped-IsOwned = settle-IsOwned _ e _ owned (request_stop-IsOwned e owned _ stop reason)

    -- it knows its resource, or has never asked for one
    stopped_resolved :
        (is_some e.state.resource || not (is_some e.state.provision)) ≡ true
        → IsAt text deadline (settle_step e (request_stop stop reason e.state e.pod)) resolved
    unfolding request_stop
    stopped_resolved k = ground (arith, owned.late, owned.pristine, stopped-IsOwned)

    stopped_searching :
        (is_some e.state.resource || not (is_some e.state.provision)) ≡ false
        → IsAt text deadline (settle_step e (request_stop stop reason e.state e.pod)) searching
    unfolding request_stop
    stopped_searching k = ground (arith, owned.late, owned.pristine, stopped-IsOwned)

  -- A run that is stopped before its deletion begins, that is in a state with no artifact disposition
  -- yet (each step to a deletion records one; recovering from a recorded workload result is among
  -- these states), at a provider fake that loses no further outcome and is not made to report a
  -- spend, closes: after any five or more whole reconciles with
  -- the stored provider request, at aware times from the termination deadline on and each at least
  -- the absence grace after the one before, the run is closed and no resource is left. Before the
  -- stop, any calls, crashes and lost outcomes may have come, in any order.
  pub stop-closes :
      {run_id : String} {approved : ℕ} {e : System}
      → Arises run_id approved e
      → is_some e.state.closeout.artifact_disposition ≡ false
      → e.pod.fail_after_effect ≡ []
      → e.pod.forced_current_spend_usd_per_hour ≡ none
      → (stop : Context MemorySpec) (reason : String) (cs : List (Context MemorySpec))
      → 5 ≤ length cs
      → Paced 0 cs
      → let f = ticks cs (settle_step e (request_stop stop reason e.state e.pod)) in
        (f.state.lifecycle ≡ LifecycleState.closed) × (f.pod.resources ≡ [])
  stop-closes {e = e} r early faultless unforced stop reason cs n p =
      let owned = Arises-IsOwned r in
      elim (bool_cases (is_some e.state.resource || not (is_some e.state.provision))) [
        | inl k ↦
            reach cs resolved 0 _ (stopped_resolved stop reason e owned early faultless unforced k)
              (omega arith) (inr (omega arith)) p
        | inr k ↦
            reach cs searching 0 _
              (stopped_searching stop reason e owned early faultless unforced k) (omega arith)
              (inr (omega arith)) p
      ]
