-- ===== src/Lifecycle/Absence.antt =====
-- The first half of `_reconcile_delete` of lifecycle.py: a stopped run that has no known resource
-- resolves what became of its provision operation.
use runpod_jobrunner.Prelude.{
  ◌+◌, List, [], ◌∷◌, Option, none, some, Bool, true, false, not, ltb, nat_eq, if◌then◌else◌,
}
use runpod_jobrunner.Provider.{
  ProviderResource, Answer, returned, raised, rejected, outcome_unknown, failed, escaped,
}
use runpod_jobrunner.Lifecycle.State.{
  RunState, Operation, Datetime, TimeText, iso, from_isoformat, projected, bare,
}
use runpod_jobrunner.Lifecycle.Step.{
  Context, Step, Result, ok, ◌>>=◌, done, raise, with_result, conflict, provider_error,
  stopped_rejected_resource_adopted, stopped_duplicate_resources_quarantined,
  stopped_resource_adopted, stopped_provision_not_dispatched, stopped_provision_termination_pending,
  stopped_provision_absence_observed, stopped_provision_absence_pending,
  stopped_provision_absence_confirmed,
}
use runpod_jobrunner.Lifecycle.Provision.{resource_ids_of}
use runpod_jobrunner.Lifecycle.Closeout.{
  provision_absence_grace, needs_resolution, provider_termination_deadline,
}

-- the closeout with another first observation of the absence
abbrev pub first_absence : Option TimeText → RunState → RunState
first_absence at s = record s {
  closeout = record s.closeout { provision_absence_first_observed_at = at };
}

abbrev pub before_deadline : Datetime → Option (TimeText × Datetime) → Bool
before_deadline d none = false
before_deadline d (some (text, deadline)) = ltb d.instant deadline.instant

-- the deadline, where `deadline_resolution_required`
abbrev pub required_deadline :
    {Spec : Type 0} → Context Spec → Operation → Result (Option (TimeText × Datetime))
required_deadline c op =
    if needs_resolution op then (provider_termination_deadline c >>= λ d. ok (some d)) else ok none

module _ {Spec W : Type 0} (c : Context Spec) (s : RunState) (op : Operation) where
  unfoldable pub confirm_absence : Datetime → Option (TimeText × Datetime) → W → Step W
  confirm_absence first none w =
      done stopped_provision_absence_confirmed
        (record s { closeout = record s.closeout { provision_absence_confirmed = true } }) w
  confirm_absence first (some (text, deadline)) w =
      done stopped_provision_absence_confirmed
        (record s {
          closeout = record s.closeout {
            provision_absence_confirmed = true;
            provision_resolution = some (record {
              operation_id = op.id;
              termination_deadline = text;
              absence_first_observed_at = iso first;
              confirmed_at = iso c.now;
            });
          };
        })
        w

  unfoldable pub absence_since : Option Datetime → Option (TimeText × Datetime) → W → Step W
  unfolding confirm_absence
  absence_since none deadline w = raise (conflict "provision absence timestamp is invalid") w
  absence_since (some first) deadline w =
      if not first.aware
      then raise (conflict "provision absence timestamp must be timezone-aware") w
      else if before_deadline first deadline
      then done stopped_provision_absence_observed (first_absence (some (iso c.now)) s) w
      else if ltb c.now.instant (first.instant + provision_absence_grace)
      then done stopped_provision_absence_pending s w
      else confirm_absence first deadline w

  unfoldable pub absence_at : Option (TimeText × Datetime) → W → Step W
  unfolding absence_since
  absence_at deadline w =
      if not c.now.aware
      then raise (conflict "current time must be timezone-aware") w
      else if before_deadline c.now deadline
      then done stopped_provision_termination_pending (first_absence none s) w
      else elim s.closeout.provision_absence_first_observed_at [
        | none ↦ done stopped_provision_absence_observed (first_absence (some (iso c.now)) s) w
        | some first ↦ absence_since (from_isoformat first) deadline w
      ]

  unfoldable pub nothing_found : W → Step W
  unfolding absence_at
  nothing_found w =
      if nat_eq op.attempts 0
      then done stopped_provision_not_dispatched
          (record s { closeout = record s.closeout { provision_absence_confirmed = true } }) w
      else with_result (required_deadline c op) w (λ deadline. absence_at deadline w)

  unfoldable pub after_absence_find : Answer (List ProviderResource) → W → Step W
  unfolding nothing_found
  after_absence_find (returned []) w = nothing_found w
  after_absence_find (returned (r ∷ [])) w =
      done stopped_resource_adopted
        (first_absence none (record s { resource = some (projected r) })) w
  after_absence_find (returned (r ∷ q ∷ rest)) w =
      done stopped_duplicate_resources_quarantined
        (record s {
          quarantined_resource_ids = some (resource_ids_of (r ∷ q ∷ rest));
          resource = some (projected r);
        })
        w
  after_absence_find (raised (rejected m (id ∷ ids))) w =
      done stopped_rejected_resource_adopted
        (first_absence none
          (record s { quarantined_resource_ids = some (id ∷ ids); resource = some (bare id) }))
        w
  after_absence_find (raised (rejected m [])) w = raise (provider_error (rejected m [])) w
  after_absence_find (raised (outcome_unknown m)) w = raise (provider_error (outcome_unknown m)) w
  after_absence_find (raised (failed m)) w = raise (provider_error (failed m)) w
  after_absence_find (raised (escaped m)) w = raise (provider_error (escaped m)) w
