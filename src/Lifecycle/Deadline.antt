-- ===== src/Lifecycle/Deadline.antt =====
-- A stopped run whose create may have happened: when lifecycle.py takes its absence for proved, and
-- that the proof it writes is the one it checks at closeout.
use runpod_jobrunner.Prelude.{◌+◌, ◌≤◌, ◌⊎◌, inl, inr, ◌≡◌, refl, some, true, false, arith}
use text.Mathlib.TextPositions.{eq_refl}
use runpod_jobrunner.Lifecycle.State.{
  RunState, Operation, Datetime, TimeText, iso, other, time_text_eq,
}
use runpod_jobrunner.Lifecycle.Step.{Context, Result, Error, ok, err}
use runpod_jobrunner.Lifecycle.Closeout.{
  provider_termination_deadline, needs_resolution, provision_resolution_is_complete,
}
use runpod_jobrunner.Lifecycle.Absence.{nothing_found, absence_at}

pub time_text_eq_refl : (t : TimeText) → time_text_eq t t ≡ true
time_text_eq_refl (iso d) = ground arith
time_text_eq_refl (other text d) = eq_refl text

module _ {Spec W : Type 0} (c : Context Spec) (s s' : RunState) (op : Operation) (w : W)
    (text : TimeText) (deadline : Datetime) where
  absence_at-deadline :
      s.closeout.provision_absence_confirmed ≡ false
      → (absence_at c s op (some (text, deadline)) w).result ≡ ok s'
      → s'.closeout.provision_absence_confirmed ≡ true
      → deadline.instant + 5000000 ≤ c.now.instant
  unfolding absence_at
  absence_at-deadline u f h = ground arith

  absence_at_complete :
      s.closeout.provision_absence_confirmed ≡ false
      → s.provision ≡ some op
      → needs_resolution op ≡ true
      → provider_termination_deadline c ≡ ok (text, deadline)
      → (absence_at c s op (some (text, deadline)) w).result ≡ ok s'
      → s'.closeout.provision_absence_confirmed ≡ true
      → provision_resolution_is_complete c s' s'.closeout ≡ ok true
  unfolding absence_at provision_resolution_is_complete
  absence_at_complete u v n d f h = ground (arith, time_text_eq_refl text, eq_refl op.id)

pub Result-cases :
    {A : Type 0} (r : Result A) → ((a : A) × (r ≡ ok a)) ⊎ ((e : Error) × (r ≡ err e))
Result-cases (ok a) = inl (a, refl)
Result-cases (err e) = inr (e, refl)

module _ {Spec W : Type 0} (c : Context Spec) (s s' : RunState) (op : Operation) (w : W)
    (provision : s.provision ≡ some op) (uncertain : needs_resolution op ≡ true)
    (unconfirmed : s.closeout.provision_absence_confirmed ≡ false)
    (found : (nothing_found c s op w).result ≡ ok s')
    (confirmed : s'.closeout.provision_absence_confirmed ≡ true) where
  -- Where a create was sent, its outcome is uncertain and no resource of it is visible: a step that
  -- confirms the absence for the first time runs at least five seconds after the termination
  -- deadline of the request, and the resolution that it records is complete by the check that
  -- closeout makes.
  pub confirmed_complete :
      (d : TimeText × Datetime) × (provider_termination_deadline c ≡ ok d)
      × (d.1.instant + 5000000 ≤ c.now.instant)
      × (provision_resolution_is_complete c s' s'.closeout ≡ ok true)
  unfolding nothing_found
  confirmed_complete = elim (Result-cases (provider_termination_deadline c)) [
    | inl (d, e) ↦ (
      d,
      e,
      ground (arith, absence_at-deadline c s s' op w d.0 d.1),
      ground (arith, absence_at_complete c s s' op w d.0 d.1),
    )
    | inr (m, e) ↦ absurd (ground arith)
  ]
