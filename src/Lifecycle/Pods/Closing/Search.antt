-- ===== src/Lifecycle/Pods/Closing/Search.antt =====
-- The search of a stopped run in lifecycle.py that knows no resource.
use runpod_jobrunner.Prelude.{◌<◌, ◌≡◌, [], some, arith}
use text.Mathlib.TextPositions.{eq_refl}
use runpod_jobrunner.Provider.Memory.{MemorySpec}
use runpod_jobrunner.Lifecycle.State.{Datetime, TimeText, Operation}
use runpod_jobrunner.Lifecycle.Step.{Context}
use runpod_jobrunner.Lifecycle.Closeout.{resolution_proves}
use runpod_jobrunner.Lifecycle.Absence.{confirm_absence, absence_since, absence_at, nothing_found}
use runpod_jobrunner.Lifecycle.Deadline.{time_text_eq_refl}
use runpod_jobrunner.Lifecycle.Pods.{System}
use runpod_jobrunner.Lifecycle.Pods.Invariant.{IsOwned}
use runpod_jobrunner.Lifecycle.Pods.Closing.{settle_step, searching, waiting, resolved, IsAt, IsDue}

module _ (text : TimeText) (deadline : Datetime) (c : Context MemorySpec) (e : System)
    (op : Operation) (provision : e.state.provision ≡ some op) where
  -- nothing was ever sent
  pub nothing_sent :
      IsAt text deadline e searching
      → e.pod.resources ≡ []
      → op.attempts ≡ 0
      → IsOwned (settle_step e (nothing_found c e.state op e.pod))
      → IsAt text deadline (settle_step e (nothing_found c e.state op e.pod)) resolved
  unfolding nothing_found
  nothing_sent h n a k = ground arith

  pub nothing_yet :
      IsAt text deadline e searching
      → IsDue text deadline searching c
      → e.pod.resources ≡ []
      → 0 < op.attempts
      → IsOwned (settle_step e (nothing_found c e.state op e.pod))
      → IsAt text deadline (settle_step e (nothing_found c e.state op e.pod)) (waiting c.now)
  unfolding nothing_found absence_at
  nothing_yet h d n a k = ground (arith, d.deadline_is, d.aware, d.due)

  pub nothing_since :
      (since : Datetime)
      → IsAt text deadline e (waiting since)
      → IsDue text deadline (waiting since) c
      → IsOwned (settle_step e (nothing_found c e.state op e.pod))
      → IsAt text deadline (settle_step e (nothing_found c e.state op e.pod)) resolved
  unfolding nothing_found absence_at absence_since confirm_absence resolution_proves
  nothing_since since h d k = ground (
    arith,
    d.deadline_is,
    d.aware,
    d.due,
    d.after_deadline,
    eq_refl op.id,
    time_text_eq_refl text,
  )
