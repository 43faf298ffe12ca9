-- ===== src/Lifecycle/Closeout.antt =====
-- The closeout proof of lifecycle.py: `_provider_termination_deadline`,
-- `_provision_resolution_is_complete`, `_current_spend_scope` and `_assert_closeout_ready`.
use runpod_jobrunner.Prelude.{
  ℕ, ◌+◌, String, Option, none, some, Bool, true, false, not, ◌&&◌, ◌==◌, leb, nat_eq, is_some,
  if◌then◌else◌,
}
use runpod_jobrunner.Lifecycle.State.{
  RunState, Closeout, Operation, Datetime, TimeText, iso, other, from_isoformat, time_text_eq,
  Resolution, absent, malformed, present, SpendScope, resource, run_not_dispatched,
  operation_not_dispatched, operation_deadline_absence, account, spend_scope_eq, projection_id,
  ResourceProjection,
}
use runpod_jobrunner.Lifecycle.Step.{
  Context, Result, ok, err, ◌>>=◌, conflict, invalid_transition, is_uncertain,
}

-- `_PROVISION_ABSENCE_GRACE_SECONDS`, in microseconds
abbrev pub provision_absence_grace : ℕ
provision_absence_grace = 5000000

abbrev pub is_empty_text : TimeText → Bool
is_empty_text (iso d) = false
is_empty_text (other text d) = text == ""

-- `_aware_datetime_or_none`
abbrev pub aware_datetime : TimeText → Option Datetime
aware_datetime t = elim (from_isoformat t) [
  | none ↦ none
  | some d ↦ if d.aware then some d else none
]

abbrev pub resource_id_of : Option ResourceProjection → Option String
resource_id_of none = none
resource_id_of (some r) = some (projection_id r)

unfoldable pub parse_deadline : Option TimeText → Result (TimeText × Datetime)
parse_deadline none = err (conflict "provider termination deadline is missing")
parse_deadline (some text) =
    if is_empty_text text
    then err (conflict "provider termination deadline is missing")
    else elim (from_isoformat text) [
      | none ↦ err (conflict "provider termination deadline is invalid")
      | some deadline ↦
          if deadline.aware
          then ok (text, deadline)
          else err (conflict "provider termination deadline must be timezone-aware")
    ]

-- `first >= deadline and (confirmed - first).total_seconds() >= grace`
abbrev pub absence_window : Option Datetime → Option Datetime → Datetime → Bool
absence_window (some first) (some confirmed) deadline =
    leb deadline.instant first.instant
    && leb (first.instant + provision_absence_grace) confirmed.instant
absence_window (some first) none deadline = false
absence_window none confirmed deadline = false

-- The conjunction at the end of `_provision_resolution_is_complete`.
unfoldable pub resolution_proves : Closeout → Operation → Resolution → TimeText → Datetime → Bool
resolution_proves closeout op resolution text deadline =
    closeout.provision_absence_confirmed
    && (resolution.operation_id == op.id
        && (time_text_eq resolution.termination_deadline text
            && absence_window (aware_datetime resolution.absence_first_observed_at)
                (aware_datetime resolution.confirmed_at) deadline))

abbrev pub needs_resolution : Operation → Bool
needs_resolution op = not (nat_eq op.attempts 0) && is_uncertain op.status

abbrev pub scope_matches : Option SpendScope → SpendScope → Bool
scope_matches none scope = false
scope_matches (some recorded) scope = spend_scope_eq recorded scope

abbrev pub is_zero_spend : Option ℕ → Bool
is_zero_spend none = false
is_zero_spend (some n) = nat_eq n 0

-- the tuple `required`
abbrev pub closeout_proved : Closeout → SpendScope → Bool → Bool
closeout_proved closeout scope resolved =
    is_some closeout.artifact_disposition
    && (closeout.delete_acknowledged
        && (closeout.provider_not_found
            && (is_zero_spend closeout.current_spend_usd_per_hour
                && (scope_matches closeout.current_spend_scope scope && resolved))))

module _ {Spec : Type 0} (c : Context Spec) where
  unfoldable pub provider_termination_deadline : Result (TimeText × Datetime)
  unfolding parse_deadline
  provider_termination_deadline = elim c.provider [
    | absent ↦ err (conflict "provider termination deadline is missing")
    | malformed ↦ err (conflict "provider termination deadline is missing")
    | present provider ↦ parse_deadline provider.terminate_at
  ]

  unfoldable pub check_resolution : Closeout → Operation → Option Resolution → Result Bool
  unfolding resolution_proves
  check_resolution closeout op none = ok false
  check_resolution closeout op (some resolution) =
      provider_termination_deadline >>= λ d. ok (resolution_proves closeout op resolution d.0 d.1)

  unfoldable pub provision_resolution_is_complete : RunState → Closeout → Result Bool
  unfolding check_resolution
  provision_resolution_is_complete s closeout =
      if is_some s.resource then ok true else elim s.provision [
        | none ↦ ok true
        | some op ↦
            if needs_resolution op
            then check_resolution closeout op closeout.provision_resolution
            else ok true
      ]

  abbrev pub has_network_volume : Bool
  has_network_volume = elim c.provider [
    | absent ↦ false
    | malformed ↦ false
    | present provider ↦ elim provider.network_volume_id [ none ↦ false | some id ↦ not (id == "") ]
  ]

  -- a network-volume run with no known resource
  unfoldable pub operation_spend_scope : RunState → Closeout → Operation → Result SpendScope
  unfolding provision_resolution_is_complete
  operation_spend_scope s closeout op =
      if nat_eq op.attempts 0
      then ok (operation_not_dispatched op.id)
      else if not (is_uncertain op.status)
      then ok account
      else provision_resolution_is_complete s closeout >>= λ complete.
          ok (if complete then operation_deadline_absence op.id else account)

  unfoldable pub current_spend_scope : RunState → Closeout → Option String → Result SpendScope
  unfolding operation_spend_scope
  current_spend_scope s closeout (some id) = ok (resource id)
  current_spend_scope s closeout none =
      if has_network_volume
      then elim s.provision [
        | none ↦ ok run_not_dispatched
        | some op ↦ operation_spend_scope s closeout op
      ]
      else ok account

  unfoldable pub assert_closeout_ready : RunState → Result (Unit {0})
  unfolding current_spend_scope provision_resolution_is_complete
  assert_closeout_ready s =
      current_spend_scope s s.closeout (resource_id_of s.resource) >>= λ scope.
      provision_resolution_is_complete s s.closeout >>= λ resolved.
      if closeout_proved s.closeout scope resolved
      then ok tt
      else err (invalid_transition "closeout proof is incomplete")
