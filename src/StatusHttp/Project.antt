-- ===== src/StatusHttp/Project.antt =====
-- `_public_status` of src/runpod_jobrunner/status_http.py, with the projections of the child and of
-- the terminal result.
use Prim.Native.Char.{code}
use runpod_jobrunner.Prelude.{String, Option, none, some, Bool, true, false, ◌&&◌, ◌==◌, contains}
use runpod_jobrunner.Provider.{Decimal}
use runpod_jobrunner.Json.{
  Json, null, boolean, integer, text, array, object, Items, no_items, item, Fields, no_fields,
  field, get_field,
}
use runpod_jobrunner.StatusHttp.{
  states, outcomes, reasons, phase_order, then_some, guarded, mapping_of, string_of, optional_text,
  integer_of, number_of, decimal_string, known_phase, public_protocol_majors,
}
use runpod_jobrunner.StatusHttp.Digest.{is_digest}

abbrev pub exit_code_of : Json → Option Json
exit_code_of null = some null
exit_code_of code = integer_of code

abbrev pub running_of : Json → Option Json
running_of (boolean b) = some (boolean b)
running_of _ = none

unfoldable pub child_fields : Fields → Option Json
child_fields child = then_some (running_of (get_field "running" child)) (λ running.
    then_some (exit_code_of (get_field "exit_code" child)) (λ exit_code.
      then_some (integer_of (get_field "pid" child)) (λ pid. some (
        object
          (field "pid" pid (field "running" running (field "exit_code" exit_code no_fields)))))))

unfoldable pub public_child : Json → Option Json
unfolding child_fields
public_child null = some null
public_child child = then_some (mapping_of child) child_fields

-- the phases, where each item is a known one
unfoldable pub all_phases : Items → Bool
all_phases no_items = true
all_phases (item (text phase) rest) = contains phase phase_order && all_phases rest
all_phases (item _ rest) = false

abbrev pub completed_of : Json → Option Json
completed_of (array phases) = guarded (all_phases phases) (some (array phases))
completed_of _ = none

-- the exit codes, where each name is a known phase
unfoldable pub exit_codes : Fields → Option Fields
exit_codes no_fields = some no_fields
exit_codes (field phase v rest) =
    let later = exit_codes rest in
    guarded (contains phase phase_order)
      (then_some (integer_of v) (λ n. then_some later (λ codes. some (field phase n codes))))

-- the receipt of the artifact manifest: absent, valid, or refused
abbrev pub manifest_receipt : Json → Json → Option Fields
manifest_receipt null null = some no_fields
manifest_receipt (text digest) (integer size) = guarded (is_digest digest) (
    some (
      field "artifact_manifest_sha256" (text digest)
        (field "artifact_manifest_size" (integer size) no_fields)))
manifest_receipt _ _ = none

-- what the handler is given: `Decimal` of a text, Python's conversion of a number, and
-- `round(max(0.0, time.time() - heartbeat), 6)` at the time of the call
pub record Numbers : Type 0 where
  pub decimal : String → Option Decimal
  pub as_float : Json → Json
  pub age : Json → Json

module _ (numbers : Numbers) where
  unfoldable pub terminal_fields : Fields → Option Json
  unfolding all_phases exit_codes
  terminal_fields terminal =
      then_some (completed_of (get_field "completed_phases" terminal)) (λ completed_phases.
        then_some (mapping_of (get_field "phase_exit_codes" terminal)) (λ raw_codes.
          then_some (exit_codes raw_codes) (λ codes.
            then_some (string_of (get_field "outcome" terminal)) (λ outcome.
              then_some (string_of (get_field "reason" terminal)) (λ reason.
                guarded (contains outcome outcomes && contains reason reasons) (
                  then_some (optional_text (get_field "phase" terminal)) (λ phase.
                    guarded (known_phase phase) (
                      then_some (number_of numbers.as_float (get_field "elapsed_seconds" terminal))
                        (λ elapsed.
                          then_some
                            (decimal_string numbers.decimal
                              (get_field "estimated_cost_usd" terminal))
                            (λ cost.
                              then_some
                                (manifest_receipt (get_field "artifact_manifest_sha256" terminal)
                                  (get_field "artifact_manifest_size" terminal))
                                (λ receipt. some (
                                  object (
                                    field "outcome" (text outcome) (
                                      field "reason" (text reason) (
                                        field "phase" phase (
                                          field "elapsed_seconds" elapsed (
                                            field "estimated_cost_usd" cost (
                                              field "completed_phases" completed_phases (
                                                field "phase_exit_codes" (object codes)
                                                  receipt)))))))))))))))))))

  unfoldable pub public_terminal : Json → Option Json
  unfolding terminal_fields
  public_terminal null = some null
  public_terminal terminal = then_some (mapping_of terminal) terminal_fields

  abbrev pub is_run_status : Json → Bool
  is_run_status (text protocol) = protocol == "run-status/1"
  is_run_status _ = false

  -- from the values that the stored status has for the fields that are read, in this order
  unfoldable pub status_shown :
      (protocol heartbeat_at raw_state raw_phase raw_run_id raw_version : Json)
      → (raw_commit raw_majors raw_monotonic raw_child raw_sequence raw_terminal : Json)
      → Option Fields
  unfolding public_child public_terminal
  status_shown protocol heartbeat_at raw_state raw_phase raw_run_id raw_version raw_commit
        raw_majors raw_monotonic raw_child raw_sequence raw_terminal =
      guarded (is_run_status protocol) (
        then_some (number_of numbers.age heartbeat_at) (λ age.
          then_some (string_of raw_state) (λ state. guarded (contains state states) (
            then_some (optional_text raw_phase) (λ phase. guarded (known_phase phase) (
              then_some (string_of raw_run_id) (λ run_id.
                then_some (string_of raw_version) (λ version.
                  then_some (string_of raw_commit) (λ commit.
                    then_some (public_protocol_majors raw_majors) (λ majors.
                      then_some (number_of numbers.as_float raw_monotonic) (λ monotonic.
                        then_some (public_child raw_child) (λ child.
                          then_some (integer_of raw_sequence) (λ sequence.
                            then_some (public_terminal raw_terminal) (λ terminal. some (
                              field "protocol" (text "run-status/1") (
                                field "run_id" (text run_id) (
                                  field "runner_version" (text version) (
                                    field "runner_git_commit" (text commit) (
                                      field "supported_protocol_majors" majors (
                                        field "state" (text state) (
                                          field "phase" phase (
                                            field "heartbeat_age_seconds" age (
                                              field "heartbeat_monotonic_seconds" monotonic (
                                                field "child" child (
                                                  field "latest_event_sequence" sequence (
                                                    field "terminal_result" terminal
                                                      no_fields))))))))))))))))))))))))))

  unfoldable pub status_fields : Fields → Option Fields
  unfolding status_shown
  status_fields status =
      status_shown (get_field "protocol" status) (get_field "heartbeat_at_unix" status)
        (get_field "state" status) (get_field "phase" status) (get_field "run_id" status)
        (get_field "runner_version" status) (get_field "runner_git_commit" status)
        (get_field "supported_protocol_majors" status)
        (get_field "heartbeat_monotonic_seconds" status) (get_field "child" status)
        (get_field "latest_event_sequence" status) (get_field "terminal_result" status)

  unfoldable pub public_status : Json → Option Fields
  unfolding status_fields
  public_status candidate = then_some (mapping_of candidate) status_fields
