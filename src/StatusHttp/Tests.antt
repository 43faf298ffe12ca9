-- ===== src/StatusHttp/Tests.antt =====
-- A stored status and a client, and each theorem at a concrete input.
use runpod_jobrunner.Prelude.{
  ◌≡◌, refl, sym, ap, subst, inl, inr, Bool-cases, eq_iff, String, [], ◌∷◌, Option, none, some,
  true, false, contains, ◌==◌, arith,
}
use runpod_jobrunner.Provider.{amount}
use runpod_jobrunner.Json.{
  Json, integer, text, array, object, no_items, item, Fields, no_fields, field, find_field,
}
use runpod_jobrunner.Identity.{
  protocol_majors, parse_entries, check_name, check_versions, check_sorted, positive_items,
  check_required, lookup,
}
use runpod_jobrunner.StatusHttp.{
  then_some, guarded, public_protocol_majors, offer_entries, version_items, majors_object,
  version_list,
}
use runpod_jobrunner.StatusHttp.Digest.{is_ascii_text}
use runpod_jobrunner.StatusHttp.Project.{
  Numbers, public_status, status_fields, status_shown, public_child, public_terminal,
}
use runpod_jobrunner.StatusHttp.Serve.{
  Stored, loaded, not_json, Response, Writer, do_get, write_json, supplied_token,
}
use runpod_jobrunner.StatusHttp.Public.{IsAuthorized, do_get-IsAuthorized, do_get-unauthorized}
use runpod_jobrunner.StatusHttp.Shown.{keys_of, read_fields, served_fields, public_status-fields}

abbrev numbers : Numbers
numbers = record { decimal = λ s. some (amount 0); as_float = λ v. v; age = λ v. integer 0 }

abbrev writer : Writer
writer = record { dumps = λ fields. 1 ∷ []; number_text = λ n. "1" }

abbrev majors : Fields
majors = field "artifact-manifest" (array (item (integer 1) no_items)) (
    field "launch-authorization" (array (item (integer 1) no_items)) (
      field "run-event" (array (item (integer 1) no_items)) (
        field "run-request" (array (item (integer 1) no_items))
          (field "run-status" (array (item (integer 1) no_items)) no_fields))))

-- a stored status, with the fields of `rest` beside those that are read
abbrev stored_with : Fields → Fields
stored_with rest = field "protocol" (text "run-status/1") (
    field "run_id" (text "run-1") (
      field "runner_version" (text "0.1.12") (
        field "runner_git_commit" (text "abc") (
          field "supported_protocol_majors" (object majors) (
            field "state" (text "ready") (
              field "heartbeat_at_unix" (integer 1) (
                field "heartbeat_monotonic_seconds" (integer 1)
                  (field "latest_event_sequence" (integer 1) rest))))))))

abbrev stored : Stored
stored = loaded (object (stored_with no_fields))

abbrev shown : Option Fields
shown = public_status numbers (object (stored_with no_fields))

abbrev shown_or_empty : Option Fields → Fields
shown_or_empty none = no_fields
shown_or_empty (some fields) = fields

abbrev response : Response
response = write_json writer 200 (shown_or_empty shown)

served_to_owner : do_get writer numbers "token" "/status" "Bearer token" stored ≡ some response
unfolding do_get write_json supplied_token is_ascii_text public_status status_fields status_shown
    then_some guarded public_protocol_majors offer_entries version_items majors_object version_list
    find_field public_child public_terminal protocol_majors parse_entries check_name check_versions
    check_sorted positive_items check_required lookup
served_to_owner = refl

response_ok : response.status_code ≡ 200
unfolding write_json
response_ok = refl

do_get-IsAuthorized_example :
    IsAuthorized writer numbers "token" "/status" "Bearer token" refl
    × ((status : Json) × (public : Fields) × (stored ≡ loaded status)
        × (public_status numbers status ≡ some public)
        × (response ≡ write_json writer 200 public))
do_get-IsAuthorized_example =
    do_get-IsAuthorized writer numbers "token" "/status" "Bearer token" refl stored response
      served_to_owner response_ok

false_is_true : false ≡ true → ⊥
false_is_true h = ground arith

not_authorized : IsAuthorized writer numbers "token" "/status" "Bearer other" refl → ⊥
not_authorized h = false_is_true (ap (λ s. s == "token") h.2)

do_get-unauthorized_example :
    do_get writer numbers "token" "/status" "Bearer other" stored
    ≡ do_get writer numbers "token" "/status" "Bearer other" not_json
do_get-unauthorized_example =
    do_get-unauthorized writer numbers "token" "/status" "Bearer other" refl not_authorized stored
      not_json

not_secret : (key : String) → contains key read_fields ≡ true → ("secret" == key) ≡ false
not_secret key h = elim (Bool-cases ("secret" == key)) [
  | inl b ↦ absurd (
      false_is_true
        (subst (λ k. contains k read_fields ≡ true) (sym ((eq_iff "secret" key).0 b)) h))
  | inr b ↦ b
]

agree :
    (key : String)
    → contains key read_fields ≡ true
    → find_field key (stored_with no_fields)
      ≡ find_field key (stored_with (field "secret" (text "x") no_fields))
unfolding find_field
agree key h = ground (arith, not_secret key h)

-- two stored objects that differ in a field that is not read
public_status-fields_example :
    (public_status numbers (object (stored_with no_fields))
      ≡ public_status numbers (object (stored_with (field "secret" (text "x") no_fields))))
    × ((public : Fields)
        → public_status numbers (object (stored_with no_fields)) ≡ some public
        → keys_of public ≡ served_fields)
public_status-fields_example =
    public_status-fields numbers (stored_with no_fields)
      (stored_with (field "secret" (text "x") no_fields)) agree
