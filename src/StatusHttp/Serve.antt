-- ===== src/StatusHttp/Serve.antt =====
-- The handler of src/runpod_jobrunner/status_http.py: `do_GET`, the other methods, and `_write_json`.
use runpod_jobrunner.Prelude.{
  ℕ, String, List, [], ◌∷◌, Option, none, some, Bool, true, false, not, ◌&&◌, ◌==◌, nat_eq, length,
  if◌then◌else◌,
}
use runpod_jobrunner.Prelude.Text.{drop_chars}
use package.text.Mathlib.Text.{starts_with}
use runpod_jobrunner.Json.{Json, text, Fields, no_fields, field}
use runpod_jobrunner.StatusHttp.Digest.{is_ascii_text}
use runpod_jobrunner.StatusHttp.Project.{Numbers, public_status}

-- What the read of the status file gives: a read error, bytes that do not decode, a text that is no
-- JSON, or a value.
pub data Stored : Type 0 where
  unavailable : Stored
  undecodable : Stored
  not_json : Stored
  loaded : Json → Stored

pub record Response : Type 0 where
  pub status_code : ℕ
  pub headers : List (String × String)
  pub body : List ℕ

-- what the handler uses of the standard library: the encoding of a record with sorted keys, with its
-- final newline, and `str` of a number
pub record Writer : Type 0 where
  pub dumps : Fields → List ℕ
  pub number_text : ℕ → String

module _ (writer : Writer) where
  unfoldable pub write_json : ℕ → Fields → Response
  write_json status_code fields = record {
    status_code = status_code;
    headers =
        ("Content-Type", "application/json")
        ∷ ("Content-Length", writer.number_text (length (writer.dumps fields)))
        ∷ ("Cache-Control", "no-store")
        ∷ (if nat_eq status_code 401 then ("WWW-Authenticate", "Bearer") ∷ [] else []);
    body = writer.dumps fields;
  }

  abbrev pub error_response : ℕ → String → Response
  error_response status_code problem =
      write_json status_code (field "error" (text problem) no_fields)

  unfoldable pub supplied_token : String → String
  supplied_token authorization =
      if starts_with authorization "Bearer " then drop_chars 7 authorization else ""

  -- `hmac.compare_digest`, which raises `TypeError` on a text that is not ASCII
  abbrev pub compare_digest : String → String → Option Bool
  compare_digest supplied expected =
      if is_ascii_text supplied && is_ascii_text expected then some (supplied == expected) else none

  abbrev pub projected : Option Fields → Response
  projected none = error_response 503 "status_unavailable"
  projected (some public) = write_json 200 public

  module _ (numbers : Numbers) where
    -- `none` where an exception leaves the handler, which then sends nothing
    abbrev pub served : Stored → Option Response
    served unavailable = some (error_response 503 "status_unavailable")
    served undecodable = none
    served not_json = some (error_response 503 "status_unavailable")
    served (loaded stored) = some (projected (public_status numbers stored))

    abbrev pub after_compare : Option Bool → Stored → Option Response
    after_compare none stored = none
    after_compare (some false) stored = some (error_response 401 "unauthorized")
    after_compare (some true) stored = served stored

    -- `authorization` is the header's value, or the empty text without one
    unfoldable pub do_get : String → String → String → Stored → Option Response
    unfolding write_json supplied_token
    do_get expected_token path authorization stored =
        if not (path == "/status")
        then some (error_response 404 "not_found")
        else after_compare (compare_digest (supplied_token authorization) expected_token) stored

  -- `do_POST`, and PUT, PATCH and DELETE
  unfoldable pub do_post : Response
  unfolding write_json
  do_post = error_response 405 "method_not_allowed"
