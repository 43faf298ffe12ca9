-- ===== src/RunPod/Http.antt =====
-- `RunPodHTTP` of runpod_provider.py: the client of the control plane. The opener of `urllib`, the
-- JSON codec, `Decimal` and the URL quoting are parameters; a key or text is sent as it is given.

use runpod_jobrunner.Prelude.{
  ℕ, String, List, [], ◌∷◌, ◌++◌, Option, none, some, Bool, true, false, ◌&&◌, ◌||◌, ◌==◌, nat_eq,
  ltb, length, concat, is_some, if◌then◌else◌,
}
use runpod_jobrunner.Provider.{Decimal, amount}
use runpod_jobrunner.Json.{
  Json, null, text, array, object, Items, no_items, item, Fields, no_fields, field, find_field,
  get_field, decimal_of,
}
use runpod_jobrunner.RunPod.{
  Mapping, PodObservation, Reply, got, threw, protocol_error, transport_unknown, unhandled,
  then_parse, then_call,
}
use runpod_jobrunner.RunPod.Parse.{parse_pod}

abbrev pub graphql_url : String
graphql_url = "https://api.runpod.io/graphql"

abbrev pub rest_pods_url : String
rest_pods_url = "https://rest.runpod.io/v1/pods"

pub record HttpRequest : Type 0 where
  pub method : String
  pub url : String
  pub headers : Mapping
  pub payload : Option Json

-- What an open of a request does: it reads a body, or the server answers with an error code, whose
-- body may be unreadable, or the transport raises a `URLError`, `TimeoutError` or `OSError`, by its
-- type's name, or an exception of another type, as `http.client` does while a body is read.
pub data Exchange : Type 0 where
  content : List ℕ → Exchange
  http_error : ℕ → Option (List ℕ) → Exchange
  unreachable : String → Exchange
  broken : String → Exchange

-- What `json.loads` does with some bytes: a value, `JSONDecodeError` or `UnicodeDecodeError`, or
-- `RecursionError`.
pub data Parsed : Type 0 where
  parsed : Json → Parsed
  invalid : Parsed
  too_deep : Parsed

-- what the client is given, and what it uses of the standard library
pub record Client (W : Type 0) : Type 0 where
  pub api_key : String
  pub open_request : HttpRequest → W → Exchange × W
  pub loads : List ℕ → Parsed
  pub decimal : String → Option Decimal
  pub quote : String → String
  pub number_text : ℕ → String

abbrev pub is_validation_failure : Json → Bool
is_validation_failure (object entry) = elim (get_field "extensions" entry) [
  | object extensions ↦ elim (get_field "code" extensions) [
    | text code ↦ code == "GRAPHQL_VALIDATION_FAILED"
    | _ ↦ false
  ]
  | _ ↦ false
]
is_validation_failure _ = false

unfoldable pub any_validation_failure : Items → Bool
any_validation_failure no_items = false
any_validation_failure (item entry rest) =
    is_validation_failure entry || any_validation_failure rest

abbrev pub suffix_of : Parsed → String
suffix_of (parsed (object value)) = elim (get_field "errors" value) [
  | array errors ↦ if any_validation_failure errors then " (GraphQL validation failed)" else ""
  | _ ↦ ""
]
suffix_of _ = ""

module _ {W : Type 0} (c : Client W) where
  -- `error.read(65537)` gives at most that many bytes
  unfoldable pub graphql_http_error_suffix : Option (List ℕ) → String
  unfolding any_validation_failure
  graphql_http_error_suffix none = ""
  graphql_http_error_suffix (some []) = ""
  graphql_http_error_suffix (some (b ∷ raw)) =
      if ltb 65536 (length (b ∷ raw)) then "" else suffix_of (c.loads (b ∷ raw))

  abbrev pub request_of : String → String → Option Json → Bool → HttpRequest
  request_of method url payload authorized = record {
    method = method;
    url = url;
    headers =
        ("User-Agent", "runpod-jobrunner/0.1.12")
        ∷ ((if authorized then ("Authorization", concat "Bearer " c.api_key) ∷ [] else [])
            ++ (("Accept", "application/json")
                ∷ (if is_some payload then ("Content-Type", "application/json") ∷ [] else [])));
    payload = payload;
  }

  abbrev pub loaded_content : List ℕ → Reply Json
  loaded_content [] = got (object no_fields)
  loaded_content (b ∷ raw) = elim (c.loads (b ∷ raw)) [
    | parsed value ↦ got value
    | invalid ↦ threw (protocol_error "RunPod returned invalid JSON")
    | too_deep ↦ threw (unhandled "RecursionError")
  ]

  abbrev pub read_exchange : Bool → Bool → Exchange → Reply Json
  read_exchange allow_not_found authorized (content raw) = loaded_content raw
  read_exchange allow_not_found authorized (http_error code body) =
      if allow_not_found && nat_eq code 404
      then got null
      else threw (
          protocol_error (
            concat "RunPod HTTP error " (
              concat (c.number_text code)
                (if authorized then "" else graphql_http_error_suffix body))))
  read_exchange allow_not_found authorized (unreachable kind) =
      threw (transport_unknown (concat "RunPod transport outcome unknown (" (concat kind ")")))
  read_exchange allow_not_found authorized (broken kind) = threw (unhandled kind)

  unfoldable pub json_request : String → String → Option Json → Bool → Bool → W → Reply Json × W
  unfolding graphql_http_error_suffix
  json_request method url payload allow_not_found authorized w =
      let (exchange, after) = c.open_request (request_of method url payload authorized) w in
      (read_exchange allow_not_found authorized exchange, after)

  abbrev pub graphql_data : Fields → Reply Fields
  graphql_data response = elim (get_field "data" response) [
    | object found ↦ got found
    | _ ↦ threw (protocol_error "RunPod GraphQL response had no data")
  ]

  abbrev pub graphql_checked : Fields → Reply Fields
  graphql_checked response = elim (get_field "errors" response) [
    | null ↦ graphql_data response
    | array no_items ↦ graphql_data response
    | array (item e rest) ↦ threw (protocol_error "RunPod GraphQL request failed")
    | _ ↦ threw (protocol_error "RunPod GraphQL errors field was malformed")
  ]

  abbrev pub graphql_response : Json → Reply Fields
  graphql_response (object response) = graphql_checked response
  graphql_response _ = threw (protocol_error "RunPod GraphQL response was not an object")

  unfoldable pub graphql : String → Fields → W → Reply Fields × W
  graphql query variables w =
      then_call
        (json_request "POST" (concat graphql_url (concat "?api_key=" (c.quote c.api_key)))
          (some
            (object (field "query" (text query) (field "variables" (object variables) no_fields))))
          false false w)
        (λ raw after. (graphql_response raw, after))

  unfoldable pub parse_list : Items → Reply (List PodObservation)
  parse_list no_items = got []
  parse_list (item (object raw) rest) =
      then_parse (parse_pod c.decimal raw)
        (λ pod. then_parse (parse_list rest) (λ pods. got (pod ∷ pods)))
  parse_list (item _ rest) = threw (protocol_error "RunPod pod list item was not an object")

  abbrev pub pods_of : Json → Reply (List PodObservation)
  pods_of (array raw) = parse_list raw
  pods_of _ = threw (protocol_error "RunPod pod list was not an array")

  unfoldable pub list_pods : W → Reply (List PodObservation) × W
  unfolding parse_list
  list_pods w =
      then_call
        (json_request "GET" (concat rest_pods_url "?includeNetworkVolume=true") none false true w)
        (λ raw after. (pods_of raw, after))

  unfoldable pub find_pods_named : String → List PodObservation → List PodObservation
  find_pods_named name [] = []
  find_pods_named name (pod ∷ pods) =
      let later = find_pods_named name pods in if pod.name == name then pod ∷ later else later

  unfoldable pub find_pods_by_exact_name : String → W → Reply (List PodObservation) × W
  unfolding find_pods_named
  find_pods_by_exact_name name w =
      then_call (list_pods w) (λ pods after. (got (find_pods_named name pods), after))

  abbrev pub pod_or_none : Json → Reply (Option PodObservation)
  pod_or_none null = got none
  pod_or_none (object raw) = then_parse (parse_pod c.decimal raw) (λ pod. got (some pod))
  pod_or_none _ = threw (protocol_error "RunPod pod response was not an object")

  abbrev pub pod_url : String → String
  pod_url pod_id = concat rest_pods_url (concat "/" pod_id)

  unfoldable pub get_pod : String → W → Reply (Option PodObservation) × W
  get_pod pod_id w =
      then_call
        (json_request "GET" (concat (pod_url pod_id) "?includeNetworkVolume=true") none true true w)
        (λ raw after. (pod_or_none raw, after))

  abbrev pub started_pod : Json → Reply PodObservation
  started_pod (object raw) = parse_pod c.decimal raw
  started_pod _ = threw (protocol_error "RunPod start response was not an object")

  unfoldable pub start_pod : String → W → Reply PodObservation × W
  start_pod pod_id w =
      then_call
        (json_request "POST" (concat (pod_url pod_id) "/start") (some (object no_fields)) false true
          w)
        (λ raw after. (started_pod raw, after))

  abbrev pub is_not_null : Json → Bool
  is_not_null null = false
  is_not_null _ = true

  unfoldable pub delete_pod : String → W → Reply Bool × W
  delete_pod pod_id w =
      then_call (json_request "DELETE" (pod_url pod_id) none true true w)
        (λ response after. (got (is_not_null response), after))

  abbrev pub spend_of : Option Decimal → Reply Decimal
  spend_of (some (amount n)) = got (amount n)
  spend_of _ = threw (protocol_error "RunPod spend response was malformed")

  abbrev pub reported_spend : Fields → Reply Decimal
  reported_spend found = elim (get_field "myself" found) [
    | object myself ↦ elim (find_field "currentSpendPerHr" myself) [
      | some spend ↦ spend_of (decimal_of c.decimal spend)
      | none ↦ threw (protocol_error "RunPod spend response was malformed")
    ]
    | _ ↦ threw (protocol_error "RunPod spend response was malformed")
  ]

  unfoldable pub current_spend_per_hour : W → Reply Decimal × W
  current_spend_per_hour w =
      then_call (graphql "query CurrentSpend { myself { currentSpendPerHr } }" no_fields w)
        (λ found after. (reported_spend found, after))
