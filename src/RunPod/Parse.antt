-- ===== src/RunPod/Parse.antt =====
-- How runpod_provider.py reads a pod record: `_parse_pod` and its helpers.
use runpod_jobrunner.Prelude.{ℕ, String, [], ◌∷◌, Option, none, some, ◌==◌, if◌then◌else◌}
use runpod_jobrunner.Provider.{Decimal, amount}
use runpod_jobrunner.Json.{
  Json, null, text, array, object, Items, no_items, item, Fields, no_fields, field, find_field,
  get_field, decimal_of, optional_string, optional_boolean,
}
use runpod_jobrunner.RunPod.{
  Mapping, put, PodObservation, Reply, got, threw, protocol_error, then_parse,
}

-- the string items of a mapping
unfoldable pub parse_members : Fields → Mapping
parse_members no_fields = []
parse_members (field key (text value) rest) = (key, value) ∷ parse_members rest
parse_members (field key _ rest) = parse_members rest

abbrev pub parse_pair : Json → Json → Mapping → Mapping
parse_pair (text key) (text value) parsed = put key value parsed
parse_pair _ _ parsed = parsed

-- the key and value objects of a list, a later one in place of an earlier
unfoldable pub parse_entries : Items → Mapping → Mapping
parse_entries no_items parsed = parsed
parse_entries (item (object record_fields) rest) parsed =
    parse_entries rest
      (parse_pair (get_field "key" record_fields) (get_field "value" record_fields) parsed)
parse_entries (item _ rest) parsed = parse_entries rest parsed

unfoldable pub parse_environment : Json → Option Mapping
unfolding parse_members parse_entries
parse_environment (object members) = some (parse_members members)
parse_environment (array entries) = some (parse_entries entries [])
parse_environment _ = none

abbrev pub network_volume_identity : Json → Reply (Option String)
network_volume_identity (text id) =
    if id == ""
    then threw (protocol_error "RunPod pod record lacks network volume identity")
    else got (some id)
network_volume_identity _ = threw (protocol_error "RunPod pod record lacks network volume identity")

unfoldable pub parse_network_volume_id : Json → Reply (Option String)
parse_network_volume_id null = got none
parse_network_volume_id (object members) = network_volume_identity (get_field "id" members)
parse_network_volume_id _ =
    threw (protocol_error "RunPod pod record has malformed network volume data")

abbrev pub checked_rate : Option Decimal → Reply (Option ℕ)
checked_rate (some (amount n)) = got (some n)
checked_rate _ = threw (protocol_error "RunPod pod record has an invalid hourly rate")

-- `decimal` is what `Decimal` reads from a text
unfoldable pub parse_cost : (String → Option Decimal) → Json → Reply (Option ℕ)
parse_cost decimal null = got none
parse_cost decimal cost = checked_rate (decimal_of decimal cost)

abbrev pub port_mappings_of : Json → Option Fields
port_mappings_of (object mappings) = some mappings
port_mappings_of _ = none

abbrev pub image_of : Fields → Option String
image_of raw = elim (find_field "imageName" raw) [
  | some image ↦ optional_string image
  | none ↦ optional_string (get_field "image" raw)
]

abbrev pub parse_identified :
    (String → Option Decimal) → Fields → String → String → Reply PodObservation
parse_identified decimal raw id name =
    then_parse (parse_cost decimal (get_field "costPerHr" raw)) (λ cost.
      then_parse (parse_network_volume_id (get_field "networkVolume" raw)) (λ network_volume_id.
        got (record {
          id = id;
          name = name;
          desired_status = optional_string (get_field "desiredStatus" raw);
          cost_per_hour = cost;
          volume_encrypted = optional_boolean (get_field "volumeEncrypted" raw);
          network_volume_id = network_volume_id;
          image = image_of raw;
          public_ip = optional_string (get_field "publicIp" raw);
          port_mappings = port_mappings_of (get_field "portMappings" raw);
          environment = parse_environment (get_field "env" raw);
        })))

abbrev pub parse_named : (String → Option Decimal) → Fields → Json → Json → Reply PodObservation
parse_named decimal raw (text id) (text name) = parse_identified decimal raw id name
parse_named decimal raw _ _ = threw (protocol_error "RunPod pod record lacks string id/name")

unfoldable pub parse_pod : (String → Option Decimal) → Fields → Reply PodObservation
unfolding parse_cost parse_network_volume_id parse_environment
parse_pod decimal raw = parse_named decimal raw (get_field "id" raw) (get_field "name" raw)
