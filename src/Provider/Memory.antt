-- ===== src/Provider/Memory.antt =====
-- `MemoryRunPod` of src/runpod_jobrunner/provider.py: the provider fake that creates a new resource
-- on every `create` and can lose the outcome of an effect. Its `before_effect` test hook is unset.
use Prim.Native.Nat.{◌/◌, ◌%◌}
use runpod_jobrunner.Prelude.{
  ℕ, zero, suc, ◌+◌, ◌-◌, String, List, [], ◌∷◌, ◌++◌, Option, none, some, Bool, true, false, not,
  ◌==◌, ltb, nat_eq, is_some, if◌then◌else◌, concat,
}
use runpod_jobrunner.Prelude.Text.{count}
use runpod_jobrunner.Provider.{
  Provider, ProviderResource, provisioned, running, stopped, ProviderCreateRequest, DeleteReceipt,
  Decimal, one_usd, amount, negative, not_finite, Answer, returned, raised, outcome_unknown, failed,
}

pub data EffectKind : Type 0 where
  provision start delete : EffectKind

abbrev pub effect_kind_eq : EffectKind → EffectKind → Bool
effect_kind_eq provision provision = true
effect_kind_eq start start = true
effect_kind_eq delete delete = true
effect_kind_eq _ _ = false

abbrev pub effect_name : EffectKind → String
effect_name provision = "provision"
effect_name start = "start"
effect_name delete = "delete"

pub record ProviderEffect : Type 0 where
  pub kind : EffectKind
  pub operation_id : String
  pub resource_id : Option String

abbrev pub Resources : Type 0
Resources = List (String × ProviderResource)

pub record MemoryRunPod : Type 0 where
  pub resources : Resources
  pub effects : List ProviderEffect
  pub forced_current_spend_usd_per_hour : Option Decimal
  pub fail_after_effect : List EffectKind
  pub next_resource_number : ℕ

unfoldable pub new_memory : MemoryRunPod
new_memory = record {
  resources = [];
  effects = [];
  forced_current_spend_usd_per_hour = none;
  fail_after_effect = [];
  next_resource_number = 1;
}

-- `spec.get("hourly_rate_usd", "1")`: left out, money, or nothing that `Decimal` takes.
pub data MemorySpec : Type 0 where
  no_rate : MemorySpec
  rate : Decimal → MemorySpec
  bad_rate : MemorySpec

-- `dict` lookup, assignment and `pop`
unfoldable pub lookup : String → Resources → Option ProviderResource
lookup key [] = none
lookup key ((k, r) ∷ rest) = if k == key then some r else lookup key rest

unfoldable pub assign : String → ProviderResource → Resources → Resources
assign key r [] = (key, r) ∷ []
assign key r ((k, q) ∷ rest) = if k == key then (key, r) ∷ rest else (k, q) ∷ assign key r rest

unfoldable pub pop : String → Resources → Resources
pop key [] = []
pop key ((k, r) ∷ rest) = let tail = pop key rest in if k == key then rest else (k, r) ∷ tail

unfoldable pub created_by : String → Resources → List ProviderResource
created_by operation_id [] = []
created_by operation_id ((k, r) ∷ rest) =
    let tail = created_by operation_id rest in
    if r.create_operation_id == operation_id then r ∷ tail else tail

abbrev pub contains_kind : EffectKind → List EffectKind → Bool
contains_kind kind [] = false
contains_kind kind (k ∷ rest) = if effect_kind_eq k kind then true else contains_kind kind rest

abbrev pub remove_kind : EffectKind → List EffectKind → List EffectKind
remove_kind kind [] = []
remove_kind kind (k ∷ rest) = if effect_kind_eq k kind then rest else k ∷ remove_kind kind rest

-- `_raise_if_injected`, around the answer of the effect
unfoldable pub raise_if_injected :
    {A : Type 0} → EffectKind → String → A → MemoryRunPod → Answer A × MemoryRunPod
raise_if_injected kind operation_id a m =
    if contains_kind kind m.fail_after_effect
    then (
      raised (
          outcome_unknown (
            concat "provider " (
              concat (effect_name kind)
                (concat " outcome is unknown for operation " operation_id)))),
      record m { fail_after_effect = remove_kind kind m.fail_after_effect },
    )
    else (returned a, m)

unfoldable pub fail_next_after_effect : EffectKind → MemoryRunPod → MemoryRunPod
fail_next_after_effect kind m = record m { fail_after_effect = m.fail_after_effect ++ kind ∷ [] }

abbrev pub digit : ℕ → String
digit d =
    if nat_eq d 0
    then "0"
    else if nat_eq d 1
    then "1"
    else if nat_eq d 2
    then "2"
    else if nat_eq d 3
    then "3"
    else if nat_eq d 4
    then "4"
    else if nat_eq d 5
    then "5"
    else if nat_eq d 6
    then "6"
    else if nat_eq d 7
    then "7"
    else if nat_eq d 8
    then "8"
    else "9"

-- the decimal digits of `n`; `n + 1` is fuel enough
unfoldable pub decimal : ℕ → ℕ → String
decimal zero n = ""
decimal (suc fuel) n =
    let front = decimal fuel (n / 10) in if ltb n 10 then digit n else concat front (digit (n % 10))

unfoldable pub zeros : ℕ → String
zeros zero = ""
zeros (suc n) = concat "0" (zeros n)

-- `f"memory-pod-{n:06d}"`
unfoldable pub memory_pod_id : ℕ → String
unfolding decimal zeros
memory_pod_id n =
    let text = decimal (n + 1) n in concat "memory-pod-" (concat (zeros (6 - count text)) text)

-- `_decimal_from_spec`: `none` where it raises
unfoldable pub decimal_from_spec : MemorySpec → Option ℕ
decimal_from_spec no_rate = some one_usd
decimal_from_spec bad_rate = none
decimal_from_spec (rate (amount n)) = some n
decimal_from_spec (rate (negative n)) = none
decimal_from_spec (rate not_finite) = none

module _ (request : ProviderCreateRequest MemorySpec) where
  -- the resource is stored before an injected failure is raised
  unfoldable pub store_created :
      String → Option ℕ → MemoryRunPod → Answer ProviderResource × MemoryRunPod
  unfolding raise_if_injected
  store_created id none m = (raised (failed "invalid provider money"), m)
  store_created id (some hourly) m =
      let r : ProviderResource = record {
        id = id;
        run_id = request.run_id;
        create_operation_id = request.operation_id;
        name = request.resource_name;
        state = provisioned;
        hourly_rate_usd = hourly;
      } in
      raise_if_injected provision request.operation_id r
        (record m { resources = assign id r m.resources })

  unfoldable pub create : MemoryRunPod → Answer ProviderResource × MemoryRunPod
  unfolding store_created decimal_from_spec
  create m =
      let id = memory_pod_id m.next_resource_number in
      store_created id (decimal_from_spec request.spec) (record m {
        next_resource_number = m.next_resource_number + 1;
        effects =
            m.effects
            ++ (record {
              kind = provision;
              operation_id = request.operation_id;
              resource_id = some id;
            })
              ∷ [];
      })

unfoldable pub find_resources :
    String → MemoryRunPod → Answer (List ProviderResource) × MemoryRunPod
find_resources operation_id m = (returned (created_by operation_id m.resources), m)

unfoldable pub get : String → MemoryRunPod → Answer (Option ProviderResource) × MemoryRunPod
get id m = (returned (lookup id m.resources), m)

abbrev pub with_effect : EffectKind → String → String → MemoryRunPod → MemoryRunPod
with_effect kind id operation_id m = record m {
  effects =
      m.effects
      ++ (record { kind = kind; operation_id = operation_id; resource_id = some id }) ∷ [];
}

unfoldable pub start_found :
    String
    → String
    → Option ProviderResource
    → MemoryRunPod
    → Answer ProviderResource × MemoryRunPod
unfolding raise_if_injected
start_found id operation_id none m =
    (raised (failed (concat "provider resource is absent: " id)), m)
start_found id operation_id (some r) m =
    let r' = record r { state = running } in
    let m' = with_effect start id operation_id m in
    raise_if_injected start operation_id r' (record m' { resources = assign id r' m.resources })

unfoldable pub start_resource :
    String → String → MemoryRunPod → Answer ProviderResource × MemoryRunPod
unfolding start_found
start_resource id operation_id m = start_found id operation_id (lookup id m.resources) m

unfoldable pub delete_resource :
    String → String → MemoryRunPod → Answer DeleteReceipt × MemoryRunPod
unfolding raise_if_injected
delete_resource id operation_id m =
    let m' = with_effect delete id operation_id m in
    raise_if_injected delete operation_id
      (record {
        operation_id = operation_id;
        acknowledged = true;
        already_absent = not (is_some (lookup id m.resources));
      })
      (record m' { resources = pop id m.resources })

unfoldable pub total_rate : Resources → ℕ
total_rate [] = 0
total_rate ((k, r) ∷ rest) = r.hourly_rate_usd + total_rate rest

abbrev pub resource_spend : Option ProviderResource → ℕ
resource_spend none = 0
resource_spend (some r) = elim r.state [ stopped ↦ 0 | _ ↦ r.hourly_rate_usd ]

unfoldable pub current_spend_usd_per_hour :
    Option String → MemoryRunPod → Answer Decimal × MemoryRunPod
unfolding total_rate
current_spend_usd_per_hour id m = elim m.forced_current_spend_usd_per_hour [
  | some spend ↦ (returned spend, m)
  | none ↦ elim id [
    | none ↦ (returned (amount (total_rate m.resources)), m)
    | some i ↦ (returned (amount (resource_spend (lookup i m.resources))), m)
  ]
]

-- The fake behind the lifecycle's seam.
abbrev pub memory_provider : Provider MemorySpec MemoryRunPod
memory_provider = record {
  find_resources = find_resources;
  create = create;
  get = get;
  start = start_resource;
  delete = delete_resource;
  current_spend_usd_per_hour = current_spend_usd_per_hour;
}
