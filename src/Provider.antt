-- ===== src/Provider.antt =====
-- The provider contract of src/runpod_jobrunner/provider.py: its resources, receipts and errors,
-- and the seam that the lifecycle calls.
pub mod Memory
use runpod_jobrunner.Prelude.{ℕ, Bool, String, List, Option}

-- `Decimal` money in billionths of a dollar, as far as the code tests it: `negative n` stands for -(n + 1), and `not_finite` for NaN and the infinities.
pub data Decimal : Type 0 where
  amount : ℕ → Decimal
  negative : ℕ → Decimal
  not_finite : Decimal

-- one dollar
abbrev pub one_usd : ℕ
one_usd = 1000000000

pub data ProviderResourceState : Type 0 where
  provisioned starting running stopped : ProviderResourceState

pub record ProviderResource : Type 0 where
  pub id : String
  pub run_id : String
  pub create_operation_id : String
  pub name : String
  pub state : ProviderResourceState
  pub hourly_rate_usd : ℕ

pub record DeleteReceipt : Type 0 where
  pub operation_id : String
  pub acknowledged : Bool
  pub already_absent : Bool

pub record ProviderCreateRequest (Spec : Type 0) : Type 0 where
  pub run_id : String
  pub operation_id : String
  pub resource_name : String
  pub spec : Spec

-- The exceptions that a provider call raises: `ProviderRejected` with its resource IDs,
-- `ProviderOutcomeUnknown`, any other `ProviderError`, and any exception that is none of these, which
-- the lifecycle does not catch.
pub data ProviderError : Type 0 where
  rejected : String → List String → ProviderError
  outcome_unknown : String → ProviderError
  failed : String → ProviderError
  escaped : String → ProviderError

pub data Answer (A : Type 0) : Type 0 where
  returned : A → Answer A
  raised : ProviderError → Answer A

-- The `Provider` protocol over the provider's own state `W`: a call answers, and may change `W`
-- whether it returns or raises.
pub record Provider (Spec W : Type 0) : Type 0 where
  pub find_resources : String → W → Answer (List ProviderResource) × W
  pub create : ProviderCreateRequest Spec → W → Answer ProviderResource × W
  pub get : String → W → Answer (Option ProviderResource) × W
  pub start : String → String → W → Answer ProviderResource × W
  pub delete : String → String → W → Answer DeleteReceipt × W
  pub current_spend_usd_per_hour : Option String → W → Answer Decimal × W
