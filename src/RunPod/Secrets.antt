-- ===== src/RunPod/Secrets.antt =====
-- The durable policy of an operation in runpod_provider.py: the files below `secrets_root`, each of
-- which is written once. A file is whole or missing; the cut of a write is not modelled.
use runpod_jobrunner.Prelude.{
  ℕ, String, List, [], ◌∷◌, Option, none, some, Bool, true, ◌||◌, ◌==◌, nat_eq, concat,
  if◌then◌else◌,
}
use runpod_jobrunner.Prelude.Spaces.{strip}
use runpod_jobrunner.Provider.{Decimal, amount, Answer, returned, raised, failed}
use runpod_jobrunner.Json.{text, Fields, find_field}
use runpod_jobrunner.RunPod.{Mapping, find, put}
use runpod_jobrunner.RunPod.Texts.{has_line_break, is_volume_key}

-- what the provider uses of `Decimal` and `secrets`: the value of a text, `str`, `format(_, "f")`, and
-- what `secrets.token_hex(15)` returns, where it is called
pub record Library : Type 0 where
  pub decimal : String → Option Decimal
  pub decimal_text : ℕ → String
  pub fixed_text : ℕ → String
  pub token_hex : String

-- the directories below `secrets_root`, in the order of `iterdir`, and whether it is a directory
pub record Secrets : Type 0 where
  pub is_dir : Bool
  pub directories : List (String × Mapping)

unfoldable pub files_of : String → List (String × Mapping) → Mapping
files_of operation_id [] = []
files_of operation_id ((name, files) ∷ rest) =
    let later = files_of operation_id rest in if name == operation_id then files else later

unfoldable pub set_files : String → Mapping → List (String × Mapping) → List (String × Mapping)
set_files operation_id files [] = (operation_id, files) ∷ []
set_files operation_id files ((name, old) ∷ rest) =
    let later = set_files operation_id files rest in
    if name == operation_id then (operation_id, files) ∷ rest else (name, old) ∷ later

unfoldable pub content_of : String → String → Secrets → Option String
content_of operation_id name s = find name (files_of operation_id s.directories)

-- `mkdir(parents=True, exist_ok=True)`, and a file that was not there
unfoldable pub write_new : String → String → String → Secrets → Secrets
write_new operation_id name content s = record {
  is_dir = true;
  directories =
      set_files operation_id (put name content (files_of operation_id s.directories)) s.directories;
}

abbrev pub then_answer : {S A B : Type 0} → Answer A × S → (A → S → Answer B × S) → Answer B × S
then_answer (returned a, s) k = k a s
then_answer (raised e, s) k = (raised e, s)

abbrev pub then_value : {A B : Type 0} → Answer A → (A → Answer B) → Answer B
then_value (returned a) k = k a
then_value (raised e) k = raised e

abbrev pub policy_error : {A : Type 0} → String → String → Answer A
policy_error name problem =
    raised (failed (concat "durable operation policy " (concat name problem)))

abbrev pub stripped_policy : String → Option String → Answer String
stripped_policy name none = policy_error name " is unavailable"
stripped_policy name (some content) =
    if strip content == "" then policy_error name " is empty" else returned (strip content)

unfoldable pub read_operation_text : String → String → Secrets → Answer String
read_operation_text operation_id name s = stripped_policy name (content_of operation_id name s)

abbrev pub same_policy : String → String → Answer String → Answer Unit
same_policy name value (returned existing) =
    if existing == value then returned tt else policy_error name " changed"
same_policy name value (raised e) = raised e

-- the exclusive creation of the file, or the comparison with the one that is there
abbrev pub persist_at : String → String → String → Option String → Secrets → Answer Unit × Secrets
persist_at operation_id name value none s =
    (returned tt, write_new operation_id name (concat value "\n") s)
persist_at operation_id name value (some content) s =
    (same_policy name value (stripped_policy name (some content)), s)

unfoldable pub persist_operation_text : String → String → String → Secrets → Answer Unit × Secrets
persist_operation_text operation_id name value s =
    if value == "" || has_line_break value
    then (raised (failed (concat "operation policy " (concat name " is invalid"))), s)
    else persist_at operation_id name value (content_of operation_id name s) s

abbrev pub positive_amount : String → Option Decimal → Answer ℕ
positive_amount key none =
    raised (failed (concat "provider spec " (concat key " must be a decimal string")))
positive_amount key (some (amount n)) =
    if nat_eq n 0
    then raised (failed (concat "provider spec " (concat key " must be positive")))
    else returned n
positive_amount key (some _) =
    raised (failed (concat "provider spec " (concat key " must be positive")))

module _ (lib : Library) where
  unfoldable pub required_decimal : Fields → String → Answer ℕ
  required_decimal spec key = elim (find_field key spec) [
    | some (text value) ↦ positive_amount key (lib.decimal value)
    | _ ↦ raised (failed (concat "provider spec " (concat key " must be a decimal string")))
  ]

  abbrev pub rate_in : Option String → Answer ℕ
  rate_in none = raised (failed "durable maximum hourly rate is unavailable during reconciliation")
  rate_in (some content) = positive_amount "maximum" (lib.decimal (strip content))

  unfoldable pub read_maximum_rate : String → Secrets → Answer ℕ
  read_maximum_rate operation_id s = rate_in (content_of operation_id "max-hourly-rate-usd" s)

  abbrev pub same_rate : ℕ → Answer ℕ → Answer Unit
  same_rate maximum_rate (returned existing) =
      if nat_eq existing maximum_rate
      then returned tt
      else raised (failed "durable maximum hourly rate changed for one operation")
  same_rate maximum_rate (raised e) = raised e

  abbrev pub persist_rate_at : String → ℕ → Option String → Secrets → Answer Unit × Secrets
  persist_rate_at operation_id maximum_rate none s = (
    returned tt,
    write_new operation_id "max-hourly-rate-usd" (concat (lib.fixed_text maximum_rate) "\n") s,
  )
  persist_rate_at operation_id maximum_rate (some content) s =
      (same_rate maximum_rate (rate_in (some content)), s)

  unfoldable pub persist_maximum_rate : String → ℕ → Secrets → Answer Unit × Secrets
  persist_maximum_rate operation_id maximum_rate s =
      persist_rate_at operation_id maximum_rate (content_of operation_id "max-hourly-rate-usd" s) s

  abbrev pub volume_key_at : String → Option String → Secrets → Answer String × Secrets
  volume_key_at operation_id none s =
      (returned lib.token_hex, write_new operation_id "volume-key" (concat lib.token_hex "\n") s)
  volume_key_at operation_id (some content) s =
      if is_volume_key (strip content)
      then (returned (strip content), s)
      else (raised (failed "stored volume key is invalid"), s)

  unfoldable pub volume_key : String → Secrets → Answer String × Secrets
  volume_key operation_id s = volume_key_at operation_id (content_of operation_id "volume-key" s) s
