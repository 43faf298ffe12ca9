-- ===== src/Json.antt =====
-- JSON values as the standard library's parser returns them, and the tests that the source makes on
-- them: a mapping has unique keys, and `negative_integer n` stands for -(n + 1).
use runpod_jobrunner.Prelude.{ℕ, ◌+◌, ◌*◌, String, Option, none, some, Bool, ◌==◌, if◌then◌else◌}
use runpod_jobrunner.Provider.{Decimal, amount, negative, one_usd}

mutual
  pub data Json : Type 0 where
    null : Json
    boolean : Bool → Json
    integer : ℕ → Json
    negative_integer : ℕ → Json
    number : Decimal → Json
    text : String → Json
    array : Items → Json
    object : Fields → Json

  pub data Items : Type 0 where
    no_items : Items
    item : Json → Items → Items

  pub data Fields : Type 0 where
    no_fields : Fields
    field : String → Json → Fields → Fields

-- `mapping.get(key)`, with `none` for a missing key
unfoldable pub find_field : String → Fields → Option Json
find_field key no_fields = none
find_field key (field k v rest) =
    let later = find_field key rest in if k == key then some v else later

-- `mapping.get(key)`, where a missing key and a null are both `None`
abbrev pub get_field : String → Fields → Json
get_field key fs = elim (find_field key fs) [ none ↦ null | some v ↦ v ]

-- `Decimal(str(value))`; `decimal` parses a text
abbrev pub decimal_of : (String → Option Decimal) → Json → Option Decimal
decimal_of decimal (integer n) = some (amount (n * one_usd))
decimal_of decimal (negative_integer n) = some (negative (n * one_usd + 999999999))
decimal_of decimal (number d) = some d
decimal_of decimal (text s) = decimal s
decimal_of decimal _ = none

abbrev pub optional_string : Json → Option String
optional_string (text s) = some s
optional_string _ = none

abbrev pub optional_boolean : Json → Option Bool
optional_boolean (boolean b) = some b
optional_boolean _ = none
