-- ===== src/RunStore/Journal.antt =====
-- The event journal of run_store.py, as bytes: `_read_events`, `_is_torn_json_fragment` and
-- `_truncate_and_sync`. The standard library's UTF-8 decoder and JSON parser are parameters.
use runpod_jobrunner.Prelude.{
  ℕ, suc, String, List, [], ◌∷◌, Option, none, some, Bool, true, false, not, ◌&&◌, ◌||◌, ◌==◌,
  nat_eq, ltb, length, is_empty, if◌then◌else◌,
}
use runpod_jobrunner.Prelude.Text.{count}
use text.Mathlib.Text.{starts_with}
use runpod_jobrunner.RunStore.Lines.{split_lines}

pub data StoreError : Type 0 where
  corrupt_journal corrupt_sequence corrupt_projection corrupt_state not_found invalid_receipt :
      StoreError

pub data Result (A : Type 0) : Type 0 where
  ok : A → Result A
  err : StoreError → Result A

infixl 5 ◌>>=◌
abbrev pub ◌>>=◌ : {A B : Type 0} → Result A → (A → Result B) → Result B
ok a >>= f = f a
err e >>= f = err e

pub record Projection (S : Type 0) : Type 0 where
  pub event_sequence : ℕ
  pub body : S

pub record Event (S : Type 0) : Type 0 where
  pub sequence : ℕ
  pub projection : Projection S

-- What `json.loads` makes of a line; a field is `none` where it is missing or of another type.
pub record RawProjection (S : Type 0) : Type 0 where
  pub event_sequence : Option ℕ
  pub body : S

pub data Loaded (S : Type 0) : Type 0 where
  not_json : Loaded S
  not_object : Loaded S
  object : Option ℕ → Option (RawProjection S) → Loaded S

-- How decoding and parsing a fragment ends: `UnicodeDecodeError` with its end and whether its reason
-- is "unexpected end of data", a value, or `JSONDecodeError` with the length of the text, its position,
-- its message and the text from the position on.
pub data FragmentOutcome : Type 0 where
  decode_error : ℕ → Bool → FragmentOutcome
  loaded : FragmentOutcome
  parse_error : ℕ → ℕ → String → String → FragmentOutcome

pub record Codec (S : Type 0) : Type 0 where
  pub encode : Event S → List ℕ
  pub decode : List ℕ → Option (List ℕ)
  pub loads : List ℕ → Loaded S
  pub try_fragment : List ℕ → FragmentOutcome

abbrev pub newline : ℕ
newline = 10

-- The bytes up to the last newline, and those after it.
unfoldable pub split_tail : List ℕ → List ℕ × List ℕ
split_tail [] = ([], [])
split_tail (b ∷ rest) =
    let (complete, fragment) = split_tail rest in
    if not (is_empty complete)
    then (b ∷ complete, fragment)
    else if nat_eq b newline
    then (newline ∷ [], fragment)
    else ([], b ∷ fragment)

-- `suffix in {".", "e", "E", "e+", "e-", "E+", "E-"}`
abbrev pub is_number_tail : String → Bool
is_number_tail s =
    s == "." || (s == "e" || (s == "E" || (s == "e+" || (s == "e-" || (s == "E+" || s == "E-")))))

abbrev pub is_value_start : String → Bool
is_value_start s =
    s == "-" || (starts_with "true" s || (starts_with "false" s || starts_with "null" s))

-- The branches on the `JSONDecodeError`, `length` being `len(text)`.
unfoldable pub is_torn_error : ℕ → ℕ → String → String → Bool
is_torn_error length pos message suffix =
    if nat_eq pos length || starts_with message "Unterminated string"
    then true
    else if message == "Expecting value" && is_value_start suffix
    then true
    else if message == "Invalid \\uXXXX escape" && starts_with suffix "u"
    then ltb (count suffix) 5
    else message == "Expecting ',' delimiter" && is_number_tail suffix

module _ {S : Type 0} (codec : Codec S) where
  unfoldable pub is_torn_json_fragment : List ℕ → Bool
  unfolding is_torn_error
  is_torn_json_fragment fragment = elim (codec.try_fragment fragment) [
    | decode_error end unexpected ↦ nat_eq end (length fragment) && unexpected
    | loaded ↦ false
    | parse_error text_length pos message suffix ↦ is_torn_error text_length pos message suffix
  ]

  abbrev pub matches : Option ℕ → ℕ → Bool
  matches none n = false
  matches (some m) n = nat_eq m n

  -- one line, at its expected sequence
  unfoldable pub check_projection : ℕ → Option (RawProjection S) → Result (Event S)
  check_projection n none = err corrupt_projection
  check_projection n (some raw) =
      if not (matches raw.event_sequence n)
      then err corrupt_projection
      else ok (record { sequence = n; projection = record { event_sequence = n; body = raw.body } })

  unfoldable pub check_line : ℕ → Loaded S → Result (Event S)
  unfolding check_projection
  check_line n not_json = err corrupt_journal
  check_line n not_object = err corrupt_sequence
  check_line n (object sequence projection) =
      if not (matches sequence n) then err corrupt_sequence else check_projection n projection

  unfoldable pub check_lines : ℕ → List (List ℕ) → Result (List (Event S))
  unfolding check_line
  check_lines n [] = ok []
  check_lines n (line ∷ rest) =
      check_line n (codec.loads line) >>= λ e. check_lines (suc n) rest >>= λ es. ok (e ∷ es)

  unfoldable pub parse_journal : Option (List ℕ) → Result (List (Event S))
  parse_journal none = err corrupt_journal
  parse_journal (some text) = check_lines 1 (split_lines false text)

  -- the events, and what is left of the journal's bytes
  unfoldable pub read_events : List ℕ → Result (List (Event S)) × List ℕ
  unfolding parse_journal
  read_events bytes =
      let (complete, fragment) = split_tail bytes in
      if is_empty fragment
      then (parse_journal (codec.decode bytes), bytes)
      else if not (is_torn_json_fragment fragment)
      then (err corrupt_journal, bytes)
      else (parse_journal (codec.decode complete), complete)
