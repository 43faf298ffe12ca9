-- ===== src/RunStore/Fragments.antt =====
-- The cuts of an event's text, as UTF-8 and the standard library's JSON parser report them, and what
-- `_is_torn_json_fragment` of run_store.py makes of each.
use runpod_jobrunner.Prelude.{
  ℕ, ◌+◌, ◌<◌, ◌≡◌, refl, String, List, Bool, true, false, not, ◌||◌, nat_eq, ltb, length, arith,
  if◌then◌else◌,
}
use runpod_jobrunner.Prelude.Text.{count}
use text.Mathlib.Text.{starts_with}
use runpod_jobrunner.RunStore.Journal.{
  Event, FragmentOutcome, decode_error, loaded, parse_error, Codec, is_torn_error,
  is_torn_json_fragment,
}
use runpod_jobrunner.RunStore.{take}

-- the proper beginnings of `-1`, `true`, `false` and `null`, after which a value is missing
pub data ValuePiece : Type 0 where
  minus true_1 true_2 true_3 false_1 false_2 false_3 false_4 null_1 null_2 null_3 : ValuePiece

abbrev pub value_text : ValuePiece → String
value_text minus = "-"
value_text true_1 = "t"
value_text true_2 = "tr"
value_text true_3 = "tru"
value_text false_1 = "f"
value_text false_2 = "fa"
value_text false_3 = "fal"
value_text false_4 = "fals"
value_text null_1 = "n"
value_text null_2 = "nu"
value_text null_3 = "nul"

-- what is left of a number after its longest beginning that is a number
pub data NumberTail : Type 0 where
  point exponent capital exponent_plus exponent_minus capital_plus capital_minus : NumberTail

abbrev pub number_text : NumberTail → String
number_text point = "."
number_text exponent = "e"
number_text capital = "E"
number_text exponent_plus = "e+"
number_text exponent_minus = "e-"
number_text capital_plus = "E+"
number_text capital_minus = "E-"

-- Where a JSON text without NaN and infinities is cut off: in a UTF-8 character; between two tokens
-- or after a number, with the text's length and the parser's message; in a string, with its position
-- and its text from there; in a value's word or sign, or in a number, with the position of what is
-- left over; in a string's \u escape, or right after it, with the text from its `u` on.
pub data Cut : Type 0 where
  in_character : Cut
  at_token : ℕ → String → Cut
  in_string : ℕ → String → Cut
  in_value : ℕ → ValuePiece → Cut
  in_number : ℕ → NumberTail → Cut
  in_escape : ℕ → (escape : String) → starts_with escape "u" ≡ true → Cut

-- what the decoder and the parser raise there; `size` is the fragment's length in bytes
abbrev pub cut_outcome : ℕ → Cut → FragmentOutcome
cut_outcome size in_character = decode_error size true
cut_outcome size (at_token pos message) = parse_error pos pos message ""
cut_outcome size (in_string pos suffix) =
    parse_error (pos + count suffix) pos "Unterminated string starting at" suffix
cut_outcome size (in_value pos piece) =
    parse_error (pos + count (value_text piece)) pos "Expecting value" (value_text piece)
cut_outcome size (in_number pos tail) =
    parse_error (pos + count (number_text tail)) pos "Expecting ',' delimiter" (number_text tail)
cut_outcome size (in_escape pos escape p) =
    parse_error (pos + count escape) pos "Invalid \\uXXXX escape" escape

-- What UTF-8 and the JSON parser are documented to do with the beginnings of an event's text.
pub record CutLaws {S : Type 0} (codec : Codec S) : Type 0 where
  pub cut_at : Event S → ℕ → Cut
  pub cut_off :
      (e : Event S) (n : ℕ)
      → 0 < n
      → n < length (codec.encode e)
      → codec.try_fragment (take n (codec.encode e))
        ≡ cut_outcome (length (take n (codec.encode e))) (cut_at e n)
  pub whole : (e : Event S) → codec.try_fragment (codec.encode e) ≡ loaded

-- the escape and all of its four digits are there, the string's closing quote is not
abbrev pub is_after_escape : Cut → Bool
is_after_escape (in_escape pos escape p) = not (ltb (count escape) 5)
is_after_escape _ = false

value_torn :
    (pos size : ℕ) (piece : ValuePiece)
    → is_torn_error size pos "Expecting value" (value_text piece) ≡ true
unfolding is_torn_error
value_torn pos size minus = ground arith
value_torn pos size true_1 = ground arith
value_torn pos size true_2 = ground arith
value_torn pos size true_3 = ground arith
value_torn pos size false_1 = ground arith
value_torn pos size false_2 = ground arith
value_torn pos size false_3 = ground arith
value_torn pos size false_4 = ground arith
value_torn pos size null_1 = ground arith
value_torn pos size null_2 = ground arith
value_torn pos size null_3 = ground arith

number_torn :
    (pos size : ℕ) (tail : NumberTail)
    → is_torn_error size pos "Expecting ',' delimiter" (number_text tail) ≡ true
unfolding is_torn_error
number_torn pos size point = ground arith
number_torn pos size exponent = ground arith
number_torn pos size capital = ground arith
number_torn pos size exponent_plus = ground arith
number_torn pos size exponent_minus = ground arith
number_torn pos size capital_plus = ground arith
number_torn pos size capital_minus = ground arith

module _ {S : Type 0} (codec : Codec S) (fragment : List ℕ) where
  -- the classifier accepts every cut but one right after an escape
  pub cut_torn :
      (c : Cut)
      → codec.try_fragment fragment ≡ cut_outcome (length fragment) c
      → is_torn_json_fragment codec fragment ≡ not (is_after_escape c)
  unfolding is_torn_json_fragment is_torn_error
  cut_torn in_character h = rw (h, is_torn_json_fragment) (ground arith)
  cut_torn (at_token pos message) h = rw (h, is_torn_json_fragment) (ground arith)
  cut_torn (in_string pos suffix) h = rw (h, is_torn_json_fragment) (ground arith)
  cut_torn (in_value pos piece) h =
      rw (h, is_torn_json_fragment) (value_torn pos (pos + count (value_text piece)) piece)
  cut_torn (in_number pos tail) h =
      rw (h, is_torn_json_fragment) (number_torn pos (pos + count (number_text tail)) tail)
  cut_torn (in_escape pos escape p) h = rw (h, is_torn_json_fragment) (ground arith)

  pub whole_not_torn :
      codec.try_fragment fragment ≡ loaded → is_torn_json_fragment codec fragment ≡ false
  unfolding is_torn_json_fragment
  whole_not_torn h = rw (h, is_torn_json_fragment) refl

-- After `n` bytes of its line the event is read as a corrupt journal: it is whole, without its
-- newline, or it is cut off right after an escape.
abbrev pub is_refused : {S : Type 0} {codec : Codec S} → CutLaws codec → Event S → ℕ → Bool
is_refused {codec = codec} cuts e n =
    if nat_eq n 0
    then false
    else nat_eq n (length (codec.encode e)) || is_after_escape (cuts.cut_at e n)
