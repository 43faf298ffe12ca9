-- ===== src/RunStore/Tests.antt =====
-- The store of run_store.py with a codec of one-letter texts, and each theorem at a concrete input.
use runpod_jobrunner.Prelude.{
  ◌<◌, ◌≤◌, ◌||◌, Bool, is_empty, ℕ, zero, suc, ◌≡◌, ◌∙◌, refl, List, [], ◌∷◌, ◌++◌, some, true,
  false, arith, nat_eq, length, if◌then◌else◌,
}
use runpod_jobrunner.RunStore.Lines.{has_separator}
use runpod_jobrunner.RunStore.Journal.{
  Event, object, loaded, parse_error, Codec, err, corrupt_journal, newline,
}
use runpod_jobrunner.RunStore.{
  Files, no_state, no_receipt, Contract, projected, effective_state, commit_state, torn, take,
  next_event, last_event,
}
use runpod_jobrunner.RunStore.Fragments.{CutLaws, at_token, cut_outcome, is_refused}
use runpod_jobrunner.RunStore.Recovery.{CodecLaws, has_newline, journal_of}
use runpod_jobrunner.RunStore.Crash.{torn-effective_state}
use runpod_jobrunner.RunStore.Create.{created, create_run, cut_off_creation, create_run-resumed}

-- `n` times the byte 1
abbrev ones : ℕ → List ℕ
ones zero = []
ones (suc n) = 1 ∷ ones n

-- the two numbers of an event, each as that many ones and a 2, and a 3 at the end
abbrev event_text : Event (Unit {0}) → List ℕ
event_text e = ones e.sequence ++ 2 ∷ (ones e.projection.event_sequence ++ 2 ∷ 3 ∷ [])

-- how many ones a text starts with
abbrev ones_of : List ℕ → ℕ
ones_of [] = zero
ones_of (b ∷ rest) = if nat_eq b 1 then suc (ones_of rest) else zero

abbrev after_ones : List ℕ → List ℕ
after_ones [] = []
after_ones (b ∷ rest) = if nat_eq b 1 then after_ones rest else rest

abbrev has_three : List ℕ → Bool
has_three [] = false
has_three (b ∷ rest) = nat_eq b 3 || has_three rest

-- A codec of these texts; a fragment without its 3 is cut off at its end.
abbrev codec : Codec (Unit {0})
codec = record {
  encode = event_text;
  decode = λ bytes. some bytes;
  loads = λ line.
      object (some (ones_of line))
        (some (record { event_sequence = some (ones_of (after_ones line)); body = tt }));
  try_fragment =
      λ bytes. if has_three bytes then loaded else parse_error (length bytes) (length bytes) "" "";
}

ones_of-ones : (n : ℕ) (rest : List ℕ) → ones_of (ones n ++ 2 ∷ rest) ≡ n
ones_of-ones zero rest = refl
ones_of-ones (suc n) rest = ground (arith, ones_of-ones n rest)

after_ones-ones : (n : ℕ) (rest : List ℕ) → after_ones (ones n ++ 2 ∷ rest) ≡ rest
after_ones-ones zero rest = refl
after_ones-ones (suc n) rest = ground (arith, after_ones-ones n rest)

has_newline-ones : (n : ℕ) (rest : List ℕ) → has_newline (ones n ++ 2 ∷ rest) ≡ has_newline rest
has_newline-ones zero rest = refl
has_newline-ones (suc n) rest = ground (arith, has_newline-ones n rest)

has_separator-ones :
    (n : ℕ) (rest : List ℕ) → has_separator (ones n ++ 2 ∷ rest) ≡ has_separator rest
has_separator-ones zero rest = refl
has_separator-ones (suc n) rest = ground (arith, has_separator-ones n rest)

-- the only 3 is the last byte
abbrev three_last : List ℕ → Bool
three_last [] = false
three_last (b ∷ rest) = if nat_eq b 3 then is_empty rest else three_last rest

three_last-ones : (n : ℕ) (rest : List ℕ) → three_last (ones n ++ 2 ∷ rest) ≡ three_last rest
three_last-ones zero rest = refl
three_last-ones (suc n) rest = ground (arith, three_last-ones n rest)

three_last-event : (e : Event (Unit {0})) → three_last (event_text e) ≡ true
three_last-event e =
    three_last-ones e.sequence (ones e.projection.event_sequence ++ 2 ∷ 3 ∷ [])
    ∙ three_last-ones e.projection.event_sequence (3 ∷ [])

has_three-last : (xs : List ℕ) → three_last xs ≡ true → has_three xs ≡ true
has_three-last [] h = absurd (ground arith)
has_three-last (b ∷ xs) h = ground (arith, has_three-last xs)

has_three-take :
    (n : ℕ) (xs : List ℕ)
    → three_last xs ≡ true
    → n < length xs
    → (has_three (take n xs) ≡ false) × (length (take n xs) ≡ n)
has_three-take n [] h p = absurd (omega arith)
has_three-take zero (b ∷ xs) h p = (refl, refl)
has_three-take (suc n) (b ∷ []) h p = absurd (omega arith)
has_three-take (suc n) (b ∷ c ∷ xs) h p = ground (arith, has_three-take n (c ∷ xs))

loads_event :
    (e : Event (Unit {0}))
    → codec.loads (event_text e)
      ≡ object
          (some e.sequence)
          (some (record { event_sequence = some e.projection.event_sequence; body = tt }))
loads_event e =
    let tail = ones e.projection.event_sequence ++ 2 ∷ 3 ∷ [] in
    cc (
      ones_of-ones e.sequence tail,
      after_ones-ones e.sequence tail,
      ones_of-ones e.projection.event_sequence (3 ∷ []),
    )

append_assoc-line :
    (e : Event (Unit {0})) (bytes t : List ℕ)
    → some bytes ≡ some t
    → some (event_text e ++ newline ∷ bytes) ≡ some (event_text e ++ newline ∷ t)
append_assoc-line e bytes t h = ground arith

unfoldable laws : CodecLaws codec
laws = record {
  text = event_text;
  decode_nil = refl;
  decode_line = append_assoc-line;
  loads_text = loads_event;
  encode_newline = λ e.
      has_newline-ones e.sequence (ones e.projection.event_sequence ++ 2 ∷ 3 ∷ [])
      ∙ has_newline-ones e.projection.event_sequence (3 ∷ []);
}

cut_short :
    (e : Event (Unit {0})) (n : ℕ)
    → 0 < n
    → n < length (event_text e)
    → codec.try_fragment (take n (event_text e))
      ≡ cut_outcome (length (take n (event_text e))) (at_token n "")
cut_short e n p h = ground (arith, has_three-take n (event_text e) (three_last-event e) h)

whole_text : (e : Event (Unit {0})) → codec.try_fragment (event_text e) ≡ loaded
whole_text e = ground (arith, has_three-last (event_text e) (three_last-event e))

unfoldable cuts : CutLaws codec
cuts = record { cut_at = λ e n. at_token n ""; cut_off = cut_short; whole = whole_text }

abbrev contract : Contract (Unit {0})
contract = record { is_closed = λ s. false; receipt_valid = λ s. true; same = λ s t. true }

abbrev one_event : List (Event (Unit {0}))
one_event = record { sequence = 1; projection = record { event_sequence = 1; body = tt } } ∷ []

abbrev files : Files (Unit {0})
files = record {
  events = journal_of codec laws one_event;
  state = no_state;
  closeout_receipt = no_receipt;
}

torn-effective_state_example :
    (effective_state codec (commit_state codec contract (torn 3) tt files).1).0 ≡ (
      if is_refused cuts (next_event one_event tt) 3
      then err corrupt_journal
      else (effective_state codec files).0)
unfolding next_event laws last_event cuts
torn-effective_state_example =
    torn-effective_state codec laws contract one_event tt files refl (refl, refl, refl, tt) tt cuts
      refl 3 (omega arith)

inside_line :
    (n : ℕ)
    → torn 2 ≡ torn n
    → (n ≤ length (codec.encode (next_event [] tt)))
      × (is_refused cuts (next_event [] tt) n ≡ false)
unfolding next_event last_event cuts
inside_line n e = ground arith

create_run-resumed_example :
    (create_run codec contract nat_eq 7 tt (cut_off_creation codec contract (torn 2) 7 tt)).0
    ≡ created (projected (next_event [] tt).projection)
unfolding next_event laws last_event cuts
create_run-resumed_example =
    create_run-resumed codec laws contract nat_eq 7 tt refl refl refl cuts (torn 2) inside_line
