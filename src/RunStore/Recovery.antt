-- ===== src/RunStore/Recovery.antt =====
-- What a reader of run_store.py's journal finds after a crash during a commit.
use runpod_jobrunner.Prelude.{
  ℕ, suc, ◌≡◌, refl, List, [], ◌∷◌, ◌++◌, map, some, Bool, true, false, ◌||◌, nat_eq, arith,
  is_empty,
}
use mathlib.Core.List.{append-nil, append_assoc}
use runpod_jobrunner.RunStore.Lines.{split_lines, has_separator, split_lines-line}
use runpod_jobrunner.RunStore.Journal.{
  Event, object, Codec, ok, err, corrupt_journal, newline, split_tail, is_torn_json_fragment,
  check_line, check_lines, parse_journal, read_events,
}

abbrev pub has_newline : List ℕ → Bool
has_newline [] = false
has_newline (b ∷ rest) = nat_eq b newline || has_newline rest

split_tail-fragment : (f : List ℕ) → has_newline f ≡ false → split_tail f ≡ ([], f)
unfolding split_tail
split_tail-fragment [] h = refl
split_tail-fragment (b ∷ f) h = ground (arith, split_tail-fragment f)

is_empty-append : (xs : List ℕ) (y : ℕ) (ys : List ℕ) → is_empty (xs ++ y ∷ ys) ≡ false
is_empty-append [] y ys = refl
is_empty-append (x ∷ xs) y ys = refl

split_tail-line :
    (line rest : List ℕ)
    → has_newline line ≡ false
    → split_tail (line ++ newline ∷ rest)
      ≡ (line ++ newline ∷ (split_tail rest).0, (split_tail rest).1)
unfolding split_tail
split_tail-line [] rest h = ground arith
split_tail-line (b ∷ line) rest h =
    ground (arith, split_tail-line line rest, is_empty-append line newline (split_tail rest).0)

-- What the JSON encoder and parser and the UTF-8 decoder are documented to do with the events' texts.
pub record CodecLaws {S : Type 0} (codec : Codec S) : Type 0 where
  pub text : Event S → List ℕ
  pub decode_nil : codec.decode [] ≡ some []
  pub decode_line :
      (e : Event S) (bytes t : List ℕ)
      → codec.decode bytes ≡ some t
      → codec.decode (codec.encode e ++ newline ∷ bytes) ≡ some (text e ++ newline ∷ t)
  pub loads_text :
      (e : Event S)
      → codec.loads (text e)
        ≡ object (some e.sequence) (
            some (record {
              event_sequence = some e.projection.event_sequence;
              body = e.projection.body;
            }))
  pub encode_newline : (e : Event S) → has_newline (codec.encode e) ≡ false

module _ {S : Type 0} (codec : Codec S) (laws : CodecLaws codec) where
  abbrev pub journal_of : List (Event S) → List ℕ
  journal_of [] = []
  journal_of (e ∷ es) = codec.encode e ++ newline ∷ journal_of es

  abbrev pub text_of : List (Event S) → List ℕ
  text_of [] = []
  text_of (e ∷ es) = laws.text e ++ newline ∷ text_of es

  -- The events from the sequence `n` on, none with a line separator in its text.
  abbrev pub IsJournal : ℕ → List (Event S) → Type 0
  IsJournal n [] = Unit
  IsJournal n (e ∷ es) =
      (e.sequence ≡ n)
      × (e.projection.event_sequence ≡ n)
      × (has_separator (laws.text e) ≡ false)
      × IsJournal (suc n) es

  decode-journal_of : (es : List (Event S)) → codec.decode (journal_of es) ≡ some (text_of es)
  decode-journal_of [] = laws.decode_nil
  decode-journal_of (e ∷ es) =
      laws.decode_line e (journal_of es) (text_of es) (decode-journal_of es)

  split_lines-text_of :
      (n : ℕ) (es : List (Event S))
      → IsJournal n es
      → split_lines false (text_of es) ≡ map laws.text es
  split_lines-text_of n [] h = unfold split_lines in refl
  split_lines-text_of n (e ∷ es) h =
      rw (split_lines-line (laws.text e) (text_of es) h.2) (cc (split_lines-text_of (suc n) es h.3))

  check_line-event :
      (n : ℕ) (e : Event S)
      → e.sequence ≡ n
      → e.projection.event_sequence ≡ n
      → check_line codec n (codec.loads (laws.text e)) ≡ ok e
  unfolding check_line
  check_line-event n e p q = rw (laws.loads_text e) (ground arith)

  check_lines-nil : (n : ℕ) → check_lines codec n [] ≡ ok []
  unfolding check_lines
  check_lines-nil n = refl

  check_lines-cons :
      (n : ℕ) (line : List ℕ) (rest : List (List ℕ)) (e : Event S) (es : List (Event S))
      → check_line codec n (codec.loads line) ≡ ok e
      → check_lines codec (suc n) rest ≡ ok es
      → check_lines codec n (line ∷ rest) ≡ ok (e ∷ es)
  unfolding check_lines
  check_lines-cons n line rest e es p q = ground arith

  check_lines-texts :
      (n : ℕ) (es : List (Event S))
      → IsJournal n es
      → check_lines codec n (map laws.text es) ≡ ok es
  check_lines-texts n [] h = check_lines-nil n
  check_lines-texts n (e ∷ es) h =
      check_lines-cons n (laws.text e) (map laws.text es) e es (check_line-event n e h.0 h.1)
        (check_lines-texts (suc n) es h.3)

  split_tail-journal_of :
      (es : List (Event S)) (f : List ℕ)
      → has_newline f ≡ false
      → split_tail (journal_of es ++ f) ≡ (journal_of es, f)
  split_tail-journal_of [] f h = split_tail-fragment f h
  split_tail-journal_of (e ∷ es) f h = rw (
    append_assoc,
    split_tail-line (codec.encode e) (journal_of es ++ f) (laws.encode_newline e),
    split_tail-journal_of es f h,
  )

  parse-journal_of :
      (es : List (Event S))
      → IsJournal 1 es
      → parse_journal codec (codec.decode (journal_of es)) ≡ ok es
  unfolding parse_journal
  parse-journal_of es h =
      rw (decode-journal_of es, split_lines-text_of 1 es h, check_lines-texts 1 es h)

  -- A whole journal followed by a torn fragment, or by nothing.
  pub read_events-torn :
      (es : List (Event S)) (f : List ℕ)
      → IsJournal 1 es
      → has_newline f ≡ false
      → (is_empty f || is_torn_json_fragment codec f) ≡ true
      → read_events codec (journal_of es ++ f) ≡ (ok es, journal_of es)
  unfolding read_events
  read_events-torn es [] h n t =
      ground
        (arith, split_tail-journal_of es [] n, append-nil (journal_of es), parse-journal_of es h)
  read_events-torn es (b ∷ f) h n t =
      ground (arith, split_tail-journal_of es (b ∷ f) n, parse-journal_of es h)

  -- A whole journal followed by a fragment that is not torn.
  pub read_events-refused :
      (es : List (Event S)) (f : List ℕ)
      → has_newline f ≡ false
      → is_empty f ≡ false
      → is_torn_json_fragment codec f ≡ false
      → read_events codec (journal_of es ++ f) ≡ (err corrupt_journal, journal_of es ++ f)
  unfolding read_events
  read_events-refused es f n e t = ground (arith, split_tail-journal_of es f n)
