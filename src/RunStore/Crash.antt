-- ===== src/RunStore/Crash.antt =====
-- A crash during run_store.py's `commit_state`: the run reads as before the commit, or as after it.
use runpod_jobrunner.Prelude.{
  ℕ, zero, suc, ◌+◌, ◌≤◌, ◌<◌, ◌≡◌, ◌≢◌, refl, ap, ◌∙◌, List, [], ◌∷◌, ◌++◌, some, true, false, not,
  ◌&&◌, ◌||◌, arith, length, is_empty, if◌then◌else◌,
}
use mathlib.Core.List.{append-nil, append_assoc}
use runpod_jobrunner.RunStore.Lines.{has_separator}
use runpod_jobrunner.RunStore.Journal.{
  Event, Codec, ok, err, corrupt_journal, newline, read_events, is_torn_json_fragment,
}
use runpod_jobrunner.RunStore.{
  missing, not_integer, integer, StateFile, no_state, bad_state, snapshot, Files, Contract,
  projected, choose_state, newest, last_event, next_event, effective_state, Progress, torn,
  appended, replaced, complete, take, write_event, commit_events, commit_state,
}
use runpod_jobrunner.RunStore.Fragments.{CutLaws, is_refused, cut_torn, whole_not_torn}
use runpod_jobrunner.RunStore.Recovery.{
  CodecLaws, read_events-refused, has_newline, journal_of, IsJournal, read_events-torn,
}

take-append : (n : ℕ) (xs ys : List ℕ) → n ≤ length xs → take n (xs ++ ys) ≡ take n xs
take-append zero xs ys h = refl
take-append (suc n) [] ys h = absurd (omega arith)
take-append (suc n) (x ∷ xs) ys h = ap (λ zs. x ∷ zs) (take-append n xs ys (omega arith))

take-length : (n : ℕ) (xs : List ℕ) → n ≡ length xs → take n xs ≡ xs
take-length zero [] h = refl
take-length zero (x ∷ xs) h = absurd (omega arith)
take-length (suc n) [] h = absurd (omega arith)
take-length (suc n) (x ∷ xs) h = ap (λ ys. x ∷ ys) (take-length n xs (omega arith))

is_empty-take : (n : ℕ) (xs : List ℕ) → 0 < n → n ≤ length xs → is_empty (take n xs) ≡ false
is_empty-take zero xs p h = absurd (omega arith)
is_empty-take (suc n) [] p h = absurd (omega arith)
is_empty-take (suc n) (x ∷ xs) p h = refl

has_newline-take : (n : ℕ) (xs : List ℕ) → has_newline xs ≡ false → has_newline (take n xs) ≡ false
has_newline-take zero xs h = refl
has_newline-take (suc n) [] h = refl
has_newline-take (suc n) (x ∷ xs) h = ground (arith, has_newline-take n xs)

module _ {S : Type 0} where
  last_event-append : (es : List (Event S)) (e : Event S) → last_event (es ++ e ∷ []) ≡ some e
  unfolding last_event
  last_event-append [] e = refl
  last_event-append (d ∷ []) e = refl
  last_event-append (d ∷ c ∷ es) e = last_event-append (c ∷ es) e

  last_event-cons :
      (d c : Event S) (es : List (Event S)) → last_event (d ∷ c ∷ es) ≡ last_event (c ∷ es)
  unfolding last_event
  last_event-cons d c es = refl

  -- the snapshot is no newer than the journal
  abbrev pub IsBehind : ℕ → StateFile S → Type 0
  IsBehind n no_state = Unit
  IsBehind n bad_state = ⊥
  IsBehind n (snapshot missing s) = Unit
  IsBehind n (snapshot not_integer s) = ⊥
  IsBehind n (snapshot (integer m) s) = m ≤ n

module _ {S : Type 0} (codec : Codec S) (laws : CodecLaws codec) where
  journal_of-append :
      (es : List (Event S)) (e : Event S)
      → journal_of codec laws (es ++ e ∷ [])
        ≡ journal_of codec laws es ++ (codec.encode e ++ newline ∷ [])
  journal_of-append [] e = refl
  journal_of-append (d ∷ es) e = rw (journal_of-append es e, append_assoc)

  IsJournal-append :
      (n : ℕ) (es : List (Event S)) (e : Event S)
      → IsJournal codec laws n es
      → e.sequence ≡ n + length es
      → e.projection.event_sequence ≡ n + length es
      → has_separator (laws.text e) ≡ false
      → IsJournal codec laws n (es ++ e ∷ [])
  IsJournal-append n [] e h p q r = (omega arith, omega arith, r, tt)
  IsJournal-append n (d ∷ es) e h p q r =
      (h.0, h.1, h.2, IsJournal-append (suc n) es e h.3 (omega arith) (omega arith) r)

  last-IsJournal :
      (n : ℕ) (es : List (Event S)) (d : Event S)
      → IsJournal codec laws n (d ∷ es)
      → (e : Event S) × (last_event (d ∷ es) ≡ some e)
        × (e.sequence ≡ n + length es)
        × (e.projection.event_sequence ≡ n + length es)
  last-IsJournal n [] d h = (d, unfold last_event in refl, omega arith, omega arith)
  last-IsJournal n (c ∷ es) d h =
      let (e, p, q, r) = last-IsJournal (suc n) es c h.3 in
      (e, last_event-cons d c es ∙ p, omega arith, omega arith)

  next-sequence :
      (es : List (Event S)) (body : S)
      → IsJournal codec laws 1 es
      → ((next_event es body).sequence ≡ 1 + length es)
        × ((next_event es body).projection.event_sequence ≡ 1 + length es)
  unfolding next_event
  next-sequence [] body h = unfold last_event in (refl, refl)
  next-sequence (d ∷ es) body h =
      let (e, p, q, r) = last-IsJournal 1 es d h in
      (rw (p, next_event) (omega arith), rw (p, next_event) (omega arith))

module _ {S : Type 0} (codec : Codec S) (laws : CodecLaws codec) (contract : Contract S)
    (es : List (Event S)) (body : S) (files : Files S)
    (journal : files.events ≡ journal_of codec laws es) (sequenced : IsJournal codec laws 1 es)
    (behind : IsBehind (length es) files.state) where
  abbrev written : Event S
  written = next_event es body

  reads : read_events codec files.events ≡ (ok es, journal_of codec laws es)
  reads = cc (
    journal,
    append-nil (journal_of codec laws es),
    read_events-torn codec laws es [] sequenced refl refl,
  )

  reads_appended :
      has_separator (laws.text written) ≡ false
      → read_events codec (journal_of codec laws es ++ (codec.encode written ++ newline ∷ [])) ≡ (
        ok (es ++ written ∷ []),
        journal_of codec laws es ++ (codec.encode written ++ newline ∷ []),
      )
  reads_appended h =
      let (p, q) = next-sequence codec laws es body sequenced in
      cc (
        append-nil (journal_of codec laws (es ++ written ∷ [])),
        journal_of-append codec laws es written,
        read_events-torn codec laws (es ++ written ∷ []) []
            (IsJournal-append codec laws 1 es written sequenced p q h) refl refl,
      )

  -- a commit that nothing cuts off returns its event
  pub commit-written :
      (contract.is_closed body && not (contract.receipt_valid (projected written.projection)))
        ≡ false
      → (commit_state codec contract complete body files).0 ≡ ok written
  unfolding commit_state commit_events write_event
  commit-written v = ground (arith, reads)

  newest_behind : newest written.projection files.state ≡ ok (projected written.projection)
  unfolding newest
  newest_behind =
      let (p, q) = next-sequence codec laws es body sequenced in behind_case files.state behind q
    where
      behind_case :
          (state : StateFile S)
          → IsBehind (length es) state
          → written.projection.event_sequence ≡ 1 + length es
          → newest written.projection state ≡ ok (projected written.projection)
      behind_case no_state b q = refl
      behind_case bad_state b q = absurd b
      behind_case (snapshot missing s) b q = refl
      behind_case (snapshot not_integer s) b q = absurd b
      behind_case (snapshot (integer m) s) b q = ground arith

  pub appended-effective_state :
      has_separator (laws.text written) ≡ false
      → (contract.is_closed body && not (contract.receipt_valid (projected written.projection)))
        ≡ false
      → (progress : Progress) → ((n : ℕ) → progress ≢ torn n)
      → ((effective_state codec (commit_state codec contract progress body files).1).0
          ≡ ok (projected written.projection))
        × (written.projection.event_sequence ≡ 1 + length es)
  unfolding effective_state commit_state commit_events write_event choose_state newest
  appended-effective_state h v (torn n) t = absurd (t n refl)
  appended-effective_state h v appended t = (
    ground (arith, reads, reads_appended h, last_event-append es written, newest_behind),
    (next-sequence codec laws es body sequenced).1,
  )
  appended-effective_state h v replaced t = (
    ground (arith, reads, reads_appended h, last_event-append es written),
    (next-sequence codec laws es body sequenced).1,
  )
  appended-effective_state h v complete t = (
    ground (arith, reads, reads_appended h, last_event-append es written),
    (next-sequence codec laws es body sequenced).1,
  )

  module _ (cuts : CutLaws codec) where
    whole :
        (n : ℕ)
        → n ≡ length (codec.encode written)
        → is_torn_json_fragment codec (take n (codec.encode written)) ≡ false
    whole n h =
        whole_not_torn codec (take n (codec.encode written))
          (ap codec.try_fragment (take-length n (codec.encode written) h) ∙ cuts.whole written)

    is_torn_cut :
        (n : ℕ)
        → 0 < n
        → n ≤ length (codec.encode written)
        → is_torn_json_fragment codec (take n (codec.encode written))
          ≡ not (is_refused cuts written n)
    is_torn_cut n p h = ground (
      arith,
      whole n,
      cut_torn codec (take n (codec.encode written)) (cuts.cut_at written n),
      cuts.cut_off written n p,
    )

    -- what the next reader finds when the journal ends in a line cut off
    reads_torn :
        (n : ℕ)
        → n ≤ length (codec.encode written)
        → is_refused cuts written n ≡ false
        → read_events codec
            (journal_of codec laws es ++ take n (codec.encode written ++ newline ∷ []))
          ≡ (ok es, journal_of codec laws es)
    reads_torn n h k = rw (take-append n (codec.encode written) (newline ∷ []) h) (
        read_events-torn codec laws es (take n (codec.encode written)) sequenced
          (has_newline-take n (codec.encode written) (laws.encode_newline written))
          (torn_or_empty n h k))
      where
        torn_or_empty :
            (n : ℕ)
            → n ≤ length (codec.encode written)
            → is_refused cuts written n ≡ false
            → (is_empty (take n (codec.encode written))
                || is_torn_json_fragment codec (take n (codec.encode written)))
              ≡ true
        torn_or_empty zero h k = refl
        torn_or_empty (suc n) h k = ground (arith, is_torn_cut (suc n))

    reads_refused :
        (n : ℕ)
        → n ≤ length (codec.encode written)
        → is_refused cuts written n ≡ true
        → read_events codec
            (journal_of codec laws es ++ take n (codec.encode written ++ newline ∷ []))
          ≡ (
            err corrupt_journal,
            journal_of codec laws es ++ take n (codec.encode written ++ newline ∷ []),
          )
    reads_refused zero h k = absurd (ground arith)
    reads_refused (suc n) h k = rw (take-append (suc n) (codec.encode written) (newline ∷ []) h) (
        read_events-refused codec laws es (take (suc n) (codec.encode written))
          (has_newline-take (suc n) (codec.encode written) (laws.encode_newline written))
          (is_empty-take (suc n) (codec.encode written) (omega arith) h)
          (is_torn_cut (suc n) (omega arith) h ∙ ap not k))

    kept-effective_state :
        (n : ℕ)
        → n ≤ length (codec.encode written)
        → is_refused cuts written n ≡ false
        → (effective_state codec (commit_state codec contract (torn n) body files).1).0
          ≡ (effective_state codec files).0
    unfolding effective_state commit_state commit_events write_event
    kept-effective_state n h k = ground (arith, reads, reads_torn n h k)

    torn_events :
        (contract.is_closed body && not (contract.receipt_valid (projected written.projection)))
          ≡ false
        → (n : ℕ)
        → (commit_state codec contract (torn n) body files).1.events
          ≡ journal_of codec laws es ++ take n (codec.encode written ++ newline ∷ [])
    unfolding commit_state commit_events write_event
    torn_events v n = ground (arith, reads)

    refused-effective_state :
        (f : Files S)
        → (read_events codec f.events).0 ≡ err corrupt_journal
        → (effective_state codec f).0 ≡ err corrupt_journal
    unfolding effective_state
    refused-effective_state f h = ground arith

    -- A commit that passes the closeout contract and that a crash cuts off inside the line of its
    -- event leaves the run to be read as before it, the next reader dropping the torn tail, but for two cuts, after which the journal reads as
    -- corrupt: the line is whole and lacks only its newline, or it ends right after a complete \u
    -- escape. The beginnings of the event's JSON text are as UTF-8 and the JSON parser report them.
    pub torn-effective_state :
        (contract.is_closed body && not (contract.receipt_valid (projected written.projection)))
          ≡ false
        → (n : ℕ) → n ≤ length (codec.encode written)
        → (effective_state codec (commit_state codec contract (torn n) body files).1).0 ≡ (
            if is_refused cuts written n
            then err corrupt_journal
            else (effective_state codec files).0)
    torn-effective_state v n h = ground (
      arith,
      kept-effective_state n h,
      λ (k : is_refused cuts written n ≡ true).
          refused-effective_state (commit_state codec contract (torn n) body files).1 (
            ap (λ b. (read_events codec b).0) (torn_events v n)
            ∙ ap (λ x. x.0) (reads_refused n h k)),
    )

    -- the read that finds the torn tail cuts it off
    pub torn-files :
        (n : ℕ)
        → n ≤ length (codec.encode written)
        → is_refused cuts written n ≡ false
        → (effective_state codec (commit_state codec contract (torn n) body files).1).1.events
          ≡ journal_of codec laws es
    unfolding effective_state commit_state commit_events write_event
    torn-files n h k = ground (arith, reads, reads_torn n h k)
