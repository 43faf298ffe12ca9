-- ===== src/RunStore.antt =====
-- src/runpod_jobrunner/run_store.py: the durable state of one run. Its files are values, and what a
-- crash leaves of a commit is a value too; locks, fsync and `os.replace` are taken to do what they
-- promise. Of an event the journal's reader looks at the sequence and the projection alone, so the
-- other fields are left out.
pub mod Journal
pub mod Lines
pub mod Fragments
pub mod Recovery
pub mod Crash
pub mod Create
mod Tests
use runpod_jobrunner.Prelude.{
  ℕ, zero, suc, ◌+◌, String, List, [], ◌∷◌, ◌++◌, Option, none, some, Bool, true, false, not, ◌&&◌,
  leb, if◌then◌else◌,
}
use runpod_jobrunner.RunStore.Journal.{
  Projection, Event, Codec, StoreError, corrupt_state, not_found, invalid_receipt, Result, ok, err,
  ◌>>=◌, read_events, newline,
}

-- state.json: missing, unreadable, or an object whose `event_sequence` may be missing or no integer.
pub data SequenceField : Type 0 where
  missing : SequenceField
  not_integer : SequenceField
  integer : ℕ → SequenceField

pub data StateFile (S : Type 0) : Type 0 where
  no_state : StateFile S
  bad_state : StateFile S
  snapshot : SequenceField → S → StateFile S

-- What `_effective_state` returns: the last event's projection, or the snapshot as it stands.
pub data Effective (S : Type 0) : Type 0 where
  projected : Projection S → Effective S
  snapshotted : SequenceField → S → Effective S

-- receipts/closeout-receipt.json: missing, unreadable or against its schema, or the receipt made of
-- a state.
pub data ReceiptFile (S : Type 0) : Type 0 where
  no_receipt : ReceiptFile S
  bad_receipt : ReceiptFile S
  receipt : Effective S → ReceiptFile S

pub record Files (S : Type 0) : Type 0 where
  pub events : List ℕ
  pub state : StateFile S
  pub closeout_receipt : ReceiptFile S

-- What the store asks of a state: whether its lifecycle is closed, whether the closeout receipt made
-- of it passes the JSON schema, and whether two states are equal.
pub record Contract (S : Type 0) : Type 0 where
  pub is_closed : S → Bool
  pub receipt_valid : Effective S → Bool
  pub same : Effective S → Effective S → Bool

unfoldable pub last_event : {S : Type 0} → List (Event S) → Option (Event S)
last_event [] = none
last_event (e ∷ es) = elim es [ [] ↦ some e | f ∷ fs ↦ last_event es ]

module _ {S : Type 0} where
  -- `projection["event_sequence"] >= snapshot_sequence`, or the snapshot
  unfoldable pub newest : Projection S → StateFile S → Result (Effective S)
  newest p no_state = ok (projected p)
  newest p bad_state = err corrupt_state
  newest p (snapshot not_integer s) = err corrupt_state
  newest p (snapshot missing s) = ok (projected p)
  newest p (snapshot (integer n) s) =
      if leb n p.event_sequence then ok (projected p) else ok (snapshotted (integer n) s)

  unfoldable pub without_events : StateFile S → Result (Effective S)
  without_events no_state = err not_found
  without_events bad_state = err corrupt_state
  without_events (snapshot n s) = ok (snapshotted n s)

  unfoldable pub choose_state : Option (Event S) → StateFile S → Result (Effective S)
  unfolding newest without_events
  choose_state none state = without_events state
  choose_state (some e) state = newest e.projection state

module _ {S : Type 0} where
  unfoldable pub next_event : List (Event S) → S → Event S
  next_event es body =
      let n : ℕ = elim (last_event es) [ none ↦ 1 | some e ↦ e.sequence + 1 ] in
      record { sequence = n; projection = record { event_sequence = n; body = body } }

  abbrev pub replace_state : Event S → Files S → Files S
  replace_state e files = record files {
    state = snapshot (integer e.projection.event_sequence) e.projection.body;
  }

module _ {S : Type 0} (codec : Codec S) where
  -- `_effective_state`, with the files that reading the journal leaves
  unfoldable pub effective_state : Files S → Result (Effective S) × Files S
  effective_state files =
      let (events, bytes) = read_events codec files.events in
      (events >>= λ es. choose_state (last_event es) files.state, record files { events = bytes })

  abbrev pub append_event : Event S → Files S → Files S
  append_event e files = record files { events = files.events ++ (codec.encode e ++ newline ∷ []) }

-- How far a commit gets before a crash: some bytes of the event's line, the whole line, or the line
-- and the new state.json.
pub data Progress : Type 0 where
  torn : ℕ → Progress
  appended : Progress
  replaced : Progress
  complete : Progress

abbrev pub take : ℕ → List ℕ → List ℕ
take zero xs = []
take (suc n) [] = []
take (suc n) (x ∷ xs) = x ∷ take n xs

module _ {S : Type 0} (codec : Codec S) (contract : Contract S) where
  abbrev pub write_receipt : Event S → Files S → Files S
  write_receipt e files =
      if contract.is_closed e.projection.body
      then record files { closeout_receipt = receipt (projected e.projection) }
      else files

  -- the writes of `commit_state`, in order
  unfoldable pub write_event : Progress → Event S → Files S → Files S
  write_event (torn n) e files = record files {
    events = files.events ++ take n (codec.encode e ++ newline ∷ []);
  }
  write_event appended e files = append_event codec e files
  write_event replaced e files = replace_state e (append_event codec e files)
  write_event complete e files = write_receipt e (replace_state e (append_event codec e files))

  -- `commit_state`, as far as a crash lets it get; a closed projection whose receipt fails the
  -- schema raises before the first write.
  unfoldable pub commit_events :
      Progress → List (Event S) → S → Files S → Result (Event S) × Files S
  commit_events progress es body files =
      let e = next_event es body in
      if contract.is_closed body && not (contract.receipt_valid (projected e.projection))
      then (err invalid_receipt, files)
      else (ok e, write_event progress e files)

  unfoldable pub commit_state : Progress → S → Files S → Result (Event S) × Files S
  unfolding commit_events
  commit_state progress body files =
      let (events, bytes) = read_events codec files.events in
      elim events [
        | ok es ↦ commit_events progress es body (record files { events = bytes })
        | err x ↦ (err x, record files { events = bytes })
      ]

  abbrev pub effective_body : Effective S → S
  effective_body (projected p) = p.body
  effective_body (snapshotted n s) = s

  -- `_ensure_closeout_receipt`
  unfoldable pub check_receipt :
      Effective S → ReceiptFile S → Files S → Result (Effective S) × Files S
  check_receipt state no_receipt files =
      (ok state, record files { closeout_receipt = receipt state })
  check_receipt state bad_receipt files = (err invalid_receipt, files)
  check_receipt state (receipt recorded) files =
      if contract.same recorded state then (ok state, files) else (err invalid_receipt, files)

  unfoldable pub ensure_closeout_receipt : Effective S → Files S → Result (Effective S) × Files S
  unfolding check_receipt
  ensure_closeout_receipt state files =
      if not (contract.receipt_valid state)
      then (err invalid_receipt, files)
      else check_receipt state files.closeout_receipt files

  unfoldable pub read_state : Files S → Result (Effective S) × Files S
  unfolding effective_state ensure_closeout_receipt
  read_state files =
      let (state, files') = effective_state codec files in
      elim state [
        | err x ↦ (err x, files')
        | ok s ↦
            if contract.is_closed (effective_body s)
            then ensure_closeout_receipt s files'
            else (ok s, files')
      ]
