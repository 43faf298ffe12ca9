-- ===== src/RunStore/Create.antt =====
-- `RunStore.create_run` of src/runpod_jobrunner/run_store.py, under the run's lock: the request file,
-- and the first commit.
use runpod_jobrunner.Prelude.{
  ℕ, ◌≤◌, ◌≡◌, ◌≢◌, refl, [], Bool, true, false, not, ◌&&◌, length, arith, if◌then◌else◌,
}
use runpod_jobrunner.RunStore.Lines.{has_separator}
use runpod_jobrunner.RunStore.Journal.{Codec, StoreError, not_found, Result, ok, err}
use runpod_jobrunner.RunStore.{
  Files, no_state, no_receipt, Contract, Effective, projected, effective_state, commit_state,
  Progress, torn, appended, replaced, complete, next_event, last_event, commit_events, write_event,
  choose_state, without_events,
}
use runpod_jobrunner.RunStore.Fragments.{CutLaws, is_refused}
use runpod_jobrunner.RunStore.Recovery.{CodecLaws, read_events-torn}
use runpod_jobrunner.RunStore.Crash.{
  IsBehind, torn-effective_state, commit-written, torn-files, appended-effective_state,
}

-- request.json: missing, no readable object, or an object.
pub data RequestFile (R : Type 0) : Type 0 where
  no_request : RequestFile R
  bad_request : RequestFile R
  stored : R → RequestFile R

pub record RunDirectory (S R : Type 0) : Type 0 where
  pub request : RequestFile R
  pub files : Files S

-- `RunAlreadyExistsError`, or an error of the store.
pub data CreateError : Type 0 where
  already_exists : CreateError
  unreadable_request : CreateError
  store_error : StoreError → CreateError

pub data Created (S : Type 0) : Type 0 where
  created : Effective S → Created S
  refused : CreateError → Created S

module _ {S R : Type 0} (codec : Codec S) (contract : Contract S) (same : R → R → Bool) where
  -- the commit of `run_planned`; the request is on disk
  unfoldable pub commit_planned : R → S → Files S → Created S × RunDirectory S R
  commit_planned request body files =
      let (event, files') = commit_state codec contract complete body files in
      (
        elim event [ ok e ↦ created (projected e.projection) | err x ↦ refused (store_error x) ],
        record { request = stored request; files = files' },
      )

  -- after `current_state` of a run whose request is on disk
  unfoldable pub resume : R → S → Result (Effective S) → Files S → Created S × RunDirectory S R
  unfolding commit_planned
  resume request body (ok state) files =
      (created state, record { request = stored request; files = files })
  resume request body (err not_found) files = commit_planned request body files
  resume request body (err x) files =
      (refused (store_error x), record { request = stored request; files = files })

  unfoldable pub create_run : R → S → RunDirectory S R → Created S × RunDirectory S R
  unfolding resume commit_planned
  create_run request body directory = elim directory.request [
    | no_request ↦ commit_planned request body directory.files
    | bad_request ↦ (refused unreadable_request, directory)
    | stored existing ↦
        if not (same existing request)
        then (refused already_exists, directory)
        else let current = effective_state codec directory.files in
          resume existing body current.0 current.1
  ]

abbrev pub empty_files : {S : Type 0} → Files S
empty_files = record { events = []; state = no_state; closeout_receipt = no_receipt }

-- What a crash during the creation of a run leaves, once the request is on disk.
abbrev pub cut_off_creation :
    {S R : Type 0} → Codec S → Contract S → Progress → R → S → RunDirectory S R
cut_off_creation codec contract progress request body = record {
  request = stored request;
  files = (commit_state codec contract progress body empty_files).1;
}

module _ {S R : Type 0} (codec : Codec S) (laws : CodecLaws codec) (contract : Contract S)
    (same : R → R → Bool) (request : R) (body : S) (same_request : same request request ≡ true)
    (is_open : contract.is_closed body ≡ false)
    (on_a_line : has_separator (laws.text (next_event [] body)) ≡ false) where
  valid :
      (contract.is_closed body
        && not (contract.receipt_valid (projected (next_event [] body).projection)))
      ≡ false
  valid = ground arith

  empty_is_missing : (effective_state codec empty_files).0 ≡ err not_found
  unfolding effective_state choose_state without_events last_event
  empty_is_missing = ground (arith, read_events-torn codec laws [] [] tt refl refl)

  behind :
      (n : ℕ)
      → IsBehind 0
          (effective_state codec (commit_state codec contract (torn n) body empty_files).1).1.state
  unfolding effective_state commit_state commit_events write_event
  behind n = ground arith

  -- where the event's line is complete, the run is there
  resume-written :
      (progress : Progress)
      → ((n : ℕ) → progress ≢ torn n)
      → (create_run codec contract same request body
          (cut_off_creation codec contract progress request body)).0
        ≡ created (projected (next_event [] body).projection)
  unfolding create_run resume
  resume-written progress t = ground (
    arith,
    (appended-effective_state codec laws contract [] body empty_files refl tt tt on_a_line valid
        progress t).0,
  )

  module _ (cuts : CutLaws codec) where
    resume-torn :
        (n : ℕ)
        → n ≤ length (codec.encode (next_event [] body))
        → is_refused cuts (next_event [] body) n ≡ false
        → (create_run codec contract same request body
            (cut_off_creation codec contract (torn n) request body)).0
          ≡ created (projected (next_event [] body).projection)
    unfolding create_run resume commit_planned
    resume-torn n h k = ground (
      arith,
      empty_is_missing,
      torn-effective_state codec laws contract [] body empty_files refl tt tt cuts valid n h,
      commit-written codec laws contract [] body
          (effective_state codec (commit_state codec contract (torn n) body empty_files).1).1
          (torn-files codec laws contract [] body empty_files refl tt tt cuts n h k) tt (behind n)
          valid,
    )

    -- A creation that a crash cut off, anywhere between the write of its request and its end but for
    -- two cuts, is taken up by the next call with the same request: that call returns the planned
    -- state at sequence 1. Where the event's line is torn, it neither lacks only its newline nor ends
    -- right after a complete \u escape; the event's text has no line separator of Unicode, and its
    -- beginnings are as UTF-8 and the JSON parser report them.
    pub create_run-resumed :
        (progress : Progress)
        → ((n : ℕ)
            → progress ≡ torn n
            → (n ≤ length (codec.encode (next_event [] body)))
              × (is_refused cuts (next_event [] body) n ≡ false))
        → (create_run codec contract same request body
            (cut_off_creation codec contract progress request body)).0
          ≡ created (projected (next_event [] body).projection)
    create_run-resumed (torn n) h = resume-torn n (h n refl).0 (h n refl).1
    create_run-resumed appended h = resume-written appended (λ n e. ground arith)
    create_run-resumed replaced h = resume-written replaced (λ n e. ground arith)
    create_run-resumed complete h = resume-written complete (λ n e. ground arith)
