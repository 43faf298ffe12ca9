-- ===== src/Transfer.antt =====
-- src/runpod_jobrunner/transfer.py: what it accepts as a manifest and as a remote path,
-- and the transfers of `LocalTransfer` over a source tree and a destination tree.
pub mod Manifest
pub mod Local
pub mod Upload
pub mod Publish
mod Tests
use runpod_jobrunner.Prelude.{
  ℕ, suc, ◌+◌, String, List, [], ◌∷◌, Option, none, some, Bool, true, false, not, ◌&&◌, ◌||◌, ltb,
  leb, nat_eq, length, is_empty, if◌then◌else◌,
}
use runpod_jobrunner.PosixPath.{
  Text, slash, dot, dot_dot, text_eq, contains_text, PosixPath, parse, is_absolute, parts, as_posix,
  name,
}

-- `TransferError`, and `TransferUnavailable` for a channel that failed.
pub data TransferError : Type 0 where
  malformed_entry unsafe_path duplicate_path symlinked_path not_regular size_mismatch :
      TransferError
  hash_mismatch invalid_glob invalid_limit too_many_matches : TransferError
  source_unavailable unavailable : TransferError

pub data Result (A : Type 0) : Type 0 where
  ok : A → Result A
  err : TransferError → Result A

infixl 5 ◌>>=◌
abbrev pub ◌>>=◌ : {A B : Type 0} → Result A → (A → Result B) → Result B
ok a >>= f = f a
err e >>= f = err e

-- A JSON value where an integer is wanted: an integer of at least 0, a negative one, or any other
-- value, a Boolean included.
pub data SizeField : Type 0 where
  size : ℕ → SizeField
  negative_size : ℕ → SizeField
  no_size : SizeField

-- A manifest entry as given; a text field is `none` where it is missing or no text.
pub record RawEntry : Type 0 where
  pub path : Option Text
  pub size_field : SizeField
  pub sha256 : Option Text

pub record DeclaredEntry : Type 0 where
  pub path : PosixPath
  pub declared_size : ℕ
  pub expected_hash : Text

abbrev pub is_hex : ℕ → Bool
is_hex c = (leb b'0' c && leb c b'9') || (leb b'a' c && leb c b'f')

abbrev pub all_hex : Text → Bool
all_hex [] = true
all_hex (c ∷ rest) = is_hex c && all_hex rest

abbrev pub is_sha256 : Text → Bool
is_sha256 text = nat_eq (length text) 64 && all_hex text

-- the fields of an entry, or `none` where it is malformed
unfoldable pub entry_fields : RawEntry → Option (Text × ℕ × Text)
entry_fields raw = elim raw.path [
  | none ↦ none
  | some value ↦ elim raw.size_field [
    | negative_size n ↦ none
    | no_size ↦ none
    | size n ↦ elim raw.sha256 [
      | none ↦ none
      | some hash ↦ if is_sha256 hash then some (value, n, hash) else none
    ]
  ]
]

-- the test that raises "unsafe manifest path"
unfoldable pub is_unsafe_manifest_path : Text → PosixPath → Bool
is_unsafe_manifest_path value relative =
    is_absolute relative
    || (is_empty value
        || (contains_text dot_dot (parts relative)
            || (contains_text dot (parts relative) || not (text_eq (as_posix relative) value))))

unfoldable pub check_entry : List Text → Option (Text × ℕ × Text) → Result DeclaredEntry
unfolding is_unsafe_manifest_path
check_entry seen none = err malformed_entry
check_entry seen (some (value, n, hash)) =
    let relative = parse value in
    if is_unsafe_manifest_path value relative
    then err unsafe_path
    else if contains_text value seen
    then err duplicate_path
    else ok (record { path = relative; declared_size = n; expected_hash = hash })

-- the loop of `_validated_manifest_entries`; `seen` holds the values accepted so far
unfoldable pub validate_from : List Text → List RawEntry → Result (List DeclaredEntry)
unfolding check_entry
validate_from seen [] = ok []
validate_from seen (raw ∷ rest) = check_entry seen (entry_fields raw) >>= λ e.
    validate_from (as_posix e.path ∷ seen) rest >>= λ es. ok (e ∷ es)

unfoldable pub validated_manifest_entries : List RawEntry → Result (List DeclaredEntry)
unfolding validate_from
validated_manifest_entries raws = validate_from [] raws

abbrev pub is_control : ℕ → Bool
is_control c = ltb c 32 || nat_eq c 127

abbrev pub has_control : Text → Bool
has_control [] = false
has_control (c ∷ rest) = is_control c || has_control rest

abbrev pub has_char : ℕ → Text → Bool
has_char c [] = false
has_char c (d ∷ rest) = nat_eq d c || has_char c rest

abbrev pub has_bad_part : List Text → Bool
has_bad_part [] = false
has_bad_part (part ∷ rest) =
    (is_empty part || (text_eq part dot || (text_eq part dot_dot || ltb 255 (length part))))
    || has_bad_part rest

unfoldable pub safe_remote_relative : Text → Result PosixPath
safe_remote_relative value =
    let path = parse value in
    if is_empty value
      || (ltb 1024 (length value)
          || (is_absolute path
              || (not (text_eq (as_posix path) value)
                  || (has_char b'\\' value || (has_control value || has_bad_part (parts path))))))
    then err unsafe_path
    else ok path

-- `path.parts[1:]` of an absolute path are its names
unfoldable pub safe_remote_absolute_file : Text → Result PosixPath
safe_remote_absolute_file text =
    let path = parse text in
    if is_empty text
      || (ltb 1024 (length text)
          || (not (is_absolute path)
              || (not (text_eq (as_posix path) text)
                  || (has_char b'\\' text
                      || (has_control text || (is_empty (name path) || has_bad_part path.names))))))
    then err unsafe_path
    else ok path

pub record RemoteFile : Type 0 where
  pub path : Text
  pub file_size : SizeField
  pub modified_at : Text

unfoldable pub validated_remote_file : RemoteFile → Result PosixPath
unfolding safe_remote_relative
validated_remote_file f = elim f.file_size [
  | negative_size n ↦ err malformed_entry
  | no_size ↦ err malformed_entry
  | size n ↦ if is_empty f.modified_at then err malformed_entry else safe_remote_relative f.path
]
