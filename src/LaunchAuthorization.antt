-- ===== src/LaunchAuthorization.antt =====
-- src/runpod_jobrunner/launch_authorization.py: the run's launch token on disk (`ensure_launch_token`,
-- `_read_token`), and the public request field that names it (`parse_launch_authorization`). The
-- token file is a value, as bytes; `secrets.token_hex` is a parameter. Seconds are in billionths.
pub mod Token
pub mod Request
mod Tests
use runpod_jobrunner.Prelude.{
  ℕ, suc, ◌*◌, List, [], ◌∷◌, ◌++◌, Option, none, some, Bool, true, false, not, ◌&&◌, ◌||◌, ltb,
  leb, nat_eq, length, if◌then◌else◌,
}
use runpod_jobrunner.Provider.{Decimal, amount, negative, not_finite}
use runpod_jobrunner.PosixPath.{Text, text_eq, contains_text}
use runpod_jobrunner.Transfer.{is_sha256, SizeField, size, negative_size, no_size}

-- the cases of `LaunchAuthorizationError`
pub data LaunchError : Type 0 where
  not_an_object bad_keys bad_protocol bad_path bad_sha256 bad_size bad_timeout : LaunchError
  unavailable not_small_regular too_large not_ascii bad_framing bad_syntax : LaunchError
  not_independent : LaunchError

pub data Result (A : Type 0) : Type 0 where
  ok : A → Result A
  err : LaunchError → Result A

infixl 5 ◌>>=◌
abbrev pub ◌>>=◌ : {A B : Type 0} → Result A → (A → Result B) → Result B
ok a >>= f = f a
err e >>= f = err e

-- The token file: missing, one that cannot be opened without following a symlink, one that is no
-- regular file, or its bytes.
pub data TokenFile : Type 0 where
  no_file : TokenFile
  unreadable : TokenFile
  irregular : TokenFile
  bytes : List ℕ → TokenFile

abbrev pub newline : ℕ
newline = 10

abbrev pub is_ascii : List ℕ → Bool
is_ascii [] = true
is_ascii (b ∷ rest) = ltb b 128 && is_ascii rest

-- what stands before the only newline, where that is the last byte
unfoldable pub strip_newline : List ℕ → Option (List ℕ)
strip_newline [] = none
strip_newline (b ∷ rest) =
    let later = strip_newline rest in
    if nat_eq b newline
    then elim rest [ [] ↦ some [] | _ ∷ _ ↦ none ]
    else elim later [ none ↦ none | some token ↦ some (b ∷ token) ]

unfoldable pub check_token : Option (List ℕ) → Result Text
check_token none = err bad_framing
check_token (some token) = if not (is_sha256 token) then err bad_syntax else ok token

-- one read of a file that no other process changes
unfoldable pub read_token : TokenFile → Result Text
unfolding check_token
read_token no_file = err unavailable
read_token unreadable = err unavailable
read_token irregular = err not_small_regular
read_token (bytes data_bytes) =
    if ltb 4096 (length data_bytes)
    then err not_small_regular
    else if not (is_ascii data_bytes)
    then err not_ascii
    else check_token (strip_newline data_bytes)

abbrev pub token_line : Text → List ℕ
token_line token = token ++ newline ∷ []

unfoldable pub check_independent : List Text → Result Text → TokenFile → Result Text × TokenFile
check_independent forbidden_tokens (err e) file = (err e, file)
check_independent forbidden_tokens (ok token) file =
    if contains_text token forbidden_tokens then (err not_independent, file) else (ok token, file)

-- `token_hex` is what `secrets.token_hex(32)` returns, where it is called
unfoldable pub ensure_launch_token : Text → List Text → TokenFile → Result Text × TokenFile
unfolding check_independent
ensure_launch_token token_hex forbidden_tokens no_file =
    check_independent forbidden_tokens (ok token_hex) (bytes (token_line token_hex))
ensure_launch_token token_hex forbidden_tokens file =
    check_independent forbidden_tokens (read_token file) file

-- The candidate field; a text is `none` where it is missing or no text, the timeout where it is no
-- number.
pub record RawLaunch : Type 0 where
  pub all_keys_are_text : Bool
  pub protocol : Option Text
  pub path : Option Text
  pub sha256 : Option Text
  pub size_field : SizeField
  pub timeout_seconds : Option Decimal

pub record LaunchAuthorization : Type 0 where
  pub relative_path : Text
  pub sha256 : Text
  pub token_size : ℕ
  pub timeout_seconds : ℕ

abbrev pub is_text : Option Text → Text → Bool
is_text none expected = false
is_text (some t) expected = text_eq t expected

unfoldable pub check_sha256 : Option Text → Result Text
check_sha256 none = err bad_sha256
check_sha256 (some hash) = if not (is_sha256 hash) then err bad_sha256 else ok hash

unfoldable pub check_size : SizeField → Result ℕ
check_size (negative_size n) = err bad_size
check_size no_size = err bad_size
check_size (size n) = if not (leb 1 n && leb n 4096) then err bad_size else ok n

unfoldable pub check_timeout : Option Decimal → Result ℕ
check_timeout none = err bad_timeout
check_timeout (some not_finite) = err bad_timeout
check_timeout (some (negative n)) = err bad_timeout
check_timeout (some (amount n)) =
    if not (ltb 0 n && leb n 3600000000000) then err bad_timeout else ok n

-- "launch-authorization/1"
abbrev pub launch_protocol : Text
launch_protocol =
    b'l' ∷ b'a' ∷ b'u' ∷ b'n' ∷ b'c' ∷ b'h' ∷ b'-' ∷ b'a' ∷ b'u' ∷ b't' ∷ b'h' ∷ b'o' ∷ b'r' ∷ b'i'
    ∷ b'z' ∷ b'a' ∷ b't' ∷ b'i' ∷ b'o' ∷ b'n' ∷ b'/' ∷ b'1' ∷ []

-- "control/launch-authorization.token"
abbrev pub launch_relative_path : Text
launch_relative_path =
    b'c' ∷ b'o' ∷ b'n' ∷ b't' ∷ b'r' ∷ b'o' ∷ b'l' ∷ b'/' ∷ b'l' ∷ b'a' ∷ b'u' ∷ b'n' ∷ b'c' ∷ b'h'
    ∷ b'-' ∷ b'a' ∷ b'u' ∷ b't' ∷ b'h' ∷ b'o' ∷ b'r' ∷ b'i' ∷ b'z' ∷ b'a' ∷ b't' ∷ b'i' ∷ b'o'
    ∷ b'n' ∷ b'.' ∷ b't' ∷ b'o' ∷ b'k' ∷ b'e' ∷ b'n' ∷ []

unfoldable pub parse_launch_authorization : Option RawLaunch → Result LaunchAuthorization
unfolding check_sha256 check_size check_timeout
parse_launch_authorization none = err not_an_object
parse_launch_authorization (some raw) =
    if not raw.all_keys_are_text
    then err bad_keys
    else if not (is_text raw.protocol launch_protocol)
    then err bad_protocol
    else if not (is_text raw.path launch_relative_path)
    then err bad_path
    else check_sha256 raw.sha256 >>= λ hash. check_size raw.size_field >>= λ n.
        check_timeout raw.timeout_seconds >>= λ timeout. ok (record {
          relative_path = launch_relative_path;
          sha256 = hash;
          token_size = n;
          timeout_seconds = timeout;
        })

-- The fields that the controller puts in the request for a token; seconds are whole.
unfoldable pub request_fields : (Text → Text) → Text → ℕ → Result RawLaunch
request_fields sha256 token timeout_seconds =
    if leb timeout_seconds 0
    then err bad_timeout
    else ok (record {
      all_keys_are_text = true;
      protocol = some launch_protocol;
      path = some launch_relative_path;
      sha256 = some (sha256 token);
      size_field = size (suc (length token));
      timeout_seconds = some (amount (timeout_seconds * 1000000000));
    })
