-- ===== src/LaunchAuthorization/Token.antt =====
-- The launch token of launch_authorization.py survives a restart, and is read exactly as written.
use runpod_jobrunner.Prelude.{ℕ, suc, ◌≡◌, refl, List, [], ◌∷◌, some, true, length, arith}
use runpod_jobrunner.PosixPath.{Text}
use runpod_jobrunner.Transfer.{is_sha256, all_hex}
use runpod_jobrunner.LaunchAuthorization.{
  ok, TokenFile, no_file, unreadable, irregular, bytes, is_ascii, strip_newline, check_token,
  read_token, token_line, check_independent, ensure_launch_token,
}

strip_newline-exact : (bs token : List ℕ) → strip_newline bs ≡ some token → bs ≡ token_line token
unfolding strip_newline
strip_newline-exact [] token h = absurd (ground arith)
strip_newline-exact (b ∷ []) token h = ground arith
strip_newline-exact (b ∷ c ∷ bs) [] h = absurd (ground arith)
strip_newline-exact (b ∷ c ∷ bs) (t ∷ token) h = ground (arith, strip_newline-exact (c ∷ bs) token)

all_hex-strip :
    (token : Text) → all_hex token ≡ true → strip_newline (token_line token) ≡ some token
unfolding strip_newline
all_hex-strip [] h = refl
all_hex-strip (c ∷ token) h = ground (arith, all_hex-strip token)

all_hex-ascii : (token : Text) → all_hex token ≡ true → is_ascii (token_line token) ≡ true
all_hex-ascii [] h = refl
all_hex-ascii (c ∷ token) h = ground (arith, all_hex-ascii token)

length-token_line : (token : Text) → length (token_line token) ≡ suc (length token)
length-token_line [] = refl
length-token_line (c ∷ token) = ground (arith, length-token_line token)

-- the file that is written for a token reads as that token
read_token-line :
    (token : Text) → is_sha256 token ≡ true → read_token (bytes (token_line token)) ≡ ok token
unfolding read_token
read_token-line token h =
    ground (arith, all_hex-strip token, all_hex-ascii token, length-token_line token)

check_token-exact :
    (bs : List ℕ) (token : Text)
    → check_token (strip_newline bs) ≡ ok token
    → (bs ≡ token_line token) × (is_sha256 token ≡ true)
unfolding check_token
check_token-exact bs token h = ground (arith, strip_newline-exact bs token)

-- A token that is read has 64 hexadecimal digits, and its file holds exactly the token and a newline.
pub read_token-exact :
    (file : TokenFile) (token : Text)
    → read_token file ≡ ok token
    → (file ≡ bytes (token_line token)) × (is_sha256 token ≡ true)
unfolding read_token
read_token-exact no_file token h = absurd (ground arith)
read_token-exact unreadable token h = absurd (ground arith)
read_token-exact irregular token h = absurd (ground arith)
read_token-exact (bytes bs) token h = ground (arith, check_token-exact bs token)

module _ (first second : Text) (forbidden_tokens : List Text) (fresh : is_sha256 first ≡ true) where
  -- A token that was ensured is kept: whatever the generator would return next, ensuring it again
  -- returns the same token and leaves the file as it is, which holds that token and a newline.
  pub ensure-ensure :
      (file file' : TokenFile) (token : Text)
      → ensure_launch_token first forbidden_tokens file ≡ (ok token, file')
      → (ensure_launch_token second forbidden_tokens file' ≡ (ok token, file'))
        × (file' ≡ bytes (token_line token))
  unfolding ensure_launch_token check_independent
  ensure-ensure no_file file' token h = ground (arith, read_token-line first)
  ensure-ensure unreadable file' token h = absurd (unfold read_token in ground arith)
  ensure-ensure irregular file' token h = absurd (unfold read_token in ground arith)
  ensure-ensure (bytes bs) file' token h = ground (arith, read_token-exact (bytes bs) token)
