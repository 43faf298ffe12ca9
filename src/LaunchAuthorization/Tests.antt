-- ===== src/LaunchAuthorization/Tests.antt =====
-- Launch tokens of launch_authorization.py, and each theorem at a concrete input.
use runpod_jobrunner.Prelude.{ℕ, ◌≡◌, refl, [], ◌∷◌, some, true, arith}
use runpod_jobrunner.PosixPath.{Text}
use runpod_jobrunner.Transfer.{is_sha256}
use runpod_jobrunner.LaunchAuthorization.{
  ok, ◌>>=◌, no_file, bytes, token_line, check_independent, ensure_launch_token,
  launch_relative_path, parse_launch_authorization, request_fields, read_token, strip_newline,
  check_token,
}
use runpod_jobrunner.LaunchAuthorization.Token.{read_token-exact, ensure-ensure}
use runpod_jobrunner.LaunchAuthorization.Request.{parse-request_fields}

-- `n` times the text
abbrev four : ℕ → Text → Text
four c rest = c ∷ c ∷ c ∷ c ∷ rest

abbrev sixteen : ℕ → Text → Text
sixteen c rest = four c (four c (four c (four c rest)))

-- 64 times a digit
abbrev digits : ℕ → Text
digits c = sixteen c (sixteen c (sixteen c (sixteen c [])))

token_read : read_token (bytes (token_line (digits b'a'))) ≡ ok (digits b'a')
unfolding read_token strip_newline check_token
token_read = refl

read_token-exact_example :
    (bytes (token_line (digits b'a')) ≡ bytes (token_line (digits b'a')))
    × (is_sha256 (digits b'a') ≡ true)
read_token-exact_example =
    read_token-exact (bytes (token_line (digits b'a'))) (digits b'a') token_read

token_created :
    ensure_launch_token (digits b'a') (digits b'b' ∷ []) no_file
    ≡ (ok (digits b'a'), bytes (token_line (digits b'a')))
unfolding ensure_launch_token check_independent
token_created = refl

ensure-ensure_example :
    (ensure_launch_token (digits b'c') (digits b'b' ∷ []) (bytes (token_line (digits b'a')))
      ≡ (ok (digits b'a'), bytes (token_line (digits b'a'))))
    × (bytes (token_line (digits b'a')) ≡ bytes (token_line (digits b'a')))
ensure-ensure_example =
    ensure-ensure (digits b'a') (digits b'c') (digits b'b' ∷ []) refl no_file
      (bytes (token_line (digits b'a'))) (digits b'a') token_created

parse-request_fields_example :
    (request_fields (λ token. digits b'0') (digits b'a') 600 >>= λ raw.
    parse_launch_authorization (some raw))
    ≡ ok (record {
      relative_path = launch_relative_path;
      sha256 = digits b'0';
      token_size = 65;
      timeout_seconds = 600000000000;
    })
parse-request_fields_example =
    parse-request_fields (λ token. digits b'0') (digits b'a') 600 refl (omega arith) (omega arith)
      (omega arith)
