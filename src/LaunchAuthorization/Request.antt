-- ===== src/LaunchAuthorization/Request.antt =====
-- The request field that the controller writes for a launch token is one that the runner accepts.
use runpod_jobrunner.Prelude.{ℕ, suc, ◌*◌, ◌<◌, ◌≤◌, ◌≡◌, some, true, length, arith}
use runpod_jobrunner.PosixPath.{Text}
use runpod_jobrunner.Transfer.{is_sha256}
use runpod_jobrunner.LaunchAuthorization.{
  ok, ◌>>=◌, launch_relative_path, check_sha256, check_size, check_timeout,
  parse_launch_authorization, request_fields,
}

-- For a token of fewer than 4096 characters and a whole timeout of 1 to 3600 seconds, the runner
-- accepts the field that the controller writes, and reads back the pinned path, the token's hash,
-- the size of its file and the timeout.
pub parse-request_fields :
    (sha256 : Text → Text) (token : Text) (timeout_seconds : ℕ)
    → is_sha256 (sha256 token) ≡ true
    → length token < 4096
    → 0 < timeout_seconds
    → timeout_seconds ≤ 3600
    → (request_fields sha256 token timeout_seconds >>= λ raw. parse_launch_authorization (some raw))
      ≡ ok (record {
        relative_path = launch_relative_path;
        sha256 = sha256 token;
        token_size = suc (length token);
        timeout_seconds = timeout_seconds * 1000000000;
      })
unfolding request_fields parse_launch_authorization check_sha256 check_size check_timeout
parse-request_fields sha256 token timeout_seconds h n p q = ground arith
