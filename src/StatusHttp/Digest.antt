-- ===== src/StatusHttp/Digest.antt =====
-- The digests that src/runpod_jobrunner/status_http.py serves: 64 hexadecimal digits in lower case.
use Prim.Native.Char.{code}
use Prim.Native.String.{String, [], ◌∷◌}
use runpod_jobrunner.Prelude.{Bool, true, ◌&&◌, ◌||◌, nat_eq, leb}
use runpod_jobrunner.Prelude.Text.{count}

unfoldable pub all_hex : String → Bool
all_hex [] = true
all_hex (c ∷ rest) =
    ((leb b'0' (code c) && leb (code c) b'9') || (leb b'a' (code c) && leb (code c) b'f'))
    && all_hex rest

unfoldable pub is_digest : String → Bool
unfolding all_hex
is_digest digest = nat_eq (count digest) 64 && all_hex digest

-- what `hmac.compare_digest` accepts of a text
unfoldable pub is_ascii_text : String → Bool
is_ascii_text [] = true
is_ascii_text (c ∷ rest) = leb (code c) 127 && is_ascii_text rest
