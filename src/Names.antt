-- ===== src/Names.antt =====
-- The identifier pattern `[A-Za-z0-9][A-Za-z0-9._-]{0,127}` that budget.py (`_SCOPE`) and
-- run_store.py (`_RUN_ID`) match a whole name against.
use Prim.Native.Char.{code}
use Prim.Native.String.{String, [], ◌∷◌}
use runpod_jobrunner.Prelude.{ℕ, Bool, true, false, ◌&&◌, ◌||◌, leb, nat_eq}
use runpod_jobrunner.Prelude.Text.{count}

abbrev pub is_alphanumeric : ℕ → Bool
is_alphanumeric c =
    (leb b'A' c && leb c b'Z') || ((leb b'a' c && leb c b'z') || (leb b'0' c && leb c b'9'))

abbrev pub is_name_char : ℕ → Bool
is_name_char c = is_alphanumeric c || (nat_eq c b'.' || (nat_eq c b'_' || nat_eq c b'-'))

unfoldable pub all_name_chars : String → Bool
all_name_chars [] = true
all_name_chars (c ∷ rest) = is_name_char (code c) && all_name_chars rest

unfoldable pub is_safe_identifier : String → Bool
unfolding all_name_chars
is_safe_identifier [] = false
is_safe_identifier (c ∷ rest) =
    is_alphanumeric (code c) && (leb (count rest) 127 && all_name_chars rest)
