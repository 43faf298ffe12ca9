-- ===== src/RunPod/Texts.antt =====
-- The tests of runpod_provider.py on volume keys, volume IDs and the texts of an operation.
use Prim.Native.Char.{code}
use Prim.Native.String.{String, [], ◌∷◌}
use runpod_jobrunner.Prelude.{Bool, true, false, not, ◌&&◌, ◌||◌, ◌==◌, nat_eq, leb}
use runpod_jobrunner.Prelude.Text.{count}
use runpod_jobrunner.Prelude.Spaces.{strip}
use runpod_jobrunner.Names.{is_alphanumeric}

unfoldable pub all_alphanumeric : String → Bool
all_alphanumeric [] = true
all_alphanumeric (c ∷ rest) = is_alphanumeric (code c) && all_alphanumeric rest

-- `_VOLUME_KEY.fullmatch`
unfoldable pub is_volume_key : String → Bool
unfolding all_alphanumeric
is_volume_key key = leb 1 (count key) && (leb (count key) 30 && all_alphanumeric key)

-- a NUL, a CR or an LF
unfoldable pub has_line_control : String → Bool
has_line_control [] = false
has_line_control (c ∷ rest) =
    (nat_eq (code c) 0 || (nat_eq (code c) 13 || nat_eq (code c) 10)) || has_line_control rest

unfoldable pub is_volume_id : String → Bool
unfolding has_line_control
is_volume_id id = not (strip id == "") && not (has_line_control id)

-- an LF or a CR
unfoldable pub has_line_break : String → Bool
has_line_break [] = false
has_line_break (c ∷ rest) = (nat_eq (code c) 10 || nat_eq (code c) 13) || has_line_break rest
