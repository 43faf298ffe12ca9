-- ===== src/Prelude/Text.antt =====
-- Joining and slicing of texts, as the source's f-strings and slices use them.
use Prim.Native.Nat.{ℕ, zero, suc, ◌-◌}
use Prim.Native.String.{String, [], ◌∷◌, ◌++◌}

abbrev pub concat : String → String → String
concat s t = s ++ t

abbrev pub count : String → ℕ
count [] = 0
count (c ∷ s) = suc (count s)

abbrev pub drop_chars : ℕ → String → String
drop_chars zero s = s
drop_chars (suc n) [] = []
drop_chars (suc n) (c ∷ s) = drop_chars n s

-- `s[-n:]`
abbrev pub last_chars : ℕ → String → String
last_chars n s = drop_chars (count s - n) s
