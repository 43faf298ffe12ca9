-- ===== src/RunStore/Lines.antt =====
-- `str.splitlines`, over code points.
use runpod_jobrunner.Prelude.{
  ℕ, ◌≡◌, refl, List, [], ◌∷◌, ◌++◌, Bool, false, ◌&&◌, ◌||◌, nat_eq, arith, if◌then◌else◌,
}

-- LF, VT, FF, CR, FS, GS, RS, NEL, and the line and paragraph separators
abbrev pub is_separator : ℕ → Bool
is_separator c =
    nat_eq c 10
    || (nat_eq c 11
        || (nat_eq c 12
            || (nat_eq c 13
                || (nat_eq c 28
                    || (nat_eq c 29
                        || (nat_eq c 30 || (nat_eq c 133 || (nat_eq c 8232 || nat_eq c 8233))))))))

abbrev pub prepend : ℕ → List (List ℕ) → List (List ℕ)
prepend c [] = (c ∷ []) ∷ []
prepend c (line ∷ lines) = (c ∷ line) ∷ lines

-- the flag says that the character before was a CR, which a LF goes with
unfoldable pub split_lines : Bool → List ℕ → List (List ℕ)
split_lines after_cr [] = []
split_lines after_cr (c ∷ rest) =
    let same = split_lines false rest in
    let next = split_lines (nat_eq c 13) rest in
    if after_cr && nat_eq c 10 then same else if is_separator c then [] ∷ next else prepend c same

abbrev pub has_separator : List ℕ → Bool
has_separator [] = false
has_separator (c ∷ rest) = is_separator c || has_separator rest

pub split_lines-line :
    (line rest : List ℕ)
    → has_separator line ≡ false
    → split_lines false (line ++ 10 ∷ rest) ≡ line ∷ split_lines false rest
unfolding split_lines
split_lines-line [] rest h = refl
split_lines-line (c ∷ line) rest h = ground (arith, split_lines-line line rest)
