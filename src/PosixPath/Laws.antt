-- ===== src/PosixPath/Laws.antt =====
-- Equality of texts, and what a parsed path's names look like.
use runpod_jobrunner.Prelude.{
  ℕ, ◌≡◌, refl, List, [], ◌∷◌, Bool, true, false, ◌||◌, nat_eq, is_empty, arith, All,
}
use runpod_jobrunner.PosixPath.{Text, slash, dot, text_eq, push, split_slash, keep_parts, parse}

pub text_eq→eq : (s t : Text) → text_eq s t ≡ true → s ≡ t
text_eq→eq [] [] h = refl
text_eq→eq [] (b ∷ t) h = ground arith
text_eq→eq (a ∷ s) [] h = ground arith
text_eq→eq (a ∷ s) (b ∷ t) h = ground (arith, text_eq→eq s t)

pub text_eq_refl : (s : Text) → text_eq s s ≡ true
text_eq_refl [] = refl
text_eq_refl (a ∷ s) = ground (arith, text_eq_refl s)

abbrev pub has_slash : Text → Bool
has_slash [] = false
has_slash (c ∷ rest) = nat_eq c slash || has_slash rest

-- a component that names an entry of its directory
abbrev pub IsName : Text → Type 0
IsName part = (is_empty part ≡ false) × (text_eq part dot ≡ false) × (has_slash part ≡ false)

abbrev pub NoSlash : Text → Type 0
NoSlash part = has_slash part ≡ false

push-NoSlash :
    (c : ℕ) (ps : List Text) → nat_eq c slash ≡ false → All NoSlash ps → All NoSlash (push c ps)
push-NoSlash c [] e h = (ground arith, tt)
push-NoSlash c (p ∷ ps) e h = (ground (arith, h.0), h.1)

split_slash-NoSlash : (text : Text) → All NoSlash (split_slash text)
unfolding split_slash
split_slash-NoSlash [] = (refl, tt)
split_slash-NoSlash (c ∷ rest) =
    ground (arith, split_slash-NoSlash rest, push-NoSlash c (split_slash rest))

keep_parts-IsName : (ps : List Text) → All NoSlash ps → All IsName (keep_parts ps)
unfolding keep_parts
keep_parts-IsName [] h = tt
keep_parts-IsName (p ∷ ps) h = ground (arith, h.0, keep_parts-IsName ps h.1)

-- Each name of a parsed path is not empty, not "." and holds no slash.
pub parse-IsName : (text : Text) → All IsName (parse text).names
unfolding parse
parse-IsName text = keep_parts-IsName (split_slash text) (split_slash-NoSlash text)
