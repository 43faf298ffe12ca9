-- ===== src/PosixPath.antt =====
-- `PurePosixPath` over code points, as far as transfer.py uses it: parsing, `parts`, `as_posix`,
-- `is_absolute` and `name`.
pub mod Laws
use runpod_jobrunner.Prelude.{
  ℕ, suc, List, [], ◌∷◌, ◌++◌, Bool, true, false, not, ◌&&◌, ◌||◌, nat_eq, is_empty, if◌then◌else◌,
}

abbrev pub Text : Type 0
Text = List ℕ

abbrev pub slash : ℕ
slash = 47

abbrev pub dot : Text
dot = 46 ∷ []

abbrev pub dot_dot : Text
dot_dot = 46 ∷ 46 ∷ []

abbrev pub text_eq : Text → Text → Bool
text_eq [] [] = true
text_eq (a ∷ s) (b ∷ t) = nat_eq a b && text_eq s t
text_eq _ _ = false

abbrev pub contains_text : Text → List Text → Bool
contains_text s [] = false
contains_text s (t ∷ ts) = text_eq s t || contains_text s ts

-- the first component and those after it
abbrev pub push : ℕ → List Text → List Text
push c [] = (c ∷ []) ∷ []
push c (part ∷ parts) = (c ∷ part) ∷ parts

-- `text.split("/")`
unfoldable pub split_slash : Text → List Text
split_slash [] = [] ∷ []
split_slash (c ∷ rest) =
    let parts = split_slash rest in if nat_eq c slash then [] ∷ parts else push c parts

-- empty components and "." are dropped
unfoldable pub keep_parts : List Text → List Text
keep_parts [] = []
keep_parts (part ∷ rest) =
    let kept = keep_parts rest in if is_empty part || text_eq part dot then kept else part ∷ kept

unfoldable pub join : List Text → Text
join [] = []
join (part ∷ rest) = elim rest [ [] ↦ part | p ∷ ps ↦ part ++ slash ∷ join rest ]

-- Exactly two leading slashes are a root of their own.
unfoldable pub root_of : Text → Text
root_of [] = []
root_of (a ∷ []) = if nat_eq a slash then slash ∷ [] else []
root_of (a ∷ b ∷ []) =
    if not (nat_eq a slash) then [] else if nat_eq b slash then slash ∷ slash ∷ [] else slash ∷ []
root_of (a ∷ b ∷ c ∷ rest) =
    if not (nat_eq a slash)
    then []
    else if nat_eq b slash && not (nat_eq c slash)
    then slash ∷ slash ∷ []
    else slash ∷ []

pub record PosixPath : Type 0 where
  pub root : Text
  pub names : List Text

unfoldable pub parse : Text → PosixPath
unfolding split_slash keep_parts root_of
parse text = record { root = root_of text; names = keep_parts (split_slash text) }

abbrev pub is_absolute : PosixPath → Bool
is_absolute p = not (is_empty p.root)

abbrev pub parts : PosixPath → List Text
parts p = if is_empty p.root then p.names else p.root ∷ p.names

unfoldable pub as_posix : PosixPath → Text
unfolding join
as_posix p = if is_empty p.root && is_empty p.names then dot else p.root ++ join p.names

unfoldable pub last_name : List Text → Text
last_name [] = []
last_name (part ∷ rest) = elim rest [ [] ↦ part | p ∷ ps ↦ last_name rest ]

unfoldable pub name : PosixPath → Text
unfolding last_name
name p = last_name p.names
