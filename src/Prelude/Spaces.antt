-- ===== src/Prelude/Spaces.antt =====
-- Python's `str.strip`, and the order of texts by their code points.
use Prim.Native.Nat.{ℕ, compare, Ordering}
use Prim.Native.Char.{Char, code}
use Prim.Native.String.{String, [], ◌∷◌, ◌++◌}
use Prim.Native.String.append
use mathlib.Core.Path.{◌≡◌, refl, ap}
use mathlib.Core.Logic.{inl, inr}
use mathlib.Core.Bool.{Bool, true, false, ◌&&◌, ◌||◌}
use runpod_jobrunner.Prelude.Tests.{leb, nat_eq, if◌then◌else◌, Bool-cases}

-- `str.isspace` of one character
unfoldable pub is_space : ℕ → Bool
is_space c =
    (leb 9 c && leb c 13)
    || ((leb 28 c && leb c 32)
        || (nat_eq c 133
            || (nat_eq c 160
                || (nat_eq c 5760
                    || ((leb 8192 c && leb c 8202)
                        || (nat_eq c 8232
                            || (nat_eq c 8233
                                || (nat_eq c 8239 || (nat_eq c 8287 || nat_eq c 12288)))))))))

unfoldable pub lstrip : String → String
lstrip [] = []
lstrip (c ∷ s) = let rest = lstrip s in if is_space (code c) then rest else c ∷ s

-- a character before a text that is stripped on its right
abbrev pub before_stripped : Char → String → String
before_stripped c [] = if is_space (code c) then [] else c ∷ []
before_stripped c (d ∷ t) = c ∷ d ∷ t

unfoldable pub rstrip : String → String
rstrip [] = []
rstrip (c ∷ s) = before_stripped c (rstrip s)

unfoldable pub strip : String → String
unfolding lstrip rstrip
strip s = rstrip (lstrip s)

newline_stripped : rstrip ("" ++ "\n") ≡ ""
unfolding rstrip is_space
newline_stripped = refl

rstrip-line : (s : String) → rstrip (s ++ "\n") ≡ rstrip s
unfolding rstrip
rstrip-line [] = newline_stripped
rstrip-line (c ∷ s) = rw (append.cons c s "\n", rstrip-line s) refl

lstrip-line : (s : String) → rstrip (lstrip (s ++ "\n")) ≡ rstrip (lstrip s)
unfolding lstrip rstrip is_space
lstrip-line [] = refl
lstrip-line (c ∷ s) = rw (append.cons c s "\n") (elim (Bool-cases (is_space (code c))) [
  | inl b ↦ rw b (lstrip-line s)
  | inr b ↦ rw b (ap (before_stripped c) (rstrip-line s))
])

pub strip-line : (s : String) → strip (s ++ "\n") ≡ strip s
unfolding strip
strip-line s = lstrip-line s

-- `a < b`
unfoldable pub text_ltb : String → String → Bool
text_ltb a [] = false
text_ltb [] (d ∷ t) = true
text_ltb (c ∷ s) (d ∷ t) =
    let rest = text_ltb s t in
    elim (compare (code c) (code d)) [
      | Ordering.lt ↦ true
      | Ordering.eq ↦ rest
      | Ordering.gt ↦ false
    ]
