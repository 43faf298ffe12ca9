-- ===== src/RunPod/Policy.antt =====
-- The policy files of runpod_provider.py: how their writes and reads compose.
use Prim.Native.String.{String}
use runpod_jobrunner.Prelude.{
  ℕ, ◌≡◌, refl, List, [], ◌∷◌, none, some, false, ◌==◌, ◌&&◌, eq_iff, arith, concat, if◌then◌else◌,
}
use text.Mathlib.TextPositions.{eq_refl}
use runpod_jobrunner.Prelude.Spaces.{strip, strip-line}
use runpod_jobrunner.Provider.{returned}
use runpod_jobrunner.RunPod.{Mapping, find, put}
use runpod_jobrunner.RunPod.Texts.{has_line_break}
use runpod_jobrunner.RunPod.Secrets.{
  Library, Secrets, files_of, set_files, content_of, write_new, read_operation_text,
  persist_operation_text, persist_maximum_rate, volume_key, policy_error,
}

find-put :
    (key value other : String) (m : Mapping)
    → find other (put key value m) ≡ (if key == other then some value else find other m)
unfolding find put
find-put key value other [] = refl
find-put key value other ((k, v) ∷ rest) = grind (arith, find-put key value other rest, eq_iff)

files_of-set_files :
    (id other : String) (files : Mapping) (ds : List (String × Mapping))
    → files_of other (set_files id files ds) ≡ (if id == other then files else files_of other ds)
unfolding files_of set_files
files_of-set_files id other files [] = refl
files_of-set_files id other files ((name, old) ∷ rest) =
    grind (arith, files_of-set_files id other files rest, eq_iff)

-- one file is written, and no other is touched
content_of-write_new :
    (id name content other_id other : String) (s : Secrets)
    → content_of other_id other (write_new id name content s)
      ≡ (if (id == other_id) && (name == other) then some content else content_of other_id other s)
unfolding content_of write_new
content_of-write_new id name content other_id other s = grind (
  arith,
  files_of-set_files id other_id (put name content (files_of id s.directories)) s.directories,
  find-put name content other (files_of id s.directories),
  eq_iff,
)

-- Every file of the first is one of the second, with its content.
abbrev pub Keeps : Secrets → Secrets → Type 0
Keeps s t =
    (id name content : String)
    → content_of id name s ≡ some content
    → content_of id name t ≡ some content

pub Keeps-trans : (s t u : Secrets) → Keeps s t → Keeps t u → Keeps s u
Keeps-trans s t u h k id name content p = k id name content (h id name content p)

write_new-Keeps :
    (id name content : String) (s : Secrets)
    → content_of id name s ≡ none
    → Keeps s (write_new id name content s)
write_new-Keeps id name content s h other_id other old p =
    grind (arith, content_of-write_new id name content other_id other s, eq_iff)

persist-again :
    (id name value other : String) (t : Secrets)
    → (other == "") ≡ false
    → has_line_break other ≡ false
    → read_operation_text id name t ≡ returned value
    → persist_operation_text id name other t
      ≡ ((if value == other then returned tt else policy_error name " changed"), t)
unfolding persist_operation_text read_operation_text
persist-again id name value other t a b r = ground arith

module _ (id name value : String) (s : Secrets) where
  pub persist-Keeps : Keeps s (persist_operation_text id name value s).1
  unfolding persist_operation_text
  persist-Keeps other_id other old p =
      grind (arith, write_new-Keeps id name (concat value "\n") s, p)

  pub persist-reads :
      strip value ≡ value
      → (persist_operation_text id name value s).0 ≡ returned tt
      → read_operation_text id name (persist_operation_text id name value s).1 ≡ returned value
  unfolding persist_operation_text read_operation_text
  persist-reads v h = grind (
    arith,
    content_of-write_new id name (concat value "\n") id name s,
    strip-line value,
    eq_refl,
    eq_iff,
  )

  -- A policy value without surrounding white space that was persisted reads back; then the same value
  -- is accepted again, another that could be written is refused as changed, and neither touches a
  -- file.
  pub persist-write_once :
      strip value ≡ value
      → (persist_operation_text id name value s).0 ≡ returned tt
      → let t = (persist_operation_text id name value s).1 in
        (read_operation_text id name t ≡ returned value)
        × ((other : String)
            → (other == "") ≡ false
            → has_line_break other ≡ false
            → persist_operation_text id name other t
              ≡ ((if value == other then returned tt else policy_error name " changed"), t))
  persist-write_once v h = (
    persist-reads v h,
    λ other. λ a. λ b.
        persist-again id name value other (persist_operation_text id name value s).1 a b
          (persist-reads v h),
  )

module _ (lib : Library) (id : String) (s : Secrets) where
  pub persist_maximum_rate-Keeps : (rate : ℕ) → Keeps s (persist_maximum_rate lib id rate s).1
  unfolding persist_maximum_rate
  persist_maximum_rate-Keeps rate other_id other old p =
      grind
        (arith, write_new-Keeps id "max-hourly-rate-usd" (concat (lib.fixed_text rate) "\n") s, p)

  pub volume_key-Keeps : Keeps s (volume_key lib id s).1
  unfolding volume_key
  volume_key-Keeps other_id other old p =
      grind (arith, write_new-Keeps id "volume-key" (concat lib.token_hex "\n") s, p)
