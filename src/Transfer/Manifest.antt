-- ===== src/Transfer/Manifest.antt =====
-- What transfer.py's manifest validation accepts.
use runpod_jobrunner.Prelude.{
  ℕ, ◌≡◌, refl, sym, List, [], ◌∷◌, Option, none, some, true, false, is_empty, arith, All,
}
use runpod_jobrunner.PosixPath.{Text, dot_dot, text_eq, contains_text, parse, as_posix}
use runpod_jobrunner.PosixPath.Laws.{IsName, parse-IsName, text_eq→eq}
use runpod_jobrunner.Transfer.{
  ok, RawEntry, size, DeclaredEntry, is_sha256, entry_fields, check_entry, validate_from,
  validated_manifest_entries,
}

-- Every name of the path is a proper entry name, and none is "..": below any root it stays below.
abbrev pub NotUp : Text → Type 0
NotUp part = IsName part × (text_eq dot_dot part ≡ false)

-- What an accepted entry says of the raw entry that it comes from.
pub record IsFaithful (raw : RawEntry) (e : DeclaredEntry) : Type 0 where
  pub value : raw.path ≡ some (as_posix e.path)
  pub size_is : raw.size_field ≡ size e.declared_size
  pub hash_is : raw.sha256 ≡ some e.expected_hash
  pub hash_ok : is_sha256 e.expected_hash ≡ true
  pub relative : is_empty e.path.root ≡ true
  pub confined : All NotUp e.path.names

not-contained : (ps : List Text) → contains_text dot_dot ps ≡ false → All IsName ps → All NotUp ps
not-contained [] h n = tt
not-contained (p ∷ ps) h n = ground (arith, not-contained ps, n.0, n.1)

entry_fields_lem :
    (raw : RawEntry) (value : Text) (n : ℕ) (hash : Text)
    → entry_fields raw ≡ some (value, n, hash)
    → (raw.path ≡ some value)
      × (raw.size_field ≡ size n)
      × (raw.sha256 ≡ some hash)
      × (is_sha256 hash ≡ true)
unfolding entry_fields
entry_fields_lem raw value n hash h = ground arith

check_fields :
    (seen : List Text) (value : Text) (n : ℕ) (hash : Text) (e : DeclaredEntry)
    → check_entry seen (some (value, n, hash)) ≡ ok e
    → (as_posix e.path ≡ value)
      × (contains_text value seen ≡ false)
      × (e.declared_size ≡ n)
      × (e.expected_hash ≡ hash)
      × (is_empty e.path.root ≡ true)
      × (contains_text dot_dot e.path.names ≡ false)
      × (e.path ≡ parse value)
unfolding check_entry
check_fields seen value n hash e h = ground (arith, text_eq→eq (as_posix (parse value)) value)

check_entry-IsFaithful :
    (seen : List Text) (raw : RawEntry) (fields : Option (Text × ℕ × Text)) (e : DeclaredEntry)
    → fields ≡ entry_fields raw
    → check_entry seen fields ≡ ok e
    → IsFaithful raw e × (contains_text (as_posix e.path) seen ≡ false)
check_entry-IsFaithful seen raw none e f h = absurd (unfold check_entry in ground arith)
check_entry-IsFaithful seen raw (some (value, n, hash)) e f h =
    let (a, b, c, d) = entry_fields_lem raw value n hash (sym f) in
    let (i, j, k, l, m, o, p) = check_fields seen value n hash e h in
    let confined : All NotUp e.path.names =
      not-contained e.path.names o (rw p (parse-IsName value)) in
    (
      record {
        value = rw i a;
        size_is = rw k b;
        hash_is = rw l c;
        hash_ok = rw l d;
        relative = m;
        confined = confined;
      },
      rw i j,
    )

-- The entries come from the raw entries one by one, and each path is new.
abbrev pub Accepted : List Text → List RawEntry → List DeclaredEntry → Type 0
Accepted seen [] [] = Unit
Accepted seen (raw ∷ raws) (e ∷ es) =
    IsFaithful raw e
    × (contains_text (as_posix e.path) seen ≡ false)
    × Accepted (as_posix e.path ∷ seen) raws es
Accepted seen _ _ = ⊥

validate_cons :
    (seen : List Text) (raw : RawEntry) (rest : List RawEntry) (es : List DeclaredEntry)
    → validate_from seen (raw ∷ rest) ≡ ok es
    → (e : DeclaredEntry) × (es' : List DeclaredEntry) × (check_entry seen (entry_fields raw)
        ≡ ok e)
      × (validate_from (as_posix e.path ∷ seen) rest ≡ ok es')
      × (es ≡ e ∷ es')
unfolding validate_from
validate_cons seen raw rest es h = ground arith

validate_from-Accepted :
    (seen : List Text) (raws : List RawEntry) (es : List DeclaredEntry)
    → validate_from seen raws ≡ ok es
    → Accepted seen raws es
validate_from-Accepted seen [] [] h = tt
validate_from-Accepted seen [] (e ∷ es) h = absurd (unfold validate_from in ground arith)
validate_from-Accepted seen (raw ∷ raws) es h =
    let (e, es', p, q, r) = validate_cons seen raw raws es h in
    let (f, g) = check_entry-IsFaithful seen raw (entry_fields raw) e refl p in
    rw r (f, g, validate_from-Accepted (as_posix e.path ∷ seen) raws es' q)

-- A manifest that validation accepts yields one entry for each raw entry, in order, with the path,
-- the size and the hash that it declares; the hash is 64 hexadecimal digits, the path is relative
-- with no empty, "." or ".." component and no slash in one, and no path occurs twice.
pub validated_manifest_entries-Accepted :
    (raws : List RawEntry) (es : List DeclaredEntry)
    → validated_manifest_entries raws ≡ ok es
    → Accepted [] raws es
unfolding validated_manifest_entries
validated_manifest_entries-Accepted raws es h = validate_from-Accepted [] raws es h
