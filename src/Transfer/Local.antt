-- ===== src/Transfer/Local.antt =====
-- `LocalTransfer.upload` and `LocalTransfer.publish_atomic` of transfer.py, with `_validated_entries`,
-- `_validated_atomic_source` and `_receipt`. Directories are made as needed, a rename is atomic, and
-- temporary files are left out. The source may change between its check and its copy: `copied` is
-- what the copy reads.
use runpod_jobrunner.Prelude.{
  ℕ, suc, ◌+◌, List, [], ◌∷◌, Option, some, Bool, not, ◌&&◌, ◌||◌, nat_eq, length, if◌then◌else◌,
}
use runpod_jobrunner.PosixPath.{Text, text_eq, as_posix}
use runpod_jobrunner.Transfer.{
  symlinked_path, not_regular, size_mismatch, hash_mismatch, malformed_entry, unavailable,
  source_unavailable, Result, ok, err, ◌>>=◌, SizeField, size, negative_size, no_size, RawEntry,
  DeclaredEntry, is_sha256, validated_manifest_entries,
}

abbrev pub Content : Type 0
Content = List ℕ

-- What stands at a path below the source root: nothing, a path that is or runs through a symlink, a
-- thing that is no regular file, or a file.
pub data Source : Type 0 where
  no_source : Source
  symlink : Source
  special : Source
  file : Content → Source

-- A destination tree, by relative path.
abbrev pub Tree : Type 0
Tree = Text → Option Content

abbrev pub write : Text → Content → Tree → Tree
write path content tree other = if text_eq path other then some content else tree other

pub record TransferReceipt : Type 0 where
  pub files : ℕ
  pub bytes : ℕ

unfoldable pub receipt_of : List DeclaredEntry → TransferReceipt
receipt_of [] = record { files = 0; bytes = 0 }
receipt_of (e ∷ es) =
    let rest = receipt_of es in
    record { files = suc rest.files; bytes = e.declared_size + rest.bytes }

module _ (sha256 : Content → Text) (source : Text → Source) where
  unfoldable pub check_source : DeclaredEntry → Source → Result (Unit {0})
  check_source e no_source = err not_regular
  check_source e symlink = err symlinked_path
  check_source e special = err not_regular
  check_source e (file content) =
      if not (nat_eq (length content) e.declared_size)
      then err size_mismatch
      else if not (text_eq (sha256 content) e.expected_hash)
      then err hash_mismatch
      else ok tt

  unfoldable pub check_sources : List DeclaredEntry → Result (List DeclaredEntry)
  unfolding check_source
  check_sources [] = ok []
  check_sources (e ∷ es) =
      check_source e (source (as_posix e.path)) >>= λ _. check_sources es >>= λ rest. ok (e ∷ rest)

  unfoldable pub validated_entries : List RawEntry → Result (List DeclaredEntry)
  validated_entries raws = validated_manifest_entries raws >>= λ es. check_sources es

module _ (sha256 : Content → Text) (copied : Text → Content) where
  -- the loop of `upload`, over entries that are validated
  unfoldable pub copy_entries : List DeclaredEntry → Tree → Result (Unit {0}) × Tree
  copy_entries [] tree = (ok tt, tree)
  copy_entries (e ∷ es) tree =
      let content = copied (as_posix e.path) in
      let rest = copy_entries es (write (as_posix e.path) content tree) in
      if not (text_eq (sha256 content) e.expected_hash) then (err hash_mismatch, tree) else rest

module _ (sha256 : Content → Text) (source : Text → Source) (copied : Text → Content) where
  unfoldable pub upload_entries : Result (List DeclaredEntry) → Tree → Result TransferReceipt × Tree
  upload_entries (err x) tree = (err x, tree)
  upload_entries (ok es) tree =
      let (done, tree') = copy_entries sha256 copied es tree in
      (done >>= λ _. ok (receipt_of es), tree')

  unfoldable pub upload : List RawEntry → Tree → Result TransferReceipt × Tree
  unfolding upload_entries
  upload raws tree = upload_entries (validated_entries sha256 source raws) tree

-- `_file_identity`: size, modification and change times, inode.
pub record FileIdentity : Type 0 where
  pub st_size : ℕ
  pub st_mtime_ns : ℕ
  pub st_ctime_ns : ℕ
  pub st_ino : ℕ

abbrev pub identity_eq : FileIdentity → FileIdentity → Bool
identity_eq a b =
    nat_eq a.st_size b.st_size
    && (nat_eq a.st_mtime_ns b.st_mtime_ns
        && (nat_eq a.st_ctime_ns b.st_ctime_ns && nat_eq a.st_ino b.st_ino))

-- The destination of a publication.
pub data Destination : Type 0 where
  vacant : Destination
  linked : Destination
  holds : Content → Destination

module _ (sha256 : Content → Text) where
  unfoldable pub validated_atomic_source : Source → SizeField → Text → Result ℕ
  validated_atomic_source _ (negative_size n) hash = err malformed_entry
  validated_atomic_source _ no_size hash = err malformed_entry
  validated_atomic_source source (size n) hash =
      if not (is_sha256 hash) then err malformed_entry else elim source [
        | no_source ↦ err source_unavailable
        | symlink ↦ err not_regular
        | special ↦ err not_regular
        | file content ↦
            if not (nat_eq (length content) n)
            then err size_mismatch
            else if not (text_eq (sha256 content) hash)
            then err hash_mismatch
            else ok n
      ]

  -- from the copy on: `before` and `after` are the source's identities around it
  unfoldable pub publish_copy :
      ℕ
      → Text
      → FileIdentity
      → FileIdentity
      → Content
      → Destination
      → Result TransferReceipt × Destination
  publish_copy n hash before after copied destination =
      if not (identity_eq before after)
      then (err unavailable, destination)
      else if not (nat_eq (length copied) n) || not (text_eq (sha256 copied) hash)
      then (err hash_mismatch, destination)
      else (ok (record { files = 1; bytes = n }), holds copied)

  unfoldable pub publish_to :
      ℕ
      → Text
      → FileIdentity
      → FileIdentity
      → Content
      → Destination
      → Result TransferReceipt × Destination
  unfolding publish_copy
  publish_to n hash before after copied linked = (err symlinked_path, linked)
  publish_to n hash before after copied vacant = publish_copy n hash before after copied vacant
  publish_to n hash before after copied (holds old) =
      publish_copy n hash before after copied (holds old)

  unfoldable pub publish_atomic :
      Source
      → SizeField
      → Text
      → FileIdentity
      → FileIdentity
      → Content
      → Destination
      → Result TransferReceipt × Destination
  unfolding validated_atomic_source publish_to
  publish_atomic source n hash before after copied destination =
      elim (validated_atomic_source source n hash) [
        | err x ↦ (err x, destination)
        | ok m ↦ publish_to m hash before after copied destination
      ]
