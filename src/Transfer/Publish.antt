-- ===== src/Transfer/Publish.antt =====
-- What `LocalTransfer.publish_atomic` of transfer.py leaves at the destination.
use runpod_jobrunner.Prelude.{ℕ, ◌≡◌, refl, Bool, true, false, ◌⊎◌, inl, inr, length, arith}
use runpod_jobrunner.PosixPath.{Text}
use runpod_jobrunner.PosixPath.Laws.{text_eq→eq}
use runpod_jobrunner.Transfer.{TransferError, Result, ok, err, SizeField, size}
use runpod_jobrunner.Transfer.Local.{
  Content, Source, TransferReceipt, FileIdentity, Destination, holds, vacant, linked,
  validated_atomic_source, publish_copy, publish_to, publish_atomic,
}

Result-cases :
    {A : Type 0} (r : Result A) → ((a : A) × (r ≡ ok a)) ⊎ ((x : TransferError) × (r ≡ err x))
Result-cases (ok a) = inl (a, refl)
Result-cases (err x) = inr (x, refl)

-- the destinations that a publication may replace
abbrev pub is_replaceable : Destination → Bool
is_replaceable vacant = true
is_replaceable linked = false
is_replaceable (holds old) = true

-- The destination is as before, or one file of the declared size and hash replaced it.
abbrev pub IsPublished :
    (Content → Text)
    → SizeField
    → Text
    → Content
    → Destination
    → Result TransferReceipt × Destination
    → Type 0
IsPublished sha256 n hash copied destination outcome =
    (outcome.1 ≡ destination)
    ⊎ ((m : ℕ) × (n ≡ size m)
        × (outcome ≡ (ok (record { files = 1; bytes = m }), holds copied))
        × (length copied ≡ m)
        × (sha256 copied ≡ hash)
        × (is_replaceable destination ≡ true))

module _ (sha256 : Content → Text) (hash : Text) (before after : FileIdentity)
    (copied : Content) where
  publish_copy-IsPublished :
      (m : ℕ) (d : Destination)
      → is_replaceable d ≡ true
      → IsPublished sha256 (size m) hash copied d (publish_copy sha256 m hash before after copied d)
  unfolding publish_copy
  publish_copy-IsPublished m d h = ground (arith, text_eq→eq (sha256 copied) hash)

  publish_to-IsPublished :
      (m : ℕ) (d : Destination)
      → IsPublished sha256 (size m) hash copied d (publish_to sha256 m hash before after copied d)
  unfolding publish_to
  publish_to-IsPublished m vacant = publish_copy-IsPublished m vacant refl
  publish_to-IsPublished m linked = inl refl
  publish_to-IsPublished m (holds old) = publish_copy-IsPublished m (holds old) refl

validated_atomic_source_lem :
    (sha256 : Content → Text) (given : Source) (n : SizeField) (hash : Text) (m : ℕ)
    → validated_atomic_source sha256 given n hash ≡ ok m
    → n ≡ size m
unfolding validated_atomic_source
validated_atomic_source_lem sha256 given n hash m h = ground arith

publish_atomic-cases :
    (sha256 : Content → Text) (given : Source) (n : SizeField) (hash : Text)
    (before after : FileIdentity) (copied : Content) (destination : Destination) (r : Result ℕ)
    → validated_atomic_source sha256 given n hash ≡ r
    → publish_atomic sha256 given n hash before after copied destination ≡ elim r [
      | err x ↦ (err x, destination)
      | ok m ↦ publish_to sha256 m hash before after copied destination
    ]
unfolding publish_atomic
publish_atomic-cases sha256 given n hash before after copied destination r e =
    rw (publish_atomic, e) refl

-- An atomic publication leaves the destination alone, or it returns a receipt for one file of the
-- declared size and leaves there content of that size and hash; a destination that is a symlink
-- is never replaced.
pub publish_atomic-IsPublished :
    (sha256 : Content → Text) (given : Source) (n : SizeField) (hash : Text)
    (before after : FileIdentity) (copied : Content) (destination : Destination)
    → IsPublished sha256 n hash copied destination
        (publish_atomic sha256 given n hash before after copied destination)
publish_atomic-IsPublished sha256 given n hash before after copied destination =
    elim (Result-cases (validated_atomic_source sha256 given n hash)) [
      | inl (m, e) ↦
          rw
            (
              publish_atomic-cases sha256 given n hash before after copied destination (ok m) e,
              validated_atomic_source_lem sha256 given n hash m e,
            )
            (publish_to-IsPublished sha256 hash before after copied m destination)
      | inr (x, e) ↦ inl (
          rw (publish_atomic-cases sha256 given n hash before after copied destination (err x) e)
            refl)
    ]
