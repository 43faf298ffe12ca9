-- ===== src/Transfer/Tests.antt =====
-- The transfers of transfer.py on concrete manifests, and each theorem at a concrete input.
use runpod_jobrunner.Prelude.{true, ◌≡◌, refl, ◌⊎◌, List, [], ◌∷◌, none, some}
use runpod_jobrunner.PosixPath.{Text, parse, as_posix}
use runpod_jobrunner.Transfer.{
  ok, err, TransferError, size, RawEntry, DeclaredEntry, entry_fields, is_unsafe_manifest_path,
  check_entry, validate_from, validated_manifest_entries,
}
use runpod_jobrunner.Transfer.Manifest.{Accepted, validated_manifest_entries-Accepted}
use runpod_jobrunner.Transfer.Local.{
  TransferReceipt, receipt_of, upload_entries, copy_entries, check_sources, Content, Source, file,
  Tree, FileIdentity, holds, validated_entries, upload, publish_atomic,
}
use runpod_jobrunner.Transfer.Publish.{IsPublished, publish_atomic-IsPublished}
use runpod_jobrunner.Transfer.Upload.{
  is_declared, IsDelivered, upload-IsDelivered, IsVerified, upload-IsVerified,
}

-- 64 zeros
abbrev zero_hash : Text
zero_hash =
    let four = λ (xs : Text). b'0' ∷ b'0' ∷ b'0' ∷ b'0' ∷ xs in
    let sixteen = λ (xs : Text). four (four (four (four xs))) in
    sixteen (sixteen (sixteen (sixteen [])))

-- a stand-in for the hash
abbrev sha256 : Content → Text
sha256 content = zero_hash

-- "a/b"
abbrev name_ab : Text
name_ab = b'a' ∷ b'/' ∷ b'b' ∷ []

abbrev raws : List RawEntry
raws = record { path = some name_ab; size_field = size 2; sha256 = some zero_hash } ∷ []

abbrev entries : List DeclaredEntry
entries = record { path = parse name_ab; declared_size = 2; expected_hash = zero_hash } ∷ []

raws_accepted : validated_manifest_entries raws ≡ ok entries
unfolding validated_manifest_entries validate_from check_entry is_unsafe_manifest_path entry_fields
    parse as_posix
raws_accepted = refl

validated_manifest_entries-Accepted_example : Accepted [] raws entries
validated_manifest_entries-Accepted_example =
    validated_manifest_entries-Accepted raws entries raws_accepted

abbrev tree : Tree
tree path = none

abbrev content_source : Text → Source
content_source path = file (1 ∷ 2 ∷ [])

upload-IsVerified_example :
    ((x : TransferError) × (validated_entries sha256 content_source raws ≡ err x)
      × (upload sha256 content_source (λ path. 1 ∷ 2 ∷ []) raws tree ≡ (err x, tree)))
    ⊎ ((es : List DeclaredEntry) × (validated_entries sha256 content_source raws ≡ ok es)
        × ((path : Text)
            → IsVerified sha256 es tree
                (upload sha256 content_source (λ path. 1 ∷ 2 ∷ []) raws tree).1
                path))
upload-IsVerified_example = upload-IsVerified sha256 content_source (λ path. 1 ∷ 2 ∷ []) raws tree

abbrev identity : FileIdentity
identity = record { st_size = 2; st_mtime_ns = 5; st_ctime_ns = 5; st_ino = 7 }

publish_atomic-IsPublished_example : IsPublished sha256 (size 2) zero_hash (1 ∷ 2 ∷ []) (holds []) (
    publish_atomic sha256
      (file (1 ∷ 2 ∷ []))
      (size 2)
      zero_hash
      identity
      identity
      (1 ∷ 2 ∷ [])
      (holds []))
publish_atomic-IsPublished_example =
    publish_atomic-IsPublished sha256 (file (1 ∷ 2 ∷ [])) (size 2) zero_hash identity identity
      (1 ∷ 2 ∷ []) (holds [])

abbrev receipt : TransferReceipt
receipt = record { files = 1; bytes = 2 }

upload_returned : (upload sha256 content_source (λ path. 1 ∷ 2 ∷ []) raws tree).0 ≡ ok receipt
unfolding upload upload_entries copy_entries receipt_of validated_entries check_sources
    validated_manifest_entries validate_from check_entry is_unsafe_manifest_path entry_fields parse
    as_posix
upload_returned = refl

upload-IsDelivered_example :
    (es : List DeclaredEntry) × (validated_entries sha256 content_source raws ≡ ok es)
    × (receipt ≡ receipt_of es)
    × ((path : Text)
        → is_declared path es ≡ true
        → IsDelivered sha256 es
            (upload sha256 content_source (λ path. 1 ∷ 2 ∷ []) raws tree).1
            path)
upload-IsDelivered_example =
    upload-IsDelivered sha256 content_source (λ path. 1 ∷ 2 ∷ []) raws tree receipt upload_returned
