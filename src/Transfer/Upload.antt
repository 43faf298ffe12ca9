-- ===== src/Transfer/Upload.antt =====
-- What `LocalTransfer.upload` of transfer.py leaves at the destination.
use runpod_jobrunner.Prelude.{
  ◌≡◌, refl, ◌∙◌, List, [], ◌∷◌, some, ◌||◌, Bool, true, false, ◌⊎◌, inl, inr, arith, Bool-cases,
}
use runpod_jobrunner.PosixPath.{Text, text_eq, as_posix}
use runpod_jobrunner.PosixPath.Laws.{text_eq→eq}
use runpod_jobrunner.Transfer.{TransferError, Result, ok, err, RawEntry, DeclaredEntry}
use runpod_jobrunner.Transfer.Local.{
  Content, Source, Tree, write, TransferReceipt, receipt_of, validated_entries, copy_entries,
  upload_entries, upload,
}

-- An entry that declares the content at its path.
abbrev pub Declares : (Content → Text) → Text → Content → List DeclaredEntry → Type 0
Declares sha256 path content [] = ⊥
Declares sha256 path content (e ∷ es) =
    ((as_posix e.path ≡ path) × (sha256 content ≡ e.expected_hash))
    ⊎ Declares sha256 path content es

-- At the path stands what stood there, or content with the hash that an entry declares for it.
abbrev pub IsVerified : (Content → Text) → List DeclaredEntry → Tree → Tree → Text → Type 0
IsVerified sha256 es before after path =
    (after path ≡ before path)
    ⊎ ((content : Content) × (after path ≡ some content) × Declares sha256 path content es)

IsVerified-write :
    {sha256 : Content → Text} (e : DeclaredEntry) (es : List DeclaredEntry) (content : Content)
    (tree after : Tree) (path : Text)
    → text_eq (sha256 content) e.expected_hash ≡ true
    → IsVerified sha256 es (write (as_posix e.path) content tree) after path
    → IsVerified sha256 (e ∷ es) tree after path
IsVerified-write {sha256} e es content tree after path good (inr (c, a, d)) = inr (c, a, inr d)
IsVerified-write {sha256} e es content tree after path good (inl same) =
    elim (Bool-cases (text_eq (as_posix e.path) path)) [
      | inl here ↦ inr (content, same ∙ rw here, inl (text_eq→eq _ _ here, text_eq→eq _ _ good))
      | inr there ↦ inl (same ∙ rw there)
    ]

module _ (sha256 : Content → Text) (copied : Text → Content) where
  copy_entries-IsVerified :
      (es : List DeclaredEntry) (tree : Tree) (path : Text)
      → IsVerified sha256 es tree (copy_entries sha256 copied es tree).1 path
  unfolding copy_entries
  copy_entries-IsVerified [] tree path = inl refl
  copy_entries-IsVerified (e ∷ es) tree path =
      let content = copied (as_posix e.path) in
      let later = copy_entries-IsVerified es (write (as_posix e.path) content tree) path in
      elim (Bool-cases (text_eq (sha256 content) e.expected_hash)) [
        | inr bad ↦ rw bad (inl refl)
        | inl good ↦ rw good (
            IsVerified-write e es content tree
              (copy_entries sha256 copied es (write (as_posix e.path) content tree)).1 path good
              later)
      ]

-- the path of some entry
abbrev pub is_declared : Text → List DeclaredEntry → Bool
is_declared path [] = false
is_declared path (e ∷ es) = text_eq (as_posix e.path) path || is_declared path es

-- At the path stands content with the hash that an entry declares for it.
abbrev pub IsDelivered : (Content → Text) → List DeclaredEntry → Tree → Text → Type 0
IsDelivered sha256 es after path =
    (content : Content) × (after path ≡ some content) × Declares sha256 path content es

IsDelivered-head :
    {sha256 : Content → Text} (e : DeclaredEntry) (es : List DeclaredEntry) (content : Content)
    (tree after : Tree) (path : Text)
    → text_eq (sha256 content) e.expected_hash ≡ true
    → text_eq (as_posix e.path) path ≡ true
    → IsVerified sha256 es (write (as_posix e.path) content tree) after path
    → IsDelivered sha256 (e ∷ es) after path
IsDelivered-head e es content tree after path good here (inr (c, a, d)) = (c, a, inr d)
IsDelivered-head e es content tree after path good here (inl same) =
    (content, same ∙ rw here refl, inl (text_eq→eq _ _ here, text_eq→eq _ _ good))

IsDelivered-cons :
    {sha256 : Content → Text} (e : DeclaredEntry) (es : List DeclaredEntry) (after : Tree)
    (path : Text)
    → IsDelivered sha256 es after path
    → IsDelivered sha256 (e ∷ es) after path
IsDelivered-cons e es after path (c, a, d) = (c, a, inr d)

module _ (sha256 : Content → Text) (copied : Text → Content) where
  copied_cons :
      (e : DeclaredEntry) (es : List DeclaredEntry) (tree : Tree)
      → (copy_entries sha256 copied (e ∷ es) tree).0 ≡ ok tt
      → (text_eq (sha256 (copied (as_posix e.path))) e.expected_hash ≡ true)
        × (copy_entries sha256 copied (e ∷ es) tree
            ≡ copy_entries sha256 copied es
                (write (as_posix e.path) (copied (as_posix e.path)) tree))
  unfolding copy_entries
  copied_cons e es tree h = ground arith

  copy_entries-IsDelivered :
      (es : List DeclaredEntry) (tree : Tree) (path : Text)
      → (copy_entries sha256 copied es tree).0 ≡ ok tt
      → is_declared path es ≡ true
      → IsDelivered sha256 es (copy_entries sha256 copied es tree).1 path
  copy_entries-IsDelivered [] tree path h d = absurd (ground arith)
  copy_entries-IsDelivered (e ∷ es) tree path h d =
      let content = copied (as_posix e.path) in
      let tree' = write (as_posix e.path) content tree in
      let (good, whole) = copied_cons e es tree h in
      elim (Bool-cases (text_eq (as_posix e.path) path)) [
        | inl here ↦ rw whole (
            IsDelivered-head e es content tree (copy_entries sha256 copied es tree').1 path good
              here (copy_entries-IsVerified sha256 copied es tree' path))
        | inr there ↦ rw whole (
            IsDelivered-cons e es (copy_entries sha256 copied es tree').1 path
              (copy_entries-IsDelivered es tree' path (rw whole at h) (ground arith)))
      ]

module _ (sha256 : Content → Text) (source : Text → Source) (copied : Text → Content)
    (raws : List RawEntry) (tree : Tree) where
  -- Where validation of the manifest against the source fails, an upload leaves every destination
  -- path alone and raises that error. Where it accepts the entries, an upload, whether it returns or
  -- raises, leaves at each path what was there or content whose hash an entry declares for that
  -- path; this holds however the source changes between its check and its copy.
  pub upload-IsVerified :
      ((x : TransferError) × (validated_entries sha256 source raws ≡ err x)
        × (upload sha256 source copied raws tree ≡ (err x, tree)))
      ⊎ ((es : List DeclaredEntry) × (validated_entries sha256 source raws ≡ ok es)
          × ((path : Text)
              → IsVerified sha256 es tree (upload sha256 source copied raws tree).1 path))
  upload-IsVerified = cases (validated_entries sha256 source raws) refl
    where
      cases :
          (r : Result (List DeclaredEntry))
          → validated_entries sha256 source raws ≡ r
          → ((x : TransferError) × (validated_entries sha256 source raws ≡ err x)
              × (upload sha256 source copied raws tree ≡ (err x, tree)))
            ⊎ ((es : List DeclaredEntry) × (validated_entries sha256 source raws ≡ ok es)
                × ((path : Text)
                    → IsVerified sha256 es tree (upload sha256 source copied raws tree).1 path))
      cases (err x) e = inl (x, e, unfold upload upload_entries in rw e refl)
      cases (ok es) e = inr (
        es,
        e,
        λ path.
            unfold upload upload_entries in
            rw e (copy_entries-IsVerified sha256 copied es tree path),
      )

module _ (sha256 : Content → Text) (source : Text → Source) (copied : Text → Content) (tree : Tree)
    (receipt : TransferReceipt) where
  upload_entries-returned :
      (es : List DeclaredEntry)
      → (upload_entries sha256 source copied (ok es) tree).0 ≡ ok receipt
      → (receipt ≡ receipt_of es)
        × ((copy_entries sha256 copied es tree).0 ≡ ok tt)
        × ((upload_entries sha256 source copied (ok es) tree).1
            ≡ (copy_entries sha256 copied es tree).1)
  unfolding upload_entries
  upload_entries-returned es h = ground arith

  upload_entries-IsDelivered :
      (r : Result (List DeclaredEntry))
      → (upload_entries sha256 source copied r tree).0 ≡ ok receipt
      → (es : List DeclaredEntry) × (r ≡ ok es)
        × (receipt ≡ receipt_of es)
        × ((path : Text)
            → is_declared path es ≡ true
            → IsDelivered sha256 es (upload_entries sha256 source copied r tree).1 path)
  upload_entries-IsDelivered (err x) h = absurd (unfold upload_entries in ground arith)
  upload_entries-IsDelivered (ok es) h =
      let (counted, done, same) = upload_entries-returned es h in
      (
        es,
        refl,
        counted,
        λ path d. rw same (copy_entries-IsDelivered sha256 copied es tree path done d),
      )

module _ (sha256 : Content → Text) (source : Text → Source) (copied : Text → Content)
    (raws : List RawEntry) (tree : Tree) (receipt : TransferReceipt) where
  -- An upload that returns has put, at the path of every entry of the manifest, content with the
  -- hash that an entry declares for that path; its receipt counts the entries and their sizes.
  pub upload-IsDelivered :
      (upload sha256 source copied raws tree).0 ≡ ok receipt
      → (es : List DeclaredEntry) × (validated_entries sha256 source raws ≡ ok es)
        × (receipt ≡ receipt_of es)
        × ((path : Text)
            → is_declared path es ≡ true
            → IsDelivered sha256 es (upload sha256 source copied raws tree).1 path)
  unfolding upload
  upload-IsDelivered h =
      upload_entries-IsDelivered sha256 source copied tree receipt
        (validated_entries sha256 source raws) h
