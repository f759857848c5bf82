-- ===== src/CatalogRefresh/Commit.antt =====
-- How a commit of the catalog refresh ends (src/catalog_refresh.c).
use cup.Base.{
  ◌<◌, true, false, ◌&&◌, none, some, ◌≡◌, ◌≢◌, refl, ap, ◌∙◌, ◌⊎◌, inl, inr, arith, ltb, ◌==◌,
  ==_iff, Text, codes, text_eq, text_eq_iff, Bool-cases, &&-true_iff,
}
use cup.Errors.{CupError, cup_ok, Result, ok, err, commit}
use cup.System.{SystemPathIdentity, StoredFile}
use cup.Filesystem.{replace_if_identity, filesystem_replace_file_if_identity}
use cup.Filesystem.Publish.{FileOutcome, published, untouched, publish_file-outcome}
use cup.CatalogRefresh.{
  CatalogBody, PackageCatalog, CommitAnswers, Committed, nothing_done, committed, same_snapshot,
  load_body, load_catalog, replace_catalog, decide_commit, with_current, begin_commit,
  commit_remote_catalog,
}

module _ (load : Text → Result CatalogBody) where
  -- How a commit ends: the remote bytes have replaced a catalog of a lower revision that is the one
  -- of the snapshot; or the file is as it was, because it has the remote revision and digest, because
  -- it is no longer that of the snapshot, or with an error.
  pub data CommitOutcome (before remote : PackageCatalog) (bytes : Text) (file : StoredFile)
      (r : Committed) : Type 0 where
    swapped :
        (current : PackageCatalog) (identity : SystemPathIdentity)
        → load_catalog load cup_ok file ≡ ok current
        → same_snapshot before current ≡ true
        → current.revision < remote.revision
        → r.file ≡ some (bytes, identity)
        → ((r.answer ≡ cup_ok) × (r.updated ≡ true)) ⊎ ((r.answer ≡ commit) × (r.updated ≡ false))
        → r.retry ≡ false
        → CommitOutcome before remote bytes file r
    up_to_date :
        (current : PackageCatalog)
        → load_catalog load cup_ok file ≡ ok current
        → current.revision ≡ remote.revision
        → current.digest ≡ remote.digest
        → r ≡ nothing_done cup_ok file
        → CommitOutcome before remote bytes file r
    moved_on :
        (current : PackageCatalog)
        → load_catalog load cup_ok file ≡ ok current
        → same_snapshot before current ≡ false
        → r ≡ record { answer = cup_ok; updated = false; retry = true; file = file }
        → CommitOutcome before remote bytes file r
    failed :
        r.answer ≢ cup_ok
        → r.updated ≡ false
        → r.file ≡ file
        → CommitOutcome before remote bytes file r

  committed-replaced :
      (r : CupError × StoredFile)
      → (r.0 ≡ cup_ok) ⊎ (r.0 ≡ commit)
      → ((committed r).file ≡ r.1)
        × (((committed r).answer ≡ cup_ok) × ((committed r).updated ≡ true)
            ⊎ ((committed r).answer ≡ commit) × ((committed r).updated ≡ false))
        × ((committed r).retry ≡ false)
  unfolding committed
  committed-replaced (cup_ok, file) h = (refl, inl (refl, refl), refl)
  committed-replaced (commit, file) h = (refl, inr (refl, refl), refl)
  committed-replaced (_, file) (inl h) = absurd (ground arith)
  committed-replaced (_, file) (inr h) = absurd (ground arith)

  committed-failed :
      (r : CupError × StoredFile)
      → r.0 ≢ cup_ok
      → ((committed r).answer ≢ cup_ok)
        × ((committed r).updated ≡ false)
        × ((committed r).file ≡ r.1)
  unfolding committed
  committed-failed (cup_ok, file) h = absurd (h refl)
  committed-failed (_, file) h = (h, refl, refl)

  module _ (a : CommitAnswers) (before remote : PackageCatalog) (bytes : Text) (file : StoredFile)
      (current : PackageCatalog) (loaded : load_catalog load cup_ok file ≡ ok current) where
    file-outcome :
        (r : CupError × StoredFile)
        → FileOutcome a.publish
            (replace_if_identity current.identity)
            (a.publish.written, bytes)
            file
            r
        → same_snapshot before current ≡ true
        → current.revision < remote.revision
        → CommitOutcome before remote bytes file (committed r)
    file-outcome r (published e f w m) same newer =
        let c = committed-replaced r e in
        swapped current a.publish.new_identity loaded same newer (c.0 ∙ f) c.1 c.2
    file-outcome r (untouched e f) same newer =
        let c = committed-failed r e in failed c.0 c.1 (c.2 ∙ f)

    replace-outcome :
        (config path : Result Text)
        → config ≢ err cup_ok
        → path ≢ err cup_ok
        → same_snapshot before current ≡ true
        → current.revision < remote.revision
        → CommitOutcome before remote bytes file
            (replace_catalog load a current bytes file config path)
    unfolding replace_catalog filesystem_replace_file_if_identity
    replace-outcome (err e) path hc hp same newer = failed (λ q. hc (ap err q)) refl refl
    replace-outcome (ok config) (err e) hc hp same newer = failed (λ q. hp (ap err q)) refl refl
    replace-outcome (ok config) (ok path) hc hp same newer =
        file-outcome _
          (publish_file-outcome a.publish (replace_if_identity current.identity) false
            (a.publish.written, bytes) file config (codes "catalog") path)
          same newer

    decide-outcome :
        a.config ≢ err cup_ok
        → a.path ≢ err cup_ok
        → CommitOutcome before remote bytes file
            (decide_commit load a before remote bytes file current)
    unfolding decide_commit
    decide-outcome hc hp =
        elim (Bool-cases
          (current.revision == remote.revision && text_eq current.digest remote.digest)) [
            | inl same ↦
                (let (r, d) = (&&-true_iff (current.revision == remote.revision) _).0 same in
                  up_to_date current loaded ((==_iff current.revision remote.revision).0 r)
                    ((text_eq_iff current.digest remote.digest).0 d) (rw same refl))
            | inr differs ↦ elim (Bool-cases (same_snapshot before current)) [
              | inr changed ↦ moved_on current loaded changed (rw (differs, changed) refl)
              | inl kept ↦ elim (Bool-cases (ltb remote.revision current.revision)) [
                | inl older ↦ rw (differs, kept, older) (failed (λ q. ground arith) refl refl)
                | inr not_older ↦ elim (Bool-cases (remote.revision == current.revision)) [
                  | inl equal ↦
                      rw (differs, kept, not_older, equal) (failed (λ q. ground arith) refl refl)
                  | inr different ↦
                      rw (differs, kept, not_older, different)
                        (replace-outcome a.config a.path hc hp kept (ground arith))
                ]
              ]
            ]
          ]

-- The calls whose error is reported as it is answer no error CUP_OK.
pub record ErrorsAreErrors (load : Text → Result CatalogBody) (a : CommitAnswers) : Type 0 where
  pub parse : (bytes : Text) → load bytes ≢ err cup_ok
  pub config : a.config ≢ err cup_ok
  pub path : a.path ≢ err cup_ok

module _ (load : Text → Result CatalogBody) where
  load_catalog-cup_ok :
      (e : CupError) (file : StoredFile) {current : PackageCatalog}
      → load_catalog load e file ≡ ok current
      → load_catalog load cup_ok file ≡ ok current
  unfolding load_catalog
  load_catalog-cup_ok cup_ok file h = h
  load_catalog-cup_ok _ file h = absurd (ground arith)

  load_body-ne_ok :
      (bytes : Text) (identity : SystemPathIdentity) (r : Result CatalogBody)
      → r ≢ err cup_ok
      → load bytes ≡ r
      → load_body load bytes identity ≢ err cup_ok
  unfolding load_body
  load_body-ne_ok bytes identity (err e) n h q =
      let same : Path (Result PackageCatalog) (err e) (err cup_ok) = rw (load_body, h) at q in
      n (ground (arith, same))
  load_body-ne_ok bytes identity (ok body) n h q = absurd (ground (arith, h))

  pub load_catalog-ne_ok :
      (e : CupError) (file : StoredFile)
      → ((bytes : Text) → load bytes ≢ err cup_ok)
      → load_catalog load e file ≢ err cup_ok
  unfolding load_catalog
  load_catalog-ne_ok cup_ok none n q = absurd (ground arith)
  load_catalog-ne_ok cup_ok (some (bytes, identity)) n q =
      load_body-ne_ok bytes identity (load bytes) (n bytes) refl q
  load_catalog-ne_ok _ file n q = absurd (ground arith)

  module _ (a : CommitAnswers) (errors : ErrorsAreErrors load a) (before remote : PackageCatalog)
      (bytes : Text) (file : StoredFile) where
    current-outcome :
        (r : Result PackageCatalog)
        → load_catalog load a.read file ≡ r
        → CommitOutcome load before remote bytes file
            (with_current load a before remote bytes file r)
    unfolding with_current
    current-outcome (err e) h =
        failed (λ q. load_catalog-ne_ok a.read file errors.parse (h ∙ ap err q)) refl refl
    current-outcome (ok current) h =
        decide-outcome load a before remote bytes file current (load_catalog-cup_ok a.read file h)
          errors.config errors.path

    begin-outcome :
        (e : CupError)
        → CommitOutcome load before remote bytes file
            (begin_commit load a before remote bytes file e)
    unfolding begin_commit
    begin-outcome cup_ok = current-outcome (load_catalog load a.read file) refl
    begin-outcome _ = failed (λ q. ground arith) refl refl

    -- A commit_remote_catalog, whose calls report no error as CUP_OK, ends in one of four
    -- ways. The downloaded bytes have replaced a catalog that is the one of the snapshot and
    -- of a lower revision, with CUP_OK and the update flag, or with CUP_ERR_COMMIT; the file
    -- is untouched with CUP_OK, since its revision and digest are the remote ones; it is
    -- untouched with CUP_OK and a retry, since it is no longer that of the snapshot; it is
    -- untouched with an error.
    pub commit-outcome :
        CommitOutcome load before remote bytes file
          (commit_remote_catalog load a before remote bytes file)
    unfolding commit_remote_catalog
    commit-outcome = begin-outcome a.begin
