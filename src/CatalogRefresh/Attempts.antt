-- ===== src/CatalogRefresh/Attempts.antt =====
-- The attempts of one refresh (src/catalog_refresh.c).
use cup.Base.{
  Bool, true, false, some, ◌≡◌, ◌≢◌, refl, ap, ◌∙◌, inl, inr, arith, Bool-cases, Text,
  if◌then◌else◌,
}
use cup.Errors.{CupError, cup_ok, Result, ok, err, filesystem, ◌>>=◌}
use cup.CatalogRefresh.{
  CatalogBody, PackageCatalog, Committed, nothing_done, load_body, load_catalog, Attempt,
  load_shared, fetch_remote, commit_fetched, fetch_and_commit, refresh_attempt,
}
use cup.CatalogRefresh.Commit.{CommitOutcome, ErrorsAreErrors, load_catalog-ne_ok, commit-outcome}

-- How an attempt ends: by a commit of what was downloaded, against the catalog of the snapshot, or
-- before it, with an error and the file as it was.
pub data AttemptOutcome (load : Text → Result CatalogBody) (t : Attempt) (r : Committed)
    : Type 0 where
  tried_commit :
      (before remote : PackageCatalog)
      → load_shared load t t.shared ≡ ok before
      → load_body load t.downloaded t.temporary_identity ≡ ok remote
      → CommitOutcome load before remote t.downloaded t.file r
      → AttemptOutcome load t r
  stopped : r.answer ≢ cup_ok → r ≡ nothing_done r.answer t.file → AttemptOutcome load t r

-- The calls whose error is reported as it is answer no error CUP_OK.
pub record AttemptErrors (load : Text → Result CatalogBody) (t : Attempt) : Type 0 where
  pub commit_calls : ErrorsAreErrors load t.commit_answers
  pub config : t.config_path ≢ err cup_ok
  pub temporary_made : t.temporary_path ≢ err cup_ok
  pub snapshot : t.snapshot_read ≢ err cup_ok

module _ (load : Text → Result CatalogBody) (t : Attempt) (errors : AttemptErrors load t) where
  load_shared-ne_ok : (e : CupError) → load_shared load t e ≢ err cup_ok
  unfolding load_shared
  load_shared-ne_ok cup_ok q = elim (Bool-cases t.runtime_available) [
    | inl there ↦
        load_catalog-ne_ok load t.before_read t.before_file errors.commit_calls.parse
          (rw (load_shared, there) at q)
    | inr missing ↦ absurd (ground (arith, missing))
  ]
  load_shared-ne_ok _ q = absurd (ground arith)

  -- What a fetch gives is what the downloaded bytes say.
  loaded-remote :
      (e : CupError) {remote : PackageCatalog}
      → load_catalog load e (some (t.downloaded, t.temporary_identity)) ≡ ok remote
      → load_body load t.downloaded t.temporary_identity ≡ ok remote
  unfolding load_catalog
  loaded-remote cup_ok h = h
  loaded-remote _ h = absurd (ground arith)

  present_or :
      (r : Result Bool)
      → r ≢ err cup_ok
      → (remote : PackageCatalog)
      → (r >>= λ present. if present then ok remote else err filesystem) ≢ err cup_ok
  present_or (err e) n remote q = n (ground (arith, q))
  present_or (ok true) n remote q = absurd (ground arith)
  present_or (ok false) n remote q = absurd (ground arith)

  present_same :
      (r : Result Bool) (remote : PackageCatalog) {out : PackageCatalog}
      → (r >>= λ present. if present then ok remote else err filesystem) ≡ ok out
      → ok remote ≡ ok out
  present_same (err e) remote q = absurd (ground arith)
  present_same (ok true) remote q = q
  present_same (ok false) remote q = absurd (ground arith)

  -- The two reads of the temporary file.
  abbrev reads : Result PackageCatalog → Result PackageCatalog
  reads r =
      r >>= λ remote. t.snapshot_read >>= λ present. if present then ok remote else err filesystem

  reads-ne_ok : (r : Result PackageCatalog) → r ≢ err cup_ok → reads r ≢ err cup_ok
  reads-ne_ok (err e) n q = n (ground (arith, q))
  reads-ne_ok (ok remote) n q = present_or t.snapshot_read errors.snapshot remote q

  reads-same : (r : Result PackageCatalog) {out : PackageCatalog} → reads r ≡ ok out → r ≡ ok out
  reads-same (err e) q = absurd (ground arith)
  reads-same (ok remote) q = present_same t.snapshot_read remote q

  fetch-ne_ok : (e : CupError) → fetch_remote load t e ≢ err cup_ok
  unfolding fetch_remote
  fetch-ne_ok cup_ok q =
      reads-ne_ok (load_catalog load t.remote_read (some (t.downloaded, t.temporary_identity)))
        (load_catalog-ne_ok load t.remote_read (some (t.downloaded, t.temporary_identity))
          errors.commit_calls.parse)
        q
  fetch-ne_ok _ q = absurd (ground arith)

  fetch-remote :
      (e : CupError) {remote : PackageCatalog}
      → fetch_remote load t e ≡ ok remote
      → load_body load t.downloaded t.temporary_identity ≡ ok remote
  unfolding fetch_remote
  fetch-remote cup_ok h =
      loaded-remote t.remote_read
        (reads-same (load_catalog load t.remote_read (some (t.downloaded, t.temporary_identity))) h)
  fetch-remote _ h = absurd (ground arith)

  -- The layout and the name of the temporary file, in front of the fetch.
  abbrev prepared : Result Text → Result Text → Result PackageCatalog
  prepared config path = config >>= λ c. path >>= λ p. fetch_remote load t t.download

  prepared-ne_ok :
      (config path : Result Text)
      → config ≢ err cup_ok
      → path ≢ err cup_ok
      → prepared config path ≢ err cup_ok
  prepared-ne_ok (err e) path m n q = m (ground (arith, q))
  prepared-ne_ok (ok c) (err e) m n q = n (ground (arith, q))
  prepared-ne_ok (ok c) (ok p) m n q = fetch-ne_ok t.download q

  prepared-remote :
      (config path : Result Text) {remote : PackageCatalog}
      → prepared config path ≡ ok remote
      → load_body load t.downloaded t.temporary_identity ≡ ok remote
  prepared-remote (err e) path h = absurd (ground arith)
  prepared-remote (ok c) (err e) h = absurd (ground arith)
  prepared-remote (ok c) (ok p) h = fetch-remote t.download h

  fetched-outcome :
      (before : PackageCatalog) (r : Result PackageCatalog)
      → load_shared load t t.shared ≡ ok before
      → prepared t.config_path t.temporary_path ≡ r
      → AttemptOutcome load t (commit_fetched load t before r)
  unfolding commit_fetched
  fetched-outcome before (err e) h q =
      stopped
        (λ n.
          prepared-ne_ok t.config_path t.temporary_path errors.config errors.temporary_made
            (q ∙ ap err n))
        refl
  fetched-outcome before (ok remote) h q =
      tried_commit before remote h (prepared-remote t.config_path t.temporary_path q)
        (commit-outcome load t.commit_answers errors.commit_calls before remote t.downloaded t.file)

  before-outcome :
      (r : Result PackageCatalog)
      → load_shared load t t.shared ≡ r
      → AttemptOutcome load t (fetch_and_commit load t r)
  unfolding fetch_and_commit
  before-outcome (err e) h = stopped (λ n. load_shared-ne_ok t.shared (h ∙ ap err n)) refl
  before-outcome (ok before) h =
      fetched-outcome before (prepared t.config_path t.temporary_path) h refl

  pub attempt-outcome : AttemptOutcome load t (refresh_attempt load t)
  unfolding refresh_attempt
  attempt-outcome = before-outcome (load_shared load t t.shared) refl
