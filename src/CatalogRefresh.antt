-- ===== src/CatalogRefresh.antt =====
-- src/catalog_refresh.c: the refresh of the installed catalog by compare and swap. `load` is
-- `package_catalog_load_path` on the bytes of a file: the parts of a catalog that the refresh looks
-- at, its digest included. `Attempt` holds the system's answers in one attempt, what the network
-- answers, and the file that stands there when each of the two locks is held.
pub mod Commit
pub mod Turns
pub mod Attempts
pub mod Refresh
use cup.Base.{
  ℕ, zero, suc, Bool, true, false, not, ◌&&◌, ◌||◌, Option, none, some, ltb, ◌==◌, if◌then◌else◌,
  Text, codes, text_eq,
}
use cup.Errors.{
  CupError, cup_ok, Result, ok, err, not_installed, catalog, filesystem, temporary, ◌>>=◌,
}
use cup.System.{SystemPathIdentity, StoredFile, system_path_identity_equal}
use cup.Filesystem.{PublishFileAnswers, filesystem_replace_file_if_identity}

-- What the file's bytes say.
pub record CatalogBody : Type 0 where
  pub revision : ℕ
  pub update_url : Text
  pub digest : Text

pub record PackageCatalog : Type 0 where
  pub revision : ℕ
  pub update_url : Text
  pub digest : Text
  pub identity : SystemPathIdentity

unfoldable pub same_snapshot : PackageCatalog → PackageCatalog → Bool
unfolding system_path_identity_equal
same_snapshot left right =
    left.revision == right.revision
    && text_eq left.digest right.digest
    && system_path_identity_equal left.identity right.identity

-- The answers of one commit, whose paths are answers of the layout.
pub record CommitAnswers : Type 0 where
  pub begin : CupError
  pub read : CupError
  pub config : Result Text
  pub path : Result Text
  pub publish : PublishFileAnswers

-- What a commit answers, `*updated`, `*retry`, and the file.
pub record Committed : Type 0 where
  pub answer : CupError
  pub updated : Bool
  pub retry : Bool
  pub file : StoredFile

abbrev pub nothing_done : CupError → StoredFile → Committed
nothing_done e file = record { answer = e; updated = false; retry = false; file = file }

unfoldable pub committed : CupError × StoredFile → Committed
committed (cup_ok, file) = record { answer = cup_ok; updated = true; retry = false; file = file }
committed (e, file) = record { answer = e; updated = false; retry = false; file = file }

pub record Attempt : Type 0 where
  pub shared : CupError
  pub runtime_available : Bool
  pub before_read : CupError
  pub before_file : StoredFile
  pub config_path : Result Text
  pub temporary_path : Result Text
  pub download : CupError
  pub downloaded : Text
  pub temporary_identity : SystemPathIdentity
  pub remote_read : CupError
  pub snapshot_read : Result Bool
  pub commit_answers : CommitAnswers
  pub file : StoredFile

module _ (load : Text → Result CatalogBody) where
  -- `package_catalog_load_path`; `read` is how the read of the file ends.
  unfoldable pub load_body : Text → SystemPathIdentity → Result PackageCatalog
  load_body bytes identity = do
    body ← load bytes
    ok (record {
      revision = body.revision;
      update_url = body.update_url;
      digest = body.digest;
      identity = identity;
    })

  unfoldable pub load_catalog : CupError → StoredFile → Result PackageCatalog
  unfolding load_body
  load_catalog cup_ok none = err catalog
  load_catalog cup_ok (some (bytes, identity)) = load_body bytes identity
  load_catalog e file = err e

  -- The replacement, from `layout_get_config_dir` on.
  unfoldable pub replace_catalog :
      CommitAnswers → PackageCatalog → Text → StoredFile → Result Text → Result Text → Committed
  unfolding committed
  replace_catalog a current remote_bytes file (err e) path = nothing_done e file
  replace_catalog a current remote_bytes file (ok config) (err e) = nothing_done e file
  replace_catalog a current remote_bytes file (ok config) (ok path) = committed (
      filesystem_replace_file_if_identity a.publish config (codes "catalog") path current.identity
        false (a.publish.written, remote_bytes) file)

  -- The decision, on the catalog that is there.
  unfoldable pub decide_commit :
      CommitAnswers
      → PackageCatalog
      → PackageCatalog
      → Text
      → StoredFile
      → PackageCatalog
      → Committed
  unfolding same_snapshot replace_catalog
  decide_commit a before remote remote_bytes file current =
      if current.revision == remote.revision && text_eq current.digest remote.digest
      then nothing_done cup_ok file
      else if not (same_snapshot before current)
      then record { answer = cup_ok; updated = false; retry = true; file = file }
      else if ltb remote.revision current.revision
      then nothing_done catalog file
      else if remote.revision == current.revision
      then nothing_done catalog file
      else replace_catalog a current remote_bytes file a.config a.path

  unfoldable pub with_current :
      CommitAnswers
      → PackageCatalog
      → PackageCatalog
      → Text
      → StoredFile
      → Result PackageCatalog
      → Committed
  unfolding decide_commit
  with_current a before remote remote_bytes file (err e) = nothing_done e file
  with_current a before remote remote_bytes file (ok current) =
      decide_commit a before remote remote_bytes file current

  unfoldable pub begin_commit :
      CommitAnswers → PackageCatalog → PackageCatalog → Text → StoredFile → CupError → Committed
  unfolding with_current load_catalog
  begin_commit a before remote remote_bytes file cup_ok =
      with_current a before remote remote_bytes file (load_catalog a.read file)
  begin_commit a before remote remote_bytes file e = nothing_done e file

  unfoldable pub commit_remote_catalog :
      CommitAnswers → PackageCatalog → PackageCatalog → Text → StoredFile → Committed
  unfolding begin_commit
  commit_remote_catalog a before remote remote_bytes file =
      begin_commit a before remote remote_bytes file a.begin

  -- `load_locked_catalog` with the shared lock.
  unfoldable pub load_shared : Attempt → CupError → Result PackageCatalog
  unfolding load_catalog
  load_shared t cup_ok =
      if t.runtime_available then load_catalog t.before_read t.before_file else err not_installed
  load_shared t e = err e

  -- The download to the temporary file and the two reads of it, which give the downloaded bytes:
  -- no other process has the file's name.
  unfoldable pub fetch_remote : Attempt → CupError → Result PackageCatalog
  unfolding load_catalog
  fetch_remote t cup_ok = do
    remote ← load_catalog t.remote_read (some (t.downloaded, t.temporary_identity))
    present ← t.snapshot_read
    if present then ok remote else err filesystem
  fetch_remote t e = err e

  -- One round up to `attempt_done`.
  unfoldable pub commit_fetched : Attempt → PackageCatalog → Result PackageCatalog → Committed
  unfolding commit_remote_catalog
  commit_fetched t before (err e) = nothing_done e t.file
  commit_fetched t before (ok remote) =
      commit_remote_catalog t.commit_answers before remote t.downloaded t.file

  unfoldable pub fetch_and_commit : Attempt → Result PackageCatalog → Committed
  unfolding commit_fetched fetch_remote
  fetch_and_commit t (err e) = nothing_done e t.file
  fetch_and_commit t (ok before) =
      commit_fetched t before
        (do config ← t.config_path; temporary_file ← t.temporary_path; fetch_remote t t.download)

  unfoldable pub refresh_attempt : Attempt → Committed
  unfolding fetch_and_commit load_shared
  refresh_attempt t = fetch_and_commit t (load_shared t t.shared)

  abbrev pub catalog_refresh_max_attempts : ℕ
  catalog_refresh_max_attempts = 3

  -- What follows an attempt, by its answer: the result, or another round.
  unfoldable pub after_attempt :
      CupError → Committed → CupError × Bool × StoredFile → CupError × Bool × StoredFile
  after_attempt cup_ok r again = if r.retry then again else (cup_ok, r.updated, r.file)
  after_attempt e r again = (e, r.updated, r.file)

  -- The loop over the attempts that are left.
  unfoldable pub refresh_loop : ℕ → ℕ → (ℕ → Attempt) → StoredFile → CupError × Bool × StoredFile
  unfolding refresh_attempt after_attempt
  refresh_loop zero attempt world file = (temporary, false, file)
  refresh_loop (suc left) attempt world file =
      let r = refresh_attempt (world attempt) in
      after_attempt r.answer r (refresh_loop left (suc attempt) world r.file)

  -- `world` is what each attempt meets.
  unfoldable pub catalog_refresh_existing :
      (ℕ → Attempt) → StoredFile → CupError × Bool × StoredFile
  unfolding refresh_loop
  catalog_refresh_existing world file = refresh_loop catalog_refresh_max_attempts 0 world file
