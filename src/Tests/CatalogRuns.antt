-- ===== src/Tests/CatalogRuns.antt =====
-- Runs of src/catalog_refresh.c and of the publication of src/filesystem.c, and the theorems at them.
use cup.Path.{path_parent, path_equal}
use cup.Base.{ℕ, zero, suc, true, false, some, ◌≡◌, refl, Text, codes, length, arith, text_eq}
use cup.Errors.{ok, cup_ok, commit, Result}
use cup.System.{SystemPathIdentity, SystemPathKind, StoredFile, MoveAnswer, moved, applied}
use cup.Filesystem.{PublishFileAnswers, replace, publish_file, filesystem_replace_file_if_identity}
use cup.Filesystem.Publish.{FileOutcome, publish_file-outcome}
use cup.CatalogRefresh.{
  CatalogBody, PackageCatalog, CommitAnswers, Attempt, load_catalog, commit_remote_catalog,
  catalog_refresh_existing,
}
use cup.CatalogRefresh.Commit.{CommitOutcome, ErrorsAreErrors, commit-outcome}
use cup.CatalogRefresh.Turns.{none_yet, then_commit, commits, Advances, Commits-Advances}
use cup.CatalogRefresh.Attempts.{AttemptErrors}
use cup.CatalogRefresh.Refresh.{RefreshOutcome, refresh-outcome}

abbrev file_number : ℕ → SystemPathIdentity
file_number n = record {
  volume = 1;
  object = n;
  object_high = 0;
  kind = SystemPathKind.regular_file;
  valid = true;
}

-- A stand-in for the parser: a longer text is a later revision, and the text is its own digest.
abbrev by_length : Text → Result CatalogBody
by_length bytes = ok (record { revision = length bytes; update_url = codes "u"; digest = bytes })

abbrev config : Text
config = codes "/home/u/.cup/config"

abbrev catalog_path : Text
catalog_path = codes "/home/u/.cup/config/catalog.txt"

abbrev replacing : ℕ → MoveAnswer → PublishFileAnswers
replacing n move = record {
  temporary_created = cup_ok;
  written = cup_ok;
  made_executable = cup_ok;
  synced = cup_ok;
  closed = true;
  new_identity = file_number n;
  move = move;
}

publish_file-outcome_example :
    FileOutcome
      (replacing 2 (applied commit))
      replace
      (cup_ok, codes "format=2\n")
      (some (codes "old\n", file_number 1))
      (publish_file
        (replacing 2 (applied commit))
        replace
        false
        (cup_ok, codes "format=2\n")
        (some (codes "old\n", file_number 1))
        config
        (codes "catalog")
        catalog_path)
publish_file-outcome_example =
    publish_file-outcome (replacing 2 (applied commit)) replace false (cup_ok, codes "format=2\n")
      (some (codes "old\n", file_number 1)) config (codes "catalog") catalog_path

abbrev committing : ℕ → CommitAnswers
committing n = record {
  begin = cup_ok;
  read = cup_ok;
  config = ok config;
  path = ok catalog_path;
  publish = replacing n moved;
}

abbrev stored : Text → ℕ → StoredFile
stored bytes n = some (bytes, file_number n)

abbrev catalog_of : Text → ℕ → PackageCatalog
catalog_of bytes n = record {
  revision = length bytes;
  update_url = codes "u";
  digest = bytes;
  identity = file_number n;
}

committing_errors : (n : ℕ) → ErrorsAreErrors by_length (committing n)
committing_errors n = record {
  parse = λ bytes q. absurd (ground arith);
  config = λ q. absurd (ground arith);
  path = λ q. absurd (ground arith);
}

commit-outcome_example :
    CommitOutcome by_length
      (catalog_of (codes "old") 1)
      (catalog_of (codes "newer") 9)
      (codes "newer")
      (stored (codes "old") 1)
      (commit_remote_catalog by_length
        (committing 2)
        (catalog_of (codes "old") 1)
        (catalog_of (codes "newer") 9)
        (codes "newer")
        (stored (codes "old") 1))
commit-outcome_example =
    commit-outcome by_length (committing 2) (committing_errors 2) (catalog_of (codes "old") 1)
      (catalog_of (codes "newer") 9) (codes "newer") (stored (codes "old") 1)

-- The second refresh comes late: its snapshot is the one before the first commit.
abbrev two_turns : StoredFile
two_turns =
    (commit_remote_catalog by_length (committing 3) (catalog_of (codes "old") 1)
      (catalog_of (codes "newest") 8) (codes "newest")
      (commit_remote_catalog by_length (committing 2) (catalog_of (codes "old") 1)
        (catalog_of (codes "newer") 9) (codes "newer") (stored (codes "old") 1)).file).file

two_turns_run : two_turns ≡ stored (codes "newer") 2
unfolding commit_remote_catalog text_eq filesystem_replace_file_if_identity path_parent path_equal
two_turns_run = refl

Commits-Advances_example : Advances by_length (stored (codes "old") 1) two_turns 3
unfolding load_catalog
Commits-Advances_example =
    Commits-Advances by_length 3 (catalog_of (codes "old") 1, refl, refl)
      (then_commit
        (then_commit none_yet (
          commits (committing 2) (catalog_of (codes "old") 1) (catalog_of (codes "newer") 9)
            (codes "newer") (file_number 9) (committing_errors 2) refl))
        (commits (committing 3) (catalog_of (codes "old") 1) (catalog_of (codes "newest") 8)
          (codes "newest") (file_number 8) (committing_errors 3) refl))

-- The catalog moves on during the first attempt.
abbrev attempt : StoredFile → StoredFile → Attempt
attempt seen held = record {
  shared = cup_ok;
  runtime_available = true;
  before_read = cup_ok;
  before_file = seen;
  config_path = ok config;
  temporary_path = ok (codes "/home/u/.cup/config/catalog-refresh-1");
  download = cup_ok;
  downloaded = codes "newest";
  temporary_identity = file_number 9;
  remote_read = cup_ok;
  snapshot_read = ok true;
  commit_answers = committing 5;
  file = held;
}

abbrev world : ℕ → Attempt
world zero = attempt (stored (codes "old") 1) (stored (codes "newer") 2)
world (suc k) = attempt (stored (codes "newer") 2) (stored (codes "newer") 2)

world_errors : (k : ℕ) → AttemptErrors by_length (world k)
world_errors zero = record {
  commit_calls = committing_errors 5;
  config = λ q. absurd (ground arith);
  temporary_made = λ q. absurd (ground arith);
  snapshot = λ q. absurd (ground arith);
}
world_errors (suc k) = record {
  commit_calls = committing_errors 5;
  config = λ q. absurd (ground arith);
  temporary_made = λ q. absurd (ground arith);
  snapshot = λ q. absurd (ground arith);
}

refresh_run :
    catalog_refresh_existing by_length world (stored (codes "old") 1)
    ≡ (cup_ok, true, stored (codes "newest") 5)
unfolding catalog_refresh_existing text_eq filesystem_replace_file_if_identity path_parent
    path_equal
refresh_run = refl

refresh-outcome_example :
    RefreshOutcome by_length world 0 3
      (catalog_refresh_existing by_length world (stored (codes "old") 1))
refresh-outcome_example = refresh-outcome by_length world world_errors (stored (codes "old") 1)
