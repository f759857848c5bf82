-- ===== src/Tests/UninstallRuns.antt =====
-- Runs of src/uninstall_journal.c and of the publication of transaction.txt, and the theorems at them.
use cup.Text.{text_copy}
use cup.Journal.{runtime_journal_token_is_valid, runtime_journal_detect}
use cup.Path.{path_generated_temp_suffix, path_last_segment}
use cup.Base.{true, some, none, ◌≡◌, refl, Text, codes, text_eq}
use cup.Errors.{ok, commit}
use cup.System.{SystemPathIdentity, SystemPathKind, moved, applied, system_path_identity_equal}
use cup.Journal.Publish.{JournalFile, PublishAnswers, runtime_journal_publish_at}
use cup.Journal.Published.{PublishOutcome, publish-outcome}
use cup.Uninstall.{
  UninstallJournal, scheduled, detaching, failed, write_journal, journal_is_coherent,
  uninstall_journal_begin, uninstall_journal_set_at, uninstall_journal_load_at, name_matches_token,
  begin_journal, save_journal, save_journal_at,
}
use cup.Uninstall.RoundTrip.{load_at-write_journal}
use cup.Uninstall.Protocol.{start, next, begins, sets, Loads, Reachable-Loads}
use cup.Uninstall.SetAt.{SetOutcome, set_at-outcome}

abbrev first_file : SystemPathIdentity
first_file = record {
  volume = 1;
  object = 77;
  object_high = 0;
  kind = SystemPathKind.regular_file;
  valid = true;
}

abbrev second_file : SystemPathIdentity
second_file = record first_file { object = 78 }

abbrev all_fine : SystemPathIdentity → PublishAnswers
all_fine identity = record {
  path_built = true;
  temporary_created = true;
  written = true;
  synced = true;
  closed = true;
  source = ok identity;
  move = moved;
  destination_read = true;
}

abbrev root : Text
root = codes "/home/u/.cup"

abbrev started : UninstallJournal
started = record {
  temporary_name = codes ".cup-uninstall-a1B2";
  token = codes "a1B2";
  phase = scheduled;
  error_code = 0;
  file_identity = first_file;
}

started_coherent : journal_is_coherent started ≡ true
unfolding journal_is_coherent name_matches_token path_generated_temp_suffix text_eq
    runtime_journal_token_is_valid
started_coherent = refl

load_at-write_journal_example :
    uninstall_journal_load_at root (ok (some (write_journal started, second_file)))
    ≡ ok (some (record started { file_identity = second_file }))
load_at-write_journal_example = load_at-write_journal root started second_file refl started_coherent

abbrev detached : Text
detached = codes "/home/u/.cup-uninstall-a1B2"

abbrev after_begin : JournalFile
after_begin =
    (uninstall_journal_begin (all_fine first_file) true (ok root) detached (codes "a1B2") none).1

begin_works : after_begin ≡ some (write_journal started, first_file)
unfolding uninstall_journal_begin runtime_journal_token_is_valid name_matches_token
    path_last_segment path_generated_temp_suffix text_eq runtime_journal_detect begin_journal
    text_copy save_journal save_journal_at journal_is_coherent runtime_journal_publish_at
    system_path_identity_equal
begin_works = refl

Reachable-Loads_example :
    Loads root
      (uninstall_journal_set_at (all_fine second_file) root started detaching 0 after_begin).2
Reachable-Loads_example = Reachable-Loads root refl (
    next (next start (begins (all_fine first_file) true (ok root) detached (codes "a1B2")))
      (sets (all_fine second_file) root started detaching 0))

set_at-outcome_example :
    SetOutcome root started
      (record started { phase = failed; error_code = 6 })
      after_begin
      (uninstall_journal_set_at (all_fine second_file) root started failed 6 after_begin)
set_at-outcome_example = set_at-outcome (all_fine second_file) root started failed 6 after_begin

publish-outcome_example : PublishOutcome (some first_file) (codes "format=2\n") after_begin (
    runtime_journal_publish_at
      (record (all_fine second_file) { move = applied commit })
      root
      root
      (codes "t")
      (some first_file)
      (codes "format=2\n")
      after_begin)
publish-outcome_example =
    publish-outcome (some first_file) (codes "format=2\n") after_begin
      (record (all_fine second_file) { move = applied commit }) root root (codes "t")
