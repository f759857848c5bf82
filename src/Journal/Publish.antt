-- ===== src/Journal/Publish.antt =====
-- `runtime_journal_publish_at` and `runtime_journal_clear_if_identity` (src/runtime_journal.c) over
-- what stands at transaction.txt, which no other process changes meanwhile. `PublishAnswers` and
-- `ClearAnswers` say how each system call ends.
use cup.Base.{Bool, true, false, not, ◌&&◌, ◌||◌, Option, none, some, if◌then◌else◌, Text, is_nil}
use cup.Errors.{CupError, cup_ok, Result, ok, err, transaction, commit}
use cup.System.{
  SystemPathIdentity, StoredFile, is_regular, move_admitted, system_path_identity_equal, MoveAnswer,
  moved, applied, reverted, not_applied, file_after_move,
}

abbrev pub JournalFile : Type 0
JournalFile = StoredFile

pub record PublishAnswers : Type 0 where
  pub path_built : Bool
  pub temporary_created : Bool
  pub written : Bool
  pub synced : Bool
  pub closed : Bool
  pub source : Result SystemPathIdentity
  pub move : MoveAnswer
  pub destination_read : Bool

-- What `publish` answers, the published identity, and the file.
abbrev pub Published : Type 0
Published = CupError × Option SystemPathIdentity × JournalFile

-- The identity read back behind the move, if the read succeeds, where it is that of the source. The
-- one of a missing file is all zeros, and equal to none.
unfoldable pub read_back : Bool → JournalFile → SystemPathIdentity → Option SystemPathIdentity
read_back false found source = none
read_back true none source = none
read_back true (some (bytes, destination)) source =
    if system_path_identity_equal source destination then some destination else none

-- `found` is what stands at the path behind the move.
unfoldable pub finish_publish : MoveAnswer → Option SystemPathIdentity → JournalFile → Published
finish_publish (not_applied e) back found = (transaction, none, found)
finish_publish (applied e) back found = (commit, back, found)
finish_publish reverted back found = (commit, back, found)
finish_publish moved none found = (commit, none, found)
finish_publish moved (some destination) found = (cup_ok, some destination, found)

unfoldable pub is_replacement : Option SystemPathIdentity → Bool
is_replacement none = false
is_replacement (some expected) = true

-- The move and what follows it.
unfoldable pub move_journal :
    PublishAnswers → Option SystemPathIdentity → Text → SystemPathIdentity → JournalFile → Published
unfolding move_admitted read_back finish_publish is_replacement file_after_move
move_journal a expected bytes source file =
    if not (move_admitted expected file)
    then (transaction, none, file)
    else let found = file_after_move a.move (is_replacement expected) file (some (bytes, source)) in
      finish_publish a.move (read_back a.destination_read found source) found

unfoldable pub expected_is_usable : Option SystemPathIdentity → Bool
unfolding is_regular
expected_is_usable none = true
expected_is_usable (some expected) = is_regular expected

-- `bytes` is what the writer prints into the temporary file.
unfoldable pub runtime_journal_publish_at :
    PublishAnswers → Text → Text → Text → Option SystemPathIdentity → Text → JournalFile → Published
unfolding expected_is_usable is_regular move_journal
runtime_journal_publish_at a root temporary_directory temporary_prefix expected bytes file =
    if is_nil root
      || is_nil temporary_directory
      || is_nil temporary_prefix
      || not (expected_is_usable expected)
      || not a.path_built
      || not a.temporary_created
      || not (a.written && a.synced && a.closed)
    then (transaction, none, file)
    else elim a.source [
      | err _ ↦ (transaction, none, file)
      | ok source ↦
          if is_regular source
          then move_journal a expected bytes source file
          else (transaction, none, file)
    ]

pub record ClearAnswers : Type 0 where
  pub clear_path_built : Bool
  pub removed : Bool
  pub parent_synced : Bool

-- `system_remove_file_if_identity` removes only the file that is expected.
unfoldable pub runtime_journal_clear_if_identity :
    ClearAnswers → SystemPathIdentity → JournalFile → CupError × JournalFile
unfolding is_regular move_admitted
runtime_journal_clear_if_identity a expected file =
    if not (is_regular expected)
      || not a.clear_path_built
      || not a.removed
      || not (move_admitted (some expected) file)
    then (transaction, file)
    else if a.parent_synced
    then (cup_ok, none)
    else (commit, none)
