-- ===== src/Uninstall/Calls.antt =====
-- What each call of src/uninstall_journal.c leaves at transaction.txt.
use cup.Base.{
  ℕ, Bool, true, not, ◌||◌, Option, none, some, ◌≡◌, refl, ◌⊎◌, inl, inr, arith, is_nil, Text,
  Bool-cases, if◌then◌else◌, codes,
}
use cup.Errors.{cup_ok, Result, ok, err, transaction, commit}
use cup.System.{SystemPathIdentity, SystemPathKind}
use cup.Journal.{RuntimeJournalKind, runtime_journal_detect, runtime_journal_token_is_valid}
use cup.System.{is_regular, move_admitted}
use cup.Journal.Publish.{
  JournalFile, PublishAnswers, ClearAnswers, Published, runtime_journal_clear_if_identity,
}
use cup.Journal.Published.{PublishOutcome, done, unconfirmed, withdrawn, unchanged, publish-outcome}
use cup.Path.{path_last_segment}
use cup.Uninstall.{
  UninstallPhase, UninstallJournal, journal_is_coherent, write_journal, expected_identity,
  save_journal_at, save_journal, begin_journal, begin_free, begin_detected, clear_detached,
  name_matches_token, uninstall_journal_begin, keep_candidate, Saved, uninstall_journal_set_at,
  uninstall_journal_recover,
}

-- No file, or the whole text of a coherent journal.
pub data IsWhole : JournalFile → Type 0 where
  no_file : {file : JournalFile} → file ≡ none → IsWhole file
  written :
      {file : JournalFile} (j : UninstallJournal) (identity : SystemPathIdentity)
      → journal_is_coherent j ≡ true
      → file ≡ some (write_journal j, identity)
      → IsWhole file

-- What a publication makes of a whole file.
outcome-IsWhole :
    (expected : Option SystemPathIdentity) (j : UninstallJournal) (file : JournalFile)
    (r : Published)
    → journal_is_coherent j ≡ true
    → PublishOutcome expected (write_journal j) file r
    → IsWhole file
    → IsWhole r.2
outcome-IsWhole expected j file r c (done identity g m e) w = written j identity c (rw e refl)
outcome-IsWhole expected j file r c (unconfirmed identity known g m k e) w =
    written j identity c (rw e refl)
outcome-IsWhole expected j file r c (withdrawn x y e) w = no_file (rw e refl)
outcome-IsWhole expected j file r c (unchanged e) w = rw e w

save_journal_at-IsWhole :
    (a : PublishAnswers) (root : Text) (j : UninstallJournal) (file : JournalFile)
    → IsWhole file
    → IsWhole (save_journal_at a root j file).2
unfolding save_journal_at
save_journal_at-IsWhole a root j file w =
    elim (Bool-cases (is_nil root || not (journal_is_coherent j))) [
      | inl refused ↦ rw refused w
      | inr fine ↦ rw fine (
          outcome-IsWhole (expected_identity j) j file _ (ground arith)
            (publish-outcome (expected_identity j) (write_journal j) file a root root
              (codes "uninstall-transaction"))
            w)
    ]

save_journal-IsWhole :
    (a : PublishAnswers) (root : Result Text) (j : UninstallJournal) (file : JournalFile)
    → IsWhole file
    → IsWhole (save_journal a root j file).2
unfolding save_journal
save_journal-IsWhole a (err e) j file w = w
save_journal-IsWhole a (ok root) j file w = save_journal_at-IsWhole a root j file w

begin_free-IsWhole :
    (a : PublishAnswers) (root : Result Text) (name token : Text) (file : JournalFile)
    (r : Result UninstallJournal)
    → begin_journal name token ≡ r
    → IsWhole file
    → IsWhole (begin_free a root name token file).1
unfolding begin_free
begin_free-IsWhole a root name token file (err e) h w = rw (begin_free, h) w
begin_free-IsWhole a root name token file (ok j) h w =
    rw (begin_free, h) (save_journal-IsWhole a root j file w)

detected-IsWhole :
    (a : PublishAnswers) (root : Result Text) (name token : Text) (file : JournalFile)
    (kind : Result RuntimeJournalKind)
    → IsWhole file
    → IsWhole (begin_detected a root name token file kind).1
unfolding begin_detected
detected-IsWhole a root name token file (ok RuntimeJournalKind.missing) w =
    begin_free-IsWhole a root name token file (begin_journal name token) refl w
detected-IsWhole a root name token file (ok RuntimeJournalKind.owned_by_package) w = w
detected-IsWhole a root name token file (ok RuntimeJournalKind.generation) w = w
detected-IsWhole a root name token file (ok RuntimeJournalKind.uninstall) w = w
detected-IsWhole a root name token file (err e) w = w

pub begin-IsWhole :
    (a : PublishAnswers) (read_ok : Bool) (root : Result Text) (path token : Text)
    (file : JournalFile)
    → IsWhole file
    → IsWhole (uninstall_journal_begin a read_ok root path token file).1
unfolding uninstall_journal_begin
begin-IsWhole a read_ok root path token file w =
    elim (Bool-cases (
      is_nil path
      || not (runtime_journal_token_is_valid token)
      || not (name_matches_token (path_last_segment path) token))) [
        | inl refused ↦ rw refused w
        | inr fine ↦ rw fine (
            detected-IsWhole a root (path_last_segment path) token file
              (runtime_journal_detect root (if read_ok then ok file else err transaction)) w)
      ]

keep_candidate-file : (j : UninstallJournal) (r : Saved) → (keep_candidate j r).2 ≡ r.2
unfolding keep_candidate
keep_candidate-file j (cup_ok, candidate, file) = refl
keep_candidate-file j (commit, candidate, file) = refl
keep_candidate-file j (_, candidate, file) = refl

pub set_at-IsWhole :
    (a : PublishAnswers) (root : Text) (j : UninstallJournal) (phase : UninstallPhase) (code : ℕ)
    (file : JournalFile)
    → IsWhole file
    → IsWhole (uninstall_journal_set_at a root j phase code file).2
unfolding uninstall_journal_set_at
set_at-IsWhole a root j phase code file w =
    let candidate : UninstallJournal = record j { phase = phase; error_code = code } in
    elim (Bool-cases (is_nil root || not j.file_identity.valid)) [
      | inl refused ↦ rw refused w
      | inr fine ↦ elim (Bool-cases (not (journal_is_coherent candidate))) [
        | inl odd ↦ rw (fine, odd) w
        | inr good ↦
            rw (fine, good, keep_candidate-file j (save_journal_at a root candidate file))
              (save_journal_at-IsWhole a root candidate file w)
      ]
    ]

-- A call that clears leaves the file, or none.
clear-left :
    (a : ClearAnswers) (expected : SystemPathIdentity) (file : JournalFile)
    → ((runtime_journal_clear_if_identity a expected file).1 ≡ file)
      ⊎ ((runtime_journal_clear_if_identity a expected file).1 ≡ none)
unfolding runtime_journal_clear_if_identity
clear-left a expected file =
    elim (Bool-cases (
      not (is_regular expected)
      || not a.clear_path_built
      || not a.removed
      || not (move_admitted (some expected) file))) [
        | inl refused ↦ inl (rw refused refl)
        | inr fine ↦ elim (Bool-cases a.parent_synced) [
          | inl synced ↦ inr (rw (fine, synced) refl)
          | inr unsynced ↦ inr (rw (fine, unsynced) refl)
        ]
      ]

left-IsWhole :
    {file after : JournalFile} → (after ≡ file) ⊎ (after ≡ none) → IsWhole file → IsWhole after
left-IsWhole (inl e) w = rw e w
left-IsWhole (inr e) w = no_file e

clear_detached-IsWhole :
    (a : ClearAnswers) (path : Result Text) (kind : Result SystemPathKind)
    (expected : SystemPathIdentity) (file : JournalFile)
    → IsWhole file
    → IsWhole (clear_detached a path kind expected file).1
unfolding clear_detached
clear_detached-IsWhole a (ok path) (ok SystemPathKind.missing) expected file w =
    left-IsWhole (clear-left a expected file) w
clear_detached-IsWhole a (ok path) (ok SystemPathKind.regular_file) expected file w = w
clear_detached-IsWhole a (ok path) (ok SystemPathKind.directory) expected file w = w
clear_detached-IsWhole a (ok path) (ok SystemPathKind.link) expected file w = w
clear_detached-IsWhole a (ok path) (ok SystemPathKind.other) expected file w = w
clear_detached-IsWhole a (ok path) (err e) expected file w = w
clear_detached-IsWhole a (err e) kind expected file w = w

pub recover-IsWhole :
    (a : ClearAnswers) (root : Result Text) (kind : Result SystemPathKind) (j : UninstallJournal)
    (file : JournalFile)
    → IsWhole file
    → IsWhole (uninstall_journal_recover a root kind j file).1
unfolding uninstall_journal_recover
recover-IsWhole a root kind j file w = elim (Bool-cases (not (journal_is_coherent j))) [
  | inl refused ↦ rw refused w
  | inr fine ↦ rw fine (clear_detached-IsWhole a _ kind j.file_identity file w)
]
