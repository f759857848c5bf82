-- ===== src/Uninstall/Protocol.antt =====
-- The calls of src/uninstall_journal.c in any order, over what stands at transaction.txt.
use cup.Base.{ℕ, Bool, true, false, none, some, ◌≡◌, refl, ◌⊎◌, inl, inr, arith, is_nil, Text}
use cup.Errors.{Result, ok}
use cup.System.{SystemPathKind}
use cup.Journal.{runtime_journal_parse_at}
use cup.Journal.Publish.{JournalFile, PublishAnswers, ClearAnswers}
use cup.Uninstall.{
  UninstallPhase, UninstallJournal, journal_is_coherent, uninstall_journal_begin,
  uninstall_journal_set_at, uninstall_journal_recover, uninstall_journal_load_at,
}
use cup.Uninstall.RoundTrip.{load_at-write_journal}
use cup.Uninstall.Calls.{IsWhole, no_file, written, begin-IsWhole, set_at-IsWhole, recover-IsWhole}

-- One call, whatever its arguments and whatever the system answers.
pub data UninstallStep (file : JournalFile) : JournalFile → Type 0 where
  begins :
      (a : PublishAnswers) (read_ok : Bool) (root : Result Text) (path token : Text)
      → UninstallStep file (uninstall_journal_begin a read_ok root path token file).1
  sets :
      (a : PublishAnswers) (root : Text) (j : UninstallJournal) (phase : UninstallPhase) (code : ℕ)
      → UninstallStep file (uninstall_journal_set_at a root j phase code file).2
  recovers :
      (a : ClearAnswers) (root : Result Text) (kind : Result SystemPathKind) (j : UninstallJournal)
      → UninstallStep file (uninstall_journal_recover a root kind j file).1

-- The files that calls lead to, from no file.
pub data Reachable : JournalFile → Type 0 where
  start : Reachable none
  next :
      {before after : JournalFile} → Reachable before → UninstallStep before after → Reachable after

step-IsWhole :
    {before after : JournalFile} → UninstallStep before after → IsWhole before → IsWhole after
step-IsWhole {before} (begins a read_ok root path token) w =
    begin-IsWhole a read_ok root path token before w
step-IsWhole {before} (sets a root j phase code) w = set_at-IsWhole a root j phase code before w
step-IsWhole {before} (recovers a root kind j) w = recover-IsWhole a root kind j before w

reachable-IsWhole : {file : JournalFile} → Reachable file → IsWhole file
reachable-IsWhole start = no_file refl
reachable-IsWhole (next r s) = step-IsWhole s (reachable-IsWhole r)

-- What a load of the file answers.
abbrev pub Loads : Text → JournalFile → Type 0
Loads root file =
    ((file ≡ none) × (uninstall_journal_load_at root (ok file) ≡ ok none))
    ⊎ ((j : UninstallJournal) × (uninstall_journal_load_at root (ok file) ≡ ok (some j))
        × (journal_is_coherent j ≡ true))

whole-Loads :
    (root : Text) (file : JournalFile) → is_nil root ≡ false → IsWhole file → Loads root file
unfolding uninstall_journal_load_at runtime_journal_parse_at journal_is_coherent
whole-Loads root file r (no_file e) = inl (e, rw e (ground (arith, r)))
whole-Loads root file r (written j identity c e) =
    inr (record j { file_identity = identity }, rw e (load_at-write_journal root j identity r c), c)

-- From no transaction.txt, after any sequence of uninstall_journal_begin,
-- uninstall_journal_set_at and uninstall_journal_recover, whatever their arguments and whatever
-- the system calls answer, the file is missing or uninstall_journal_load_at loads a coherent
-- journal from it, under a root that is not empty.
pub Reachable-Loads :
    (root : Text) {file : JournalFile} → is_nil root ≡ false → Reachable file → Loads root file
Reachable-Loads root {file} r reach = whole-Loads root file r (reachable-IsWhole reach)
