-- ===== src/Uninstall/SetAt.antt =====
-- What `uninstall_journal_set_at` (src/uninstall_journal.c) leaves in memory and in the file.
use cup.Base.{
  ℕ, true, false, not, ◌||◌, some, ◌≡◌, ◌≢◌, refl, inl, inr, arith, is_nil, Text, Bool-cases, codes,
}
use cup.Errors.{cup_ok, ok, commit}
use cup.System.{SystemPathIdentity}
use cup.Journal.Publish.{JournalFile, PublishAnswers, Published}
use cup.Journal.Published.{PublishOutcome, done, unconfirmed, withdrawn, unchanged, publish-outcome}
use cup.Uninstall.{
  UninstallPhase, UninstallJournal, journal_is_coherent, write_journal, expected_identity,
  published_journal, save_journal_at, keep_candidate, Saved, uninstall_journal_set_at,
  uninstall_journal_load_at,
}
use cup.Uninstall.RoundTrip.{load_at-write_journal}

-- With CUP_OK the caller's journal is the one that the file loads as; with CUP_ERR_COMMIT the file
-- loads as the new journal; with any other error nothing has changed.
pub data SetOutcome (root : Text) (before candidate : UninstallJournal) (file : JournalFile)
    (r : Saved) : Type 0 where
  set_done :
      (identity : SystemPathIdentity)
      → r.0 ≡ cup_ok
      → r.1 ≡ record candidate { file_identity = identity }
      → uninstall_journal_load_at root (ok r.2) ≡ ok (some r.1)
      → SetOutcome root before candidate file r
  set_unconfirmed :
      (identity : SystemPathIdentity)
      → r.0 ≡ commit
      → uninstall_journal_load_at root (ok r.2)
        ≡ ok (some (record candidate { file_identity = identity }))
      → SetOutcome root before candidate file r
  set_refused :
      r.0 ≢ cup_ok
      → r.0 ≢ commit
      → r.1 ≡ before
      → r.2 ≡ file
      → SetOutcome root before candidate file r

module _ (root : Text) (before candidate : UninstallJournal) (file : JournalFile)
    (known_root : is_nil root ≡ false) (coherent : journal_is_coherent candidate ≡ true)
    (on_disk : candidate.file_identity.valid ≡ true) where
  published-outcome :
      (r : Published)
      → PublishOutcome (expected_identity candidate) (write_journal candidate) file r
      → SetOutcome root before candidate file
          (keep_candidate before (r.0, published_journal candidate r.1, r.2))
  unfolding keep_candidate published_journal expected_identity
  published-outcome r (done identity g m e) = rw e (
      set_done identity refl refl
        (load_at-write_journal root candidate identity known_root coherent))
  published-outcome r (unconfirmed identity known g m k e) = rw e (
      set_unconfirmed identity refl
        (load_at-write_journal root candidate identity known_root coherent))
  published-outcome r (withdrawn expects_none m e) = absurd (ground (arith, on_disk, expects_none))
  published-outcome r (unchanged e) =
      rw e (set_refused (λ q. ground arith) (λ q. ground arith) refl refl)

  save-outcome :
      (a : PublishAnswers)
      → SetOutcome root before candidate file
          (keep_candidate before (save_journal_at a root candidate file))
  unfolding save_journal_at
  save-outcome a =
      rw (known_root, coherent)
        (published-outcome _ (
          publish-outcome (expected_identity candidate) (write_journal candidate) file a root root
            (codes "uninstall-transaction")))

-- With CUP_OK, uninstall_journal_set_at leaves the caller the journal of the new phase and
-- error, and the file loads as exactly that journal; with CUP_ERR_COMMIT the file loads as the
-- journal of the new phase and error; with any other error the journal and the file are as they
-- were.
pub set_at-outcome :
    (a : PublishAnswers) (root : Text) (j : UninstallJournal) (phase : UninstallPhase) (code : ℕ)
    (file : JournalFile)
    → SetOutcome root j
        (record j { phase = phase; error_code = code })
        file
        (uninstall_journal_set_at a root j phase code file)
unfolding uninstall_journal_set_at
set_at-outcome a root j phase code file =
    let candidate : UninstallJournal = record j { phase = phase; error_code = code } in
    elim (Bool-cases (is_nil root || not j.file_identity.valid)) [
      | inl refused ↦ rw refused (set_refused (λ q. ground arith) (λ q. ground arith) refl refl)
      | inr fine ↦ elim (Bool-cases (not (journal_is_coherent candidate))) [
        | inl odd ↦ rw (fine, odd) (set_refused (λ q. ground arith) (λ q. ground arith) refl refl)
        | inr good ↦
            rw (fine, good)
              (save-outcome root j candidate file (ground arith) (ground arith)
                (ground (arith, fine)) a)
      ]
    ]
