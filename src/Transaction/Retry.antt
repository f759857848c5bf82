-- ===== src/Transaction/Retry.antt =====
-- Recoveries in a row, on the disk that each one leaves (src/package_transaction.c).
use mathlib.Core.Path.{subst}
use cup.Base.{
  ◌∙◌, Bool, true, false, List, [], ◌∷◌, ◌≡◌, refl, ◌⊎◌, inl, inr, arith, Bool-cases, Text,
}
use cup.Errors.{CupError, cup_ok, ok}
use cup.Package.{PackageIdentity, package_identity_validate}
use cup.Path.{max_path_len}
use cup.State.{CupState, state_find_installed, state_validate}
use cup.System.{regular_file}
use cup.Transaction.{
  PackageTransaction, package_operation_is_valid, package_transaction_get_staging_path,
}
use cup.System.{moved}
use cup.Transaction.Recover.{
  PathNode, file, folder, removed, judge, Disk, Answers, inspect_package_validity,
  recover_installed_package, recover_absent_package, clear_journal, then_clear, recover_paths,
  inspect_and_recover, package_transaction_recover, is_some, journal_is_regular, is_ok,
  move_staged_package, remove_staged_path, remove_installed_path, preserve_invalid_install,
  after_preserve, after_removal, move_after_preserve, exists,
}
use cup.Transaction.Safety.{Plain, Holds, installed-Kept, absent-journal}
use cup.Transaction.Outcome.{Settled, recover-Outcome, recover-settles, recover_ok}

-- Every system call of the run succeeds.
pub record IsCooperative {T : Type 0} (a : Answers T) : Type 0 where
  pub kinds : (a.install_kind_read ≡ true) × (a.staged_kind_read ≡ true)
  pub parent : a.parent_ready ≡ true
  pub move : a.move_staged ≡ moved
  pub removals : (a.remove_installed ≡ removed) × (a.remove_staged ≡ removed)
  pub identity : (a.identity_read ≡ cup_ok) × (a.identity_valid ≡ true)
  pub recovery : (a.recovery_dir ≡ cup_ok) × (a.recovery_path ≡ cup_ok)
  pub aside : a.move_aside ≡ moved
  pub journal :
      (a.journal_path_built ≡ true) × (a.journal_removed ≡ true) × (a.journal_synced ≡ true)

-- The transaction was loaded from a journal, the state is valid, and the paths can be built.
pub record CanStart {T : Type 0} (a : Answers T) (t : PackageTransaction) (state : CupState)
    : Type 0 where
  pub operation : package_operation_is_valid t.operation ≡ true
  pub loaded : (t.file_identity.valid ≡ true) × (t.file_identity.kind ≡ regular_file)
  pub state_valid : state_validate state ≡ cup_ok
  pub identity_valid : package_identity_validate t.identity ≡ ok tt
  pub install_path : Text
  pub install_path_built : a.install_path ≡ ok install_path
  pub staged_path : Text
  pub staged_path_built :
      package_transaction_get_staging_path a.staging_dir t max_path_len ≡ ok staged_path

module _ {T : Type 0} (a : Answers T) (good : IsCooperative a) where
  clear-ok : (d : Disk T) → d.journal ≡ true → (clear_journal a d).0 ≡ cup_ok
  unfolding clear_journal
  clear-ok d h = ground (arith, good.journal, h)

  removed-ok : (d : Disk T) → (remove_staged_path a d).0 ≡ cup_ok
  unfolding remove_staged_path
  removed-ok d = ground (arith, good.removals)

  removed_installed-ok : (d : Disk T) → (remove_installed_path a d).0 ≡ cup_ok
  unfolding remove_installed_path
  removed_installed-ok d = ground (arith, good.removals)

  moved-ok : (d : Disk T) → (move_staged_package a d).0 ≡ cup_ok
  unfolding move_staged_package
  moved-ok d = ground (arith, good.parent, good.move)

  preserved-ok :
      (node : PathNode T) (d : Disk T)
      → d.installed ≡ node
      → Plain node
      → exists node ≡ true
      → (preserve_invalid_install a d).0 ≡ cup_ok
  unfolding preserve_invalid_install
  preserved-ok file d e h x = ground (arith, good.identity, good.recovery, good.aside)
  preserved-ok (folder t) d e h x = ground (arith, good.identity, good.recovery, good.aside)
  preserved-ok _ d e h x = absurd (ground arith)

  then_clear-ok :
      (r : CupError × Disk T) → r.0 ≡ cup_ok → r.1.journal ≡ true → (then_clear a r).0 ≡ cup_ok
  unfolding then_clear
  then_clear-ok (cup_ok, d) h j = clear-ok d j
  then_clear-ok (_, d) h j = h

  after_preserve-ok : (r : CupError × Disk T) → r.0 ≡ cup_ok → (after_preserve a r).0 ≡ cup_ok
  unfolding after_preserve move_after_preserve
  after_preserve-ok (cup_ok, d) h = ground (arith, moved-ok d)
  after_preserve-ok (_, d) h = h

  after_removal-ok : (r : CupError × Disk T) → r.0 ≡ cup_ok → (after_removal a r).0 ≡ cup_ok
  unfolding after_removal
  after_removal-ok (cup_ok, d) h = removed-ok d
  after_removal-ok (_, d) h = h

  installed-ok :
      (d : Disk T) (install_valid staged_valid : Bool)
      → Plain d.installed
      → (install_valid ≡ true) ⊎ (staged_valid ≡ true)
      → (recover_installed_package a install_valid staged_valid d).0 ≡ cup_ok
  unfolding recover_installed_package
  installed-ok d true s p h = removed-ok d
  installed-ok d false true p h = elim (Bool-cases (exists d.installed)) [
    | inl there ↦
        rw there (
          after_preserve-ok (preserve_invalid_install a d)
            (preserved-ok d.installed d refl p there))
    | inr missing ↦ rw missing (moved-ok d)
  ]
  installed-ok d false false p h = absurd (ground arith)

module _ {T : Type 0} (integrity : T → PackageIdentity → CupError) where
  -- What recovery needs: if the state holds the identity, a valid package at one of the paths, and
  -- nothing at the canonical path that it may not move.
  abbrev pub Recoverable : PackageIdentity → Bool → Disk T → Type 0
  Recoverable id true d = Holds integrity id d × Plain d.installed
  Recoverable id false d = Unit

  -- A recovery starts only from a journal that is there: `runtime_recover_pending` has detected and
  -- loaded it.
  abbrev pub recover_pending : Bool → Answers T → PackageTransaction → CupState → Disk T → Disk T
  recover_pending false a t state d = d
  recover_pending true a t state d = (package_transaction_recover integrity a t state d).1

  -- The disk after a row of recoveries, each with its own answers.
  abbrev pub attempts : PackageTransaction → CupState → List (Answers T) → Disk T → Disk T
  attempts t state [] d = d
  attempts t state (a ∷ as') d = attempts t state as' (recover_pending d.journal a t state d)

  -- Between recoveries: there is something left to do, or all is done.
  data Between (id : PackageIdentity) (b : Bool) (d : Disk T) : Type 0 where
    pending : d.journal ≡ true → Recoverable id b d → Between id b d
    finished : d.journal ≡ false → Settled integrity id b d → Between id b d

  module _ (t : PackageTransaction) (state : CupState) where
    keep :
        (b : Bool) (a : Answers T) (d : Disk T)
        → is_some integrity (state_find_installed state t.identity) ≡ b
        → Recoverable t.identity b d
        → Recoverable t.identity b (package_transaction_recover integrity a t state d).1
    keep false a d e h = tt
    keep true a d e h =
        let o = recover-Outcome integrity a t state d in (o.keeps e h.0, o.plain e h.1)

    one-Between :
        (b c : Bool) (a : Answers T) (d : Disk T)
        → is_some integrity (state_find_installed state t.identity) ≡ b
        → d.journal ≡ c
        → Between t.identity b d
        → Between t.identity b (recover_pending c a t state d)
    one-Between b false a d e j h = h
    one-Between b true a d e j (finished gone s) = absurd (ground (arith, j, gone))
    one-Between b true a d e j (pending there r) =
        elim (Bool-cases (package_transaction_recover integrity a t state d).1.journal) [
          | inl kept ↦ pending kept (keep b a d e r)
          | inr gone ↦ finished gone (
              subst
                (λ k.
                  Settled integrity t.identity k
                    (package_transaction_recover integrity a t state d).1)
                e (recover-settles integrity a t state d j gone))
        ]

    attempts-Between :
        (runs : List (Answers T)) (b : Bool) (d : Disk T)
        → is_some integrity (state_find_installed state t.identity) ≡ b
        → Between t.identity b d
        → Between t.identity b (attempts t state runs d)
    attempts-Between [] b d e h = h
    attempts-Between (a ∷ runs) b d e h =
        attempts-Between runs b (recover_pending d.journal a t state d) e
          (one-Between b d.journal a d e refl h)

    decided :
        (node : PathNode T)
        → ((tree : T) → (v : Bool) × (judge integrity (integrity tree t.identity) ≡ ok v))
        → (v : Bool) × (inspect_package_validity integrity node t.identity ≡ ok v)
    unfolding inspect_package_validity
    decided (folder tree) total = total tree
    decided _ total = (false, refl)

    cooperative-ok :
        (b : Bool) (a : Answers T) (d : Disk T)
        → IsCooperative a
        → ((tree : T) → (v : Bool) × (judge integrity (integrity tree t.identity) ≡ ok v))
        → d.journal ≡ true
        → Recoverable t.identity b d
        → (inspect_and_recover integrity a b t.identity d).0 ≡ cup_ok
    unfolding inspect_and_recover recover_paths recover_absent_package
    cooperative-ok false a d good total j h =
        then_clear-ok a good (recover_absent_package a d)
          (after_removal-ok a good (remove_installed_path a d) (removed_installed-ok a good d))
          (absent-journal a d ∙ j)
    cooperative-ok true a d good total j (holds, plain) =
        let (iv, hi) = decided d.installed total in
        let (sv, hs) = decided d.staged total in
        rw (hi, hs, inspect_and_recover)
          (then_clear-ok a good (recover_installed_package a iv sv d)
            (installed-ok a good d iv sv plain (one_valid iv sv d holds hi hs))
            ((installed-Kept integrity t.identity a d iv sv hi hs).journal ∙ j))
      where
        one_valid :
            (iv sv : Bool) (d : Disk T)
            → Holds integrity t.identity d
            → inspect_package_validity integrity d.installed t.identity ≡ ok iv
            → inspect_package_validity integrity d.staged t.identity ≡ ok sv
            → (iv ≡ true) ⊎ (sv ≡ true)
        one_valid iv sv d (inl h) hi hs = inl (cc)
        one_valid iv sv d (inr h) hi hs = inr (cc)

    started :
        (a : Answers T) (d : Disk T)
        → IsCooperative a
        → CanStart a t state
        → package_transaction_recover integrity a t state d
          ≡ inspect_and_recover integrity a
              (is_some integrity (state_find_installed state t.identity))
              t.identity
              d
    unfolding package_transaction_recover journal_is_regular is_ok
    started a d good can = ground (
      arith, good.kinds, can.operation, can.loaded, can.state_valid, can.identity_valid,
      can.install_path_built, can.staged_path_built,
    )

  -- All is done, without a recovery or by it.
  pub data IsFinished (a : Answers T) (t : PackageTransaction) (state : CupState) (d : Disk T)
      : Type 0 where
    already :
        d.journal ≡ false
        → Settled integrity t.identity (is_some integrity (state_find_installed state t.identity)) d
        → IsFinished a t state d
    by_this :
        d.journal ≡ true
        → (package_transaction_recover integrity a t state d).0 ≡ cup_ok
        → (package_transaction_recover integrity a t state d).1.journal ≡ false
        → Settled integrity t.identity
            (is_some integrity (state_find_installed state t.identity))
            (package_transaction_recover integrity a t state d).1
        → IsFinished a t state d

  -- From a recoverable disk with its journal, after any list of recoveries, whatever their
  -- system calls answered and each started only where the journal is still there: either the
  -- journal is gone and the disk is as the state decides, or it is there and one more recovery
  -- whose calls all succeed answers CUP_OK, after which the journal is gone and the disk is as
  -- the state decides. The last recovery passes its entry checks, and the integrity check
  -- decides every tree.
  pub recover_eventually :
      (t : PackageTransaction) (state : CupState) (runs : List (Answers T)) (a : Answers T)
      (d : Disk T)
      → d.journal ≡ true
      → Recoverable t.identity (is_some integrity (state_find_installed state t.identity)) d
      → IsCooperative a
      → CanStart a t state
      → ((tree : T) → (v : Bool) × (judge integrity (integrity tree t.identity) ≡ ok v))
      → IsFinished a t state (attempts t state runs d)
  recover_eventually t state runs a d j h good can total =
      elim (attempts-Between t state runs _ d refl (pending j h)) [
        | finished gone settled ↦ already gone settled
        | pending there able ↦
            (let e = attempts t state runs d in
              let done : (package_transaction_recover integrity a t state e).0 ≡ cup_ok =
                rw (started t state a e good can)
                  (cooperative-ok t state _ a e good total there able) in
              let (gone, settled) = recover_ok integrity a t state e there done in
              by_this there done gone settled)
      ]
