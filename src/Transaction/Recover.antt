-- ===== src/Transaction/Recover.antt =====
-- Recovery of an interrupted package operation (src/package_transaction.c). The file system is the
-- two paths that the transaction names, the objects set aside, and the journal; `Answers` says how
-- each system call ends. `T` stands for the contents of a directory, and `integrity` for
-- `package_validate_integrity` on them.
use cup.Base.{
  ℕ, Bool, true, false, not, ◌&&◌, ◌||◌, Option, none, some, List, ◌∷◌, if◌then◌else◌, Text,
}
use cup.Errors.{
  CupError, cup_ok, Result, ok, err, filesystem, transaction, validation, commit, rollback,
}
use cup.Path.{max_path_len}
use cup.Package.{PackageIdentity, package_identity_validate}
use cup.State.{CupState, state_validate, state_find_installed}
use cup.System.{
  SystemPathKind, regular_file, directory, link, other, SystemPathIdentity, MoveAnswer, moved,
  applied, reverted, not_applied,
}
use cup.Transaction.{
  PackageTransaction, package_operation_is_valid, package_transaction_get_staging_path,
}

-- What stands at a path.
pub data PathNode (T : Type 0) : Type 0 where
  absent : PathNode T
  file : PathNode T
  folder : T → PathNode T
  symlink : PathNode T
  special : PathNode T

unfoldable pub node_kind : {T : Type 0} → PathNode T → SystemPathKind
node_kind absent = SystemPathKind.missing
node_kind file = regular_file
node_kind (folder t) = directory
node_kind symlink = link
node_kind special = other

pub record Disk (T : Type 0) : Type 0 where
  pub installed : PathNode T
  pub staged : PathNode T
  pub set_aside : List (PathNode T)
  pub journal : Bool

-- A recursive removal that fails leaves something behind.
pub data RemovalAnswer (T : Type 0) : Type 0 where
  removed : RemovalAnswer T
  left_behind : PathNode T → RemovalAnswer T

pub record Answers (T : Type 0) : Type 0 where
  pub install_path : Result Text
  pub staging_dir : Result Text
  pub install_kind_read : Bool
  pub staged_kind_read : Bool
  pub parent_ready : Bool
  pub move_staged : MoveAnswer
  pub remove_installed : RemovalAnswer T
  pub remove_staged : RemovalAnswer T
  pub identity_read : CupError
  pub identity_valid : Bool
  pub recovery_dir : CupError
  pub recovery_path : CupError
  pub move_aside : MoveAnswer
  pub recovery_dir_removed : Bool
  pub journal_path_built : Bool
  pub journal_removed : Bool
  pub journal_synced : Bool

module _ {T : Type 0} (integrity : T → PackageIdentity → CupError) where
  -- `CUP_ERR_VALIDATION` means an invalid package, any other error that nothing is known.
  unfoldable pub judge : CupError → Result Bool
  judge cup_ok = ok true
  judge validation = ok false
  judge e = err transaction

  unfoldable pub inspect_package_validity : PathNode T → PackageIdentity → Result Bool
  unfolding judge
  inspect_package_validity (folder t) identity = judge (integrity t identity)
  inspect_package_validity _ identity = ok false

abbrev pub exists : {T : Type 0} → PathNode T → Bool
exists absent = false
exists _ = true

module _ {T : Type 0} (a : Answers T) where
  unfoldable pub finish_move : MoveAnswer → Disk T → CupError × Disk T
  finish_move moved d = (cup_ok, record d { installed = d.staged; staged = absent })
  finish_move (applied e) d = (commit, record d { installed = d.staged; staged = absent })
  finish_move reverted d = (commit, d)
  finish_move (not_applied e) d = (transaction, d)

  unfoldable pub move_staged_package : Disk T → CupError × Disk T
  unfolding finish_move
  move_staged_package d = if not a.parent_ready then (commit, d) else finish_move a.move_staged d

  unfoldable pub remove_installed_path : Disk T → CupError × Disk T
  remove_installed_path d =
      if not (exists d.installed) then (cup_ok, d) else elim a.remove_installed [
        | removed ↦ (cup_ok, record d { installed = absent })
        | left_behind node ↦ (commit, record d { installed = node })
      ]

  unfoldable pub remove_staged_path : Disk T → CupError × Disk T
  remove_staged_path d = if not (exists d.staged) then (cup_ok, d) else elim a.remove_staged [
    | removed ↦ (cup_ok, record d { staged = absent })
    | left_behind node ↦ (commit, record d { staged = node })
  ]

  -- A call that failed does not answer CUP_OK.
  unfoldable pub failure : CupError → CupError
  failure cup_ok = filesystem
  failure e = e

  -- After a step that failed with `e`, the recovery directory goes, or the failure is a rollback.
  unfoldable pub after_cleanup : CupError → CupError
  unfolding failure
  after_cleanup e = if a.recovery_dir_removed then failure e else rollback

  unfoldable pub finish_aside : MoveAnswer → Disk T → CupError × Disk T
  finish_aside moved d =
      (cup_ok, record d { installed = absent; set_aside = d.installed ∷ d.set_aside })
  finish_aside (applied e) d =
      (commit, record d { installed = absent; set_aside = d.installed ∷ d.set_aside })
  finish_aside reverted d = (commit, d)
  finish_aside (not_applied e) d = (after_cleanup e, d)

  unfoldable pub movable : PathNode T → Bool
  movable file = true
  movable (folder t) = true
  movable _ = false

  unfoldable pub preserve_invalid_install : Disk T → CupError × Disk T
  unfolding finish_aside after_cleanup movable
  preserve_invalid_install d = elim a.identity_read [
    | cup_ok ↦
        if not a.identity_valid || not (movable d.installed)
        then (transaction, d)
        else elim a.recovery_dir [
          | cup_ok ↦ elim a.recovery_path [
            | cup_ok ↦ finish_aside a.move_aside d
            | e ↦ (after_cleanup e, d)
          ]
          | e ↦ (e, d)
        ]
    | e ↦ (e, d)
  ]

  -- The object set aside is progress already, so a move that was not applied is a commit error.
  unfoldable pub move_after_preserve : CupError × Disk T → CupError × Disk T
  move_after_preserve (transaction, d) = (commit, d)
  move_after_preserve r = r

  unfoldable pub after_preserve : CupError × Disk T → CupError × Disk T
  unfolding move_after_preserve move_staged_package
  after_preserve (cup_ok, d) = move_after_preserve (move_staged_package d)
  after_preserve r = r

  unfoldable pub recover_installed_package : Bool → Bool → Disk T → CupError × Disk T
  unfolding after_preserve remove_staged_path preserve_invalid_install move_staged_package
  recover_installed_package install_valid staged_valid d =
      if install_valid
      then remove_staged_path d
      else if not staged_valid
      then (transaction, d)
      else if exists d.installed
      then after_preserve (preserve_invalid_install d)
      else move_staged_package d

  unfoldable pub after_removal : CupError × Disk T → CupError × Disk T
  unfolding remove_staged_path
  after_removal (cup_ok, d) = remove_staged_path d
  after_removal r = r

  unfoldable pub recover_absent_package : Disk T → CupError × Disk T
  unfolding after_removal remove_installed_path
  recover_absent_package d = after_removal (remove_installed_path d)

  -- `runtime_journal_clear_if_identity` on the journal that the transaction was loaded from. It
  -- removes nothing where the journal is gone already.
  unfoldable pub clear_journal : Disk T → CupError × Disk T
  clear_journal d =
      if not a.journal_path_built || not a.journal_removed || not d.journal
      then (transaction, d)
      else if a.journal_synced
      then (cup_ok, record d { journal = false })
      else (commit, record d { journal = false })

  unfoldable pub then_clear : CupError × Disk T → CupError × Disk T
  unfolding clear_journal
  then_clear (cup_ok, d) = clear_journal d
  then_clear r = r

  unfoldable pub recover_paths : Bool → Bool → Bool → Disk T → CupError × Disk T
  unfolding then_clear recover_installed_package recover_absent_package
  recover_paths is_installed install_valid staged_valid d = then_clear (
      if is_installed
      then recover_installed_package install_valid staged_valid d
      else recover_absent_package d)

module _ {T : Type 0} (integrity : T → PackageIdentity → CupError) where
  -- The packages are judged only where the state holds the identity.
  unfoldable pub inspect_and_recover :
      Answers T → Bool → PackageIdentity → Disk T → CupError × Disk T
  unfolding recover_paths inspect_package_validity
  inspect_and_recover a false identity d = recover_paths a false false false d
  inspect_and_recover a true identity d =
      elim (inspect_package_validity integrity d.installed identity) [
        | err e ↦ (e, d)
        | ok install_valid ↦ elim (inspect_package_validity integrity d.staged identity) [
          | err e ↦ (e, d)
          | ok staged_valid ↦ recover_paths a true install_valid staged_valid d
        ]
      ]

  unfoldable pub is_some : Option ℕ → Bool
  is_some none = false
  is_some (some i) = true

  unfoldable pub journal_is_regular : SystemPathIdentity → Bool
  journal_is_regular identity =
      identity.valid && elim identity.kind [ regular_file ↦ true | _ ↦ false ]

  unfoldable pub is_ok {ℓ} : {A : Type ℓ} → Result A → Bool
  is_ok (ok x) = true
  is_ok (err e) = false

  unfoldable pub package_transaction_recover :
      Answers T → PackageTransaction → CupState → Disk T → CupError × Disk T
  unfolding is_some journal_is_regular is_ok
  package_transaction_recover a t state d =
      if not (package_operation_is_valid t.operation) || not (journal_is_regular t.file_identity)
      then (transaction, d)
      else elim (state_validate state) [
        | cup_ok ↦
            if not (is_ok (package_identity_validate t.identity))
              || not (is_ok a.install_path)
              || not (is_ok (package_transaction_get_staging_path a.staging_dir t max_path_len))
            then (transaction, d)
            else if not a.install_kind_read || not a.staged_kind_read
            then (transaction, d)
            else inspect_and_recover a (is_some (state_find_installed state t.identity)) t.identity
                d
        | _ ↦ (transaction, d)
      ]
