-- ===== src/Tests/RecoveryRuns.antt =====
-- Runs of `package_transaction_recover`. A tree is whether its package is valid.
use cup.Base.{Bool, true, false, some, [], ◌∷◌, ◌≡◌, refl, ◌⊎◌, inr, codes, strip_prefix}
use cup.Errors.{CupError, cup_ok, ok, validation, transaction, filesystem}
use cup.Package.{PackageIdentity}
use cup.Path.{path_is_safe_segment, path_is_safe_identifier, path_join}
use cup.State.{
  state_find_installed, find_installed_index, find_index, state_validate, validate_installed,
  validate_defaults, identity_scope, identity_matches_scope,
}
use cup.System.{regular_file}
use cup.Transaction.{
  PackageTransaction, install, package_transaction_get_staging_path,
  transaction_temporary_name_is_valid, layout_build_staging_prefix, package_operation_is_valid,
  package_operation_name,
}
use cup.System.{moved, not_applied}
use cup.Transaction.Recover.{
  folder, Disk, Answers, removed, judge, is_some, inspect_package_validity,
  package_transaction_recover, inspect_and_recover, recover_paths, recover_installed_package,
  move_staged_package, preserve_invalid_install, after_preserve, move_after_preserve, finish_aside,
  finish_move, movable, then_clear, clear_journal, journal_is_regular, is_ok, remove_staged_path,
}
use cup.Transaction.Safety.{Holds}
use cup.Transaction.Outcome.{
  Settled, recover-keeps_package, recover-settles, recover_ok, recover_refused,
}
use cup.Transaction.Retry.{
  IsCooperative, CanStart, Recoverable, IsFinished, attempts, recover_eventually,
}
use cup.Tests.Fixtures.{validating, gcc14, two_gccs, two_gccs_validate}

abbrev integrity : Bool → PackageIdentity → CupError
integrity true _ = cup_ok
integrity false _ = validation

abbrev pub install_gcc14 : PackageTransaction
install_gcc14 = record {
  operation = install;
  identity = gcc14;
  temporary_name = codes "install-compiler-gcc-linux-x64-14.1.0-rev2-a1b2";
  file_identity = record {
    volume = 1;
    object = 7;
    object_high = 0;
    kind = regular_file;
    valid = true;
  };
}

-- A damaged tree at the canonical path, the valid one still staged.
abbrev interrupted : Disk Bool
interrupted = record {
  installed = folder false;
  staged = folder true;
  set_aside = [];
  journal = true;
}

abbrev smooth : Answers Bool
smooth = record {
  install_path = ok (codes "/r/components/compiler/gcc/linux-x64/14.1.0-rev2");
  staging_dir = ok (codes "/r/staging");
  install_kind_read = true;
  staged_kind_read = true;
  parent_ready = true;
  move_staged = moved;
  remove_installed = removed;
  remove_staged = removed;
  identity_read = cup_ok;
  identity_valid = true;
  recovery_dir = cup_ok;
  recovery_path = cup_ok;
  move_aside = moved;
  recovery_dir_removed = true;
  journal_path_built = true;
  journal_removed = true;
  journal_synced = true;
}

-- The damaged tree is set aside, and then the move of the staged one fails.
abbrev stopped : Answers Bool
stopped = record smooth { move_staged = not_applied filesystem }

gcc14_found : state_find_installed two_gccs gcc14 ≡ some 1
unfolding validating state_find_installed find_installed_index find_index
gcc14_found = refl

interrupted-Holds : Holds integrity gcc14 interrupted
unfolding inspect_package_validity judge
interrupted-Holds = inr refl

recover-keeps_package_example :
    Holds integrity gcc14
      (package_transaction_recover integrity stopped install_gcc14 two_gccs interrupted).1
recover-keeps_package_example =
    recover-keeps_package integrity stopped install_gcc14 two_gccs interrupted gcc14_found
      interrupted-Holds

abbrev unsynced : Answers Bool
unsynced = record smooth { journal_synced = false }

unsynced_clears :
    (package_transaction_recover integrity unsynced install_gcc14 two_gccs interrupted).1.journal
    ≡ false
unfolding validating state_find_installed find_installed_index find_index
    package_transaction_recover inspect_and_recover recover_paths recover_installed_package
    inspect_package_validity judge move_staged_package preserve_invalid_install after_preserve
    move_after_preserve finish_aside finish_move movable then_clear clear_journal journal_is_regular
    is_ok is_some remove_staged_path state_validate validate_installed validate_defaults
    identity_scope identity_matches_scope package_transaction_get_staging_path
    transaction_temporary_name_is_valid layout_build_staging_prefix package_operation_name
    package_operation_is_valid path_is_safe_segment path_is_safe_identifier path_join strip_prefix
unsynced_clears = refl

smooth_ends :
    (package_transaction_recover integrity smooth install_gcc14 two_gccs interrupted).0 ≡ cup_ok
unfolding validating state_find_installed find_installed_index find_index
    package_transaction_recover inspect_and_recover recover_paths recover_installed_package
    inspect_package_validity judge move_staged_package preserve_invalid_install after_preserve
    move_after_preserve finish_aside finish_move movable then_clear clear_journal journal_is_regular
    is_ok is_some remove_staged_path state_validate validate_installed validate_defaults
    identity_scope identity_matches_scope package_transaction_get_staging_path
    transaction_temporary_name_is_valid layout_build_staging_prefix package_operation_name
    package_operation_is_valid path_is_safe_segment path_is_safe_identifier path_join strip_prefix
smooth_ends = refl

recover-settles_example :
    Settled integrity gcc14
      (is_some integrity (state_find_installed two_gccs gcc14))
      (package_transaction_recover integrity unsynced install_gcc14 two_gccs interrupted).1
recover-settles_example =
    recover-settles integrity unsynced install_gcc14 two_gccs interrupted refl unsynced_clears

recover_ok_example :
    ((package_transaction_recover integrity smooth install_gcc14 two_gccs interrupted).1.journal
      ≡ false)
    × Settled integrity gcc14
        (is_some integrity (state_find_installed two_gccs gcc14))
        (package_transaction_recover integrity smooth install_gcc14 two_gccs interrupted).1
recover_ok_example = recover_ok integrity smooth install_gcc14 two_gccs interrupted refl smooth_ends

-- All is recovered but the journal, which stays.
abbrev journal_kept : Answers Bool
journal_kept = record smooth { journal_removed = false }

journal_kept_refuses :
    (package_transaction_recover integrity journal_kept install_gcc14 two_gccs interrupted).0
    ≡ transaction
unfolding validating state_find_installed find_installed_index find_index
    package_transaction_recover inspect_and_recover recover_paths recover_installed_package
    inspect_package_validity judge move_staged_package preserve_invalid_install after_preserve
    move_after_preserve finish_aside finish_move movable then_clear clear_journal journal_is_regular
    is_ok is_some remove_staged_path state_validate validate_installed validate_defaults
    identity_scope identity_matches_scope package_transaction_get_staging_path
    transaction_temporary_name_is_valid layout_build_staging_prefix package_operation_name
    package_operation_is_valid path_is_safe_segment path_is_safe_identifier path_join strip_prefix
journal_kept_refuses = refl

recover_refused_example :
    ((package_transaction_recover integrity journal_kept install_gcc14 two_gccs interrupted).1
      ≡ interrupted)
    ⊎ (Settled integrity gcc14
          (is_some integrity (state_find_installed two_gccs gcc14))
          (package_transaction_recover integrity journal_kept install_gcc14 two_gccs interrupted).1
        × ((package_transaction_recover integrity journal_kept install_gcc14 two_gccs
              interrupted).1.journal
            ≡ interrupted.journal))
recover_refused_example =
    recover_refused integrity journal_kept install_gcc14 two_gccs interrupted journal_kept_refuses

interrupted-Recoverable :
    Recoverable integrity gcc14
      (is_some integrity (state_find_installed two_gccs gcc14))
      interrupted
unfolding is_some validating state_find_installed find_installed_index find_index
interrupted-Recoverable = (interrupted-Holds, tt)

smooth-IsCooperative : IsCooperative smooth
smooth-IsCooperative = record {
  kinds = (refl, refl);
  parent = refl;
  move = refl;
  removals = (refl, refl);
  identity = (refl, refl);
  recovery = (refl, refl);
  aside = refl;
  journal = (refl, refl, refl);
}

smooth-CanStart : CanStart smooth install_gcc14 two_gccs
unfolding validating package_operation_is_valid package_transaction_get_staging_path
    transaction_temporary_name_is_valid layout_build_staging_prefix package_operation_name
    path_is_safe_identifier path_is_safe_segment path_join strip_prefix
smooth-CanStart = record {
  operation = refl;
  loaded = (refl, refl);
  state_valid = two_gccs_validate;
  identity_valid = refl;
  install_path = codes "/r/components/compiler/gcc/linux-x64/14.1.0-rev2";
  install_path_built = refl;
  staged_path = codes "/r/staging/install-compiler-gcc-linux-x64-14.1.0-rev2-a1b2";
  staged_path_built = refl;
}

integrity_decides : (tree : Bool) → (v : Bool) × (judge integrity (integrity tree gcc14) ≡ ok v)
unfolding judge
integrity_decides true = (true, refl)
integrity_decides false = (false, refl)

recover_eventually_example :
    IsFinished integrity smooth install_gcc14 two_gccs
      (attempts integrity install_gcc14 two_gccs (stopped ∷ stopped ∷ []) interrupted)
recover_eventually_example =
    recover_eventually integrity install_gcc14 two_gccs (stopped ∷ stopped ∷ []) smooth interrupted
      refl interrupted-Recoverable smooth-IsCooperative smooth-CanStart integrity_decides
