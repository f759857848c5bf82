-- ===== src/Tests/StateFileRuns.antt =====
-- Runs of the file of src/state.c, and its theorems at them.
use cup.Base.{strcmp, true, refl, ◌≡◌, [], ◌∷◌, Text, codes}
use cup.Base.Rearranged.{insertion_sort, insertion_sort-perm}
use cup.Errors.{ok}
use cup.Text.Lines.{document}
use cup.Package.{package_identity_format_selector, compare_versions, ◌then_by◌}
use cup.Selector.{package_selector_format_parts, package_release_compare}
use cup.Text.{text_format}
use cup.State.{
  state_validate, validate_installed, validate_defaults, identity_scope, identity_matches_scope,
  find_index,
}
use cup.State.Defaults.{state_validate_current_host, state_count_foreign_hosts, count_foreign}
use cup.State.File.{
  state_save_document, state_measure_persistent, measure_records, record_line,
  compare_identity_pointers, write_state_file, write_records, write_state_record,
}
use cup.State.File.Saved.{LoadedAgain, save_state-load}
use cup.Tests.Fixtures.{validating, two_gccs}

abbrev host : Text
host = codes "linux-x64"

abbrev saved_bytes : Text
saved_bytes = document (
    codes "format=2"
    ∷ codes "installed.compiler.linux-x64=gcc@13.2.0"
    ∷ codes "installed.compiler.linux-x64=gcc@14.1.0-rev2"
    ∷ codes "default.compiler.linux-x64=gcc@13.2.0"
    ∷ [])

two_gccs_saved : state_save_document insertion_sort (ok host) two_gccs ≡ ok saved_bytes
unfolding validating state_save_document state_validate validate_installed validate_defaults
    identity_scope identity_matches_scope find_index state_measure_persistent measure_records
    package_identity_format_selector package_selector_format_parts text_format record_line
    state_validate_current_host state_count_foreign_hosts count_foreign compare_identity_pointers
    strcmp compare_versions package_release_compare write_state_file write_records
    write_state_record ◌then_by◌
two_gccs_saved = refl

save_state-load_example : LoadedAgain (λ _. true) host saved_bytes two_gccs
save_state-load_example =
    save_state-load insertion_sort (insertion_sort-perm _) (λ _. true) (λ _. refl) host saved_bytes
      two_gccs two_gccs_saved
