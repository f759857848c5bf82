-- ===== src/Tests/JournalRuns.antt =====
-- Runs of src/runtime_journal.c and of `package_transaction_load`, and the theorems at them.
use cup.Base.{true, some, ◌≡◌, ◌↔◌, refl, codes, Option, Text}
use cup.Errors.{Result, cup_ok}
use cup.System.{SystemPathIdentity, no_identity}
use cup.Package.Laws.{IsIdentity}
use cup.Transaction.RoundTrip.{package_transaction_load-write_package_journal}
use cup.Journal.{runtime_journal_require_none, runtime_journal_parse}
use cup.Journal.Owner.{IsAbsent, runtime_journal_require_none_iff}
use cup.Text.{text_parse_key_value, text_format}
use cup.Text.Reader.{text_document_reader_init, text_document_read_line, each_line}
use cup.Path.{path_is_safe_segment, path_is_safe_identifier}
use cup.Transaction.{
  write_package_journal, package_operation_name, set_package_transaction_field,
  package_operation_is_valid, transaction_temporary_name_is_valid, layout_build_staging_prefix,
}
use cup.Transaction.Load.{package_transaction_load}
use cup.Transaction.Loaded.{IsLoaded, package_transaction_load-IsLoaded}
use cup.Tests.Fixtures.{validating, gcc14}
use cup.Tests.RecoveryRuns.{install_gcc14}

abbrev written : Result (Option (Text × SystemPathIdentity))
written = Result.ok (some (write_package_journal install_gcc14, install_gcc14.file_identity))

abbrev home : Result Text
home = Result.ok (codes "/r")

abbrev host : Result Text
host = Result.ok (codes "linux-x64")

written_loads : package_transaction_load home written host ≡ Result.ok (some install_gcc14)
unfolding validating package_transaction_load write_package_journal runtime_journal_parse
    package_operation_name text_document_reader_init each_line text_document_read_line
    text_parse_key_value set_package_transaction_field package_operation_is_valid
    transaction_temporary_name_is_valid path_is_safe_segment layout_build_staging_prefix
    path_is_safe_identifier text_format
written_loads = refl

package_transaction_load-IsLoaded_example : IsLoaded written host install_gcc14
package_transaction_load-IsLoaded_example =
    package_transaction_load-IsLoaded home host written install_gcc14 written_loads

runtime_journal_require_none_iff_example :
    (runtime_journal_require_none home written ≡ cup_ok) ↔ IsAbsent home written
runtime_journal_require_none_iff_example = runtime_journal_require_none_iff home written

gcc14_valid : IsIdentity gcc14
unfolding validating
gcc14_valid = refl

name_valid : transaction_temporary_name_is_valid install_gcc14 ≡ true
unfolding validating package_operation_is_valid transaction_temporary_name_is_valid
    path_is_safe_segment layout_build_staging_prefix path_is_safe_identifier text_format
    package_operation_name
name_valid = refl

package_transaction_load-write_package_journal_example :
    package_transaction_load home
      (Result.ok (some (write_package_journal install_gcc14, no_identity)))
      (Result.ok (codes "linux-x64"))
    ≡ Result.ok (some (record install_gcc14 { file_identity = no_identity }))
package_transaction_load-write_package_journal_example =
    package_transaction_load-write_package_journal (codes "/r") install_gcc14 no_identity refl
      gcc14_valid name_valid
