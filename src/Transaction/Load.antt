-- ===== src/Transaction/Load.antt =====
-- `package_transaction_load` (src/package_transaction.c): the journal of a package operation, read
-- back and validated. `root` is what `layout_get_root` answers,
-- `read` what `runtime_journal_read_at` does, `host` what `platform_get_host` does.
use cup.Base.{not, Option, none, some, Text, if◌then◌else◌}
use cup.Errors.{Result, ok, err, transaction}
use cup.System.{SystemPathIdentity}
use cup.Package.{package_identity_init}
use cup.Journal.{runtime_journal_parse}
use cup.Transaction.{
  PackageTransaction, package_transaction_init, package_operation_is_valid,
  transaction_temporary_name_is_valid, set_package_transaction_field, package_journal_keys,
}

-- The checks behind the parse.
unfoldable pub check_candidate :
    Result Text → PackageTransaction → SystemPathIdentity → Result (Option PackageTransaction)
check_candidate (err _) candidate file_identity = err transaction
check_candidate (ok host) candidate file_identity =
    if not (package_operation_is_valid candidate.operation)
    then err transaction
    else elim (package_identity_init candidate.identity.component candidate.identity.tool host
        candidate.identity.target_platform candidate.identity.version) [
          | err _ ↦ err transaction
          | ok validated ↦
              (let t : PackageTransaction = record candidate {
                identity = validated;
                file_identity = file_identity;
              } in
                if transaction_temporary_name_is_valid t then ok (some t) else err transaction)
        ]

-- `none` is `PACKAGE_TRANSACTION_MISSING`.
unfoldable pub package_transaction_load :
    Result Text
    → Result (Option (Text × SystemPathIdentity))
    → Result Text
    → Result (Option PackageTransaction)
unfolding check_candidate
package_transaction_load root read host =
    elim (runtime_journal_parse (some package_journal_keys) set_package_transaction_field
      package_transaction_init root read) [
        | err e ↦ err e
        | ok none ↦ ok none
        | ok (some (candidate, file_identity)) ↦ check_candidate host candidate file_identity
      ]
