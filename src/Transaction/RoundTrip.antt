-- ===== src/Transaction/RoundTrip.antt =====
-- Loading a package journal that was written (src/package_transaction.c).
use cup.Base.{true, false, some, ◌≡◌, refl, arith, is_nil, Text}
use cup.Errors.{ok}
use cup.System.{SystemPathIdentity}
use cup.Package.Laws.{IsIdentity}
use cup.Journal.{parse_journal, runtime_journal_parse, runtime_journal_parse_at}
use cup.Journal.Document.{parse_journal-document}
use cup.Transaction.{
  PackageTransaction, package_transaction_init, package_operation_is_valid,
  transaction_temporary_name_is_valid, set_package_transaction_field, package_journal_keys,
  write_package_journal,
}
use cup.Transaction.Load.{check_candidate, package_transaction_load}
use cup.Transaction.Written.{
  first_field, later_fields, name_is_valid-operation, write_package_journal-document,
}
use cup.Package.Laws.{same_identity}
use cup.Transaction.Fields.{
  candidate, fields-IsField, fields-Ordered, all_fields_read, visit_all-candidate,
}

parse_journal-candidate :
    (t : PackageTransaction)
    → IsIdentity t.identity
    → transaction_temporary_name_is_valid t ≡ true
    → parse_journal
        (some package_journal_keys)
        set_package_transaction_field
        package_transaction_init
        (write_package_journal t)
      ≡ ok (candidate t)
parse_journal-candidate t v h = rw (write_package_journal-document t) (
    parse_journal-document (some package_journal_keys) set_package_transaction_field first_field
      (later_fields t) package_transaction_init (candidate t) (fields-IsField t v h)
      (fields-Ordered t) all_fields_read (visit_all-candidate t v h))

check_candidate-candidate :
    (t : PackageTransaction) (file : SystemPathIdentity)
    → IsIdentity t.identity
    → transaction_temporary_name_is_valid (record t { file_identity = file }) ≡ true
    → package_operation_is_valid t.operation ≡ true
    → check_candidate (ok t.identity.host_platform) (candidate t) file
      ≡ ok (some (record t { file_identity = file }))
unfolding check_candidate
check_candidate-candidate t file v h o = rw (o, same_identity t.identity v, h) refl

-- The name's validity does not look at the file's identity.
name_is_valid-file :
    (t : PackageTransaction) (file : SystemPathIdentity)
    → transaction_temporary_name_is_valid t ≡ true
    → transaction_temporary_name_is_valid (record t { file_identity = file }) ≡ true
unfolding transaction_temporary_name_is_valid
name_is_valid-file t file h = h

parsed-candidate :
    (root : Text) (t : PackageTransaction) (file : SystemPathIdentity)
    → is_nil root ≡ false
    → IsIdentity t.identity
    → transaction_temporary_name_is_valid t ≡ true
    → runtime_journal_parse
        (some package_journal_keys)
        set_package_transaction_field
        package_transaction_init
        (ok root)
        (ok (some (write_package_journal t, file)))
      ≡ ok (some (candidate t, file))
unfolding runtime_journal_parse runtime_journal_parse_at
parsed-candidate root t file r v h = ground (arith, r, parse_journal-candidate t v h)

-- Under a root that is not empty, package_transaction_load on the host of the identity loads
-- from the text of write_package_journal the transaction that was written, with the identity of
-- the file read, provided that the package identity and the temporary name are valid.
pub package_transaction_load-write_package_journal :
    (root : Text) (t : PackageTransaction) (file : SystemPathIdentity)
    → is_nil root ≡ false
    → IsIdentity t.identity
    → transaction_temporary_name_is_valid t ≡ true
    → package_transaction_load
        (ok root)
        (ok (some (write_package_journal t, file)))
        (ok t.identity.host_platform)
      ≡ ok (some (record t { file_identity = file }))
unfolding package_transaction_load
package_transaction_load-write_package_journal root t file r v h =
    rw (package_transaction_load, parsed-candidate root t file r v h)
      (check_candidate-candidate t file v (name_is_valid-file t file h)
        (name_is_valid-operation t h))
