-- ===== src/Transaction/Loaded.antt =====
-- What `package_transaction_load` (src/package_transaction.c) lets through.
use cup.Base.{ap, true, Option, none, some, ◌≡◌, ◌⊎◌, sym, refl, inl, inr, arith, Text}
use cup.Errors.{CupError, Result, ok, err}
use cup.System.{SystemPathIdentity}
use cup.Package.{PackageIdentity, package_identity_init}
use cup.Package.Laws.{IsIdentity, package_identity_init-IsIdentity}
use cup.Journal.{parse_journal, runtime_journal_parse, runtime_journal_parse_at}
use cup.Transaction.{
  PackageTransaction, package_transaction_init, package_operation_is_valid,
  transaction_temporary_name_is_valid, set_package_transaction_field, package_journal_keys,
}
use cup.Transaction.Load.{check_candidate, package_transaction_load}

-- The journal was there, and what it says is complete and belongs to this host.
pub record IsLoaded (read : Result (Option (Text × SystemPathIdentity))) (host : Result Text)
    (t : PackageTransaction) : Type 0 where
  pub operation : package_operation_is_valid t.operation ≡ true
  pub identity : IsIdentity t.identity
  pub own_host : host ≡ ok t.identity.host_platform
  pub temporary_name : transaction_temporary_name_is_valid t ≡ true
  pub bytes : Text
  pub found : read ≡ ok (some (bytes, t.file_identity))

Identity-cases :
    (r : Result PackageIdentity)
    → ((x : PackageIdentity) × (r ≡ ok x)) ⊎ ((e : CupError) × (r ≡ err e))
Identity-cases (ok x) = inl (x, refl)
Identity-cases (err e) = inr (e, refl)

check_candidate-IsLoaded :
    (host : Result Text) (candidate t : PackageTransaction) (bytes : Text)
    (file : SystemPathIdentity)
    → check_candidate host candidate file ≡ ok (some t)
    → IsLoaded (ok (some (bytes, file))) host t
unfolding check_candidate
check_candidate-IsLoaded (err e) candidate t bytes file h = absurd (ground arith)
check_candidate-IsLoaded (ok host) candidate t bytes file h =
    let c = candidate.identity in
    elim (Identity-cases
      (package_identity_init c.component c.tool host c.target_platform c.version)) [
        | inr (e, bad) ↦ absurd (ground (arith, bad))
        | inl (x, good) ↦
            (let (valid, same) =
                package_identity_init-IsIdentity c.component c.tool host c.target_platform c.version
                  good in
              let e : record candidate { identity = x; file_identity = file } ≡ t =
                ground (arith, good) in
              rw (← e) (record {
                operation = ground (arith, good);
                identity = valid;
                own_host = ap ok (sym same);
                temporary_name = ground (arith, good);
                bytes = bytes;
                found = refl;
              }))
      ]

-- A transaction that package_transaction_load loads has an operation, a valid identity on the
-- current host, a valid temporary name for them, and the identity of the file that was read.
pub package_transaction_load-IsLoaded :
    (root host : Result Text) (read : Result (Option (Text × SystemPathIdentity)))
    (t : PackageTransaction)
    → package_transaction_load root read host ≡ ok (some t)
    → IsLoaded read host t
unfolding package_transaction_load runtime_journal_parse runtime_journal_parse_at
package_transaction_load-IsLoaded (err e) host read t h = absurd (ground arith)
package_transaction_load-IsLoaded (ok root) host (err e) t h = absurd (ground arith)
package_transaction_load-IsLoaded (ok root) host (ok none) t h = absurd (ground arith)
package_transaction_load-IsLoaded (ok root) host (ok (some (bytes, file))) t h =
    parsed
      (parse_journal (some package_journal_keys) set_package_transaction_field
        package_transaction_init bytes)
      refl
  where
    parsed :
        (r : Result PackageTransaction)
        → parse_journal
            (some package_journal_keys)
            set_package_transaction_field
            package_transaction_init
            bytes
          ≡ r
        → IsLoaded (ok (some (bytes, file))) host t
    parsed (err e) m = absurd (ground (arith, m))
    parsed (ok candidate) m =
        check_candidate-IsLoaded host candidate t bytes file (ground (arith, m))
