-- ===== src/Transaction.antt =====
-- src/package_transaction.c: the package journal, and the staging names of src/layout.c that it is
-- bound to. The journal is loaded in Transaction/Load, recovery is in Transaction/Recover.
pub mod Load
pub mod Loaded
pub mod Written
pub mod Fields
pub mod RoundTrip
pub mod Recover
pub mod Safety
pub mod Outcome
pub mod Retry
use cup.Base.{
  ℕ, Bool, true, false, not, ◌&&◌, ◌||◌, Option, none, some, List, [], ◌∷◌, ◌++◌, leb, ◌==◌,
  if◌then◌else◌, length, is_nil, Text, codes, text_eq, strip_prefix,
}
use cup.Errors.{CupError, cup_ok, Result, ok, err, invalid_input, transaction, ◌>>=◌, ◌>>◌}
use cup.Text.{text_copy, text_format}
use cup.Path.{
  max_path_len, path_is_safe_identifier, path_is_safe_segment, path_join, path_last_segment,
  path_equal,
}
use cup.Registry.{max_identifier_len, max_platform_len}
use cup.System.{SystemPathIdentity, no_identity}
use cup.Package.{PackageIdentity, package_identity_init, package_identity_validate}

pub data PackageOperation : Type 0 where
  no_operation install remove : PackageOperation

pub record PackageTransaction : Type 0 where
  pub operation : PackageOperation
  pub identity : PackageIdentity
  pub temporary_name : Text
  pub file_identity : SystemPathIdentity

abbrev pub no_package : PackageIdentity
no_package = record {
  component = [];
  tool = [];
  host_platform = [];
  target_platform = [];
  version = [];
}

abbrev pub package_transaction_init : PackageTransaction
package_transaction_init = record {
  operation = no_operation;
  identity = no_package;
  temporary_name = [];
  file_identity = no_identity;
}

unfoldable pub package_operation_name : PackageOperation → Text
package_operation_name install = codes "install"
package_operation_name remove = codes "remove"
package_operation_name no_operation = codes "none"

unfoldable pub package_operation_is_valid : PackageOperation → Bool
package_operation_is_valid no_operation = false
package_operation_is_valid install = true
package_operation_is_valid remove = true

abbrev pub max_metadata_value_len : ℕ
max_metadata_value_len = 384

unfoldable pub layout_build_staging_prefix : ℕ → Text → PackageIdentity → Result Text
layout_build_staging_prefix size operation identity =
    if size == 0
      || not (path_is_safe_identifier operation)
      || not (path_is_safe_segment identity.component)
      || not (path_is_safe_segment identity.tool)
      || not (path_is_safe_segment identity.target_platform)
      || not (path_is_safe_segment identity.version)
    then err invalid_input
    else text_format size (
        operation
        ++ (b'-' ∷ identity.component
            ++ (b'-' ∷ identity.tool
                ++ (b'-' ∷ identity.target_platform ++ (b'-' ∷ identity.version)))))

-- What is left of a name behind its prefix: a dash and something more.
unfoldable pub has_suffix : Option Text → Bool
has_suffix (some (d ∷ c ∷ cs)) = d == b'-'
has_suffix _ = false

unfoldable pub transaction_temporary_name_is_valid : PackageTransaction → Bool
unfolding has_suffix
transaction_temporary_name_is_valid t =
    if not (package_operation_is_valid t.operation)
      || not (path_is_safe_segment t.temporary_name)
      || leb max_metadata_value_len (length t.temporary_name)
    then false
    else elim (layout_build_staging_prefix max_path_len (package_operation_name t.operation)
        t.identity) [
          | err _ ↦ false
          | ok prefix ↦ has_suffix (strip_prefix prefix t.temporary_name)
        ]

-- `staging_dir` is the answer of `layout_get_staging_dir`.
unfoldable pub package_transaction_get_staging_path :
    Result Text → PackageTransaction → ℕ → Result Text
package_transaction_get_staging_path staging_dir t size =
    if size == 0 || not (transaction_temporary_name_is_valid t)
    then err invalid_input
    else do parent ← staging_dir; path_join size parent t.temporary_name

-- One `key=value` line of the journal.
abbrev pub field_line : Text → Text → Text
field_line key value = key ++ (b'=' ∷ (value ++ (b'\n' ∷ [])))

unfoldable pub write_package_journal : PackageTransaction → Text
write_package_journal t =
    field_line (codes "format") (codes "2")
    ++ (field_line (codes "operation") (package_operation_name t.operation)
        ++ (field_line (codes "component") t.identity.component
            ++ (field_line (codes "tool") t.identity.tool
                ++ (field_line (codes "target_platform") t.identity.target_platform
                    ++ (field_line (codes "package_version") t.identity.version
                        ++ field_line (codes "temporary_name") t.temporary_name)))))

-- The transaction that `package_transaction_begin` hands to `save_package_journal`.
unfoldable pub begin_record : PackageOperation → PackageIdentity → Text → Result PackageTransaction
begin_record operation identity name = elim (text_copy max_path_len name) [
  | err _ ↦ err transaction
  | ok copied ↦
      (let t : PackageTransaction = record {
        operation = operation;
        identity = identity;
        temporary_name = copied;
        file_identity = no_identity;
      } in
        if transaction_temporary_name_is_valid t then ok t else err transaction)
]

-- `package_transaction_begin` up to the publication of the journal.
unfoldable pub package_transaction_begin :
    Result Text → PackageOperation → PackageIdentity → Text → Result PackageTransaction
unfolding begin_record
package_transaction_begin staging_dir operation identity temporary_path =
    elim (package_identity_validate identity) [
      | err _ ↦ err invalid_input
      | ok _ ↦
          if is_nil temporary_path
            || not (package_operation_is_valid operation)
            || not (path_is_safe_segment (path_last_segment temporary_path))
          then err invalid_input
          else do
            t ← begin_record operation identity (path_last_segment temporary_path)
            elim (package_transaction_get_staging_path staging_dir t max_path_len) [
              | err _ ↦ err transaction
              | ok canonical ↦ if path_equal temporary_path canonical then ok t else err transaction
            ]
    ]

-- A copy whose failure is `CUP_ERR_TRANSACTION`.
copy_value : ℕ → Text → Result Text
copy_value size value = elim (text_copy size value) [
  | ok copied ↦ ok copied
  | err _ ↦ err transaction
]

unfoldable pub set_package_transaction_field :
    PackageTransaction → Text → Text → Result PackageTransaction
unfolding copy_value
set_package_transaction_field t key value =
    if text_eq key (codes "format")
    then (if text_eq value (codes "2") then ok t else err transaction)
    else if text_eq key (codes "operation")
    then (if text_eq value (codes "install")
        then ok (record t { operation = install })
        else if text_eq value (codes "remove")
        then ok (record t { operation = remove })
        else err transaction)
    else if text_eq key (codes "component")
    then (do
      v ← copy_value max_identifier_len value
      ok (record t { identity = record t.identity { component = v } }))
    else if text_eq key (codes "tool")
    then (do
      v ← copy_value max_identifier_len value
      ok (record t { identity = record t.identity { tool = v } }))
    else if text_eq key (codes "target_platform")
    then (do
      v ← copy_value max_platform_len value
      ok (record t { identity = record t.identity { target_platform = v } }))
    else if text_eq key (codes "package_version")
    then (do
      v ← copy_value max_identifier_len value
      ok (record t { identity = record t.identity { version = v } }))
    else if text_eq key (codes "temporary_name")
    then (do v ← copy_value max_path_len value; ok (record t { temporary_name = v }))
    else err transaction

abbrev pub package_journal_keys : List Text
package_journal_keys =
    codes "format"
    ∷ codes "operation"
    ∷ codes "component"
    ∷ codes "tool"
    ∷ codes "target_platform"
    ∷ codes "package_version"
    ∷ codes "temporary_name"
    ∷ []
