-- ===== src/Transaction/Fields.antt =====
-- The parser of the package journal on the written fields (src/package_transaction.c).
use cup.Base.{
  ◌&&◌, ltb, ◌<◌, Bool, true, not, ◌≡◌, refl, arith, ◌==◌, length, all, is_nil, Text, codes,
  text_eq, All, [], ◌∷◌, some,
}
use cup.Errors.{ok}
use cup.Package.Laws.{IsIdentity}
use cup.System.{no_identity}
use cup.Text.{text_copy}
use cup.Text.Reader.{is_skipped}
use cup.Text.Fields.{is_graphic}
use cup.Journal.{in_order, all_keys_read}
use cup.Journal.Document.{IsField, Ordered, visit_all}
use cup.Transaction.{
  PackageTransaction, PackageOperation, no_operation, install, remove, package_transaction_init,
  package_operation_is_valid, package_operation_name, transaction_temporary_name_is_valid,
  set_package_transaction_field, package_journal_keys,
}
use cup.Transaction.Written.{
  IsValue, first_field, later_fields, IsIdentity-Sizes, name_is_valid-Values,
  name_is_valid-operation,
}

-- What of the names of the fields matters.
unfoldable pub is_key : Text → Bool
unfolding is_skipped
is_key key =
    all is_graphic key
    && all (λ b. not (b == b'=')) key
    && not (is_nil key)
    && not (is_skipped key)
    && ltb (length key) 20

pub value-IsField :
    (key value : Text)
    → is_key key ≡ true
    → IsValue value
    → length value < 384
    → IsField (key, value)
unfolding is_key
value-IsField key value k v h = record {
  key_graphic = ground arith;
  key_plain = ground arith;
  key_ne_nil = ground arith;
  key_counts = ground arith;
  key_fits = ground arith;
  value_graphic = v.graphic;
  value_ne_nil = v.ne_nil;
  value_fits = omega (arith, h);
  line_fits = ground (arith, h);
}

operation-IsValue :
    (operation : PackageOperation)
    → package_operation_is_valid operation ≡ true
    → IsValue (package_operation_name operation) × (length (package_operation_name operation) < 384)
unfolding package_operation_is_valid package_operation_name
operation-IsValue no_operation h = absurd (ground arith)
operation-IsValue install h = (record { graphic = refl; ne_nil = refl }, omega arith)
operation-IsValue remove h = (record { graphic = refl; ne_nil = refl }, omega arith)

pub fields-IsField :
    (t : PackageTransaction)
    → IsIdentity t.identity
    → transaction_temporary_name_is_valid t ≡ true
    → All IsField (first_field ∷ later_fields t)
unfolding is_key
fields-IsField t v h =
    let z = IsIdentity-Sizes t v h in
    let w = name_is_valid-Values t h in
    let o = operation-IsValue t.operation (name_is_valid-operation t h) in
    (
      value-IsField (codes "format") (codes "2") refl (record { graphic = refl; ne_nil = refl })
          (omega arith),
      (
        value-IsField (codes "operation") (package_operation_name t.operation) refl o.0 o.1,
        (
          value-IsField (codes "component") t.identity.component refl w.component
              (omega (arith, z.component)),
          (
            value-IsField (codes "tool") t.identity.tool refl w.tool (omega (arith, z.tool)),
            (
              value-IsField (codes "target_platform") t.identity.target_platform refl w.target
                  (omega (arith, z.target)),
              (
                value-IsField (codes "package_version") t.identity.version refl w.version
                    (omega (arith, z.version)),
                (value-IsField (codes "temporary_name") t.temporary_name refl w.name z.name, tt),
              ),
            ),
          ),
        ),
      ),
    )

set_operation :
    (t : PackageTransaction) (operation : PackageOperation)
    → package_operation_is_valid operation ≡ true
    → set_package_transaction_field t (codes "operation") (package_operation_name operation)
      ≡ ok (record t { operation = operation })
unfolding set_package_transaction_field text_eq package_operation_is_valid package_operation_name
set_operation t no_operation h = absurd (ground arith)
set_operation t install h = refl
set_operation t remove h = refl

set_component :
    (t : PackageTransaction) (value : Text)
    → length value < 32
    → set_package_transaction_field t (codes "component") value
      ≡ ok (record t { identity = record t.identity { component = value } })
unfolding set_package_transaction_field text_eq text_copy
set_component t value h = ground (arith, h)

set_tool :
    (t : PackageTransaction) (value : Text)
    → length value < 32
    → set_package_transaction_field t (codes "tool") value
      ≡ ok (record t { identity = record t.identity { tool = value } })
unfolding set_package_transaction_field text_eq text_copy
set_tool t value h = ground (arith, h)

set_target :
    (t : PackageTransaction) (value : Text)
    → length value < 64
    → set_package_transaction_field t (codes "target_platform") value
      ≡ ok (record t { identity = record t.identity { target_platform = value } })
unfolding set_package_transaction_field text_eq text_copy
set_target t value h = ground (arith, h)

set_version :
    (t : PackageTransaction) (value : Text)
    → length value < 32
    → set_package_transaction_field t (codes "package_version") value
      ≡ ok (record t { identity = record t.identity { version = value } })
unfolding set_package_transaction_field text_eq text_copy
set_version t value h = ground (arith, h)

set_name :
    (t : PackageTransaction) (value : Text)
    → length value < 384
    → set_package_transaction_field t (codes "temporary_name") value
      ≡ ok (record t { temporary_name = value })
unfolding set_package_transaction_field text_eq text_copy
set_name t value h = ground (arith, h)

set_format :
    (t : PackageTransaction) → set_package_transaction_field t (codes "format") (codes "2") ≡ ok t
unfolding set_package_transaction_field text_eq
set_format t = refl

-- What the parser makes of the fields: the host is not in the journal.
abbrev pub candidate : PackageTransaction → PackageTransaction
candidate t = record {
  operation = t.operation;
  identity = record t.identity { host_platform = [] };
  temporary_name = t.temporary_name;
  file_identity = no_identity;
}

pub visit_all-candidate :
    (t : PackageTransaction)
    → IsIdentity t.identity
    → transaction_temporary_name_is_valid t ≡ true
    → visit_all
        (some package_journal_keys)
        set_package_transaction_field
        package_transaction_init
        (first_field ∷ later_fields t)
      ≡ ok (candidate t)
unfolding visit_all
visit_all-candidate t v h =
    let z = IsIdentity-Sizes t v h in
    rw
      (
        set_format _,
        set_operation _ t.operation (name_is_valid-operation t h),
        set_component _ t.identity.component z.component,
        set_tool _ t.identity.tool z.tool,
        set_target _ t.identity.target_platform z.target,
        set_version _ t.identity.version z.version,
        set_name _ t.temporary_name z.name,
      )
      refl

pub fields-Ordered :
    (t : PackageTransaction)
    → Ordered
        (some package_journal_keys)
        set_package_transaction_field
        0
        (first_field ∷ later_fields t)
unfolding in_order text_eq
fields-Ordered t = (refl, (refl, (refl, (refl, (refl, (refl, (refl, tt)))))))

pub all_fields_read :
    all_keys_read (some package_journal_keys) set_package_transaction_field 7 ≡ true
unfolding all_keys_read
all_fields_read = refl
