-- ===== src/Transaction/Written.antt =====
-- The fields that `write_package_journal` writes, and their sizes (src/package_transaction.c).
use mathlib.Core.List.{append_assoc}
use cup.Base.{
  ◌||◌, ltb, ◌==◌, &&-true_iff, ℕ, ◌<◌, Bool, true, false, not, List, [], ◌∷◌, ◌≡◌, refl, arith,
  length, all, is_nil, Text, codes,
}
use cup.Path.{path_is_safe_segment, is_segment_byte}
use cup.Package.{package_identity_init, package_identity_validate, copy_field}
use cup.Package.Laws.{IsIdentity}
use cup.Text.Fields.{is_graphic}
use cup.Journal.Document.{Field, document}
use cup.Transaction.{
  PackageTransaction, package_operation_is_valid, package_operation_name,
  transaction_temporary_name_is_valid, layout_build_staging_prefix, write_package_journal,
}

-- The fields of the journal, in the order of `package_journal_keys`.
abbrev pub first_field : Field
first_field = (codes "format", codes "2")

abbrev pub later_fields : PackageTransaction → List Field
later_fields t =
    (codes "operation", package_operation_name t.operation)
    ∷ (codes "component", t.identity.component)
    ∷ (codes "tool", t.identity.tool)
    ∷ (codes "target_platform", t.identity.target_platform)
    ∷ (codes "package_version", t.identity.version)
    ∷ (codes "temporary_name", t.temporary_name)
    ∷ []

pub write_package_journal-document :
    (t : PackageTransaction) → write_package_journal t ≡ document (first_field ∷ later_fields t)
unfolding write_package_journal
write_package_journal-document t =
    rw
      (
        append_assoc (package_operation_name t.operation) (b'\n' ∷ []) _,
        append_assoc t.identity.component (b'\n' ∷ []) _,
        append_assoc t.identity.tool (b'\n' ∷ []) _,
        append_assoc t.identity.target_platform (b'\n' ∷ []) _,
        append_assoc t.identity.version (b'\n' ∷ []) _,
      )
      refl

-- A segment is written and read back as it is.
pub record IsValue (value : Text) : Type 0 where
  pub graphic : all is_graphic value ≡ true
  pub ne_nil : is_nil value ≡ false

in_range :
    (low high slash back colon star ask quote less more bar : Bool)
    → not (low || high || slash || back || colon || star || ask || quote || less || more || bar)
      ≡ true
    → (low || high) ≡ false
in_range false false slash back colon star ask quote less more bar h = refl
in_range _ _ slash back colon star ask quote less more bar h = ground arith

range-graphic : (c : ℕ) → (ltb c 0x21 || ltb 0x7e c) ≡ false → is_graphic c ≡ true
range-graphic c h = ground arith

segment_byte-graphic : (c : ℕ) → is_segment_byte c ≡ true → is_graphic c ≡ true
unfolding is_segment_byte
segment_byte-graphic c h = range-graphic c (
    in_range (ltb c 0x21) (ltb 0x7e c) (c == b'/') (c == b'\\') (c == b':') (c == b'*') (c == b'?')
      (c == b'"') (c == b'<') (c == b'>') (c == b'|') h)

pub segment_bytes-graphic : (s : Text) → all is_segment_byte s ≡ true → all is_graphic s ≡ true
segment_bytes-graphic [] h = refl
segment_bytes-graphic (c ∷ cs) h =
    let (first, rest) = (&&-true_iff (is_segment_byte c) (all is_segment_byte cs)).0 h in
    (&&-true_iff (is_graphic c) (all is_graphic cs)).1
      (segment_byte-graphic c first, segment_bytes-graphic cs rest)

pub segment-IsValue : (s : Text) → path_is_safe_segment s ≡ true → IsValue s
unfolding path_is_safe_segment
segment-IsValue s h = record {
  graphic = segment_bytes-graphic s (ground arith);
  ne_nil = ground arith;
}

pub record Sizes (t : PackageTransaction) : Type 0 where
  pub component : length t.identity.component < 32
  pub tool : length t.identity.tool < 32
  pub target : length t.identity.target_platform < 64
  pub version : length t.identity.version < 32
  pub name : length t.temporary_name < 384

pub IsIdentity-Sizes :
    (t : PackageTransaction)
    → IsIdentity t.identity
    → transaction_temporary_name_is_valid t ≡ true
    → Sizes t
unfolding package_identity_validate package_identity_init copy_field
    transaction_temporary_name_is_valid
IsIdentity-Sizes t v n = record {
  component = ground arith;
  tool = ground arith;
  target = ground arith;
  version = ground arith;
  name = ground arith;
}

-- The values in a journal that can be loaded.
pub record Values (t : PackageTransaction) : Type 0 where
  pub component : IsValue t.identity.component
  pub tool : IsValue t.identity.tool
  pub target : IsValue t.identity.target_platform
  pub version : IsValue t.identity.version
  pub name : IsValue t.temporary_name

record Segments (t : PackageTransaction) : Type 0 where
  pub component : path_is_safe_segment t.identity.component ≡ true
  pub tool : path_is_safe_segment t.identity.tool ≡ true
  pub target : path_is_safe_segment t.identity.target_platform ≡ true
  pub version : path_is_safe_segment t.identity.version ≡ true
  pub name : path_is_safe_segment t.temporary_name ≡ true

name_is_valid-Segments :
    (t : PackageTransaction) → transaction_temporary_name_is_valid t ≡ true → Segments t
unfolding transaction_temporary_name_is_valid layout_build_staging_prefix
name_is_valid-Segments t h = record {
  component = ground arith;
  tool = ground arith;
  target = ground arith;
  version = ground arith;
  name = ground arith;
}

pub name_is_valid-Values :
    (t : PackageTransaction) → transaction_temporary_name_is_valid t ≡ true → Values t
name_is_valid-Values t h =
    let s = name_is_valid-Segments t h in
    record {
      component = segment-IsValue t.identity.component s.component;
      tool = segment-IsValue t.identity.tool s.tool;
      target = segment-IsValue t.identity.target_platform s.target;
      version = segment-IsValue t.identity.version s.version;
      name = segment-IsValue t.temporary_name s.name;
    }

pub name_is_valid-operation :
    (t : PackageTransaction)
    → transaction_temporary_name_is_valid t ≡ true
    → package_operation_is_valid t.operation ≡ true
unfolding transaction_temporary_name_is_valid
name_is_valid-operation t h = ground arith
