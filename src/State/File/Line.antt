-- ===== src/State/File/Line.antt =====
-- One line of state.txt that is written, and read back (src/state.c).
use cup.Base.{
  ℕ, ◌<◌, Bool, true, false, ◌∷◌, ◌++◌, ◌≡◌, refl, sym, ap, ◌∙◌, arith, length, length-append, all,
  is_nil, Text, codes,
}
use mathlib.Core.List.{append_assoc}
use cup.Errors.{ok}
use cup.Text.{text_copy}
use cup.Text.Reader.{is_skipped}
use cup.Text.Fields.{is_graphic}
use cup.Text.Lines.{IsLine, all_append}
use cup.Registry.{registry_is_component, registry_is_tool, platform_is_supported}
use cup.Registry.Names.{Bytes, plain-Bytes, component-is_plain, platform-is_plain, tool-is_plain}
use cup.Selector.{package_release_validate_concrete, check_tool}
use cup.Selector.Written.{tool-canonical, concrete_version, version_graphic}
use cup.Package.{
  PackageIdentity, package_scope_init, package_identity_init, package_identity_validate, copy_field,
}
use cup.Package.Laws.{IsIdentity}
use cup.State.File.{StateRecordType, installed, default, kind_name, record_line, max_state_line_len}

-- What a valid identity has for names.
pub record Names (x : PackageIdentity) : Type 0 where
  pub component : Bytes x.component
  pub tool : Bytes x.tool
  pub target : Bytes x.target_platform
  pub canonical : check_tool x.tool ≡ ok tt
  pub concrete : package_release_validate_concrete x.version ≡ ok tt

identity-names :
    (x : PackageIdentity)
    → IsIdentity x
    → (registry_is_component x.component ≡ true)
      × (registry_is_tool x.component x.tool ≡ true)
      × (platform_is_supported x.target_platform ≡ true)
      × (package_release_validate_concrete x.version ≡ ok tt)
unfolding package_identity_validate package_identity_init package_scope_init copy_field text_copy
identity-names x h = (ground arith, ground arith, ground arith, ground arith)

pub identity-Names : (x : PackageIdentity) → IsIdentity x → Names x
identity-Names x h =
    let (c, t, p, v) = identity-names x h in
    record {
      component = plain-Bytes x.component (component-is_plain x.component c);
      tool = plain-Bytes x.tool (tool-is_plain x.component x.tool t);
      target = plain-Bytes x.target_platform (platform-is_plain x.target_platform p);
      canonical = tool-canonical x.component x.tool t;
      concrete = v;
    }

-- The key and the selector of a record.
abbrev pub record_key : StateRecordType → PackageIdentity → Text
record_key kind x = kind_name kind ++ (b'.' ∷ x.component ++ (b'.' ∷ x.target_platform))

abbrev pub selector_text : PackageIdentity → Text
selector_text x = x.tool ++ (b'@' ∷ x.version)

abbrev pub record_text : StateRecordType → PackageIdentity → Text
record_text kind x = record_line kind x (selector_text x)

pub record_text-key :
    (kind : StateRecordType) (x : PackageIdentity)
    → record_text kind x ≡ record_key kind x ++ (b'=' ∷ selector_text x)
unfolding record_line
record_text-key kind x = sym (
    append_assoc (kind_name kind) (b'.' ∷ x.component ++ (b'.' ∷ x.target_platform)) _
    ∙ ap (λ (t : Text). kind_name kind ++ (b'.' ∷ t))
        (append_assoc x.component (b'.' ∷ x.target_platform) _))

pub record_key-all :
    (q : ℕ → Bool) (kind : StateRecordType) (x : PackageIdentity)
    → all q (kind_name kind) ≡ true
    → q b'.' ≡ true
    → all q x.component ≡ true
    → all q x.target_platform ≡ true
    → all q (record_key kind x) ≡ true
record_key-all q kind x k d c t = all_append q (kind_name kind) _ k (
    ground (arith, d, all_append q x.component (b'.' ∷ x.target_platform) c (ground (arith, d, t))))

pub kind_name-all :
    (q : ℕ → Bool) (kind : StateRecordType)
    → all q (codes "installed") ≡ true
    → all q (codes "default") ≡ true
    → all q (kind_name kind) ≡ true
kind_name-all q installed a b = a
kind_name-all q default a b = b

pub record_key-ne_nil :
    (kind : StateRecordType) (x : PackageIdentity) → is_nil (record_key kind x) ≡ false
record_key-ne_nil installed x = refl
record_key-ne_nil default x = refl

pub record_key-length :
    (kind : StateRecordType) (x : PackageIdentity) → Names x → length (record_key kind x) < 80
record_key-length installed x n =
    omega (
      arith,
      length-append x.component (b'.' ∷ x.target_platform),
      n.component.short,
      n.target.short,
    )
record_key-length default x n =
    omega (
      arith,
      length-append x.component (b'.' ∷ x.target_platform),
      n.component.short,
      n.target.short,
    )

pub selector_text-length : (x : PackageIdentity) → Names x → length (selector_text x) < 64
selector_text-length x n = omega (
  arith,
  length-append x.tool (b'@' ∷ x.version),
  n.tool.short,
  (concrete_version x.version n.concrete).2,
)

pub selector_text-graphic :
    (x : PackageIdentity) → Names x → all is_graphic (selector_text x) ≡ true
selector_text-graphic x n =
    all_append is_graphic x.tool (b'@' ∷ x.version) n.tool.graphic
      (ground (arith, version_graphic x.version (concrete_version x.version n.concrete).0))

pub record_key-graphic :
    (kind : StateRecordType) (x : PackageIdentity)
    → Names x
    → all is_graphic (record_key kind x) ≡ true
record_key-graphic kind x n =
    record_key-all is_graphic kind x (kind_name-all is_graphic kind refl refl) refl
      n.component.graphic n.target.graphic

-- The line survives the reader.
record_text-counts :
    (kind : StateRecordType) (x : PackageIdentity) → is_skipped (record_text kind x) ≡ false
unfolding is_skipped record_line
record_text-counts installed x = refl
record_text-counts default x = refl

pub record_text-IsLine :
    (kind : StateRecordType) (x : PackageIdentity)
    → Names x
    → IsLine max_state_line_len (record_text kind x)
record_text-IsLine kind x n = record {
  graphic = rw (record_text-key kind x) (
      all_append is_graphic (record_key kind x) (b'=' ∷ selector_text x)
        (record_key-graphic kind x n) (ground (arith, selector_text-graphic x n)));
  counts = record_text-counts kind x;
  fits = rw (record_text-key kind x) (
      omega (
        arith,
        length-append (record_key kind x) (b'=' ∷ selector_text x),
        record_key-length kind x n,
        selector_text-length x n,
      ));
}
