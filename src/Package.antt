-- ===== src/Package.antt =====
-- The identities of src/package.c: scopes, validation, equality, selectors and the sort order.
pub mod Laws
use cup.Base.{
  ℕ, Bool, true, false, not, ◌&&◌, ◌||◌, Option, none, some, Ordering, ◌==◌, if◌then◌else◌, is_nil,
  Text, text_eq, strcmp,
}
use cup.Errors.{
  Result, ok, err, invalid_input, unsupported_component, invalid_tool, buffer_too_small, ◌>>=◌,
  ◌>>◌,
}
use cup.Text.{text_copy}
use cup.Registry.{
  max_identifier_len, max_platform_len, registry_is_component, registry_is_tool,
  platform_is_supported,
}
use cup.Selector.{
  package_release_validate_concrete, package_release_compare, package_selector_parse,
  package_selector_format_parts,
}

-- `ScopeKey`
pub record PackageScope : Type 0 where
  pub component : Text
  pub host_platform : Text
  pub target_platform : Text

pub record PackageIdentity : Type 0 where
  pub component : Text
  pub tool : Text
  pub host_platform : Text
  pub target_platform : Text
  pub version : Text

-- A copy into a field; every failure is reported as a short buffer.
unfoldable pub copy_field : ℕ → Text → Result Text
unfolding text_copy
copy_field size source = elim (text_copy size source) [
  | ok copied ↦ ok copied
  | err _ ↦ err buffer_too_small
]

unfoldable pub copy_scope : Text → Text → Text → Result PackageScope
unfolding copy_field
copy_scope component host target = do
  c ← copy_field max_identifier_len component
  h ← copy_field max_platform_len host
  t ← copy_field max_platform_len target
  ok (record { component = c; host_platform = h; target_platform = t })

unfoldable pub package_scope_init : Text → Text → Text → Result PackageScope
unfolding copy_scope
package_scope_init component host target =
    if is_nil component || is_nil host || is_nil target
    then err invalid_input
    else if not (registry_is_component component)
    then err unsupported_component
    else if not (platform_is_supported host)
    then err invalid_input
    else if not (platform_is_supported target)
    then err invalid_input
    else copy_scope component host target

unfoldable pub package_scope_equals : PackageScope → PackageScope → Bool
package_scope_equals left right =
    text_eq left.component right.component
    && text_eq left.host_platform right.host_platform
    && text_eq left.target_platform right.target_platform

unfoldable pub package_identity_get_scope : PackageIdentity → Result PackageScope
unfolding copy_scope
package_identity_get_scope identity =
    copy_scope identity.component identity.host_platform identity.target_platform

unfoldable pub package_identity_equals : PackageIdentity → PackageIdentity → Bool
package_identity_equals left right =
    text_eq left.component right.component
    && text_eq left.tool right.tool
    && text_eq left.host_platform right.host_platform
    && text_eq left.target_platform right.target_platform
    && text_eq left.version right.version

-- A filter that is absent lets everything through.
filter_admits : Option Text → Text → Bool
filter_admits none value = true
filter_admits (some wanted) value = text_eq value wanted

unfoldable pub package_identity_matches : PackageIdentity → Text → Option Text → Option Text → Bool
unfolding filter_admits
package_identity_matches identity host target component =
    if is_nil host
    then false
    else text_eq identity.host_platform host
      && filter_admits target identity.target_platform
      && filter_admits component identity.component

-- The next comparison decides where one is equal.
infixr 30 ◌then_by◌
unfoldable pub ◌then_by◌ : Ordering → Ordering → Ordering
Ordering.lt then_by next = Ordering.lt
Ordering.eq then_by next = next
Ordering.gt then_by next = Ordering.gt

unfoldable pub compare_versions : Text → Text → Ordering
unfolding package_release_compare
compare_versions left right = elim (package_release_compare left right) [
  | ok result ↦ result
  | err _ ↦ strcmp left right
]

unfoldable pub compare_identity_values : PackageIdentity → PackageIdentity → Ordering
unfolding ◌then_by◌ compare_versions
compare_identity_values left right =
    strcmp left.host_platform right.host_platform
    then_by strcmp left.target_platform right.target_platform
    then_by strcmp left.component right.component
    then_by strcmp left.tool right.tool
    then_by compare_versions left.version right.version

-- `package_identity_init_with_diagnostics`; the diagnostics are not modelled.
unfoldable pub package_identity_init : Text → Text → Text → Text → Text → Result PackageIdentity
unfolding package_scope_init copy_field
package_identity_init component tool host target version =
    if is_nil tool || is_nil version then err invalid_input else do
      scope ← package_scope_init component host target
      elim (registry_is_tool scope.component tool) [
        | false ↦ err invalid_tool
        | true ↦ (do
          package_release_validate_concrete version
          c ← copy_field max_identifier_len scope.component
          t ← copy_field max_identifier_len tool
          h ← copy_field max_platform_len scope.host_platform
          p ← copy_field max_platform_len scope.target_platform
          v ← copy_field max_identifier_len version
          ok (record {
            component = c;
            tool = t;
            host_platform = h;
            target_platform = p;
            version = v;
          }))
      ]

unfoldable pub package_identity_validate : PackageIdentity → Result (Unit {0})
unfolding package_identity_init
package_identity_validate identity = do
  validated ←
      package_identity_init identity.component identity.tool identity.host_platform
        identity.target_platform identity.version
  ok tt

unfoldable pub package_identity_format_selector : PackageIdentity → ℕ → Result Text
unfolding package_identity_validate package_selector_format_parts
package_identity_format_selector identity size = if size == 0 then err invalid_input else do
  package_identity_validate identity
  package_selector_format_parts size identity.tool identity.version

unfoldable pub package_identity_from_selector : Text → Text → Text → Text → Result PackageIdentity
unfolding package_selector_parse package_identity_init
package_identity_from_selector component host target selector_text = do
  selector ← package_selector_parse selector_text
  package_identity_init component selector.tool host target selector.release
