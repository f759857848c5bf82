-- ===== src/Package/Laws.antt =====
-- Equality and scopes of identities (src/package.c).
use mathlib.Core.Path.{◌≡◌}
use mathlib.Core.Path.{subst}
use cup.Base.{sym, ap, ℕ, true, ◌↔◌, arith, Text, text_eq_iff}
use cup.Errors.{Result, ok, ◌>>=◌}
use cup.Text.{text_copy}
use cup.Package.{
  PackageScope, PackageIdentity, package_identity_equals, copy_field, copy_scope,
  package_scope_init, package_identity_init, package_identity_validate, package_identity_get_scope,
}

pub package_identity_equals_iff :
    (a b : PackageIdentity) → (package_identity_equals a b ≡ true) ↔ (a ≡ b)
unfolding package_identity_equals
package_identity_equals_iff a b = ground (
  arith,
  text_eq_iff a.component b.component,
  text_eq_iff a.tool b.tool,
  text_eq_iff a.host_platform b.host_platform,
  text_eq_iff a.target_platform b.target_platform,
  text_eq_iff a.version b.version,
)

abbrev pub scope_of : PackageIdentity → PackageScope
scope_of identity = record {
  component = identity.component;
  host_platform = identity.host_platform;
  target_platform = identity.target_platform;
}

abbrev pub IsIdentity : PackageIdentity → Type 0
IsIdentity identity = package_identity_validate identity ≡ ok tt

copy_field-eq_ok :
    (size : ℕ) (source : Text) {copied : Text}
    → copy_field size source ≡ ok copied
    → copied ≡ source
unfolding copy_field text_copy
copy_field-eq_ok size source h = ground arith

copy_scope-eq_ok :
    (c h t : Text) {scope : PackageScope}
    → copy_scope c h t ≡ ok scope
    → scope ≡ record { component = c; host_platform = h; target_platform = t }
unfolding copy_scope copy_field text_copy
copy_scope-eq_ok c h t e = ground arith

package_scope_init-eq_ok :
    (c h t : Text) {scope : PackageScope}
    → package_scope_init c h t ≡ ok scope
    → copy_scope c h t ≡ ok scope
unfolding package_scope_init
package_scope_init-eq_ok c h t e = ground arith

pub package_identity_get_scope-IsIdentity :
    (x : PackageIdentity) → IsIdentity x → package_identity_get_scope x ≡ ok (scope_of x)
unfolding package_identity_validate package_identity_init package_identity_get_scope
package_identity_get_scope-IsIdentity x h = ground arith

-- An identity that `package_identity_init` builds holds its arguments.
package_identity_init-eq_ok :
    (c t h p v : Text) {x : PackageIdentity}
    → package_identity_init c t h p v ≡ ok x
    → x ≡ record { component = c; tool = t; host_platform = h; target_platform = p; version = v }
unfolding package_identity_init copy_scope copy_field text_copy package_scope_init
package_identity_init-eq_ok c t h p v e = ground arith

arguments-IsIdentity :
    (c t h p v : Text) {x : PackageIdentity}
    → package_identity_init c t h p v ≡ ok x
    → IsIdentity
        (record { component = c; tool = t; host_platform = h; target_platform = p; version = v })
unfolding package_identity_validate
arguments-IsIdentity c t h p v {x} e = ap and_done e
  where
    and_done : Result PackageIdentity → Result (Unit {0})
    and_done r = r >>= λ validated. ok tt

pub package_identity_init-IsIdentity :
    (c t h p v : Text) {x : PackageIdentity}
    → package_identity_init c t h p v ≡ ok x
    → IsIdentity x × (x.host_platform ≡ h)
package_identity_init-IsIdentity c t h p v {x} e =
    let same = package_identity_init-eq_ok c t h p v e in
    (subst IsIdentity (sym same) (arguments-IsIdentity c t h p v e), ap (λ y. y.host_platform) same)

-- A scope that `package_scope_init` builds holds its arguments.
pub package_scope_init-eq :
    (c h t : Text) {scope : PackageScope}
    → package_scope_init c h t ≡ ok scope
    → scope ≡ record { component = c; host_platform = h; target_platform = t }
package_scope_init-eq c h t e = copy_scope-eq_ok c h t (package_scope_init-eq_ok c h t e)

-- A valid identity is what its own parts make.
pub same_identity :
    (x : PackageIdentity)
    → IsIdentity x
    → package_identity_init x.component x.tool x.host_platform x.target_platform x.version ≡ ok x
unfolding package_identity_validate package_identity_init copy_field
same_identity x h = ground arith
