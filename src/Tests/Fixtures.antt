-- ===== src/Tests/Fixtures.antt =====
-- Packages and states that the runs share.
use cup.Base.{[], ◌∷◌, refl, ◌≡◌, text_eq, codes}
use cup.Errors.{cup_ok, ok, Result}
use cup.Registry.{registry_is_component, registry_is_tool, platform_is_supported}
use cup.Selector.{package_release_validate_concrete}
use cup.Package.{
  PackageIdentity, PackageScope, package_identity_validate, package_identity_init,
  package_identity_get_scope, package_identity_equals, package_scope_init,
}
use cup.Package.Laws.{scope_of}
use cup.State.{
  CupState, state_validate, validate_installed, validate_defaults, identity_scope,
  identity_matches_scope, find_index,
}
use cup.State.Valid.{IsValid}
use cup.State.Validate.{state_validate_iff}

abbrev pub gcc13 : PackageIdentity
gcc13 = record {
  component = codes "compiler";
  tool = codes "gcc";
  host_platform = codes "linux-x64";
  target_platform = codes "linux-x64";
  version = codes "13.2.0";
}

abbrev pub gcc14 : PackageIdentity
gcc14 = record gcc13 { version = codes "14.1.0-rev2" }

abbrev pub clang18 : PackageIdentity
clang18 = record gcc13 { tool = codes "clang"; version = codes "18.1.8" }

abbrev pub compilers : PackageScope
compilers = scope_of gcc13

abbrev pub two_gccs : CupState
two_gccs = record { installed = gcc13 ∷ gcc14 ∷ []; installed_capacity = 8; defaults = gcc13 ∷ [] }

-- Opens what validation calls.
unfoldable pub validating : Result (Unit {0})
unfolding package_identity_validate package_identity_init package_identity_get_scope
    package_scope_init registry_is_component registry_is_tool platform_is_supported
    package_release_validate_concrete package_identity_equals text_eq
validating = ok tt

gcc13_valid : package_identity_validate gcc13 ≡ ok tt
unfolding validating
gcc13_valid = refl

pub two_gccs_validate : state_validate two_gccs ≡ cup_ok
unfolding validating state_validate validate_installed validate_defaults identity_scope
    identity_matches_scope find_index
two_gccs_validate = refl

pub two_gccs-IsValid : IsValid two_gccs
two_gccs-IsValid = (state_validate_iff two_gccs).0 two_gccs_validate
