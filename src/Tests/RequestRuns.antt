-- ===== src/Tests/RequestRuns.antt =====
-- A run of src/package_request.c, and its theorem at it.
use cup.Selector.{
  package_selector_parse, package_release_is_stable, package_release_validate_concrete,
  package_selector_format_parts,
}
use cup.Text.{text_copy}
use cup.Base.{true, ◌≡◌, refl, ◌≢◌, ◌⊎◌, [], some, Text, codes, arith, text_eq}
use cup.Errors.{cup_ok, Result, ok, err}
use cup.Registry.{platform_is_supported, registry_validate_component, registry_validate_tool}
use cup.PackageRequest.{PackageRequest, package_request_parse, package_request_resolve}
use cup.PackageRequest.Resolved.{IsResolved, resolve-outcome}

abbrev host : Text
host = codes "linux-x64"

-- The catalog has one stable release, and is no more than it.
abbrev stable_of : Text → Text → Text → Text → Text → Result Text
stable_of release component tool on target = ok release

stable_reports :
    (release component tool on target : Text)
    → stable_of release component tool on target ≢ err cup_ok
stable_reports release component tool on target e = ground (arith, e)

abbrev wants_stable : PackageRequest
wants_stable = record {
  selector = record { tool = codes "gcc"; release = codes "stable" };
  resolved_release = [];
  input_selector = codes "gcc@stable";
  resolved_selector = [];
}

parsed : package_request_parse (codes "compiler") (codes "gcc@stable") ≡ ok wants_stable
unfolding package_request_parse registry_validate_component text_eq text_copy package_selector_parse
    registry_validate_tool
parsed = refl

linux_supported : platform_is_supported host ≡ true
unfolding platform_is_supported text_eq
linux_supported = refl

resolves :
    package_request_resolve stable_of
      (some (codes "14.1.0"))
      (codes "compiler")
      host
      host
      wants_stable
    ≡ (
      cup_ok,
      record wants_stable {
        resolved_release = codes "14.1.0";
        resolved_selector = codes "gcc@14.1.0";
      },
    )
unfolding package_request_resolve package_release_is_stable text_eq
    package_release_validate_concrete package_selector_format_parts
resolves = refl

resolve-outcome_example :
    (((package_request_resolve stable_of
          (some (codes "14.1.0"))
          (codes "compiler")
          host
          host
          wants_stable).0
        ≡ cup_ok)
      × IsResolved stable_of
          (some (codes "14.1.0"))
          (codes "compiler")
          host
          host
          wants_stable
          (package_request_resolve stable_of
            (some (codes "14.1.0"))
            (codes "compiler")
            host
            host
            wants_stable).1)
    ⊎ (((package_request_resolve stable_of
            (some (codes "14.1.0"))
            (codes "compiler")
            host
            host
            wants_stable).0
          ≢ cup_ok)
        × ((package_request_resolve stable_of
              (some (codes "14.1.0"))
              (codes "compiler")
              host
              host
              wants_stable).1
            ≡ wants_stable))
resolve-outcome_example =
    resolve-outcome stable_of stable_reports (some (codes "14.1.0")) (codes "compiler") host host
      (codes "gcc@stable") wants_stable parsed linux_supported linux_supported
