-- ===== src/PackageRequest.antt =====
-- src/package_request.c: a package that a command asks for, and the release that it resolves to.
-- `resolve_stable` is `package_catalog_resolve_stable` on the catalog, the component, the tool, the
-- host and the target. `package_request_print` only prints.
pub mod Resolved
use cup.Base.{Bool, true, false, ◌||◌, Option, none, some, [], if◌then◌else◌, is_nil, Text}
use cup.Errors.{
  CupError, cup_ok, invalid_input, invalid_release, invalid_tool, buffer_too_small, catalog, Result,
  ok, err, ◌>>=◌, ◌>>◌,
}
use cup.Text.{text_copy}
use cup.Registry.{max_identifier_len, registry_validate_component, registry_validate_tool}
use cup.Selector.{
  PackageSelector, max_selector_len, package_release_is_stable, package_release_validate_concrete,
  package_selector_parse, package_selector_format_parts,
}

pub record PackageRequest : Type 0 where
  pub selector : PackageSelector
  pub resolved_release : Text
  pub input_selector : Text
  pub resolved_selector : Text

request_error : CupError → CupError
request_error invalid_release = invalid_release
request_error invalid_tool = invalid_tool
request_error buffer_too_small = buffer_too_small
request_error e = invalid_input

requested : Result PackageSelector → Result PackageSelector
unfolding request_error
requested (err e) = err (request_error e)
requested (ok selector) = ok selector

unfoldable pub package_request_parse : Text → Text → Result PackageRequest
unfolding requested
package_request_parse component selector_text =
    if is_nil component || is_nil selector_text then err invalid_input else do
      registry_validate_component component
      input ← text_copy max_selector_len selector_text
      selector ← requested (package_selector_parse selector_text)
      registry_validate_tool component selector.tool
      ok (record {
        selector = selector;
        resolved_release = [];
        input_selector = input;
        resolved_selector = [];
      })

-- The end of `package_request_resolve`, which has emptied the fields first.
resolved_fields : PackageRequest → Result (Text × Text) → CupError × PackageRequest
resolved_fields request (err e) = (e, request)
resolved_fields request (ok (release, selector)) =
    (cup_ok, record request { resolved_release = release; resolved_selector = selector })

module _ {ℓ} {Catalog : Type ℓ}
    (resolve_stable : Catalog → Text → Text → Text → Text → Result Text) where
  unfoldable pub resolve_release :
      Option Catalog → Text → Text → Text → PackageSelector → Result Text
  resolve_release packages component host target selector =
      elim (package_release_is_stable selector.release) [
        | false ↦ text_copy max_identifier_len selector.release
        | true ↦ elim packages [
          | none ↦ err catalog
          | some c ↦ resolve_stable c component selector.tool host target
        ]
      ]

  unfoldable pub resolve_parts :
      Option Catalog → Text → Text → Text → PackageSelector → Result (Text × Text)
  unfolding resolve_release
  resolve_parts packages component host target selector = do
    release ← resolve_release packages component host target selector
    package_release_validate_concrete release
    text ← package_selector_format_parts max_selector_len selector.tool release
    ok (release, text)

  unfoldable pub package_request_resolve :
      Option Catalog → Text → Text → Text → PackageRequest → CupError × PackageRequest
  unfolding resolve_parts resolved_fields
  package_request_resolve packages component host target request =
      resolved_fields (record request { resolved_release = []; resolved_selector = [] })
        (resolve_parts packages component host target request.selector)
