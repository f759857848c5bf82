-- ===== src/PackageRequest/Resolved.antt =====
-- What a request resolves to (src/package_request.c).
use cup.Base.{
  true, false, Option, none, some, [], ◌||◌, ◌∷◌, ◌++◌, ◌≡◌, refl, ◌≢◌, ◌⊎◌, inl, inr, arith,
  length-append, is_nil, Text, Bool-cases,
}
use cup.Errors.{bind-eq_ok, CupError, cup_ok, Result, ok, err}
use cup.Text.{text_copy, text_format}
use cup.Registry.{
  registry_is_component, registry_is_tool, platform_is_supported, registry_validate_component,
  registry_validate_tool,
}
use cup.Registry.Names.{plain-Bytes, tool-is_plain, component-is_plain, platform-is_plain}
use cup.Selector.{
  PackageSelector, package_release_is_stable, package_release_validate_concrete,
  package_selector_parse, package_selector_format_parts, max_selector_len,
}
use cup.Selector.Written.{tool-canonical, package_selector_parse-written, concrete_version}
use cup.Package.{
  package_scope_init, package_identity_init, package_identity_from_selector, copy_field, copy_scope,
}
use cup.State.Validate.{Result-cases}
use cup.PackageRequest.{
  PackageRequest, requested, package_request_parse, resolved_fields, resolve_release, resolve_parts,
  package_request_resolve,
}

-- What a parsed request has.
record IsParsed (component text : Text) (r : PackageRequest) : Type 0 where
  is_component : registry_is_component component ≡ true
  is_tool : registry_is_tool component r.selector.tool ≡ true
  no_release : r.resolved_release ≡ []
  no_selector : r.resolved_selector ≡ []

validate_tool-registered :
    (component tool : Text)
    → registry_validate_tool component tool ≡ ok tt
    → (registry_is_component component ≡ true) × (registry_is_tool component tool ≡ true)
unfolding registry_validate_tool
validate_tool-registered component tool h = (ground arith, ground arith)

parse-IsParsed :
    (component text : Text) (r : PackageRequest)
    → package_request_parse component text ≡ ok r
    → IsParsed component text r
unfolding package_request_parse
parse-IsParsed component text r h = elim (Bool-cases (is_nil component || is_nil text)) [
  | inl empty ↦ absurd (ground (arith, empty))
  | inr some_text ↦
      (let (_, _, a) = bind-eq_ok (registry_validate_component component) _ (rw some_text at h) in
        let (input, _, b) = bind-eq_ok (text_copy max_selector_len text) _ a in
        let (selector, _, c) = bind-eq_ok (requested (package_selector_parse text)) _ b in
        let (_, named, d) = bind-eq_ok (registry_validate_tool component selector.tool) _ c in
        let (first, second) = validate_tool-registered component selector.tool named in
        record {
          is_component = first;
          is_tool = ground (arith, d, second);
          no_release = ground (arith, d);
          no_selector = ground (arith, d);
        })
]

identity_init-written :
    (component tool release host target : Text)
    → registry_is_component component ≡ true
    → registry_is_tool component tool ≡ true
    → platform_is_supported host ≡ true
    → platform_is_supported target ≡ true
    → package_release_validate_concrete release ≡ ok tt
    → package_identity_init component tool host target release
      ≡ ok (record {
        component = component;
        tool = tool;
        host_platform = host;
        target_platform = target;
        version = release;
      })
unfolding package_identity_init package_scope_init copy_scope copy_field text_copy
identity_init-written component tool release host target c t h p v =
    let x = plain-Bytes component (component-is_plain component c) in
    let y = plain-Bytes tool (tool-is_plain component tool t) in
    let z = plain-Bytes host (platform-is_plain host h) in
    let w = plain-Bytes target (platform-is_plain target p) in
    let u = concrete_version release v in
    ground
      (arith, x.ne_nil, x.short, y.ne_nil, y.short, z.ne_nil, z.short, w.ne_nil, w.short, u.1, u.2)

from_selector-written :
    (component tool release host target : Text)
    → registry_is_component component ≡ true
    → registry_is_tool component tool ≡ true
    → platform_is_supported host ≡ true
    → platform_is_supported target ≡ true
    → package_release_validate_concrete release ≡ ok tt
    → package_identity_from_selector component host target (tool ++ (b'@' ∷ release))
      ≡ ok (record {
        component = component;
        tool = tool;
        host_platform = host;
        target_platform = target;
        version = release;
      })
unfolding package_identity_from_selector
from_selector-written component tool release host target c t h p v =
    rw
      (package_selector_parse-written tool release
        (plain-Bytes tool (tool-is_plain component tool t)) (tool-canonical component tool t) v)
      (identity_init-written component tool release host target c t h p v)

format_parts-written :
    (component tool release : Text)
    → registry_is_tool component tool ≡ true
    → package_release_validate_concrete release ≡ ok tt
    → package_selector_format_parts max_selector_len tool release ≡ ok (tool ++ (b'@' ∷ release))
unfolding package_selector_format_parts text_format
format_parts-written component tool release t v =
    let x = plain-Bytes tool (tool-is_plain component tool t) in
    let u = concrete_version release v in
    ground (arith, x.ne_nil, x.short, u.1, u.2, length-append tool (b'@' ∷ release))

concrete-error :
    (release : Text) (e : CupError) → package_release_validate_concrete release ≡ err e → e ≢ cup_ok
unfolding package_release_validate_concrete
concrete-error release e h = ground arith

same_request :
    (r : PackageRequest)
    → r.resolved_release ≡ []
    → r.resolved_selector ≡ []
    → record r { resolved_release = []; resolved_selector = [] } ≡ r
same_request r e f = ground arith

release_case : (r : Result Text) → ((e : CupError) × (r ≡ err e)) ⊎ ((t : Text) × (r ≡ ok t))
release_case (err e) = inl (e, refl)
release_case (ok t) = inr (t, refl)

module _ {ℓ} {Catalog : Type ℓ}
    (resolve_stable : Catalog → Text → Text → Text → Text → Result Text) where
  -- The release that `out` has: the catalog's for stable, the one asked for otherwise.
  abbrev ComesFrom : Option Catalog → Text → Text → Text → PackageSelector → Text → Type ℓ
  ComesFrom packages component host target selector release =
      ((package_release_is_stable selector.release ≡ true)
        × ((c : Catalog) × (packages ≡ some c)
            × (resolve_stable c component selector.tool host target ≡ ok release)))
      ⊎ ((package_release_is_stable selector.release ≡ false) × (release ≡ selector.release))

  -- A resolved request, which is `before` but for what the release is.
  pub record IsResolved (packages : Option Catalog) (component host target : Text)
      (before out : PackageRequest) : Type ℓ where
    pub same_selector : out.selector ≡ before.selector
    pub same_input : out.input_selector ≡ before.input_selector
    pub comes_from : ComesFrom packages component host target before.selector out.resolved_release
    pub identifies :
        package_identity_from_selector component host target out.resolved_selector
        ≡ ok (record {
          component = component;
          tool = before.selector.tool;
          host_platform = host;
          target_platform = target;
          version = out.resolved_release;
        })

  resolve_release-ok :
      (packages : Option Catalog) (component host target : Text) (selector : PackageSelector)
      (release : Text)
      → resolve_release resolve_stable packages component host target selector ≡ ok release
      → ComesFrom packages component host target selector release
  unfolding resolve_release text_copy
  resolve_release-ok none component host target selector release h =
      elim (Bool-cases (package_release_is_stable selector.release)) [
        | inl stable ↦ absurd (ground (arith, stable))
        | inr plain ↦ inr (plain, ground (arith, plain))
      ]
  resolve_release-ok (some c) component host target selector release h =
      elim (Bool-cases (package_release_is_stable selector.release)) [
        | inl stable ↦ inl (stable, (c, refl, rw (resolve_release, stable) at h))
        | inr plain ↦ inr (plain, ground (arith, plain))
      ]

  module _
      (reports : (c : Catalog) (component tool host target : Text)
        → resolve_stable c component tool host target ≢ err cup_ok) where
    resolve_release-error :
        (packages : Option Catalog) (component host target : Text) (selector : PackageSelector)
        (e : CupError)
        → resolve_release resolve_stable packages component host target selector ≡ err e
        → e ≢ cup_ok
    unfolding resolve_release text_copy
    resolve_release-error none component host target selector e h = ground arith
    resolve_release-error (some c) component host target selector e h =
        ground (arith, reports c component selector.tool host target)

    resolve_parts-cases :
        (packages : Option Catalog) (component host target : Text) (selector : PackageSelector)
        → registry_is_tool component selector.tool ≡ true
        → ((e : CupError) × (e ≢ cup_ok)
            × (resolve_parts resolve_stable packages component host target selector ≡ err e))
          ⊎ ((release : Text) × ComesFrom packages component host target selector release
              × (package_release_validate_concrete release ≡ ok tt)
              × (resolve_parts resolve_stable packages component host target selector
                  ≡ ok (release, selector.tool ++ (b'@' ∷ release))))
    unfolding resolve_parts
    resolve_parts-cases packages component host target selector t =
        elim (release_case
          (resolve_release resolve_stable packages component host target selector)) [
            | inl (e, bad) ↦ inl (
              e,
              resolve_release-error packages component host target selector e bad,
              rw (resolve_parts, bad) refl,
            )
            | inr (release, found) ↦
                elim (Result-cases (package_release_validate_concrete release)) [
                  | inr (e, bad) ↦
                      inl (e, concrete-error release e bad, rw (resolve_parts, found, bad) refl)
                  | inl good ↦ inr (
                    release,
                    resolve_release-ok packages component host target selector release found,
                    good,
                    rw
                        (
                          resolve_parts,
                          found,
                          good,
                          format_parts-written component selector.tool release t good,
                        )
                        refl,
                  )
                ]
          ]

    -- A request that package_request_parse has parsed, resolved for a host and a target that
    -- are supported, where package_catalog_resolve_stable reports no error as CUP_OK: either
    -- package_request_resolve answers CUP_OK, the resolved release is the one that the
    -- catalog names for stable, or else the one that was asked for, and
    -- package_identity_from_selector makes of the resolved selector the identity with the
    -- component, tool, host and target asked for and that release; or it answers an error
    -- and the request is as it was parsed.
    pub resolve-outcome :
        (packages : Option Catalog) (component host target text : Text) (r : PackageRequest)
        → package_request_parse component text ≡ ok r
        → platform_is_supported host ≡ true
        → platform_is_supported target ≡ true
        → (((package_request_resolve resolve_stable packages component host target r).0 ≡ cup_ok)
            × IsResolved packages component host target r
                (package_request_resolve resolve_stable packages component host target r).1)
          ⊎ (((package_request_resolve resolve_stable packages component host target r).0 ≢ cup_ok)
              × ((package_request_resolve resolve_stable packages component host target r).1 ≡ r))
    unfolding package_request_resolve resolved_fields
    resolve-outcome packages component host target text r h known_host known_target =
        let parsed = parse-IsParsed component text r h in
        elim (resolve_parts-cases packages component host target r.selector parsed.is_tool) [
          | inl (e, bad, failed) ↦ inr (
              rw (package_request_resolve, failed)
                (bad, same_request r parsed.no_release parsed.no_selector))
          | inr (release, from, good, done) ↦ inl (
              rw (package_request_resolve, done)
                (
                  refl,
                  record {
                    same_selector = refl;
                    same_input = refl;
                    comes_from = from;
                    identifies =
                        from_selector-written component r.selector.tool release host target
                          parsed.is_component parsed.is_tool known_host known_target good;
                  },
                ))
        ]
