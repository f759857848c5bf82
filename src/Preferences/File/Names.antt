-- ===== src/Preferences/File/Names.antt =====
-- What a valid entry has for names, in preferences.txt (src/tool_preferences.c).
use cup.Base.{true, ◌≡◌, ap, inl, inr, arith, Text, text_eq_iff}
use cup.Errors.{ok}
use cup.Registry.{registry_is_component, registry_validate_tool, platform_is_supported}
use cup.Package.{PackageScope, package_scope_init}
use cup.Package.Laws.{package_scope_init-eq}
use cup.State.Validate.{Result-cases}
use cup.Preferences.Outcomes.{Scope-cases}
use cup.Preferences.Guards.{validated-is_tool}
use cup.Registry.Names.{is_plain, component-is_plain, platform-is_plain, tool-is_plain}
use cup.Preferences.{ToolPreference, entry_is_valid}

-- A valid entry, as a line is made of it.
pub record Plain (host : Text) (entry : ToolPreference) : Type 0 where
  pub target : is_plain entry.scope.target_platform ≡ true
  pub component : is_plain entry.scope.component ≡ true
  pub tool : is_plain entry.tool ≡ true
  pub scope :
      package_scope_init entry.scope.component host entry.scope.target_platform ≡ ok entry.scope
  pub good_tool : registry_validate_tool entry.scope.component entry.tool ≡ ok tt

valid-scope :
    (host : Text) (entry : ToolPreference)
    → entry_is_valid host entry ≡ true
    → package_scope_init entry.scope.component host entry.scope.target_platform ≡ ok entry.scope
unfolding entry_is_valid
valid-scope host entry h =
    elim (Scope-cases (package_scope_init entry.scope.component host entry.scope.target_platform)) [
      | inr (e, bad) ↦ absurd (ground (arith, bad))
      | inl (scope, good) ↦
          (let same : entry.scope.host_platform ≡ host =
              (text_eq_iff entry.scope.host_platform host).0 (ground arith) in
            let e =
              package_scope_init-eq entry.scope.component host entry.scope.target_platform good in
            ground (arith, good, same, e))
    ]

valid-tool :
    (host : Text) (entry : ToolPreference)
    → entry_is_valid host entry ≡ true
    → registry_validate_tool entry.scope.component entry.tool ≡ ok tt
unfolding entry_is_valid
valid-tool host entry h =
    elim (Result-cases (registry_validate_tool entry.scope.component entry.tool)) [
      | inl good ↦ good
      | inr (e, bad) ↦ absurd (ground (arith, bad))
    ]

scope-names :
    (c h t : Text) {scope : PackageScope}
    → package_scope_init c h t ≡ ok scope
    → (registry_is_component c ≡ true) × (platform_is_supported t ≡ true)
unfolding package_scope_init
scope-names c h t e = (ground arith, ground arith)

pub valid-Plain :
    (host : Text) (entry : ToolPreference) → entry_is_valid host entry ≡ true → Plain host entry
valid-Plain host entry h =
    let scope = valid-scope host entry h in
    let good = valid-tool host entry h in
    let (c, t) = scope-names entry.scope.component host entry.scope.target_platform scope in
    record {
      target = platform-is_plain entry.scope.target_platform t;
      component = component-is_plain entry.scope.component c;
      tool =
          tool-is_plain entry.scope.component entry.tool
            (validated-is_tool entry.scope.component entry.tool good);
      scope = scope;
      good_tool = good;
    }

pub Plain-valid :
    (host : Text) (entry : ToolPreference) → Plain host entry → entry.scope.host_platform ≡ host
Plain-valid host entry p =
    ap (λ s. s.host_platform)
      (package_scope_init-eq entry.scope.component host entry.scope.target_platform p.scope)
