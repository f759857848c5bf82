-- ===== src/Preferences/Guards.antt =====
-- What the guards of the operations of src/tool_preferences.c establish.
use cup.Base.{
  ◌<◌, true, ◌&&◌, List, [], ◌∷◌, ◌≡◌, ap, inl, inr, arith, length, any, All, Text, text_eq,
  text_eq_iff, text_eq_refl, Bool-cases, &&-true_iff, not, is_nil,
}
use cup.Errors.{ok}
use cup.Text.{text_copy}
use cup.Registry.{max_identifier_len, supported_tools, registry_is_tool, registry_validate_tool}
use cup.Package.{PackageScope, package_scope_init}
use cup.Package.Laws.{package_scope_init-eq}
use cup.Preferences.{entry_is_valid, local_scope}

-- The names of the registry are short.
short_tool :
    (component tool : Text) (tools : List (Text × Text))
    → All (λ entry. length entry.1 < max_identifier_len) tools
    → any (λ entry. text_eq entry.0 component && text_eq entry.1 tool) tools ≡ true
    → length tool < max_identifier_len
short_tool component tool [] short h = absurd (ground arith)
short_tool component tool (x ∷ xs) short h =
    elim (Bool-cases (text_eq x.0 component && text_eq x.1 tool)) [
      | inl here ↦
          omega
            (arith, short.0, ap (λ (t : Text). length t) ((text_eq_iff x.1 tool).0 (ground arith)))
      | inr there ↦ short_tool component tool xs short.1 (ground arith)
    ]

pub validated-is_tool :
    (component tool : Text)
    → registry_validate_tool component tool ≡ ok tt
    → registry_is_tool component tool ≡ true
unfolding registry_validate_tool
validated-is_tool component tool h = ground arith

tool_length :
    (component tool : Text)
    → registry_is_tool component tool ≡ true
    → length tool < max_identifier_len
unfolding registry_is_tool
tool_length component tool h =
    short_tool component tool supported_tools
      (
        omega arith,
        (
          omega arith,
          (
            omega arith,
            (
              omega arith,
              (
                omega arith,
                (
                  omega arith,
                  (omega arith, (omega arith, (omega arith, (omega arith, (omega arith, tt))))),
                ),
              ),
            ),
          ),
        ),
      )
      ((&&-true_iff (not (is_nil component) && not (is_nil tool)) _).0 h).1

pub text_copy-tool :
    (component tool : Text)
    → registry_validate_tool component tool ≡ ok tt
    → text_copy max_identifier_len tool ≡ ok tool
unfolding text_copy
text_copy-tool component tool h =
    ground (arith, tool_length component tool (validated-is_tool component tool h))

-- What the guards of an operation establish.
pub record Scoped (host component target : Text) (scope : PackageScope) : Type 0 where
  pub initialised : package_scope_init component host target ≡ ok scope
  pub parts :
      scope ≡ record { component = component; host_platform = host; target_platform = target }

pub local_scope-Scoped :
    (host hp component target : Text) {scope : PackageScope}
    → local_scope (ok host) hp component target ≡ ok scope
    → Scoped host component target scope
unfolding local_scope
local_scope-Scoped host hp component target h =
    let e : package_scope_init component host target ≡ ok _ = ground arith in
    record { initialised = e; parts = package_scope_init-eq component host target e }

pub new_entry-is_valid :
    (host component target tool : Text) (scope : PackageScope)
    → Scoped host component target scope
    → registry_validate_tool component tool ≡ ok tt
    → entry_is_valid host (record { scope = scope; tool = tool }) ≡ true
unfolding entry_is_valid
new_entry-is_valid host component target tool scope s good =
    rw s.parts (ground (arith, text_eq_refl host, s.initialised, good))
