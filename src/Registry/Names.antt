-- ===== src/Registry/Names.antt =====
-- The names of the registry (include/domain_registry.h) as parts of a written line.
use mathlib.Core.Path.{subst}
use cup.Base.{
  ◌<◌, Bool, true, false, not, ◌&&◌, List, [], ◌∷◌, ◌≡◌, refl, inl, inr, arith, ltb, ◌==◌, length,
  all, any, is_nil, All, Text, text_eq, text_eq_iff, Bool-cases, &&-true_iff,
}
use cup.Text.Fields.{is_graphic}
use cup.Registry.{
  supported_components, supported_tools, supported_platforms, registry_is_component,
  registry_is_tool, platform_is_supported,
}

-- A name without the bytes that separate names, and short.
unfoldable pub is_plain : Text → Bool
is_plain name =
    all is_graphic name
    && all (λ b. not (b == b'=')) name
    && all (λ b. not (b == b'.')) name
    && all (λ b. not (b == b'@')) name
    && not (is_nil name)
    && ltb (length name) 32

member-is_plain :
    (name : Text) (names : List Text)
    → All (λ n. is_plain n ≡ true) names
    → any (λ n. text_eq n name) names ≡ true
    → is_plain name ≡ true
member-is_plain name [] plain h = absurd (ground arith)
member-is_plain name (n ∷ names) plain h = elim (Bool-cases (text_eq n name)) [
  | inl here ↦ subst (λ (t : Text). is_plain t ≡ true) ((text_eq_iff n name).0 here) plain.0
  | inr there ↦ member-is_plain name names plain.1 (ground arith)
]

tool_member {κ} :
    (P : Text → Type κ) (component tool : Text) (tools : List (Text × Text))
    → All (λ entry. P entry.1) tools
    → any (λ entry. text_eq entry.0 component && text_eq entry.1 tool) tools ≡ true
    → P tool
tool_member P component tool [] each h = absurd (ground arith)
tool_member P component tool (x ∷ tools) each h =
    elim (Bool-cases (text_eq x.0 component && text_eq x.1 tool)) [
      | inl here ↦
          subst P ((text_eq_iff x.1 tool).0 ((&&-true_iff (text_eq x.0 component) _).0 here).1)
            each.0
      | inr there ↦ tool_member P component tool tools each.1 (ground arith)
    ]

-- What holds of each name in the registry holds of a tool that is registered.
pub registered_tool {κ} :
    (P : Text → Type κ) (component tool : Text)
    → All (λ entry. P entry.1) supported_tools
    → registry_is_tool component tool ≡ true
    → P tool
unfolding registry_is_tool
registered_tool P component tool each h =
    tool_member P component tool supported_tools each
      ((&&-true_iff (not (is_nil component) && not (is_nil tool)) _).0 h).1

pub component-is_plain :
    (component : Text) → registry_is_component component ≡ true → is_plain component ≡ true
unfolding registry_is_component is_plain
component-is_plain component h =
    member-is_plain component supported_components
      (refl, (refl, (refl, (refl, (refl, (refl, (refl, (refl, tt))))))))
      ((&&-true_iff (not (is_nil component)) _).0 h).1

pub platform-any :
    (platform : Text)
    → platform_is_supported platform ≡ true
    → any (λ name. text_eq name platform) supported_platforms ≡ true
unfolding platform_is_supported
platform-any platform h = ground arith

pub platform-is_plain :
    (platform : Text) → platform_is_supported platform ≡ true → is_plain platform ≡ true
unfolding is_plain
platform-is_plain platform h =
    member-is_plain platform supported_platforms (refl, (refl, (refl, (refl, (refl, tt)))))
      (platform-any platform h)

pub tool-is_plain :
    (component tool : Text) → registry_is_tool component tool ≡ true → is_plain tool ≡ true
unfolding is_plain
tool-is_plain component tool h =
    registered_tool (λ t. is_plain t ≡ true) component tool
      (refl, (refl, (refl, (refl, (refl, (refl, (refl, (refl, (refl, (refl, (refl, tt))))))))))) h

-- What `is_plain` says, part by part.
pub record Bytes (name : Text) : Type 0 where
  pub graphic : all is_graphic name ≡ true
  pub no_equals : all (λ b. not (b == b'=')) name ≡ true
  pub no_dot : all (λ b. not (b == b'.')) name ≡ true
  pub no_at : all (λ b. not (b == b'@')) name ≡ true
  pub ne_nil : is_nil name ≡ false
  pub short : length name < 32

pub plain-Bytes : (name : Text) → is_plain name ≡ true → Bytes name
unfolding is_plain
plain-Bytes name h = record {
  graphic = ground arith;
  no_equals = ground arith;
  no_dot = ground arith;
  no_at = ground arith;
  ne_nil = ground arith;
  short = ground arith;
}
