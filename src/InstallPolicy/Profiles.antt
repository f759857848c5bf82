-- ===== src/InstallPolicy/Profiles.antt =====
-- What the profiles of the compiled-in policy need of its defaults (src/install_policy.c).
use mathlib.Core.Path.{subst}
use cup.Base.{
  ℕ, zero, suc, Bool, true, false, none, some, List, [], ◌∷◌, ◌≡◌, refl, inl, inr, arith, all, any,
  All, Text, text_eq, text_eq_iff, get_elem?, Bool-cases, Option-cases,
}
use cup.Errors.{Result, ok, err}
use cup.Registry.{
  supported_platforms, registry_is_tool, platform_is_supported, registry_is_component,
}
use cup.Registry.Names.{platform-any}
use cup.InstallPolicy.{
  InstallDefault, InstallNamedList, InstallPolicy, install_policy_load, install_policy_find_default,
  install_policy_find_profile, find_named, named_list_index,
}

unfoldable pub has_default : InstallPolicy → Text → Text → Bool
has_default policy host component = elim (install_policy_find_default policy host host component) [
  | none ↦ false
  | some entry ↦ registry_is_tool component entry.tool
]

abbrev each_profile_on : InstallPolicy → Text → Bool
each_profile_on policy host =
    all (λ (p : InstallNamedList). all (has_default policy host) p.items) policy.profiles

all-member :
    (test : Text → Bool) (names : List Text) (name : Text)
    → all test names ≡ true
    → any (λ n. text_eq n name) names ≡ true
    → test name ≡ true
all-member test [] name h m = absurd (ground (arith, m))
all-member test (n ∷ names) name h m = elim (Bool-cases (text_eq n name)) [
  | inl here ↦ subst (λ (t : Text). test t ≡ true) ((text_eq_iff n name).0 here) (ground (arith, h))
  | inr there ↦ all-member test names name (ground (arith, h)) (ground (arith, m, there))
]

all-get_elem? :
    (test : InstallNamedList → Bool) (lists : List InstallNamedList) (i : ℕ) (p : InstallNamedList)
    → all test lists ≡ true
    → get_elem? lists i ≡ some p
    → test p ≡ true
all-get_elem? test [] i p h at = absurd (ground (arith, at))
all-get_elem? test (l ∷ lists) zero p h at = ground (arith, h, at)
all-get_elem? test (l ∷ lists) (suc i) p h at =
    all-get_elem? test lists i p (ground (arith, h)) (ground (arith, at))

abbrev complete : Result InstallPolicy → Bool
complete (err e) = false
complete (ok policy) = all (each_profile_on policy) supported_platforms

computed : complete install_policy_load ≡ true
unfolding install_policy_load text_eq platform_is_supported registry_is_tool has_default
    install_policy_find_default registry_is_component
computed = refl

policy_of : Result InstallPolicy → InstallPolicy
policy_of (ok policy) = policy
policy_of (err e) = record { defaults = []; profiles = []; toolchains = [] }

unfoldable pub loaded_policy : InstallPolicy
unfolding policy_of
loaded_policy = policy_of install_policy_load

-- The load succeeds.
pub loads : install_policy_load ≡ ok loaded_policy
unfolding install_policy_load text_eq platform_is_supported registry_is_tool registry_is_component
    loaded_policy
loads = refl

found_profile :
    (test : InstallNamedList → Bool) (lists : List InstallNamedList) (name : Text)
    (p : InstallNamedList)
    → all test lists ≡ true
    → find_named lists name ≡ some p
    → test p ≡ true
unfolding find_named
found_profile test lists name p h found = elim (Option-cases (named_list_index lists name)) [
  | inl missing ↦ absurd (ground (arith, missing))
  | inr (i, at) ↦ all-get_elem? test lists i p h (ground (arith, at))
]

-- An entry for the component, of a tool that is registered for it.
abbrev pub HasDefault : InstallPolicy → Text → Text → Type 0
HasDefault policy host component =
    (entry : InstallDefault) × (install_policy_find_default policy host host component ≡ some entry)
    × (registry_is_tool component entry.tool ≡ true)

has_default-HasDefault :
    (policy : InstallPolicy) (host component : Text)
    → has_default policy host component ≡ true
    → HasDefault policy host component
unfolding has_default
has_default-HasDefault policy host component h =
    elim (Option-cases (install_policy_find_default policy host host component)) [
      | inl missing ↦ absurd (ground (arith, missing))
      | inr (entry, found) ↦ (entry, found, ground (arith, found))
    ]

All-HasDefault :
    (policy : InstallPolicy) (host : Text) (items : List Text)
    → all (has_default policy host) items ≡ true
    → All (HasDefault policy host) items
All-HasDefault policy host [] h = tt
All-HasDefault policy host (item ∷ items) h = (
  has_default-HasDefault policy host item (ground (arith, h)),
  All-HasDefault policy host items (ground (arith, h)),
)

-- For every supported host and every profile that install_policy_find_profile finds in the
-- policy that install_policy_load has loaded: each component of the profile has an entry by
-- install_policy_find_default with the host as its target too, of a tool that is registered for
-- the component.
pub profile-HasDefault :
    (policy : InstallPolicy) (host name : Text) (profile : InstallNamedList)
    → install_policy_load ≡ ok policy
    → platform_is_supported host ≡ true
    → install_policy_find_profile policy name ≡ some profile
    → All (HasDefault policy host) profile.items
unfolding install_policy_find_profile
profile-HasDefault policy host name profile loaded known found =
    let every = subst (λ r. complete r ≡ true) loaded computed in
    let here =
      all-member (each_profile_on policy) supported_platforms host every
        (platform-any host known) in
    All-HasDefault policy host profile.items (
      found_profile (λ p. all (has_default policy host) p.items) policy.profiles name profile here
        found)
