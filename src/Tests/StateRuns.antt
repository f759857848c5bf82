-- ===== src/Tests/StateRuns.antt =====
-- Runs of src/state.c, and its theorems at them.
use cup.Base.{
  true, some, none, ◌≡◌, ◌≢◌, refl, ◌↔◌, ◌⊎◌, ◌++◌, ◌∷◌, [], ℕ, arith, ap, inl, inr, text_eq,
  text_eq_iff, codes, if◌then◌else◌,
}
use cup.Errors.{Result, cup_ok, already_installed, inconsistent_state}
use cup.Package.{PackageIdentity, package_identity_validate, package_scope_equals}
use cup.Package.Laws.{scope_of}
use cup.State.Reached.{initial, then_step, adds, sets_default, Reached-IsValid}
use cup.State.{
  CupState, state_init, state_validate, find_installed_index, find_default_index, find_index,
  state_add_installed, state_remove_installed, identity_scope, identity_matches_scope,
}
use cup.State.Defaults.{
  state_set_default, state_set_default_raw, state_clear_default, state_get_default,
  state_get_tool_reference,
}
use cup.State.Valid.{In, IsValid}
use cup.State.Effects.{state_add_installed_ok, state_remove_installed_ok}
use cup.State.Validate.{state_validate_iff}
use cup.State.Keeps.{state_add_installed-IsValid, state_remove_installed-IsValid}
use cup.State.Lookup.{state_get_default-set_default, state_get_default-clear_default}
use cup.State.Reference.{IsNewest, state_get_tool_reference_lem}
use cup.Tests.Fixtures.{validating, gcc13, gcc14, clang18, compilers, two_gccs, two_gccs-IsValid}

state_validate_iff_example : (state_validate two_gccs ≡ cup_ok) ↔ IsValid two_gccs
state_validate_iff_example = state_validate_iff two_gccs

state_add_installed-IsValid_example : IsValid (state_add_installed (λ _. true) two_gccs clang18).1
state_add_installed-IsValid_example =
    state_add_installed-IsValid (λ _. true) two_gccs clang18 two_gccs-IsValid

state_remove_installed-IsValid_example : IsValid (state_remove_installed two_gccs gcc14).1
state_remove_installed-IsValid_example =
    state_remove_installed-IsValid two_gccs gcc14 two_gccs-IsValid

set_default_works : (state_set_default two_gccs gcc14).0 ≡ cup_ok
unfolding validating state_set_default state_set_default_raw find_installed_index find_default_index
    find_index identity_scope identity_matches_scope
set_default_works = refl

state_get_default-set_default_example :
    state_get_default (state_set_default two_gccs gcc14).1 compilers ≡ (
      if package_scope_equals (scope_of gcc14) compilers
      then some gcc14
      else state_get_default two_gccs compilers)
state_get_default-set_default_example =
    state_get_default-set_default two_gccs gcc14 compilers set_default_works

state_get_default-clear_default_example :
    ((state_clear_default two_gccs compilers).0 ≡ cup_ok)
    × (state_get_default (state_clear_default two_gccs compilers).1 compilers ≡ (
        if package_scope_equals compilers compilers
        then none
        else state_get_default two_gccs compilers))
state_get_default-clear_default_example =
    state_get_default-clear_default two_gccs compilers compilers two_gccs-IsValid

state_get_tool_reference_example :
    ((d : PackageIdentity) × (state_get_default two_gccs compilers ≡ some d)
      × (d.tool ≡ codes "clang")
      × (state_get_tool_reference two_gccs compilers (codes "clang") ≡ Result.ok (d, true)))
    ⊎ (((d : PackageIdentity)
          → state_get_default two_gccs compilers ≡ some d
          → d.tool ≢ codes "clang")
        × IsNewest two_gccs compilers
            (codes "clang")
            (state_get_tool_reference two_gccs compilers (codes "clang")))
state_get_tool_reference_example =
    state_get_tool_reference_lem two_gccs compilers (codes "clang") two_gccs-IsValid refl

add_twice : (state_add_installed (λ _. true) two_gccs gcc14).0 ≡ already_installed
unfolding validating state_add_installed find_installed_index find_index
add_twice = refl

remove_default : (state_remove_installed two_gccs gcc13).0 ≡ inconsistent_state
unfolding validating state_remove_installed find_installed_index find_index
remove_default = refl

clang18_valid : package_identity_validate clang18 ≡ Result.ok tt
unfolding validating
clang18_valid = refl

gcc14_valid : package_identity_validate gcc14 ≡ Result.ok tt
unfolding validating
gcc14_valid = refl

different_tools : gcc13.tool ≢ clang18.tool
unfolding text_eq
different_tools e = absurd (ground (arith, (text_eq_iff gcc13.tool clang18.tool).1 e))

different_versions : gcc13.version ≢ gcc14.version
unfolding text_eq
different_versions e = absurd (ground (arith, (text_eq_iff gcc13.version gcc14.version).1 e))

clang18_new : ¬ In clang18 two_gccs.installed
clang18_new (inl e) = different_tools (ap (λ x. x.tool) e)
clang18_new (inr (inl e)) = different_tools (ap (λ x. x.tool) e)
clang18_new (inr (inr m)) = m

gcc14_unused : ¬ In gcc14 two_gccs.defaults
gcc14_unused (inl e) = different_versions (ap (λ x. x.version) e)
gcc14_unused (inr m) = m

state_add_installed_ok_example :
    (capacity : ℕ) × (state_add_installed (λ _. true) two_gccs clang18 ≡ (
      cup_ok,
      record two_gccs {
        installed = two_gccs.installed ++ (clang18 ∷ []);
        installed_capacity = capacity;
      },
    ))
state_add_installed_ok_example =
    state_add_installed_ok (λ _. true) two_gccs clang18 (λ _. refl) clang18_valid clang18_new
      (omega arith)

state_remove_installed_ok_example :
    ((state_remove_installed two_gccs gcc14).0 ≡ cup_ok)
    × (In gcc13 (state_remove_installed two_gccs gcc14).1.installed
        ↔ (In gcc13 two_gccs.installed × (gcc13 ≢ gcc14)))
    × ((state_remove_installed two_gccs gcc14).1.defaults ≡ two_gccs.defaults)
state_remove_installed_ok_example =
    state_remove_installed_ok two_gccs gcc14 gcc13 two_gccs-IsValid gcc14_valid (inr (inl refl))
      gcc14_unused

abbrev empty_then_gcc : CupState
empty_then_gcc = (state_add_installed (λ _. true) state_init gcc13).1

Reached-IsValid_example : IsValid (state_set_default empty_then_gcc gcc13).1
Reached-IsValid_example =
    Reached-IsValid (then_step (then_step initial (adds (λ _. true) gcc13)) (sets_default gcc13))
