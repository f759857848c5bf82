-- ===== src/State/KeepsDefaults.antt =====
-- Well-formedness after the operations of src/state.c on defaults.
use cup.Base.{
  Pairs-append_one, Pairs-remove_at, ℕ, ◌<◌, false, none, some, [], ◌∷◌, ◌++◌, ◌≡◌, ◌≢◌, inl, inr,
  arith, length, length-append, length-remove_at, length-set, get_elem?, set, All, All-append,
  All-remove_at, All-set, Bool-cases, Option-cases, leb,
}
use cup.Package.{PackageScope, PackageIdentity, package_identity_equals, package_identity_validate}
use cup.Package.Laws.{scope_of, IsIdentity}
use cup.State.Search.{find_index-eq_none, find_index-eq_some, any-eq_false}
use cup.State.Valid.{
  In, ScopesDiffer, IsValid, find_index-In, not_in_scope_iff, identity_matches_scope_iff,
}
use cup.State.Validate.{Result-cases, identity_scope-IsIdentity, identity_scope-err}
use cup.State.Arrays.{Pairs-set_scope}
use cup.State.Defaults.{
  state_set_default_raw, state_set_default, state_clear_default, state_clear_matching_default,
  state_get_default,
}
use cup.State.{
  CupState, max_state_defaults, identity_matches_scope, find_index, find_installed_index,
  find_default_index,
}

-- Where a default of the scope is found.
default_at :
    (s : CupState) (scope : PackageScope) {i : ℕ}
    → find_default_index s scope ≡ some i
    → (a : PackageIdentity) × (get_elem? s.defaults i ≡ some a)
      × (scope_of a ≡ scope)
      × (i < length s.defaults)
unfolding find_default_index
default_at s scope h =
    let (a, at, holds, within) =
      find_index-eq_some (λ y. identity_matches_scope y scope) s.defaults h in
    (a, at, (identity_matches_scope_iff a scope).0 holds, within)

pub no_default :
    (s : CupState) (scope : PackageScope)
    → find_default_index s scope ≡ none
    → All (λ y. scope_of y ≢ scope) s.defaults
unfolding find_default_index
no_default s scope h =
    (any-eq_false (λ y. identity_matches_scope y scope) (λ y. scope_of y ≢ scope)
        (λ y. not_in_scope_iff y scope) s.defaults).0
      ((find_index-eq_none (λ y. identity_matches_scope y scope) s.defaults).0 h)

replace-IsValid :
    (s : CupState) (x : PackageIdentity) {i : ℕ}
    → IsValid s
    → IsIdentity x
    → In x s.installed
    → find_default_index s (scope_of x) ≡ some i
    → IsValid (record s { defaults = set s.defaults i x })
replace-IsValid s x {i} v good present h =
    let (a, at, same, within) = default_at s (scope_of x) h in
    record {
      few_defaults = omega (arith, v.few_defaults, length-set s.defaults i x);
      within_capacity = v.within_capacity;
      installed_identities = v.installed_identities;
      installed_distinct = v.installed_distinct;
      default_identities = All-set IsIdentity s.defaults i x v.default_identities good;
      one_per_scope = Pairs-set_scope x a s.defaults i at same v.one_per_scope;
      defaults_installed =
          All-set (λ d. In d s.installed) s.defaults i x v.defaults_installed present;
    }

add_default-IsValid :
    (s : CupState) (x : PackageIdentity)
    → IsValid s
    → IsIdentity x
    → In x s.installed
    → find_default_index s (scope_of x) ≡ none
    → leb max_state_defaults (length s.defaults) ≡ false
    → IsValid (record s { defaults = s.defaults ++ (x ∷ []) })
add_default-IsValid s x v good present h room = record {
  few_defaults = ground (arith, length-append s.defaults (x ∷ []));
  within_capacity = v.within_capacity;
  installed_identities = v.installed_identities;
  installed_distinct = v.installed_distinct;
  default_identities = All-append IsIdentity s.defaults (x ∷ []) v.default_identities (good, tt);
  one_per_scope =
      Pairs-append_one ScopesDiffer s.defaults x v.one_per_scope (no_default s (scope_of x) h);
  defaults_installed =
      All-append (λ d. In d s.installed) s.defaults (x ∷ []) v.defaults_installed (present, tt);
}

set_default_raw-IsValid :
    (s : CupState) (x : PackageIdentity)
    → IsValid s
    → IsIdentity x
    → In x s.installed
    → IsValid (state_set_default_raw s x).1
unfolding state_set_default_raw
set_default_raw-IsValid s x v good present =
    elim (Option-cases (find_default_index s (scope_of x))) [
      | inr (i, found) ↦
          rw (identity_scope-IsIdentity x good, found, state_set_default_raw)
            (replace-IsValid s x v good present found)
      | inl new ↦ elim (Bool-cases (leb max_state_defaults (length s.defaults))) [
        | inl full ↦ rw (identity_scope-IsIdentity x good, new, full, state_set_default_raw) v
        | inr room ↦
            rw (identity_scope-IsIdentity x good, new, room, state_set_default_raw)
              (add_default-IsValid s x v good present new room)
      ]
    ]

-- state_set_default leaves a valid state valid, for any identity.
pub state_set_default-IsValid :
    (s : CupState) (x : PackageIdentity) → IsValid s → IsValid (state_set_default s x).1
unfolding state_set_default find_installed_index
state_set_default-IsValid s x v = elim (Result-cases (package_identity_validate x)) [
  | inr (e, bad) ↦ rw (bad, state_set_default) v
  | inl good ↦ elim (Option-cases (find_index (λ y. package_identity_equals y x) s.installed)) [
    | inl missing ↦ rw (good, missing, state_set_default) v
    | inr (i, found) ↦
        rw (good, found, state_set_default)
          (set_default_raw-IsValid s x v good (find_index-In x s.installed found))
  ]
]

-- state_clear_default leaves a valid state valid, for any scope.
pub state_clear_default-IsValid :
    (s : CupState) (scope : PackageScope) → IsValid s → IsValid (state_clear_default s scope).1
unfolding state_clear_default
state_clear_default-IsValid s scope v = elim (Option-cases (find_default_index s scope)) [
  | inl missing ↦ rw (missing, state_clear_default) v
  | inr (i, found) ↦
      (let (a, at, same, within) = default_at s scope found in
        rw (found, state_clear_default)
          (record {
            few_defaults = omega (arith, v.few_defaults, length-remove_at s.defaults i within);
            within_capacity = v.within_capacity;
            installed_identities = v.installed_identities;
            installed_distinct = v.installed_distinct;
            default_identities = All-remove_at IsIdentity s.defaults i v.default_identities;
            one_per_scope = Pairs-remove_at ScopesDiffer s.defaults i v.one_per_scope;
            defaults_installed =
                All-remove_at (λ d. In d s.installed) s.defaults i v.defaults_installed;
          }))
]

-- state_clear_matching_default leaves a valid state valid, for any identity.
pub state_clear_matching_default-IsValid :
    (s : CupState) (x : PackageIdentity) → IsValid s → IsValid (state_clear_matching_default s x).1
unfolding state_clear_matching_default
state_clear_matching_default-IsValid s x v = elim (Result-cases (package_identity_validate x)) [
  | inr (e, bad) ↦ rw (identity_scope-err x bad, state_clear_matching_default) v
  | inl good ↦ elim (Option-cases (state_get_default s (scope_of x))) [
    | inl missing ↦ rw (identity_scope-IsIdentity x good, missing, state_clear_matching_default) v
    | inr (d, found) ↦ elim (Bool-cases (package_identity_equals d x)) [
      | inr other ↦
          rw (identity_scope-IsIdentity x good, found, other, state_clear_matching_default) v
      | inl same ↦
          rw (identity_scope-IsIdentity x good, found, same, state_clear_matching_default)
            (state_clear_default-IsValid s (scope_of x) v)
    ]
  ]
]
