-- ===== src/State/Valid.antt =====
-- Well-formed states, and what `state_validate` tests.
use cup.Base.{
  Pairs, ℕ, zero, suc, ◌≤◌, get_elem?, true, false, none, some, List, [], ◌∷◌, ◌≡◌, ◌≢◌, ◌↔◌, ◌⊎◌,
  inl, inr, arith, length, All, text_eq_iff,
}
use cup.Package.{PackageScope, PackageIdentity, package_identity_equals}
use cup.Package.Laws.{package_identity_equals_iff, scope_of, IsIdentity}
use cup.State.Search.{find_index-eq_none, find_index-eq_some, any-eq_false}
use cup.State.{CupState, max_state_defaults, identity_matches_scope, find_index}

abbrev pub In : PackageIdentity → List PackageIdentity → Type 0
In x [] = ⊥
In x (y ∷ ys) = (y ≡ x) ⊎ In x ys

abbrev pub Differ : PackageIdentity → PackageIdentity → Type 0
Differ x y = x ≢ y

-- At most one default for a component, host and target.
abbrev pub ScopesDiffer : PackageIdentity → PackageIdentity → Type 0
ScopesDiffer x y = scope_of x ≢ scope_of y

pub record IsValid (s : CupState) : Type 0 where
  pub few_defaults : length s.defaults ≤ max_state_defaults
  pub within_capacity : length s.installed ≤ s.installed_capacity
  pub installed_identities : All IsIdentity s.installed
  pub installed_distinct : Pairs Differ s.installed
  pub default_identities : All IsIdentity s.defaults
  pub one_per_scope : Pairs ScopesDiffer s.defaults
  pub defaults_installed : All (λ d. In d s.installed) s.defaults

pub identity_matches_scope_iff :
    (x : PackageIdentity) (scope : PackageScope)
    → (identity_matches_scope x scope ≡ true) ↔ (scope_of x ≡ scope)
unfolding identity_matches_scope
identity_matches_scope_iff x scope = ground (
  arith,
  text_eq_iff x.component scope.component,
  text_eq_iff x.host_platform scope.host_platform,
  text_eq_iff x.target_platform scope.target_platform,
)

pub not_equal_iff : (x y : PackageIdentity) → (package_identity_equals x y ≡ false) ↔ (x ≢ y)
not_equal_iff x y = ground (arith, package_identity_equals_iff x y)

pub not_in_scope_iff :
    (x : PackageIdentity) (scope : PackageScope)
    → (identity_matches_scope x scope ≡ false) ↔ (scope_of x ≢ scope)
not_in_scope_iff x scope = ground (arith, identity_matches_scope_iff x scope)

pub In-get_elem? :
    (x : PackageIdentity) (xs : List PackageIdentity) (i : ℕ) → get_elem? xs i ≡ some x → In x xs
In-get_elem? x [] i h = absurd (ground arith)
In-get_elem? x (y ∷ ys) zero h = inl (ground arith)
In-get_elem? x (y ∷ ys) (suc i) h = inr (In-get_elem? x ys i h)

pub not-All-In : (x : PackageIdentity) (xs : List PackageIdentity) → All (λ y. y ≢ x) xs → ¬ In x xs
not-All-In x [] all m = m
not-All-In x (y ∷ ys) all (inl e) = all.0 e
not-All-In x (y ∷ ys) all (inr m) = not-All-In x ys all.1 m

-- The search for an identity finds an index exactly where the identity is.
pub find_index-In :
    (x : PackageIdentity) (xs : List PackageIdentity) {i : ℕ}
    → find_index (λ entry. package_identity_equals entry x) xs ≡ some i
    → In x xs
find_index-In x xs {i} h =
    let (a, at, holds, within) =
      find_index-eq_some (λ entry. package_identity_equals entry x) xs h in
    In-get_elem? x xs i (rw (← (package_identity_equals_iff a x).0 holds) at)

pub find_index-All_differ :
    (x : PackageIdentity) (xs : List PackageIdentity)
    → find_index (λ entry. package_identity_equals entry x) xs ≡ none
    → All (λ y. y ≢ x) xs
find_index-All_differ x xs h =
    (any-eq_false (λ entry. package_identity_equals entry x) (λ y. y ≢ x) (λ y. not_equal_iff y x)
        xs).0
      ((find_index-eq_none (λ entry. package_identity_equals entry x) xs).0 h)

pub find_index-not_In :
    (x : PackageIdentity) (xs : List PackageIdentity)
    → find_index (λ entry. package_identity_equals entry x) xs ≡ none
    → ¬ In x xs
find_index-not_In x xs h = not-All-In x xs (find_index-All_differ x xs h)
