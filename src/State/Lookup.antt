-- ===== src/State/Lookup.antt =====
-- What `state_get_default` returns after the operations on defaults (src/state.c).
use cup.Base.{
  Pairs, ℕ, zero, suc, true, Option, none, some, List, [], ◌∷◌, ◌++◌, ◌≡◌, refl, sym, ◌∙◌, ◌≢◌, inl,
  inr, ◌↔◌, arith, get_elem?, set, remove_at, All, Option-cases, if◌then◌else◌, text_eq_iff,
}
use cup.Errors.{cup_ok}
use cup.Package.{PackageScope, PackageIdentity, package_scope_equals, package_identity_validate}
use cup.Package.Laws.{scope_of, IsIdentity}
use cup.State.Valid.{ScopesDiffer, IsValid, identity_matches_scope_iff}
use cup.State.Validate.{Result-cases, identity_scope-IsIdentity}
use cup.State.Defaults.{
  state_set_default_raw, state_set_default, state_clear_default, state_get_default,
}
use cup.State.KeepsDefaults.{no_default}
use cup.State.{
  CupState, identity_matches_scope, find_index, find_installed_index, find_default_index,
}

-- The first default of a scope.
abbrev default_in : PackageScope → List PackageIdentity → Option PackageIdentity
default_in scope [] = none
default_in scope (d ∷ ds) = if identity_matches_scope d scope then some d else default_in scope ds

get_default_in :
    (scope : PackageScope) (ds : List PackageIdentity)
    → (elim (find_index (λ d. identity_matches_scope d scope) ds) [
      | none ↦ none
      | some index ↦ get_elem? ds index
    ])
      ≡ default_in scope ds
unfolding find_index
get_default_in scope [] = refl
get_default_in scope (d ∷ ds) = ground (arith, get_default_in scope ds)

pub state_get_default_lem :
    (s : CupState) (scope : PackageScope) → state_get_default s scope ≡ default_in scope s.defaults
unfolding state_get_default find_default_index
state_get_default_lem s scope = get_default_in scope s.defaults

pub package_scope_equals_iff : (a b : PackageScope) → (package_scope_equals a b ≡ true) ↔ (a ≡ b)
unfolding package_scope_equals
package_scope_equals_iff a b = ground (
  arith,
  text_eq_iff a.component b.component,
  text_eq_iff a.host_platform b.host_platform,
  text_eq_iff a.target_platform b.target_platform,
)

module _ (x : PackageIdentity) (scope : PackageScope) where
  default_in-set :
      (ds : List PackageIdentity) (i : ℕ)
      → find_index (λ d. identity_matches_scope d (scope_of x)) ds ≡ some i
      → default_in scope (set ds i x)
        ≡ (if package_scope_equals (scope_of x) scope then some x else default_in scope ds)
  unfolding find_index
  default_in-set [] i h = absurd (ground arith)
  default_in-set (d ∷ ds) zero h = ground (
    arith,
    identity_matches_scope_iff d (scope_of x),
    identity_matches_scope_iff d scope,
    identity_matches_scope_iff x scope,
    package_scope_equals_iff (scope_of x) scope,
  )
  default_in-set (d ∷ ds) (suc i) h = ground (
    arith,
    identity_matches_scope_iff d (scope_of x),
    identity_matches_scope_iff d scope,
    identity_matches_scope_iff x scope,
    package_scope_equals_iff (scope_of x) scope,
    default_in-set ds i,
  )

  default_in-append :
      (ds : List PackageIdentity)
      → find_index (λ d. identity_matches_scope d (scope_of x)) ds ≡ none
      → default_in scope (ds ++ (x ∷ []))
        ≡ (if package_scope_equals (scope_of x) scope then some x else default_in scope ds)
  unfolding find_index
  default_in-append [] h =
      ground
        (arith, identity_matches_scope_iff x scope, package_scope_equals_iff (scope_of x) scope)
  default_in-append (d ∷ ds) h = ground (
    arith,
    identity_matches_scope_iff d (scope_of x),
    identity_matches_scope_iff d scope,
    identity_matches_scope_iff x scope,
    package_scope_equals_iff (scope_of x) scope,
    default_in-append ds,
  )

  set_default_raw-lookup :
      (s : CupState)
      → IsIdentity x
      → (state_set_default_raw s x).0 ≡ cup_ok
      → default_in scope (state_set_default_raw s x).1.defaults
        ≡ (if package_scope_equals (scope_of x) scope then some x else default_in scope s.defaults)
  unfolding state_set_default_raw find_default_index
  set_default_raw-lookup s good done =
      elim (Option-cases (find_index (λ d. identity_matches_scope d (scope_of x)) s.defaults)) [
        | inr (i, found) ↦
            ground
              (arith, identity_scope-IsIdentity x good, found, default_in-set s.defaults i found)
        | inl new ↦
            ground (arith, identity_scope-IsIdentity x good, new, default_in-append s.defaults new)
      ]

set_default-eq :
    (s : CupState) (x : PackageIdentity)
    → (state_set_default s x).0 ≡ cup_ok
    → IsIdentity x × (state_set_default s x ≡ state_set_default_raw s x)
unfolding state_set_default
set_default-eq s x done = elim (Result-cases (package_identity_validate x)) [
  | inr (e, bad) ↦ absurd (ground (arith, bad))
  | inl good ↦ elim (Option-cases (find_installed_index s x)) [
    | inl missing ↦ absurd (ground (arith, good, missing))
    | inr (i, found) ↦ (good, rw (good, found, state_set_default))
  ]
]

-- After a state_set_default that answers CUP_OK, the scope of the identity has the identity as
-- its default, and every other scope has the default that it had.
pub state_get_default-set_default :
    (s : CupState) (x : PackageIdentity) (scope : PackageScope)
    → (state_set_default s x).0 ≡ cup_ok
    → state_get_default (state_set_default s x).1 scope
      ≡ (if package_scope_equals (scope_of x) scope then some x else state_get_default s scope)
state_get_default-set_default s x scope done =
    let (good, e) = set_default-eq s x done in
    rw (e, state_get_default_lem, state_get_default_lem)
      (set_default_raw-lookup x scope s good (rw e at done))

-- Nothing else is of the scope of a default that every other differs from.
default_in-none :
    (scope : PackageScope) (ds : List PackageIdentity)
    → All (λ d. scope_of d ≢ scope) ds
    → default_in scope ds ≡ none
default_in-none scope [] h = refl
default_in-none scope (d ∷ ds) h =
    ground (arith, identity_matches_scope_iff d scope, default_in-none scope ds h.1)

other_scopes :
    (d : PackageIdentity) (scope : PackageScope) (ds : List PackageIdentity)
    → scope_of d ≡ scope
    → All (ScopesDiffer d) ds
    → All (λ e. scope_of e ≢ scope) ds
other_scopes d scope [] h k = tt
other_scopes d scope (e ∷ ds) h k = ((λ p. k.0 (h ∙ sym p)), other_scopes d scope ds h k.1)

module _ (cleared scope : PackageScope) where
  default_in-remove_at :
      (ds : List PackageIdentity) (i : ℕ)
      → Pairs ScopesDiffer ds
      → find_index (λ d. identity_matches_scope d cleared) ds ≡ some i
      → default_in scope (remove_at ds i)
        ≡ (if package_scope_equals cleared scope then none else default_in scope ds)
  unfolding find_index
  default_in-remove_at [] i v h = absurd (ground arith)
  default_in-remove_at (d ∷ ds) zero v h =
      let e : scope_of d ≡ cleared = (identity_matches_scope_iff d cleared).0 (ground arith) in
      let rest = default_in-none cleared ds (other_scopes d cleared ds e v.0) in
      ground (
        arith,
        identity_matches_scope_iff d cleared,
        identity_matches_scope_iff d scope,
        package_scope_equals_iff cleared scope,
        rest,
      )
  default_in-remove_at (d ∷ ds) (suc i) v h = ground (
    arith,
    identity_matches_scope_iff d cleared,
    identity_matches_scope_iff d scope,
    package_scope_equals_iff cleared scope,
    default_in-remove_at ds i v.1,
  )

clear_default-eq :
    (s : CupState) (cleared scope : PackageScope)
    → IsValid s
    → (o : Option ℕ) → find_index (λ d. identity_matches_scope d cleared) s.defaults ≡ o
    → ((state_clear_default s cleared).0 ≡ cup_ok)
      × (default_in scope (state_clear_default s cleared).1.defaults
          ≡ (if package_scope_equals cleared scope then none else default_in scope s.defaults))
unfolding state_clear_default find_default_index
clear_default-eq s cleared scope v (some i) found = (
  rw (found, state_clear_default),
  rw (found, state_clear_default)
      (default_in-remove_at cleared scope s.defaults i v.one_per_scope found),
)
clear_default-eq s cleared scope v none missing =
    let absent = default_in-none cleared s.defaults (no_default s cleared missing) in
    (
      rw (missing, state_clear_default),
      rw (missing, state_clear_default)
          (ground (arith, package_scope_equals_iff cleared scope, absent)),
    )

-- On a valid state, state_clear_default answers CUP_OK; afterwards the cleared scope has no
-- default, and every other scope has the default that it had.
pub state_get_default-clear_default :
    (s : CupState) (cleared scope : PackageScope)
    → IsValid s
    → ((state_clear_default s cleared).0 ≡ cup_ok)
      × (state_get_default (state_clear_default s cleared).1 scope
          ≡ (if package_scope_equals cleared scope then none else state_get_default s scope))
state_get_default-clear_default s cleared scope v =
    rw (state_get_default_lem, state_get_default_lem)
      (clear_default-eq s cleared scope v
        (find_index (λ d. identity_matches_scope d cleared) s.defaults) refl)
