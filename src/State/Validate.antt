-- ===== src/State/Validate.antt =====
-- `state_validate` (src/state.c) and well-formedness.
use cup.Base.{
  Fresh, Fresh-nil, Fresh-cons_seen, Fresh-seen_cons, Pairs, false, List, [], ◌∷◌, ◌≡◌, refl, ◌≢◌,
  ◌↔◌, ◌⊎◌, inl, inr, arith, any, All, Bool-cases, Option-cases,
}
use cup.Errors.{CupError, cup_ok, Result, ok, err}
use cup.Package.{PackageIdentity, package_identity_equals, package_identity_validate}
use cup.Package.Laws.{scope_of, IsIdentity, package_identity_get_scope-IsIdentity}
use cup.State.Search.{any-eq_false}
use cup.State.Valid.{
  In, Differ, ScopesDiffer, IsValid, not_equal_iff, not_in_scope_iff, find_index-In,
  find_index-not_In,
}
use cup.State.{
  CupState, identity_matches_scope, find_index, identity_scope, validate_installed,
  validate_defaults, state_validate,
}

pub Result-cases : (r : Result (Unit {0})) → (r ≡ ok tt) ⊎ ((e : CupError) × (r ≡ err e))
Result-cases (ok tt) = inl refl
Result-cases (err e) = inr (e, refl)

pub identity_scope-IsIdentity :
    (x : PackageIdentity) → IsIdentity x → identity_scope x ≡ ok (scope_of x)
unfolding identity_scope
identity_scope-IsIdentity x h = rw h (package_identity_get_scope-IsIdentity x h)

pub identity_scope-err :
    (x : PackageIdentity) {e : CupError}
    → package_identity_validate x ≡ err e
    → identity_scope x ≡ err e
unfolding identity_scope
identity_scope-err x h = rw h

-- What the first loop has established of `items`, after `seen`.
record InstalledOk (seen items : List PackageIdentity) : Type 0 where
  identities : All IsIdentity items
  new : Fresh Differ seen items
  distinct : Pairs Differ items

validate_installed_sound :
    (seen items : List PackageIdentity)
    → validate_installed seen items ≡ cup_ok
    → InstalledOk seen items
unfolding validate_installed
validate_installed_sound seen [] h = record { identities = tt; new = tt; distinct = tt }
validate_installed_sound seen (x ∷ xs) h = elim (Result-cases (package_identity_validate x)) [
  | inr (e, bad) ↦ absurd (ground arith)
  | inl good ↦ elim (Bool-cases (any (λ earlier. package_identity_equals earlier x) seen)) [
    | inl double ↦ absurd (ground arith)
    | inr fresh ↦
        (let rest = validate_installed_sound (x ∷ seen) xs (ground arith) in
          let (later, new) = Fresh-seen_cons Differ x seen xs rest.new in
          record {
            identities = (good, rest.identities);
            new = (
              (any-eq_false (λ y. package_identity_equals y x) (λ y. y ≢ x) (λ y. not_equal_iff y x)
                    seen).0
                  fresh,
              new,
            );
            distinct = (later, rest.distinct);
          })
  ]
]

validate_installed_complete :
    (seen items : List PackageIdentity)
    → InstalledOk seen items
    → validate_installed seen items ≡ cup_ok
unfolding validate_installed
validate_installed_complete seen [] h = refl
validate_installed_complete seen (x ∷ xs) h =
    let ih = validate_installed_complete (x ∷ seen) xs (record {
      identities = h.identities.1;
      new = Fresh-cons_seen Differ x seen xs h.distinct.0 h.new.1;
      distinct = h.distinct.1;
    }) in
    ground (
      arith,
      h.identities.0,
      ih,
      (any-eq_false (λ y. package_identity_equals y x) (λ y. y ≢ x) (λ y. not_equal_iff y x) seen).1
          h.new.0,
    )

-- What the second loop has established of `items`, after `seen`.
record DefaultsOk (installed seen items : List PackageIdentity) : Type 0 where
  identities : All IsIdentity items
  new : Fresh ScopesDiffer seen items
  scopes : Pairs ScopesDiffer items
  chosen : All (λ d. In d installed) items

pub fresh_scopes_iff :
    (x : PackageIdentity) (seen : List PackageIdentity)
    → (any (λ y. identity_matches_scope y (scope_of x)) seen ≡ false)
      ↔ All (λ y. scope_of y ≢ scope_of x) seen
fresh_scopes_iff x seen =
    any-eq_false (λ y. identity_matches_scope y (scope_of x)) (λ y. scope_of y ≢ scope_of x)
      (λ y. not_in_scope_iff y (scope_of x)) seen

module _ (installed : List PackageIdentity) where
  validate_defaults_sound :
      (seen items : List PackageIdentity)
      → validate_defaults installed seen items ≡ cup_ok
      → DefaultsOk installed seen items
  unfolding validate_defaults
  validate_defaults_sound seen [] h = record { identities = tt; new = tt; scopes = tt; chosen = tt }
  validate_defaults_sound seen (x ∷ xs) h = elim (Result-cases (package_identity_validate x)) [
    | inr (e, bad) ↦ absurd (ground (arith, identity_scope-err x bad))
    | inl good ↦ elim (Bool-cases (any (λ y. identity_matches_scope y (scope_of x)) seen)) [
      | inl double ↦ absurd (ground (arith, identity_scope-IsIdentity x good))
      | inr fresh ↦ elim (Option-cases (find_index (λ y. package_identity_equals y x) installed)) [
        | inl missing ↦ absurd (ground (arith, identity_scope-IsIdentity x good))
        | inr (i, found) ↦
            (let rest =
                validate_defaults_sound (x ∷ seen) xs
                  (ground (arith, identity_scope-IsIdentity x good)) in
              let (later, new) = Fresh-seen_cons ScopesDiffer x seen xs rest.new in
              record {
                identities = (good, rest.identities);
                new = ((fresh_scopes_iff x seen).0 fresh, new);
                scopes = (later, rest.scopes);
                chosen = (find_index-In x installed found, rest.chosen);
              })
      ]
    ]
  ]

  validate_defaults_complete :
      (seen items : List PackageIdentity)
      → DefaultsOk installed seen items
      → validate_defaults installed seen items ≡ cup_ok
  unfolding validate_defaults
  validate_defaults_complete seen [] h = refl
  validate_defaults_complete seen (x ∷ xs) h =
      elim (Option-cases (find_index (λ y. package_identity_equals y x) installed)) [
        | inl missing ↦ absurd (find_index-not_In x installed missing h.chosen.0)
        | inr (i, found) ↦
            (let ih = validate_defaults_complete (x ∷ seen) xs (record {
              identities = h.identities.1;
              new = Fresh-cons_seen ScopesDiffer x seen xs h.scopes.0 h.new.1;
              scopes = h.scopes.1;
              chosen = h.chosen.1;
            }) in
              ground (
                arith,
                identity_scope-IsIdentity x h.identities.0,
                (fresh_scopes_iff x seen).1 h.new.0,
                ih,
              ))
      ]

-- state_validate answers CUP_OK exactly on the states that are valid: at most MAX_STATE_DEFAULTS
-- defaults, no more packages than the capacity, every identity valid, no package twice, at most
-- one default in a scope, and every default installed.
pub state_validate_iff : (s : CupState) → (state_validate s ≡ cup_ok) ↔ IsValid s
unfolding state_validate
state_validate_iff s = (sound, complete)
  where
    sound : state_validate s ≡ cup_ok → IsValid s
    sound h =
        let a = validate_installed_sound [] s.installed (ground arith) in
        let b = validate_defaults_sound s.installed [] s.defaults (ground arith) in
        record {
          few_defaults = ground arith;
          within_capacity = ground arith;
          installed_identities = a.identities;
          installed_distinct = a.distinct;
          default_identities = b.identities;
          one_per_scope = b.scopes;
          defaults_installed = b.chosen;
        }

    complete : IsValid s → state_validate s ≡ cup_ok
    complete v = ground (
      arith,
      v.few_defaults,
      v.within_capacity,
      validate_installed_complete [] s.installed (record {
        identities = v.installed_identities;
        new = Fresh-nil Differ s.installed;
        distinct = v.installed_distinct;
      }),
      validate_defaults_complete s.installed [] s.defaults (record {
        identities = v.default_identities;
        new = Fresh-nil ScopesDiffer s.defaults;
        scopes = v.one_per_scope;
        chosen = v.defaults_installed;
      }),
    )
