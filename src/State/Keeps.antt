-- ===== src/State/Keeps.antt =====
-- Well-formedness after adding and removing a package (src/state.c).
use cup.Base.{
  Pairs-append_one, Pairs-remove_at, ℕ, zero, suc, ◌+◌, ◌*◌, ◌≤◌, ◌<◌, Bool, some, List, [], ◌∷◌,
  ◌++◌, ◌≡◌, refl, ◌≢◌, inl, inr, arith, length, length-append, length-remove_at, get_elem?,
  remove_at, any, All, All-append, All-remove_at, Bool-cases, Option-cases,
}
use cup.Errors.{CupError, cup_ok}
use cup.Package.{PackageIdentity, package_identity_equals, package_identity_validate}
use cup.Package.Laws.{IsIdentity, package_identity_equals_iff}
use cup.State.Search.{find_index-eq_some, any-eq_false}
use cup.State.Valid.{Differ, IsValid, not_equal_iff, find_index-All_differ}
use cup.State.Validate.{Result-cases}
use cup.State.Arrays.{All-In-append_one, All-In-remove_at}
use cup.State.{
  CupState, find_index, find_installed_index, grow_capacity, first_capacity, grant,
  reserve_installed, append_installed, state_add_installed, state_remove_installed,
}

grow_capacity-le :
    (fuel capacity needed : ℕ) {grown : ℕ}
    → grow_capacity fuel capacity needed ≡ some grown
    → needed ≤ grown
unfolding grow_capacity
grow_capacity-le zero capacity needed h = absurd (ground arith)
grow_capacity-le (suc fuel) capacity needed {grown} h =
    ground (arith, grow_capacity-le fuel (capacity * 2) needed {grown = grown})

module _ (allocates : ℕ → Bool) where
  -- A grant leaves the packages as they are, with room for the number asked for.
  pub record Reserved (s : CupState) (needed : ℕ) (t : CupState) : Type 0 where
    pub same_installed : t.installed ≡ s.installed
    pub same_defaults : t.defaults ≡ s.defaults
    pub room : needed ≤ t.installed_capacity

  reserve_installed-Reserved :
      (s : CupState) (needed : ℕ)
      → (reserve_installed allocates s needed).0 ≡ cup_ok
      → Reserved s needed (reserve_installed allocates s needed).1
  unfolding reserve_installed grant
  reserve_installed-Reserved s needed h =
      elim (Option-cases (grow_capacity 65 (first_capacity s.installed_capacity) needed)) [
        | inl e ↦ ground (arith, e)
        | inr (grown, e) ↦
            ground (arith, e, grow_capacity-le 65 (first_capacity s.installed_capacity) needed e)
      ]

  append-IsValid :
      (s t : CupState) (x : PackageIdentity)
      → IsValid s
      → Reserved s (length s.installed + 1) t
      → IsIdentity x
      → All (λ y. y ≢ x) s.installed
      → IsValid (record t { installed = t.installed ++ (x ∷ []) })
  append-IsValid s t x v r good new =
      rw (r.same_installed, r.same_defaults)
        (record {
          few_defaults = v.few_defaults;
          within_capacity = omega (arith, length-append s.installed (x ∷ []), r.room);
          installed_identities =
              All-append IsIdentity s.installed (x ∷ []) v.installed_identities (good, tt);
          installed_distinct = Pairs-append_one Differ s.installed x v.installed_distinct new;
          default_identities = v.default_identities;
          one_per_scope = v.one_per_scope;
          defaults_installed = All-In-append_one s.defaults s.installed x v.defaults_installed;
        })

  -- The error leaves the state as it is.
  reserve_installed-error :
      (s : CupState) (needed : ℕ)
      → (reserve_installed allocates s needed).0 ≢ cup_ok
      → (reserve_installed allocates s needed).1 ≡ s
  unfolding reserve_installed grant
  reserve_installed-error s needed h =
      elim (Option-cases (grow_capacity 65 (first_capacity s.installed_capacity) needed)) [
        | inl e ↦ ground (arith, e)
        | inr (grown, e) ↦ ground (arith, e)
      ]

  append_installed-IsValid :
      (s : CupState) (x : PackageIdentity) (r : CupError × CupState)
      → IsValid s
      → (r.0 ≡ cup_ok → Reserved s (length s.installed + 1) r.1)
      → (r.0 ≢ cup_ok → r.1 ≡ s)
      → IsIdentity x
      → All (λ y. y ≢ x) s.installed
      → IsValid (append_installed allocates x r).1
  unfolding append_installed
  append_installed-IsValid s x (cup_ok, t) v done same good new =
      append-IsValid s t x v (done refl) good new
  append_installed-IsValid s x (e, t) v done same good new = rw (same (λ p. cc)) v

  -- state_add_installed leaves a valid state valid, for any identity and whatever the
  -- allocator answers.
  pub state_add_installed-IsValid :
      (s : CupState) (x : PackageIdentity)
      → IsValid s
      → IsValid (state_add_installed allocates s x).1
  unfolding state_add_installed find_installed_index
  state_add_installed-IsValid s x v = elim (Result-cases (package_identity_validate x)) [
    | inr (e, bad) ↦ rw (bad, state_add_installed) v
    | inl good ↦ elim (Option-cases (find_index (λ y. package_identity_equals y x) s.installed)) [
      | inr (i, found) ↦ rw (good, found, state_add_installed) v
      | inl new ↦
          rw (good, new, state_add_installed)
            (append_installed-IsValid s x (reserve_installed allocates s (length s.installed + 1)) v
              (reserve_installed-Reserved s (length s.installed + 1))
              (reserve_installed-error s (length s.installed + 1)) good
              (find_index-All_differ x s.installed new))
    ]
  ]

pub found_at :
    (x : PackageIdentity) (xs : List PackageIdentity) {i : ℕ}
    → find_index (λ y. package_identity_equals y x) xs ≡ some i
    → (get_elem? xs i ≡ some x) × (i < length xs)
found_at x xs h =
    let (a, at, holds, within) = find_index-eq_some (λ y. package_identity_equals y x) xs h in
    (rw (← (package_identity_equals_iff a x).0 holds) at, within)

remove-IsValid :
    (s : CupState) (x : PackageIdentity) (i : ℕ)
    → IsValid s
    → (get_elem? s.installed i ≡ some x) × (i < length s.installed)
    → All (λ d. d ≢ x) s.defaults
    → IsValid (record s { installed = remove_at s.installed i })
remove-IsValid s x i v at unused = record {
  few_defaults = v.few_defaults;
  within_capacity = omega (arith, v.within_capacity, length-remove_at s.installed i at.1);
  installed_identities = All-remove_at IsIdentity s.installed i v.installed_identities;
  installed_distinct = Pairs-remove_at Differ s.installed i v.installed_distinct;
  default_identities = v.default_identities;
  one_per_scope = v.one_per_scope;
  defaults_installed = All-In-remove_at s.defaults s.installed x i at.0 unused v.defaults_installed;
}

-- state_remove_installed leaves a valid state valid, for any identity.
pub state_remove_installed-IsValid :
    (s : CupState) (x : PackageIdentity) → IsValid s → IsValid (state_remove_installed s x).1
unfolding state_remove_installed find_installed_index
state_remove_installed-IsValid s x v = elim (Result-cases (package_identity_validate x)) [
  | inr (e, bad) ↦ rw (bad, state_remove_installed) v
  | inl good ↦ elim (Option-cases (find_index (λ y. package_identity_equals y x) s.installed)) [
    | inl missing ↦ rw (good, missing, state_remove_installed) v
    | inr (i, found) ↦ elim (Bool-cases (any (λ d. package_identity_equals d x) s.defaults)) [
      | inl used ↦ rw (good, found, used, state_remove_installed) v
      | inr unused ↦
          rw (good, found, unused, state_remove_installed)
            (remove-IsValid s x i v (found_at x s.installed found) (
              (any-eq_false (λ d. package_identity_equals d x) (λ d. d ≢ x) (λ d. not_equal_iff d x)
                  s.defaults).0
                unused))
    ]
  ]
]
