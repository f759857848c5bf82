-- ===== src/State/Effects.antt =====
-- What adding and removing a package do to the set of installed packages (src/state.c).
use mathlib.Core.Option.{some-injective}
use mathlib.Core.Path.{subst}
use cup.Base.{
  Pairs, sym, ℕ, zero, suc, ◌+◌, ◌*◌, ◌^◌, ◌≤◌, ◌<◌, Bool, true, false, some, List, [], ◌∷◌, ◌++◌,
  ◌≡◌, refl, ◌≢◌, ◌↔◌, inl, inr, arith, leb, length, get_elem?, remove_at, any, All, Bool-cases,
  Option-cases,
}
use cup.Errors.{cup_ok}
use cup.Package.{PackageIdentity, package_identity_equals}
use cup.Package.Laws.{IsIdentity, package_identity_equals_iff}
use cup.State.Valid.{In, Differ, IsValid, not_equal_iff, not-All-In, find_index-In}
use cup.State.Search.{find_index-eq_none, All-get_elem?}
use cup.State.Arrays.{In-remove_at}
use cup.State.Keeps.{found_at}
use cup.State.{
  CupState, find_index, find_installed_index, grow_capacity, first_capacity, grant,
  reserve_installed, append_installed, state_add_installed, state_remove_installed,
}

abbrev pow2 : ℕ → ℕ
pow2 zero = 1
pow2 (suc n) = 2 * pow2 n

-- Doubling reaches what is needed, and stays near it.
grow_capacity_enough :
    (fuel capacity needed : ℕ)
    → needed ≤ capacity * pow2 fuel
    → needed ≤ 2 ^ 62
    → capacity ≤ 2 * needed + 8
    → (grown : ℕ) × (grow_capacity (suc fuel) capacity needed ≡ some grown)
      × (grown ≤ 2 * needed + 8)
unfolding grow_capacity
grow_capacity_enough zero capacity needed h k b = (capacity, ground arith, b)
grow_capacity_enough (suc fuel) capacity needed h k b = elim (Bool-cases (leb needed capacity)) [
  | inl room ↦ (capacity, ground arith, b)
  | inr short ↦
      (let (grown, e, near) =
          grow_capacity_enough fuel (capacity * 2) needed (grind arith) k (ground arith) in
        (grown, ground (arith, e), near))
]

reserve_installed_enough :
    (allocates : ℕ → Bool) (s : CupState) (needed : ℕ)
    → ((bytes : ℕ) → allocates bytes ≡ true)
    → needed ≤ 2 ^ 54
    → (capacity : ℕ) × (reserve_installed allocates s needed
        ≡ (cup_ok, record s { installed_capacity = capacity }))
unfolding reserve_installed grant
reserve_installed_enough allocates s needed granted h =
    elim (Bool-cases (leb needed s.installed_capacity)) [
      | inl room ↦ (s.installed_capacity, ground arith)
      | inr short ↦
          (let (grown, e, near) =
              grow_capacity_enough 64 (first_capacity s.installed_capacity) needed (ground arith)
                (omega arith) (ground arith) in
            (grown, ground (arith, e, granted (grown * 224))))
    ]

-- If the allocator grants every request, the identity is valid and not yet installed, and fewer
-- than 2^54 packages are installed, state_add_installed answers CUP_OK, puts the identity at the
-- end of the packages and changes nothing else but the capacity.
pub state_add_installed_ok :
    (allocates : ℕ → Bool) (s : CupState) (x : PackageIdentity)
    → ((bytes : ℕ) → allocates bytes ≡ true)
    → IsIdentity x
    → ¬ In x s.installed
    → length s.installed < 2 ^ 54
    → (capacity : ℕ) × (state_add_installed allocates s x
        ≡ (cup_ok, record s { installed = s.installed ++ (x ∷ []); installed_capacity = capacity }))
unfolding state_add_installed append_installed find_installed_index
state_add_installed_ok allocates s x granted good new small =
    let (capacity, e) =
      reserve_installed_enough allocates s (length s.installed + 1) granted (omega arith) in
    elim (Option-cases (find_index (λ y. package_identity_equals y x) s.installed)) [
      | inr (i, found) ↦ absurd (new (find_index-In x s.installed found))
      | inl missing ↦ (capacity, ground (arith, good, missing, e))
    ]

In-any :
    (x : PackageIdentity) (xs : List PackageIdentity)
    → In x xs
    → any (λ y. package_identity_equals y x) xs ≡ true
In-any x [] m = absurd m
In-any x (y ∷ ys) (inl e) = ground (arith, package_identity_equals_iff y x)
In-any x (y ∷ ys) (inr m) = ground (arith, In-any x ys m)

In-remove_at-before :
    (y : PackageIdentity) (xs : List PackageIdentity) (i : ℕ) → In y (remove_at xs i) → In y xs
In-remove_at-before y [] i m = m
In-remove_at-before y (x ∷ xs) zero m = inr m
In-remove_at-before y (x ∷ xs) (suc i) (inl e) = inl e
In-remove_at-before y (x ∷ xs) (suc i) (inr m) = inr (In-remove_at-before y xs i m)

-- In an array without repetitions, the item taken out is gone.
not-In-remove_at :
    (x : PackageIdentity) (xs : List PackageIdentity) (i : ℕ)
    → Pairs Differ xs
    → get_elem? xs i ≡ some x
    → ¬ In x (remove_at xs i)
not-In-remove_at x [] i d at m = m
not-In-remove_at x (y ∷ ys) zero d at m =
    not-All-In x ys (subst (λ z. All (λ w. w ≢ z) ys) (some-injective y x at) (others y ys d.0)) m
  where
    others :
        (y : PackageIdentity) (zs : List PackageIdentity) → All (Differ y) zs → All (λ w. w ≢ y) zs
    others y [] h = tt
    others y (z ∷ zs) h = ((λ e. h.0 (sym e)), others y zs h.1)
not-In-remove_at x (y ∷ ys) (suc i) d at (inl e) = All-get_elem? (Differ y) ys i d.0 at e
not-In-remove_at x (y ∷ ys) (suc i) d at (inr m) = not-In-remove_at x ys i d.1 at m

not_used :
    (x : PackageIdentity) (ds : List PackageIdentity)
    → ¬ In x ds
    → any (λ d. package_identity_equals d x) ds ≡ false
not_used x [] h = refl
not_used x (d ∷ ds) h =
    ground (arith, not_used x ds (λ m. h (inr m)), (not_equal_iff d x).1 (λ e. h (inl e)))

removed-eq :
    (s : CupState) (x : PackageIdentity)
    → IsIdentity x
    → In x s.installed
    → ¬ In x s.defaults
    → (i : ℕ) × (get_elem? s.installed i ≡ some x)
      × (state_remove_installed s x ≡ (cup_ok, record s { installed = remove_at s.installed i }))
unfolding state_remove_installed find_installed_index
removed-eq s x good present unused =
    elim (Option-cases (find_index (λ y. package_identity_equals y x) s.installed)) [
      | inl missing ↦ absurd (
          ground (
            arith,
            In-any x s.installed present,
            (find_index-eq_none (λ y. package_identity_equals y x) s.installed).0 missing,
          ))
      | inr (i, found) ↦ (
        i,
        (found_at x s.installed found).0,
        ground (arith, good, found, not_used x s.defaults unused),
      )
    ]

-- On a valid state, for a valid identity that is installed and is no default,
-- state_remove_installed answers CUP_OK; afterwards exactly the other packages are installed,
-- and the defaults are the same.
pub state_remove_installed_ok :
    (s : CupState) (x y : PackageIdentity)
    → IsValid s
    → IsIdentity x
    → In x s.installed
    → ¬ In x s.defaults
    → ((state_remove_installed s x).0 ≡ cup_ok)
      × (In y (state_remove_installed s x).1.installed ↔ (In y s.installed × (y ≢ x)))
      × ((state_remove_installed s x).1.defaults ≡ s.defaults)
state_remove_installed_ok s x y v good present unused =
    let (i, at, e) = removed-eq s x good present unused in
    rw e (
      refl,
      (
        (λ m. (
          In-remove_at-before y s.installed i m,
          (λ same.
              not-In-remove_at x s.installed i v.installed_distinct at
                (subst (λ z. In z (remove_at s.installed i)) same m)),
        )),
        (λ m. In-remove_at y x s.installed i at m.1 m.0),
      ),
      refl,
    )
