-- ===== src/State/Arrays.antt =====
-- How the array updates of src/state.c keep what holds of all items and of all pairs.
use mathlib.Core.Option.{some-injective}
use cup.Base.{
  Pairs, ℕ, zero, suc, some, List, [], ◌∷◌, ◌++◌, ◌≡◌, refl, sym, ◌∙◌, ap, ◌≢◌, inl, inr, arith,
  get_elem?, set, remove_at, All, All-set,
}
use cup.Package.{PackageIdentity}
use cup.Package.Laws.{scope_of}
use cup.State.Search.{All-get_elem?}
use cup.State.Valid.{In, ScopesDiffer}

pub In-append : (x : PackageIdentity) (xs ys : List PackageIdentity) → In x xs → In x (xs ++ ys)
In-append x (y ∷ xs) ys (inl e) = inl e
In-append x (y ∷ xs) ys (inr m) = inr (In-append x xs ys m)
In-append x [] ys m = absurd m

pub In-append_last : (x : PackageIdentity) (xs : List PackageIdentity) → In x (xs ++ (x ∷ []))
In-append_last x [] = inl refl
In-append_last x (y ∷ xs) = inr (In-append_last x xs)

-- An item other than the one taken out stays.
pub In-remove_at :
    (d x : PackageIdentity) (xs : List PackageIdentity) (i : ℕ)
    → get_elem? xs i ≡ some x
    → d ≢ x
    → In d xs
    → In d (remove_at xs i)
In-remove_at d x (y ∷ ys) zero e ne (inl m) = absurd (ne (ground arith))
In-remove_at d x (y ∷ ys) zero e ne (inr m) = m
In-remove_at d x (y ∷ ys) (suc i) e ne (inl m) = inl m
In-remove_at d x (y ∷ ys) (suc i) e ne (inr m) = inr (In-remove_at d x ys i e ne m)
In-remove_at d x [] i e ne m = absurd m

All-In-append :
    (ds xs ys : List PackageIdentity) → All (λ d. In d xs) ds → All (λ d. In d (xs ++ ys)) ds
All-In-append [] xs ys h = tt
All-In-append (d ∷ ds) xs ys h = (In-append d xs ys h.0, All-In-append ds xs ys h.1)

pub All-In-append_one :
    (ds xs : List PackageIdentity) (x : PackageIdentity)
    → All (λ d. In d xs) ds
    → All (λ d. In d (xs ++ (x ∷ []))) ds
All-In-append_one ds xs x = All-In-append ds xs (x ∷ [])

pub All-In-remove_at :
    (ds xs : List PackageIdentity) (x : PackageIdentity) (i : ℕ)
    → get_elem? xs i ≡ some x
    → All (λ d. d ≢ x) ds
    → All (λ d. In d xs) ds
    → All (λ d. In d (remove_at xs i)) ds
All-In-remove_at [] xs x i e ne h = tt
All-In-remove_at (d ∷ ds) xs x i e ne h =
    (In-remove_at d x xs i e ne.0 h.0, All-In-remove_at ds xs x i e ne.1 h.1)

-- A default that takes the place of one of its own scope.
ScopesDiffer-set :
    (y x a : PackageIdentity) (xs : List PackageIdentity) (i : ℕ)
    → get_elem? xs i ≡ some a
    → scope_of a ≡ scope_of x
    → All (ScopesDiffer y) xs
    → All (ScopesDiffer y) (set xs i x)
ScopesDiffer-set y x a xs i at same h =
    All-set (ScopesDiffer y) xs i x h (λ e. All-get_elem? (ScopesDiffer y) xs i h at (e ∙ sym same))

pub Pairs-set_scope :
    (x a : PackageIdentity) (xs : List PackageIdentity) (i : ℕ)
    → get_elem? xs i ≡ some a
    → scope_of a ≡ scope_of x
    → Pairs ScopesDiffer xs
    → Pairs ScopesDiffer (set xs i x)
Pairs-set_scope x a [] i at same h = h
Pairs-set_scope x a (y ∷ ys) zero at same h = (later ys h.0, h.1)
  where
    y-scope : scope_of y ≡ scope_of x
    y-scope = ap (λ (p : PackageIdentity). scope_of p) (some-injective y a at) ∙ same

    later : (zs : List PackageIdentity) → All (ScopesDiffer y) zs → All (ScopesDiffer x) zs
    later [] k = tt
    later (z ∷ zs) k = ((λ e. k.0 (y-scope ∙ e)), later zs k.1)
Pairs-set_scope x a (y ∷ ys) (suc i) at same h =
    (ScopesDiffer-set y x a ys i at same h.0, Pairs-set_scope x a ys i at same h.1)
