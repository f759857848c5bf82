-- ===== src/Base/Lists.antt =====
-- Lists measured and indexed by native numbers, and the list loops that the components share.
use Prim.Native.Nat.{ℕ, zero, suc, ◌+◌, ◌<◌}
use mathlib.Core.Path.{◌≡◌, refl, ap}
use mathlib.Core.Bool.{Bool, true, false, ◌&&◌, ◌||◌}
use mathlib.Core.List.{List, [], ◌∷◌, ◌++◌}
use mathlib.Core.Option.{Option, none, some}
use native.Mathlib.Omega.{arith}

module _ {ℓ} {A : Type ℓ} where
  abbrev pub length : List A → ℕ
  length [] = 0
  length (x ∷ xs) = suc (length xs)

  abbrev pub get_elem? : List A → ℕ → Option A
  get_elem? [] i = none
  get_elem? (x ∷ xs) zero = some x
  get_elem? (x ∷ xs) (suc i) = get_elem? xs i

  -- A write out of bounds changes nothing.
  abbrev pub set : List A → ℕ → A → List A
  set [] i v = []
  set (x ∷ xs) zero v = v ∷ xs
  set (x ∷ xs) (suc i) v = x ∷ set xs i v

  -- The array shift that closes the gap at an index.
  abbrev pub remove_at : List A → ℕ → List A
  remove_at [] i = []
  remove_at (x ∷ xs) zero = xs
  remove_at (x ∷ xs) (suc i) = x ∷ remove_at xs i

  abbrev pub is_nil : List A → Bool
  is_nil [] = true
  is_nil (x ∷ xs) = false

  abbrev pub any : (A → Bool) → List A → Bool
  any p [] = false
  any p (x ∷ xs) = p x || any p xs

  abbrev pub all : (A → Bool) → List A → Bool
  all p [] = true
  all p (x ∷ xs) = p x && all p xs

  abbrev pub All {κ} : (A → Type κ) → List A → Type κ
  All P [] = Unit
  All P (x ∷ xs) = P x × All P xs

  -- A relation between every item and each later one.
  abbrev pub Pairs {κ} : (A → A → Type κ) → List A → Type κ
  Pairs R [] = Unit
  Pairs R (x ∷ xs) = All (R x) xs × Pairs R xs

  pub length-append : (xs ys : List A) → length (xs ++ ys) ≡ length xs + length ys
  length-append [] ys = omega arith
  length-append (x ∷ xs) ys = omega (arith, length-append xs ys)

module _ {ℓ} {A : Type ℓ} where
  pub length-remove_at :
      (xs : List A) (i : ℕ) → i < length xs → length (remove_at xs i) + 1 ≡ length xs
  length-remove_at [] i h = absurd (omega arith)
  length-remove_at (x ∷ xs) zero h = omega arith
  length-remove_at (x ∷ xs) (suc i) h = omega (arith, length-remove_at xs i)

  pub length-set : (xs : List A) (i : ℕ) (v : A) → length (set xs i v) ≡ length xs
  length-set [] i v = refl
  length-set (x ∷ xs) zero v = refl
  length-set (x ∷ xs) (suc i) v = ap suc (length-set xs i v)

module _ {ℓ κ} {A : Type ℓ} (P : A → Type κ) where
  pub All-append : (xs ys : List A) → All P xs → All P ys → All P (xs ++ ys)
  All-append [] ys hx hy = hy
  All-append (x ∷ xs) ys hx hy = (hx.0, All-append xs ys hx.1 hy)

  pub All-remove_at : (xs : List A) (i : ℕ) → All P xs → All P (remove_at xs i)
  All-remove_at [] i h = h
  All-remove_at (x ∷ xs) zero h = h.1
  All-remove_at (x ∷ xs) (suc i) h = (h.0, All-remove_at xs i h.1)

  pub All-set : (xs : List A) (i : ℕ) (v : A) → All P xs → P v → All P (set xs i v)
  All-set [] i v h p = h
  All-set (x ∷ xs) zero v h p = (p, h.1)
  All-set (x ∷ xs) (suc i) v h p = (h.0, All-set xs i v h.1 p)

module _ {ℓ κ} {A : Type ℓ} (R : A → A → Type κ) where
  pub Pairs-append_one :
      (xs : List A) (x : A) → Pairs R xs → All (λ y. R y x) xs → Pairs R (xs ++ (x ∷ []))
  Pairs-append_one [] x h k = (tt, tt)
  Pairs-append_one (y ∷ ys) x h k =
      (All-append (R y) ys (x ∷ []) h.0 (k.0, tt), Pairs-append_one ys x h.1 k.1)

  pub Pairs-remove_at : (xs : List A) (i : ℕ) → Pairs R xs → Pairs R (remove_at xs i)
  Pairs-remove_at [] i h = h
  Pairs-remove_at (y ∷ ys) zero h = h.1
  Pairs-remove_at (y ∷ ys) (suc i) h = (All-remove_at (R y) ys i h.0, Pairs-remove_at ys i h.1)

-- Every item is related to each of those seen before it.
abbrev pub Fresh {ℓ κ} : {A : Type ℓ} → (A → A → Type κ) → List A → List A → Type κ
Fresh R seen items = All (λ x. All (λ y. R y x) seen) items

module _ {ℓ κ} {A : Type ℓ} (R : A → A → Type κ) where
  pub Fresh-nil : (items : List A) → Fresh R [] items
  Fresh-nil [] = tt
  Fresh-nil (x ∷ xs) = (tt, Fresh-nil xs)

  -- An item joins those seen if it is related to all that follow.
  pub Fresh-cons_seen :
      (x : A) (seen items : List A)
      → All (R x) items
      → Fresh R seen items
      → Fresh R (x ∷ seen) items
  Fresh-cons_seen x seen [] h k = tt
  Fresh-cons_seen x seen (y ∷ ys) h k = ((h.0, k.0), Fresh-cons_seen x seen ys h.1 k.1)

  pub Fresh-seen_cons :
      (x : A) (seen items : List A)
      → Fresh R (x ∷ seen) items
      → (All (R x) items) × Fresh R seen items
  Fresh-seen_cons x seen [] h = (tt, tt)
  Fresh-seen_cons x seen (y ∷ ys) h =
      let (a, b) = Fresh-seen_cons x seen ys h.1 in ((h.0.0, a), (h.0.1, b))

  -- The same, with the item behind those seen.
  pub Fresh-append_seen :
      (x : A) (seen items : List A)
      → All (R x) items
      → Fresh R seen items
      → Fresh R (seen ++ (x ∷ [])) items
  Fresh-append_seen x seen [] h k = tt
  Fresh-append_seen x seen (y ∷ ys) h k =
      (All-append (λ z. R z y) seen (x ∷ []) k.0 (h.0, tt), Fresh-append_seen x seen ys h.1 k.1)
