-- ===== src/State/Search.antt =====
-- The linear searches of src/state.c.
use mathlib.Core.Option.{some-injective}
use mathlib.Core.Path.{subst}
use cup.Base.{
  ℕ, zero, suc, ◌<◌, Bool, true, false, none, some, List, [], ◌∷◌, ◌≡◌, refl, ◌↔◌, arith, length,
  get_elem?, any, All,
}
use cup.State.{find_index}

module _ {ℓ} {A : Type ℓ} (test : A → Bool) where
  pub find_index-eq_none : (xs : List A) → (find_index test xs ≡ none) ↔ (any test xs ≡ false)
  unfolding find_index
  find_index-eq_none [] = ground arith
  find_index-eq_none (x ∷ xs) = ground (arith, find_index-eq_none xs)

  -- The index found is in range and the test holds there.
  pub find_index-eq_some :
      (xs : List A) {i : ℕ}
      → find_index test xs ≡ some i
      → (a : A) × (get_elem? xs i ≡ some a) × (test a ≡ true) × (i < length xs)
  unfolding find_index
  find_index-eq_some [] h = absurd (ground arith)
  find_index-eq_some (x ∷ xs) {i = zero} h = (x, refl, ground arith, omega arith)
  find_index-eq_some (x ∷ xs) {i = suc i} h =
      let (a, at, holds, within) = find_index-eq_some xs {i = i} (ground arith) in
      (a, at, holds, omega arith)

module _ {ℓ κ} {A : Type ℓ} (p : A → Bool) (P : A → Type κ)
    (h : (a : A) → (p a ≡ false) ↔ P a) where
  pub any-eq_false : (xs : List A) → (any p xs ≡ false) ↔ All P xs
  any-eq_false [] = ((λ _. tt), (λ _. refl))
  any-eq_false (x ∷ xs) =
      let ih = any-eq_false xs in
      (
        (λ e. ((h x).0 (ground arith), ih.0 (ground arith))),
        (λ a. ground (arith, (h x).1 a.0, ih.1 a.1)),
      )

module _ {ℓ κ} {A : Type ℓ} (P : A → Type κ) where
  pub All-get_elem? : (xs : List A) (i : ℕ) {a : A} → All P xs → get_elem? xs i ≡ some a → P a
  All-get_elem? [] i all e = absurd (ground arith)
  All-get_elem? (x ∷ xs) zero all e = subst P (some-injective x _ e) all.0
  All-get_elem? (x ∷ xs) (suc i) all e = All-get_elem? xs i all.1 e
