-- ===== src/Base/Rearranged.antt =====
-- What a rearrangement of a list keeps, and a sort to run the models with in place of `qsort`.
use mathlib.Core.Path.{◌≡◌, refl, ap, ◌∙◌, subst}
use mathlib.Core.List.{List, [], ◌∷◌, Permᴰ}
use mathlib.Core.List.Permᴰ
use Prim.Native.Nat.{suc, Ordering}
use cup.Base.Lists.{length, All, Pairs}

module _ {ℓ} {A : Type ℓ} where
  pub length-rearranged : {xs ys : List A} → Permᴰ xs ys → length xs ≡ length ys
  length-rearranged Permᴰ.nil = refl
  length-rearranged (Permᴰ.cons e d) = ap suc (length-rearranged d)
  length-rearranged (Permᴰ.swap e f) = refl
  length-rearranged (Permᴰ.trans d₁ d₂) = length-rearranged d₁ ∙ length-rearranged d₂

  pub All-rearranged {κ} : (P : A → Type κ) {xs ys : List A} → Permᴰ xs ys → All P xs → All P ys
  All-rearranged P Permᴰ.nil h = h
  All-rearranged P (Permᴰ.cons e d) h = (subst P e h.0, All-rearranged P d h.1)
  All-rearranged P (Permᴰ.swap e f) h = (subst P f h.1.0, (subst P e h.0, h.1.1))
  All-rearranged P (Permᴰ.trans d₁ d₂) h = All-rearranged P d₂ (All-rearranged P d₁ h)

  pub Pairs-rearranged {κ} :
      (R : A → A → Type κ)
      → ((x y : A) → R x y → R y x)
      → {xs ys : List A} → Permᴰ xs ys
      → Pairs R xs
      → Pairs R ys
  Pairs-rearranged R symm Permᴰ.nil h = h
  Pairs-rearranged R symm (Permᴰ.cons {l₂ = ys} e d) h =
      (subst (λ a. All (R a) ys) e (All-rearranged (R _) d h.0), Pairs-rearranged R symm d h.1)
  Pairs-rearranged R symm (Permᴰ.swap {a} {b} {a'} {b'} {l} e f) h = (
    (
      subst (λ x. R x b') f (subst (λ y. R b y) e (symm a b h.0.0)),
      subst (λ x. All (R x) l) f h.1.0,
    ),
    (subst (λ x. All (R x) l) e h.0.1, h.1.1),
  )
  Pairs-rearranged R symm (Permᴰ.trans d₁ d₂) h =
      Pairs-rearranged R symm d₂ (Pairs-rearranged R symm d₁ h)

-- The head of an insertion; `later` is the insertion further on.
abbrev place {ℓ} : {A : Type ℓ} → Ordering → A → A → List A → List A → List A
place Ordering.gt x y ys later = y ∷ later
place _ x y ys later = x ∷ y ∷ ys

module _ {ℓ} {A : Type ℓ} (compare : A → A → Ordering) where
  abbrev insert : A → List A → List A
  insert x [] = x ∷ []
  insert x (y ∷ ys) = place (compare x y) x y ys (insert x ys)

  abbrev pub insertion_sort : List A → List A
  insertion_sort [] = []
  insertion_sort (x ∷ xs) = insert x (insertion_sort xs)

  place-perm :
      (o : Ordering) (x y : A) (ys later : List A)
      → Permᴰ later (x ∷ ys)
      → Permᴰ (place o x y ys later) (x ∷ y ∷ ys)
  place-perm Ordering.gt x y ys later d = Permᴰ.trans (Permᴰ.cons refl d) (Permᴰ.swap refl refl)
  place-perm Ordering.lt x y ys later d = Permᴰ.refl (x ∷ y ∷ ys)
  place-perm Ordering.eq x y ys later d = Permᴰ.refl (x ∷ y ∷ ys)

  insert-perm : (x : A) (ys : List A) → Permᴰ (insert x ys) (x ∷ ys)
  insert-perm x [] = Permᴰ.refl (x ∷ [])
  insert-perm x (y ∷ ys) = place-perm (compare x y) x y ys (insert x ys) (insert-perm x ys)

  pub insertion_sort-perm : (xs : List A) → Permᴰ (insertion_sort xs) xs
  insertion_sort-perm [] = Permᴰ.nil
  insertion_sort-perm (x ∷ xs) =
      Permᴰ.trans (insert-perm x (insertion_sort xs)) (Permᴰ.cons refl (insertion_sort-perm xs))
