-- ===== src/Preferences/Keeps.antt =====
-- How the array updates of src/tool_preferences.c keep what holds of the entries.
use cup.Base.{
  ℕ, zero, suc, ◌≤◌, true, none, some, List, [], ◌∷◌, ◌≡◌, refl, ap, inl, inr, arith, length, All,
  Bool-cases, Pairs, Text, text_eq,
}
use cup.Errors.{ok}
use cup.Registry.{registry_validate_tool}
use cup.Package.{PackageScope}
use cup.State.Search.{find_index-eq_none, any-eq_false}
use cup.State.{find_index}
use cup.Preferences.{ToolPreference, same_entry, entry_is_valid, set_tool_at, drop_target}
use cup.Preferences.Valid.{key_of, Apart, same_entry_iff}
use cup.Preferences.Map.{search}

pub length-set_tool_at :
    (xs : List ToolPreference) (i : ℕ) (tool : Text) → length (set_tool_at xs i tool) ≡ length xs
unfolding set_tool_at
length-set_tool_at [] i tool = refl
length-set_tool_at (x ∷ xs) zero tool = refl
length-set_tool_at (x ∷ xs) (suc i) tool = ap suc (length-set_tool_at xs i tool)

-- The scopes stay, so what is said of the scopes alone stays too.
All-set_tool_at-scope :
    (x : ToolPreference) (xs : List ToolPreference) (i : ℕ) (tool : Text)
    → All (Apart x) xs
    → All (Apart x) (set_tool_at xs i tool)
unfolding set_tool_at
All-set_tool_at-scope x [] i tool h = h
All-set_tool_at-scope x (y ∷ ys) zero tool h = h
All-set_tool_at-scope x (y ∷ ys) (suc i) tool h = (h.0, All-set_tool_at-scope x ys i tool h.1)

pub Pairs-set_tool_at :
    (xs : List ToolPreference) (i : ℕ) (tool : Text)
    → Pairs Apart xs
    → Pairs Apart (set_tool_at xs i tool)
unfolding set_tool_at
Pairs-set_tool_at [] i tool h = h
Pairs-set_tool_at (x ∷ xs) zero tool h = h
Pairs-set_tool_at (x ∷ xs) (suc i) tool h =
    (All-set_tool_at-scope x xs i tool h.0, Pairs-set_tool_at xs i tool h.1)

-- A valid entry stays valid with another tool of its component.
retooled :
    (host tool : Text) (x : ToolPreference)
    → entry_is_valid host x ≡ true
    → registry_validate_tool x.scope.component tool ≡ ok tt
    → entry_is_valid host (record x { tool = tool }) ≡ true
unfolding entry_is_valid
retooled host tool x h good = ground (arith, h, good)

pub valid-set_tool_at :
    (host tool : Text) (scope : PackageScope) (xs : List ToolPreference) (i : ℕ)
    → registry_validate_tool scope.component tool ≡ ok tt
    → search xs scope ≡ some i
    → All (λ entry. entry_is_valid host entry ≡ true) xs
    → All (λ entry. entry_is_valid host entry ≡ true) (set_tool_at xs i tool)
unfolding find_index set_tool_at
valid-set_tool_at host tool scope [] i good found h = tt
valid-set_tool_at host tool scope (x ∷ xs) zero good found h =
    let same : key_of x.scope ≡ key_of scope = (same_entry_iff x.scope scope).0 (ground arith) in
    (retooled host tool x h.0 (rw (ap (λ (k : Text × Text). k.1) same) good), h.1)
valid-set_tool_at host tool scope (x ∷ xs) (suc i) good found h =
    (h.0, valid-set_tool_at host tool scope xs i good (ground arith) h.1)

pub search-Apart :
    (scope : PackageScope) (tool : Text) (xs : List ToolPreference)
    → search xs scope ≡ none
    → All (λ y. Apart y (record { scope = scope; tool = tool })) xs
search-Apart scope tool xs h =
    (any-eq_false (λ y. same_entry y.scope scope)
        (λ y. Apart y (record { scope = scope; tool = tool }))
        (λ y. ground (arith, same_entry_iff y.scope scope)) xs).0
      ((find_index-eq_none (λ entry. same_entry entry.scope scope) xs).0 h)

pub Apart-search :
    (entry : ToolPreference) (xs : List ToolPreference)
    → All (λ y. Apart y entry) xs
    → search xs entry.scope ≡ none
Apart-search entry xs h = (find_index-eq_none (λ y. same_entry y.scope entry.scope) xs).1 (
    (any-eq_false (λ y. same_entry y.scope entry.scope) (λ y. Apart y entry)
        (λ y. ground (arith, same_entry_iff y.scope entry.scope)) xs).1
      h)

pub length-drop_target :
    (target : Text) (xs : List ToolPreference) → length (drop_target target xs).0 ≤ length xs
unfolding drop_target
length-drop_target target [] = omega arith
length-drop_target target (x ∷ xs) = ground (arith, length-drop_target target xs)

pub All-drop_target {κ} :
    (P : ToolPreference → Type κ) (target : Text) (xs : List ToolPreference)
    → All P xs
    → All P (drop_target target xs).0
unfolding drop_target
All-drop_target P target [] h = h
All-drop_target P target (x ∷ xs) h = elim (Bool-cases (text_eq x.scope.target_platform target)) [
  | inl gone ↦ rw gone (All-drop_target P target xs h.1)
  | inr stays ↦ rw stays (h.0, All-drop_target P target xs h.1)
]

pub Pairs-drop_target :
    (target : Text) (xs : List ToolPreference)
    → Pairs Apart xs
    → Pairs Apart (drop_target target xs).0
unfolding drop_target
Pairs-drop_target target [] h = h
Pairs-drop_target target (x ∷ xs) h = elim (Bool-cases (text_eq x.scope.target_platform target)) [
  | inl gone ↦ rw gone (Pairs-drop_target target xs h.1)
  | inr stays ↦ rw stays (All-drop_target (Apart x) target xs h.0, Pairs-drop_target target xs h.1)
]
