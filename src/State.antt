-- ===== src/State.antt =====
-- src/state.c: the installed packages and the defaults, in memory. The
-- defaults' operations are in State/Defaults, the file is in State/File.
-- `installed` is the array up to `installed_count`, `defaults` that up to `default_count`; what an
-- array holds behind its count is never read.
pub mod Defaults
pub mod Search
pub mod Valid
pub mod Validate
pub mod Arrays
pub mod Keeps
pub mod Reached
pub mod Effects
pub mod Newest
pub mod Reference
pub mod Lookup
pub mod KeepsDefaults
pub mod File
use cup.Base.{
  ℕ, zero, suc, ◌+◌, ◌-◌, ◌*◌, ◌/◌, ◌^◌, Bool, true, false, not, ◌&&◌, ◌||◌, Option, none, some,
  List, [], ◌∷◌, ◌++◌, Ordering, ltb, leb, ◌==◌, if◌then◌else◌, length, get_elem?, set, remove_at,
  is_nil, any, Text, text_eq,
}
use cup.Errors.{
  CupError, cup_ok, Result, ok, err, invalid_input, state_full, default_full, already_installed,
  not_installed, inconsistent_state, temporary, ◌>>=◌, ◌>>◌,
}
use cup.Registry.{local_scope_count}
use cup.Selector.{package_release_compare}
use cup.Package.{
  PackageScope, PackageIdentity, package_identity_equals, package_identity_validate,
  package_identity_get_scope,
}

pub record CupState : Type 0 where
  pub installed : List PackageIdentity
  pub installed_capacity : ℕ
  pub defaults : List PackageIdentity

abbrev pub max_state_defaults : ℕ
max_state_defaults = local_scope_count

abbrev pub state_init : CupState
state_init = record { installed = []; installed_capacity = 0; defaults = [] }

unfoldable pub identity_matches_scope : PackageIdentity → PackageScope → Bool
identity_matches_scope identity scope =
    text_eq identity.component scope.component
    && text_eq identity.host_platform scope.host_platform
    && text_eq identity.target_platform scope.target_platform

-- The first index at which a test holds; `none` is the source's -1.
unfoldable pub find_index {ℓ} : {A : Type ℓ} → (A → Bool) → List A → Option ℕ
find_index test [] = none
find_index test (x ∷ xs) =
    let later = find_index test xs in
    if test x then some 0 else elim later [ none ↦ none | some i ↦ some (suc i) ]

unfoldable pub find_installed_index : CupState → PackageIdentity → Option ℕ
unfolding find_index
find_installed_index state identity =
    find_index (λ item. package_identity_equals item identity) state.installed

unfoldable pub find_default_index : CupState → PackageScope → Option ℕ
unfolding find_index
find_default_index state scope =
    find_index (λ item. identity_matches_scope item scope) state.defaults

-- `SIZE_MAX` of a 64-bit build, and the bytes of one identity.
abbrev pub size_max : ℕ
size_max = 2 ^ 64 - 1

abbrev pub identity_bytes : ℕ
identity_bytes = 224

-- The doubling loop. A capacity doubles at most 64 times before the overflow test stops it.
unfoldable pub grow_capacity : ℕ → ℕ → ℕ → Option ℕ
grow_capacity zero capacity needed = none
grow_capacity (suc fuel) capacity needed =
    let doubled = grow_capacity fuel (capacity * 2) needed in
    if ltb capacity needed
    then (if ltb (size_max / 2) capacity then none else doubled)
    else some capacity

-- An empty array starts at eight.
abbrev pub first_capacity : ℕ → ℕ
first_capacity capacity = if capacity == 0 then 8 else capacity

-- The allocator answers for a number of bytes.
module _ (allocates : ℕ → Bool) where
  -- `realloc`, for the capacity that the loop found.
  unfoldable pub grant : CupState → Option ℕ → CupError × CupState
  grant state none = (state_full, state)
  grant state (some capacity) =
      if ltb (size_max / identity_bytes) capacity
      then (state_full, state)
      else if allocates (capacity * identity_bytes)
      then (cup_ok, record state { installed_capacity = capacity })
      else (temporary, state)

  unfoldable pub reserve_installed : CupState → ℕ → CupError × CupState
  reserve_installed state needed =
      if leb needed state.installed_capacity
      then (cup_ok, state)
      else grant state (grow_capacity 65 (first_capacity state.installed_capacity) needed)

  -- The end of `state_add_installed`, from the answer of `reserve_installed`.
  append_installed : PackageIdentity → CupError × CupState → CupError × CupState
  append_installed identity (cup_ok, state) =
      (cup_ok, record state { installed = state.installed ++ (identity ∷ []) })
  append_installed identity (e, state) = (e, state)

  unfoldable pub state_add_installed : CupState → PackageIdentity → CupError × CupState
  unfolding append_installed
  state_add_installed state identity = elim (package_identity_validate identity) [
    | err e ↦ (e, state)
    | ok _ ↦ elim (find_installed_index state identity) [
      | some _ ↦ (already_installed, state)
      | none ↦ append_installed identity (reserve_installed state (length state.installed + 1))
    ]
  ]

unfoldable pub identity_scope : PackageIdentity → Result PackageScope
identity_scope identity = do package_identity_validate identity; package_identity_get_scope identity

-- The first loop of `state_validate`; `seen` holds the items before the current one.
unfoldable pub validate_installed : List PackageIdentity → List PackageIdentity → CupError
validate_installed seen [] = cup_ok
validate_installed seen (item ∷ items) =
    let rest = validate_installed (item ∷ seen) items in
    elim (package_identity_validate item) [
      | err _ ↦ inconsistent_state
      | ok _ ↦
          if any (λ earlier. package_identity_equals earlier item) seen
          then inconsistent_state
          else rest
    ]

-- The second loop.
unfoldable pub validate_defaults :
    List PackageIdentity → List PackageIdentity → List PackageIdentity → CupError
validate_defaults installed seen [] = cup_ok
validate_defaults installed seen (item ∷ items) =
    let rest = validate_defaults installed (item ∷ seen) items in
    elim (identity_scope item) [
      | err _ ↦ inconsistent_state
      | ok scope ↦
          if any (λ earlier. identity_matches_scope earlier scope) seen
          then inconsistent_state
          else elim (find_index (λ entry. package_identity_equals entry item) installed) [
            | none ↦ inconsistent_state
            | some _ ↦ rest
          ]
    ]

unfoldable pub state_validate : CupState → CupError
state_validate state =
    if ltb max_state_defaults (length state.defaults)
      || ltb state.installed_capacity (length state.installed)
    then inconsistent_state
    else elim (validate_installed [] state.installed) [
      | cup_ok ↦ validate_defaults state.installed [] state.defaults
      | e ↦ e
    ]

unfoldable pub state_find_installed : CupState → PackageIdentity → Option ℕ
state_find_installed state identity = elim (package_identity_validate identity) [
  | err _ ↦ none
  | ok _ ↦ find_installed_index state identity
]

unfoldable pub state_remove_installed : CupState → PackageIdentity → CupError × CupState
state_remove_installed state identity = elim (package_identity_validate identity) [
  | err _ ↦ (invalid_input, state)
  | ok _ ↦ elim (find_installed_index state identity) [
    | none ↦ (not_installed, state)
    | some index ↦
        if any (λ item. package_identity_equals item identity) state.defaults
        then (inconsistent_state, state)
        else (cup_ok, record state { installed = remove_at state.installed index })
  ]
]
