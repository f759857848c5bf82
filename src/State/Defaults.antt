-- ===== src/State/Defaults.antt =====
-- The defaults and the host test of src/state.c.
use cup.Base.{
  ℕ, ◌+◌, Bool, true, false, ◌&&◌, Option, none, some, List, [], ◌∷◌, ◌++◌, Ordering, leb, ◌==◌,
  if◌then◌else◌, length, get_elem?, set, remove_at, is_nil, Text, text_eq,
}
use cup.Errors.{
  CupError, cup_ok, Result, ok, err, invalid_input, default_full, not_installed, inconsistent_state,
  ◌>>=◌,
}
use cup.Selector.{package_release_compare}
use cup.Package.{PackageScope, PackageIdentity, package_identity_equals, package_identity_validate}
use cup.State.{
  CupState, max_state_defaults, identity_matches_scope, find_installed_index, find_default_index,
  identity_scope,
}

unfoldable pub count_foreign : Text → List PackageIdentity → ℕ
count_foreign host [] = 0
count_foreign host (item ∷ items) =
    (if text_eq item.host_platform host then 0 else 1) + count_foreign host items

unfoldable pub state_count_foreign_hosts : CupState → Text → ℕ
unfolding count_foreign
state_count_foreign_hosts state host =
    if is_nil host
    then 0
    else count_foreign host state.installed + count_foreign host state.defaults

unfoldable pub state_validate_current_host : CupState → Text → CupError
unfolding state_count_foreign_hosts
state_validate_current_host state host =
    if is_nil host
    then invalid_input
    else if state_count_foreign_hosts state host == 0
    then cup_ok
    else inconsistent_state

unfoldable pub state_get_default : CupState → PackageScope → Option PackageIdentity
state_get_default state scope = elim (find_default_index state scope) [
  | none ↦ none
  | some index ↦ get_elem? state.defaults index
]

-- `best` against one more candidate of the tool.
unfoldable pub better : Option PackageIdentity → PackageIdentity → Result (Option PackageIdentity)
better none candidate = ok (some candidate)
better (some best) candidate = do
  comparison ← package_release_compare candidate.version best.version
  elim comparison [ Ordering.gt ↦ ok (some candidate) | _ ↦ ok (some best) ]

-- The loop of `state_get_tool_reference`.
unfoldable pub best_installed :
    PackageScope
    → Text
    → Option PackageIdentity
    → List PackageIdentity
    → Result (Option PackageIdentity)
unfolding better
best_installed scope tool best [] = ok best
best_installed scope tool best (candidate ∷ items) =
    elim (identity_matches_scope candidate scope && text_eq candidate.tool tool) [
      | false ↦ best_installed scope tool best items
      | true ↦ (do next ← better best candidate; best_installed scope tool next items)
    ]

unfoldable pub newest_installed : CupState → PackageScope → Text → Result (PackageIdentity × Bool)
newest_installed state scope tool = do
  best ← best_installed scope tool none state.installed
  elim best [ none ↦ err not_installed | some identity ↦ ok (identity, false) ]

-- The reference, and whether it is the default.
unfoldable pub state_get_tool_reference :
    CupState → PackageScope → Text → Result (PackageIdentity × Bool)
unfolding newest_installed
state_get_tool_reference state scope tool =
    if is_nil tool then err invalid_input else elim (state_get_default state scope) [
      | none ↦ newest_installed state scope tool
      | some current ↦
          if text_eq current.tool tool
          then ok (current, true)
          else newest_installed state scope tool
    ]

unfoldable pub state_set_default_raw : CupState → PackageIdentity → CupError × CupState
state_set_default_raw state identity = elim (identity_scope identity) [
  | err _ ↦ (invalid_input, state)
  | ok scope ↦ elim (find_default_index state scope) [
    | some index ↦ (cup_ok, record state { defaults = set state.defaults index identity })
    | none ↦
        if leb max_state_defaults (length state.defaults)
        then (default_full, state)
        else (cup_ok, record state { defaults = state.defaults ++ (identity ∷ []) })
  ]
]

unfoldable pub state_set_default : CupState → PackageIdentity → CupError × CupState
state_set_default state identity = elim (package_identity_validate identity) [
  | err _ ↦ (invalid_input, state)
  | ok _ ↦ elim (find_installed_index state identity) [
    | none ↦ (inconsistent_state, state)
    | some _ ↦ state_set_default_raw state identity
  ]
]

unfoldable pub state_clear_default : CupState → PackageScope → CupError × CupState
state_clear_default state scope = elim (find_default_index state scope) [
  | none ↦ (cup_ok, state)
  | some index ↦ (cup_ok, record state { defaults = remove_at state.defaults index })
]

unfoldable pub state_clear_matching_default : CupState → PackageIdentity → CupError × CupState
state_clear_matching_default state identity = elim (identity_scope identity) [
  | err _ ↦ (invalid_input, state)
  | ok scope ↦ elim (state_get_default state scope) [
    | none ↦ (cup_ok, state)
    | some current ↦
        if package_identity_equals current identity
        then state_clear_default state scope
        else (cup_ok, state)
  ]
]
