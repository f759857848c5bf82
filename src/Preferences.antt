-- ===== src/Preferences.antt =====
-- src/tool_preferences.c: the tool that a user prefers for a target and a component, of the current
-- host. `items` is the array up to `count`. `host` is the answer of `platform_get_host`.
pub mod Valid
pub mod Guards
pub mod Outcomes
pub mod Keeps
pub mod Map
pub mod Refines
pub mod Runs
pub mod File
use cup.Base.{
  ℕ, zero, suc, Bool, true, false, not, ◌&&◌, ◌||◌, Option, none, some, List, [], ◌∷◌, ◌++◌, leb,
  ltb, if◌then◌else◌, length, get_elem?, remove_at, is_nil, any, Text, text_eq,
}
use cup.Errors.{
  CupError, cup_ok, Result, ok, err, invalid_input, buffer_too_small, validation, ◌>>=◌, ◌>>◌,
}
use cup.Text.{text_copy}
use cup.Registry.{
  max_identifier_len, local_scope_count, platform_is_supported, registry_validate_tool,
}
use cup.Package.{PackageScope, package_scope_init}
use cup.State.{find_index}

pub record ToolPreference : Type 0 where
  pub scope : PackageScope
  pub tool : Text

pub record ToolPreferences : Type 0 where
  pub items : List ToolPreference

abbrev pub max_tool_preferences : ℕ
max_tool_preferences = local_scope_count

abbrev pub tool_preferences_init : ToolPreferences
tool_preferences_init = record { items = [] }

unfoldable pub preference_count_within_capacity : ToolPreferences → Bool
preference_count_within_capacity p = leb (length p.items) max_tool_preferences

-- The test of the searches: the host is not compared.
unfoldable pub same_entry : PackageScope → PackageScope → Bool
same_entry a b = text_eq a.target_platform b.target_platform && text_eq a.component b.component

unfoldable pub preference_index : ToolPreferences → PackageScope → Option ℕ
unfolding find_index
preference_index p scope =
    if preference_count_within_capacity p
    then find_index (λ entry. same_entry entry.scope scope) p.items
    else none

-- The tests of one entry in `validate_preferences`.
unfoldable pub entry_is_valid : Text → ToolPreference → Bool
entry_is_valid host entry =
    text_eq entry.scope.host_platform host
    && (elim (package_scope_init entry.scope.component host entry.scope.target_platform) [
      | ok _ ↦ true
      | err _ ↦ false
    ])
    && (elim (registry_validate_tool entry.scope.component entry.tool) [
      | ok _ ↦ true
      | err _ ↦ false
    ])

-- The loop; `seen` holds the entries before the current one.
unfoldable pub validate_entries : Text → List ToolPreference → List ToolPreference → CupError
validate_entries host seen [] = cup_ok
validate_entries host seen (entry ∷ entries) =
    let rest = validate_entries host (entry ∷ seen) entries in
    if not (entry_is_valid host entry) || any (λ earlier. same_entry entry.scope earlier.scope) seen
    then validation
    else rest

unfoldable pub validate_preferences : Result Text → ToolPreferences → CupError
validate_preferences (err _) p = validation
validate_preferences (ok host) p =
    if preference_count_within_capacity p then validate_entries host [] p.items else validation

-- The scope that a caller names, of the current host. Every failure is `CUP_ERR_INVALID_INPUT`.
unfoldable pub local_scope : Result Text → Text → Text → Text → Result PackageScope
local_scope (err _) host_platform component target = err invalid_input
local_scope (ok host) host_platform component target =
    if is_nil host_platform || not (text_eq host_platform host)
    then err invalid_input
    else elim (package_scope_init component host target) [
      | ok scope ↦ ok scope
      | err _ ↦ err invalid_input
    ]

-- A write to the tool of the entry at an index.
unfoldable pub set_tool_at : List ToolPreference → ℕ → Text → List ToolPreference
set_tool_at [] i tool = []
set_tool_at (entry ∷ entries) zero tool = record entry { tool = tool } ∷ entries
set_tool_at (entry ∷ entries) (suc i) tool = entry ∷ set_tool_at entries i tool

-- The end of `tool_preferences_set`. A new entry is appended before its tool is copied.
unfoldable pub set_entry : ToolPreferences → PackageScope → Text → CupError × ToolPreferences
set_entry p scope tool = elim (preference_index p scope) [
  | none ↦
      if leb max_tool_preferences (length p.items)
      then (buffer_too_small, p)
      else elim (text_copy max_identifier_len tool) [
        | ok copied ↦
            (cup_ok, record { items = p.items ++ (record { scope = scope; tool = copied } ∷ []) })
        | err e ↦ (e, record { items = p.items ++ (record { scope = scope; tool = [] } ∷ []) })
      ]
  | some index ↦ elim (text_copy max_identifier_len tool) [
    | ok copied ↦ (cup_ok, record { items = set_tool_at p.items index copied })
    | err e ↦ (e, p)
  ]
]

unfoldable pub tool_preferences_set :
    Result Text → ToolPreferences → Text → Text → Text → Text → CupError × ToolPreferences
tool_preferences_set host p host_platform target component tool =
    elim (local_scope host host_platform component target) [
      | err e ↦ (e, p)
      | ok scope ↦ elim (registry_validate_tool component tool) [
        | err _ ↦ (invalid_input, p)
        | ok _ ↦
            if preference_count_within_capacity p then set_entry p scope tool else (validation, p)
      ]
    ]

-- The Boolean is `*removed`.
unfoldable pub tool_preferences_reset :
    Result Text → ToolPreferences → Text → Text → Text → CupError × ToolPreferences × Bool
tool_preferences_reset host p host_platform target component =
    elim (local_scope host host_platform component target) [
      | err e ↦ (e, p, false)
      | ok scope ↦
          if not (preference_count_within_capacity p)
          then (validation, p, false)
          else elim (preference_index p scope) [
            | none ↦ (cup_ok, p, false)
            | some index ↦ (cup_ok, record { items = remove_at p.items index }, true)
          ]
    ]

-- The loop of `tool_preferences_reset_scope`: the entries that stay, and how many do not.
unfoldable pub drop_target : Text → List ToolPreference → List ToolPreference × ℕ
drop_target target [] = ([], 0)
drop_target target (entry ∷ entries) =
    let rest = drop_target target entries in
    if text_eq entry.scope.target_platform target
    then (rest.0, suc rest.1)
    else (entry ∷ rest.0, rest.1)

-- The number is `*removed_count`.
unfoldable pub tool_preferences_reset_scope :
    Result Text → ToolPreferences → Text → Text → CupError × ToolPreferences × ℕ
unfolding drop_target
tool_preferences_reset_scope (err _) p host_platform target = (invalid_input, p, 0)
tool_preferences_reset_scope (ok host) p host_platform target =
    if is_nil host_platform
      || not (text_eq host_platform host)
      || not (platform_is_supported target)
    then (invalid_input, p, 0)
    else if preference_count_within_capacity p
    then (let rest = drop_target target p.items in (cup_ok, record { items = rest.0 }, rest.1))
    else (validation, p, 0)

unfoldable pub tool_preferences_find :
    Result Text → ToolPreferences → Text → Text → Option ToolPreference
tool_preferences_find (err _) p target component = none
tool_preferences_find (ok host) p target component =
    if is_nil target || is_nil component
    then none
    else elim (package_scope_init component host target) [
      | err _ ↦ none
      | ok scope ↦ elim (preference_index p scope) [
        | none ↦ none
        | some index ↦ get_elem? p.items index
      ]
    ]
