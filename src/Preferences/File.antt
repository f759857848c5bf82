-- ===== src/Preferences/File.antt =====
-- preferences.txt (src/tool_preferences.c). The bytes of the file are a text; `host` is the answer of
-- `platform_get_host`, and the C library's `qsort` is the parameter `sort`.
pub mod Names
pub mod Written
pub mod RoundTrip
pub mod Saved
use cup.Base.{
  ℕ, suc, Bool, true, false, not, ◌||◌, Option, none, some, List, [], ◌∷◌, ◌++◌, Ordering, leb,
  if◌then◌else◌, length, is_nil, Text, codes, text_eq, strcmp,
}
use cup.Errors.{
  CupError, cup_ok, Result, ok, err, invalid_input, filesystem, validation, commit,
  buffer_too_small, ◌>>=◌,
}
use cup.Text.{text_copy, text_split_exact, text_parse_key_value}
use cup.Text.Reader.{TextDocumentReader, text_document_reader_init, each_line}
use cup.Registry.{max_identifier_len, max_platform_len, registry_validate_tool}
use cup.Package.{PackageScope, package_scope_init, ◌then_by◌}
use cup.Journal.{max_metadata_line_len}
use cup.Preferences.{
  ToolPreference, ToolPreferences, max_tool_preferences, tool_preferences_init, preference_index,
  validate_preferences,
}

abbrev pub max_metadata_key_len : ℕ
max_metadata_key_len = 128

-- The scope that the parts of a key name.
unfoldable pub preferred_scope : Result Text → List Text → Result PackageScope
preferred_scope (ok host) (prefix ∷ target ∷ component ∷ []) =
    if text_eq prefix (codes "preferred")
    then package_scope_init component host target
    else err invalid_input
preferred_scope _ _ = err invalid_input

unfoldable pub parse_preference_key : Result Text → Text → Result PackageScope
unfolding preferred_scope
parse_preference_key host key =
    elim (text_split_exact key b'.'
      (max_identifier_len ∷ max_platform_len ∷ max_identifier_len ∷ [])) [
        | err _ ↦ err invalid_input
        | ok parts ↦ preferred_scope host parts
      ]

-- The locals of the loop.
pub record LoadedPreferences : Type 0 where
  pub format_seen : Bool
  pub preferences : ToolPreferences

-- The record of one preference line, whose key is not `format`.
unfoldable pub add_preference : PackageScope → Text → LoadedPreferences → Result LoadedPreferences
add_preference scope value loaded = elim (registry_validate_tool scope.component value) [
  | err _ ↦ err validation
  | ok _ ↦ elim (preference_index loaded.preferences scope) [
    | some _ ↦ err validation
    | none ↦
        if leb max_tool_preferences (length loaded.preferences.items)
        then err validation
        else elim (text_copy max_identifier_len value) [
          | err _ ↦ err buffer_too_small
          | ok tool ↦ ok (record loaded {
            preferences = record {
              items = loaded.preferences.items ++ (record { scope = scope; tool = tool } ∷ []);
            };
          })
        ]
  ]
]

unfoldable pub preference_field :
    Result Text → LoadedPreferences → Text → Text → Result LoadedPreferences
unfolding add_preference
preference_field host loaded key value =
    if text_eq key (codes "format")
    then (if loaded.format_seen || not (text_eq value (codes "2"))
        then err validation
        else ok (record loaded { format_seen = true }))
    else if not loaded.format_seen
    then err validation
    else elim (parse_preference_key host key) [
      | err _ ↦ err validation
      | ok scope ↦ add_preference scope value loaded
    ]

-- One round of the loop, on a line that was read.
unfoldable pub preference_line :
    Result Text → LoadedPreferences → ℕ → Text → Result LoadedPreferences
unfolding preference_field
preference_line host loaded line_number line =
    elim (text_parse_key_value line max_metadata_key_len max_identifier_len) [
      | err _ ↦ err validation
      | ok field ↦ preference_field host loaded field.0 field.1
    ]

-- What stands behind the loop, its label `invalid` included.
unfoldable pub end_preferences :
    Result (LoadedPreferences × TextDocumentReader) → Result ToolPreferences
end_preferences (err filesystem) = err filesystem
end_preferences (err _) = err validation
end_preferences (ok (loaded, reader)) =
    if loaded.format_seen then ok loaded.preferences else err validation

abbrev pub nothing_loaded : LoadedPreferences
nothing_loaded = record { format_seen = false; preferences = tool_preferences_init }

unfoldable pub parse_preferences : Result Text → Text → Result ToolPreferences
unfolding end_preferences preference_line
parse_preferences host bytes = elim (text_document_reader_init bytes) [
  | err _ ↦ err validation
  | ok reader ↦ end_preferences (
      each_line (λ e. e) (preference_line host) (suc (length reader.rest)) max_metadata_line_len
        nothing_loaded reader)
]

-- `path` is what `layout_get_preferences_path` answers, `snapshot` what
-- `filesystem_snapshot_read` does, with `none` for a missing file. After an error the caller's
-- preferences are those of `tool_preferences_init`.
unfoldable pub tool_preferences_load :
    Result Text → Result Text → Result (Option Text) → Result ToolPreferences
unfolding parse_preferences
tool_preferences_load host (err e) snapshot = err e
tool_preferences_load host (ok path) (err e) = err e
tool_preferences_load host (ok path) (ok none) = ok tool_preferences_init
tool_preferences_load host (ok path) (ok (some bytes)) = parse_preferences host bytes

unfoldable pub compare_preferences : ToolPreference → ToolPreference → Ordering
unfolding ◌then_by◌
compare_preferences left right =
    strcmp left.scope.target_platform right.scope.target_platform
    then_by strcmp left.scope.component right.scope.component

-- `preferred.<target>.<component>`
abbrev pub preference_key : ToolPreference → Text
preference_key entry =
    codes "preferred." ++ (entry.scope.target_platform ++ (b'.' ∷ entry.scope.component))

unfoldable pub preference_lines : List ToolPreference → Text
preference_lines [] = []
preference_lines (entry ∷ entries) =
    preference_key entry ++ (b'=' ∷ (entry.tool ++ (b'\n' ∷ preference_lines entries)))

-- The bytes that the writer prints.
unfoldable pub write_preferences_file : List ToolPreference → Result Text
unfolding preference_lines
write_preferences_file [] = err invalid_input
write_preferences_file (entry ∷ entries) =
    ok (codes "format=2" ++ (b'\n' ∷ preference_lines (entry ∷ entries)))

-- What `tool_preferences_save` makes of the file: `none` is its removal by
-- `reset_preferences_file`, a text the bytes that replace it.
module _
    (sort : (ToolPreference → ToolPreference → Ordering)
      → List ToolPreference
      → List ToolPreference) where
  unfoldable pub tool_preferences_save : Result Text → ToolPreferences → Result (Option Text)
  unfolding write_preferences_file
  tool_preferences_save host p = elim (validate_preferences host p) [
    | cup_ok ↦
        if is_nil p.items
        then ok none
        else (do bytes ← write_preferences_file (sort compare_preferences p.items); ok (some bytes))
    | e ↦ err e
  ]

-- `path`, `exists`, `removal` and `sync` are the answers of `layout_get_preferences_path`,
-- `system_path_exists`, `system_remove_file` and `system_sync_parent_directory`.
unfoldable pub reset_preferences_file : Result Text → Result Bool → CupError → CupError → CupError
reset_preferences_file (err e) exists removal sync = e
reset_preferences_file (ok path) (err e) removal sync = e
reset_preferences_file (ok path) (ok false) removal sync = cup_ok
reset_preferences_file (ok path) (ok true) cup_ok cup_ok = cup_ok
reset_preferences_file (ok path) (ok true) cup_ok _ = commit
reset_preferences_file (ok path) (ok true) e sync = e
