-- ===== src/Tests/PreferenceRuns.antt =====
-- Runs of src/tool_preferences.c, and its theorems at them.
use cup.Registry.{registry_is_component, platform_is_supported, registry_validate_tool}
use cup.Package.{package_scope_init}
use cup.Base.{◌≡◌, refl, ◌↔◌, ◌∷◌, [], List, Text, codes, text_eq}
use cup.Base.Rearranged.{insertion_sort, insertion_sort-perm}
use cup.Errors.{ok, cup_ok}
use cup.Preferences.{
  ToolPreference, ToolPreferences, validate_preferences, tool_preferences_find,
  preference_count_within_capacity, validate_entries, entry_is_valid, same_entry,
  tool_preferences_set, local_scope, set_entry, preference_index, tool_preferences_reset_scope,
  set_tool_at,
}
use cup.Preferences.Valid.{IsValid, validate_preferences_iff}
use cup.Preferences.Map.{tool_of_entry}
use cup.Preferences.Refines.{
  PreferenceChange, set_tool, reset_target, call, promised, map_of, Kept, call-Kept,
}
use cup.Preferences.Runs.{run, accepted, promised_all, find-run}
use cup.Preferences.File.Saved.{SavedAndLoaded, save-load}

abbrev host : Text
host = codes "linux-x64"

abbrev preferred : Text → Text → Text → ToolPreference
preferred target component tool = record {
  scope = record { component = component; host_platform = host; target_platform = target };
  tool = tool;
}

abbrev two_tools : ToolPreferences
two_tools = record {
  items =
      preferred host (codes "compiler") (codes "clang")
      ∷ preferred (codes "windows-x64") (codes "debugger") (codes "lldb")
      ∷ [];
}

two_tools-valid : validate_preferences (ok host) two_tools ≡ cup_ok
unfolding validate_preferences preference_count_within_capacity validate_entries entry_is_valid
    text_eq package_scope_init registry_is_component platform_is_supported registry_validate_tool
    same_entry
two_tools-valid = refl

two_tools-IsValid : IsValid host two_tools
two_tools-IsValid = (validate_preferences_iff host two_tools).0 two_tools-valid

validate_preferences_iff_example :
    (validate_preferences (ok host) two_tools ≡ cup_ok) ↔ IsValid host two_tools
validate_preferences_iff_example = validate_preferences_iff host two_tools

abbrev to_gcc : PreferenceChange
to_gcc = set_tool host host (codes "compiler") (codes "gcc")

call-Kept_example :
    Kept host two_tools (promised (map_of two_tools) to_gcc) (call host two_tools to_gcc)
call-Kept_example = call-Kept host two_tools to_gcc two_tools-IsValid

abbrev three_calls : List PreferenceChange
three_calls =
    to_gcc
    ∷ set_tool host host (codes "compiler") (codes "lldb")
    ∷ reset_target host (codes "windows-x64")
    ∷ []

-- The second call is refused: lldb is no compiler.
three_calls-accepted :
    accepted host two_tools three_calls ≡ to_gcc ∷ reset_target host (codes "windows-x64") ∷ []
unfolding tool_preferences_set local_scope text_eq package_scope_init registry_is_component
    platform_is_supported registry_validate_tool preference_count_within_capacity set_entry
    preference_index same_entry tool_preferences_reset_scope set_tool_at
three_calls-accepted = refl

find-run_example :
    tool_of_entry
      (tool_preferences_find (ok host) (run host two_tools three_calls) host (codes "compiler"))
    ≡ promised_all (map_of two_tools) (accepted host two_tools three_calls) host (codes "compiler")
find-run_example = find-run host two_tools three_calls host (codes "compiler") two_tools-IsValid

save-load_example :
    SavedAndLoaded insertion_sort host (codes "/home/u/.cup/config/preferences.txt") two_tools
save-load_example =
    save-load insertion_sort (insertion_sort-perm _) host
      (codes "/home/u/.cup/config/preferences.txt") two_tools two_tools-IsValid
