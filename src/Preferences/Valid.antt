-- ===== src/Preferences/Valid.antt =====
-- Well-formed preferences, and what `validate_preferences` tests (src/tool_preferences.c).
use cup.Base.{
  ◌≤◌, true, false, List, [], ◌∷◌, ◌≡◌, ◌≢◌, ◌↔◌, refl, arith, length, any, All, Pairs, Fresh,
  Fresh-nil, Fresh-cons_seen, Fresh-seen_cons, Text, text_eq_iff,
}
use cup.Errors.{cup_ok, ok}
use cup.Package.{PackageScope}
use cup.State.Search.{any-eq_false}
use cup.Preferences.{
  ToolPreference, ToolPreferences, max_tool_preferences, preference_count_within_capacity,
  same_entry, entry_is_valid, validate_entries, validate_preferences,
}

-- What the searches compare.
abbrev pub key_of : PackageScope → Text × Text
key_of scope = (scope.target_platform, scope.component)

abbrev pub Apart : ToolPreference → ToolPreference → Type 0
Apart a b = key_of a.scope ≢ key_of b.scope

pub record IsValid (host : Text) (p : ToolPreferences) : Type 0 where
  pub within_capacity : length p.items ≤ max_tool_preferences
  pub entries : All (λ entry. entry_is_valid host entry ≡ true) p.items
  pub one_per_key : Pairs Apart p.items

pub same_entry_iff : (a b : PackageScope) → (same_entry a b ≡ true) ↔ (key_of a ≡ key_of b)
unfolding same_entry
same_entry_iff a b =
    ground
      (arith, text_eq_iff a.target_platform b.target_platform, text_eq_iff a.component b.component)

pub not_same_entry_iff : (a b : ToolPreference) → (same_entry b.scope a.scope ≡ false) ↔ Apart a b
not_same_entry_iff a b = ground (arith, same_entry_iff b.scope a.scope)

fresh_iff :
    (x : ToolPreference) (seen : List ToolPreference)
    → (any (λ earlier. same_entry x.scope earlier.scope) seen ≡ false) ↔ All (λ y. Apart y x) seen
fresh_iff x seen =
    any-eq_false (λ y. same_entry x.scope y.scope) (λ y. Apart y x) (λ y. not_same_entry_iff y x)
      seen

-- What the loop has established of `items`, after `seen`.
record EntriesOk (host : Text) (seen items : List ToolPreference) : Type 0 where
  entries : All (λ entry. entry_is_valid host entry ≡ true) items
  new : Fresh Apart seen items
  one_per_key : Pairs Apart items

module _ (host : Text) where
  validate_entries_sound :
      (seen items : List ToolPreference)
      → validate_entries host seen items ≡ cup_ok
      → EntriesOk host seen items
  unfolding validate_entries
  validate_entries_sound seen [] h = record { entries = tt; new = tt; one_per_key = tt }
  validate_entries_sound seen (x ∷ xs) h =
      let rest = validate_entries_sound (x ∷ seen) xs (ground arith) in
      let (later, new) = Fresh-seen_cons Apart x seen xs rest.new in
      record {
        entries = (ground arith, rest.entries);
        new = ((fresh_iff x seen).0 (ground arith), new);
        one_per_key = (later, rest.one_per_key);
      }

  validate_entries_complete :
      (seen items : List ToolPreference)
      → EntriesOk host seen items
      → validate_entries host seen items ≡ cup_ok
  unfolding validate_entries
  validate_entries_complete seen [] h = refl
  validate_entries_complete seen (x ∷ xs) h =
      let ih = validate_entries_complete (x ∷ seen) xs (record {
        entries = h.entries.1;
        new = Fresh-cons_seen Apart x seen xs h.one_per_key.0 h.new.1;
        one_per_key = h.one_per_key.1;
      }) in
      ground (arith, h.entries.0, ih, (fresh_iff x seen).1 h.new.0)

-- On a known host, validate_preferences answers CUP_OK exactly on preferences that are at most
-- MAX_TOOL_PREFERENCES, each valid for the host, and no two for one target and component.
pub validate_preferences_iff :
    (host : Text) (p : ToolPreferences)
    → (validate_preferences (ok host) p ≡ cup_ok) ↔ IsValid host p
unfolding validate_preferences preference_count_within_capacity
validate_preferences_iff host p = (sound, complete)
  where
    sound : validate_preferences (ok host) p ≡ cup_ok → IsValid host p
    sound h =
        let all_ok = validate_entries_sound host [] p.items (ground arith) in
        record {
          within_capacity = ground arith;
          entries = all_ok.entries;
          one_per_key = all_ok.one_per_key;
        }

    complete : IsValid host p → validate_preferences (ok host) p ≡ cup_ok
    complete v = ground (
      arith,
      v.within_capacity,
      validate_entries_complete host [] p.items (record {
        entries = v.entries;
        new = Fresh-nil Apart p.items;
        one_per_key = v.one_per_key;
      }),
    )
