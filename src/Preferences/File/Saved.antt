-- ===== src/Preferences/File/Saved.antt =====
-- `tool_preferences_save` and then `tool_preferences_load` (src/tool_preferences.c).
use mathlib.Core.Path.{fun_ext}
use mathlib.Core.List.{Permᴰ}
use mathlib.Core.List.Permᴰ
use cup.Base.{
  Bool-cases, inl, inr, true, false, Option, none, some, List, [], ◌∷◌, Ordering, ◌≡◌, refl, sym,
  ◌∙◌, arith, length, is_nil, All, Pairs, Text, codes, text_eq_iff, ◌≤◌,
}
use cup.Base.Rearranged.{length-rearranged, All-rearranged, Pairs-rearranged}
use cup.Errors.{ok}
use cup.Text.Lines
use cup.Preferences.{
  ToolPreference, ToolPreferences, max_tool_preferences, tool_preferences_init, entry_is_valid,
}
use cup.Preferences.Valid.{Apart, IsValid, validate_preferences_iff}
use cup.Preferences.Map.{tool_in}
use cup.Preferences.Refines.{map_of}
use cup.Preferences.File.{
  compare_preferences, write_preferences_file, tool_preferences_save, tool_preferences_load,
}
use cup.Preferences.File.Names.{Plain, valid-Plain}
use cup.Preferences.File.RoundTrip.{texts, parse_preferences-document, preference_lines-document}

-- Where no key comes twice, the order does not matter to the map.
tool_in-rearranged :
    {xs ys : List ToolPreference} (t c : Text)
    → Permᴰ xs ys
    → Pairs Apart xs
    → tool_in xs t c ≡ tool_in ys t c
unfolding tool_in
tool_in-rearranged t c Permᴰ.nil h = refl
tool_in-rearranged t c (Permᴰ.cons e d) h = ground (arith, e, tool_in-rearranged t c d h.1)
tool_in-rearranged t c (Permᴰ.swap {a} {b} e f) h = ground (
  arith,
  e,
  f,
  h.0.0,
  text_eq_iff a.scope.target_platform t,
  text_eq_iff a.scope.component c,
  text_eq_iff b.scope.target_platform t,
  text_eq_iff b.scope.component c,
)
tool_in-rearranged t c (Permᴰ.trans d₁ d₂) h =
    tool_in-rearranged t c d₁ h
    ∙ tool_in-rearranged t c d₂ (Pairs-rearranged Apart (λ x y n e. n (sym e)) d₁ h)

All-Plain :
    (host : Text) (items : List ToolPreference)
    → All (λ entry. entry_is_valid host entry ≡ true) items
    → All (Plain host) items
All-Plain host [] h = tt
All-Plain host (x ∷ xs) h = (valid-Plain host x h.0, All-Plain host xs h.1)

module _
    (sort : (ToolPreference → ToolPreference → Ordering)
      → List ToolPreference
      → List ToolPreference) where
  -- What is saved, and what is loaded of it.
  pub record SavedAndLoaded (host path : Text) (p : ToolPreferences) : Type 0 where
    pub saved : Option Text
    pub loaded : ToolPreferences
    pub save : tool_preferences_save sort (ok host) p ≡ ok saved
    pub load : tool_preferences_load (ok host) (ok path) (ok saved) ≡ ok loaded
    pub valid : IsValid host loaded
    pub same_tools : map_of loaded ≡ map_of p

  sorted_saved :
      (host path : Text) (p : ToolPreferences) (first : ToolPreference)
      (items : List ToolPreference)
      → IsValid host p
      → Permᴰ (first ∷ items) p.items
      → sort compare_preferences p.items ≡ first ∷ items
      → is_nil p.items ≡ false
      → SavedAndLoaded host path p
  unfolding tool_preferences_save tool_preferences_load write_preferences_file
  sorted_saved host path p first items v d e some_item =
      let sorted = first ∷ items in
      let back = Permᴰ.symm d in
      let entries = All-rearranged (λ entry. entry_is_valid host entry ≡ true) back v.entries in
      let apart = Pairs-rearranged Apart (λ x y n q. n (sym q)) back v.one_per_key in
      let room : length sorted ≤ max_tool_preferences =
        omega (arith, v.within_capacity, length-rearranged d) in
      let read =
        parse_preferences-document host sorted (All-Plain host sorted entries) apart room in
      record {
        saved = some (Lines.document (codes "format=2" ∷ texts sorted));
        loaded = record { items = sorted };
        save = ground (
          arith,
          (validate_preferences_iff host p).1 v,
          some_item,
          e,
          preference_lines-document sorted,
        );
        load = read;
        valid = record { within_capacity = room; entries = entries; one_per_key = apart };
        same_tools = fun_ext (λ t. fun_ext (λ c. tool_in-rearranged t c d apart));
      }

  sorted_cases :
      (host path : Text) (p : ToolPreferences) (sorted : List ToolPreference)
      → IsValid host p
      → Permᴰ sorted p.items
      → sort compare_preferences p.items ≡ sorted
      → is_nil p.items ≡ false
      → SavedAndLoaded host path p
  sorted_cases host path p (first ∷ items) v d e some_item =
      sorted_saved host path p first items v d e some_item
  sorted_cases host path p [] v d e some_item = absurd (ground (arith, length-rearranged d))

  nothing_saved :
      (host path : Text) (p : ToolPreferences)
      → IsValid host p
      → is_nil p.items ≡ true
      → SavedAndLoaded host path p
  unfolding tool_preferences_save tool_preferences_load tool_in
  nothing_saved host path p v no_item = record {
    saved = none;
    loaded = tool_preferences_init;
    save = ground (arith, (validate_preferences_iff host p).1 v, no_item);
    load = refl;
    valid = record { within_capacity = omega arith; entries = tt; one_per_key = tt };
    same_tools = fun_ext (λ t. fun_ext (λ c. ground (arith, no_item)));
  }

  -- Of valid preferences, tool_preferences_save makes a file, or none, from which
  -- tool_preferences_load loads valid preferences with the same tool for every target and
  -- component, provided that the sort rearranges its list.
  pub save-load :
      (rearranges : (items : List ToolPreference) → Permᴰ (sort compare_preferences items) items)
      (host path : Text) (p : ToolPreferences)
      → IsValid host p
      → SavedAndLoaded host path p
  save-load rearranges host path p v = elim (Bool-cases (is_nil p.items)) [
    | inl no_item ↦ nothing_saved host path p v no_item
    | inr some_item ↦
        sorted_cases host path p (sort compare_preferences p.items) v (rearranges p.items) refl
          some_item
  ]
