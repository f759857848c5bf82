-- ===== src/Preferences/Refines.antt =====
-- The preferences as a map that every operation of src/tool_preferences.c updates.
use mathlib.Core.Path.{fun_ext}
use cup.Base.{
  ℕ, Bool, true, [], ◌∷◌, ◌≡◌, ◌≢◌, ◌∙◌, ap, inl, inr, arith, length-append, length-remove_at,
  All-append, All-remove_at, Pairs-append_one, Pairs-remove_at, Text,
}
use cup.Errors.{CupError, cup_ok, ok}
use cup.State.Search.{find_index-eq_some}
use cup.Preferences.{
  ToolPreferences, same_entry, entry_is_valid, tool_preferences_set, tool_preferences_reset,
  tool_preferences_reset_scope,
}
use cup.Preferences.Valid.{Apart, IsValid}
use cup.Preferences.Map.{
  ToolMap, put, drop, drop_all, tool_in, tool_in-set_tool_at, tool_in-append, tool_in-absent,
  tool_in-remove_at, tool_in-drop_target,
}
use cup.Preferences.Guards.{new_entry-is_valid}
use cup.Preferences.Keeps.{
  length-set_tool_at, Pairs-set_tool_at, valid-set_tool_at, search-Apart, length-drop_target,
  All-drop_target, Pairs-drop_target,
}
use cup.Preferences.Outcomes.{
  SetDone, ResetDone, ResetScopeDone, set-outcome, reset-outcome, reset_scope-outcome,
}

-- The calls that change the preferences, with their arguments.
pub data PreferenceChange : Type 0 where
  set_tool : Text → Text → Text → Text → PreferenceChange
  reset_tool : Text → Text → Text → PreferenceChange
  reset_target : Text → Text → PreferenceChange

abbrev pub call : Text → ToolPreferences → PreferenceChange → CupError × ToolPreferences
call host p (set_tool host_platform target component tool) =
    tool_preferences_set (ok host) p host_platform target component tool
call host p (reset_tool host_platform target component) =
    let r = tool_preferences_reset (ok host) p host_platform target component in (r.0, r.1)
call host p (reset_target host_platform target) =
    let r = tool_preferences_reset_scope (ok host) p host_platform target in (r.0, r.1)

-- What a caller is promised of the map.
abbrev pub promised : ToolMap → PreferenceChange → ToolMap
promised m (set_tool host_platform target component tool) = put m target component tool
promised m (reset_tool host_platform target component) = drop m target component
promised m (reset_target host_platform target) = drop_all m target

abbrev pub map_of : ToolPreferences → ToolMap
map_of p = tool_in p.items

same_map : {m n : ToolMap} → ((t c : Text) → m t c ≡ n t c) → m ≡ n
same_map {m} {n} h = fun_ext (λ t. fun_ext (λ c. h t c))

-- What a call leaves: the preferences as they were with an error, or valid preferences whose map
-- is the one promised.
pub data Kept (host : Text) (p : ToolPreferences) (m : ToolMap) (r : CupError × ToolPreferences)
    : Type 0 where
  refused : r.0 ≢ cup_ok → r.1 ≡ p → Kept host p m r
  done : r.0 ≡ cup_ok → IsValid host r.1 → map_of r.1 ≡ m → Kept host p m r

module _ (host target component : Text) (p : ToolPreferences) (v : IsValid host p) where
  set-IsValid :
      (tool : Text) (r : CupError × ToolPreferences)
      → SetDone host target component tool p r
      → IsValid host r.1
  set-IsValid tool r d = elim d.stored [
    | inl (new, room, e) ↦ record {
      within_capacity = rw e (
          omega
            (arith, room, length-append p.items (record { scope = d.scope; tool = tool } ∷ [])));
      entries = rw e (
          All-append (λ entry. entry_is_valid host entry ≡ true) p.items _ v.entries
            (new_entry-is_valid host component target tool d.scope d.scoped d.good_tool, tt));
      one_per_key =
          rw e (
            Pairs-append_one Apart p.items _ v.one_per_key (search-Apart d.scope tool p.items new));
    }
    | inr (i, found, e) ↦ record {
      within_capacity = rw (e, length-set_tool_at) v.within_capacity;
      entries = rw e (
          valid-set_tool_at host tool d.scope p.items i (rw d.scoped.parts d.good_tool) found
            v.entries);
      one_per_key = rw e (Pairs-set_tool_at p.items i tool v.one_per_key);
    }
  ]

  set-map :
      (tool : Text) (r : CupError × ToolPreferences)
      → SetDone host target component tool p r
      → map_of r.1 ≡ put (map_of p) target component tool
  set-map tool r d = same_map (λ t c. stored t c)
    where
      stored : (t c : Text) → map_of r.1 t c ≡ put (map_of p) target component tool t c
      stored t c = elim d.stored [
        | inl (new, room, e) ↦ rw e (
            tool_in-append d.scope tool t c p.items new
            ∙ ap (λ s. put (map_of p) s.target_platform s.component tool t c) d.scoped.parts)
        | inr (i, found, e) ↦ rw e (
            tool_in-set_tool_at d.scope tool t c p.items i found
            ∙ ap (λ s. put (map_of p) s.target_platform s.component tool t c) d.scoped.parts)
      ]

  reset-IsValid :
      (r : CupError × ToolPreferences × Bool)
      → ResetDone host target component p r
      → IsValid host r.1
  reset-IsValid r d = elim d.removed [
    | inl (absent, e, flag) ↦ rw e v
    | inr (i, found, e, flag) ↦
        (let (x, at, holds, within) =
            find_index-eq_some (λ entry. same_entry entry.scope d.scope) p.items found in
          record {
            within_capacity =
                rw e (omega (arith, v.within_capacity, length-remove_at p.items i within));
            entries =
                rw e
                  (All-remove_at (λ entry. entry_is_valid host entry ≡ true) p.items i v.entries);
            one_per_key = rw e (Pairs-remove_at Apart p.items i v.one_per_key);
          })
  ]

  reset-map :
      (r : CupError × ToolPreferences × Bool)
      → ResetDone host target component p r
      → map_of r.1 ≡ drop (map_of p) target component
  reset-map r d = same_map (λ t c. dropped t c)
    where
      dropped : (t c : Text) → map_of r.1 t c ≡ drop (map_of p) target component t c
      dropped t c = elim d.removed [
        | inl (absent, e, flag) ↦ rw e (
            tool_in-absent d.scope t c p.items absent
            ∙ ap (λ s. drop (map_of p) s.target_platform s.component t c) d.scoped.parts)
        | inr (i, found, e, flag) ↦ rw e (
            tool_in-remove_at d.scope t c p.items i v.one_per_key found
            ∙ ap (λ s. drop (map_of p) s.target_platform s.component t c) d.scoped.parts)
      ]

reset_scope-IsValid :
    (host target : Text) (p : ToolPreferences) (r : CupError × ToolPreferences × ℕ)
    → IsValid host p
    → ResetScopeDone target p r
    → IsValid host r.1
reset_scope-IsValid host target p r v d = record {
  within_capacity = rw d.kept (omega (arith, v.within_capacity, length-drop_target target p.items));
  entries =
      rw d.kept
        (All-drop_target (λ entry. entry_is_valid host entry ≡ true) target p.items v.entries);
  one_per_key = rw d.kept (Pairs-drop_target target p.items v.one_per_key);
}

reset_scope-map :
    (target : Text) (p : ToolPreferences) (r : CupError × ToolPreferences × ℕ)
    → ResetScopeDone target p r
    → map_of r.1 ≡ drop_all (map_of p) target
reset_scope-map target p r d = same_map (λ t c. rw d.kept (tool_in-drop_target target t c p.items))

-- A tool_preferences_set, tool_preferences_reset or tool_preferences_reset_scope on valid
-- preferences leaves them as they were, with an error, or answers CUP_OK and leaves valid
-- preferences whose map from targets and components to tools is the one promised.
pub call-Kept :
    (host : Text) (p : ToolPreferences) (change : PreferenceChange)
    → IsValid host p
    → Kept host p (promised (map_of p) change) (call host p change)
call-Kept host p (set_tool hp target component tool) v =
    elim (set-outcome host hp target component p v.within_capacity tool) [
      | inl r ↦ refused r.0 r.1
      | inr d ↦
          done d.answer (set-IsValid host target component p v tool _ d)
            (set-map host target component p v tool _ d)
    ]
call-Kept host p (reset_tool hp target component) v =
    elim (reset-outcome host hp target p v.within_capacity component) [
      | inl r ↦ refused r.0 r.1
      | inr d ↦
          done d.answer (reset-IsValid host target component p v _ d)
            (reset-map host target component p v _ d)
    ]
call-Kept host p (reset_target hp target) v =
    elim (reset_scope-outcome host hp target p v.within_capacity) [
      | inl r ↦ refused r.0 r.1
      | inr d ↦
          done d.answer (reset_scope-IsValid host target p _ v d) (reset_scope-map target p _ d)
    ]
