-- ===== src/Preferences/Map.antt =====
-- The preferences as a map from a target and a component to a tool, and what the array updates of
-- src/tool_preferences.c do to it.
use cup.Base.{
  ℕ, zero, suc, Bool, ◌&&◌, Option, none, some, List, [], ◌∷◌, ◌++◌, ◌≡◌, ◌≢◌, refl, arith,
  get_elem?, remove_at, All, Pairs, Text, text_eq, text_eq_iff, if◌then◌else◌,
}
use cup.Package.{PackageScope}
use cup.State.{find_index}
use cup.Preferences.{ToolPreference, same_entry, set_tool_at, drop_target}
use cup.Preferences.Valid.{key_of, Apart}

abbrev pub ToolMap : Type 0
ToolMap = Text → Text → Option Text

abbrev pub is_key : Text → Text → Text → Text → Bool
is_key target component t c = text_eq target t && text_eq component c

abbrev pub put : ToolMap → Text → Text → Text → ToolMap
put m target component tool t c = if is_key target component t c then some tool else m t c

abbrev pub drop : ToolMap → Text → Text → ToolMap
drop m target component t c = if is_key target component t c then none else m t c

abbrev pub drop_all : ToolMap → Text → ToolMap
drop_all m target t c = if text_eq target t then none else m t c

-- The tool of the first entry for a target and a component.
unfoldable pub tool_in : List ToolPreference → ToolMap
tool_in [] t c = none
tool_in (entry ∷ entries) t c =
    if is_key entry.scope.target_platform entry.scope.component t c
    then some entry.tool
    else tool_in entries t c

abbrev pub tool_of_entry : Option ToolPreference → Option Text
tool_of_entry none = none
tool_of_entry (some entry) = some entry.tool

abbrev pub entry_at : List ToolPreference → Option ℕ → Option ToolPreference
entry_at items none = none
entry_at items (some i) = get_elem? items i

abbrev pub search : List ToolPreference → PackageScope → Option ℕ
search items scope = find_index (λ entry. same_entry entry.scope scope) items

pub tool_of_entry-search :
    (items : List ToolPreference) (scope : PackageScope)
    → tool_of_entry (entry_at items (search items scope))
      ≡ tool_in items scope.target_platform scope.component
unfolding find_index tool_in same_entry
tool_of_entry-search [] scope = refl
tool_of_entry-search (x ∷ xs) scope = ground (arith, tool_of_entry-search xs scope)

module _ (scope : PackageScope) (tool t c : Text) where
  pub tool_in-set_tool_at :
      (items : List ToolPreference) (i : ℕ)
      → search items scope ≡ some i
      → tool_in (set_tool_at items i tool) t c
        ≡ put (tool_in items) scope.target_platform scope.component tool t c
  unfolding find_index tool_in set_tool_at same_entry
  tool_in-set_tool_at [] i h = absurd (ground arith)
  tool_in-set_tool_at (x ∷ xs) zero h = ground (
    arith,
    text_eq_iff x.scope.target_platform scope.target_platform,
    text_eq_iff x.scope.component scope.component,
  )
  tool_in-set_tool_at (x ∷ xs) (suc i) h = ground (
    arith,
    text_eq_iff x.scope.target_platform scope.target_platform,
    text_eq_iff x.scope.component scope.component,
    text_eq_iff x.scope.target_platform t,
    text_eq_iff x.scope.component c,
    text_eq_iff scope.target_platform t,
    text_eq_iff scope.component c,
    tool_in-set_tool_at xs i,
  )

  pub tool_in-append :
      (items : List ToolPreference)
      → search items scope ≡ none
      → tool_in (items ++ (record { scope = scope; tool = tool } ∷ [])) t c
        ≡ put (tool_in items) scope.target_platform scope.component tool t c
  unfolding find_index tool_in same_entry
  tool_in-append [] h = refl
  tool_in-append (x ∷ xs) h = ground (
    arith,
    text_eq_iff x.scope.target_platform scope.target_platform,
    text_eq_iff x.scope.component scope.component,
    text_eq_iff x.scope.target_platform t,
    text_eq_iff x.scope.component c,
    text_eq_iff scope.target_platform t,
    text_eq_iff scope.component c,
    tool_in-append xs,
  )

pub tool_in-none :
    (t c : Text) (items : List ToolPreference)
    → All (λ y. (t, c) ≢ key_of y.scope) items
    → tool_in items t c ≡ none
unfolding tool_in
tool_in-none t c [] h = refl
tool_in-none t c (x ∷ xs) h = ground (
  arith,
  text_eq_iff x.scope.target_platform t,
  text_eq_iff x.scope.component c,
  h.0,
  tool_in-none t c xs h.1,
)

module _ (scope : PackageScope) (t c : Text) where
  pub tool_in-absent :
      (items : List ToolPreference)
      → search items scope ≡ none
      → tool_in items t c ≡ drop (tool_in items) scope.target_platform scope.component t c
  unfolding find_index tool_in same_entry
  tool_in-absent [] h = ground arith
  tool_in-absent (x ∷ xs) h = ground (
    arith,
    text_eq_iff x.scope.target_platform scope.target_platform,
    text_eq_iff x.scope.component scope.component,
    text_eq_iff x.scope.target_platform t,
    text_eq_iff x.scope.component c,
    text_eq_iff scope.target_platform t,
    text_eq_iff scope.component c,
    tool_in-absent xs,
  )

  pub tool_in-remove_at :
      (items : List ToolPreference) (i : ℕ)
      → Pairs Apart items
      → search items scope ≡ some i
      → tool_in (remove_at items i) t c
        ≡ drop (tool_in items) scope.target_platform scope.component t c
  unfolding find_index tool_in same_entry
  tool_in-remove_at [] i v h = absurd (ground arith)
  tool_in-remove_at (x ∷ xs) zero v h = ground (
    arith,
    text_eq_iff x.scope.target_platform scope.target_platform,
    text_eq_iff x.scope.component scope.component,
    text_eq_iff x.scope.target_platform t,
    text_eq_iff x.scope.component c,
    tool_in-none x.scope.target_platform x.scope.component xs v.0,
  )
  tool_in-remove_at (x ∷ xs) (suc i) v h = ground (
    arith,
    text_eq_iff x.scope.target_platform scope.target_platform,
    text_eq_iff x.scope.component scope.component,
    text_eq_iff x.scope.target_platform t,
    text_eq_iff x.scope.component c,
    text_eq_iff scope.target_platform t,
    text_eq_iff scope.component c,
    tool_in-remove_at xs i v.1,
  )

pub tool_in-drop_target :
    (target t c : Text) (items : List ToolPreference)
    → tool_in (drop_target target items).0 t c ≡ drop_all (tool_in items) target t c
unfolding tool_in drop_target
tool_in-drop_target target t c [] = ground arith
tool_in-drop_target target t c (x ∷ xs) = ground (
  arith,
  text_eq_iff x.scope.target_platform target,
  text_eq_iff x.scope.target_platform t,
  text_eq_iff target t,
  tool_in-drop_target target t c xs,
)
