-- ===== src/Preferences/Runs.antt =====
-- Sequences of calls on the preferences (src/tool_preferences.c), and what is found after them.
use cup.Base.{
  ◌||◌, Bool-cases, Bool, true, false, none, List, [], ◌∷◌, ◌≡◌, ◌≢◌, refl, ◌∙◌, ap, inl, inr,
  arith, Text, is_nil, if◌then◌else◌, Option-cases, All, text_eq_iff,
}
use cup.Errors.{CupError, cup_ok, ok, err, invalid_input}
use cup.Package.{package_scope_init}
use cup.Package.Laws.{package_scope_init-eq}
use cup.Preferences.{ToolPreference, ToolPreferences, entry_is_valid, tool_preferences_find}
use cup.Preferences.Valid.{IsValid}
use cup.Preferences.Map.{ToolMap, tool_in, tool_of_entry, search, tool_of_entry-search}
use cup.Preferences.Outcomes.{preference_index-search, Scope-cases}
use cup.Preferences.Refines.{PreferenceChange, call, promised, map_of, refused, done, call-Kept}

-- The preferences after the calls, first to last.
abbrev pub run : Text → ToolPreferences → List PreferenceChange → ToolPreferences
run host p [] = p
run host p (change ∷ changes) = run host (call host p change).1 changes

abbrev pub answers_ok : CupError → Bool
answers_ok cup_ok = true
answers_ok _ = false

-- The calls that answered `CUP_OK`.
abbrev pub accepted : Text → ToolPreferences → List PreferenceChange → List PreferenceChange
accepted host p [] = []
accepted host p (change ∷ changes) =
    let rest = accepted host (call host p change).1 changes in
    if answers_ok (call host p change).0 then change ∷ rest else rest

abbrev pub promised_all : ToolMap → List PreferenceChange → ToolMap
promised_all m [] = m
promised_all m (change ∷ changes) = promised_all (promised m change) changes

answers_ok-false : (e : CupError) → e ≢ cup_ok → answers_ok e ≡ false
answers_ok-false cup_ok h = absurd (h refl)
answers_ok-false _ h = refl

run-promised :
    (host : Text) (p : ToolPreferences) (changes : List PreferenceChange)
    → IsValid host p
    → IsValid host (run host p changes)
      × (map_of (run host p changes) ≡ promised_all (map_of p) (accepted host p changes))
run-promised host p [] v = (v, refl)
run-promised host p (change ∷ changes) v = elim (call-Kept host p change v) [
  | refused e same ↦
      (let (valid, m) = run-promised host (call host p change).1 changes (rw same v) in
        (valid, m ∙ rw (answers_ok-false (call host p change).0 e, same) refl))
  | done e valid promise ↦
      (let (later, m) = run-promised host (call host p change).1 changes valid in
        (later, m ∙ rw (e, promise) refl))
]

-- An entry for a scope that cannot be made is not there.
invalid_scope :
    (host t c : Text) (items : List ToolPreference)
    → All (λ entry. entry_is_valid host entry ≡ true) items
    → (e : CupError) → package_scope_init c host t ≡ err e
    → tool_in items t c ≡ none
unfolding tool_in entry_is_valid
invalid_scope host t c [] v e bad = refl
invalid_scope host t c (x ∷ xs) v e bad = ground (
  arith,
  text_eq_iff x.scope.target_platform t,
  text_eq_iff x.scope.component c,
  v.0,
  bad,
  invalid_scope host t c xs v.1 e bad,
)

empty_scope :
    (host t c : Text)
    → (is_nil t || is_nil c) ≡ true
    → (e : CupError) × (package_scope_init c host t ≡ err e)
unfolding package_scope_init
empty_scope host t c h = (invalid_input, ground arith)

find-tool :
    (host : Text) (p : ToolPreferences) (t c : Text)
    → IsValid host p
    → tool_of_entry (tool_preferences_find (ok host) p t c) ≡ map_of p t c
unfolding tool_preferences_find
find-tool host p t c v = elim (Scope-cases (package_scope_init c host t)) [
  | inr (e, bad) ↦ ground (arith, bad, invalid_scope host t c p.items v.entries e bad)
  | inl (scope, good) ↦ elim (Bool-cases (is_nil t || is_nil c)) [
    | inl empty ↦ (let (e, bad) = empty_scope host t c empty in absurd (ground (arith, good, bad)))
    | inr fine ↦
        (let parts = package_scope_init-eq c host t good in
          let found = tool_of_entry-search p.items scope in
          elim (Option-cases (search p.items scope)) [
            | inl absent ↦ ground (
              arith,
              fine,
              good,
              parts,
              found,
              absent,
              preference_index-search p scope v.within_capacity,
            )
            | inr (i, at) ↦ ground (
              arith,
              fine,
              good,
              parts,
              found,
              at,
              preference_index-search p scope v.within_capacity,
            )
          ])
  ]
]

-- After any sequence of tool_preferences_set, tool_preferences_reset and
-- tool_preferences_reset_scope on valid preferences, tool_preferences_find gives for every
-- target and component the tool that the calls that answered CUP_OK promise of the map from
-- targets and components to tools: a set puts one tool, a reset drops one, a reset of a scope
-- drops all of a target.
pub find-run :
    (host : Text) (p : ToolPreferences) (changes : List PreferenceChange) (target component : Text)
    → IsValid host p
    → tool_of_entry (tool_preferences_find (ok host) (run host p changes) target component)
      ≡ promised_all (map_of p) (accepted host p changes) target component
find-run host p changes target component v =
    let (valid, m) = run-promised host p changes v in
    find-tool host (run host p changes) target component valid ∙ ap (λ f. f target component) m
