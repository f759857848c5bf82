-- ===== src/Preferences/Outcomes.antt =====
-- The branches of the operations of src/tool_preferences.c, on preferences within the capacity.
use cup.Base.{
  ℕ, ◌≤◌, ◌<◌, Bool, true, false, not, none, some, [], ◌∷◌, ◌++◌, ◌≡◌, ◌≢◌, refl, inl, inr, ◌⊎◌,
  arith, length, remove_at, Text, is_nil, text_eq, Option-cases, Bool-cases, leb, ◌||◌,
}
use cup.Errors.{CupError, cup_ok, Result, ok, err}
use cup.Registry.{registry_validate_tool, platform_is_supported}
use cup.Package.{PackageScope}
use cup.State.Validate.{Result-cases}
use cup.Preferences.{
  ToolPreferences, max_tool_preferences, preference_count_within_capacity, preference_index,
  local_scope, set_tool_at, set_entry, drop_target, tool_preferences_set, tool_preferences_reset,
  tool_preferences_reset_scope,
}
use cup.Preferences.Map.{search}
use cup.Preferences.Guards.{text_copy-tool, Scoped, local_scope-Scoped}

-- Nothing changed, and the code says so.
abbrev pub Refused : CupError × ToolPreferences → ToolPreferences → Type 0
Refused r p = (r.0 ≢ cup_ok) × (r.1 ≡ p)

pub Scope-cases :
    (r : Result PackageScope)
    → ((scope : PackageScope) × (r ≡ ok scope)) ⊎ ((e : CupError) × (r ≡ err e))
Scope-cases (ok scope) = inl (scope, refl)
Scope-cases (err e) = inr (e, refl)

pub preference_index-search :
    (p : ToolPreferences) (scope : PackageScope)
    → length p.items ≤ max_tool_preferences
    → preference_index p scope ≡ search p.items scope
unfolding preference_index preference_count_within_capacity
preference_index-search p scope h = ground (arith, h)

local_scope-ne_ok :
    (host hp component target : Text) {e : CupError}
    → local_scope (ok host) hp component target ≡ err e
    → e ≢ cup_ok
unfolding local_scope
local_scope-ne_ok host hp component target h = ground arith

-- What `tool_preferences_set` did, with the scope that it made.
pub record SetDone (host target component tool : Text) (p : ToolPreferences)
    (r : CupError × ToolPreferences) : Type 0 where
  pub scope : PackageScope
  pub scoped : Scoped host component target scope
  pub good_tool : registry_validate_tool component tool ≡ ok tt
  pub answer : r.0 ≡ cup_ok
  pub stored :
      ((search p.items scope ≡ none)
        × (length p.items < max_tool_preferences)
        × (r.1.items ≡ p.items ++ (record { scope = scope; tool = tool } ∷ [])))
      ⊎ ((i : ℕ) × (search p.items scope ≡ some i) × (r.1.items ≡ set_tool_at p.items i tool))

module _ (host hp target component : Text) (p : ToolPreferences)
    (few : length p.items ≤ max_tool_preferences) where
  pub set-outcome :
      (tool : Text)
      → Refused (tool_preferences_set (ok host) p hp target component tool) p
        ⊎ SetDone host target component tool p
            (tool_preferences_set (ok host) p hp target component tool)
  unfolding tool_preferences_set set_entry preference_count_within_capacity
  set-outcome tool = elim (Scope-cases (local_scope (ok host) hp component target)) [
    | inr (e, bad) ↦ inl (ground (arith, bad, local_scope-ne_ok host hp component target bad))
    | inl (scope, good) ↦ elim (Result-cases (registry_validate_tool component tool)) [
      | inr (e, bad) ↦ inl (ground (arith, good, bad))
      | inl valid ↦
          (let copied = text_copy-tool component tool valid in
            let index = preference_index-search p scope few in
            elim (Option-cases (search p.items scope)) [
              | inr (i, found) ↦ inr (record {
                scope = scope;
                scoped = local_scope-Scoped host hp component target good;
                good_tool = valid;
                answer = ground (arith, good, valid, few, index, found, copied);
                stored = inr (i, found, ground (arith, good, valid, few, index, found, copied));
              })
              | inl new ↦ elim (Bool-cases (leb max_tool_preferences (length p.items))) [
                | inl full ↦ inl (ground (arith, good, valid, few, index, new, full))
                | inr room ↦ inr (record {
                  scope = scope;
                  scoped = local_scope-Scoped host hp component target good;
                  good_tool = valid;
                  answer = ground (arith, good, valid, few, index, new, room, copied);
                  stored = inl (
                    new,
                    ground arith,
                    ground (arith, good, valid, few, index, new, room, copied),
                  );
                })
              ]
            ])
    ]
  ]

-- What `tool_preferences_reset` did.
pub record ResetDone (host target component : Text) (p : ToolPreferences)
    (r : CupError × ToolPreferences × Bool) : Type 0 where
  pub scope : PackageScope
  pub scoped : Scoped host component target scope
  pub answer : r.0 ≡ cup_ok
  pub removed :
      ((search p.items scope ≡ none) × (r.1 ≡ p) × (r.2 ≡ false))
      ⊎ ((i : ℕ) × (search p.items scope ≡ some i)
          × (r.1.items ≡ remove_at p.items i)
          × (r.2 ≡ true))

-- What `tool_preferences_reset_scope` did.
pub record ResetScopeDone (target : Text) (p : ToolPreferences) (r : CupError × ToolPreferences × ℕ)
    : Type 0 where
  pub supported : platform_is_supported target ≡ true
  pub answer : r.0 ≡ cup_ok
  pub kept : r.1.items ≡ (drop_target target p.items).0
  pub counted : r.2 ≡ (drop_target target p.items).1

module _ (host hp target : Text) (p : ToolPreferences)
    (few : length p.items ≤ max_tool_preferences) where
  pub reset-outcome :
      (component : Text)
      → ((tool_preferences_reset (ok host) p hp target component).0 ≢ cup_ok)
          × ((tool_preferences_reset (ok host) p hp target component).1 ≡ p)
          × ((tool_preferences_reset (ok host) p hp target component).2 ≡ false)
        ⊎ ResetDone host target component p (tool_preferences_reset (ok host) p hp target component)
  unfolding tool_preferences_reset preference_count_within_capacity
  reset-outcome component = elim (Scope-cases (local_scope (ok host) hp component target)) [
    | inr (e, bad) ↦ inl (ground (arith, bad, local_scope-ne_ok host hp component target bad))
    | inl (scope, good) ↦
        (let index = preference_index-search p scope few in
          elim (Option-cases (search p.items scope)) [
            | inl absent ↦ inr (record {
              scope = scope;
              scoped = local_scope-Scoped host hp component target good;
              answer = ground (arith, good, few, index, absent);
              removed = inl (
                absent,
                ground (arith, good, few, index, absent),
                ground (arith, good, few, index, absent),
              );
            })
            | inr (i, found) ↦ inr (record {
              scope = scope;
              scoped = local_scope-Scoped host hp component target good;
              answer = ground (arith, good, few, index, found);
              removed = inr (
                i,
                found,
                ground (arith, good, few, index, found),
                ground (arith, good, few, index, found),
              );
            })
          ])
  ]

  pub reset_scope-outcome :
      ((tool_preferences_reset_scope (ok host) p hp target).0 ≢ cup_ok)
        × ((tool_preferences_reset_scope (ok host) p hp target).1 ≡ p)
        × ((tool_preferences_reset_scope (ok host) p hp target).2 ≡ 0)
      ⊎ ResetScopeDone target p (tool_preferences_reset_scope (ok host) p hp target)
  unfolding tool_preferences_reset_scope preference_count_within_capacity
  reset_scope-outcome =
      elim (Bool-cases (is_nil hp || not (text_eq hp host) || not (platform_is_supported target))) [
        | inl bad ↦ inl (ground (arith, bad))
        | inr fine ↦ inr (record {
          supported = ground arith;
          answer = ground (arith, fine, few);
          kept = ground (arith, fine, few);
          counted = ground (arith, fine, few);
        })
      ]
