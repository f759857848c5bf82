-- ===== src/State/Reference.antt =====
-- The reference of a tool: the default of the scope, or the newest installed version
-- (src/state.c).
use mathlib.Core.Option.{some-injective}
use cup.Base.{
  Bool, true, false, none, some, ◌≡◌, refl, sym, ◌∙◌, ap, ◌≢◌, ◌⊎◌, inl, inr, arith, All,
  Bool-cases, Option-cases, Text, text_eq, text_eq_iff, is_nil,
}
use cup.Errors.{Result, ok, err, not_installed}
use cup.Package.{PackageScope, PackageIdentity}
use cup.State.Newest.{is_candidate, NotNewer, Ends, best_installed-Ends}
use cup.State.Valid.{In, IsValid}
use cup.State.Defaults.{newest_installed, state_get_tool_reference, state_get_default}
use cup.State.{CupState}

-- What `state_get_tool_reference` answers where the scope's default is another tool or none.
abbrev pub IsNewest : CupState → PackageScope → Text → Result (PackageIdentity × Bool) → Type 0
IsNewest s scope tool (ok (b, from_default)) =
    (from_default ≡ false)
    × In b s.installed
    × (is_candidate scope tool b ≡ true)
    × All (λ x. is_candidate scope tool x ≡ true → NotNewer x b) s.installed
IsNewest s scope tool (err e) =
    (e ≡ not_installed) × All (λ x. is_candidate scope tool x ≡ false) s.installed

newest_installed-IsNewest :
    (s : CupState) (scope : PackageScope) (tool : Text)
    → IsValid s
    → IsNewest s scope tool (newest_installed s scope tool)
unfolding newest_installed
newest_installed-IsNewest s scope tool v =
    answer (best_installed-Ends scope tool none s.installed tt v.installed_identities)
  where
    answer :
        Ends scope tool none s.installed → IsNewest s scope tool (newest_installed s scope tool)
    answer (none, e, (n, all)) = rw (e, newest_installed) (refl, all)
    answer (some b, e, (vb, inl p, prev, all)) = absurd (ground arith)
    answer (some b, e, (vb, inr m, prev, all)) = rw (e, newest_installed) (refl, m.0, m.1, all)

other_tool :
    (d d' : PackageIdentity) (tool : Text) → text_eq d.tool tool ≡ false → d ≡ d' → d'.tool ≢ tool
other_tool d d' tool h e = ground (arith, text_eq_iff d'.tool tool, ap (λ x. x.tool) e)

-- On a valid state and for a tool name that is not empty, state_get_tool_reference answers the
-- default of the scope, marked as the default, where the default is of the tool. Where it is
-- not, or there is none, the answer is an installed package of the tool and scope than which no
-- installed one of them is newer, not marked, or CUP_ERR_NOT_INSTALLED, and then no package of
-- the tool and scope is installed.
pub state_get_tool_reference_lem :
    (s : CupState) (scope : PackageScope) (tool : Text)
    → IsValid s
    → is_nil tool ≡ false
    → ((d : PackageIdentity) × (state_get_default s scope ≡ some d)
        × (d.tool ≡ tool)
        × (state_get_tool_reference s scope tool ≡ ok (d, true)))
      ⊎ (((d : PackageIdentity) → state_get_default s scope ≡ some d → d.tool ≢ tool)
          × IsNewest s scope tool (state_get_tool_reference s scope tool))
unfolding state_get_tool_reference
state_get_tool_reference_lem s scope tool v named =
    elim (Option-cases (state_get_default s scope)) [
      | inl missing ↦ inr (
        (λ d found. absurd (ground arith)),
        rw (named, missing, state_get_tool_reference) (newest_installed-IsNewest s scope tool v),
      )
      | inr (d, found) ↦ elim (Bool-cases (text_eq d.tool tool)) [
        | inl same ↦ inl (
          d,
          found,
          (text_eq_iff d.tool tool).0 same,
          rw (named, found, same, state_get_tool_reference),
        )
        | inr other ↦ inr (
          (λ d' found'. other_tool d d' tool other (some-injective d d' (sym found ∙ found'))),
          rw (named, found, other, state_get_tool_reference)
              (newest_installed-IsNewest s scope tool v),
        )
      ]
    ]
