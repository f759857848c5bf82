-- ===== src/State/File/Loop.antt =====
-- The parser's loop over the written records, installed before default (src/state.c).
use mathlib.Core.Path.{subst}
use mathlib.Core.List.{append_assoc, append-nil}
use cup.Base.{
  ℕ, ◌+◌, ◌^◌, ◌≤◌, ◌<◌, Bool, true, false, List, [], ◌∷◌, ◌++◌, ◌≡◌, refl, sym, ap, ◌∙◌, arith,
  length, length-append, is_nil, All, Pairs, Fresh, Fresh-append_seen, Text,
}
use cup.Errors.{CupError, Result, ok, state_load}
use cup.Text.Lines.{visit_lines}
use cup.Package.{PackageIdentity}
use cup.Package.Laws.{IsIdentity, package_identity_get_scope-IsIdentity, scope_of}
use cup.State.{CupState, max_state_defaults, find_default_index, identity_matches_scope}
use cup.State.Search.{find_index-eq_none}
use cup.State.Defaults.{state_set_default_raw}
use cup.State.Valid.{Differ, ScopesDiffer, IsValid, not-All-In}
use cup.State.Validate.{fresh_scopes_iff, identity_scope-IsIdentity}
use cup.State.Effects.{state_add_installed_ok}
use cup.State.Keeps.{state_add_installed-IsValid}
use cup.State.File.{
  installed, default, added, replaced, add_default, apply_record, parse_state_line,
}
use cup.State.File.Line.{record_text}
use cup.State.File.Read.{parse_state_line-text, record_texts}

abbrev pub packages : List PackageIdentity → ℕ → List PackageIdentity → CupState
packages items capacity choices = record {
  installed = items;
  installed_capacity = capacity;
  defaults = choices;
}

-- A default in a scope that has none yet goes to the end.
add_default-new :
    (s : CupState) (x : PackageIdentity)
    → IsIdentity x
    → All (λ y. ScopesDiffer y x) s.defaults
    → length s.defaults < max_state_defaults
    → add_default s x ≡ ok (record s { defaults = s.defaults ++ (x ∷ []) })
unfolding add_default state_set_default_raw find_default_index replaced
add_default-new s x v new room =
    let none_found =
      (find_index-eq_none (λ y. identity_matches_scope y (scope_of x)) s.defaults).1
        ((fresh_scopes_iff x s.defaults).1 new) in
    ground (
      arith,
      none_found,
      package_identity_get_scope-IsIdentity x v,
      identity_scope-IsIdentity x v,
      room,
    )

module _ (allocates : ℕ → Bool) (granted : (bytes : ℕ) → allocates bytes ≡ true) (host : Text)
    (named : is_nil host ≡ false) where
  abbrev read_line : CupState → ℕ → Text → Result CupState
  read_line = parse_state_line allocates host

  -- The state behind one more installed package.
  read_installed :
      (before : List PackageIdentity) (capacity n : ℕ) (x : PackageIdentity)
      → IsValid (packages before capacity [])
      → IsIdentity x
      → x.host_platform ≡ host
      → All (λ y. Differ y x) before
      → length before < 2 ^ 54
      → (grown : ℕ) × IsValid (packages (before ++ (x ∷ [])) grown [])
        × (read_line (packages before capacity []) n (record_text installed x)
            ≡ ok (packages (before ++ (x ∷ [])) grown []))
  unfolding apply_record added
  read_installed before capacity n x v good same new few =
      let s = packages before capacity [] in
      let (grown, e) =
        state_add_installed_ok allocates s x granted good (not-All-In x before new) few in
      let kept = state_add_installed-IsValid allocates s x v in
      (
        grown,
        subst (λ (t : CupError × CupState). IsValid t.1) e kept,
        parse_state_line-text allocates host s n installed x named good same
            ∙ rw (apply_record, e) refl,
      )

  pub visit_installed :
      (before items : List PackageIdentity) (capacity n : ℕ)
      → IsValid (packages before capacity [])
      → All IsIdentity items
      → All (λ x. x.host_platform ≡ host) items
      → Fresh Differ before items
      → Pairs Differ items
      → length before + length items ≤ 2 ^ 54
      → (grown : ℕ) × IsValid (packages (before ++ items) grown [])
        × (visit_lines
              (λ _. state_load)
              read_line
              n
              (packages before capacity [])
              (record_texts installed items)
            ≡ ok (packages (before ++ items) grown []))
  unfolding visit_lines
  visit_installed before [] capacity n v good same new distinct few =
      rw (append-nil before) (capacity, v, refl)
  visit_installed before (x ∷ xs) capacity n v good same new distinct few =
      let (grown, kept, step) =
        read_installed before capacity (n + 1) x v good.0 same.0 new.0 (omega (arith, few)) in
      let later =
        visit_installed (before ++ (x ∷ [])) xs grown (n + 1) kept good.1 same.1
          (Fresh-append_seen Differ x before xs distinct.0 new.1) distinct.1
          (omega (arith, few, length-append before (x ∷ []))) in
      rw step (
        subst
          (λ items.
            (c : ℕ) × IsValid (packages items c [])
            × (visit_lines (λ _. state_load) read_line (n + 1)
                  (packages (before ++ (x ∷ [])) grown []) (record_texts installed xs)
                ≡ ok (packages items c [])))
          (append_assoc before (x ∷ []) xs) later)

  pub visit_defaults :
      (items : List PackageIdentity) (capacity : ℕ) (before choices : List PackageIdentity) (n : ℕ)
      → All IsIdentity choices
      → All (λ x. x.host_platform ≡ host) choices
      → Fresh ScopesDiffer before choices
      → Pairs ScopesDiffer choices
      → length before + length choices ≤ max_state_defaults
      → visit_lines
          (λ _. state_load)
          read_line
          n
          (packages items capacity before)
          (record_texts default choices)
        ≡ ok (packages items capacity (before ++ choices))
  unfolding visit_lines apply_record
  visit_defaults items capacity before [] n good same new apart few =
      ap (λ ds. ok (packages items capacity ds)) (sym (append-nil before))
  visit_defaults items capacity before (x ∷ xs) n good same new apart few =
      let s = packages items capacity before in
      rw
        (
          parse_state_line-text allocates host s (n + 1) default x named good.0 same.0,
          apply_record,
          add_default-new s x good.0 new.0 (omega (arith, few)),
        )
        (visit_defaults items capacity (before ++ (x ∷ [])) xs (n + 1) good.1 same.1
            (Fresh-append_seen ScopesDiffer x before xs apart.0 new.1) apart.1
            (omega (arith, few, length-append before (x ∷ [])))
          ∙ ap (λ ds. ok (packages items capacity ds)) (append_assoc before (x ∷ []) xs))
