-- ===== src/State/File/Saved.antt =====
-- `state_save` and then `state_load` (src/state.c).
use mathlib.Core.Path.{subst}
use mathlib.Core.List.{Permᴰ}
use mathlib.Core.List.Permᴰ
use cup.Base.{
  ℕ, ◌+◌, ◌^◌, ◌≤◌, Bool, true, false, some, List, [], ◌∷◌, ◌++◌, Ordering, ◌≡◌, refl, sym, ◌∙◌,
  inl, inr, arith, length, suc, is_nil, All, Fresh-nil, Text, text_eq,
}
use cup.Base.Rearranged.{length-rearranged, All-rearranged, Pairs-rearranged}
use cup.Errors.{ok, state_load}
use cup.Text.Reader.{is_skipped}
use cup.Text.Fields.{read_line-found}
use cup.Text.Lines.{
  IsLine, visit_lines, visit_lines-append, at_end, each_line-document, reader_init-document,
  document-length,
}
use cup.Text.Lines
use cup.Package.{PackageIdentity}
use cup.Package.Laws.{IsIdentity}
use cup.State.{CupState, state_init}
use cup.State.Valid.{In, Differ, ScopesDiffer, IsValid}
use cup.State.Validate.{state_validate_iff}
use cup.State.File.{
  StateRecordType, installed, default, header, max_state_line_len, compare_identity_pointers,
  sorted_by, parse_state_line, read_records, read_header, check_loaded, parse_document,
  load_state_path, state_save_document,
}
use cup.State.File.Line.{identity-Names, record_text-IsLine}
use cup.State.File.Read.{record_texts}
use cup.State.File.Loop.{packages, visit_installed, visit_defaults}
use cup.State.File.Written.{save-Saved, sorted_by-perm, write_state_file-document}

In-rearranged :
    (x : PackageIdentity) {xs ys : List PackageIdentity} → Permᴰ xs ys → In x xs → In x ys
In-rearranged x Permᴰ.nil m = m
In-rearranged x (Permᴰ.cons e d) (inl same) = inl (sym e ∙ same)
In-rearranged x (Permᴰ.cons e d) (inr m) = inr (In-rearranged x d m)
In-rearranged x (Permᴰ.swap e f) (inl same) = inr (inl (sym e ∙ same))
In-rearranged x (Permᴰ.swap e f) (inr (inl same)) = inl (sym f ∙ same)
In-rearranged x (Permᴰ.swap e f) (inr (inr m)) = inr (inr m)
In-rearranged x (Permᴰ.trans d₁ d₂) m = In-rearranged x d₂ (In-rearranged x d₁ m)

All-In-rearranged :
    {xs ys : List PackageIdentity} (ds : List PackageIdentity)
    → Permᴰ xs ys
    → All (λ d. In d xs) ds
    → All (λ d. In d ys) ds
All-In-rearranged [] d h = tt
All-In-rearranged (x ∷ ds) d h = (In-rearranged x d h.0, All-In-rearranged ds d h.1)

-- The order of the packages and of the defaults does not matter to validity.
IsValid-rearranged :
    (s : CupState) (items choices : List PackageIdentity) (capacity : ℕ)
    → IsValid s
    → Permᴰ s.installed items
    → Permᴰ s.defaults choices
    → length items ≤ capacity
    → IsValid (packages items capacity choices)
IsValid-rearranged s items choices capacity v d e room = record {
  few_defaults = omega (arith, v.few_defaults, length-rearranged e);
  within_capacity = room;
  installed_identities = All-rearranged IsIdentity d v.installed_identities;
  installed_distinct = Pairs-rearranged Differ (λ x y n q. n (sym q)) d v.installed_distinct;
  default_identities = All-rearranged IsIdentity e v.default_identities;
  one_per_scope = Pairs-rearranged ScopesDiffer (λ x y n q. n (sym q)) e v.one_per_scope;
  defaults_installed =
      All-In-rearranged choices d (All-rearranged (λ x. In x s.installed) e v.defaults_installed);
}

texts-IsLine :
    (kind : StateRecordType) (items : List PackageIdentity)
    → All IsIdentity items
    → All (IsLine max_state_line_len) (record_texts kind items)
texts-IsLine kind [] h = tt
texts-IsLine kind (x ∷ xs) h =
    (record_text-IsLine kind x (identity-Names x h.0), texts-IsLine kind xs h.1)

All-both :
    (xs ys : List Text)
    → All (IsLine max_state_line_len) xs
    → All (IsLine max_state_line_len) ys
    → All (IsLine max_state_line_len) (xs ++ ys)
All-both [] ys h k = k
All-both (x ∷ xs) ys h k = (h.0, All-both xs ys h.1 k)

header-IsLine : IsLine max_state_line_len header
unfolding is_skipped
header-IsLine = record { graphic = refl; counts = refl; fits = omega arith }

empty_IsValid : IsValid state_init
empty_IsValid = record {
  few_defaults = omega arith;
  within_capacity = omega arith;
  installed_identities = tt;
  installed_distinct = tt;
  default_identities = tt;
  one_per_scope = tt;
  defaults_installed = tt;
}

header-read :
    (more : Text)
    → read_header (record { rest = header ++ (b'\n' ∷ more); line_number = 0 })
      ≡ ok (record { rest = more; line_number = 1 })
unfolding read_header text_eq
header-read more =
    rw
      (
        read_header,
        read_line-found header more 0 max_state_line_len refl header-IsLine.counts (omega arith)
            (omega arith),
      )
      refl

check_loaded-IsValid : (s : CupState) → IsValid s → check_loaded s ≡ ok s
unfolding check_loaded
check_loaded-IsValid s v = rw (check_loaded, (state_validate_iff s).1 v) refl

module _ (allocates : ℕ → Bool) (granted : (bytes : ℕ) → allocates bytes ≡ true) (host : Text) where
  -- The file of packages and defaults that are together valid, of the host.
  parse_document-written :
      (items choices : List PackageIdentity) (enough : ℕ)
      → is_nil host ≡ false
      → length items ≤ 2 ^ 54
      → All (λ x. x.host_platform ≡ host) items
      → All (λ x. x.host_platform ≡ host) choices
      → IsValid (packages items enough choices)
      → (capacity : ℕ) × IsValid (packages items capacity choices)
        × (parse_document allocates (ok host) (
              Lines.document
                (header ∷ (record_texts installed items ++ record_texts default choices)))
            ≡ ok (packages items capacity choices))
  unfolding parse_document read_records
  parse_document-written items choices enough named few here there v =
      let lines = record_texts installed items ++ record_texts default choices in
      let good : All (IsLine max_state_line_len) (header ∷ lines) = (
        header-IsLine,
        All-both (record_texts installed items) (record_texts default choices)
            (texts-IsLine installed items v.installed_identities)
            (texts-IsLine default choices v.default_identities),
      ) in
      let (capacity, kept, first) =
        visit_installed allocates granted host named [] items 0 1 empty_IsValid
          v.installed_identities here (Fresh-nil Differ items) v.installed_distinct
          (omega (arith, few)) in
      let valid =
        IsValid-rearranged (packages items enough choices) items choices capacity v
          (Permᴰ.refl items) (Permᴰ.refl choices) kept.within_capacity in
      (
        capacity,
        valid,
        rw
            (
              parse_document,
              reader_init-document max_state_line_len header lines good,
              header-read (Lines.document lines),
              each_line-document (λ _. state_load) (parse_state_line allocates host)
                  max_state_line_len lines (suc (length (Lines.document lines))) 1 state_init
                  (omega arith) good.1 (omega (arith, document-length lines)),
              visit_lines-append (λ _. state_load) (parse_state_line allocates host)
                  (record_texts installed items) (record_texts default choices) 1 state_init
                  (packages items capacity []) first,
              visit_defaults allocates granted host named items capacity [] choices
                  (1 + length (record_texts installed items)) v.default_identities there
                  (Fresh-nil ScopesDiffer choices) v.one_per_scope (omega (arith, v.few_defaults)),
            )
            (check_loaded-IsValid (packages items capacity choices) valid),
      )

-- What a load of the saved bytes makes of them.
pub record LoadedAgain (allocates : ℕ → Bool) (host bytes : Text) (s : CupState) : Type 0 where
  pub loaded : CupState
  pub load : load_state_path allocates (ok host) (ok (some bytes)) ≡ ok (some loaded)
  pub valid : IsValid loaded
  pub same_installed : Permᴰ loaded.installed s.installed
  pub same_defaults : Permᴰ loaded.defaults s.defaults

-- From the bytes that state_save has for the file, state_load loads a valid state with the same
-- installed packages and the same defaults, each in some order, provided that the sort
-- rearranges its list, the host is the one of the save, and the allocator grants every request.
pub save_state-load :
    (sort : (PackageIdentity → PackageIdentity → Ordering)
      → List PackageIdentity
      → List PackageIdentity)
    (rearranges : (items : List PackageIdentity)
      → Permᴰ (sort compare_identity_pointers items) items)
    (allocates : ℕ → Bool) (granted : (bytes : ℕ) → allocates bytes ≡ true) (host bytes : Text)
    (s : CupState)
    → state_save_document sort (ok host) s ≡ ok bytes
    → LoadedAgain allocates host bytes s
unfolding load_state_path
save_state-load sort rearranges allocates granted host bytes s h =
    let saved = save-Saved sort host bytes s h in
    let items = sorted_by sort s.installed in
    let choices = sorted_by sort s.defaults in
    let d = sorted_by-perm sort rearranges s.installed in
    let e = sorted_by-perm sort rearranges s.defaults in
    let few : length items ≤ 2 ^ 54 = omega (arith, saved.few, length-rearranged d) in
    let v =
      IsValid-rearranged s items choices (length items) saved.valid (Permᴰ.symm d) (Permᴰ.symm e)
        (omega arith) in
    let (capacity, valid, read) =
      parse_document-written allocates granted host items choices (length items) saved.named few
        (All-rearranged (λ x. x.host_platform ≡ host) (Permᴰ.symm d) saved.installed_here)
        (All-rearranged (λ x. x.host_platform ≡ host) (Permᴰ.symm e) saved.defaults_here) v in
    let lines = record_texts installed items ++ record_texts default choices in
    let document : ok (Lines.document (header ∷ lines)) ≡ ok bytes =
      sym (write_state_file-document items choices v.installed_identities v.default_identities)
      ∙ saved.written in
    let same : Lines.document (header ∷ lines) ≡ bytes = ground (arith, document) in
    let again : parse_document allocates (ok host) bytes ≡ ok (packages items capacity choices) =
      subst (λ t. parse_document allocates (ok host) t ≡ ok (packages items capacity choices)) same
        read in
    record {
      loaded = packages items capacity choices;
      load = rw (load_state_path, again) refl;
      valid = valid;
      same_installed = d;
      same_defaults = e;
    }
