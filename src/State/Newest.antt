-- ===== src/State/Newest.antt =====
-- The loop over the installed versions of a tool (src/state.c).
use mathlib.Core.Option.{some-injective}
use mathlib.Core.Path.{subst}
use cup.Base.{
  Bool, true, false, ◌&&◌, Option, none, some, List, [], ◌∷◌, ◌≡◌, refl, sym, ◌∙◌, ◌≢◌, ◌⊎◌, inl,
  inr, ◌↔◌, arith, Ordering, All, Bool-cases, Option-cases, Text, text_eq,
}
use cup.Errors.{ok}
use cup.Package.{PackageScope, PackageIdentity, package_identity_validate, package_identity_init}
use cup.Package.Laws.{IsIdentity}
use cup.Selector.{
  PackageVersionParts, parse_package_version, package_release_compare,
  package_release_validate_concrete,
}
use cup.Selector.Order.{
  version_key, compare_keys, NotAfter, NotAfter-trans, NotAfter-refl, NotAfter-gt,
  package_release_compare-compare_keys,
}
use cup.State.Valid.{In}
use cup.State.Defaults.{better, best_installed}
use cup.State.{identity_matches_scope}

abbrev pub is_candidate : PackageScope → Text → PackageIdentity → Bool
is_candidate scope tool item = identity_matches_scope item scope && text_eq item.tool tool

-- A valid identity has a version that parses.
validate_concrete-parses :
    (v : Text)
    → package_release_validate_concrete v ≡ ok tt
    → (parts : PackageVersionParts) × (parse_package_version v ≡ some parts)
unfolding package_release_validate_concrete
validate_concrete-parses v h = elim (Option-cases (parse_package_version v)) [
  | inr found ↦ found
  | inl bad ↦ absurd (ground arith)
]

IsIdentity-version :
    (x : PackageIdentity) → IsIdentity x → package_release_validate_concrete x.version ≡ ok tt
unfolding package_identity_validate package_identity_init
IsIdentity-version x h = ground arith

-- `x` is not a later version than `y`.
abbrev pub NotNewer : PackageIdentity → PackageIdentity → Type 0
NotNewer x y = package_release_compare x.version y.version ≢ ok Ordering.gt

record Keyed (x : PackageIdentity) : Type 0 where
  parts : PackageVersionParts
  parses : parse_package_version x.version ≡ some parts

keyed : (x : PackageIdentity) → IsIdentity x → Keyed x
keyed x h =
    let (parts, parses) = validate_concrete-parses x.version (IsIdentity-version x h) in
    record { parts = parts; parses = parses }

compared :
    {x y : PackageIdentity} (a : Keyed x) (b : Keyed y)
    → package_release_compare x.version y.version
      ≡ ok (compare_keys (version_key a.parts) (version_key b.parts))
compared {x} {y} a b =
    package_release_compare-compare_keys x.version y.version a.parts b.parts a.parses b.parses

NotNewer-iff :
    {x y : PackageIdentity} (a : Keyed x) (b : Keyed y)
    → NotNewer x y ↔ NotAfter (version_key a.parts) (version_key b.parts)
NotNewer-iff a b = ground (arith, compared a b)

pub NotNewer-trans :
    (x y z : PackageIdentity)
    → IsIdentity x
    → IsIdentity y
    → IsIdentity z
    → NotNewer x y
    → NotNewer y z
    → NotNewer x z
NotNewer-trans x y z p q r h k =
    let a = keyed x p in
    let b = keyed y q in
    let c = keyed z r in
    (NotNewer-iff a c).1 (
      NotAfter-trans (version_key a.parts) (version_key b.parts) (version_key c.parts)
        ((NotNewer-iff a b).0 h) ((NotNewer-iff b c).0 k))

NotNewer-refl : (x : PackageIdentity) → IsIdentity x → NotNewer x x
NotNewer-refl x p = let a = keyed x p in (NotNewer-iff a a).1 (NotAfter-refl (version_key a.parts))

abbrev Previous : Option PackageIdentity → PackageIdentity → Type 0
Previous none b = Unit
Previous (some best) b = NotNewer best b

-- The candidate that the loop ends with.
abbrev Newest :
    (PackageIdentity → Bool)
    → Option PackageIdentity
    → List PackageIdentity
    → Option PackageIdentity
    → Type 0
Newest test best items none = (best ≡ none) × All (λ x. test x ≡ false) items
Newest test best items (some b) =
    IsIdentity b
    × ((best ≡ some b) ⊎ (In b items × (test b ≡ true)))
    × Previous best b
    × All (λ x. test x ≡ true → NotNewer x b) items

abbrev ValidBest : Option PackageIdentity → Type 0
ValidBest none = Unit
ValidBest (some b) = IsIdentity b

NotNewer-gt :
    (x y : PackageIdentity)
    → IsIdentity x
    → IsIdentity y
    → package_release_compare x.version y.version ≡ ok Ordering.gt
    → NotNewer y x
NotNewer-gt x y p q h =
    let a = keyed x p in
    let b = keyed y q in
    (NotNewer-iff b a).1
      (NotAfter-gt (version_key a.parts) (version_key b.parts) (ground (arith, compared a b)))

abbrev Step : Option PackageIdentity → PackageIdentity → PackageIdentity → Type 0
Step best candidate b =
    (better best candidate ≡ ok (some b))
    × ((b ≡ candidate) ⊎ (best ≡ some b))
    × IsIdentity b
    × Previous best b
    × NotNewer candidate b

better_by :
    (best candidate : PackageIdentity) (o : Ordering)
    → package_release_compare candidate.version best.version ≡ ok o
    → IsIdentity best
    → IsIdentity candidate
    → (b : PackageIdentity) × (Step (some best) candidate b)
unfolding better
better_by best candidate Ordering.gt e v p = (
  candidate,
  (rw e refl, inl refl, p, NotNewer-gt candidate best p v e, NotNewer-refl candidate p),
)
better_by best candidate Ordering.lt e v p =
    (best, (rw e refl, inr refl, v, NotNewer-refl best v, λ h. cc))
better_by best candidate Ordering.eq e v p =
    (best, (rw e refl, inr refl, v, NotNewer-refl best v, λ h. cc))

-- One step keeps the later of the two, and it is no earlier than either.
better-Step :
    (best : Option PackageIdentity) (candidate : PackageIdentity)
    → ValidBest best
    → IsIdentity candidate
    → (b : PackageIdentity) × (Step best candidate b)
unfolding better
better-Step none candidate v p = (candidate, (refl, inl refl, p, tt, NotNewer-refl candidate p))
better-Step (some best) candidate v p =
    better_by best candidate _ (compared (keyed candidate p) (keyed best v)) v p

Previous-trans :
    (best : Option PackageIdentity) (b c : PackageIdentity)
    → ValidBest best
    → IsIdentity b
    → IsIdentity c
    → Previous best b
    → NotNewer b c
    → Previous best c
Previous-trans none b c v p q h k = tt
Previous-trans (some best) b c v p q h k = NotNewer-trans best b c v p q h k

module _ (scope : PackageScope) (tool : Text) where
  abbrev pub Ends : Option PackageIdentity → List PackageIdentity → Type 0
  Ends best items =
      (r : Option PackageIdentity) × (best_installed scope tool best items ≡ ok r)
      × Newest (is_candidate scope tool) best items r

  skipped :
      (best : Option PackageIdentity) (x : PackageIdentity) (items : List PackageIdentity)
      → is_candidate scope tool x ≡ false
      → Ends best items
      → Ends best (x ∷ items)
  unfolding best_installed
  skipped best x items no_match (none, e, (n, all)) =
      (none, ground (arith, no_match, e), (n, (no_match, all)))
  skipped best x items no_match (some b, e, (v, from, prev, all)) = (
    some b,
    ground (arith, no_match, e),
    (
      v,
      (elim from [ inl p ↦ inl p | inr m ↦ inr (inr m.0, m.1) ]),
      prev,
      ((λ h. absurd (ground arith)), all),
    ),
  )

  came_from :
      (best : Option PackageIdentity) (x c b : PackageIdentity) (items : List PackageIdentity)
      → is_candidate scope tool x ≡ true
      → (c ≡ x) ⊎ (best ≡ some c)
      → (◌≡◌ {A = Option PackageIdentity} (some c) (some b))
        ⊎ (In b items × (is_candidate scope tool b ≡ true))
      → (best ≡ some b) ⊎ (In b (x ∷ items) × (is_candidate scope tool b ≡ true))
  came_from best x c b items match_ from (inr m) = inr (inr m.0, m.1)
  came_from best x c b items match_ (inr e) (inl e') = inl (e ∙ e')
  came_from best x c b items match_ (inl e) (inl e') =
      let same : x ≡ b = sym e ∙ some-injective c b e' in
      inr (inl same, subst (λ z. is_candidate scope tool z ≡ true) same match_)

  taken :
      (best : Option PackageIdentity) (x c : PackageIdentity) (items : List PackageIdentity)
      → is_candidate scope tool x ≡ true
      → ValidBest best
      → IsIdentity x
      → Step best x c
      → Ends (some c) items
      → Ends best (x ∷ items)
  unfolding best_installed
  taken best x c items match_ v p (e, from, vc, prev, not_newer) (none, e', (n, all)) =
      absurd (ground arith)
  taken best x c items match_ v p (e, from, vc, prev, not_newer)
        (some b, e', (vb, from', prev', all)) =
      (
        some b,
        ground (arith, match_, e, e'),
        (
          vb,
          came_from best x c b items match_ from from',
          Previous-trans best c b v vc vb prev prev',
          ((λ _. NotNewer-trans x c b p vc vb not_newer prev'), all),
        ),
      )

  pub best_installed-Ends :
      (best : Option PackageIdentity) (items : List PackageIdentity)
      → ValidBest best
      → All IsIdentity items
      → Ends best items
  unfolding best_installed
  best_installed-Ends none [] v p = (none, refl, (refl, tt))
  best_installed-Ends (some b) [] v p = (some b, refl, (v, inl refl, NotNewer-refl b v, tt))
  best_installed-Ends best (x ∷ items) v p = elim (Bool-cases (is_candidate scope tool x)) [
    | inr no_match ↦ skipped best x items no_match (best_installed-Ends best items v p.1)
    | inl match_ ↦
        (let (c, step) = better-Step best x v p.0 in
          taken best x c items match_ v p.0 step (best_installed-Ends (some c) items step.2 p.1))
  ]
