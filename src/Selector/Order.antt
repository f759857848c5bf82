-- ===== src/Selector/Order.antt =====
-- The comparison of concrete versions and their numeric keys (src/package_selector.c).
use cup.Base.{
  ℕ, ◌<◌, true, false, Option, none, some, List, [], ◌∷◌, map, ◌≡◌, refl, ◌≢◌, arith, compare,
  Ordering, is_nil, all, Text, split_on, Option-cases, inl, inr, Bool-cases, break_at_text,
}
use cup.Errors.{ok}
use cup.Selector.{
  PackageVersionParts, rev_marker, is_number, parse_numeric_dotted, parse_revision,
  parse_package_version, base_parts, revised_parts, compare_segments, compare_base_versions,
  compare_revisions, compare_parts, package_release_compare,
}
use cup.Selector.Numbers.{number_value, number_value_pos, compare_numeric_text-compare}
use cup.Path.{ascii_is_digit}

-- The order of lists of numbers, a list before its extensions.
abbrev pub compare_lists : List ℕ → List ℕ → Ordering
compare_lists [] [] = Ordering.eq
compare_lists [] (y ∷ ys) = Ordering.lt
compare_lists (x ∷ xs) [] = Ordering.gt
compare_lists (x ∷ xs) (y ∷ ys) = elim (compare x y) [
  | Ordering.lt ↦ Ordering.lt
  | Ordering.eq ↦ compare_lists xs ys
  | Ordering.gt ↦ Ordering.gt
]

-- The numbers of the base, and the revision, with 0 for none.
pub record VersionKey : Type 0 where
  pub numbers : List ℕ
  pub revision : ℕ

abbrev pub compare_keys : VersionKey → VersionKey → Ordering
compare_keys a b = elim (compare_lists a.numbers b.numbers) [
  | Ordering.lt ↦ Ordering.lt
  | Ordering.eq ↦ compare a.revision b.revision
  | Ordering.gt ↦ Ordering.gt
]

abbrev pub revision_number : Option Text → ℕ
revision_number none = 0
revision_number (some r) = number_value r

abbrev pub version_key : PackageVersionParts → VersionKey
version_key parts = record {
  numbers = map number_value (split_on b'.' parts.base);
  revision = revision_number parts.revision;
}

compare_segments-compare_lists :
    (l r : List Text)
    → all is_number l ≡ true
    → all is_number r ≡ true
    → compare_segments l r ≡ compare_lists (map number_value l) (map number_value r)
unfolding compare_segments
compare_segments-compare_lists [] [] p q = refl
compare_segments-compare_lists [] (y ∷ r) p q = refl
compare_segments-compare_lists (x ∷ l) [] p q = refl
compare_segments-compare_lists (x ∷ l) (y ∷ r) p q = ground (
  arith,
  compare_numeric_text-compare x y (ground arith) (ground arith),
  compare_segments-compare_lists l r (ground arith) (ground arith),
)

abbrev pub RevisionOk : Option Text → Type 0
RevisionOk none = Unit
RevisionOk (some r) = parse_revision r ≡ true

pub record PartsOk (parts : PackageVersionParts) : Type 0 where
  pub base : parse_numeric_dotted parts.base ≡ true
  pub revision : RevisionOk parts.revision

base_parts-PartsOk :
    (base : Text) (parts : PackageVersionParts) → base_parts base ≡ some parts → PartsOk parts
unfolding base_parts
base_parts-PartsOk base parts h = elim (Bool-cases (parse_numeric_dotted base)) [
  | inl good ↦
      (let e : parts ≡ record { base = base; revision = none } = ground arith in
        rw e (record { base = good; revision = tt }))
  | inr bad ↦ absurd (ground arith)
]

revised_parts-PartsOk :
    (base behind : Text) (parts : PackageVersionParts)
    → revised_parts base behind ≡ some parts
    → PartsOk parts
unfolding revised_parts
revised_parts-PartsOk base behind parts h =
    let e : parts ≡ record { base = base; revision = some behind } = ground arith in
    rw e (record { base = ground arith; revision = ground arith })

pub parse_package_version-PartsOk :
    (release : Text) (parts : PackageVersionParts)
    → parse_package_version release ≡ some parts
    → PartsOk parts
unfolding parse_package_version
parse_package_version-PartsOk release parts h =
    elim (Option-cases (break_at_text rev_marker release)) [
      | inl plain ↦ base_parts-PartsOk release parts (ground arith)
      | inr ((base, behind), revised) ↦ revised_parts-PartsOk base behind parts (ground arith)
    ]

parse_revision-is_number :
    (r : Text) → parse_revision r ≡ true → (is_number r ≡ true) × (0 < number_value r)
unfolding parse_revision is_number ascii_is_digit
parse_revision-is_number [] h = absurd (ground arith)
parse_revision-is_number (c ∷ []) h = (ground arith, number_value_pos c [] (ground arith))
parse_revision-is_number (c ∷ d ∷ cs) h = (ground arith, number_value_pos c (d ∷ cs) (ground arith))

compare_revisions-compare :
    (a b : Option Text)
    → RevisionOk a
    → RevisionOk b
    → compare_revisions a b ≡ compare (revision_number a) (revision_number b)
unfolding compare_revisions
compare_revisions-compare none none p q = refl
compare_revisions-compare none (some r) p q = ground (arith, parse_revision-is_number r q)
compare_revisions-compare (some l) none p q = ground (arith, parse_revision-is_number l p)
compare_revisions-compare (some l) (some r) p q =
    compare_numeric_text-compare l r (parse_revision-is_number l p).0
      (parse_revision-is_number r q).0

compare_parts-compare_keys :
    (a b : PackageVersionParts)
    → PartsOk a
    → PartsOk b
    → compare_parts a b ≡ compare_keys (version_key a) (version_key b)
unfolding compare_parts compare_base_versions parse_numeric_dotted
compare_parts-compare_keys a b p q = ground (
  arith,
  p.base,
  q.base,
  compare_segments-compare_lists (split_on b'.' a.base) (split_on b'.' b.base) p.base q.base,
  compare_revisions-compare a.revision b.revision p.revision q.revision,
)

parse_package_version-ne_nil :
    (release : Text) {parts : PackageVersionParts}
    → parse_package_version release ≡ some parts
    → is_nil release ≡ false
unfolding parse_package_version
parse_package_version-ne_nil release h = ground arith

-- Two texts that parse as versions compare as their numeric keys: the numbers between the dots,
-- first difference first, a version before its extensions, and then the revision, with no
-- revision first.
pub package_release_compare-compare_keys :
    (left right : Text) (l r : PackageVersionParts)
    → parse_package_version left ≡ some l
    → parse_package_version right ≡ some r
    → package_release_compare left right ≡ ok (compare_keys (version_key l) (version_key r))
unfolding package_release_compare
package_release_compare-compare_keys left right l r p q = ground (
  arith,
  p,
  q,
  parse_package_version-ne_nil left p,
  parse_package_version-ne_nil right q,
  compare_parts-compare_keys l r (parse_package_version-PartsOk left l p)
      (parse_package_version-PartsOk right r q),
)

abbrev pub flip : Ordering → Ordering
flip Ordering.lt = Ordering.gt
flip Ordering.eq = Ordering.eq
flip Ordering.gt = Ordering.lt

compare_lists-flip : (a b : List ℕ) → compare_lists b a ≡ flip (compare_lists a b)
compare_lists-flip [] [] = refl
compare_lists-flip [] (y ∷ b) = refl
compare_lists-flip (x ∷ a) [] = refl
compare_lists-flip (x ∷ a) (y ∷ b) = ground (arith, compare_lists-flip a b)

pub compare_keys-flip : (a b : VersionKey) → compare_keys b a ≡ flip (compare_keys a b)
compare_keys-flip a b = ground (arith, compare_lists-flip a.numbers b.numbers)

compare_lists_eq : (a b : List ℕ) → compare_lists a b ≡ Ordering.eq → a ≡ b
compare_lists_eq [] [] h = refl
compare_lists_eq [] (y ∷ b) h = cc
compare_lists_eq (x ∷ a) [] h = cc
compare_lists_eq (x ∷ a) (y ∷ b) h = ground (arith, compare_lists_eq a b)

compare_lists_trans :
    (a b c : List ℕ)
    → compare_lists a b ≡ Ordering.lt
    → compare_lists b c ≡ Ordering.lt
    → compare_lists a c ≡ Ordering.lt
compare_lists_trans [] [] [] h k = cc
compare_lists_trans [] (y ∷ b) [] h k = cc
compare_lists_trans [] b (z ∷ c) h k = refl
compare_lists_trans (x ∷ a) [] c h k = cc
compare_lists_trans (x ∷ a) (y ∷ b) [] h k = cc
compare_lists_trans (x ∷ a) (y ∷ b) (z ∷ c) h k = ground (arith, compare_lists_trans a b c)

-- `a` does not come after `b`.
abbrev pub NotAfter : VersionKey → VersionKey → Type 0
NotAfter a b = compare_keys a b ≢ Ordering.gt

pub NotAfter-trans : (a b c : VersionKey) → NotAfter a b → NotAfter b c → NotAfter a c
NotAfter-trans a b c h k = ground (
  arith,
  compare_lists_trans a.numbers b.numbers c.numbers,
  compare_lists_eq a.numbers b.numbers,
  compare_lists_eq b.numbers c.numbers,
)

pub NotAfter-refl : (a : VersionKey) → NotAfter a a
NotAfter-refl a = ground (arith, compare_lists-flip a.numbers a.numbers)

pub NotAfter-gt : (a b : VersionKey) → compare_keys a b ≡ Ordering.gt → NotAfter b a
NotAfter-gt a b h = ground (arith, compare_keys-flip a b)
