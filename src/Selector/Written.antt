-- ===== src/Selector/Written.antt =====
-- A selector `<tool>@<release>` that is written and read back (src/package_selector.c).
use cup.Base.{
  ℕ, ◌<◌, Bool, true, false, not, ◌&&◌, some, List, [], ◌∷◌, ◌++◌, ◌≡◌, refl, ap, ◌∙◌, inl, inr,
  arith, ◌==◌, length, length-append, is_nil, all, Text, Bool-cases, Option-cases, &&-true_iff,
  split_on, break_at_text, strip_prefix, prepend, text_eq,
}
use cup.Errors.{ok}
use cup.Text.{text_copy}
use cup.Text.Fields.{is_graphic, break_at-found}
use cup.Text.Lines.{all_append, append-ne_nil}
use cup.Text.Split.{break_at-absent}
use cup.Path.{ascii_is_digit, path_validate_canonical_identifier}
use cup.Registry.{max_identifier_len, registry_is_tool}
use cup.Registry.Names.{Bytes, registered_tool}
use cup.Selector.{
  PackageVersionParts, is_number, parse_numeric_dotted, parse_revision, rev_marker, base_parts,
  revised_parts, parse_package_version, package_release_validate_concrete, two_parts,
  package_selector_parse_parts, check_tool, check_release, selector_init, package_selector_parse,
}
use cup.Selector.Numbers.{is_number-digits}

-- The bytes of a version: printable, and no `@`.
abbrev pub is_version_byte : ℕ → Bool
is_version_byte c = is_graphic c && not (c == b'@')

digit_version : (c : ℕ) → ascii_is_digit c ≡ true → is_version_byte c ≡ true
unfolding ascii_is_digit
digit_version c h = ground arith

digits_version : (t : Text) → all ascii_is_digit t ≡ true → all is_version_byte t ≡ true
digits_version [] h = refl
digits_version (c ∷ cs) h =
    let (first, rest) = (&&-true_iff (ascii_is_digit c) (all ascii_is_digit cs)).0 h in
    (&&-true_iff (is_version_byte c) (all is_version_byte cs)).1
      (digit_version c first, digits_version cs rest)

prepend-all :
    (q : ℕ → Bool) (c : ℕ) (parts : List Text)
    → all (λ part. all q part) (prepend c parts) ≡ true
    → (q c ≡ true) × (all (λ part. all q part) parts ≡ true)
unfolding prepend
prepend-all q c [] h = (ground arith, refl)
prepend-all q c (part ∷ parts) h = (ground arith, ground arith)

-- A text whose parts between the dots are of such bytes is of such bytes.
split_version :
    (t : Text)
    → all (λ part. all is_version_byte part) (split_on b'.' t) ≡ true
    → all is_version_byte t ≡ true
unfolding split_on
split_version [] h = refl
split_version (c ∷ cs) h = elim (Bool-cases (c == b'.')) [
  | inl dot ↦
      (let rest : all (λ part. all is_version_byte part) (split_on b'.' cs) ≡ true =
          rw (split_on, dot) at h in
        (&&-true_iff (is_version_byte c) (all is_version_byte cs)).1
          (ground (arith, dot), split_version cs rest))
  | inr other ↦
      (let both = prepend-all is_version_byte c (split_on b'.' cs) (rw (split_on, other) at h) in
        (&&-true_iff (is_version_byte c) (all is_version_byte cs)).1
          (both.0, split_version cs both.1))
]

numbers_version :
    (parts : List Text)
    → all is_number parts ≡ true
    → all (λ part. all is_version_byte part) parts ≡ true
numbers_version [] h = refl
numbers_version (part ∷ parts) h =
    let (first, rest) = (&&-true_iff (is_number part) (all is_number parts)).0 h in
    (&&-true_iff (all is_version_byte part) _).1
      (digits_version part (is_number-digits part first), numbers_version parts rest)

base_version : (base : Text) → parse_numeric_dotted base ≡ true → all is_version_byte base ≡ true
unfolding parse_numeric_dotted
base_version base h = split_version base (numbers_version (split_on b'.' base) h)

revision_version : (r : Text) → parse_revision r ≡ true → all is_version_byte r ≡ true
unfolding parse_revision
revision_version [] h = absurd (ground arith)
revision_version (c ∷ cs) h =
    (&&-true_iff (is_version_byte c) (all is_version_byte cs)).1
      (ground arith, digits_version cs (ground arith))

strip_prefix-eq : (p t : Text) {rest : Text} → strip_prefix p t ≡ some rest → t ≡ p ++ rest
unfolding strip_prefix
strip_prefix-eq [] t h = ground arith
strip_prefix-eq (c ∷ p) [] h = absurd (ground arith)
strip_prefix-eq (c ∷ p) (d ∷ t) h = elim (Bool-cases (c == d)) [
  | inl same ↦ ground (arith, same, strip_prefix-eq p t (rw (strip_prefix, same) at h))
  | inr other ↦ absurd (ground (arith, other))
]

break_at_text-eq :
    (marker t : Text) {before behind : Text}
    → break_at_text marker t ≡ some (before, behind)
    → t ≡ before ++ (marker ++ behind)
unfolding break_at_text
break_at_text-eq marker [] h = absurd (ground arith)
break_at_text-eq marker (c ∷ cs) {before} {behind} h =
    elim (Option-cases (strip_prefix marker (c ∷ cs))) [
      | inr (rest, here) ↦
          (let e : some ([], rest) ≡ some (before, behind) = rw (break_at_text, here) at h in
            strip_prefix-eq marker (c ∷ cs) here ∙ ground (arith, e))
      | inl absent ↦ elim (Option-cases (break_at_text marker cs)) [
        | inl none_later ↦ absurd (ground (arith, absent, none_later))
        | inr ((front, rest), later) ↦
            (let e : some (c ∷ front, rest) ≡ some (before, behind) =
                rw (break_at_text, absent, later) at h in
              ap (λ (r : Text). c ∷ r) (break_at_text-eq marker cs later) ∙ ground (arith, e))
      ]
    ]

revised_parts-good :
    (base behind : Text) {parts : PackageVersionParts}
    → revised_parts base behind ≡ some parts
    → (parse_numeric_dotted base ≡ true) × (parse_revision behind ≡ true)
unfolding revised_parts
revised_parts-good base behind h = (ground arith, ground arith)

base_parts-good :
    (base : Text) {parts : PackageVersionParts}
    → base_parts base ≡ some parts
    → parse_numeric_dotted base ≡ true
unfolding base_parts
base_parts-good base h = ground arith

parsed_version :
    (v : Text) {parts : PackageVersionParts}
    → parse_package_version v ≡ some parts
    → all is_version_byte v ≡ true
unfolding parse_package_version
parsed_version v {parts} h = elim (Option-cases (break_at_text rev_marker v)) [
  | inl plain ↦ base_version v (base_parts-good v {parts = parts} (ground (arith, plain)))
  | inr ((base, behind), revised) ↦
      (let (b, r) = revised_parts-good base behind {parts = parts} (ground (arith, revised)) in
        rw (break_at_text-eq rev_marker v revised) (
          all_append is_version_byte base (rev_marker ++ behind) (base_version base b)
            (all_append is_version_byte rev_marker behind refl (revision_version behind r))))
]

pub concrete_version :
    (v : Text)
    → package_release_validate_concrete v ≡ ok tt
    → (all is_version_byte v ≡ true) × (is_nil v ≡ false) × (length v < 32)
unfolding package_release_validate_concrete
concrete_version v h = elim (Option-cases (parse_package_version v)) [
  | inl bad ↦ absurd (ground (arith, bad))
  | inr (parts, good) ↦ (parsed_version v good, ground arith, ground arith)
]

pub version_graphic : (v : Text) → all is_version_byte v ≡ true → all is_graphic v ≡ true
version_graphic [] h = refl
version_graphic (c ∷ cs) h = ground (arith, version_graphic cs (ground arith))

version_no_at : (v : Text) → all is_version_byte v ≡ true → all (λ b. not (b == b'@')) v ≡ true
version_no_at [] h = refl
version_no_at (c ∷ cs) h = ground (arith, version_no_at cs (ground arith))

-- The parts of a written selector.
parse_parts-written :
    (tool v : Text)
    → Bytes tool
    → (all is_version_byte v ≡ true) × (is_nil v ≡ false) × (length v < 32)
    → package_selector_parse_parts (tool ++ (b'@' ∷ v)) max_identifier_len max_identifier_len
      ≡ ok (tool, v)
unfolding package_selector_parse_parts two_parts
parse_parts-written tool v t w = ground (
  arith,
  append-ne_nil tool b'@' v,
  length-append tool (b'@' ∷ v),
  break_at-found b'@' tool v t.no_at,
  break_at-absent b'@' v (version_no_at v w.0),
  t.ne_nil,
  t.short,
  w.1,
  w.2,
)

-- A written selector is read back.
pub package_selector_parse-written :
    (tool v : Text)
    → Bytes tool
    → check_tool tool ≡ ok tt
    → package_release_validate_concrete v ≡ ok tt
    → package_selector_parse (tool ++ (b'@' ∷ v)) ≡ ok (record { tool = tool; release = v })
unfolding package_selector_parse selector_init check_release text_copy
package_selector_parse-written tool v t good concrete =
    let w = concrete_version v concrete in
    ground (arith, parse_parts-written tool v t w, good, concrete, t.ne_nil, t.short, w.1, w.2)

-- A registered tool's name is canonical.
pub tool-canonical :
    (component tool : Text) → registry_is_tool component tool ≡ true → check_tool tool ≡ ok tt
unfolding check_tool path_validate_canonical_identifier text_eq
tool-canonical component tool h =
    registered_tool (λ t. check_tool t ≡ ok tt) component tool
      (refl, (refl, (refl, (refl, (refl, (refl, (refl, (refl, (refl, (refl, (refl, tt))))))))))) h
