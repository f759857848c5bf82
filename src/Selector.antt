-- ===== src/Selector.antt =====
-- src/package_selector.c: `<tool>@<release>` selectors and concrete package versions.
pub mod Numbers
pub mod Order
pub mod Written
use cup.Base.{
  ℕ, Bool, true, false, not, ◌&&◌, ◌||◌, Option, none, some, List, [], ◌∷◌, ◌++◌, compare, Ordering,
  leb, ◌==◌, if◌then◌else◌, length, is_nil, all, Text, codes, text_eq, strcmp, break_at, split_on,
  break_at_text,
}
use cup.Errors.{
  CupError, Result, ok, err, invalid_input, invalid_tool, invalid_release, buffer_too_small,
  validation, ◌>>=◌, ◌>>◌,
}
use cup.Text.{text_copy, text_format}
use cup.Path.{ascii_is_digit, path_validate_canonical_identifier}
use cup.Registry.{max_identifier_len}

abbrev pub max_selector_len : ℕ
max_selector_len = 64

pub record PackageSelector : Type 0 where
  pub tool : Text
  pub release : Text

unfoldable pub package_release_is_stable : Text → Bool
package_release_is_stable release = not (is_nil release) && text_eq release (codes "stable")

-- `base_end` and `revision` as the texts before and behind `-rev`.
pub record PackageVersionParts : Type 0 where
  pub base : Text
  pub revision : Option Text

-- One segment: digits, at least one, and no zero in front of others.
unfoldable pub is_number : Text → Bool
unfolding ascii_is_digit
is_number [] = false
is_number (c ∷ []) = ascii_is_digit c
is_number (c ∷ d ∷ cs) = not (c == b'0') && all ascii_is_digit (c ∷ d ∷ cs)

-- The cursor loop goes over the segments between the dots.
unfoldable pub parse_numeric_dotted : Text → Bool
unfolding is_number split_on
parse_numeric_dotted text = all is_number (split_on b'.' text)

unfoldable pub parse_revision : Text → Bool
unfolding ascii_is_digit
parse_revision [] = false
parse_revision (c ∷ cs) = leb b'1' c && leb c b'9' && all ascii_is_digit cs

abbrev pub rev_marker : Text
rev_marker = codes "-rev"

-- A second marker is looked for from the byte behind the first one's dash.
unfoldable pub has_second_marker : Text → Bool
unfolding break_at_text
has_second_marker behind = elim (break_at_text rev_marker (codes "rev" ++ behind)) [
  | none ↦ false
  | some _ ↦ true
]

unfoldable pub base_parts : Text → Option PackageVersionParts
unfolding parse_numeric_dotted
base_parts base =
    if parse_numeric_dotted base then some (record { base = base; revision = none }) else none

unfoldable pub revised_parts : Text → Text → Option PackageVersionParts
unfolding has_second_marker parse_numeric_dotted parse_revision
revised_parts base behind =
    if has_second_marker behind
    then none
    else if not (parse_numeric_dotted base)
    then none
    else if parse_revision behind
    then some (record { base = base; revision = some behind })
    else none

unfoldable pub parse_package_version : Text → Option PackageVersionParts
unfolding base_parts revised_parts break_at_text
parse_package_version release =
    if is_nil release
    then none
    else if leb max_identifier_len (length release)
    then none
    else elim (break_at_text rev_marker release) [
      | none ↦ base_parts release
      | some (base, behind) ↦ revised_parts base behind
    ]

unfoldable pub package_release_validate_concrete : Text → Result (Unit {0})
unfolding parse_package_version
package_release_validate_concrete release =
    if is_nil release
    then err invalid_input
    else if leb max_identifier_len (length release)
    then err buffer_too_small
    else elim (parse_package_version release) [ none ↦ err invalid_release | some _ ↦ ok tt ]

-- `while (length > 1 && *text == '0')`
unfoldable pub skip_zeros : Text → Text
skip_zeros [] = []
skip_zeros (c ∷ []) = c ∷ []
skip_zeros (c ∷ d ∷ cs) = if c == b'0' then skip_zeros (d ∷ cs) else c ∷ d ∷ cs

-- `memcmp` is reached at texts of one length.
unfoldable pub compare_by_length : Text → Text → Ordering
unfolding strcmp
compare_by_length left right = elim (compare (length left) (length right)) [
  | Ordering.lt ↦ Ordering.lt
  | Ordering.eq ↦ strcmp left right
  | Ordering.gt ↦ Ordering.gt
]

-- The sign that the source returns as -1, 0 or 1.
unfoldable pub compare_numeric_text : Text → Text → Ordering
unfolding skip_zeros compare_by_length
compare_numeric_text left right = compare_by_length (skip_zeros left) (skip_zeros right)

-- The two cursors of `compare_base_versions`, one segment a round.
unfoldable pub compare_segments : List Text → List Text → Ordering
unfolding compare_numeric_text
compare_segments [] [] = Ordering.eq
compare_segments [] (r ∷ rs) = Ordering.lt
compare_segments (l ∷ ls) [] = Ordering.gt
compare_segments (l ∷ ls) (r ∷ rs) = elim (compare_numeric_text l r) [
  | Ordering.lt ↦ Ordering.lt
  | Ordering.eq ↦ compare_segments ls rs
  | Ordering.gt ↦ Ordering.gt
]

unfoldable pub compare_base_versions : Text → Text → Ordering
unfolding compare_segments split_on
compare_base_versions left right = compare_segments (split_on b'.' left) (split_on b'.' right)

-- No revision stands before every revision.
unfoldable pub compare_revisions : Option Text → Option Text → Ordering
unfolding compare_numeric_text
compare_revisions none none = Ordering.eq
compare_revisions none (some r) = Ordering.lt
compare_revisions (some l) none = Ordering.gt
compare_revisions (some l) (some r) = compare_numeric_text l r

unfoldable pub compare_parts : PackageVersionParts → PackageVersionParts → Ordering
unfolding compare_base_versions compare_revisions
compare_parts left right = elim (compare_base_versions left.base right.base) [
  | Ordering.lt ↦ Ordering.lt
  | Ordering.eq ↦ compare_revisions left.revision right.revision
  | Ordering.gt ↦ Ordering.gt
]

unfoldable pub package_release_compare : Text → Text → Result Ordering
unfolding parse_package_version compare_parts
package_release_compare left right =
    if is_nil left || is_nil right then err invalid_input else elim (parse_package_version left) [
      | none ↦ err invalid_release
      | some l ↦ elim (parse_package_version right) [
        | none ↦ err invalid_release
        | some r ↦ ok (compare_parts l r)
      ]
    ]

unfoldable pub package_release_base : Text → ℕ → Result Text
unfolding parse_package_version
package_release_base release base_size =
    if base_size == 0 || is_nil release
    then err invalid_input
    else elim (parse_package_version release) [
      | none ↦ err invalid_release
      | some parts ↦
          if leb base_size (length parts.base) then err buffer_too_small else ok parts.base
    ]

-- The tool and the release, of a text with one `@` that has something on both sides.
unfoldable pub two_parts : Text × Option Text → ℕ → ℕ → Result (Text × Text)
unfolding break_at
two_parts (tool, none) tool_size release_size = err invalid_input
two_parts (tool, some release) tool_size release_size =
    if is_nil tool
      || is_nil release
      || elim (break_at b'@' release).1 [ none ↦ false | some _ ↦ true ]
    then err invalid_input
    else if leb tool_size (length tool) || leb release_size (length release)
    then err buffer_too_small
    else ok (tool, release)

unfoldable pub package_selector_parse_parts : Text → ℕ → ℕ → Result (Text × Text)
unfolding two_parts break_at
package_selector_parse_parts text tool_size release_size =
    if is_nil text || tool_size == 0 || release_size == 0
    then err invalid_input
    else if leb max_selector_len (length text)
    then err buffer_too_small
    else two_parts (break_at b'@' text) tool_size release_size

-- `selector_init` turns a failed test of the tool into its own code.
unfoldable pub tool_error : CupError → CupError
tool_error validation = invalid_tool
tool_error e = e

unfoldable pub check_tool : Text → Result (Unit {0})
unfolding path_validate_canonical_identifier tool_error
check_tool tool = elim (path_validate_canonical_identifier tool max_identifier_len) [
  | ok _ ↦ ok tt
  | err e ↦ err (tool_error e)
]

unfoldable pub check_release : Text → Result (Unit {0})
unfolding package_release_is_stable package_release_validate_concrete
check_release release =
    if package_release_is_stable release then ok tt else package_release_validate_concrete release

unfoldable pub selector_init : Text → Text → Result PackageSelector
unfolding check_tool check_release text_copy
selector_init tool release = if is_nil tool || is_nil release then err invalid_input else do
  check_tool tool
  check_release release
  t ← text_copy max_identifier_len tool
  r ← text_copy max_identifier_len release
  ok (record { tool = t; release = r })

unfoldable pub package_selector_parse : Text → Result PackageSelector
unfolding package_selector_parse_parts selector_init
package_selector_parse text = do
  parts ← package_selector_parse_parts text max_identifier_len max_identifier_len
  selector_init parts.0 parts.1

unfoldable pub package_selector_format_parts : ℕ → Text → Text → Result Text
unfolding text_format
package_selector_format_parts size tool release =
    if size == 0 || is_nil tool || is_nil release
    then err invalid_input
    else text_format size (tool ++ (b'@' ∷ release))
