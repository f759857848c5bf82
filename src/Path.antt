-- ===== src/Path.antt =====
-- src/path.c, in its POSIX build: paths stay as they are written, and `/` is the only separator.
pub mod Relative
use cup.Base.{
  ℕ, ◌+◌, ◌-◌, Bool, true, false, not, ◌&&◌, ◌||◌, Option, none, some, List, [], ◌∷◌, ◌++◌, ltb,
  leb, ◌==◌, if◌then◌else◌, length, is_nil, any, all, Text, codes, text_eq, break_at, strip_prefix,
}
use cup.Errors.{Result, ok, err, invalid_input, buffer_too_small, validation, ◌>>=◌}
use cup.Text.{text_copy, text_format}

abbrev pub max_path_segment_len : ℕ
max_path_segment_len = 256

abbrev pub max_path_len : ℕ
max_path_len = 1024

unfoldable pub ascii_is_alpha : ℕ → Bool
ascii_is_alpha c = (leb b'A' c && leb c b'Z') || (leb b'a' c && leb c b'z')

unfoldable pub ascii_is_digit : ℕ → Bool
ascii_is_digit c = leb b'0' c && leb c b'9'

unfoldable pub ascii_is_alnum : ℕ → Bool
unfolding ascii_is_alpha ascii_is_digit
ascii_is_alnum c = ascii_is_alpha c || ascii_is_digit c

unfoldable pub ascii_lower : ℕ → ℕ
ascii_lower c = if leb b'A' c && leb c b'Z' then c + (b'a' - b'A') else c

unfoldable pub path_normalize : Text → Result Text
path_normalize path = if is_nil path then err invalid_input else ok path

unfoldable pub path_equal : Text → Text → Bool
unfolding text_eq
path_equal left right = text_eq left right

unfoldable pub path_join : ℕ → Text → Text → Result Text
unfolding text_format path_normalize
path_join size parent child =
    if size == 0 || is_nil parent || is_nil child
    then err invalid_input
    else do joined ← text_format size (parent ++ (b'/' ∷ child)); path_normalize joined

-- `strrchr(path, '/')`: what stands before the last slash, and behind it.
unfoldable pub break_last_slash : Text → Option (Text × Text)
break_last_slash [] = none
break_last_slash (c ∷ cs) = elim (break_last_slash cs) [
  | some (before, behind) ↦ some (c ∷ before, behind)
  | none ↦ if c == b'/' then some ([], cs) else none
]

unfoldable pub path_last_segment : Text → Text
unfolding break_last_slash
path_last_segment path = elim (break_last_slash path) [ none ↦ path | some (_, behind) ↦ behind ]

-- A slash in front stays: it is the root.
parent_of : ℕ → Option (Text × Text) → Result Text
parent_of size none = text_copy size (codes ".")
parent_of size (some ([], _)) = ok (codes "/")
parent_of size (some (c ∷ before, _)) = ok (c ∷ before)

unfoldable pub path_parent : ℕ → Text → Result Text
unfolding break_last_slash parent_of path_normalize text_copy
path_parent size path = if is_nil path || size == 0 then err invalid_input else do
  copied ← (elim (text_copy size path) [ ok p ↦ ok p | err _ ↦ err buffer_too_small ])
  normal ← path_normalize copied
  parent_of size (break_last_slash normal)

unfoldable pub equals_ignore_case : Text → Text → Bool
unfolding ascii_lower
equals_ignore_case [] [] = true
equals_ignore_case (a ∷ left) (b ∷ right) =
    ascii_lower a == ascii_lower b && equals_ignore_case left right
equals_ignore_case _ _ = false

abbrev reserved : List Text
reserved =
    codes "con"
    ∷ codes "prn"
    ∷ codes "aux"
    ∷ codes "nul"
    ∷ codes "com1"
    ∷ codes "com2"
    ∷ codes "com3"
    ∷ codes "com4"
    ∷ codes "com5"
    ∷ codes "com6"
    ∷ codes "com7"
    ∷ codes "com8"
    ∷ codes "com9"
    ∷ codes "lpt1"
    ∷ codes "lpt2"
    ∷ codes "lpt3"
    ∷ codes "lpt4"
    ∷ codes "lpt5"
    ∷ codes "lpt6"
    ∷ codes "lpt7"
    ∷ codes "lpt8"
    ∷ codes "lpt9"
    ∷ []

-- What stands before the first dot is a device name, whatever its case.
unfoldable pub is_windows_reserved_name : Text → Bool
unfolding break_at equals_ignore_case
is_windows_reserved_name value =
    let base = (break_at b'.' value).0 in
    not (is_nil value)
    && any (λ name. length name == length base && equals_ignore_case base name) reserved

unfoldable pub is_segment_byte : ℕ → Bool
is_segment_byte c = not (
    ltb c 0x21
    || ltb 0x7e c
    || c == b'/'
    || c == b'\\'
    || c == b':'
    || c == b'*'
    || c == b'?'
    || c == b'"'
    || c == b'<'
    || c == b'>'
    || c == b'|')

unfoldable pub last_byte : Text → ℕ
last_byte [] = 0
last_byte (c ∷ []) = c
last_byte (c ∷ d ∷ cs) = last_byte (d ∷ cs)

unfoldable pub path_is_safe_segment : Text → Bool
unfolding is_windows_reserved_name is_segment_byte last_byte
path_is_safe_segment value =
    if is_nil value
    then false
    else if leb max_path_segment_len (length value)
        || text_eq value (codes ".")
        || text_eq value (codes "..")
    then false
    else if not (all is_segment_byte value)
    then false
    else if last_byte value == b'.' || last_byte value == b' '
    then false
    else not (is_windows_reserved_name value)

unfoldable pub is_identifier_byte : ℕ → Bool
unfolding ascii_is_alnum
is_identifier_byte c = ascii_is_alnum c || c == b'.' || c == b'_' || c == b'+' || c == b'-'

starts_alnum : Text → Bool
starts_alnum [] = false
starts_alnum (c ∷ cs) = ascii_is_alnum c

unfoldable pub path_is_safe_identifier : Text → Bool
unfolding path_is_safe_segment is_identifier_byte starts_alnum
path_is_safe_identifier value =
    if not (path_is_safe_segment value) || not (starts_alnum value)
    then false
    else all is_identifier_byte value

-- What follows `<prefix>-` in `name`.
suffix_of : Option Text → Option Text
suffix_of (some (d ∷ c ∷ cs)) = if d == b'-' then some (c ∷ cs) else none
suffix_of _ = none

unfoldable pub path_generated_temp_suffix : Text → Text → Option Text
unfolding path_is_safe_segment suffix_of strip_prefix
path_generated_temp_suffix name prefix =
    if not (path_is_safe_segment name) || not (path_is_safe_segment prefix)
    then none
    else suffix_of (strip_prefix prefix name)

unfoldable pub is_upper : ℕ → Bool
is_upper c = leb b'A' c && leb c b'Z'

unfoldable pub path_is_canonical_identifier : Text → Bool
unfolding path_is_safe_identifier is_upper
path_is_canonical_identifier value =
    path_is_safe_identifier value && all (λ c. not (is_upper c)) value

unfoldable pub path_validate_canonical_identifier : Text → ℕ → Result (Unit {0})
unfolding path_is_canonical_identifier
path_validate_canonical_identifier value capacity =
    if is_nil value || capacity == 0
    then err invalid_input
    else if leb capacity (length value)
    then err buffer_too_small
    else if path_is_canonical_identifier value
    then ok tt
    else err validation

-- The test at the end of one segment.
unfoldable pub segment_ends_well : Text → Bool
unfolding path_is_safe_segment
segment_ends_well segment =
    not (is_nil segment)
    && ltb (length segment) max_path_segment_len
    && path_is_safe_segment segment

-- The loop of `path_is_safe_relative`; `segment` runs from the start of the segment to the cursor.
unfoldable pub safe_relative_from : Text → Text → Bool
unfolding segment_ends_well
safe_relative_from segment [] = segment_ends_well segment
safe_relative_from segment (c ∷ cs) =
    let next = safe_relative_from [] cs in
    let longer = safe_relative_from (segment ++ (c ∷ [])) cs in
    if c == b'/' then segment_ends_well segment && next else longer

unfoldable pub path_is_safe_relative : Text → Bool
unfolding safe_relative_from
path_is_safe_relative path = if is_nil path then false else safe_relative_from [] path

unfoldable pub path_join_safe_relative : ℕ → Text → Text → Result Text
unfolding path_is_safe_relative path_join
path_join_safe_relative size parent child =
    if path_is_safe_relative child then path_join size parent child else err invalid_input
