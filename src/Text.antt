-- ===== src/Text.antt =====
-- src/text.c: inspection, trimming, bounded copies, exact splitting, numbers and key=value lines.
-- A pointer that the source tests for NULL is a value here, so those tests have nothing to do. A
-- caller's buffer is its capacity; what a failed call leaves in it is not observed.
pub mod Reader
pub mod Decimal
pub mod ReadLine
pub mod EachLine
pub mod Fields
pub mod Lines
pub mod Trimmed
pub mod Skips
pub mod Split
use cup.Base.{
  zero, ◌++◌, ◌%◌, ℕ, suc, ◌+◌, ◌-◌, ◌*◌, ◌/◌, Bool, true, false, not, ◌&&◌, ◌||◌, Option, none,
  some, List, [], ◌∷◌, map, ltb, leb, ◌==◌, if◌then◌else◌, length, is_nil, Text, break_at,
}
use cup.Errors.{Result, ok, err, invalid_input, buffer_too_small, ◌>>=◌}

-- `text_is_empty`
abbrev pub text_is_empty : Text → Bool
text_is_empty = is_nil

unfoldable pub is_blank : ℕ → Bool
is_blank c = c == b' ' || c == b'\t'

unfoldable pub skip_blanks : Text → Text
unfolding is_blank
skip_blanks [] = []
skip_blanks (c ∷ cs) = if is_blank c then skip_blanks cs else c ∷ cs

-- The second loop of `text_trim` over what follows the first character.
unfoldable pub drop_blank_end : Text → Text
unfolding is_blank
drop_blank_end [] = []
drop_blank_end (c ∷ cs) =
    let kept = drop_blank_end cs in if is_nil kept && is_blank c then [] else c ∷ kept

-- `end > text`: the first character stays.
unfoldable pub keep_first : Text → Text
unfolding drop_blank_end
keep_first [] = []
keep_first (c ∷ cs) = c ∷ drop_blank_end cs

unfoldable pub text_trim : Text → Text
unfolding skip_blanks keep_first
text_trim text = keep_first (skip_blanks text)

lower : ℕ → ℕ
lower c = if leb b'A' c && leb c b'Z' then c + (b'a' - b'A') else c

unfoldable pub text_equal_ascii_ignore_case : Text → Text → Bool
unfolding lower
text_equal_ascii_ignore_case [] [] = true
text_equal_ascii_ignore_case (a ∷ left) (b ∷ right) =
    if not (lower a == lower b) then false else text_equal_ascii_ignore_case left right
text_equal_ascii_ignore_case _ _ = false

unfoldable pub text_copy : ℕ → Text → Result Text
text_copy size source =
    if size == 0
    then err invalid_input
    else if leb size (length source)
    then err buffer_too_small
    else ok source

unfoldable pub text_copy_lower_ascii : ℕ → Text → Result Text
unfolding text_copy lower
text_copy_lower_ascii size source = do copied ← text_copy size source; ok (map lower copied)

-- `text_format` with its arguments already written: the bytes, if they fit with the terminator.
unfoldable pub text_format : ℕ → Text → Result Text
text_format size written =
    if size == 0
    then err invalid_input
    else if leb size (length written)
    then err buffer_too_small
    else ok written

-- One field of `text_split_exact`, into a slot of the given capacity.
unfoldable pub take_field : ℕ → Text → Result Text
unfolding text_trim text_copy
take_field capacity part =
    let trimmed = text_trim part in
    if is_nil trimmed
    then err invalid_input
    else if capacity == 0
    then err invalid_input
    else text_copy capacity trimmed

-- The loop; the list is the capacities of the slots that are left.
unfoldable pub split_fields : ℕ → List ℕ → Text → Result (List Text)
unfolding take_field break_at
split_fields separator [] cursor = err invalid_input
split_fields separator (capacity ∷ outputs) cursor =
    let (part, rest) = break_at separator cursor in
    do
      field ← take_field capacity part
      elim rest [
        | none ↦ if is_nil outputs then ok (field ∷ []) else err invalid_input
        | some behind ↦ (do fields ← split_fields separator outputs behind; ok (field ∷ fields))
      ]

unfoldable pub text_split_exact : Text → ℕ → List ℕ → Result (List Text)
unfolding split_fields
text_split_exact input separator outputs =
    if is_nil input || separator == 0 || is_nil outputs
    then err invalid_input
    else split_fields separator outputs input

-- The loop of `text_parse_uint`. No step wraps: the guard keeps `parsed` at `maximum` at most.
unfoldable pub parse_digits : ℕ → ℕ → Text → Option ℕ
parse_digits maximum parsed [] = some parsed
parse_digits maximum parsed (c ∷ cs) =
    let digit = c - b'0' in
    let rest = parse_digits maximum (parsed * 10 + digit) cs in
    if ltb c b'0' || ltb b'9' c
    then none
    else if ltb maximum digit || ltb ((maximum - digit) / 10) parsed
    then none
    else rest

leading_zero : Text → Bool
leading_zero (c ∷ d ∷ cs) = c == b'0'
leading_zero _ = false

unfoldable pub text_parse_uint : Text → ℕ → Option ℕ
unfolding parse_digits leading_zero
text_parse_uint value maximum =
    if is_nil value || leading_zero value then none else parse_digits maximum 0 value

-- `text_parse_key_value`: the trimmed sides of the first `=`.
unfoldable pub text_parse_key_value : Text → ℕ → ℕ → Result (Text × Text)
unfolding break_at text_trim text_copy
text_parse_key_value line key_size value_size =
    if key_size == 0 || value_size == 0
    then err invalid_input
    else let (left, right) = break_at b'=' line in
      elim right [
        | none ↦ err invalid_input
        | some behind ↦
            (let key = text_trim left in
              let value = text_trim behind in
              if is_nil key || is_nil value
              then err invalid_input
              else do k ← text_copy key_size key; v ← text_copy value_size value; ok (k, v))
      ]

-- The digits that `%u` prints. A number has no more digits than its value is plus one.
unfoldable pub digits : ℕ → ℕ → Text
digits zero n = []
digits (suc fuel) n =
    let front = digits fuel (n / 10) in
    if ltb n 10 then (b'0' + n) ∷ [] else front ++ ((b'0' + n % 10) ∷ [])

unfoldable pub decimal : ℕ → Text
unfolding digits
decimal n = digits (suc n) n
