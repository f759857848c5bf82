-- ===== src/Text/Fields.antt =====
-- Reading back one written line, and one written field (src/text.c).
use cup.Base.{
  ℕ, ◌+◌, ◌≤◌, ◌<◌, Bool, true, false, not, ◌&&◌, none, some, [], ◌∷◌, ◌++◌, ◌≡◌, refl, ◌∙◌, arith,
  leb, ◌==◌, length, all, is_nil, Text, break_at,
}
use cup.Errors.{ok}
use cup.Text.{
  text_trim, skip_blanks, keep_first, drop_blank_end, is_blank, text_copy, text_parse_key_value,
}
use cup.Text.Reader.{text_document_read_raw_line, text_document_read_line, is_skipped, accept_line}
use cup.Text.ReadLine.{text_document_read_line-accept_line}

-- A printable byte that is no space.
abbrev pub is_graphic : ℕ → Bool
is_graphic c = leb 0x21 c && leb c 0x7e

pub break_at-found :
    (c : ℕ) (line more : Text)
    → all (λ b. not (b == c)) line ≡ true
    → break_at c (line ++ (c ∷ more)) ≡ (line, some more)
unfolding break_at
break_at-found c [] more h = ground arith
break_at-found c (b ∷ line) more h = ground (arith, break_at-found c line more (ground arith))

drop_blank_end_graphic : (t : Text) → all is_graphic t ≡ true → drop_blank_end t ≡ t
unfolding drop_blank_end is_blank
drop_blank_end_graphic [] h = refl
drop_blank_end_graphic (c ∷ cs) h = ground (arith, drop_blank_end_graphic cs (ground arith))

pub text_trim_graphic : (t : Text) → all is_graphic t ≡ true → text_trim t ≡ t
unfolding text_trim skip_blanks is_blank keep_first
text_trim_graphic [] h = refl
text_trim_graphic (c ∷ cs) h = ground (arith, drop_blank_end_graphic cs (ground arith))

no_newline : (t : Text) → all is_graphic t ≡ true → all (λ b. not (b == b'\n')) t ≡ true
no_newline [] h = refl
no_newline (c ∷ cs) h = ground (arith, no_newline cs (ground arith))

read_raw_line-found :
    (line more : Text) (n size : ℕ)
    → all is_graphic line ≡ true
    → length line < size
    → 2 ≤ size
    → text_document_read_raw_line (record { rest = line ++ (b'\n' ∷ more); line_number = n }) size
      ≡ ok (some line, record { rest = more; line_number = n + 1 })
unfolding text_document_read_raw_line
read_raw_line-found [] more n size g h k = ground (arith, break_at-found b'\n' [] more refl)
read_raw_line-found (c ∷ cs) more n size g h k =
    ground (arith, break_at-found b'\n' (c ∷ cs) more (no_newline (c ∷ cs) g))

-- A written line is read back.
pub read_line-found :
    (line more : Text) (n size : ℕ)
    → all is_graphic line ≡ true
    → is_skipped line ≡ false
    → length line < size
    → 2 ≤ size
    → text_document_read_line (record { rest = line ++ (b'\n' ∷ more); line_number = n }) size
      ≡ ok (some line, record { rest = more; line_number = n + 1 })
unfolding accept_line
read_line-found line more n size g kept h k =
    text_document_read_line-accept_line (record { rest = line ++ (b'\n' ∷ more); line_number = n })
      size
    ∙ ground (arith, read_raw_line-found line more n size g h k, text_trim_graphic line g, kept)

pub read_line-end :
    (n size : ℕ)
    → 2 ≤ size
    → text_document_read_line (record { rest = []; line_number = n }) size
      ≡ ok (none, record { rest = []; line_number = n })
unfolding text_document_read_line
read_line-end n size k = ground arith

-- A written field is read back.
pub parse_key_value-found :
    (key value : Text) (key_size value_size : ℕ)
    → all is_graphic key ≡ true
    → all (λ b. not (b == b'=')) key ≡ true
    → is_nil key ≡ false
    → all is_graphic value ≡ true
    → is_nil value ≡ false
    → length key < key_size
    → length value < value_size
    → text_parse_key_value (key ++ (b'=' ∷ value)) key_size value_size ≡ ok (key, value)
unfolding text_parse_key_value text_copy
parse_key_value-found key value key_size value_size gk e nk gv nv hk hv = ground (
  arith,
  break_at-found b'=' key value e,
  text_trim_graphic key gk,
  text_trim_graphic value gv,
  nk,
  nv,
)
