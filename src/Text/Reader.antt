-- ===== src/Text/Reader.antt =====
-- The document reader of src/text.c, and the `while (1)` loop in which its callers read lines.
use cup.Base.{
  ℕ, zero, suc, ◌+◌, Bool, true, false, not, ◌||◌, Option, none, some, [], ◌∷◌, ltb, leb, ◌==◌,
  if◌then◌else◌, length, is_nil, any, Text, break_at,
}
use cup.Errors.{CupError, Result, ok, err, invalid_input, buffer_too_small, validation, ◌>>=◌}
use cup.Text.{text_trim}

-- `rest` is the data from `offset` on.
pub record TextDocumentReader : Type 0 where
  pub rest : Text
  pub line_number : ℕ

unfoldable pub printable : ℕ → Bool
printable byte = byte == b'\n' || not (ltb byte 0x20 || ltb 0x7e byte)

unfoldable pub ends_with_newline : Text → Bool
ends_with_newline [] = false
ends_with_newline (c ∷ []) = c == b'\n'
ends_with_newline (c ∷ d ∷ cs) = ends_with_newline (d ∷ cs)

unfoldable pub text_document_reader_init : Text → Result TextDocumentReader
unfolding printable ends_with_newline
text_document_reader_init bytes =
    if is_nil bytes
    then err invalid_input
    else if not (ends_with_newline bytes)
    then err validation
    else if any (λ byte. not (printable byte)) bytes
    then err validation
    else ok (record { rest = bytes; line_number = 0 })

-- `has_line` is whether the option holds a line.
unfoldable pub text_document_read_raw_line :
    TextDocumentReader → ℕ → Result (Option Text × TextDocumentReader)
unfolding break_at
text_document_read_raw_line reader size =
    if ltb size 2
    then err invalid_input
    else if is_nil reader.rest
    then ok (none, reader)
    else let (line, behind) = break_at b'\n' reader.rest in
      elim behind [
        | none ↦ err validation
        | some rest ↦
            (if leb size (length line)
              then err buffer_too_small
              else ok (some line, record { rest = rest; line_number = reader.line_number + 1 }))
      ]

unfoldable pub is_skipped : Text → Bool
is_skipped [] = true
is_skipped (c ∷ cs) = c == b'#'

-- What the loop does with a raw line: the line that it returns, or another round.
unfoldable pub accept_line :
    Result (Option Text × TextDocumentReader)
    → (TextDocumentReader → Result (Option Text × TextDocumentReader))
    → Result (Option Text × TextDocumentReader)
unfolding is_skipped text_trim
accept_line (err e) again = err e
accept_line (ok (none, reader)) again = ok (none, reader)
accept_line (ok (some line, reader)) again = elim (is_skipped (text_trim line)) [
  | true ↦ again reader
  | false ↦ ok (some (text_trim line), reader)
]

-- The loop of `text_document_read_line`. Each round takes a newline off `rest`, so its length is
-- more than the rounds needed.
unfoldable pub read_line_loop :
    ℕ → TextDocumentReader → ℕ → Result (Option Text × TextDocumentReader)
unfolding accept_line text_document_read_raw_line
read_line_loop zero reader size = ok (none, reader)
read_line_loop (suc fuel) reader size =
    accept_line (text_document_read_raw_line reader size) (λ next. read_line_loop fuel next size)

unfoldable pub text_document_read_line :
    TextDocumentReader → ℕ → Result (Option Text × TextDocumentReader)
unfolding read_line_loop
text_document_read_line reader size = read_line_loop (suc (length reader.rest)) reader size

-- The loop that a caller writes round `text_document_read_line`: `field` handles one line, with
-- its number, until an error or the end. `failed` is the code that the caller makes of a read error.
module _ {ℓ} {S : Type ℓ} (failed : CupError → CupError) (field : S → ℕ → Text → Result S) where
  unfoldable pub take_line :
      Result (Option Text × TextDocumentReader)
      → S
      → (S → TextDocumentReader → Result (S × TextDocumentReader))
      → Result (S × TextDocumentReader)
  take_line (err e) state again = err (failed e)
  take_line (ok (none, reader)) state again = ok (state, reader)
  take_line (ok (some line, reader)) state again = do
    next ← field state reader.line_number line
    again next reader

  unfoldable pub each_line : ℕ → ℕ → S → TextDocumentReader → Result (S × TextDocumentReader)
  unfolding take_line
  each_line zero size state reader = ok (state, reader)
  each_line (suc fuel) size state reader =
      take_line (text_document_read_line reader size) state
        (λ next rest. each_line fuel size next rest)
