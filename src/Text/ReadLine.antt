-- ===== src/Text/ReadLine.antt =====
-- The loop of `text_document_read_line` (src/text.c), and what it returns.
use cup.Base.{
  ℕ, zero, suc, ◌+◌, ◌≤◌, ◌<◌, false, Option, none, some, [], ◌∷◌, ◌≡◌, refl, inl, inr, arith,
  length, Text, break_at, Bool-cases, Option-cases,
}
use cup.Errors.{Result, ok, err}
use cup.Text.{text_trim, skip_blanks, keep_first, drop_blank_end}
use cup.Text.Reader.{
  TextDocumentReader, text_document_read_raw_line, is_skipped, accept_line, read_line_loop,
  text_document_read_line,
}

skip_blanks-le : (t : Text) → length (skip_blanks t) ≤ length t
unfolding skip_blanks
skip_blanks-le [] = omega arith
skip_blanks-le (c ∷ cs) = ground (arith, skip_blanks-le cs)

drop_blank_end-le : (t : Text) → length (drop_blank_end t) ≤ length t
unfolding drop_blank_end
drop_blank_end-le [] = omega arith
drop_blank_end-le (c ∷ cs) = ground (arith, drop_blank_end-le cs)

keep_first-le : (t : Text) → length (keep_first t) ≤ length t
unfolding keep_first
keep_first-le [] = omega arith
keep_first-le (c ∷ cs) = omega (arith, drop_blank_end-le cs)

pub text_trim-le : (t : Text) → length (text_trim t) ≤ length t
unfolding text_trim
text_trim-le t = omega (arith, keep_first-le (skip_blanks t), skip_blanks-le t)

-- The bytes that a break leaves behind its separator, and the separator.
abbrev behind : Option Text → ℕ
behind none = 0
behind (some rest) = length rest + 1

break_at-length : (c : ℕ) (t : Text) → length (break_at c t).0 + behind (break_at c t).1 ≡ length t
unfolding break_at
break_at-length c [] = refl
break_at-length c (d ∷ t) = ground (arith, break_at-length c t)

-- A raw line fits the buffer, and the reader moves past its newline.
read_raw_line-some :
    (reader next : TextDocumentReader) (size : ℕ) (line : Text)
    → text_document_read_raw_line reader size ≡ ok (some line, next)
    → (length line < size) × (length next.rest < length reader.rest)
unfolding text_document_read_raw_line
read_raw_line-some reader next size line h = elim (Option-cases (break_at b'\n' reader.rest).1) [
  | inl missing ↦ absurd (ground (arith, missing))
  | inr (rest, found) ↦ ground (arith, found, break_at-length b'\n' reader.rest)
]

abbrev Read : Type 0
Read = Result (Option Text × TextDocumentReader)

-- A round depends on the later ones only at the reader behind its own line.
accept_line-same :
    (r : Read) (f g : TextDocumentReader → Read)
    → ((line : Text) (next : TextDocumentReader) → r ≡ ok (some line, next) → f next ≡ g next)
    → accept_line r f ≡ accept_line r g
unfolding accept_line
accept_line-same (err e) f g h = refl
accept_line-same (ok (none, next)) f g h = refl
accept_line-same (ok (some line, next)) f g h = ground (arith, h line next refl)

-- Rounds beyond the length of the data change nothing.
read_line_loop-fuel :
    (fuel more size : ℕ) (reader : TextDocumentReader)
    → length reader.rest < fuel
    → length reader.rest < more
    → read_line_loop fuel reader size ≡ read_line_loop more reader size
unfolding read_line_loop
read_line_loop-fuel zero more size reader h k = absurd (omega arith)
read_line_loop-fuel (suc fuel) zero size reader h k = absurd (omega arith)
read_line_loop-fuel (suc fuel) (suc more) size reader h k =
    accept_line-same (text_document_read_raw_line reader size)
      (λ next. read_line_loop fuel next size) (λ next. read_line_loop more next size)
      (λ line next m.
        let shorter = (read_raw_line-some reader next size line m).1 in
        read_line_loop-fuel fuel more size next (omega arith) (omega arith))

-- The call is one round, and the whole call again behind a line that is skipped: the rounds given
-- are enough.
pub text_document_read_line-accept_line :
    (reader : TextDocumentReader) (size : ℕ)
    → text_document_read_line reader size
      ≡ accept_line
          (text_document_read_raw_line reader size)
          (λ next. text_document_read_line next size)
unfolding text_document_read_line read_line_loop
text_document_read_line-accept_line reader size =
    accept_line-same (text_document_read_raw_line reader size)
      (λ next. read_line_loop (length reader.rest) next size)
      (λ next. read_line_loop (suc (length next.rest)) next size)
      (λ line next m.
        read_line_loop-fuel (length reader.rest) (suc (length next.rest)) size next
          (read_raw_line-some reader next size line m).1 (omega arith))

-- What every line that a caller gets satisfies.
pub record IsLine (reader : TextDocumentReader) (size : ℕ) (line : Text) (next : TextDocumentReader)
    : Type 0 where
  pub counts : is_skipped line ≡ false
  pub fits : length line < size
  pub moves : length next.rest < length reader.rest

accept_line-IsLine :
    (reader next : TextDocumentReader) (size : ℕ) (line : Text) (r : Read)
    (again : TextDocumentReader → Read)
    → ((raw : Text) (after : TextDocumentReader)
        → r ≡ ok (some raw, after)
        → (length raw < size) × (length after.rest < length reader.rest))
    → ((after : TextDocumentReader)
        → again after ≡ ok (some line, next)
        → IsLine after size line next)
    → accept_line r again ≡ ok (some line, next)
    → IsLine reader size line next
unfolding accept_line
accept_line-IsLine reader next size line (err e) again raw later h = absurd (ground arith)
accept_line-IsLine reader next size line (ok (none, after)) again raw later h =
    absurd (ground arith)
accept_line-IsLine reader next size line (ok (some t, after)) again raw later h =
    let (short, shorter) = raw t after refl in
    elim (Bool-cases (is_skipped (text_trim t))) [
      | inl skipped ↦
          (let l = later after (ground arith) in
            record { counts = l.counts; fits = l.fits; moves = omega (arith, l.moves) })
      | inr kept ↦
          (let e : (text_trim t ≡ line) × (after ≡ next) = ground arith in
            record {
              counts = ground arith;
              fits = ground (arith, text_trim-le t);
              moves = ground arith;
            })
    ]

read_line_loop-IsLine :
    (fuel size : ℕ) (reader next : TextDocumentReader) (line : Text)
    → read_line_loop fuel reader size ≡ ok (some line, next)
    → IsLine reader size line next
unfolding read_line_loop
read_line_loop-IsLine zero size reader next line h = absurd (ground arith)
read_line_loop-IsLine (suc fuel) size reader next line h =
    accept_line-IsLine reader next size line (text_document_read_raw_line reader size)
      (λ after. read_line_loop fuel after size)
      (λ raw after. read_raw_line-some reader after size raw)
      (λ after. read_line_loop-IsLine fuel size after next line) h

-- A line that text_document_read_line returns is not empty and no comment, it is shorter than
-- the buffer, and the reader has moved on.
pub text_document_read_line-IsLine :
    (reader next : TextDocumentReader) (size : ℕ) (line : Text)
    → text_document_read_line reader size ≡ ok (some line, next)
    → IsLine reader size line next
unfolding text_document_read_line
text_document_read_line-IsLine reader next size line h =
    read_line_loop-IsLine (suc (length reader.rest)) size reader next line h
