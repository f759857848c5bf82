-- ===== src/Text/Skips.antt =====
-- What `text_document_read_line` passes over, and what it returns (src/text.c).
use cup.Base.{
  ℕ, ◌+◌, ◌≤◌, ◌<◌, true, false, not, none, some, List, [], ◌∷◌, ◌++◌, ◌≡◌, refl, ap, ◌∙◌, arith,
  ◌==◌, leb, if◌then◌else◌, length, is_nil, all, Text, All,
}
use mathlib.Core.List.{append_assoc}
use cup.Errors.{ok, err, validation, buffer_too_small}
use cup.Text.{text_trim}
use cup.Text.Reader.{
  TextDocumentReader, text_document_read_raw_line, is_skipped, accept_line, text_document_read_line,
}
use cup.Text.ReadLine.{text_document_read_line-accept_line}
use cup.Text.Fields.{break_at-found}
use cup.Text.Split.{break_at-absent}
use cup.Text.Trimmed.{
  is_gap, IsContent, IsNoContent, text_trim-content, content-is_skipped, no_content-is_skipped,
}
use cup.Text.Lines.{document, append-ne_nil}

abbrev pub reader_at : Text → ℕ → TextDocumentReader
reader_at rest n = record { rest = rest; line_number = n }

-- No newline in it.
abbrev pub IsOneLine : Text → Type 0
IsOneLine line = all (λ b. not (b == b'\n')) line ≡ true

-- Blank, or a comment behind blanks, and within the buffer.
pub record IsPassedOver (size : ℕ) (line : Text) : Type 0 where
  pub one_line : IsOneLine line
  pub no_content : IsNoContent line
  pub fits : length line < size

read_raw_line-line :
    (line more : Text) (n size : ℕ)
    → 2 ≤ size
    → IsOneLine line
    → text_document_read_raw_line (reader_at (line ++ (b'\n' ∷ more)) n) size ≡ (
        if leb size (length line)
        then err buffer_too_small
        else ok (some line, reader_at more (n + 1)))
unfolding text_document_read_raw_line
read_raw_line-line line more n size k one =
    ground (arith, append-ne_nil line b'\n' more, break_at-found b'\n' line more one)

read_line-passed_over :
    (line more : Text) (n size : ℕ)
    → 2 ≤ size
    → IsPassedOver size line
    → text_document_read_line (reader_at (line ++ (b'\n' ∷ more)) n) size
      ≡ text_document_read_line (reader_at more (n + 1)) size
unfolding accept_line
read_line-passed_over line more n size k p =
    text_document_read_line-accept_line (reader_at (line ++ (b'\n' ∷ more)) n) size
    ∙ ground (
      arith,
      read_raw_line-line line more n size k p.one_line,
      no_content-is_skipped line p.no_content,
      p.fits,
    )

read_line-passed_over_lines :
    (skipped : List Text) (more : Text) (n size : ℕ)
    → 2 ≤ size
    → All (IsPassedOver size) skipped
    → text_document_read_line (reader_at (document skipped ++ more) n) size
      ≡ text_document_read_line (reader_at more (n + length skipped)) size
read_line-passed_over_lines [] more n size k p =
    ap (λ m. text_document_read_line (reader_at more m) size) (omega arith)
read_line-passed_over_lines (line ∷ skipped) more n size k p =
    ap (λ t. text_document_read_line (reader_at t n) size)
      (append_assoc line (b'\n' ∷ document skipped) more)
    ∙ read_line-passed_over line (document skipped ++ more) n size k p.0
    ∙ read_line-passed_over_lines skipped more (n + 1) size k p.1
    ∙ ap (λ m. text_document_read_line (reader_at more m) size) (omega arith)

read_line-content :
    (line more : Text) (n size : ℕ)
    → 2 ≤ size
    → IsOneLine line
    → is_skipped (text_trim line) ≡ false
    → text_document_read_line (reader_at (line ++ (b'\n' ∷ more)) n) size ≡ (
        if leb size (length line)
        then err buffer_too_small
        else ok (some (text_trim line), reader_at more (n + 1)))
unfolding accept_line
read_line-content line more n size k one c =
    text_document_read_line-accept_line (reader_at (line ++ (b'\n' ∷ more)) n) size
    ∙ ground (arith, read_raw_line-line line more n size k one, c)

read_line-cut :
    (line : Text) (n size : ℕ)
    → 2 ≤ size
    → IsOneLine line
    → text_document_read_line (reader_at line n) size
      ≡ (if is_nil line then ok (none, reader_at [] n) else err validation)
unfolding accept_line text_document_read_raw_line
read_line-cut [] n size k one =
    text_document_read_line-accept_line (reader_at [] n) size ∙ ground arith
read_line-cut (c ∷ line) n size k one =
    text_document_read_line-accept_line (reader_at (c ∷ line) n) size
    ∙ ground (arith, break_at-absent b'\n' (c ∷ line) one)

-- The line as it stands in the file: the content with gaps round it.
abbrev pub with_gaps : Text → Text → Text → Text
with_gaps before content after = before ++ (content ++ after)

with_gaps-ne_nil :
    (before content after : Text)
    → IsContent content
    → is_nil (with_gaps before content after) ≡ false
with_gaps-ne_nil [] [] after c = absurd (ground (arith, c.starts))
with_gaps-ne_nil [] (x ∷ xs) after c = refl
with_gaps-ne_nil (b ∷ before) content after c = refl

-- In a buffer of two bytes at least, behind any number of lines that fit it and hold only spaces
-- and tabs, or a # behind spaces and tabs: a line of a content, which neither begins nor ends
-- with a space or a tab nor begins with a #, with spaces and tabs round it, makes
-- text_document_read_line return the content and stand behind the line, with every line counted,
-- or answer CUP_ERR_BUFFER_TOO_SMALL where the line does not fit; the end of the data makes it
-- return no line; and such a line without its newline makes it answer CUP_ERR_VALIDATION.
pub text_document_read_line-document :
    (skipped : List Text) (before content after more : Text) (n size : ℕ)
    → 2 ≤ size
    → All (IsPassedOver size) skipped
    → all is_gap before ≡ true
    → IsContent content
    → all is_gap after ≡ true
    → IsOneLine (with_gaps before content after)
    → (text_document_read_line
          (reader_at (document skipped ++ (with_gaps before content after ++ (b'\n' ∷ more))) n)
          size
        ≡ (if leb size (length (with_gaps before content after))
            then err buffer_too_small
            else ok (some content, reader_at more (n + length skipped + 1))))
      × (text_document_read_line (reader_at (document skipped ++ []) n) size
          ≡ ok (none, reader_at [] (n + length skipped)))
      × (text_document_read_line
            (reader_at (document skipped ++ with_gaps before content after) n)
            size
          ≡ err validation)
text_document_read_line-document skipped before content after more n size k p b c a one =
    let line = with_gaps before content after in
    let trimmed = text_trim-content before content after b c a in
    (
      read_line-passed_over_lines skipped (line ++ (b'\n' ∷ more)) n size k p
          ∙ read_line-content line more (n + length skipped) size k one
              (rw trimmed (content-is_skipped content c))
          ∙ rw trimmed refl,
      read_line-passed_over_lines skipped [] n size k p
          ∙ read_line-cut [] (n + length skipped) size k refl,
      read_line-passed_over_lines skipped line n size k p
          ∙ read_line-cut line (n + length skipped) size k one
          ∙ ground (arith, with_gaps-ne_nil before content after c),
    )
