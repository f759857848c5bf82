-- ===== src/Tests/TextRuns.antt =====
-- Runs of src/text.c, src/path.c and src/exit_status.c, and the theorems on them at those inputs.
use cup.Base.{
  List, none, arith, leb, if◌then◌else◌, true, some, [], ◌++◌, ◌∷◌, ◌≡◌, refl, ◌↔◌, ◌⊎◌, ◌≤◌, all,
  All, Text, codes, split_on, text_eq,
}
use cup.Errors.{
  ok, err, buffer_too_small, validation, Result, cup_ok, already_installed, not_installed,
  exit_status_from_error, status_success,
}
use cup.Errors.Status.{exit_status_from_error-status_success}
use cup.Path.{path_is_safe_segment, path_is_safe_relative}
use cup.Path.Relative.{
  IsPlainSegment, path_is_safe_relative-split_on, path_is_safe_relative-IsPlainSegment,
}
use cup.Selector.{is_number}
use cup.Selector.Numbers.{number_value}
use cup.Text.{text_parse_uint}
use cup.Text.Decimal.{text_parse_uint-eq_some}
use cup.Text.Lines.{document as joined}
use cup.Text.Reader.{TextDocumentReader, text_document_read_line}
use cup.Text.ReadLine.{IsLine, text_document_read_line-IsLine}
use cup.Text.Skips.{IsPassedOver, reader_at, text_document_read_line-document}
use cup.Text.Trimmed.{only_gaps, comment_line}

text_parse_uint-eq_some_example :
    (text_parse_uint (codes "407") 999 ≡ some 407)
    ↔ ((is_number (codes "407") ≡ true) × (number_value (codes "407") ≡ 407) × (407 ≤ 999))
text_parse_uint-eq_some_example = text_parse_uint-eq_some (codes "407") 999 407

abbrev tool_path : Text
tool_path = codes "bin/x86_64/gcc"

tool_path_safe : path_is_safe_relative tool_path ≡ true
unfolding path_is_safe_relative text_eq
tool_path_safe = refl

path_is_safe_relative-split_on_example :
    path_is_safe_relative tool_path ≡ all path_is_safe_segment (split_on b'/' tool_path)
path_is_safe_relative-split_on_example = path_is_safe_relative-split_on tool_path

path_is_safe_relative-IsPlainSegment_example : All IsPlainSegment (split_on b'/' tool_path)
path_is_safe_relative-IsPlainSegment_example =
    path_is_safe_relative-IsPlainSegment tool_path tool_path_safe

exit_status_from_error-status_success_example :
    (exit_status_from_error not_installed ≡ status_success)
    ↔ ((not_installed ≡ cup_ok) ⊎ (not_installed ≡ already_installed))
exit_status_from_error-status_success_example = exit_status_from_error-status_success not_installed

-- A comment, a blank line, and a line with blanks round it.
abbrev document : TextDocumentReader
document = record {
  rest = codes "# note" ++ (b'\n' ∷ b' ' ∷ b'\n' ∷ (codes "  a=b " ++ (b'\n' ∷ [])));
  line_number = 0;
}

abbrev at_end : TextDocumentReader
at_end = record { rest = []; line_number = 3 }

document_line : text_document_read_line document 16 ≡ Result.ok (some (codes "a=b"), at_end)
unfolding text_document_read_line
document_line = refl

abbrev passed_over : List Text
passed_over = codes "  # note" ∷ codes " " ∷ []

passed_over-IsPassedOver : All (IsPassedOver 16) passed_over
passed_over-IsPassedOver = (
  record {
    one_line = refl;
    no_content = comment_line (codes "  ") (codes " note") refl refl;
    fits = omega arith;
  },
  (record { one_line = refl; no_content = only_gaps refl; fits = omega arith }, tt),
)

text_document_read_line-document_example :
    (text_document_read_line
        (reader_at (joined passed_over ++ (codes " a=b " ++ (b'\n' ∷ codes "c"))) 4)
        16
      ≡ (if leb 16 5
          then err buffer_too_small
          else ok (some (codes "a=b"), reader_at (codes "c") 7)))
    × (text_document_read_line (reader_at (joined passed_over ++ []) 4) 16
        ≡ ok (none, reader_at [] 6))
    × (text_document_read_line (reader_at (joined passed_over ++ codes " a=b ") 4) 16
        ≡ err validation)
text_document_read_line-document_example =
    text_document_read_line-document passed_over (codes " ") (codes "a=b") (codes " ") (codes "c") 4
      16 (omega arith) passed_over-IsPassedOver refl (record { starts = refl; ends = refl }) refl
      refl

text_document_read_line-IsLine_example : IsLine document 16 (codes "a=b") at_end
text_document_read_line-IsLine_example =
    text_document_read_line-IsLine document at_end 16 (codes "a=b") document_line
