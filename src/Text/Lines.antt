-- ===== src/Text/Lines.antt =====
-- The loop of the document readers on a text that is written line by line (src/text.c).
use mathlib.Core.List.{append_assoc}
use cup.Base.{
  ℕ, zero, suc, ◌+◌, ◌≤◌, ◌<◌, Bool, true, false, not, List, [], ◌∷◌, ◌++◌, ◌≡◌, refl, ap, sym, ◌∙◌,
  arith, ◌==◌, length, length-append, all, any, is_nil, Text, All,
}
use cup.Errors.{bind-eq_ok, CupError, Result, ok, err, ◌>>=◌}
use cup.Text.Reader.{
  TextDocumentReader, text_document_reader_init, ends_with_newline, printable, is_skipped,
  take_line, each_line,
}
use cup.Text.Fields.{is_graphic, read_line-found, read_line-end}

-- The lines, each with its newline.
abbrev pub document : List Text → Text
document [] = []
document (line ∷ lines) = line ++ (b'\n' ∷ document lines)

pub document-append :
    (lines more : List Text) → document (lines ++ more) ≡ document lines ++ document more
document-append [] more = refl
document-append (line ∷ lines) more =
    rw (document-append lines more)
      (sym (append_assoc line (b'\n' ∷ document lines) (document more)))

-- A line that the reader returns as it was written.
pub record IsLine (size : ℕ) (line : Text) : Type 0 where
  pub graphic : all is_graphic line ≡ true
  pub counts : is_skipped line ≡ false
  pub fits : length line < size

pub all_append :
    (p : ℕ → Bool) (s t : Text) → all p s ≡ true → all p t ≡ true → all p (s ++ t) ≡ true
all_append p [] t h k = k
all_append p (c ∷ s) t h k = ground (arith, all_append p s t (ground arith) k)

module _ {ℓ} {S : Type ℓ} (failed : CupError → CupError) (field : S → ℕ → Text → Result S) where
  -- `field` on the lines behind line `n`, first to last.
  unfoldable pub visit_lines : ℕ → S → List Text → Result S
  visit_lines n s [] = ok s
  visit_lines n s (line ∷ lines) = do next ← field s (n + 1) line; visit_lines (n + 1) next lines

  pub visit_lines-append :
      (lines more : List Text) (n : ℕ) (s t : S)
      → visit_lines n s lines ≡ ok t
      → visit_lines n s (lines ++ more) ≡ visit_lines (n + length lines) t more
  unfolding visit_lines
  visit_lines-append [] more n s t h = ground (arith, h)
  visit_lines-append (line ∷ lines) more n s t h =
      let (next, step, rest) = bind-eq_ok (field s (n + 1) line) _ h in
      rw step (
        visit_lines-append lines more (n + 1) next t rest
        ∙ ap (λ m. visit_lines m t more) (omega arith))

  -- The reader behind the last line.
  abbrev pub at_end : ℕ → S → Result (S × TextDocumentReader)
  at_end n s = ok (s, record { rest = []; line_number = n })

  bind_step :
      (r : Result S) (f : S → Result (S × TextDocumentReader)) (lines : List Text) (n m : ℕ)
      → ((next : S) → f next ≡ (visit_lines n next lines >>= at_end m))
      → (r >>= f) ≡ ((r >>= λ next. visit_lines n next lines) >>= at_end m)
  bind_step (err e) f lines n m h = refl
  bind_step (ok next) f lines n m h = h next

  pub each_line-document :
      (size : ℕ) (lines : List Text) (fuel n : ℕ) (s : S)
      → 2 ≤ size
      → All (IsLine size) lines
      → length lines < fuel
      → each_line failed field fuel size s (record { rest = document lines; line_number = n })
        ≡ (visit_lines n s lines >>= at_end (n + length lines))
  unfolding each_line take_line visit_lines
  each_line-document size lines zero n s k fs h = absurd (omega arith)
  each_line-document size [] (suc fuel) n s k fs h =
      rw (read_line-end n size k, take_line) (ap (λ m. at_end m s) (omega arith))
  each_line-document size (line ∷ lines) (suc fuel) n s k fs h =
      let f = fs.0 in
      let later : n + suc (length lines) ≡ n + 1 + length lines = omega arith in
      rw
        (read_line-found line (document lines) n size f.graphic f.counts f.fits k, take_line, later)
        (bind_step (field s (n + 1) line)
          (λ next.
            each_line failed field fuel size next
              (record { rest = document lines; line_number = n + 1 }))
          lines (n + 1) (n + 1 + length lines)
          (λ next. each_line-document size lines fuel (n + 1) next k fs.1 (omega arith)))

pub graphic-space : (c : ℕ) → is_graphic c ≡ true → (c == b' ') ≡ false
graphic-space c h = ground arith

graphic-printable : (c : ℕ) → is_graphic c ≡ true → printable c ≡ true
unfolding printable
graphic-printable c h = ground arith

-- Bytes that are all graphic do not matter to a search for other bytes.
any-graphic :
    (p : ℕ → Bool) (t more : Text)
    → ((c : ℕ) → is_graphic c ≡ true → p c ≡ false)
    → all is_graphic t ≡ true
    → any p (t ++ more) ≡ any p more
any-graphic p [] more out h = refl
any-graphic p (c ∷ t) more out h =
    ground (arith, out c (ground arith), any-graphic p t more out (ground arith))

ends_with_newline-append :
    (t : Text) (c : ℕ) (more : Text)
    → ends_with_newline (t ++ (c ∷ more)) ≡ ends_with_newline (c ∷ more)
unfolding ends_with_newline
ends_with_newline-append [] c more = refl
ends_with_newline-append (b ∷ []) c more = refl
ends_with_newline-append (b ∷ d ∷ t) c more = ends_with_newline-append (d ∷ t) c more

pub document-any :
    (p : ℕ → Bool) (size : ℕ) (lines : List Text)
    → ((c : ℕ) → is_graphic c ≡ true → p c ≡ false)
    → p b'\n' ≡ false
    → All (IsLine size) lines
    → any p (document lines) ≡ false
document-any p size [] out nl fs = refl
document-any p size (line ∷ lines) out nl fs =
    any-graphic p line (b'\n' ∷ document lines) out fs.0.graphic
    ∙ ground (arith, nl, document-any p size lines out nl fs.1)

ends_newline-document : (lines : List Text) → ends_with_newline (b'\n' ∷ document lines) ≡ true
unfolding ends_with_newline
ends_newline-document [] = refl
ends_newline-document (line ∷ lines) =
    ends_with_newline-append (b'\n' ∷ line) b'\n' (document lines) ∙ ends_newline-document lines

pub append-ne_nil : (t : Text) (c : ℕ) (more : Text) → is_nil (t ++ (c ∷ more)) ≡ false
append-ne_nil [] c more = refl
append-ne_nil (b ∷ t) c more = refl

pub reader_init-document :
    (size : ℕ) (line : Text) (lines : List Text)
    → All (IsLine size) (line ∷ lines)
    → text_document_reader_init (document (line ∷ lines))
      ≡ ok (record { rest = document (line ∷ lines); line_number = 0 })
unfolding text_document_reader_init
reader_init-document size line lines fs =
    rw
      (
        append-ne_nil line b'\n' (document lines),
        ends_with_newline-append line b'\n' (document lines) ∙ ends_newline-document lines,
        document-any (λ b. not (printable b)) size (line ∷ lines)
            (λ c g. ap not (graphic-printable c g)) refl fs,
      )
      refl

pub document-length : (lines : List Text) → length lines ≤ length (document lines)
document-length [] = omega arith
document-length (line ∷ lines) =
    omega (arith, length-append line (b'\n' ∷ document lines), document-length lines)
