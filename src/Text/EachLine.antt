-- ===== src/Text/EachLine.antt =====
-- What a parser's loop over its lines keeps (the callers of src/text.c's reader).
use mathlib.Core.Path.{subst}
use cup.Base.{ℕ, zero, suc, Option, none, some, ◌≡◌, refl, arith, Text}
use cup.Errors.{CupError, Result, ok, err}
use cup.Text.Reader.{TextDocumentReader, text_document_read_line, take_line, each_line}

module _ {ℓ κ} {S : Type ℓ} (failed : CupError → CupError) (field : S → ℕ → Text → Result S)
    (Kept : S → Type κ)
    (keeps : (s next : S) (n : ℕ) (line : Text)
      → field s n line ≡ ok next
      → Kept s
      → Kept next) where
  take_line-Kept :
      (r : Result (Option Text × TextDocumentReader)) (s out : S) (end : TextDocumentReader)
      (again : S → TextDocumentReader → Result (S × TextDocumentReader))
      → ((next : S) (reader : TextDocumentReader)
          → again next reader ≡ ok (out, end)
          → Kept next
          → Kept out)
      → take_line failed field r s again ≡ ok (out, end)
      → Kept s
      → Kept out
  unfolding take_line
  take_line-Kept (err e) s out end again later h k = absurd (ground arith)
  take_line-Kept (ok (none, reader)) s out end again later h k =
      let e : s ≡ out = ground arith in subst Kept e k
  take_line-Kept (ok (some line, reader)) s out end again later h k =
      stepped (field s reader.line_number line) refl
    where
      stepped : (r : Result S) → field s reader.line_number line ≡ r → Kept out
      stepped (err e) m = absurd (ground (arith, m))
      stepped (ok next) m =
          later next reader (ground (arith, m)) (keeps s next reader.line_number line m k)

  pub each_line-Kept :
      (fuel size : ℕ) (s out : S) (reader end : TextDocumentReader)
      → each_line failed field fuel size s reader ≡ ok (out, end)
      → Kept s
      → Kept out
  unfolding each_line
  each_line-Kept zero size s out reader end h k = let e : s ≡ out = ground arith in subst Kept e k
  each_line-Kept (suc fuel) size s out reader end h k =
      take_line-Kept (text_document_read_line reader size) s out end
        (λ next rest. each_line failed field fuel size next rest)
        (λ next rest. each_line-Kept fuel size next out rest end) h k
