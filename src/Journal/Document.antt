-- ===== src/Journal/Document.antt =====
-- The parser on a journal that is written field by field (src/runtime_journal.c).
use mathlib.Core.Path.{subst}
use cup.Base.{
  ℕ, suc, ◌+◌, ◌<◌, true, not, Option, List, [], ◌∷◌, ◌++◌, ◌≡◌, refl, ap, arith, ◌==◌, length,
  length-append, all, is_nil, Text, All, false,
}
use cup.Errors.{Result, ok, err, ◌>>=◌}
use cup.Path.{max_path_len}
use cup.Text.Reader.{is_skipped}
use cup.Text.Fields.{is_graphic, parse_key_value-found}
use cup.Text.Lines.{
  IsLine, all_append, visit_lines, at_end, each_line-document, graphic-space, document-any,
  reader_init-document, document-length,
}
use cup.Text.Lines
use cup.Journal.{
  journal_key_size, max_metadata_line_len, in_order, journal_field, end_parse, all_keys_read,
  parse_journal,
}

abbrev pub Field : Type 0
Field = Text × Text

abbrev pub field_text : Field → Text
field_text (key, value) = key ++ (b'=' ∷ value)

-- The lines, one for each field.
abbrev pub field_lines : List Field → List Text
field_lines [] = []
field_lines (field ∷ fields) = field_text field ∷ field_lines fields

abbrev pub document : List Field → Text
document fields = Lines.document (field_lines fields)

-- A field that survives being written and read.
pub record IsField (field : Field) : Type 0 where
  pub key_graphic : all is_graphic field.0 ≡ true
  pub key_plain : all (λ b. not (b == b'=')) field.0 ≡ true
  pub key_ne_nil : is_nil field.0 ≡ false
  pub key_counts : is_skipped field.0 ≡ false
  pub key_fits : length field.0 < journal_key_size
  pub value_graphic : all is_graphic field.1 ≡ true
  pub value_ne_nil : is_nil field.1 ≡ false
  pub value_fits : length field.1 < max_path_len
  pub line_fits : length field.0 + length field.1 + 1 < max_metadata_line_len

pub field_text-counts :
    (key value : Text)
    → is_nil key ≡ false
    → is_skipped key ≡ false
    → is_skipped (key ++ (b'=' ∷ value)) ≡ false
unfolding is_skipped
field_text-counts [] value h k = absurd (ground arith)
field_text-counts (c ∷ key) value h k = k

field_text-IsLine :
    (field : Field) → IsField field → IsLine max_metadata_line_len (field_text field)
field_text-IsLine (key, value) f = record {
  graphic =
      all_append is_graphic key (b'=' ∷ value) f.key_graphic (ground (arith, f.value_graphic));
  counts = field_text-counts key value f.key_ne_nil f.key_counts;
  fits = omega (arith, length-append key (b'=' ∷ value), f.line_fits);
}

lines-IsLine :
    (fields : List Field)
    → All IsField fields
    → All (IsLine max_metadata_line_len) (field_lines fields)
lines-IsLine [] fs = tt
lines-IsLine (field ∷ fields) fs = (field_text-IsLine field fs.0, lines-IsLine fields fs.1)

length-field_lines : (fields : List Field) → length (field_lines fields) ≡ length fields
length-field_lines [] = refl
length-field_lines (field ∷ fields) = ap suc (length-field_lines fields)

module _ {ℓ} {S : Type ℓ} (ordered_keys : Option (List Text))
    (visitor : S → Text → Text → Result S) where
  -- The visitor on the fields, first to last.
  unfoldable pub visit_all : S → List Field → Result S
  visit_all s [] = ok s
  visit_all s ((key, value) ∷ fields) = do next ← visitor s key value; visit_all next fields

  -- Each key is the expected one on its line.
  abbrev pub Ordered : ℕ → List Field → Type 0
  Ordered n [] = Unit
  Ordered n (field ∷ fields) =
      (in_order ordered_keys visitor (n + 1) field.0 ≡ true) × Ordered (n + 1) fields

  journal_field-field :
      (s : S) (n : ℕ) (key value : Text)
      → IsField (key, value)
      → in_order ordered_keys visitor n key ≡ true
      → journal_field ordered_keys visitor s n (field_text (key, value)) ≡ visitor s key value
  unfolding journal_field
  journal_field-field s n key value f o = ground (
    arith,
    o,
    parse_key_value-found key value journal_key_size max_path_len f.key_graphic f.key_plain
        f.key_ne_nil f.value_graphic f.value_ne_nil f.key_fits f.value_fits,
  )

  bind_same :
      (r : Result S) (f g : S → Result S) → ((next : S) → f next ≡ g next) → (r >>= f) ≡ (r >>= g)
  bind_same (err e) f g h = refl
  bind_same (ok next) f g h = h next

  visit_lines-visit_all :
      (fields : List Field) (n : ℕ) (s : S)
      → All IsField fields
      → Ordered n fields
      → visit_lines (λ e. e) (journal_field ordered_keys visitor) n s (field_lines fields)
        ≡ visit_all s fields
  unfolding visit_lines visit_all
  visit_lines-visit_all [] n s fs o = refl
  visit_lines-visit_all ((key, value) ∷ fields) n s fs o =
      rw (journal_field-field s (n + 1) key value fs.0 o.0) (
        bind_same (visitor s key value) _ _
          (λ next. visit_lines-visit_all fields (n + 1) next fs.1 o.1))

end_parse_ok {ℓ} :
    {S : Type ℓ} (ordered_keys : Option (List Text)) (visitor : S → Text → Text → Result S)
    (out : S) (n : ℕ)
    → all_keys_read ordered_keys visitor n ≡ true
    → end_parse ordered_keys visitor (ok (out, record { rest = []; line_number = n })) ≡ ok out
unfolding end_parse
end_parse_ok ordered_keys visitor out n h = rw h refl

-- A written journal whose keys come in order is read back as the visitor takes its fields.
pub parse_journal-document {ℓ} :
    {S : Type ℓ} (ordered_keys : Option (List Text)) (visitor : S → Text → Text → Result S)
    (field : Field) (fields : List Field) (s out : S)
    → All IsField (field ∷ fields)
    → Ordered ordered_keys visitor 0 (field ∷ fields)
    → all_keys_read ordered_keys visitor (suc (length fields)) ≡ true
    → visit_all ordered_keys visitor s (field ∷ fields) ≡ ok out
    → parse_journal ordered_keys visitor s (document (field ∷ fields)) ≡ ok out
unfolding parse_journal end_parse
parse_journal-document ordered_keys visitor field fields s out fs o complete visited =
    let lines = field_lines (field ∷ fields) in
    let good = lines-IsLine (field ∷ fields) fs in
    rw
      (
        document-any (λ c. c == b' ') max_metadata_line_len lines graphic-space refl good,
        reader_init-document max_metadata_line_len (field_text field) (field_lines fields) good,
        each_line-document (λ e. e) (journal_field ordered_keys visitor) max_metadata_line_len lines
            (suc (length (Lines.document lines))) 0 s (omega arith) good
            (omega (arith, document-length lines)),
        visit_lines-visit_all ordered_keys visitor (field ∷ fields) 0 s fs o,
        visited,
      )
      (end_parse_ok ordered_keys visitor out (0 + length lines) (
        subst (λ n. all_keys_read ordered_keys visitor n ≡ true)
          (omega (arith, length-field_lines fields)) complete))
