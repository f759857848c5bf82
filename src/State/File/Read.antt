-- ===== src/State/File/Read.antt =====
-- The writer and the parser of state.txt on one record (src/state.c).
use mathlib.Core.Path.{subst}
use cup.Base.{
  ℕ, Bool, false, not, List, [], ◌∷◌, ◌++◌, ◌≡◌, refl, ap, ◌∙◌, arith, ◌==◌, length-append, is_nil,
  All, Text, strip_prefix,
}
use mathlib.Core.List.{append_assoc}
use cup.Errors.{ok}
use cup.Text.{text_copy, text_format, text_split_exact, text_parse_key_value}
use cup.Text.Fields.{parse_key_value-found}
use cup.Text.Lines.{append-ne_nil}
use cup.Text.Lines
use cup.Text.Split.{split_fields-name, split_fields-last, bind_name}
use cup.Registry.{max_identifier_len, max_platform_len}
use cup.Selector.{max_selector_len, package_selector_format_parts}
use cup.Selector.Written.{package_selector_parse-written, concrete_version}
use cup.Package.{PackageIdentity, package_identity_format_selector, package_identity_from_selector}
use cup.Package.Laws.{IsIdentity, same_identity}
use cup.State.{CupState}
use cup.State.File.{
  StateRecordType, installed, default, max_state_line_len, two_fields, parse_state_key, parse_scope,
  apply_record, parse_state_line, write_state_record, write_records,
}
use cup.State.File.Line.{
  Names, identity-Names, record_key, selector_text, record_text, record_text-key, record_key-all,
  kind_name-all, record_key-ne_nil, record_key-length, record_key-graphic, selector_text-length,
  selector_text-graphic,
}

key_value :
    (kind : StateRecordType) (x : PackageIdentity)
    → Names x
    → text_parse_key_value (record_text kind x) max_state_line_len max_selector_len
      ≡ ok (record_key kind x, selector_text x)
key_value kind x n = rw (record_text-key kind x) (
    parse_key_value-found (record_key kind x) (selector_text x) max_state_line_len max_selector_len
      (record_key-graphic kind x n)
      (record_key-all (λ b. not (b == b'=')) kind x
        (kind_name-all (λ b. not (b == b'=')) kind refl refl) refl n.component.no_equals
        n.target.no_equals)
      (record_key-ne_nil kind x) (selector_text-graphic x n) (append-ne_nil x.tool b'@' x.version)
      (omega (arith, record_key-length kind x n)) (selector_text-length x n))

abbrev scope_text : PackageIdentity → Text
scope_text x = x.component ++ (b'.' ∷ x.target_platform)

scope_parts :
    (x : PackageIdentity)
    → Names x
    → text_split_exact (scope_text x) b'.' (max_identifier_len ∷ max_platform_len ∷ [])
      ≡ ok (x.component ∷ x.target_platform ∷ [])
unfolding text_split_exact
scope_parts x n = rw (append-ne_nil x.component b'.' x.target_platform) (
    split_fields-name x.component x.target_platform max_identifier_len max_platform_len []
      n.component (omega arith)
    ∙ bind_name x.component
        (split_fields-last x.target_platform max_platform_len n.target (omega arith)))

parse_scope-text :
    (kind : StateRecordType) (x : PackageIdentity)
    → Names x
    → parse_scope kind (scope_text x) ≡ ok (kind, x.component, x.target_platform)
unfolding parse_scope two_fields text_copy
parse_scope-text kind x n = ground (
  arith,
  scope_parts x n,
  length-append x.component (b'.' ∷ x.target_platform),
  n.component.short,
  n.target.short,
)

parse_state_key-key :
    (kind : StateRecordType) (x : PackageIdentity)
    → Names x
    → parse_state_key (record_key kind x) ≡ ok (kind, x.component, x.target_platform)
unfolding parse_state_key strip_prefix
parse_state_key-key installed x n = parse_scope-text installed x n
parse_state_key-key default x n = parse_scope-text default x n

from_selector-text :
    (x : PackageIdentity)
    → IsIdentity x
    → package_identity_from_selector x.component x.host_platform x.target_platform (selector_text x)
      ≡ ok x
unfolding package_identity_from_selector
from_selector-text x v =
    let n = identity-Names x v in
    rw (package_selector_parse-written x.tool x.version n.tool n.canonical n.concrete)
      (same_identity x v)

-- The parser's step on the line of a valid identity of the host is the step on the identity.
pub parse_state_line-text :
    (allocates : ℕ → Bool) (host : Text) (s : CupState) (line_number : ℕ) (kind : StateRecordType)
    (x : PackageIdentity)
    → is_nil host ≡ false
    → IsIdentity x
    → x.host_platform ≡ host
    → parse_state_line allocates host s line_number (record_text kind x)
      ≡ apply_record allocates host s kind x
unfolding parse_state_line
parse_state_line-text allocates host s line_number kind x h v same =
    let n = identity-Names x v in
    let read : package_identity_from_selector x.component host x.target_platform (selector_text x)
        ≡ ok x =
      subst
        (λ h.
          package_identity_from_selector x.component h x.target_platform (selector_text x) ≡ ok x)
        same (from_selector-text x v) in
    rw (parse_state_line, h, key_value kind x n, parse_state_key-key kind x n, read) refl

format_selector :
    (x : PackageIdentity)
    → IsIdentity x
    → package_identity_format_selector x max_selector_len ≡ ok (selector_text x)
unfolding package_identity_format_selector package_selector_format_parts text_format
format_selector x v =
    let n = identity-Names x v in
    ground
      (arith, v, n.tool.ne_nil, (concrete_version x.version n.concrete).1, selector_text-length x n)

abbrev pub record_texts : StateRecordType → List PackageIdentity → List Text
record_texts kind [] = []
record_texts kind (x ∷ xs) = record_text kind x ∷ record_texts kind xs

pub write_records-texts :
    (kind : StateRecordType) (items : List PackageIdentity)
    → All IsIdentity items
    → write_records kind items ≡ ok (Lines.document (record_texts kind items))
unfolding write_records write_state_record
write_records-texts kind [] v = refl
write_records-texts kind (x ∷ xs) v =
    rw (write_records, write_state_record, format_selector x v.0, write_records-texts kind xs v.1)
      (ap ok
        (append_assoc (record_text kind x) (b'\n' ∷ []) (Lines.document (record_texts kind xs))))
