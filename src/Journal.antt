-- ===== src/Journal.antt =====
-- src/runtime_journal.c: the envelope of transaction.txt, which the journals of package operations,
-- updates and uninstalls share, and who owns it. What `runtime_journal_read_at` answers is an
-- argument: an error, no file, or the bytes with the identity of the file. `root` is the answer of
-- `layout_get_root`.
pub mod Owner
pub mod Publish
pub mod Published
pub mod Document
use cup.Base.{
  ℕ, suc, ◌-◌, Bool, true, false, not, ◌&&◌, ◌||◌, Option, none, some, List, ltb, leb, ◌==◌,
  if◌then◌else◌, length, get_elem?, is_nil, any, all, Text, codes, text_eq,
}
use cup.Errors.{CupError, cup_ok, Result, ok, err, invalid_input, transaction, ◌>>=◌}
use cup.Text.{text_parse_key_value}
use cup.Text.Reader.{TextDocumentReader, text_document_reader_init, each_line}
use cup.Path.{max_path_len, ascii_is_alnum}
use cup.System.{SystemPathIdentity}

abbrev pub max_metadata_line_len : ℕ
max_metadata_line_len = 512

abbrev pub max_transaction_token_len : ℕ
max_transaction_token_len = 256

-- `char key[64]`
abbrev pub journal_key_size : ℕ
journal_key_size = 64

unfoldable pub is_token_byte : ℕ → Bool
unfolding ascii_is_alnum
is_token_byte c = ascii_is_alnum c || c == b'_' || c == b'-' || c == b'.'

unfoldable pub runtime_journal_token_is_valid : Text → Bool
unfolding is_token_byte
runtime_journal_token_is_valid token =
    if is_nil token || leb max_transaction_token_len (length token)
    then false
    else all is_token_byte token

-- `ordered_keys`, with `none` for NULL, and the visitor with its `userdata`.
module _ {ℓ} {S : Type ℓ} (ordered_keys : Option (List Text))
    (visitor : S → Text → Text → Result S) where
  unfoldable pub in_order : ℕ → Text → Bool
  in_order line_number key = elim ordered_keys [
    | none ↦ true
    | some keys ↦ elim (get_elem? keys (line_number - 1)) [
      | none ↦ false
      | some expected ↦ text_eq key expected
    ]
  ]

  unfoldable pub journal_field : S → ℕ → Text → Result S
  unfolding in_order
  journal_field state line_number line = do
    field ← text_parse_key_value line journal_key_size max_path_len
    elim (in_order line_number field.0) [
      | true ↦ visitor state field.0 field.1
      | false ↦ err transaction
    ]

  unfoldable pub all_keys_read : ℕ → Bool
  all_keys_read line_number = elim ordered_keys [
    | none ↦ true
    | some keys ↦ line_number == length keys
  ]

  -- What stands behind the loop.
  unfoldable pub end_parse : Result (S × TextDocumentReader) → Result S
  unfolding all_keys_read
  end_parse (err e) = err transaction
  end_parse (ok (state, reader)) =
      if all_keys_read reader.line_number then ok state else err transaction

  -- The document: no space anywhere, then the loop over its lines.
  unfoldable pub parse_journal : S → Text → Result S
  unfolding end_parse journal_field
  parse_journal initial bytes =
      if any (λ c. c == b' ') bytes
      then err transaction
      else elim (text_document_reader_init bytes) [
        | err _ ↦ err transaction
        | ok reader ↦ end_parse (
            each_line (λ e. e) journal_field (suc (length reader.rest)) max_metadata_line_len
              initial reader)
      ]

  unfoldable pub runtime_journal_parse_at :
      S
      → Text
      → Result (Option (Text × SystemPathIdentity))
      → Result (Option (S × SystemPathIdentity))
  unfolding parse_journal
  runtime_journal_parse_at initial root read =
      if is_nil root then err invalid_input else elim read [
        | err _ ↦ err transaction
        | ok none ↦ ok none
        | ok (some (bytes, identity)) ↦ elim (parse_journal initial bytes) [
          | err e ↦ err e
          | ok state ↦ ok (some (state, identity))
        ]
      ]

  unfoldable pub runtime_journal_parse :
      S
      → Result Text
      → Result (Option (Text × SystemPathIdentity))
      → Result (Option (S × SystemPathIdentity))
  unfolding runtime_journal_parse_at
  runtime_journal_parse initial root read = do
    directory ← root
    runtime_journal_parse_at initial directory read

pub data RuntimeJournalKind : Type 0 where
  missing owned_by_package generation uninstall : RuntimeJournalKind

pub record RuntimeJournalDetection : Type 0 where
  pub detected : RuntimeJournalKind
  pub operation_seen : Bool

-- The owner that an operation names.
unfoldable pub journal_owner : Text → Option RuntimeJournalKind
journal_owner value =
    if text_eq value (codes "install") || text_eq value (codes "remove")
    then some owned_by_package
    else if text_eq value (codes "cup-generation")
    then some generation
    else if text_eq value (codes "uninstall")
    then some uninstall
    else none

unfoldable pub detect_journal_field :
    RuntimeJournalDetection → Text → Text → Result RuntimeJournalDetection
unfolding journal_owner
detect_journal_field detection key value =
    if not (text_eq key (codes "operation"))
    then ok detection
    else if detection.operation_seen
    then err transaction
    else elim (journal_owner value) [
      | some kind ↦ ok (record { detected = kind; operation_seen = true })
      | none ↦ err transaction
    ]

abbrev pub nothing_detected : RuntimeJournalDetection
nothing_detected = record { detected = missing; operation_seen = false }

unfoldable pub runtime_journal_detect :
    Result Text → Result (Option (Text × SystemPathIdentity)) → Result RuntimeJournalKind
unfolding runtime_journal_parse detect_journal_field
runtime_journal_detect root read =
    elim (runtime_journal_parse none detect_journal_field nothing_detected root read) [
      | err e ↦ err e
      | ok none ↦ ok missing
      | ok (some (detection, _)) ↦
          if detection.operation_seen then ok detection.detected else err transaction
    ]

unfoldable pub runtime_journal_require_none :
    Result Text → Result (Option (Text × SystemPathIdentity)) → CupError
unfolding runtime_journal_detect
runtime_journal_require_none root read = elim (runtime_journal_detect root read) [
  | ok missing ↦ cup_ok
  | _ ↦ transaction
]
