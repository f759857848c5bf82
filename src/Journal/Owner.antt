-- ===== src/Journal/Owner.antt =====
-- Who owns a journal, and `runtime_journal_require_none` (src/runtime_journal.c).
use cup.Base.{
  ◌⊎◌, ◌&&◌, ℕ, suc, length, Bool, true, false, Option, none, some, ◌≡◌, ◌≢◌, ◌↔◌, refl, inl, inr,
  arith, is_nil, Text, Option-cases,
}
use cup.Errors.{CupError, cup_ok, Result, ok, err}
use cup.System.{SystemPathIdentity}
use cup.Text.Reader.{TextDocumentReader, text_document_reader_init, each_line}
use cup.Text.EachLine.{each_line-Kept}
use cup.Text.{text_parse_key_value}
use cup.Path.{max_path_len}
use cup.Journal.{
  RuntimeJournalKind, missing, RuntimeJournalDetection, journal_owner, detect_journal_field,
  nothing_detected, journal_field, journal_key_size, max_metadata_line_len, in_order, end_parse,
  all_keys_read, parse_journal, runtime_journal_require_none,
}

abbrev is_missing : RuntimeJournalKind → Bool
is_missing missing = true
is_missing _ = false

is_missing-journal_owner :
    (value : Text) {kind : RuntimeJournalKind}
    → journal_owner value ≡ some kind
    → is_missing kind ≡ false
unfolding journal_owner
is_missing-journal_owner value h = ground arith

-- Once the operation is seen, an owner is known.
abbrev IsOwned : RuntimeJournalDetection → Type 0
IsOwned d = (d.operation_seen && is_missing d.detected) ≡ false

detect_journal_field-IsOwned :
    (d next : RuntimeJournalDetection) (key value : Text)
    → detect_journal_field d key value ≡ ok next
    → IsOwned d
    → IsOwned next
unfolding detect_journal_field
detect_journal_field-IsOwned d next key value h o = elim (Option-cases (journal_owner value)) [
  | inl unknown ↦ ground (arith, unknown)
  | inr (kind, owner) ↦ ground (arith, owner, is_missing-journal_owner value owner)
]

abbrev Field : Type 0
Field = Text × Text

Field-cases : (r : Result Field) → ((f : Field) × (r ≡ ok f)) ⊎ ((e : CupError) × (r ≡ err e))
Field-cases (ok f) = inl (f, refl)
Field-cases (err e) = inr (e, refl)

journal_field-IsOwned :
    (d next : RuntimeJournalDetection) (n : ℕ) (line : Text)
    → journal_field none detect_journal_field d n line ≡ ok next
    → IsOwned d
    → IsOwned next
unfolding journal_field in_order
journal_field-IsOwned d next n line h o =
    elim (Field-cases (text_parse_key_value line journal_key_size max_path_len)) [
      | inr (e, bad) ↦ absurd (ground (arith, bad))
      | inl ((key, value), good) ↦
          detect_journal_field-IsOwned d next key value (ground (arith, good)) o
    ]

abbrev Answer : Type 0
Answer = Result (RuntimeJournalDetection × TextDocumentReader)

end_parse-IsOwned :
    (r : Answer) (out : RuntimeJournalDetection)
    → ((end : TextDocumentReader) → r ≡ ok (out, end) → IsOwned out)
    → end_parse none detect_journal_field r ≡ ok out
    → IsOwned out
unfolding end_parse all_keys_read
end_parse-IsOwned (err e) out owned h = absurd (ground arith)
end_parse-IsOwned (ok (d, end)) out owned h = owned end (ground arith)

Reader-cases :
    (r : Result TextDocumentReader)
    → ((reader : TextDocumentReader) × (r ≡ ok reader)) ⊎ ((e : CupError) × (r ≡ err e))
Reader-cases (ok reader) = inl (reader, refl)
Reader-cases (err e) = inr (e, refl)

parse_journal-IsOwned :
    (bytes : Text) (out : RuntimeJournalDetection)
    → parse_journal none detect_journal_field nothing_detected bytes ≡ ok out
    → IsOwned out
unfolding parse_journal
parse_journal-IsOwned bytes out h = elim (Reader-cases (text_document_reader_init bytes)) [
  | inr (e, bad) ↦ absurd (ground (arith, bad))
  | inl (reader, good) ↦
      end_parse-IsOwned
        (each_line (λ e. e) (journal_field none detect_journal_field) (suc (length reader.rest))
          max_metadata_line_len nothing_detected reader)
        out
        (λ end m.
          each_line-Kept (λ e. e) (journal_field none detect_journal_field) IsOwned
            journal_field-IsOwned (suc (length reader.rest)) max_metadata_line_len nothing_detected
            out reader end m refl)
        (ground (arith, good))
]

-- The file is not there, under a root that is known.
abbrev pub IsAbsent : Result Text → Result (Option (Text × SystemPathIdentity)) → Type 0
IsAbsent root read = ((path : Text) × (root ≡ ok path) × (is_nil path ≡ false)) × (read ≡ ok none)

owned_refused :
    (root : Text) (bytes : Text) (file : SystemPathIdentity)
    → runtime_journal_require_none (ok root) (ok (some (bytes, file))) ≢ cup_ok
unfolding runtime_journal_require_none
owned_refused root bytes file h =
    parsed (parse_journal none detect_journal_field nothing_detected bytes) refl
  where
    parsed :
        (r : Result RuntimeJournalDetection)
        → parse_journal none detect_journal_field nothing_detected bytes ≡ r
        → ⊥
    parsed (err e) m = absurd (ground (arith, m))
    parsed (ok d) m = absurd (ground (arith, m, parse_journal-IsOwned bytes d m))

-- runtime_journal_require_none answers CUP_OK exactly if the root is known and not empty and no
-- transaction.txt is there; no content of the file makes it pass.
pub runtime_journal_require_none_iff :
    (root : Result Text) (read : Result (Option (Text × SystemPathIdentity)))
    → (runtime_journal_require_none root read ≡ cup_ok) ↔ IsAbsent root read
unfolding runtime_journal_require_none
runtime_journal_require_none_iff (err e) read =
    ((λ h. absurd (ground arith)), (λ a. absurd (ground (arith, a.0.1))))
runtime_journal_require_none_iff (ok root) (err e) =
    ((λ h. absurd (ground arith)), (λ a. absurd (ground (arith, a.1))))
runtime_journal_require_none_iff (ok root) (ok none) =
    ((λ h. ((root, refl, ground arith), refl)), (λ a. ground (arith, a.0.1, a.0.2)))
runtime_journal_require_none_iff (ok root) (ok (some (bytes, file))) =
    ((λ h. absurd (owned_refused root bytes file h)), (λ a. absurd (ground (arith, a.1))))
