-- ===== src/Uninstall.antt =====
-- src/uninstall_journal.c: the journal of a detached uninstall in transaction.txt. The file is that of
-- Journal/Publish. An error code is a natural number here: no caller passes a negative one.
pub mod Written
pub mod Fields
pub mod RoundTrip
pub mod Calls
pub mod Protocol
pub mod SetAt
use cup.Base.{
  ℕ, zero, suc, ◌+◌, ◌/◌, ◌%◌, Bool, true, false, not, ◌&&◌, ◌||◌, Option, none, some, List, [],
  ◌∷◌, ◌++◌, leb, ltb, ◌==◌, if◌then◌else◌, length, is_nil, Text, codes, text_eq,
}
use cup.Errors.{
  CupError, cup_ok, Result, ok, err, invalid_input, transaction, commit, status_operation, ◌>>=◌,
}
use cup.Text.{text_copy, text_parse_uint, decimal}
use cup.Path.{max_path_len, path_generated_temp_suffix, path_last_segment, path_parent, path_join}
use cup.System.{SystemPathIdentity, SystemPathKind, missing, no_identity}
use cup.Journal.{
  max_transaction_token_len, runtime_journal_token_is_valid, runtime_journal_parse_at,
  RuntimeJournalKind, runtime_journal_detect,
}
use cup.Journal.Publish.{
  JournalFile, PublishAnswers, ClearAnswers, runtime_journal_publish_at,
  runtime_journal_clear_if_identity,
}
use cup.Transaction.{max_metadata_value_len, field_line}

-- Besides the three phases, any other value of the enumeration.
pub data UninstallPhase : Type 0 where
  scheduled detaching failed other_phase : UninstallPhase

pub record UninstallJournal : Type 0 where
  pub temporary_name : Text
  pub token : Text
  pub phase : UninstallPhase
  pub error_code : ℕ
  pub file_identity : SystemPathIdentity

abbrev pub uninstall_journal_init : UninstallJournal
uninstall_journal_init = record {
  temporary_name = [];
  token = [];
  phase = scheduled;
  error_code = 0;
  file_identity = no_identity;
}

unfoldable pub uninstall_phase_name : UninstallPhase → Text
uninstall_phase_name scheduled = codes "scheduled"
uninstall_phase_name detaching = codes "detaching"
uninstall_phase_name failed = codes "failed"
uninstall_phase_name other_phase = codes "invalid"

unfoldable pub parse_phase : Text → Option UninstallPhase
parse_phase value =
    if text_eq value (codes "scheduled")
    then some scheduled
    else if text_eq value (codes "detaching")
    then some detaching
    else if text_eq value (codes "failed")
    then some failed
    else none

abbrev pub uninstall_temp_prefix : Text
uninstall_temp_prefix = codes ".cup-uninstall"

unfoldable pub temporary_name_token : Text → Option Text
temporary_name_token name =
    if leb max_metadata_value_len (length name)
    then none
    else path_generated_temp_suffix name uninstall_temp_prefix

unfoldable pub name_matches_token : Text → Text → Bool
unfolding temporary_name_token
name_matches_token name token = elim (temporary_name_token name) [
  | none ↦ false
  | some name_token ↦ runtime_journal_token_is_valid token && text_eq name_token token
]

-- The last switch of `journal_is_coherent`.
unfoldable pub error_fits_phase : UninstallPhase → ℕ → Bool
error_fits_phase scheduled error_code = error_code == 0
error_fits_phase detaching error_code = error_code == 0
error_fits_phase failed error_code = error_code == status_operation
error_fits_phase other_phase error_code = false

unfoldable pub journal_is_coherent : UninstallJournal → Bool
unfolding error_fits_phase
journal_is_coherent journal =
    name_matches_token journal.temporary_name journal.token
    && error_fits_phase journal.phase journal.error_code

-- What the writer prints.
unfoldable pub write_journal : UninstallJournal → Text
write_journal journal =
    field_line (codes "format") (codes "2")
    ++ (field_line (codes "operation") (codes "uninstall")
        ++ (field_line (codes "phase") (uninstall_phase_name journal.phase)
            ++ (field_line (codes "temporary_name") journal.temporary_name
                ++ (field_line (codes "token") journal.token
                    ++ field_line (codes "error") (decimal journal.error_code)))))

unfoldable pub expected_identity : UninstallJournal → Option SystemPathIdentity
expected_identity journal = if journal.file_identity.valid then some journal.file_identity else none

-- The journal in memory behind a publication that gave an identity.
unfoldable pub published_journal : UninstallJournal → Option SystemPathIdentity → UninstallJournal
published_journal journal none = journal
published_journal journal (some identity) = record journal { file_identity = identity }

-- What the call answers, the journal in memory, and the file.
abbrev pub Saved : Type 0
Saved = CupError × UninstallJournal × JournalFile

unfoldable pub save_journal_at : PublishAnswers → Text → UninstallJournal → JournalFile → Saved
unfolding expected_identity published_journal write_journal
save_journal_at a root journal file =
    if is_nil root || not (journal_is_coherent journal)
    then (transaction, journal, file)
    else let r =
        runtime_journal_publish_at a root root (codes "uninstall-transaction")
          (expected_identity journal) (write_journal journal) file in
      (r.0, published_journal journal r.1, r.2)

-- `root` is what `layout_get_root` answers.
unfoldable pub save_journal : PublishAnswers → Result Text → UninstallJournal → JournalFile → Saved
save_journal a (err e) journal file = (e, journal, file)
save_journal a (ok root) journal file = save_journal_at a root journal file

-- What `begin` publishes.
unfoldable pub begin_journal : Text → Text → Result UninstallJournal
begin_journal name token = elim (text_copy max_path_len name) [
  | err _ ↦ err transaction
  | ok n ↦ elim (text_copy max_transaction_token_len token) [
    | err _ ↦ err transaction
    | ok t ↦ ok (record uninstall_journal_init { temporary_name = n; token = t })
  ]
]

unfoldable pub begin_free :
    PublishAnswers → Result Text → Text → Text → JournalFile → CupError × JournalFile
begin_free a root name token file = elim (begin_journal name token) [
  | err e ↦ (e, file)
  | ok journal ↦ (let r = save_journal a root journal file in (r.0, r.2))
]

-- What follows the detection of an owner.
unfoldable pub begin_detected :
    PublishAnswers
    → Result Text
    → Text
    → Text
    → JournalFile
    → Result RuntimeJournalKind
    → CupError × JournalFile
begin_detected a root name token file (ok RuntimeJournalKind.missing) =
    begin_free a root name token file
begin_detected a root name token file _ = (transaction, file)

-- `runtime_journal_detect` reads the file; `read_ok` is whether the call that reads it succeeds.
unfoldable pub uninstall_journal_begin :
    PublishAnswers → Bool → Result Text → Text → Text → JournalFile → CupError × JournalFile
unfolding begin_free begin_detected
uninstall_journal_begin a read_ok root temporary_path token file =
    if is_nil temporary_path
      || not (runtime_journal_token_is_valid token)
      || not (name_matches_token (path_last_segment temporary_path) token)
    then (invalid_input, file)
    else begin_detected a root (path_last_segment temporary_path) token file
        (runtime_journal_detect root (if read_ok then ok file else err transaction))

-- A copy whose failure is `CUP_ERR_TRANSACTION`.
unfoldable pub copy_into : ℕ → Text → Result Text
copy_into size value = elim (text_copy size value) [
  | ok copied ↦ ok copied
  | err _ ↦ err transaction
]

unfoldable pub set_field : UninstallJournal → Text → Text → Result UninstallJournal
unfolding copy_into
set_field journal key value =
    if text_eq key (codes "format")
    then (if text_eq value (codes "2") then ok journal else err transaction)
    else if text_eq key (codes "operation")
    then (if text_eq value (codes "uninstall") then ok journal else err transaction)
    else if text_eq key (codes "phase")
    then (elim (parse_phase value) [
      | none ↦ err transaction
      | some phase ↦ ok (record journal { phase = phase })
    ])
    else if text_eq key (codes "temporary_name")
    then (do v ← copy_into max_path_len value; ok (record journal { temporary_name = v }))
    else if text_eq key (codes "token")
    then (do v ← copy_into max_transaction_token_len value; ok (record journal { token = v }))
    else if text_eq key (codes "error")
    then (elim (text_parse_uint value 255) [
      | none ↦ err transaction
      | some parsed ↦ ok (record journal { error_code = parsed })
    ])
    else err transaction

abbrev pub journal_keys : List Text
journal_keys =
    codes "format"
    ∷ codes "operation"
    ∷ codes "phase"
    ∷ codes "temporary_name"
    ∷ codes "token"
    ∷ codes "error"
    ∷ []

-- `none` is `UNINSTALL_JOURNAL_MISSING`.
unfoldable pub uninstall_journal_load_at :
    Text → Result JournalFile → Result (Option UninstallJournal)
unfolding set_field
uninstall_journal_load_at root read =
    if is_nil root
    then err invalid_input
    else elim (runtime_journal_parse_at (some journal_keys) set_field uninstall_journal_init root
        read) [
          | err e ↦ err e
          | ok none ↦ ok none
          | ok (some (candidate, file_identity)) ↦
              if journal_is_coherent candidate
              then ok (some (record candidate { file_identity = file_identity }))
              else err transaction
        ]

unfoldable pub uninstall_journal_load :
    Result Text → Result JournalFile → Result (Option UninstallJournal)
uninstall_journal_load root read = root >>= λ directory. uninstall_journal_load_at directory read

-- The candidate takes the caller's place if it is published or may be.
unfoldable pub keep_candidate : UninstallJournal → Saved → Saved
keep_candidate journal (cup_ok, candidate, file) = (cup_ok, candidate, file)
keep_candidate journal (commit, candidate, file) = (commit, candidate, file)
keep_candidate journal (e, candidate, file) = (e, journal, file)

unfoldable pub uninstall_journal_set_at :
    PublishAnswers → Text → UninstallJournal → UninstallPhase → ℕ → JournalFile → Saved
unfolding keep_candidate
uninstall_journal_set_at a root journal phase error_code file =
    let candidate : UninstallJournal = record journal { phase = phase; error_code = error_code } in
    if is_nil root || not journal.file_identity.valid
    then (invalid_input, journal, file)
    else if not (journal_is_coherent candidate)
    then (transaction, journal, file)
    else keep_candidate journal (save_journal_at a root candidate file)

unfoldable pub get_detached_path : Result Text → UninstallJournal → ℕ → Result Text
get_detached_path root journal size =
    if size == 0 || not (journal_is_coherent journal) then err invalid_input else do
      directory ← root
      parent ← path_parent max_path_len directory
      path_join size parent journal.temporary_name

-- The end of `uninstall_journal_recover`: only a detached path that is missing lets it clear.
unfoldable pub clear_detached :
    ClearAnswers
    → Result Text
    → Result SystemPathKind
    → SystemPathIdentity
    → JournalFile
    → CupError × JournalFile
clear_detached a (ok detached) (ok missing) expected file =
    runtime_journal_clear_if_identity a expected file
clear_detached a _ _ expected file = (transaction, file)

-- `kind` is what `system_get_path_kind` answers for the detached path.
unfoldable pub uninstall_journal_recover :
    ClearAnswers
    → Result Text
    → Result SystemPathKind
    → UninstallJournal
    → JournalFile
    → CupError × JournalFile
unfolding get_detached_path clear_detached
uninstall_journal_recover a root kind journal file =
    if not (journal_is_coherent journal)
    then (invalid_input, file)
    else clear_detached a (get_detached_path root journal max_path_len) kind journal.file_identity
        file
