-- ===== src/State/File.antt =====
-- state.txt: measuring, writing and parsing (src/state.c). The bytes of the file are a text, the
-- host is the answer of `platform_get_host`, and the C library's `qsort` is the parameter `sort`.
pub mod Line
pub mod Read
pub mod Loop
pub mod Written
pub mod Saved
use cup.Base.{
  ℕ, suc, ◌+◌, ◌-◌, ◌*◌, Bool, true, false, ◌||◌, Option, none, some, List, [], ◌∷◌, ◌++◌, Ordering,
  ltb, leb, if◌then◌else◌, length, is_nil, Text, codes, text_eq, strcmp, strip_prefix,
}
use cup.Errors.{
  CupError, cup_ok, Result, ok, err, invalid_input, state_load, state_full, inconsistent_state,
  temporary, buffer_too_small, ◌>>=◌, ◌>>◌,
}
use cup.Text.{text_copy, text_split_exact, text_parse_key_value}
use cup.Text.Reader.{
  TextDocumentReader, text_document_reader_init, text_document_read_line, each_line,
}
use cup.Registry.{max_identifier_len, max_platform_len}
use cup.Selector.{max_selector_len}
use cup.Package.{
  PackageIdentity, package_identity_format_selector, package_identity_from_selector,
  package_identity_get_scope, ◌then_by◌, compare_versions,
}
use cup.State.{CupState, state_init, state_validate, state_add_installed, find_default_index}
use cup.State.Defaults.{state_validate_current_host, state_set_default_raw}

abbrev pub max_state_line_len : ℕ
max_state_line_len = 256

abbrev pub max_state_file_bytes : ℕ
max_state_file_bytes = 4 * 1024 * 1024

abbrev pub header : Text
header = codes "format=2"

pub data StateRecordType : Type 0 where
  installed default : StateRecordType

abbrev pub kind_name : StateRecordType → Text
kind_name installed = codes "installed"
kind_name default = codes "default"

-- `<kind>.<component>.<target>=<selector>`, without the newline.
unfoldable pub record_line : StateRecordType → PackageIdentity → Text → Text
record_line kind identity selector =
    kind_name kind
    ++ (b'.' ∷ identity.component ++ (b'.' ∷ identity.target_platform ++ (b'=' ∷ selector)))

-- The loop of `state_measure_persistent`.
unfoldable pub measure_records : StateRecordType → ℕ → List PackageIdentity → Result ℕ
measure_records kind total [] = ok total
measure_records kind total (identity ∷ items) = do
  selector ← package_identity_format_selector identity max_selector_len
  let written = length (record_line kind identity selector) + 1
  elim (leb max_state_line_len written || ltb (max_state_file_bytes - written) total) [
    | true ↦ err state_full
    | false ↦ measure_records kind (total + written) items
  ]

unfoldable pub state_measure_persistent : CupState → Result ℕ
unfolding measure_records
state_measure_persistent state = elim (state_validate state) [
  | cup_ok ↦ (do
    total ← measure_records installed (length header + 1) state.installed
    measure_records default total state.defaults)
  | e ↦ err e
]

-- `parse_state_key`: the record's type, component and target. An unknown type is the source's
-- `STATE_RECORD_UNKNOWN`, which its caller refuses as it refuses an error.
two_fields : StateRecordType → List Text → Result (StateRecordType × Text × Text)
two_fields kind (component ∷ target ∷ []) = ok (kind, component, target)
two_fields kind _ = err state_load

unfoldable pub parse_scope : StateRecordType → Text → Result (StateRecordType × Text × Text)
unfolding two_fields text_copy text_split_exact
parse_scope kind scope = do
  body ← text_copy max_state_line_len scope
  parts ← text_split_exact body b'.' (max_identifier_len ∷ max_platform_len ∷ [])
  two_fields kind parts

unfoldable pub parse_state_key : Text → Result (StateRecordType × Text × Text)
unfolding parse_scope strip_prefix
parse_state_key key =
    if is_nil key then err invalid_input else elim (strip_prefix (codes "installed.") key) [
      | some scope ↦ parse_scope installed scope
      | none ↦ elim (strip_prefix (codes "default.") key) [
        | some scope ↦ parse_scope default scope
        | none ↦ err state_load
      ]
    ]

-- Any failure of a step becomes `CUP_ERR_STATE_LOAD`.
abbrev or_load_error {ℓ} : {A : Type ℓ} → Result A → Result A
or_load_error (ok a) = ok a
or_load_error (err _) = err state_load

added : CupError × CupState → Result CupState
added (cup_ok, state) = ok state
added (temporary, state) = err temporary
added (e, state) = err state_load

replaced : CupError × CupState → Result CupState
replaced (cup_ok, state) = ok state
replaced (e, state) = err state_load

add_default : CupState → PackageIdentity → Result CupState
unfolding replaced
add_default state identity = elim (package_identity_get_scope identity) [
  | err _ ↦ err state_load
  | ok scope ↦ elim (find_default_index state scope) [
    | some _ ↦ err state_load
    | none ↦ replaced (state_set_default_raw state identity)
  ]
]

module _ (allocates : ℕ → Bool) (host : Text) where
  unfoldable pub apply_record : CupState → StateRecordType → PackageIdentity → Result CupState
  unfolding added add_default
  apply_record state installed identity = added (state_add_installed allocates state identity)
  apply_record state default identity = add_default state identity

  unfoldable pub parse_state_line : CupState → ℕ → Text → Result CupState
  unfolding apply_record
  parse_state_line state line_number line = if is_nil host then err invalid_input else do
    field ← or_load_error (text_parse_key_value line max_state_line_len max_selector_len)
    key ← or_load_error (parse_state_key field.0)
    identity ← or_load_error (package_identity_from_selector key.1 host key.2 field.1)
    apply_record state key.0 identity

  unfoldable pub read_records : TextDocumentReader → Result CupState
  read_records reader = do
    loaded ←
        each_line (λ _. state_load) parse_state_line (suc (length reader.rest)) max_state_line_len
          state_init reader
    ok loaded.0

-- The first line that counts is the header.
unfoldable pub read_header : TextDocumentReader → Result TextDocumentReader
read_header reader = elim (text_document_read_line reader max_state_line_len) [
  | err _ ↦ err state_load
  | ok (none, _) ↦ err state_load
  | ok (some line, rest) ↦ if text_eq line header then ok rest else err state_load
]

check_loaded : CupState → Result CupState
check_loaded state = elim (state_validate state) [ cup_ok ↦ ok state | _ ↦ err state_load ]

snapshot_error : CupError → CupError
snapshot_error buffer_too_small = state_full
snapshot_error e = e

-- The records behind the header, of a file that is there.
unfoldable pub parse_document : (ℕ → Bool) → Result Text → Text → Result CupState
unfolding read_records read_header check_loaded
parse_document allocates host bytes = do
  current ← or_load_error host
  reader ← or_load_error (text_document_reader_init bytes)
  records ← read_header reader
  candidate ← read_records allocates current records
  check_loaded candidate

-- `state_load`, from what `filesystem_snapshot_read` answers. A missing file gives `none`, and
-- the caller's state stays as it was.
unfoldable pub load_state_path :
    (ℕ → Bool) → Result Text → Result (Option Text) → Result (Option CupState)
unfolding parse_document snapshot_error
load_state_path allocates host (err e) = err (snapshot_error e)
load_state_path allocates host (ok none) = ok none
load_state_path allocates host (ok (some bytes)) = do
  state ← parse_document allocates host bytes
  ok (some state)

unfoldable pub compare_identity_pointers : PackageIdentity → PackageIdentity → Ordering
unfolding ◌then_by◌ compare_versions
compare_identity_pointers a b =
    strcmp a.component b.component
    then_by strcmp a.target_platform b.target_platform
    then_by strcmp a.tool b.tool
    then_by compare_versions a.version b.version

unfoldable pub write_state_record : StateRecordType → PackageIdentity → Result Text
write_state_record kind identity =
    elim (package_identity_format_selector identity max_selector_len) [
      | err _ ↦ err inconsistent_state
      | ok selector ↦ ok (record_line kind identity selector ++ (b'\n' ∷ []))
    ]

unfoldable pub write_records : StateRecordType → List PackageIdentity → Result Text
write_records kind [] = ok []
write_records kind (identity ∷ items) = do
  line ← write_state_record kind identity
  rest ← write_records kind items
  ok (line ++ rest)

unfoldable pub write_state_file : List PackageIdentity → List PackageIdentity → Result Text
unfolding write_records
write_state_file sorted_installed sorted_defaults = do
  installed_lines ← write_records installed sorted_installed
  default_lines ← write_records default sorted_defaults
  ok (header ++ (b'\n' ∷ (installed_lines ++ default_lines)))

-- Fewer than two entries are not handed to `qsort`.
abbrev pub sorted_by :
    ((PackageIdentity → PackageIdentity → Ordering) → List PackageIdentity → List PackageIdentity)
    → List PackageIdentity
    → List PackageIdentity
sorted_by sort [] = []
sorted_by sort (x ∷ []) = x ∷ []
sorted_by sort (x ∷ y ∷ items) = sort compare_identity_pointers (x ∷ y ∷ items)

host_check : Result Text → CupState → Result (Unit {0})
host_check (err _) state = err inconsistent_state
host_check (ok host) state = elim (state_validate_current_host state host) [
  | cup_ok ↦ ok tt
  | _ ↦ err inconsistent_state
]

-- `state_save` up to the publication: the bytes that it hands to the file system.
module _
    (sort : (PackageIdentity → PackageIdentity → Ordering)
      → List PackageIdentity
      → List PackageIdentity) where
  unfoldable pub state_save_document : Result Text → CupState → Result Text
  unfolding host_check
  state_save_document host state = elim (state_validate state) [
    | cup_ok ↦ (do
      size ← state_measure_persistent state
      host_check host state
      write_state_file (sorted_by sort state.installed) (sorted_by sort state.defaults))
    | e ↦ err e
  ]
