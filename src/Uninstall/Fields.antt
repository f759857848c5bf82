-- ===== src/Uninstall/Fields.antt =====
-- The parser of the uninstall journal on the written fields (src/uninstall_journal.c).
use cup.Base.{ℕ, ◌<◌, true, some, ◌∷◌, ◌≡◌, refl, arith, inl, inr, length, Text, codes, text_eq}
use cup.Errors.{ok}
use cup.Text.{text_copy, text_parse_uint, parse_digits, digits, decimal}
use cup.System.{no_identity}
use cup.Journal.{in_order, all_keys_read}
use cup.Journal.Document.{Ordered, visit_all}
use cup.Uninstall.{
  UninstallPhase, scheduled, detaching, failed, other_phase, UninstallJournal,
  uninstall_journal_init, uninstall_phase_name, parse_phase, error_fits_phase, set_field,
  journal_keys,
}
use cup.Uninstall.Written.{first_field, later_fields, Coherent, token-parts, IsCode, fits-IsCode}

-- The parser on each field.
set_format : (j : UninstallJournal) → set_field j (codes "format") (codes "2") ≡ ok j
unfolding set_field text_eq
set_format j = refl

set_operation : (j : UninstallJournal) → set_field j (codes "operation") (codes "uninstall") ≡ ok j
unfolding set_field text_eq
set_operation j = refl

set_phase :
    (j : UninstallJournal) (phase : UninstallPhase) (n : ℕ)
    → error_fits_phase phase n ≡ true
    → set_field j (codes "phase") (uninstall_phase_name phase) ≡ ok (record j { phase = phase })
unfolding set_field text_eq parse_phase uninstall_phase_name error_fits_phase
set_phase j scheduled n h = refl
set_phase j detaching n h = refl
set_phase j failed n h = refl
set_phase j other_phase n h = absurd (ground arith)

set_name :
    (j : UninstallJournal) (value : Text)
    → length value < 384
    → set_field j (codes "temporary_name") value ≡ ok (record j { temporary_name = value })
unfolding set_field text_eq text_copy
set_name j value h = ground (arith, h)

set_token :
    (j : UninstallJournal) (value : Text)
    → length value < 256
    → set_field j (codes "token") value ≡ ok (record j { token = value })
unfolding set_field text_eq text_copy
set_token j value h = ground (arith, h)

set_error :
    (j : UninstallJournal) (n : ℕ)
    → IsCode n
    → set_field j (codes "error") (decimal n) ≡ ok (record j { error_code = n })
unfolding set_field text_eq text_parse_uint parse_digits decimal digits
set_error j n (inl e) = rw e refl
set_error j n (inr e) = rw e refl

-- What the parser makes of the fields.
abbrev pub candidate : UninstallJournal → UninstallJournal
candidate j = record j { file_identity = no_identity }

pub visit_all-candidate :
    (j : UninstallJournal)
    → Coherent j
    → visit_all (some journal_keys) set_field uninstall_journal_init (first_field ∷ later_fields j)
      ≡ ok (candidate j)
unfolding visit_all
visit_all-candidate j c =
    rw
      (
        set_format _,
        set_operation _,
        set_phase _ j.phase j.error_code c.fits,
        set_name _ j.temporary_name c.name_fits,
        set_token _ j.token ((token-parts j.token c.good_token).2),
        set_error _ j.error_code (fits-IsCode j.phase j.error_code c.fits),
      )
      refl

pub fields-Ordered :
    (j : UninstallJournal) → Ordered (some journal_keys) set_field 0 (first_field ∷ later_fields j)
unfolding in_order text_eq
fields-Ordered j = (refl, (refl, (refl, (refl, (refl, (refl, tt))))))

pub all_fields_read : all_keys_read (some journal_keys) set_field 6 ≡ true
unfolding all_keys_read
all_fields_read = refl
