-- ===== src/Uninstall/RoundTrip.antt =====
-- Loading an uninstall journal that was written (src/uninstall_journal.c).
use cup.Base.{true, false, some, ◌≡◌, arith, is_nil, Text}
use cup.Errors.{ok}
use cup.System.{SystemPathIdentity}
use cup.Journal.{parse_journal, runtime_journal_parse_at}
use cup.Journal.Document.{parse_journal-document}
use cup.Uninstall.{
  UninstallJournal, uninstall_journal_init, journal_is_coherent, write_journal, set_field,
  journal_keys, uninstall_journal_load_at,
}
use cup.Uninstall.Written.{
  first_field, later_fields, write_journal-document, journal_is_coherent-Coherent, fields-IsField,
}
use cup.Uninstall.Fields.{candidate, visit_all-candidate, fields-Ordered, all_fields_read}

parse_journal-candidate :
    (j : UninstallJournal)
    → journal_is_coherent j ≡ true
    → parse_journal (some journal_keys) set_field uninstall_journal_init (write_journal j)
      ≡ ok (candidate j)
parse_journal-candidate j h =
    let c = journal_is_coherent-Coherent j h in
    rw (write_journal-document j) (
      parse_journal-document (some journal_keys) set_field first_field (later_fields j)
        uninstall_journal_init (candidate j) (fields-IsField j c) (fields-Ordered j) all_fields_read
        (visit_all-candidate j c))

-- The coherence does not look at the file's identity.
candidate-coherent :
    (j : UninstallJournal) → journal_is_coherent j ≡ true → journal_is_coherent (candidate j) ≡ true
unfolding journal_is_coherent
candidate-coherent j h = h

-- Under a root that is not empty, uninstall_journal_load_at loads a coherent journal from the
-- text of write_journal, with the identity of the file read.
pub load_at-write_journal :
    (root : Text) (j : UninstallJournal) (file : SystemPathIdentity)
    → is_nil root ≡ false
    → journal_is_coherent j ≡ true
    → uninstall_journal_load_at root (ok (some (write_journal j, file)))
      ≡ ok (some (record j { file_identity = file }))
unfolding uninstall_journal_load_at runtime_journal_parse_at
load_at-write_journal root j file r h =
    ground (arith, r, parse_journal-candidate j h, candidate-coherent j h)
