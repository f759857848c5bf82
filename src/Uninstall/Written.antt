-- ===== src/Uninstall/Written.antt =====
-- The fields that `write_journal` writes, and how they are read back (src/uninstall_journal.c).
use mathlib.Core.List.{append_assoc}
use cup.Base.{
  ℕ, ◌<◌, true, false, ◌&&◌, some, List, [], ◌∷◌, ◌≡◌, ◌⊎◌, refl, arith, inl, inr, length, all,
  is_nil, Text, codes, text_eq, All, leb, &&-true_iff, Option-cases, Bool-cases,
}
use cup.Text.{digits, decimal}
use cup.Text.Reader.{is_skipped}
use cup.Text.Fields.{is_graphic}
use cup.Path.{
  ascii_is_alnum, ascii_is_alpha, ascii_is_digit, path_is_safe_segment, path_generated_temp_suffix,
}
use cup.Journal.{is_token_byte, runtime_journal_token_is_valid}
use cup.Journal.Document.{Field, IsField, document}
use cup.Transaction.Written.{IsValue, segment-IsValue}
use cup.Transaction.Fields.{is_key, value-IsField}
use cup.Uninstall.{
  UninstallPhase, scheduled, detaching, failed, other_phase, UninstallJournal,
  uninstall_temp_prefix, uninstall_phase_name, temporary_name_token, name_matches_token,
  error_fits_phase, journal_is_coherent, write_journal,
}

abbrev pub first_field : Field
first_field = (codes "format", codes "2")

-- The fields of the journal, in the order of `journal_keys`.
abbrev pub later_fields : UninstallJournal → List Field
later_fields j =
    (codes "operation", codes "uninstall")
    ∷ (codes "phase", uninstall_phase_name j.phase)
    ∷ (codes "temporary_name", j.temporary_name)
    ∷ (codes "token", j.token)
    ∷ (codes "error", decimal j.error_code)
    ∷ []

pub write_journal-document :
    (j : UninstallJournal) → write_journal j ≡ document (first_field ∷ later_fields j)
unfolding write_journal
write_journal-document j =
    rw
      (
        append_assoc (uninstall_phase_name j.phase) (b'\n' ∷ []) _,
        append_assoc j.temporary_name (b'\n' ∷ []) _,
        append_assoc j.token (b'\n' ∷ []) _,
      )
      refl

-- What `journal_is_coherent` establishes of the parts.
pub record Coherent (j : UninstallJournal) : Type 0 where
  pub segment : path_is_safe_segment j.temporary_name ≡ true
  pub name_fits : length j.temporary_name < 384
  pub good_token : runtime_journal_token_is_valid j.token ≡ true
  pub fits : error_fits_phase j.phase j.error_code ≡ true

suffix-safe :
    (name prefix suffix : Text)
    → path_generated_temp_suffix name prefix ≡ some suffix
    → path_is_safe_segment name ≡ true
unfolding path_generated_temp_suffix
suffix-safe name prefix suffix h = elim (Bool-cases (path_is_safe_segment name)) [
  | inl safe ↦ safe
  | inr unsafe ↦ absurd (ground (arith, unsafe))
]

token-of_name :
    (name token : Text)
    → temporary_name_token name ≡ some token
    → (length name < 384) × (path_generated_temp_suffix name uninstall_temp_prefix ≡ some token)
unfolding temporary_name_token
token-of_name name token h = elim (Bool-cases (leb 384 (length name))) [
  | inl long ↦ absurd (ground (arith, long))
  | inr short ↦ (ground arith, rw short at h)
]

matches-parts :
    (name token : Text)
    → name_matches_token name token ≡ true
    → (path_is_safe_segment name ≡ true)
      × (length name < 384)
      × (runtime_journal_token_is_valid token ≡ true)
unfolding name_matches_token
matches-parts name token h = elim (Option-cases (temporary_name_token name)) [
  | inl none_there ↦ absurd (ground (arith, none_there))
  | inr (name_token, found) ↦
      (let (short, suffix) = token-of_name name name_token found in
        let both : (runtime_journal_token_is_valid token && text_eq name_token token) ≡ true =
          rw (name_matches_token, found) at h in
        (
          suffix-safe name uninstall_temp_prefix name_token suffix,
          short,
          ((&&-true_iff (runtime_journal_token_is_valid token) _).0 both).0,
        ))
]

pub journal_is_coherent-Coherent :
    (j : UninstallJournal) → journal_is_coherent j ≡ true → Coherent j
unfolding journal_is_coherent
journal_is_coherent-Coherent j h =
    let (names, fits) = (&&-true_iff (name_matches_token j.temporary_name j.token) _).0 h in
    let m = matches-parts j.temporary_name j.token names in
    record { segment = m.0; name_fits = m.1; good_token = m.2; fits = fits }

token_byte-graphic : (c : ℕ) → is_token_byte c ≡ true → is_graphic c ≡ true
unfolding is_token_byte ascii_is_alnum ascii_is_alpha ascii_is_digit
token_byte-graphic c h = ground arith

token_bytes-graphic : (t : Text) → all is_token_byte t ≡ true → all is_graphic t ≡ true
token_bytes-graphic [] h = refl
token_bytes-graphic (c ∷ cs) h =
    let (first, rest) = (&&-true_iff (is_token_byte c) (all is_token_byte cs)).0 h in
    (&&-true_iff (is_graphic c) (all is_graphic cs)).1
      (token_byte-graphic c first, token_bytes-graphic cs rest)

pub token-parts :
    (token : Text)
    → runtime_journal_token_is_valid token ≡ true
    → (all is_token_byte token ≡ true) × (is_nil token ≡ false) × (length token < 256)
unfolding runtime_journal_token_is_valid
token-parts token h = (ground arith, ground arith, ground arith)

phase-IsValue :
    (phase : UninstallPhase) (n : ℕ)
    → error_fits_phase phase n ≡ true
    → IsValue (uninstall_phase_name phase) × (length (uninstall_phase_name phase) < 384)
unfolding uninstall_phase_name error_fits_phase
phase-IsValue scheduled n h = (record { graphic = refl; ne_nil = refl }, omega arith)
phase-IsValue detaching n h = (record { graphic = refl; ne_nil = refl }, omega arith)
phase-IsValue failed n h = (record { graphic = refl; ne_nil = refl }, omega arith)
phase-IsValue other_phase n h = absurd (ground arith)

-- The error codes of the phases.
abbrev pub IsCode : ℕ → Type 0
IsCode n = (n ≡ 0) ⊎ (n ≡ 6)

pub fits-IsCode : (phase : UninstallPhase) (n : ℕ) → error_fits_phase phase n ≡ true → IsCode n
unfolding error_fits_phase
fits-IsCode scheduled n h = inl (ground arith)
fits-IsCode detaching n h = inl (ground arith)
fits-IsCode failed n h = inr (ground arith)
fits-IsCode other_phase n h = absurd (ground arith)

code-IsValue : (n : ℕ) → IsCode n → IsValue (decimal n) × (length (decimal n) < 384)
unfolding decimal digits
code-IsValue n (inl e) = rw e (record { graphic = refl; ne_nil = refl }, omega arith)
code-IsValue n (inr e) = rw e (record { graphic = refl; ne_nil = refl }, omega arith)

pub fields-IsField :
    (j : UninstallJournal) → Coherent j → All IsField (first_field ∷ later_fields j)
unfolding is_key is_skipped
fields-IsField j c =
    let phase = phase-IsValue j.phase j.error_code c.fits in
    let code = code-IsValue j.error_code (fits-IsCode j.phase j.error_code c.fits) in
    let t = token-parts j.token c.good_token in
    (
      value-IsField (codes "format") (codes "2") refl (record { graphic = refl; ne_nil = refl })
          (omega arith),
      (
        value-IsField (codes "operation") (codes "uninstall") refl
            (record { graphic = refl; ne_nil = refl }) (omega arith),
        (
          value-IsField (codes "phase") (uninstall_phase_name j.phase) refl phase.0 phase.1,
          (
            value-IsField (codes "temporary_name") j.temporary_name refl
                (segment-IsValue j.temporary_name c.segment) c.name_fits,
            (
              value-IsField (codes "token") j.token refl
                  (record { graphic = token_bytes-graphic j.token t.0; ne_nil = t.1 })
                  (omega (arith, t.2)),
              (value-IsField (codes "error") (decimal j.error_code) refl code.0 code.1, tt),
            ),
          ),
        ),
      ),
    )
