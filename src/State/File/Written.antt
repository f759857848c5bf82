-- ===== src/State/File/Written.antt =====
-- The bytes that `state_save` writes, as lines (src/state.c).
use mathlib.Core.List.{Permᴰ}
use mathlib.Core.List.Permᴰ
use cup.Base.{
  ℕ, ◌+◌, ◌-◌, ◌≤◌, false, ◌||◌, ltb, leb, List, [], ◌∷◌, ◌++◌, Ordering, ◌≡◌, refl, inl, inr,
  arith, length, is_nil, All, Bool-cases, Text, text_eq_iff,
}
use cup.Errors.{bind-eq_ok, CupError, cup_ok, Result, ok, err}
use cup.Text.Lines.{document-append}
use cup.Text.Lines
use cup.Selector.{max_selector_len}
use cup.Package.{PackageIdentity, package_identity_format_selector}
use cup.Package.Laws.{IsIdentity}
use cup.State.{CupState, state_validate}
use cup.State.Defaults.{count_foreign, state_count_foreign_hosts, state_validate_current_host}
use cup.State.Valid.{IsValid}
use cup.State.Validate.{state_validate_iff}
use cup.State.File.{
  StateRecordType, installed, default, header, record_line, max_state_line_len,
  max_state_file_bytes, measure_records, state_measure_persistent, compare_identity_pointers,
  write_state_file, sorted_by, host_check, state_save_document,
}
use cup.State.File.Read.{record_texts, write_records-texts}

-- The items fit where their lines do.
measure_records-bound :
    (kind : StateRecordType) (items : List PackageIdentity) (total sum : ℕ)
    → total ≤ max_state_file_bytes
    → measure_records kind total items ≡ ok sum
    → (total + length items ≤ sum) × (sum ≤ max_state_file_bytes)
unfolding measure_records
measure_records-bound kind [] total sum k h = (ground (arith, h), ground (arith, h))
measure_records-bound kind (x ∷ xs) total sum k h =
    let (selector, step, rest) =
      bind-eq_ok (package_identity_format_selector x max_selector_len) _ h in
    let written = length (record_line kind x selector) + 1 in
    elim (Bool-cases
      (leb max_state_line_len written || ltb (max_state_file_bytes - written) total)) [
        | inl over ↦ absurd (ground (arith, rest, over))
        | inr fits ↦
            (let after = rw fits at rest in
              let (most, within) =
                measure_records-bound kind xs (total + written) sum (ground (arith, fits)) after in
              (omega (arith, most), within))
      ]

count_foreign-zero :
    (host : Text) (items : List PackageIdentity)
    → count_foreign host items ≡ 0
    → All (λ x. x.host_platform ≡ host) items
unfolding count_foreign
count_foreign-zero host [] h = tt
count_foreign-zero host (x ∷ xs) h = (
  ground (arith, h, text_eq_iff x.host_platform host),
  count_foreign-zero host xs (ground (arith, h)),
)

pub sorted_by-perm :
    (sort : (PackageIdentity → PackageIdentity → Ordering)
      → List PackageIdentity
      → List PackageIdentity)
    → ((items : List PackageIdentity) → Permᴰ (sort compare_identity_pointers items) items)
    → (items : List PackageIdentity) → Permᴰ (sorted_by sort items) items
sorted_by-perm sort h [] = Permᴰ.nil
sorted_by-perm sort h (x ∷ []) = Permᴰ.refl (x ∷ [])
sorted_by-perm sort h (x ∷ y ∷ xs) = h (x ∷ y ∷ xs)

-- What is known where `state_save` comes to the publication.
pub record Saved (host bytes : Text) (installed_items choices : List PackageIdentity) (s : CupState)
    : Type 0 where
  pub valid : IsValid s
  pub few : length s.installed ≤ max_state_file_bytes
  pub named : is_nil host ≡ false
  pub installed_here : All (λ x. x.host_platform ≡ host) s.installed
  pub defaults_here : All (λ x. x.host_platform ≡ host) s.defaults
  pub written : write_state_file installed_items choices ≡ ok bytes

measured_few :
    (s : CupState) (size : ℕ)
    → state_measure_persistent s ≡ ok size
    → state_validate s ≡ cup_ok
    → length s.installed ≤ max_state_file_bytes
unfolding state_measure_persistent
measured_few s size h v =
    let (middle, first, rest) =
      bind-eq_ok (measure_records installed (length header + 1) s.installed)
        (λ total. measure_records default total s.defaults) {u = size} (ground (arith, h, v)) in
    let (most, within) =
      measure_records-bound installed s.installed (length header + 1) middle (omega arith) first in
    omega (arith, most, within)

host_check-ok :
    (host : Text) (s : CupState)
    → host_check (ok host) s ≡ ok tt
    → (is_nil host ≡ false)
      × (count_foreign host s.installed ≡ 0)
      × (count_foreign host s.defaults ≡ 0)
unfolding host_check state_validate_current_host state_count_foreign_hosts
host_check-ok host s h = (ground arith, ground arith, ground arith)

guarded {ℓ} :
    {A : Type ℓ} (e : CupError) (r : Result A) (a : A)
    → elim e [ cup_ok ↦ r | other ↦ err other ] ≡ ok a
    → e ≡ cup_ok
guarded cup_ok r a h = refl
guarded e r a h = absurd (ground (arith, h))

pub save-Saved :
    (sort : (PackageIdentity → PackageIdentity → Ordering)
      → List PackageIdentity
      → List PackageIdentity)
    (host bytes : Text) (s : CupState)
    → state_save_document sort (ok host) s ≡ ok bytes
    → Saved host bytes (sorted_by sort s.installed) (sorted_by sort s.defaults) s
unfolding state_save_document
save-Saved sort host bytes s h =
    let v = guarded (state_validate s) _ bytes h in
    let later = rw (state_save_document, v) at h in
    let (size, measured, rest) = bind-eq_ok (state_measure_persistent s) _ later in
    let (_, here, written) = bind-eq_ok (host_check (ok host) s) _ rest in
    let (named, first, second) = host_check-ok host s here in
    record {
      valid = (state_validate_iff s).0 v;
      few = measured_few s size measured v;
      named = named;
      installed_here = count_foreign-zero host s.installed first;
      defaults_here = count_foreign-zero host s.defaults second;
      written = written;
    }

pub write_state_file-document :
    (installed_items choices : List PackageIdentity)
    → All IsIdentity installed_items
    → All IsIdentity choices
    → write_state_file installed_items choices
      ≡ ok (
          Lines.document
            (header ∷ (record_texts installed installed_items ++ record_texts default choices)))
unfolding write_state_file
write_state_file-document installed_items choices a b =
    rw
      (
        write_state_file,
        write_records-texts installed installed_items a,
        write_records-texts default choices b,
        document-append (record_texts installed installed_items) (record_texts default choices),
      )
      refl
