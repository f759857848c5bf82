-- ===== src/Text/Split.antt =====
-- `text_split_exact` on names that are joined by dots (src/text.c).
use cup.Base.{
  ℕ, ◌≤◌, true, not, none, List, [], ◌∷◌, ◌++◌, ◌≡◌, refl, arith, ◌==◌, all, Text, break_at,
}
use cup.Errors.{Result, ok, ◌>>=◌}
use cup.Text.{text_copy, split_fields, take_field}
use cup.Text.Fields.{break_at-found, text_trim_graphic}
use cup.Registry.Names.{Bytes}

pub break_at-absent :
    (c : ℕ) (t : Text) → all (λ b. not (b == c)) t ≡ true → break_at c t ≡ (t, none)
unfolding break_at
break_at-absent c [] h = refl
break_at-absent c (b ∷ t) h = ground (arith, break_at-absent c t (ground arith))

take_field-name :
    (name : Text) (capacity : ℕ) → Bytes name → 32 ≤ capacity → take_field capacity name ≡ ok name
unfolding take_field text_copy
take_field-name name capacity n k =
    ground (arith, text_trim_graphic name n.graphic, n.ne_nil, n.short)

-- A name and a dot in front.
pub split_fields-name :
    (name more : Text) (capacity next : ℕ) (outputs : List ℕ)
    → Bytes name
    → 32 ≤ capacity
    → split_fields b'.' (capacity ∷ next ∷ outputs) (name ++ (b'.' ∷ more))
      ≡ (split_fields b'.' (next ∷ outputs) more >>= λ fields. ok (name ∷ fields))
unfolding split_fields
split_fields-name name more capacity next outputs n k =
    rw (split_fields, break_at-found b'.' name more n.no_dot, take_field-name name capacity n k)
      refl

pub split_fields-last :
    (name : Text) (capacity : ℕ)
    → Bytes name
    → 32 ≤ capacity
    → split_fields b'.' (capacity ∷ []) name ≡ ok (name ∷ [])
unfolding split_fields
split_fields-last name capacity n k =
    rw (split_fields, break_at-absent b'.' name n.no_dot, take_field-name name capacity n k) refl

pub bind_name :
    (name : Text) {r : Result (List Text)} {fields : List Text}
    → r ≡ ok fields
    → (r >>= λ fs. ok (name ∷ fs)) ≡ ok (name ∷ fields)
bind_name name h = ground (arith, h)
