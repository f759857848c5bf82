-- ===== src/Text/Decimal.antt =====
-- The numbers that `text_parse_uint` reads (src/text.c).
use cup.Base.{
  ℕ, zero, suc, ◌+◌, ◌-◌, ◌*◌, ◌/◌, ◌≤◌, ◌<◌, true, some, [], ◌∷◌, ◌≡◌, ◌↔◌, inl, inr, arith, ltb,
  length, all, Text, Bool-cases,
}
use cup.Path.{ascii_is_digit}
use cup.Selector.{is_number}
use cup.Selector.Numbers.{pow10, number_value}
use cup.Text.{parse_digits, leading_zero, text_parse_uint}

pow10_pos : (n : ℕ) → 1 ≤ pow10 n
pow10_pos zero = omega arith
pow10_pos (suc n) = omega (arith, pow10_pos n)

-- The guard of the loop, without a product: the division rounds down.
guard_iff :
    (maximum parsed digit : ℕ)
    → digit ≤ maximum
    → ((maximum - digit) / 10 < parsed) ↔ (maximum < parsed * 10 + digit)
guard_iff maximum parsed digit h = ground arith

-- The digits that are left, behind what is parsed.
abbrev Reads : ℕ → ℕ → Text → ℕ → Type 0
Reads maximum parsed cs n =
    (all ascii_is_digit cs ≡ true)
    × (parsed * pow10 (length cs) + number_value cs ≡ n)
    × (n ≤ maximum)

step_value :
    (parsed digit p v : ℕ) → (parsed * 10 + digit) * p + v ≡ parsed * (10 * p) + (digit * p + v)
step_value parsed digit p v = grind arith

too_large :
    (parsed digit p v n maximum : ℕ)
    → 1 ≤ p
    → maximum < parsed * 10 + digit
    → parsed * (10 * p) + (digit * p + v) ≡ n
    → maximum < n
too_large parsed digit p v n maximum h k e = grind arith

parse_digits-eq_some :
    (maximum parsed n : ℕ) (cs : Text)
    → parsed ≤ maximum
    → (parse_digits maximum parsed cs ≡ some n) ↔ Reads maximum parsed cs n
unfolding parse_digits ascii_is_digit
parse_digits-eq_some maximum parsed n [] h = ground arith
parse_digits-eq_some maximum parsed n (c ∷ cs) h =
    elim (Bool-cases (ltb maximum (parsed * 10 + (c - b'0')))) [
      | inl over ↦ (
        (λ e. absurd (ground arith)),
        (λ r. absurd (
            omega (
              arith,
              r.2,
              too_large parsed (c - b'0') (pow10 (length cs)) (number_value cs) n maximum
                  (pow10_pos (length cs)) (ground arith) r.1,
            ))),
      )
      | inr fits ↦
          (let ih = parse_digits-eq_some maximum (parsed * 10 + (c - b'0')) n cs (ground arith) in
            ground (arith, ih, step_value parsed (c - b'0') (pow10 (length cs)) (number_value cs)))
    ]

-- text_parse_uint reads a number from a text exactly if the text is digits without a leading
-- zero, the number is the one that the digits write in base ten, and it is the maximum at most.
pub text_parse_uint-eq_some :
    (value : Text) (maximum n : ℕ)
    → (text_parse_uint value maximum ≡ some n)
      ↔ ((is_number value ≡ true) × (number_value value ≡ n) × (n ≤ maximum))
unfolding text_parse_uint leading_zero is_number
text_parse_uint-eq_some [] maximum n = ground arith
text_parse_uint-eq_some (c ∷ []) maximum n =
    ground (arith, parse_digits-eq_some maximum 0 n (c ∷ []) (omega arith))
text_parse_uint-eq_some (c ∷ d ∷ cs) maximum n =
    ground (arith, parse_digits-eq_some maximum 0 n (c ∷ d ∷ cs) (omega arith))
