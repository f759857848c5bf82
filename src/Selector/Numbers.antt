-- ===== src/Selector/Numbers.antt =====
-- The comparison of decimal texts and the numbers that they write (src/package_selector.c).
use cup.Base.{
  ℕ, zero, suc, ◌+◌, ◌-◌, ◌*◌, ◌≤◌, ◌<◌, true, [], ◌∷◌, ◌≡◌, refl, sym, ap, ◌∙◌, ◌⊎◌, inl, inr,
  arith, compare, Ordering, length, all, Text, strcmp,
}
use cup.Path.{ascii_is_digit}
use cup.Selector.{is_number, skip_zeros, compare_by_length, compare_numeric_text}

abbrev pub pow10 : ℕ → ℕ
pow10 zero = 1
pow10 (suc n) = 10 * pow10 n

-- The number that a text of digits writes.
abbrev pub number_value : Text → ℕ
number_value [] = 0
number_value (c ∷ cs) = (c - b'0') * pow10 (length cs) + number_value cs

number_value-lt : (cs : Text) → all ascii_is_digit cs ≡ true → number_value cs < pow10 (length cs)
unfolding ascii_is_digit
number_value-lt [] h = omega arith
number_value-lt (c ∷ cs) h =
    let rest : number_value cs < pow10 (length cs) = number_value-lt cs (ground arith) in
    let digit : c - b'0' ≤ 9 = ground arith in grind arith

pow10-le : (m n : ℕ) → m ≤ n → pow10 m ≤ pow10 n
pow10-le zero zero h = omega arith
pow10-le zero (suc n) h = omega (arith, pow10-le zero n (omega arith))
pow10-le (suc m) zero h = absurd (omega arith)
pow10-le (suc m) (suc n) h = omega (arith, pow10-le m n (omega arith))

-- Digits in front decide before the digits behind.
digits_lt : (x y p u v : ℕ) → x < y → u < p → x * p + u < y * p + v
digits_lt x y p u v h k = grind arith

compare_lt : (m n : ℕ) → m < n → compare m n ≡ Ordering.lt
compare_lt m n h = ground arith

compare_gt : (m n : ℕ) → n < m → compare m n ≡ Ordering.gt
compare_gt m n h = ground arith

order : (m n : ℕ) → (m < n) ⊎ ((m ≡ n) ⊎ (n < m))
order m n = ground arith

compare_refl : (m : ℕ) → compare m m ≡ Ordering.eq
compare_refl m = ground arith

compare_eq : (m n : ℕ) → m ≡ n → compare m n ≡ Ordering.eq
compare_eq m n h = ground arith

same_front : (m u v : ℕ) → compare u v ≡ compare (m + u) (m + v)
same_front m u v = ground arith

compare_digits :
    (x y p u v : ℕ) (rest : Ordering)
    → b'0' ≤ x
    → b'0' ≤ y
    → u < p
    → v < p
    → rest ≡ compare u v
    → (elim (compare x y) [
      | Ordering.lt ↦ Ordering.lt
      | Ordering.eq ↦ rest
      | Ordering.gt ↦ Ordering.gt
    ])
      ≡ compare ((x - b'0') * p + u) ((y - b'0') * p + v)
compare_digits x y p u v rest hx hy hu hv e = elim (order x y) [
  | inl lt ↦
      rw (compare_lt x y lt)
        (sym (compare_lt _ _ (digits_lt (x - b'0') (y - b'0') p u v (omega arith) hu)))
  | inr (inl same) ↦ rw (same, compare_refl y) (e ∙ same_front ((y - b'0') * p) u v)
  | inr (inr gt) ↦
      rw (compare_gt x y gt)
        (sym (compare_gt _ _ (digits_lt (y - b'0') (x - b'0') p v u (omega arith) hv)))
]

strcmp-compare :
    (a b : Text)
    → length a ≡ length b
    → all ascii_is_digit a ≡ true
    → all ascii_is_digit b ≡ true
    → strcmp a b ≡ compare (number_value a) (number_value b)
unfolding strcmp ascii_is_digit
strcmp-compare [] [] h p q = refl
strcmp-compare [] (y ∷ b) h p q = absurd (omega arith)
strcmp-compare (x ∷ a) [] h p q = absurd (omega arith)
strcmp-compare (x ∷ a) (y ∷ b) h p q =
    let same : length a ≡ length b = omega arith in
    let width : pow10 (length a) ≡ pow10 (length b) = ap pow10 same in
    compare_digits x y (pow10 (length a)) (number_value a) (number_value b) (strcmp a b)
      (ground arith) (ground arith) (number_value-lt a (ground arith))
      (rw width (number_value-lt b (ground arith)))
      (strcmp-compare a b same (ground arith) (ground arith))
    ∙ ap
        (λ w.
          compare ((x - b'0') * pow10 (length a) + number_value a)
            ((y - b'0') * w + number_value b))
        width

-- A number has no zero in front of other digits.
abbrev StartsHigh : Text → Type 0
StartsHigh [] = ⊥
StartsHigh (c ∷ cs) = b'1' ≤ c

shorter_lt :
    (a b : Text)
    → all ascii_is_digit a ≡ true
    → StartsHigh b
    → length a < length b
    → number_value a < number_value b
unfolding ascii_is_digit
shorter_lt a [] p q h = absurd q
shorter_lt a (y ∷ b) p q h =
    let below : number_value a < pow10 (length a) = number_value-lt a p in
    let room : pow10 (length a) ≤ pow10 (length b) = pow10-le (length a) (length b) (omega arith) in
    let front : pow10 (length b) ≤ (y - b'0') * pow10 (length b) = grind arith in omega arith

-- What `skip_zeros` leaves of a number: the number itself.
skip_zeros-is_number : (cs : Text) → is_number cs ≡ true → skip_zeros cs ≡ cs
unfolding skip_zeros is_number
skip_zeros-is_number [] h = refl
skip_zeros-is_number (c ∷ []) h = refl
skip_zeros-is_number (c ∷ d ∷ cs) h = ground arith

pub is_number-digits : (cs : Text) → is_number cs ≡ true → all ascii_is_digit cs ≡ true
unfolding is_number
is_number-digits [] h = refl
is_number-digits (c ∷ []) h = ground arith
is_number-digits (c ∷ d ∷ cs) h = ground arith

is_number-StartsHigh : (c d : ℕ) (cs : Text) → is_number (c ∷ d ∷ cs) ≡ true → b'1' ≤ c
unfolding is_number ascii_is_digit
is_number-StartsHigh c d cs h = ground arith

longer_lt :
    (a b : Text)
    → is_number a ≡ true
    → is_number b ≡ true
    → length a < length b
    → number_value a < number_value b
longer_lt [] b p q h = absurd (unfold is_number in ground arith)
longer_lt (x ∷ a) [] p q h = absurd (omega arith)
longer_lt (x ∷ a) (y ∷ []) p q h = absurd (omega arith)
longer_lt (x ∷ a) (y ∷ z ∷ b) p q h =
    shorter_lt (x ∷ a) (y ∷ z ∷ b) (is_number-digits (x ∷ a) p) (is_number-StartsHigh y z b q) h

-- Two texts of digits without a leading zero compare by compare_numeric_text as the numbers that
-- they write.
pub compare_numeric_text-compare :
    (a b : Text)
    → is_number a ≡ true
    → is_number b ≡ true
    → compare_numeric_text a b ≡ compare (number_value a) (number_value b)
unfolding compare_numeric_text compare_by_length
compare_numeric_text-compare a b p q =
    rw (skip_zeros-is_number a p, skip_zeros-is_number b q)
      (elim (order (length a) (length b)) [
        | inl lt ↦
            rw (compare_lt (length a) (length b) lt, compare_by_length)
              (sym (compare_lt _ _ (longer_lt a b p q lt)))
        | inr (inl same) ↦
            rw (compare_eq (length a) (length b) same, compare_by_length)
              (strcmp-compare a b same (is_number-digits a p) (is_number-digits b q))
        | inr (inr gt) ↦
            rw (compare_gt (length a) (length b) gt, compare_by_length)
              (sym (compare_gt _ _ (longer_lt b a q p gt)))
      ])

pub number_value_pos : (c : ℕ) (cs : Text) → b'1' ≤ c → 0 < number_value (c ∷ cs)
number_value_pos c cs h =
    let unit : 1 ≤ pow10 (length cs) = pow10-le 0 (length cs) (omega arith) in
    let front : pow10 (length cs) ≤ (c - b'0') * pow10 (length cs) = grind arith in omega arith
