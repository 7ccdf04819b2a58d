-- ===== src/Bencode/Numbers.antt =====
-- Every integer of the format is accepted by the reader's check.
use native.Mathlib.Nat.{pow-suc, mul-le-mul_right}
use jacklet.Prelude.{
  ℕ, ◌+◌, ◌-◌, ◌*◌, ◌^◌, ◌≤◌, ◌<◌, ◌≡◌, refl, sym, ap, ◌∙◌, subst, inl, inr, Bool, true, false, not,
  ◌&&◌, ◌||◌, some, [], ◌∷◌, arith, ltb, ltb→lt, le→leb, Bool-cases, ◌==◌, ℕ-Eq, ne_beq, length,
  Bytes, Bytes-Eq,
}
use jacklet.Prelude.Decimal.{is_all_digits, value_from, value, parse_digits, parse_int}
use jacklet.Bencode.{
  no_digits, not_a_64_bit_integer, leading_zero, negative_zero, Result, ok, ◌>>◌, refuse,
  max_bencode_integer_digits, trim_minus, starts_with_zero, is_none, check_bencode_integer,
}
use jacklet.Bencode.Grammar.{IsInteger, zero_, positive_, negative_}
use jacklet.Prelude.Decimal.Laws.{pow-le}

-- A number is at least its first digits at their places.
value_step : (n b p v : ℕ) {q : ℕ} → (n * 10 + (b - b'0')) * p ≤ v → q ≡ p * 10 → n * q ≤ v
value_step n b p v h e =
    let step : (n * 10) * p ≤ (n * 10 + (b - b'0')) * p = mul-le-mul_right p (omega arith) in
    rw e (grind arith)

value_from_low : (s : Bytes) (n : ℕ) → n * 10 ^ length s ≤ value_from n s
value_from_low [] n = omega arith
value_from_low (b ∷ s) n =
    value_step n b (10 ^ length s) (value_from (n * 10 + (b - b'0')) s)
      (value_from_low s (n * 10 + (b - b'0'))) (pow-suc 10 (length s))

nineteen : 2 ^ 63 < 10 ^ 19
nineteen = omega arith

-- A number without a leading zero that fits in 64 bits has at most nineteen digits.
few_others :
    (first : ℕ) (others : Bytes)
    → b'1' ≤ first
    → value (first ∷ others) ≤ 2 ^ 63
    → length others < max_bencode_integer_digits
few_others first others nz h = elim (Bool-cases (ltb (length others) 19)) [
  | inl e ↦ ltb→lt _ _ e
  | inr e ↦
      let long : 19 ≤ length others = ground (arith, e) in
      let step : 1 * 10 ^ length others ≤ (0 * 10 + (first - b'0')) * 10 ^ length others =
        mul-le-mul_right (10 ^ length others) (omega arith) in
      absurd (
        omega (
          arith,
          pow-le 19 (length others) long,
          value_from_low others (0 * 10 + (first - b'0')),
          step,
          nineteen,
          h,
        ))
]

abbrev pub Checked : Bytes → Type 0
Checked ds = check_bencode_integer ds ≡ ok tt

-- The five tests in their order.
abbrev pub tests_of : Bool → Bool → Bool → Bool → Bool → Result (Unit {0})
tests_of a b c d e = do
  refuse a no_digits
  refuse b not_a_64_bit_integer
  refuse c leading_zero
  refuse d negative_zero
  refuse e not_a_64_bit_integer

pub tests_passed :
    (a b c d e : Bool)
    → tests_of a b c d e ≡ ok tt
    → (a ≡ false) × (b ≡ false) × (c ≡ false) × (d ≡ false) × (e ≡ false)
tests_passed true b c d e h = absurd (ground (arith, h))
tests_passed false true c d e h = absurd (ground (arith, h))
tests_passed false false true d e h = absurd (ground (arith, h))
tests_passed false false false true e h = absurd (ground (arith, h))
tests_passed false false false false true h = absurd (ground (arith, h))
tests_passed false false false false false h = (refl, refl, refl, refl, refl)

pass_tests :
    (a b c d e : Bool)
    → a ≡ false
    → b ≡ false
    → c ≡ false
    → d ≡ false
    → e ≡ false
    → tests_of a b c d e ≡ ok tt
pass_tests a b c d e p q r s t = rw (p, q, r, s, t) refl

-- The tests on a text and what it is without its sign.
abbrev pub tests_on : Bytes → Bytes → Result (Unit {0})
tests_on unsigned digits =
    tests_of (length unsigned == 0)
      (ltb max_bencode_integer_digits (length unsigned) || not (is_all_digits unsigned))
      (starts_with_zero unsigned && ltb 1 (length unsigned))
      (starts_with_zero unsigned && ltb (length unsigned) (length digits))
      (is_none (parse_int 64 digits))

pub check-tests_on : (ds : Bytes) → check_bencode_integer ds ≡ tests_on (trim_minus ds) ds
unfolding check_bencode_integer
check-tests_on ds = refl

no_zero : (first : ℕ) (others : Bytes) → b'1' ≤ first → starts_with_zero (first ∷ others) ≡ false
no_zero first others h = ground (arith, h)

no_minus :
    (first : ℕ) (others : Bytes) → b'1' ≤ first → trim_minus (first ∷ others) ≡ first ∷ others
no_minus first others h = ground (arith, h)

digits_positive :
    (first : ℕ) (others : Bytes)
    → b'1' ≤ first
    → first ≤ b'9'
    → is_all_digits others ≡ true
    → is_all_digits (first ∷ others) ≡ true
digits_positive first others lo hi all = ground (arith, lo, hi, all)

within :
    (bound : ℕ) (b : ℕ) (s : Bytes)
    → is_all_digits (b ∷ s) ≡ true
    → value (b ∷ s) ≤ bound
    → parse_digits bound (b ∷ s) ≡ some (value (b ∷ s))
unfolding parse_digits
within bound b s all h = rw (all, le→leb _ _ h) refl

parse_positive :
    (first : ℕ) (others : Bytes)
    → b'1' ≤ first
    → is_all_digits (first ∷ others) ≡ true
    → value (first ∷ others) < 2 ^ 63
    → is_none (parse_int 64 (first ∷ others)) ≡ false
unfolding parse_int
parse_positive first others lo all h =
    let minus : (first == b'-') ≡ false = ne_beq first b'-' (λ e. absurd (omega (arith, lo, e))) in
    let plus : (first == b'+') ≡ false = ne_beq first b'+' (λ e. absurd (omega (arith, lo, e))) in
    rw (minus, plus, within (2 ^ 63 - 1) first others all (omega arith)) refl

parse_negative :
    (first : ℕ) (others : Bytes)
    → is_all_digits (first ∷ others) ≡ true
    → value (first ∷ others) ≤ 2 ^ 63
    → is_none (parse_int 64 (b'-' ∷ first ∷ others)) ≡ false
unfolding parse_int
parse_negative first others all h = rw (within (2 ^ 63) first others all h) refl

two_tests :
    (s : Bytes)
    → is_all_digits s ≡ true
    → length s ≤ max_bencode_integer_digits
    → (ltb max_bencode_integer_digits (length s) || not (is_all_digits s)) ≡ false
two_tests s all few = rw all (ground (arith, few))

digits_pass :
    (first : ℕ) (others digits : Bytes)
    → b'1' ≤ first
    → first ≤ b'9'
    → is_all_digits others ≡ true
    → value (first ∷ others) ≤ 2 ^ 63
    → is_none (parse_int 64 digits) ≡ false
    → tests_on (first ∷ others) digits ≡ ok tt
digits_pass first others digits lo hi all h fits =
    let few = few_others first others lo h in
    let nonzero = no_zero first others lo in
    pass_tests (length (first ∷ others) == 0)
      (ltb max_bencode_integer_digits (length (first ∷ others))
        || not (is_all_digits (first ∷ others)))
      (starts_with_zero (first ∷ others) && ltb 1 (length (first ∷ others)))
      (starts_with_zero (first ∷ others) && ltb (length (first ∷ others)) (length digits))
      (is_none (parse_int 64 digits)) (ground arith)
      (two_tests (first ∷ others) (digits_positive first others lo hi all) (omega (arith, few)))
      (rw nonzero refl) (rw nonzero refl) fits

positive-Checked :
    (first : ℕ) (others : Bytes)
    → b'1' ≤ first
    → first ≤ b'9'
    → is_all_digits others ≡ true
    → value (first ∷ others) < 2 ^ 63
    → Checked (first ∷ others)
positive-Checked first others lo hi all h =
    check-tests_on (first ∷ others)
    ∙ ap (λ u. tests_on u (first ∷ others)) (no_minus first others lo)
    ∙ digits_pass first others (first ∷ others) lo hi all (omega arith)
        (parse_positive first others lo (digits_positive first others lo hi all) h)

negative-Checked :
    (first : ℕ) (others : Bytes)
    → b'1' ≤ first
    → first ≤ b'9'
    → is_all_digits others ≡ true
    → value (first ∷ others) ≤ 2 ^ 63
    → Checked (b'-' ∷ first ∷ others)
negative-Checked first others lo hi all h =
    check-tests_on (b'-' ∷ first ∷ others)
    ∙ digits_pass first others (b'-' ∷ first ∷ others) lo hi all h
        (parse_negative first others (digits_positive first others lo hi all) h)

zero-Checked : Checked (b'0' ∷ [])
unfolding check_bencode_integer parse_int parse_digits
zero-Checked = refl

pub IsInteger-Checked : (ds : Bytes) → IsInteger ds → Checked ds
IsInteger-Checked _ zero_ = zero-Checked
IsInteger-Checked ds (positive_ w h) = subst Checked (sym w.spelled) (
    positive-Checked w.first w.others w.not_zero w.at_most_nine w.all_digits
      (subst (λ s. value s < 2 ^ 63) w.spelled h))
IsInteger-Checked _ (negative_ {ds = ds} w h) =
    subst (λ s. Checked (b'-' ∷ s)) (sym w.spelled)
      (negative-Checked w.first w.others w.not_zero w.at_most_nine w.all_digits
        (subst (λ s. value s ≤ 2 ^ 63) w.spelled h))
