-- ===== src/Bencode/Numerals.antt =====
-- Every text that the reader's check accepts is an integer of the format.
use jacklet.Prelude.{
  ℕ, suc, ◌-◌, ◌^◌, ◌≤◌, ◌<◌, ◌≡◌, refl, sym, ap, ap₂, ◌∙◌, subst, ◌⊎◌, inl, inr, true, false, not,
  ◌&&◌, ◌||◌, none, [], ◌∷◌, arith, ltb, leb, leb→le, Bool-cases, ◌==◌, ℕ-Eq, beq_eq, ne_beq,
  length, Bytes, Bytes-Eq,
}
use jacklet.Prelude.Decimal.{is_all_digits, value, parse_digits, parse_int}
use jacklet.Bencode.{ok, max_bencode_integer_digits, trim_minus, starts_with_zero, is_none}
use jacklet.Bencode.Grammar.{WritesPositive, IsInteger, zero_, positive_, negative_}
use jacklet.Bencode.Numbers.{Checked, tests_passed, tests_on, check-tests_on}

-- A text of digits that starts with no zero, or is one.
first_digit :
    (first : ℕ) (others : Bytes)
    → is_all_digits (first ∷ others) ≡ true
    → (starts_with_zero (first ∷ others) && ltb 1 (length (first ∷ others))) ≡ false
    → ((first ≡ b'0') × (others ≡ [])) ⊎ WritesPositive (first ∷ others)
first_digit first others all one_zero = elim (Bool-cases (first == b'0')) [
  | inl e ↦ inl (beq_eq first b'0' e, alone first others e one_zero)
  | inr e ↦ inr (record {
    first = first;
    others = others;
    not_zero = ground (arith, all, e);
    at_most_nine = ground (arith, all);
    all_digits = ground (arith, all);
    spelled = refl;
  })
]
  where
    alone :
        (first : ℕ) (others : Bytes)
        → (first == b'0') ≡ true
        → (starts_with_zero (first ∷ others) && ltb 1 (length (first ∷ others))) ≡ false
        → others ≡ []
    alone first [] e h = refl
    alone first (b ∷ others) e h = absurd (ground (arith, e, h))

beyond :
    (bound b : ℕ) (s : Bytes)
    → leb (value (b ∷ s)) bound ≡ false
    → parse_digits bound (b ∷ s) ≡ none
unfolding parse_digits
beyond bound b s h = elim (Bool-cases (is_all_digits (b ∷ s))) [
  | inl e ↦ rw (e, h) refl
  | inr e ↦ rw e refl
]

fits_positive :
    (first : ℕ) (others : Bytes)
    → b'1' ≤ first
    → is_none (parse_int 64 (first ∷ others)) ≡ false
    → value (first ∷ others) < 2 ^ 63
unfolding parse_int
fits_positive first others lo h = elim (Bool-cases (leb (value (first ∷ others)) (2 ^ 63 - 1))) [
  | inl e ↦ omega (arith, leb→le _ _ e)
  | inr e ↦
      let minus : (first == b'-') ≡ false =
        ne_beq first b'-' (λ p. absurd (omega (arith, lo, p))) in
      let plus : (first == b'+') ≡ false = ne_beq first b'+' (λ p. absurd (omega (arith, lo, p))) in
      let fails : is_none (parse_int 64 (first ∷ others)) ≡ true =
        rw (minus, plus, beyond (2 ^ 63 - 1) first others e) refl in
      absurd (clash (sym fails ∙ h))
]
  where
    clash : true ≡ false → ⊥
    clash e = cc

fits_negative :
    (first : ℕ) (others : Bytes)
    → is_none (parse_int 64 (b'-' ∷ first ∷ others)) ≡ false
    → value (first ∷ others) ≤ 2 ^ 63
unfolding parse_int
fits_negative first others h = elim (Bool-cases (leb (value (first ∷ others)) (2 ^ 63))) [
  | inl e ↦ leb→le _ _ e
  | inr e ↦
      let fails : is_none (parse_int 64 (b'-' ∷ first ∷ others)) ≡ true =
        rw (beyond (2 ^ 63) first others e) refl in
      absurd (clash (sym fails ∙ h))
]
  where
    clash : true ≡ false → ⊥
    clash e = cc

digits_of :
    (u : Bytes)
    → (ltb max_bencode_integer_digits (length u) || not (is_all_digits u)) ≡ false
    → is_all_digits u ≡ true
digits_of u h = elim (Bool-cases (is_all_digits u)) [
  | inl e ↦ e
  | inr e ↦ absurd (ground (arith, h, e))
]

-- Behind a "-" stands no zero.
no_negative_zero :
    (s : Bytes)
    → (length s == 0) ≡ false
    → (starts_with_zero s && ltb 1 (length s)) ≡ false
    → (starts_with_zero s && ltb (length s) (suc (length s))) ≡ false
    → (ltb max_bencode_integer_digits (length s) || not (is_all_digits s)) ≡ false
    → is_none (parse_int 64 (b'-' ∷ s)) ≡ false
    → IsInteger (b'-' ∷ s)
no_negative_zero [] some_digits leading negative few fits = absurd (ground (arith, some_digits))
no_negative_zero (first ∷ others) some_digits leading negative few fits =
    elim (first_digit first others (digits_of (first ∷ others) few) leading) [
      | inl (e, alone) ↦ absurd (ground (arith, negative, e))
      | inr w ↦ negative_ w (fits_negative first others fits)
    ]

unsigned-IsInteger :
    (first : ℕ) (others : Bytes)
    → (ltb max_bencode_integer_digits (length (first ∷ others))
        || not (is_all_digits (first ∷ others)))
      ≡ false
    → (starts_with_zero (first ∷ others) && ltb 1 (length (first ∷ others))) ≡ false
    → is_none (parse_int 64 (first ∷ others)) ≡ false
    → IsInteger (first ∷ others)
unsigned-IsInteger first others few leading fits =
    elim (first_digit first others (digits_of (first ∷ others) few) leading) [
      | inl (e, alone) ↦ subst IsInteger (sym (ap₂ (λ x y. x ∷ y) e alone)) zero_
      | inr w ↦ positive_ w (fits_positive first others (first_nonzero first others w) fits)
    ]
  where
    head_eq : {a b : ℕ} {s t : Bytes} → Path Bytes (a ∷ s) (b ∷ t) → a ≡ b
    head_eq e = cc

    first_nonzero : (first : ℕ) (others : Bytes) → WritesPositive (first ∷ others) → b'1' ≤ first
    first_nonzero first others w = subst (λ b. b'1' ≤ b) (head_eq (sym w.spelled)) w.not_zero

on_passed :
    (u ds : Bytes)
    → tests_on u ds ≡ ok tt
    → ((length u == 0) ≡ false)
      × ((ltb max_bencode_integer_digits (length u) || not (is_all_digits u)) ≡ false)
      × ((starts_with_zero u && ltb 1 (length u)) ≡ false)
      × ((starts_with_zero u && ltb (length u) (length ds)) ≡ false)
      × (is_none (parse_int 64 ds) ≡ false)
on_passed u ds h =
    tests_passed (length u == 0)
      (ltb max_bencode_integer_digits (length u) || not (is_all_digits u))
      (starts_with_zero u && ltb 1 (length u)) (starts_with_zero u && ltb (length u) (length ds))
      (is_none (parse_int 64 ds)) h

pub Checked-IsInteger : (ds : Bytes) → Checked ds → IsInteger ds
Checked-IsInteger [] h =
    let (some_digits, _, _, _, _) = on_passed [] [] (sym (check-tests_on []) ∙ h) in
    absurd (ground (arith, some_digits))
Checked-IsInteger (b ∷ s) h = elim (Bool-cases (b == b'-')) [
  | inl e ↦
      let signed : Checked (b'-' ∷ s) = subst (λ x. Checked (x ∷ s)) (beq_eq b b'-' e) h in
      let (some_digits, few, leading, negative, fits) =
        on_passed s (b'-' ∷ s) (sym (check-tests_on (b'-' ∷ s)) ∙ signed) in
      subst (λ x. IsInteger (x ∷ s)) (sym (beq_eq b b'-' e))
        (no_negative_zero s some_digits leading negative few fits)
  | inr e ↦
      let plain : trim_minus (b ∷ s) ≡ b ∷ s = rw e refl in
      let (_, few, leading, _, fits) =
        on_passed (b ∷ s) (b ∷ s)
          (sym (ap (λ u. tests_on u (b ∷ s)) plain) ∙ sym (check-tests_on (b ∷ s)) ∙ h) in
      unsigned-IsInteger b s few leading fits
]
