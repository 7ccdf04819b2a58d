-- ===== src/Prelude/Decimal/Signed.antt =====
-- Go's Atoi reads back what Itoa writes, and gives no number that 64 bits do not hold.
use mathlib.Core.Option
use jacklet.Prelude.{
  ℕ, ◌+◌, ◌-◌, ◌^◌, ◌≤◌, ◌<◌, ◌≡◌, refl, ap, ◌∙◌, ◌≢◌, inl, inr, true, false, some, [], ◌∷◌, arith,
  leb, leb→le, le→leb, Bool-cases, ◌==◌, ℕ-Eq, Bytes, Bytes-Eq, zero, suc, Option, none,
  if◌then◌else◌,
}
use jacklet.Prelude.Int.{pos, negsuc, ℤ}
use jacklet.Prelude.Decimal.{is_all_digits, value, parse_digits, negate, parse_int, atoi, itoa}
use jacklet.Prelude.Decimal.Laws.{itoa-ne-nil, digits-itoa, value-itoa}

parse_unsigned :
    (bound : ℕ) (s : Bytes)
    → s ≢ []
    → is_all_digits s ≡ true
    → value s ≤ bound
    → parse_digits bound s ≡ some (value s)
unfolding parse_digits
parse_unsigned bound [] ne h le = absurd (ne refl)
parse_unsigned bound (b ∷ s) ne h le = ground (arith, h, le→leb (value (b ∷ s)) bound le)

parse_itoa : (bound n : ℕ) → n ≤ bound → parse_digits bound (itoa n) ≡ some n
parse_itoa bound n le =
    parse_unsigned bound (itoa n) (itoa-ne-nil n) (digits-itoa n) (omega (arith, value-itoa n))
    ∙ ap some (value-itoa n)

digits_first :
    (s : Bytes)
    → s ≢ []
    → is_all_digits s ≡ true
    → atoi s ≡ Option.map pos (parse_digits (2 ^ 63 - 1) s)
unfolding atoi parse_int
digits_first [] ne h = absurd (ne refl)
digits_first (b ∷ s) ne h =
    let minus : (b == b'-') ≡ false = ground arith in
    let plus : (b == b'+') ≡ false = ground arith in rw (minus, plus) refl

pub read_negative : (n : ℕ) → n < 2 ^ 63 → atoi (b'-' ∷ itoa (n + 1)) ≡ some (negsuc n)
unfolding atoi parse_int
read_negative n fits = rw (parse_itoa (2 ^ 63) (n + 1) (omega arith)) (ground arith)

pub atoi-itoa : (n : ℕ) → n < 2 ^ 63 → atoi (itoa n) ≡ some (pos n)
atoi-itoa n fits =
    digits_first (itoa n) (itoa-ne-nil n) (digits-itoa n)
    ∙ ap (Option.map pos) (parse_itoa (2 ^ 63 - 1) n (omega arith))

parse_digits_bound : (bound n : ℕ) (s : Bytes) → parse_digits bound s ≡ some n → n ≤ bound
unfolding parse_digits
parse_digits_bound bound n [] h = absurd (ground arith)
parse_digits_bound bound n (b ∷ s) h = elim (Bool-cases (leb (value (b ∷ s)) bound)) [
  | inl e ↦ ground (arith, h, leb→le (value (b ∷ s)) bound e)
  | inr e ↦ absurd (ground (arith, h, e))
]

negate_pos : (m n : ℕ) → negate m ≡ pos n → n ≡ 0
negate_pos zero n h = ground (arith, h)
negate_pos (suc m) n h = absurd (ground (arith, h))

map-some :
    (f : ℕ → ℤ) (m : Option ℕ) (z : ℤ)
    → Option.map f m ≡ some z
    → (k : ℕ) × (m ≡ some k) × (f k ≡ z)
map-some f none z h = cc
map-some f (some k) z h = (k, refl, cc)

minus_branch :
    (c : ℕ) (s : Bytes) (z : Option ℤ)
    → (c == b'-') ≡ true
    → atoi (c ∷ s) ≡ z
    → Option.map negate (parse_digits (2 ^ 63) s) ≡ z
unfolding atoi parse_int
minus_branch c s z e h = (rw e refl) ∙ h

plain_branch :
    (c : ℕ) (s : Bytes) (z : Option ℤ)
    → (c == b'-') ≡ false
    → atoi (c ∷ s) ≡ z
    → Option.map pos (parse_digits (2 ^ 63 - 1) (if c == b'+' then s else c ∷ s)) ≡ z
unfolding atoi parse_int
plain_branch c s z e h = (rw e refl) ∙ h

pub atoi_bound : (s : Bytes) (n : ℕ) → atoi s ≡ some (pos n) → n < 2 ^ 63
unfolding atoi parse_int
atoi_bound [] n h = absurd (ground (arith, h))
atoi_bound (c ∷ s) n h = elim (Bool-cases (c == b'-')) [
  | inl minus ↦
      let (k, _, e) =
        map-some negate (parse_digits (2 ^ 63) s) (pos n) (minus_branch c s _ minus h) in
      omega (arith, negate_pos k n e)
  | inr plain ↦
      let u = if c == b'+' then s else c ∷ s in
      let (k, e, same) =
        map-some pos (parse_digits (2 ^ 63 - 1) u) (pos n) (plain_branch c s _ plain h) in
      let fits = parse_digits_bound (2 ^ 63 - 1) k u e in ground (arith, same)
]
