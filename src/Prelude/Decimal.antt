-- ===== src/Prelude/Decimal.antt =====
-- Decimal text as Go's strconv reads and writes it: `ParseInt(s, 10, bits)`, `Atoi` and `Itoa`.
pub mod Laws
pub mod Signed
use jacklet.Prelude.{
  ℕ, zero, suc, ◌+◌, ◌-◌, ◌*◌, ◌/◌, ◌%◌, ◌^◌, ◌≡◌, refl, Bool, true, ◌&&◌, Option, none, some, [],
  ◌∷◌, leb, if◌then◌else◌, ◌==◌, ℕ-Eq, Bytes, codes, Bytes-Eq, ◌≤◌, ◌<◌, min, max, sym, ap, ap₂,
  ◌∙◌, subst, fun_ext, ◌≡⟨◌⟩◌, ◌∎, ◌≢◌, ◌↔◌, ◌⊎◌, inl, inr, false, not, ◌||◌, List, ◌++◌, map,
  append_assoc, append-nil, arith, ltb, nat_eq, ltb→lt, lt→ltb, leb→le, le→leb, nat_eq_iff, tests,
  Bool-cases, Option-cases, Eq, beq_refl, beq_eq, beq_ne, ne_beq, length, get_elem?, take, drop,
  All, Any, select, length-append, take_append, drop_append, take-append-drop, length-take,
  length-drop, All-append, All-map, contains, bytes_eq, bytes_eq_iff,
}
use jacklet.Prelude.Int.{ℤ, pos, negsuc}

abbrev pub is_digit : ℕ → Bool
is_digit b = leb b'0' b && leb b b'9'

abbrev pub is_all_digits : Bytes → Bool
is_all_digits [] = true
is_all_digits (b ∷ s) = is_digit b && is_all_digits s

-- The number that the digits `s` write behind the number `n`.
abbrev pub value_from : ℕ → Bytes → ℕ
value_from n [] = n
value_from n (b ∷ s) = value_from (n * 10 + (b - b'0')) s

abbrev pub value : Bytes → ℕ
value s = value_from 0 s

unfoldable pub parse_digits : ℕ → Bytes → Option ℕ
parse_digits bound [] = none
parse_digits bound (b ∷ s) =
    if is_all_digits (b ∷ s) && leb (value (b ∷ s)) bound then some (value (b ∷ s)) else none

abbrev pub negate : ℕ → ℤ
negate zero = pos 0
negate (suc n) = negsuc n

unfoldable pub parse_int : ℕ → Bytes → Option ℤ
unfolding parse_digits
parse_int bits [] = none
parse_int bits (c ∷ s) =
    if c == b'-'
    then elim (parse_digits (2 ^ (bits - 1)) s) [ none ↦ none | some n ↦ some (negate n) ]
    else elim (parse_digits (2 ^ (bits - 1) - 1) (if c == b'+' then s else c ∷ s)) [
      | none ↦ none
      | some n ↦ some (pos n)
    ]

unfoldable pub atoi : Bytes → Option ℤ
unfolding parse_int
atoi s = parse_int 64 s

-- The first argument bounds the number of digits.
pub emit : ℕ → ℕ → Bytes → Bytes
emit zero n out = out
emit (suc f) n out =
    let rest = emit f (n / 10) ((b'0' + n % 10) ∷ out) in if n == 0 then out else rest

unfoldable pub itoa : ℕ → Bytes
unfolding emit
itoa n = if n == 0 then b'0' ∷ [] else emit n n []

twelve : itoa 12 ≡ codes "12"
unfolding itoa
twelve = refl

large : atoi (codes "-9223372036854775808") ≡ some (negsuc 9223372036854775807)
unfolding atoi
large = refl

too_large : atoi (codes "9223372036854775808") ≡ none
unfolding atoi
too_large = refl
