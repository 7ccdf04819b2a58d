-- ===== src/Prelude/Decimal/Laws.antt =====
-- What `Itoa` writes is digits, and they are read back as the number.
use native.Mathlib.Nat.{pow-suc, mul-le-mul_right}
use jacklet.Prelude.{
  ℕ, zero, suc, ◌+◌, ◌-◌, ◌*◌, ◌/◌, ◌%◌, ◌^◌, ◌≤◌, ◌<◌, ◌≡◌, ◌∙◌, ◌≢◌, inl, inr, true, [], ◌∷◌,
  arith, nat_eq, nat_eq_iff, Bool-cases, ℕ-Eq, length, Bytes, Bytes-Eq,
}
use jacklet.Prelude.Decimal.{is_all_digits, value_from, value, emit, itoa}

value-emit : (f n : ℕ) (out : Bytes) → n ≤ f → value_from 0 (emit f n out) ≡ value_from n out
unfolding emit
value-emit zero n out h = let e : n ≡ 0 = omega arith in rw e
value-emit (suc f) n out h = elim (Bool-cases (nat_eq n 0)) [
  | inl z ↦ let e : n ≡ 0 = (nat_eq_iff n 0).0 z in rw z (rw e)
  | inr p ↦ rw p (
      value-emit f (n / 10) ((b'0' + n % 10) ∷ out) (ground arith)
      ∙ (let e : n / 10 * 10 + (b'0' + n % 10 - b'0') ≡ n = omega arith in rw e))
]

digits-emit :
    (f n : ℕ) (out : Bytes) → is_all_digits out ≡ true → is_all_digits (emit f n out) ≡ true
unfolding emit
digits-emit zero n out h = h
digits-emit (suc f) n out h = ground (arith, digits-emit f (n / 10) ((b'0' + n % 10) ∷ out))

length-emit : (f n k : ℕ) (out : Bytes) → n < 10 ^ k → length (emit f n out) ≤ k + length out
unfolding emit
length-emit zero n k out h = omega arith
length-emit (suc f) n zero out h = ground arith
length-emit (suc f) n (suc k) out h =
    ground (arith, length-emit f (n / 10) k ((b'0' + n % 10) ∷ out), pow-suc 10 k)

emit-ne-nil : (f n : ℕ) (out : Bytes) → out ≢ [] → emit f n out ≢ []
unfolding emit
emit-ne-nil zero n out h = h
emit-ne-nil (suc f) n out h = ground (arith, emit-ne-nil f (n / 10) ((b'0' + n % 10) ∷ out))

pub itoa-ne-nil : (n : ℕ) → itoa n ≢ []
unfolding itoa
itoa-ne-nil zero = λ h. cc
itoa-ne-nil (suc n) = ground (arith, emit-ne-nil n (suc n / 10) ((b'0' + suc n % 10) ∷ []))

pub digits-itoa : (n : ℕ) → is_all_digits (itoa n) ≡ true
unfolding itoa
digits-itoa n = ground (arith, digits-emit n n [])

pub value-itoa : (n : ℕ) → value (itoa n) ≡ n
unfolding itoa
value-itoa n = ground (arith, value-emit n n [] (omega arith))

pub length-itoa : (n k : ℕ) → n < 10 ^ suc k → length (itoa n) ≤ suc k
unfolding itoa
length-itoa n k h = ground (arith, length-emit n n (suc k) [])

value_step :
    (n b p v : ℕ) {q : ℕ}
    → b ≤ b'9'
    → v < (n * 10 + (b - b'0') + 1) * p
    → q ≡ p * 10
    → v < (n + 1) * q
value_step n b p v d h e =
    let step : (n * 10 + (b - b'0') + 1) * p ≤ ((n + 1) * 10) * p =
      mul-le-mul_right p (omega arith) in
    rw e (grind arith)

pub value_bound :
    (s : Bytes) (n : ℕ) → is_all_digits s ≡ true → value_from n s < (n + 1) * 10 ^ length s
value_bound [] n h = omega arith
value_bound (b ∷ s) n h =
    value_step n b (10 ^ length s) (value_from (n * 10 + (b - b'0')) s) (ground arith)
      (value_bound s (n * 10 + (b - b'0')) (ground arith)) (pow-suc 10 (length s))

one-le-pow : (k : ℕ) → 1 ≤ 10 ^ k
one-le-pow zero = omega arith
one-le-pow (suc k) = omega (arith, one-le-pow k, pow-suc 10 k)

pub pow-le : (j k : ℕ) → j ≤ k → 10 ^ j ≤ 10 ^ k
pow-le zero k h = one-le-pow k
pow-le (suc j) zero h = absurd (omega arith)
pow-le (suc j) (suc k) h = omega (arith, pow-le j k (omega arith), pow-suc 10 j, pow-suc 10 k)
