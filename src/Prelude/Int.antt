-- ===== src/Prelude/Int.antt =====
-- Signed integers over the native numbers, under the library's names. `negsuc n` is -(n + 1).
use jacklet.Prelude.{ℕ, ◌≡◌, ◌↔◌, Bool, true, false, arith, nat_eq, nat_eq_iff, Eq, ℕ-Eq, Bytes-Eq}

pub data ℤ : Type 0 where
  pos : ℕ → ℤ
  negsuc : ℕ → ℤ

abbrev pub int_eq : ℤ → ℤ → Bool
int_eq (pos m) (pos n) = nat_eq m n
int_eq (pos m) (negsuc n) = false
int_eq (negsuc m) (pos n) = false
int_eq (negsuc m) (negsuc n) = nat_eq m n

pub int_eq_iff : (a b : ℤ) → (int_eq a b ≡ true) ↔ (a ≡ b)
int_eq_iff (pos m) (pos n) = ground (arith, nat_eq_iff m n)
int_eq_iff (pos m) (negsuc n) = (λ h. cc, λ h. cc)
int_eq_iff (negsuc m) (pos n) = (λ h. cc, λ h. cc)
int_eq_iff (negsuc m) (negsuc n) = ground (arith, nat_eq_iff m n)

instance abbrev pub ℤ-Eq : Eq ℤ
ℤ-Eq = record { beq = int_eq; beq_iff = int_eq_iff }
