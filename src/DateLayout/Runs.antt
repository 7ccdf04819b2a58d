-- ===== src/DateLayout/Runs.antt =====
-- The run of a letter, or the quoted text, that a format starts with.
use jacklet.Prelude.{
  ℕ, suc, ◌≡◌, refl, sym, ap, ap₂, ◌⊎◌, inl, inr, false, none, some, [], ◌∷◌, ◌++◌, if◌then◌else◌,
  Bool-cases, ◌==◌, ℕ-Eq, beq_eq, drop, contains, Bytes, Bytes-Eq,
}
use jacklet.Prelude.Ascii.{cut}
use jacklet.DateLayout.{leading, repeat, token_run}
use jacklet.DateLayout.Pieces.{starts_with}

leading-split : (c : ℕ) (s : Bytes) → repeat c (leading c s) ++ drop (leading c s) s ≡ s
unfolding leading repeat
leading-split c [] = refl
leading-split c (b ∷ s) = elim (Bool-cases (b == c)) [
  | inl e ↦ rw e (ap₂ (λ x y. x ∷ y) (sym (beq_eq b c e)) (leading-split c s))
  | inr e ↦ rw e refl
]

leading-ends : (c : ℕ) (s : Bytes) → starts_with c (drop (leading c s) s) ≡ false
unfolding leading
leading-ends c [] = refl
leading-ends c (b ∷ s) = elim (Bool-cases (b == c)) [
  | inl e ↦ rw e (leading-ends c s)
  | inr e ↦ rw e e
]

-- The run that a format starts with, and the rest of it.
pub first_run :
    (c : ℕ) (s : Bytes)
    → (m : ℕ) × (token_run c s ≡ suc m)
      × (repeat c m ++ drop m s ≡ s)
      × (if c == b'K' then suc m ≡ 1 else starts_with c (drop m s) ≡ false)
unfolding token_run repeat
first_run c s = elim (Bool-cases (c == b'K')) [
  | inl e ↦ (0, rw e refl, refl, rw e refl)
  | inr e ↦ (leading c s, rw e refl, leading-split c s, rw e (leading-ends c s))
]

-- A text has no separator, or is cut at its first one.
pub cut-cases :
    (q : ℕ) (s : Bytes)
    → (cut q s ≡ none)
      ⊎ ((text : Bytes) × (rest : Bytes) × (cut q s ≡ some (text, rest))
          × (contains text q ≡ false)
          × (text ++ q ∷ rest ≡ s))
unfolding cut
cut-cases q [] = inl refl
cut-cases q (b ∷ s) = elim (Bool-cases (b == q)) [
  | inl e ↦ inr ([], s, rw e refl, refl, ap (λ x. x ∷ s) (sym (beq_eq b q e)))
  | inr e ↦ elim (cut-cases q s) [
    | inl f ↦ inl (rw (e, f) refl)
    | inr (text, rest, f, free, same) ↦
        inr (b ∷ text, rest, rw (e, f) refl, rw e free, ap (λ x. b ∷ x) same)
  ]
]
