-- ===== src/Prelude/Trimming.antt =====
-- Trimming on both sides, in either order and twice.
use jacklet.Prelude.{
  ℕ, ◌≡◌, refl, sym, ap, ◌∙◌, ◌⊎◌, inl, inr, [], ◌∷◌, arith, Bool-cases, ℕ-Eq, Bytes, Bytes-Eq,
}
use jacklet.Prelude.Ascii.{is_space, trim_left, before, trim_right, trim_space}

List-cases : (s : Bytes) → (s ≡ []) ⊎ ((b : ℕ) × (t : Bytes) × (s ≡ b ∷ t))
List-cases [] = inl refl
List-cases (b ∷ t) = inr (b, t, refl)

trim_left-trim_right : (s : Bytes) → trim_left (trim_right s) ≡ trim_right (trim_left s)
unfolding trim_left trim_right
trim_left-trim_right [] = refl
trim_left-trim_right (b ∷ s) = elim (List-cases (trim_right s)) [
  | inl e ↦
      rw (trim_right, e)
        (elim (Bool-cases (is_space b)) [
          | inl sp ↦ rw sp (ap trim_left (sym e) ∙ trim_left-trim_right s)
          | inr sp ↦ ground (arith, sp, e)
        ])
  | inr (c, r, e) ↦ elim (Bool-cases (is_space b)) [
    | inl sp ↦ rw (trim_right, e, sp) (ap trim_left (sym e) ∙ trim_left-trim_right s)
    | inr sp ↦ ground (arith, sp, e)
  ]
]

trim_right_twice : (s : Bytes) → trim_right (trim_right s) ≡ trim_right s
unfolding trim_right
trim_right_twice [] = refl
trim_right_twice (b ∷ s) = elim (List-cases (trim_right s)) [
  | inl e ↦ ground (arith, e)
  | inr (c, r, e) ↦ rw e (ap (before b) (sym (ap trim_right e) ∙ trim_right_twice s ∙ e))
]

-- Trimming again what is trimmed on the right changes nothing.
pub trim_space-trim_right : (s : Bytes) → trim_space (trim_right s) ≡ trim_space s
unfolding trim_space
trim_space-trim_right s = ap trim_right (trim_left-trim_right s) ∙ trim_right_twice (trim_left s)
