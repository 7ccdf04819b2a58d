-- ===== src/Prelude/Split.antt =====
-- Go's strings.Split and strings.Join for a separator of one byte.
use jacklet.Prelude.{
  ℕ, ◌≡◌, refl, ap, ap₂, ◌∙◌, inl, inr, false, List, [], ◌∷◌, ◌++◌, arith, if◌then◌else◌,
  Bool-cases, ◌==◌, ℕ-Eq, beq_refl, All, contains, Bytes, Bytes-Eq,
}

-- A byte before the first field.
abbrev pub extend : ℕ → List Bytes → List Bytes
extend b [] = (b ∷ []) ∷ []
extend b (w ∷ ws) = (b ∷ w) ∷ ws

unfoldable pub split : ℕ → Bytes → List Bytes
split sep [] = [] ∷ []
split sep (b ∷ s) = let rest = split sep s in if b == sep then [] ∷ rest else extend b rest

unfoldable pub join : ℕ → List Bytes → Bytes
join sep [] = []
join sep (w ∷ []) = w
join sep (w ∷ v ∷ ws) = w ++ sep ∷ join sep (v ∷ ws)

pub split-nonempty :
    (sep : ℕ) (s : Bytes) → (w : Bytes) × (ws : List Bytes) × (split sep s ≡ w ∷ ws)
unfolding split
split-nonempty sep [] = ([], [], refl)
split-nonempty sep (b ∷ s) = elim (Bool-cases (b == sep)) [
  | inl e ↦ ([], split sep s, rw e refl)
  | inr e ↦ let (w, ws, h) = split-nonempty sep s in (b ∷ w, ws, rw e (ap (extend b) h))
]

extend_append :
    (b sep : ℕ) (s : Bytes) (ws : List Bytes)
    → extend b (split sep s ++ ws) ≡ extend b (split sep s) ++ ws
extend_append b sep s ws = let (w, vs, h) = split-nonempty sep s in rw h refl

-- A separator divides the fields before it from those behind it.
pub split-append : (sep : ℕ) (s t : Bytes) → split sep (s ++ sep ∷ t) ≡ split sep s ++ split sep t
unfolding split
split-append sep [] t = rw (beq_refl sep) refl
split-append sep (b ∷ s) t = elim (Bool-cases (b == sep)) [
  | inl e ↦ rw e (ap (λ ws. [] ∷ ws) (split-append sep s t))
  | inr e ↦ rw e (ap (extend b) (split-append sep s t) ∙ extend_append b sep s (split sep t))
]

-- Text without the separator is one field.
pub split-single : (sep : ℕ) (s : Bytes) → contains s sep ≡ false → split sep s ≡ s ∷ []
unfolding split
split-single sep [] h = refl
split-single sep (b ∷ s) h = ground (arith, split-single sep s, h)

-- Joined fields without the separator are the fields again.
pub split-join :
    (sep : ℕ) (w : Bytes) (ws : List Bytes)
    → All (λ v. contains v sep ≡ false) (w ∷ ws)
    → split sep (join sep (w ∷ ws)) ≡ w ∷ ws
unfolding join
split-join sep w [] (h, _) = split-single sep w h
split-join sep w (v ∷ ws) (h, hs) =
    split-append sep w (join sep (v ∷ ws))
    ∙ ap₂ (λ a b. a ++ b) (split-single sep w h) (split-join sep v ws hs)
