-- ===== src/Prelude/Within.antt =====
-- Where one text stands in another.
use jacklet.Prelude.{◌≡◌, refl, true, [], ◌∷◌, ◌++◌, arith, ℕ-Eq, Bytes, Bytes-Eq}
use jacklet.Prelude.Ascii.{has_prefix}

-- One text stands somewhere in another.
abbrev pub Within : Bytes → Bytes → Type 0
Within t s = (a : Bytes) × (b : Bytes) × (s ≡ a ++ (t ++ b))

pub prefix_rest : (s t : Bytes) → has_prefix s t ≡ true → (b : Bytes) × (s ≡ t ++ b)
unfolding has_prefix
prefix_rest s [] h = (s, refl)
prefix_rest [] (c ∷ t) h = absurd (ground arith)
prefix_rest (b ∷ s) (c ∷ t) h = let (r, e) = prefix_rest s t (ground arith) in (r, ground arith)

pub rest_prefix : (t b : Bytes) → has_prefix (t ++ b) t ≡ true
unfolding has_prefix
rest_prefix [] b = refl
rest_prefix (c ∷ t) b = ground (arith, rest_prefix t b)
