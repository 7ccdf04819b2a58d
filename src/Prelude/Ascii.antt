-- ===== src/Prelude/Ascii.antt =====
-- Go's strings package on ASCII text: TrimSpace, ToLower, EqualFold, HasPrefix and Cut.
use jacklet.Prelude.{
  ℕ, ◌+◌, ◌≡◌, refl, Bool, true, false, ◌&&◌, ◌||◌, Option, none, some, [], ◌∷◌, arith, leb, nat_eq,
  if◌then◌else◌, ◌==◌, ℕ-Eq, Bytes, codes, Bytes-Eq,
}

abbrev pub is_space : ℕ → Bool
is_space b = (leb 9 b && leb b 13) || nat_eq b 32

unfoldable pub trim_left : Bytes → Bytes
trim_left [] = []
trim_left (b ∷ s) = let rest = trim_left s in if is_space b then rest else b ∷ s

abbrev pub before : ℕ → Bytes → Bytes
before b [] = if is_space b then [] else b ∷ []
before b (c ∷ s) = b ∷ c ∷ s

unfoldable pub trim_right : Bytes → Bytes
trim_right [] = []
trim_right (b ∷ s) = before b (trim_right s)

unfoldable pub trim_space : Bytes → Bytes
unfolding trim_left trim_right
trim_space s = trim_right (trim_left s)

abbrev pub lower : ℕ → ℕ
lower b = if leb b'A' b && leb b b'Z' then b + 32 else b

unfoldable pub to_lower : Bytes → Bytes
to_lower [] = []
to_lower (b ∷ s) = lower b ∷ to_lower s

unfoldable pub equal_fold : Bytes → Bytes → Bool
unfolding to_lower
equal_fold s t = to_lower s == to_lower t

unfoldable pub has_prefix : Bytes → Bytes → Bool
has_prefix s [] = true
has_prefix [] (c ∷ p) = false
has_prefix (b ∷ s) (c ∷ p) = b == c && has_prefix s p

-- `strings.Cut` at a separator of one byte.
unfoldable pub cut : ℕ → Bytes → Option (Bytes × Bytes)
cut sep [] = none
cut sep (b ∷ s) =
    let rest = cut sep s in
    if b == sep then some ([], s) else elim rest [ none ↦ none | some r ↦ some (b ∷ r.0, r.1) ]

pub trim_left-space : (b : ℕ) (s : Bytes) → is_space b ≡ true → trim_left (b ∷ s) ≡ trim_left s
unfolding trim_left
trim_left-space b s h = ground (arith, h)

trimmed : trim_space (codes "  a b ") ≡ codes "a b"
unfolding trim_space trim_left trim_right
trimmed = refl
