-- ===== src/Categories/Custom.antt =====
-- The number of a tracker's own category.
use jacklet.Prelude.{
  ℕ, ◌+◌, ◌-◌, ◌*◌, ◌≡◌, refl, sym, ap, ◌∙◌, subst, ◌≢◌, ◌↔◌, ◌⊎◌, inl, inr, Bool, true, false,
  ◌&&◌, Option, none, some, [], ◌∷◌, arith, ltb, Bool-cases, Option-cases, ◌==◌, ℕ-Eq, beq_ne,
  ne_beq, length, Bytes, Bytes-Eq,
}
use jacklet.Prelude.Int.{ℤ, pos, negsuc, ℤ-Eq}
use jacklet.Prelude.Decimal.{parse_int}
use jacklet.Tracker.{CategoryMapping}
use jacklet.Categories.{custom_category_id}

-- The number of a mapping's custom category, which a mapping with a description has: 100000 and the
-- mapping's id, where that is a number of 32 bits, else 100000 and the first two bytes of the hash,
-- the lower one first.
abbrev pub IsCustom : (Bytes → Bytes) → CategoryMapping → ℤ → Type 0
IsCustom sha1 m z =
    (m.desc ≢ [])
    × (((n : ℕ) × (parse_int 32 m.id ≡ some (pos n)) × (z ≡ pos (100_000 + n)))
        ⊎ ((n : ℕ) × (parse_int 32 m.id ≡ some (negsuc n))
            × (((k : ℕ) × (z ≡ pos k) × (k + n + 1 ≡ 100_000))
                ⊎ ((k : ℕ) × (z ≡ negsuc k) × (k + 100_000 ≡ n))))
        ⊎ ((parse_int 32 m.id ≡ none)
            × (low : ℕ) × (high : ℕ) × (rest : Bytes) × (sha1 m.id ≡ low ∷ high ∷ rest)
            × (z ≡ pos (100_000 + low + 256 * high))))

pub both_true : (a b : Bool) → a ≡ true → b ≡ true → (a && b) ≡ true
both_true true b h k = k
both_true false b h k = h

pub bools_apart : false ≡ true → ⊥
bools_apart e = cc

two_bytes :
    (s : Bytes) → length s ≡ 20 → (low : ℕ) × (high : ℕ) × (rest : Bytes) × (s ≡ low ∷ high ∷ rest)
two_bytes [] h = absurd (omega (arith, h))
two_bytes (a ∷ []) h = absurd (omega (arith, h))
two_bytes (a ∷ b ∷ s) h = (a, b, s, refl)

some_inj : {A : Type 0} {a b : A} → Path (Option A) (some a) (some b) → a ≡ b
some_inj e = cc

not_none : {A : Type 0} {b : A} → Path (Option A) none (some b) → ⊥
not_none e = cc

module _ (sha1 : Bytes → Bytes) (m : CategoryMapping) where
  undescribed : (m.desc == []) ≡ true → custom_category_id sha1 m ≡ none
  unfolding custom_category_id
  undescribed d = rw d refl

  from_number :
      (n : ℕ)
      → (m.desc == []) ≡ false
      → parse_int 32 m.id ≡ some (pos n)
      → custom_category_id sha1 m ≡ some (pos (100_000 + n))
  unfolding custom_category_id
  from_number n d e = rw (d, e) refl

  from_negative :
      (n : ℕ)
      → (m.desc == []) ≡ false
      → parse_int 32 m.id ≡ some (negsuc n)
      → ltb n 100_000 ≡ true
      → custom_category_id sha1 m ≡ some (pos (100_000 - (n + 1)))
  unfolding custom_category_id
  from_negative n d e lt = rw (d, e) (rw lt refl)

  far_negative :
      (n : ℕ)
      → (m.desc == []) ≡ false
      → parse_int 32 m.id ≡ some (negsuc n)
      → ltb n 100_000 ≡ false
      → custom_category_id sha1 m ≡ some (negsuc (n - 100_000))
  unfolding custom_category_id
  far_negative n d e lt = rw (d, e) (rw lt refl)

  from_hash :
      (low high : ℕ) (rest : Bytes)
      → (m.desc == []) ≡ false
      → parse_int 32 m.id ≡ none
      → sha1 m.id ≡ low ∷ high ∷ rest
      → custom_category_id sha1 m ≡ some (pos (100_000 + (low + 256 * high)))
  unfolding custom_category_id
  from_hash low high rest d e h = rw (d, e) (rw h refl)

  described : m.desc ≢ [] → (m.desc == []) ≡ false
  described ne = ne_beq m.desc [] ne

  number_exists :
      length (sha1 m.id) ≡ 20
      → m.desc ≢ []
      → (z : ℤ) × (custom_category_id sha1 m ≡ some z) × IsCustom sha1 m z
  number_exists twenty ne = elim (Option-cases (parse_int 32 m.id)) [
    | inl e ↦
        let (low, high, rest, h) = two_bytes (sha1 m.id) twenty in
        (
          pos (100_000 + (low + 256 * high)),
          from_hash low high rest (described ne) e h,
          (ne, inr (inr (e, low, high, rest, h, ap pos (omega arith)))),
        )
    | inr (pos n, e) ↦ (pos (100_000 + n), from_number n (described ne) e, (ne, inl (n, e, refl)))
    | inr (negsuc n, e) ↦ elim (Bool-cases (ltb n 100_000)) [
      | inl lt ↦ (
        pos (100_000 - (n + 1)),
        from_negative n (described ne) e lt,
        (ne, inr (inl (n, e, inl (100_000 - (n + 1), refl, ground (arith, lt))))),
      )
      | inr lt ↦ (
        negsuc (n - 100_000),
        far_negative n (described ne) e lt,
        (ne, inr (inl (n, e, inr (n - 100_000, refl, ground (arith, lt))))),
      )
    ]
  ]

  numbered_so :
      (z : ℤ) → length (sha1 m.id) ≡ 20 → custom_category_id sha1 m ≡ some z → IsCustom sha1 m z
  numbered_so z twenty h = elim (Bool-cases (m.desc == [])) [
    | inl d ↦ absurd (not_none (sym (undescribed d) ∙ h))
    | inr d ↦
        let (y, e, form) = number_exists twenty (beq_ne m.desc [] d) in
        subst (IsCustom sha1 m) (some_inj (sym e ∙ h)) form
  ]

  so_numbered : (z : ℤ) → IsCustom sha1 m z → custom_category_id sha1 m ≡ some z
  so_numbered z (ne, inl (n, e, is_z)) = from_number n (described ne) e ∙ ap some (sym is_z)
  so_numbered z (ne, inr (inl (n, e, inl (k, is_z, sum)))) =
      from_negative n (described ne) e (ground (arith, sum))
      ∙ ap (λ j. some (pos j)) (omega (arith, sum))
      ∙ ap some (sym is_z)
  so_numbered z (ne, inr (inl (n, e, inr (k, is_z, sum)))) =
      far_negative n (described ne) e (ground (arith, sum))
      ∙ ap (λ j. some (negsuc j)) (omega (arith, sum))
      ∙ ap some (sym is_z)
  so_numbered z (ne, inr (inr (e, low, high, rest, h, is_z))) =
      from_hash low high rest (described ne) e h
      ∙ ap (λ j. some (pos j)) (omega arith)
      ∙ ap some (sym is_z)

-- A mapping has the custom number that it is described to have.
pub custom_category_id-IsCustom :
    (sha1 : Bytes → Bytes)
    → ((s : Bytes) → length (sha1 s) ≡ 20)
    → (m : CategoryMapping) (z : ℤ) → (custom_category_id sha1 m ≡ some z) ↔ IsCustom sha1 m z
custom_category_id-IsCustom sha1 twenty m z =
    (numbered_so sha1 m z (twenty m.id), so_numbered sha1 m z)
