-- ===== src/NameSearch/Match.antt =====
-- What the condition of a search for terms holds of.
use jacklet.Prelude.{
  ℕ, suc, ◌+◌, ◌≡◌, refl, sym, ap, ap₂, ◌∙◌, ◌↔◌, inl, inr, Bool, true, false, ◌&&◌, ◌||◌, List, [],
  ◌∷◌, ◌++◌, arith, if◌then◌else◌, Bool-cases, ◌==◌, ℕ-Eq, length, All, Bytes, Bytes-Eq,
}
use jacklet.Prelude.Ascii.{lower, to_lower, has_prefix}
use jacklet.Prelude.Within.{Within, prefix_rest, rest_prefix}
use jacklet.NameSearch.{
  fold_case, escaped, like_pattern, one_clause, name_match_clause, any_suffix, is_meta, Like,
}

lower-lower : (b : ℕ) → lower (lower b) ≡ lower b
lower-lower b = ground arith

escaped_meta : (b : ℕ) (s : Bytes) → is_meta b ≡ true → escaped (b ∷ s) ≡ b'\\' ∷ b ∷ escaped s
unfolding escaped
escaped_meta b s h = rw h refl

escaped_plain : (b : ℕ) (s : Bytes) → is_meta b ≡ false → escaped (b ∷ s) ≡ b ∷ escaped s
unfolding escaped
escaped_plain b s h = rw h refl

any_suffix-end : (p : Bytes → Bool) (s : Bytes) → p [] ≡ true → any_suffix p s ≡ true
unfolding any_suffix
any_suffix-end p [] h = h
any_suffix-end p (b ∷ s) h = ground (arith, any_suffix-end p s h)

any_suffix-cong :
    (p q : Bytes → Bool) (s : Bytes)
    → ((t : Bytes) → p (to_lower t) ≡ q (to_lower t))
    → any_suffix p (to_lower s) ≡ any_suffix q (to_lower s)
unfolding any_suffix to_lower
any_suffix-cong p q [] h = h []
any_suffix-cong p q (b ∷ s) h = ap₂ (λ x y. x || y) (h (b ∷ s)) (any_suffix-cong p q s h)

suffix_start : (t b s : Bytes) → s ≡ t ++ b → any_suffix (λ u. has_prefix u t) s ≡ true
unfolding any_suffix
suffix_start t b [] e = ap (λ u. has_prefix u t) e ∙ rest_prefix t b
suffix_start t b (c ∷ s) e =
    let p : has_prefix (c ∷ s) t ≡ true = ap (λ u. has_prefix u t) e ∙ rest_prefix t b in rw p refl

suffix_at : (t a b : Bytes) → any_suffix (λ u. has_prefix u t) (a ++ (t ++ b)) ≡ true
unfolding any_suffix
suffix_at t [] b = suffix_start t b (t ++ b) refl
suffix_at t (c ∷ a) b = ground (arith, suffix_at t a b)

suffix-Within : (t s : Bytes) → any_suffix (λ u. has_prefix u t) s ≡ true → Within t s
unfolding any_suffix
suffix-Within t [] h = let (r, e) = prefix_rest [] t h in ([], r, e)
suffix-Within t (b ∷ s) h = elim (Bool-cases (has_prefix (b ∷ s) t)) [
  | inl p ↦ let (r, e) = prefix_rest (b ∷ s) t p in ([], r, e)
  | inr p ↦
      let (a, r, e) = suffix-Within t s (ground (arith, p, h)) in (b ∷ a, r, ap (λ u. b ∷ u) e)
]

escaped_nil : escaped [] ≡ []
unfolding escaped
escaped_nil = refl

abbrev pub count : ℕ → Bytes → ℕ
count b [] = 0
count b (c ∷ s) = if c == b then suc (count b s) else count b s

count-append : (b : ℕ) (s t : Bytes) → count b (s ++ t) ≡ count b s + count b t
count-append b [] t = omega arith
count-append b (c ∷ s) t = ground (arith, count-append b s t)

one_placeholder : count b'?' one_clause ≡ 1
one_placeholder = refl

placeholders :
    (terms : List Bytes)
    → count b'?' (name_match_clause terms).0 ≡ length (name_match_clause terms).1
unfolding name_match_clause
placeholders [] = refl
placeholders (term ∷ terms) = omega (
  arith,
  count-append b'?' one_clause (name_match_clause terms).0,
  placeholders terms,
  one_placeholder,
)

module _ (like : Bytes → Bytes → Bool) (laws : Like like) where
  open_end : (t : Bytes) → like (b'%' ∷ []) t ≡ true
  open_end t = laws.like_any [] t ∙ any_suffix-end (like []) t (laws.like_end [])

  like_first :
      (b c : ℕ) (s p t : Bytes)
      → like (escaped (lower b ∷ s) ++ p) (lower c ∷ t)
        ≡ (lower c == lower b && like (escaped s ++ p) t)
  like_first b c s p t = elim (Bool-cases (is_meta (lower b))) [
    | inl m ↦
        rw (escaped_meta (lower b) s m) (laws.like_escape (lower b) (lower c) (escaped s ++ p) t m)
    | inr m ↦ rw (escaped_plain (lower b) s m) (
        laws.like_plain (lower b) (lower c) (escaped s ++ p) t m
        ∙ ap₂ (λ x y. x == y && like (escaped s ++ p) t) (lower-lower c) (lower-lower b))
  ]

  like_short : (b : ℕ) (s p : Bytes) → like (escaped (b ∷ s) ++ p) [] ≡ false
  like_short b s p = elim (Bool-cases (is_meta b)) [
    | inl m ↦ rw (escaped_meta b s m) (laws.like_escape_end b (escaped s ++ p))
    | inr m ↦ rw (escaped_plain b s m) (laws.like_plain_end b (escaped s ++ p) m)
  ]

  -- The pattern after its first "%".
  rest-has_prefix :
      (s t : Bytes)
      → like (escaped (to_lower s) ++ b'%' ∷ []) (to_lower t) ≡ has_prefix (to_lower t) (to_lower s)
  unfolding to_lower has_prefix
  rest-has_prefix [] t = rw escaped_nil (open_end (to_lower t))
  rest-has_prefix (b ∷ s) [] = like_short (lower b) (to_lower s) (b'%' ∷ [])
  rest-has_prefix (b ∷ s) (c ∷ t) =
      like_first b c (to_lower s) (b'%' ∷ []) (to_lower t)
      ∙ ap (λ x. lower c == lower b && x) (rest-has_prefix s t)

  pattern-any_suffix :
      (term name : Bytes)
      → like (like_pattern term) (fold_case name)
        ≡ any_suffix (λ u. has_prefix u (fold_case term)) (fold_case name)
  unfolding like_pattern
  pattern-any_suffix term name =
      laws.like_any (escaped (fold_case term) ++ b'%' ∷ []) (fold_case name)
      ∙ any_suffix-cong (like (escaped (fold_case term) ++ b'%' ∷ []))
          (λ u. has_prefix u (fold_case term)) name (rest-has_prefix term)

  pattern-Within :
      (term name : Bytes)
      → (like (like_pattern term) (fold_case name) ≡ true)
        ↔ Within (fold_case term) (fold_case name)
  pattern-Within term name = (
    (λ h. suffix-Within (fold_case term) (fold_case name) (sym (pattern-any_suffix term name) ∙ h)),
    (λ (a, b, e).
        pattern-any_suffix term name
        ∙ ap (any_suffix (λ u. has_prefix u (fold_case term))) e
        ∙ suffix_at (fold_case term) a b),
  )

  patterns-Within :
      (terms : List Bytes) (name : Bytes)
      → All (λ p. like p (fold_case name) ≡ true) (name_match_clause terms).1
        ↔ All (λ term. Within (fold_case term) (fold_case name)) terms
  unfolding name_match_clause
  patterns-Within [] name = ((λ h. h), (λ h. h))
  patterns-Within (term ∷ terms) name =
      ground (arith, pattern-Within term name, patterns-Within terms name)

-- With a LIKE as SQLite documents it, a name has every pattern that the condition binds exactly when,
-- in lower case, every term stands in it as it is, with "%", "_" and the backslash as plain
-- characters. The condition has one placeholder for each pattern.
pub name_match_iff :
    (like : Bytes → Bytes → Bool) (terms : List Bytes) (name : Bytes)
    → Like like
    → (All (λ p. like p (fold_case name) ≡ true) (name_match_clause terms).1
        ↔ All (λ term. Within (fold_case term) (fold_case name)) terms)
      × (count b'?' (name_match_clause terms).0 ≡ length (name_match_clause terms).1)
name_match_iff like terms name laws = (patterns-Within like laws terms name, placeholders terms)
