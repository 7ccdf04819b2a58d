-- ===== src/Query/Key.antt =====
-- Two searches with one key are one search.
use jacklet.Prelude.{
  ℕ, ◌+◌, ◌≡◌, refl, sym, ap, ◌∙◌, ◌≢◌, inl, inr, false, List, [], ◌∷◌, ◌++◌, arith, if◌then◌else◌,
  Bool-cases, ◌==◌, ℕ-Eq, All, All-map, contains, Bytes, Bytes-Eq,
}
use jacklet.Prelude.Split.{split, join, split-join}
use jacklet.Prelude.Sorting.{bytes_le, insert_by, sort_by}
use jacklet.Query.{SearchParams, key_fields}

abbrev pub Free : ℕ → Bytes → Type 0
Free sep s = contains s sep ≡ false

-- No parameter holds the byte that the key joins them by, and each category is some text without a
-- comma, as a decimal number is.
abbrev pub IsPlain : SearchParams → Type 0
IsPlain p = All (Free 0) (key_fields p) × All (λ c. (c ≢ []) × Free 0 c × Free b',' c) p.categories

All-insert_by :
    (P : Bytes → Type 0) (x : Bytes) (xs : List Bytes)
    → P x
    → All P xs
    → All P (insert_by (λ c. c) x xs)
unfolding insert_by
All-insert_by P x [] h _ = (h, tt)
All-insert_by P x (y ∷ ys) h (k, ks) = elim (Bool-cases (bytes_le x y)) [
  | inl e ↦ rw e (h, (k, ks))
  | inr e ↦ rw e (k, All-insert_by P x ys h ks)
]

pub All-sort_by : (P : Bytes → Type 0) (xs : List Bytes) → All P xs → All P (sort_by (λ c. c) xs)
unfolding sort_by
All-sort_by P [] h = h
All-sort_by P (x ∷ xs) (h, hs) = All-insert_by P x (sort_by (λ c. c) xs) h (All-sort_by P xs hs)

contains-append : (s t : Bytes) (c : ℕ) → Free c s → Free c t → Free c (s ++ t)
contains-append [] t c h k = k
contains-append (x ∷ s) t c h k = ground (arith, contains-append s t c, h, k)

pub join-Free :
    (sep c : ℕ) (ws : List Bytes) → (sep == c) ≡ false → All (Free c) ws → Free c (join sep ws)
unfolding join
join-Free sep c [] ne h = refl
join-Free sep c (w ∷ []) ne (h, _) = h
join-Free sep c (w ∷ v ∷ ws) ne (h, hs) =
    contains-append w (sep ∷ join sep (v ∷ ws)) c h
      (ground (arith, ne, join-Free sep c (v ∷ ws) ne hs))

heads : {v w : Bytes} {vs ws : List Bytes} → (v ∷ vs) ≡ (w ∷ ws) → v ≡ w
heads e = cc

not_empty :
    (sep : ℕ) (w : Bytes) (ws : List Bytes)
    → All (λ v. (v ≢ []) × Free sep v) (w ∷ ws)
    → join sep (w ∷ ws) ≡ []
    → ⊥
unfolding split
not_empty sep w ws h e =
    h.0.0
      (heads (sym (split-join sep w ws (All-map _ _ (w ∷ ws) (λ x y. y.1) h)) ∙ ap (split sep) e))

-- Joined texts that are not empty are the same texts, if they are the same joined.
pub join_injective :
    (sep : ℕ) (vs ws : List Bytes)
    → All (λ w. (w ≢ []) × Free sep w) vs
    → All (λ w. (w ≢ []) × Free sep w) ws
    → join sep vs ≡ join sep ws
    → vs ≡ ws
unfolding join
join_injective sep [] [] h k e = refl
join_injective sep [] (w ∷ ws) h k e = absurd (not_empty sep w ws k (sym e))
join_injective sep (v ∷ vs) [] h k e = absurd (not_empty sep v vs h e)
join_injective sep (v ∷ vs) (w ∷ ws) h k e =
    sym (split-join sep v vs (All-map _ _ (v ∷ vs) (λ x y. y.1) h))
    ∙ ap (split sep) e
    ∙ split-join sep w ws (All-map _ _ (w ∷ ws) (λ x y. y.1) k)

-- How often a category stands in a list.
abbrev pub count : Bytes → List Bytes → ℕ
count c [] = 0
count c (x ∷ xs) = (if x == c then 1 else 0) + count c xs

count-insert_by :
    (c x : Bytes) (xs : List Bytes) → count c (insert_by (λ b. b) x xs) ≡ count c (x ∷ xs)
unfolding insert_by
count-insert_by c x [] = refl
count-insert_by c x (y ∷ ys) = elim (Bool-cases (bytes_le x y)) [
  | inl e ↦ rw e refl
  | inr e ↦ rw e (omega (arith, count-insert_by c x ys))
]

pub count-sort_by : (c : Bytes) (xs : List Bytes) → count c (sort_by (λ b. b) xs) ≡ count c xs
unfolding sort_by
count-sort_by c [] = refl
count-sort_by c (x ∷ xs) =
    count-insert_by c x (sort_by (λ b. b) xs) ∙ omega (arith, count-sort_by c xs)
