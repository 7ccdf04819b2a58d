-- ===== src/Prelude/Sorting.antt =====
-- `bytes.Compare` is a total order, and Go's slices.SortFunc by it.
use jacklet.Prelude.{
  ◌≡◌, refl, ap, ◌∙◌, inl, inr, Bool, true, false, ◌&&◌, ◌||◌, List, [], ◌∷◌, arith, ltb,
  if◌then◌else◌, Bool-cases, ◌==◌, ℕ-Eq, contains, Bytes, bytes_eq, Bytes-Eq,
}

-- `slices.SortFunc` by `bytes.Compare`, as insertion: the order of equal keys is left open there.
unfoldable pub bytes_le : Bytes → Bytes → Bool
bytes_le [] t = true
bytes_le (a ∷ s) [] = false
bytes_le (a ∷ s) (b ∷ t) = ltb a b || (a == b && bytes_le s t)

module _ {ℓ} {A : Type ℓ} (key : A → Bytes) where
  unfoldable pub insert_by : A → List A → List A
  insert_by x [] = x ∷ []
  insert_by x (y ∷ ys) = if bytes_le (key x) (key y) then x ∷ y ∷ ys else y ∷ insert_by x ys

  unfoldable pub sort_by : List A → List A
  unfolding insert_by
  sort_by [] = []
  sort_by (x ∷ xs) = insert_by x (sort_by xs)

pub le_total : (s t : Bytes) → bytes_le s t ≡ false → bytes_le t s ≡ true
unfolding bytes_le
le_total [] t h = cc
le_total (a ∷ s) [] h = refl
le_total (a ∷ s) (b ∷ t) h = ground (arith, le_total s t)

pub le_antisym : (s t : Bytes) → bytes_le s t ≡ true → bytes_le t s ≡ true → s ≡ t
unfolding bytes_le
le_antisym [] [] h k = refl
le_antisym [] (b ∷ t) h k = cc
le_antisym (a ∷ s) [] h k = cc
le_antisym (a ∷ s) (b ∷ t) h k = ground (arith, le_antisym s t)

pub le_trans : (s t u : Bytes) → bytes_le s t ≡ true → bytes_le t u ≡ true → bytes_le s u ≡ true
unfolding bytes_le
le_trans [] t u h k = refl
le_trans (a ∷ s) [] u h k = cc
le_trans (a ∷ s) (b ∷ t) [] h k = cc
le_trans (a ∷ s) (b ∷ t) (c ∷ u) h k = ground (arith, le_trans s t u)

module _ {ℓ} {A : Type ℓ} (key : A → Bytes) where
  -- No element of the list has a key below `k`.
  abbrev pub Above : Bytes → List A → Type 0
  Above k [] = Unit
  Above k (x ∷ xs) = (bytes_le k (key x) ≡ true) × Above k xs

  abbrev pub IsSorted : List A → Type 0
  IsSorted [] = Unit
  IsSorted (x ∷ xs) = Above (key x) xs × IsSorted xs

  pub Above-le : (j k : Bytes) (xs : List A) → bytes_le j k ≡ true → Above k xs → Above j xs
  Above-le j k [] h _ = tt
  Above-le j k (x ∷ xs) h (a, as_) = (le_trans j k (key x) h a, Above-le j k xs h as_)

  pub insert_by-Above :
      (k : Bytes) (x : A) (xs : List A)
      → bytes_le k (key x) ≡ true
      → Above k xs
      → Above k (insert_by key x xs)
  unfolding insert_by
  insert_by-Above k x [] h _ = (h, tt)
  insert_by-Above k x (y ∷ ys) h (a, as_) = elim (Bool-cases (bytes_le (key x) (key y))) [
    | inl e ↦ rw e (h, (a, as_))
    | inr e ↦ rw e (a, insert_by-Above k x ys h as_)
  ]

  pub insert_by-IsSorted : (x : A) (xs : List A) → IsSorted xs → IsSorted (insert_by key x xs)
  unfolding insert_by
  insert_by-IsSorted x [] _ = (tt, tt)
  insert_by-IsSorted x (y ∷ ys) (a, s) = elim (Bool-cases (bytes_le (key x) (key y))) [
    | inl e ↦ rw e ((e, Above-le (key x) (key y) ys e a), (a, s))
    | inr e ↦
        rw e
          (insert_by-Above (key y) x ys (le_total (key x) (key y) e) a, insert_by-IsSorted x ys s)
  ]

  pub sort_by-IsSorted : (xs : List A) → IsSorted (sort_by key xs)
  unfolding sort_by
  sort_by-IsSorted [] = tt
  sort_by-IsSorted (x ∷ xs) = insert_by-IsSorted x (sort_by key xs) (sort_by-IsSorted xs)

  pub insert_by_head : (x : A) (xs : List A) → Above (key x) xs → insert_by key x xs ≡ x ∷ xs
  unfolding insert_by
  insert_by_head x [] _ = refl
  insert_by_head x (y ∷ ys) (a, _) = rw a

  -- A sorted list is left as it is.
  pub sort_by_sorted : (xs : List A) → IsSorted xs → sort_by key xs ≡ xs
  unfolding sort_by
  sort_by_sorted [] _ = refl
  sort_by_sorted (x ∷ xs) (a, s) = rw (sort_by_sorted xs s) (insert_by_head x xs a)

abbrev pub itself : Bytes → Bytes
itself k = k

pub contains-insert_by :
    (a k : Bytes) (ks : List Bytes)
    → contains (insert_by itself k ks) a ≡ (bytes_eq k a || contains ks a)
unfolding insert_by
contains-insert_by a k [] = refl
contains-insert_by a k (l ∷ ks) = ground (arith, contains-insert_by a k ks)

pub contains-sort_by :
    (a : Bytes) (ks : List Bytes) → contains (sort_by itself ks) a ≡ contains ks a
unfolding sort_by
contains-sort_by a [] = refl
contains-sort_by a (k ∷ ks) =
    contains-insert_by a k (sort_by itself ks) ∙ ap (λ b. bytes_eq k a || b) (contains-sort_by a ks)
