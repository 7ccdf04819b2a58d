-- ===== src/Categories/Expanded.antt =====
-- Which categories a search covers.
use jacklet.Prelude.{
  ℕ, ◌+◌, ◌%◌, ◌<◌, ◌≡◌, refl, sym, ap, ◌∙◌, subst, ◌↔◌, ◌⊎◌, inl, inr, Bool, true, false, ◌||◌,
  some, List, [], ◌∷◌, ◌++◌, arith, if◌then◌else◌, Bool-cases, Option-cases, ◌==◌, ℕ-Eq, beq_eq,
  Any, contains, Bytes, Bytes-Eq,
}
use jacklet.Prelude.Sorting.{contains-sort_by}
use jacklet.Prelude.Int.{pos, negsuc, ℤ-Eq}
use jacklet.Prelude.Decimal.{atoi, itoa}
use jacklet.Categories.Group.{nothing_in, or_parts, or_left, or_right, same_text, in_children}
use jacklet.Categories.Standard.{standard_category_ids}
use jacklet.Categories.{
  category_group_size, expand_number, expand_one, add_all, expand_into, expand_category_ids,
}

contains-append :
    (s t : List Bytes) (x : Bytes) → contains (s ++ t) x ≡ (contains s x || contains t x)
contains-append [] t x = refl
contains-append (y ∷ s) t x = ground (arith, contains-append s t x)

pub contains_same : (s : List Bytes) (c x : Bytes) → (c == x) ≡ true → contains s c ≡ contains s x
contains_same s c x h = ap (contains s) (beq_eq c x h)

contains-add_one :
    (set : List Bytes) (c x : Bytes)
    → contains (if contains set c then set else set ++ c ∷ []) x ≡ (contains set x || c == x)
contains-add_one set c x = elim (Bool-cases (contains set c)) [
  | inl e ↦ elim (Bool-cases (c == x)) [
    | inl same ↦ rw (e, same) (ground (arith, e, contains_same set c x same))
    | inr other ↦ rw (e, other) (ground arith)
  ]
  | inr e ↦ rw e (contains-append set (c ∷ []) x ∙ ground arith)
]

contains-add_all :
    (cs set : List Bytes) (x : Bytes)
    → contains (add_all cs set) x ≡ (contains set x || contains cs x)
unfolding add_all
contains-add_all [] set x = ground arith
contains-add_all (c ∷ cs) set x =
    contains-add_all cs (if contains set c then set else set ++ c ∷ []) x
    ∙ ap (λ b. b || contains cs x) (contains-add_one set c x)
    ∙ ground arith

-- The categories some requested one adds.
abbrev stands_for : List Bytes → Bytes → Bool
stands_for [] x = false
stands_for (c ∷ requested) x = contains (expand_one c) x || stands_for requested x

or_assoc : (a b c : Bool) → ((a || b) || c) ≡ (a || (b || c))
or_assoc true b c = refl
or_assoc false b c = refl

contains-expand_into :
    (requested set : List Bytes) (x : Bytes)
    → contains (expand_into requested set) x ≡ (contains set x || stands_for requested x)
unfolding expand_into
contains-expand_into [] set x = ground arith
contains-expand_into (c ∷ requested) set x =
    contains-expand_into requested (add_all (expand_one c) set) x
    ∙ ap (λ b. b || stands_for requested x) (contains-add_all (expand_one c) set x)
    ∙ or_assoc (contains set x) (contains (expand_one c) x) (stands_for requested x)

expanded :
    (requested : List Bytes) (x : Bytes)
    → contains (expand_category_ids requested) x ≡ stands_for requested x
unfolding expand_category_ids
expanded requested x =
    contains-sort_by x (expand_into requested []) ∙ contains-expand_into requested [] x

-- A requested category stands for itself, and, when it is a number without a rest by 1000, for every
-- standard category above it and less than 1000 above it.
abbrev pub StandsFor : Bytes → Bytes → Type 0
StandsFor x c =
    (c ≡ x)
    ⊎ ((n : ℕ) × (k : ℕ) × (atoi c ≡ some (pos n))
        × (n % 1000 ≡ 0)
        × (n < k)
        × (k < n + 1000)
        × Any (λ e. e.1 ≡ k) standard_category_ids
        × (itoa k ≡ x))

number-StandsFor : (c x : Bytes) → contains (expand_number (atoi c)) x ≡ true → StandsFor x c
number-StandsFor c x h = elim (Option-cases (atoi c)) [
  | inl e ↦ absurd (nothing_in x (subst (λ o. contains (expand_number o) x ≡ true) e h))
  | inr (negsuc n, e) ↦ absurd (nothing_in x (subst (λ o. contains (expand_number o) x ≡ true) e h))
  | inr (pos n, e) ↦ of_number n e (subst (λ o. contains (expand_number o) x ≡ true) e h)
]
  where
    of_number :
        (n : ℕ)
        → atoi c ≡ some (pos n)
        → contains (expand_number (some (pos n))) x ≡ true
        → StandsFor x c
    of_number n e g = elim (Bool-cases (n % category_group_size == 0)) [
      | inl whole ↦
          let (k, pk, there, text) = (in_children n x).0 (rw whole at g) in
          inr (n, k, e, ground (arith, whole), ground (arith, pk), ground (arith, pk), there, text)
      | inr part ↦ absurd (nothing_in x (rw part at g))
    ]

expand_one-StandsFor : (c x : Bytes) → contains (expand_one c) x ≡ true → StandsFor x c
unfolding expand_one
expand_one-StandsFor c x h = elim (or_parts (c == x) (contains (expand_number (atoi c)) x) h) [
  | inl same ↦ inl (beq_eq c x same)
  | inr other ↦ number-StandsFor c x other
]

StandsFor-expand_one : (c x : Bytes) → StandsFor x c → contains (expand_one c) x ≡ true
unfolding expand_one
StandsFor-expand_one c x (inl same) = or_left (c == x) _ (same_text c x same)
StandsFor-expand_one c x (inr (n, k, e, whole, above, below, there, text)) =
    or_right (c == x) _ (subst (λ o. contains (expand_number o) x ≡ true) (sym e) group)
  where
    group : contains (expand_number (some (pos n))) x ≡ true
    group =
        let rest : (n % 1000 == 0) ≡ true = ground (arith, whole) in
        rw rest ((in_children n x).1 (k, ground (arith, above, below), there, text))

stands_for-Any :
    (requested : List Bytes) (x : Bytes)
    → (stands_for requested x ≡ true) ↔ Any (StandsFor x) requested
stands_for-Any [] x = ((λ h. ground (arith, h)), (λ h. absurd h))
stands_for-Any (c ∷ requested) x = (
  (λ h. elim (or_parts (contains (expand_one c) x) (stands_for requested x) h) [
    | inl here ↦ inl (expand_one-StandsFor c x here)
    | inr there ↦ inr ((stands_for-Any requested x).0 there)
  ]),
  (λ h. elim h [
    | inl here ↦ or_left _ (stands_for requested x) (StandsFor-expand_one c x here)
    | inr there ↦ or_right (contains (expand_one c) x) _ ((stands_for-Any requested x).1 there)
  ]),
)

-- A category is among the expanded ones exactly when some requested one stands for it: itself, or a
-- standard category of its group, the numbers above a multiple of 1000 and below the next.
pub expand-contains :
    (requested : List Bytes) (x : Bytes)
    → (contains (expand_category_ids requested) x ≡ true) ↔ Any (StandsFor x) requested
expand-contains requested x =
    let (to, from) = stands_for-Any requested x in
    let e = expanded requested x in ((λ h. to (sym e ∙ h)), (λ h. e ∙ from h))
