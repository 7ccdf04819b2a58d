-- ===== src/Categories/Group.antt =====
-- The standard categories of a group, as texts.
use jacklet.Prelude.{
  ℕ, ◌+◌, ◌≡◌, refl, sym, ap, ◌∙◌, subst, ◌↔◌, ◌⊎◌, inl, inr, Bool, true, false, ◌&&◌, ◌||◌, List,
  [], ◌∷◌, map, ltb, Bool-cases, ◌==◌, ℕ-Eq, beq_refl, beq_eq, Any, select, contains, Bytes,
  Bytes-Eq,
}
use jacklet.Prelude.Int.{ℤ-Eq}
use jacklet.Prelude.Decimal.{itoa}
use jacklet.Categories.Standard.{standard_category_ids}
use jacklet.Categories.{category_group_size, children, standard_category_ids}

clash : false ≡ true → ⊥
clash e = cc

pub nothing_in : (x : Bytes) → contains [] x ≡ true → ⊥
nothing_in x h = clash h

pub or_parts : (a b : Bool) → (a || b) ≡ true → (a ≡ true) ⊎ (b ≡ true)
or_parts true b h = inl refl
or_parts false b h = inr h

pub or_left : (a b : Bool) → a ≡ true → (a || b) ≡ true
or_left true b h = refl
or_left false b h = absurd (clash h)

pub or_right : (a b : Bool) → b ≡ true → (a || b) ≡ true
or_right true b h = refl
or_right false b h = h

pub same_text : (c x : Bytes) → c ≡ x → (c == x) ≡ true
same_text c x e = subst (λ y. (c == y) ≡ true) e (beq_refl c)

kept_here :
    (p : Bytes × ℕ → Bool) (e : Bytes × ℕ) (table : List (Bytes × ℕ))
    → p e ≡ true
    → select p (e ∷ table) ≡ e ∷ select p table
kept_here p e table h = rw h refl

left_here :
    (p : Bytes × ℕ → Bool) (e : Bytes × ℕ) (table : List (Bytes × ℕ))
    → p e ≡ false
    → select p (e ∷ table) ≡ select p table
left_here p e table h = rw h refl

abbrev texts_of : List (Bytes × ℕ) → List Bytes
texts_of table = map (λ e. itoa e.1) table

-- An entry of the table with that text, whose number is chosen.
abbrev pub Chosen : (ℕ → Bool) → List (Bytes × ℕ) → Bytes → Type 0
Chosen p table x = (k : ℕ) × (p k ≡ true) × Any (λ f. f.1 ≡ k) table × (itoa k ≡ x)

taken_texts :
    (p : ℕ → Bool) (table : List (Bytes × ℕ)) (x : Bytes)
    → contains (texts_of (select (λ e. p e.1) table)) x ≡ true
    → Chosen p table x
taken_texts p [] x h = absurd (nothing_in x h)
taken_texts p (e ∷ table) x h = elim (Bool-cases (p e.1)) [
  | inl in_it ↦
      elim (or_parts (itoa e.1 == x) (contains (texts_of (select (λ e. p e.1) table)) x)
        (subst (λ s. contains (texts_of s) x ≡ true) (kept_here (λ e. p e.1) e table in_it) h)) [
          | inl same ↦ (e.1, in_it, inl refl, beq_eq (itoa e.1) x same)
          | inr later ↦
              let (k, pk, there, text) = taken_texts p table x later in (k, pk, inr there, text)
        ]
  | inr apart ↦
      let (k, pk, there, text) =
        taken_texts p table x
          (subst (λ s. contains (texts_of s) x ≡ true) (left_here (λ e. p e.1) e table apart) h) in
      (k, pk, inr there, text)
]

texts_taken :
    (p : ℕ → Bool) (table : List (Bytes × ℕ)) (x : Bytes)
    → Chosen p table x
    → contains (texts_of (select (λ e. p e.1) table)) x ≡ true
texts_taken p [] x (k, pk, none_, text) = absurd none_
texts_taken p (e ∷ table) x (k, pk, inl same, text) =
    subst (λ s. contains (texts_of s) x ≡ true)
      (sym (kept_here (λ e. p e.1) e table (subst (λ j. p j ≡ true) (sym same) pk)))
      (or_left (itoa e.1 == x) _ (same_text (itoa e.1) x (ap itoa same ∙ text)))
texts_taken p (e ∷ table) x (k, pk, inr there, text) =
    let rest = texts_taken p table x (k, pk, there, text) in
    elim (Bool-cases (p e.1)) [
      | inl in_it ↦
          subst (λ s. contains (texts_of s) x ≡ true) (sym (kept_here (λ e. p e.1) e table in_it))
            (or_right (itoa e.1 == x) _ rest)
      | inr apart ↦
          subst (λ s. contains (texts_of s) x ≡ true) (sym (left_here (λ e. p e.1) e table apart))
            rest
    ]

-- The members of a group.
abbrev pub in_group : ℕ → ℕ → Bool
in_group n k = ltb n k && ltb k (n + category_group_size)

pub in_children :
    (n : ℕ) (x : Bytes)
    → (contains (children n) x ≡ true) ↔ Chosen (in_group n) standard_category_ids x
unfolding children
in_children n x = (
  taken_texts (in_group n) standard_category_ids x,
  texts_taken (in_group n) standard_category_ids x,
)
