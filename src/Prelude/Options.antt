-- ===== src/Prelude/Options.antt =====
-- Options: two together, and a list of calls of which the first failure ends the loop.
use jacklet.Prelude.{
  ◌≡◌, refl, inl, inr, Option, none, some, List, [], ◌∷◌, ◌++◌, map, Option-cases, ℕ-Eq, Bytes-Eq,
}

abbrev pub both {ℓ κ ν} :
    {A : Type ℓ} {B : Type κ} {C : Type ν} → (A → B → C) → Option A → Option B → Option C
both f (some a) (some b) = some (f a b)
both f (some a) none = none
both f none m = none

-- `for _, a := range list { b, err := f(a); if err != nil { return err }; ... }`
unfoldable pub traverse {ℓ κ} :
    {A : Type ℓ} {B : Type κ} → (A → Option B) → List A → Option (List B)
traverse f [] = some []
traverse f (x ∷ xs) = both (λ b bs. b ∷ bs) (f x) (traverse f xs)

pub traverse-append {ℓ κ} :
    {A : Type ℓ} {B : Type κ} (f : A → Option B) (xs ys : List A)
    → traverse f (xs ++ ys) ≡ both (λ bs cs. bs ++ cs) (traverse f xs) (traverse f ys)
unfolding traverse
traverse-append f [] ys = elim (Option-cases (traverse f ys)) [
  | inl e ↦ rw e refl
  | inr (cs, e) ↦ rw e refl
]
traverse-append f (x ∷ xs) ys = rw (traverse-append f xs ys) (elim (Option-cases (f x)) [
  | inl e ↦ rw e refl
  | inr (b, e) ↦ rw e (elim (Option-cases (traverse f xs)) [
    | inl d ↦ rw d refl
    | inr (bs, d) ↦
        rw d (elim (Option-cases (traverse f ys)) [ inl c ↦ rw c refl | inr (cs, c) ↦ rw c refl ])
  ])
])

-- What the list is made of comes back, if each element does.
pub traverse-map {ℓ κ} :
    {A : Type ℓ} {B : Type κ} (f : A → Option B) (g : B → A)
    → ((b : B) → f (g b) ≡ some b)
    → (bs : List B) → traverse f (map g bs) ≡ some bs
unfolding traverse
traverse-map f g h [] = refl
traverse-map f g h (b ∷ bs) = rw (h b, traverse-map f g h bs) refl
