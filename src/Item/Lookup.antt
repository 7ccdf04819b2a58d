-- ===== src/Item/Lookup.antt =====
-- Looking up an attribute by its name.
use jacklet.Prelude.{
  ◌≡◌, refl, sym, ap, ◌∙◌, subst, inl, inr, Bool, true, false, not, ◌&&◌, Option, none, some, List,
  [], ◌∷◌, ◌++◌, arith, if◌then◌else◌, Bool-cases, ◌==◌, ℕ-Eq, beq_refl, beq_ne, ne_beq, All, Bytes,
  Bytes-Eq,
}
use jacklet.Prelude.Int.{ℤ-Eq}
use jacklet.Item.{Attribute, present}

-- The value of the first attribute of that name.
abbrev pub value_of : Bytes → List Attribute → Option Bytes
value_of n [] = none
value_of n (a ∷ attrs) = if a.name == n then some a.value else value_of n attrs

abbrev pub stated : Attribute → Option Bytes
stated a = if a.value == [] then none else some a.value

abbrev pub or_else : Option Bytes → Option Bytes → Option Bytes
or_else none o = o
or_else (some v) o = some v

pub value_of-append :
    (n : Bytes) (xs ys : List Attribute)
    → value_of n (xs ++ ys) ≡ or_else (value_of n xs) (value_of n ys)
value_of-append n [] ys = refl
value_of-append n (x ∷ xs) ys = elim (Bool-cases (x.name == n)) [
  | inl e ↦ rw e refl
  | inr e ↦ rw e (value_of-append n xs ys)
]

-- No attribute of that name.
abbrev pub free : Bytes → List Attribute → Bool
free n [] = true
free n (a ∷ attrs) = not (a.name == n) && free n attrs

abbrev pub once : List Attribute → Bool
once [] = true
once (a ∷ attrs) = free a.name attrs && once attrs

pub present-free :
    (n : Bytes) (attrs : List Attribute) → free n attrs ≡ true → value_of n (present attrs) ≡ none
unfolding present
present-free n [] h = refl
present-free n (a ∷ attrs) h = elim (Bool-cases (a.value == [])) [
  | inl e ↦ rw e (present-free n attrs (ground (arith, h)))
  | inr e ↦
      let apart : (a.name == n) ≡ false = ground (arith, h) in
      rw e (rw apart (present-free n attrs (ground (arith, h))))
]

pub skip :
    (x : Attribute) (attrs rest : List Attribute)
    → free x.name attrs ≡ true
    → All (λ a. value_of a.name rest ≡ stated a) attrs
    → All (λ a. value_of a.name (x ∷ rest) ≡ stated a) attrs
skip x [] rest h all = tt
skip x (a ∷ attrs) rest h (here, all) =
    let apart : (x.name == a.name) ≡ false =
      ne_beq x.name a.name (λ e. beq_ne a.name x.name (ground (arith, h)) (sym e)) in
    (rw apart here, skip x attrs rest (ground (arith, h)) all)

pub present-empty :
    (x : Attribute) (attrs : List Attribute)
    → (x.value == []) ≡ true
    → present (x ∷ attrs) ≡ present attrs
unfolding present
present-empty x attrs e = rw e refl

pub present-kept :
    (x : Attribute) (attrs : List Attribute)
    → (x.value == []) ≡ false
    → present (x ∷ attrs) ≡ x ∷ present attrs
unfolding present
present-kept x attrs e = rw e refl

pub stated-empty : (x : Attribute) → (x.value == []) ≡ true → stated x ≡ none
stated-empty x e = rw e refl

pub stated-kept : (x : Attribute) → (x.value == []) ≡ false → stated x ≡ some x.value
stated-kept x e = rw e refl

abbrev pub Found : List Attribute → Attribute → Type 0
Found attrs a = value_of a.name attrs ≡ stated a

pub present-Found : (attrs : List Attribute) → once attrs ≡ true → All (Found (present attrs)) attrs
present-Found [] h = tt
present-Found (x ∷ attrs) h =
    let rest = present-Found attrs (ground (arith, h)) in
    let new : free x.name attrs ≡ true = ground (arith, h) in
    elim (Bool-cases (x.value == [])) [
      | inl e ↦
          subst (λ p. All (Found p) (x ∷ attrs)) (sym (present-empty x attrs e))
            (present-free x.name attrs new ∙ sym (stated-empty x e), rest)
      | inr e ↦
          subst (λ p. All (Found p) (x ∷ attrs)) (sym (present-kept x attrs e))
            (rw (beq_refl x.name) (sym (stated-kept x e)), skip x attrs (present attrs) new rest)
    ]

pub or_none : (o : Option Bytes) → or_else o none ≡ o
or_none none = refl
or_none (some v) = refl

pub surrounded :
    (n : Bytes) (before between found after : List Attribute)
    → value_of n before ≡ none
    → value_of n between ≡ none
    → value_of n after ≡ none
    → value_of n (before ++ (between ++ (found ++ after))) ≡ value_of n found
surrounded n before between found after b c a =
    value_of-append n before (between ++ (found ++ after))
    ∙ ap (λ o. or_else o (value_of n (between ++ (found ++ after)))) b
    ∙ value_of-append n between (found ++ after)
    ∙ ap (λ o. or_else o (value_of n (found ++ after))) c
    ∙ value_of-append n found after
    ∙ ap (or_else (value_of n found)) a
    ∙ or_none (value_of n found)
