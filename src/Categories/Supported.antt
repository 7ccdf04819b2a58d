-- ===== src/Categories/Supported.antt =====
-- Which standard categories a definition supports.
use jacklet.Prelude.{
  ℕ, ◌<◌, ◌≡◌, sym, subst, ◌≢◌, ◌↔◌, ◌⊎◌, inl, inr, some, [], ◌∷◌, arith, Bool-cases, ◌==◌, ℕ-Eq,
  beq_eq, beq_ne, All, Any, Bytes, Bytes-Eq, ap, Option, none, List, map, leb, Option-cases,
  All-map,
}
use jacklet.Prelude.Int.{ℤ, pos, negsuc, ℤ-Eq}
use jacklet.Tracker.{CategoryMapping, Tracker}
use jacklet.Categories.{standard_id}
use jacklet.Categories.Listed.{
  Names, put_name, insert_id, sorted_ids, CategoryInfo, noted_name, standard_names, info_of,
  supported_categories,
}

-- An entry of a list with this number.
abbrev Has : ℕ → Names → Type 0
Has i names = Any (λ e. e.0 ≡ i) names

-- Every number is above one.
abbrev pub Over : ℕ → Names → Type 0
Over i names = All (λ e. i < e.0) names

abbrev pub Rising : Names → Type 0
Rising [] = Unit
Rising (e ∷ names) = Over e.0 names × Rising names

-- Each number stands once.
abbrev Once : Names → Type 0
Once [] = Unit
Once (e ∷ names) = All (λ f. f.0 ≢ e.0) names × Once names

put_name-Has :
    (i id : ℕ) (name : Bytes) (names : Names)
    → Has i (put_name id name names) ↔ ((id ≡ i) ⊎ Has i names)
unfolding put_name
put_name-Has i id name [] = ground arith
put_name-Has i id name ((j, n) ∷ names) = ground (arith, put_name-Has i id name names)

put_name-apart :
    (j id : ℕ) (name : Bytes) (names : Names)
    → j ≢ id
    → All (λ f. f.0 ≢ j) names
    → All (λ f. f.0 ≢ j) (put_name id name names)
unfolding put_name
put_name-apart j id name [] ne h = ground arith
put_name-apart j id name ((k, n) ∷ names) ne (h, hs) = elim (Bool-cases (k == id)) [
  | inl e ↦ rw e ((λ p. ne (sym p)), hs)
  | inr e ↦ rw e (h, put_name-apart j id name names ne hs)
]

put_name-Once : (id : ℕ) (name : Bytes) (names : Names) → Once names → Once (put_name id name names)
unfolding put_name
put_name-Once id name [] o = (tt, tt)
put_name-Once id name ((j, n) ∷ names) (h, o) = elim (Bool-cases (j == id)) [
  | inl e ↦ rw e (subst (λ x. All (λ f. f.0 ≢ x) names) (beq_eq j id e) h, o)
  | inr e ↦ rw e (put_name-apart j id name names (beq_ne j id e) h, put_name-Once id name names o)
]

insert_id-Has :
    (i : ℕ) (e : ℕ × Bytes) (names : Names) → Has i (insert_id e names) ↔ ((e.0 ≡ i) ⊎ Has i names)
unfolding insert_id
insert_id-Has i e [] = ground arith
insert_id-Has i e (f ∷ names) = ground (arith, insert_id-Has i e names)

sorted_ids-Has : (i : ℕ) (names : Names) → Has i (sorted_ids names) ↔ Has i names
unfolding sorted_ids
sorted_ids-Has i [] = ((λ h. h), (λ h. h))
sorted_ids-Has i (e ∷ names) =
    ground (arith, insert_id-Has i e (sorted_ids names), sorted_ids-Has i names)

-- Which numbers the mappings lead to.
abbrev pub LeadsTo : ℕ → CategoryMapping → Type 0
LeadsTo i m = standard_id m.cat ≡ some i

-- No entry has the number.
absent : (j : ℕ) (names : Names) → All (λ f. f.0 ≢ j) names → Has j names → ⊥
absent j [] h none_ = none_
absent j (f ∷ names) (ne, h) (inl e) = ne e
absent j (f ∷ names) (ne, h) (inr there) = absent j names h there

insert_id-Over :
    (j : ℕ) (e : ℕ × Bytes) (names : Names) → j < e.0 → Over j names → Over j (insert_id e names)
unfolding insert_id
insert_id-Over j e [] lt h = (lt, tt)
insert_id-Over j e (f ∷ names) lt (g, h) = elim (Bool-cases (leb e.0 f.0)) [
  | inl le ↦ rw le (lt, (g, h))
  | inr le ↦ rw le (g, insert_id-Over j e names lt h)
]

Over-lt : (i j : ℕ) (names : Names) → i < j → Over j names → Over i names
Over-lt i j names lt h = All-map (λ e. j < e.0) (λ e. i < e.0) names (λ e above. omega arith) h

insert_id-Rising :
    (e : ℕ × Bytes) (names : Names)
    → (Has e.0 names → ⊥)
    → Rising names
    → Rising (insert_id e names)
unfolding insert_id
insert_id-Rising e [] new r = (tt, tt)
insert_id-Rising e (f ∷ names) new (over, r) = elim (Bool-cases (leb e.0 f.0)) [
  | inl le ↦
      let ne : f.0 ≢ e.0 = λ p. new (inl p) in
      let lt : e.0 < f.0 = ground (arith, le, ne) in
      rw le ((lt, Over-lt e.0 f.0 names lt over), (over, r))
  | inr le ↦
      let lt : f.0 < e.0 = ground (arith, le) in
      rw le (insert_id-Over f.0 e names lt over, insert_id-Rising e names (λ h. new (inr h)) r)
]

sorted_ids-Rising : (names : Names) → Once names → Rising (sorted_ids names)
unfolding sorted_ids
sorted_ids-Rising [] o = tt
sorted_ids-Rising (e ∷ names) (apart, o) =
    insert_id-Rising e (sorted_ids names)
      (λ h. absent e.0 names apart ((sorted_ids-Has e.0 names).0 h)) (sorted_ids-Rising names o)

standard_names-Once :
    (ms : List CategoryMapping) (names : Names) → Once names → Once (standard_names ms names)
unfolding standard_names noted_name
standard_names-Once [] names o = o
standard_names-Once (m ∷ ms) names o = elim (Option-cases (standard_id m.cat)) [
  | inl e ↦ rw e (standard_names-Once ms names o)
  | inr (id, e) ↦
      rw e (standard_names-Once ms (put_name id m.cat names) (put_name-Once id m.cat names o))
]

some_iff : (i j : ℕ) → (i ≡ j) ↔ (◌≡◌ {A = Option ℕ} (some i) (some j))
some_iff i j = ((λ e. ap some e), (λ e. cc))

drop_middle : {A B C : Type 0} {i : ℕ} → A ↔ (B ⊎ C) → A ↔ (B ⊎ (Path (Option ℕ) none (some i) ⊎ C))
drop_middle (f, g) = (
  (λ a. elim (f a) [ inl b ↦ inl b | inr c ↦ inr (inr c) ]),
  (λ h. elim h [
    | inl b ↦ g (inl b)
    | inr (inl e) ↦ absurd (none_some e)
    | inr (inr c) ↦ g (inr c)
  ]),
)
  where
    none_some : {i : ℕ} → Path (Option ℕ) none (some i) → ⊥
    none_some e = cc

regroup : {A B C D E F : Type 0} → A ↔ (B ⊎ C) → B ↔ (D ⊎ E) → D ↔ F → A ↔ (E ⊎ (F ⊎ C))
regroup (f, g) (h, k) (p, q) = (
  (λ a. elim (f a) [
    | inl b ↦ elim (h b) [ inl d ↦ inr (inl (p d)) | inr e ↦ inl e ]
    | inr c ↦ inr (inr c)
  ]),
  (λ x. elim x [
    | inl e ↦ g (inl (k (inr e)))
    | inr (inl y) ↦ g (inl (k (inl (q y))))
    | inr (inr c) ↦ g (inr c)
  ]),
)

standard_names-Has :
    (i : ℕ) (ms : List CategoryMapping) (names : Names)
    → Has i (standard_names ms names) ↔ (Has i names ⊎ Any (LeadsTo i) ms)
unfolding standard_names noted_name
standard_names-Has i [] names = ground arith
standard_names-Has i (m ∷ ms) names = elim (Option-cases (standard_id m.cat)) [
  | inl e ↦ rw e (drop_middle (standard_names-Has i ms names))
  | inr (id, e) ↦ rw e (
      regroup (standard_names-Has i ms (put_name id m.cat names)) (put_name-Has i id m.cat names)
        (some_iff id i))
]

-- One number is below another, neither negative.
abbrev pub Below : ℤ → ℤ → Type 0
Below (pos m) (pos n) = m < n
Below (pos m) (negsuc n) = ⊥
Below (negsuc m) n = ⊥

abbrev pub Ascending : List CategoryInfo → Type 0
Ascending [] = Unit
Ascending (x ∷ xs) = All (λ y. Below x.id y.id) xs × Ascending xs

Over-Below :
    (i : ℕ) (names : Names) → Over i names → All (λ y. Below (pos i) y.id) (map info_of names)
Over-Below i [] h = tt
Over-Below i (e ∷ names) (lt, h) = (lt, Over-Below i names h)

Rising-Ascending : (names : Names) → Rising names → Ascending (map info_of names)
Rising-Ascending [] r = tt
Rising-Ascending (e ∷ names) (over, r) = (Over-Below e.0 names over, Rising-Ascending names r)

Has-listed :
    (i : ℕ) (names : Names) → Any (λ info. info.id ≡ pos i) (map info_of names) ↔ Has i names
Has-listed i [] = ((λ h. h), (λ h. h))
Has-listed i (e ∷ names) = ground (arith, Has-listed i names, pos_iff e.0 i)
  where
    pos_iff : (m n : ℕ) → (◌≡◌ {A = ℤ} (pos m) (pos n)) ↔ (m ≡ n)
    pos_iff m n = ((λ e. cc), (λ e. ap pos e))

-- The categories that a definition advertises are in ascending order, each once, and they are exactly
-- the standard categories that its mappings lead to.
pub supported_iff :
    (def : Tracker) (i : ℕ)
    → Ascending (supported_categories def)
      × (Any (λ info. info.id ≡ pos i) (supported_categories def)
          ↔ Any (LeadsTo i) def.caps.category_mappings)
unfolding supported_categories
supported_iff def i =
    let names = standard_names def.caps.category_mappings [] in
    (
      Rising-Ascending (sorted_ids names)
          (sorted_ids-Rising names (standard_names-Once def.caps.category_mappings [] tt)),
      through (Has-listed i (sorted_ids names)) (sorted_ids-Has i names)
          (standard_names-Has i def.caps.category_mappings []),
    )
  where
    through : {A B C D : Type 0} → A ↔ B → B ↔ C → C ↔ (⊥ ⊎ D) → A ↔ D
    through (f, g) (h, k) (p, q) = (
      (λ a. elim (p (h (f a))) [ inl none_ ↦ absurd none_ | inr d ↦ d ]),
      (λ d. g (k (q (inr d)))),
    )
