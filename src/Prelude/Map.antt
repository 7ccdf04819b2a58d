-- ===== src/Prelude/Map.antt =====
-- Go maps as functions from keys to what they hold: reading, writing and deleting an entry, and
-- the loops that delete every entry that passes a test.
use jacklet.Prelude.{
  ◌≡◌, ◌≢◌, Bool, Option, none, some, arith, Eq, ◌==◌, if◌then◌else◌, beq_refl, ne_beq,
}

abbrev pub Map {ℓ κ} : Type ℓ → Type κ → Type (ℓ ⊔ κ)
Map K V = K → Option V

abbrev pub empty {ℓ κ} : {K : Type ℓ} {V : Type κ} → Map K V
empty k = none

module _ {ℓ κ} {K : Type ℓ} {V : Type κ} ⦃e : Eq K⦄ where
  unfoldable pub insert : K → V → Map K V → Map K V
  insert k v m j = if k == j then some v else m j

  unfoldable pub delete : K → Map K V → Map K V
  delete k m j = if k == j then none else m j

  pub insert_self : (k : K) (v : V) (m : Map K V) → insert k v m k ≡ some v
  unfolding insert
  insert_self k v m = ground (arith, beq_refl k)

  pub insert_ne : (k j : K) (v : V) (m : Map K V) → k ≢ j → insert k v m j ≡ m j
  unfolding insert
  insert_ne k j v m h = ground (arith, ne_beq k j h)

  pub delete_self : (k : K) (m : Map K V) → delete k m k ≡ none
  unfolding delete
  delete_self k m = ground (arith, beq_refl k)

  pub delete_ne : (k j : K) (m : Map K V) → k ≢ j → delete k m j ≡ m j
  unfolding delete
  delete_ne k j m h = ground (arith, ne_beq k j h)

module _ {ℓ κ} {K : Type ℓ} {V : Type κ} where
  -- `for k, v := range m { if drops(v) { delete(m, k) } }`
  unfoldable pub delete_if : (V → Bool) → Map K V → Map K V
  delete_if drops m k = elim (m k) [ none ↦ none | some v ↦ if drops v then none else some v ]
