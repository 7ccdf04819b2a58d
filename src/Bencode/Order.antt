-- ===== src/Bencode/Order.antt =====
-- Looking at neighbours of sorted keys finds what stands twice.
use jacklet.Prelude.{
  ◌≡◌, refl, ◌≢◌, ◌↔◌, true, false, List, [], ◌∷◌, arith, ℕ-Eq, contains, Bytes, bytes_eq_iff,
  Bytes-Eq,
}
use jacklet.Prelude.Sorting.{
  bytes_le, insert_by, sort_by, le_antisym, Above, IsSorted, sort_by-IsSorted, itself,
  contains-insert_by, contains-sort_by,
}
use jacklet.Bencode.{has_adjacent_twins}
use jacklet.Bencode.Grammar.{Distinct}

Distinct-insert_by :
    (k : Bytes) (ks : List Bytes)
    → Distinct (insert_by itself k ks) ↔ ((contains ks k ≡ false) × Distinct ks)
unfolding insert_by
Distinct-insert_by k [] = (λ _. (refl, tt), λ _. (refl, tt))
Distinct-insert_by k (l ∷ ks) =
    ground (
      arith,
      Distinct-insert_by k ks,
      contains-insert_by l k ks,
      bytes_eq_iff k l,
      bytes_eq_iff l k,
    )

pub Distinct-sort_by : (ks : List Bytes) → Distinct (sort_by itself ks) ↔ Distinct ks
unfolding sort_by
Distinct-sort_by [] = (λ h. h, λ h. h)
Distinct-sort_by (k ∷ ks) =
    ground
      (arith, Distinct-insert_by k (sort_by itself ks), contains-sort_by k ks, Distinct-sort_by ks)

Above-contains :
    (j k : Bytes) (ks : List Bytes)
    → bytes_le j k ≡ true
    → j ≢ k
    → Above itself k ks
    → contains ks j ≡ false
Above-contains j k [] h n _ = refl
Above-contains j k (l ∷ ks) h n (a, as_) =
    ground (arith, Above-contains j k ks h n as_, bytes_eq_iff l j, le_antisym j k)

twins-Distinct :
    (ks : List Bytes) → IsSorted itself ks → (has_adjacent_twins ks ≡ false) ↔ Distinct ks
unfolding has_adjacent_twins
twins-Distinct [] _ = (λ _. tt, λ _. refl)
twins-Distinct (k ∷ []) _ = (λ _. (refl, tt), λ _. refl)
twins-Distinct (k ∷ l ∷ ks) ((a, as_), s) = ground (
  arith,
  twins-Distinct (l ∷ ks) s,
  Above-contains k l ks a,
  bytes_eq_iff k l,
  bytes_eq_iff l k,
  s,
)

-- Looking at neighbours of the sorted keys finds exactly the keys that stand twice.
pub no_twins_iff :
    (ks : List Bytes) → (has_adjacent_twins (sort_by itself ks) ≡ false) ↔ Distinct ks
no_twins_iff ks =
    let sorted = twins-Distinct (sort_by itself ks) (sort_by-IsSorted itself ks) in
    let same = Distinct-sort_by ks in (λ h. same.0 (sorted.0 h), λ h. sorted.1 (same.1 h))
