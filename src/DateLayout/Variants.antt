-- ===== src/DateLayout/Variants.antt =====
-- How many variants of a value are tried, and what they have of it.
use jacklet.Prelude.{
  ℕ, zero, suc, ◌-◌, ◌≤◌, ◌<◌, ◌≡◌, refl, sym, ◌∙◌, inl, inr, Bool, true, false, List, [], ◌∷◌,
  ◌++◌, arith, if◌then◌else◌, ltb→lt, Bool-cases, ◌==◌, ℕ-Eq, beq_ne, ne_beq, length, take, drop,
  All, length-append, All-append, contains, Bytes, Bytes-Eq, contains-append,
}
use jacklet.DateLayout.{
  DotNetLayout, max_widened_values, is_lone_designator, is_short_offset, is_lone_digit,
  complete_designator, pad_digit, pad_offset_digit, add_value, try_at, widen_positions, widen_value,
  widen_all, widen_at, passes,
}
use jacklet.DateLayout.Declared.{widened_values}

-- What holds of every list that the loop builds, when adding a value that is good keeps it so.
abbrev pub Distinct : List Bytes → Type 0
Distinct [] = Unit
Distinct (v ∷ vs) = (contains vs v ≡ false) × Distinct vs

-- One text is what is left of another when some of its characters are left out.
pub data Kept : Bytes → Bytes → Type 0 where
  end : Kept [] []
  same : (b : ℕ) {s t : Bytes} → Kept s t → Kept (b ∷ s) (b ∷ t)
  added : (b : ℕ) {s t : Bytes} → Kept s t → Kept s (b ∷ t)

Distinct-last :
    (vs : List Bytes) (v : Bytes) → Distinct vs → contains vs v ≡ false → Distinct (vs ++ v ∷ [])
Distinct-last [] v d h = (refl, tt)
Distinct-last (w ∷ vs) v (dw, d) h =
    let apart : (v == w) ≡ false = ne_beq v w (λ e. beq_ne w v (ground (arith, h)) (sym e)) in
    (contains-append vs (v ∷ []) w ∙ rw (dw, apart) refl, Distinct-last vs v d (ground (arith, h)))

-- What holds of the list of variants at every turn of the loop.
abbrev Good : (Bytes → Type 0) → List Bytes → Type 0
Good P vs = (length vs ≤ max_widened_values) × (Distinct vs × All P vs)

-- With what the loop knows when it goes on.
abbrev Roomy : (Bytes → Type 0) → List Bytes × Bool → Type 0
Roomy P step = Good P step.0 × ((step.1 ≡ true) → length step.0 < max_widened_values)

add_value-Roomy :
    (P : Bytes → Type 0) (vs : List Bytes) (v : Bytes)
    → Good P vs
    → length vs < max_widened_values
    → P v
    → Roomy P (add_value vs v)
unfolding add_value
add_value-Roomy P vs v (len, (d, all)) room p = elim (Bool-cases (contains vs v)) [
  | inl e ↦ rw e ((len, (d, all)), λ h. room)
  | inr e ↦
      let longer : length (vs ++ v ∷ []) ≤ max_widened_values =
        omega (arith, length-append vs (v ∷ [])) in
      rw e (
        (longer, (Distinct-last vs v d e, All-append P vs (v ∷ []) all (p, tt))),
        λ h. ltb→lt _ _ h,
      )
]

-- The loop goes on after a step only if there is room.
go_on :
    (P : Bytes → Type 0) (step rest : List Bytes × Bool)
    → Roomy P step
    → ((step.1 ≡ true) → Roomy P rest)
    → Roomy P (if step.1 then rest else step)
go_on P (vs, true) rest now later = later refl
go_on P (vs, false) rest now later = now

module _ (P : Bytes → Type 0) (matches : Bytes → ℕ → Bool) (rewrite : Bytes → ℕ → Bytes)
    (keeps : (v : Bytes) (i : ℕ) → P v → P (rewrite v i)) where
  try_at-Roomy :
      (vs : List Bytes) (v : Bytes) (i : ℕ)
      → Good P vs
      → length vs < max_widened_values
      → P v
      → Roomy P (try_at matches rewrite vs v i)
  unfolding try_at
  try_at-Roomy vs v i good room p = elim (Bool-cases (matches v i)) [
    | inl e ↦ rw e (add_value-Roomy P vs (rewrite v i) good room (keeps v i p))
    | inr e ↦ rw e (good, λ h. room)
  ]

  widen_positions-Roomy :
      (n : ℕ) (vs : List Bytes) (v : Bytes)
      → Good P vs
      → length vs < max_widened_values
      → P v
      → Roomy P (widen_positions matches rewrite n vs v)
  unfolding widen_positions
  widen_positions-Roomy zero vs v good room p = (good, λ h. room)
  widen_positions-Roomy (suc n) vs v good room p =
      let step = try_at matches rewrite vs v (length v - suc n) in
      let (stepped, on) = try_at-Roomy vs v (length v - suc n) good room p in
      go_on P step (widen_positions matches rewrite n step.0 v) (stepped, on)
        (λ e. widen_positions-Roomy n step.0 v stepped (on e) p)

  widen_value-Roomy :
      (keep : Bool) (vs : List Bytes) (v : Bytes)
      → Good P vs
      → length vs < max_widened_values
      → P v
      → Roomy P (widen_value matches rewrite keep vs v)
  unfolding widen_value
  widen_value-Roomy false vs v good room p = widen_positions-Roomy (length v) vs v good room p
  widen_value-Roomy true vs v good room p =
      let (kept, on) = add_value-Roomy P vs v good room p in
      go_on P (add_value vs v) (widen_positions matches rewrite (length v) (add_value vs v).0 v)
        (kept, on) (λ e. widen_positions-Roomy (length v) (add_value vs v).0 v kept (on e) p)

  widen_all-Good :
      (keep : Bool) (vs values : List Bytes)
      → Good P vs
      → length vs < max_widened_values
      → All P values
      → Good P (widen_all matches rewrite keep vs values)
  unfolding widen_all
  widen_all-Good keep vs [] good room ps = good
  widen_all-Good keep vs (v ∷ values) good room (p, ps) =
      let step = widen_value matches rewrite keep vs v in
      let (stepped, on) = widen_value-Roomy keep vs v good room p in
      elim (Bool-cases step.1) [
        | inl e ↦ rw e (widen_all-Good keep step.0 values stepped (on e) ps)
        | inr e ↦ rw e stepped
      ]

  passes-Good :
      (n : ℕ) (keep : Bool) (values : List Bytes)
      → Good P values
      → Good P (passes matches rewrite n keep values)
  unfolding passes widen_at
  passes-Good zero keep values good = good
  passes-Good (suc n) keep values (len, (d, all)) =
      passes-Good n keep (widen_all matches rewrite keep [] values)
        (widen_all-Good keep [] values (omega arith, (tt, tt)) (omega arith) all)

Kept-refl : (s : Bytes) → Kept s s
Kept-refl [] = end
Kept-refl (b ∷ s) = same b (Kept-refl s)

Kept-insert : (s : Bytes) (i : ℕ) (b : ℕ) (v : Bytes) → Kept s v → Kept s (take i v ++ b ∷ drop i v)
Kept-insert s zero b v k = added b k
Kept-insert s (suc i) b [] k = added b k
Kept-insert (d ∷ s) (suc i) b (c ∷ v) (same _ k) = same c (Kept-insert s i b v k)
Kept-insert s (suc i) b (c ∷ v) (added _ k) = added c (Kept-insert s i b v k)

-- At most 32 variants of a value are tried, no two of them alike, and each has the value's characters
-- in their order, with others added between them.
pub widened_values_bounded :
    (l : DotNetLayout) (value : Bytes)
    → (length (widened_values l value) ≤ max_widened_values)
      × (Distinct (widened_values l value) × All (Kept value) (widened_values l value))
unfolding widened_values pad_digit pad_offset_digit complete_designator
widened_values_bounded l value =
    passes-Good (Kept value) is_lone_digit pad_digit padded l.short_years true _ (
      passes-Good (Kept value) is_short_offset pad_offset_digit offset l.short_offsets true _ (
        passes-Good (Kept value) is_lone_designator complete_designator completed l.designators
          false (value ∷ []) (omega arith, ((refl, tt), (Kept-refl value, tt)))))
  where
    padded : (v : Bytes) (i : ℕ) → Kept value v → Kept value (pad_digit v i)
    padded v i k = Kept-insert value i b'0' v k

    offset : (v : Bytes) (i : ℕ) → Kept value v → Kept value (pad_offset_digit v i)
    offset v i k = padded v (suc i) k

    completed : (v : Bytes) (i : ℕ) → Kept value v → Kept value (complete_designator v i)
    completed v i k = Kept-insert value (suc i) _ v k
