-- ===== src/Indexer/Offers.antt =====
-- The search modes of an indexer against those of its trackers.
use jacklet.Prelude.{
  ◌≡◌, subst, ◌↔◌, ◌⊎◌, inl, inr, true, List, [], ◌∷◌, ◌++◌, arith, if◌then◌else◌, Bool-cases, ◌==◌,
  ℕ-Eq, beq_eq, Any, contains, contains-append, Bytes, bytes_eq_iff, Bytes-Eq,
}
use jacklet.Prelude.Sorting.{contains-sort_by}
use jacklet.Tracker.{Modes, Tracker, search_modes}
use jacklet.Indexer.{
  Indexer, put_param, put_params, put_modes, merge_modes, sorted_params, modes_of, indexer_modes,
}

-- Some mode of that name takes the parameter.
abbrev pub Offers : Bytes → Bytes → Modes → Type 0
Offers mode param modes = Any (λ m. (m.0 ≡ mode) × (contains m.1 param ≡ true)) modes

contains-last :
    (params : List Bytes) (p q : Bytes)
    → (contains (params ++ p ∷ []) q ≡ true) ↔ ((contains params q ≡ true) ⊎ (p ≡ q))
contains-last params p q = rw (contains-append params (p ∷ []) q) (ground (arith, bytes_eq_iff p q))

with_param :
    (params : List Bytes) (p q : Bytes)
    → (contains (if contains params p then params else params ++ p ∷ []) q ≡ true)
      ↔ ((contains params q ≡ true) ⊎ (p ≡ q))
with_param params p q = elim (Bool-cases (contains params p)) [
  | inl e ↦ rw e (
    (λ h. inl h),
    (λ h. elim h [ inl there ↦ there | inr same ↦ subst (λ x. contains params x ≡ true) same e ]),
  )
  | inr e ↦ rw e (contains-last params p q)
]

-- One entry of a mode is replaced by one with a parameter more.
one_entry : {A B C D E : Type 0} → B ↔ (C ⊎ D) → ((A × B) ⊎ E) ↔ (((A × C) ⊎ E) ⊎ (A × D))
one_entry (f, g) = (
  (λ h. elim h [
    | inl (a, b) ↦ elim (f b) [ inl c ↦ inl (inl (a, c)) | inr d ↦ inr (a, d) ]
    | inr e ↦ inl (inr e)
  ]),
  (λ h. elim h [
    | inl (inl (a, c)) ↦ inl (a, g (inl c))
    | inl (inr e) ↦ inr e
    | inr (a, d) ↦ inl (a, g (inr d))
  ]),
)

later_entry : {A B C D : Type 0} → B ↔ (C ⊎ D) → (A ⊎ B) ↔ ((A ⊎ C) ⊎ D)
later_entry (f, g) = (
  (λ h. elim h [
    | inl a ↦ inl (inl a)
    | inr b ↦ elim (f b) [ inl c ↦ inl (inr c) | inr d ↦ inr d ]
  ]),
  (λ h. elim h [ inl (inl a) ↦ inl a | inl (inr c) ↦ inr (g (inl c)) | inr d ↦ inr (g (inr d)) ]),
)

put_param-Offers :
    (mode param m p : Bytes) (merged : Modes)
    → Offers mode param (put_param m p merged)
      ↔ (Offers mode param merged ⊎ ((m ≡ mode) × (p ≡ param)))
unfolding put_param
put_param-Offers mode param m p [] = ground (arith, bytes_eq_iff p param)
put_param-Offers mode param m p ((n, params) ∷ merged) = elim (Bool-cases (n == m)) [
  | inl e ↦
      subst
        (λ x.
          Offers mode param (
            if n == m
            then (n, if contains params p then params else params ++ p ∷ []) ∷ merged
            else (n, params) ∷ put_param m p merged)
          ↔ (Offers mode param ((n, params) ∷ merged) ⊎ ((x ≡ mode) × (p ≡ param))))
        (beq_eq n m e) (rw e (one_entry (with_param params p param)))
  | inr e ↦ rw e (later_entry (put_param-Offers mode param m p merged))
]

-- What a merge adds: the modes of the lists that it goes through.
chain : {A B C D E : Type 0} → A ↔ (B ⊎ C) → B ↔ (D ⊎ E) → A ↔ (D ⊎ (E ⊎ C))
chain (f, g) (h, k) = (
  (λ a. elim (f a) [
    | inl b ↦ elim (h b) [ inl d ↦ inl d | inr e ↦ inr (inl e) ]
    | inr c ↦ inr (inr c)
  ]),
  (λ x. elim x [
    | inl d ↦ g (inl (k (inl d)))
    | inr (inl e) ↦ g (inl (k (inr e)))
    | inr (inr c) ↦ g (inr c)
  ]),
)

unmoved : {A : Type 0} → A ↔ (A ⊎ ⊥)
unmoved = ((λ a. inl a), (λ h. elim h [ inl a ↦ a | inr none_ ↦ absurd none_ ]))

put_params-Offers :
    (mode param m : Bytes) (params : List Bytes) (merged : Modes)
    → Offers mode param (put_params m params merged)
      ↔ (Offers mode param merged ⊎ Any (λ p. (m ≡ mode) × (p ≡ param)) params)
unfolding put_params
put_params-Offers mode param m [] merged = unmoved
put_params-Offers mode param m (p ∷ params) merged =
    chain (put_params-Offers mode param m params (put_param m p merged))
      (put_param-Offers mode param m p merged)

Any-contains :
    (mode param m : Bytes) (params : List Bytes)
    → Any (λ p. (m ≡ mode) × (p ≡ param)) params ↔ ((m ≡ mode) × (contains params param ≡ true))
Any-contains mode param m [] = ground arith
Any-contains mode param m (p ∷ params) =
    ground (arith, Any-contains mode param m params, bytes_eq_iff p param)

exchanged : {A B C D : Type 0} → A ↔ (B ⊎ C) → C ↔ D → A ↔ (B ⊎ D)
exchanged (f, g) (h, k) = (
  (λ a. elim (f a) [ inl b ↦ inl b | inr c ↦ inr (h c) ]),
  (λ x. elim x [ inl b ↦ g (inl b) | inr d ↦ g (inr (k d)) ]),
)

put_modes-Offers :
    (mode param : Bytes) (modes merged : Modes)
    → Offers mode param (put_modes modes merged)
      ↔ (Offers mode param merged ⊎ Offers mode param modes)
unfolding put_modes
put_modes-Offers mode param [] merged = unmoved
put_modes-Offers mode param ((m, params) ∷ modes) merged =
    chain (put_modes-Offers mode param modes (put_params m params merged))
      (exchanged (put_params-Offers mode param m params merged) (Any-contains mode param m params))

merge_modes-Offers :
    (mode param : Bytes) (defs : List Tracker) (merged : Modes)
    → Offers mode param (merge_modes defs merged)
      ↔ (Offers mode param merged ⊎ Any (λ def. Offers mode param (search_modes def)) defs)
unfolding merge_modes
merge_modes-Offers mode param [] merged = unmoved
merge_modes-Offers mode param (def ∷ defs) merged =
    chain (merge_modes-Offers mode param defs (put_modes (search_modes def) merged))
      (put_modes-Offers mode param (search_modes def) merged)

sorted_params-Offers :
    (mode param : Bytes) (merged : Modes)
    → Offers mode param (sorted_params merged) ↔ Offers mode param merged
unfolding sorted_params
sorted_params-Offers mode param [] = ((λ h. h), (λ h. h))
sorted_params-Offers mode param ((m, params) ∷ merged) =
    rw (contains-sort_by param params) (ground (arith, sorted_params-Offers mode param merged))

merged-Offers :
    (mode param : Bytes) (defs : List Tracker)
    → Offers mode param (sorted_params (merge_modes defs []))
      ↔ Any (λ def. Offers mode param (search_modes def)) defs
merged-Offers mode param defs =
    from_nothing (sorted_params-Offers mode param (merge_modes defs []))
      (merge_modes-Offers mode param defs [])
  where
    from_nothing : {A B C : Type 0} → A ↔ B → B ↔ (⊥ ⊎ C) → A ↔ C
    from_nothing (f, g) (h, k) =
        ((λ a. elim (h (f a)) [ inl none_ ↦ absurd none_ | inr c ↦ c ]), (λ c. g (k (inr c))))

modes_of-Offers :
    (mode param : Bytes) (defs : List Tracker)
    → Offers mode param (modes_of defs) ↔ Any (λ def. Offers mode param (search_modes def)) defs
unfolding modes_of
modes_of-Offers mode param [] = merged-Offers mode param []
modes_of-Offers mode param (def ∷ []) = unmoved
modes_of-Offers mode param (def ∷ e ∷ defs) = merged-Offers mode param (def ∷ e ∷ defs)

-- An indexer advertises a mode with a parameter exactly when one of its trackers has that mode with
-- that parameter, by its definition or by default.
pub modes_iff :
    (idx : Indexer) (mode param : Bytes)
    → Offers mode param (indexer_modes idx)
      ↔ Any (λ def. Offers mode param (search_modes def)) idx.defs
unfolding indexer_modes
modes_iff idx mode param = modes_of-Offers mode param idx.defs
