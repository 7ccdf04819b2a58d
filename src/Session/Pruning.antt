-- ===== src/Session/Pruning.antt =====
-- Pruning is invisible: it only forgets sessions that no lookup would accept.
use jacklet.Prelude.{
  ℕ, ◌≤◌, ◌≡◌, refl, sym, ap, ◌∙◌, subst, ◌⊎◌, inl, inr, true, Option, none, some, List, [], ◌∷◌,
  arith, if◌then◌else◌, Bool-cases, Option-cases, ◌==◌, ℕ-Eq, beq_eq, Bytes, Bytes-Eq,
}
use jacklet.Prelude.Map.{insert, delete, delete_if}
use jacklet.Session.{
  Session, SessionStore, is_over, prune, new_session, create, seen, judge, lookup, destroy, Event,
  created, looked_up, destroyed, apply, run,
}

-- Two stores answer alike from a time on: under every token they hold the same session, or each
-- holds none or one that is over.
abbrev pub Over : ℕ → Option Session → Type 0
Over now none = Unit
Over now (some v) = is_over now v ≡ true

abbrev pub Alike : ℕ → SessionStore → SessionStore → Type 0
Alike now s r =
    (token : Bytes)
    → (s.sessions token ≡ r.sessions token)
      ⊎ (Over now (s.sessions token) × Over now (r.sessions token))

Over-later : (t u : ℕ) (m : Option Session) → t ≤ u → Over t m → Over u m
Over-later t u none le _ = tt
Over-later t u (some v) le h = ground arith

Alike-later : (t u : ℕ) (s r : SessionStore) → t ≤ u → Alike t s r → Alike u s r
Alike-later t u s r le h token = elim (h token) [
  | inl e ↦ inl e
  | inr (a, b) ↦ inr (Over-later t u _ le a, Over-later t u _ le b)
]

-- Pruning leaves what no lookup at that time, or later, can tell apart.
prune-Alike : (s : SessionStore) (now : ℕ) → Alike now s (prune s now)
unfolding prune delete_if
prune-Alike s now token = elim (Option-cases (s.sessions token)) [
  | inl e ↦ rw (e, prune, delete_if) (inl refl)
  | inr (v, e) ↦ elim (Bool-cases (is_over now v)) [
    | inl o ↦ inr (rw e o, rw (e, prune, delete_if) (rw o tt))
    | inr o ↦ inl (ground (arith, e, o))
  ]
]

Alike-sym : (t : ℕ) (s r : SessionStore) → Alike t s r → Alike t r s
Alike-sym t s r h token = elim (h token) [ inl e ↦ inl (sym e) | inr (a, b) ↦ inr (b, a) ]

Alike-trans : (t : ℕ) (s r q : SessionStore) → Alike t s r → Alike t r q → Alike t s q
Alike-trans t s r q h k token = elim (h token) [
  | inl e ↦
      subst (λ m. (m ≡ q.sessions token) ⊎ (Over t m × Over t (q.sessions token))) (sym e) (k token)
  | inr (a, b) ↦ elim (k token) [ inl e ↦ inr (a, subst (Over t) e b) | inr (c, d) ↦ inr (a, d) ]
]

-- What a lookup answers, and leaves under its token.
abbrev answer : ℕ → Option Session → Option Session
answer now none = none
answer now (some v) = if is_over now v then none else some (seen now v)

answer-Over : (now : ℕ) (m : Option Session) → Over now m → answer now m ≡ none
answer-Over now none h = refl
answer-Over now (some v) h = rw h refl

lookup-answer :
    (s : SessionStore) (now b : ℕ) (token : Bytes)
    → (lookup s now (b ∷ token)).1 ≡ answer now (s.sessions (b ∷ token))
unfolding lookup judge
lookup-answer s now b token = elim (Option-cases (s.sessions (b ∷ token))) [
  | inl e ↦ rw (e, lookup) refl
  | inr (v, e) ↦ rw (e, lookup) (ground arith)
]

lookup_slot :
    (s : SessionStore) (now b : ℕ) (token j : Bytes)
    → (lookup s now (b ∷ token)).0.sessions j
      ≡ (if (b ∷ token) == j then answer now (s.sessions (b ∷ token)) else s.sessions j)
unfolding lookup judge insert delete
lookup_slot s now b token j = elim (Option-cases (s.sessions (b ∷ token))) [
  | inl e ↦ elim (Bool-cases ((b ∷ token) == j)) [
    | inl same ↦ rw (e, lookup) (rw same (ap s.sessions (sym (beq_eq (b ∷ token) j same)) ∙ e))
    | inr other ↦ rw (e, lookup) (rw other refl)
  ]
  | inr (v, e) ↦ rw (e, lookup) (ground arith)
]

same_answer :
    (s r : SessionStore) (now : ℕ) (token : Bytes)
    → Alike now s r
    → answer now (s.sessions token) ≡ answer now (r.sessions token)
same_answer s r now token h = elim (h token) [
  | inl e ↦ ap (answer now) e
  | inr (a, c) ↦ answer-Over now _ a ∙ sym (answer-Over now _ c)
]

-- Alike stores give the same answer to a lookup.
lookup-Alike :
    (s r : SessionStore) (now : ℕ) (token : Bytes)
    → Alike now s r
    → (lookup s now token).1 ≡ (lookup r now token).1
unfolding lookup
lookup-Alike s r now [] h = refl
lookup-Alike s r now (b ∷ token) h =
    lookup-answer s now b token
    ∙ same_answer s r now (b ∷ token) h
    ∙ sym (lookup-answer r now b token)

-- Writing the same under one token keeps two stores alike.
Alike-slot :
    (s r s' r' : SessionStore) (now : ℕ) (token : Bytes) (m : Option Session)
    → ((j : Bytes) → s'.sessions j ≡ (if token == j then m else s.sessions j))
    → ((j : Bytes) → r'.sessions j ≡ (if token == j then m else r.sessions j))
    → Alike now s r
    → Alike now s' r'
Alike-slot s r s' r' now token m f g h j =
    rw (f j, g j)
      (elim (Bool-cases (token == j)) [
        | inl same ↦ inl (rw same refl)
        | inr other ↦ rw other (h j)
      ])

apply-Alike :
    (s r : SessionStore) (now : ℕ) (e : Event)
    → Alike now s r
    → Alike now (apply s now e) (apply r now e)
unfolding apply create insert destroy delete lookup
apply-Alike s r now (created token csrf) h =
    Alike-slot (prune s now) (prune r now) _ _ now token (some (new_session csrf now)) (λ j. refl)
      (λ j. refl)
      (Alike-trans now (prune s now) s (prune r now)
        (Alike-sym now s (prune s now) (prune-Alike s now))
        (Alike-trans now s r (prune r now) h (prune-Alike r now)))
apply-Alike s r now (looked_up []) h = h
apply-Alike s r now (looked_up (b ∷ token)) h =
    Alike-slot s r _ _ now (b ∷ token) (answer now (r.sessions (b ∷ token)))
      (λ j.
        lookup_slot s now b token j
        ∙ ap (λ m. if (b ∷ token) == j then m else s.sessions j)
            (same_answer s r now (b ∷ token) h))
      (lookup_slot r now b token) h
apply-Alike s r now (destroyed token) h =
    Alike-slot s r _ _ now token none (λ j. refl) (λ j. refl) h

-- The operations are made one after another, from a time on.
abbrev pub InOrder : ℕ → List (ℕ × Event) → ℕ → Type 0
InOrder t [] now = t ≤ now
InOrder t ((u, e) ∷ es) now = (t ≤ u) × InOrder u es now

run-Alike :
    (s r : SessionStore) (t now : ℕ) (es : List (ℕ × Event))
    → InOrder t es now
    → Alike t s r
    → Alike now (run s es) (run r es)
unfolding run
run-Alike s r t now [] le h = Alike-later t now s r le h
run-Alike s r t now ((u, e) ∷ es) (le, rest) h =
    run-Alike (apply s u e) (apply r u e) u now es rest
      (apply-Alike s r u e (Alike-later t u s r le h))

-- Pruning the store at one time changes no later answer: after any operations in the order of
-- their times, a lookup gives the same with and without it.
pub prune_invisible :
    (s : SessionStore) (t now : ℕ) (es : List (ℕ × Event)) (token : Bytes)
    → InOrder t es now
    → (lookup (run (prune s t) es) now token).1 ≡ (lookup (run s es) now token).1
prune_invisible s t now es token le =
    lookup-Alike (run (prune s t) es) (run s es) now token
      (run-Alike (prune s t) s t now es le (Alike-sym t s (prune s t) (prune-Alike s t)))
