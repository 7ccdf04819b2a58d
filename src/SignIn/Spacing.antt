-- ===== src/SignIn/Spacing.antt =====
-- Attempts from one client are spaced.
use jacklet.Prelude.{
  ℕ, ◌+◌, ◌≤◌, ◌≡◌, sym, subst, inl, inr, Bool, true, false, Option, none, some, List, [], ◌∷◌,
  arith, ltb, Bool-cases, Option-cases, ◌==◌, ℕ-Eq, beq_ne, All, Bytes, Bytes-Eq,
}
use jacklet.Prelude.Map.{Map, insert, insert_self, delete_ne, delete_if}
use jacklet.SignIn.{
  login_delay, LoginLimiter, is_waiting, has_ended, sweep, reserve, release, Event, attempted,
  signed_in, apply, run,
}

abbrev pub signs_in : Bytes → Event → Bool
signs_in key (attempted k) = false
signs_in key (signed_in k) = k == key

-- The client's slot is taken until `until`, or that time has come.
abbrev Taken : ℕ → ℕ → Option ℕ → Type 0
Taken until now none = until ≤ now
Taken until now (some u) = until ≤ u

Taken-later :
    (until now later : ℕ) (m : Option ℕ) → now ≤ later → Taken until now m → Taken until later m
Taken-later until now later none le h = omega arith
Taken-later until now later (some u) le h = h

sweep-Taken :
    (l : LoginLimiter) (until now : ℕ) (key : Bytes)
    → Taken until now (l.not_before key)
    → Taken until now ((sweep l now).not_before key)
unfolding sweep delete_if
sweep-Taken l until now key h = elim (Bool-cases (ltb now l.next_prune)) [
  | inl e ↦ rw (sweep, e) h
  | inr e ↦
      rw (sweep, e)
        (elim (Option-cases (l.not_before key)) [
          | inl m ↦
              let gone : delete_if (has_ended now) l.not_before key ≡ none = ground (arith, m) in
              subst (Taken until now) (sym gone) (subst (Taken until now) m h)
          | inr (u, m) ↦
              let later : until ≤ u = subst (Taken until now) m h in
              elim (Bool-cases (ltb now u)) [
                | inl w ↦
                    let kept : delete_if (has_ended now) l.not_before key ≡ some u =
                      ground (arith, m, w) in
                    subst (Taken until now) (sym kept) later
                | inr w ↦
                    let gone : delete_if (has_ended now) l.not_before key ≡ none =
                      ground (arith, m, w) in
                    subst (Taken until now) (sym gone) (ground (arith, w, later))
              ]
        ])
]

insert-Taken :
    (until now : ℕ) (k key : Bytes) (m : Map Bytes ℕ)
    → until ≤ now + login_delay
    → Taken until now (m key)
    → Taken until now (insert k (now + login_delay) m key)
unfolding insert
insert-Taken until now k key m le h = elim (Bool-cases (k == key)) [
  | inl e ↦ rw (insert, e) le
  | inr e ↦ rw (insert, e) h
]

attempted-Taken :
    (l : LoginLimiter) (until now : ℕ) (k key : Bytes)
    → until ≤ now + login_delay
    → Taken until now (l.not_before key)
    → Taken until now ((reserve l k now).0.not_before key)
unfolding reserve
attempted-Taken l until now k key le h = elim (Bool-cases (is_waiting (l.not_before k) now)) [
  | inl e ↦ rw (reserve, e) h
  | inr e ↦
      rw (reserve, e)
        (insert-Taken until now k key (sweep l now).not_before le (sweep-Taken l until now key h))
]

-- The operations are made one after another, from a time on.
abbrev pub InOrder : ℕ → List (ℕ × Event) → ℕ → Type 0
InOrder t [] now = t ≤ now
InOrder t ((u, e) ∷ es) now = (t ≤ u) × InOrder u es now

run-Taken :
    (l : LoginLimiter) (start t now : ℕ) (key : Bytes) (es : List (ℕ × Event))
    → start ≤ t
    → InOrder t es now
    → All (λ e. signs_in key e.1 ≡ false) es
    → Taken (start + login_delay) t (l.not_before key)
    → Taken (start + login_delay) now ((run l es).not_before key)
unfolding run apply release
run-Taken l start t now key [] early order _ h = Taken-later (start + login_delay) t now _ order h
run-Taken l start t now key ((u, attempted k) ∷ es) early (le, order) (_, rest) h =
    run-Taken (reserve l k u).0 start u now key es (omega arith) order rest (
      attempted-Taken l (start + login_delay) u k key (omega arith)
        (Taken-later (start + login_delay) t u _ le h))
run-Taken l start t now key ((u, signed_in k) ∷ es) early (le, order) (ne, rest) h =
    run-Taken (release l k) start u now key es (omega arith) order rest (
      subst (Taken (start + login_delay) u) (sym (delete_ne k key l.not_before (beq_ne k key ne)))
        (Taken-later (start + login_delay) t u _ le h))

Taken-refuses :
    (l : LoginLimiter) (until now : ℕ) (key : Bytes)
    → Taken until now (l.not_before key)
    → (reserve l key now).1 ≡ true
    → until ≤ now
unfolding reserve
Taken-refuses l until now key h taken = elim (Option-cases (l.not_before key)) [
  | inl m ↦ subst (Taken until now) m h
  | inr (u, m) ↦
      let later : until ≤ u = subst (Taken until now) m h in ground (arith, m, taken, later)
]

reserved :
    (l : LoginLimiter) (t : ℕ) (key : Bytes)
    → (reserve l key t).1 ≡ true
    → Taken (t + login_delay) t ((reserve l key t).0.not_before key)
unfolding reserve
reserved l t key taken = elim (Bool-cases (is_waiting (l.not_before key) t)) [
  | inl e ↦ absurd (ground (arith, taken, e))
  | inr e ↦
      rw (reserve, e)
        (subst (Taken (t + login_delay) t)
          (sym (insert_self key (t + login_delay) (sweep l t).not_before)) (omega arith))
]

-- Two attempts from one client that are both let through, with no sign-in from it in between, are
-- at least half a second apart, whatever other clients do in between and whenever the limiter
-- forgets entries.
pub attempts_spaced :
    (l : LoginLimiter) (t now : ℕ) (key : Bytes) (es : List (ℕ × Event))
    → (reserve l key t).1 ≡ true
    → InOrder t es now
    → All (λ e. signs_in key e.1 ≡ false) es
    → (reserve (run (reserve l key t).0 es) key now).1 ≡ true
    → t + login_delay ≤ now
attempts_spaced l t now key es first order none_ second =
    Taken-refuses (run (reserve l key t).0 es) (t + login_delay) now key
      (run-Taken (reserve l key t).0 t t now key es (omega arith) order none_
        (reserved l t key first))
      second
