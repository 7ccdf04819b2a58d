-- ===== src/Session/Lifetime.antt =====
-- How long a session token is accepted, whatever the other sessions do in between.
use jacklet.Prelude.{
  ℕ, ◌+◌, ◌≤◌, ◌<◌, ◌≡◌, refl, subst, inl, inr, Bool, true, false, none, some, List, [], ◌∷◌, arith,
  Bool-cases, Option-cases, ◌==◌, ℕ-Eq, beq_eq, All, All-map, Bytes, Bytes-Eq,
}
use jacklet.Prelude.Map.{insert, delete, insert_self, delete_self, delete_if}
use jacklet.Session.{
  session_lifetime, session_idle_timeout, Session, SessionStore, is_over, prune, new_session,
  create, seen, judge, lookup, destroy, Event, created, looked_up, destroyed, apply, run,
}

abbrev pub issues : Bytes → Event → Bool
issues token (created t csrf) = t == token
issues token (looked_up t) = false
issues token (destroyed t) = false

abbrev pub looks_up : Bytes → Event → Bool
looks_up token (created t csrf) = false
looks_up token (looked_up t) = t == token
looks_up token (destroyed t) = false

abbrev pub destroys : Bytes → Event → Bool
destroys token (created t csrf) = false
destroys token (looked_up t) = false
destroys token (destroyed t) = t == token

-- The session under a token, if there is one, has a property.
abbrev pub Holds : (Session → Type 0) → SessionStore → Bytes → Type 0
Holds P s token = (sess : Session) → s.sessions token ≡ some sess → P sess

-- A property of the session under a token outlives pruning.
prune-Holds :
    (P : Session → Type 0) (s : SessionStore) (now : ℕ) (token : Bytes)
    → Holds P s token
    → Holds P (prune s now) token
unfolding prune delete_if
prune-Holds P s now token h sess = elim (Option-cases (s.sessions token)) [
  | inl e ↦ rw (e, prune, delete_if) (λ k. absurd (ground arith))
  | inr (v, e) ↦ rw (e, prune, delete_if) (λ k. h sess (ground (arith, e, k)))
]

created-Holds :
    (P : Session → Type 0) (s : SessionStore) (now : ℕ) (token t csrf : Bytes)
    → (t == token) ≡ false
    → Holds P s token
    → Holds P (apply s now (created t csrf)) token
unfolding apply create insert prune
created-Holds P s now token t csrf ne h sess k =
    prune-Holds P s now token h sess (ground (arith, ne, k))

judge-Holds :
    (P : Session → Type 0) (s : SessionStore) (now : ℕ) (token t : Bytes) (v : Session)
    → s.sessions t ≡ some v
    → ((t == token) ≡ true → (sess : Session) → P sess → P (seen now sess))
    → Holds P s token
    → Holds P (judge s now t v).0 token
unfolding judge insert delete
judge-Holds P s now token t v e f h sess = elim (Bool-cases (t == token)) [
  | inl same ↦ elim (Bool-cases (is_over now v)) [
    | inl o ↦ λ k. absurd (ground (arith, k, same, o))
    | inr o ↦ λ k.
        subst P (ground (arith, k, same, o))
          (f same v (h v (subst (λ j. s.sessions j ≡ some v) (beq_eq t token same) e)))
  ]
  | inr other ↦ λ k. h sess (ground (arith, k, other))
]

looked_up-Holds :
    (P : Session → Type 0) (s : SessionStore) (now : ℕ) (token t : Bytes)
    → ((t == token) ≡ true → (sess : Session) → P sess → P (seen now sess))
    → Holds P s token
    → Holds P (apply s now (looked_up t)) token
unfolding apply lookup
looked_up-Holds P s now token [] f h = h
looked_up-Holds P s now token (b ∷ t) f h = elim (Option-cases (s.sessions (b ∷ t))) [
  | inl e ↦ rw (e, apply, lookup) h
  | inr (v, e) ↦ rw (e, apply, lookup) (judge-Holds P s now token (b ∷ t) v e f h)
]

destroyed-Holds :
    (P : Session → Type 0) (s : SessionStore) (now : ℕ) (token t : Bytes)
    → Holds P s token
    → Holds P (apply s now (destroyed t)) token
unfolding apply destroy delete
destroyed-Holds P s now token t h sess k = h sess (ground (arith, k))

apply-Holds :
    (P : Session → Type 0) (s : SessionStore) (now : ℕ) (token : Bytes) (e : Event)
    → issues token e ≡ false
    → (looks_up token e ≡ true → (sess : Session) → P sess → P (seen now sess))
    → Holds P s token
    → Holds P (apply s now e) token
apply-Holds P s now token (created t csrf) ne f h = created-Holds P s now token t csrf ne h
apply-Holds P s now token (looked_up t) ne f h = looked_up-Holds P s now token t f h
apply-Holds P s now token (destroyed t) ne f h = destroyed-Holds P s now token t h

run-Holds :
    (P : Session → Type 0) (s : SessionStore) (es : List (ℕ × Event)) (token : Bytes)
    → All
        (λ e.
          (issues token e.1 ≡ false)
          × (looks_up token e.1 ≡ true → (sess : Session) → P sess → P (seen e.0 sess)))
        es
    → Holds P s token
    → Holds P (run s es) token
unfolding run
run-Holds P s [] token _ h = h
run-Holds P s ((now, e) ∷ es) token ((ne, f), rest) h =
    run-Holds P (apply s now e) es token rest (apply-Holds P s now token e ne f h)

-- A session that is over is not handed out.
lookup-none :
    (s : SessionStore) (now : ℕ) (token : Bytes)
    → Holds (λ v. is_over now v ≡ true) s token
    → (lookup s now token).1 ≡ none
unfolding lookup judge
lookup-none s now [] h = refl
lookup-none s now (b ∷ token) h = elim (Option-cases (s.sessions (b ∷ token))) [
  | inl e ↦ rw (e, lookup) refl
  | inr (v, e) ↦ rw (e, lookup) (ground (arith, h v e))
]

created_session :
    (s : SessionStore) (now : ℕ) (token csrf : Bytes)
    → (create s now (some token) (some csrf)).0.sessions token ≡ some (new_session csrf now)
unfolding create
created_session s now token csrf = insert_self token _ _

-- A token is refused once it is older than twelve hours, however it was used in between and
-- whatever else was done, as long as it was not issued again.
pub expired_stays_out :
    (s : SessionStore) (t now : ℕ) (token csrf : Bytes) (es : List (ℕ × Event))
    → All (λ e. issues token e.1 ≡ false) es
    → t + session_lifetime < now
    → (lookup (run (create s t (some token) (some csrf)).0 es) now token).1 ≡ none
expired_stays_out s t now token csrf es h late = lookup-none _ now token (λ v k. ground (
  arith,
  run-Holds (λ sess. sess.expires_at ≤ t + session_lifetime) (create s t (some token) (some csrf)).0
      es token (All-map _ _ es (λ e ne. (ne, λ _ sess b. b)) h)
      (λ sess c. ground (arith, c, created_session s t token csrf)) v k,
))

-- A token that was signed out is refused, whatever is done afterwards, unless it is issued again.
pub destroyed_stays_out :
    (s : SessionStore) (now : ℕ) (token : Bytes) (es : List (ℕ × Event))
    → All (λ e. issues token e.1 ≡ false) es
    → (lookup (run (destroy s token) es) now token).1 ≡ none
unfolding destroy
destroyed_stays_out s now token es h = lookup-none _ now token (λ v k. absurd (
    run-Holds (λ sess. ⊥) (destroy s token) es token
      (All-map _ _ es (λ e ne. (ne, λ _ sess b. b)) h)
      (λ sess c. ground (arith, c, delete_self token s.sessions)) v k))

lookup-empty : (s : SessionStore) (now : ℕ) → (lookup s now []).1 ≡ none
unfolding lookup
lookup-empty s now = refl

lookup_seen :
    (s : SessionStore) (t b : ℕ) (token : Bytes)
    → Holds (λ sess. sess.last_seen ≤ t) (lookup s t (b ∷ token)).0 (b ∷ token)
unfolding judge lookup
lookup_seen s t b token = elim (Option-cases (s.sessions (b ∷ token))) [
  | inl e ↦ rw (e, lookup) (λ sess k. absurd (ground (arith, e, k)))
  | inr (v, e) ↦ elim (Bool-cases (is_over t v)) [
    | inl o ↦ rw (e, lookup) (λ sess k. ground (arith, k, o, delete_self (b ∷ token) s.sessions))
    | inr o ↦
        rw (e, lookup)
          (λ sess k. ground (arith, k, o, insert_self (b ∷ token) (seen t v) s.sessions))
  ]
]

-- A token that was looked up at one time, and neither issued again nor looked up since, is refused
-- more than an hour later.
pub idle_stays_out :
    (s : SessionStore) (t now : ℕ) (token : Bytes) (es : List (ℕ × Event))
    → All (λ e. (issues token e.1 ≡ false) × (looks_up token e.1 ≡ false)) es
    → t + session_idle_timeout < now
    → (lookup (run (lookup s t token).0 es) now token).1 ≡ none
idle_stays_out s t now [] es h late = lookup-empty _ now
idle_stays_out s t now (b ∷ token) es h late =
    lookup-none (run (lookup s t (b ∷ token)).0 es) now (b ∷ token) (λ v k. ground (
      arith,
      run-Holds (λ sess. sess.last_seen ≤ t) (lookup s t (b ∷ token)).0 es (b ∷ token)
          (All-map _ _ es (λ e ne. (ne.0, λ yes sess. absurd (ground (arith, yes, ne.1)))) h)
          (lookup_seen s t b token) v k,
    ))
