-- ===== src/Session/Use.antt =====
-- A session in use is not lost: no other session's operation ends it.
use jacklet.Prelude.{
  ℕ, ◌+◌, ◌≤◌, ◌≡◌, refl, sym, ap, ◌∙◌, subst, inl, inr, false, some, List, [], ◌∷◌, arith,
  Bool-cases, Option-cases, ◌==◌, ℕ-Eq, beq_eq, beq_ne, All, Bytes, Bytes-Eq,
}
use jacklet.Prelude.Map.{Map, insert, delete, insert_ne, delete_ne, delete_if}
use jacklet.Session.{
  session_idle_timeout, Session, SessionStore, is_over, prune, create, seen, judge, lookup, destroy,
  Event, created, looked_up, destroyed, apply, run,
}
use jacklet.Session.Lifetime.{issues, destroys}

-- The token still names that session, last seen no earlier than before.
abbrev pub Alive : Session → SessionStore → Bytes → Type 0
Alive sess s token =
    (v : Session) × (s.sessions token ≡ some v)
    × (v.csrf_token ≡ sess.csrf_token)
    × (v.expires_at ≡ sess.expires_at)
    × (sess.last_seen ≤ v.last_seen)

-- Within the hour since it was last seen, and before it expires.
abbrev pub InTime : Session → ℕ → Type 0
InTime sess now =
    (sess.last_seen ≤ now) × (now ≤ sess.last_seen + session_idle_timeout) × (now ≤ sess.expires_at)

InTime-is_over :
    (sess v : Session) (now : ℕ)
    → InTime sess now
    → v.expires_at ≡ sess.expires_at
    → sess.last_seen ≤ v.last_seen
    → is_over now v ≡ false
InTime-is_over sess v now i e l = ground arith

prune-Alive :
    (sess : Session) (s : SessionStore) (now : ℕ) (token : Bytes)
    → InTime sess now
    → Alive sess s token
    → Alive sess (prune s now) token
unfolding prune delete_if
prune-Alive sess s now token i (v, k, c, e, l) =
    (v, ground (arith, k, InTime-is_over sess v now i e l), c, e, l)

created-Alive :
    (sess : Session) (s : SessionStore) (now : ℕ) (token t csrf : Bytes)
    → InTime sess now
    → (t == token) ≡ false
    → Alive sess s token
    → Alive sess (apply s now (created t csrf)) token
unfolding apply create
created-Alive sess s now token t csrf i ne a =
    let (v, k, c, e, l) = prune-Alive sess s now token i a in
    (v, insert_ne t token _ _ (beq_ne t token ne) ∙ k, c, e, l)

same_session :
    (m : Map Bytes Session) (t token : Bytes) (v w : Session)
    → t ≡ token
    → m token ≡ some v
    → m t ≡ some w
    → v ≡ w
same_session m t token v w e k at = ground (arith, sym k ∙ sym (ap m e) ∙ at)

judge-Alive :
    (sess : Session) (s : SessionStore) (now : ℕ) (token t : Bytes) (w : Session)
    → s.sessions t ≡ some w
    → InTime sess now
    → Alive sess s token
    → Alive sess (judge s now t w).0 token
unfolding judge insert delete
judge-Alive sess s now token t w at i (v, k, c, e, l) = elim (Bool-cases (t == token)) [
  | inl same ↦
      let over = InTime-is_over sess v now i e l in
      subst (λ u. Alive sess (judge s now t u).0 token)
        (same_session (s.sessions) t token v w (beq_eq t token same) k at)
        (seen now v, ground (arith, over, same), c, e, i.0)
  | inr other ↦ (v, ground (arith, k, other), c, e, l)
]

looked_up-Alive :
    (sess : Session) (s : SessionStore) (now : ℕ) (token t : Bytes)
    → InTime sess now
    → Alive sess s token
    → Alive sess (apply s now (looked_up t)) token
unfolding apply lookup
looked_up-Alive sess s now token [] i a = a
looked_up-Alive sess s now token (b ∷ t) i a = elim (Option-cases (s.sessions (b ∷ t))) [
  | inl e ↦ rw (e, apply, lookup) a
  | inr (w, e) ↦ rw (e, apply, lookup) (judge-Alive sess s now token (b ∷ t) w e i a)
]

apply-Alive :
    (sess : Session) (s : SessionStore) (now : ℕ) (token : Bytes) (e : Event)
    → InTime sess now
    → issues token e ≡ false
    → destroys token e ≡ false
    → Alive sess s token
    → Alive sess (apply s now e) token
unfolding apply destroy
apply-Alive sess s now token (created t csrf) i ne nd a =
    created-Alive sess s now token t csrf i ne a
apply-Alive sess s now token (looked_up t) i ne nd a = looked_up-Alive sess s now token t i a
apply-Alive sess s now token (destroyed t) i ne nd (v, k, c, e, l) =
    (v, delete_ne t token s.sessions (beq_ne t token nd) ∙ k, c, e, l)

run-Alive :
    (sess : Session) (s : SessionStore) (es : List (ℕ × Event)) (token : Bytes)
    → All (λ e. InTime sess e.0 × (issues token e.1 ≡ false) × (destroys token e.1 ≡ false)) es
    → Alive sess s token
    → Alive sess (run s es) token
unfolding run
run-Alive sess s [] token _ a = a
run-Alive sess s ((now, e) ∷ es) token ((i, ne, nd), rest) a =
    run-Alive sess (apply s now e) es token rest (apply-Alive sess s now token e i ne nd a)

-- A token that is in the store is accepted again until an hour has passed since it was last seen,
-- or it expires: no sign-in, sign-out or lookup of another session, and no lookup of its own, ends
-- it, and it keeps its CSRF token and the time it expires.
pub used_stays_in :
    (s : SessionStore) (sess : Session) (now b : ℕ) (token : Bytes) (es : List (ℕ × Event))
    → s.sessions (b ∷ token) ≡ some sess
    → All
        (λ e.
          InTime sess e.0 × (issues (b ∷ token) e.1 ≡ false) × (destroys (b ∷ token) e.1 ≡ false))
        es
    → InTime sess now
    → (lookup (run s es) now (b ∷ token)).1
      ≡ some
          (record { csrf_token = sess.csrf_token; expires_at = sess.expires_at; last_seen = now })
unfolding lookup judge
used_stays_in s sess now b token es h all i =
    let (v, k, c, e, l) = run-Alive sess s es (b ∷ token) all (sess, h, refl, refl, ground arith) in
    rw (k, lookup) (ground (arith, InTime-is_over sess v now i e l, c, e))
