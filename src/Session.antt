-- ===== src/Session.antt =====
-- pkg/admin/session.go: the admin panel's signed-in sessions.
--
-- A time is a number of nanoseconds, read once per operation as the code reads `time.Now()`, and a
-- token that the system's random source gives is an argument, `none` if that source fails.
mod Lifetime
mod Use
mod Pruning
mod Tests
use jacklet.Prelude.{
  ℕ, zero, suc, ◌+◌, ◌-◌, ◌*◌, ◌/◌, ◌%◌, ◌^◌, ◌≤◌, ◌<◌, min, max, ◌≡◌, refl, sym, ap, ap₂, ◌∙◌,
  subst, fun_ext, ◌≡⟨◌⟩◌, ◌∎, ◌≢◌, ◌↔◌, ◌⊎◌, inl, inr, Bool, true, false, not, ◌&&◌, ◌||◌, Option,
  none, some, List, [], ◌∷◌, ◌++◌, map, append_assoc, append-nil, arith, ltb, leb, nat_eq,
  if◌then◌else◌, ltb→lt, lt→ltb, leb→le, le→leb, nat_eq_iff, tests, Bool-cases, Option-cases, Eq,
  ◌==◌, ℕ-Eq, beq_refl, beq_eq, beq_ne, ne_beq, length, get_elem?, take, drop, All, Any, select,
  length-append, take_append, drop_append, take-append-drop, length-take, length-drop, All-append,
  All-map, contains, Bytes, codes, bytes_eq, bytes_eq_iff, Bytes-Eq,
}
use jacklet.Prelude.Map.{
  Map, empty, insert, delete, insert_self, insert_ne, delete_self, delete_ne, delete_if,
}

abbrev pub hour : ℕ
hour = 3_600_000_000_000

abbrev pub session_lifetime : ℕ
session_lifetime = 12 * hour

abbrev pub session_idle_timeout : ℕ
session_idle_timeout = hour

pub record Session : Type 0 where
  pub csrf_token : Bytes
  pub expires_at : ℕ
  pub last_seen : ℕ

pub record SessionStore : Type 0 where
  pub sessions : Map Bytes Session

unfoldable pub new_session_store : SessionStore
new_session_store = record { sessions = empty }

-- `now.After(sess.expiresAt) || now.Sub(sess.lastSeen) > sessionIdleTimeout`, where a clock that
-- has gone back gives a difference below zero, which no test against the timeout passes.
abbrev pub is_over : ℕ → Session → Bool
is_over now sess = ltb sess.expires_at now || ltb session_idle_timeout (now - sess.last_seen)

unfoldable pub prune : SessionStore → ℕ → SessionStore
prune s now = record { sessions = delete_if (is_over now) s.sessions }

abbrev pub new_session : Bytes → ℕ → Session
new_session csrf now = record {
  csrf_token = csrf;
  expires_at = now + session_lifetime;
  last_seen = now;
}

-- The session's token and its CSRF token, or nothing if no random token could be had.
unfoldable pub create :
    SessionStore → ℕ → Option Bytes → Option Bytes → SessionStore × Option (Bytes × Bytes)
unfolding prune
create s now none csrf = (s, none)
create s now (some token) none = (s, none)
create s now (some token) (some csrf) = (
  record { sessions = insert token (new_session csrf now) (prune s now).sessions },
  some (token, csrf),
)

abbrev pub seen : ℕ → Session → Session
seen now sess = record {
  csrf_token = sess.csrf_token;
  expires_at = sess.expires_at;
  last_seen = now;
}

-- What `lookup` does with the session that it finds under the token.
unfoldable pub judge : SessionStore → ℕ → Bytes → Session → SessionStore × Option Session
judge s now token sess =
    if is_over now sess
    then (record { sessions = delete token s.sessions }, none)
    else (record { sessions = insert token (seen now sess) s.sessions }, some (seen now sess))

unfoldable pub lookup : SessionStore → ℕ → Bytes → SessionStore × Option Session
unfolding judge
lookup s now [] = (s, none)
lookup s now (b ∷ token) = elim (s.sessions (b ∷ token)) [
  | none ↦ (s, none)
  | some sess ↦ judge s now (b ∷ token) sess
]

unfoldable pub destroy : SessionStore → Bytes → SessionStore
destroy s token = record { sessions = delete token s.sessions }

-- One request's operation on the store, at the time it is made.
pub data Event : Type 0 where
  created : Bytes → Bytes → Event
  looked_up destroyed : Bytes → Event

unfoldable pub apply : SessionStore → ℕ → Event → SessionStore
unfolding create lookup destroy
apply s now (created token csrf) = (create s now (some token) (some csrf)).0
apply s now (looked_up token) = (lookup s now token).0
apply s now (destroyed token) = destroy s token

-- Operations one after another, each at its time.
unfoldable pub run : SessionStore → List (ℕ × Event) → SessionStore
unfolding apply
run s [] = s
run s ((now, e) ∷ es) = run (apply s now e) es
