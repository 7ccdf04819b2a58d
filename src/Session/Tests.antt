-- ===== src/Session/Tests.antt =====
-- Runs of the session store at concrete inputs.
use jacklet.Prelude.{
  ℕ, ◌+◌, ◌*◌, ◌≡◌, refl, none, some, List, [], ◌∷◌, arith, ℕ-Eq, Bytes, codes, Bytes-Eq,
}
use jacklet.Prelude.Map.{insert}
use jacklet.Session.{
  hour, SessionStore, new_session_store, prune, new_session, create, lookup, destroy, Event,
  created, looked_up, destroyed, run,
}
use jacklet.Session.Lifetime.{expired_stays_out, destroyed_stays_out, idle_stays_out}
use jacklet.Session.Use.{used_stays_in}
use jacklet.Session.Pruning.{prune_invisible}

abbrev noon : ℕ
noon = 12 * hour

abbrev token : Bytes
token = codes "tok"

abbrev other : Bytes
other = codes "other"

abbrev csrf : Bytes
csrf = codes "csrf"

abbrev signed_in : SessionStore
signed_in = (create new_session_store noon (some token) (some csrf)).0

abbrev day : List (ℕ × Event)
day = (noon, created other csrf) ∷ (noon + 1, looked_up token) ∷ (noon + 2, destroyed other) ∷ []

expired_stays_out_example : (lookup (run signed_in day) (25 * hour) token).1 ≡ none
expired_stays_out_example =
    expired_stays_out new_session_store noon (25 * hour) token csrf day (refl, (refl, (refl, tt)))
      (omega arith)

destroyed_stays_out_example : (lookup (run (destroy signed_in token) day) noon token).1 ≡ none
destroyed_stays_out_example =
    destroyed_stays_out signed_in noon token day (refl, (refl, (refl, tt)))

idle_stays_out_example :
    (lookup
      (run (lookup signed_in noon token).0 ((noon, created other csrf) ∷ []))
      (14 * hour)
      token).1
    ≡ none
idle_stays_out_example =
    idle_stays_out signed_in noon (14 * hour) token ((noon, created other csrf) ∷ [])
      ((refl, refl), tt) (omega arith)

signed : signed_in.sessions token ≡ some (new_session csrf noon)
unfolding create insert
signed = refl

used_stays_in_example :
    (lookup (run signed_in day) (13 * hour) token).1
    ≡ some (record { csrf_token = csrf; expires_at = 24 * hour; last_seen = 13 * hour })
used_stays_in_example =
    used_stays_in signed_in (new_session csrf noon) (13 * hour) b't' (codes "ok") day signed
      (
        ((omega arith, omega arith, omega arith), refl, refl),
        (
          ((omega arith, omega arith, omega arith), refl, refl),
          (((omega arith, omega arith, omega arith), refl, refl), tt),
        ),
      )
      (omega arith, omega arith, omega arith)

prune_invisible_example :
    (lookup
      (run (prune signed_in (14 * hour)) ((15 * hour, looked_up token) ∷ []))
      (16 * hour)
      token).1
    ≡ (lookup (run signed_in ((15 * hour, looked_up token) ∷ [])) (16 * hour) token).1
prune_invisible_example =
    prune_invisible signed_in (14 * hour) (16 * hour) ((15 * hour, looked_up token) ∷ []) token
      (omega arith, omega arith)
