-- ===== src/SignIn/Tests.antt =====
-- The limiter and the forwarded addresses at concrete inputs.
use jacklet.Prelude.{
  ℕ, ◌+◌, ◌≤◌, ◌≡◌, refl, Bool, true, Option, none, some, List, [], ◌∷◌, arith, ◌==◌, ℕ-Eq, Bytes,
  codes, Bytes-Eq,
}
use jacklet.Prelude.Map.{insert, delete, delete_if}
use jacklet.Prelude.Ascii.{trim_left, trim_right}
use jacklet.Prelude.Split.{split, join}
use jacklet.SignIn.{
  login_delay, LoginLimiter, new_limiter, reserve, Event, attempted, signed_in, run,
  forwarded_client,
}
use jacklet.SignIn.Spacing.{attempts_spaced}

abbrev client : Bytes
client = codes "203.0.113.9"

first_let_through : (reserve new_limiter client 5).1 ≡ true
unfolding reserve
first_let_through = refl

abbrev others : List (ℕ × Event)
others = (6, attempted (codes "::1")) ∷ (7, attempted client) ∷ (9, signed_in (codes "::1")) ∷ []

abbrev afterwards : LoginLimiter
afterwards = run (reserve new_limiter client 5).0 others

second_let_through : (reserve afterwards client 600_000_000).1 ≡ true
unfolding run insert delete delete_if
second_let_through = refl

attempts_spaced_example : 5 + login_delay ≤ 600_000_000
attempts_spaced_example =
    attempts_spaced new_limiter 5 600_000_000 client others first_let_through
      (omega arith, (omega arith, (omega arith, omega arith))) (refl, (refl, (refl, tt)))
      second_let_through

-- Addresses of one letter; those of a proxy are "p".
read : Bytes → Option ℕ
read (a ∷ []) = some a
read _ = none

abbrev is_proxy : ℕ → ℕ → Bool
is_proxy p addr = p == addr

abbrev proxies : List ℕ
proxies = b'p' ∷ []

the_client : forwarded_client read read is_proxy proxies (codes "x, c ,p" ∷ []) b'p' ≡ b'c'
unfolding forwarded_client join split read trim_left trim_right
the_client = refl
