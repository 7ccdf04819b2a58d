-- ===== src/Scrape/Outcome.antt =====
-- What `planScrape` and `finishScrape` do to a tracker's backoff, window and rate limit.
use native.Mathlib.Nat.{pow-suc}
use jacklet.Prelude.{
  ℕ, zero, suc, ◌+◌, ◌*◌, ◌^◌, ◌≤◌, ◌<◌, min, ◌≡◌, refl, ◌⊎◌, inl, inr, true, false, Option, none,
  some, List, arith, leb, if◌then◌else◌, tests, Bool-cases, ℕ-Eq, beq_refl, Bytes, Bytes-Eq,
}
use jacklet.Prelude.Map.{insert, delete}
use jacklet.Scrape.{
  second, min_scrape_interval, min_scrape_spacing, max_scrape_wait, max_scrape_backoff, ScrapeError,
  is_queue_wait, ScrapeState, Scraper, state_of, plan_scrape, finish_scrape, settle, release,
  backoff_after, is_recent, is_stale, status, backed_off,
}

-- The tracker's entry as the next `planScrape` reads it.
abbrev pub entry : {T : Type 0} → Scraper T → Bytes → ScrapeState
entry s id = state_of (s.scrape_state id)

one-le-pow : (k : ℕ) → 1 ≤ 2 ^ k
one-le-pow zero = omega arith
one-le-pow (suc k) = omega (arith, one-le-pow k, pow-suc 2 k)

pow-ge : (j k : ℕ) → j ≤ k → 2 ^ j ≤ 2 ^ k
pow-ge zero k h = one-le-pow k
pow-ge (suc j) zero h = absurd (omega arith)
pow-ge (suc j) (suc k) h = omega (arith, pow-ge j k (omega arith), pow-suc 2 j, pow-suc 2 k)

-- The backoff after n failures in a row is 5 s doubled n times, and ten minutes at most: the bound
-- 8 on the exponent, which keeps the shift from overflowing, changes no backoff.
pub backoff_doubles :
    (n : ℕ) → backoff_after n ≡ min (min_scrape_interval * 2 ^ n) max_scrape_backoff
unfolding backoff_after
backoff_doubles n = elim (Bool-cases (leb n 8)) [
  | inl small ↦ let e : min n 8 ≡ n = omega tests in rw e
  | inr large ↦
      let above : 8 < n = ground arith in
      let e : min n 8 ≡ 8 = omega arith in rw e (omega (arith, pow-ge 8 n (omega arith)))
]

pub backoff_bounds :
    (n : ℕ) → 0 < n → (10 * second ≤ backoff_after n) × (backoff_after n ≤ max_scrape_backoff)
backoff_bounds n h = rw (backoff_doubles n) (omega (arith, pow-ge 1 n h), omega arith)

is_recent-prune_recent :
    (recent : Option ℕ) (now later : ℕ)
    → now ≤ later
    → is_recent
        (elim recent [ none ↦ none | some at ↦ if is_stale now at then none else some at ])
        later
      ≡ is_recent recent later
unfolding is_recent is_stale
is_recent-prune_recent none now later h = refl
is_recent-prune_recent (some at) now later h = ground arith

module _ {T : Type 0} (s : Scraper T) (now : ℕ) (id key : Bytes) where
  -- When a search is sent to the tracker, no identical one is in flight, the tracker is not inside a
  -- backoff, it starts no earlier than the tracker's next slot and within fifteen seconds, and the
  -- following slot is one second after its start.
  pub plan-leader :
      {f : ℕ}
      → (plan_scrape s now id key).1.is_follower ≡ false
      → (plan_scrape s now id key).1.flight ≡ some f
      → let wait = (plan_scrape s now id key).1.wait in
        ((entry s id).in_flight key ≡ none)
        × (((entry s id).failures ≡ 0) ⊎ ((entry s id).next_allowed ≤ now))
        × (wait ≤ max_scrape_wait)
        × ((entry s id).next_allowed ≤ now + wait)
        × ((entry (plan_scrape s now id key).0 id).next_allowed ≡ now + wait + min_scrape_spacing)
  unfolding plan_scrape insert
  plan-leader p q = ground (arith, beq_refl id)

  plan_backed_off :
      (entry s id).in_flight key ≡ none
      → 0 < (entry s id).failures
      → now < (entry s id).next_allowed
      → (plan_scrape s now id key).1.should_skip ≡ true
  unfolding plan_scrape
  plan_backed_off p q r = ground arith

  plan_recent :
      {last : ℕ}
      → (entry s id).in_flight key ≡ none
      → (entry s id).recent key ≡ some last
      → now < last + min_scrape_interval
      → (plan_scrape s now id key).1.should_skip ≡ true
  unfolding plan_scrape
  plan_recent p q r = ground arith

module _ {T : Type 0} (s s' : Scraper T) (t : ℕ) (id key : Bytes) (f : ℕ) (torrents : List T) where
  pub finish_failed :
      (err : ScrapeError)
      → (st : ScrapeState) → s.scrape_state id ≡ some st
      → is_queue_wait err ≡ false
      → finish_scrape s t id key f torrents (some err) ≡ some s'
      → ((entry s' id).failures ≡ st.failures + 1)
        × (t + backoff_after (st.failures + 1) ≤ (entry s' id).next_allowed)
        × ((entry s' id).in_flight ≡ (release st key f).in_flight)
  unfolding finish_scrape settle release insert
  finish_failed err st q w h = ground (arith, beq_refl id)

  pub finish_ok :
      (st : ScrapeState)
      → s.scrape_state id ≡ some st
      → finish_scrape s t id key f torrents none ≡ some s'
      → ((entry s' id).failures ≡ 0)
        × ((entry s' id).recent key ≡ some t)
        × ((entry s' id).next_allowed ≡ st.next_allowed)
        × ((entry s' id).in_flight ≡ (release st key f).in_flight)
  unfolding finish_scrape settle release insert
  finish_ok st q h = ground (arith, beq_refl id, beq_refl key)

  pub finish_queued :
      (err : ScrapeError)
      → (st : ScrapeState) → s.scrape_state id ≡ some st
      → is_queue_wait err ≡ true
      → finish_scrape s t id key f torrents (some err) ≡ some s'
      → s'.scrape_state id ≡ some (release st key f)
  unfolding finish_scrape settle insert
  finish_queued err st q w h = ground (arith, beq_refl id)

module _ {T : Type 0} (s s' : Scraper T) (st : ScrapeState) (t : ℕ) (id key : Bytes) (f : ℕ)
    (torrents : List T) where
  -- After a search of a tracker has failed at `t`, and not in a queue of the program's own, the
  -- tracker reads as backed off and any search of it that no flight answers is skipped, until its
  -- backoff for that many failures in a row is over.
  pub failed-backs_off :
      (err : ScrapeError) (later : ℕ) (other : Bytes)
      → s.scrape_state id ≡ some st
      → is_queue_wait err ≡ false
      → finish_scrape s t id key f torrents (some err) ≡ some s'
      → (entry s' id).in_flight other ≡ none
      → later < t + backoff_after (st.failures + 1)
      → ((plan_scrape s' later id other).1.should_skip ≡ true)
        × (backed_off (status s' id) later ≡ true)
  unfolding backed_off status
  failed-backs_off err later other q w h free soon =
      let (counted, delayed, _) = finish_failed s s' t id key f torrents err st q w h in
      (plan_backed_off s' later id other free (omega arith) (omega arith), ground arith)

  -- After a search has succeeded at `t`, a repeat of it within five seconds is skipped, the tracker
  -- is not backed off, and its next slot is where it was.
  pub succeeded-dedups :
      (later : ℕ)
      → s.scrape_state id ≡ some st
      → st.in_flight key ≡ some f
      → finish_scrape s t id key f torrents none ≡ some s'
      → later < t + min_scrape_interval
      → ((plan_scrape s' later id key).1.should_skip ≡ true)
        × (backed_off (status s' id) later ≡ false)
        × ((entry s' id).next_allowed ≡ st.next_allowed)
  unfolding backed_off status release delete
  succeeded-dedups later q own h soon =
      let (reset, noted, kept, released) = finish_ok s s' t id key f torrents st q h in
      let free : (release st key f).in_flight key ≡ none =
        ground (arith, beq_refl key, beq_refl f) in
      (plan_recent s' later id key (rw released free) noted soon, ground arith, kept)
