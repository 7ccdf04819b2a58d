-- ===== src/Scrape/Spacing.antt =====
-- The tracker's next slot in every run of the coordination.
use jacklet.Prelude.{
  ℕ, ◌+◌, ◌≤◌, ◌≡◌, inl, inr, false, Option, none, some, List, arith, Bool-cases, Option-cases,
  ℕ-Eq, Bytes, bytes_eq, bytes_eq_iff, Bytes-Eq,
}
use jacklet.Prelude.Map.{Map, insert}
use jacklet.Scrape.{
  min_scrape_spacing, ScrapeError, ScrapeState, Scraper, state_of, plan_scrape, release, settle,
  finish_scrape,
}
use jacklet.Scrape.Outcome.{entry, plan-leader}
use jacklet.Scrape.Flights.{World, planned, Step, plan, finish, Reach, here, next}

abbrev slot : {T : Type 0} → Scraper T → Bytes → ℕ
slot s id = (entry s id).next_allowed

entry_insert :
    (ss : Map Bytes ScrapeState) (id i : Bytes) (st : ScrapeState)
    → (state_of (ss id)).next_allowed ≤ st.next_allowed
    → (state_of (ss i)).next_allowed ≤ (state_of (insert id st ss i)).next_allowed
unfolding insert
entry_insert ss id i st h = elim (Bool-cases (bytes_eq id i)) [
  | inl same ↦ let e : id ≡ i = (bytes_eq_iff id i).0 same in rw same (rw (← e) h)
  | inr other ↦ rw other (omega arith)
]

settle_slot :
    (st : ScrapeState) (now : ℕ) (key : Bytes) (f : ℕ) (err : Option ScrapeError)
    → st.next_allowed ≤ (settle (release st key f) now key err).next_allowed
unfolding settle release
settle_slot st now key f none = ground arith
settle_slot st now key f (some e) = ground arith

module _ {T : Type 0} where
  plan_slot :
      (s : Scraper T) (now : ℕ) (id key i : Bytes) → slot s i ≤ slot (plan_scrape s now id key).0 i
  unfolding plan_scrape insert
  plan_slot s now id key i = ground (arith, bytes_eq_iff id i)

  finish_slot :
      (s s' : Scraper T) (now : ℕ) (id key : Bytes) (f : ℕ) (torrents : List T)
      (err : Option ScrapeError) (i : Bytes)
      → finish_scrape s now id key f torrents err ≡ some s'
      → slot s i ≤ slot s' i
  unfolding finish_scrape
  finish_slot s s' now id key f torrents err i h = elim (Option-cases (s.scrape_state id)) [
    | inl e ↦ ground arith
    | inr (st, e) ↦ ground (
      arith,
      settle_slot st now key f err,
      entry_insert s.scrape_state id i (settle (release st key f) now key err),
    )
  ]

  Step-slot : {w v : World T} (i : Bytes) → Step w v → slot w.scraper i ≤ slot v.scraper i
  Step-slot {w} i (plan now id key) = plan_slot w.scraper now id key i
  Step-slot {w} i (finish now f id key torrents err {s'} held h) =
      finish_slot w.scraper s' now id key f torrents err i h

  Reach-slot : {w v : World T} (i : Bytes) → Reach w v → slot w.scraper i ≤ slot v.scraper i
  Reach-slot i here = omega arith
  Reach-slot i (next r st) = omega (arith, Reach-slot i r, Step-slot i st)

  -- Two searches of one tracker that are both sent to it start at least a second apart, whatever
  -- else is planned and finished between them and whatever the clock reads.
  pub starts_spaced :
      (w v : World T) (now later : ℕ) (id key other : Bytes) {f g : ℕ}
      → (plan_scrape w.scraper now id key).1.is_follower ≡ false
      → (plan_scrape w.scraper now id key).1.flight ≡ some f
      → Reach (planned w now id key) v
      → (plan_scrape v.scraper later id other).1.is_follower ≡ false
      → (plan_scrape v.scraper later id other).1.flight ≡ some g
      → now + (plan_scrape w.scraper now id key).1.wait + min_scrape_spacing
        ≤ later + (plan_scrape v.scraper later id other).1.wait
  starts_spaced w v now later id key other p q r p' q' = omega (
    arith,
    plan-leader w.scraper now id key p q,
    plan-leader v.scraper later id other p' q',
    Reach-slot id r,
  )
