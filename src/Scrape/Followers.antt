-- ===== src/Scrape/Followers.antt =====
-- What followers of a search are promised, in every run of the coordination.
use jacklet.Prelude.{
  ℕ, ◌<◌, ◌≡◌, ◌∙◌, subst, ◌≢◌, true, Option, none, some, List, arith, ℕ-Eq, beq_refl, ne_beq,
  Bytes, Bytes-Eq,
}
use jacklet.Scrape.{
  ScrapeError, ScrapeFlight, ScrapePlan, Scraper, new_flight, set_flight, plan_scrape, publish,
  finish_scrape, outcome,
}
use jacklet.Scrape.Flights.{
  World, Step, plan, finish, Reach, here, next, start, IsSound, Reach-IsSound, Planned, skipped,
  followed, led_by, plan-Planned, finish-lem, start-IsSound,
}

module _ {T : Type 0} {w : World T} (run : Reach start w) where
  -- At any time one search of a tracker has one leader at most: the tracker is asked once.
  pub one_leader :
      (f g : ℕ) (id key : Bytes) → w.leads f ≡ some (id, key) → w.leads g ≡ some (id, key) → f ≡ g
  one_leader f g id key p q =
      let sound = Reach-IsSound run start-IsSound in
      cc (sound.owned f id key p, sound.owned g id key q)

  -- A leader can always finish: its flight's channel is not yet closed. Until then its followers
  -- read nothing, and from then on they read what it publishes.
  pub leader_publishes :
      (now f : ℕ) (id key : Bytes) (torrents : List T) (err : Option ScrapeError)
      → w.leads f ≡ some (id, key)
      → (outcome w.scraper f ≡ none)
        × ((s' : Scraper T) × (finish_scrape w.scraper now id key f torrents err ≡ some s')
            × (outcome s' f ≡ some (torrents, err)))
  unfolding outcome publish set_flight
  leader_publishes now f id key torrents err held =
      let sound = Reach-IsSound run start-IsSound in
      let open_ = sound.unfinished f id key held in
      let (s', eq, published, _, _) =
        finish-lem w.scraper now id key f torrents err (sound.owned f id key held) open_ in
      (rw open_, (s', eq, rw published (rw (beq_refl f))))

  -- A search that is told to follow a flight follows one that a leader of the same search of the
  -- same tracker still holds.
  pub follower_has_leader :
      (now f : ℕ) (id key : Bytes)
      → (plan_scrape w.scraper now id key).1.is_follower ≡ true
      → (plan_scrape w.scraper now id key).1.flight ≡ some f
      → w.leads f ≡ some (id, key)
  unfolding plan_scrape
  follower_has_leader now f id key p q =
      let sound = Reach-IsSound run start-IsSound in sound.led f id key (ground arith)

module _ {T : Type 0} where
  outcome_same : (s s' : Scraper T) (f : ℕ) → s'.flights ≡ s.flights → outcome s' f ≡ outcome s f
  unfolding outcome
  outcome_same s s' f same = rw same

  outcome-set_flight :
      (s s' : Scraper T) (f n : ℕ) (v : ScrapeFlight T)
      → s'.flights ≡ set_flight n v s.flights
      → n ≢ f
      → outcome s' f ≡ outcome s f
  unfolding outcome set_flight
  outcome-set_flight s s' f n v same other = rw (same, ne_beq n f other)

  outcome_done :
      (s : Scraper T) (f : ℕ) {r : List T × Option ScrapeError}
      → outcome s f ≡ some r
      → (s.flights f).done ≡ true
  unfolding outcome
  outcome_done s f h = ground arith

  other_flight :
      (w : World T) (g f : ℕ) (id key : Bytes) (r : List T × Option ScrapeError)
      → IsSound w
      → w.leads g ≡ some (id, key)
      → outcome w.scraper f ≡ some r
      → g ≢ f
  other_flight w g f id key r sound held h q =
      ground (arith, sound.unfinished g id key held, outcome_done w.scraper f h, q)

  Step-published :
      {w v : World T} (f : ℕ) {r : List T × Option ScrapeError}
      → IsSound w
      → f < w.scraper.next_flight
      → outcome w.scraper f ≡ some r
      → Step w v
      → (outcome v.scraper f ≡ some r) × (f < v.scraper.next_flight)
  unfolding publish
  Step-published {w} f {r} sound old h (plan now id key) =
      go (plan_scrape w.scraper now id key) (plan-Planned w.scraper now id key)
    where
      go :
          (p : Scraper T × ScrapePlan)
          → Planned w.scraper id key p
          → (outcome p.0 f ≡ some r) × (f < p.0.next_flight)
      go p (skipped _ _ _ same more) = (outcome_same w.scraper p.0 f same ∙ h, omega arith)
      go p (followed g _ _ _ _ _ outs more) = (outs f ∙ h, omega arith)
      go p (led_by _ _ _ _ same more) = (
        outcome-set_flight w.scraper p.0 f w.scraper.next_flight new_flight same (omega arith) ∙ h,
        omega arith,
      )
  Step-published {w} f {r} sound old h (finish now g id key torrents err {s'} held done) =
      let (s₁, eq, published, more, _) =
        finish-lem w.scraper now id key g torrents err (sound.owned g id key held)
          (sound.unfinished g id key held) in
      let e : s₁ ≡ s' = cc eq in
      let other : g ≢ f = λ q. other_flight w g f id key r sound held h q in
      subst (λ s. (outcome s f ≡ some r) × (f < s.next_flight)) e
        (outcome-set_flight w.scraper s₁ f g _ published other ∙ h, omega arith)

  Reach-published :
      {w v : World T} (f : ℕ) {r : List T × Option ScrapeError}
      → IsSound w
      → f < w.scraper.next_flight
      → outcome w.scraper f ≡ some r
      → Reach w v
      → (outcome v.scraper f ≡ some r) × (f < v.scraper.next_flight)
  Reach-published f sound old h here = (h, old)
  Reach-published f sound old h (next later st) =
      let (h', old') = Reach-published f sound old h later in
      Step-published f (Reach-IsSound later sound) old' h' st

  -- What a leader has published stays, whatever is planned and finished afterwards.
  pub published_stays :
      {w v : World T} (f : ℕ) {r : List T × Option ScrapeError}
      → Reach start w
      → f < w.scraper.next_flight
      → outcome w.scraper f ≡ some r
      → Reach w v
      → outcome v.scraper f ≡ some r
  published_stays f run old h later =
      (Reach-published f (Reach-IsSound run start-IsSound) old h later).0
