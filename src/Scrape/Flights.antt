-- ===== src/Scrape/Flights.antt =====
-- Every run of the coordination: searches that are planned, and leaders that finish, in any order.
use jacklet.Prelude.{
  ℕ, ◌+◌, ◌<◌, ◌≡◌, true, false, ◌&&◌, Option, none, some, List, if◌then◌else◌, ℕ-Eq, Bytes,
  bytes_eq, Bytes-Eq, ◌-◌, refl, ◌∙◌, inl, inr, arith, ltb, nat_eq_iff, Bool-cases, Option-cases,
  beq_refl, bytes_eq_iff, sym, nat_eq, subst,
}
use jacklet.Prelude.Map.{Map, empty, insert, delete}
use jacklet.Scrape.{
  ScrapeError, ScrapeState, ScrapePlan, Scraper, new_flight, skip_plan, set_flight, plan_scrape,
  finish_scrape, new_scraper, max_scrape_wait, ScrapeFlight, state_of, is_recent, start_of,
  plan_new, release, settle, publish, reserve, follow, outcome,
}
use jacklet.Scrape.Outcome.{entry}

-- The coordination's state with the searches that are under way: `leads f` is the tracker and the
-- search of the leader that holds flight `f` and has not finished it.
pub record World (T : Type 0) : Type 0 where
  pub scraper : Scraper T
  pub leads : Map ℕ (Bytes × Bytes)

abbrev pub lead : ScrapePlan → Bytes → Bytes → Map ℕ (Bytes × Bytes) → Map ℕ (Bytes × Bytes)
lead plan id key leads =
    if plan.is_follower
    then leads
    else elim plan.flight [ none ↦ leads | some f ↦ insert f (id, key) leads ]

kept_flying :
    (ss : Map Bytes ScrapeState) (id i k : Bytes)
    → (state_of (insert id (state_of (ss id)) ss i)).in_flight k ≡ (state_of (ss i)).in_flight k
unfolding insert
kept_flying ss id i k = elim (Bool-cases (bytes_eq id i)) [
  | inl same ↦ let e : id ≡ i = (bytes_eq_iff id i).0 same in rw same (rw e)
  | inr other ↦ rw other
]

led_flying :
    (ss : Map Bytes ScrapeState) (id key : Bytes) (f : ℕ) (st : ScrapeState)
    → st.in_flight ≡ insert key f (state_of (ss id)).in_flight
    → (i k : Bytes)
    → (state_of (insert id st ss i)).in_flight k
      ≡ (if bytes_eq id i && bytes_eq key k then some f else (state_of (ss i)).in_flight k)
unfolding insert
led_flying ss id key f st e i k = elim (Bool-cases (bytes_eq id i)) [
  | inl same ↦ let q : id ≡ i = (bytes_eq_iff id i).0 same in rw (same, e) (rw q)
  | inr other ↦ rw other
]

freed_flying :
    (ss : Map Bytes ScrapeState) (id key : Bytes) (st : ScrapeState)
    → st.in_flight ≡ delete key (state_of (ss id)).in_flight
    → (i k : Bytes)
    → (state_of (insert id st ss i)).in_flight k
      ≡ (if bytes_eq id i && bytes_eq key k then none else (state_of (ss i)).in_flight k)
unfolding insert delete
freed_flying ss id key st e i k = elim (Bool-cases (bytes_eq id i)) [
  | inl same ↦ let q : id ≡ i = (bytes_eq_iff id i).0 same in rw (same, e) (rw q)
  | inr other ↦ rw other
]

followed_done :
    {T : Type 0} (flights : ℕ → ScrapeFlight T) (f g n : ℕ)
    → (set_flight f (record (flights f) { followers = n }) flights g).done ≡ (flights g).done
unfolding set_flight
followed_done flights f g n = ground (arith, nat_eq_iff f g)

followed_outcome :
    {T : Type 0} (s : Scraper T) (f g n : ℕ) (ss : Map Bytes ScrapeState)
    → outcome
        (record s {
          scrape_state = ss;
          flights = set_flight f (record (s.flights f) { followers = n }) s.flights;
        })
        g
      ≡ outcome s g
unfolding set_flight outcome
followed_outcome s f g n ss = ground (arith, nat_eq_iff f g)

settle_in_flight :
    (st : ScrapeState) (now : ℕ) (key : Bytes) (err : Option ScrapeError)
    → (settle st now key err).in_flight ≡ st.in_flight
unfolding settle
settle_in_flight st now key none = refl
settle_in_flight st now key (some e) = ground arith

release_in_flight :
    (st : ScrapeState) (key : Bytes) (f : ℕ)
    → st.in_flight key ≡ some f
    → (release st key f).in_flight ≡ delete key st.in_flight
unfolding release
release_in_flight st key f h = rw (h, release) (rw (beq_refl f))

module _ {T : Type 0} where
  abbrev pub planned : World T → ℕ → Bytes → Bytes → World T
  planned w now id key =
      let (s', plan) = plan_scrape w.scraper now id key in
      record { scraper = s'; leads = lead plan id key w.leads }

  abbrev pub finished : World T → ℕ → Scraper T → World T
  finished w f s' = record { scraper = s'; leads = delete f w.leads }

  -- `Scrape` plans its search, and a leader finishes its own flight, once.
  pub data Step (w : World T) : World T → Type 0 where
    plan : (now : ℕ) (id key : Bytes) → Step w (planned w now id key)
    finish :
        (now f : ℕ) (id key : Bytes) (torrents : List T) (err : Option ScrapeError) {s' : Scraper T}
        → w.leads f ≡ some (id, key)
        → finish_scrape w.scraper now id key f torrents err ≡ some s'
        → Step w (finished w f s')

  pub data Reach (w : World T) : World T → Type 0 where
    here : Reach w w
    next : {u v : World T} → Reach w u → Step u v → Reach w v

  abbrev pub start : World T
  start = record { scraper = new_scraper; leads = empty }

  abbrev pub flying : Scraper T → Bytes → Bytes → Option ℕ
  flying s id key = (entry s id).in_flight key

  -- The flights in the trackers' maps are exactly those that a leader holds, each open.
  pub record IsSound (w : World T) : Type 0 where
    pub owned :
        (f : ℕ) (id key : Bytes) → w.leads f ≡ some (id, key) → flying w.scraper id key ≡ some f
    pub led :
        (f : ℕ) (id key : Bytes) → flying w.scraper id key ≡ some f → w.leads f ≡ some (id, key)
    pub unfinished :
        (f : ℕ) (id key : Bytes) → w.leads f ≡ some (id, key) → (w.scraper.flights f).done ≡ false
    pub used : (f : ℕ) (id key : Bytes) → w.leads f ≡ some (id, key) → f < w.scraper.next_flight
    pub published :
        (f : ℕ) → f < w.scraper.next_flight → w.leads f ≡ none → (w.scraper.flights f).done ≡ true

  -- The three outcomes of a plan.
  pub data Planned (s : Scraper T) (id key : Bytes) : Scraper T × ScrapePlan → Type 0 where
    skipped :
        {s' : Scraper T} {p : ScrapePlan}
        → flying s id key ≡ none
        → p ≡ skip_plan
        → ((i k : Bytes) → flying s' i k ≡ flying s i k)
        → s'.flights ≡ s.flights
        → s'.next_flight ≡ s.next_flight
        → Planned s id key (s', p)
    followed :
        {s' : Scraper T} {p : ScrapePlan} (f : ℕ)
        → flying s id key ≡ some f
        → p.flight ≡ some f
        → p.is_follower ≡ true
        → ((i k : Bytes) → flying s' i k ≡ flying s i k)
        → ((g : ℕ) → (s'.flights g).done ≡ (s.flights g).done)
        → ((g : ℕ) → outcome s' g ≡ outcome s g)
        → s'.next_flight ≡ s.next_flight
        → Planned s id key (s', p)
    led_by :
        {s' : Scraper T} {p : ScrapePlan}
        → flying s id key ≡ none
        → p.flight ≡ some s.next_flight
        → p.is_follower ≡ false
        → ((i k : Bytes)
            → flying s' i k
              ≡ (if bytes_eq id i && bytes_eq key k then some s.next_flight else flying s i k))
        → s'.flights ≡ set_flight s.next_flight new_flight s.flights
        → s'.next_flight ≡ s.next_flight + 1
        → Planned s id key (s', p)

  plan_new-Planned :
      (s : Scraper T) (now : ℕ) (id key : Bytes)
      → flying s id key ≡ none
      → Planned s id key (plan_new s (entry s id) now id key)
  plan_new-Planned s now id key free =
      let kept : Planned s id key
          (record s { scrape_state = insert id (entry s id) s.scrape_state }, skip_plan) =
        skipped free refl (kept_flying s.scrape_state id) refl refl in
      unfold plan_new in
      elim (Bool-cases (ltb 0 (entry s id).failures && ltb now (entry s id).next_allowed)) [
        | inl a ↦ rw a kept
        | inr a ↦ elim (Bool-cases (is_recent ((entry s id).recent key) now)) [
          | inl b ↦ rw (a, b) kept
          | inr b ↦ elim (Bool-cases (ltb max_scrape_wait (start_of (entry s id) now - now))) [
            | inl c ↦ rw (a, b, c) kept
            | inr c ↦
                rw (a, b, c)
                  (unfold reserve in
                    led_by free refl refl (led_flying s.scrape_state id key s.next_flight _ refl)
                      refl refl)
          ]
        ]
      ]

  pub plan-Planned :
      (s : Scraper T) (now : ℕ) (id key : Bytes) → Planned s id key (plan_scrape s now id key)
  unfolding plan_scrape follow
  plan-Planned s now id key = elim (Option-cases (flying s id key)) [
    | inl free ↦ rw (free, plan_scrape) (plan_new-Planned s now id key free)
    | inr (f, taken) ↦
        rw (taken, plan_scrape)
          (followed f taken refl refl (kept_flying s.scrape_state id)
            (λ g. followed_done s.flights f g _) (λ g. followed_outcome s f g _ _) refl)
  ]

  pub finish-lem :
      (s : Scraper T) (now : ℕ) (id key : Bytes) (f : ℕ) (torrents : List T)
      (err : Option ScrapeError)
      → flying s id key ≡ some f
      → (s.flights f).done ≡ false
      → (s' : Scraper T) × (finish_scrape s now id key f torrents err ≡ some s')
        × (s'.flights ≡ publish s.flights f torrents err)
        × (s'.next_flight ≡ s.next_flight)
        × ((i k : Bytes)
            → flying s' i k ≡ (if bytes_eq id i && bytes_eq key k then none else flying s i k))
  finish-lem s now id key f torrents err own fresh = elim (Option-cases (s.scrape_state id)) [
    | inl e ↦ let impossible : none ≡ some f = rw (e, flying) at own in cc
    | inr (st, e) ↦
        let own' : st.in_flight key ≡ some f = rw (e, flying) at own in
        (
          record s {
            scrape_state = insert id (settle (release st key f) now key err) s.scrape_state;
            flights = publish s.flights f torrents err;
          },
          unfold finish_scrape in rw (fresh, e),
          refl,
          refl,
          freed_flying s.scrape_state id key _ (
              settle_in_flight (release st key f) now key err
              ∙ (release_in_flight st key f own' ∙ (rw e))),
        )
  ]

  pub start-IsSound : IsSound start
  unfolding new_scraper
  start-IsSound = record {
    owned = λ f id key h. cc;
    led = λ f id key h. cc;
    unfinished = λ f id key h. cc;
    used = λ f id key h. cc;
    published = λ f lt h. absurd (omega arith);
  }

  -- A leader's flight leaves the map and the leaders together.
  landed-IsSound :
      {w w' : World T} (f : ℕ) (id key : Bytes)
      → IsSound w
      → w.leads f ≡ some (id, key)
      → w'.scraper.next_flight ≡ w.scraper.next_flight
      → ((i k : Bytes)
          → flying w'.scraper i k
            ≡ (if bytes_eq id i && bytes_eq key k then none else flying w.scraper i k))
      → ((g : ℕ)
          → (w'.scraper.flights g).done ≡ (if nat_eq f g then true else (w.scraper.flights g).done))
      → ((g : ℕ) → w'.leads g ≡ (if nat_eq f g then none else w.leads g))
      → IsSound w'
  landed-IsSound f id key sound held same flew dones leads =
      let own = sound.owned f id key held in
      record {
        owned = λ g i k h. ground (
          arith,
          leads g,
          flew i k,
          sound.owned g i k,
          bytes_eq_iff id i,
          bytes_eq_iff key k,
          nat_eq_iff f g,
        );
        led = λ g i k h. ground (
          arith,
          leads g,
          flew i k,
          sound.led g i k,
          bytes_eq_iff id i,
          bytes_eq_iff key k,
          nat_eq_iff f g,
        );
        unfinished = λ g i k h. ground (arith, leads g, dones g, sound.unfinished g i k);
        used = λ g i k h. ground (arith, leads g, sound.used g i k);
        published = λ g lt h. ground (arith, leads g, dones g, sound.published g);
      }

  -- A new flight joins the map and the leaders together.
  reserved-IsSound :
      {w w' : World T} (id key : Bytes)
      → IsSound w
      → flying w.scraper id key ≡ none
      → w'.scraper.next_flight ≡ w.scraper.next_flight + 1
      → ((i k : Bytes)
          → flying w'.scraper i k ≡ (
              if bytes_eq id i && bytes_eq key k
              then some w.scraper.next_flight
              else flying w.scraper i k))
      → ((g : ℕ)
          → (w'.scraper.flights g).done
            ≡ (if nat_eq w.scraper.next_flight g then false else (w.scraper.flights g).done))
      → ((g : ℕ)
          → w'.leads g ≡ (if nat_eq w.scraper.next_flight g then some (id, key) else w.leads g))
      → IsSound w'
  reserved-IsSound {w} id key sound free more flew dones leads =
      let n = w.scraper.next_flight in
      record {
        owned = λ g i k h. ground (
          arith,
          leads g,
          flew i k,
          sound.owned g i k,
          bytes_eq_iff id i,
          bytes_eq_iff key k,
          nat_eq_iff n g,
        );
        led = λ g i k h. ground (
          arith,
          leads g,
          flew i k,
          sound.led g i k,
          sound.used g i k,
          bytes_eq_iff id i,
          bytes_eq_iff key k,
          nat_eq_iff n g,
        );
        unfinished = λ g i k h. ground (arith, leads g, dones g, sound.unfinished g i k);
        used = λ g i k h. ground (arith, leads g, sound.used g i k);
        published = λ g lt h. ground (arith, leads g, dones g, sound.published g);
      }

  -- The maps are unchanged.
  unchanged-IsSound :
      {w w' : World T}
      → IsSound w
      → w'.scraper.next_flight ≡ w.scraper.next_flight
      → ((i k : Bytes) → flying w'.scraper i k ≡ flying w.scraper i k)
      → ((g : ℕ) → (w'.scraper.flights g).done ≡ (w.scraper.flights g).done)
      → ((g : ℕ) → w'.leads g ≡ w.leads g)
      → IsSound w'
  unchanged-IsSound sound same flew dones leads = record {
    owned = λ g i k h. flew i k ∙ sound.owned g i k (sym (leads g) ∙ h);
    led = λ g i k h. leads g ∙ sound.led g i k (sym (flew i k) ∙ h);
    unfinished = λ g i k h. dones g ∙ sound.unfinished g i k (sym (leads g) ∙ h);
    used = λ g i k h. ground (arith, leads g, sound.used g i k);
    published = λ g lt h. ground (arith, leads g, dones g, sound.published g);
  }

  finish-IsSound :
      {w : World T} (now f : ℕ) (id key : Bytes) (torrents : List T) (err : Option ScrapeError)
      {s' : Scraper T}
      → IsSound w
      → w.leads f ≡ some (id, key)
      → finish_scrape w.scraper now id key f torrents err ≡ some s'
      → IsSound (finished w f s')
  unfolding publish set_flight delete
  finish-IsSound {w} now f id key torrents err {s'} sound held h =
      let (s₁, eq, published, same, flew) =
        finish-lem w.scraper now id key f torrents err (sound.owned f id key held)
          (sound.unfinished f id key held) in
      let e : s₁ ≡ s' = cc (eq) in
      subst (λ s. IsSound (finished w f s)) e
        (landed-IsSound f id key sound held same flew (λ g. rw published (ground arith))
          (λ g. refl))

  plan-IsSound :
      {w : World T} (now : ℕ) (id key : Bytes) → IsSound w → IsSound (planned w now id key)
  unfolding set_flight insert
  plan-IsSound {w} now id key sound =
      go (plan_scrape w.scraper now id key) (plan-Planned w.scraper now id key)
    where
      go :
          (r : Scraper T × ScrapePlan)
          → Planned w.scraper id key r
          → IsSound (record { scraper = r.0; leads = lead r.1 id key w.leads })
      go r (skipped free p flew same more) =
          unchanged-IsSound sound more flew (λ g. rw same) (λ g. ground (arith, p))
      go r (followed f taken p q flew dones outs more) =
          unchanged-IsSound sound more flew dones (λ g. ground (arith, p, q))
      go r (led_by free p q flew same more) =
          reserved-IsSound id key sound free more flew (λ g. rw same (ground arith))
            (λ g. ground (arith, p, q))

  pub Step-IsSound : {w v : World T} → Step w v → IsSound w → IsSound v
  Step-IsSound (plan now id key) sound = plan-IsSound now id key sound
  Step-IsSound (finish now f id key torrents err held h) sound =
      finish-IsSound now f id key torrents err sound held h

  pub Reach-IsSound : {w v : World T} → Reach w v → IsSound w → IsSound v
  Reach-IsSound here sound = sound
  Reach-IsSound (next r st) sound = Step-IsSound st (Reach-IsSound r sound)
