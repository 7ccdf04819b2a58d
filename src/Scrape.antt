-- ===== src/Scrape.antt =====
-- pkg/scraper/scraper.go, pkg/scraper/requestdelay.go, pkg/scraper/status.go: how the searches of one
-- tracker are coordinated. `planScrape` reserves a search's slot or sends it away, `finishScrape`
-- publishes its outcome, and both keep the tracker's rate limit and failure backoff.
--
-- An instant is a number of nanoseconds since Go's zero time, a duration a number of nanoseconds, and
-- the clock is read by an argument `now`. A `*scrapeFlight` is a number, its place in the store
-- `flights`; a nil map is an empty one. The mutex makes each operation one step.
pub mod Outcome
mod Flights
mod Followers
mod Queue
mod Spacing
mod Tests
use jacklet.Prelude.{
  ℕ, zero, suc, ◌+◌, ◌-◌, ◌*◌, ◌/◌, ◌%◌, ◌^◌, ◌≤◌, ◌<◌, min, max, ◌≡◌, refl, sym, ap, ap₂, ◌∙◌,
  subst, fun_ext, ◌≡⟨◌⟩◌, ◌∎, ◌≢◌, ◌↔◌, ◌⊎◌, inl, inr, Bool, true, false, not, ◌&&◌, ◌||◌, Option,
  none, some, List, [], ◌∷◌, ◌++◌, map, append_assoc, append-nil, arith, ltb, leb, nat_eq,
  if◌then◌else◌, ltb→lt, lt→ltb, leb→le, le→leb, nat_eq_iff, tests, Bool-cases, Option-cases, Eq,
  ◌==◌, ℕ-Eq, beq_refl, beq_eq, beq_ne, ne_beq, length, get_elem?, take, drop, All, Any, select,
  length-append, take_append, drop_append, take-append-drop, length-take, length-drop, All-append,
  All-map, contains, Bytes, codes, bytes_eq, bytes_eq_iff, Bytes-Eq,
}
use jacklet.Prelude.Map.{
  Map, empty, insert, delete, delete_if, insert_self, insert_ne, delete_self, delete_ne,
}

abbrev pub second : ℕ
second = 1_000_000_000

abbrev pub min_scrape_interval : ℕ
min_scrape_interval = 5 * second

abbrev pub min_scrape_spacing : ℕ
min_scrape_spacing = 1 * second

abbrev pub max_scrape_wait : ℕ
max_scrape_wait = 15 * second

abbrev pub max_scrape_backoff : ℕ
max_scrape_backoff = 600 * second

-- An error by the sentinel that it is, and the errors that wrap one (`%w`).
pub data ScrapeError : Type 0 where
  flare_solverr_queue request_queue throttled canceled : ScrapeError
  failed : Bytes → ScrapeError
  wrapped : Bytes → ScrapeError → ScrapeError

-- `errors.Is` follows the chain of wrapped errors.
unfoldable pub is_queue_wait : ScrapeError → Bool
is_queue_wait flare_solverr_queue = true
is_queue_wait request_queue = true
is_queue_wait (wrapped message e) = is_queue_wait e
is_queue_wait _ = false

unfoldable pub tracker_error : Option ScrapeError → ScrapeError → ScrapeError
tracker_error none err = err
tracker_error (some kept) err = if is_queue_wait err then kept else err

pub record ScrapeState : Type 0 where
  pub failures : ℕ
  pub has_warned_flare_form : Bool
  pub has_warned_flare_headers : Bool
  pub in_flight : Map Bytes ℕ
  pub next_allowed : ℕ
  pub recent : Map Bytes ℕ

-- `done` tells whether the channel of that name is closed.
pub record ScrapeFlight (T : Type 0) : Type 0 where
  pub done : Bool
  pub err : Option ScrapeError
  pub followers : ℕ
  pub torrents : List T

pub record ScrapePlan : Type 0 where
  pub flight : Option ℕ
  pub followers : ℕ
  pub is_follower : Bool
  pub should_skip : Bool
  pub wait : ℕ

-- The fields of `Scraper` that the coordination reads and writes; `next_flight` is the next free
-- place of the store.
pub record Scraper (T : Type 0) : Type 0 where
  pub scrape_state : Map Bytes ScrapeState
  pub flights : ℕ → ScrapeFlight T
  pub next_flight : ℕ

abbrev pub new_state : ScrapeState
new_state = record {
  failures = 0;
  has_warned_flare_form = false;
  has_warned_flare_headers = false;
  in_flight = empty;
  next_allowed = 0;
  recent = empty;
}

abbrev pub state_of : Option ScrapeState → ScrapeState
state_of none = new_state
state_of (some st) = st

abbrev pub new_flight : {T : Type 0} → ScrapeFlight T
new_flight = record { done = false; err = none; followers = 0; torrents = [] }

abbrev pub skip_plan : ScrapePlan
skip_plan = record {
  flight = none;
  followers = 0;
  is_follower = false;
  should_skip = true;
  wait = 0;
}

-- A write through the pointer `f`.
unfoldable pub set_flight :
    {T : Type 0} → ℕ → ScrapeFlight T → (ℕ → ScrapeFlight T) → ℕ → ScrapeFlight T
set_flight f v flights g = if f == g then v else flights g

-- now.Sub(at) >= minScrapeInterval
unfoldable pub is_stale : ℕ → ℕ → Bool
is_stale now at = leb (at + min_scrape_interval) now

unfoldable pub prune_recent : ScrapeState → ℕ → ScrapeState
prune_recent st now = record st { recent = delete_if (is_stale now) st.recent }

-- The search repeats one that completed within minScrapeInterval.
unfoldable pub is_recent : Option ℕ → ℕ → Bool
is_recent none now = false
is_recent (some last) now = ltb now (last + min_scrape_interval)

unfoldable pub start_of : ScrapeState → ℕ → ℕ
start_of st now = if ltb now st.next_allowed then st.next_allowed else now

module _ {T : Type 0} where
  -- The tracker's next free slot is the search's own.
  unfoldable pub reserve : Scraper T → ScrapeState → ℕ → Bytes → Bytes → Scraper T × ScrapePlan
  unfolding start_of prune_recent
  reserve s st now id query_key =
      let start = start_of st now in
      let pruned = prune_recent (record st { next_allowed = start + min_scrape_spacing }) now in
      let flight = s.next_flight in
      (
        record s {
          scrape_state =
              insert id (record pruned { in_flight = insert query_key flight pruned.in_flight })
                s.scrape_state;
          flights = set_flight flight new_flight s.flights;
          next_flight = flight + 1;
        },
        record {
          flight = some flight;
          followers = 0;
          is_follower = false;
          should_skip = false;
          wait = start - now;
        },
      )

  -- `st` is the entry of `id`, which is made whether or not the search may go ahead.
  unfoldable pub plan_new : Scraper T → ScrapeState → ℕ → Bytes → Bytes → Scraper T × ScrapePlan
  unfolding is_recent start_of reserve
  plan_new s st now id query_key =
      let kept : Scraper T × ScrapePlan =
        (record s { scrape_state = insert id st s.scrape_state }, skip_plan) in
      if ltb 0 st.failures && ltb now st.next_allowed
      then kept
      else if is_recent (st.recent query_key) now
      then kept
      else if ltb max_scrape_wait (start_of st now - now)
      then kept
      else reserve s st now id query_key

  unfoldable pub follow : Scraper T → ScrapeState → Bytes → ℕ → Scraper T × ScrapePlan
  follow s st id f =
      let flight = s.flights f in
      let n = flight.followers + 1 in
      (
        record s {
          scrape_state = insert id st s.scrape_state;
          flights = set_flight f (record flight { followers = n }) s.flights;
        },
        record {
          flight = some f;
          followers = n;
          is_follower = true;
          should_skip = false;
          wait = 0;
        },
      )

  unfoldable pub plan_scrape : Scraper T → ℕ → Bytes → Bytes → Scraper T × ScrapePlan
  unfolding follow plan_new
  plan_scrape s now id query_key =
      let st = state_of (s.scrape_state id) in
      elim (st.in_flight query_key) [
        | some f ↦ follow s st id f
        | none ↦ plan_new s st now id query_key
      ]

unfoldable pub backoff_after : ℕ → ℕ
backoff_after failures = min (min_scrape_interval * 2 ^ min failures 8) max_scrape_backoff

-- `if state.inFlight[queryKey] == flight { delete(state.inFlight, queryKey) }`
unfoldable pub release : ScrapeState → Bytes → ℕ → ScrapeState
release st query_key f = elim (st.in_flight query_key) [
  | none ↦ st
  | some g ↦ if g == f then record st { in_flight = delete query_key st.in_flight } else st
]

unfoldable pub settle : ScrapeState → ℕ → Bytes → Option ScrapeError → ScrapeState
settle st now query_key none = record st { failures = 0; recent = insert query_key now st.recent }
settle st now query_key (some err) =
    if is_queue_wait err
    then st
    else let failures = st.failures + 1 in
      let next = now + backoff_after failures in
      record st {
        failures = failures;
        next_allowed = if ltb st.next_allowed next then next else st.next_allowed;
      }

module _ {T : Type 0} where
  unfoldable pub publish :
      (ℕ → ScrapeFlight T) → ℕ → List T → Option ScrapeError → ℕ → ScrapeFlight T
  publish flights f torrents err =
      set_flight f (record (flights f) { done = true; err = err; torrents = torrents }) flights

  -- `none` is the panic of closing a closed channel.
  unfoldable pub finish_scrape :
      Scraper T → ℕ → Bytes → Bytes → ℕ → List T → Option ScrapeError → Option (Scraper T)
  unfolding publish
  finish_scrape s now id query_key f torrents err =
      let published = record s { flights = publish s.flights f torrents err } in
      if (s.flights f).done then none else elim (s.scrape_state id) [
        | none ↦ some published
        | some st ↦ some (record published {
          scrape_state =
              insert id (settle (release st query_key f) now query_key err) s.scrape_state;
        })
      ]

  -- What a follower reads once its flight's channel is closed; `none` while it waits.
  unfoldable pub outcome : Scraper T → ℕ → Option (List T × Option ScrapeError)
  outcome s f =
      if (s.flights f).done then some ((s.flights f).torrents, (s.flights f).err) else none

  unfoldable pub new_scraper : Scraper T
  new_scraper = record { scrape_state = empty; flights = λ _. new_flight; next_flight = 0 }

-- `IndexerStatus`, less the login session.
pub record IndexerStatus : Type 0 where
  pub failures : ℕ
  pub next_allowed : ℕ
  pub scraped : Bool
  pub tracker_id : Bytes

unfoldable pub status : {T : Type 0} → Scraper T → Bytes → IndexerStatus
status s tracker_id = elim (s.scrape_state tracker_id) [
  | none ↦ record { failures = 0; next_allowed = 0; scraped = false; tracker_id = tracker_id }
  | some st ↦ record {
    failures = st.failures;
    next_allowed = st.next_allowed;
    scraped = true;
    tracker_id = tracker_id;
  }
]

unfoldable pub backed_off : IndexerStatus → ℕ → Bool
backed_off st now = ltb 0 st.failures && ltb now st.next_allowed
