-- ===== src/Scrape/Tests.antt =====
-- Runs of the coordination at concrete inputs.
use jacklet.Prelude.{
  ℕ, ◌+◌, ◌*◌, ◌^◌, ◌≤◌, min, ◌≡◌, refl, ◌↔◌, ◌⊎◌, true, false, Option, none, some, List, [], ◌∷◌,
  arith, ℕ-Eq, Bytes, codes, Bytes-Eq,
}
use jacklet.Prelude.Map.{insert, delete, delete_if}
use jacklet.Scrape.{
  second, min_scrape_interval, min_scrape_spacing, max_scrape_wait, max_scrape_backoff, ScrapeError,
  request_queue, failed, is_queue_wait, Scraper, set_flight, prune_recent, plan_new, plan_scrape,
  backoff_after, release, settle, finish_scrape, outcome, new_scraper, status, backed_off,
}
use jacklet.Scrape.Outcome.{entry, plan-leader, failed-backs_off, succeeded-dedups, backoff_doubles}
use jacklet.Scrape.Flights.{World, planned, finished, plan, finish, Reach, here, next, start}
use jacklet.Scrape.Followers.{one_leader, leader_publishes, follower_has_leader, published_stays}
use jacklet.Scrape.Spacing.{starts_spaced}
use jacklet.Scrape.Queue.{plan-prune_recent, AllQueued, kept_error, queued_iff_AllQueued}

abbrev site : Bytes
site = codes "site"

abbrev query : Bytes
query = codes "q"

abbrev rows : List ℕ
rows = 7 ∷ []

abbrev noon : ℕ
noon = 43_200 * second

abbrev led : World ℕ
led = planned start noon site query

led_reached : Reach start led
led_reached = next here (plan noon site query)

led_leads : led.leads 0 ≡ some (site, query)
unfolding plan_scrape new_scraper insert prune_recent
led_leads = refl

one_leader_example : ◌≡◌ {A = ℕ} 0 0
one_leader_example = one_leader led_reached 0 0 site query led_leads led_leads

leader_publishes_example :
    (outcome led.scraper 0 ≡ none)
    × ((s' : Scraper ℕ) × (finish_scrape led.scraper noon site query 0 rows none ≡ some s')
        × (outcome s' 0 ≡ some (rows, none)))
leader_publishes_example = leader_publishes led_reached noon 0 site query rows none led_leads

follower_has_leader_example : led.leads 0 ≡ some (site, query)
unfolding plan_scrape new_scraper insert prune_recent set_flight
follower_has_leader_example = follower_has_leader led_reached noon 0 site query refl refl

abbrev served : Option ScrapeError → Scraper ℕ
served err = elim (finish_scrape led.scraper noon site query 0 rows err) [
  | none ↦ led.scraper
  | some s ↦ s
]

finish_ok : finish_scrape led.scraper noon site query 0 rows none ≡ some (served none)
unfolding finish_scrape plan_scrape new_scraper set_flight insert
finish_ok = refl

published_stays_example : outcome (finished led 0 (served none)).scraper 0 ≡ some (rows, none)
unfolding finish_scrape plan_scrape new_scraper set_flight outcome insert
published_stays_example =
    published_stays {w = finished led 0 (served none)} 0
      (next led_reached (finish noon 0 site query rows none led_leads finish_ok)) (omega arith) refl
      here

starts_spaced_example :
    noon + (plan_scrape (start {T = ℕ}).scraper noon site query).1.wait + min_scrape_spacing
    ≤ noon + (plan_scrape led.scraper noon site (codes "r")).1.wait
unfolding plan_scrape new_scraper insert prune_recent delete_if
starts_spaced_example =
    starts_spaced start led noon noon site query (codes "r") refl refl here refl refl

plan-leader_example :
    let s = (start {T = ℕ}).scraper in
    let wait = (plan_scrape s noon site query).1.wait in
    ((entry s site).in_flight query ≡ none)
    × (((entry s site).failures ≡ 0) ⊎ ((entry s site).next_allowed ≤ noon))
    × (wait ≤ max_scrape_wait)
    × ((entry s site).next_allowed ≤ noon + wait)
    × ((entry (plan_scrape s noon site query).0 site).next_allowed
        ≡ noon + wait + min_scrape_spacing)
unfolding plan_scrape new_scraper insert prune_recent
plan-leader_example = plan-leader (start {T = ℕ}).scraper noon site query refl refl

abbrev timeout : ScrapeError
timeout = failed (codes "timeout")

finish_failed :
    finish_scrape led.scraper noon site query 0 rows (some timeout) ≡ some (served (some timeout))
unfolding finish_scrape plan_scrape new_scraper set_flight insert
finish_failed = refl

failed-backs_off_example :
    ((plan_scrape (served (some timeout)) (noon + second) site (codes "r")).1.should_skip ≡ true)
    × (backed_off (status (served (some timeout)) site) (noon + second) ≡ true)
unfolding finish_scrape plan_scrape new_scraper set_flight insert settle is_queue_wait release
    delete prune_recent backoff_after
failed-backs_off_example =
    failed-backs_off led.scraper (served (some timeout)) (entry led.scraper site) noon site query 0
      rows timeout (noon + second) (codes "r") refl refl finish_failed refl (omega arith)

succeeded-dedups_example :
    ((plan_scrape (served none) (noon + second) site query).1.should_skip ≡ true)
    × (backed_off (status (served none) site) (noon + second) ≡ false)
    × ((entry (served none) site).next_allowed ≡ (entry led.scraper site).next_allowed)
unfolding plan_scrape new_scraper insert prune_recent
succeeded-dedups_example =
    succeeded-dedups led.scraper (served none) (entry led.scraper site) noon site query 0 rows
      (noon + second) refl refl finish_ok (omega arith)

plan-prune_recent_example :
    (plan_new led.scraper (prune_recent (entry led.scraper site) noon) (noon + second) site query).1
    ≡ (plan_new led.scraper (entry led.scraper site) (noon + second) site query).1
plan-prune_recent_example =
    plan-prune_recent led.scraper (entry led.scraper site) noon (noon + second) site query
      (omega arith)

queued_iff_AllQueued_example :
    (r : ScrapeError) × (kept_error none (request_queue ∷ timeout ∷ []) ≡ some r)
    × ((is_queue_wait r ≡ true) ↔ AllQueued (request_queue ∷ timeout ∷ []))
queued_iff_AllQueued_example = queued_iff_AllQueued request_queue (timeout ∷ [])

backoff_doubles_example : backoff_after 3 ≡ min (min_scrape_interval * 2 ^ 3) max_scrape_backoff
backoff_doubles_example = backoff_doubles 3
