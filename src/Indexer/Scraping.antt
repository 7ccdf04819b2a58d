-- ===== src/Indexer/Scraping.antt =====
-- What refreshing every tracker of an indexer reports. A search of one tracker is an argument: what
-- `Scrape` ends with, or its panic; the searches run at once, and each reports in its own place.
use jacklet.Prelude.{
  ℕ, Bool, true, false, Option, none, some, List, [], ◌∷◌, map, ltb, if◌then◌else◌, ℕ-Eq, length,
  Bytes, Bytes-Eq,
}
use jacklet.Tracker.{Tracker, tracker_id}
use jacklet.Scrape.{ScrapeError, throttled, wrapped}
use jacklet.Indexer.{Indexer}

pub data Search : Type 0 where
  panics : Bytes → Search
  ends : Option ScrapeError → Search

pub data SearchError : Type 0 where
  panicked : Bytes → SearchError
  errored : ScrapeError → SearchError

pub record ScrapeOutcome : Type 0 where
  pub elapsed : ℕ
  pub err : Option SearchError
  pub tracker_id : Bytes

-- `errors.Is(err, ErrThrottled)`
unfoldable pub is_throttled : ScrapeError → Bool
is_throttled throttled = true
is_throttled (wrapped message e) = is_throttled e
is_throttled _ = false

abbrev pub unless_throttled : ScrapeError → Option SearchError
unfolding is_throttled
unless_throttled e = if is_throttled e then none else some (errored e)

unfoldable pub scrape_guarded : Search → Option SearchError
unfolding unless_throttled
scrape_guarded (panics message) = some (panicked message)
scrape_guarded (ends none) = none
scrape_guarded (ends (some e)) = unless_throttled e

unfoldable pub scrape_one : (Tracker → Search × ℕ) → Tracker → ScrapeOutcome
unfolding scrape_guarded
scrape_one ask def =
    let r = ask def in
    record { elapsed = r.1; err = scrape_guarded r.0; tracker_id = tracker_id def }

abbrev pub NamedError : Type 0
NamedError = Bytes × SearchError

unfoldable pub failure : ScrapeOutcome → List NamedError → List NamedError
failure o errs = elim o.err [ none ↦ errs | some e ↦ (o.tracker_id, e) ∷ errs ]

unfoldable pub failures : List ScrapeOutcome → List NamedError
unfolding failure
failures [] = []
failures (o ∷ outcomes) = failure o (failures outcomes)

-- The error of a whole search: the one tracker's, or every tracker's.
pub data IndexerError : Type 0 where
  one_failed : SearchError → IndexerError
  every_failed : List NamedError → IndexerError

unfoldable pub error_of : ℕ → List NamedError → Option IndexerError
error_of total [] = none
error_of total (e ∷ errs) =
    if ltb (length (e ∷ errs)) total then none else some (every_failed (e ∷ errs))

abbrev pub error_of_one : Option SearchError → Option IndexerError
error_of_one none = none
error_of_one (some e) = some (one_failed e)

unfoldable pub outcome_error : List ScrapeOutcome → Option IndexerError
unfolding failures error_of
outcome_error [] = error_of 0 (failures [])
outcome_error (o ∷ []) = error_of_one o.err
outcome_error (o ∷ p ∷ outcomes) =
    error_of (length (o ∷ p ∷ outcomes)) (failures (o ∷ p ∷ outcomes))

unfoldable pub scrape : (Tracker → Search × ℕ) → Indexer → List ScrapeOutcome × Option IndexerError
unfolding scrape_one outcome_error
scrape ask idx = let outcomes = map (scrape_one ask) idx.defs in (outcomes, outcome_error outcomes)
