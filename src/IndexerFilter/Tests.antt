-- ===== src/IndexerFilter/Tests.antt =====
-- Filter expressions at concrete inputs.
use mathlib.Core.Option
use jacklet.Prelude.{ℕ, ◌≡◌, refl, true, false, none, some, [], ℕ-Eq, codes, Bytes-Eq}
use jacklet.Prelude.Map.{insert}
use jacklet.Prelude.Options.{both, traverse}
use jacklet.Prelude.Split.{split}
use jacklet.Prelude.Ascii.{trim_left, trim_right, trim_space, to_lower, equal_fold, has_prefix, cut}
use jacklet.Scrape.{
  failed, is_queue_wait, ScrapeState, Scraper, state_of, set_flight, prune_recent, plan_scrape,
  finish_scrape, new_scraper, IndexerStatus,
}
use jacklet.Tracker.{Caps, Tracker}
use jacklet.IndexerFilter.{
  health_term, filter_term, complement, parse_name_value, parse_filter_term, all_of, any_of,
  parse_group, parse_indexer_filter,
}
use jacklet.IndexerFilter.Operators.{either, together, comma_is_or, plus_is_and}
use jacklet.IndexerFilter.Negation.{starts_with_not, bang_is_not}
use jacklet.IndexerFilter.Health.{covered, covers, failing, healthy, unknown, health_follows}

abbrev no_caps : Caps
no_caps = record {
  allow_raw_search = false;
  allow_tv_search_imdb = false;
  category_mappings = [];
  modes = [];
}

abbrev site : Tracker
site = record {
  caps = no_caps;
  description = [];
  id = codes "site";
  language = codes "en-US";
  name = codes "Site";
  replaces = [];
  tracker_type = codes "private";
}

abbrev idle : IndexerStatus
idle = record { failures = 0; next_allowed = 0; scraped = false; tracker_id = codes "site" }

private_english :
    covered (parse_indexer_filter (codes "type:Private + lang:en,tag:x")) site idle ≡ true
unfolding parse_indexer_filter parse_group parse_filter_term parse_name_value filter_term
    health_term any_of all_of split traverse cut has_prefix equal_fold to_lower trim_space trim_left
    trim_right
private_english = refl

no_such_name : parse_indexer_filter (codes "status:healthy,name:x") ≡ none
unfolding parse_indexer_filter parse_group parse_filter_term parse_name_value filter_term
    health_term any_of all_of split traverse cut has_prefix equal_fold to_lower trim_space trim_left
    trim_right
no_such_name = refl

comma_is_or_example :
    parse_indexer_filter (codes "status:healthy,type:private")
    ≡ both either
        (parse_indexer_filter (codes "status:healthy"))
        (parse_indexer_filter (codes "type:private"))
comma_is_or_example = comma_is_or (codes "status:healthy") (codes "type:private")

plus_is_and_example :
    parse_indexer_filter (codes "status:healthy+type:private")
    ≡ both together
        (parse_indexer_filter (codes "status:healthy"))
        (parse_indexer_filter (codes "type:private"))
plus_is_and_example = plus_is_and (codes "status:healthy") (codes "type:private") refl refl

plain : starts_with_not (trim_space (codes " type:private")) ≡ false
unfolding trim_space trim_left trim_right
plain = refl

bang_is_not_example :
    parse_indexer_filter (codes "! type:private")
    ≡ Option.map complement (parse_indexer_filter (codes " type:private"))
bang_is_not_example = bang_is_not (codes " type:private") plain refl refl

abbrev planned : Scraper ℕ
planned = (plan_scrape new_scraper 0 (codes "site") (codes "q")).0

abbrev planned_state : ScrapeState
planned_state = state_of (planned.scrape_state (codes "site"))

abbrev broken : Scraper ℕ
broken =
    elim (finish_scrape planned 0 (codes "site") (codes "q") 0 []
      (some (failed (codes "timeout")))) [ none ↦ planned | some s ↦ s ]

has_state : planned.scrape_state (codes "site") ≡ some planned_state
unfolding plan_scrape new_scraper insert prune_recent
has_state = refl

finished :
    finish_scrape planned 0 (codes "site") (codes "q") 0 [] (some (failed (codes "timeout")))
    ≡ some broken
unfolding plan_scrape new_scraper finish_scrape insert prune_recent set_flight
finished = refl

health_follows_example :
    (covers broken failing site ≡ true)
    × (covers broken healthy site ≡ false)
    × (covers broken unknown site ≡ false)
unfolding is_queue_wait
health_follows_example =
    health_follows planned broken planned_state 0 (codes "q") 0 [] (some (failed (codes "timeout")))
      site has_state finished
