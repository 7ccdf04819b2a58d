-- ===== src/Indexer/Tests.antt =====
-- Two definitions, and searches of both.
use jacklet.Prelude.{
  ℕ, ◌≡◌, refl, ◌≢◌, ◌↔◌, true, false, none, some, [], ◌∷◌, map, if◌then◌else◌, ◌==◌, ℕ-Eq, All,
  Any, codes, Bytes-Eq,
}
use jacklet.Prelude.Sorting.{sort_by}
use jacklet.Tracker.{Tracker, search_modes}
use jacklet.Scrape.{throttled, failed, wrapped}
use jacklet.Indexer.{Indexer, aggregate_indexer, ids, mode_params, indexer_modes}
use jacklet.Indexer.Offers.{Offers, modes_iff}
use jacklet.Indexer.Scraping.{
  panics, ends, panicked, errored, every_failed, ScrapeOutcome, IndexerError, scrape, Search,
}
use jacklet.Indexer.Failure.{HasError, scrape_fails_iff}

abbrev books : Tracker
books = record {
  caps = record {
    allow_raw_search = false;
    allow_tv_search_imdb = false;
    category_mappings =
        record { cat = codes "Books/EBook"; is_default = false; desc = []; id = codes "7" } ∷ [];
    modes = (codes "book-search", codes "author" ∷ []) ∷ (codes "search", []) ∷ [];
  };
  description = [];
  id = codes "books";
  language = [];
  name = codes "Books";
  replaces = [];
  tracker_type = codes "public";
}

abbrev films : Tracker
films = record {
  caps = record {
    allow_raw_search = true;
    allow_tv_search_imdb = false;
    category_mappings = [];
    modes = [];
  };
  description = [];
  id = codes "films";
  language = [];
  name = codes "Films";
  replaces = [];
  tracker_type = codes "private";
}

abbrev both_indexers : Indexer
unfolding aggregate_indexer
both_indexers = aggregate_indexer (books ∷ films ∷ [])

search_params : mode_params (indexer_modes both_indexers) (codes "search") ≡ some (codes "q" ∷ [])
unfolding indexer_modes aggregate_indexer mode_params sort_by search_modes
search_params = refl

-- The first tracker's search fails, the other's is throttled.
unfoldable half : Tracker → Search × ℕ
half def =
    if def.id == codes "books"
    then (ends (some (failed (codes "down"))), 5)
    else (ends (some throttled), 7)

half_answers : (scrape half both_indexers).1 ≡ none
unfolding scrape half aggregate_indexer
half_answers = refl

-- The search of the first panics, the other's fails.
unfoldable down : Tracker → Search × ℕ
down def =
    if def.id == codes "books"
    then (panics (codes "nil map"), 5)
    else (ends (some (wrapped (codes "films") (failed (codes "down")))), 7)

down_fails :
    (scrape down both_indexers).1
    ≡ some (
        every_failed (
          (codes "books", panicked (codes "nil map"))
          ∷ (codes "films", errored (wrapped (codes "films") (failed (codes "down"))))
          ∷ []))
unfolding scrape down aggregate_indexer
down_fails = refl

modes_iff_example :
    Offers (codes "book-search") (codes "author") (indexer_modes both_indexers)
    ↔ Any
        (λ def. Offers (codes "book-search") (codes "author") (search_modes def))
        both_indexers.defs
modes_iff_example = modes_iff both_indexers (codes "book-search") (codes "author")

scrape_fails_iff_example :
    (map (λ (o : ScrapeOutcome). o.tracker_id) (scrape half both_indexers).0 ≡ ids both_indexers)
    × (((e : IndexerError) × ((scrape half both_indexers).1 ≡ some e))
        ↔ ((both_indexers.defs ≢ []) × All (λ def. HasError (half def).0) both_indexers.defs))
scrape_fails_iff_example = scrape_fails_iff half both_indexers
