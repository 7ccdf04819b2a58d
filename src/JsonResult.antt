-- ===== src/JsonResult.antt =====
-- pkg/torznab/results.go: a stored row and an indexer's part in a search, in the shape of Jackett's
-- JSON results. Floating-point numbers are an argument, with the few operations that are used.
mod Tests
use jacklet.Prelude.{
  ℕ, zero, suc, ◌+◌, ◌-◌, ◌*◌, ◌/◌, ◌%◌, ◌^◌, ◌≤◌, ◌<◌, min, max, ◌≡◌, refl, sym, ap, ap₂, ◌∙◌,
  subst, fun_ext, ◌≡⟨◌⟩◌, ◌∎, ◌≢◌, ◌↔◌, ◌⊎◌, inl, inr, Bool, true, false, not, ◌&&◌, ◌||◌, Option,
  none, some, List, [], ◌∷◌, ◌++◌, map, append_assoc, append-nil, arith, ltb, leb, nat_eq,
  if◌then◌else◌, ltb→lt, lt→ltb, leb→le, le→leb, nat_eq_iff, tests, Bool-cases, and_parts, negated,
  Option-cases, Eq, ◌==◌, ℕ-Eq, beq_refl, beq_eq, beq_ne, ne_beq, length, get_elem?, take, drop,
  All, Any, select, length-append, take_append, drop_append, take-append-drop, length-take,
  length-drop, All-append, All-map, contains, contains-append, Bytes, codes, bytes_eq, bytes_eq_iff,
  Bytes-Eq,
}
use jacklet.Prelude.Int.{ℤ, pos, negsuc, int_eq, int_eq_iff, ℤ-Eq}
use jacklet.Prelude.Map.{
  Map, empty, insert, delete, insert_self, insert_ne, delete_self, delete_ne, delete_if,
}
use jacklet.Prelude.Ascii.{
  is_space, trim_left, before, trim_right, trim_space, lower, to_lower, equal_fold, has_prefix, cut,
  trim_left-space,
}
use jacklet.Prelude.Split.{
  extend, split, join, split-nonempty, split-append, split-single, split-join,
}
use jacklet.Prelude.Decimal.{
  is_digit, is_all_digits, value_from, value, parse_digits, negate, parse_int, atoi, emit, itoa,
}
use jacklet.Categories.Listed.{
  CategoryInfo, Names, put_name, noted_name, standard_names, insert_id, sorted_ids, info_of,
  supported_categories, add_id, add_custom, add_mapped, mapped_into, mapped_unless_empty,
  mapped_categories, map_categories, map_category_descs, custom_of, is_new, seen_with, listed,
  customs, name_le, insert_named, sort_named, custom_categories,
}
use jacklet.Item.{
  guid, Torrent, Attribute, attribute, bits, of_bits, add_int, is_positive_int, imdb_width, zeros,
  imdb_number, prefixed, imdb_text, first_of, present, item_categories, summary,
  category_attributes, optional_attributes, when, counted, numbered, attributes,
}
use jacklet.Indexer.{
  Indexer, aggregate_id, is_empty, single_indexer, aggregate_indexer, ids, filled, names, types,
  put_names, union_names, category_names, union_categories, categories_of, categories, any_def,
  allows_raw_search, mode_params, takes, has_mode, handles_type, handles, handling, restricted_to,
  put_param, put_params, put_modes, merge_modes, sorted_params, modes_of, indexer_modes,
}
use jacklet.Indexer.Scraping.{
  Search, panics, ends, SearchError, panicked, errored, ScrapeOutcome, is_throttled,
  unless_throttled, scrape_guarded, scrape_one, NamedError, failure, failures, IndexerError,
  one_failed, every_failed, error_of, error_of_one, outcome_error, scrape,
}

pub record JackettResult (F : Type 0) : Type 0 where
  pub album : Bytes
  pub artist : Bytes
  pub author : Bytes
  pub book_title : Bytes
  pub category : List ℤ
  pub category_desc : Bytes
  pub comments : Bytes
  pub description : Bytes
  pub details : Bytes
  pub douban_id : Option ℤ
  pub download_volume_factor : F
  pub files : Option ℤ
  pub guid : Bytes
  pub gain : Option F
  pub genres : List Bytes
  pub grabs : Option ℤ
  pub imdb : Option ℤ
  pub info_hash : Bytes
  pub label : Bytes
  pub languages : List Bytes
  pub link : Bytes
  pub magnet_uri : Bytes
  pub minimum_ratio : Option F
  pub minimum_seed_time : Option ℤ
  pub peers : ℤ
  pub poster : Bytes
  pub publish_date : Bytes
  pub publisher : Bytes
  pub rage_id : Option ℤ
  pub seeders : ℤ
  pub size : Option ℤ
  pub subs : List Bytes
  pub tmdb_id : Option ℤ
  pub tvdb_id : Option ℤ
  pub tv_maze_id : Option ℤ
  pub title : Bytes
  pub track : Bytes
  pub tracker : Bytes
  pub tracker_id : Bytes
  pub tracker_type : Bytes
  pub trakt_id : Option ℤ
  pub upload_volume_factor : F
  pub year : Option ℤ

pub record SearchIndexer : Type 0 where
  pub elapsed_time : ℕ
  pub error : Bytes
  pub id : Bytes
  pub name : Bytes
  pub results : ℕ
  pub status : ℕ

abbrev pub indexer_status_error : ℕ
indexer_status_error = 1

abbrev pub indexer_status_ok : ℕ
indexer_status_ok = 2

abbrev pub indexer_search_failed : Bytes
indexer_search_failed = codes "the tracker could not be searched"

-- `types[owner]`, with Go's empty text for a missing key.
unfoldable pub text_at : Map Bytes Bytes → Bytes → Bytes
text_at m k = elim (m k) [ none ↦ [] | some text ↦ text ]

unfoldable pub tracker_name : Map Bytes Bytes → Bytes → Bytes
tracker_name names id = elim (names id) [ none ↦ id | some name ↦ name ]

unfoldable pub row_indexer_id : {F : Type 0} → Torrent F → Bytes → Bytes
row_indexer_id row requested = first_of row.tracker requested

-- How many of the rows came from an indexer.
unfoldable pub count_of : {F : Type 0} → Bytes → List (Torrent F) → Bytes → ℕ
unfolding row_indexer_id
count_of requested [] id = 0
count_of requested (row ∷ rows) id =
    let rest = count_of requested rows id in
    if row_indexer_id row requested == id then suc rest else rest

abbrev pub error_text : Option SearchError → Bytes
error_text none = []
error_text (some e) = indexer_search_failed

abbrev pub status_of : Option SearchError → ℕ
status_of none = indexer_status_ok
status_of (some e) = indexer_status_error

-- `Elapsed` counts nanoseconds.
unfoldable pub search_indexer : Map Bytes Bytes → (Bytes → ℕ) → ScrapeOutcome → SearchIndexer
unfolding tracker_name
search_indexer names counts outcome = record {
  elapsed_time = outcome.elapsed / 1_000_000;
  error = error_text outcome.err;
  id = outcome.tracker_id;
  name = tracker_name names outcome.tracker_id;
  results = counts outcome.tracker_id;
  status = status_of outcome.err;
}

unfoldable pub search_indexers : Indexer → List ScrapeOutcome → (Bytes → ℕ) → List SearchIndexer
unfolding names search_indexer
search_indexers idx outcomes counts = map (search_indexer (names idx) counts) outcomes

unfoldable pub optional : ℤ → Option ℤ
optional n = if n == pos 0 then none else some n

unfoldable pub external_id : Bytes → Option ℤ
unfolding parse_int
external_id digits = parse_int 64 digits

abbrev pub name_at : Names → ℤ → Bytes
name_at [] id = []
name_at (e ∷ all) id = if id == pos e.0 then e.1 else name_at all id

unfoldable pub described : List ℤ → Names → List Bytes
described [] all = []
described (c ∷ categories) all =
    let rest = described categories all in
    if name_at all c == [] then rest else name_at all c ∷ rest

abbrev pub joined : List Bytes → Bytes
joined [] = []
joined (w ∷ []) = w
joined (w ∷ v ∷ ws) = w ++ (codes ", " ++ joined (v ∷ ws))

unfoldable pub category_desc : List ℤ → Names → Bytes
unfolding described
category_desc categories all = joined (described categories all)

unfoldable pub genres_of : List Bytes → List Bytes
unfolding trim_space
genres_of [] = []
genres_of (g ∷ rest) =
    let more = genres_of rest in if trim_space g == [] then more else trim_space g ∷ more

unfoldable pub result_genres : Bytes → List Bytes
unfolding genres_of split
result_genres genres = genres_of (split b',' genres)

pub record Floats (F : Type 0) : Type 0 where
  pub of_int : ℤ → F
  pub times : F → F → F
  pub over : F → F → F
  pub is_zero : F → Bool

abbrev pub bytes_per_gibibyte : ℤ
bytes_per_gibibyte = pos 1_073_741_824

module _ {F : Type 0} (floats : Floats F) where
  unfoldable pub gain : Torrent F → Option F
  gain row =
      if row.size == pos 0
      then none
      else some (
          floats.over (floats.times (floats.of_int row.seeders) (floats.of_int row.size))
            (floats.of_int bytes_per_gibibyte))

  unfoldable pub optional_float : F → Option F
  optional_float x = if floats.is_zero x then none else some x

  unfoldable pub to_jackett_result :
      Torrent F → Bytes → Map Bytes Bytes → Map Bytes Bytes → Names → Bytes → JackettResult F
  unfolding summary guid external_id optional gain optional_float category_desc result_genres
      tracker_name text_at
  to_jackett_result row owner names types categories link = record {
    album = row.album;
    artist = row.artist;
    author = row.author;
    book_title = row.book_title;
    category = row.categories;
    category_desc = category_desc row.categories categories;
    comments = row.details_url;
    description = summary row;
    details = row.details_url;
    douban_id = external_id row.douban_id;
    download_volume_factor = row.download_volume_factor;
    files = optional row.files;
    guid = guid row;
    gain = gain row;
    genres = result_genres row.genres;
    grabs = optional row.grabs;
    imdb = external_id row.imdb_id;
    info_hash = row.info_hash;
    label = row.label;
    languages = [];
    link = link;
    magnet_uri = row.magnet;
    minimum_ratio = optional_float row.minimum_ratio;
    minimum_seed_time = optional row.minimum_seed_time;
    peers = row.leechers;
    poster = row.poster;
    publish_date = row.published;
    publisher = row.publisher;
    rage_id = external_id row.rage_id;
    seeders = row.seeders;
    size = optional row.size;
    subs = [];
    tmdb_id = external_id row.tmdb_id;
    tvdb_id = external_id row.tvdb_id;
    tv_maze_id = external_id row.tv_maze_id;
    title = row.name;
    track = row.track;
    tracker = tracker_name names owner;
    tracker_id = owner;
    tracker_type = text_at types owner;
    trakt_id = external_id row.trakt_id;
    upload_volume_factor = row.upload_volume_factor;
    year = optional row.year;
  }
