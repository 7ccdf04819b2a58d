-- ===== src/IndexerFilter.antt =====
-- pkg/torznab/indexerfilter.go: the expressions that stand for a set of indexers in a request's
-- path. Text is ASCII, and every error of the parser is the one value `errUnsupportedFilter`.
mod Operators
mod Health
mod Negation
mod Tests
use mathlib.Core.Option
use jacklet.Prelude.{
  ℕ, zero, suc, ◌+◌, ◌-◌, ◌*◌, ◌/◌, ◌%◌, ◌^◌, ◌≤◌, ◌<◌, min, max, ◌≡◌, refl, sym, ap, ap₂, ◌∙◌,
  subst, fun_ext, ◌≡⟨◌⟩◌, ◌∎, ◌≢◌, ◌↔◌, ◌⊎◌, inl, inr, Bool, true, false, not, ◌&&◌, ◌||◌, Option,
  none, some, List, [], ◌∷◌, ◌++◌, map, append_assoc, append-nil, arith, ltb, leb, nat_eq,
  if◌then◌else◌, ltb→lt, lt→ltb, leb→le, le→leb, nat_eq_iff, tests, Bool-cases, Option-cases, Eq,
  ◌==◌, ℕ-Eq, beq_refl, beq_eq, beq_ne, ne_beq, length, get_elem?, take, drop, All, Any, select,
  length-append, take_append, drop_append, take-append-drop, length-take, length-drop, All-append,
  All-map, contains, Bytes, codes, bytes_eq, bytes_eq_iff, Bytes-Eq, contains-append,
}
use jacklet.Prelude.Options.{both, traverse, traverse-append, traverse-map}
use jacklet.Prelude.Split.{
  extend, split, join, split-nonempty, split-append, split-single, split-join,
}
use jacklet.Prelude.Ascii.{
  is_space, trim_left, trim_right, trim_space, lower, to_lower, equal_fold, has_prefix, cut,
  trim_left-space, before,
}
use jacklet.Prelude.Decimal.{
  is_digit, is_all_digits, value_from, value, parse_digits, negate, parse_int, atoi, emit, itoa,
}
use jacklet.Indexer.{
  Indexer, is_empty, aggregate_id, single_indexer, aggregate_indexer, ids, filled, names, types,
  put_names, union_names, category_names, union_categories, categories_of, categories, any_def,
  allows_raw_search, mode_params, takes, has_mode, handles_type, handles, handling, restricted_to,
  put_param, put_params, put_modes, merge_modes, sorted_params, modes_of, indexer_modes,
}
use jacklet.Tracker.{
  CategoryMapping, Modes, Caps, Tracker, tracker_id, default_search_modes, declared_params,
  search_modes, default_ids, default_category_ids, modes_or_default,
}
use jacklet.Scrape.{
  second, min_scrape_interval, min_scrape_spacing, max_scrape_wait, max_scrape_backoff, ScrapeError,
  flare_solverr_queue, request_queue, throttled, canceled, failed, wrapped, is_queue_wait,
  tracker_error, ScrapeState, ScrapeFlight, ScrapePlan, Scraper, new_state, state_of, new_flight,
  skip_plan, set_flight, is_stale, prune_recent, is_recent, start_of, reserve, plan_new, follow,
  plan_scrape, backoff_after, release, settle, publish, finish_scrape, outcome, new_scraper,
  IndexerStatus, status, backed_off,
}

abbrev pub IndexerFilter : Type 0
IndexerFilter = Tracker → IndexerStatus → Bool

abbrev pub filter_and : ℕ
filter_and = b'+'

abbrev pub filter_not : ℕ
filter_not = b'!'

abbrev pub filter_or : ℕ
filter_or = b','

unfoldable pub is_indexer_filter : Bytes → Bool
is_indexer_filter id = contains id b':'

unfoldable pub health_term : Bytes → Bytes → Option IndexerFilter
health_term name value =
    if (name == codes "status" && value == codes "healthy")
      || (name == codes "test" && value == codes "passed")
    then some (λ def st. st.failures == 0)
    else if (name == codes "status" && value == codes "failing")
        || (name == codes "test" && value == codes "failed")
    then some (λ def st. ltb 0 st.failures)
    else if name == codes "status" && value == codes "unknown"
    then some (λ def st. not st.scraped)
    else none

unfoldable pub filter_term : Bytes → Bytes → Option IndexerFilter
unfolding health_term has_prefix to_lower equal_fold
filter_term name value =
    if name == codes "lang"
    then some (λ def st. has_prefix (to_lower def.language) value)
    else if name == codes "status" || name == codes "test"
    then health_term name value
    else if name == codes "tag"
    then some (λ def st. false)
    else if name == codes "type"
    then some (λ def st. equal_fold def.tracker_type value)
    else none

abbrev pub complement : IndexerFilter → IndexerFilter
complement match def st = not (match def st)

-- The term without its negation: `name:value`.
unfoldable pub parse_name_value : Bytes → Option IndexerFilter
unfolding filter_term cut trim_space to_lower
parse_name_value term = elim (cut b':' term) [
  | none ↦ none
  | some r ↦ filter_term (to_lower (trim_space r.0)) (to_lower (trim_space r.1))
]

abbrev pub parse_trimmed : Bytes → Option IndexerFilter
parse_trimmed [] = parse_name_value []
parse_trimmed (b ∷ term) =
    if b == filter_not
    then Option.map complement (parse_name_value (trim_space term))
    else parse_name_value (b ∷ term)

unfoldable pub parse_filter_term : Bytes → Option IndexerFilter
unfolding parse_name_value trim_space
parse_filter_term term = parse_trimmed (trim_space term)

unfoldable pub all_of : List IndexerFilter → IndexerFilter
all_of [] def st = true
all_of (term ∷ terms) def st = if not (term def st) then false else all_of terms def st

unfoldable pub any_of : List IndexerFilter → IndexerFilter
any_of [] def st = false
any_of (group ∷ groups) def st = if group def st then true else any_of groups def st

unfoldable pub parse_group : Bytes → Option IndexerFilter
unfolding parse_filter_term all_of split traverse
parse_group group = Option.map all_of (traverse parse_filter_term (split filter_and group))

unfoldable pub parse_indexer_filter : Bytes → Option IndexerFilter
unfolding parse_group any_of split traverse
parse_indexer_filter expression =
    Option.map any_of (traverse parse_group (split filter_or expression))

-- The definitions that a filter covers. `quoted` writes a text as `%q` does.
unfoldable pub filter_indexer :
    {T : Type 0} → (Bytes → Bytes) → Scraper T → List Tracker → Bytes → IndexerFilter → Indexer
unfolding status itoa
filter_indexer quoted scrpr defs expression match =
    let covered = select (λ def. match def (status scrpr (tracker_id def))) defs in
    record {
      defs = covered;
      description =
          codes "Every indexer matching "
          ++ (quoted expression ++ (codes " (" ++ (itoa (length covered) ++ codes ")")));
      id = expression;
      is_meta = true;
      is_unconfigured = is_empty defs;
      language = [];
      name = codes "Filtered indexers";
    }
