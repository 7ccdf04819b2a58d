-- ===== src/Indexer.antt =====
-- pkg/torznab/aggregate.go: the set of definitions that one request is answered from, what it offers
-- and which of its trackers a search goes to. A Go map of names is a list with each name once.
mod Offers
pub mod Scraping
mod Failure
mod Tests
use jacklet.Prelude.{
  ℕ, zero, suc, ◌+◌, ◌-◌, ◌*◌, ◌/◌, ◌%◌, ◌^◌, ◌≤◌, ◌<◌, min, max, ◌≡◌, refl, sym, ap, ap₂, ◌∙◌,
  subst, fun_ext, ◌≡⟨◌⟩◌, ◌∎, ◌≢◌, ◌↔◌, ◌⊎◌, inl, inr, Bool, true, false, not, ◌&&◌, ◌||◌, Option,
  none, some, List, [], ◌∷◌, ◌++◌, map, append_assoc, append-nil, arith, ltb, leb, nat_eq,
  if◌then◌else◌, ltb→lt, lt→ltb, leb→le, le→leb, nat_eq_iff, tests, Bool-cases, Option-cases, Eq,
  ◌==◌, ℕ-Eq, beq_refl, beq_eq, beq_ne, ne_beq, length, get_elem?, take, drop, All, Any, select,
  length-append, take_append, drop_append, take-append-drop, length-take, length-drop, All-append,
  All-map, contains, contains-append, Bytes, codes, bytes_eq, bytes_eq_iff, Bytes-Eq,
}
use jacklet.Prelude.Int.{ℤ, pos, negsuc, int_eq, int_eq_iff, ℤ-Eq}
use jacklet.Prelude.Map.{
  Map, empty, insert, delete, insert_self, insert_ne, delete_self, delete_ne, delete_if,
}
use jacklet.Prelude.Decimal.{
  is_digit, is_all_digits, value_from, value, parse_digits, negate, parse_int, atoi, emit, itoa,
}
use jacklet.Prelude.Sorting.{
  bytes_le, insert_by, sort_by, le_total, le_antisym, le_trans, Above, IsSorted, Above-le,
  insert_by-Above, insert_by-IsSorted, sort_by-IsSorted, insert_by_head, sort_by_sorted, itself,
  contains-insert_by, contains-sort_by,
}
use jacklet.Tracker.{
  CategoryMapping, Modes, Caps, Tracker, tracker_id, default_search_modes, declared_params,
  modes_or_default, search_modes, default_ids, default_category_ids,
}
use jacklet.Categories.Listed.{
  CategoryInfo, Names, put_name, noted_name, standard_names, insert_id, sorted_ids, info_of,
  supported_categories, add_id, add_custom, add_mapped, mapped_into, mapped_unless_empty,
  mapped_categories, map_categories, map_category_descs, custom_of, is_new, seen_with, listed,
  customs, name_le, insert_named, sort_named, custom_categories,
}
use jacklet.Query.{
  SearchParams, positive, season_text, season_of, has_season, pad_number, episode_text,
  episode_search_string, with_terms, keywords_text, keywords, key_fields, key_categories, cache_key,
  result_key, air_date,
}

pub record Indexer : Type 0 where
  pub defs : List Tracker
  pub description : Bytes
  pub id : Bytes
  pub is_meta : Bool
  pub is_unconfigured : Bool
  pub language : Bytes
  pub name : Bytes

abbrev pub aggregate_id : Bytes
aggregate_id = codes "all"

abbrev pub is_empty : List Tracker → Bool
is_empty [] = true
is_empty (def ∷ defs) = false

unfoldable pub single_indexer : Tracker → Indexer
single_indexer def = record {
  defs = def ∷ [];
  description = def.description;
  id = tracker_id def;
  is_meta = false;
  is_unconfigured = false;
  language = def.language;
  name = def.name;
}

unfoldable pub aggregate_indexer : List Tracker → Indexer
unfolding itoa
aggregate_indexer defs = record {
  defs = defs;
  description =
      codes "Every indexer Jacklet has a definition for (" ++ (itoa (length defs) ++ codes ")");
  id = aggregate_id;
  is_meta = true;
  is_unconfigured = is_empty defs;
  language = [];
  name = codes "All indexers";
}

unfoldable pub ids : Indexer → List Bytes
ids idx = map tracker_id idx.defs

-- A loop that fills a map from the definitions, a later one in place of an earlier one.
unfoldable pub filled : (Tracker → Bytes) → List Tracker → Map Bytes Bytes → Map Bytes Bytes
unfolding insert
filled field [] m = m
filled field (def ∷ defs) m = filled field defs (insert (tracker_id def) (field def) m)

unfoldable pub names : Indexer → Map Bytes Bytes
unfolding filled
names idx = filled (λ def. def.name) idx.defs empty

unfoldable pub types : Indexer → Map Bytes Bytes
unfolding filled
types idx = filled (λ def. def.tracker_type) idx.defs empty

-- `for _, c := range SupportedCategories(def) { names[c.ID] = c.Name }`
unfoldable pub put_names : Names → Names → Names
unfolding put_name
put_names [] all = all
put_names (e ∷ es) all = put_names es (put_name e.0 e.1 all)

unfoldable pub union_names : List Tracker → Names → Names
unfolding put_names standard_names sorted_ids
union_names [] all = all
union_names (def ∷ defs) all =
    union_names defs (put_names (sorted_ids (standard_names def.caps.category_mappings [])) all)

unfoldable pub category_names : Indexer → Names
unfolding union_names
category_names idx = union_names idx.defs []

abbrev pub union_categories : List Tracker → List CategoryInfo
unfolding union_names sorted_ids
union_categories defs = map info_of (sorted_ids (union_names defs []))

unfoldable pub categories_of : (Bytes → Bytes) → Bool → List Tracker → List CategoryInfo
unfolding union_categories supported_categories custom_categories
categories_of sha1 false (def ∷ []) = supported_categories def ++ custom_categories sha1 def
categories_of sha1 false [] = union_categories []
categories_of sha1 false (def ∷ e ∷ defs) = union_categories (def ∷ e ∷ defs)
categories_of sha1 true defs = union_categories defs

unfoldable pub categories : (Bytes → Bytes) → Indexer → List CategoryInfo
unfolding categories_of
categories sha1 idx = categories_of sha1 idx.is_meta idx.defs

abbrev pub any_def : (Tracker → Bool) → List Tracker → Bool
any_def p [] = false
any_def p (def ∷ defs) = p def || any_def p defs

unfoldable pub allows_raw_search : Indexer → Bool
allows_raw_search idx = any_def (λ def. def.caps.allow_raw_search) idx.defs

unfoldable pub mode_params : Modes → Bytes → Option (List Bytes)
mode_params [] mode = none
mode_params ((m, params) ∷ modes) mode =
    let rest = mode_params modes mode in if m == mode then some params else rest

unfoldable pub takes : Modes → Bytes → Bytes → Bool
unfolding mode_params
takes modes mode param = elim (mode_params modes mode) [
  | none ↦ false
  | some params ↦ contains params param
]

unfoldable pub has_mode : Modes → Bytes → Bool
unfolding mode_params
has_mode modes mode = elim (mode_params modes mode) [ none ↦ false | some params ↦ true ]

unfoldable pub handles_type : Modes → Bytes → Bool
unfolding has_mode
handles_type modes search_type =
    if search_type == codes "tvsearch"
    then has_mode modes (codes "tv-search")
    else if search_type == codes "movie"
    then has_mode modes (codes "movie-search")
    else if search_type == codes "music"
    then has_mode modes (codes "music-search") || has_mode modes (codes "audio-search")
    else if search_type == codes "book"
    then has_mode modes (codes "book-search")
    else true

unfoldable pub handles : Tracker → SearchParams → Bool
unfolding search_modes takes handles_type
handles def params =
    let modes = search_modes def in
    if not (params.imdb_id == [])
    then takes modes (codes "movie-search") (codes "imdbid")
      || (params.search_type == codes "tvsearch" && def.caps.allow_tv_search_imdb)
    else if (not (params.tv_rage_id == []) && takes modes (codes "tv-search") (codes "rid"))
        || (not (params.tvdb_id == []) && takes modes (codes "tv-search") (codes "tvdbid"))
    then true
    else handles_type modes params.search_type

unfoldable pub handling : Indexer → SearchParams → Indexer
unfolding handles
handling idx params = record idx { defs = select (λ def. handles def params) idx.defs }

-- `restrictedTo` of pkg/torznab/results.go
unfoldable pub restricted_to : Indexer → List Bytes → Indexer
restricted_to idx wanted = record idx {
  defs = select (λ def. contains wanted (tracker_id def)) idx.defs;
}

-- `if !slices.Contains(merged[mode], param) { merged[mode] = append(merged[mode], param) }`
unfoldable pub put_param : Bytes → Bytes → Modes → Modes
put_param mode param [] = (mode, param ∷ []) ∷ []
put_param mode param ((m, params) ∷ modes) =
    let rest = put_param mode param modes in
    if m == mode
    then (m, if contains params param then params else params ++ param ∷ []) ∷ modes
    else (m, params) ∷ rest

unfoldable pub put_params : Bytes → List Bytes → Modes → Modes
unfolding put_param
put_params mode [] merged = merged
put_params mode (param ∷ params) merged = put_params mode params (put_param mode param merged)

unfoldable pub put_modes : Modes → Modes → Modes
unfolding put_params
put_modes [] merged = merged
put_modes ((mode, params) ∷ modes) merged = put_modes modes (put_params mode params merged)

unfoldable pub merge_modes : List Tracker → Modes → Modes
unfolding put_modes search_modes
merge_modes [] merged = merged
merge_modes (def ∷ defs) merged = merge_modes defs (put_modes (search_modes def) merged)

unfoldable pub sorted_params : Modes → Modes
unfolding sort_by
sorted_params merged = map (λ m. (m.0, sort_by itself m.1)) merged

unfoldable pub modes_of : List Tracker → Modes
unfolding search_modes merge_modes sorted_params
modes_of [] = sorted_params (merge_modes [] [])
modes_of (def ∷ []) = search_modes def
modes_of (def ∷ e ∷ defs) = sorted_params (merge_modes (def ∷ e ∷ defs) [])

unfoldable pub indexer_modes : Indexer → Modes
unfolding modes_of
indexer_modes idx = modes_of idx.defs
