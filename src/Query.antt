-- ===== src/Query.antt =====
-- pkg/scraper/scraper.go: the parameters of a search, the text that a tracker is sent, and the key
-- that names a search. Text is ASCII where it is trimmed.
mod AirDate
mod Render
mod Key
mod Dedup
mod Tests
pub use AirDate.*
use jacklet.Prelude.{
  ℕ, zero, suc, ◌+◌, ◌-◌, ◌*◌, ◌/◌, ◌%◌, ◌^◌, ◌≤◌, ◌<◌, min, max, ◌≡◌, refl, sym, ap, ap₂, ◌∙◌,
  subst, fun_ext, ◌≡⟨◌⟩◌, ◌∎, ◌≢◌, ◌↔◌, ◌⊎◌, inl, inr, Bool, true, false, not, ◌&&◌, ◌||◌, Option,
  none, some, List, [], ◌∷◌, ◌++◌, map, append_assoc, append-nil, arith, ltb, leb, nat_eq,
  if◌then◌else◌, ltb→lt, lt→ltb, leb→le, le→leb, nat_eq_iff, tests, Bool-cases, Option-cases, Eq,
  ◌==◌, ℕ-Eq, beq_refl, beq_eq, beq_ne, ne_beq, length, get_elem?, take, drop, All, Any, select,
  length-append, take_append, drop_append, take-append-drop, length-take, length-drop, All-append,
  All-map, contains, Bytes, codes, bytes_eq, bytes_eq_iff, Bytes-Eq,
}
use jacklet.Prelude.Int.{ℤ, pos, negsuc}
use jacklet.Prelude.Decimal.{
  is_digit, is_all_digits, value_from, value, parse_digits, parse_int, atoi, emit, itoa,
}
use jacklet.Prelude.Ascii.{
  is_space, trim_left, before, trim_right, trim_space, lower, to_lower, equal_fold, has_prefix, cut,
  trim_left-space,
}
use jacklet.Prelude.Split.{
  extend, split, join, split-nonempty, split-append, split-single, split-join,
}
use jacklet.Prelude.Sorting.{
  bytes_le, insert_by, sort_by, le_total, le_antisym, le_trans, Above, IsSorted, Above-le,
  insert_by-Above, insert_by-IsSorted, sort_by-IsSorted, insert_by_head, sort_by_sorted, itself,
  contains-insert_by, contains-sort_by,
}

pub record SearchParams : Type 0 where
  pub album : Bytes
  pub artist : Bytes
  pub author : Bytes
  pub categories : List Bytes
  pub douban_id : Bytes
  pub ep : Bytes
  pub extended : Bytes
  pub genre : Bytes
  pub imdb_id : Bytes
  pub label : Bytes
  pub limit : ℤ
  pub offset : ℤ
  pub publisher : Bytes
  pub query : Bytes
  pub season : Bytes
  pub tmdb_id : Bytes
  pub tvdb_id : Bytes
  pub tv_maze_id : Bytes
  pub tv_rage_id : Bytes
  pub title : Bytes
  pub track : Bytes
  pub trakt_id : Bytes
  pub search_type : Bytes
  pub year : Bytes

-- A number that is positive as text; anything else as nothing.
abbrev pub positive : ℤ → Bytes
positive (pos zero) = []
positive (pos (suc n)) = itoa (suc n)
positive (negsuc n) = []

abbrev pub season_text : Option ℤ → Bytes → Bytes
season_text none written = written
season_text (some number) written = positive number

-- `SearchParams.season`
unfoldable pub season_of : SearchParams → Bytes
unfolding atoi itoa
season_of p = season_text (atoi p.season) p.season

unfoldable pub has_season : SearchParams → Bool
unfolding season_of
has_season p = not (season_of p == [])

abbrev pad_two : ℕ → Bytes
pad_two n = (b'0' + n / 10) ∷ (b'0' + n % 10) ∷ []

abbrev pad : Option ℤ → Bytes → Bytes
pad (some (pos n)) s = if leb n 99 then pad_two n else s
pad (some (negsuc n)) s = s
pad none s = s

unfoldable pub pad_number : Bytes → Bytes
unfolding atoi
pad_number s = pad (atoi s) s

-- `EpisodeSearchString`, of the season as it is rendered and the episode.
unfoldable pub episode_text : Bytes → Bytes → Bytes
unfolding air_date pad_number
episode_text season ep = if season == [] then [] else elim (air_date (season ++ b' ' ∷ ep)) [
  | some aired ↦ aired
  | none ↦
      if ep == []
      then b'S' ∷ pad_number season
      else b'S' ∷ (pad_number season ++ b'E' ∷ pad_number ep)
]

unfoldable pub episode_search_string : SearchParams → Bytes
unfolding season_of episode_text
episode_search_string p = episode_text (season_of p) p.ep

-- The loop over the terms of a music or a book search.
unfoldable pub with_terms : Bytes → List Bytes → Bytes
unfolding trim_space
with_terms keywords [] = keywords
with_terms keywords (term ∷ terms) =
    with_terms (if term == [] then keywords else trim_space (keywords ++ b' ' ∷ term)) terms

unfoldable pub keywords_text : SearchParams → Bytes → Bytes
unfolding with_terms trim_space episode_text
keywords_text p season =
    let words = with_terms p.query (p.artist ∷ p.album ∷ p.track ∷ p.author ∷ p.title ∷ []) in
    trim_space (words ++ b' ' ∷ episode_text season p.ep)

unfoldable pub keywords : SearchParams → Bytes
unfolding keywords_text season_of
keywords p = keywords_text p (season_of p)

-- The texts that `cacheKey` joins, but the categories.
abbrev pub key_fields : SearchParams → List Bytes
key_fields p =
    p.album
    ∷ p.artist
    ∷ p.author
    ∷ p.douban_id
    ∷ p.ep
    ∷ p.extended
    ∷ p.genre
    ∷ p.imdb_id
    ∷ p.label
    ∷ p.publisher
    ∷ p.query
    ∷ season_of p
    ∷ p.title
    ∷ p.tmdb_id
    ∷ p.track
    ∷ p.trakt_id
    ∷ p.tvdb_id
    ∷ p.tv_maze_id
    ∷ p.tv_rage_id
    ∷ p.search_type
    ∷ p.year
    ∷ []

abbrev pub key_categories : SearchParams → Bytes
key_categories p = join b',' (sort_by (λ c. c) p.categories)

unfoldable pub cache_key : SearchParams → Bytes
unfolding join sort_by season_of
cache_key p = join 0 (key_fields p ++ key_categories p ∷ [])

unfoldable pub result_key : SearchParams → Bytes
unfolding cache_key
result_key p = cache_key p
