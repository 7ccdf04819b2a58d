-- ===== src/Item.antt =====
-- pkg/torznab/item.go: what a client sees of a stored torrent, with the row itself from
-- pkg/scraper/torrent.go. Floating-point numbers, times and the escaping of URLs are arguments.
pub mod Feed
mod Lookup
mod Beside
mod Attributes
mod Tests
use jacklet.Prelude.{
  ℕ, zero, suc, ◌+◌, ◌-◌, ◌*◌, ◌/◌, ◌%◌, ◌^◌, ◌≤◌, ◌<◌, min, max, ◌≡◌, refl, sym, ap, ap₂, ◌∙◌,
  subst, fun_ext, ◌≡⟨◌⟩◌, ◌∎, ◌≢◌, ◌↔◌, ◌⊎◌, inl, inr, Bool, true, false, not, ◌&&◌, ◌||◌, Option,
  none, some, List, [], ◌∷◌, ◌++◌, map, append_assoc, append-nil, arith, ltb, leb, nat_eq,
  if◌then◌else◌, ltb→lt, lt→ltb, leb→le, le→leb, nat_eq_iff, tests, Bool-cases, Option-cases, Eq,
  ◌==◌, ℕ-Eq, beq_refl, beq_eq, beq_ne, ne_beq, length, get_elem?, take, drop, All, Any, select,
  length-append, take_append, drop_append, take-append-drop, length-take, length-drop, All-append,
  All-map, contains, contains-append, Bytes, codes, bytes_eq, bytes_eq_iff, Bytes-Eq,
}
use jacklet.Prelude.Int.{ℤ, pos, negsuc, int_eq, int_eq_iff, ℤ-Eq}
use jacklet.Prelude.Ascii.{
  is_space, trim_left, before, trim_right, trim_space, lower, to_lower, equal_fold, has_prefix, cut,
  trim_left-space,
}
use jacklet.Prelude.Decimal.{
  is_digit, is_all_digits, value_from, parse_digits, negate, parse_int, atoi, emit, itoa,
}
use jacklet.Categories.{
  int_text, category_group_size, custom_category_base, standard_id, children, expand_number,
  expand_one, add_all, expand_into, expand_category_ids, custom_category_id, is_wanted, site_ids,
  site_category_ids, standard_category_ids,
}

-- `F` is the type of floating-point numbers.
pub record Torrent (F : Type 0) : Type 0 where
  pub album : Bytes
  pub artist : Bytes
  pub author : Bytes
  pub book_title : Bytes
  pub categories : List ℤ
  pub description : Bytes
  pub details_url : Bytes
  pub douban_id : Bytes
  pub download_url : Bytes
  pub download_volume_factor : F
  pub files : ℤ
  pub genres : Bytes
  pub grabs : ℤ
  pub id : ℤ
  pub imdb_id : Bytes
  pub info_hash : Bytes
  pub label : Bytes
  pub leechers : ℤ
  pub magnet : Bytes
  pub minimum_ratio : F
  pub minimum_seed_time : ℤ
  pub name : Bytes
  pub poster : Bytes
  pub published : Bytes
  pub publisher : Bytes
  pub rage_id : Bytes
  pub seeders : ℤ
  pub size : ℤ
  pub tmdb_id : Bytes
  pub tvdb_id : Bytes
  pub tv_maze_id : Bytes
  pub track : Bytes
  pub tracker : Bytes
  pub trakt_id : Bytes
  pub upload_volume_factor : F
  pub year : ℤ

pub record Attribute : Type 0 where
  pub name : Bytes
  pub value : Bytes

abbrev pub attribute : Bytes → Bytes → Attribute
attribute name value = record { name = name; value = value }

-- Addition of 64-bit integers, by the bits that stand for them.
abbrev pub bits : ℤ → ℕ
bits (pos n) = n % 2 ^ 64
bits (negsuc n) = 2 ^ 64 - 1 - n % 2 ^ 64

abbrev pub of_bits : ℕ → ℤ
of_bits b = if ltb b (2 ^ 63) then pos b else negsuc (2 ^ 64 - 1 - b)

unfoldable pub add_int : ℤ → ℤ → ℤ
add_int a b = of_bits ((bits a + bits b) % 2 ^ 64)

abbrev pub is_positive_int : ℤ → Bool
is_positive_int (pos n) = ltb 0 n
is_positive_int (negsuc n) = false

abbrev pub imdb_width : ℕ
imdb_width = 7

unfoldable pub zeros : ℕ → Bytes
zeros zero = []
zeros (suc n) = b'0' ∷ zeros n

unfoldable pub imdb_number : Bytes → Bytes
unfolding zeros
imdb_number [] = []
imdb_number (b ∷ digits) = zeros (imdb_width - length (b ∷ digits)) ++ b ∷ digits

abbrev pub prefixed : Bytes → Bytes
prefixed [] = []
prefixed (b ∷ number) = codes "tt" ++ b ∷ number

unfoldable pub imdb_text : Bytes → Bytes
unfolding imdb_number
imdb_text digits = prefixed (imdb_number digits)

abbrev pub first_of : Bytes → Bytes → Bytes
first_of [] fallback = fallback
first_of (b ∷ text) fallback = b ∷ text

-- The attributes of the loop that have a value.
unfoldable pub present : List Attribute → List Attribute
present [] = []
present (a ∷ attrs) = let rest = present attrs in if a.value == [] then rest else a ∷ rest

unfoldable pub item_categories : List ℤ → List Bytes
unfolding int_text
item_categories categories = map int_text categories

unfoldable pub summary : {F : Type 0} → Torrent F → Bytes
summary row = first_of row.description row.name

unfoldable pub guid : {F : Type 0} → Torrent F → Bytes
guid row = first_of row.details_url row.name

unfoldable pub category_attributes : List ℤ → List Attribute
unfolding int_text
category_attributes [] = []
category_attributes (c ∷ categories) =
    attribute (codes "category") (int_text c) ∷ category_attributes categories

unfoldable pub optional_attributes : {F : Type 0} → Torrent F → List Attribute
unfolding imdb_number imdb_text
optional_attributes row =
    attribute (codes "magneturl") row.magnet
    ∷ attribute (codes "infohash") row.info_hash
    ∷ attribute (codes "imdb") (imdb_number row.imdb_id)
    ∷ attribute (codes "imdbid") (imdb_text row.imdb_id)
    ∷ attribute (codes "tvdbid") row.tvdb_id
    ∷ attribute (codes "tmdbid") row.tmdb_id
    ∷ attribute (codes "tvmazeid") row.tv_maze_id
    ∷ attribute (codes "traktid") row.trakt_id
    ∷ attribute (codes "doubanid") row.douban_id
    ∷ attribute (codes "rageid") row.rage_id
    ∷ attribute (codes "genre") row.genres
    ∷ attribute (codes "coverurl") row.poster
    ∷ attribute (codes "author") row.author
    ∷ attribute (codes "booktitle") row.book_title
    ∷ attribute (codes "publisher") row.publisher
    ∷ attribute (codes "artist") row.artist
    ∷ attribute (codes "album") row.album
    ∷ attribute (codes "label") row.label
    ∷ attribute (codes "track") row.track
    ∷ []

abbrev pub when : Bool → Bytes → Bytes → List Attribute
when b name value = if b then attribute name value ∷ [] else []

module _ {F : Type 0} (format_factor : F → Bytes) (is_positive : F → Bool) where
  unfoldable pub counted : Torrent F → List Attribute
  unfolding int_text add_int
  counted row =
      attribute (codes "seeders") (int_text row.seeders)
      ∷ attribute (codes "leechers") (int_text row.leechers)
      ∷ attribute (codes "peers") (int_text (add_int row.seeders row.leechers))
      ∷ attribute (codes "size") (int_text row.size)
      ∷ attribute (codes "grabs") (int_text row.grabs)
      ∷ attribute (codes "downloadvolumefactor") (format_factor row.download_volume_factor)
      ∷ attribute (codes "uploadvolumefactor") (format_factor row.upload_volume_factor)
      ∷ []

  unfoldable pub numbered : Torrent F → List Attribute
  unfolding int_text
  numbered row =
      when (is_positive_int row.year) (codes "year") (int_text row.year)
      ++ (when (is_positive_int row.files) (codes "files") (int_text row.files)
          ++ (when (is_positive row.minimum_ratio) (codes "minimumratio")
                (format_factor row.minimum_ratio)
              ++ when (is_positive_int row.minimum_seed_time) (codes "minimumseedtime")
                  (int_text row.minimum_seed_time)))

  unfoldable pub attributes : Torrent F → List Attribute
  unfolding category_attributes counted present optional_attributes numbered
  attributes row =
      category_attributes row.categories
      ++ (counted row ++ (present (optional_attributes row) ++ numbered row))
