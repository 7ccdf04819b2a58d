-- ===== src/Item/Tests.antt =====
-- A row, and its attributes. Floating-point numbers are tenths here.
use jacklet.Prelude.{
  ℕ, ◌-◌, ◌/◌, ◌^◌, ◌≡◌, refl, Bool, some, [], ◌∷◌, ltb, ℕ-Eq, All, Bytes, codes, Bytes-Eq,
}
use jacklet.Prelude.Int.{pos, negsuc, ℤ-Eq}
use jacklet.Prelude.Decimal.{itoa}
use jacklet.Item.{Torrent, add_int, attributes}
use jacklet.Item.Feed.{download_link}
use jacklet.Item.Lookup.{value_of}
use jacklet.Item.Attributes.{Padded, texts, Tells, optional_texts_tell}

unfoldable tenths : ℕ → Bytes
unfolding itoa
tenths n = itoa (n / 10)

abbrev above_zero : ℕ → Bool
above_zero n = ltb 0 n

abbrev row : Torrent ℕ
row = record {
  album = [];
  artist = [];
  author = [];
  book_title = [];
  categories = pos 2040 ∷ [];
  description = [];
  details_url = [];
  douban_id = [];
  download_url = codes "https://tracker/1";
  download_volume_factor = 0;
  files = pos 3;
  genres = codes "drama";
  grabs = pos 0;
  id = pos 9;
  imdb_id = codes "12345";
  info_hash = codes "ab";
  label = [];
  leechers = pos 2;
  magnet = [];
  minimum_ratio = 0;
  minimum_seed_time = pos 0;
  name = codes "A film";
  poster = [];
  published = [];
  publisher = [];
  rage_id = [];
  seeders = pos 5;
  size = pos 100;
  tmdb_id = [];
  tvdb_id = [];
  tv_maze_id = [];
  track = [];
  tracker = codes "films";
  trakt_id = [];
  upload_volume_factor = 10;
  year = pos 1999;
}

padded : value_of (codes "imdbid") (attributes tenths above_zero row) ≡ some (codes "tt0012345")
unfolding attributes
padded = refl

swarm : value_of (codes "peers") (attributes tenths above_zero row) ≡ some (codes "7")
unfolding attributes
swarm = refl

no_key :
    download_link (λ s. s) (λ s. s) row (codes "http://host") (codes "films") []
    ≡ codes "http://host/api/v2.0/indexers/films/download/9"
unfolding download_link
no_key = refl

wrapped_sum : add_int (pos (2 ^ 63 - 1)) (pos 1) ≡ negsuc (2 ^ 63 - 1)
unfolding add_int
wrapped_sum = refl

optional_texts_tell_example :
    (number : Bytes) × Padded (codes "12345") number
    × All (Tells (attributes tenths above_zero row)) (texts number row)
optional_texts_tell_example = optional_texts_tell tenths above_zero row
