-- ===== src/Query/Render.antt =====
-- The parameters as the templates of a definition read them: `.Query` in pkg/scraper/filters.go.
use jacklet.Prelude.{
  Bool, not, ◌&&◌, ◌||◌, List, [], ◌∷◌, if◌then◌else◌, ◌==◌, ℕ-Eq, Bytes, codes, Bytes-Eq,
}
use jacklet.Query.{SearchParams, positive, season_of, episode_text, keywords_text}

-- `movie` and `series` are always empty.
pub record QueryParams : Type 0 where
  pub album : Bytes
  pub artist : Bytes
  pub author : Bytes
  pub categories : List Bytes
  pub douban_id : Bytes
  pub ep : Bytes
  pub episode : Bytes
  pub extended : Bytes
  pub genre : Bytes
  pub imdb_id : Bytes
  pub imdb_id_short : Bytes
  pub is_book_search : Bytes
  pub is_douban_query : Bytes
  pub is_genre_query : Bytes
  pub is_id_search : Bytes
  pub is_imdb_query : Bytes
  pub is_movie_search : Bytes
  pub is_music_search : Bytes
  pub is_rss_search : Bytes
  pub is_search : Bytes
  pub is_tv_rage_query : Bytes
  pub is_tv_search : Bytes
  pub keywords : Bytes
  pub label : Bytes
  pub limit : Bytes
  pub movie : Bytes
  pub offset : Bytes
  pub publisher : Bytes
  pub q : Bytes
  pub season : Bytes
  pub series : Bytes
  pub tmdb_id : Bytes
  pub tvdb_id : Bytes
  pub tv_maze_id : Bytes
  pub tv_rage_id : Bytes
  pub title : Bytes
  pub track : Bytes
  pub trakt_id : Bytes
  pub query_type : Bytes
  pub year : Bytes

abbrev pub flag : Bool → Bytes
flag is_set = if is_set then codes "True" else []

abbrev pub is_given : Bytes → Bool
is_given s = not (s == [])

-- `strings.TrimPrefix(id, "tt")`
abbrev pub without_tt : Bytes → Bytes
without_tt (a ∷ b ∷ s) = if a == b't' && b == b't' then s else a ∷ b ∷ s
without_tt s = s

unfoldable pub is_id_search : SearchParams → Bytes → Bool
is_id_search p season =
    is_given p.imdb_id
    || is_given p.tmdb_id
    || is_given p.tvdb_id
    || is_given p.tv_maze_id
    || is_given p.tv_rage_id
    || is_given p.trakt_id
    || is_given p.douban_id
    || is_given p.ep
    || is_given season
    || is_given p.album
    || is_given p.artist
    || is_given p.label
    || is_given p.genre
    || is_given p.track
    || is_given p.author
    || is_given p.title
    || is_given p.publisher
    || is_given p.year

-- `templateQuery`, of the season as it is rendered.
unfoldable pub render : SearchParams → Bytes → QueryParams
unfolding keywords_text episode_text is_id_search
render p season = record {
  album = p.album;
  artist = p.artist;
  author = p.author;
  categories = p.categories;
  douban_id = p.douban_id;
  ep = p.ep;
  episode = episode_text season p.ep;
  extended = p.extended;
  genre = p.genre;
  imdb_id = p.imdb_id;
  imdb_id_short = without_tt p.imdb_id;
  is_book_search = flag (p.search_type == codes "book");
  is_douban_query = flag (is_given p.douban_id);
  is_genre_query = flag (is_given p.genre);
  is_id_search = flag (is_id_search p season);
  is_imdb_query = flag (is_given p.imdb_id);
  is_movie_search = flag (p.search_type == codes "movie");
  is_music_search = flag (p.search_type == codes "music");
  is_rss_search = flag (keywords_text p season == [] && not (is_id_search p season));
  is_search = flag (p.search_type == codes "search");
  is_tv_rage_query = flag (is_given p.tv_rage_id);
  is_tv_search = flag (p.search_type == codes "tvsearch");
  keywords = keywords_text p season;
  label = p.label;
  limit = positive p.limit;
  movie = [];
  offset = positive p.offset;
  publisher = p.publisher;
  q = p.query;
  season = season;
  series = [];
  tmdb_id = p.tmdb_id;
  tvdb_id = p.tvdb_id;
  tv_maze_id = p.tv_maze_id;
  tv_rage_id = p.tv_rage_id;
  title = p.title;
  track = p.track;
  trakt_id = p.trakt_id;
  query_type = p.search_type;
  year = p.year;
}

unfoldable pub template_query : SearchParams → QueryParams
unfolding season_of render
template_query p = render p (season_of p)
