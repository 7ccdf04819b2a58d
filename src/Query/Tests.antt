-- ===== src/Query/Tests.antt =====
-- Searches and their keys at concrete inputs.
use jacklet.Prelude.{◌≡◌, refl, List, [], ◌∷◌, ℕ-Eq, Bytes, codes, Bytes-Eq}
use jacklet.Prelude.Int.{pos}
use jacklet.Prelude.Ascii.{trim_left, trim_right}
use jacklet.Prelude.Sorting.{bytes_le}
use jacklet.Query.{SearchParams, season_of, pad_number, with_terms, keywords, cache_key}
use jacklet.Query.Render.{template_query}
use jacklet.Query.Key.{IsPlain, count}
use jacklet.Query.Dedup.{bare, same_key-same_query}

abbrev nothing : SearchParams
nothing = record {
  album = [];
  artist = [];
  author = [];
  categories = [];
  douban_id = [];
  ep = [];
  extended = [];
  genre = [];
  imdb_id = [];
  label = [];
  limit = pos 0;
  offset = pos 0;
  publisher = [];
  query = [];
  season = [];
  tmdb_id = [];
  tvdb_id = [];
  tv_maze_id = [];
  tv_rage_id = [];
  title = [];
  track = [];
  trakt_id = [];
  search_type = [];
  year = [];
}

abbrev show_search : Bytes → List Bytes → SearchParams
show_search season categories = record nothing {
  query = codes "show";
  season = season;
  ep = codes "2";
  categories = categories;
}

abbrev padded : SearchParams
padded = show_search (codes "01") (codes "5040" ∷ codes "5030" ∷ [])

abbrev bare_season : SearchParams
bare_season = show_search (codes "1") (codes "5030" ∷ codes "5040" ∷ [])

same_key : cache_key padded ≡ cache_key bare_season
unfolding cache_key bytes_le
same_key = refl

shown : keywords padded ≡ codes "show S01E02"
unfolding keywords with_terms trim_left trim_right pad_number
shown = refl

padded-IsPlain : IsPlain padded
unfolding season_of
padded-IsPlain = (
  (
    refl,
    (
      refl,
      (
        refl,
        (
          refl,
          (
            refl,
            (
              refl,
              (
                refl,
                (
                  refl,
                  (
                    refl,
                    (
                      refl,
                      (
                        refl,
                        (
                          refl,
                          (
                            refl,
                            (refl, (refl, (refl, (refl, (refl, (refl, (refl, (refl, tt)))))))),
                          ),
                        ),
                      ),
                    ),
                  ),
                ),
              ),
            ),
          ),
        ),
      ),
    ),
  ),
  (((λ h. cc), refl, refl), (((λ h. cc), refl, refl), tt)),
)

bare_season-IsPlain : IsPlain bare_season
unfolding season_of
bare_season-IsPlain = (
  (
    refl,
    (
      refl,
      (
        refl,
        (
          refl,
          (
            refl,
            (
              refl,
              (
                refl,
                (
                  refl,
                  (
                    refl,
                    (
                      refl,
                      (
                        refl,
                        (
                          refl,
                          (
                            refl,
                            (refl, (refl, (refl, (refl, (refl, (refl, (refl, (refl, tt)))))))),
                          ),
                        ),
                      ),
                    ),
                  ),
                ),
              ),
            ),
          ),
        ),
      ),
    ),
  ),
  (((λ h. cc), refl, refl), (((λ h. cc), refl, refl), tt)),
)

same_key-same_query_example :
    (template_query (bare padded) ≡ template_query (bare bare_season))
    × ((c : Bytes) → count c padded.categories ≡ count c bare_season.categories)
same_key-same_query_example =
    same_key-same_query padded bare_season padded-IsPlain bare_season-IsPlain same_key
