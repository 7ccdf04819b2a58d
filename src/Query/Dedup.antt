-- ===== src/Query/Dedup.antt =====
-- What the key of a search tells apart, and what it leaves out.
use jacklet.Prelude.{
  ℕ, zero, suc, ◌≡◌, refl, sym, ap, ◌∙◌, ◌≢◌, Option, none, some, List, [], ◌∷◌, ◌++◌, ℕ-Eq, take,
  All, All-append, All-map, Bytes, Bytes-Eq,
}
use jacklet.Prelude.Int.{ℤ, pos, negsuc}
use jacklet.Prelude.Decimal.{parse_int, atoi, itoa}
use jacklet.Prelude.Decimal.Signed.{atoi-itoa, atoi_bound}
use jacklet.Prelude.Split.{split, split-join}
use jacklet.Prelude.Sorting.{sort_by}
use jacklet.Query.{
  SearchParams, season_text, season_of, keywords_text, key_fields, key_categories, cache_key,
}
use jacklet.Query.Render.{is_id_search, render, template_query}
use jacklet.Query.Key.{Free, IsPlain, All-sort_by, join-Free, join_injective, count, count-sort_by}

abbrev nth : ℕ → List Bytes → Bytes
nth i [] = []
nth zero (w ∷ ws) = w
nth (suc i) (w ∷ ws) = nth i ws

abbrev sorted : SearchParams → List Bytes
sorted p = sort_by (λ c. c) p.categories

plain_categories :
    (p : SearchParams) → IsPlain p → All (λ c. (c ≢ []) × Free 0 c × Free b',' c) (sorted p)
plain_categories p h = All-sort_by _ p.categories h.1

plain_key : (p : SearchParams) → IsPlain p → All (Free 0) (key_fields p ++ key_categories p ∷ [])
plain_key p h = All-append (Free 0) (key_fields p) (key_categories p ∷ []) h.0 (
  join-Free b',' 0 (sorted p) refl
      (All-map _ (Free 0) (sorted p) (λ c k. k.1) (plain_categories p h)),
  tt,
)

split_key :
    (p : SearchParams) → IsPlain p → split 0 (cache_key p) ≡ key_fields p ++ key_categories p ∷ []
unfolding cache_key
split_key p h = split-join 0 p.album _ (plain_key p h)

same_parts :
    (p q : SearchParams)
    → IsPlain p
    → IsPlain q
    → cache_key p ≡ cache_key q
    → (key_fields p ≡ key_fields q) × (sorted p ≡ sorted q)
same_parts p q h k e =
    let parts = sym (split_key p h) ∙ ap (split 0) e ∙ split_key q k in
    (
      ap (take 21) parts,
      join_injective b',' (sorted p) (sorted q)
          (All-map _ _ (sorted p) (λ c x. (x.0, x.2)) (plain_categories p h))
          (All-map _ _ (sorted q) (λ c x. (x.0, x.2)) (plain_categories q k)) (ap (nth 21) parts),
    )

-- The search that the texts of a key are of, without categories and paging.
abbrev of_fields : List Bytes → SearchParams
of_fields fs = record {
  album = nth 0 fs;
  artist = nth 1 fs;
  author = nth 2 fs;
  douban_id = nth 3 fs;
  ep = nth 4 fs;
  extended = nth 5 fs;
  genre = nth 6 fs;
  imdb_id = nth 7 fs;
  label = nth 8 fs;
  publisher = nth 9 fs;
  query = nth 10 fs;
  season = nth 11 fs;
  title = nth 12 fs;
  tmdb_id = nth 13 fs;
  track = nth 14 fs;
  trakt_id = nth 15 fs;
  tvdb_id = nth 16 fs;
  tv_maze_id = nth 17 fs;
  tv_rage_id = nth 18 fs;
  search_type = nth 19 fs;
  year = nth 20 fs;
  categories = [];
  limit = pos 0;
  offset = pos 0;
}

-- A search without its categories and its paging.
abbrev pub bare : SearchParams → SearchParams
bare p = record p { categories = []; limit = pos 0; offset = pos 0 }

rendered_twice :
    (m : Option ℤ) (s : Bytes)
    → atoi s ≡ m
    → season_text (atoi (season_text m s)) (season_text m s) ≡ season_text m s
unfolding atoi parse_int
rendered_twice none s e = ap (λ k. season_text k s) e
rendered_twice (some (pos zero)) s e = refl
rendered_twice (some (pos (suc n))) s e =
    ap (λ k. season_text k (itoa (suc n))) (atoi-itoa (suc n) (atoi_bound s (suc n) e))
rendered_twice (some (negsuc n)) s e = refl

season_twice : (p : SearchParams) → season_of p ≡ season_of (of_fields (key_fields p))
unfolding season_of
season_twice p = sym (rendered_twice (atoi p.season) p.season refl)

render-bare :
    (p : SearchParams) (t : Bytes) → render (bare p) t ≡ render (of_fields (key_fields p)) t
unfolding render keywords_text is_id_search
render-bare p t = refl

season_of-bare : (p : SearchParams) → season_of (bare p) ≡ season_of p
unfolding season_of
season_of-bare p = refl

-- The season counts as it is rendered.
template_query-bare :
    (p : SearchParams) → template_query (bare p) ≡ template_query (of_fields (key_fields p))
unfolding template_query
template_query-bare p =
    render-bare p (season_of (bare p))
    ∙ ap (render (of_fields (key_fields p))) (season_of-bare p ∙ season_twice p)

-- Two searches with one key, whose parameters hold no zero byte and whose categories are texts
-- without a comma, name the same categories as often, and the templates of a definition read the
-- same of both but for the order of the categories and the page.
pub same_key-same_query :
    (p q : SearchParams)
    → IsPlain p
    → IsPlain q
    → cache_key p ≡ cache_key q
    → (template_query (bare p) ≡ template_query (bare q))
      × ((c : Bytes) → count c p.categories ≡ count c q.categories)
same_key-same_query p q h k e =
    let (fields, cats) = same_parts p q h k e in
    (
      template_query-bare p
          ∙ ap (λ fs. template_query (of_fields fs)) fields
          ∙ sym (template_query-bare q),
      λ c. sym (count-sort_by c p.categories) ∙ ap (count c) cats ∙ count-sort_by c q.categories,
    )
