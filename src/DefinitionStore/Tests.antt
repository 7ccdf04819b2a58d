-- ===== src/DefinitionStore/Tests.antt =====
-- The definition store at concrete directories.
use jacklet.Prelude.{
  ℕ, ◌≡◌, refl, subst, ◌↔◌, true, false, Option, none, some, List, [], ◌∷◌, if◌then◌else◌, ◌==◌,
  ℕ-Eq, Bytes, codes, Bytes-Eq, All,
}
use jacklet.Tracker.{Tracker, tracker_id}
use jacklet.DefinitionStore.{
  FileInfo, DirEntry, Listing, entries, parse_failed, cached_at, is_definition_file, panics,
  answers,
}
use jacklet.DefinitionStore.Requests.{trackers, find}
use jacklet.DefinitionStore.Cache.{IsStampedListing}
use jacklet.DefinitionStore.Reach.{
  served, always_served, always_trackers, always_find, cache_invisible,
}
use jacklet.DefinitionStore.Lookup.{trackers-find}
use jacklet.DefinitionStore.Panic.{panics_iff}

abbrev def_of : Bytes → Tracker
def_of id = record {
  caps = record {
    allow_raw_search = false;
    allow_tv_search_imdb = false;
    category_mappings = [];
    modes = [];
  };
  description = [];
  id = id;
  language = [];
  name = codes "Site";
  replaces = codes "old" ∷ [];
  tracker_type = [];
}

-- A file holds the id of its definition, and does not parse if it is empty.
decode : Bytes → Option Tracker
decode [] = none
decode (b ∷ id) = some (def_of (b ∷ id))

-- What each file holds, by its size.
content : Bytes → FileInfo → Option Bytes
content name i = if i.size == 1 then some (codes "a") else some []

abbrev file : Bytes → ℕ → Bytes → DirEntry
file name size text = record {
  name = name;
  is_dir = false;
  info = some (record { mod_time = 7; size = size });
  contents = some text;
}

abbrev good : Listing
good = entries (file (codes "a.yml") 1 (codes "a") ∷ [])

abbrev broken : Listing
broken = entries (file (codes "a.YAML") 0 [] ∷ file (codes "a.yml") 0 [] ∷ [])

abbrev vanished : List DirEntry
vanished = record { name = codes "b.yml"; is_dir = false; info = none; contents = none } ∷ []

info_injective : (i j : FileInfo) → some i ≡ some j → i ≡ j
info_injective i j h = cc

good-IsStamped : IsStampedListing decode content good
unfolding content
good-IsStamped = (
  (λ i h. subst (λ j. some (codes "a") ≡ content (codes "a.yml") j) (info_injective _ i h) refl),
  tt,
)

broken-IsStamped : IsStampedListing decode content broken
unfolding content
broken-IsStamped = (
  (λ i h. subst (λ j. some [] ≡ content (codes "a.YAML") j) (info_injective _ i h) refl),
  ((λ i h. subst (λ j. some [] ≡ content (codes "a.yml") j) (info_injective _ i h) refl), tt),
)

cache_invisible_example :
    ((trackers decode (served decode [] (good ∷ good ∷ [])) broken).1
      ≡ always_trackers decode (always_served decode [] (good ∷ good ∷ [])) broken)
    × ((find decode (served decode [] (good ∷ good ∷ [])) broken (codes "a")).1
        ≡ always_find decode (always_served decode [] (good ∷ good ∷ [])) broken (codes "a"))
cache_invisible_example =
    cache_invisible decode content (good ∷ good ∷ []) broken (codes "a")
      (good-IsStamped, (good-IsStamped, tt)) broken-IsStamped

-- The last version that parsed is served on, and reported.
still_served :
    (trackers decode (served decode [] (good ∷ [])) broken).1
    ≡ answers (
      def_of (codes "a") ∷ [],
      (codes "a.YAML", parse_failed) ∷ (codes "a.yml", parse_failed) ∷ [],
    )
unfolding trackers served decode is_definition_file
still_served = refl

listed : (trackers decode [] good).1 ≡ answers (def_of (codes "a") ∷ [], [])
unfolding trackers decode is_definition_file
listed = refl

trackers-find_example :
    All (λ t. (find decode [] good (tracker_id t)).1 ≡ answers t) (def_of (codes "a") ∷ [])
trackers-find_example = trackers-find decode [] good (def_of (codes "a") ∷ [], []) listed

panics_iff_example :
    (((trackers decode [] (entries vanished)).1 ≡ panics) ↔ (true ≡ true))
    × (((find decode [] (entries vanished) (codes "a")).1 ≡ panics) ↔ (true ≡ true))
unfolding is_definition_file cached_at
panics_iff_example = panics_iff decode [] vanished (codes "a")
