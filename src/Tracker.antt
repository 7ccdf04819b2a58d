-- ===== src/Tracker.antt =====
-- pkg/scraper/definitions.go: what the other parts read of a tracker definition, and the categories
-- and search modes that it declares. A Go map of modes is a list with each name once.
use jacklet.Prelude.{
  Bool, not, ◌&&◌, List, [], ◌∷◌, map, if◌then◌else◌, ◌==◌, ℕ-Eq, contains, Bytes, codes, Bytes-Eq,
}

pub record CategoryMapping : Type 0 where
  pub cat : Bytes
  pub is_default : Bool
  pub desc : Bytes
  pub id : Bytes

abbrev pub Modes : Type 0
Modes = List (Bytes × List Bytes)

pub record Caps : Type 0 where
  pub allow_raw_search : Bool
  pub allow_tv_search_imdb : Bool
  pub category_mappings : List CategoryMapping
  pub modes : Modes

pub record Tracker : Type 0 where
  pub caps : Caps
  pub description : Bytes
  pub id : Bytes
  pub language : Bytes
  pub name : Bytes
  pub replaces : List Bytes
  pub tracker_type : Bytes

abbrev pub tracker_id : Tracker → Bytes
tracker_id def = if def.id == [] then def.name else def.id

abbrev pub default_search_modes : Modes
default_search_modes =
    (codes "movie-search", codes "q" ∷ codes "imdbid" ∷ [])
    ∷ (codes "search", codes "q" ∷ [])
    ∷ (codes "tv-search", codes "q" ∷ codes "season" ∷ codes "ep" ∷ codes "tvdbid" ∷ [])
    ∷ []

-- A declared mode with its parameters, or the query alone if it declares none.
unfoldable pub declared_params : List Bytes → List Bytes
declared_params [] = codes "q" ∷ []
declared_params (param ∷ params) = param ∷ params

unfoldable pub modes_or_default : Modes → Modes
unfolding declared_params
modes_or_default [] = default_search_modes
modes_or_default (mode ∷ modes) = map (λ m. (m.0, declared_params m.1)) (mode ∷ modes)

unfoldable pub search_modes : Tracker → Modes
unfolding modes_or_default
search_modes def = modes_or_default def.caps.modes

-- The loop of `DefaultCategoryIDs`, with the ids seen so far.
unfoldable pub default_ids : List Bytes → List CategoryMapping → List Bytes
default_ids seen [] = []
default_ids seen (m ∷ mappings) =
    let rest = default_ids seen mappings in
    let more = default_ids (m.id ∷ seen) mappings in
    if m.is_default && not (contains seen m.id) then m.id ∷ more else rest

unfoldable pub default_category_ids : Tracker → List Bytes
unfolding default_ids
default_category_ids def = default_ids [] def.caps.category_mappings
