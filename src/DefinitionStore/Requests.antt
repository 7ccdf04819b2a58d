-- ===== src/DefinitionStore/Requests.antt =====
-- What a request makes of the cache: `Trackers` and `Find` of pkg/scraper/store.go.
use jacklet.Prelude.{
  not, Option, none, some, List, [], ◌∷◌, ◌++◌, ltb, if◌then◌else◌, ◌==◌, ℕ-Eq, length, select,
  contains, Bytes, Bytes-Eq,
}
use jacklet.Tracker.{Tracker, tracker_id}
use jacklet.DefinitionStore.{
  Listing, duplicate_id, Files, DefinitionError, cached_at, Outcome, panics, fails, not_found,
  answers, refresh,
}

abbrev pub Loaded : Type 0
Loaded = List (Bytes × Tracker)

abbrev pub with_tracker : Bytes → Option Tracker → Option Loaded → Option Loaded
with_tracker name t none = none
with_tracker name none (some rest) = some rest
with_tracker name (some t) (some rest) = some ((name, t) ∷ rest)

-- The files that hold a definition, in order; `none` is the panic of reading `s.files[name].tracker`
-- where the map has no such name.
unfoldable pub loaded_files : Files → List Bytes → Option Loaded
unfolding cached_at
loaded_files files [] = some []
loaded_files files (name ∷ names) =
    let rest = loaded_files files names in
    elim (cached_at files name) [ none ↦ none | some c ↦ with_tracker name c.tracker rest ]

-- `duplicateIDs(names)[id]`
unfoldable pub users : Loaded → Bytes → List Bytes
users [] id = []
users ((name, t) ∷ loaded) id =
    let rest = users loaded id in if tracker_id t == id then name ∷ rest else rest

unfoldable pub hand_out : Loaded → Tracker → Tracker
unfolding users
hand_out loaded source = record source {
  replaces = select (λ id. not (ltb 0 (length (users loaded id)))) source.replaces;
}

-- The loop of `Trackers`; the first argument is every loaded file.
unfoldable pub list_trackers : Loaded → Loaded → List Tracker × List DefinitionError
unfolding users hand_out
list_trackers all [] = ([], [])
list_trackers all ((name, t) ∷ loaded) =
    let rest = list_trackers all loaded in
    if ltb 1 (length (users all (tracker_id t)))
    then (rest.0, (name, duplicate_id (tracker_id t)) ∷ rest.1)
    else (hand_out all t ∷ rest.0, rest.1)

abbrev pub Answer : Type 0
Answer = List Tracker × List DefinitionError

abbrev pub trackers_of :
    Outcome (List Bytes × List DefinitionError) → Option Loaded → Outcome Answer
trackers_of (answers r) (some loaded) =
    let listed = list_trackers loaded loaded in answers (listed.0, r.1 ++ listed.1)
trackers_of (answers r) none = panics
trackers_of (fails e) loaded = fails e
trackers_of panics loaded = panics
trackers_of not_found loaded = not_found

-- The definition with that id; `none` if there is none.
unfoldable pub with_id : Loaded → Bytes → Option Tracker
with_id [] id = none
with_id ((name, t) ∷ loaded) id =
    let rest = with_id loaded id in if tracker_id t == id then some t else rest

-- The first definition that had that id before.
unfoldable pub with_old_id : Loaded → Bytes → Option Tracker
with_old_id [] id = none
with_old_id ((name, t) ∷ loaded) id =
    let rest = with_old_id loaded id in if contains t.replaces id then some t else rest

abbrev pub handed : Loaded → Option Tracker → Outcome Tracker → Outcome Tracker
handed loaded none rest = rest
handed loaded (some t) rest = answers (hand_out loaded t)

unfoldable pub find_loaded : Loaded → Bytes → Outcome Tracker
unfolding users hand_out with_id with_old_id
find_loaded loaded id =
    if ltb 1 (length (users loaded id))
    then fails (duplicate_id id)
    else handed loaded (with_id loaded id) (handed loaded (with_old_id loaded id) not_found)

abbrev pub find_of :
    Outcome (List Bytes × List DefinitionError) → Option Loaded → Bytes → Outcome Tracker
find_of (answers r) (some loaded) id = find_loaded loaded id
find_of (answers r) none id = panics
find_of (fails e) loaded id = fails e
find_of panics loaded id = panics
find_of not_found loaded id = not_found

abbrev pub names_of : Outcome (List Bytes × List DefinitionError) → List Bytes
names_of (answers r) = r.0
names_of _ = []

module _ (parse : Bytes → Option Tracker) where
  unfoldable pub trackers : Files → Listing → Files × Outcome Answer
  unfolding refresh loaded_files list_trackers
  trackers files listing =
      let r = refresh parse files listing in
      (r.0, trackers_of r.1 (loaded_files r.0 (names_of r.1)))

  unfoldable pub find : Files → Listing → Bytes → Files × Outcome Tracker
  unfolding refresh loaded_files find_loaded
  find files listing id =
      let r = refresh parse files listing in (r.0, find_of r.1 (loaded_files r.0 (names_of r.1)) id)
