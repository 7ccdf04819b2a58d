-- ===== src/DefinitionStore/Reach.antt =====
-- The store after any requests, against the store that reads every file at each of them.
use jacklet.Prelude.{
  ◌≡◌, refl, ap, inl, inr, Bool, Option, List, [], ◌∷◌, map, Bool-cases, ◌==◌, ℕ-Eq, length, All,
  select, Bytes, Bytes-Eq,
}
use jacklet.Tracker.{Tracker}
use jacklet.DefinitionStore.{
  FileInfo, DirEntry, Listing, missing, unreadable, entries, Files, DefinitionError, is_candidate,
  Outcome, answers, is_present, prune_absent, refresh,
}
use jacklet.DefinitionStore.Requests.{
  loaded_files, Answer, trackers_of, find_loaded, find_of, names_of, trackers, find,
}
use jacklet.DefinitionStore.Cache.{
  always_refresh, IsStamped, IsStampedListing, IsCurrent, load_all_lem,
}

All-select {ℓ} :
    {A : Type 0} (P : A → Type ℓ) (p : A → Bool) (xs : List A) → All P xs → All P (select p xs)
All-select P p [] h = h
All-select P p (x ∷ xs) (h, hs) = elim (Bool-cases (p x)) [
  | inl e ↦ rw e (h, All-select P p xs hs)
  | inr e ↦ rw e (All-select P p xs hs)
]

module _ (parse : Bytes → Option Tracker) where
  -- The cache after requests that saw these listings, one after another.
  unfoldable pub served : Files → List Listing → Files
  unfolding refresh
  served files [] = files
  served files (l ∷ ls) = served (refresh parse files l).0 ls

  unfoldable pub always_served : Files → List Listing → Files
  unfolding always_refresh
  always_served files [] = files
  always_served files (l ∷ ls) = always_served (always_refresh parse files l).0 ls

  unfoldable pub always_trackers : Files → Listing → Outcome Answer
  unfolding always_refresh loaded_files
  always_trackers files l =
      let r = always_refresh parse files l in trackers_of r.1 (loaded_files r.0 (names_of r.1))

  unfoldable pub always_find : Files → Listing → Bytes → Outcome Tracker
  unfolding always_refresh loaded_files find_loaded
  always_find files l id =
      let r = always_refresh parse files l in find_of r.1 (loaded_files r.0 (names_of r.1)) id

  module _ (content : Bytes → FileInfo → Option Bytes) where
    prune-IsCurrent :
        (files : Files) (names : List Bytes)
        → All (IsCurrent parse content) files
        → All (IsCurrent parse content) (prune_absent parse files names)
    unfolding prune_absent
    prune-IsCurrent files names h = elim (Bool-cases (length files == length names)) [
      | inl e ↦ rw e h
      | inr e ↦ rw e (All-select (IsCurrent parse content) (is_present parse names) files h)
    ]

    refresh_lem :
        (files : Files) (l : Listing)
        → All (IsCurrent parse content) files
        → IsStampedListing parse content l
        → (refresh parse files l ≡ always_refresh parse files l)
          × All (IsCurrent parse content) (always_refresh parse files l).0
    unfolding refresh always_refresh
    refresh_lem files missing h _ = (refl, tt)
    refresh_lem files unreadable h _ = (refl, h)
    refresh_lem files (entries es) h honest =
        let candidates = select is_candidate es in
        let names = map (λ (e : DirEntry). e.name) candidates in
        let (same, kept) =
          load_all_lem parse content files candidates h
            (All-select (IsStamped parse content) is_candidate es honest) in
        (
          ap
              (λ (r : Files × List DefinitionError).
                (prune_absent parse r.0 names, answers (names, r.1)))
              same,
          prune-IsCurrent _ names kept,
        )

    served_lem :
        (files : Files) (ls : List Listing)
        → All (IsCurrent parse content) files
        → All (IsStampedListing parse content) ls
        → (served files ls ≡ always_served files ls)
          × All (IsCurrent parse content) (always_served files ls)
    unfolding served always_served
    served_lem files [] h _ = (refl, h)
    served_lem files (l ∷ ls) h (honest, rest) =
        let (same, kept) = refresh_lem files l h honest in
        let (more, current) = served_lem (always_refresh parse files l).0 ls kept rest in
        (rw same more, current)

    -- If a file's modification time and size tell what is in it, then after any requests, a listing
    -- of all definitions and a search for one by its id answer as the store does that reads every
    -- file again at every request and keeps only what parsed last.
    pub cache_invisible :
        (history : List Listing) (now : Listing) (id : Bytes)
        → All (IsStampedListing parse content) history
        → IsStampedListing parse content now
        → ((trackers parse (served [] history) now).1
            ≡ always_trackers (always_served [] history) now)
          × ((find parse (served [] history) now id).1
              ≡ always_find (always_served [] history) now id)
    unfolding trackers find always_trackers always_find
    cache_invisible history now id past honest =
        let (same, kept) = served_lem [] history tt past in
        let (again, _) = refresh_lem (always_served [] history) now kept honest in
        (
          rw same (
              ap
                (λ (r : Files × Outcome (List Bytes × List DefinitionError)).
                  trackers_of r.1 (loaded_files r.0 (names_of r.1)))
                again),
          rw same (
              ap
                (λ (r : Files × Outcome (List Bytes × List DefinitionError)).
                  find_of r.1 (loaded_files r.0 (names_of r.1)) id)
                again),
        )
