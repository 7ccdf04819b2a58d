-- ===== src/DefinitionStore/Panic.antt =====
-- A definition file that cannot be stat'd: the request panics exactly when the cache lacks it.
use jacklet.Prelude.{
  ◌≡◌, refl, sym, ap, ap₂, ◌∙◌, subst, ◌≢◌, ◌↔◌, inl, inr, Bool, true, false, not, ◌&&◌, ◌||◌,
  Option, none, some, List, [], ◌∷◌, map, arith, ltb, if◌then◌else◌, Bool-cases, Option-cases, ◌==◌,
  ℕ-Eq, beq_refl, beq_eq, beq_ne, ne_beq, length, All, select, contains, Bytes, Bytes-Eq,
}
use jacklet.Tracker.{Tracker}
use jacklet.DefinitionStore.{
  FileInfo, DirEntry, entries, CachedDefinition, Files, DefinitionError, cached_at, put,
  is_candidate, Outcome, panics, not_found, answers, fresh, is_unchanged, reread, load_known,
  definition, load_all, prune_absent, refresh,
}
use jacklet.DefinitionStore.Requests.{
  Loaded, with_tracker, loaded_files, users, trackers_of, with_id, with_old_id, handed, find_loaded,
  find_of, trackers, find,
}

abbrev is_none {ℓ} : {A : Type ℓ} → Option A → Bool
is_none none = true
is_none (some a) = false

-- What the cache has under a name after a write.
cached_at-put :
    (n j : Bytes) (c : CachedDefinition) (files : Files)
    → cached_at (put n c files) j ≡ (if n == j then some c else cached_at files j)
unfolding cached_at put
cached_at-put n j c [] = refl
cached_at-put n j c ((m, d) ∷ files) = elim (Bool-cases (m == n)) [
  | inl e ↦ ground (arith, e, ap (λ (k : Bytes). k == j) (beq_eq m n e))
  | inr e ↦ elim (Bool-cases (m == j)) [
    | inl k ↦
        let apart : (n == j) ≡ false =
          subst (λ x. (n == x) ≡ false) (beq_eq m j k) (ne_beq n m (λ p. beq_ne m n e (sym p))) in
        ground (arith, e, k, apart)
    | inr k ↦ ground (arith, e, k, cached_at-put n j c files)
  ]
]

cached_at-select :
    (names : List Bytes) (files : Files) (n : Bytes)
    → contains names n ≡ true
    → cached_at (select (λ e. contains names e.0) files) n ≡ cached_at files n
unfolding cached_at
cached_at-select names [] n h = refl
cached_at-select names ((m, d) ∷ files) n h = elim (Bool-cases (contains names m)) [
  | inl e ↦ rw e (ground (arith, cached_at-select names files n h))
  | inr e ↦
      let apart : (m == n) ≡ false = ne_beq m n (λ p. cc (sym e ∙ ap (contains names) p ∙ h)) in
      rw (e, apart) (cached_at-select names files n h)
]

module _ (parse : Bytes → Option Tracker) where
  -- Some entry of that name can be stat'd.
  abbrev pub has_stat : Bytes → List DirEntry → Bool
  has_stat n [] = false
  has_stat n (e ∷ es) = (e.name == n && not (is_none e.info)) || has_stat n es

  known_cached :
      (m : Option CachedDefinition) (files : Files) (k n : Bytes) (i : FileInfo)
      (file : Option Bytes)
      → cached_at files k ≡ m
      → is_none (cached_at (load_known parse m files k i file).0 n)
        ≡ (is_none (cached_at files n) && not (k == n && true))
  unfolding load_known reread
  known_cached none files k n i file at =
      ground (arith, cached_at-put k n (fresh parse none i file) files)
  known_cached (some c) files k n i file at = elim (Bool-cases (is_unchanged parse (some c) i)) [
    | inl same ↦ rw same (elim (Bool-cases (k == n)) [
      | inl e ↦
          let found : cached_at files n ≡ some c =
            subst (λ j. cached_at files j ≡ some c) (beq_eq k n e) at in
          rw (e, found) refl
      | inr e ↦ rw e (ground arith)
    ])
    | inr other ↦ rw other (ground (arith, cached_at-put k n (fresh parse (some c) i file) files))
  ]

  definition_cached :
      (files : Files) (e : DirEntry) (n : Bytes)
      → is_none (cached_at (definition parse files e).0 n)
        ≡ (is_none (cached_at files n) && not (e.name == n && not (is_none e.info)))
  unfolding definition load_known reread
  definition_cached files e n = elim (Option-cases e.info) [
    | inl p ↦ rw (p, definition) (ground arith)
    | inr (i, p) ↦
        rw (p, definition) (known_cached (cached_at files e.name) files e.name n i e.contents refl)
  ]

  load_all_cached :
      (files : Files) (es : List DirEntry) (n : Bytes)
      → is_none (cached_at (load_all parse files es).0 n)
        ≡ (is_none (cached_at files n) && not (has_stat n es))
  unfolding load_all
  load_all_cached files [] n = ground arith
  load_all_cached files (e ∷ es) n =
      ground (arith, load_all_cached (definition parse files e).0 es n, definition_cached files e n)

  -- Whether a name is neither cached nor stat'd.
  abbrev pub is_lost : Files → List DirEntry → Bytes → Bool
  is_lost files es n = is_none (cached_at files n) && not (has_stat n es)

  abbrev any_missing : Files → List Bytes → Bool
  any_missing files [] = false
  any_missing files (n ∷ names) = is_none (cached_at files n) || any_missing files names

  with_tracker-none :
      (n : Bytes) (t : Option Tracker) (m : Option Loaded)
      → is_none (with_tracker n t m) ≡ is_none m
  with_tracker-none n t none = refl
  with_tracker-none n none (some l) = refl
  with_tracker-none n (some t) (some l) = refl

  loaded_missing :
      (files : Files) (names : List Bytes)
      → is_none (loaded_files files names) ≡ any_missing files names
  unfolding loaded_files
  loaded_missing files [] = refl
  loaded_missing files (n ∷ names) = elim (Option-cases (cached_at files n)) [
    | inl e ↦ rw (e, loaded_files) refl
    | inr (c, e) ↦
        rw (e, loaded_files)
          (with_tracker-none n c.tracker (loaded_files files names) ∙ loaded_missing files names)
  ]

  -- Whether some of the names is neither cached nor stat'd.
  abbrev pub any_lost : Files → List DirEntry → List Bytes → Bool
  any_lost files es [] = false
  any_lost files es (n ∷ names) = is_lost files es n || any_lost files es names

  missing-lost :
      (files : Files) (es : List DirEntry) (names : List Bytes)
      → any_missing (load_all parse files es).0 names ≡ any_lost files es names
  missing-lost files es [] = refl
  missing-lost files es (n ∷ names) =
      ap₂ (λ a b. a || b) (load_all_cached files es n) (missing-lost files es names)

  prune_one :
      (files : Files) (names : List Bytes) (n : Bytes)
      → contains names n ≡ true
      → is_none (cached_at (prune_absent parse files names) n) ≡ is_none (cached_at files n)
  unfolding prune_absent
  prune_one files names n h = elim (Bool-cases (length files == length names)) [
    | inl e ↦ rw e refl
    | inr e ↦ rw e (ap is_none (cached_at-select names files n h))
  ]

  prune_missing :
      (files : Files) (names some_names : List Bytes)
      → All (λ n. contains names n ≡ true) some_names
      → any_missing (prune_absent parse files names) some_names ≡ any_missing files some_names
  unfolding prune_absent
  prune_missing files names [] h = refl
  prune_missing files names (n ∷ some_names) (h, hs) =
      ap₂ (λ a b. a || b) (prune_one files names n h) (prune_missing files names some_names hs)

contains_later :
    (names more : List Bytes) (n : Bytes)
    → All (λ m. contains names m ≡ true) more
    → All (λ m. contains (n ∷ names) m ≡ true) more
contains_later names [] n h = tt
contains_later names (m ∷ more) n (h, hs) = (ground (arith, h), contains_later names more n hs)

contains-All : (names : List Bytes) → All (λ n. contains names n ≡ true) names
contains-All [] = tt
contains-All (n ∷ names) = (rw (beq_refl n) refl, contains_later names names n (contains-All names))

panics-none :
    (r : List Bytes × List DefinitionError) (m : Option Loaded)
    → (trackers_of (answers r) m ≡ panics) ↔ (is_none m ≡ true)
panics-none r none = (λ _. refl, λ _. refl)
panics-none r (some l) = (λ h. cc, λ h. cc)

handed_no_panic :
    (l : Loaded) (t : Option Tracker) (rest : Outcome Tracker)
    → rest ≢ panics
    → handed l t rest ≢ panics
handed_no_panic l none rest h = h
handed_no_panic l (some t) rest h = λ e. cc

no_panic : (l : Loaded) (id : Bytes) → find_loaded l id ≢ panics
unfolding find_loaded
no_panic l id = elim (Bool-cases (ltb 1 (length (users l id)))) [
  | inl many ↦ rw many (λ e. cc)
  | inr one ↦ rw one (
      handed_no_panic l (with_id l id) _ (handed_no_panic l (with_old_id l id) not_found (λ e. cc)))
]

find_panics-none :
    (r : List Bytes × List DefinitionError) (m : Option Loaded) (id : Bytes)
    → (find_of (answers r) m id ≡ panics) ↔ (is_none m ≡ true)
unfolding find_loaded
find_panics-none r none id = (λ _. refl, λ _. refl)
find_panics-none r (some l) id = (λ h. absurd (no_panic l id h), λ h. cc)

-- A request that reads the directory panics exactly when the name of a listed definition file is
-- not in the cache and no entry of that name could be stat'd: a new file that is gone between the
-- listing and the stat.
pub panics_iff :
    (parse : Bytes → Option Tracker) (files : Files) (es : List DirEntry) (id : Bytes)
    → let candidates = select is_candidate es in
      let lost = any_lost parse files candidates (map (λ (e : DirEntry). e.name) candidates) in
      (((trackers parse files (entries es)).1 ≡ panics) ↔ (lost ≡ true))
      × (((find parse files (entries es) id).1 ≡ panics) ↔ (lost ≡ true))
unfolding trackers find refresh
panics_iff parse files es id =
    let candidates = select is_candidate es in
    let names = map (λ (e : DirEntry). e.name) candidates in
    let loaded = load_all parse files candidates in
    let after = prune_absent parse loaded.0 names in
    let same : is_none (loaded_files after names) ≡ any_lost parse files candidates names =
      loaded_missing parse after names
      ∙ prune_missing parse loaded.0 names names (contains-All names)
      ∙ missing-lost parse files candidates names in
    (
      subst
          (λ b.
            (trackers_of (answers (names, loaded.1)) (loaded_files after names) ≡ panics)
            ↔ (b ≡ true))
          same (panics-none (names, loaded.1) (loaded_files after names)),
      subst
          (λ b.
            (find_of (answers (names, loaded.1)) (loaded_files after names) id ≡ panics)
            ↔ (b ≡ true))
          same (find_panics-none (names, loaded.1) (loaded_files after names) id),
    )
