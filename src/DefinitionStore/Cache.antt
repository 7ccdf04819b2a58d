-- ===== src/DefinitionStore/Cache.antt =====
-- The cache is invisible: a store that reads every file again at every request answers the same.
use jacklet.Prelude.{
  ◌≡◌, refl, sym, ap, ap₂, ◌∙◌, subst, inl, inr, true, Option, none, some, List, [], ◌∷◌, map,
  arith, Bool-cases, Option-cases, ◌==◌, ℕ-Eq, beq_eq, All, select, Bytes, Bytes-Eq,
}
use jacklet.Tracker.{Tracker}
use jacklet.DefinitionStore.{
  FileInfo, DirEntry, Listing, missing, unreadable, entries, LoadError, info_failed, read_failed,
  CachedDefinition, Files, DefinitionError, cached_at, put, is_definition_file, is_candidate,
  Outcome, fails, answers, fresh, is_unchanged, reread, load_known, definition, noted, load_all,
  prune_absent,
}

abbrev pub stamp : CachedDefinition → FileInfo
stamp c = record { mod_time = c.mod_time; size = c.size }

first_found :
    (m n : Bytes) (d c : CachedDefinition) (files : Files)
    → (m == n) ≡ true
    → cached_at ((m, d) ∷ files) n ≡ some c
    → ◌≡◌ {A = Bytes × CachedDefinition} (m, d) (n, c)
unfolding cached_at
first_found m n d c files e h =
    let same : d ≡ c = cc (rw e at h) in
    ap₂ (λ (a : Bytes) (b : CachedDefinition). (a, b)) (beq_eq m n e) same

put_same :
    (files : Files) (n : Bytes) (c : CachedDefinition)
    → cached_at files n ≡ some c
    → put n c files ≡ files
unfolding put cached_at
put_same [] n c h = absurd (ground (arith, h))
put_same ((m, d) ∷ files) n c h = elim (Bool-cases (m == n)) [
  | inl e ↦
      rw e (ap (λ (x : Bytes × CachedDefinition). x ∷ files) (sym (first_found m n d c files e h)))
  | inr e ↦ rw e (ap (λ fs. (m, d) ∷ fs) (put_same files n c (ground (arith, h, e))))
]

module _ (parse : Bytes → Option Tracker) where
  -- The store without a cache: it keeps what parsed last, and reads every file again.
  unfoldable pub always_load : Files → DirEntry → Files × Option LoadError
  unfolding cached_at fresh put
  always_load files e = elim e.info [
    | none ↦ (files, some info_failed)
    | some info ↦ reread parse (cached_at files e.name) files e.name info e.contents
  ]

  unfoldable pub always_all : Files → List DirEntry → Files × List DefinitionError
  unfolding always_load
  always_all files [] = (files, [])
  always_all files (e ∷ es) =
      let step = always_load files e in
      let rest = always_all step.0 es in (rest.0, noted parse e.name step.1 rest.1)

  unfoldable pub always_refresh :
      Files → Listing → Files × Outcome (List Bytes × List DefinitionError)
  unfolding always_all is_definition_file prune_absent
  always_refresh files missing = ([], answers ([], []))
  always_refresh files unreadable = (files, fails read_failed)
  always_refresh files (entries es) =
      let candidates = select is_candidate es in
      let names = map (λ e. e.name) candidates in
      let loaded = always_all files candidates in
      (prune_absent parse loaded.0 names, answers (names, loaded.1))

  stamp-fresh :
      (m : Option CachedDefinition) (i : FileInfo) (file : Option Bytes)
      → stamp (fresh parse m i file) ≡ i
  unfolding fresh
  stamp-fresh m i none = refl
  stamp-fresh m i (some text) = elim (Option-cases (parse text)) [
    | inl e ↦ rw (e, fresh) refl
    | inr (t, e) ↦ rw (e, fresh) refl
  ]

  fresh_again :
      (m : Option CachedDefinition) (i : FileInfo) (file : Option Bytes)
      → fresh parse (some (fresh parse m i file)) i file ≡ fresh parse m i file
  unfolding fresh
  fresh_again m i none = refl
  fresh_again m i (some text) = elim (Option-cases (parse text)) [
    | inl e ↦ ground (arith, e)
    | inr (t, e) ↦ ground (arith, e)
  ]

  module _ (content : Bytes → FileInfo → Option Bytes) where
    -- A file's modification time and size tell what is in it.
    abbrev pub IsStamped : DirEntry → Type 0
    IsStamped e = (i : FileInfo) → e.info ≡ some i → e.contents ≡ content e.name i

    abbrev pub IsStampedListing : Listing → Type 0
    IsStampedListing missing = Unit
    IsStampedListing unreadable = Unit
    IsStampedListing (entries es) = All IsStamped es

    -- Reading a file again that has not changed gives what is cached of it.
    abbrev pub IsCurrent : Bytes × CachedDefinition → Type 0
    IsCurrent (n, c) = fresh parse (some c) (stamp c) (content n (stamp c)) ≡ c

    fresh_twice :
        (m : Option CachedDefinition) (n : Bytes) (i : FileInfo) (file : Option Bytes)
        → file ≡ content n i
        → IsCurrent (n, fresh parse m i file)
    unfolding fresh
    fresh_twice m n i file e =
        subst
          (λ j. fresh parse (some (fresh parse m i file)) j (content n j) ≡ fresh parse m i file)
          (sym (stamp-fresh m i file))
          (subst (λ f. fresh parse (some (fresh parse m i file)) i f ≡ fresh parse m i file) e
            (fresh_again m i file))

    put-IsCurrent :
        (n : Bytes) (c : CachedDefinition) (files : Files)
        → IsCurrent (n, c)
        → All IsCurrent files
        → All IsCurrent (put n c files)
    unfolding put
    put-IsCurrent n c [] h _ = (h, tt)
    put-IsCurrent n c ((m, d) ∷ files) h (k, ks) = elim (Bool-cases (m == n)) [
      | inl e ↦ rw e (h, ks)
      | inr e ↦ rw e (k, put-IsCurrent n c files h ks)
    ]

    cached_at-IsCurrent :
        (files : Files) (n : Bytes) (c : CachedDefinition)
        → All IsCurrent files
        → cached_at files n ≡ some c
        → IsCurrent (n, c)
    unfolding cached_at
    cached_at-IsCurrent [] n c _ h = absurd (ground (arith, h))
    cached_at-IsCurrent ((m, d) ∷ files) n c (k, ks) h = elim (Bool-cases (m == n)) [
      | inl e ↦ subst IsCurrent (first_found m n d c files e h) k
      | inr e ↦ cached_at-IsCurrent files n c ks (ground (arith, h, e))
    ]

    load_known_lem :
        (m : Option CachedDefinition) (files : Files) (n : Bytes) (i : FileInfo)
        (file : Option Bytes)
        → cached_at files n ≡ m
        → All IsCurrent files
        → file ≡ content n i
        → load_known parse m files n i file ≡ reread parse m files n i file
    unfolding reread load_known
    load_known_lem none files n i file at h e = refl
    load_known_lem (some c) files n i file at h e =
        elim (Bool-cases (is_unchanged parse (some c) i)) [
          | inl same ↦
              let i-stamp : i ≡ stamp c = ground (arith, same) in
              let again : fresh parse (some c) i file ≡ c =
                subst (λ f. fresh parse (some c) i f ≡ c) (sym e)
                  (subst (λ j. fresh parse (some c) j (content n j) ≡ c) (sym i-stamp)
                    (cached_at-IsCurrent files n c h at)) in
              rw same (
                sym (
                  ap (λ d. (put n d files, d.err)) again
                  ∙ ap (λ fs. (fs, c.err)) (put_same files n c at)))
          | inr other ↦ rw other refl
        ]

    -- One file is loaded as if it were read again.
    pub definition_lem :
        (files : Files) (e : DirEntry)
        → All IsCurrent files
        → IsStamped e
        → definition parse files e ≡ always_load files e
    unfolding definition always_load
    definition_lem files e h honest = elim (Option-cases e.info) [
      | inl p ↦ rw (p, definition, always_load) refl
      | inr (i, p) ↦
          rw (p, definition, always_load)
            (load_known_lem (cached_at files e.name) files e.name i e.contents refl h (honest i p))
    ]

    always_load-IsCurrent :
        (files : Files) (e : DirEntry)
        → All IsCurrent files
        → IsStamped e
        → All IsCurrent (always_load files e).0
    unfolding always_load
    always_load-IsCurrent files e h honest = elim (Option-cases e.info) [
      | inl p ↦ rw (p, always_load) h
      | inr (i, p) ↦
          rw (p, always_load)
            (put-IsCurrent e.name _ files
              (fresh_twice (cached_at files e.name) e.name i e.contents (honest i p)) h)
    ]

    -- So are all files of a listing, and what is cached of them is current again.
    pub load_all_lem :
        (files : Files) (es : List DirEntry)
        → All IsCurrent files
        → All IsStamped es
        → (load_all parse files es ≡ always_all files es) × All IsCurrent (always_all files es).0
    unfolding load_all always_all
    load_all_lem files [] h _ = (refl, h)
    load_all_lem files (e ∷ es) h (honest, rest) =
        let same = definition_lem files e h honest in
        let (tail_same, kept) =
          load_all_lem (always_load files e).0 es (always_load-IsCurrent files e h honest) rest in
        (rw same (ap (λ r. (r.0, noted parse e.name (always_load files e).1 r.1)) tail_same), kept)
