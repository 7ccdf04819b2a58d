-- ===== src/DefinitionStore.antt =====
-- pkg/scraper/store.go: tracker definitions read from a directory and cached by file.
--
-- One operation sees one listing of the directory: per entry its name, what stating it gives and what
-- reading it gives, `none` where that fails. Decoding YAML is an argument, `parse`. A Go map is a
-- list of its entries. A file name holds no path separator.
mod Requests
mod Cache
mod Reach
mod Lookup
mod Panic
mod Tests
use jacklet.Prelude.{
  ℕ, zero, suc, ◌+◌, ◌-◌, ◌*◌, ◌/◌, ◌%◌, ◌^◌, ◌≤◌, ◌<◌, min, max, ◌≡◌, refl, sym, ap, ap₂, ◌∙◌,
  subst, fun_ext, ◌≡⟨◌⟩◌, ◌∎, ◌≢◌, ◌↔◌, ◌⊎◌, inl, inr, Bool, true, false, not, ◌&&◌, ◌||◌, Option,
  none, some, List, [], ◌∷◌, ◌++◌, map, append_assoc, append-nil, arith, ltb, leb, nat_eq,
  if◌then◌else◌, ltb→lt, lt→ltb, leb→le, le→leb, nat_eq_iff, tests, Bool-cases, Option-cases, Eq,
  ◌==◌, ℕ-Eq, beq_refl, beq_eq, beq_ne, ne_beq, length, get_elem?, take, drop, All, Any, select,
  length-append, take_append, drop_append, take-append-drop, length-take, length-drop, All-append,
  All-map, contains, Bytes, codes, bytes_eq, bytes_eq_iff, Bytes-Eq,
}
use jacklet.Prelude.Ascii.{
  is_space, trim_left, before, trim_right, trim_space, lower, to_lower, equal_fold, has_prefix, cut,
  trim_left-space,
}
use jacklet.Tracker.{
  CategoryMapping, Modes, Caps, Tracker, tracker_id, default_search_modes, declared_params,
  modes_or_default, search_modes, default_ids, default_category_ids,
}

pub record FileInfo : Type 0 where
  pub mod_time : ℕ
  pub size : ℕ

pub record DirEntry : Type 0 where
  pub name : Bytes
  pub is_dir : Bool
  pub info : Option FileInfo
  pub contents : Option Bytes

pub data Listing : Type 0 where
  missing unreadable : Listing
  entries : List DirEntry → Listing

pub data LoadError : Type 0 where
  info_failed read_failed parse_failed : LoadError
  duplicate_id : Bytes → LoadError

pub record CachedDefinition : Type 0 where
  pub err : Option LoadError
  pub mod_time : ℕ
  pub size : ℕ
  pub tracker : Option Tracker

abbrev pub Files : Type 0
Files = List (Bytes × CachedDefinition)

abbrev pub DefinitionError : Type 0
DefinitionError = Bytes × LoadError

-- `s.files[name]`
unfoldable pub cached_at : Files → Bytes → Option CachedDefinition
cached_at [] name = none
cached_at ((n, c) ∷ files) name =
    let rest = cached_at files name in if n == name then some c else rest

-- `s.files[name] = c`
unfoldable pub put : Bytes → CachedDefinition → Files → Files
put name c [] = (name, c) ∷ []
put name c ((n, d) ∷ files) =
    let rest = put name c files in if n == name then (name, c) ∷ files else (n, d) ∷ rest

abbrev pub last_good : Option CachedDefinition → Option Tracker
last_good none = none
last_good (some cached) = cached.tracker

-- filepath.Ext: the name from its last dot on.
abbrev pub ext_with : ℕ → Bytes → Bytes → Bytes
ext_with b s [] = if b == b'.' then b ∷ s else []
ext_with b s (c ∷ e) = c ∷ e

unfoldable pub ext : Bytes → Bytes
ext [] = []
ext (b ∷ s) = ext_with b s (ext s)

unfoldable pub is_definition_file : Bytes → Bool
unfolding ext to_lower
is_definition_file name = let e = to_lower (ext name) in e == codes ".yml" || e == codes ".yaml"

abbrev pub is_candidate : DirEntry → Bool
is_candidate e = not (e.is_dir || not (is_definition_file e.name))

-- What an operation ends with, besides the state of the store.
pub data Outcome (A : Type 0) : Type 0 where
  panics : Outcome A
  fails : LoadError → Outcome A
  not_found : Outcome A
  answers : A → Outcome A

module _ (parse : Bytes → Option Tracker) where
  -- What reading the file again makes of it.
  unfoldable pub fresh : Option CachedDefinition → FileInfo → Option Bytes → CachedDefinition
  fresh cached info none = record {
    err = some read_failed;
    mod_time = info.mod_time;
    size = info.size;
    tracker = last_good cached;
  }
  fresh cached info (some file) = elim (parse file) [
    | none ↦ record {
      err = some parse_failed;
      mod_time = info.mod_time;
      size = info.size;
      tracker = last_good cached;
    }
    | some tracker ↦ record {
      err = none;
      mod_time = info.mod_time;
      size = info.size;
      tracker = some tracker;
    }
  ]

  abbrev pub is_unchanged : Option CachedDefinition → FileInfo → Bool
  is_unchanged none info = false
  is_unchanged (some cached) info = cached.size == info.size && cached.mod_time == info.mod_time

  abbrev pub reread :
      Option CachedDefinition → Files → Bytes → FileInfo → Option Bytes → Files × Option LoadError
  unfolding fresh put
  reread cached files name info contents =
      let c = fresh cached info contents in (put name c files, c.err)

  abbrev pub load_known :
      Option CachedDefinition → Files → Bytes → FileInfo → Option Bytes → Files × Option LoadError
  unfolding fresh put
  load_known none files name info contents = reread none files name info contents
  load_known (some c) files name info contents =
      if is_unchanged (some c) info
      then (files, c.err)
      else reread (some c) files name info contents

  -- `definition`: the cache that it leaves, and the error of the definition that it returns.
  unfoldable pub definition : Files → DirEntry → Files × Option LoadError
  unfolding cached_at load_known
  definition files e = elim e.info [
    | none ↦ (files, some info_failed)
    | some info ↦ load_known (cached_at files e.name) files e.name info e.contents
  ]

  abbrev pub noted : Bytes → Option LoadError → List DefinitionError → List DefinitionError
  noted name none errs = errs
  noted name (some err) errs = (name, err) ∷ errs

  -- The loop of `refresh` over the entries that name a definition: the cache, and the errors.
  unfoldable pub load_all : Files → List DirEntry → Files × List DefinitionError
  unfolding definition
  load_all files [] = (files, [])
  load_all files (e ∷ es) =
      let step = definition files e in
      let rest = load_all step.0 es in (rest.0, noted e.name step.1 rest.1)

  abbrev pub is_present : List Bytes → Bytes × CachedDefinition → Bool
  is_present names entry = contains names entry.0

  unfoldable pub prune_absent : Files → List Bytes → Files
  prune_absent files names =
      if length files == length names then files else select (is_present names) files

  -- The cache, the names of the definition files, and the errors of those that failed.
  unfoldable pub refresh : Files → Listing → Files × Outcome (List Bytes × List DefinitionError)
  unfolding load_all is_definition_file prune_absent
  refresh files missing = ([], answers ([], []))
  refresh files unreadable = (files, fails read_failed)
  refresh files (entries es) =
      let candidates = select is_candidate es in
      let names = map (λ e. e.name) candidates in
      let loaded = load_all files candidates in
      (prune_absent loaded.0 names, answers (names, loaded.1))
