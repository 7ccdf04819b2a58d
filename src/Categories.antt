-- ===== src/Categories.antt =====
-- pkg/scraper/categories.go: the Torznab categories that a search and a definition name. SHA-1 is an
-- argument where a tracker's own category is numbered by it; text is ASCII.
mod Standard
mod Group
mod Expanded
mod Custom
mod Site
pub mod Listed
mod Supported
mod Tests
pub use Standard.*
use jacklet.Prelude.{
  ℕ, zero, suc, ◌+◌, ◌-◌, ◌*◌, ◌/◌, ◌%◌, ◌^◌, ◌≤◌, ◌<◌, min, max, ◌≡◌, refl, sym, ap, ap₂, ◌∙◌,
  subst, fun_ext, ◌≡⟨◌⟩◌, ◌∎, ◌≢◌, ◌↔◌, ◌⊎◌, inl, inr, Bool, true, false, not, ◌&&◌, ◌||◌, Option,
  none, some, List, [], ◌∷◌, ◌++◌, map, append_assoc, append-nil, arith, ltb, leb, nat_eq,
  if◌then◌else◌, ltb→lt, lt→ltb, leb→le, le→leb, nat_eq_iff, tests, Bool-cases, Option-cases, Eq,
  ◌==◌, ℕ-Eq, beq_refl, beq_eq, beq_ne, ne_beq, length, get_elem?, take, drop, All, Any, select,
  length-append, take_append, drop_append, take-append-drop, length-take, length-drop, All-append,
  All-map, contains, Bytes, codes, bytes_eq, bytes_eq_iff, Bytes-Eq,
}
use jacklet.Tracker.{
  CategoryMapping, Modes, Caps, Tracker, tracker_id, default_search_modes, declared_params,
  search_modes, default_ids, default_category_ids,
}
use jacklet.Prelude.Int.{ℤ, pos, negsuc}
use jacklet.Prelude.Decimal.{
  is_digit, is_all_digits, value_from, value, parse_digits, negate, parse_int, atoi, emit, itoa,
}
use jacklet.Prelude.Ascii.{
  is_space, trim_left, before, trim_right, trim_space, lower, to_lower, equal_fold, has_prefix, cut,
  trim_left-space,
}
use jacklet.Prelude.Sorting.{
  bytes_le, insert_by, sort_by, le_total, le_antisym, le_trans, Above, IsSorted, Above-le,
  insert_by-Above, insert_by-IsSorted, sort_by-IsSorted, insert_by_head, sort_by_sorted, itself,
  contains-insert_by, contains-sort_by,
}

abbrev pub category_group_size : ℕ
category_group_size = 1000

abbrev pub custom_category_base : ℕ
custom_category_base = 100_000

abbrev find : List (Bytes × ℕ) → Bytes → Option ℕ
find [] name = none
find ((n, id) ∷ rest) name = let found = find rest name in if n == name then some id else found

-- `standardCategoryIDs[name]`
unfoldable pub standard_id : Bytes → Option ℕ
unfolding standard_category_ids
standard_id name = find standard_category_ids name

unfoldable pub children : ℕ → List Bytes
unfolding standard_category_ids itoa
children parent =
    map (λ e. itoa e.1)
      (select (λ e. ltb parent e.1 && ltb e.1 (parent + category_group_size)) standard_category_ids)

abbrev pub expand_number : Option ℤ → List Bytes
expand_number none = []
expand_number (some (negsuc n)) = []
expand_number (some (pos n)) = if n % category_group_size == 0 then children n else []

-- What one requested category adds to the set.
unfoldable pub expand_one : Bytes → List Bytes
unfolding atoi children
expand_one c = c ∷ expand_number (atoi c)

unfoldable pub add_all : List Bytes → List Bytes → List Bytes
add_all [] set = set
add_all (c ∷ cs) set = add_all cs (if contains set c then set else set ++ c ∷ [])

unfoldable pub expand_into : List Bytes → List Bytes → List Bytes
unfolding expand_one add_all
expand_into [] set = set
expand_into (c ∷ requested) set = expand_into requested (add_all (expand_one c) set)

unfoldable pub expand_category_ids : List Bytes → List Bytes
unfolding expand_into sort_by
expand_category_ids requested = sort_by (λ c. c) (expand_into requested [])

-- The number of a tracker's own category; a number that `int32` holds, else two bytes of the hash.
unfoldable pub custom_category_id : (Bytes → Bytes) → CategoryMapping → Option ℤ
unfolding parse_int
custom_category_id sha1 m = if m.desc == [] then none else elim (parse_int 32 m.id) [
  | some n ↦ some (from_base n)
  | none ↦ some (pos (custom_category_base + little_endian (sha1 m.id)))
]
  where
    from_base : ℤ → ℤ
    from_base (pos n) = pos (custom_category_base + n)
    from_base (negsuc n) =
        if ltb n custom_category_base
        then pos (custom_category_base - (n + 1))
        else negsuc (n - custom_category_base)

    little_endian : Bytes → ℕ
    little_endian (a ∷ b ∷ s) = a + 256 * b
    little_endian s = 0

unfoldable pub int_text : ℤ → Bytes
unfolding itoa
int_text (pos n) = itoa n
int_text (negsuc n) = b'-' ∷ itoa (n + 1)

-- A mapping names a wanted category: its standard one, or the tracker's own.
unfoldable pub is_wanted : (Bytes → Bytes) → List Bytes → CategoryMapping → Bool
unfolding standard_id custom_category_id int_text itoa
is_wanted sha1 wanted m = elim (standard_id m.cat) [
  | none ↦ false
  | some id ↦ elim (custom_category_id sha1 m) [
    | none ↦ contains wanted (itoa id)
    | some custom ↦ contains wanted (itoa id) || contains wanted (int_text custom)
  ]
]

-- The loop over the mappings, with the ids seen so far.
unfoldable pub site_ids :
    (Bytes → Bytes) → List Bytes → List Bytes → List CategoryMapping → List Bytes
unfolding is_wanted
site_ids sha1 wanted seen [] = []
site_ids sha1 wanted seen (m ∷ mappings) =
    let rest = site_ids sha1 wanted seen mappings in
    let more = site_ids sha1 wanted (m.id ∷ seen) mappings in
    if is_wanted sha1 wanted m && not (contains seen m.id) then m.id ∷ more else rest

unfoldable pub site_category_ids : (Bytes → Bytes) → List CategoryMapping → List Bytes → List Bytes
unfolding expand_category_ids site_ids
site_category_ids sha1 mappings [] = []
site_category_ids sha1 mappings (c ∷ requested) =
    site_ids sha1 (expand_category_ids (c ∷ requested)) [] mappings
