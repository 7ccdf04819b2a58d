-- ===== src/Categories/Listed.antt =====
-- The categories that a definition's mappings lead to: those that it can serve, its own ones, and
-- those of a row. A Go map from numbers to names is a list of entries with each number once.
use jacklet.Prelude.{
  ℕ, Option, none, some, List, [], ◌∷◌, map, leb, if◌then◌else◌, ◌==◌, ℕ-Eq, Bytes, Bytes-Eq, Bool,
  false, not, ◌++◌, contains,
}
use jacklet.Prelude.Int.{ℤ, pos, ℤ-Eq}
use jacklet.Prelude.Ascii.{trim_space, to_lower, equal_fold}
use jacklet.Prelude.Sorting.{bytes_le}
use jacklet.Tracker.{CategoryMapping, Tracker}
use jacklet.Categories.{standard_id, custom_category_id}

pub record CategoryInfo : Type 0 where
  pub id : ℤ
  pub name : Bytes

abbrev pub Names : Type 0
Names = List (ℕ × Bytes)

-- `names[id] = name`
unfoldable pub put_name : ℕ → Bytes → Names → Names
put_name id name [] = (id, name) ∷ []
put_name id name ((i, n) ∷ names) =
    let rest = put_name id name names in if i == id then (id, name) ∷ names else (i, n) ∷ rest

unfoldable pub noted_name : Option ℕ → Bytes → Names → Names
unfolding put_name
noted_name none name names = names
noted_name (some id) name names = put_name id name names

unfoldable pub standard_names : List CategoryMapping → Names → Names
unfolding standard_id noted_name
standard_names [] names = names
standard_names (m ∷ mappings) names =
    standard_names mappings (noted_name (standard_id m.cat) m.cat names)

-- `sort.Ints` over the numbers, each with its name.
unfoldable pub insert_id : ℕ × Bytes → Names → Names
insert_id e [] = e ∷ []
insert_id e (f ∷ names) = if leb e.0 f.0 then e ∷ f ∷ names else f ∷ insert_id e names

unfoldable pub sorted_ids : Names → Names
unfolding insert_id
sorted_ids [] = []
sorted_ids (e ∷ names) = insert_id e (sorted_ids names)

abbrev pub info_of : ℕ × Bytes → CategoryInfo
info_of e = record { id = pos e.0; name = e.1 }

unfoldable pub supported_categories : Tracker → List CategoryInfo
unfolding standard_names sorted_ids
supported_categories def = map info_of (sorted_ids (standard_names def.caps.category_mappings []))

unfoldable pub add_id : ℤ → List ℤ → List ℤ
add_id id ids = if contains ids id then ids else ids ++ id ∷ []

abbrev pub add_custom : Option ℤ → List ℤ → List ℤ
add_custom none ids = ids
add_custom (some id) ids = add_id id ids

module _ (sha1 : Bytes → Bytes) where
  abbrev pub add_mapped : CategoryMapping → Option ℕ → List ℤ → List ℤ
  add_mapped m none ids = ids
  add_mapped m (some id) ids = add_custom (custom_category_id sha1 m) (add_id (pos id) ids)

  unfoldable pub mapped_into :
      (CategoryMapping → Bytes) → Bytes → List CategoryMapping → List ℤ → List ℤ
  unfolding equal_fold standard_id custom_category_id
  mapped_into key raw [] ids = ids
  mapped_into key raw (m ∷ mappings) ids =
      mapped_into key raw mappings
        (if equal_fold (key m) raw then add_mapped m (standard_id m.cat) ids else ids)

  abbrev pub mapped_unless_empty : (CategoryMapping → Bytes) → Bytes → List CategoryMapping → List ℤ
  mapped_unless_empty key [] mappings = []
  mapped_unless_empty key (b ∷ raw) mappings = mapped_into key (b ∷ raw) mappings []

  unfoldable pub mapped_categories : Tracker → Bytes → (CategoryMapping → Bytes) → List ℤ
  unfolding trim_space mapped_into
  mapped_categories def raw key =
      mapped_unless_empty key (trim_space raw) def.caps.category_mappings

  unfoldable pub map_categories : Tracker → Bytes → List ℤ
  unfolding mapped_categories
  map_categories def raw = mapped_categories def raw (λ m. m.id)

  unfoldable pub map_category_descs : Tracker → Bytes → List ℤ
  unfolding mapped_categories
  map_category_descs def raw = mapped_categories def raw (λ m. m.desc)

  unfoldable pub custom_of : CategoryMapping → Option ℕ → Option ℤ
  unfolding custom_category_id
  custom_of m none = none
  custom_of m (some id) = custom_category_id sha1 m

  abbrev pub is_new : List ℤ → Option ℤ → Bool
  is_new seen none = false
  is_new seen (some id) = not (contains seen id)

  abbrev pub seen_with : Option ℤ → List ℤ → List ℤ
  seen_with none seen = seen
  seen_with (some id) seen = id ∷ seen

  abbrev pub listed : Option ℤ → Bytes → List CategoryInfo → List CategoryInfo
  listed none desc infos = infos
  listed (some id) desc infos = record { id = id; name = desc } ∷ infos

  -- The loop over the mappings, with the numbers seen so far.
  unfoldable pub customs : List ℤ → List CategoryMapping → List CategoryInfo
  unfolding standard_id custom_of
  customs seen [] = []
  customs seen (m ∷ mappings) =
      let custom = custom_of m (standard_id m.cat) in
      let rest = customs seen mappings in
      let more = customs (seen_with custom seen) mappings in
      if is_new seen custom then listed custom m.desc more else rest

-- `compareNames(a, b) <= 0`
unfoldable pub name_le : Bytes → Bytes → Bool
unfolding to_lower bytes_le
name_le a b = if to_lower a == to_lower b then bytes_le b a else bytes_le (to_lower a) (to_lower b)

unfoldable pub insert_named : CategoryInfo → List CategoryInfo → List CategoryInfo
unfolding name_le
insert_named x [] = x ∷ []
insert_named x (y ∷ ys) = if name_le x.name y.name then x ∷ y ∷ ys else y ∷ insert_named x ys

-- A stable sort by name.
unfoldable pub sort_named : List CategoryInfo → List CategoryInfo
unfolding insert_named
sort_named [] = []
sort_named (x ∷ xs) = insert_named x (sort_named xs)

unfoldable pub custom_categories : (Bytes → Bytes) → Tracker → List CategoryInfo
unfolding customs sort_named
custom_categories sha1 def = sort_named (customs sha1 [] def.caps.category_mappings)
