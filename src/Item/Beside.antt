-- ===== src/Item/Beside.antt =====
-- The optional texts among an item's other attributes.
use jacklet.Prelude.{
  ◌≡◌, refl, sym, ap, ◌∙◌, Bool, true, false, not, ◌&&◌, none, List, [], ◌∷◌, if◌then◌else◌,
  and_parts, negated, ◌==◌, ℕ-Eq, ne_beq, All, All-append, contains, Bytes, codes, Bytes-Eq,
}
use jacklet.Prelude.Int.{ℤ, ℤ-Eq}
use jacklet.Item.{
  Torrent, Attribute, attribute, is_positive_int, present, category_attributes, optional_attributes,
  counted, numbered, attributes,
}
use jacklet.Item.Lookup.{value_of, once, Found, present-Found, surrounded}

-- The names of the attributes that are not optional texts.
abbrev other_names : List Bytes
other_names =
    codes "category"
    ∷ codes "seeders"
    ∷ codes "leechers"
    ∷ codes "peers"
    ∷ codes "size"
    ∷ codes "grabs"
    ∷ codes "downloadvolumefactor"
    ∷ codes "uploadvolumefactor"
    ∷ codes "year"
    ∷ codes "files"
    ∷ codes "minimumratio"
    ∷ codes "minimumseedtime"
    ∷ []

abbrev Other : Attribute → Type 0
Other a = contains other_names a.name ≡ true

no_clash : true ≡ false → ⊥
no_clash e = cc

value_of-Other :
    (n : Bytes) (xs : List Attribute)
    → contains other_names n ≡ false
    → All Other xs
    → value_of n xs ≡ none
value_of-Other n [] h os = refl
value_of-Other n (x ∷ xs) h (o, os) =
    let apart : (x.name == n) ≡ false =
      ne_beq x.name n (λ e. no_clash (sym o ∙ ap (contains other_names) e ∙ h)) in
    rw apart (value_of-Other n xs h os)

categories-Other : (categories : List ℤ) → All Other (category_attributes categories)
unfolding category_attributes
categories-Other [] = tt
categories-Other (c ∷ categories) = (refl, categories-Other categories)

when-Other :
    (b : Bool) (n v : Bytes)
    → contains other_names n ≡ true
    → All Other (if b then attribute n v ∷ [] else [])
when-Other true n v h = (h, tt)
when-Other false n v h = tt

abbrev all_other : List Attribute → Bool
all_other [] = true
all_other (a ∷ attrs) = contains other_names a.name && all_other attrs

abbrev none_other : List Attribute → Bool
none_other [] = true
none_other (a ∷ attrs) = not (contains other_names a.name) && none_other attrs

all_other-Other : (attrs : List Attribute) → all_other attrs ≡ true → All Other attrs
all_other-Other [] h = tt
all_other-Other (a ∷ attrs) h =
    let (here, rest) = and_parts (contains other_names a.name) (all_other attrs) h in
    (here, all_other-Other attrs rest)

module _ {F : Type 0} (format_factor : F → Bytes) (is_positive : F → Bool) where
  counted-Other : (row : Torrent F) → All Other (counted format_factor is_positive row)
  unfolding counted
  counted-Other row = all_other-Other (counted format_factor is_positive row) refl

  numbered-Other : (row : Torrent F) → All Other (numbered format_factor is_positive row)
  unfolding numbered
  numbered-Other row =
      All-append Other _ _ (when-Other (is_positive_int row.year) (codes "year") _ refl) (
        All-append Other _ _ (when-Other (is_positive_int row.files) (codes "files") _ refl) (
          All-append Other _ _
            (when-Other (is_positive row.minimum_ratio) (codes "minimumratio") _ refl)
            (when-Other (is_positive_int row.minimum_seed_time) (codes "minimumseedtime") _ refl)))

  -- What is found beside the optional texts.
  around-Found :
      (row : Torrent F) (a : Attribute)
      → contains other_names a.name ≡ false
      → Found (present (optional_attributes row)) a
      → Found (attributes format_factor is_positive row) a
  unfolding attributes
  around-Found row a h found =
      surrounded a.name (category_attributes row.categories) (counted format_factor is_positive row)
        (present (optional_attributes row)) (numbered format_factor is_positive row)
        (value_of-Other a.name (category_attributes row.categories) h
          (categories-Other row.categories))
        (value_of-Other a.name (counted format_factor is_positive row) h (counted-Other row))
        (value_of-Other a.name (numbered format_factor is_positive row) h (numbered-Other row))
      ∙ found

  each_beside :
      (row : Torrent F) (attrs : List Attribute)
      → none_other attrs ≡ true
      → All (Found (present (optional_attributes row))) attrs
      → All (Found (attributes format_factor is_positive row)) attrs
  each_beside row [] h found = tt
  each_beside row (a ∷ attrs) h (here, found) =
      let (apart, rest) = and_parts (not (contains other_names a.name)) (none_other attrs) h in
      (
        around-Found row a (negated (contains other_names a.name) apart) here,
        each_beside row attrs rest found,
      )

  optional_apart : (row : Torrent F) → none_other (optional_attributes row) ≡ true
  unfolding optional_attributes
  optional_apart row = refl

  optional_once : (row : Torrent F) → once (optional_attributes row) ≡ true
  unfolding optional_attributes
  optional_once row = refl

pub each_stated :
    {F : Type 0} (format_factor : F → Bytes) (is_positive : F → Bool) (row : Torrent F)
    → All (Found (attributes format_factor is_positive row)) (optional_attributes row)
each_stated format_factor is_positive row =
    each_beside format_factor is_positive row (optional_attributes row)
      (optional_apart format_factor is_positive row)
      (present-Found (optional_attributes row) (optional_once format_factor is_positive row))
