-- ===== src/Categories/Tests.antt =====
-- Categories at concrete inputs.
use jacklet.Prelude.{
  ◌≡◌, refl, ◌↔◌, true, false, some, List, [], ◌∷◌, map, ℕ-Eq, Any, contains, Bytes, codes,
  Bytes-Eq,
}
use jacklet.Prelude.Int.{pos, ℤ-Eq}
use jacklet.Prelude.Decimal.{parse_int}
use jacklet.Prelude.Ascii.{equal_fold}
use jacklet.Tracker.{CategoryMapping, Tracker}
use jacklet.Categories.Listed.{CategoryInfo, supported_categories, add_id, map_categories}
use jacklet.Categories.Supported.{LeadsTo, Ascending, supported_iff}
use jacklet.Categories.{expand_category_ids, custom_category_id, site_category_ids}
use jacklet.Categories.Site.{Covered, site-contains}
use jacklet.Categories.Expanded.{StandsFor, expand-contains}

abbrev books : List Bytes
books = codes "7000" ∷ []

abbrev mapping : CategoryMapping
mapping = record {
  cat = codes "Books/Mags";
  is_default = false;
  desc = codes "Magazines";
  id = codes "12";
}

no_hash : Bytes → Bytes
no_hash s = s

magazines : custom_category_id no_hash mapping ≡ some (pos 100_012)
unfolding custom_category_id parse_int
magazines = refl

expand-contains_example :
    (contains (expand_category_ids books) (codes "7010") ≡ true)
    ↔ Any (StandsFor (codes "7010")) books
expand-contains_example = expand-contains books (codes "7010")

-- A hash of twenty bytes.
abbrev one_hash : Bytes → Bytes
one_hash s = codes "0123456789abcdefghij"

site-contains_example :
    (contains (site_category_ids one_hash (mapping ∷ []) books) (codes "12") ≡ true)
    ↔ Any (λ m. (m.id ≡ codes "12") × Covered one_hash books m) (mapping ∷ [])
site-contains_example =
    site-contains one_hash (λ s. refl) (mapping ∷ []) (codes "7000") [] (codes "12")

abbrev two_categories : Tracker
two_categories = record {
  caps = record {
    allow_raw_search = false;
    allow_tv_search_imdb = false;
    category_mappings =
        mapping
        ∷ record { cat = codes "Books"; is_default = false; desc = []; id = codes "3" }
        ∷ record { cat = codes "Paper"; is_default = false; desc = codes "Paper"; id = codes "4" }
        ∷ [];
    modes = [];
  };
  description = [];
  id = codes "papers";
  language = [];
  name = codes "Papers";
  replaces = [];
  tracker_type = codes "public";
}

advertised :
    map (λ (c : CategoryInfo). c.id) (supported_categories two_categories)
    ≡ pos 7000 ∷ pos 7010 ∷ []
unfolding supported_categories
advertised = refl

row_category : map_categories no_hash two_categories (codes " 12 ") ≡ pos 7010 ∷ pos 100_012 ∷ []
unfolding map_categories equal_fold custom_category_id parse_int add_id
row_category = refl

supported_iff_example :
    Ascending (supported_categories two_categories)
    × (Any (λ info. info.id ≡ pos 7010) (supported_categories two_categories)
        ↔ Any (LeadsTo 7010) two_categories.caps.category_mappings)
supported_iff_example = supported_iff two_categories 7010
