-- ===== src/CategoryColumn.antt =====
-- pkg/database/categories.go: a row's categories as the "categories" column holds them, and the
-- condition that finds a row by one of them. SQLite's `instr` is an argument of the condition.
mod RoundTrip
mod Match
mod Tests
use jacklet.Prelude.{
  ℕ, zero, suc, ◌+◌, ◌-◌, ◌*◌, ◌/◌, ◌%◌, ◌^◌, ◌≤◌, ◌<◌, min, max, ◌≡◌, refl, sym, ap, ap₂, ◌∙◌,
  subst, fun_ext, ◌≡⟨◌⟩◌, ◌∎, ◌≢◌, ◌↔◌, ◌⊎◌, inl, inr, Bool, true, false, not, ◌&&◌, ◌||◌, Option,
  none, some, List, [], ◌∷◌, ◌++◌, map, append_assoc, append-nil, arith, ltb, leb, nat_eq,
  if◌then◌else◌, ltb→lt, lt→ltb, leb→le, le→leb, nat_eq_iff, tests, Bool-cases, Option-cases, Eq,
  ◌==◌, ℕ-Eq, beq_refl, beq_eq, beq_ne, ne_beq, length, get_elem?, take, drop, All, Any, select,
  length-append, take_append, drop_append, take-append-drop, length-take, length-drop, All-append,
  All-map, contains, Bytes, codes, bytes_eq, bytes_eq_iff, Bytes-Eq,
}
use jacklet.Prelude.Int.{ℤ, pos, negsuc}
use jacklet.Prelude.Decimal.{
  is_digit, is_all_digits, value_from, value, parse_digits, parse_int, atoi, emit, itoa,
}
use jacklet.Prelude.Options.{both, traverse, traverse-append, traverse-map}
use jacklet.Prelude.Split.{
  extend, split, join, split-nonempty, split-append, split-single, split-join,
}

abbrev pub CategoryList : Type 0
CategoryList = List ℤ

-- Go's Itoa on a signed integer.
unfoldable pub itoa_int : ℤ → Bytes
unfolding itoa
itoa_int (pos n) = itoa n
itoa_int (negsuc n) = b'-' ∷ itoa (n + 1)

unfoldable pub column_value : CategoryList → Bytes
unfolding join itoa_int
column_value ids = join b',' (map itoa_int ids)

-- What a driver hands to `Scan`.
pub data Source : Type 0 where
  text : Bytes → Source
  bytes : Bytes → Source
  unexpected : Source

unfoldable pub scan_text : Bytes → Option CategoryList
unfolding split traverse atoi
scan_text [] = some []
scan_text (b ∷ s) = traverse atoi (split b',' (b ∷ s))

unfoldable pub scan : Source → Option CategoryList
unfolding scan_text
scan (text s) = scan_text s
scan (bytes s) = scan_text s
scan unexpected = none

unfoldable pub category_needle : Bytes → Bytes
category_needle category = b',' ∷ (category ++ b',' ∷ [])

-- `instr(',' || categories || ',', needle) > 0`
unfoldable pub category_match : (Bytes → Bytes → ℕ) → Bytes → Bytes → Bool
category_match instr categories needle = ltb 0 (instr (b',' ∷ (categories ++ b',' ∷ [])) needle)
