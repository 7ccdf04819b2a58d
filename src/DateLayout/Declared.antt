-- ===== src/DateLayout/Declared.antt =====
-- A value read by the layout that a definition declares. Parsing by a Go layout is an argument, with
-- the few operations on a time that fill in its date.
use jacklet.Prelude.{
  zero, Bool, true, false, ◌&&◌, ◌||◌, Option, none, some, List, [], ◌∷◌, if◌then◌else◌, ◌==◌, ℕ-Eq,
  contains, Bytes, codes, Bytes-Eq,
}
use jacklet.Prelude.Ascii.{to_lower, has_prefix}
use jacklet.Prelude.Int.{ℤ, pos, negsuc}
use jacklet.DateLayout.{
  DotNetLayout, Reference, Reading, exhausted, refused, accepted, layout_has_date,
  go_layout_from_dot_net, is_lone_designator, is_short_offset, is_lone_digit, complete_designator,
  pad_digit, pad_offset_digit, passes,
}

unfoldable pub widened_values : DotNetLayout → Bytes → List Bytes
unfolding passes
widened_values l value = passes is_lone_digit pad_digit l.short_years true (
    passes is_short_offset pad_offset_digit l.short_offsets true
      (passes is_lone_designator complete_designator l.designators false (value ∷ [])))

unfoldable pub looks_like_dot_net_layout : Bytes → Bool
unfolding to_lower
looks_like_dot_net_layout layout =
    let lowered = to_lower layout in
    contains lowered b'y' || (contains lowered b'h' || contains lowered b'd')

unfoldable pub has_pm : Bytes → Bool
unfolding has_prefix
has_pm [] = false
has_pm (b ∷ s) = let rest = has_pm s in has_prefix (b ∷ s) (codes "PM") || rest

-- `strings.ReplaceAll(layout, "PM", "pm")`
unfoldable pub lower_pm : Bytes → Bytes
lower_pm [] = []
lower_pm (b ∷ []) = b ∷ []
lower_pm (b ∷ c ∷ s) =
    let replaced = lower_pm s in
    let rest = lower_pm (c ∷ s) in
    if b == b'P' && c == b'M' then b'p' ∷ b'm' ∷ replaced else b ∷ rest

-- What is used of package time: `parse` reads a value by a Go layout in the local zone, `with_date`
-- gives a time of day the date of the first argument.
pub record Times (T : Type 0) : Type 0 where
  pub parse : Bytes → Bytes → Option T
  pub year : T → ℤ
  pub add_years : ℤ → T → T
  pub after : T → T → Bool
  pub with_date : T → T → T
  pub format_at : Reference → Bytes → Bytes

abbrev pub minus_one : ℤ
minus_one = negsuc 0

module _ {T : Type 0} (times : Times T) (now : T) where
  abbrev pub rolled_back : Bool → T → T
  rolled_back future dated =
      if future && times.after dated now then times.add_years minus_one dated else dated

  abbrev pub without_year : T → Bytes → Bool → T
  unfolding layout_has_date
  without_year parsed layout future =
      if layout_has_date times.format_at layout
      then rolled_back future (times.add_years (times.year now) parsed)
      else times.with_date now parsed

  unfoldable pub resolve_missing_date : T → Bytes → Bool → T
  unfolding layout_has_date
  resolve_missing_date parsed layout future = elim (times.year parsed) [
    | pos zero ↦ without_year parsed layout future
    | _ ↦ parsed
  ]

  abbrev pub or_lower_pm : Option T → Bytes → Bytes → Option T
  unfolding has_pm lower_pm
  or_lower_pm (some parsed) value layout = some parsed
  or_lower_pm none value layout =
      if has_pm layout then times.parse (lower_pm layout) value else none

  unfoldable pub parse_either_case : Bytes → Bytes → Option T
  unfolding has_pm lower_pm
  parse_either_case value layout = or_lower_pm (times.parse layout value) value layout

  -- The loop over the variants of a value.
  unfoldable pub parse_candidates : List Bytes → Bytes → Option T
  unfolding parse_either_case resolve_missing_date
  parse_candidates [] layout = none
  parse_candidates (candidate ∷ candidates) layout =
      let rest = parse_candidates candidates layout in
      elim (parse_either_case candidate layout) [
        | none ↦ rest
        | some parsed ↦ some (resolve_missing_date parsed layout false)
      ]

  abbrev pub parse_converted : Reading → Bytes → Option T
  unfolding widened_values parse_candidates
  parse_converted exhausted value = none
  parse_converted refused value = none
  parse_converted (accepted converted) value =
      parse_candidates (widened_values converted value) converted.layout

  abbrev pub parse_as_dot_net : Bytes → Bytes → Option T
  unfolding looks_like_dot_net_layout go_layout_from_dot_net parse_converted
  parse_as_dot_net value layout =
      if looks_like_dot_net_layout layout
      then parse_converted (go_layout_from_dot_net times.format_at layout) value
      else none

  abbrev pub parse_as_go : Bytes → Bytes → Option T
  unfolding parse_either_case resolve_missing_date
  parse_as_go value layout = elim (parse_either_case value layout) [
    | none ↦ none
    | some parsed ↦ some (resolve_missing_date parsed layout true)
  ]

  unfoldable pub parse_declared_layout : Bytes → Bytes → Option T
  unfolding parse_as_dot_net parse_as_go
  parse_declared_layout value layout = elim (parse_as_dot_net value layout) [
    | none ↦ parse_as_go value layout
    | some parsed ↦ some parsed
  ]
