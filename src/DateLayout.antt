-- ===== src/DateLayout.antt =====
-- pkg/scraper/datelayout.go: a .NET date format as the Go layout that means the same, and the
-- values that such a layout reads. Writing the three reference times by a layout is an argument.
mod Tokens
mod Widening
mod Pieces
mod Table
mod Steps
mod Convert
mod Formats
mod Runs
mod Spelling
mod Declared
mod Variants
mod Tests
unfoldable pub use Tokens.*
unfoldable pub use Widening.*
use jacklet.Prelude.{
  ℕ, zero, suc, ◌+◌, ◌-◌, ◌*◌, ◌/◌, ◌%◌, ◌^◌, ◌≤◌, ◌<◌, min, max, ◌≡◌, refl, sym, ap, ap₂, ◌∙◌,
  subst, fun_ext, ◌≡⟨◌⟩◌, ◌∎, ◌≢◌, ◌↔◌, ◌⊎◌, inl, inr, Bool, true, false, not, ◌&&◌, ◌||◌, Option,
  none, some, List, [], ◌∷◌, ◌++◌, map, append_assoc, append-nil, arith, ltb, leb, nat_eq,
  if◌then◌else◌, ltb→lt, lt→ltb, leb→le, le→leb, nat_eq_iff, tests, Bool-cases, Option-cases, Eq,
  ◌==◌, ℕ-Eq, beq_refl, beq_eq, beq_ne, ne_beq, length, get_elem?, take, drop, All, Any, select,
  length-append, take_append, drop_append, take-append-drop, length-take, length-drop, All-append,
  All-map, contains, Bytes, codes, bytes_eq, bytes_eq_iff, Bytes-Eq, contains-append,
}
use jacklet.Prelude.Ascii.{
  is_space, trim_left, before, trim_right, trim_space, lower, to_lower, equal_fold, has_prefix, cut,
  trim_left-space,
}

pub record DotNetLayout : Type 0 where
  pub designators : ℕ
  pub layout : Bytes
  pub short_offsets : ℕ
  pub short_years : ℕ

abbrev pub new_layout : DotNetLayout
new_layout = record { designators = 0; layout = []; short_offsets = 0; short_years = 0 }

-- The layout so far, and the literal text that is not yet written to it.
pub record Conversion : Type 0 where
  pub converted : DotNetLayout
  pub literal : Bytes

abbrev pub one_if : Bool → ℕ → ℕ
one_if b n = if b then suc n else n

unfoldable pub write_token : DotNetToken → DotNetLayout → DotNetLayout
write_token t l = record {
  designators = one_if (t.dot_net == codes "t") l.designators;
  layout = l.layout ++ t.golang;
  short_offsets = one_if (t.dot_net == codes "z") l.short_offsets;
  short_years = one_if (t.dot_net == codes "y") l.short_years;
}

pub data Reference : Type 0 where
  monday sunday elsewhere : Reference

-- A conversion's end: `exhausted` is that of the model's fuel.
pub data Reading : Type 0 where
  exhausted refused : Reading
  accepted : DotNetLayout → Reading

abbrev pub write_literal : Bytes → Conversion → Conversion
write_literal text st = record st { literal = st.literal ++ text }

unfoldable pub next_escaped : Bytes → Conversion → Option (Bytes × Conversion)
next_escaped [] st = none
next_escaped (b ∷ s) st = some (s, write_literal (b ∷ []) st)

unfoldable pub next_quoted : Option (Bytes × Bytes) → Conversion → Option (Bytes × Conversion)
next_quoted none st = none
next_quoted (some (text, s)) st = some (s, write_literal text st)

abbrev pub token_written : DotNetToken → Bytes → Option DotNetLayout → Option (Bytes × Conversion)
unfolding write_token
token_written t s none = none
token_written t s (some l) = some (s, record { converted = write_token t l; literal = [] })

abbrev pub ended : Option DotNetLayout → Reading
ended none = refused
ended (some l) = accepted l

module _ (format_at : Reference → Bytes → Bytes) where
  unfoldable pub literal_is_inert : Bytes → Bool
  literal_is_inert text =
      format_at monday text == text
      && (format_at sunday text == text && format_at elsewhere text == text)

  unfoldable pub layout_has_date : Bytes → Bool
  layout_has_date layout = not (format_at monday layout == format_at sunday layout)

  unfoldable pub flush_literal : Conversion → Option DotNetLayout
  unfolding literal_is_inert
  flush_literal st =
      if literal_is_inert st.literal
      then some (record st.converted { layout = st.converted.layout ++ st.literal })
      else none

  unfoldable pub next_token :
      ℕ → Bytes → Option (DotNetToken × ℕ) → Conversion → Option (Bytes × Conversion)
  unfolding flush_literal token_written
  next_token c s none st = some (s, write_literal (c ∷ []) st)
  next_token c s (some (t, consumed)) st =
      token_written t (drop consumed (c ∷ s)) (flush_literal st)

  -- One turn of the loop over the format `c ∷ s`: what is left of it, unless it is refused.
  unfoldable pub next : ℕ → Bytes → Conversion → Option (Bytes × Conversion)
  unfolding next_escaped next_quoted next_token match_dot_net_token cut
  next c s st =
      if c == b'\\'
      then next_escaped s st
      else if c == b'\'' || c == b'"'
      then next_quoted (cut c s) st
      else next_token c s (match_dot_net_token c s) st

  unfoldable pub convert : ℕ → Bytes → Conversion → Reading
  unfolding next flush_literal
  convert zero s st = exhausted
  convert (suc n) [] st = ended (flush_literal st)
  convert (suc n) (c ∷ s) st = elim (next c s st) [ none ↦ refused | some r ↦ convert n r.0 r.1 ]

  unfoldable pub go_layout_from_dot_net : Bytes → Reading
  unfolding convert
  go_layout_from_dot_net format =
      convert (suc (length format)) format (record { converted = new_layout; literal = [] })
