-- ===== src/DateLayout/Tests.antt =====
-- Runs of the conversion and of the variants.
use Prim.Native.String.{String}
use jacklet.Prelude.{
  ℕ, ◌≤◌, ◌≡◌, refl, ◌≢◌, ◌↔◌, some, List, [], ◌∷◌, if◌then◌else◌, ◌==◌, ℕ-Eq, length, All, Bytes,
  codes, Bytes-Eq,
}
use jacklet.DateLayout.{
  DotNetLayout, Reference, monday, sunday, elsewhere, exhausted, refused, accepted,
  literal_is_inert, go_layout_from_dot_net, max_widened_values, is_lone_designator,
  complete_designator,
}
use jacklet.DateLayout.Declared.{widened_values}
use jacklet.DateLayout.Pieces.{Piece, spelled, IsFormat, meaning}
use jacklet.DateLayout.Variants.{Distinct, Kept, widened_values_bounded}
use jacklet.DateLayout.Spelling.{converted_iff}

-- A formatter that writes only the word of a month otherwise.
unfoldable month_only : Reference → Bytes → Bytes
month_only monday text = text
month_only sunday text = if text == codes "January" then codes "July" else text
month_only elsewhere text = if text == codes "January" then codes "November" else text

abbrev layout_of : String → ℕ → ℕ → ℕ → DotNetLayout
layout_of text t z y = record {
  designators = t;
  layout = codes text;
  short_offsets = z;
  short_years = y;
}

escaped_t :
    go_layout_from_dot_net month_only (codes "yyyy-MM-dd'T'HH\\:mmz")
    ≡ accepted (layout_of "2006-01-02T15:04-07" 0 1 0)
unfolding go_layout_from_dot_net month_only
escaped_t = refl

literal_month : go_layout_from_dot_net month_only (codes "yyyy'January'dd") ≡ refused
unfolding go_layout_from_dot_net month_only
literal_month = refl

long_run :
    go_layout_from_dot_net month_only (codes "httt KK")
    ≡ accepted (layout_of "3PM Z07:00Z07:00" 0 0 0)
unfolding go_layout_from_dot_net month_only
long_run = refl

abbrev designators_alone : DotNetLayout
designators_alone = layout_of "'P' PM 03:04" 1 0 0

two_letters :
    widened_values designators_alone (codes "P A 07:30")
    ≡ codes "PM A 07:30" ∷ codes "P AM 07:30" ∷ []
unfolding widened_values is_lone_designator complete_designator
two_letters = refl

converted_iff_example :
    ((go_layout_from_dot_net month_only (codes "yy.M") ≡ accepted (layout_of "06.1" 0 0 0)) ↔ (
      (ps : List Piece) × IsFormat ps
      × (spelled ps ≡ codes "yy.M")
      × (meaning (literal_is_inert month_only) ps ≡ some (layout_of "06.1" 0 0 0))))
    × (go_layout_from_dot_net month_only (codes "yy.M") ≢ exhausted)
converted_iff_example = converted_iff month_only (codes "yy.M") (layout_of "06.1" 0 0 0)

widened_values_bounded_example :
    (length (widened_values designators_alone (codes "7 A")) ≤ max_widened_values)
    × (Distinct (widened_values designators_alone (codes "7 A"))
        × All (Kept (codes "7 A")) (widened_values designators_alone (codes "7 A")))
widened_values_bounded_example = widened_values_bounded designators_alone (codes "7 A")
