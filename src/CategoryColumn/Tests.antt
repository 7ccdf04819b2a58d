-- ===== src/CategoryColumn/Tests.antt =====
-- The column at concrete inputs, with an `instr` written out.
use jacklet.Prelude.{
  ℕ, ◌+◌, ◌<◌, ◌≡◌, refl, sym, ap, ◌∙◌, subst, ◌↔◌, inl, inr, true, none, some, [], ◌∷◌, ◌++◌,
  arith, if◌then◌else◌, Bool-cases, ◌==◌, ℕ-Eq, Any, Bytes, codes, Bytes-Eq,
}
use jacklet.Prelude.Int.{pos, negsuc}
use jacklet.Prelude.Decimal.{atoi, itoa}
use jacklet.Prelude.Options.{traverse}
use jacklet.Prelude.Split.{split, join}
use jacklet.Prelude.Ascii.{has_prefix}
use jacklet.Prelude.Within.{Within, prefix_rest, rest_prefix}
use jacklet.CategoryColumn.{
  CategoryList, itoa_int, column_value, text, bytes, scan_text, scan, category_needle,
  category_match,
}
use jacklet.CategoryColumn.RoundTrip.{scan-column_value}
use jacklet.CategoryColumn.Match.{FindsText, category_match_iff}

abbrev ids : CategoryList
ids = pos 2040 ∷ pos 20400 ∷ negsuc 6 ∷ []

written : column_value ids ≡ codes "2040,20400,-7"
unfolding column_value join itoa_int itoa
written = refl

bad_column : scan (text (codes "2040,")) ≡ none
unfolding scan scan_text split traverse atoi
bad_column = refl

-- The place of the first occurrence, counted from one, and 0 for none.
instr : Bytes → Bytes → ℕ
instr [] t = if has_prefix [] t then 1 else 0
instr (b ∷ s) t =
    let rest = instr s t in if has_prefix (b ∷ s) t then 1 else if rest == 0 then 0 else rest + 1

found : (s t : Bytes) → 0 < instr s t → Within t s
unfolding instr
found [] t h = let (r, e) = prefix_rest [] t (ground arith) in ([], r, e)
found (b ∷ s) t h = elim (Bool-cases (has_prefix (b ∷ s) t)) [
  | inl p ↦ let (r, e) = prefix_rest (b ∷ s) t p in ([], r, e)
  | inr p ↦ let (a, r, e) = found s t (ground arith) in (b ∷ a, r, ap (λ u. b ∷ u) e)
]

at_start : (t b s : Bytes) → s ≡ t ++ b → 0 < instr s t
unfolding instr
at_start t b [] e =
    let p : has_prefix [] t ≡ true = ap (λ u. has_prefix u t) e ∙ rest_prefix t b in
    rw p (omega arith)
at_start t b (c ∷ s) e =
    let p : has_prefix (c ∷ s) t ≡ true = ap (λ u. has_prefix u t) e ∙ rest_prefix t b in
    rw p (omega arith)

finds_at : (a t b : Bytes) → 0 < instr (a ++ (t ++ b)) t
unfolding instr
finds_at [] t b = at_start t b (t ++ b) refl
finds_at (c ∷ a) t b = ground (arith, finds_at a t b)

instr-FindsText : FindsText instr
instr-FindsText s t = (found s t, λ (a, b, e). subst (λ u. 0 < instr u t) (sym e) (finds_at a t b))

scan-column_value_example :
    (scan (text (column_value ids)) ≡ some ids) × (scan (bytes (column_value ids)) ≡ some ids)
scan-column_value_example = scan-column_value ids (omega arith, (omega arith, (omega arith, tt)))

category_match_iff_example :
    (category_match instr (column_value ids) (category_needle (codes "20400")) ≡ true)
    ↔ Any (λ z. itoa_int z ≡ codes "20400") ids
category_match_iff_example =
    category_match_iff instr ids (codes "20400") instr-FindsText (λ h. cc) refl
