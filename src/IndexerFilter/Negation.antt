-- ===== src/IndexerFilter/Negation.antt =====
-- A leading "!" of a term negates it.
use mathlib.Core.Option
use jacklet.Prelude.{
  ◌≡◌, refl, sym, ap, ◌∙◌, Bool, false, [], ◌∷◌, ◌==◌, ℕ-Eq, contains, Bytes, Bytes-Eq,
}
use jacklet.Prelude.Ascii.{trim_left, before, trim_right, trim_space}
use jacklet.Prelude.Trimming.{trim_space-trim_right}
use jacklet.IndexerFilter.{
  filter_and, filter_not, filter_or, complement, parse_name_value, parse_trimmed, parse_filter_term,
  parse_indexer_filter,
}
use jacklet.IndexerFilter.Operators.{one_group, one_term}

abbrev pub starts_with_not : Bytes → Bool
starts_with_not [] = false
starts_with_not (b ∷ s) = b == filter_not

trimmed_plain :
    (term : Bytes) → starts_with_not term ≡ false → parse_trimmed term ≡ parse_name_value term
trimmed_plain [] h = refl
trimmed_plain (b ∷ term) h = rw h refl

plain_term :
    (term : Bytes)
    → starts_with_not (trim_space term) ≡ false
    → parse_filter_term term ≡ parse_name_value (trim_space term)
unfolding parse_filter_term
plain_term term = trimmed_plain (trim_space term)

before-bang : (s : Bytes) → before filter_not s ≡ filter_not ∷ s
before-bang [] = refl
before-bang (b ∷ s) = refl

trim_space-bang : (term : Bytes) → trim_space (filter_not ∷ term) ≡ filter_not ∷ trim_right term
unfolding trim_space trim_left trim_right
trim_space-bang term = before-bang (trim_right term)

negated_term :
    (term : Bytes)
    → parse_filter_term (filter_not ∷ term)
      ≡ Option.map complement (parse_name_value (trim_space term))
unfolding parse_filter_term
negated_term term =
    ap parse_trimmed (trim_space-bang term)
    ∙ ap (λ t. Option.map complement (parse_name_value t)) (trim_space-trim_right term)

-- A term behind a "!" covers what the term does not, spaces around either set aside, and is refused
-- when the term is; the term has no "!" of its own, and no operator.
pub bang_is_not :
    (term : Bytes)
    → starts_with_not (trim_space term) ≡ false
    → contains term filter_or ≡ false
    → contains term filter_and ≡ false
    → parse_indexer_filter (filter_not ∷ term) ≡ Option.map complement (parse_indexer_filter term)
bang_is_not term plain h k =
    one_group (filter_not ∷ term) h
    ∙ one_term (filter_not ∷ term) k
    ∙ negated_term term
    ∙ ap (Option.map complement) (sym (one_group term h ∙ one_term term k ∙ plain_term term plain))
