-- ===== src/CategoryColumn/Match.antt =====
-- The condition on the column finds an id whole, and no other row.
use jacklet.Prelude.{
  ℕ, ◌<◌, ◌≡◌, refl, sym, ap, ◌∙◌, subst, ◌≢◌, ◌↔◌, inl, inr, true, false, List, [], ◌∷◌, ◌++◌, map,
  append_assoc, append-nil, arith, ltb→lt, lt→ltb, ℕ-Eq, Any, contains, Bytes, Bytes-Eq,
}
use jacklet.Prelude.Split.{split, join, split-append, split-single}
use jacklet.CategoryColumn.{CategoryList, itoa_int, column_value, category_needle, category_match}
use jacklet.Prelude.Within.{Within}
use jacklet.CategoryColumn.RoundTrip.{split-column_value}

-- What SQLite documents of `instr(s, t)`: it is positive exactly where `t` stands in `s`.
abbrev pub FindsText : (Bytes → Bytes → ℕ) → Type 0
FindsText instr = (s t : Bytes) → (0 < instr s t) ↔ Within t s

abbrev wrapped : Bytes → Bytes
wrapped s = b',' ∷ (s ++ b',' ∷ [])

member_split : (c : Bytes) (xs ys : List Bytes) → Any (λ v. v ≡ c) (xs ++ c ∷ ys)
member_split c [] ys = inl refl
member_split c (x ∷ xs) ys = inr (member_split c xs ys)

fields_wrapped : (s : Bytes) → split b',' (wrapped s) ≡ [] ∷ (split b',' s ++ [] ∷ [])
unfolding split
fields_wrapped s = ap (λ ws. [] ∷ ws) (split-append b',' s [])

fields_around :
    (c a b : Bytes)
    → contains c b',' ≡ false
    → split b',' (a ++ (category_needle c ++ b)) ≡ split b',' a ++ c ∷ split b',' b
unfolding category_needle
fields_around c a b h =
    ap (λ t. split b',' (a ++ b',' ∷ t)) (append_assoc c (b',' ∷ []) b)
    ∙ split-append b',' a (c ++ b',' ∷ b)
    ∙ ap (λ ws. split b',' a ++ ws)
        (split-append b',' c b ∙ ap (λ ws. ws ++ split b',' b) (split-single b',' c h))

drop_ends :
    (c : Bytes) (ws : List Bytes)
    → c ≢ []
    → Any (λ v. v ≡ c) ([] ∷ (ws ++ [] ∷ []))
    → Any (λ v. v ≡ c) ws
drop_ends c ws ne (inl e) = absurd (ne (sym e))
drop_ends c [] ne (inr (inl e)) = absurd (ne (sym e))
drop_ends c [] ne (inr (inr none_)) = absurd none_
drop_ends c (w ∷ ws) ne (inr (inl e)) = inl e
drop_ends c (w ∷ ws) ne (inr (inr h)) = inr (drop_ends c ws ne (inr h))

-- A text wrapped in commas that stands in the wrapped column is one of its fields.
Within-field :
    (c s : Bytes)
    → c ≢ []
    → contains c b',' ≡ false
    → Within (category_needle c) (wrapped s)
    → Any (λ v. v ≡ c) (split b',' s)
Within-field c s ne h (a, b, e) = drop_ends c (split b',' s) ne (
    subst (Any (λ v. v ≡ c))
      (sym (fields_around c a b h) ∙ sym (ap (split b',') e) ∙ fields_wrapped s)
      (member_split c (split b',' a) (split b',' b)))

-- A field of the column stands in it between two commas.
field-Within :
    (c : Bytes) (ws : List Bytes)
    → Any (λ v. v ≡ c) ws
    → Within (category_needle c) (wrapped (join b',' ws))
unfolding join category_needle
field-Within c [] none_ = absurd none_
field-Within c (w ∷ []) (inl e) = ([], [], rw (sym e) (sym (append-nil (b',' ∷ (w ++ b',' ∷ [])))))
field-Within c (w ∷ []) (inr none_) = absurd none_
field-Within c (w ∷ v ∷ ws) (inl e) =
    ([], join b',' (v ∷ ws) ++ b',' ∷ [], rw (sym e) (simp append_assoc))
field-Within c (w ∷ v ∷ ws) (inr h) =
    let (a, b, e) = field-Within c (v ∷ ws) h in
    (
      b',' ∷ (w ++ a),
      b,
      ap (λ t. b',' ∷ t) (append_assoc w (b',' ∷ join b',' (v ∷ ws)) (b',' ∷ []))
          ∙ ap (λ t. b',' ∷ (w ++ t)) e
          ∙ ap (λ t. b',' ∷ t) (sym (append_assoc w a (category_needle c ++ b))),
    )

Any-texts :
    (c : Bytes) (ids : CategoryList)
    → Any (λ z. itoa_int z ≡ c) ids ↔ Any (λ v. v ≡ c) (map itoa_int ids)
Any-texts c [] = ((λ h. h), (λ h. h))
Any-texts c (z ∷ ids) = ground (arith, Any-texts c ids)

no_field : (c : Bytes) → c ≢ [] → Any (λ v. v ≡ c) (split b',' (column_value [])) → ⊥
unfolding column_value join split
no_field c ne (inl e) = ne (sym e)
no_field c ne (inr none_) = none_

column-Within :
    (c : Bytes) (ids : CategoryList)
    → Any (λ v. v ≡ c) (map itoa_int ids)
    → Within (category_needle c) (wrapped (column_value ids))
unfolding column_value
column-Within c ids h = field-Within c (map itoa_int ids) h

-- For an `instr` that finds a text exactly where it stands, the condition holds of a row exactly when
-- one of its categories is the one asked for, which is some text without a comma: no category is found inside another's digits.
pub category_match_iff :
    (instr : Bytes → Bytes → ℕ) (ids : CategoryList) (category : Bytes)
    → FindsText instr
    → category ≢ []
    → contains category b',' ≡ false
    → (category_match instr (column_value ids) (category_needle category) ≡ true)
      ↔ Any (λ z. itoa_int z ≡ category) ids
unfolding category_match
category_match_iff instr [] category finds ne h = (
  (λ yes. absurd (
      no_field category ne
        (Within-field category (column_value []) ne h ((finds _ _).0 (ltb→lt 0 _ yes))))),
  (λ none_. absurd none_),
)
category_match_iff instr (z ∷ ids) category finds ne h = (
  (λ yes. (Any-texts category (z ∷ ids)).1 (
      subst (Any (λ v. v ≡ category)) (split-column_value z ids)
        (Within-field category (column_value (z ∷ ids)) ne h ((finds _ _).0 (ltb→lt 0 _ yes))))),
  (λ there.
      lt→ltb 0 _ (
        (finds _ _).1 (column-Within category (z ∷ ids) ((Any-texts category (z ∷ ids)).0 there)))),
)
