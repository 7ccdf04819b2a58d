-- ===== src/Categories/Site.antt =====
-- Which of a tracker's own categories a search is sent with.
use jacklet.Prelude.{
  ℕ, ◌≡◌, refl, sym, ap, ◌∙◌, ◌↔◌, ◌⊎◌, inl, inr, Bool, true, false, not, ◌&&◌, ◌||◌, some, List,
  [], ◌∷◌, arith, Bool-cases, and_parts, Option-cases, ◌==◌, ℕ-Eq, beq_eq, length, Any, contains,
  Bytes, Bytes-Eq,
}
use jacklet.Prelude.Int.{ℤ, ℤ-Eq}
use jacklet.Tracker.{CategoryMapping}
use jacklet.Prelude.Decimal.{itoa}
use jacklet.Categories.{
  standard_id, expand_category_ids, custom_category_id, int_text, is_wanted, site_ids,
  site_category_ids,
}
use jacklet.Categories.Group.{or_parts, or_left, or_right, same_text}
use jacklet.Categories.Expanded.{contains_same, StandsFor, expand-contains}
use jacklet.Categories.Custom.{IsCustom, both_true, bools_apart, custom_category_id-IsCustom}

-- Whether a mapping with that id names a category that is wanted.
abbrev maps_to : (Bytes → Bytes) → List Bytes → List CategoryMapping → Bytes → Bool
maps_to sha1 wanted [] x = false
maps_to sha1 wanted (m ∷ mappings) x =
    (is_wanted sha1 wanted m && m.id == x) || maps_to sha1 wanted mappings x

taken :
    (w s t q r : Bool)
    → (w && not s) ≡ true
    → (q ≡ true → s ≡ t)
    → (q || (not (q || t) && r)) ≡ (not t && ((w && q) || r))
taken true true t q r h k = absurd (ground (arith, h))
taken true false true true r h k = absurd (ground (arith, k refl))
taken true false true false r h k = refl
taken true false false true r h k = refl
taken true false false false r h k = refl
taken false s t q r h k = absurd (ground (arith, h))

left_out :
    (w s t q r : Bool)
    → (w && not s) ≡ false
    → (q ≡ true → s ≡ t)
    → (not t && r) ≡ (not t && ((w && q) || r))
left_out w s true q r h k = refl
left_out true s false false r h k = refl
left_out false s false false r h k = refl
left_out true s false true r h k = ground (arith, h, k refl)
left_out false s false true r h k = refl

contains-site_ids :
    (sha1 : Bytes → Bytes) (wanted seen : List Bytes) (mappings : List CategoryMapping) (x : Bytes)
    → contains (site_ids sha1 wanted seen mappings) x
      ≡ (not (contains seen x) && maps_to sha1 wanted mappings x)
unfolding site_ids
contains-site_ids sha1 wanted seen [] x = ground arith
contains-site_ids sha1 wanted seen (m ∷ mappings) x =
    elim (Bool-cases (is_wanted sha1 wanted m && not (contains seen m.id))) [
      | inl e ↦ rw e (
          ap (λ b. m.id == x || b) (contains-site_ids sha1 wanted (m.id ∷ seen) mappings x)
          ∙ taken _ _ _ _ _ e (contains_same seen m.id x))
      | inr e ↦ rw e (
          contains-site_ids sha1 wanted seen mappings x
          ∙ left_out _ _ _ _ _ e (contains_same seen m.id x))
    ]

-- A mapping that a search for the requested categories covers: it leads from a standard category, and
-- that one or the mapping's custom category is among those the requested ones stand for.
abbrev pub Covered : (Bytes → Bytes) → List Bytes → CategoryMapping → Type 0
Covered sha1 requested m =
    (id : ℕ) × (standard_id m.cat ≡ some id)
    × (Any (StandsFor (itoa id)) requested
        ⊎ ((z : ℤ) × IsCustom sha1 m z × Any (StandsFor (int_text z)) requested))

module _ (sha1 : Bytes → Bytes) (twenty : (s : Bytes) → length (sha1 s) ≡ 20)
    (requested : List Bytes) where
  is_wanted-Covered :
      (m : CategoryMapping)
      → is_wanted sha1 (expand_category_ids requested) m ≡ true
      → Covered sha1 requested m
  unfolding is_wanted
  is_wanted-Covered m h = elim (Option-cases (standard_id m.cat)) [
    | inl e ↦ absurd (bools_apart (rw e at h))
    | inr (id, e) ↦ (
      id,
      e,
      elim (Option-cases (custom_category_id sha1 m)) [
        | inl c ↦ inl ((expand-contains requested (itoa id)).0 (rw (e, c) at h))
        | inr (z, c) ↦ elim (or_parts _ _ (rw (e, c) at h)) [
          | inl own ↦ inl ((expand-contains requested (itoa id)).0 own)
          | inr other ↦ inr (
            z,
            (custom_category_id-IsCustom sha1 twenty m z).0 c,
            (expand-contains requested (int_text z)).0 other,
          )
        ]
      ],
    )
  ]

  Covered-is_wanted :
      (m : CategoryMapping)
      → Covered sha1 requested m
      → is_wanted sha1 (expand_category_ids requested) m ≡ true
  unfolding is_wanted
  Covered-is_wanted m (id, e, inl own) =
      let in_set = (expand-contains requested (itoa id)).1 own in
      elim (Option-cases (custom_category_id sha1 m)) [
        | inl c ↦ rw (e, c) in_set
        | inr (z, c) ↦ rw (e, c) (or_left _ _ in_set)
      ]
  Covered-is_wanted m (id, e, inr (z, custom, other)) =
      let c = (custom_category_id-IsCustom sha1 twenty m z).1 custom in
      let in_set = (expand-contains requested (int_text z)).1 other in
      rw (e, c) (or_right (contains (expand_category_ids requested) (itoa id)) _ in_set)

  maps_to-Any :
      (mappings : List CategoryMapping) (x : Bytes)
      → (maps_to sha1 (expand_category_ids requested) mappings x ≡ true)
        ↔ Any (λ m. (m.id ≡ x) × Covered sha1 requested m) mappings
  maps_to-Any [] x = ((λ h. absurd (bools_apart h)), (λ h. absurd h))
  maps_to-Any (m ∷ mappings) x = (
    (λ h. elim (or_parts _ (maps_to sha1 (expand_category_ids requested) mappings x) h) [
      | inl here ↦
          let (wanted, same) = and_parts _ (m.id == x) here in
          inl (beq_eq m.id x same, is_wanted-Covered m wanted)
      | inr there ↦ inr ((maps_to-Any mappings x).0 there)
    ]),
    (λ h. elim h [
      | inl (same, covered) ↦
          or_left _ (maps_to sha1 (expand_category_ids requested) mappings x)
            (both_true _ _ (Covered-is_wanted m covered) (same_text m.id x same))
      | inr there ↦
          or_right (is_wanted sha1 (expand_category_ids requested) m && m.id == x) _
            ((maps_to-Any mappings x).1 there)
    ]),
  )

-- A search that names categories is sent with a tracker's own category exactly when a mapping with
-- that id leads from a standard category, and some requested category stands for that one or for the
-- mapping's custom category (100000 and its id's number, or 100000 and the first two bytes of the
-- id's hash), of which it is given that a SHA-1 sum has twenty bytes.
pub site-contains :
    (sha1 : Bytes → Bytes)
    → ((s : Bytes) → length (sha1 s) ≡ 20)
    → (mappings : List CategoryMapping) (c : Bytes) (requested : List Bytes) (x : Bytes)
    → (contains (site_category_ids sha1 mappings (c ∷ requested)) x ≡ true)
      ↔ Any (λ m. (m.id ≡ x) × Covered sha1 (c ∷ requested) m) mappings
unfolding site_category_ids
site-contains sha1 twenty mappings c requested x =
    let e = contains-site_ids sha1 (expand_category_ids (c ∷ requested)) [] mappings x in
    let (to, from) = maps_to-Any sha1 twenty (c ∷ requested) mappings x in
    ((λ h. to (sym e ∙ h)), (λ h. e ∙ from h))
