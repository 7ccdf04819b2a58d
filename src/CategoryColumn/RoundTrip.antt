-- ===== src/CategoryColumn/RoundTrip.antt =====
-- What the column is written as reads back as it was.
use jacklet.Prelude.{
  ◌+◌, ◌^◌, ◌<◌, ◌≡◌, refl, sym, ap, ◌∙◌, ◌≢◌, true, false, some, List, [], ◌∷◌, map, arith, ℕ-Eq,
  All, contains, Bytes, Bytes-Eq,
}
use jacklet.Prelude.Int.{ℤ, pos, negsuc}
use jacklet.Prelude.Decimal.{is_all_digits, atoi, itoa}
use jacklet.Prelude.Decimal.Signed.{read_negative, atoi-itoa}
use jacklet.Prelude.Decimal.Laws.{itoa-ne-nil, digits-itoa}
use jacklet.Prelude.Options.{traverse}
use jacklet.Prelude.Split.{split, join, split-join}
use jacklet.CategoryColumn.{CategoryList, itoa_int, column_value, text, bytes, scan_text, scan}

-- Go's int holds it.
abbrev pub IsInt64 : ℤ → Type 0
IsInt64 (pos n) = n < 2 ^ 63
IsInt64 (negsuc n) = n < 2 ^ 63

pub atoi-itoa_int : (z : ℤ) → IsInt64 z → atoi (itoa_int z) ≡ some z
unfolding itoa_int
atoi-itoa_int (pos n) fits = atoi-itoa n fits
atoi-itoa_int (negsuc n) fits = read_negative n fits

digits_no_comma : (s : Bytes) → is_all_digits s ≡ true → contains s b',' ≡ false
digits_no_comma [] h = refl
digits_no_comma (b ∷ s) h = ground (arith, digits_no_comma s)

pub itoa_int-no_comma : (z : ℤ) → contains (itoa_int z) b',' ≡ false
unfolding itoa_int
itoa_int-no_comma (pos n) = digits_no_comma (itoa n) (digits-itoa n)
itoa_int-no_comma (negsuc n) = digits_no_comma (itoa (n + 1)) (digits-itoa (n + 1))

pub itoa_int-ne-nil : (z : ℤ) → itoa_int z ≢ []
unfolding itoa_int
itoa_int-ne-nil (pos n) = itoa-ne-nil n
itoa_int-ne-nil (negsuc n) = λ h. cc

texts_no_comma : (ids : CategoryList) → All (λ v. contains v b',' ≡ false) (map itoa_int ids)
texts_no_comma [] = tt
texts_no_comma (z ∷ ids) = (itoa_int-no_comma z, texts_no_comma ids)

pub split-column_value :
    (z : ℤ) (ids : CategoryList) → split b',' (column_value (z ∷ ids)) ≡ map itoa_int (z ∷ ids)
unfolding column_value
split-column_value z ids =
    split-join b',' (itoa_int z) (map itoa_int ids) (texts_no_comma (z ∷ ids))

read_back : (ids : CategoryList) → All IsInt64 ids → traverse atoi (map itoa_int ids) ≡ some ids
unfolding traverse
read_back [] h = refl
read_back (z ∷ ids) (fits, rest) = rw (atoi-itoa_int z fits, read_back ids rest) refl

nonempty_scan : (s : Bytes) → s ≢ [] → scan_text s ≡ traverse atoi (split b',' s)
unfolding scan_text
nonempty_scan [] ne = absurd (ne refl)
nonempty_scan (b ∷ s) ne = refl

heads : {v w : Bytes} {vs ws : List Bytes} → (v ∷ vs) ≡ (w ∷ ws) → v ≡ w
heads e = cc

column_value-ne-nil : (z : ℤ) (ids : CategoryList) → column_value (z ∷ ids) ≢ []
unfolding split
column_value-ne-nil z ids h =
    itoa_int-ne-nil z (heads (sym (split-column_value z ids) ∙ ap (split b',') h))

-- The column reads back as the categories it was written from, in their order, whether the driver
-- hands it over as text or as bytes; every category is a 64-bit integer.
pub scan-column_value :
    (ids : CategoryList)
    → All IsInt64 ids
    → (scan (text (column_value ids)) ≡ some ids) × (scan (bytes (column_value ids)) ≡ some ids)
unfolding scan scan_text column_value join
scan-column_value [] h = (refl, refl)
scan-column_value (z ∷ ids) h =
    let read =
      nonempty_scan (column_value (z ∷ ids)) (column_value-ne-nil z ids)
      ∙ ap (traverse atoi) (split-column_value z ids)
      ∙ read_back (z ∷ ids) h in
    (read, read)
