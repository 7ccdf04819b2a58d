-- ===== src/Bencode/Reread.antt =====
-- The canonical writing of a value is allowed by the format, and is its own canonical writing.
use jacklet.Prelude.{
  ℕ, ◌+◌, ◌^◌, ◌<◌, ◌≡◌, refl, sym, ap, ◌∙◌, subst, inl, inr, List, [], ◌∷◌, ◌++◌, map,
  append_assoc, append-nil, Bool-cases, ℕ-Eq, length, All, Bytes, Bytes-Eq,
}
use jacklet.Prelude.Decimal.{itoa}
use jacklet.Prelude.Decimal.Laws.{itoa-ne-nil, digits-itoa, value-itoa, length-itoa}
use jacklet.Prelude.Sorting.{bytes_le, insert_by, sort_by, sort_by-IsSorted, sort_by_sorted}
use jacklet.Bencode.{ok, canonical_torrent}
use jacklet.Bencode.Grammar.{
  Value, integer, string, list, dictionary, Values, nil, cons, Fields, end, field, keys, Distinct,
  WritesString, Writes, integer_, string_, list_, dictionary_, WritesValues, nil_, cons_,
  WritesFields, end_, field_, encode_string, concat_fields, encode, encode_values, encode_fields,
}
use jacklet.Bencode.Strings.{fits_ten}
use jacklet.Bencode.Order.{Distinct-sort_by}
use jacklet.Bencode.Canonical.{canonical_iff, accepted}

string_bound : (b s rest : Bytes) → WritesString b s rest → length b < 10 ^ 10
string_bound b s rest w = rw (← w.counts) (fits_ten w.digits w.all_digits w.short)

-- A string shorter than ten to the tenth, written canonically.
string_written :
    (b rest : Bytes) → length b < 10 ^ 10 → WritesString b (encode_string b ++ rest) rest
string_written b rest h = record {
  digits = itoa (length b);
  nonempty = itoa-ne-nil (length b);
  all_digits = digits-itoa (length b);
  short = length-itoa (length b) 9 h;
  counts = value-itoa (length b);
  spelled = append_assoc (itoa (length b)) (b':' ∷ b) rest;
}

-- The bytes `out` are the canonical writing of some value.
abbrev Rereads : ℕ → Bytes → Type 0
Rereads d out = (v : Value) × (encode v ≡ out) × ((rest : Bytes) → Writes d v (out ++ rest) rest)

abbrev Field : ℕ → Bytes × Bytes → Type 0
Field d e = (length e.0 < 10 ^ 10) × Rereads d e.1

abbrev fst : Bytes × Bytes → Bytes
fst e = e.0

All-insert_by :
    (P : Bytes × Bytes → Type 0) (x : Bytes × Bytes) (es : List (Bytes × Bytes))
    → P x
    → All P es
    → All P (insert_by fst x es)
unfolding insert_by
All-insert_by P x [] p _ = (p, tt)
All-insert_by P x (y ∷ es) p (q, qs) = elim (Bool-cases (bytes_le x.0 y.0)) [
  | inl e ↦ rw e (p, (q, qs))
  | inr e ↦ rw e (q, All-insert_by P x es p qs)
]

All-sort_by :
    (P : Bytes × Bytes → Type 0) (es : List (Bytes × Bytes)) → All P es → All P (sort_by fst es)
unfolding sort_by
All-sort_by P [] _ = tt
All-sort_by P (x ∷ es) (p, ps) = All-insert_by P x (sort_by fst es) p (All-sort_by P es ps)

map-insert_by :
    (x : Bytes × Bytes) (es : List (Bytes × Bytes))
    → map fst (insert_by fst x es) ≡ insert_by (λ k. k) x.0 (map fst es)
unfolding insert_by
map-insert_by x [] = refl
map-insert_by x (y ∷ es) = elim (Bool-cases (bytes_le x.0 y.0)) [
  | inl e ↦ rw e
  | inr e ↦ rw e (ap (λ t. y.0 ∷ t) (map-insert_by x es))
]

map-sort_by : (es : List (Bytes × Bytes)) → map fst (sort_by fst es) ≡ sort_by (λ k. k) (map fst es)
unfolding sort_by
map-sort_by [] = refl
map-sort_by (x ∷ es) =
    map-insert_by x (sort_by fst es) ∙ ap (insert_by (λ k. k) x.0) (map-sort_by es)

keys-encode_fields : (fs : Fields) → map fst (encode_fields fs) ≡ keys fs
unfolding encode_fields
keys-encode_fields end = refl
keys-encode_fields (field k v fs) = ap (λ t. k ∷ t) (keys-encode_fields fs)

string_again :
    (k out more rest : Bytes)
    → length k < 10 ^ 10
    → WritesString k ((encode_string k ++ (out ++ more)) ++ rest) (out ++ (more ++ rest))
string_again k out more rest h =
    let e : (encode_string k ++ (out ++ more)) ++ rest
        ≡ encode_string k ++ (out ++ (more ++ rest)) =
      simp append_assoc in
    subst (λ s. WritesString k s (out ++ (more ++ rest))) (sym e)
      (string_written k (out ++ (more ++ rest)) h)

-- The fields that a list of encoded fields was made of.
fields_of :
    (d : ℕ) (es : List (Bytes × Bytes))
    → All (Field d) es
    → (fs : Fields) × (encode_fields fs ≡ es)
      × ((rest : Bytes) → WritesFields d fs (concat_fields es ++ (b'e' ∷ rest)) rest)
unfolding encode_fields
fields_of d [] _ = (end, refl, λ rest. end_ refl)
fields_of d ((k, out) ∷ es) ((short, (v, e, w)), all) =
    let (fs, same, ws) = fields_of d es all in
    (
      field k v fs,
      rw (e, same),
      λ rest.
          field_ (string_again k out (concat_fields es) (b'e' ∷ rest) short)
            (w (concat_fields es ++ (b'e' ∷ rest))) (ws rest),
    )

keys_sorted :
    (fs fs' : Fields)
    → encode_fields fs' ≡ sort_by fst (encode_fields fs)
    → keys fs' ≡ sort_by (λ k. k) (keys fs)
keys_sorted fs fs' same =
    sym (keys-encode_fields fs')
    ∙ (ap (map fst) same
        ∙ (map-sort_by (encode_fields fs) ∙ ap (sort_by (λ k. k)) (keys-encode_fields fs)))

mutual
  unfolding encode

  rereads : {d : ℕ} {v : Value} {s rest : Bytes} → Writes d v s rest → Rereads d (encode v)
  rereads (integer_ {ds = ds} is e) =
      (integer ds, refl, λ out. integer_ is (ap (λ t. b'i' ∷ t) (append_assoc ds (b'e' ∷ []) out)))
  rereads (string_ {b = b} {s = s} {rest = rest} w) =
      (string b, refl, λ out. string_ (string_written b out (string_bound b s rest w)))
  rereads {d} (list_ {vs = us} lt e w) =
      let (vs, same, ws) = values_reread w in
      (
        list vs,
        rw same,
        λ out. list_ lt refl (
            subst (λ u. WritesValues (d + 1) vs u out)
              (sym (append_assoc (encode_values us) (b'e' ∷ []) out)) (ws out)),
      )
  rereads {d} (dictionary_ {fs = fs} lt e w distinct) =
      let es = sort_by fst (encode_fields fs) in
      let (fs', same, ws) =
        fields_of (d + 1) es (All-sort_by (Field (d + 1)) (encode_fields fs) (fields_reread w)) in
      (
        dictionary fs',
        rw same (rw (sort_by_sorted fst es (sort_by-IsSorted fst (encode_fields fs)))),
        λ out.
            dictionary_ lt refl
              (subst (λ u. WritesFields (d + 1) fs' u out)
                (sym (append_assoc (concat_fields es) (b'e' ∷ []) out)) (ws out))
              (subst Distinct (sym (keys_sorted fs fs' same))
                ((Distinct-sort_by (keys fs)).1 distinct)),
      )

  values_reread :
      {d : ℕ} {vs : Values} {s rest : Bytes}
      → WritesValues d vs s rest
      → (vs' : Values) × (encode_values vs' ≡ encode_values vs)
        × ((out : Bytes) → WritesValues d vs' (encode_values vs ++ (b'e' ∷ out)) out)
  values_reread (nil_ e) = (nil, refl, λ out. nil_ refl)
  values_reread {d} (cons_ {v = v} {vs = vs} w ws) =
      let (v', same, read) = rereads w in
      let (vs', sames, reads) = values_reread ws in
      (
        cons v' vs',
        rw (same, sames),
        λ out.
            cons_
              (subst (λ u. Writes d v' u (encode_values vs ++ (b'e' ∷ out)))
                (sym (append_assoc (encode v) (encode_values vs) (b'e' ∷ out)))
                (read (encode_values vs ++ (b'e' ∷ out))))
              (reads out),
      )

  fields_reread :
      {d : ℕ} {fs : Fields} {s rest : Bytes}
      → WritesFields d fs s rest
      → All (Field d) (encode_fields fs)
  fields_reread (end_ e) = tt
  fields_reread (field_ {k = k} {s = s} {t = t} str w ws) =
      ((string_bound k s t str, rereads w), fields_reread ws)

-- The canonical form of an accepted torrent file is accepted, and is its own canonical form: its keys
-- are sorted and its lengths have no leading zeros.
pub canonical_idempotent :
    (data_ out : Bytes) → canonical_torrent data_ ≡ ok out → canonical_torrent out ≡ ok out
unfolding encode
canonical_idempotent data_ out h =
    let (fs, rest, w, e) = (canonical_iff data_ out).0 h in
    let (v, same, reads) = rereads w in
    let again = subst (λ s. Writes 0 v s []) (append-nil (encode (dictionary fs))) (reads []) in
    rw e (accepted _ v again ∙ ap ok same)
