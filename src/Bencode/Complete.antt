-- ===== src/Bencode/Complete.antt =====
-- Whatever the format allows is scanned to its end, with fuel for twice its length.
use jacklet.Prelude.{
  ℕ, zero, suc, ◌+◌, ◌*◌, ◌≤◌, ◌<◌, ◌≡◌, refl, ap, ◌∙◌, subst, ◌≢◌, true, false, List, [], ◌∷◌,
  ◌++◌, append_assoc, append-nil, arith, nat_eq, ℕ-Eq, length, length-append, Bytes, Bytes-Eq,
}
use jacklet.Prelude.Decimal.{is_digit, is_all_digits}
use jacklet.Prelude.Sorting.{sort_by}
use jacklet.Bencode.{
  ok, max_bencode_depth, read_bencode_string, has_adjacent_twins, end_container, scan_bencode,
  scan_items,
}
use jacklet.Bencode.Grammar.{
  Value, Values, Fields, keys, Distinct, WritesString, Writes, integer_, string_, list_,
  dictionary_, WritesValues, nil_, cons_, WritesFields, end_, field_,
}
use jacklet.Bencode.Strings.{read_string_complete}
use jacklet.Bencode.Integers.{integer_complete}
use jacklet.Bencode.Order.{no_twins_iff}

-- A writing takes at least one byte, and its first byte is not the "e" that ends a container.
abbrev pub Starts : Bytes → Bytes → Type 0
Starts s rest =
    (c : ℕ) × (u : Bytes) × (s ≡ c ∷ u) × (nat_eq c b'e' ≡ false) × (length rest < length s)

pub string_starts :
    (b s rest : Bytes)
    → WritesString b s rest
    → (c : ℕ) × (u : Bytes) × (s ≡ c ∷ u) × (is_digit c ≡ true) × (length rest < length s)
string_starts b s rest w = go w.digits w.nonempty w.all_digits w.spelled
  where
    go :
        (ds : Bytes)
        → ds ≢ []
        → is_all_digits ds ≡ true
        → s ≡ ds ++ (b':' ∷ (b ++ rest))
        → (c : ℕ) × (u : Bytes) × (s ≡ c ∷ u) × (is_digit c ≡ true) × (length rest < length s)
    go [] n a e = absurd (n refl)
    go (c ∷ ds) n a e = (
      c,
      ds ++ (b':' ∷ (b ++ rest)),
      e,
      ground arith,
      rw e (omega (arith, length-append ds (b':' ∷ (b ++ rest)), length-append b rest)),
    )

mutual
  pub Writes-Starts : {d : ℕ} {v : Value} {s rest : Bytes} → Writes d v s rest → Starts s rest
  Writes-Starts (integer_ {ds = ds} {rest = rest} is e) =
      (b'i', ds ++ (b'e' ∷ rest), e, refl, rw e (omega (arith, length-append ds (b'e' ∷ rest))))
  Writes-Starts (string_ {b = b} {s = s} {rest = rest} w) =
      let (c, u, e, digit, less) = string_starts b s rest w in (c, u, e, ground arith, less)
  Writes-Starts (list_ {t = t} h e w) = (b'l', t, e, refl, rw e (omega (arith, values_less w)))
  Writes-Starts (dictionary_ {t = t} h e w _) =
      (b'd', t, e, refl, rw e (omega (arith, fields_less w)))

  values_less :
      {d : ℕ} {vs : Values} {s rest : Bytes} → WritesValues d vs s rest → length rest < length s
  values_less (nil_ e) = rw e (omega arith)
  values_less (cons_ w ws) =
      let (_, _, _, _, less) = Writes-Starts w in omega (arith, values_less ws, less)

  fields_less :
      {d : ℕ} {fs : Fields} {s rest : Bytes} → WritesFields d fs s rest → length rest < length s
  fields_less (end_ e) = rw e (omega arith)
  fields_less (field_ str w ws) =
      let (_, _, _, _, less) = Writes-Starts w in
      let (_, _, _, _, less') = string_starts _ _ _ str in
      omega (arith, fields_less ws, less, less')

string_scan :
    (f c : ℕ) (u : Bytes) (d : ℕ) (b rest : Bytes)
    → is_digit c ≡ true
    → read_bencode_string (c ∷ u) ≡ ok (b, rest)
    → scan_bencode (suc f) (c ∷ u) d ≡ ok rest
unfolding scan_bencode
string_scan f c u d b rest digit read = ground arith

list_scan :
    (f : ℕ) (t : Bytes) (d : ℕ) (rest : Bytes)
    → d < max_bencode_depth
    → scan_items f false t d [] ≡ ok ([], b'e' ∷ rest)
    → scan_bencode (suc f) (b'l' ∷ t) d ≡ ok rest
unfolding scan_bencode end_container sort_by has_adjacent_twins
list_scan f t d rest lt items = ground (arith, items)

dictionary_scan :
    (f : ℕ) (t : Bytes) (d : ℕ) (ks : List Bytes) (rest : Bytes)
    → d < max_bencode_depth
    → scan_items f true t d [] ≡ ok (ks, b'e' ∷ rest)
    → Distinct ks
    → scan_bencode (suc f) (b'd' ∷ t) d ≡ ok rest
unfolding scan_bencode end_container
dictionary_scan f t d ks rest lt items distinct =
    ground (arith, items, (no_twins_iff ks).1 distinct)

cons_scan :
    (f c : ℕ) (u t : Bytes) (d : ℕ) (ks : List Bytes)
    → nat_eq c b'e' ≡ false
    → scan_bencode f (c ∷ u) (d + 1) ≡ ok t
    → scan_items (suc f) false (c ∷ u) d ks ≡ scan_items f false t d ks
unfolding scan_items
cons_scan f c u t d ks n one = rw (n, scan_items) (rw one)

field_scan :
    (f c : ℕ) (u t : Bytes) (d : ℕ) (ks : List Bytes) (k rest : Bytes)
    → nat_eq c b'e' ≡ false
    → read_bencode_string (c ∷ u) ≡ ok (k, t)
    → scan_bencode f t (d + 1) ≡ ok rest
    → scan_items (suc f) true (c ∷ u) d ks ≡ scan_items f true rest d (ks ++ k ∷ [])
unfolding scan_items
field_scan f c u t d ks k rest n read one = rw (n, scan_items) (rw (read, one))

pub length_left :
    (f : ℕ) {s : Bytes} {c : ℕ} (t : Bytes)
    → s ≡ c ∷ t
    → 2 * length s + 1 ≤ suc f
    → 2 * length t + 2 ≤ f
length_left f t e h = omega (arith, ap (λ (u : Bytes). length u) e)

pub digit_ne_e : (c : ℕ) → is_digit c ≡ true → nat_eq c b'e' ≡ false
digit_ne_e c h = ground arith

mutual
  unfolding scan_bencode

  pub scan_complete :
      {d : ℕ} {v : Value} {s rest : Bytes} (f : ℕ)
      → Writes d v s rest
      → 2 * length s + 1 ≤ f
      → scan_bencode f s d ≡ ok rest
  scan_complete zero w h = absurd (omega arith)
  scan_complete (suc f) (integer_ {ds = ds} {rest = rest} is e) h =
      rw (e, scan_bencode) (integer_complete ds rest is)
  scan_complete (suc f) (string_ {d = d} {b = b} {s = s} {rest = rest} w) h =
      let (c, u, e, digit, _) = string_starts b s rest w in
      let read : read_bencode_string (c ∷ u) ≡ ok (b, rest) =
        subst (λ t. read_bencode_string t ≡ ok (b, rest)) e (read_string_complete s b rest w) in
      rw e (string_scan f c u d b rest digit read)
  scan_complete {d} (suc f) (list_ {t = t} {rest = rest} lt e w) h =
      let fuel : 2 * length t + 2 ≤ f = length_left f t e h in
      rw e (list_scan f t d rest lt (values_complete f d [] w refl fuel))
  scan_complete {d} (suc f) (dictionary_ {fs = fs} {t = t} {rest = rest} lt e w distinct) h =
      let fuel : 2 * length t + 2 ≤ f = length_left f t e h in
      rw e (dictionary_scan f t d (keys fs) rest lt (fields_complete f d [] w refl fuel) distinct)

  values_complete :
      {e : ℕ} {vs : Values} {s rest : Bytes} (f d : ℕ) (ks : List Bytes)
      → WritesValues e vs s rest
      → e ≡ d + 1
      → 2 * length s + 2 ≤ f
      → scan_items f false s d ks ≡ ok (ks, b'e' ∷ rest)
  values_complete zero d ks w q h = absurd (omega arith)
  values_complete (suc f) d ks (nil_ e) q h = rw (e, scan_items)
  values_complete (suc f) d ks (cons_ {s = s} {t = t} w ws) q h =
      let (c, u, e, n, less) = Writes-Starts w in
      let one = rw (e, q) at (scan_complete f w (omega arith)) in
      rw e (cons_scan f c u t d ks n one ∙ values_complete f d ks ws q (omega arith))

  fields_complete :
      {e : ℕ} {fs : Fields} {s rest : Bytes} (f d : ℕ) (ks : List Bytes)
      → WritesFields e fs s rest
      → e ≡ d + 1
      → 2 * length s + 2 ≤ f
      → scan_items f true s d ks ≡ ok (ks ++ keys fs, b'e' ∷ rest)
  fields_complete zero d ks w q h = absurd (omega arith)
  fields_complete (suc f) d ks (end_ e) q h = rw (e, scan_items) (rw (append-nil ks))
  fields_complete (suc f) d ks
        (field_ {k = k} {fs = fs} {s = s} {t = t} {u = rest} {rest = out} str w ws) q h =
      let (c, u, e, digit, less) = string_starts k s t str in
      let (_, _, _, _, less') = Writes-Starts w in
      let read : read_bencode_string (c ∷ u) ≡ ok (k, t) =
        subst (λ t'. read_bencode_string t' ≡ ok (k, t)) e (read_string_complete s k t str) in
      let one = rw q at (scan_complete f w (omega arith)) in
      rw e (
        field_scan f c u t d ks k rest (digit_ne_e c digit) read one
        ∙ (fields_complete f d (ks ++ k ∷ []) ws q (omega arith)
            ∙ ap (λ l. ok (l, b'e' ∷ out)) (append_assoc ks (k ∷ []) (keys fs))))
