-- ===== src/Bencode/Append.antt =====
-- `appendBencode` writes the canonical form of whatever the format allows.
use jacklet.Prelude.{
  ℕ, ◌+◌, ◌≤◌, ◌≡◌, ◌∙◌, inl, inr, true, false, List, [], ◌∷◌, ◌++◌, append_assoc, append-nil,
  arith, Bool-cases, ℕ-Eq, Bytes, Bytes-Eq, zero, suc, ◌*◌, ◌<◌, refl, ap, subst, nat_eq, length,
}
use jacklet.Prelude.Sorting.{bytes_le, insert_by, sort_by}
use jacklet.Bencode.{
  ok, append_bencode_string, Entry, append_entries, append_bencode, read_bencode_string, scan,
  collect_entries, append_list, trusted,
}
use jacklet.Prelude.Decimal.{is_digit}
use jacklet.Bencode.Complete.{string_starts, Writes-Starts, length_left, digit_ne_e, scan_complete}
use jacklet.Bencode.Strings.{read_string_complete}
use jacklet.Bencode.Integers.{integer_cut}
use jacklet.Bencode.Grammar.{
  Value, Values, Fields, Writes, integer_, string_, list_, dictionary_, WritesValues, nil_, cons_,
  WritesFields, end_, field_, encode_string, concat_fields, IsInteger, encode, encode_values,
  encode_fields,
}

-- A value is also a value fewer lists and dictionaries deep.
mutual
  pub shallower :
      {e : ℕ} {v : Value} {s rest : Bytes} (d : ℕ) → d ≤ e → Writes e v s rest → Writes d v s rest
  shallower d h (integer_ is e) = integer_ is e
  shallower d h (string_ w) = string_ w
  shallower d h (list_ lt e w) = list_ (omega arith) e (shallower_values (d + 1) (omega arith) w)
  shallower d h (dictionary_ lt e w distinct) =
      dictionary_ (omega arith) e (shallower_fields (d + 1) (omega arith) w) distinct

  shallower_values :
      {e : ℕ} {vs : Values} {s rest : Bytes} (d : ℕ)
      → d ≤ e
      → WritesValues e vs s rest
      → WritesValues d vs s rest
  shallower_values d h (nil_ e) = nil_ e
  shallower_values d h (cons_ w ws) = cons_ (shallower d h w) (shallower_values d h ws)

  shallower_fields :
      {e : ℕ} {fs : Fields} {s rest : Bytes} (d : ℕ)
      → d ≤ e
      → WritesFields e fs s rest
      → WritesFields d fs s rest
  shallower_fields d h (end_ e) = end_ e
  shallower_fields d h (field_ str w ws) = field_ str (shallower d h w) (shallower_fields d h ws)

-- Appending the value at a position adds `out`, whatever is encoded before.
abbrev Appends : ℕ → Bytes → Bytes → Type 0
Appends f position out =
    (encoded : Bytes)
    → (rest : Bytes) × (append_bencode f encoded position ≡ ok (encoded ++ out, rest))

abbrev Paired : ℕ → List Entry → List (Bytes × Bytes) → Type 0
Paired f [] [] = Unit
Paired f ((k, position) ∷ cs) ((k', out) ∷ es) = (k ≡ k') × Appends f position out × Paired f cs es
Paired f _ _ = ⊥

abbrev fst : Bytes × Bytes → Bytes
fst e = e.0

Paired-insert_by :
    (f : ℕ) (k k' position out : Bytes) (cs : List Entry) (es : List (Bytes × Bytes))
    → k ≡ k'
    → Appends f position out
    → Paired f cs es
    → Paired f (insert_by fst (k, position) cs) (insert_by fst (k', out) es)
unfolding insert_by
Paired-insert_by f k k' position out [] [] e a _ = (e, a, tt)
Paired-insert_by f k k' position out [] (_ ∷ _) e a h = absurd h
Paired-insert_by f k k' position out (_ ∷ _) [] e a h = absurd h
Paired-insert_by f k k' position out ((l, q) ∷ cs) ((l', o) ∷ es) e a (e', a', h) =
    elim (Bool-cases (bytes_le k l)) [
      | inl le ↦ let le' : bytes_le k' l' ≡ true = cc in rw (le, le') (e, a, (e', a', h))
      | inr gt ↦
          let gt' : bytes_le k' l' ≡ false = cc in
          rw (gt, gt') (e', a', Paired-insert_by f k k' position out cs es e a h)
    ]

Paired-sort_by :
    (f : ℕ) (cs : List Entry) (es : List (Bytes × Bytes))
    → Paired f cs es
    → Paired f (sort_by fst cs) (sort_by fst es)
unfolding sort_by
Paired-sort_by f [] [] _ = tt
Paired-sort_by f [] (_ ∷ _) h = absurd h
Paired-sort_by f (_ ∷ _) [] h = absurd h
Paired-sort_by f ((k, q) ∷ cs) ((k', o) ∷ es) (e, a, h) =
    Paired-insert_by f k k' q o (sort_by fst cs) (sort_by fst es) e a (Paired-sort_by f cs es h)

append_entries-Paired :
    (f : ℕ) (cs : List Entry) (es : List (Bytes × Bytes)) (encoded : Bytes)
    → Paired f cs es
    → append_entries (append_bencode f) encoded cs ≡ ok (encoded ++ concat_fields es)
unfolding append_entries append_bencode_string
append_entries-Paired f [] [] encoded _ = rw (append-nil encoded)
append_entries-Paired f [] (_ ∷ _) encoded h = absurd h
append_entries-Paired f (_ ∷ _) [] encoded h = absurd h
append_entries-Paired f ((k, q) ∷ cs) ((k', o) ∷ es) encoded (e, a, h) =
    let (rest, done) = a (encoded ++ encode_string k) in
    rw done (append_entries-Paired f cs es _ h ∙ (rw e (simp append_assoc)))

scan_shallow : {d : ℕ} {v : Value} {s rest : Bytes} → Writes d v s rest → scan s 0 ≡ ok rest
unfolding scan
scan_shallow {s = s} w =
    scan_complete (2 * length s + 1) (shallower 0 (omega arith) w) (omega arith)

string_append :
    (f c : ℕ) (u encoded b rest : Bytes)
    → is_digit c ≡ true
    → read_bencode_string (c ∷ u) ≡ ok (b, rest)
    → append_bencode (suc f) encoded (c ∷ u) ≡ ok (encoded ++ encode_string b, rest)
unfolding append_bencode append_bencode_string trusted
string_append f c u encoded b rest digit read =
    let taken : trusted (read_bencode_string (c ∷ u)) ≡ ok (b, rest) = ap trusted read in
    ground (arith, taken)

integer_append :
    (f : ℕ) (ds encoded rest : Bytes)
    → IsInteger ds
    → append_bencode (suc f) encoded (b'i' ∷ (ds ++ (b'e' ∷ rest)))
      ≡ ok (encoded ++ (b'i' ∷ (ds ++ (b'e' ∷ []))), rest)
unfolding append_bencode
integer_append f ds encoded rest is =
    let (at, taken, dropped) = integer_cut ds rest is in
    rw (at, append_bencode) (rw (taken, dropped))

list_append :
    (f : ℕ) (t encoded out rest : Bytes)
    → append_list f (encoded ++ b'l' ∷ []) t
      ≡ ok ((encoded ++ b'l' ∷ []) ++ (out ++ b'e' ∷ []), rest)
    → append_bencode (suc f) encoded (b'l' ∷ t)
      ≡ ok (encoded ++ (b'l' ∷ (out ++ (b'e' ∷ []))), rest)
unfolding append_bencode
list_append f t encoded out rest done = rw done (rw append_assoc)

dictionary_append :
    (f : ℕ) (t encoded rest : Bytes) (cs : List Entry) (es : List (Bytes × Bytes))
    → collect_entries (length t + 1) t [] ≡ ok (cs, rest)
    → Paired f cs es
    → append_bencode (suc f) encoded (b'd' ∷ t)
      ≡ ok (encoded ++ (b'd' ∷ (concat_fields (sort_by fst es) ++ (b'e' ∷ []))), rest)
unfolding append_bencode
dictionary_append f t encoded rest cs es collected paired =
    rw
      (
        collected,
        append_entries-Paired f (sort_by fst cs) (sort_by fst es) _ (Paired-sort_by f cs es paired),
      )
      (ap (λ o. ok (o, rest)) (simp append_assoc))

cons_append :
    (f c : ℕ) (u encoded out t : Bytes)
    → nat_eq c b'e' ≡ false
    → append_bencode f encoded (c ∷ u) ≡ ok (out, t)
    → append_list (suc f) encoded (c ∷ u) ≡ append_list f out t
unfolding append_list
cons_append f c u encoded out t n one = rw (n, append_list) (rw one)

field_collect :
    (g c : ℕ) (u k t rest : Bytes) (acc : List Entry)
    → nat_eq c b'e' ≡ false
    → read_bencode_string (c ∷ u) ≡ ok (k, t)
    → scan t 0 ≡ ok rest
    → collect_entries (suc g) (c ∷ u) acc ≡ collect_entries g rest (acc ++ (k, t) ∷ [])
unfolding collect_entries
field_collect g c u k t rest acc n read one = rw (n, collect_entries) (rw (read, one))

mutual
  unfolding append_bencode encode collect_entries

  pub append_complete :
      {d : ℕ} {v : Value} {s rest : Bytes} (f : ℕ) (encoded : Bytes)
      → Writes d v s rest
      → 2 * length s + 1 ≤ f
      → append_bencode f encoded s ≡ ok (encoded ++ encode v, rest)
  append_complete zero encoded w h = absurd (omega arith)
  append_complete (suc f) encoded (integer_ {ds = ds} {rest = rest} is e) h =
      rw e (integer_append f ds encoded rest is)
  append_complete (suc f) encoded (string_ {b = b} {s = s} {rest = rest} w) h =
      let (c, u, e, digit, _) = string_starts b s rest w in
      let read : read_bencode_string (c ∷ u) ≡ ok (b, rest) =
        subst (λ t. read_bencode_string t ≡ ok (b, rest)) e (read_string_complete s b rest w) in
      rw e (string_append f c u encoded b rest digit read)
  append_complete (suc f) encoded (list_ {vs = vs} {t = t} {rest = rest} lt e w) h =
      let fuel : 2 * length t + 2 ≤ f = length_left f t e h in
      rw e (
        list_append f t encoded (encode_values vs) rest
          (values_append f (encoded ++ b'l' ∷ []) w fuel))
  append_complete (suc f) encoded (dictionary_ {fs = fs} {t = t} {rest = rest} lt e w distinct) h =
      let fuel : 2 * length t + 2 ≤ f = length_left f t e h in
      let (cs, collected, paired) = fields_collect f (length t + 1) [] w (omega arith) fuel in
      rw e (dictionary_append f t encoded rest cs (encode_fields fs) collected paired)

  values_append :
      {d : ℕ} {vs : Values} {s rest : Bytes} (f : ℕ) (encoded : Bytes)
      → WritesValues d vs s rest
      → 2 * length s + 2 ≤ f
      → append_list f encoded s ≡ ok (encoded ++ (encode_values vs ++ b'e' ∷ []), rest)
  values_append zero encoded w h = absurd (omega arith)
  values_append (suc f) encoded (nil_ e) h = rw (e, append_list)
  values_append (suc f) encoded (cons_ {v = v} {vs = vs} {s = s} {t = t} {rest = out} w ws) h =
      let (c, u, e, n, less) = Writes-Starts w in
      let one = rw e at (append_complete f encoded w (omega arith)) in
      rw e (
        cons_append f c u encoded (encoded ++ encode v) t n one
        ∙ (values_append f (encoded ++ encode v) ws (omega arith)
            ∙ ap (λ o. ok (o, out)) (simp append_assoc)))

  fields_collect :
      {d : ℕ} {fs : Fields} {s rest : Bytes} (f g : ℕ) (acc : List Entry)
      → WritesFields d fs s rest
      → length s < g
      → 2 * length s + 2 ≤ f
      → (cs : List Entry) × (collect_entries g s acc ≡ ok (acc ++ cs, rest))
        × Paired f cs (encode_fields fs)
  fields_collect f zero acc w l h = absurd (omega arith)
  fields_collect f (suc g) acc (end_ e) l h = ([], rw (e, collect_entries) (rw append-nil), tt)
  fields_collect f (suc g) acc
        (field_ {k = k} {v = v} {fs = fs} {s = s} {t = t} {u = rest} {rest = out} str w ws) l h =
      let (c, u, e, digit, less) = string_starts k s t str in
      let (_, _, _, _, less') = Writes-Starts w in
      let read : read_bencode_string (c ∷ u) ≡ ok (k, t) =
        subst (λ t'. read_bencode_string t' ≡ ok (k, t)) e (read_string_complete s k t str) in
      let one : scan t 0 ≡ ok rest = scan_shallow w in
      let (cs, collected, paired) =
        fields_collect f g (acc ++ (k, t) ∷ []) ws (omega arith) (omega arith) in
      (
        (k, t) ∷ cs,
        rw e (
            field_collect g c u k t rest acc (digit_ne_e c digit) read one
            ∙ (collected ∙ ap (λ o. ok (o, out)) (append_assoc acc ((k, t) ∷ []) cs))),
        (refl, (λ enc. (rest, append_complete f enc w (omega arith))), paired),
      )
