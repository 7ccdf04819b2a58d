-- ===== src/Bencode/Strings.antt =====
-- The reader's strings and integers, against their writing.
use jacklet.Prelude.{
  ℕ, ◌+◌, ◌^◌, ◌≤◌, ◌<◌, ◌≡◌, refl, ap, ◌∙◌, ◌≢◌, inl, inr, true, some, [], ◌∷◌, ◌++◌, arith, ℕ-Eq,
  length, length-append, take_append, drop_append, take-append-drop, length-take, Bytes, Bytes-Eq,
}
use jacklet.Prelude.Int.{pos}
use jacklet.Prelude.Decimal.{is_all_digits, value, atoi}
use jacklet.Prelude.Decimal.Laws.{value_bound, pow-le}
use jacklet.Bencode.{
  ok, max_bencode_length_digits, length_digits, string_body, read_bencode_string, Result-cases,
  >>=-eq-ok,
}
use jacklet.Bencode.Grammar.{WritesString}

pub fits_ten : (s : Bytes) → is_all_digits s ≡ true → length s ≤ 10 → value s < 10 ^ 10
fits_ten s h l = omega (arith, value_bound s 0 h, pow-le (length s) 10 l)

-- Ten digits fit Atoi's 64 bits.
pub atoi_digits :
    (b : ℕ) (s : Bytes)
    → is_all_digits (b ∷ s) ≡ true
    → length (b ∷ s) ≤ max_bencode_length_digits
    → atoi (b ∷ s) ≡ some (pos (value (b ∷ s)))
unfolding atoi
atoi_digits b s h l =
    let v = value (b ∷ s) in let fits : v < 10 ^ 10 = fits_ten (b ∷ s) h l in ground arith

pub length_digits_sound :
    (count : ℕ) (s ds rest : Bytes)
    → count ≤ max_bencode_length_digits
    → length_digits count s ≡ ok (ds, rest)
    → (is_all_digits ds ≡ true) × (count + length ds ≤ max_bencode_length_digits) × (s ≡ ds ++ rest)
unfolding length_digits
length_digits_sound count [] ds rest c h = ground arith
length_digits_sound count (b ∷ s) ds rest c h = elim (Result-cases (length_digits (count + 1) s)) [
  | inl (r, e) ↦ ground (arith, e, length_digits_sound (count + 1) s r.0 r.1)
  | inr (x, e) ↦ ground (arith, e)
]

length_digits_complete :
    (count : ℕ) (ds rest : Bytes)
    → is_all_digits ds ≡ true
    → count + length ds ≤ max_bencode_length_digits
    → length_digits count (ds ++ (b':' ∷ rest)) ≡ ok (ds, b':' ∷ rest)
unfolding length_digits
length_digits_complete count [] rest h l = refl
length_digits_complete count (b ∷ ds) rest h l =
    ground (arith, length_digits_complete (count + 1) ds rest)

string_body_sound :
    (ds t b rest : Bytes)
    → is_all_digits ds ≡ true
    → length ds ≤ max_bencode_length_digits
    → string_body ds t ≡ ok (b, rest)
    → (ds ≢ []) × (value ds ≡ length b) × (t ≡ b':' ∷ (b ++ rest))
unfolding string_body
string_body_sound [] t b rest all short h = cc
string_body_sound (d ∷ ds) [] b rest all short h = cc
string_body_sound (d ∷ ds) (c ∷ u) b rest all short h =
    let n = value (d ∷ ds) in
    ground (arith, h, atoi_digits d ds all short, length-take n u, take-append-drop n u)

string_body_complete :
    (ds b rest : Bytes)
    → ds ≢ []
    → is_all_digits ds ≡ true
    → length ds ≤ max_bencode_length_digits
    → value ds ≡ length b
    → string_body ds (b':' ∷ (b ++ rest)) ≡ ok (b, rest)
unfolding string_body
string_body_complete [] b rest some_ all short counts = absurd (some_ refl)
string_body_complete (d ∷ ds) b rest some_ all short counts =
    rw (atoi_digits d ds all short, counts)
      (ground (arith, take_append b rest, drop_append b rest, length-append b rest))

-- A string that the reader takes is written as the format says, and every such string is taken.
pub read_string_sound :
    (s b rest : Bytes) → read_bencode_string s ≡ ok (b, rest) → WritesString b s rest
unfolding read_bencode_string
read_string_sound s b rest h =
    let (r, e, body) = >>=-eq-ok (length_digits 0 s) _ h in
    let (all, short, split) = length_digits_sound 0 s r.0 r.1 (omega arith) e in
    let (some_, counts, spelled) = string_body_sound r.0 r.1 b rest all (omega arith) body in
    record {
      digits = r.0;
      nonempty = some_;
      all_digits = all;
      short = omega arith;
      counts = counts;
      spelled = split ∙ ap (λ t. r.0 ++ t) spelled;
    }

pub read_string_complete :
    (s b rest : Bytes) → WritesString b s rest → read_bencode_string s ≡ ok (b, rest)
unfolding read_bencode_string
read_string_complete s b rest w =
    rw
      (
        w.spelled,
        length_digits_complete 0 w.digits (b ++ rest) w.all_digits (omega (arith, w.short)),
      )
      (string_body_complete w.digits b rest w.nonempty w.all_digits w.short w.counts)
