-- ===== src/Bencode/Safe.antt =====
-- The reader never runs out of fuel and never reads what it has not checked.
use jacklet.Prelude.{
  ℕ, zero, suc, ◌+◌, ◌-◌, ◌*◌, ◌≤◌, ◌<◌, ◌≡◌, refl, sym, subst, ◌≢◌, inl, inr, Bool, true, false,
  ◌||◌, List, [], ◌∷◌, ◌++◌, arith, leb, nat_eq, nat_eq_iff, Bool-cases, Option-cases, ℕ-Eq, length,
  take, drop, Bytes, Bytes-Eq,
}
use jacklet.Prelude.Decimal.{is_digit, is_all_digits}
use jacklet.Bencode.{
  unchecked, exhausted, Result, ok, err, ◌>>=◌, Result-cases, max_bencode_depth,
  max_bencode_length_digits, index_byte, check_bencode_integer, length_digits, string_body,
  read_bencode_string, end_container, key_error, integer_end, scan_bencode, scan_items, scan,
  canonical_torrent,
}
use jacklet.Bencode.Grammar.{Writes, encode}
use jacklet.Bencode.Strings.{atoi_digits, read_string_sound, length_digits_sound}
use jacklet.Bencode.Scan.{scan_sound, key_read}
use jacklet.Bencode.Complete.{string_starts, Writes-Starts}
use jacklet.Bencode.Canonical.{accepted}

-- The result is no error that the code would not report.
abbrev pub Reports {ℓ} : {A : Type ℓ} → Result A → Type ℓ
Reports m = (m ≢ err exhausted) × (m ≢ err unchecked)

Reports->>= {ℓ κ} :
    {A : Type ℓ} {B : Type κ} (m : Result A) (f : A → Result B)
    → Reports m
    → ((a : A) → m ≡ ok a → Reports (f a))
    → Reports (m >>= f)
Reports->>= (ok a) f h k = k a refl
Reports->>= (err e) f h k = ground (arith, h)

Reports-ok {ℓ} : {A : Type ℓ} (a : A) → Reports (ok a)
Reports-ok a = ((λ h. cc), (λ h. cc))

Reports-integer : (ds : Bytes) → Reports (check_bencode_integer ds)
unfolding check_bencode_integer
Reports-integer ds = ground arith

Reports-integer_end : (s : Bytes) → Reports (integer_end s)
Reports-integer_end s = elim (Option-cases (index_byte s b'e')) [
  | inl e ↦ rw (e, integer_end) (ground arith)
  | inr (n, e) ↦
      rw (e, integer_end)
        (Reports->>= (check_bencode_integer (take (n - 1) (drop 1 s))) _ (Reports-integer _)
          (λ a _. Reports-ok _))
]

Reports-length_digits : (count : ℕ) (s : Bytes) → Reports (length_digits count s)
unfolding length_digits
Reports-length_digits count [] = ground arith
Reports-length_digits count (b ∷ s) = ground (arith, Reports-length_digits (count + 1) s)

Reports-string_body :
    (ds s : Bytes)
    → is_all_digits ds ≡ true
    → length ds ≤ max_bencode_length_digits
    → Reports (string_body ds s)
unfolding string_body
Reports-string_body [] s all short = ground arith
Reports-string_body (d ∷ ds) [] all short = ground arith
Reports-string_body (d ∷ ds) (c ∷ s) all short = ground (arith, atoi_digits d ds all short)

Reports-string : (s : Bytes) → Reports (read_bencode_string s)
unfolding read_bencode_string
Reports-string s =
    Reports->>= (length_digits 0 s) (λ r. string_body r.0 r.1) (Reports-length_digits 0 s)
      (λ r e.
        let (all, short, _) = length_digits_sound 0 s r.0 r.1 (omega arith) e in
        Reports-string_body r.0 r.1 all (omega arith))

Reports-end : (ks : List Bytes) (s : Bytes) → Reports (end_container ks s)
unfolding end_container
Reports-end ks [] = ground arith
Reports-end ks (e ∷ s) = ground arith

Reports-key : (m : Result (Bytes × Bytes)) → Reports m → Reports (key_error m)
Reports-key (ok r) h = Reports-ok r
Reports-key (err e) h = ground arith

string_shorter : (s b rest : Bytes) → read_bencode_string s ≡ ok (b, rest) → length rest < length s
string_shorter s b rest h =
    let (_, _, _, _, less) = string_starts b s rest (read_string_sound s b rest h) in less

scan_shorter :
    (f : ℕ) (s : Bytes) (d : ℕ) (rest : Bytes)
    → scan_bencode f s d ≡ ok rest
    → length rest < length s
scan_shorter f s d rest h =
    let (v, w) = scan_sound f s d rest h in let (_, _, _, _, less) = Writes-Starts w in less

mutual
  unfolding scan_bencode

  Reports-scan : (f : ℕ) (s : Bytes) (d : ℕ) → 2 * length s + 1 ≤ f → Reports (scan_bencode f s d)
  Reports-scan zero s d h = absurd (omega arith)
  Reports-scan (suc f) [] d h = ground arith
  Reports-scan (suc f) (kind ∷ s) d h = elim (Bool-cases (nat_eq kind b'i')) [
    | inl i ↦ rw (i, scan_bencode) (Reports-integer_end (kind ∷ s))
    | inr i ↦ elim (Bool-cases (nat_eq kind b'l' || nat_eq kind b'd')) [
      | inl ld ↦ elim (Bool-cases (leb max_bencode_depth d)) [
        | inl deep ↦ rw (i, ld, deep, scan_bencode) (ground arith)
        | inr shallow ↦
            rw (i, ld, shallow, scan_bencode)
              (Reports->>= (scan_items f (nat_eq kind b'd') s d []) (λ r. end_container r.0 r.1)
                (Reports-items f (nat_eq kind b'd') s d [] (omega arith))
                (λ r _. Reports-end r.0 r.1))
      ]
      | inr ld ↦ elim (Bool-cases (is_digit kind)) [
        | inl digit ↦
            rw (i, ld, digit, scan_bencode)
              (Reports->>= (read_bencode_string (kind ∷ s)) (λ r. ok r.1)
                (Reports-string (kind ∷ s)) (λ r _. Reports-ok r.1))
        | inr digit ↦ rw (i, ld, digit, scan_bencode) (ground arith)
      ]
    ]
  ]

  Reports-items :
      (f : ℕ) (is_dictionary : Bool) (s : Bytes) (d : ℕ) (ks : List Bytes)
      → 2 * length s + 2 ≤ f
      → Reports (scan_items f is_dictionary s d ks)
  Reports-items zero b s d ks h = absurd (omega arith)
  Reports-items (suc f) b [] d ks h = ground arith
  Reports-items (suc f) true (c ∷ s) d ks h = elim (Bool-cases (nat_eq c b'e')) [
    | inl e ↦ rw (e, scan_items) (ground arith)
    | inr e ↦
        rw (e, scan_items)
          (Reports->>= (key_error (read_bencode_string (c ∷ s))) _
            (Reports-key _ (Reports-string (c ∷ s)))
            (λ r read.
              let less = string_shorter (c ∷ s) r.0 r.1 (key_read _ r read) in
              Reports->>= (scan_bencode f r.1 (d + 1)) _ (Reports-scan f r.1 (d + 1) (omega arith))
                (λ pos one.
                  let less' = scan_shorter f r.1 (d + 1) pos one in
                  Reports-items f true pos d (ks ++ r.0 ∷ []) (omega arith))))
  ]
  Reports-items (suc f) false (c ∷ s) d ks h = elim (Bool-cases (nat_eq c b'e')) [
    | inl e ↦ rw (e, scan_items) (ground arith)
    | inr e ↦
        rw (e, scan_items)
          (Reports->>= (scan_bencode f (c ∷ s) (d + 1)) _
            (Reports-scan f (c ∷ s) (d + 1) (omega arith))
            (λ pos one.
              let less = scan_shorter f (c ∷ s) (d + 1) pos one in
              Reports-items f false pos d ks (omega arith)))
  ]

-- Every answer of the canonical form is a torrent file or an error that the code reports: the fuel for
-- twice the length is enough, writing reads no byte behind the end, and no call whose error writing
-- ignores has one.
pub canonical-Reports : (data_ : Bytes) → Reports (canonical_torrent data_)
unfolding canonical_torrent scan
canonical-Reports [] = ground arith
canonical-Reports (c ∷ s) = elim (Bool-cases (nat_eq c b'd')) [
  | inl e ↦ elim (Result-cases (scan (c ∷ s) 0)) [
    | inl (rest, scanned) ↦
        let q : c ≡ b'd' = (nat_eq_iff c b'd').0 e in
        let (v, w) = scan_sound (2 * length (c ∷ s) + 1) (c ∷ s) 0 rest scanned in
        let done : canonical_torrent (c ∷ s) ≡ ok (encode v) =
          subst (λ k. canonical_torrent (k ∷ s) ≡ ok (encode v)) (sym q)
            (accepted s v (subst (λ k. Writes 0 v (k ∷ s) rest) q w)) in
        subst (λ m. Reports m) (sym done) (Reports-ok (encode v))
    | inr (x, refused) ↦
        rw (e, refused)
          (subst (λ m. Reports m) refused
            (Reports-scan (2 * length (c ∷ s) + 1) (c ∷ s) 0 (omega arith)))
  ]
  | inr e ↦ rw e (ground arith)
]
