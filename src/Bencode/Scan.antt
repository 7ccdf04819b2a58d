-- ===== src/Bencode/Scan.antt =====
-- `scanBencode` against the format.
use jacklet.Prelude.{
  ℕ, zero, suc, ◌+◌, ◌≡◌, sym, ap, ◌∙◌, subst, inl, inr, true, false, ◌||◌, List, [], ◌∷◌, ◌++◌,
  append_assoc, append-nil, arith, leb, nat_eq, nat_eq_iff, Bool-cases, ℕ-Eq, Bytes, Bytes-Eq,
}
use jacklet.Prelude.Decimal.{is_digit}
use jacklet.Bencode.{
  Result, ok, err, ◌>>=◌, >>=-eq-ok, max_bencode_depth, read_bencode_string, end_container,
  key_error, integer_end, scan_bencode, scan_items,
}
use jacklet.Bencode.Grammar.{
  Value, integer, string, list, dictionary, Values, nil, cons, Fields, end, field, keys, Distinct,
  Writes, integer_, string_, list_, dictionary_, WritesValues, nil_, cons_, WritesFields, end_,
  field_,
}
use jacklet.Bencode.Strings.{read_string_sound}
use jacklet.Bencode.Integers.{IsInteger-sound}
use jacklet.Bencode.Order.{no_twins_iff}

end_container_inv :
    (ks : List Bytes) (s : Bytes) (out : Bytes)
    → end_container ks s ≡ ok out
    → (c : ℕ) × (s ≡ c ∷ out) × Distinct ks
unfolding end_container
end_container_inv ks [] out h = cc
end_container_inv ks (c ∷ s) out h = (c, ground arith, (no_twins_iff ks).0 (ground arith))

ok-inj {ℓ} : {A : Type ℓ} {a b : A} → ok a ≡ ok b → a ≡ b
ok-inj h = cc

at_end :
    (ks : List Bytes) (s : Bytes) (r : List Bytes × Bytes) (out : Bytes)
    → (ks, s) ≡ r
    → end_container r.0 r.1 ≡ ok out
    → (c : ℕ) × (s ≡ c ∷ out) × (r.0 ≡ ks)
at_end ks s r out e k =
    let (c, spelled, _) = end_container_inv r.0 r.1 out k in
    (c, ap (λ q. q.1) e ∙ spelled, sym (ap (λ q. q.0) e))

absurd_end {ℓ} :
    {A : Type ℓ} (ks : List Bytes) (r : List Bytes × Bytes) (out : Bytes)
    → (ks, []) ≡ r
    → end_container r.0 r.1 ≡ ok out
    → A
absurd_end ks r out e k = let (c, spelled, _) = at_end ks [] r out e k in cc

e_first :
    (c : ℕ) (s out : Bytes) → nat_eq c b'e' ≡ true → {b : ℕ} → c ∷ s ≡ b ∷ out → c ∷ s ≡ b'e' ∷ out
e_first c s out e h = ground (arith, e)

pub key_read : (m : Result (Bytes × Bytes)) (r : Bytes × Bytes) → key_error m ≡ ok r → m ≡ ok r
key_read (ok a) r h = h
key_read (err e) r h = cc

read_integer :
    (kind : ℕ) (s : Bytes) (d : ℕ) (rest : Bytes)
    → nat_eq kind b'i' ≡ true
    → integer_end (kind ∷ s) ≡ ok rest
    → (v : Value) × Writes d v (kind ∷ s) rest
read_integer kind s d rest i h =
    let e : kind ≡ b'i' = (nat_eq_iff kind b'i').0 i in
    let (ds, is, spelled) = IsInteger-sound s rest (rw e at h) in
    (integer ds, integer_ is (rw e spelled))

made_list :
    (kind : ℕ) (s : Bytes) (d : ℕ) (rest : Bytes)
    → kind ≡ b'l'
    → leb max_bencode_depth d ≡ false
    → ((vs : Values) × WritesValues (d + 1) vs s rest)
    → (v : Value) × Writes d v (kind ∷ s) rest
made_list kind s d rest e shallow (vs, w) = (list vs, list_ (ground arith) (rw e) w)

made_dictionary :
    (kind : ℕ) (s : Bytes) (d : ℕ) (rest : Bytes) (r : List Bytes × Bytes)
    → nat_eq kind b'd' ≡ true
    → leb max_bencode_depth d ≡ false
    → ((fs : Fields) × WritesFields (d + 1) fs s rest × (r.0 ≡ [] ++ keys fs))
    → end_container r.0 r.1 ≡ ok rest
    → (v : Value) × Writes d v (kind ∷ s) rest
made_dictionary kind s d rest r e shallow (fs, w, same) closed =
    let (c, _, distinct) = end_container_inv r.0 r.1 rest closed in
    (
      dictionary fs,
      dictionary_ (ground arith) (ap (λ (k : ℕ). k ∷ s) ((nat_eq_iff kind b'd').0 e)) w
          (subst Distinct same distinct),
    )

mutual
  unfolding scan_bencode

  pub scan_sound :
      (f : ℕ) (s : Bytes) (d : ℕ) (rest : Bytes)
      → scan_bencode f s d ≡ ok rest
      → (v : Value) × Writes d v s rest
  scan_sound zero s d rest h = cc
  scan_sound (suc f) [] d rest h = cc
  scan_sound (suc f) (kind ∷ s) d rest h = elim (Bool-cases (nat_eq kind b'i')) [
    | inl i ↦ read_integer kind s d rest i (rw (i, scan_bencode) at h)
    | inr i ↦ elim (Bool-cases (nat_eq kind b'l' || nat_eq kind b'd')) [
      | inl ld ↦ elim (Bool-cases (leb max_bencode_depth d)) [
        | inl deep ↦ cc (rw (i, ld, deep, scan_bencode) at h)
        | inr shallow ↦ elim (Bool-cases (nat_eq kind b'd')) [
          | inl dict ↦
              let (r, items, closed) =
                >>=-eq-ok (scan_items f true s d []) (λ r. end_container r.0 r.1)
                  (rw (i, ld, shallow, dict, scan_bencode) at h) in
              made_dictionary kind s d rest r dict shallow
                (dictionary_sound f s d [] r rest items closed) closed
          | inr dict ↦
              let (r, items, closed) =
                >>=-eq-ok (scan_items f false s d []) (λ r. end_container r.0 r.1)
                  (rw (i, ld, shallow, dict, scan_bencode) at h) in
              made_list kind s d rest (ground arith) shallow
                (list_sound f s d [] r rest items closed)
        ]
      ]
      | inr ld ↦ elim (Bool-cases (is_digit kind)) [
        | inl digit ↦
            let (r, str, out) =
              >>=-eq-ok (read_bencode_string (kind ∷ s)) (λ r. ok r.1)
                (rw (i, ld, digit, scan_bencode) at h) in
            (
              string r.0,
              string_ (read_string_sound (kind ∷ s) r.0 rest (str ∙ (ground (arith, out)))),
            )
        | inr digit ↦ cc (rw (i, ld, digit, scan_bencode) at h)
      ]
    ]
  ]

  list_sound :
      (f : ℕ) (s : Bytes) (d : ℕ) (ks : List Bytes) (r : List Bytes × Bytes) (out : Bytes)
      → scan_items f false s d ks ≡ ok r
      → end_container r.0 r.1 ≡ ok out
      → (vs : Values) × WritesValues (d + 1) vs s out
  list_sound zero s d ks r out h k = cc
  list_sound (suc f) [] d ks r out h k = absurd_end ks r out (ok-inj h) k
  list_sound (suc f) (c ∷ s) d ks r out h k = elim (Bool-cases (nat_eq c b'e')) [
    | inl e ↦
        let (_, spelled, _) = at_end ks (c ∷ s) r out (ok-inj (rw (e, scan_items) at h)) k in
        (nil, nil_ (e_first c s out e spelled))
    | inr e ↦
        let (pos, one, more) =
          >>=-eq-ok (scan_bencode f (c ∷ s) (d + 1)) (λ pos. scan_items f false pos d ks)
            (rw (e, scan_items) at h) in
        let (v, w) = scan_sound f (c ∷ s) (d + 1) pos one in
        let (vs, ws) = list_sound f pos d ks r out more k in (cons v vs, cons_ w ws)
  ]

  dictionary_sound :
      (f : ℕ) (s : Bytes) (d : ℕ) (ks : List Bytes) (r : List Bytes × Bytes) (out : Bytes)
      → scan_items f true s d ks ≡ ok r
      → end_container r.0 r.1 ≡ ok out
      → (fs : Fields) × WritesFields (d + 1) fs s out × (r.0 ≡ ks ++ keys fs)
  dictionary_sound zero s d ks r out h k = cc
  dictionary_sound (suc f) [] d ks r out h k = absurd_end ks r out (ok-inj h) k
  dictionary_sound (suc f) (c ∷ s) d ks r out h k = elim (Bool-cases (nat_eq c b'e')) [
    | inl e ↦
        let (_, spelled, same) = at_end ks (c ∷ s) r out (ok-inj (rw (e, scan_items) at h)) k in
        (end, end_ (e_first c s out e spelled), (same ∙ sym (append-nil ks)))
    | inr e ↦
        let (key, read, rest_) =
          >>=-eq-ok (key_error (read_bencode_string (c ∷ s)))
            (λ q. scan_bencode f q.1 (d + 1) >>= λ pos. scan_items f true pos d (ks ++ q.0 ∷ []))
            (rw (e, scan_items) at h) in
        let (pos, one, more) =
          >>=-eq-ok (scan_bencode f key.1 (d + 1))
            (λ pos. scan_items f true pos d (ks ++ key.0 ∷ [])) rest_ in
        let str = read_string_sound (c ∷ s) key.0 key.1 (key_read _ key read) in
        let (v, w) = scan_sound f key.1 (d + 1) pos one in
        let (fs, ws, same) = dictionary_sound f pos d (ks ++ key.0 ∷ []) r out more k in
        (field key.0 v fs, field_ str w ws, (same ∙ append_assoc ks (key.0 ∷ []) (keys fs)))
  ]
