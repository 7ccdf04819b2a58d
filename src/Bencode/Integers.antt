-- ===== src/Bencode/Integers.antt =====
-- The reader's integers, against their writing.
use jacklet.Prelude.{
  ℕ, suc, ◌+◌, ◌-◌, ◌≡◌, refl, sym, ap, ◌∙◌, inl, inr, true, false, none, some, [], ◌∷◌, ◌++◌,
  arith, nat_eq, Bool-cases, Option-cases, ℕ-Eq, length, take, drop, All, take_append, Bytes,
  Bytes-Eq,
}
use jacklet.Prelude.Decimal.{is_all_digits}
use jacklet.Bencode.{
  integer_not_terminated, ok, err, ◌>>=◌, >>=-eq-ok, index_byte, trim_minus, check_bencode_integer,
  integer_end,
}
use jacklet.Bencode.Grammar.{IsInteger}
use jacklet.Bencode.Numbers.{IsInteger-Checked}
use jacklet.Bencode.Numerals.{Checked-IsInteger}

index_split : (s : Bytes) (c n : ℕ) → index_byte s c ≡ some n → s ≡ take n s ++ (c ∷ drop (suc n) s)
unfolding index_byte
index_split [] c n h = cc
index_split (b ∷ s) c n h = elim (Bool-cases (nat_eq b c)) [
  | inl e ↦ ground (arith, e)
  | inr e ↦ elim (Option-cases (index_byte s c)) [
    | inl none_ ↦ ground (arith, e, none_)
    | inr (m, at) ↦ ground (arith, e, at, index_split s c m at)
  ]
]

abbrev Lacks : ℕ → Bytes → Type 0
Lacks c = All (λ b. nat_eq b c ≡ false)

pub index_append :
    (ds rest : Bytes) (c : ℕ) → Lacks c ds → index_byte (ds ++ (c ∷ rest)) c ≡ some (length ds)
unfolding index_byte
index_append [] rest c _ = ground arith
index_append (b ∷ ds) rest c (h, hs) = rw (h, index_append ds rest c hs)

digits-Lacks : (ds : Bytes) → is_all_digits ds ≡ true → Lacks b'e' ds
digits-Lacks [] h = tt
digits-Lacks (b ∷ ds) h = (ground arith, digits-Lacks ds (ground arith))

integer_digits : (ds : Bytes) → IsInteger ds → is_all_digits (trim_minus ds) ≡ true
unfolding check_bencode_integer
integer_digits ds h = ground (arith, IsInteger-Checked ds h)

pub IsInteger-Lacks : (ds : Bytes) → IsInteger ds → Lacks b'e' ds
IsInteger-Lacks [] h = tt
IsInteger-Lacks (b ∷ ds) h = elim (Bool-cases (nat_eq b b'-')) [
  | inl e ↦ (ground arith, digits-Lacks ds (ground (arith, e, integer_digits (b ∷ ds) h)))
  | inr e ↦ digits-Lacks (b ∷ ds) (ground (arith, e, integer_digits (b ∷ ds) h))
]

integer_end_at :
    (t : Bytes) (n : ℕ)
    → index_byte t b'e' ≡ some n
    → integer_end (b'i' ∷ t) ≡ (check_bencode_integer (take n t) >>= λ _. ok (drop (suc n) t))
unfolding index_byte
integer_end_at t n e =
    let before : suc n - 1 ≡ n = omega arith in
    let after : suc n + 1 ≡ suc (suc n) = omega arith in rw e (rw (before, after))

integer_end-none :
    (t : Bytes) → index_byte t b'e' ≡ none → integer_end (b'i' ∷ t) ≡ err integer_not_terminated
unfolding index_byte
integer_end-none t e = rw e

pub drop_past : (ds rest : Bytes) → drop (suc (length ds)) (ds ++ (b'e' ∷ rest)) ≡ rest
drop_past [] rest = refl
drop_past (b ∷ ds) rest = drop_past ds rest

take_past : (ds rest : Bytes) → take (suc (length ds)) (ds ++ (b'e' ∷ rest)) ≡ ds ++ (b'e' ∷ [])
take_past [] rest = refl
take_past (b ∷ ds) rest = ap (λ t. b ∷ t) (take_past ds rest)

-- The reader takes an integer exactly when the bytes up to the first "e" are one.
pub IsInteger-sound :
    (t rest : Bytes)
    → integer_end (b'i' ∷ t) ≡ ok rest
    → (ds : Bytes) × IsInteger ds × (b'i' ∷ t ≡ b'i' ∷ (ds ++ (b'e' ∷ rest)))
IsInteger-sound t rest h = elim (Option-cases (index_byte t b'e')) [
  | inl e ↦ cc (integer_end-none t e)
  | inr (n, e) ↦
      let (u, c, d) =
        >>=-eq-ok (check_bencode_integer (take n t)) (λ _. ok (drop (suc n) t))
          (sym (integer_end_at t n e) ∙ h) in
      let tail : drop (suc n) t ≡ rest = cc d in
      (
        take n t,
        Checked-IsInteger (take n t) c,
        ap (λ s. b'i' ∷ s) (index_split t b'e' n e ∙ (rw tail)),
      )
]

pub integer_complete :
    (ds rest : Bytes) → IsInteger ds → integer_end (b'i' ∷ (ds ++ (b'e' ∷ rest))) ≡ ok rest
integer_complete ds rest h =
    integer_end_at (ds ++ (b'e' ∷ rest)) (length ds)
      (index_append ds rest b'e' (IsInteger-Lacks ds h))
    ∙ (rw (take_append ds (b'e' ∷ rest), IsInteger-Checked ds h) (ap ok (drop_past ds rest)))

-- An integer's writing is cut out of the text whole.
pub integer_cut :
    (ds rest : Bytes)
    → IsInteger ds
    → (index_byte (b'i' ∷ (ds ++ (b'e' ∷ rest))) b'e' ≡ some (suc (length ds)))
      × (take (suc (length ds) + 1) (b'i' ∷ (ds ++ (b'e' ∷ rest))) ≡ b'i' ∷ (ds ++ (b'e' ∷ [])))
      × (drop (suc (length ds) + 1) (b'i' ∷ (ds ++ (b'e' ∷ rest))) ≡ rest)
unfolding index_byte
integer_cut ds rest is =
    let more : suc (length ds) + 1 ≡ suc (suc (length ds)) = omega arith in
    (
      rw (index_append ds rest b'e' (IsInteger-Lacks ds is)),
      rw more (ap (λ t. b'i' ∷ t) (take_past ds rest)),
      rw more (drop_past ds rest),
    )
