-- ===== src/Bencode.antt =====
-- pkg/torznab/bencode.go: the download endpoint's check of a torrent file and its canonical form.
--
-- A position in `data` is the suffix of `data` that starts there, so `data[pos]` is its first byte and
-- `pos >= len(data)` says that it is empty. An error keeps the reason and not the byte's number.
mod Grammar
mod Strings
mod Order
mod Numbers
mod Numerals
mod Integers
mod Scan
mod Complete
mod Append
mod Canonical
mod Reread
mod Safe
mod Tests
use jacklet.Prelude.{
  ℕ, suc, ◌+◌, Bool, true, false, not, ◌&&◌, ◌||◌, Option, none, some, [], ◌∷◌, ltb, if◌then◌else◌,
  ◌==◌, ℕ-Eq, length, take, drop, Bytes, Bytes-Eq, zero, ◌-◌, List, ◌++◌, leb, bytes_eq, ◌*◌, ◌/◌,
  ◌%◌, ◌^◌, ◌≤◌, ◌<◌, min, max, ◌≡◌, refl, sym, ap, ap₂, ◌∙◌, subst, fun_ext, ◌≡⟨◌⟩◌, ◌∎, ◌≢◌, ◌↔◌,
  ◌⊎◌, inl, inr, map, append_assoc, append-nil, arith, nat_eq, ltb→lt, lt→ltb, leb→le, le→leb,
  nat_eq_iff, tests, Bool-cases, Option-cases, Eq, beq_refl, beq_eq, beq_ne, ne_beq, get_elem?, All,
  Any, select, length-append, take_append, drop_append, take-append-drop, length-take, length-drop,
  All-append, All-map, contains, codes, bytes_eq_iff, and_parts, negated, contains-append,
}
use jacklet.Prelude.Int.{pos, negsuc, ℤ, int_eq, int_eq_iff, ℤ-Eq}
use jacklet.Prelude.Sorting.{
  bytes_le, insert_by, sort_by, le_total, le_antisym, le_trans, Above, IsSorted, Above-le,
  insert_by-Above, insert_by-IsSorted, sort_by-IsSorted, insert_by_head, sort_by_sorted, itself,
  contains-insert_by, contains-sort_by,
}
use jacklet.Prelude.Decimal.{
  is_digit, is_all_digits, parse_int, atoi, value_from, value, parse_digits, emit, itoa, negate,
}

pub data BencodeError : Type 0 where
  not_a_dictionary data_ends integer_not_terminated no_digits not_a_64_bit_integer leading_zero :
      BencodeError
  negative_zero nests_too_deep starts_no_value value_not_terminated duplicate_key : BencodeError
  length_too_long starts_no_string cut_short bad_key : BencodeError
  -- The code would panic, or read a position that scanning did not check.
  unchecked : BencodeError
  -- The fuel ran out.
  exhausted : BencodeError

pub data Result {ℓ} (V : Type ℓ) : Type ℓ where
  err : BencodeError → Result V
  ok : V → Result V

infixl 5 ◌>>=◌ ◌>>◌
abbrev pub ◌>>=◌ {ℓ ℓ'} : {V : Type ℓ} {W : Type ℓ'} → Result V → (V → Result W) → Result W
err reason >>= next = err reason
ok value >>= next = next value

pub Result-cases {ℓ} :
    {A : Type ℓ} (m : Result A) → ((a : A) × (m ≡ ok a)) ⊎ ((e : BencodeError) × (m ≡ err e))
Result-cases (ok a) = inl (a, refl)
Result-cases (err e) = inr (e, refl)

-- Inversion of a bind that succeeds.
pub >>=-eq-ok {ℓ ℓ'} :
    {V : Type ℓ} {W : Type ℓ'} (first : Result V) (next : V → Result W) {w : W}
    → (first >>= next) ≡ ok w
    → (v : V) × (first ≡ ok v) × (next v ≡ ok w)
>>=-eq-ok (err reason) next h = cc
>>=-eq-ok (ok v) next h = (v, refl, h)

abbrev pub ◌>>◌ {ℓ} : {B : Type ℓ} → Result (Unit {0}) → Result B → Result B
m >> k = m >>= λ _. k

abbrev pub refuse : Bool → BencodeError → Result (Unit {0})
refuse true e = err e
refuse false e = ok tt

abbrev pub max_bencode_depth : ℕ
max_bencode_depth = 64

abbrev pub max_bencode_integer_digits : ℕ
max_bencode_integer_digits = 19

abbrev pub max_bencode_length_digits : ℕ
max_bencode_length_digits = 10

-- bytes.IndexByte; `none` is -1.
unfoldable pub index_byte : Bytes → ℕ → Option ℕ
index_byte [] c = none
index_byte (b ∷ s) c =
    if b == c then some 0 else elim (index_byte s c) [ none ↦ none | some n ↦ some (suc n) ]

-- bytes.TrimPrefix(digits, "-")
abbrev pub trim_minus : Bytes → Bytes
trim_minus [] = []
trim_minus (b ∷ s) = if b == b'-' then s else b ∷ s

abbrev pub starts_with_zero : Bytes → Bool
starts_with_zero [] = false
starts_with_zero (b ∷ s) = b == b'0'

abbrev pub is_none {ℓ} : {A : Type ℓ} → Option A → Bool
is_none none = true
is_none (some a) = false

unfoldable pub check_bencode_integer : Bytes → Result (Unit {0})
check_bencode_integer digits = do
  let unsigned = trim_minus digits
  refuse (length unsigned == 0) no_digits
  refuse (ltb max_bencode_integer_digits (length unsigned) || not (is_all_digits unsigned))
      not_a_64_bit_integer
  refuse (starts_with_zero unsigned && ltb 1 (length unsigned)) leading_zero
  refuse (starts_with_zero unsigned && ltb (length unsigned) (length digits)) negative_zero
  refuse (is_none (parse_int 64 digits)) not_a_64_bit_integer

-- The loop over a length's digits, `count` of which are read; the digits and where they end.
unfoldable pub length_digits : ℕ → Bytes → Result (Bytes × Bytes)
length_digits count [] = ok ([], [])
length_digits count (b ∷ s) =
    if is_digit b
    then (if count == max_bencode_length_digits
        then err length_too_long
        else (length_digits (count + 1) s >>= λ r. ok (b ∷ r.0, r.1)))
    else ok ([], b ∷ s)

-- Behind the length's digits: the ":" and the string.
unfoldable pub string_body : Bytes → Bytes → Result (Bytes × Bytes)
string_body [] rest = err starts_no_string
string_body (d ∷ digits) [] = err starts_no_string
string_body (d ∷ digits) (c ∷ rest) =
    if c == b':'
    then elim (atoi (d ∷ digits)) [
      | some (pos n) ↦ if ltb (length rest) n then err cut_short else ok (take n rest, drop n rest)
      | some (negsuc n) ↦ err unchecked
      | none ↦ err cut_short
    ]
    else err starts_no_string

-- The string's bytes and where it ends.
unfoldable pub read_bencode_string : Bytes → Result (Bytes × Bytes)
read_bencode_string s = length_digits 0 s >>= λ r. string_body r.0 r.1

-- `for i := 1; i < len(keys); i++ { if bytes.Equal(keys[i-1], keys[i]) ... }`
unfoldable pub has_adjacent_twins : List Bytes → Bool
has_adjacent_twins [] = false
has_adjacent_twins (k ∷ []) = false
has_adjacent_twins (k ∷ l ∷ ks) = bytes_eq k l || has_adjacent_twins (l ∷ ks)

-- The end of `scanBencodeContainer`, behind its loop.
unfoldable pub end_container : List Bytes → Bytes → Result Bytes
end_container keys [] = err value_not_terminated
end_container keys (e ∷ rest) = do
  refuse (has_adjacent_twins (sort_by (λ k. k) keys)) duplicate_key
  ok rest

abbrev pub key_error : Result (Bytes × Bytes) → Result (Bytes × Bytes)
key_error (ok r) = ok r
key_error (err e) = err bad_key

abbrev pub integer_end : Bytes → Result Bytes
integer_end s = elim (index_byte s b'e') [
  | none ↦ err integer_not_terminated
  | some n ↦ check_bencode_integer (take (n - 1) (drop 1 s)) >>= λ _. ok (drop (n + 1) s)
]

unfoldable mutual
  -- The first argument is fuel; then the value's position and its depth.
  pub scan_bencode : ℕ → Bytes → ℕ → Result Bytes
  scan_bencode zero s depth = err exhausted
  scan_bencode (suc f) [] depth = err data_ends
  scan_bencode (suc f) (kind ∷ s) depth = elim (kind == b'i') [
    | true ↦ integer_end (kind ∷ s)
    | false ↦ elim (kind == b'l' || kind == b'd') [
      | true ↦ elim (leb max_bencode_depth depth) [
        | true ↦ err nests_too_deep
        | false ↦ scan_items f (kind == b'd') s depth [] >>= λ r. end_container r.0 r.1
      ]
      | false ↦ elim (is_digit kind) [
        | true ↦ read_bencode_string (kind ∷ s) >>= λ r. ok r.1
        | false ↦ err starts_no_value
      ]
    ]
  ]

  -- The loop of `scanBencodeContainer`: the keys read, and the position of the final "e".
  pub scan_items : ℕ → Bool → Bytes → ℕ → List Bytes → Result (List Bytes × Bytes)
  scan_items zero is_dictionary s depth keys = err exhausted
  scan_items (suc f) is_dictionary [] depth keys = ok (keys, [])
  scan_items (suc f) is_dictionary (c ∷ s) depth keys = elim (c == b'e') [
    | true ↦ ok (keys, c ∷ s)
    | false ↦ elim is_dictionary [
      | true ↦ key_error (read_bencode_string (c ∷ s)) >>= λ r.
          scan_bencode f r.1 (depth + 1) >>= λ pos. scan_items f true pos depth (keys ++ r.0 ∷ [])
      | false ↦ scan_bencode f (c ∷ s) (depth + 1) >>= λ pos. scan_items f false pos depth keys
    ]
  ]

unfoldable pub append_bencode_string : Bytes → Bytes → Bytes
append_bencode_string encoded s = encoded ++ (itoa (length s) ++ (b':' ∷ s))

-- The entries of a dictionary: a key, and the position of its value.
abbrev pub Entry : Type 0
Entry = Bytes × Bytes

-- `scanBencode(data, value, 0)`, with fuel for the whole suffix.
unfoldable pub scan : Bytes → ℕ → Result Bytes
unfolding scan_bencode
scan s depth = scan_bencode (2 * length s + 1) s depth

-- A call whose error `appendBencode` does not look at. Behind an error the code would go on with a nil
-- key and position 0; the model stops, as `unchecked`, which is proved not to happen.
unfoldable pub trusted {ℓ} : {A : Type ℓ} → Result A → Result A
trusted (ok a) = ok a
trusted (err e) = err unchecked

-- The first loop of `appendBencode` over a dictionary; no error is looked at there.
unfoldable pub collect_entries : ℕ → Bytes → List Entry → Result (List Entry × Bytes)
unfolding scan trusted
collect_entries zero s entries = err exhausted
collect_entries (suc f) [] entries = err unchecked
collect_entries (suc f) (c ∷ s) entries = elim (c == b'e') [
  | true ↦ ok (entries, s)
  | false ↦ trusted (read_bencode_string (c ∷ s)) >>= λ r.
      trusted (scan r.1 0) >>= λ pos. collect_entries f pos (entries ++ (r.0, r.1) ∷ [])
]

-- The second loop, over the sorted entries; `append` is `appendBencode`.
unfoldable pub append_entries :
    (Bytes → Bytes → Result (Bytes × Bytes)) → Bytes → List Entry → Result Bytes
append_entries append encoded [] = ok encoded
append_entries append encoded ((key, value) ∷ entries) =
    append (append_bencode_string encoded key) value >>= λ r. append_entries append r.0 entries

unfoldable mutual
  -- The first argument is fuel; then what is encoded so far and the value's position. The result is
  -- what is encoded and where the value ends.
  pub append_bencode : ℕ → Bytes → Bytes → Result (Bytes × Bytes)
  append_bencode zero encoded s = err exhausted
  append_bencode (suc f) encoded [] = err unchecked
  append_bencode (suc f) encoded (kind ∷ s) = elim (kind == b'i') [
    | true ↦ elim (index_byte (kind ∷ s) b'e') [
      | none ↦ ok (encoded, kind ∷ s)
      | some n ↦ ok (encoded ++ take (n + 1) (kind ∷ s), drop (n + 1) (kind ∷ s))
    ]
    | false ↦ elim (kind == b'l') [
      | true ↦ append_list f (encoded ++ b'l' ∷ []) s
      | false ↦ elim (kind == b'd') [
        | true ↦ collect_entries (length s + 1) s [] >>= λ r.
            append_entries (append_bencode f) (encoded ++ b'd' ∷ []) (sort_by (λ e. e.0) r.0)
            >>= λ out. ok (out ++ b'e' ∷ [], r.1)
        | false ↦ trusted (read_bencode_string (kind ∷ s)) >>= λ r.
            ok (append_bencode_string encoded r.0, r.1)
      ]
    ]
  ]

  -- The loop over a list's values.
  pub append_list : ℕ → Bytes → Bytes → Result (Bytes × Bytes)
  append_list zero encoded s = err exhausted
  append_list (suc f) encoded [] = err unchecked
  append_list (suc f) encoded (c ∷ s) = elim (c == b'e') [
    | true ↦ ok (encoded ++ b'e' ∷ [], s)
    | false ↦ append_bencode f encoded (c ∷ s) >>= λ r. append_list f r.0 r.1
  ]

unfoldable pub canonical_torrent : Bytes → Result Bytes
unfolding scan append_bencode
canonical_torrent [] = err not_a_dictionary
canonical_torrent (c ∷ s) =
    if c == b'd'
    then (scan (c ∷ s) 0 >>= λ _.
        append_bencode (2 * length (c ∷ s) + 1) [] (c ∷ s) >>= λ r. ok r.0)
    else err not_a_dictionary
