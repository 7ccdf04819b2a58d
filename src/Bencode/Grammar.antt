-- ===== src/Bencode/Grammar.antt =====
-- The format that the reader is held to: what a bencoded value is, how a torrent file may write it, and
-- its canonical writing. It does not mention the reader.
use jacklet.Prelude.{
  ℕ, ◌+◌, ◌≤◌, ◌<◌, ◌≡◌, ◌≢◌, true, false, List, [], ◌∷◌, ◌++◌, ℕ-Eq, length, contains, Bytes,
  Bytes-Eq, ◌^◌,
}
use jacklet.Prelude.Decimal.{is_all_digits, value, itoa}
use jacklet.Prelude.Sorting.{sort_by}

mutual
  pub data Value : Type 0 where
    integer : Bytes → Value
    string : Bytes → Value
    list : Values → Value
    dictionary : Fields → Value

  pub data Values : Type 0 where
    nil : Values
    cons : Value → Values → Values

  pub data Fields : Type 0 where
    end : Fields
    field : Bytes → Value → Fields → Fields

abbrev pub keys : Fields → List Bytes
keys end = []
keys (field k v fs) = k ∷ keys fs

-- No byte string stands in the list twice.
abbrev pub Distinct : List Bytes → Type 0
Distinct [] = Unit
Distinct (k ∷ ks) = (contains ks k ≡ false) × Distinct ks

-- A length of at most ten digits, leading zeros allowed, a ":" and that many bytes.
pub record WritesString (b s rest : Bytes) : Type 0 where
  pub digits : Bytes
  pub nonempty : digits ≢ []
  pub all_digits : is_all_digits digits ≡ true
  pub short : length digits ≤ 10
  pub counts : value digits ≡ length b
  pub spelled : s ≡ digits ++ (b':' ∷ (b ++ rest))

-- A digit that is not zero, and more digits.
pub record WritesPositive (ds : Bytes) : Type 0 where
  pub first : ℕ
  pub others : Bytes
  pub not_zero : b'1' ≤ first
  pub at_most_nine : first ≤ b'9'
  pub all_digits : is_all_digits others ≡ true
  pub spelled : ds ≡ first ∷ others

-- The text between "i" and "e" is the only decimal writing of a 64-bit integer: zero as one digit, or
-- a number that starts with no zero, with a "-" before it or with nothing.
pub data IsInteger : Bytes → Type 0 where
  zero_ : IsInteger (b'0' ∷ [])
  positive_ : {ds : Bytes} → WritesPositive ds → value ds < 2 ^ 63 → IsInteger ds
  negative_ : {ds : Bytes} → WritesPositive ds → value ds ≤ 2 ^ 63 → IsInteger (b'-' ∷ ds)

mutual
  -- `Writes d v s rest`: `s` begins with a writing of `v`, d lists and dictionaries deep, and `rest`
  -- is what follows.
  pub data Writes : ℕ → Value → Bytes → Bytes → Type 0 where
    integer_ :
        {d : ℕ} {ds s rest : Bytes}
        → IsInteger ds
        → s ≡ b'i' ∷ (ds ++ (b'e' ∷ rest))
        → Writes d (integer ds) s rest
    string_ : {d : ℕ} {b s rest : Bytes} → WritesString b s rest → Writes d (string b) s rest
    list_ :
        {d : ℕ} {vs : Values} {s t rest : Bytes}
        → d < 64
        → s ≡ b'l' ∷ t
        → WritesValues (d + 1) vs t rest
        → Writes d (list vs) s rest
    dictionary_ :
        {d : ℕ} {fs : Fields} {s t rest : Bytes}
        → d < 64
        → s ≡ b'd' ∷ t
        → WritesFields (d + 1) fs t rest
        → Distinct (keys fs)
        → Writes d (dictionary fs) s rest

  -- The values of a list, up to and with the final "e".
  pub data WritesValues : ℕ → Values → Bytes → Bytes → Type 0 where
    nil_ : {d : ℕ} {s rest : Bytes} → s ≡ b'e' ∷ rest → WritesValues d nil s rest
    cons_ :
        {d : ℕ} {v : Value} {vs : Values} {s t rest : Bytes}
        → Writes d v s t
        → WritesValues d vs t rest
        → WritesValues d (cons v vs) s rest

  pub data WritesFields : ℕ → Fields → Bytes → Bytes → Type 0 where
    end_ : {d : ℕ} {s rest : Bytes} → s ≡ b'e' ∷ rest → WritesFields d end s rest
    field_ :
        {d : ℕ} {k : Bytes} {v : Value} {fs : Fields} {s t u rest : Bytes}
        → WritesString k s t
        → Writes d v t u
        → WritesFields d fs u rest
        → WritesFields d (field k v fs) s rest

abbrev pub encode_string : Bytes → Bytes
encode_string b = itoa (length b) ++ (b':' ∷ b)

abbrev pub concat_fields : List (Bytes × Bytes) → Bytes
concat_fields [] = []
concat_fields ((k, v) ∷ fs) = encode_string k ++ (v ++ concat_fields fs)

unfoldable mutual
  -- The canonical writing: lengths without leading zeros, dictionaries in the order of their keys.
  pub encode : Value → Bytes
  encode (integer ds) = b'i' ∷ (ds ++ (b'e' ∷ []))
  encode (string b) = encode_string b
  encode (list vs) = b'l' ∷ (encode_values vs ++ (b'e' ∷ []))
  encode (dictionary fs) =
      b'd' ∷ (concat_fields (sort_by (λ e. e.0) (encode_fields fs)) ++ (b'e' ∷ []))

  pub encode_values : Values → Bytes
  encode_values nil = []
  encode_values (cons v vs) = encode v ++ encode_values vs

  pub encode_fields : Fields → List (Bytes × Bytes)
  encode_fields end = []
  encode_fields (field k v fs) = (k, encode v) ∷ encode_fields fs
