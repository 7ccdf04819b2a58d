-- ===== src/DateLayout/Tokens.antt =====
-- The tokens of a .NET date format, and the one that a format starts with.
use Prim.Native.String.{String}
use jacklet.Prelude.{
  ℕ, zero, suc, min, max, Option, none, some, List, [], ◌∷◌, if◌then◌else◌, ◌==◌, ℕ-Eq, length,
  contains, Bytes, codes, Bytes-Eq,
}

pub record DotNetToken : Type 0 where
  pub dot_net : Bytes
  pub golang : Bytes

abbrev pub token : String → String → DotNetToken
token dot_net golang = record { dot_net = codes dot_net; golang = codes golang }

abbrev pub dot_net_specifiers : Bytes
dot_net_specifiers = codes "dfFghHKmMstyz"

abbrev pub dot_net_tokens : List DotNetToken
dot_net_tokens =
    token "fffffff" "0000000"
    ∷ token "ffffff" "000000"
    ∷ token "fffff" "00000"
    ∷ token "ffff" "0000"
    ∷ token "fff" "000"
    ∷ token "ff" "00"
    ∷ token "f" "0"
    ∷ token "FFFFFFF" "9999999"
    ∷ token "FFFFFF" "999999"
    ∷ token "FFFFF" "99999"
    ∷ token "FFFF" "9999"
    ∷ token "FFF" "999"
    ∷ token "FF" "99"
    ∷ token "F" "9"
    ∷ token "yyyy" "2006"
    ∷ token "yyy" "2006"
    ∷ token "yy" "06"
    ∷ token "y" "06"
    ∷ token "MMMM" "January"
    ∷ token "MMM" "Jan"
    ∷ token "MM" "01"
    ∷ token "M" "1"
    ∷ token "dddd" "Monday"
    ∷ token "ddd" "Mon"
    ∷ token "dd" "02"
    ∷ token "d" "2"
    ∷ token "HH" "15"
    ∷ token "H" "15"
    ∷ token "hh" "03"
    ∷ token "h" "3"
    ∷ token "mm" "04"
    ∷ token "m" "4"
    ∷ token "ss" "05"
    ∷ token "s" "5"
    ∷ token "tt" "PM"
    ∷ token "t" "PM"
    ∷ token "zzz" "-07:00"
    ∷ token "zz" "-07"
    ∷ token "z" "-07"
    ∷ token "K" "Z07:00"
    ∷ []

-- The length of a token of one letter, if it is that letter's.
abbrev pub run_length : ℕ → Bytes → ℕ
run_length c [] = 0
run_length c (b ∷ s) = if b == c then length (b ∷ s) else 0

unfoldable pub longest_run : ℕ → List DotNetToken → ℕ
longest_run c [] = 0
longest_run c (t ∷ ts) = max (run_length c t.dot_net) (longest_run c ts)

unfoldable pub max_dot_net_run : ℕ → ℕ
unfolding longest_run
max_dot_net_run c = longest_run c dot_net_tokens

-- How often a letter stands at the start of a text.
unfoldable pub leading : ℕ → Bytes → ℕ
leading c [] = 0
leading c (b ∷ s) = let rest = leading c s in if b == c then suc rest else 0

unfoldable pub repeat : ℕ → ℕ → Bytes
repeat c zero = []
repeat c (suc n) = c ∷ repeat c n

unfoldable pub find_token : Bytes → List DotNetToken → Option DotNetToken
find_token key [] = none
find_token key (t ∷ ts) = let rest = find_token key ts in if t.dot_net == key then some t else rest

unfoldable pub token_run : ℕ → Bytes → ℕ
unfolding leading
token_run c s = if c == b'K' then 1 else suc (leading c s)

unfoldable pub token_for : ℕ → ℕ → Option DotNetToken
unfolding repeat max_dot_net_run find_token
token_for c run = find_token (repeat c (min run (max_dot_net_run c))) dot_net_tokens

-- The token that the format `c ∷ s` starts with, and how many characters it takes.
unfoldable pub match_dot_net_token : ℕ → Bytes → Option (DotNetToken × ℕ)
unfolding token_run token_for
match_dot_net_token c s =
    if contains dot_net_specifiers c
    then elim (token_for c (token_run c s)) [ none ↦ none | some t ↦ some (t, token_run c s) ]
    else none
