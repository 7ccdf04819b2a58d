-- ===== src/Query/AirDate.antt =====
-- Go's time.Parse with the layout "2006 01/02", and the date as "2006.01.02".
use jacklet.Prelude.{
  ℕ, ◌%◌, ◌≡◌, refl, Bool, not, ◌&&◌, ◌||◌, Option, none, some, [], ◌∷◌, ◌++◌, leb, if◌then◌else◌,
  ◌==◌, ℕ-Eq, Bytes, codes, Bytes-Eq,
}
use jacklet.Prelude.Decimal.{is_all_digits, value}

abbrev is_leap : ℕ → Bool
is_leap y = y % 4 == 0 && (not (y % 100 == 0) || y % 400 == 0)

abbrev days_in : ℕ → ℕ → ℕ
days_in m y =
    if m == 2
    then if is_leap y then 29 else 28
    else if m == 4 || m == 6 || m == 9 || m == 11
    then 30
    else 31

-- The layout's space stands for any number of spaces.
abbrev cut_space : Bytes → Bytes
cut_space [] = []
cut_space (b ∷ s) = let rest = cut_space s in if b == b' ' then rest else b ∷ s

abbrev valid_date : ℕ → ℕ → ℕ → Bool
valid_date y m d = leb 1 m && leb m 12 && leb 1 d && leb d (days_in m y)

abbrev month_day : Bytes → Bytes → Option Bytes
month_day y (m ∷ n ∷ slash ∷ d ∷ e ∷ []) =
    if is_all_digits (m ∷ n ∷ d ∷ e ∷ [])
      && slash == b'/'
      && valid_date (value y) (value (m ∷ n ∷ [])) (value (d ∷ e ∷ []))
    then some (y ++ b'.' ∷ m ∷ n ∷ b'.' ∷ d ∷ e ∷ [])
    else none
month_day y _ = none

unfoldable pub air_date : Bytes → Option Bytes
air_date (a ∷ b ∷ c ∷ d ∷ sp ∷ rest) =
    if is_all_digits (a ∷ b ∷ c ∷ d ∷ []) && sp == b' '
    then month_day (a ∷ b ∷ c ∷ d ∷ []) (cut_space rest)
    else none
air_date _ = none

aired : air_date (codes "2024 03/15") ≡ some (codes "2024.03.15")
unfolding air_date
aired = refl

no_such_day : air_date (codes "2023 02/29") ≡ none
unfolding air_date
no_such_day = refl
