-- ===== src/DateLayout/Widening.antt =====
-- The variants of a value in which the parts that are too narrow for Go's tokens are widened.
-- A position of a value is an index; `seen` holds the variants of `widened`, and no others.
use jacklet.Prelude.{
  ℕ, zero, suc, ◌-◌, Bool, true, false, not, ◌&&◌, ◌||◌, Option, none, some, List, [], ◌∷◌, ◌++◌,
  ltb, leb, if◌then◌else◌, ◌==◌, ℕ-Eq, length, get_elem?, take, drop, contains, Bytes, Bytes-Eq,
}

abbrev pub max_widened_values : ℕ
max_widened_values = 32

abbrev pub is_ascii_letter : ℕ → Bool
is_ascii_letter c = (leb b'a' c && leb c b'z') || (leb b'A' c && leb c b'Z')

abbrev pub is_ascii_digit : ℕ → Bool
is_ascii_digit c = leb b'0' c && leb c b'9'

-- Whether there is a byte at a position and it passes a test.
abbrev pub byte_passes : (ℕ → Bool) → Option ℕ → Bool
byte_passes p none = false
byte_passes p (some b) = p b

abbrev pub is_at : (ℕ → Bool) → Bytes → ℕ → Bool
is_at p value i = byte_passes p (get_elem? value i)

-- `i > 0 && p(value[i-1])`
abbrev pub is_before : (ℕ → Bool) → Bytes → ℕ → Bool
is_before p value zero = false
is_before p value (suc i) = is_at p value i

abbrev pub is_designator : ℕ → Bool
is_designator c = (c == b'a' || c == b'A') || (c == b'p' || c == b'P')

unfoldable pub is_lone_designator : Bytes → ℕ → Bool
is_lone_designator value i =
    is_at is_designator value i
    && (not (is_before is_ascii_letter value i) && not (is_at is_ascii_letter value (suc i)))

unfoldable pub is_short_offset : Bytes → ℕ → Bool
is_short_offset value i =
    is_at (λ c. c == b'+' || c == b'-') value i
    && (is_at is_ascii_digit value (suc i) && not (is_at is_ascii_digit value (suc (suc i))))

unfoldable pub is_lone_digit : Bytes → ℕ → Bool
is_lone_digit value i =
    is_at is_ascii_digit value i
    && (not (is_before is_ascii_digit value i) && not (is_at is_ascii_digit value (suc i)))

unfoldable pub complete_designator : Bytes → ℕ → Bytes
complete_designator value i =
    let completed = if is_at (λ c. leb b'A' c && leb c b'Z') value i then b'M' else b'm' in
    take (suc i) value ++ completed ∷ drop (suc i) value

unfoldable pub pad_digit : Bytes → ℕ → Bytes
pad_digit value i = take i value ++ b'0' ∷ drop i value

unfoldable pub pad_offset_digit : Bytes → ℕ → Bytes
unfolding pad_digit
pad_offset_digit value i = pad_digit value (suc i)

-- The variants so far with one more, and whether there is room for another.
unfoldable pub add_value : List Bytes → Bytes → List Bytes × Bool
add_value widened value =
    let all = if contains widened value then widened else widened ++ value ∷ [] in
    (all, ltb (length all) max_widened_values)

module _ (matches : Bytes → ℕ → Bool) (rewrite : Bytes → ℕ → Bytes) where
  unfoldable pub try_at : List Bytes → Bytes → ℕ → List Bytes × Bool
  unfolding add_value
  try_at widened value i =
      if matches value i then add_value widened (rewrite value i) else (widened, true)

  -- The loop over the last `n` positions of a value: the variants, and whether it went to its end.
  unfoldable pub widen_positions : ℕ → List Bytes → Bytes → List Bytes × Bool
  unfolding try_at
  widen_positions zero widened value = (widened, true)
  widen_positions (suc n) widened value =
      let step = try_at widened value (length value - suc n) in
      let rest = widen_positions n step.0 value in if step.1 then rest else step

  unfoldable pub widen_value : Bool → List Bytes → Bytes → List Bytes × Bool
  unfolding widen_positions add_value
  widen_value false widened value = widen_positions (length value) widened value
  widen_value true widened value =
      let kept = add_value widened value in
      let rest = widen_positions (length value) kept.0 value in if kept.1 then rest else kept

  unfoldable pub widen_all : Bool → List Bytes → List Bytes → List Bytes
  unfolding widen_value
  widen_all keep widened [] = widened
  widen_all keep widened (value ∷ values) =
      let step = widen_value keep widened value in
      let rest = widen_all keep step.0 values in if step.1 then rest else step.0

  unfoldable pub widen_at : Bool → List Bytes → List Bytes
  unfolding widen_all
  widen_at keep values = widen_all keep [] values

  -- As many passes as a token occurs.
  unfoldable pub passes : ℕ → Bool → List Bytes → List Bytes
  unfolding widen_at
  passes zero keep values = values
  passes (suc n) keep values = passes n keep (widen_at keep values)
