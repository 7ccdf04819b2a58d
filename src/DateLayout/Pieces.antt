-- ===== src/DateLayout/Pieces.antt =====
-- A .NET date format as the pieces that it is written with, and the layout that they mean.
use jacklet.Prelude.{
  ℕ, ◌+◌, ◌≤◌, ◌≡◌, Bool, true, false, ◌||◌, Option, none, some, List, [], ◌∷◌, ◌++◌, if◌then◌else◌,
  ◌==◌, ℕ-Eq, contains, Bytes, Bytes-Eq, codes,
}
use jacklet.DateLayout.{DotNetLayout, new_layout, write_token, DotNetToken, repeat, token_for}

pub data Piece : Type 0 where
  run : ℕ → ℕ → Piece
  escape : ℕ → Piece
  quoted : ℕ → Bytes → Piece
  plain : ℕ → Piece

abbrev pub quoted_text : ℕ → Bytes → Bytes
quoted_text q text = q ∷ (text ++ q ∷ [])

unfoldable pub piece_text : Piece → Bytes
unfolding repeat
piece_text (run c n) = repeat c n
piece_text (escape b) = b'\\' ∷ b ∷ []
piece_text (quoted q text) = quoted_text q text
piece_text (plain b) = b ∷ []

unfoldable pub spelled : List Piece → Bytes
unfolding piece_text
spelled [] = []
spelled (p ∷ ps) = piece_text p ++ spelled ps

abbrev pub is_quote : ℕ → Bool
is_quote b = b == b'\'' || b == b'"'

abbrev pub starts_with : ℕ → Bytes → Bool
starts_with c [] = false
starts_with c (b ∷ s) = b == c

-- The letters that have tokens: "g" is a specifier of .NET's and has none.
abbrev pub token_letters : Bytes
token_letters = codes "dfFhHKmMstyz"

-- A token is a letter repeated, "K" apart, and goes as far as the letter does.
abbrev pub IsPiece : Piece → Bytes → Type 0
IsPiece (run c n) after =
    (contains token_letters c ≡ true)
    × ((1 ≤ n) × (if c == b'K' then n ≡ 1 else starts_with c after ≡ false))
IsPiece (escape b) after = Unit
IsPiece (quoted q text) after = (is_quote q ≡ true) × (contains text q ≡ false)
IsPiece (plain b) after =
    (contains token_letters b ≡ false) × ((b == b'\\') ≡ false) × (is_quote b ≡ false)

unfoldable pub IsFormat : List Piece → Type 0
unfolding spelled
IsFormat [] = Unit
IsFormat (p ∷ ps) = IsPiece p (spelled ps) × IsFormat ps

unfoldable pub followed_by : DotNetLayout → DotNetLayout → DotNetLayout
followed_by l m = record {
  designators = l.designators + m.designators;
  layout = l.layout ++ m.layout;
  short_offsets = l.short_offsets + m.short_offsets;
  short_years = l.short_years + m.short_years;
}

abbrev pub only : Bytes → DotNetLayout
only text = record new_layout { layout = text }

module _ (is_inert : Bytes → Bool) where
  -- Literal text counts as a whole, up to the next token.
  unfoldable pub closed : Option (Bytes × DotNetLayout) → Option DotNetLayout
  unfolding followed_by
  closed none = none
  closed (some (text, l)) = if is_inert text then some (followed_by (only text) l) else none

  abbrev pub opened : Bytes → Option (Bytes × DotNetLayout) → Option (Bytes × DotNetLayout)
  opened text none = none
  opened text (some (rest, l)) = some (text ++ rest, l)

  unfoldable pub after_token :
      Option DotNetToken → Option DotNetLayout → Option (Bytes × DotNetLayout)
  unfolding write_token followed_by
  after_token none l = none
  after_token (some t) none = none
  after_token (some t) (some l) = some ([], followed_by (write_token t new_layout) l)

  -- The literal text that the pieces start with, and the layout of what comes after it.
  unfoldable pub sense : List Piece → Option (Bytes × DotNetLayout)
  unfolding token_for closed after_token
  sense [] = some ([], new_layout)
  sense (run c n ∷ ps) = after_token (token_for c n) (closed (sense ps))
  sense (escape b ∷ ps) = opened (b ∷ []) (sense ps)
  sense (quoted q text ∷ ps) = opened text (sense ps)
  sense (plain b ∷ ps) = opened (b ∷ []) (sense ps)

  unfoldable pub meaning : List Piece → Option DotNetLayout
  unfolding sense closed
  meaning ps = closed (sense ps)
