-- ===== src/NameSearch.antt =====
-- pkg/database/search.go: the patterns that a torrent's name is compared with by SQLite's LIKE, and
-- the condition of a search for several terms. Text is ASCII.
mod Match
mod Tests
use jacklet.Prelude.{
  ℕ, zero, suc, ◌+◌, ◌-◌, ◌*◌, ◌/◌, ◌%◌, ◌^◌, ◌≤◌, ◌<◌, min, max, ◌≡◌, refl, sym, ap, ap₂, ◌∙◌,
  subst, fun_ext, ◌≡⟨◌⟩◌, ◌∎, ◌≢◌, ◌↔◌, ◌⊎◌, inl, inr, Bool, true, false, not, ◌&&◌, ◌||◌, Option,
  none, some, List, [], ◌∷◌, ◌++◌, map, append_assoc, append-nil, arith, ltb, leb, nat_eq,
  if◌then◌else◌, ltb→lt, lt→ltb, leb→le, le→leb, nat_eq_iff, tests, Bool-cases, Option-cases, Eq,
  ◌==◌, ℕ-Eq, beq_refl, beq_eq, beq_ne, ne_beq, length, get_elem?, take, drop, All, Any, select,
  length-append, take_append, drop_append, take-append-drop, length-take, length-drop, All-append,
  All-map, contains, Bytes, codes, bytes_eq, bytes_eq_iff, Bytes-Eq,
}
use jacklet.Prelude.Ascii.{
  is_space, trim_left, before, trim_right, trim_space, lower, to_lower, equal_fold, has_prefix, cut,
  trim_left-space,
}

abbrev pub fold_case : Bytes → Bytes
fold_case s = to_lower s

-- The LIKE metacharacters, each with a backslash before it.
unfoldable pub escaped : Bytes → Bytes
escaped [] = []
escaped (b ∷ s) =
    let rest = escaped s in
    if b == b'\\' || (b == b'%' || b == b'_') then b'\\' ∷ b ∷ rest else b ∷ rest

unfoldable pub like_pattern : Bytes → Bytes
unfolding escaped to_lower
like_pattern term = b'%' ∷ (escaped (fold_case term) ++ b'%' ∷ [])

abbrev pub one_clause : Bytes
one_clause = codes " AND unicode_lower(name) LIKE ? ESCAPE '\\'"

-- The fragment of the condition, and the arguments of its placeholders.
unfoldable pub name_match_clause : List Bytes → Bytes × List Bytes
unfolding like_pattern
name_match_clause [] = ([], [])
name_match_clause (term ∷ terms) =
    let rest = name_match_clause terms in (one_clause ++ rest.0, like_pattern term ∷ rest.1)

-- What a test says of any of a text's suffixes, the text itself and the empty one included.
unfoldable pub any_suffix : (Bytes → Bool) → Bytes → Bool
any_suffix p [] = p []
any_suffix p (b ∷ s) = let rest = any_suffix p s in p (b ∷ s) || rest

abbrev pub is_meta : ℕ → Bool
is_meta b = b == b'\\' || (b == b'%' || b == b'_')

-- SQLite's documentation of `text LIKE pattern ESCAPE '\'`: a "%" matches any text, a metacharacter
-- after the escape character matches itself, and any other character matches itself, whatever its case.
pub record Like (like : Bytes → Bytes → Bool) : Type 0 where
  pub like_end : (text : Bytes) → like [] text ≡ (text == [])
  pub like_any :
      (pattern text : Bytes) → like (b'%' ∷ pattern) text ≡ any_suffix (like pattern) text
  pub like_escape :
      (b c : ℕ) (pattern text : Bytes)
      → is_meta b ≡ true
      → like (b'\\' ∷ b ∷ pattern) (c ∷ text) ≡ (c == b && like pattern text)
  pub like_escape_end : (b : ℕ) (pattern : Bytes) → like (b'\\' ∷ b ∷ pattern) [] ≡ false
  pub like_plain :
      (b c : ℕ) (pattern text : Bytes)
      → is_meta b ≡ false
      → like (b ∷ pattern) (c ∷ text) ≡ (lower c == lower b && like pattern text)
  pub like_plain_end : (b : ℕ) (pattern : Bytes) → is_meta b ≡ false → like (b ∷ pattern) [] ≡ false
