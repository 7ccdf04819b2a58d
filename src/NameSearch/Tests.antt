-- ===== src/NameSearch/Tests.antt =====
-- A LIKE that follows SQLite's documentation, and searches by it.
use jacklet.Prelude.{
  ℕ, Bool, true, false, ◌&&◌, [], ◌∷◌, if◌then◌else◌, ◌==◌, ℕ-Eq, Bytes, Bytes-Eq, ◌≡◌, refl, ◌↔◌,
  List, arith, length, All, codes,
}
use jacklet.Prelude.Ascii.{lower, to_lower}
use jacklet.Prelude.Within.{Within}
use jacklet.NameSearch.Match.{count, name_match_iff}
use jacklet.NameSearch.{
  any_suffix, fold_case, escaped, like_pattern, name_match_clause, is_meta, Like,
}

-- The head of a text against a character or an escaped one.
unfoldable first_is : ℕ → Bytes → (Bytes → Bool) → Bool
first_is b [] rest = false
first_is b (c ∷ t) rest = c == b && rest t

unfoldable first_folds : ℕ → Bytes → (Bytes → Bool) → Bool
first_folds b [] rest = false
first_folds b (c ∷ t) rest = lower c == lower b && rest t

unfoldable first_any : Bytes → (Bytes → Bool) → Bool
first_any [] rest = false
first_any (c ∷ t) rest = rest t

unfoldable one_of : ℕ → Bytes → (Bytes → Bool) → Bool
unfolding any_suffix first_folds first_any
one_of b t rest =
    if b == b'%'
    then any_suffix rest t
    else if b == b'_'
    then first_any t rest
    else first_folds b t rest

-- A pattern, and whether its first character comes after the escape character.
unfoldable like_from : Bool → Bytes → Bytes → Bool
unfolding first_is one_of
like_from false [] t = t == []
like_from true [] t = false
like_from true (b ∷ p) t = first_is b t (like_from false p)
like_from false (b ∷ p) t =
    let escaping = like_from true p t in
    let plain = one_of b t (like_from false p) in if b == b'\\' then escaping else plain

unfoldable like : Bytes → Bytes → Bool
unfolding like_from
like p t = like_from false p t

plain_char :
    (b : ℕ) (t : Bytes) (rest : Bytes → Bool)
    → is_meta b ≡ false
    → one_of b t rest ≡ first_folds b t rest
unfolding one_of
plain_char b t rest h = ground (arith, h)

plain_head : (b : ℕ) (p t : Bytes) → is_meta b ≡ false → like (b ∷ p) t ≡ first_folds b t (like p)
unfolding like like_from
plain_head b p t h = ground (arith, h, plain_char b t (like_from false p) h)

like-Like : Like like
unfolding like like_from one_of first_is
like-Like = record {
  like_end = λ t. refl;
  like_any = λ p t. refl;
  like_escape = λ b c p t h. refl;
  like_escape_end = λ b p. refl;
  like_plain = λ b c p t h. plain_head b p (c ∷ t) h;
  like_plain_end = λ b p h. plain_head b p [] h;
}

abbrev terms : List Bytes
terms = codes "50%" ∷ codes "Rock" ∷ []

clause_arguments : (name_match_clause (codes "50%" ∷ [])).1 ≡ codes "%50\\%%" ∷ []
unfolding name_match_clause like_pattern escaped to_lower
clause_arguments = refl

name_match_iff_example :
    (All (λ p. like p (fold_case (codes "ROCK 50% live")) ≡ true) (name_match_clause terms).1
      ↔ All (λ term. Within (fold_case term) (fold_case (codes "ROCK 50% live"))) terms)
    × (count b'?' (name_match_clause terms).0 ≡ length (name_match_clause terms).1)
name_match_iff_example = name_match_iff like terms (codes "ROCK 50% live") like-Like
