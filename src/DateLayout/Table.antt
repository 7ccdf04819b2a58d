-- ===== src/DateLayout/Table.antt =====
-- The table of tokens has one for every length of every letter but "g".
use jacklet.Prelude.{
  ℕ, zero, suc, ◌≤◌, ◌<◌, min, ◌≡◌, refl, sym, ap, ◌∙◌, subst, inl, inr, Bool, true, false, ◌&&◌,
  ◌||◌, Option, none, some, [], ◌∷◌, arith, ltb, nat_eq, ltb→lt, nat_eq_iff, Bool-cases,
  Option-cases, ◌==◌, ℕ-Eq, beq_eq, contains, Bytes, codes, Bytes-Eq, contains-append, and_parts,
}
use jacklet.DateLayout.{
  DotNetToken, dot_net_specifiers, dot_net_tokens, longest_run, max_dot_net_run, repeat, find_token,
  token_for,
}
use jacklet.DateLayout.Pieces.{token_letters}

-- Every letter has a token for each length up to its longest.
abbrev is_some : Option DotNetToken → Bool
is_some none = false
is_some (some t) = true

abbrev all_upto : (ℕ → Bool) → ℕ → Bool
all_upto p zero = true
all_upto p (suc n) = p (suc n) && all_upto p n

unfoldable checked : ℕ → Bool
unfolding max_dot_net_run longest_run repeat find_token
checked c =
    contains dot_net_specifiers c
    && (ltb 0 (max_dot_net_run c)
        && all_upto (λ n. is_some (find_token (repeat c n) dot_net_tokens)) (max_dot_net_run c))

abbrev all_checked : Bytes → Bool
all_checked [] = true
all_checked (c ∷ cs) = checked c && all_checked cs

table_complete : all_checked token_letters ≡ true
unfolding checked
table_complete = refl

contains-checked :
    (cs : Bytes) (c : ℕ) → all_checked cs ≡ true → contains cs c ≡ true → checked c ≡ true
contains-checked [] c h m = absurd (ground (arith, m))
contains-checked (d ∷ cs) c h m = elim (Bool-cases (d == c)) [
  | inl e ↦ subst (λ x. checked x ≡ true) (beq_eq d c e) (ground (arith, h))
  | inr e ↦ contains-checked cs c (ground (arith, h)) (ground (arith, e, m))
]

at_upto : (p : ℕ → Bool) (m n : ℕ) → all_upto p m ≡ true → 1 ≤ n → n ≤ m → p n ≡ true
at_upto p zero n h lo hi = absurd (omega arith)
at_upto p (suc m) n h lo hi = elim (Bool-cases (nat_eq n (suc m))) [
  | inl e ↦ rw ((nat_eq_iff n (suc m)).0 e) (ground (arith, h))
  | inr e ↦ at_upto p m n (ground (arith, h)) lo (ground (arith, e))
]

letter-checked : (c : ℕ) → contains token_letters c ≡ true → checked c ≡ true
letter-checked c = contains-checked token_letters c table_complete

min_low : (n m : ℕ) → 1 ≤ n → 0 < m → 1 ≤ min n m
min_low n m lo room = omega arith

min_high : (n m : ℕ) → min n m ≤ m
min_high n m = omega arith

letter-found : (c n : ℕ) → checked c ≡ true → 1 ≤ n → is_some (token_for c n) ≡ true
unfolding checked token_for
letter-found c n h lo =
    let (_, long) = and_parts _ _ h in
    let (some_room, all) = and_parts _ _ long in
    let room : 0 < max_dot_net_run c = ltb→lt 0 _ some_room in
    at_upto (λ n. is_some (find_token (repeat c n) dot_net_tokens)) (max_dot_net_run c)
      (min n (max_dot_net_run c)) all (min_low n _ lo room) (min_high n _)

letter-specified : (c : ℕ) → checked c ≡ true → contains dot_net_specifiers c ≡ true
unfolding checked
letter-specified c h = ground (arith, h)

pub letter-specifier :
    (c : ℕ) → contains token_letters c ≡ true → contains dot_net_specifiers c ≡ true
letter-specifier c h = letter-specified c (letter-checked c h)

pub letter-token :
    (c n : ℕ)
    → contains token_letters c ≡ true
    → 1 ≤ n
    → (t : DotNetToken) × (token_for c n ≡ some t)
letter-token c n h lo = elim (Option-cases (token_for c n)) [
  | inl e ↦
      let none_found : is_some (token_for c n) ≡ false = ap is_some e in
      absurd (ground (arith, none_found, letter-found c n (letter-checked c h) lo))
  | inr e ↦ e
]

no_run : max_dot_net_run b'g' ≡ 0
unfolding max_dot_net_run longest_run
no_run = refl

no_empty : find_token [] dot_net_tokens ≡ none
unfolding find_token
no_empty = refl

min_zero : (n : ℕ) → min n 0 ≡ 0
min_zero n = omega arith

g_has_none : (n : ℕ) → token_for b'g' n ≡ none
unfolding token_for repeat
g_has_none n =
    let no_room : min n (max_dot_net_run b'g') ≡ 0 = ap (min n) no_run ∙ min_zero n in
    ap (λ k. find_token (repeat b'g' k) dot_net_tokens) no_room ∙ no_empty

-- A specifier without a token is "g".
other_letter :
    (c : ℕ) → contains dot_net_specifiers c ≡ true → contains token_letters c ≡ false → c ≡ b'g'
other_letter c h m =
    let one : (contains (codes "dfF") c || (b'g' == c || contains (codes "hHKmMstyz") c)) ≡ true =
      sym (contains-append (codes "dfF") (b'g' ∷ codes "hHKmMstyz") c) ∙ h in
    let none_of : (contains (codes "dfF") c || contains (codes "hHKmMstyz") c) ≡ false =
      sym (contains-append (codes "dfF") (codes "hHKmMstyz") c) ∙ m in
    middle (contains (codes "dfF") c) (contains (codes "hHKmMstyz") c) one none_of
  where
    middle : (a b : Bool) → (a || (b'g' == c || b)) ≡ true → (a || b) ≡ false → c ≡ b'g'
    middle a b one none_of = ground (arith, one, none_of)

pub other_run :
    (c n : ℕ)
    → contains dot_net_specifiers c ≡ true
    → contains token_letters c ≡ false
    → token_for c n ≡ none
other_run c n h m = ap (λ x. token_for x n) (other_letter c h m) ∙ g_has_none n
