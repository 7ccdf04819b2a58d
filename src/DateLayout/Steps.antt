-- ===== src/DateLayout/Steps.antt =====
-- What the loop does with each kind of piece, and what it leaves of the format.
use jacklet.Prelude.{
  ℕ, zero, suc, ◌≡◌, refl, sym, ap, ◌∙◌, subst, inl, inr, Bool, true, false, ◌||◌, none, some, [],
  ◌∷◌, ◌++◌, arith, if◌then◌else◌, Bool-cases, ◌==◌, ℕ-Eq, beq_refl, ne_beq, drop, contains, Bytes,
  Bytes-Eq,
}
use jacklet.Prelude.Ascii.{cut}
use jacklet.DateLayout.{
  Conversion, Reference, write_literal, next_quoted, token_written, flush_literal, next_token, next,
  DotNetToken, dot_net_specifiers, leading, repeat, token_run, token_for, match_dot_net_token,
}
use jacklet.DateLayout.Pieces.{is_quote, starts_with, token_letters}
use jacklet.DateLayout.Table.{letter-specifier, other_run}

not_this :
    (c d : ℕ)
    → contains token_letters c ≡ true
    → contains token_letters d ≡ false
    → (c == d) ≡ false
not_this c d h n = ne_beq c d (λ e. absurd (true_false (sym h ∙ ap (contains token_letters) e ∙ n)))
  where
    true_false : true ≡ false → ⊥
    true_false e = cc

pub letter_plain :
    (c : ℕ) → contains token_letters c ≡ true → ((c == b'\\') ≡ false) × (is_quote c ≡ false)
letter_plain c h =
    (not_this c b'\\' h refl, is_not_quote c (not_this c b'\'' h refl) (not_this c b'"' h refl))
  where
    is_not_quote : (c : ℕ) → (c == b'\'') ≡ false → (c == b'"') ≡ false → is_quote c ≡ false
    is_not_quote c e f = rw (e, f) refl

-- What one turn of the loop does with each kind of piece.
module _ (format_at : Reference → Bytes → Bytes) (st : Conversion) where
  pub next-quote :
      (q : ℕ) (s : Bytes) → is_quote q ≡ true → next format_at q s st ≡ next_quoted (cut q s) st
  unfolding next
  next-quote q s h = ground (arith, h)

  pub next-plain :
      (c : ℕ) (s : Bytes)
      → contains token_letters c ≡ false
      → (c == b'\\') ≡ false
      → is_quote c ≡ false
      → next format_at c s st ≡ some (s, write_literal (c ∷ []) st)
  unfolding next next_token match_dot_net_token
  next-plain c s h e q = rw (e, q, no_match c s h) refl
    where
      no_match :
          (c : ℕ) (s : Bytes) → contains token_letters c ≡ false → match_dot_net_token c s ≡ none
      no_match c s h = elim (Bool-cases (contains dot_net_specifiers c)) [
        | inl e ↦ rw (e, other_run c (token_run c s) e h) refl
        | inr e ↦ rw e refl
      ]

  pub next-run :
      (c : ℕ) (s : Bytes) (t : DotNetToken)
      → contains token_letters c ≡ true
      → token_for c (token_run c s) ≡ some t
      → next format_at c s st
        ≡ token_written t (drop (token_run c s) (c ∷ s)) (flush_literal format_at st)
  unfolding next next_token match_dot_net_token
  next-run c s t h e =
      let (slash, quote) = letter_plain c h in rw (slash, quote, letter-specifier c h, e) refl

-- What is left of a format after its first piece.
leading-repeat : (c n : ℕ) (s : Bytes) → starts_with c s ≡ false → leading c (repeat c n ++ s) ≡ n
unfolding leading repeat
leading-repeat c zero [] h = refl
leading-repeat c zero (b ∷ s) h = rw h refl
leading-repeat c (suc n) s h = rw (beq_refl c) (ap suc (leading-repeat c n s h))

pub drop-repeat : (c n : ℕ) (s : Bytes) → drop n (repeat c n ++ s) ≡ s
unfolding repeat
drop-repeat c zero s = refl
drop-repeat c (suc n) s = drop-repeat c n s

pub token_run-repeat :
    (c n : ℕ) (s : Bytes)
    → (if c == b'K' then suc n ≡ 1 else starts_with c s ≡ false)
    → token_run c (repeat c n ++ s) ≡ suc n
unfolding token_run
token_run-repeat c n s h = elim (Bool-cases (c == b'K')) [
  | inl e ↦ rw e (sym (subst (λ b. if b then suc n ≡ 1 else starts_with c s ≡ false) e h))
  | inr e ↦ rw e (
      ap suc
        (leading-repeat c n s (subst (λ b. if b then suc n ≡ 1 else starts_with c s ≡ false) e h)))
]

pub cut-quoted :
    (q : ℕ) (text s : Bytes) → contains text q ≡ false → cut q (text ++ q ∷ s) ≡ some (text, s)
unfolding cut
cut-quoted q [] s h = rw (beq_refl q) refl
cut-quoted q (b ∷ text) s h =
    let (here, later) = or_parts (b == q) (contains text q) h in
    rw (here, cut-quoted q text s later) refl
  where
    or_parts : (a b : Bool) → (a || b) ≡ false → (a ≡ false) × (b ≡ false)
    or_parts false b h = (refl, h)
    or_parts true b h = absurd (ground (arith, h))
