-- ===== src/DateLayout/Convert.antt =====
-- The conversion of a format that starts with a piece, and what it makes of the sense of the rest.
use jacklet.Prelude.{
  ℕ, suc, ◌≡◌, refl, sym, ap, ◌∙◌, inl, inr, Bool, true, false, Option, none, some, [], ◌∷◌, ◌++◌,
  append_assoc, append-nil, arith, if◌then◌else◌, Bool-cases, ℕ-Eq, drop, contains, Bytes, Bytes-Eq,
}
use jacklet.DateLayout.{
  DotNetLayout, new_layout, Conversion, write_token, Reference, Reading, refused, accepted,
  write_literal, next_escaped, next_quoted, token_written, ended, literal_is_inert, flush_literal,
  next, convert, DotNetToken, repeat, token_for,
}
use jacklet.DateLayout.Pieces.{
  run, plain, is_quote, IsPiece, followed_by, only, closed, opened, after_token,
}
use jacklet.DateLayout.Steps.{
  next-quote, next-plain, next-run, drop-repeat, token_run-repeat, cut-quoted,
}

same_layout :
    {d e o p y z : ℕ} {s t : Bytes}
    → d ≡ e
    → s ≡ t
    → o ≡ p
    → y ≡ z
    → ◌≡◌ {A = DotNetLayout}
        (record { designators = d; layout = s; short_offsets = o; short_years = y })
        (record { designators = e; layout = t; short_offsets = p; short_years = z })
same_layout a b c d = cc

followed_by_assoc :
    (l m k : DotNetLayout) → followed_by (followed_by l m) k ≡ followed_by l (followed_by m k)
unfolding followed_by
followed_by_assoc l m k =
    same_layout (omega arith) (append_assoc l.layout m.layout k.layout) (omega arith) (omega arith)

write_token-followed_by :
    (t : DotNetToken) (l : DotNetLayout)
    → write_token t l ≡ followed_by l (write_token t new_layout)
unfolding write_token followed_by
write_token-followed_by t l = same_layout (ground arith) refl (ground arith) (ground arith)

followed_by_empty : (l : DotNetLayout) → followed_by l new_layout ≡ l
unfolding followed_by
followed_by_empty l = same_layout (omega arith) (append-nil l.layout) (omega arith) (omega arith)

abbrev pub written : Bytes → DotNetLayout → DotNetLayout
written text l = record l { layout = l.layout ++ text }

written-only : (text : Bytes) (l : DotNetLayout) → written text l ≡ followed_by l (only text)
unfolding followed_by
written-only text l = same_layout (omega arith) refl (omega arith) (omega arith)

token_then :
    (t : DotNetToken) (text : Bytes) (l m : DotNetLayout)
    → followed_by (written text (write_token t l)) m
      ≡ followed_by l (followed_by (write_token t new_layout) (followed_by (only text) m))
token_then t text l m =
    ap (λ x. followed_by x m) (written-only text (write_token t l))
    ∙ followed_by_assoc (write_token t l) (only text) m
    ∙ ap (λ x. followed_by x (followed_by (only text) m)) (write_token-followed_by t l)
    ∙ followed_by_assoc l (write_token t new_layout) (followed_by (only text) m)

module _ (format_at : Reference → Bytes → Bytes) where
  abbrev pub inert : Bytes → Bool
  inert text = literal_is_inert format_at text

  -- What becomes of a conversion when what follows has this sense.
  abbrev pub finish : Conversion → Option (Bytes × DotNetLayout) → Reading
  finish st none = refused
  finish st (some (text, l)) =
      if inert (st.literal ++ text)
      then accepted (followed_by (written (st.literal ++ text) st.converted) l)
      else refused

  pub finish-opened :
      (st : Conversion) (text : Bytes) (r : Option (Bytes × DotNetLayout))
      → finish (write_literal text st) r ≡ finish st (opened inert text r)
  finish-opened st text none = refl
  finish-opened st text (some (rest, l)) = rw (append_assoc st.literal text rest) refl

  pub finish_end :
      (st : Conversion) → ended (flush_literal format_at st) ≡ finish st (some ([], new_layout))
  unfolding flush_literal
  finish_end st =
      rw (append-nil st.literal, followed_by_empty (written st.literal st.converted))
        (ended_if (inert st.literal) (written st.literal st.converted))
    where
      ended_if :
          (b : Bool) (l : DotNetLayout)
          → ended (if b then some l else none) ≡ (if b then accepted l else refused)
      ended_if true l = refl
      ended_if false l = refl

  -- A token is written after the literal text before it.
  abbrev pub tokened : DotNetToken → Conversion → Conversion
  tokened t st = record {
    converted = write_token t (written st.literal st.converted);
    literal = [];
  }

  finish-token :
      (st : Conversion) (t : DotNetToken) (r : Option (Bytes × DotNetLayout))
      → inert st.literal ≡ true
      → finish (tokened t st) r ≡ finish st (after_token inert (some t) (closed inert r))
  unfolding after_token closed
  finish-token st t none h = refl
  finish-token st t (some (text, l)) h = elim (Bool-cases (inert text)) [
    | inl e ↦ rw e (
        rw (append-nil st.literal, h)
          (ap accepted (token_then t text (written st.literal st.converted) l)))
    | inr e ↦ rw e refl
  ]

  refuse-token :
      (st : Conversion) (t : DotNetToken) (r : Option (Bytes × DotNetLayout))
      → inert st.literal ≡ false
      → finish st (after_token inert (some t) (closed inert r)) ≡ refused
  unfolding after_token closed
  refuse-token st t none h = refl
  refuse-token st t (some (text, l)) h = elim (Bool-cases (inert text)) [
    | inl e ↦ rw e (rw (append-nil st.literal, h) refl)
    | inr e ↦ rw e refl
  ]

  abbrev pub resume : ℕ → Option (Bytes × Conversion) → Reading
  resume n none = refused
  resume n (some (s, st)) = convert format_at n s st

  resumed :
      (n : ℕ) (r : Option (Bytes × Conversion))
      → elim r [ none ↦ refused | some next ↦ convert format_at n next.0 next.1 ] ≡ resume n r
  resumed n none = refl
  resumed n (some r) = refl

  pub convert-next :
      (n c : ℕ) (s : Bytes) (st : Conversion)
      → convert format_at (suc n) (c ∷ s) st ≡ resume n (next format_at c s st)
  unfolding convert
  convert-next n c s st = resumed n (next format_at c s st)

  pub token-finish :
      (n : ℕ) (s : Bytes) (st : Conversion) (t : DotNetToken) (r : Option (Bytes × DotNetLayout))
      → ((st : Conversion) → convert format_at n s st ≡ finish st r)
      → resume n (token_written t s (flush_literal format_at st))
        ≡ finish st (after_token inert (some t) (closed inert r))
  unfolding flush_literal token_written
  token-finish n s st t r ih = elim (Bool-cases (inert st.literal)) [
    | inl e ↦ rw e (ih (tokened t st) ∙ finish-token st t r e)
    | inr e ↦ rw e (sym (refuse-token st t r e))
  ]

  pub convert-escape :
      (n b : ℕ) (s : Bytes) (st : Conversion)
      → convert format_at (suc n) (b'\\' ∷ b ∷ s) st
        ≡ convert format_at n s (write_literal (b ∷ []) st)
  unfolding convert next_escaped
  convert-escape n b s st = refl

  pub convert-quoted :
      (n q : ℕ) (text s : Bytes) (st : Conversion)
      → is_quote q ≡ true
      → contains text q ≡ false
      → convert format_at (suc n) (q ∷ (text ++ q ∷ s)) st
        ≡ convert format_at n s (write_literal text st)
  unfolding next_quoted
  convert-quoted n q text s st quote free =
      convert-next n q (text ++ q ∷ s) st
      ∙ ap (resume n) (
          next-quote format_at st q (text ++ q ∷ s) quote
          ∙ ap (λ r. next_quoted r st) (cut-quoted q text s free))

  pub convert-plain :
      (n b : ℕ) (s : Bytes) (st : Conversion)
      → IsPiece (plain b) s
      → convert format_at (suc n) (b ∷ s) st ≡ convert format_at n s (write_literal (b ∷ []) st)
  convert-plain n b s st (letter, slash, quote) =
      convert-next n b s st ∙ ap (resume n) (next-plain format_at st b s letter slash quote)

  pub convert-run :
      (n c k : ℕ) (s : Bytes) (st : Conversion) (t : DotNetToken)
      → IsPiece (run c (suc k)) s
      → token_for c (suc k) ≡ some t
      → convert format_at (suc n) (c ∷ (repeat c k ++ s)) st
        ≡ resume n (token_written t s (flush_literal format_at st))
  convert-run n c k s st t (letter, (lo, far)) e =
      let taken = token_run-repeat c k s far in
      convert-next n c (repeat c k ++ s) st
      ∙ ap (resume n) (
          next-run format_at st c (repeat c k ++ s) t letter (ap (token_for c) taken ∙ e)
          ∙ ap (λ u. token_written t u (flush_literal format_at st))
              (ap (λ m. drop m (c ∷ (repeat c k ++ s))) taken ∙ drop-repeat c k s))
