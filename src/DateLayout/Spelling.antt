-- ===== src/DateLayout/Spelling.antt =====
-- Which formats are accepted, and as what.
use jacklet.Prelude.{
  ℕ, suc, ◌<◌, ◌≡◌, refl, sym, ap, ◌∙◌, subst, ◌⊎◌, inl, inr, true, none, some, List, [], ◌∷◌, ◌++◌,
  append_assoc, arith, Bool-cases, ◌==◌, ℕ-Eq, beq_eq, length, drop, length-append, contains, Bytes,
  Bytes-Eq, zero, ◌≢◌, ◌↔◌, Option, length-drop,
}
use jacklet.DateLayout.{
  new_layout, Conversion, Reference, refused, write_literal, next_quoted, convert, repeat,
  DotNetLayout, exhausted, accepted, next_escaped, token_written, ended, literal_is_inert,
  flush_literal, go_layout_from_dot_net,
}
use jacklet.DateLayout.Runs.{first_run, cut-cases}
use jacklet.DateLayout.Pieces.{
  Piece, quoted, piece_text, spelled, is_quote, IsPiece, IsFormat, run, escape, plain,
  token_letters, closed, sense, meaning,
}
use jacklet.DateLayout.Steps.{next-quote}
use jacklet.DateLayout.Table.{letter-token}
use jacklet.DateLayout.Formats.{convert-sense}
use jacklet.DateLayout.Convert.{
  resume, convert-next, convert-quoted, inert, finish, tokened, convert-escape, convert-plain,
  convert-run,
}

module _ (format_at : Reference → Bytes → Bytes) where
  -- A format that is refused, or the pieces of one.
  abbrev Spelled : ℕ → Bytes → Conversion → Type 0
  Spelled n s st =
      (convert format_at n s st ≡ refused) ⊎ ((ps : List Piece) × IsFormat ps × (spelled ps ≡ s))

  -- A turn of the loop takes a piece, and the rest is read.
  one_more :
      (n m : ℕ) (s rest : Bytes) (st st' : Conversion) (p : Piece)
      → convert format_at n s st ≡ convert format_at m rest st'
      → IsPiece p rest
      → piece_text p ++ rest ≡ s
      → Spelled m rest st'
      → Spelled n s st
  unfolding spelled IsFormat
  one_more n m s rest st st' p turn is_piece text (inl e) = inl (turn ∙ e)
  one_more n m s rest st st' p turn is_piece text (inr (ps, f, e)) =
      inr (p ∷ ps, (subst (IsPiece p) (sym e) is_piece, f), ap (λ r. piece_text p ++ r) e ∙ text)

  abbrev initial : Conversion
  initial = record { converted = new_layout; literal = [] }

  read_quoted :
      (n q : ℕ) (s : Bytes) (st : Conversion)
      → is_quote q ≡ true
      → length s < n
      → ((rest : Bytes) (st : Conversion) → length rest < n → Spelled n rest st)
      → Spelled (suc n) (q ∷ s) st
  unfolding piece_text next_quoted
  read_quoted n q s st quote short ih = elim (cut-cases q s) [
    | inl none_ ↦ inl (
        convert-next format_at n q s st
        ∙ ap (resume format_at n)
            (next-quote format_at st q s quote ∙ ap (λ r. next_quoted r st) none_))
    | inr (text, rest, cut_at, free, same) ↦
        one_more (suc n) n (q ∷ s) rest st (write_literal text st) (quoted q text)
          (ap (λ u. convert format_at (suc n) (q ∷ u) st) (sym same)
            ∙ convert-quoted format_at n q text rest st quote free)
          (quote, free) (ap (λ u. q ∷ u) (append_assoc text (q ∷ []) rest ∙ same))
          (ih rest (write_literal text st) (shorter_rest text q rest s n same short))
  ]
    where
      shorter_rest :
          (text : Bytes) (q : ℕ) (rest s : Bytes) (n : ℕ)
          → text ++ q ∷ rest ≡ s
          → length s < n
          → length rest < n
      shorter_rest text q rest s n same short =
          omega (arith, length-append text (q ∷ rest), ap length same)

  read_run :
      (n c : ℕ) (s : Bytes) (st : Conversion)
      → contains token_letters c ≡ true
      → length s < n
      → ((rest : Bytes) (st : Conversion) → length rest < n → Spelled n rest st)
      → Spelled (suc n) (c ∷ s) st
  unfolding piece_text repeat flush_literal token_written
  read_run n c s st letter short ih =
      let (m, taken, same, far) = first_run c s in
      let (t, found) = letter-token c (suc m) letter (omega arith) in
      let turn : convert format_at (suc n) (c ∷ s) st
          ≡ resume format_at n (token_written t (drop m s) (flush_literal format_at st)) =
        ap (λ u. convert format_at (suc n) (c ∷ u) st) (sym same)
        ∙ convert-run format_at n c m (drop m s) st t (letter, (omega arith, far)) found in
      let rest_short : length (drop m s) < n = omega (arith, length-drop m s) in
      elim (Bool-cases (inert format_at st.literal)) [
        | inl e ↦
            one_more (suc n) n (c ∷ s) (drop m s) st (tokened format_at t st) (run c (suc m))
              (turn ∙ rw e refl) (letter, (omega arith, far)) (ap (λ u. c ∷ u) same)
              (ih (drop m s) (tokened format_at t st) rest_short)
        | inr e ↦ inl (turn ∙ rw e refl)
      ]

  read_plain :
      (n c : ℕ) (s : Bytes) (st : Conversion)
      → IsPiece (plain c) s
      → Spelled n s (write_literal (c ∷ []) st)
      → Spelled (suc n) (c ∷ s) st
  unfolding piece_text
  read_plain n c s st p =
      one_more (suc n) n (c ∷ s) s st (write_literal (c ∷ []) st) (plain c)
        (convert-plain format_at n c s st p) p refl

  read_escape :
      (n : ℕ) (s : Bytes) (st : Conversion)
      → length s < n
      → ((rest : Bytes) (st : Conversion) → length rest < n → Spelled n rest st)
      → Spelled (suc n) (b'\\' ∷ s) st
  unfolding piece_text convert next_escaped
  read_escape n [] st short ih = inl refl
  read_escape n (b ∷ s) st short ih =
      one_more (suc n) n (b'\\' ∷ b ∷ s) s st (write_literal (b ∷ []) st) (escape b)
        (convert-escape format_at n b s st) tt refl (ih s (write_literal (b ∷ []) st) (omega arith))

  read_pieces : (n : ℕ) (s : Bytes) (st : Conversion) → length s < n → Spelled n s st
  unfolding spelled IsFormat
  read_pieces zero s st short = absurd (omega arith)
  read_pieces (suc n) [] st short = inr ([], tt, refl)
  read_pieces (suc n) (c ∷ s) st short =
      let ih : (rest : Bytes) (st : Conversion) → length rest < n → Spelled n rest st =
        λ rest st h. read_pieces n rest st h in
      elim (Bool-cases (c == b'\\')) [
        | inl e ↦
            subst (λ x. Spelled (suc n) (x ∷ s) st) (sym (beq_eq c b'\\' e))
              (read_escape n s st (omega arith) ih)
        | inr slash ↦ elim (Bool-cases (is_quote c)) [
          | inl e ↦ read_quoted n c s st e (omega arith) ih
          | inr quote ↦ elim (Bool-cases (contains token_letters c)) [
            | inl e ↦ read_run n c s st e (omega arith) ih
            | inr e ↦
                read_plain n c s st (e, slash, quote)
                  (ih s (write_literal (c ∷ []) st) (omega arith))
          ]
        ]
      ]

  ended-closed :
      (r : Option (Bytes × DotNetLayout))
      → finish format_at initial r ≡ ended (closed (inert format_at) r)
  unfolding closed
  ended-closed none = refl
  ended-closed (some (text, l)) = elim (Bool-cases (inert format_at text)) [
    | inl e ↦ rw e refl
    | inr e ↦ rw e refl
  ]

  spelled-converted :
      (ps : List Piece)
      → IsFormat ps
      → go_layout_from_dot_net format_at (spelled ps) ≡ ended (meaning (inert format_at) ps)
  unfolding go_layout_from_dot_net meaning
  spelled-converted ps f =
      convert-sense format_at (suc (length (spelled ps))) ps initial f (omega arith)
      ∙ ended-closed (sense (inert format_at) ps)

  refused_or_pieces :
      (format : Bytes)
      → (go_layout_from_dot_net format_at format ≡ refused)
        ⊎ ((ps : List Piece) × IsFormat ps × (spelled ps ≡ format))
  unfolding go_layout_from_dot_net
  refused_or_pieces format = read_pieces (suc (length format)) format initial (omega arith)

  accepted-spelled :
      (format : Bytes) (l : DotNetLayout)
      → go_layout_from_dot_net format_at format ≡ accepted l
      → (ps : List Piece) × IsFormat ps
        × (spelled ps ≡ format)
        × (meaning (inert format_at) ps ≡ some l)
  accepted-spelled format l h = elim (refused_or_pieces format) [
    | inl e ↦ absurd (clash (sym e ∙ h))
    | inr (ps, f, e) ↦ (
      ps,
      f,
      e,
      ended_accepted (meaning (inert format_at) ps) l
          (sym (spelled-converted ps f) ∙ ap (go_layout_from_dot_net format_at) e ∙ h),
    )
  ]
    where
      clash : {l : DotNetLayout} → refused ≡ accepted l → ⊥
      clash e = cc

      ended_accepted :
          (r : Option DotNetLayout) (l : DotNetLayout) → ended r ≡ accepted l → r ≡ some l
      ended_accepted none l e = absurd (clash e)
      ended_accepted (some m) l e = cc

  never_exhausted : (format : Bytes) → go_layout_from_dot_net format_at format ≢ exhausted
  never_exhausted format h = elim (refused_or_pieces format) [
    | inl e ↦ clash (sym e ∙ h)
    | inr (ps, f, e) ↦
        ended_some (meaning (inert format_at) ps)
          (sym (spelled-converted ps f) ∙ ap (go_layout_from_dot_net format_at) e ∙ h)
  ]
    where
      clash : refused ≡ exhausted → ⊥
      clash e = cc

      ended_some : (r : Option DotNetLayout) → ended r ≡ exhausted → ⊥
      ended_some none e = cc
      ended_some (some m) e = cc

-- A .NET format is accepted as a layout exactly when it is written with tokens, escaped characters,
-- quoted texts and plain characters, a token being as long as its letter repeats, and that layout is
-- the sequence of what they mean, with every stretch of literal text between two tokens, or at an
-- end, inert to Go's formatter. The loop ends for every format.
pub converted_iff :
    (format_at : Reference → Bytes → Bytes) (format : Bytes) (l : DotNetLayout)
    → ((go_layout_from_dot_net format_at format ≡ accepted l) ↔ (
        (ps : List Piece) × IsFormat ps
        × (spelled ps ≡ format)
        × (meaning (literal_is_inert format_at) ps ≡ some l)))
      × (go_layout_from_dot_net format_at format ≢ exhausted)
converted_iff format_at format l = (
  (
    accepted-spelled format_at format l,
    λ (ps, f, e, means).
        ap (go_layout_from_dot_net format_at) (sym e)
        ∙ spelled-converted format_at ps f
        ∙ ap ended means,
  ),
  never_exhausted format_at format,
)
