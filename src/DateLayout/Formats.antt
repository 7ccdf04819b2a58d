-- ===== src/DateLayout/Formats.antt =====
-- Formats are read as the pieces that they are written with.
use jacklet.Prelude.{
  ℕ, zero, suc, ◌≤◌, ◌<◌, ◌≡◌, refl, sym, ap, ◌∙◌, some, List, [], ◌∷◌, ◌++◌, append_assoc, arith,
  ℕ-Eq, length, length-append, Bytes, Bytes-Eq,
}
use jacklet.DateLayout.{
  Conversion, Reference, write_literal, ended, literal_is_inert, flush_literal, convert,
  DotNetToken, repeat, token_for,
}
use jacklet.DateLayout.Pieces.{
  Piece, run, escape, quoted, plain, quoted_text, spelled, IsFormat, closed, after_token, sense,
}
use jacklet.DateLayout.Table.{letter-token}
use jacklet.DateLayout.Convert.{
  inert, finish, finish-opened, finish_end, token-finish, convert-escape, convert-quoted,
  convert-plain, convert-run,
}

length-repeat : (c n : ℕ) → length (repeat c n) ≡ n
unfolding repeat
length-repeat c zero = refl
length-repeat c (suc n) = ap suc (length-repeat c n)

-- A text is shorter than one that it ends, if that is longer by one at least.
shorter : (p s : Bytes) (n : ℕ) → 1 ≤ length p → length (p ++ s) < suc n → length s < n
shorter p s n some_text enough = omega (arith, length-append p s)

module _ (format_at : Reference → Bytes → Bytes) where
  sense-run :
      (c n : ℕ) (ps : List Piece) (t : DotNetToken)
      → token_for c n ≡ some t
      → sense (inert format_at) (run c n ∷ ps)
        ≡ after_token
            (inert format_at)
            (some t)
            (closed (inert format_at) (sense (inert format_at) ps))
  unfolding sense
  sense-run c n ps t e =
      ap
        (λ u.
          after_token (inert format_at) u (closed (inert format_at) (sense (inert format_at) ps)))
        e

  pub convert_end :
      (n : ℕ) (st : Conversion)
      → convert format_at (suc n) [] st ≡ ended (flush_literal format_at st)
  unfolding convert
  convert_end n st = refl

  pub convert-sense :
      (n : ℕ) (ps : List Piece) (st : Conversion)
      → IsFormat ps
      → length (spelled ps) < n
      → convert format_at n (spelled ps) st ≡ finish format_at st (sense (inert format_at) ps)
  unfolding spelled IsFormat sense literal_is_inert
  convert-sense zero ps st f enough = absurd (omega arith)
  convert-sense (suc n) [] st f enough = convert_end n st ∙ finish_end format_at st
  convert-sense (suc n) (escape b ∷ ps) st (p, f) enough =
      convert-escape format_at n b (spelled ps) st
      ∙ convert-sense n ps (write_literal (b ∷ []) st) f (omega arith)
      ∙ finish-opened format_at st (b ∷ []) (sense (inert format_at) ps)
  convert-sense (suc n) (quoted q text ∷ ps) st ((quote, free), f) enough =
      let e : text ++ q ∷ spelled ps ≡ (text ++ q ∷ []) ++ spelled ps =
        sym (append_assoc text (q ∷ []) (spelled ps)) in
      let short : length (spelled ps) < n =
        shorter (quoted_text q text) (spelled ps) n (omega arith) enough in
      ap (λ s. convert format_at (suc n) (q ∷ s) st) (sym e)
      ∙ convert-quoted format_at n q text (spelled ps) st quote free
      ∙ convert-sense n ps (write_literal text st) f short
      ∙ finish-opened format_at st text (sense (inert format_at) ps)
  convert-sense (suc n) (plain b ∷ ps) st (p, f) enough =
      convert-plain format_at n b (spelled ps) st p
      ∙ convert-sense n ps (write_literal (b ∷ []) st) f (omega arith)
      ∙ finish-opened format_at st (b ∷ []) (sense (inert format_at) ps)
  convert-sense (suc n) (run c zero ∷ ps) st ((letter, (lo, far)), f) enough = absurd (omega arith)
  convert-sense (suc n) (run c (suc m) ∷ ps) st (p, f) enough =
      let (t, found) = letter-token c (suc m) p.0 (omega arith) in
      let short : length (spelled ps) < n =
        shorter (c ∷ repeat c m) (spelled ps) n (omega arith) enough in
      convert-run format_at n c m (spelled ps) st t p found
      ∙ token-finish format_at n (spelled ps) st t (sense (inert format_at) ps)
          (λ st'. convert-sense n ps st' f short)
      ∙ ap (finish format_at st) (sym (sense-run c (suc m) ps t found))
