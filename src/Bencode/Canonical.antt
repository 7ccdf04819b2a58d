-- ===== src/Bencode/Canonical.antt =====
-- `canonicalTorrent` against the format.
use jacklet.Prelude.{
  ℕ, ◌+◌, ◌*◌, ◌≡◌, refl, sym, ap, ◌∙◌, subst, ◌↔◌, inl, inr, false, [], ◌∷◌, ◌++◌, arith, nat_eq,
  nat_eq_iff, Bool-cases, ℕ-Eq, beq_ne, length, Bytes, Bytes-Eq,
}
use jacklet.Bencode.{BencodeError, ok, err, >>=-eq-ok, scan, canonical_torrent}
use jacklet.Bencode.Grammar.{
  Value, dictionary, Fields, Writes, integer_, string_, list_, dictionary_, encode,
}
use jacklet.Bencode.Scan.{scan_sound}
use jacklet.Bencode.Complete.{string_starts, scan_complete}
use jacklet.Bencode.Append.{append_complete}

pub accepted :
    (t : Bytes) (v : Value) {rest : Bytes}
    → Writes 0 v (b'd' ∷ t) rest
    → canonical_torrent (b'd' ∷ t) ≡ ok (encode v)
unfolding canonical_torrent
accepted t v w =
    let fuel = 2 * length (b'd' ∷ t) + 1 in
    rw (scan_complete fuel w (omega arith)) (rw (append_complete fuel [] w (omega arith)))

pub canonical_complete :
    (data_ : Bytes) (fs : Fields) {rest : Bytes}
    → Writes 0 (dictionary fs) data_ rest
    → canonical_torrent data_ ≡ ok (encode (dictionary fs))
canonical_complete data_ fs (dictionary_ {t = t} lt e w distinct) =
    rw e (accepted t (dictionary fs) (dictionary_ lt refl w distinct))

apart {ℓ} : {A : Type ℓ} (a b : ℕ) (s t u : Bytes) → nat_eq a b ≡ false → s ≡ a ∷ t → s ≡ b ∷ u → A
apart a b s t u n p q = absurd (beq_ne a b n (head_eq a b t u (sym p ∙ q)))
  where
    head_eq : (a b : ℕ) (t u : Bytes) → a ∷ t ≡ b ∷ u → a ≡ b
    head_eq a b t u e = cc

dictionary_first :
    {d : ℕ} {v : Value} {s rest : Bytes} (t : Bytes)
    → Writes d v s rest
    → s ≡ b'd' ∷ t
    → (fs : Fields) × (v ≡ dictionary fs)
dictionary_first t (integer_ {ds = ds} {s = s} {rest = rest} is e) h =
    apart b'i' b'd' s (ds ++ (b'e' ∷ rest)) t refl e h
dictionary_first t (string_ {b = b} {s = s} {rest = rest} w) h =
    let (c, u, e, digit, _) = string_starts b s rest w in apart c b'd' s u t (ground arith) e h
dictionary_first t (list_ {s = s} {t = u} lt e w) h = apart b'l' b'd' s u t refl e h
dictionary_first t (dictionary_ {fs = fs} lt e w distinct) h = (fs, refl)

no_err {ℓ} : {A : Type ℓ} {e : BencodeError} {a : A} → err e ≡ ok a → ⊥
no_err h = cc

canonical_sound :
    (data_ out : Bytes)
    → canonical_torrent data_ ≡ ok out
    → (fs : Fields) × (rest : Bytes) × Writes 0 (dictionary fs) data_ rest
unfolding canonical_torrent
canonical_sound [] out h = absurd (no_err h)
canonical_sound (c ∷ s) out h = elim (Bool-cases (nat_eq c b'd')) [
  | inl e ↦
      let (rest, scanned, _) = >>=-eq-ok (scan (c ∷ s) 0) _ (rw e at h) in
      let (v, w) = scan_sound (2 * length (c ∷ s) + 1) (c ∷ s) 0 rest scanned in
      let (fs, same) = dictionary_first s w (ap (λ (k : ℕ). k ∷ s) ((nat_eq_iff c b'd').0 e)) in
      (fs, rest, subst (λ v. Writes 0 v (c ∷ s) rest) same w)
  | inr e ↦ absurd (no_err (rw e at h))
]

-- The endpoint accepts a body exactly when it begins with a dictionary that the format allows, and
-- then answers with the canonical writing of that dictionary.
pub canonical_iff :
    (data_ out : Bytes)
    → (canonical_torrent data_ ≡ ok out) ↔ (
        (fs : Fields) × (rest : Bytes) × Writes 0 (dictionary fs) data_ rest
        × (out ≡ encode (dictionary fs)))
canonical_iff data_ out = (
  λ h.
      let (fs, rest, w) = canonical_sound data_ out h in
      (fs, rest, w, cc (h, canonical_complete data_ fs w)),
  λ h. canonical_complete data_ h.0 h.2 ∙ ap ok (sym h.3),
)
