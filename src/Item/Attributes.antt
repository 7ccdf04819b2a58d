-- ===== src/Item/Attributes.antt =====
-- What a client finds among an item's attributes.
use jacklet.Prelude.{
  ℕ, zero, suc, ◌-◌, ◌≤◌, ◌≡◌, refl, ap, subst, ◌≢◌, ◌⊎◌, inl, inr, Bool, none, some, List, [], ◌∷◌,
  ◌++◌, arith, leb, if◌then◌else◌, leb→le, Bool-cases, ◌==◌, ℕ-Eq, length, All, length-append,
  Bytes, codes, Bytes-Eq,
}
use jacklet.Prelude.Int.{ℤ-Eq}
use jacklet.Item.{
  Torrent, Attribute, zeros, imdb_number, prefixed, imdb_text, optional_attributes, attributes,
}
use jacklet.Item.Lookup.{value_of, Found}
use jacklet.Item.Beside.{each_stated}

-- A number as the attributes show it: nothing for nothing, else with zeros before it up to seven
-- digits.
abbrev pub Padded : Bytes → Bytes → Type 0
Padded digits number =
    ((digits ≡ []) × (number ≡ []))
    ⊎ ((digits ≢ [])
        × (before : Bytes) × (number ≡ before ++ digits)
        × All (λ b. b ≡ b'0') before
        × ((length number ≡ 7) ⊎ ((before ≡ []) × (7 ≤ length number))))

zeros-All : (n : ℕ) → All (λ b. b ≡ b'0') (zeros n)
unfolding zeros
zeros-All zero = tt
zeros-All (suc n) = (refl, zeros-All n)

length-zeros : (n : ℕ) → length (zeros n) ≡ n
unfolding zeros
length-zeros zero = refl
length-zeros (suc n) = ap suc (length-zeros n)

no_zeros : (n k : ℕ) → n ≤ k → zeros (n - k) ≡ []
unfolding zeros
no_zeros n k le = let none_left : n - k ≡ 0 = omega (arith, le) in ap zeros none_left

Padded-imdb_number : (digits : Bytes) → Padded digits (imdb_number digits)
unfolding imdb_number
Padded-imdb_number [] = inl (refl, refl)
Padded-imdb_number (b ∷ digits) =
    inr ((λ e. cc), zeros (7 - length (b ∷ digits)), refl, zeros-All _, wide)
  where
    wide :
        (length (zeros (7 - length (b ∷ digits)) ++ b ∷ digits) ≡ 7)
        ⊎ ((zeros (7 - length (b ∷ digits)) ≡ [])
            × (7 ≤ length (zeros (7 - length (b ∷ digits)) ++ b ∷ digits)))
    wide =
        let total = length-append (zeros (7 - length (b ∷ digits))) (b ∷ digits) in
        let filled = length-zeros (7 - length (b ∷ digits)) in
        elim (Bool-cases (leb 7 (length (b ∷ digits)))) [
          | inl le ↦
              inr (
                no_zeros 7 (length (b ∷ digits)) (leb→le _ _ le),
                ground (arith, le, total, filled),
              )
          | inr le ↦ inl (ground (arith, le, total, filled))
        ]

-- The names of the optional texts, and what the row has for each; `number` is the padded IMDb number.
abbrev pub texts : {F : Type 0} → Bytes → Torrent F → List (Bytes × Bytes)
texts number row =
    (codes "album", row.album)
    ∷ (codes "artist", row.artist)
    ∷ (codes "author", row.author)
    ∷ (codes "booktitle", row.book_title)
    ∷ (codes "coverurl", row.poster)
    ∷ (codes "doubanid", row.douban_id)
    ∷ (codes "genre", row.genres)
    ∷ (codes "imdb", number)
    ∷ (codes "imdbid", (if number == [] then [] else codes "tt" ++ number))
    ∷ (codes "infohash", row.info_hash)
    ∷ (codes "label", row.label)
    ∷ (codes "magneturl", row.magnet)
    ∷ (codes "publisher", row.publisher)
    ∷ (codes "rageid", row.rage_id)
    ∷ (codes "tmdbid", row.tmdb_id)
    ∷ (codes "track", row.track)
    ∷ (codes "traktid", row.trakt_id)
    ∷ (codes "tvdbid", row.tvdb_id)
    ∷ (codes "tvmazeid", row.tv_maze_id)
    ∷ []

-- A text of a name, and nothing for an empty one.
abbrev pub Tells : List Attribute → Bytes × Bytes → Type 0
Tells attrs e = value_of e.0 attrs ≡ (if e.1 == [] then none else some e.1)

prefixed-if :
    (number : Bytes) → prefixed number ≡ (if number == [] then [] else codes "tt" ++ number)
prefixed-if [] = refl
prefixed-if (b ∷ number) = refl

in_order :
    {F : Type 0} (attrs : List Attribute) (row : Torrent F)
    → All (Found attrs) (optional_attributes row)
    → All (Tells attrs) (texts (imdb_number row.imdb_id) row)
unfolding optional_attributes imdb_text
in_order attrs row
      (
        the_magneturl,
        (
          the_infohash,
          (
            the_imdb,
            (
              the_imdbid,
              (
                the_tvdbid,
                (
                  the_tmdbid,
                  (
                    the_tvmazeid,
                    (
                      the_traktid,
                      (
                        the_doubanid,
                        (
                          the_rageid,
                          (
                            the_genre,
                            (
                              the_coverurl,
                              (
                                the_author,
                                (
                                  the_booktitle,
                                  (
                                    the_publisher,
                                    (the_artist, (the_album, (the_label, (the_track, end)))),
                                  ),
                                ),
                              ),
                            ),
                          ),
                        ),
                      ),
                    ),
                  ),
                ),
              ),
            ),
          ),
        ),
      ) =
    (
      the_album,
      (
        the_artist,
        (
          the_author,
          (
            the_booktitle,
            (
              the_coverurl,
              (
                the_doubanid,
                (
                  the_genre,
                  (
                    the_imdb,
                    (
                      subst (λ text. Tells attrs (codes "imdbid", text))
                          (prefixed-if (imdb_number row.imdb_id)) the_imdbid,
                      (
                        the_infohash,
                        (
                          the_label,
                          (
                            the_magneturl,
                            (
                              the_publisher,
                              (
                                the_rageid,
                                (
                                  the_tmdbid,
                                  (the_track, (the_traktid, (the_tvdbid, (the_tvmazeid, tt)))),
                                ),
                              ),
                            ),
                          ),
                        ),
                      ),
                    ),
                  ),
                ),
              ),
            ),
          ),
        ),
      ),
    )

-- A client that reads the first attribute of one of the nineteen names of optional texts finds what
-- the row has for that name, and no such attribute when the row has nothing for it. The IMDb number
-- has zeros before it up to seven digits, and "tt" before them under the name imdbid.
pub optional_texts_tell :
    {F : Type 0} (format_factor : F → Bytes) (is_positive : F → Bool) (row : Torrent F)
    → (number : Bytes) × Padded row.imdb_id number
      × All (Tells (attributes format_factor is_positive row)) (texts number row)
optional_texts_tell format_factor is_positive row = (
  imdb_number row.imdb_id,
  Padded-imdb_number row.imdb_id,
  in_order (attributes format_factor is_positive row) row
      (each_stated format_factor is_positive row),
)
