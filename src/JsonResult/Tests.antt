-- ===== src/JsonResult/Tests.antt =====
-- Parts of a result.
use jacklet.Prelude.{◌≡◌, refl, none, [], ◌∷◌, ℕ-Eq, codes, Bytes-Eq}
use jacklet.Prelude.Int.{pos, ℤ-Eq}
use jacklet.JsonResult.{external_id, category_desc, result_genres}

genres_trimmed : result_genres (codes " drama,, sci-fi ") ≡ codes "drama" ∷ codes "sci-fi" ∷ []
unfolding result_genres
genres_trimmed = refl

no_id : external_id [] ≡ none
unfolding external_id
no_id = refl

two_categories :
    category_desc
      (pos 7000 ∷ pos 100_001 ∷ pos 8000 ∷ [])
      ((7000, codes "Books") ∷ (8000, codes "Other") ∷ [])
    ≡ codes "Books, Other"
unfolding category_desc
two_categories = refl
