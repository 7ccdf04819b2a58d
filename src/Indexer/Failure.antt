-- ===== src/Indexer/Failure.antt =====
-- When the search of an indexer fails.
use jacklet.Prelude.{
  ℕ, suc, ◌≤◌, ◌≡◌, refl, sym, ap, ◌∙◌, ◌≢◌, ◌↔◌, inl, inr, true, false, Option, none, some, List,
  [], ◌∷◌, map, arith, ltb, Bool-cases, Option-cases, ℕ-Eq, length, All, Bytes, Bytes-Eq,
}
use jacklet.Tracker.{Tracker, tracker_id}
use jacklet.Indexer.{Indexer, ids}
use jacklet.Indexer.Scraping.{
  Search, panics, ends, SearchError, panicked, errored, ScrapeOutcome, is_throttled, scrape_guarded,
  scrape_one, NamedError, failure, failures, IndexerError, one_failed, every_failed, error_of,
  outcome_error, scrape,
}
use jacklet.Scrape.{
  ScrapeError, flare_solverr_queue, request_queue, throttled, canceled, failed, wrapped,
}

-- The error is that the store has the answer, or wraps an error that is.
pub data SaysThrottled : ScrapeError → Type 0 where
  it_is : SaysThrottled throttled
  inside : (message : Bytes) (e : ScrapeError) → SaysThrottled e → SaysThrottled (wrapped message e)

-- A search of the tracker that panics, or ends in an error other than that the store has its answer.
pub data HasError : Search → Type 0 where
  by_panic : (message : Bytes) → HasError (panics message)
  by_error : (e : ScrapeError) → (SaysThrottled e → ⊥) → HasError (ends (some e))

SaysThrottled-is_throttled : (e : ScrapeError) → SaysThrottled e → is_throttled e ≡ true
unfolding is_throttled
SaysThrottled-is_throttled _ it_is = refl
SaysThrottled-is_throttled _ (inside message e h) = SaysThrottled-is_throttled e h

clash : false ≡ true → ⊥
clash e = cc

is_throttled-SaysThrottled : (e : ScrapeError) → is_throttled e ≡ true → SaysThrottled e
unfolding is_throttled
is_throttled-SaysThrottled throttled h = it_is
is_throttled-SaysThrottled (wrapped message e) h = inside message e (is_throttled-SaysThrottled e h)
is_throttled-SaysThrottled flare_solverr_queue h = absurd (clash h)
is_throttled-SaysThrottled request_queue h = absurd (clash h)
is_throttled-SaysThrottled canceled h = absurd (clash h)
is_throttled-SaysThrottled (failed message) h = absurd (clash h)

HasError-scrape_guarded :
    (s : Search) → HasError s → (x : SearchError) × (scrape_guarded s ≡ some x)
unfolding scrape_guarded
HasError-scrape_guarded _ (by_panic message) = (panicked message, refl)
HasError-scrape_guarded _ (by_error e h) = elim (Bool-cases (is_throttled e)) [
  | inl t ↦ absurd (h (is_throttled-SaysThrottled e t))
  | inr t ↦ (errored e, rw t refl)
]

none_left : {x : SearchError} → Path (Option SearchError) none (some x) → ⊥
none_left e = cc

scrape_guarded-HasError :
    (s : Search) → (x : SearchError) × (scrape_guarded s ≡ some x) → HasError s
unfolding scrape_guarded
scrape_guarded-HasError (panics message) h = by_panic message
scrape_guarded-HasError (ends none) (x, h) = absurd (none_left h)
scrape_guarded-HasError (ends (some e)) (x, h) = elim (Bool-cases (is_throttled e)) [
  | inl t ↦ absurd (none_left (sym (rw t refl) ∙ h))
  | inr t ↦ by_error e (λ says. ground (arith, t, SaysThrottled-is_throttled e says))
]

failure-none : (o : ScrapeOutcome) (errs : List NamedError) → o.err ≡ none → failure o errs ≡ errs
unfolding failure
failure-none o errs e = rw e refl

failure-some :
    (o : ScrapeOutcome) (errs : List NamedError) (x : SearchError)
    → o.err ≡ some x
    → length (failure o errs) ≡ suc (length errs)
unfolding failure
failure-some o errs x e = rw e refl

few_failures : (outcomes : List ScrapeOutcome) → length (failures outcomes) ≤ length outcomes
unfolding failures
few_failures [] = omega arith
few_failures (o ∷ outcomes) = elim (Option-cases o.err) [
  | inl e ↦ omega (arith, few_failures outcomes, ap length (failure-none o (failures outcomes) e))
  | inr (x, e) ↦ omega (arith, few_failures outcomes, failure-some o (failures outcomes) x e)
]

nothing : {x : IndexerError} → Path (Option IndexerError) none (some x) → ⊥
nothing e = cc

no_error : {x : SearchError} → Path (Option SearchError) none (some x) → ⊥
no_error e = cc

-- There are as many failures as outcomes exactly when every outcome has an error.
as_many_failures :
    (outcomes : List ScrapeOutcome)
    → (length (failures outcomes) ≡ length outcomes)
      ↔ All (λ o. (e : SearchError) × (o.err ≡ some e)) outcomes
unfolding failures
as_many_failures [] = ((λ h. tt), (λ h. refl))
as_many_failures (o ∷ outcomes) = elim (Option-cases o.err) [
  | inl e ↦ (
    (λ h. absurd (
        omega (arith, h, few_failures outcomes, ap length (failure-none o (failures outcomes) e)))),
    (λ ((x, f), rest). absurd (no_error (sym e ∙ f))),
  )
  | inr (x, e) ↦ (
    (λ h. (
      (x, e),
      (as_many_failures outcomes).0 (omega (arith, h, failure-some o (failures outcomes) x e)),
    )),
    (λ (first, rest).
        failure-some o (failures outcomes) x e ∙ ap suc ((as_many_failures outcomes).1 rest)),
  )
]

-- Every outcome has an error.
abbrev Failed : List ScrapeOutcome → Type 0
Failed outcomes = All (λ o. (e : SearchError) × (o.err ≡ some e)) outcomes

abbrev Error : Option IndexerError → Type 0
Error r = (e : IndexerError) × (r ≡ some e)

error_of-Error :
    (total : ℕ) (errs : List NamedError)
    → 1 ≤ total
    → length errs ≤ total
    → Error (error_of total errs) ↔ (length errs ≡ total)
unfolding error_of
error_of-Error total [] some_total few =
    ((λ (x, e). absurd (nothing e)), (λ h. absurd (omega arith)))
error_of-Error total (y ∷ errs) some_total few = elim (Bool-cases (ltb (length (y ∷ errs)) total)) [
  | inl lt ↦ rw lt ((λ (x, e). absurd (nothing e)), (λ h. absurd (ground (arith, lt, h))))
  | inr lt ↦ rw lt ((λ x. ground (arith, lt, few)), (λ h. (every_failed (y ∷ errs), refl)))
]

through : {A B C : Type 0} → A ↔ B → B ↔ C → A ↔ C
through (f, g) (h, k) = ((λ a. h (f a)), (λ c. g (k c)))

outcome_error-Error :
    (o : ScrapeOutcome) (outcomes : List ScrapeOutcome)
    → Error (outcome_error (o ∷ outcomes)) ↔ Failed (o ∷ outcomes)
unfolding outcome_error
outcome_error-Error o [] = elim (Option-cases o.err) [
  | inl e ↦ rw e ((λ (x, f). absurd (nothing f)), (λ ((x, f), rest). absurd (no_error f)))
  | inr (x, e) ↦ rw e ((λ h. ((x, refl), tt)), (λ h. (one_failed x, refl)))
]
outcome_error-Error o (p ∷ outcomes) =
    through
      (error_of-Error (length (o ∷ p ∷ outcomes)) (failures (o ∷ p ∷ outcomes)) (omega arith)
        (few_failures (o ∷ p ∷ outcomes)))
      (as_many_failures (o ∷ p ∷ outcomes))

Failed-HasError :
    (ask : Tracker → Search × ℕ) (defs : List Tracker)
    → Failed (map (scrape_one ask) defs) ↔ All (λ def. HasError (ask def).0) defs
unfolding scrape_one
Failed-HasError ask [] = ((λ h. h), (λ h. h))
Failed-HasError ask (def ∷ defs) = (
  (λ (x, rest). (scrape_guarded-HasError (ask def).0 x, (Failed-HasError ask defs).0 rest)),
  (λ (x, rest). (HasError-scrape_guarded (ask def).0 x, (Failed-HasError ask defs).1 rest)),
)

outcome_ids :
    (ask : Tracker → Search × ℕ) (defs : List Tracker)
    → map (λ (o : ScrapeOutcome). o.tracker_id) (map (scrape_one ask) defs) ≡ map tracker_id defs
unfolding scrape_one
outcome_ids ask [] = refl
outcome_ids ask (def ∷ defs) = ap (λ rest. tracker_id def ∷ rest) (outcome_ids ask defs)

defs_fail :
    (ask : Tracker → Search × ℕ) (defs : List Tracker)
    → Error (outcome_error (map (scrape_one ask) defs))
      ↔ ((defs ≢ []) × All (λ def. HasError (ask def).0) defs)
unfolding outcome_error
defs_fail ask [] = ((λ (x, e). absurd (nothing e)), (λ (ne, h). absurd (ne refl)))
defs_fail ask (def ∷ defs) = ((λ h. (λ e. cc, first_to_last.0 h)), (λ (ne, h). first_to_last.1 h))
  where
    first_to_last :
        Error (outcome_error (map (scrape_one ask) (def ∷ defs)))
        ↔ All (λ def. HasError (ask def).0) (def ∷ defs)
    first_to_last =
        through (outcome_error-Error (scrape_one ask def) (map (scrape_one ask) defs))
          (Failed-HasError ask (def ∷ defs))

-- The search of an indexer reports one outcome for each of its trackers, in their order, and fails
-- exactly when it has trackers and the search of every one of them panics or ends in an error other
-- than that the store has its answer.
pub scrape_fails_iff :
    (ask : Tracker → Search × ℕ) (idx : Indexer)
    → (map (λ (o : ScrapeOutcome). o.tracker_id) (scrape ask idx).0 ≡ ids idx)
      × (((e : IndexerError) × ((scrape ask idx).1 ≡ some e))
          ↔ ((idx.defs ≢ []) × All (λ def. HasError (ask def).0) idx.defs))
unfolding scrape ids
scrape_fails_iff ask idx = (outcome_ids ask idx.defs, defs_fail ask idx.defs)
