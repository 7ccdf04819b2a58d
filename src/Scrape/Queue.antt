-- ===== src/Scrape/Queue.antt =====
-- Pruning the de-duplication window, and which error a search over several mirrors reports.
use jacklet.Prelude.{
  ℕ, ◌≤◌, ◌≡◌, refl, ◌↔◌, true, Option, none, some, List, [], ◌∷◌, arith, ℕ-Eq, All, Bytes,
  Bytes-Eq,
}
use jacklet.Prelude.Map.{delete_if}
use jacklet.Scrape.{
  ScrapeError, is_queue_wait, tracker_error, ScrapeState, Scraper, is_stale, prune_recent,
  is_recent, plan_new,
}

recent-prune_recent :
    (st : ScrapeState) (now later : ℕ) (key : Bytes)
    → now ≤ later
    → is_recent ((prune_recent st now).recent key) later ≡ is_recent (st.recent key) later
unfolding prune_recent delete_if is_recent is_stale
recent-prune_recent st now later key h = ground arith

-- Pruning the window at `now` changes no later decision about any search.
pub plan-prune_recent :
    {T : Type 0} (s : Scraper T) (st : ScrapeState) (now later : ℕ) (id key : Bytes)
    → now ≤ later
    → (plan_new s (prune_recent st now) later id key).1 ≡ (plan_new s st later id key).1
plan-prune_recent s st now later id key h =
    let e = recent-prune_recent st now later key h in
    unfold plan_new prune_recent in rw e (ground arith)

abbrev pub AllQueued : List ScrapeError → Type 0
AllQueued = All (λ e. is_queue_wait e ≡ true)

-- The error kept after the errors of one mirror after another.
abbrev pub kept_error : Option ScrapeError → List ScrapeError → Option ScrapeError
kept_error kept [] = kept
kept_error kept (e ∷ es) = kept_error (some (tracker_error kept e)) es

queued_both :
    (kept e : ScrapeError)
    → (is_queue_wait (tracker_error (some kept) e) ≡ true)
      ↔ ((is_queue_wait kept ≡ true) × (is_queue_wait e ≡ true))
unfolding tracker_error
queued_both kept e = ground arith

kept_error-some :
    (kept : ScrapeError) (es : List ScrapeError)
    → (e : ScrapeError) × (kept_error (some kept) es ≡ some e)
      × ((is_queue_wait e ≡ true) ↔ ((is_queue_wait kept ≡ true) × AllQueued es))
unfolding tracker_error
kept_error-some kept [] = (kept, refl, ((λ h. (h, tt)), λ h. h.0))
kept_error-some kept (e ∷ es) =
    let (r, eq, iff) = kept_error-some (tracker_error (some kept) e) es in
    let step = queued_both kept e in
    (
      r,
      eq,
      (
        λ h. let (both, rest) = iff.0 h in let (a, b) = step.0 both in (a, (b, rest)),
        λ h. iff.1 (step.1 (h.0, h.1.0), h.1.1),
      ),
    )

-- A search whose mirrors all failed counts as a wait in a queue of the program's own, which spares
-- the tracker's backoff, exactly when every one of its failures was such a wait.
pub queued_iff_AllQueued :
    (e : ScrapeError) (es : List ScrapeError)
    → (r : ScrapeError) × (kept_error none (e ∷ es) ≡ some r)
      × ((is_queue_wait r ≡ true) ↔ AllQueued (e ∷ es))
unfolding tracker_error
queued_iff_AllQueued e es = kept_error-some e es
