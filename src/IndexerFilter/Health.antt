-- ===== src/IndexerFilter/Health.antt =====
-- What the health filters say of a tracker follows from the searches of it.
use jacklet.Prelude.{
  ℕ, ◌≡◌, refl, ap, ◌∙◌, inl, inr, Bool, true, false, not, Option, none, some, List, arith, ltb,
  if◌then◌else◌, lt→ltb, Bool-cases, ◌==◌, ℕ-Eq, beq_refl, contains, Bytes, codes, Bytes-Eq,
}
use jacklet.Prelude.Ascii.{trim_left, trim_right, trim_space, to_lower, cut}
use jacklet.Prelude.Map.{insert}
use jacklet.Scrape.{
  ScrapeError, is_queue_wait, ScrapeState, Scraper, release, finish_scrape, IndexerStatus, status,
}
use jacklet.Scrape.Outcome.{entry, finish_failed, finish_ok, finish_queued}
use jacklet.Tracker.{Tracker, tracker_id}
use jacklet.IndexerFilter.{
  IndexerFilter, filter_and, filter_or, health_term, filter_term, parse_name_value,
  parse_filter_term, parse_indexer_filter,
}
use jacklet.IndexerFilter.Operators.{one_group, one_term}

abbrev pub covered : Option IndexerFilter → Tracker → IndexerStatus → Bool
covered none def st = false
covered (some match) def st = match def st

-- Whether an expression covers a definition, as the scraper sees its tracker.
abbrev pub covers : {T : Type 0} → Scraper T → Bytes → Tracker → Bool
covers s expression def = covered (parse_indexer_filter expression) def (status s (tracker_id def))

abbrev pub failing : Bytes
failing = codes "status:failing"

abbrev pub healthy : Bytes
healthy = codes "status:healthy"

abbrev pub unknown : Bytes
unknown = codes "status:unknown"

one_filter :
    {T : Type 0} (s : Scraper T) (expression : Bytes) (def : Tracker) (match : IndexerFilter)
    → contains expression filter_or ≡ false
    → contains expression filter_and ≡ false
    → parse_filter_term expression ≡ some match
    → covers s expression def ≡ match def (status s (tracker_id def))
one_filter s expression def match h k e =
    ap (λ m. covered m def (status s (tracker_id def)))
      (one_group expression h ∙ one_term expression k ∙ e)

parse_failing : parse_filter_term failing ≡ some (λ def st. ltb 0 st.failures)
unfolding parse_filter_term parse_name_value filter_term health_term trim_space trim_left trim_right
    to_lower cut
parse_failing = refl

parse_healthy : parse_filter_term healthy ≡ some (λ def st. st.failures == 0)
unfolding parse_filter_term parse_name_value filter_term health_term trim_space trim_left trim_right
    to_lower cut
parse_healthy = refl

parse_unknown : parse_filter_term unknown ≡ some (λ def st. not st.scraped)
unfolding parse_filter_term parse_name_value filter_term health_term trim_space trim_left trim_right
    to_lower cut
parse_unknown = refl

zero-ltb : (n : ℕ) → (n == 0) ≡ not (ltb 0 n)
zero-ltb n = ground arith

-- Whether a tracker fails after a search of it: a queue wait leaves it as it was.
abbrev pub fails_after : Option ScrapeError → ScrapeState → Bool
fails_after none st = false
fails_after (some err) st = if is_queue_wait err then ltb 0 st.failures else true

released_failures :
    (st : ScrapeState) (key : Bytes) (f : ℕ) → ltb 0 (release st key f).failures ≡ ltb 0 st.failures
unfolding release
released_failures st key f = ground arith

settled_failures :
    {T : Type 0} (s s' : Scraper T) (st : ScrapeState) (t : ℕ) (id key : Bytes) (f : ℕ)
    (torrents : List T) (err : Option ScrapeError)
    → s.scrape_state id ≡ some st
    → finish_scrape s t id key f torrents err ≡ some s'
    → ltb 0 (entry s' id).failures ≡ fails_after err st
settled_failures s s' st t id key f torrents none q h =
    ground (arith, (finish_ok s s' t id key f torrents st q h).0)
settled_failures s s' st t id key f torrents (some err) q h =
    elim (Bool-cases (is_queue_wait err)) [
      | inl w ↦
          rw w
            (rw (finish_queued s s' t id key f torrents err st q w h) (released_failures st key f))
      | inr w ↦
          let counted = (finish_failed s s' t id key f torrents err st q w h).0 in
          rw w (lt→ltb 0 _ (omega arith))
    ]

known_status :
    {T : Type 0} (s s' : Scraper T) (st : ScrapeState) (t : ℕ) (id key : Bytes) (f : ℕ)
    (torrents : List T) (err : Option ScrapeError)
    → s.scrape_state id ≡ some st
    → finish_scrape s t id key f torrents err ≡ some s'
    → ((status s' id).failures ≡ (entry s' id).failures) × ((status s' id).scraped ≡ true)
unfolding finish_scrape status insert
known_status s s' st t id key f torrents err q h = ground (arith, beq_refl id)

-- After a search of a tracker has ended, "status:failing" covers it exactly when the search failed,
-- or waited in a queue and the tracker was failing before; "status:healthy" covers it exactly when
-- "status:failing" does not, and "status:unknown" no longer does.
pub health_follows :
    {T : Type 0} (s s' : Scraper T) (st : ScrapeState) (t : ℕ) (key : Bytes) (f : ℕ)
    (torrents : List T) (err : Option ScrapeError) (def : Tracker)
    → s.scrape_state (tracker_id def) ≡ some st
    → finish_scrape s t (tracker_id def) key f torrents err ≡ some s'
    → (covers s' failing def ≡ fails_after err st)
      × (covers s' healthy def ≡ not (fails_after err st))
      × (covers s' unknown def ≡ false)
health_follows s s' st t key f torrents err def q h =
    let (same, scraped) = known_status s s' st t (tracker_id def) key f torrents err q h in
    let settled = settled_failures s s' st t (tracker_id def) key f torrents err q h in
    (
      one_filter s' failing def _ refl refl parse_failing ∙ ap (ltb 0) same ∙ settled,
      one_filter s' healthy def _ refl refl parse_healthy
          ∙ ap (λ n. n == 0) same
          ∙ zero-ltb _
          ∙ ap not settled,
      one_filter s' unknown def _ refl refl parse_unknown ∙ ap not scraped,
    )
