-- ===== src/DefinitionStore/Lookup.antt =====
-- What is listed is what is found.
use jacklet.Prelude.{
  ◌≤◌, ◌<◌, ◌≡◌, refl, ap, subst, inl, inr, true, Option, none, some, List, [], ◌∷◌, arith, ltb,
  Bool-cases, ◌==◌, ℕ-Eq, length, All, Any, Bytes, bytes_eq_iff, Bytes-Eq,
}
use jacklet.Tracker.{Tracker, tracker_id}
use jacklet.DefinitionStore.{
  Listing, Files, DefinitionError, Outcome, panics, fails, not_found, answers, refresh,
}
use jacklet.DefinitionStore.Requests.{
  Loaded, loaded_files, users, hand_out, list_trackers, Answer, trackers_of, with_id, find_loaded,
  find_of, names_of, trackers, find,
}

abbrev Within : Loaded → Bytes × Tracker → Type 0
Within all e = Any (λ x. x ≡ e) all

beq_eq_refl : {a b : Bytes} → a ≡ b → (a == b) ≡ true
beq_eq_refl {a} {b} e = (bytes_eq_iff a b).1 e

-- A definition that is loaded uses its id.
users_some :
    (all : Loaded) (name : Bytes) (t : Tracker)
    → Within all (name, t)
    → 0 < length (users all (tracker_id t))
unfolding users
users_some [] name t none_ = absurd none_
users_some ((n, s) ∷ all) name t (inl e) =
    let same : tracker_id s ≡ tracker_id t = ap (λ (x : Bytes × Tracker). tracker_id x.1) e in
    rw (beq_eq_refl same) (omega arith)
users_some ((n, s) ∷ all) name t (inr h) = elim (Bool-cases (tracker_id s == tracker_id t)) [
  | inl e ↦ rw e (omega arith)
  | inr e ↦ rw e (users_some all name t h)
]

too_many :
    (all : Loaded) (name : Bytes) (t : Tracker) (n : Bytes) (s : Tracker)
    → Within all (name, t)
    → (tracker_id s == tracker_id t) ≡ true
    → length (users ((n, s) ∷ all) (tracker_id t)) ≤ 1
    → ⊥
unfolding users
too_many all name t n s h e few = omega (arith, users_some all name t h, rw e at few)

-- The only definition with an id is the one that is found.
only_user :
    (all : Loaded) (name : Bytes) (t : Tracker)
    → Within all (name, t)
    → length (users all (tracker_id t)) ≤ 1
    → with_id all (tracker_id t) ≡ some t
unfolding users with_id
only_user [] name t none_ few = absurd none_
only_user ((n, s) ∷ all) name t (inl e) few =
    let found : s ≡ t = ap (λ (x : Bytes × Tracker). x.1) e in
    rw (beq_eq_refl (ap tracker_id found)) (ap some found)
only_user ((n, s) ∷ all) name t (inr h) few = elim (Bool-cases (tracker_id s == tracker_id t)) [
  | inl e ↦ absurd (too_many all name t n s h e few)
  | inr e ↦ rw e (only_user all name t h (rw e at few))
]

listed_found :
    (all loaded : Loaded)
    → All (Within all) loaded
    → All (λ t. find_loaded all (tracker_id t) ≡ answers t) (list_trackers all loaded).0
unfolding list_trackers find_loaded hand_out
listed_found all [] h = tt
listed_found all ((name, t) ∷ loaded) (h, hs) =
    elim (Bool-cases (ltb 1 (length (users all (tracker_id t))))) [
      | inl many ↦ rw many (listed_found all loaded hs)
      | inr one ↦
          let few : length (users all (tracker_id t)) ≤ 1 = ground (arith, one) in
          rw one (rw (one, only_user all name t h few) refl, listed_found all loaded hs)
    ]

Within-self :
    (all more : Loaded)
    → All (Within all) more
    → (e : Bytes × Tracker) → All (Within (e ∷ all)) more
Within-self all [] h e = tt
Within-self all (m ∷ more) (h, hs) e = (inr h, Within-self all more hs e)

All-Within : (all : Loaded) → All (Within all) all
All-Within [] = tt
All-Within (e ∷ all) = (inl refl, Within-self all all (All-Within all) e)

answers_injective : {a b : Answer} → ◌≡◌ {A = Outcome Answer} (answers a) (answers b) → a ≡ b
answers_injective e = cc

answered :
    (r : Outcome (List Bytes × List DefinitionError)) (m : Option Loaded) (a : Answer)
    → trackers_of r m ≡ answers a
    → All (λ t. find_of r m (tracker_id t) ≡ answers t) a.0
answered (answers r) (some all) a h =
    subst (λ (b : Answer). All (λ t. find_loaded all (tracker_id t) ≡ answers t) b.0)
      (answers_injective h) (listed_found all all (All-Within all))
answered (answers r) none a h = cc
answered (fails e) m a h = cc
answered panics m a h = cc
answered not_found m a h = cc

-- Every definition that a listing gives is what a search by its id answers, with the same state of
-- the store and the directory.
pub trackers-find :
    (parse : Bytes → Option Tracker) (files : Files) (l : Listing) (a : Answer)
    → (trackers parse files l).1 ≡ answers a
    → All (λ t. (find parse files l (tracker_id t)).1 ≡ answers t) a.0
unfolding trackers find
trackers-find parse files l a h =
    let r = refresh parse files l in answered r.1 (loaded_files r.0 (names_of r.1)) a h
