-- ===== src/IndexerFilter/Operators.antt =====
-- The operators of a filter expression mean what they stand for, on any text.
use mathlib.Core.Option
use jacklet.Prelude.{
  ℕ, ◌≡◌, refl, sym, ap, ap₂, ◌∙◌, fun_ext, inl, inr, false, ◌&&◌, ◌||◌, Option, none, some, List,
  [], ◌∷◌, ◌++◌, arith, Bool-cases, Option-cases, ℕ-Eq, contains, Bytes, Bytes-Eq,
}
use jacklet.Prelude.Options.{both, traverse, traverse-append}
use jacklet.Prelude.Split.{split, split-append, split-single}
use jacklet.IndexerFilter.{
  IndexerFilter, filter_and, filter_or, parse_filter_term, all_of, any_of, parse_group,
  parse_indexer_filter,
}

abbrev pub either : IndexerFilter → IndexerFilter → IndexerFilter
either f g def st = f def st || g def st

abbrev pub together : IndexerFilter → IndexerFilter → IndexerFilter
together f g def st = f def st && g def st

any_of-append : (fs gs : List IndexerFilter) → any_of (fs ++ gs) ≡ either (any_of fs) (any_of gs)
unfolding any_of
any_of-append [] gs = refl
any_of-append (f ∷ fs) gs = fun_ext (λ def. fun_ext (λ st. elim (Bool-cases (f def st)) [
  | inl e ↦ rw e refl
  | inr e ↦ rw e (ap (λ (h : IndexerFilter). h def st) (any_of-append fs gs))
]))

all_of-append : (fs gs : List IndexerFilter) → all_of (fs ++ gs) ≡ together (all_of fs) (all_of gs)
unfolding all_of
all_of-append [] gs = refl
all_of-append (f ∷ fs) gs = fun_ext (λ def. fun_ext (λ st. elim (Bool-cases (f def st)) [
  | inl e ↦ rw e (ap (λ (h : IndexerFilter). h def st) (all_of-append fs gs))
  | inr e ↦ rw e refl
]))

map-both :
    {A B : Type 0} (f : A → B) (g : A → A → A) (h : B → B → B)
    → ((x y : A) → f (g x y) ≡ h (f x) (f y))
    → (m n : Option A) → Option.map f (both g m n) ≡ both h (Option.map f m) (Option.map f n)
map-both f g h hom none n = refl
map-both f g h hom (some x) none = refl
map-both f g h hom (some x) (some y) = ap some (hom x y)

-- The expression `a,b` covers what `a` or `b` covers, and is refused when either is, whatever text
-- the two are.
pub comma_is_or :
    (a b : Bytes)
    → parse_indexer_filter (a ++ filter_or ∷ b)
      ≡ both either (parse_indexer_filter a) (parse_indexer_filter b)
unfolding parse_indexer_filter
comma_is_or a b =
    ap (λ gs. Option.map any_of (traverse parse_group gs)) (split-append filter_or a b)
    ∙ ap (Option.map any_of) (traverse-append parse_group (split filter_or a) (split filter_or b))
    ∙ map-both any_of (λ fs gs. fs ++ gs) either any_of-append _ _

group_plus :
    (a b : Bytes)
    → parse_group (a ++ filter_and ∷ b) ≡ both together (parse_group a) (parse_group b)
unfolding parse_group
group_plus a b =
    ap (λ ts. Option.map all_of (traverse parse_filter_term ts)) (split-append filter_and a b)
    ∙ ap (Option.map all_of)
        (traverse-append parse_filter_term (split filter_and a) (split filter_and b))
    ∙ map-both all_of (λ fs gs. fs ++ gs) together all_of-append _ _

any_of-one : (f : IndexerFilter) → any_of (f ∷ []) ≡ f
unfolding any_of
any_of-one f =
    fun_ext (λ def.
      fun_ext (λ st. elim (Bool-cases (f def st)) [ inl e ↦ rw e refl | inr e ↦ rw e refl ]))

all_of-one : (f : IndexerFilter) → all_of (f ∷ []) ≡ f
unfolding all_of
all_of-one f =
    fun_ext (λ def.
      fun_ext (λ st. elim (Bool-cases (f def st)) [ inl e ↦ rw e refl | inr e ↦ rw e refl ]))

map-traverse-one :
    {A B C : Type 0} (f : A → Option B) (g : List B → C) (h : B → C) (a : A)
    → ((b : B) → g (b ∷ []) ≡ h b)
    → Option.map g (traverse f (a ∷ [])) ≡ Option.map h (f a)
unfolding traverse
map-traverse-one f g h a one = elim (Option-cases (f a)) [
  | inl e ↦ rw e refl
  | inr (b, e) ↦ rw e (ap some (one b))
]

map-same : {A : Type 0} (m : Option A) → Option.map (λ a. a) m ≡ m
map-same none = refl
map-same (some a) = refl

-- An expression without a comma is one group.
pub one_group : (a : Bytes) → contains a filter_or ≡ false → parse_indexer_filter a ≡ parse_group a
unfolding parse_indexer_filter
one_group a h =
    ap (λ gs. Option.map any_of (traverse parse_group gs)) (split-single filter_or a h)
    ∙ map-traverse-one parse_group any_of (λ f. f) a any_of-one
    ∙ map-same (parse_group a)

pub one_term : (a : Bytes) → contains a filter_and ≡ false → parse_group a ≡ parse_filter_term a
unfolding parse_group
one_term a h =
    ap (λ ts. Option.map all_of (traverse parse_filter_term ts)) (split-single filter_and a h)
    ∙ map-traverse-one parse_filter_term all_of (λ f. f) a all_of-one
    ∙ map-same (parse_filter_term a)

contains-append :
    (a b : Bytes) (c : ℕ)
    → contains a c ≡ false
    → contains b c ≡ false
    → contains (a ++ b) c ≡ false
contains-append [] b c h k = k
contains-append (x ∷ a) b c h k = ground (arith, contains-append a b c, h, k)

-- The expression `a+b`, of two texts without a comma, covers what both cover, and is refused when
-- either is.
pub plus_is_and :
    (a b : Bytes)
    → contains a filter_or ≡ false
    → contains b filter_or ≡ false
    → parse_indexer_filter (a ++ filter_and ∷ b)
      ≡ both together (parse_indexer_filter a) (parse_indexer_filter b)
plus_is_and a b h k =
    one_group (a ++ filter_and ∷ b) (contains-append a (filter_and ∷ b) filter_or h k)
    ∙ group_plus a b
    ∙ ap₂ (both together) (sym (one_group a h)) (sym (one_group b k))
