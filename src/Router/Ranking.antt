-- ===== src/Router/Ranking.antt =====
-- What the ranking of models promises (packages/llm-gateway/src/llm-router.ts).
use mathlib.Core.List.{Memᴰ}
use text.Mathlib.TextEquality.{eq_iff}
use vega_revenue_os.Prelude.{
  ℕ, ◌+◌, ◌-◌, ◌<◌, ◌≤◌, ◌≡◌, refl, subst, ◌⊎◌, inl, inr, String, Bool, true, false, not, ◌||◌,
  Option, none, some, List, [], ◌∷◌, arith, is_missing, ltb, ◌==◌, Bool-cases, if◌then◌else◌,
}
use vega_revenue_os.Router.Catalog.{
  Prices, Model, Query, Lifecycle, ranked, includes, is_active, differs, latency_rank, filter, sort,
  exceeds, exceeds_budget, is_eligible, ranks_before, is_tied, is_one, tied_with_first,
  rank_candidates,
}
use vega_revenue_os.Ledger.Charges.{Charge}
use vega_revenue_os.Router.Sorting.{
  filter-Mem, Mem-filter, Mem-sort, sort-Mem, All, IsOrdered, sort-IsOrdered,
}

-- What is asked for, where something is, is what the model has.
abbrev Agrees : Option String → Option String → Type 0
Agrees none given = Unit
Agrees (some wanted) given = is_missing (some wanted) ≡ false → given ≡ some wanted

differs-Agrees : (w g : Option String) → differs w g ≡ false → Agrees w g
differs-Agrees none g h = tt
differs-Agrees (some w) none h = λ f. absurd (ground arith)
differs-Agrees (some w) (some g) h = λ f. rw ((eq_iff g w).0 (ground arith)) refl

Agrees-differs : (w g : Option String) → Agrees w g → differs w g ≡ false
Agrees-differs none g h = refl
Agrees-differs (some w) none h = elim (Bool-cases (is_missing (some w))) [
  | inl m ↦ ground arith
  | inr f ↦ let e = h f in absurd (ground arith)
]
Agrees-differs (some w) (some g) h = elim (Bool-cases (is_missing (some w))) [
  | inl m ↦ ground arith
  | inr f ↦ let e = h f in let same = (eq_iff g w).1 (ground arith) in ground arith
]

active-lem : (l : Lifecycle) → is_active l ≡ true → l ≡ Lifecycle.active
active-lem Lifecycle.active h = refl
active-lem Lifecycle.deprecated h = absurd (ground arith)
active-lem Lifecycle.retired h = absurd (ground arith)
active-lem Lifecycle.draft h = absurd (ground arith)
active-lem Lifecycle.testing h = absurd (ground arith)

-- The order of triples in which the first number that differs decides.
abbrev Upto : ℕ → ℕ → ℕ → ℕ → ℕ → ℕ → Type 0
Upto p c l p' c' l' = (p < p') ⊎ ((p ≡ p') × ((c < c') ⊎ ((c ≡ c') × (l ≤ l'))))

Upto-trans :
    (p c l p' c' l' p'' c'' l'' : ℕ)
    → Upto p c l p' c' l'
    → Upto p' c' l' p'' c'' l''
    → Upto p c l p'' c'' l''
Upto-trans p c l p' c' l' p'' c'' l'' h g = ground arith

filter-none :
    {A : Type 0} (p : A → Bool) (xs : List A) → filter p xs ≡ [] → All (λ x. p x ≡ false) xs
unfolding filter
filter-none p [] h = tt
filter-none p (x ∷ xs) h = elim (Bool-cases (p x)) [
  | inl g ↦ absurd (ground arith)
  | inr g ↦ (g, filter-none p xs (ground arith))
]

single : {A : Type 0} (x : A) (xs : List A) → is_one (x ∷ xs) ≡ true → xs ≡ []
single x [] h = refl
single x (y ∷ ys) h = absurd (ground arith)

filter-single :
    {A : Type 0} (p : A → Bool) (x : A) (xs : List A)
    → p x ≡ true
    → is_one (filter p (x ∷ xs)) ≡ true
    → All (λ y. p y ≡ false) xs
unfolding filter
filter-single p x xs g h = filter-none p xs (single x (filter p xs) (ground arith))

All-both :
    {A : Type 0} (P Q R : A → Type 0) (xs : List A)
    → ((x : A) → P x → Q x → R x)
    → All P xs
    → All Q xs
    → All R xs
All-both P Q R [] f h g = tt
All-both P Q R (x ∷ xs) f (h, hs) (g, gs) = (f x h g, All-both P Q R xs f hs gs)

module _ {D : Type 0} (prices : Prices D) (locale_before : String → String → Bool)
    (rank : D → ℕ) where
  -- The costs are compared by their rank. Doubles are finitely many and, NaN aside, in a total order.
  pub record IsPriced : Type 0 where
    pub above : (a b : D) → prices.money.above a b ≡ ltb (rank b) (rank a)
    pub same : (a b : D) → prices.same a b ≡ (rank a == rank b)

  -- What the output of a request may cost is within the budget, and so are its tokens.
  pub record IsAffordable (q : Query D) (m : Model D) (b : Charge D) : Type 0 where
    pub tokens : q.max_tokens ≤ b.tokens
    pub priced :
        rank prices.money.zero_usd < rank m.cost_per_output_token_usd
        → rank (prices.times m.cost_per_output_token_usd q.max_tokens) ≤ rank b.cost_usd
    pub free :
        rank m.cost_per_output_token_usd ≤ rank prices.money.zero_usd
        → rank prices.money.zero_usd ≤ rank b.cost_usd

  abbrev Affords : Query D → Model D → Option (Charge D) → Type 0
  Affords q m none = Unit
  Affords q m (some b) = IsAffordable q m b

  -- The model can serve the query.
  pub record Meets (q : Query D) (m : Model D) : Type 0 where
    pub lifecycle : m.lifecycle ≡ Lifecycle.active
    pub context : q.max_tokens ≤ m.max_context_tokens
    pub structured : q.structured_output_required ≡ true → m.supports_structured_output ≡ true
    pub affordable : Affords q m q.budget
    pub family : Agrees q.model_family m.family
    pub model_id : Agrees q.model_id (some m.model_id)

  -- The priority, behind which a capability or a structured output that lacks counts 1000.
  abbrev standing : Query D → Model D → ℕ
  standing q m =
      m.priority
      + (if includes q.capability m.capabilities then 0 else 1000)
      + (if not q.structured_output_required || m.supports_structured_output then 0 else 1000)

  -- How far the model's class of latency is from the class asked for.
  abbrev distance : Query D → Model D → ℕ
  distance q m =
      (latency_rank m.latency_class - latency_rank q.latency_class)
      + (latency_rank q.latency_class - latency_rank m.latency_class)

  -- The first model serves the query at least as well as the second: the lower standing decides,
  -- then the lower cost of output, then the nearer class of latency.
  abbrev Prefers : Query D → Model D → Model D → Type 0
  Prefers q a b =
      Upto (standing q a) (rank a.cost_per_output_token_usd) (distance q a) (standing q b)
        (rank b.cost_per_output_token_usd) (distance q b)

  -- No other model serves the query as well as the first.
  abbrev IsAlone : Query D → List (Model D) → Type 0
  IsAlone q [] = Unit
  IsAlone q (m ∷ ms) = All (λ x. ¬ Prefers q x m) ms

  pub record IsRanking (q : Query D) (models rs : List (Model D)) : Type 0 where
    pub sound : (m : Model D) → Memᴰ m rs → Memᴰ m models × Meets q m
    pub complete : (m : Model D) → Memᴰ m models → Meets q m → Memᴰ m rs
    pub in_order : IsOrdered (Prefers q) rs
    pub alone : IsAlone q rs

  module _ (laws : IsPriced) where
    exceeds-IsAffordable :
        (q : Query D) (m : Model D) (b : Charge D)
        → exceeds prices locale_before q m b ≡ false
        → IsAffordable q m b
    exceeds-IsAffordable q m b h =
        let a = laws.above m.cost_per_output_token_usd prices.money.zero_usd in
        let f = laws.above (prices.times m.cost_per_output_token_usd q.max_tokens) b.cost_usd in
        let z = laws.above prices.money.zero_usd b.cost_usd in
        record { tokens = ground arith; priced = λ g. ground arith; free = λ g. ground arith }

    IsAffordable-exceeds :
        (q : Query D) (m : Model D) (b : Charge D)
        → IsAffordable q m b
        → exceeds prices locale_before q m b ≡ false
    IsAffordable-exceeds q m b k =
        let a = laws.above m.cost_per_output_token_usd prices.money.zero_usd in
        let f = laws.above (prices.times m.cost_per_output_token_usd q.max_tokens) b.cost_usd in
        let z = laws.above prices.money.zero_usd b.cost_usd in
        let t = k.tokens in let p = k.priced in let g = k.free in ground arith

    budget-Affords :
        (q : Query D) (m : Model D) (o : Option (Charge D))
        → q.budget ≡ o
        → exceeds_budget prices locale_before q m ≡ false
        → Affords q m o
    budget-Affords q m none e h = tt
    budget-Affords q m (some b) e h = exceeds-IsAffordable q m b (rw e at h)

    Affords-budget :
        (q : Query D) (m : Model D) (o : Option (Charge D))
        → q.budget ≡ o
        → Affords q m o
        → exceeds_budget prices locale_before q m ≡ false
    Affords-budget q m none e k = rw e refl
    Affords-budget q m (some b) e k = rw e (IsAffordable-exceeds q m b k)

    first :
        (q : Query D) (a b : Model D)
        → ranks_before prices locale_before q a b ≡ true
        → Prefers q a b
    unfolding ranks_before
    first q a b h =
        let s = laws.same a.cost_per_output_token_usd b.cost_per_output_token_usd in
        let t = laws.above b.cost_per_output_token_usd a.cost_per_output_token_usd in ground arith

    second :
        (q : Query D) (a b : Model D)
        → ranks_before prices locale_before q a b ≡ false
        → Prefers q b a
    unfolding ranks_before
    second q a b h =
        let s = laws.same a.cost_per_output_token_usd b.cost_per_output_token_usd in
        let t = laws.above b.cost_per_output_token_usd a.cost_per_output_token_usd in ground arith

    is_eligible-Meets :
        (q : Query D) (m : Model D) → is_eligible prices locale_before q m ≡ true → Meets q m
    unfolding is_eligible
    is_eligible-Meets q m h = record {
      lifecycle = active-lem m.lifecycle (ground arith);
      context = ground arith;
      structured = λ s. ground arith;
      affordable = budget-Affords q m q.budget refl (ground arith);
      family = differs-Agrees q.model_family m.family (ground arith);
      model_id = differs-Agrees q.model_id (some m.model_id) (ground arith);
    }

    Meets-is_eligible :
        (q : Query D) (m : Model D) → Meets q m → is_eligible prices locale_before q m ≡ true
    unfolding is_eligible
    Meets-is_eligible q m k =
        let a : is_active m.lifecycle ≡ true = rw k.lifecycle refl in
        let c = k.context in
        let s = k.structured in
        let b = Affords-budget q m q.budget refl k.affordable in
        let f = Agrees-differs q.model_family m.family k.family in
        let i = Agrees-differs q.model_id (some m.model_id) k.model_id in ground arith

    is_tied-lem :
        (q : Query D) (a b : Model D)
        → is_tied prices locale_before q a b ≡ false
        → Prefers q b a
        → ¬ Prefers q a b
    unfolding is_tied
    is_tied-lem q a b h g k =
        let s = laws.same a.cost_per_output_token_usd b.cost_per_output_token_usd in ground arith

    is_tied_refl : (q : Query D) (a : Model D) → is_tied prices locale_before q a a ≡ true
    unfolding is_tied
    is_tied_refl q a =
        let s = laws.same a.cost_per_output_token_usd a.cost_per_output_token_usd in ground arith

    tied-IsAlone :
        (q : Query D) (ms : List (Model D))
        → is_one (tied_with_first prices locale_before q ms) ≡ true
        → IsOrdered (Prefers q) ms
        → IsAlone q ms
    tied-IsAlone q [] h g = tt
    tied-IsAlone q (m ∷ ms) h (g, gs) =
        let p : Model D → Bool = λ x. is_tied prices locale_before q x m in
        All-both (λ x. p x ≡ false) (Prefers q m) (λ x. ¬ Prefers q x m) ms (λ x. is_tied-lem q x m)
          (filter-single p m ms (is_tied_refl q m) h) g

    sorted-IsRanking :
        (q : Query D) (models : List (Model D))
        → let sorted =
            sort
              (ranks_before prices locale_before q)
              (filter (is_eligible prices locale_before q) models) in
          is_one (tied_with_first prices locale_before q sorted) ≡ true → IsRanking q models sorted
    sorted-IsRanking q models one =
        let before = ranks_before prices locale_before q in
        let test = is_eligible prices locale_before q in
        let through : (a b c : Model D) → Prefers q a b → Prefers q b c → Prefers q a c = λ a b c.
          Upto-trans (standing q a) (rank a.cost_per_output_token_usd) (distance q a) (standing q b)
            (rank b.cost_per_output_token_usd) (distance q b) (standing q c)
            (rank c.cost_per_output_token_usd) (distance q c) in
        let ordered =
          sort-IsOrdered before (Prefers q) (first q) (second q) through (filter test models) in
        record {
          sound = λ m n.
              let (k, e) = filter-Mem test m models (sort-Mem before m (filter test models) n) in
              (k, is_eligible-Meets q m e);
          complete = λ m n k.
              Mem-sort before m (filter test models)
                (Mem-filter test m models n (Meets-is_eligible q m k));
          in_order = ordered;
          alone = tied-IsAlone q (sort before (filter test models)) one ordered;
        }

    ranked-to : {rs rs' : List (Model D)} → ranked rs ≡ ranked rs' → rs ≡ rs'
    ranked-to e = ground arith

    -- Where costs are compared like their ranks, a ranking consists of exactly the models of the
    -- catalog that are active, have the context and the structured output that the query needs, are
    -- within its budget and are of the family and the id that it asks for. Each serves the query at
    -- least as well as every later one: by the priority with its penalties, then by the cost of
    -- output, then by the class of latency. No other model serves it as well as the first.
    pub rank_candidates-IsRanking :
        (q : Query D) (models rs : List (Model D))
        → rank_candidates prices locale_before q models ≡ ranked rs
        → IsRanking q models rs
    unfolding rank_candidates
    rank_candidates-IsRanking q models rs h =
        let sorted =
          sort (ranks_before prices locale_before q)
            (filter (is_eligible prices locale_before q) models) in
        elim (Bool-cases (is_one (tied_with_first prices locale_before q sorted))) [
          | inl one ↦
              subst (IsRanking q models) (ranked-to (ground arith)) (sorted-IsRanking q models one)
          | inr many ↦ absurd (ground arith)
        ]
