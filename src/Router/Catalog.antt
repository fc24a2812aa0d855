-- ===== src/Router/Catalog.antt =====
-- The models that the router chooses from, and their ranking (packages/llm-gateway/src/llm-router.ts).
-- A model's costs are amounts of a parameter type, its priority a number that is not negative.
use vega_revenue_os.Prelude.{
  ℕ, ◌+◌, ◌-◌, String, Bool, true, false, not, ◌&&◌, ◌||◌, Option, none, some, List, [], ◌∷◌, map,
  is_missing, ltb, ◌==◌, if◌then◌else◌,
}
use text.Mathlib.Text.{◌==◌ as str_eq}
use vega_revenue_os.Outreach.Money.{Money}
use vega_revenue_os.Ledger.Charges.{Charge}

-- The operations that the code makes on costs besides those of `Money`.
pub record Prices (D : Type 0) : Type 0 where
  pub money : Money D
  pub times : D → ℕ → D
  -- `a === b`
  pub same : D → D → Bool

pub data LatencyClass : Type 0 where
  interactive background batch other_class : LatencyClass

pub data Lifecycle : Type 0 where
  active deprecated retired draft testing : Lifecycle

-- `LLMModel`.
pub record Model (D : Type 0) : Type 0 where
  pub model_id : String
  pub provider_id : ℕ
  pub family : Option String
  pub capabilities : List String
  pub max_context_tokens : ℕ
  pub cost_per_input_token_usd : D
  pub cost_per_output_token_usd : D
  pub supports_structured_output : Bool
  pub latency_class : LatencyClass
  pub lifecycle : Lifecycle
  pub priority : ℕ

-- `LLMModelQuery`. The class of latency is always given.
pub record Query (D : Type 0) : Type 0 where
  pub capability : String
  pub max_tokens : ℕ
  pub structured_output_required : Bool
  pub budget : Option (Charge D)
  pub latency_class : LatencyClass
  pub model_family : Option String
  pub model_id : Option String

pub record Score (D : Type 0) : Type 0 where
  pub priority : ℕ
  pub cost : D
  pub latency : ℕ

abbrev pub is_active : Lifecycle → Bool
is_active active = true
is_active _ = false

-- `xs.includes(x)`.
unfoldable pub includes : String → List String → Bool
includes s [] = false
includes s (x ∷ xs) = str_eq x s || includes s xs

-- `wanted && given !== wanted`.
abbrev pub differs : Option String → Option String → Bool
differs none given = false
differs (some wanted) none = not (is_missing (some wanted))
differs (some wanted) (some given) = not (is_missing (some wanted)) && not (str_eq given wanted)

abbrev pub latency_rank : LatencyClass → ℕ
latency_rank interactive = 1
latency_rank background = 2
latency_rank batch = 3
latency_rank other_class = 9

module _ {A : Type 0} where
  -- `xs.filter(p)`.
  unfoldable pub filter : (A → Bool) → List A → List A
  filter p [] = []
  filter p (x ∷ xs) = let rest = filter p xs in if p x then x ∷ rest else rest

  -- `xs.sort(compare)`, which is stable; `goes_before x y` is `compare(x, y) <= 0`.
  unfoldable pub insert : (A → A → Bool) → A → List A → List A
  insert goes_before x [] = x ∷ []
  insert goes_before x (y ∷ ys) =
      let rest = insert goes_before x ys in if goes_before x y then x ∷ y ∷ ys else y ∷ rest

  unfoldable pub sort : (A → A → Bool) → List A → List A
  unfolding insert
  sort goes_before [] = []
  sort goes_before (x ∷ xs) = insert goes_before x (sort goes_before xs)

-- What `rankCandidates` gives: the models in order, or an `AmbiguousRoutingError` with the tied.
pub data Ranking (D : Type 0) : Type 0 where
  ranked : List (Model D) → Ranking D
  ambiguous : List String → Ranking D

abbrev pub is_one : {A : Type 0} → List A → Bool
is_one (x ∷ y ∷ ys) = false
is_one _ = true

module _ {D : Type 0} (prices : Prices D) (locale_before : String → String → Bool) where
  abbrev pub exceeds : Query D → Model D → Charge D → Bool
  exceeds q m budget =
      let estimate =
        if prices.money.above m.cost_per_output_token_usd prices.money.zero_usd
        then prices.times m.cost_per_output_token_usd q.max_tokens
        else prices.money.zero_usd in
      prices.money.above estimate budget.cost_usd || ltb budget.tokens q.max_tokens

  abbrev pub exceeds_budget : Query D → Model D → Bool
  exceeds_budget q m = elim q.budget [ none ↦ false | some budget ↦ exceeds q m budget ]

  -- The filter of `rankCandidates`.
  unfoldable pub is_eligible : Query D → Model D → Bool
  is_eligible q m =
      is_active m.lifecycle
      && not (ltb m.max_context_tokens q.max_tokens)
      && not (q.structured_output_required && not m.supports_structured_output)
      && not (exceeds_budget q m)
      && not (differs q.model_family m.family)
      && not (differs q.model_id (some m.model_id))

  -- `score`.
  unfoldable pub score : Query D → Model D → Score D
  unfolding includes
  score q m = record {
    priority =
        m.priority
        + (if includes q.capability m.capabilities then 0 else 1000)
        + (if not q.structured_output_required || m.supports_structured_output then 0 else 1000);
    cost = m.cost_per_output_token_usd;
    latency =
        (latency_rank m.latency_class - latency_rank q.latency_class)
        + (latency_rank q.latency_class - latency_rank m.latency_class);
  }

  -- The comparison of `scored.sort`, not positive.
  unfoldable pub ranks_before : Query D → Model D → Model D → Bool
  unfolding score
  ranks_before q a b =
      let s = score q a in
      let t = score q b in
      if not (s.priority == t.priority)
      then ltb s.priority t.priority
      else if not (prices.same s.cost t.cost)
      then prices.money.above t.cost s.cost
      else if not (s.latency == t.latency)
      then ltb s.latency t.latency
      else locale_before a.model_id b.model_id

  unfoldable pub is_tied : Query D → Model D → Model D → Bool
  unfolding score
  is_tied q a b =
      let s = score q a in
      let t = score q b in
      s.priority == t.priority && prices.same s.cost t.cost && s.latency == t.latency

  abbrev pub tied_with_first : Query D → List (Model D) → List (Model D)
  tied_with_first q [] = []
  tied_with_first q (m ∷ ms) = filter (λ x. is_tied q x m) (m ∷ ms)

  -- `rankCandidates`.
  unfoldable pub rank_candidates : Query D → List (Model D) → Ranking D
  unfolding is_eligible ranks_before is_tied filter sort
  rank_candidates q models =
      let sorted = sort (ranks_before q) (filter (is_eligible q) models) in
      let tied = tied_with_first q sorted in
      if is_one tied then ranked sorted else ambiguous (map (λ m. m.model_id) tied)
