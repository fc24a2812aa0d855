-- ===== src/Ledger/Tokens.antt =====
-- The tokens that an execution is charged (packages/llm-gateway/src/execution-budget-ledger.ts),
-- whatever the amounts of money do.
use vega_revenue_os.Prelude.{
  ℕ, ◌+◌, ◌≤◌, ◌≡◌, ap, ◌∙◌, true, false, Option, none, some, List, [], ◌∷◌, arith, Option-cases,
  inl, inr,
}
use vega_revenue_os.Outreach.Money.{Money}
use vega_revenue_os.Ledger.Charges.{
  Charge, Ledger, find, put, remove, entries, add, sum_from, get_accumulated, commit_actual,
  try_reserve, release,
}
use vega_revenue_os.Ledger.Totals.{bucket, find-put_same, release-none, release-some}

-- The tokens of the charges of one execution.
unfoldable token_sum : {D : Type 0} → List (ℕ × Charge D) → ℕ
token_sum [] = 0
token_sum ((k, c) ∷ es) = c.tokens + token_sum es

abbrev tokens_of : {D : Type 0} → Option (Charge D) → ℕ
tokens_of none = 0
tokens_of (some c) = c.tokens

module _ {D : Type 0} where
  token_sum-put :
      (k : ℕ) (c : Charge D) (es : List (ℕ × Charge D))
      → token_sum (put k c es) + tokens_of (find k es) ≡ token_sum es + c.tokens
  unfolding token_sum put find
  token_sum-put k c [] = omega arith
  token_sum-put k c ((j, a) ∷ es) = let ih = token_sum-put k c es in ground arith

  token_sum-remove : (k : ℕ) (es : List (ℕ × Charge D)) → token_sum (remove k es) ≤ token_sum es
  unfolding token_sum remove
  token_sum-remove k [] = omega arith
  token_sum-remove k ((j, a) ∷ es) = let ih = token_sum-remove k es in ground arith

  sum_from-tokens :
      (usd : Money D) (total : Charge D) (es : List (ℕ × Charge D))
      → (sum_from usd total es).tokens ≡ total.tokens + token_sum es
  unfolding sum_from token_sum
  sum_from-tokens usd total [] = omega arith
  sum_from-tokens usd total ((k, c) ∷ es) =
      let ih = sum_from-tokens usd (add usd total c) es in omega (arith, ih)

module _ {D : Type 0} (usd : Money D) (execution : ℕ) where
  abbrev pub spent : Ledger D → ℕ
  spent l = (get_accumulated usd execution l).tokens

  spent-sum : (l : Ledger D) → spent l ≡ token_sum (bucket execution l)
  unfolding get_accumulated
  spent-sum l =
      let start : Charge D = record { cost_usd = usd.zero_usd; tokens = 0 } in
      let sum = sum_from-tokens usd start (bucket execution l) in omega (arith, sum)

  bucket-commit :
      (k : ℕ) (c : Charge D) (l : Ledger D)
      → bucket execution (commit_actual usd execution k c l) ≡ put k c (bucket execution l)
  unfolding commit_actual
  bucket-commit k c l = ap entries (find-put_same execution (put k c (bucket execution l)) l)

  commit_sum :
      (k : ℕ) (c : Charge D) (l : Ledger D)
      → spent (commit_actual usd execution k c l) + tokens_of (find k (bucket execution l))
        ≡ spent l + c.tokens
  commit_sum k c l =
      let before = spent-sum l in
      let after = spent-sum (commit_actual usd execution k c l) in
      let same = ap token_sum (bucket-commit k c l) in
      let put_it = token_sum-put k c (bucket execution l) in
      omega (arith, before, after, same, put_it)

  pub find-commit :
      (k : ℕ) (c : Charge D) (l : Ledger D)
      → find k (bucket execution (commit_actual usd execution k c l)) ≡ some c
  find-commit k c l = ap (find k) (bucket-commit k c l) ∙ find-put_same k c (bucket execution l)

  -- A charge that replaces one that is no smaller does not add to what is spent.
  pub commit_within :
      (k : ℕ) (c e : Charge D) (l : Ledger D)
      → find k (bucket execution l) ≡ some e
      → c.tokens ≤ e.tokens
      → spent (commit_actual usd execution k c l) ≤ spent l
  commit_within k c e l f h =
      let sum = commit_sum k c l in let old = ap tokens_of f in omega (arith, sum, old, h)

  pub release_within : (k : ℕ) (l : Ledger D) → spent (release usd execution k l) ≤ spent l
  release_within k l = elim (Option-cases (find execution l)) [
    | inl n ↦ let same = ap spent (release-none usd execution k l n) in omega (arith, same)
    | inr (es, n) ↦
        let l' = put execution (remove k es) l in
        let step = ap spent (release-some usd execution k l es n) in
        let before = spent-sum l in
        let after = spent-sum l' in
        let stored = ap (λ o. token_sum (entries o)) (find-put_same execution (remove k es) l) in
        let found_it = ap (λ o. token_sum (entries o)) n in
        let less = token_sum-remove k es in
        omega (arith, step, before, after, stored, found_it, less)
  ]

  -- An accepted reservation keeps what is spent within the budget.
  pub reserve_within :
      (k : ℕ) (estimate budget : Charge D) (l : Ledger D)
      → (try_reserve usd execution k estimate budget l).1 ≡ true
      → (spent (try_reserve usd execution k estimate budget l).0 ≤ budget.tokens)
        × (find k (bucket execution (try_reserve usd execution k estimate budget l).0)
            ≡ some estimate)
  unfolding try_reserve
  reserve_within k estimate budget l h =
      let sum = commit_sum k estimate l in
      let there = find-commit k estimate l in (ground arith, ground arith)

  pub refused_same :
      (k : ℕ) (estimate budget : Charge D) (l : Ledger D)
      → (try_reserve usd execution k estimate budget l).1 ≡ false
      → (try_reserve usd execution k estimate budget l).0 ≡ l
  unfolding try_reserve
  refused_same k estimate budget l h = ground arith
