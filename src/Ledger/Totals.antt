-- ===== src/Ledger/Totals.antt =====
-- What the operations of the ledger do to the totals
-- (packages/llm-gateway/src/execution-budget-ledger.ts).
use vega_revenue_os.Prelude.{
  ℕ, ◌≤◌, ◌≡◌, ◌≢◌, ◌⊎◌, refl, ap, ◌∙◌, Bool, true, false, Option, none, some, List, [], ◌∷◌, ◌++◌,
  ltb, Option-cases, inl, inr, arith, if-cases,
}
use vega_revenue_os.Outreach.Money.{Money}
use vega_revenue_os.Ledger.Charges.{
  Charge, Ledger, find, put, remove, entries, add, sum_from, get_accumulated, commit_actual,
  try_reserve, release,
}

module _ {A : Type 0} where
  pub find-put_same : (k : ℕ) (b : A) (es : List (ℕ × A)) → find k (put k b es) ≡ some b
  unfolding find put
  find-put_same k b [] = ground arith
  find-put_same k b ((j, a) ∷ es) = ground (arith, find-put_same k b es)

  find-put_other : (k j : ℕ) (b : A) (es : List (ℕ × A)) → k ≢ j → find k (put j b es) ≡ find k es
  unfolding find put
  find-put_other k j b [] h = ground arith
  find-put_other k j b ((i, a) ∷ es) h = ground (arith, find-put_other k j b es h)

  put_new : (k : ℕ) (b : A) (es : List (ℕ × A)) → find k es ≡ none → put k b es ≡ es ++ (k, b) ∷ []
  unfolding find put
  put_new k b [] h = refl
  put_new k b ((j, a) ∷ es) h = ground (arith, put_new k b es)

  remove-put_new :
      (k : ℕ) (b : A) (es : List (ℕ × A)) → find k es ≡ none → remove k (put k b es) ≡ es
  unfolding find put remove
  remove-put_new k b [] h = ground arith
  remove-put_new k b ((j, a) ∷ es) h = ground (arith, remove-put_new k b es)

-- The charges of an execution.
abbrev pub bucket : {D : Type 0} → ℕ → Ledger D → List (ℕ × Charge D)
bucket execution l = entries (find execution l)

module _ {D : Type 0} (usd : Money D) where
  sum_from-append :
      (total c : Charge D) (k : ℕ) (es : List (ℕ × Charge D))
      → sum_from usd total (es ++ (k, c) ∷ []) ≡ add usd (sum_from usd total es) c
  unfolding sum_from
  sum_from-append total c k [] = refl
  sum_from-append total c k ((j, d) ∷ es) = sum_from-append (add usd total d) c k es

  commit_total :
      (execution attempt : ℕ) (c : Charge D) (l : Ledger D)
      → find attempt (bucket execution l) ≡ none
      → get_accumulated usd execution (commit_actual usd execution attempt c l)
        ≡ add usd (get_accumulated usd execution l) c
  unfolding get_accumulated commit_actual
  commit_total execution attempt c l h =
      let start : Charge D = record { cost_usd = usd.zero_usd; tokens = 0 } in
      ap (λ (o : Option (List (ℕ × Charge D))). sum_from usd start (entries o))
        (find-put_same execution (put attempt c (bucket execution l)) l)
      ∙ ap (sum_from usd start) (put_new attempt c (bucket execution l) h)
      ∙ sum_from-append start c attempt (bucket execution l)

  -- Two amounts within a budget.
  abbrev pub Fits : Charge D → Charge D → Type 0
  Fits budget total =
      (usd.above total.cost_usd budget.cost_usd ≡ false) × (total.tokens ≤ budget.tokens)

  -- The outcome of a reservation: the charge fits and the total has it, or it does not fit and the
  -- ledger is as it was.
  abbrev pub Reserves : ℕ → Charge D → Charge D → Ledger D → Ledger D × Bool → Type 0
  Reserves execution estimate budget l (l', done) =
      let total = add usd (get_accumulated usd execution l) estimate in
      (done ≡ true) × Fits budget total × (get_accumulated usd execution l' ≡ total)
      ⊎ (done ≡ false) × ¬ Fits budget total × (l' ≡ l)

  -- For an attempt that has no charge yet, `tryReserve` answers true exactly if the total with the
  -- estimate is within both limits, and then that is the new total; otherwise it answers false and
  -- changes nothing.
  pub try_reserve_lem :
      (execution attempt : ℕ) (estimate budget : Charge D) (l : Ledger D)
      → find attempt (bucket execution l) ≡ none
      → Reserves execution estimate budget l (try_reserve usd execution attempt estimate budget l)
  unfolding try_reserve
  try_reserve_lem execution attempt estimate budget l h =
      let total = add usd (get_accumulated usd execution l) estimate in
      let new = commit_total execution attempt estimate l h in
      if-cases (Reserves execution estimate budget l) (usd.above total.cost_usd budget.cost_usd)
        (λ a. inr (refl, (λ w. cc (a, w.0)), refl))
        λ a.
          if-cases (Reserves execution estimate budget l) (ltb budget.tokens total.tokens)
            (λ b. inr (refl, (λ w. ground (arith, b, w.1)), refl))
            (λ b. inl (refl, (a, ground (arith, b)), new))

  -- The total reads one bucket, and none is an empty one.
  total_of :
      (e : ℕ) (l l' : Ledger D)
      → bucket e l' ≡ bucket e l
      → get_accumulated usd e l' ≡ get_accumulated usd e l
  unfolding get_accumulated
  total_of e l l' same =
      let start : Charge D = record { cost_usd = usd.zero_usd; tokens = 0 } in
      ap (sum_from usd start) same

  pub release-some :
      (execution attempt : ℕ) (l : Ledger D) (es : List (ℕ × Charge D))
      → find execution l ≡ some es
      → release usd execution attempt l ≡ put execution (remove attempt es) l
  unfolding release
  release-some execution attempt l es h = rw (h, release)

  pub release-none :
      (execution attempt : ℕ) (l : Ledger D)
      → find execution l ≡ none
      → release usd execution attempt l ≡ l
  unfolding release
  release-none execution attempt l h = rw (h, release)

  -- A charge that is recorded for a new attempt and released again leaves the total as it was.
  release-commit_actual :
      (execution attempt : ℕ) (c : Charge D) (l : Ledger D)
      → find attempt (bucket execution l) ≡ none
      → get_accumulated usd execution
          (release usd execution attempt (commit_actual usd execution attempt c l))
        ≡ get_accumulated usd execution l
  unfolding commit_actual
  release-commit_actual execution attempt c l h =
      let es = put attempt c (bucket execution l) in
      let l' = put execution es l in
      let released = release-some execution attempt l' es (find-put_same execution es l) in
      total_of execution l (release usd execution attempt l') (
        ap (λ (m : Ledger D). bucket execution m) released
        ∙ ap entries (find-put_same execution (remove attempt es) l')
        ∙ remove-put_new attempt c (bucket execution l) h)

  commit_apart :
      (e execution attempt : ℕ) (c : Charge D) (l : Ledger D)
      → e ≢ execution
      → get_accumulated usd e (commit_actual usd execution attempt c l) ≡ get_accumulated usd e l
  unfolding commit_actual
  commit_apart e execution attempt c l h =
      total_of e l (put execution (put attempt c (bucket execution l)) l)
        (ap entries (find-put_other e execution (put attempt c (bucket execution l)) l h))

  release_apart :
      (e execution attempt : ℕ) (l : Ledger D)
      → e ≢ execution
      → get_accumulated usd e (release usd execution attempt l) ≡ get_accumulated usd e l
  release_apart e execution attempt l h = elim (Option-cases (find execution l)) [
    | inl none_yet ↦
        ap (λ (m : Ledger D). get_accumulated usd e m) (release-none execution attempt l none_yet)
    | inr (es, found) ↦
        ap (λ (m : Ledger D). get_accumulated usd e m) (release-some execution attempt l es found)
        ∙ total_of e l (put execution (remove attempt es) l)
            (ap entries (find-put_other e execution (remove attempt es) l h))
  ]

  -- A reservation, a recorded charge and a release on one execution leave the total of every other
  -- execution as it was.
  pub totals_apart :
      (e execution attempt : ℕ) (c budget : Charge D) (l : Ledger D)
      → e ≢ execution
      → (get_accumulated usd e (try_reserve usd execution attempt c budget l).0
          ≡ get_accumulated usd e l)
        × (get_accumulated usd e (commit_actual usd execution attempt c l)
            ≡ get_accumulated usd e l)
        × (get_accumulated usd e (release usd execution attempt l) ≡ get_accumulated usd e l)
  unfolding try_reserve
  totals_apart e execution attempt c budget l h =
      let total = add usd (get_accumulated usd execution l) c in
      let apart = commit_apart e execution attempt c l h in
      let Same = λ (r : Ledger D × Bool). get_accumulated usd e r.0 ≡ get_accumulated usd e l in
      (
        if-cases Same (usd.above total.cost_usd budget.cost_usd) (λ a. refl)
            (λ a. if-cases Same (ltb budget.tokens total.tokens) (λ b. refl) (λ b. apart)),
        apart,
        release_apart e execution attempt l h,
      )
