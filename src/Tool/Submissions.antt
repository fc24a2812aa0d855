-- ===== src/Tool/Submissions.antt =====
-- How often a tool's side effect is submitted under one idempotency key
-- (packages/tool-gateway/src/tool-gateway.ts).
use vega_revenue_os.Prelude.{
  ℕ, zero, suc, ◌+◌, ◌≤◌, ◌≡◌, refl, ap, ◌∙◌, sym, subst, Bool, true, false, not, ◌&&◌, Option,
  none, some, List, [], ◌∷◌, ◌++◌, arith, Bool-cases, Option-cases, inl, inr, if-cases,
  if◌then◌else◌,
}
use vega_revenue_os.Idempotency.Store.{RecordKey, same_key}
use vega_revenue_os.Tool.Contract.{ToolDefinition, ToolCallRequest, is_read_only, is_success}
use vega_revenue_os.Tool.Checks.{Provider}
use vega_revenue_os.Tool.Attempts.{
  Tried, tried_of, cross, call_of, attempt_once, retry_from, can_retry, map_outcome_status,
}
use vega_revenue_os.Tool.Records.{ProviderCall, ToolWorld, Run}

-- The call was made under the key, is no read, and was or may have been submitted.
abbrev pub under : RecordKey → Option RecordKey → Bool
under k none = false
under k (some k') = same_key k k'

abbrev pub is_effect : RecordKey → ProviderCall → Bool
is_effect k c = (under k c.key && not c.reads_only) && c.submitted

-- How many calls of providers under the key may have had their side effect.
unfoldable pub side_effects : RecordKey → List ProviderCall → ℕ
side_effects k [] = 0
side_effects k (c ∷ cs) = let rest = side_effects k cs in if is_effect k c then rest + 1 else rest

abbrev pub one_if : Bool → ℕ
one_if b = if b then 1 else 0

side_effects-snoc :
    (k : RecordKey) (cs : List ProviderCall) (c : ProviderCall)
    → side_effects k (cs ++ c ∷ []) ≡ side_effects k cs + one_if (is_effect k c)
unfolding side_effects
side_effects-snoc k [] c = ground arith
side_effects-snoc k (x ∷ cs) c = let ih = side_effects-snoc k cs c in ground arith

and-right : (a b : Bool) → (a && b) ≡ true → b ≡ true
and-right a b h = ground arith

module _ {S : Type 0} (k : RecordKey) (d : ToolDefinition S) (run : Run) where
  -- Whether a submission of the run would count, and whether an attempt's call does.
  abbrev pub writes : Bool
  writes = under k run.key && not (is_read_only d.side_effect_class)

  abbrev pub counts : {V : Type 0} → Tried V → Bool
  counts t = writes && t.outcome.submitted

  counts-le : {V : Type 0} (t : Tried V) → one_if (counts t) ≤ one_if writes
  counts-le t = ground arith

  can_retry-counts :
      {V : Type 0} (t : Tried V) (left : ℕ) → can_retry d t.outcome left ≡ true → counts t ≡ false
  unfolding can_retry
  can_retry-counts t zero h = absurd (ground arith)
  can_retry-counts t (suc left) h = ground arith

  module _ {V : Type 0} {R : Type 0} (r : ToolCallRequest V) (provider : Provider V) where
    -- What an attempt does to the table and to the count.
    record Round (n : ℕ) (w : ToolWorld R) (a : ToolWorld R × Option (Tried V)) : Type 0 where
      table : a.0.table ≡ w.table
      at_most : side_effects k a.0.calls ≤ side_effects k w.calls + one_if writes
      exact :
          (t : Tried V)
          → a.1 ≡ some t
          → (side_effects k a.0.calls ≡ side_effects k w.calls + one_if (counts t))
            × (t ≡ tried_of d (provider.execute n r))

    cross-table :
        (n : ℕ) (t : Tried V) (w : ToolWorld R) → (cross d r run provider n t w).0.table ≡ w.table
    unfolding cross
    cross-table n t w = ground arith

    cross-calls :
        (n : ℕ) (t : Tried V) (w : ToolWorld R)
        → (cross d r run provider n t w).0.calls ≡ w.calls ++ call_of d r run t n ∷ []
    unfolding cross
    cross-calls n t w = ground arith

    cross-tried :
        (n : ℕ) (t t' : Tried V) (w : ToolWorld R)
        → (cross d r run provider n t w).1 ≡ some t'
        → t ≡ t'
    unfolding cross
    cross-tried n t t' w h = ground arith

    cross-counted :
        (n : ℕ) (t : Tried V) (w : ToolWorld R)
        → side_effects k (cross d r run provider n t w).0.calls
          ≡ side_effects k w.calls + one_if (counts t)
    cross-counted n t w =
        ap (side_effects k) (cross-calls n t w) ∙ side_effects-snoc k w.calls (call_of d r run t n)

    cross-Round :
        (n : ℕ) (w w' : ToolWorld R)
        → w'.table ≡ w.table
        → w'.calls ≡ w.calls
        → Round n w (cross d r run provider n (tried_of d (provider.execute n r)) w')
    cross-Round n w w' e f =
        let t = tried_of d (provider.execute n r) in
        let more = cross-counted n t w' in
        let same = ap (side_effects k) f in
        let most = counts-le t in
        record {
          table = cross-table n t w' ∙ e;
          at_most = omega (arith, more, same, most);
          exact = λ t' h.
              let from = cross-tried n t t' w' h in
              (
                subst
                    (λ x.
                      side_effects k (cross d r run provider n t w').0.calls
                      ≡ side_effects k w.calls + one_if (counts x))
                    from (omega (arith, more, same)),
                sym from,
              );
        }

    attempt_once-Round : (n : ℕ) (w : ToolWorld R) → Round n w (attempt_once d r run provider n w)
    unfolding attempt_once
    attempt_once-Round n w =
        if-cases (Round n w) (run.rejects _)
          (λ h. record {
            table = refl;
            at_most = omega arith;
            exact = λ t e. absurd (ground arith);
          })
          (λ h. cross-Round n w _ refl refl)

    -- The same of the loop.
    pub record LoopRun (w : ToolWorld R) (a : ToolWorld R × Option (Tried V × ℕ)) : Type 0 where
      pub table : a.0.table ≡ w.table
      pub at_most : side_effects k a.0.calls ≤ side_effects k w.calls + one_if writes
      pub exact :
          (t : Tried V) (m : ℕ)
          → a.1 ≡ some (t, m)
          → (side_effects k a.0.calls ≤ side_effects k w.calls + one_if (counts t))
            × (i : ℕ) × (t ≡ tried_of d (provider.execute i r))

    stopped-LoopRun :
        (n : ℕ) (w : ToolWorld R) (a : ToolWorld R × Option (Tried V)) (t : Tried V)
        → Round n w a
        → a.1 ≡ some t
        → LoopRun w (a.0, some (t, n))
    stopped-LoopRun n w a t h e =
        let (count, from) = h.exact t e in
        record {
          table = h.table;
          at_most = h.at_most;
          exact = λ t' m f.
              let same : t ≡ t' = ground arith in
              (
                subst (λ x. side_effects k a.0.calls ≤ side_effects k w.calls + one_if (counts x))
                    same (omega (arith, count)),
                n,
                sym same ∙ from,
              );
        }

    crashed-LoopRun :
        (n : ℕ) (w : ToolWorld R) (a : ToolWorld R × Option (Tried V))
        → Round n w a
        → LoopRun w (a.0, none)
    crashed-LoopRun n w a h = record {
      table = h.table;
      at_most = h.at_most;
      exact = λ t m f. absurd (ground arith);
    }

    continued-LoopRun :
        (n left : ℕ) (w : ToolWorld R) (a : ToolWorld R × Option (Tried V)) (t : Tried V)
        (b : ToolWorld R × Option (Tried V × ℕ))
        → Round n w a
        → a.1 ≡ some t
        → can_retry d t.outcome left ≡ true
        → LoopRun a.0 b
        → LoopRun w b
    continued-LoopRun n left w a t b h e again rest =
        let (count, from) = h.exact t e in
        let none_yet = ap one_if (can_retry-counts t left again) in
        let more = rest.at_most in
        record {
          table = rest.table ∙ h.table;
          at_most = omega (arith, count, none_yet, more);
          exact = λ t' m f.
              let (bound, i, source) = rest.exact t' m f in
              (omega (arith, count, none_yet, bound), i, source);
        }

    pub retry_from-LoopRun :
        (left n : ℕ) (w : ToolWorld R) → LoopRun w (retry_from d r run provider left n w)
    unfolding retry_from attempt_once
    retry_from-LoopRun zero n w =
        let a = attempt_once d r run provider n w in
        let round = attempt_once-Round n w in
        elim (Option-cases a.1) [
          | inl e ↦
              let end : retry_from d r run provider zero n w ≡ (a.0, none) = rw (e, retry_from) in
              subst (LoopRun w) (sym end) (crashed-LoopRun n w a round)
          | inr (t, e) ↦
              let end : retry_from d r run provider zero n w ≡ (a.0, some (t, n)) =
                rw (e, retry_from) in
              subst (LoopRun w) (sym end) (stopped-LoopRun n w a t round e)
        ]
    retry_from-LoopRun (suc left) n w =
        let a = attempt_once d r run provider n w in
        let round = attempt_once-Round n w in
        elim (Option-cases a.1) [
          | inl e ↦
              let end : retry_from d r run provider (suc left) n w ≡ (a.0, none) =
                rw (e, retry_from) in
              subst (LoopRun w) (sym end) (crashed-LoopRun n w a round)
          | inr (t, e) ↦
              let again =
                not (is_success (map_outcome_status t.outcome t.threw))
                && can_retry d t.outcome (suc left) in
              elim (Bool-cases again) [
                | inl g ↦
                    let rest = retry_from d r run provider left (n + 1) a.0 in
                    let end : retry_from d r run provider (suc left) n w ≡ rest =
                      rw (e, retry_from) (rw g) in
                    subst (LoopRun w) (sym end) (
                      continued-LoopRun n (suc left) w a t rest round e (and-right _ _ g)
                        (retry_from-LoopRun left (n + 1) a.0))
                | inr g ↦
                    let end : retry_from d r run provider (suc left) n w ≡ (a.0, some (t, n)) =
                      rw (e, retry_from) (rw g) in
                    subst (LoopRun w) (sym end) (stopped-LoopRun n w a t round e)
              ]
        ]
