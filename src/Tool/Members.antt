-- ===== src/Tool/Members.antt =====
-- Members of lists that are searched and filtered (packages/tool-gateway/src/tool-resolution.ts).
use vega_revenue_os.Prelude.{
  ◌≡◌, ap, ◌∙◌, sym, subst, Bool, true, false, ◌⊎◌, inl, inr, none, some, List, [], ◌∷◌, arith,
  Bool-cases, if◌then◌else◌,
}
use vega_revenue_os.Tool.Resolution.{find, filter}

-- Membership, as data.
abbrev pub In : {A : Type 0} → A → List A → Type 0
In a [] = ⊥
In a (x ∷ xs) = (a ≡ x) ⊎ In a xs

module _ {A : Type 0} (p : A → Bool) where
  pub find-some : (xs : List A) (a : A) → find p xs ≡ some a → (p a ≡ true) × In a xs
  unfolding find
  find-some [] a h = absurd (ground arith)
  find-some (x ∷ xs) a h = elim (Bool-cases (p x)) [
    | inl e ↦ let same : x ≡ a = ground arith in (ap p (sym same) ∙ e, inl (sym same))
    | inr e ↦ let (q, m) = find-some xs a (ground arith) in (q, inr m)
  ]

  pub find-none : (xs : List A) (a : A) → find p xs ≡ none → In a xs → p a ≡ false
  unfolding find
  find-none [] a h m = absurd m
  find-none (x ∷ xs) a h (inl e) = ap p e ∙ ground arith
  find-none (x ∷ xs) a h (inr m) = find-none xs a (ground arith) m

  kept :
      (x : A) (xs ys : List A) (a : A)
      → p x ≡ true
      → (In a ys → (p a ≡ true) × In a xs)
      → In a (x ∷ ys)
      → (p a ≡ true) × In a (x ∷ xs)
  kept x xs ys a e later (inl f) = (ap p f ∙ e, inl f)
  kept x xs ys a e later (inr n) = let (q, m) = later n in (q, inr m)

  pub In-filter : (xs : List A) (a : A) → In a (filter p xs) → (p a ≡ true) × In a xs
  unfolding filter
  In-filter [] a m = absurd m
  In-filter (x ∷ xs) a m = elim (Bool-cases (p x)) [
    | inl e ↦ kept x xs (filter p xs) a e (In-filter xs a) (rw e at m)
    | inr e ↦ let (q, n) = In-filter xs a (rw e at m) in (q, inr n)
  ]

  pub filter-In : (xs : List A) (a : A) → p a ≡ true → In a xs → In a (filter p xs)
  unfolding filter
  filter-In [] a h m = absurd m
  filter-In (x ∷ xs) a h (inl e) =
      subst (λ b. In a (if b then x ∷ filter p xs else filter p xs)) (sym (ap p (sym e) ∙ h))
        (inl e)
  filter-In (x ∷ xs) a h (inr m) = elim (Bool-cases (p x)) [
    | inl e ↦ rw e (inr (filter-In xs a h m))
    | inr e ↦ rw e (filter-In xs a h m)
  ]
