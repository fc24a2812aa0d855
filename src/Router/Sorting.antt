-- ===== src/Router/Sorting.antt =====
-- The lists that the ranking of models goes through (packages/llm-gateway/src/llm-router.ts).
use mathlib.Core.List.{Memᴰ}
use vega_revenue_os.Prelude.{
  ◌≡◌, refl, Bool, true, false, List, [], ◌∷◌, Bool-cases, inl, inr, if-cases,
}
use vega_revenue_os.Router.Catalog.{filter, insert, sort}

module _ {A : Type 0} where
  kept-Mem :
      (p : A → Bool) (x y : A) (ys zs : List A)
      → p y ≡ true
      → (Memᴰ x zs → Memᴰ x ys × (p x ≡ true))
      → Memᴰ x (y ∷ zs)
      → Memᴰ x (y ∷ ys) × (p x ≡ true)
  kept-Mem p x y ys zs h f (Memᴰ.head e) = (Memᴰ.head e, rw e h)
  kept-Mem p x y ys zs h f (Memᴰ.tail m) = let (n, g) = f m in (Memᴰ.tail n, g)

  pub filter-Mem :
      (p : A → Bool) (x : A) (xs : List A) → Memᴰ x (filter p xs) → Memᴰ x xs × (p x ≡ true)
  unfolding filter
  filter-Mem p x [] m = elim m [ ]
  filter-Mem p x (y ∷ ys) m = elim (Bool-cases (p y)) [
    | inl h ↦ kept-Mem p x y ys (filter p ys) h (filter-Mem p x ys) (rw (h, filter) at m)
    | inr h ↦ let (n, g) = filter-Mem p x ys (rw (h, filter) at m) in (Memᴰ.tail n, g)
  ]

  pub Mem-filter :
      (p : A → Bool) (x : A) (xs : List A) → Memᴰ x xs → p x ≡ true → Memᴰ x (filter p xs)
  unfolding filter
  Mem-filter p x [] m h = elim m [ ]
  Mem-filter p x (y ∷ ys) (Memᴰ.head e) h = rw (← e, h, filter) (Memᴰ.head refl)
  Mem-filter p x (y ∷ ys) (Memᴰ.tail m) h =
      let n = Mem-filter p x ys m h in if-cases (Memᴰ x) (p y) (λ g. Memᴰ.tail n) (λ g. n)

  swap_in :
      (x y z : A) (zs ws : List A)
      → (Memᴰ x (y ∷ zs) → Memᴰ x ws)
      → Memᴰ x (y ∷ z ∷ zs)
      → Memᴰ x (z ∷ ws)
  swap_in x y z zs ws f (Memᴰ.head e) = Memᴰ.tail (f (Memᴰ.head e))
  swap_in x y z zs ws f (Memᴰ.tail (Memᴰ.head e)) = Memᴰ.head e
  swap_in x y z zs ws f (Memᴰ.tail (Memᴰ.tail m)) = Memᴰ.tail (f (Memᴰ.tail m))

  past_second : (x y z : A) (zs : List A) → Memᴰ x (y ∷ zs) → Memᴰ x (y ∷ z ∷ zs)
  past_second x y z zs (Memᴰ.head e) = Memᴰ.head e
  past_second x y z zs (Memᴰ.tail m) = Memᴰ.tail (Memᴰ.tail m)

  swap_out :
      (x y z : A) (zs ws : List A)
      → (Memᴰ x ws → Memᴰ x (y ∷ zs))
      → Memᴰ x (z ∷ ws)
      → Memᴰ x (y ∷ z ∷ zs)
  swap_out x y z zs ws f (Memᴰ.head e) = Memᴰ.tail (Memᴰ.head e)
  swap_out x y z zs ws f (Memᴰ.tail m) = past_second x y z zs (f m)

  Mem-insert :
      (before : A → A → Bool) (x y : A) (ys : List A)
      → Memᴰ x (y ∷ ys)
      → Memᴰ x (insert before y ys)
  unfolding insert
  Mem-insert before x y [] m = m
  Mem-insert before x y (z ∷ zs) m =
      let ih = Mem-insert before x y zs in
      if-cases (Memᴰ x) (before y z) (λ g. m) (λ g. swap_in x y z zs (insert before y zs) ih m)

  insert-Mem :
      (before : A → A → Bool) (x y : A) (ys : List A)
      → Memᴰ x (insert before y ys)
      → Memᴰ x (y ∷ ys)
  unfolding insert
  insert-Mem before x y [] m = m
  insert-Mem before x y (z ∷ zs) m =
      let ih = insert-Mem before x y zs in
      elim (Bool-cases (before y z)) [
        | inl g ↦ rw (g, insert) at m
        | inr g ↦ swap_out x y z zs (insert before y zs) ih (rw (g, insert) at m)
      ]

  cons-Mem :
      (x y : A) (ys zs : List A) → (Memᴰ x ys → Memᴰ x zs) → Memᴰ x (y ∷ ys) → Memᴰ x (y ∷ zs)
  cons-Mem x y ys zs f (Memᴰ.head e) = Memᴰ.head e
  cons-Mem x y ys zs f (Memᴰ.tail m) = Memᴰ.tail (f m)

  pub Mem-sort : (before : A → A → Bool) (x : A) (xs : List A) → Memᴰ x xs → Memᴰ x (sort before xs)
  unfolding sort
  Mem-sort before x [] m = m
  Mem-sort before x (y ∷ ys) m =
      Mem-insert before x y (sort before ys)
        (cons-Mem x y ys (sort before ys) (Mem-sort before x ys) m)

  pub sort-Mem : (before : A → A → Bool) (x : A) (xs : List A) → Memᴰ x (sort before xs) → Memᴰ x xs
  unfolding sort
  sort-Mem before x [] m = m
  sort-Mem before x (y ∷ ys) m =
      cons-Mem x y (sort before ys) ys (sort-Mem before x ys)
        (insert-Mem before x y (sort before ys) m)

  -- Each member is before all that follow it.
  abbrev pub All : (A → Type 0) → List A → Type 0
  All P [] = Unit
  All P (x ∷ xs) = P x × All P xs

  abbrev pub IsOrdered : (A → A → Type 0) → List A → Type 0
  IsOrdered Leq [] = Unit
  IsOrdered Leq (x ∷ xs) = All (Leq x) xs × IsOrdered Leq xs

  All-map : (P Q : A → Type 0) (xs : List A) → ((x : A) → P x → Q x) → All P xs → All Q xs
  All-map P Q [] f h = tt
  All-map P Q (x ∷ xs) f (h, hs) = (f x h, All-map P Q xs f hs)

  -- A sort by a test of which both answers tell an order.
  module _ (before : A → A → Bool) (Leq : A → A → Type 0)
      (first : (x y : A) → before x y ≡ true → Leq x y)
      (second : (x y : A) → before x y ≡ false → Leq y x)
      (through : (x y z : A) → Leq x y → Leq y z → Leq x z) where
    All-insert :
        (z x : A) (ys : List A) → Leq z x → All (Leq z) ys → All (Leq z) (insert before x ys)
    unfolding insert
    All-insert z x [] h g = (h, tt)
    All-insert z x (y ∷ ys) h (g, gs) =
        let ih = All-insert z x ys h gs in
        if-cases (All (Leq z)) (before x y) (λ f. (h, (g, gs))) (λ f. (g, ih))

    insert-IsOrdered : (x : A) (ys : List A) → IsOrdered Leq ys → IsOrdered Leq (insert before x ys)
    unfolding insert
    insert-IsOrdered x [] h = (tt, tt)
    insert-IsOrdered x (y ∷ ys) (g, gs) =
        let ih = insert-IsOrdered x ys gs in
        if-cases (IsOrdered Leq) (before x y)
          (λ f.
            let e = first x y f in
            ((e, All-map (Leq y) (Leq x) ys (λ z k. through x y z e k) g), (g, gs)))
          (λ f. (All-insert y x ys (second x y f) g, ih))

    pub sort-IsOrdered : (xs : List A) → IsOrdered Leq (sort before xs)
    unfolding sort
    sort-IsOrdered [] = tt
    sort-IsOrdered (x ∷ xs) = insert-IsOrdered x (sort before xs) (sort-IsOrdered xs)
