-- ===== src/Outreach/Repository/Rows.antt =====
-- Which rows a save changes
-- (packages/outreach/src/infrastructure/postgres-message-execution-repository.ts).
use vega_revenue_os.Prelude.{
  ℕ, ◌≡◌, true, false, some, List, [], ◌∷◌, ◌++◌, Bool-cases, Option-cases, inl, inr, arith,
}
use vega_revenue_os.Outreach.Repository.{
  Context, Stored, saved, is_row, find_row, update_row, settled, save,
}

module _ {P : Type 0} {A : Type 0} (kind : Stored P A) (ctx : Context) where
  -- A save leaves the object as it was, with its version as the loaded one.
  pub save-settled :
      (x y : A) (rows rows' : List A)
      → save kind ctx x rows ≡ saved rows' y
      → y ≡ settled kind ctx x
  unfolding save
  save-settled x y rows rows' h = ground arith

  -- A row that an update replaces has the context and the id of the new one.
  update_row-find :
      (ctx' : Context) (id id' version : ℕ) (x : A) (rows rows' : List A)
      → (kind.root x).tenant_id ≡ ctx.tenant_id
      → kind.workspace_id x ≡ ctx.workspace_id
      → (kind.root x).id ≡ id
      → is_row kind ctx' id' x ≡ false
      → update_row kind ctx id version x rows ≡ some rows'
      → find_row kind ctx' id' rows' ≡ find_row kind ctx' id' rows
  unfolding update_row find_row
  update_row-find ctx' id id' version x [] rows' t w i h e = ground arith
  update_row-find ctx' id id' version x (y ∷ ys) rows' t w i h e =
      elim (Option-cases (update_row kind ctx id version x ys)) [
        | inl n ↦ ground arith
        | inr (zs, n) ↦
            let ih = update_row-find ctx' id id' version x ys zs t w i h n in ground arith
      ]

  find_row-append :
      (ctx' : Context) (id' : ℕ) (x : A) (rows : List A)
      → is_row kind ctx' id' x ≡ false
      → find_row kind ctx' id' (rows ++ x ∷ []) ≡ find_row kind ctx' id' rows
  unfolding find_row
  find_row-append ctx' id' x [] h = ground arith
  find_row-append ctx' id' x (y ∷ ys) h = let ih = find_row-append ctx' id' x ys h in ground arith

  -- A save changes no other row.
  pub save-other :
      (ctx' : Context) (id' : ℕ) (x y : A) (rows rows' : List A)
      → is_row kind ctx' id' x ≡ false
      → save kind ctx x rows ≡ saved rows' y
      → find_row kind ctx' id' rows' ≡ find_row kind ctx' id' rows
  unfolding save
  save-other ctx' id' x y rows rows' h e = elim (Option-cases (kind.root x).loaded_version) [
    | inl n ↦ let step = find_row-append ctx' id' x rows h in ground arith
    | inr (v, n) ↦ elim (Option-cases (update_row kind ctx (kind.root x).id v x rows)) [
      | inl m ↦ ground arith
      | inr (zs, m) ↦
          let step = update_row-find ctx' (kind.root x).id id' v x rows zs in ground arith
    ]
  ]

  -- The row that was loaded is the one that is replaced.
  update_row-hit :
      (id : ℕ) (x r : A) (rows : List A)
      → is_row kind ctx id x ≡ true
      → find_row kind ctx id rows ≡ some r
      → (rows' : List A) × (update_row kind ctx id (kind.root r).version x rows ≡ some rows')
        × (find_row kind ctx id rows' ≡ some x)
  unfolding update_row find_row
  update_row-hit id x r [] h e = absurd (ground arith)
  update_row-hit id x r (y ∷ ys) h e = elim (Bool-cases (is_row kind ctx id y)) [
    | inl g ↦ (x ∷ ys, ground arith, ground arith)
    | inr g ↦
        let (rows', u, f) = update_row-hit id x r ys h (ground arith) in
        (y ∷ rows', ground arith, ground arith)
  ]

  -- An object whose loaded version is that of its row is stored, and found afterwards.
  pub save-find :
      (id : ℕ) (x r : A) (rows : List A)
      → is_row kind ctx id x ≡ true
      → find_row kind ctx id rows ≡ some r
      → (kind.root x).loaded_version ≡ some (kind.root r).version
      → (rows' : List A) × (save kind ctx x rows ≡ saved rows' (settled kind ctx x))
        × (find_row kind ctx id rows' ≡ some x)
  unfolding save
  save-find id x r rows h e v =
      let (rows', u, f) = update_row-hit id x r rows h e in (rows', ground arith, f)

  pub find_row-IsRow :
      (id : ℕ) (x : A) (rows : List A)
      → find_row kind ctx id rows ≡ some x
      → is_row kind ctx id x ≡ true
  unfolding find_row
  find_row-IsRow id x [] e = absurd (ground arith)
  find_row-IsRow id x (y ∷ ys) e = elim (Bool-cases (is_row kind ctx id y)) [
    | inl g ↦ let s : y ≡ x = ground arith in ground arith
    | inr g ↦ find_row-IsRow id x ys (ground arith)
  ]
