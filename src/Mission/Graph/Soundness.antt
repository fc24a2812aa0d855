-- ===== src/Mission/Graph/Soundness.antt =====
-- What a visit of `validateTaskGraph` (packages/domain/src/mission/mission.ts) that ends without
-- an error has found.
use vega_revenue_os.Prelude.{
  ℕ, zero, suc, ◌≡◌, refl, ◌≢◌, ◌∙◌, true, false, ◌⊎◌, inl, inr, List, [], ◌∷◌, has, arith,
  Bool-cases,
}
use vega_revenue_os.Mission.Task.{MissionTask}
use vega_revenue_os.Mission.Graph.Search.{
  Visit, done, cyclic, spent, deps_of, add, delete, leave, visit_each, visit,
}

-- Each of the ids `ds` stands in `xs`.
abbrev pub Within : List ℕ → List ℕ → Type 0
Within [] xs = Unit
Within (d ∷ ds) xs = (has d xs ≡ true) × Within ds xs

-- The list names each id once and, read from its end, after all that it depends on.
abbrev pub IsOrder : List MissionTask → List ℕ → Type 0
IsOrder tasks [] = Unit
IsOrder tasks (x ∷ xs) = (has x xs ≡ false) × Within (deps_of tasks x) xs × IsOrder tasks xs

pub Within-mono :
    (ds xs ys : List ℕ)
    → ((x : ℕ) → has x xs ≡ true → has x ys ≡ true)
    → Within ds xs
    → Within ds ys
Within-mono [] xs ys grows w = tt
Within-mono (d ∷ ds) xs ys grows w = (grows d w.0, Within-mono ds xs ys grows w.1)

pub delete_fresh : (id : ℕ) (xs : List ℕ) → has id xs ≡ false → delete id xs ≡ xs
delete_fresh id [] h = refl
delete_fresh id (x ∷ xs) h = ground (arith, delete_fresh id xs)

-- What a loop or a visit that ends well does to the two sets.
pub record Keeps (tasks : List MissionTask) (vs st vs' st' : List ℕ) : Type 0 where
  pub stack_same : st' ≡ st
  pub order : IsOrder tasks vs'
  pub grows : (x : ℕ) → has x vs ≡ true → has x vs' ≡ true
  pub avoids : (x : ℕ) → has x st ≡ true → has x vs ≡ false → has x vs' ≡ false

-- A visit that ends well keeps the sets and has its id among the visited.
abbrev pub Good : List MissionTask → (ℕ → List ℕ → List ℕ → Visit) → Type 0
Good tasks go =
    (id : ℕ) (vs st vs' st' : List ℕ)
    → IsOrder tasks vs
    → go id vs st ≡ done vs' st'
    → Keeps tasks vs st vs' st' × (has id vs' ≡ true)

done_inv : (a b c d : List ℕ) → done a b ≡ done c d → (c ≡ a) × (d ≡ b)
done_inv a b c d h = (cc, cc)

Keeps-refl :
    (tasks : List MissionTask) (vs st vs' st' : List ℕ)
    → IsOrder tasks vs
    → vs' ≡ vs
    → st' ≡ st
    → Keeps tasks vs st vs' st'
Keeps-refl tasks vs st vs' st' o e f = record {
  stack_same = f;
  order = rw e o;
  grows = λ x h. rw e h;
  avoids = λ x _ h. rw e h;
}

Keeps-trans :
    (tasks : List MissionTask) {vs st v s vs' st' : List ℕ}
    → Keeps tasks vs st v s
    → Keeps tasks v s vs' st'
    → Keeps tasks vs st vs' st'
Keeps-trans tasks a b = record {
  stack_same = b.stack_same ∙ a.stack_same;
  order = b.order;
  grows = λ x h. b.grows x (a.grows x h);
  avoids = λ x h n. b.avoids x (rw a.stack_same h) (a.avoids x h n);
}

visit_each_step :
    (go : ℕ → List ℕ → List ℕ → Visit) (d : ℕ) (ds vs st vs' st' : List ℕ)
    → visit_each go (d ∷ ds) vs st ≡ done vs' st'
    → (v s : List ℕ) × (go d vs st ≡ done v s) × (visit_each go ds v s ≡ done vs' st')
unfolding visit_each
visit_each_step go d ds vs st vs' st' h = split (go d vs st) refl
  where
    split :
        (r : Visit)
        → go d vs st ≡ r
        → (v s : List ℕ) × (go d vs st ≡ done v s) × (visit_each go ds v s ≡ done vs' st')
    split (done v s) e = (v, s, e, rw (e, visit_each) at h)
    split cyclic e = cc (rw (e, visit_each) at h)
    split spent e = cc (rw (e, visit_each) at h)

pub visit_each-Keeps :
    (tasks : List MissionTask) (go : ℕ → List ℕ → List ℕ → Visit)
    → Good tasks go
    → (ds vs st vs' st' : List ℕ) → IsOrder tasks vs
    → visit_each go ds vs st ≡ done vs' st'
    → Keeps tasks vs st vs' st' × Within ds vs'
unfolding visit_each
visit_each-Keeps tasks go good [] vs st vs' st' o h =
    let (e, f) = done_inv vs st vs' st' h in (Keeps-refl tasks vs st vs' st' o e f, tt)
visit_each-Keeps tasks go good (d ∷ ds) vs st vs' st' o h =
    let (v, s, first, rest) = visit_each_step go d ds vs st vs' st' h in
    let (k, found) = good d vs st v s o first in
    let (k', w) = visit_each-Keeps tasks go good ds v s vs' st' k.order rest in
    (Keeps-trans tasks k k', (k'.grows d found, w))

leave_inv :
    (id : ℕ) (r : Visit) (vs' st' : List ℕ)
    → leave id r ≡ done vs' st'
    → (v s : List ℕ) × (r ≡ done v s) × (vs' ≡ add id v) × (st' ≡ delete id s)
leave_inv id (done v s) vs' st' h = let (e, f) = done_inv _ _ vs' st' h in (v, s, refl, e, f)
leave_inv id cyclic vs' st' h = cc
leave_inv id spent vs' st' h = cc

-- How a visit that has fuel ends without an error: at a visited id, or after its dependencies.
visit_inv :
    (tasks : List MissionTask) (fuel id : ℕ) (vs st vs' st' : List ℕ)
    → visit tasks (suc fuel) id vs st ≡ done vs' st'
    → (has id vs ≡ true) × (vs' ≡ vs) × (st' ≡ st)
      ⊎ (has id st ≡ false)
        × (has id vs ≡ false)
        × (leave id (visit_each (visit tasks fuel) (deps_of tasks id) vs (id ∷ st)) ≡ done vs' st')
unfolding visit
visit_inv tasks fuel id vs st vs' st' h = elim (Bool-cases (has id st)) [
  | inl on ↦ cc (rw on at h)
  | inr off ↦ elim (Bool-cases (has id vs)) [
    | inl old ↦ let (e, f) = done_inv vs st vs' st' (rw (off, old) at h) in inl (old, e, f)
    | inr new ↦ inr (off, new, rw (off, new) at h)
  ]
]

-- The visit of a new id: its dependencies are visited first, so the order stays one.
enter_Keeps :
    (tasks : List MissionTask) (id : ℕ) (vs st v s : List ℕ)
    → has id st ≡ false
    → has id vs ≡ false
    → Keeps tasks vs (id ∷ st) v s × Within (deps_of tasks id) v
    → Keeps tasks vs st (add id v) (delete id s) × (has id (add id v) ≡ true)
enter_Keeps tasks id vs st v s off new (k, w) =
    let fresh : has id v ≡ false = k.avoids id (ground arith) new in
    rw fresh (
      record {
        stack_same = rw k.stack_same (ground (arith, delete_fresh id st));
        order = (fresh, w, k.order);
        grows = λ x h. ground (arith, k.grows x);
        avoids = λ x on h. ground (arith, k.avoids x);
      },
      ground arith,
    )

pub visit-Good : (tasks : List MissionTask) (fuel : ℕ) → Good tasks (visit tasks fuel)
unfolding visit
visit-Good tasks zero id vs st vs' st' o h = cc
visit-Good tasks (suc fuel) id vs st vs' st' o h = elim (visit_inv tasks fuel id vs st vs' st' h) [
  | inl (old, e, f) ↦ (Keeps-refl tasks vs st vs' st' o e f, rw e old)
  | inr (off, new, left) ↦
      let (v, s, each, e, f) = leave_inv id _ vs' st' left in
      rw (e, f)
        (enter_Keeps tasks id vs st v s off new (
          visit_each-Keeps tasks (visit tasks fuel) (visit-Good tasks fuel) (deps_of tasks id) vs
            (id ∷ st) v s o each))
]

-- A bad end of the loop is a bad end of one of its visits.
pub visit_each_avoids :
    (tasks : List MissionTask) (bad : Visit) (go : ℕ → List ℕ → List ℕ → Visit)
    → ((v s : List ℕ) → done v s ≢ bad)
    → Good tasks go
    → (ds vs st : List ℕ)
    → ((d : ℕ) (v : List ℕ) → has d ds ≡ true → IsOrder tasks v → go d v st ≢ bad)
    → IsOrder tasks vs
    → visit_each go ds vs st ≢ bad
unfolding visit_each
visit_each_avoids tasks bad go ends good [] vs st h o = ends vs st
visit_each_avoids tasks bad go ends good (d ∷ ds) vs st h o = split (go d vs st) refl λ v s e.
    let (k, _) = good d vs st v s o e in
    rw k.stack_same
      (visit_each_avoids tasks bad go ends good ds v st (λ x u m. h x u (ground arith)) k.order)
  where
    split :
        (r : Visit)
        → go d vs st ≡ r
        → ((v s : List ℕ) → go d vs st ≡ done v s → visit_each go ds v s ≢ bad)
        → visit_each go (d ∷ ds) vs st ≢ bad
    split (done v s) e later = rw (e, visit_each) (later v s e)
    split cyclic e later = rw (e, visit_each) (rw e at (h d vs (ground arith) o))
    split spent e later = rw (e, visit_each) (rw e at (h d vs (ground arith) o))

leave-ne :
    (bad : Visit)
    → ((v s : List ℕ) → done v s ≢ bad)
    → (id : ℕ) (r : Visit) → r ≢ bad
    → leave id r ≢ bad
leave-ne bad ends id (done v s) h = ends _ _
leave-ne bad ends id cyclic h = h
leave-ne bad ends id spent h = h

-- A visit of an id off the stack ends badly only if the loop over its dependencies does.
pub visit_avoids :
    (tasks : List MissionTask) (bad : Visit)
    → ((v s : List ℕ) → done v s ≢ bad)
    → (fuel id : ℕ) (vs st : List ℕ) → IsOrder tasks vs
    → has id st ≡ false
    → ((d : ℕ) (v : List ℕ)
        → has d (deps_of tasks id) ≡ true
        → IsOrder tasks v
        → visit tasks fuel d v (id ∷ st) ≢ bad)
    → visit tasks (suc fuel) id vs st ≢ bad
unfolding visit
visit_avoids tasks bad ends fuel id vs st o off h = elim (Bool-cases (has id vs)) [
  | inl old ↦ rw (off, old) (ends _ _)
  | inr new ↦
      rw (off, new)
        (leave-ne bad ends id _ (
          visit_each_avoids tasks bad (visit tasks fuel) ends (visit-Good tasks fuel)
            (deps_of tasks id) vs (id ∷ st) h o))
]
