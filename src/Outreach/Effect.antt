-- ===== src/Outreach/Effect.antt =====
-- Asynchronous code with a state, as the services of packages/outreach/src/application are written:
-- a step on a world that ends in a value, in an early return, or in one of the exceptions that the
-- code tells apart. What a computation did to the world before it ended stays done.
use vega_revenue_os.Prelude.{Bool, true, false, Option, none, some}

-- `conflict` is a `ConcurrencyConflictError`, `thrown` any other exception.
pub data Result (E : Type 0) (A : Type 0) : Type 0 where
  value : A → Result E A
  early : E → Result E A
  conflict thrown : Result E A

abbrev pub M : Type 0 → Type 0 → Type 0 → Type 0
M W E A = W → W × Result E A

module _ {W : Type 0} {E : Type 0} where
  abbrev pub pure : {A : Type 0} → A → M W E A
  pure a w = (w, value a)

  -- What follows a computation, when that ended in a value.
  abbrev pub continue : {A B : Type 0} → (A → M W E B) → W × Result E A → W × Result E B
  continue f (w, value a) = f a w
  continue f (w, early e) = (w, early e)
  continue f (w, conflict) = (w, conflict)
  continue f (w, thrown) = (w, thrown)

  infixl 5 ◌>>=◌ ◌>>◌
  abbrev pub ◌>>=◌ : {A B : Type 0} → M W E A → (A → M W E B) → M W E B
  ◌>>=◌ m f w = continue f (m w)

  abbrev pub ◌>>◌ : {B : Type 0} → M W E (Unit {0}) → M W E B → M W E B
  m >> k = m >>= λ _. k

  abbrev pub throw : {A : Type 0} → M W E A
  throw w = (w, thrown)

  abbrev pub answer : {A : Type 0} → E → M W E A
  answer e w = (w, early e)

  -- `if (!x) return e`, and `if (!condition) return e`.
  abbrev pub found : {A : Type 0} → E → Option A → M W E A
  found e none w = (w, early e)
  found e (some a) w = (w, value a)

  abbrev pub guard : Bool → E → M W E (Unit {0})
  guard true e w = (w, value tt)
  guard false e w = (w, early e)

  -- A change of the world.
  abbrev pub update : (W → W) → M W E (Unit {0})
  update f w = (f w, value tt)

  abbrev pub read : {A : Type 0} → (W → A) → M W E A
  read f w = (w, value (f w))

  -- The function's own return: an early one is a value.
  abbrev pub returned : W × Result E E → W × Result E E
  returned (w, early e) = (w, value e)
  returned (w, value e) = (w, value e)
  returned (w, conflict) = (w, conflict)
  returned (w, thrown) = (w, thrown)

  abbrev pub body : M W E E → M W E E
  body m w = returned (m w)

  -- `try { m } catch (err) { if (err instanceof ConcurrencyConflictError) h; throw err; }`
  abbrev pub caught : {A : Type 0} → M W E A → W × Result E A → W × Result E A
  caught h (w, conflict) = h w
  caught h (w, value a) = (w, value a)
  caught h (w, early e) = (w, early e)
  caught h (w, thrown) = (w, thrown)

  abbrev pub catch_conflict : {A : Type 0} → M W E A → M W E A → M W E A
  catch_conflict m h w = caught h (m w)

-- What holds of the value of a computation that ends in one.
abbrev pub Holds : {E A : Type 0} → (A → Type 0) → Result E A → Type 0
Holds Q (value a) = Q a
Holds Q (early e) = Unit
Holds Q conflict = Unit
Holds Q thrown = Unit

abbrev pub Any : {A : Type 0} → A → Type 0
Any a = Unit

-- From every world, the computation keeps the relation between the worlds before and after it, and
-- its value has the property.
pub record Ends {W : Type 0} {E : Type 0} {A : Type 0} (R : W → W → Type 0) (Q : A → Type 0)
    (m : M W E A) : Type 0 where
  pub at : (w : W) → R w (m w).0 × Holds Q (m w).1

module _ {W : Type 0} (E : Type 0) where
  -- Two computations in a row, each with a relation of its own.
  module _ (R S T : W → W → Type 0) (compose : (u v w : W) → R u v → S v w → T u w)
      (weaken : (u v : W) → R u v → T u v) where
    continue-Ends :
        {A B : Type 0} (Q : A → Type 0) (P : B → Type 0) (f : A → M W E B) (u : W)
        (r : W × Result E A)
        → ((a : A) → Q a → Ends S P (f a))
        → R u r.0 × Holds Q r.1
        → T u (continue f r).0 × Holds P (continue f r).1
    continue-Ends Q P f u (w, value a) k (h, q) =
        let (g, p) = (k a q).at w in (compose u w (f a w).0 h g, p)
    continue-Ends Q P f u (w, early e) k (h, q) = (weaken u w h, tt)
    continue-Ends Q P f u (w, conflict) k (h, q) = (weaken u w h, tt)
    continue-Ends Q P f u (w, thrown) k (h, q) = (weaken u w h, tt)

    pub bind-Ends :
        {A B : Type 0} {m : M W E A} {f : A → M W E B} (Q : A → Type 0) (P : B → Type 0)
        → Ends R Q m
        → ((a : A) → Q a → Ends S P (f a))
        → Ends T P (m >>= f)
    bind-Ends {m = m} {f = f} Q P h k = record { at = λ w. continue-Ends Q P f w (m w) k (h.at w) }

    caught-Ends :
        {A : Type 0} (Q : A → Type 0) (k : M W E A) (u : W) (r : W × Result E A)
        → Ends S Q k
        → R u r.0 × Holds Q r.1
        → T u (caught k r).0 × Holds Q (caught k r).1
    caught-Ends Q k u (w, conflict) g (h, q) = let (c, p) = g.at w in (compose u w (k w).0 h c, p)
    caught-Ends Q k u (w, value a) g (h, q) = (weaken u w h, q)
    caught-Ends Q k u (w, early e) g (h, q) = (weaken u w h, tt)
    caught-Ends Q k u (w, thrown) g (h, q) = (weaken u w h, tt)

    pub catch_conflict-Ends :
        {A : Type 0} {m k : M W E A} (Q : A → Type 0)
        → Ends R Q m
        → Ends S Q k
        → Ends T Q (catch_conflict m k)
    catch_conflict-Ends {m = m} {k = k} Q h g = record {
      at = λ w. caught-Ends Q k w (m w) g (h.at w);
    }

  module _ (R : W → W → Type 0) where
    returned-Keeps : (u : W) (r : W × Result E E) → R u r.0 → R u (returned r).0
    returned-Keeps u (w, value a) h = h
    returned-Keeps u (w, early e) h = h
    returned-Keeps u (w, conflict) h = h
    returned-Keeps u (w, thrown) h = h

    pub body-Keeps : (m : M W E E) (w : W) → R w (m w).0 → R w (body m w).0
    body-Keeps m w h = returned-Keeps w (m w) h
