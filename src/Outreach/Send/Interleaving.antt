-- ===== src/Outreach/Send/Interleaving.antt =====
-- Calls of the send service that overlap
-- (packages/outreach/src/application/outreach-execution.service.ts). Workers run `executeApprovedSend`
-- at the same time: what one has loaded is saved by another before it goes on. A call is cut after its
-- loads; what follows them, and a whole `recordResponse`, is one step.
use vega_revenue_os.Prelude.{ℕ, zero, suc, Option, none, some, List, [], ◌∷◌, ◌++◌}
use vega_revenue_os.Outreach.Effect.{Result, value, early, conflict, thrown}
use vega_revenue_os.Outreach.Send.World.{Call, SendWorld, SendResult}
use vega_revenue_os.Outreach.Send.Execute.{Sendable, load_sendable, continue_send}
use vega_revenue_os.Outreach.Send.Response.{ResponseType, record_response}

-- A call that has loaded its aggregates and has not gone on.
pub record Begun (D : Type 0) (L : Type 0) (R : Type 0) : Type 0 where
  pub call : Call D L R
  pub id : ℕ
  pub approval_id : ℕ
  pub loaded : Sendable D

-- The world, and the calls that are under way.
pub record Service (D : Type 0) (L : Type 0) (R : Type 0) : Type 0 where
  pub world : SendWorld D L R
  pub begun : List (Begun D L R)

-- A step of some worker. `resume n` goes on with the call at the place `n`.
pub data Action (D : Type 0) (L : Type 0) (R : Type 0) : Type 0 where
  begin : Call D L R → (id approval_id : ℕ) → Action D L R
  resume : ℕ → Action D L R
  respond_to : Call D L R → (id : ℕ) → ResponseType → Action D L R

module _ {D : Type 0} {L : Type 0} {R : Type 0} where
  -- A call whose loads give no result has ended.
  abbrev pub after_loads :
      Call D L R
      → (id approval_id : ℕ) → List (Begun D L R)
      → SendWorld D L R × Result SendResult (Sendable D)
      → Service D L R
  after_loads k id approval_id bs (w, value s) = record {
    world = w;
    begun = bs ++ record { call = k; id = id; approval_id = approval_id; loaded = s } ∷ [];
  }
  after_loads k id approval_id bs (w, early e) = record { world = w; begun = bs }
  after_loads k id approval_id bs (w, conflict) = record { world = w; begun = bs }
  after_loads k id approval_id bs (w, thrown) = record { world = w; begun = bs }

  unfoldable pub nth_begun : ℕ → List (Begun D L R) → Option (Begun D L R)
  nth_begun n [] = none
  nth_begun zero (b ∷ bs) = some b
  nth_begun (suc n) (b ∷ bs) = nth_begun n bs

  unfoldable pub without : ℕ → List (Begun D L R) → List (Begun D L R)
  without n [] = []
  without zero (b ∷ bs) = bs
  without (suc n) (b ∷ bs) = b ∷ without n bs

  -- The rest of a call, from what it has loaded, in the world as it is now.
  abbrev pub resumed : List (Begun D L R) → Option (Begun D L R) → SendWorld D L R → Service D L R
  resumed bs none w = record { world = w; begun = bs }
  resumed bs (some b) w = record {
    world = (continue_send b.call b.id b.approval_id b.loaded w).0;
    begun = bs;
  }

  unfoldable pub act : Action D L R → Service D L R → Service D L R
  unfolding load_sendable continue_send record_response nth_begun without
  act (begin k id approval_id) m =
      after_loads k id approval_id m.begun (load_sendable k id approval_id m.world)
  act (resume n) m = resumed (without n m.begun) (nth_begun n m.begun) m.world
  act (respond_to k id type) m = record m { world = (record_response k id type m.world).0 }

  unfoldable pub act_all : List (Action D L R) → Service D L R → Service D L R
  unfolding act
  act_all [] m = m
  act_all (a ∷ rest) m = act_all rest (act a m)

  -- The service while no call is under way.
  abbrev pub idle : SendWorld D L R → Service D L R
  idle w = record { world = w; begun = [] }
