-- ===== src/Strategy/Attach/Refused.antt =====
-- What an attachment leaves of a strategy when it raises (attach_runtime of
-- pinelib/strategy/context.py).
use pinelib.Prelude.{◌≡◌}
use pinelib.Core.Runtime.State.{Runtime}
use pinelib.Intent.Contracts.{Contracts}
use pinelib.Strategy.Context.{Strategy}

module _ {F S : Type 0} where
  -- Everything of the runtime but its configuration, and the strategy but for being attached.
  pub record Untouched (rt out : Runtime F S) (s w : Strategy F) : Type 0 where
    pub runtime : out ≡ record rt { config = out.config }
    pub strategy : w ≡ record s { attached = w.attached }
