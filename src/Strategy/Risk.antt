-- ===== src/Strategy/Risk.antt =====
-- The risk functions of a strategy (pinelib/strategy/intent_context.py): each records its rule as
-- an intent and then lists it.
use pinelib.Prelude.{Result, String, [], none, ok, some, ◌++◌, ◌>>=◌, ◌∷◌}
use pinelib.Prelude.Int.{pos}
use pinelib.Core.Value.{Float}
use pinelib.Core.Runtime.State.{Runtime}
use pinelib.Intent.Contracts.{Contracts, Fields}
use pinelib.Strategy.Models.{RiskRule}
use pinelib.Strategy.Context.{Strategy, record_strategy_intent, no_fields}

-- The rules with a value.
pub data RiskLimit : Type 0 where
  max_drawdown max_intraday_loss max_position_size max_cons_loss_days : RiskLimit
  max_intraday_filled_orders : RiskLimit

abbrev pub risk_name : RiskLimit → String
risk_name max_drawdown = "max_drawdown"
risk_name max_intraday_loss = "max_intraday_loss"
risk_name max_position_size = "max_position_size"
risk_name max_cons_loss_days = "max_cons_loss_days"
risk_name max_intraday_filled_orders = "max_intraday_filled_orders"

abbrev pub risk_scope : RiskLimit → String
risk_scope max_drawdown = "strategy"
risk_scope max_intraday_loss = "intraday"
risk_scope max_position_size = "strategy"
risk_scope max_cons_loss_days = "strategy"
risk_scope max_intraday_filled_orders = "intraday"

module _ {F S : Type 0} (fl : Float F) (ct : Contracts F) where
  unfoldable pub risk_allow_entry_in : Runtime F S → String → Strategy F → Result (Strategy F)
  risk_allow_entry_in rt direction s = do
    let rule : RiskRule F = record {
      name = "allow_entry_in";
      value = none;
      value_type = none;
      direction = some direction;
    }
    let fields : Fields F = record no_fields {
      risk_rule = some "allow_entry_in";
      risk_value = some (fl.of_int (pos 0));
      risk_unit = some direction;
      risk_scope = some "entries";
    }
    w ← record_strategy_intent ct rt "risk" "allow_entry_in" fields none s
    ok (record w { risk_rules = w.risk_rules ++ rule ∷ [] })

  -- `risk_max_drawdown` and the other four, each with its own name and scope
  unfoldable pub risk_limit :
      RiskLimit → Runtime F S → F → String → Strategy F → Result (Strategy F)
  risk_limit limit rt value type s = do
    let rule : RiskRule F = record {
      name = risk_name limit;
      value = some value;
      value_type = some type;
      direction = none;
    }
    let fields : Fields F = record no_fields {
      risk_rule = some (risk_name limit);
      risk_value = some value;
      risk_unit = some type;
      risk_scope = some (risk_scope limit);
    }
    w ← record_strategy_intent ct rt "risk" (risk_name limit) fields none s
    ok (record w { risk_rules = w.risk_rules ++ rule ∷ [] })
