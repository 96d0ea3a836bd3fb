-- ===== src/Strategy/Ledger.antt =====
-- Reading the broker's ledger (pinelib/strategy/context.py). The view belongs to the backtest
-- engine: what its attributes hold, converted by `float`, `int` and `str`, is a parameter, with
-- none where the view lacks the attribute.
use pinelib.Prelude.{ℕ, List, Option, Result, String, ledger_unavailable_error, ok, or_raise, ◌>>=◌}
use pinelib.Prelude.Int.{ℤ, negsuc, pos}
use pinelib.Core.Value.{Value, na}

pub record LedgerView (F : Type 0) : Type 0 where
  pub floats : String → Option F
  pub ints : String → Option ℤ
  pub texts : String → Option (Option String)
  pub sequences : String → Option (List (Value F))
  pub indexed : String → Option (ℕ → Option (Value F))

-- The properties of a strategy that read the ledger.
pub data FloatMetric : Type 0 where
  equity netprofit openprofit grossprofit grossloss position_size : FloatMetric
  position_avg_price max_drawdown max_runup : FloatMetric

pub data IntMetric : Type 0 where
  opentrades wintrades losstrades eventrades : IntMetric

pub data SequenceMetric : Type 0 where
  fills closed_trade_log open_trade_log : SequenceMetric

abbrev pub float_name : FloatMetric → String
float_name equity = "equity"
float_name netprofit = "netprofit"
float_name openprofit = "openprofit"
float_name grossprofit = "grossprofit"
float_name grossloss = "grossloss"
float_name position_size = "position_size"
float_name position_avg_price = "position_avg_price"
float_name max_drawdown = "max_drawdown"
float_name max_runup = "max_runup"

abbrev pub int_name : IntMetric → String
int_name opentrades = "opentrades"
int_name wintrades = "wintrades"
int_name losstrades = "losstrades"
int_name eventrades = "eventrades"

abbrev pub sequence_name : SequenceMetric → String
sequence_name fills = "fills"
sequence_name closed_trade_log = "closed_trade_log"
sequence_name open_trade_log = "open_trade_log"

-- The methods of a strategy that read one trade of the ledger.
pub data TradeMetric : Type 0 where
  closedtrades_entry_price closedtrades_exit_price closedtrades_entry_time : TradeMetric
  closedtrades_exit_time closedtrades_profit closedtrades_profit_percent : TradeMetric
  closedtrades_net_profit closedtrades_commission closedtrades_qty closedtrades_side : TradeMetric
  closedtrades_size closedtrades_entry_id closedtrades_exit_id : TradeMetric
  closedtrades_entry_comment closedtrades_exit_comment closedtrades_max_runup : TradeMetric
  closedtrades_max_drawdown closedtrades_entry_bar_index : TradeMetric
  closedtrades_exit_bar_index : TradeMetric
  opentrades_entry_price opentrades_profit opentrades_profit_percent : TradeMetric
  opentrades_commission opentrades_qty opentrades_side opentrades_entry_id : TradeMetric
  opentrades_exit_price opentrades_exit_time opentrades_exit_id opentrades_size : TradeMetric
  opentrades_max_runup opentrades_max_drawdown opentrades_entry_bar_index : TradeMetric

-- The name that each method asks the view for; the net profit is the profit.
abbrev pub trade_name : TradeMetric → String
trade_name closedtrades_entry_price = "closedtrades_entry_price"
trade_name closedtrades_exit_price = "closedtrades_exit_price"
trade_name closedtrades_entry_time = "closedtrades_entry_time"
trade_name closedtrades_exit_time = "closedtrades_exit_time"
trade_name closedtrades_profit = "closedtrades_profit"
trade_name closedtrades_profit_percent = "closedtrades_profit_percent"
trade_name closedtrades_net_profit = "closedtrades_profit"
trade_name closedtrades_commission = "closedtrades_commission"
trade_name closedtrades_qty = "closedtrades_qty"
trade_name closedtrades_side = "closedtrades_side"
trade_name closedtrades_size = "closedtrades_size"
trade_name closedtrades_entry_id = "closedtrades_entry_id"
trade_name closedtrades_exit_id = "closedtrades_exit_id"
trade_name closedtrades_entry_comment = "closedtrades_entry_comment"
trade_name closedtrades_exit_comment = "closedtrades_exit_comment"
trade_name closedtrades_max_runup = "closedtrades_max_runup"
trade_name closedtrades_max_drawdown = "closedtrades_max_drawdown"
trade_name closedtrades_entry_bar_index = "closedtrades_entry_bar_index"
trade_name closedtrades_exit_bar_index = "closedtrades_exit_bar_index"
trade_name opentrades_entry_price = "opentrades_entry_price"
trade_name opentrades_profit = "opentrades_profit"
trade_name opentrades_profit_percent = "opentrades_profit_percent"
trade_name opentrades_commission = "opentrades_commission"
trade_name opentrades_qty = "opentrades_qty"
trade_name opentrades_side = "opentrades_side"
trade_name opentrades_entry_id = "opentrades_entry_id"
trade_name opentrades_exit_price = "opentrades_exit_price"
trade_name opentrades_exit_time = "opentrades_exit_time"
trade_name opentrades_exit_id = "opentrades_exit_id"
trade_name opentrades_size = "opentrades_size"
trade_name opentrades_max_runup = "opentrades_max_runup"
trade_name opentrades_max_drawdown = "opentrades_max_drawdown"
trade_name opentrades_entry_bar_index = "opentrades_entry_bar_index"

-- The index that such a method is given.
pub data TradeIndex (F : Type 0) : Type 0 where
  int : ℤ → TradeIndex F
  float : F → TradeIndex F

module _ {F : Type 0} where
  unfoldable pub require_ledger_view : Option (LedgerView F) → Result (LedgerView F)
  require_ledger_view view = or_raise view ledger_unavailable_error

  -- `_ledger_float`, `_ledger_int`, `_ledger_optional_str`, `_ledger_sequence`
  unfoldable pub ledger_float : FloatMetric → Option (LedgerView F) → Result F
  unfolding require_ledger_view
  ledger_float name view = do
    v ← require_ledger_view view
    or_raise (v.floats (float_name name)) ledger_unavailable_error

  unfoldable pub ledger_int : IntMetric → Option (LedgerView F) → Result ℤ
  unfolding require_ledger_view
  ledger_int name view = do
    v ← require_ledger_view view
    or_raise (v.ints (int_name name)) ledger_unavailable_error

  unfoldable pub position_entry_name : Option (LedgerView F) → Result (Option String)
  unfolding require_ledger_view
  position_entry_name view = do
    v ← require_ledger_view view
    or_raise (v.texts "position_entry_name") ledger_unavailable_error

  unfoldable pub ledger_sequence : SequenceMetric → Option (LedgerView F) → Result (List (Value F))
  unfolding require_ledger_view
  ledger_sequence name view = do
    v ← require_ledger_view view
    or_raise (v.sequences (sequence_name name)) ledger_unavailable_error

  -- `_ledger_metric`
  unfoldable pub ledger_metric : String → ℕ → Option (LedgerView F) → Result (Value F)
  unfolding require_ledger_view
  ledger_metric name index view = do
    v ← require_ledger_view view
    method ← or_raise (v.indexed name) ledger_unavailable_error
    or_raise (method index) ledger_unavailable_error

  -- `int(index)`: Python's int of a float is a parameter, which raises where there is none.
  unfoldable pub trade_index : (F → Result ℤ) → TradeIndex F → Result ℤ
  trade_index truncated (int n) = ok n
  trade_index truncated (float x) = truncated x

  -- `closedtrades_…(index)` and `opentrades_…(index)`, through `_ledger_indexed_or_na`
  unfoldable pub trade_metric :
      (F → Result ℤ) → TradeMetric → TradeIndex F → Option (LedgerView F) → Result (Value F)
  unfolding trade_index ledger_metric
  trade_metric truncated metric index view = do
    idx ← trade_index truncated index
    elim idx [ negsuc _ ↦ ok na | pos n ↦ ledger_metric (trade_name metric) n view ]
