-- ===== src/Tests/Strategy.antt =====
-- Runs of a strategy on concrete inputs.
use pinelib.Prelude.{
  some, ◌==◌, ℕ, [], false, none, ok, ok_value, refl, true, ◌∷◌, ◌≡◌, string_eq, nat_eq, int_eq,
  pair_eq, option_eq, list_eq,
}
use pinelib.Prelude.Int.{pos}
use pinelib.Core.Value.{int}
use pinelib.Core.Runtime.State.{Runtime}
use pinelib.Strategy.Models.{
  StrategyDeclaration, new_scalar, commit_values, scalar_at, scalar_at-commit_values, set_scalar,
}
use pinelib.Intent.Tape.{set_series_identity}
use pinelib.Intent.Tape.Record.{record_intent}
use pinelib.Strategy.Context.{record_strategy_intent, Strategy}
use pinelib.Strategy.Orders.{cancel_all_orders, close_all_orders}
use pinelib.Strategy.Calls.{Calls, cancelled_all, more, stay}
use pinelib.Strategy.Calls.Lasting.{Calls-OrdersLast, OrdersLast}
use pinelib.Strategy.Attach.{
  has_unsupported, attach_intent_runtime_identity, sync_runtime_strategy_flags, validate_settings,
  Reading, attach_runtime,
}
use pinelib.Strategy.Attach.Flags.{HasFlags, attach_runtime-HasFlags}
use pinelib.Tests.Data.{whole}
use pinelib.Tests.Intent.{blank, contracts}
use pinelib.Tests.Runtime.{live}

abbrev pub declaration : StrategyDeclaration ℕ
declaration = record {
  initial_capital = 1000;
  default_qty_value = 1;
  process_orders_on_close = true;
  calc_on_order_fills = false;
  calc_on_every_tick = false;
  backtest_fill_limits_assumption = none;
  close_entries_rule = "FIFO";
  margin_long = 100;
  margin_short = 50;
  fill_orders_on_standard_ohlc = none;
  max_lines_count = none;
  max_labels_count = none;
  max_boxes_count = none;
  strict_tv_parity = true;
}

abbrev pub idle : Strategy ℕ
idle = record {
  declaration = declaration;
  attached = true;
  pending_orders = [];
  risk_rules = [];
  closedtrades = record { current = int (pos 0); history = [] };
  ledger_view = none;
  series_id_explicit = true;
  instrument_id_explicit = false;
  timeframe_explicit = false;
  intent_phase = "BAR_BEGIN";
  intent_recalc_iteration = pos 0;
  intent_tape = blank;
}

abbrev closing : Strategy ℕ
closing = ok_value idle (close_all_orders whole contracts live true none none idle)

closing_ok : close_all_orders whole contracts live true none none idle ≡ ok closing
unfolding close_all_orders record_strategy_intent record_intent
closing_ok = refl

abbrev emptied : Strategy ℕ
emptied = ok_value closing (cancel_all_orders contracts live none closing)

emptied_ok : cancel_all_orders contracts live none closing ≡ ok emptied
unfolding cancel_all_orders record_strategy_intent record_intent close_all_orders
emptied_ok = refl

emptied-Calls : Calls ℕ whole contracts closing emptied
emptied-Calls =
    more closing emptied emptied (cancelled_all live none closing emptied emptied_ok) (stay emptied)

Calls-OrdersLast_example : OrdersLast closing.pending_orders emptied.pending_orders
Calls-OrdersLast_example = Calls-OrdersLast ℕ whole contracts closing emptied emptied-Calls

scalar_at-commit_values_example :
    scalar_at {N = ℕ} 0
      (set_scalar 9 (commit_values (5 ∷ 6 ∷ 7 ∷ []) (new_scalar {N = ℕ} 0)))
      (pos 2)
    ≡ ok 6
scalar_at-commit_values_example = scalar_at-commit_values 0 (5 ∷ 6 ∷ 7 ∷ []) 9 2

abbrev pub reading : Reading ℕ
reading = record {
  decimal_float = λ s. 1;
  same_decimal = λ a b. a == b;
  slashes_to_colons = λ s. s;
  after_last_colon = λ s. s;
}

abbrev detached : Strategy ℕ
detached = record idle { attached = false }

abbrev attached_pair : Runtime ℕ ℕ × Strategy ℕ
attached_pair = (attach_runtime whole reading contracts live detached).0

attached_ok :
    attach_runtime whole reading contracts live detached
    ≡ ((attached_pair.0, attached_pair.1), ok tt)
unfolding attach_runtime attach_intent_runtime_identity sync_runtime_strategy_flags
    validate_settings set_series_identity
attached_ok = refl

attach_runtime-HasFlags_example :
    HasFlags declaration attached_pair.0.config
    × (attached_pair.1.attached ≡ true)
    × (attached_pair.1.declaration ≡ declaration)
    × (has_unsupported whole declaration ≡ true → true ≡ false)
attach_runtime-HasFlags_example =
    attach_runtime-HasFlags whole reading contracts live attached_pair.0 detached attached_pair.1
      attached_ok

-- A runtime whose flag for order fills is not the strategy's.
abbrev clashing : Runtime ℕ ℕ
clashing = record live { config = record live.config { calc_on_order_fills = some true } }

abbrev refused : Runtime ℕ ℕ × Strategy ℕ
refused = (attach_runtime whole reading contracts clashing detached).0
