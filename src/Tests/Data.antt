-- ===== src/Tests/Data.antt =====
-- Concrete data for the runs: prices that are natural numbers, bars, a symbol and a configuration.
use pinelib.Prelude.{none, some, ℕ, List, [], arith, false, ltb, nat_beq, some, suc, ◌+◌, ◌-◌, ◌∷◌}
use pinelib.Prelude.Int.{ℤ, negsuc, pos}
use pinelib.Core.Value.{Float}
use pinelib.Core.Bar.{Bar}
use pinelib.Core.Series.{unsupported}
use pinelib.Core.Runtime.State.{RuntimeConfig, SymbolInfo, TimeframeInfo}
use pinelib.Core.Runtime.Realtime.Bounds.{IsOrder}

abbrev magnitude : ℤ → ℕ
magnitude (pos n) = n
magnitude (negsuc n) = suc n

abbrev pub whole : Float ℕ
whole = record {
  is_nan = λ a. false;
  lt = ltb;
  add = λ a b. a + b;
  sub = λ a b. a - b;
  of_int = magnitude;
  is_zero = λ a. nat_beq a 0;
}

pub whole-IsOrder : IsOrder whole
whole-IsOrder = record {
  lt_asymm = λ a b p q h. ground arith;
  lt_irrefl = λ a p. ground arith;
  not_lt_trans = λ a b c p q r h k. ground arith;
}

-- A bar of the times and the close, its prices two to either side.
abbrev pub bar : ℕ → ℕ → ℕ → Bar ℕ
bar from until price = record {
  time = from;
  open_price = price;
  high = price + 2;
  low = price - 2;
  close = price;
  volume = 7;
  time_close = some until;
}

abbrev pub three_bars : List (Bar ℕ)
three_bars = bar 0 10 20 ∷ bar 10 20 21 ∷ bar 20 30 25 ∷ []

abbrev pub btc : SymbolInfo ℕ
btc = record {
  tickerid = "BTC";
  timezone = "UTC";
  session = "24x7";
  mintick = 1;
  exchange = some "X";
  type = "crypto";
  currency = some "USD";
  pointvalue = 1;
}

abbrev pub minutes : TimeframeInfo
minutes = record { value = "1"; interval_ms = some 10 }

abbrev pub config : RuntimeConfig
config = record {
  supports_nested_security = false;
  reference_history_mode = unsupported;
  max_recalculations_per_bar = pos 5;
  allow_incomplete_bar_time_close = false;
  strict_tv_parity = false;
  diagnostics = [];
  process_orders_on_close = none;
  calc_on_order_fills = none;
  calc_on_every_tick = none;
  semantic_profile = "strict_5x";
}
