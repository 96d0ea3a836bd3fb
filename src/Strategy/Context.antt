-- ===== src/Strategy/Context.antt =====
-- The state of a StrategyContext and how it records an intent (pinelib/strategy/context.py and
-- pinelib/strategy/intent_context.py). The runtime that a strategy is attached to is an argument of
-- the operations that read it.
use pinelib.Prelude.{
  ℕ, string_eq, int_eq, Bool, List, Option, Result, String, [], if◌then◌else◌, nat_eq, none, ok,
  option_eq, or_else, pair_eq, raise, some, unsupported_strategy_setting, ◌>>=◌, ◌∷◌,
}
use pinelib.Prelude.Int.{ℤ, negsuc, pos}
use pinelib.Prelude.Dict.{get}
use pinelib.Core.Value.{Value, int}
use pinelib.Core.Runtime.State.{Runtime}
use pinelib.Intent.Contracts.{Contracts, SpanInput, unknown, Fields}
use pinelib.Intent.Tape.{Tape, begin_callback, commit_bar}
use pinelib.Intent.Tape.Record.{Command, record_intent}
use pinelib.Strategy.Models.{Order, RiskRule, ScalarSeries, StrategyDeclaration, commit_scalar}
use pinelib.Strategy.Ledger.{LedgerView}

pub record Strategy (F : Type 0) : Type 0 where
  pub declaration : StrategyDeclaration F
  pub attached : Bool
  pub pending_orders : List (Order F)
  pub risk_rules : List (RiskRule F)
  pub closedtrades : ScalarSeries (Value F)
  pub ledger_view : Option (LedgerView F)
  pub series_id_explicit : Bool
  pub instrument_id_explicit : Bool
  pub timeframe_explicit : Bool
  pub intent_phase : String
  pub intent_recalc_iteration : ℤ
  pub intent_tape : Tape

-- Arguments of `_record_intent` that are not given.
abbrev pub no_fields : {F : Type 0} → Fields F
no_fields = record {
  order_id = none;
  direction = none;
  qty = none;
  qty_percent = none;
  stop = none;
  limit = none;
  profit = none;
  loss = none;
  trail_price = none;
  trail_points = none;
  trail_offset = none;
  from_entry = none;
  oca_name = none;
  oca_type = none;
  comment = none;
  immediately = none;
  risk_rule = none;
  risk_value = none;
  risk_unit = none;
  risk_scope = none;
}

-- `max(0, …)`
abbrev pub clipped : ℤ → ℕ
clipped (pos n) = n
clipped (negsuc n) = 0

module _ {F S : Type 0} where
  -- `runtime.bar_index_series.current` if it is an int, and the runtime's own index otherwise
  abbrev pub exposed_index : Runtime F S → ℤ
  exposed_index rt = elim (get "bar_index" rt.series_registry) [
    | none ↦ rt.bar_index
    | some s ↦ elim s.current [ int i ↦ i | _ ↦ rt.bar_index ]
  ]

  abbrev pub bar_time : Runtime F S → ℕ
  bar_time rt = elim rt.current_bar [ none ↦ 0 | some bar ↦ bar.time ]

  -- `_intent_bar_identity`
  unfoldable pub intent_bar_identity : Runtime F S → Strategy F → ℕ × ℕ
  intent_bar_identity rt s =
      if s.attached then (clipped (exposed_index rt), bar_time rt) else (0, 0)

  -- The arguments of the tape's `record` that `_record_intent` passes.
  unfoldable pub intent_command :
      Runtime F S → String → String → Fields F → Option SpanInput → Strategy F → Command F
  unfolding intent_bar_identity
  intent_command rt kind command_id fields source_map s =
      let (bar_index, time) = intent_bar_identity rt s in
      record {
        kind = kind;
        command_id = command_id;
        fields = fields;
        price = none;
        origin_command_kind = none;
        bar_index = some (pos bar_index);
        bar_open_time_utc_ms = some (pos time);
        phase = some s.intent_phase;
        recalc_iteration = some s.intent_recalc_iteration;
        source_span = some (or_else source_map unknown);
        invocation_ordinal = none;
      }

module _ {F S : Type 0} (ct : Contracts F) where
  -- `_record_intent`, as the strategy with the tape after it.
  unfoldable pub record_strategy_intent :
      Runtime F S → String → String → Fields F → Option SpanInput → Strategy F → Result (Strategy F)
  unfolding intent_command
  record_strategy_intent rt kind command_id fields source_map s = do
    (tape, event) ←
        record_intent ct (intent_command rt kind command_id fields source_map s) s.intent_tape
    ok (record s { intent_tape = tape })

  -- `begin_intent_callback`: the scope is stored before the tape checks it.
  unfoldable pub begin_intent_callback :
      Runtime F S → String → ℤ → Strategy F → Strategy F × Result (Unit {0})
  unfolding intent_bar_identity
  begin_intent_callback rt phase recalc s =
      let (bar_index, time) = intent_bar_identity rt s in
      let (tape, r) = begin_callback ct (pos bar_index) (pos time) phase recalc s.intent_tape in
      (record s { intent_phase = phase; intent_recalc_iteration = recalc; intent_tape = tape }, r)

module _ {F S : Type 0} where
  unfoldable pub commit_intents_for_current_bar : Runtime F S → Strategy F → Strategy F
  unfolding intent_bar_identity
  commit_intents_for_current_bar rt s =
      let (bar_index, time) = intent_bar_identity rt s in
      record s { intent_tape = commit_bar (pos bar_index) (pos time) s.intent_tape }

module _ {F : Type 0} where
  unfoldable pub commit_scalar_history : Strategy F → Strategy F
  commit_scalar_history s = record s { closedtrades = commit_scalar s.closedtrades }

  unfoldable pub attach_strategy_ledger_view : LedgerView F → Strategy F → Strategy F
  attach_strategy_ledger_view view s = record s { ledger_view = some view }

  -- `process_orders_for_bar`: the broker is elsewhere.
  unfoldable pub process_orders_for_bar : Strategy F → Result (Unit {0})
  process_orders_for_bar s = elim s.pending_orders [
    | [] ↦ ok tt
    | _ ∷ _ ↦ raise unsupported_strategy_setting
  ]

  -- `note_calc_on_every_tick_historical_fallback`
  unfoldable pub note_historical_fallback : Strategy F → Result (Unit {0})
  note_historical_fallback s = raise unsupported_strategy_setting
