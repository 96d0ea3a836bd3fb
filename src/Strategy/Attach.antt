-- ===== src/Strategy/Attach.antt =====
-- Attaching a strategy to a runtime (pinelib/strategy/context.py and
-- pinelib/strategy/intent_context.py), with the identity that a strict tape demands of the runtime
-- (pinelib/execution_context.py).
pub mod Flags
pub mod Refused
use Prim.Native.String.{◌++◌ as str_append}
use pinelib.Prelude.{
  and_then, >>=-eq-ok, ok-injective, ap, sym, subst, ◌∙◌, ◌≡◌, arith, string_eq, option_eq, Bool,
  Option, Result, String, [], false, if◌then◌else◌, none, ok, raise, raise_if, some, true, not,
  value_error, unsupported_strategy_setting, ◌&&◌, ◌++◌, ◌==◌, ◌>>=◌, ◌>>◌, ◌||◌, ◌∷◌,
  builtin_runtime_error, is_some, int_eq, nat_eq, pair_eq,
}
use pinelib.Prelude.Int.{pos}
use pinelib.Core.Value.{Float}
use pinelib.Core.Runtime.State.{
  Runtime, RuntimeConfig, SymbolInfo, TimeframeInfo, unsupported_strategy_setting as setting_note,
  margin_fields_diagnostic,
}
use pinelib.Intent.Contracts.{Contracts, ExecutionContext}
use pinelib.Intent.Tape.{set_series_identity}
use pinelib.Strategy.Models.{StrategyDeclaration}
use pinelib.Strategy.Context.{Strategy}

-- Python's text and decimals, as the identity reads them: `float(Decimal(s))`, the equality of
-- `Decimal(str(a))` and `Decimal(str(b))`, `s.replace("/", ":")` and `s.rsplit(":", 1)[-1]`.
pub record Reading (F : Type 0) : Type 0 where
  pub decimal_float : String → F
  pub same_decimal : F → F → Bool
  pub slashes_to_colons : String → String
  pub after_last_colon : String → String

module _ {F : Type 0} (fl : Float F) where
  -- `a == b` on floats
  unfoldable pub float_eq : F → F → Bool
  float_eq a b = not (fl.is_nan a) && not (fl.is_nan b) && not (fl.lt a b) && not (fl.lt b a)

module _ {F : Type 0} (rd : Reading F) where
  unfoldable pub ticker : SymbolInfo F → String
  ticker info = rd.after_last_colon (rd.slashes_to_colons info.tickerid)

  unfoldable pub to_symbol_info : ExecutionContext → SymbolInfo F
  to_symbol_info x = record {
    tickerid = x.instrument_id;
    timezone = x.timezone;
    session = x.session_policy;
    mintick = rd.decimal_float x.mintick;
    exchange = some x.exchange;
    type = x.market;
    currency = some x.currency;
    pointvalue = rd.decimal_float x.pointvalue;
  }

  unfoldable pub assert_runtime_identity :
      ExecutionContext → SymbolInfo F → TimeframeInfo → Result (Unit {0})
  unfolding ticker to_symbol_info
  assert_runtime_identity x info tf =
      let expected = to_symbol_info x in
      raise_if
        (not (
          (info.tickerid == expected.tickerid)
          && (info.timezone == expected.timezone)
          && (info.session == expected.session)
          && (info.exchange == expected.exchange)
          && (info.type == expected.type)
          && (info.currency == expected.currency)
          && rd.same_decimal info.mintick expected.mintick
          && rd.same_decimal info.pointvalue expected.pointvalue
          && (ticker info == x.symbol)
          && (tf.value == x.timeframe)))
        value_error

-- `bool(configured) != bool(value)` where the option is set
abbrev pub conflicts : Option Bool → Bool → Bool
conflicts none value = false
conflicts (some true) value = not value
conflicts (some false) value = value

-- One flag of `_sync_runtime_strategy_flags`: the strategy's value, or an exception that leaves
-- the flag.
unfoldable pub synced : Bool → Option Bool → Bool → Option Bool × Result (Unit {0})
synced strict configured value =
    if conflicts configured value && strict
    then (configured, raise unsupported_strategy_setting)
    else (some value, ok tt)

module _ {F : Type 0} (d : StrategyDeclaration F) (cfg : RuntimeConfig) where
  unfoldable pub sync_on_close : RuntimeConfig × Result (Unit {0})
  unfolding synced
  sync_on_close =
      let (flag, done) =
        synced d.strict_tv_parity cfg.process_orders_on_close d.process_orders_on_close in
      (record cfg { process_orders_on_close = flag }, done)

  unfoldable pub sync_on_fills : RuntimeConfig × Result (Unit {0})
  unfolding synced
  sync_on_fills =
      let (flag, done) = synced d.strict_tv_parity cfg.calc_on_order_fills d.calc_on_order_fills in
      (record cfg { calc_on_order_fills = flag }, done)

  unfoldable pub sync_on_tick : RuntimeConfig × Result (Unit {0})
  unfolding synced
  sync_on_tick =
      let (flag, done) = synced d.strict_tv_parity cfg.calc_on_every_tick d.calc_on_every_tick in
      (record cfg { calc_on_every_tick = flag }, done)

module _ {F : Type 0} where
  -- The flags one after another: those before one that conflicts are set already.
  unfoldable pub sync_runtime_strategy_flags :
      StrategyDeclaration F → RuntimeConfig → RuntimeConfig × Result (Unit {0})
  unfolding sync_on_close sync_on_fills sync_on_tick
  sync_runtime_strategy_flags d cfg =
      and_then (sync_on_close d cfg) (λ a. and_then (sync_on_fills d a) (sync_on_tick d))

module _ {F : Type 0} (fl : Float F) where
  -- Whether a setting is one that the code does not support.
  unfoldable pub has_unsupported : StrategyDeclaration F → Bool
  unfolding float_eq
  has_unsupported d =
      elim d.backtest_fill_limits_assumption [
        | none ↦ false
        | some a ↦ not (float_eq fl a (fl.of_int (pos 0)))
      ]
      || not (d.close_entries_rule == "FIFO" || d.close_entries_rule == "ANY")
      || is_some d.fill_orders_on_standard_ohlc

  unfoldable pub has_own_margin : StrategyDeclaration F → Bool
  unfolding float_eq
  has_own_margin d =
      not (float_eq fl d.margin_long (fl.of_int (pos 100)))
      || not (float_eq fl d.margin_short (fl.of_int (pos 100)))

  unfoldable pub validate_settings :
      StrategyDeclaration F → RuntimeConfig → RuntimeConfig × Result (Unit {0})
  unfolding has_unsupported has_own_margin
  validate_settings d cfg =
      let noted =
        if has_unsupported d then cfg.diagnostics ++ setting_note ∷ [] else cfg.diagnostics in
      let all = if has_own_margin d then noted ++ margin_fields_diagnostic ∷ [] else noted in
      if has_unsupported d && (d.strict_tv_parity || cfg.strict_tv_parity)
      then (cfg, raise unsupported_strategy_setting)
      else (record cfg { diagnostics = all }, ok tt)

module _ {F S : Type 0} (ct : Contracts F) where
  unfoldable pub attach_intent_runtime_identity : Runtime F S → Strategy F → Result (Strategy F)
  attach_intent_runtime_identity rt s = do
    let own = s.intent_tape.identity
    let instrument = if s.instrument_id_explicit then own.instrument_id else rt.syminfo.tickerid
    let timeframe = if s.timeframe_explicit then own.timeframe else rt.timeframe.value
    let joined = str_append (str_append instrument ":") timeframe
    let series = if s.series_id_explicit then own.series_id else joined
    tape ←
        set_series_identity ct series instrument timeframe (some rt.config.semantic_profile)
          s.intent_tape
    ok (record s { intent_tape = tape })

module _ {F S : Type 0} (fl : Float F) (rd : Reading F) (ct : Contracts F) where
  -- The strict tape's check; the constructor of a strict tape demands its context.
  unfoldable pub check_strict_identity : Runtime F S → Strategy F → Result (Unit {0})
  check_strict_identity rt s =
      if s.intent_tape.identity.strict_production
      then elim s.intent_tape.context [
        | none ↦ raise builtin_runtime_error
        | some x ↦ assert_runtime_identity rd x rt.syminfo rt.timeframe
      ]
      else ok tt

  -- A procedure on the runtime's configuration.
  abbrev pub on_config :
      (RuntimeConfig → RuntimeConfig × Result (Unit {0}))
      → Runtime F S × Strategy F
      → (Runtime F S × Strategy F) × Result (Unit {0})
  on_config change (rt, s) =
      let (cfg, done) = change rt.config in ((record rt { config = cfg }, s), done)

  -- The tape takes its identity at once or not at all.
  unfoldable pub name_tape :
      Runtime F S × Strategy F → (Runtime F S × Strategy F) × Result (Unit {0})
  unfolding attach_intent_runtime_identity
  name_tape (rt, s) = elim (attach_intent_runtime_identity ct rt s) [
    | raise e ↦ ((rt, s), raise e)
    | ok named ↦ ((rt, named), ok tt)
  ]

  -- `attach_runtime`, without the limits that it sets on the drawings. An exception leaves what
  -- was done before it; `attached` stands for the two references, which are set together.
  unfoldable pub attach_runtime :
      Runtime F S → Strategy F → (Runtime F S × Strategy F) × Result (Unit {0})
  unfolding check_strict_identity name_tape
  attach_runtime rt s = elim (check_strict_identity rt s) [
    | raise e ↦ ((rt, s), raise e)
    | ok checked ↦
        and_then
          (on_config (sync_runtime_strategy_flags s.declaration) (rt, record s { attached = true }))
          (λ flagged. and_then (on_config (validate_settings fl s.declaration) flagged) name_tape)
  ]
