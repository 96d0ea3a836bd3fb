-- ===== src/Core/Runtime/Lifecycle.antt =====
-- The life of a bar: begin_bar or begin_realtime_bar with its ticks, then end_bar.
pub mod History
pub mod Total
pub mod Run
use pinelib.Prelude.{
  Bool, List, Result, String, [], false, int_eq, nat_eq, none, not, ok, or_raise, pair_eq, raise,
  raise_if, runtime_error, some, string_eq, true, ◌++◌, ◌==◌, ◌>>=◌, ◌>>◌, ◌∷◌,
}
use pinelib.Prelude.Int.{ℤ, ltb_ℤ, negsuc, pos, ◌+ℤ◌, ◌-ℤ◌}
use pinelib.Prelude.Dict.{get, put}
use pinelib.Core.Value.{Float, na}
use pinelib.Core.Bar.{Bar, with_time_close}
use pinelib.Core.Runtime.State.{Runtime, BarStateInfo, RuntimeConfig, SymbolInfo, TimeframeInfo}
use pinelib.Core.Runtime.Registry.{series, commit_all, reopen_all, set_builtin_current}

abbrev pub default_barstate : BarStateInfo
default_barstate = record {
  isfirst = false;
  islast = true;
  ishistory = true;
  isrealtime = false;
  isnew = true;
  isconfirmed = false;
  islastconfirmedhistory = false;
}

-- The bar state that opening a bar sets.
abbrev pub opened_barstate : Bool → ℤ → BarStateInfo
opened_barstate is_realtime exposed_index = record {
  isfirst = exposed_index == pos 0;
  islast = true;
  ishistory = not is_realtime;
  isrealtime = is_realtime;
  isnew = true;
  isconfirmed = false;
  islastconfirmedhistory = false;
}

module _ {F S : Type 0} where
  unfoldable pub exposed_bar_index : Runtime F S → ℤ → ℤ
  exposed_bar_index rt local_index = local_index +ℤ rt.bar_index_offset

  unfoldable pub set_last_confirmed_history : Bool → Runtime F S → Runtime F S
  set_last_confirmed_history value rt = record rt {
    barstate = record (rt.barstate) { islastconfirmedhistory = value };
  }

  unfoldable pub guard_recalc_count : ℤ → Runtime F S → Result (Unit {0})
  guard_recalc_count count rt =
      raise_if (ltb_ℤ rt.config.max_recalculations_per_bar count) runtime_error

  unfoldable pub get_indicator_state : String → (Unit {0} → S) → Runtime F S → S × Runtime F S
  get_indicator_state state_id factory rt = elim (get state_id rt.indicator_state) [
    | some state ↦ (state, rt)
    | none ↦
        (factory tt, record rt { indicator_state = put state_id (factory tt) rt.indicator_state })
  ]

  unfoldable pub get_varip_state : String → (Unit {0} → S) → Runtime F S → S × Runtime F S
  get_varip_state state_id factory rt = elim (get state_id rt.varip_state) [
    | some state ↦ (state, rt)
    | none ↦ (factory tt, record rt { varip_state = put state_id (factory tt) rt.varip_state })
  ]

  unfoldable pub reset_varip_state : Runtime F S → Runtime F S
  reset_varip_state rt = record rt { varip_state = [] }

  unfoldable pub end_bar : Runtime F S → Result (Runtime F S)
  unfolding exposed_bar_index
  end_bar rt = elim rt.current_bar [
    | none ↦ raise runtime_error
    | some bar ↦ do
      reg ← commit_all rt.barstate.isrealtime rt.commit_order rt.series_registry
      ok (record rt {
        series_registry = reg;
        bar_index = rt.bar_index +ℤ pos 1;
        barstate = record {
          isfirst = exposed_bar_index rt (rt.bar_index +ℤ pos 1) == pos 0;
          islast = true;
          ishistory = not rt.barstate.isrealtime;
          isrealtime = rt.barstate.isrealtime;
          isnew = false;
          isconfirmed = true;
          islastconfirmedhistory = rt.barstate.islastconfirmedhistory;
        };
      })
  ]

module _ {F S : Type 0} (fl : Float F) where
  -- The bar with its close time inferred from the timeframe.
  unfoldable pub inferred_bar : Runtime F S → Bar F → Result (Bar F)
  inferred_bar rt bar = do
    raise_if (not rt.config.allow_incomplete_bar_time_close) runtime_error
    interval ← or_raise rt.timeframe.interval_ms runtime_error
    with_time_close fl (pos bar.time +ℤ pos interval -ℤ pos 1) bar

  unfoldable pub normalize_bar : Runtime F S → Bar F → Result (Bar F)
  unfolding inferred_bar
  normalize_bar rt bar = elim bar.time_close [ none ↦ inferred_bar rt bar | some _ ↦ ok bar ]

  -- The body that `begin_bar` and `begin_realtime_bar` share.
  open_bar : Bool → Bar F → Runtime F S → Result (Runtime F S)
  unfolding exposed_bar_index
  open_bar is_realtime bar rt = do
    effective_bar ← normalize_bar rt bar
    let exposed_index = exposed_bar_index rt (rt.bar_index +ℤ pos 1)
    reg ← set_builtin_current effective_bar exposed_index (reopen_all rt.series_registry)
    ok (record rt {
      current_bar = some effective_bar;
      chart_bars = rt.chart_bars ++ effective_bar ∷ [];
      barstate = opened_barstate is_realtime exposed_index;
      series_registry = reg;
    })

  unfoldable pub begin_bar : Bar F → Runtime F S → Result (Runtime F S)
  unfolding open_bar
  begin_bar = open_bar false

  unfoldable pub begin_realtime_bar : Bar F → Runtime F S → Result (Runtime F S)
  unfolding open_bar
  begin_realtime_bar = open_bar true

-- The series that the constructor registers.
abbrev builtin_dtypes : List (String × String)
builtin_dtypes =
    ("open", "float")
    ∷ ("high", "float")
    ∷ ("low", "float")
    ∷ ("close", "float")
    ∷ ("volume", "float")
    ∷ ("time", "int")
    ∷ ("time_close", "int")
    ∷ ("bar_index", "int")
    ∷ []

module _ {F S : Type 0} where
  register_all : List (String × String) → Runtime F S → Result (Runtime F S)
  register_all [] rt = ok rt
  register_all ((name, dtype) ∷ rest) rt = do
    r ← series name dtype na none rt
    register_all rest r.1

  -- `PineRuntime(...)`
  unfoldable pub new_runtime :
      SymbolInfo F → TimeframeInfo → RuntimeConfig → ℤ → Result (Runtime F S)
  unfolding register_all
  new_runtime symbol timeframe config offset = register_all builtin_dtypes (record {
    syminfo = symbol;
    timeframe = timeframe;
    config = config;
    bar_index_offset = offset;
    bar_index = negsuc 0;
    current_bar = none;
    chart_bars = [];
    series_registry = [];
    commit_order = [];
    indicator_state = [];
    varip_state = [];
    barstate = default_barstate;
    request_depth = 0;
    request_namespace = none;
  })
