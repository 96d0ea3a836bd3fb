-- ===== src/Core/Runtime/Realtime.antt =====
-- Ticks of a realtime bar: `update_realtime_tick`.
pub mod Bounds
pub mod Ticks
use pinelib.Prelude.{
  ℕ, List, Option, Result, false, int_eq, length, nat_eq, none, not, ok, pair_eq, raise, raise_if,
  runtime_error, set, some, string_eq, true, ◌-◌, ◌==◌, ◌>>=◌, ◌>>◌,
}
use pinelib.Prelude.Int.{ℤ, ltb_ℤ, pos, ◌+ℤ◌}
use pinelib.Core.Value.{Float}
use pinelib.Core.Bar.{Bar, make_bar, py_max, py_min}
use pinelib.Core.Runtime.State.{Runtime, TickUpdate}
use pinelib.Core.Runtime.Registry.{set_builtin_current}
use pinelib.Core.Runtime.Lifecycle.{exposed_bar_index}

module _ {F : Type 0} where
  -- The guards on a tick's time.
  unfoldable pub check_tick_time : Option ℤ → Bar F → Result (Unit {0})
  check_tick_time none bar = ok tt
  check_tick_time (some time) bar = do
    raise_if (ltb_ℤ time (pos bar.time)) runtime_error
    elim bar.time_close [ none ↦ ok tt | some u ↦ raise_if (ltb_ℤ (pos u) time) runtime_error ]

  -- `bars[-1] = bar`
  abbrev pub set_last : List (Bar F) → Bar F → List (Bar F)
  set_last bars bar = set bars (length bars - 1) bar

  abbrev pub close_of : Bar F → Option ℤ
  close_of bar = elim bar.time_close [ none ↦ none | some u ↦ some (pos u) ]

module _ {F : Type 0} (fl : Float F) where
  -- The active bar as a tick changes it.
  unfoldable pub ticked_bar : TickUpdate F → Bar F → Result (Bar F)
  ticked_bar tick bar =
      make_bar fl (pos bar.time) bar.open_price (py_max fl bar.high tick.price)
        (py_min fl bar.low tick.price) tick.price (fl.add bar.volume tick.volume) (close_of bar)

module _ {F S : Type 0} (fl : Float F) where
  unfoldable pub update_realtime_tick : TickUpdate F → Runtime F S → Result (Bar F × Runtime F S)
  unfolding exposed_bar_index check_tick_time ticked_bar
  update_realtime_tick tick rt = elim rt.current_bar [
    | none ↦ raise runtime_error
    | some bar ↦ do
      raise_if (not rt.barstate.isrealtime) runtime_error
      check_tick_time tick.time bar
      updated ← ticked_bar fl tick bar
      let exposed_index = exposed_bar_index rt (rt.bar_index +ℤ pos 1)
      reg ← set_builtin_current updated exposed_index rt.series_registry
      ok (
        updated,
        record rt {
          current_bar = some updated;
          chart_bars = set_last rt.chart_bars updated;
          barstate = record {
            isfirst = exposed_index == pos 0;
            islast = true;
            ishistory = false;
            isrealtime = true;
            isnew = false;
            isconfirmed = tick.is_final;
            islastconfirmedhistory = false;
          };
          series_registry = reg;
        },
      )
  ]
