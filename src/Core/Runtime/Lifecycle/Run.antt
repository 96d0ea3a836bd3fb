-- ===== src/Core/Runtime/Lifecycle/Run.antt =====
-- A new runtime over historical bars: every bar is run, and the builtin series read them back.
use pinelib.Prelude.{
  ℕ, String, [], int_eq, nat_eq, none, ok, pair_eq, refl, some, string_eq, true, ◌≡◌, All, List,
  Option, get_elem?, is_some, length, map, or_else, ◌>>=◌, option_eq, reverse,
}
use pinelib.Prelude.Int.{ℤ, negsuc, pos, ◌+ℤ◌}
use pinelib.Prelude.Dict.{get}
use pinelib.Core.Value.{Float, na}
use pinelib.Core.Series.{Series, ReferenceHistoryMode, new_series, getitem, missing}
use pinelib.Core.Series.Timeline.{getitem-feed, IsPlain}
use pinelib.Core.Bar.{Bar}
use pinelib.Core.Runtime.State.{Runtime, RuntimeConfig, SymbolInfo, TimeframeInfo}
use pinelib.Core.Runtime.Registry.{series}
use pinelib.Core.Runtime.Registry.Laws.{listed, HasNoRepeat}
use pinelib.Core.Runtime.Lifecycle.{new_runtime}
use pinelib.Core.Runtime.Lifecycle.History.{
  run_bars, Column, column_name, time, close, column, high, low, open_price, volume,
  run_bars-column,
}
use pinelib.Core.Runtime.Lifecycle.Total.{run_bars_total, IsReady}

abbrev dtype_of : Column → String
dtype_of time = "int"
dtype_of _ = "float"

module _ {F S : Type 0} where
  -- A new runtime has the builtin series, new, and nothing else.
  record IsNew (mode : ReferenceHistoryMode) (rt : Runtime F S) : Type 0 where
    ready : IsReady rt
    no_repeat : HasNoRepeat rt.commit_order
    is_listed : (c : Column) → listed (column_name c) rt.commit_order ≡ true
    registered :
        (c : Column)
        → get (column_name c) rt.series_registry
          ≡ some (new_series (column_name c) (dtype_of c) na none (some mode))
    no_bars : rt.chart_bars ≡ []
    no_index : rt.bar_index ≡ negsuc 0

  new_runtime-IsNew :
      (symbol : SymbolInfo F) (tf : TimeframeInfo) (cfg : RuntimeConfig) (offset : ℤ)
      → (rt : Runtime F S) × (new_runtime symbol tf cfg offset ≡ ok rt)
        × IsNew cfg.reference_history_mode rt
  unfolding new_runtime series
  new_runtime-IsNew symbol tf cfg offset = (
    _,
    refl,
    record {
      ready = record {
        builtins = (refl, (refl, (refl, (refl, (refl, (refl, (refl, (refl, tt))))))));
        committed = (refl, (refl, (refl, (refl, (refl, (refl, (refl, (refl, tt))))))));
      };
      no_repeat = (refl, (refl, (refl, (refl, (refl, (refl, (refl, (refl, tt))))))));
      is_listed = elim [
        | open_price ↦ refl
        | high ↦ refl
        | low ↦ refl
        | close ↦ refl
        | volume ↦ refl
        | time ↦ refl
      ];
      registered = elim [
        | open_price ↦ refl
        | high ↦ refl
        | low ↦ refl
        | close ↦ refl
        | volume ↦ refl
        | time ↦ refl
      ];
      no_bars = refl;
      no_index = refl;
    },
  )

module _ {F : Type 0} where
  new_series-IsPlain :
      (c : Column) (mode : Option ReferenceHistoryMode)
      → IsPlain (new_series {F = F} (column_name c) (dtype_of c) na none mode)
  unfolding new_series
  new_series-IsPlain open_price mode = record {
    no_container = refl;
    readable = refl;
    supported = refl;
  }
  new_series-IsPlain _ mode = record { no_container = refl; readable = refl; supported = refl }

  missing-new_series :
      (c : Column) (mode : Option ReferenceHistoryMode)
      → missing (new_series {F = F} (column_name c) (dtype_of c) na none mode) ≡ na
  unfolding new_series
  missing-new_series open_price mode = refl
  missing-new_series _ mode = refl

  history-new_series :
      (c : Column) (mode : Option ReferenceHistoryMode)
      → (new_series {F = F} (column_name c) (dtype_of c) na none mode).history ≡ []
  unfolding new_series
  history-new_series c mode = refl

  current-new_series :
      (c : Column) (mode : Option ReferenceHistoryMode)
      → let s = new_series {F = F} (column_name c) (dtype_of c) na none mode in
        s.current ≡ missing s
  unfolding new_series
  current-new_series open_price mode = refl
  current-new_series _ mode = refl

module _ {F S : Type 0} (fl : Float F) where
  -- A new runtime runs any bars that have a close time: it holds them, its index counts them from
  -- 0, and at every offset open, high, low, close, volume and time read the bar that stood that
  -- many places before the last, or na where there is none.
  pub run_new_runtime :
      (symbol : SymbolInfo F) (tf : TimeframeInfo) (cfg : RuntimeConfig) (offset : ℤ)
      (bs : List (Bar F))
      → All (λ b. is_some b.time_close ≡ true) bs
      → (rt : Runtime F S) × ((new_runtime symbol tf cfg offset >>= run_bars fl bs) ≡ ok rt)
        × (rt.chart_bars ≡ bs)
        × (rt.bar_index ≡ negsuc 0 +ℤ pos (length bs))
        × ((c : Column) (k : ℕ)
            → (s : Series F) × (get (column_name c) rt.series_registry ≡ some s)
              × (getitem s (pos k) ≡ ok (or_else (get_elem? (reverse (map (column c) bs)) k) na)))
  run_new_runtime symbol tf cfg offset bs h =
      let (rt, en, new) = new_runtime-IsNew symbol tf cfg offset in
      let (rt', er, cb, bi) = run_bars_total fl bs rt new.ready h in
      (
        rt',
        rw en er,
        rw new.no_bars at cb,
        rw new.no_index at bi,
        λ c k.
            let mode = some cfg.reference_history_mode in
            let s0 = new_series {F = F} (column_name c) (dtype_of c) na none mode in
            let (t, ef, gt) =
              run_bars-column fl c bs rt rt' s0 new.no_repeat (new.is_listed c) (new.registered c)
                er in
            (
              t,
              gt,
              rw (missing-new_series c mode) at (
                  getitem-feed (map (column c) bs) k s0 (new_series-IsPlain c mode)
                    (history-new_series c mode) (current-new_series c mode) ef),
            ),
      )
