-- ===== src/Tests/Runtime.antt =====
-- Runs of a runtime on concrete inputs.
use pinelib.Prelude.{
  ℕ, string_eq, List, String, [], arith, false, ltb, map, none, ok, refl, some, true, ◌∷◌, ◌≡◌,
}
use pinelib.Prelude.Int.{negsuc, pos, ◌+ℤ◌}
use pinelib.Core.Value.{na}
use pinelib.Core.Bar.{Bar}
use pinelib.Core.Series.{Series}
use pinelib.Core.Runtime.State.{Runtime, TickUpdate}
use pinelib.Core.Runtime.Lifecycle.History.{run_bars}
use pinelib.Core.Runtime.Lifecycle.Total.{run_bars_total, IsReady}
use pinelib.Core.Runtime.Realtime.{update_realtime_tick, check_tick_time}
use pinelib.Core.Runtime.Realtime.Bounds.{updated_bar}
use pinelib.Core.Runtime.Realtime.Ticks.{
  feed_ticks_total, Covers, IsActive, IsAdmissible, SameHistory, feed_ticks,
  update_realtime_tick_total,
}
use pinelib.Tests.Data.{whole, bar, btc, config, minutes, three_bars, whole-IsOrder}

abbrev plain : String → Series ℕ
plain name = record {
  name = name;
  dtype = "float";
  initial = na;
  type_info = none;
  reference_mode = none;
  current = na;
  history = [];
  between_bars = false;
}

abbrev names : List String
names = "open" ∷ "high" ∷ "low" ∷ "close" ∷ "volume" ∷ "time" ∷ "time_close" ∷ "bar_index" ∷ []

-- A runtime in a realtime bar that has no committed bar before it.
abbrev pub live : Runtime ℕ ℕ
live = record {
  syminfo = btc;
  timeframe = minutes;
  config = config;
  bar_index_offset = pos 0;
  bar_index = negsuc 0;
  current_bar = some (bar 0 10 20);
  chart_bars = bar 0 10 20 ∷ [];
  series_registry = map (λ n. (n, plain n)) names;
  commit_order = names;
  indicator_state = [];
  varip_state = [];
  barstate = record {
    isfirst = true;
    islast = true;
    ishistory = false;
    isrealtime = true;
    isnew = true;
    isconfirmed = false;
    islastconfirmedhistory = false;
  };
  request_depth = 0;
  request_namespace = none;
}

pub live-IsReady : IsReady live
live-IsReady = record {
  builtins = (refl, (refl, (refl, (refl, (refl, (refl, (refl, (refl, tt))))))));
  committed = (refl, (refl, (refl, (refl, (refl, (refl, (refl, (refl, tt))))))));
}

live-IsActive : IsActive whole live (bar 0 10 20)
live-IsActive = record {
  active = refl;
  realtime = refl;
  ready = live-IsReady;
  valid = record { high_bound = refl; low_bound = refl; close_time = λ u e. ground arith };
  numeric = record { open_price = refl; high = refl; low = refl; close = refl };
}

abbrev up : TickUpdate ℕ
up = record { price = 27; volume = 1; time = some (pos 4); is_final = false }

abbrev down : TickUpdate ℕ
down = record { price = 11; volume = 1; time = none; is_final = true }

up-IsAdmissible : IsAdmissible whole (bar 0 10 20) up
unfolding check_tick_time
up-IsAdmissible = (refl, refl)

down-IsAdmissible : IsAdmissible whole (bar 0 10 20) down
unfolding check_tick_time
down-IsAdmissible = (refl, refl)

update_realtime_tick_total_example :
    (rt : Runtime ℕ ℕ) × (update_realtime_tick whole up live
      ≡ ok (updated_bar whole whole-IsOrder up (bar 0 10 20), rt))
    × IsActive whole rt (updated_bar whole whole-IsOrder up (bar 0 10 20))
    × SameHistory live rt
    × (rt.bar_index ≡ negsuc 0)
    × (rt.barstate.isconfirmed ≡ false)
update_realtime_tick_total_example =
    update_realtime_tick_total whole whole-IsOrder up live (bar 0 10 20) live-IsActive
      up-IsAdmissible

feed_ticks_total_example :
    (rt : Runtime ℕ ℕ) × (b : Bar ℕ) × (feed_ticks whole (up ∷ down ∷ []) live ≡ ok rt)
    × IsActive whole rt b
    × ((b.open_price ≡ 20) × (b.time ≡ 0) × (b.time_close ≡ some 10))
    × ((ltb b.high 22 ≡ false) × (ltb 18 b.low ≡ false))
    × Covers whole b (up ∷ down ∷ [])
    × (b.close ≡ 11)
    × SameHistory live rt
    × (rt.bar_index ≡ negsuc 0)
feed_ticks_total_example =
    feed_ticks_total whole whole-IsOrder (up ∷ down ∷ []) live (bar 0 10 20) live-IsActive
      (up-IsAdmissible, (down-IsAdmissible, tt))

run_bars_total_example :
    (rt : Runtime ℕ ℕ) × (run_bars whole three_bars live ≡ ok rt)
    × (rt.chart_bars ≡ bar 0 10 20 ∷ three_bars)
    × (rt.bar_index ≡ negsuc 0 +ℤ pos 3)
run_bars_total_example =
    run_bars_total whole three_bars live live-IsReady (refl, (refl, (refl, tt)))
