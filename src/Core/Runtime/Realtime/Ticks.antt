-- ===== src/Core/Runtime/Realtime/Ticks.antt =====
-- A sequence of ticks on the active bar.
use pinelib.Prelude.{
  List, Option, Result, String, [], arith, false, int_eq, nat_eq, ok, pair_eq, refl, some,
  string_eq, true, ◌==◌, ◌>>=◌, ◌∷◌, ◌≡◌, All, none, ◌∙◌,
}
use pinelib.Prelude.Int.{ℤ, pos, ◌+ℤ◌}
use mathlib.Core.Option
use pinelib.Prelude.Dict.{get}
use pinelib.Core.Value.{Float}
use pinelib.Core.Bar.{Bar, IsValid}
use pinelib.Core.Runtime.State.{Runtime, TickUpdate}
use pinelib.Core.Runtime.Registry.{set_builtin_current, builtin_values}
use pinelib.Core.Runtime.Registry.Laws.{history_of, history-set_all}
use pinelib.Core.Runtime.Lifecycle.{exposed_bar_index}
use pinelib.Core.Runtime.Lifecycle.Total.{IsReady, AllIn-Grows, builtin_names, set_all_total}
use pinelib.Core.Runtime.Realtime.{update_realtime_tick, check_tick_time, set_last}
use pinelib.Core.Runtime.Realtime.Bounds.{
  IsOrder, IsNumeric, max-nan, min-nan, updated_bar, updated_bar-Ticked, ticked_bar_total,
}

module _ {F : Type 0} (fl : Float F) where
  -- The tick lies within the bar's time and its price is a number.
  abbrev pub IsAdmissible : Bar F → TickUpdate F → Type 0
  IsAdmissible b tick = (fl.is_nan tick.price ≡ false) × (check_tick_time tick.time b ≡ ok tt)

  -- Every price of the ticks lies within the bar.
  abbrev pub Covers : Bar F → List (TickUpdate F) → Type 0
  Covers b ticks =
      All (λ tick. (fl.lt b.high tick.price ≡ false) × (fl.lt tick.price b.low ≡ false)) ticks

  abbrev pub last_price : F → List (TickUpdate F) → F
  last_price p [] = p
  last_price p (tick ∷ ticks) = last_price tick.price ticks

  check_tick_time-updated :
      (o : IsOrder fl) (b : Bar F) (u : TickUpdate F) (t : Option ℤ)
      → check_tick_time t (updated_bar fl o u b) ≡ check_tick_time t b
  unfolding check_tick_time
  check_tick_time-updated o b u none = refl
  check_tick_time-updated o b u (some t) = refl

  IsAdmissible-updated :
      (o : IsOrder fl) (b : Bar F) (u : TickUpdate F) (ticks : List (TickUpdate F))
      → All (IsAdmissible b) ticks
      → All (IsAdmissible (updated_bar fl o u b)) ticks
  IsAdmissible-updated o b u [] h = tt
  IsAdmissible-updated o b u (tick ∷ ticks) h = (
    (h.0.0, check_tick_time-updated o b u tick.time ∙ h.0.1),
    IsAdmissible-updated o b u ticks h.1,
  )

module _ {F S : Type 0} where
  -- No series commits, opens or disappears.
  abbrev pub SameHistory : Runtime F S → Runtime F S → Type 0
  SameHistory rt rt' =
      (j : String)
      → Option.map history_of (get j rt'.series_registry)
        ≡ Option.map history_of (get j rt.series_registry)

module _ {F S : Type 0} (fl : Float F) where
  -- The ticks of one bar, in order.
  pub feed_ticks : List (TickUpdate F) → Runtime F S → Result (Runtime F S)
  feed_ticks [] rt = ok rt
  feed_ticks (tick ∷ ticks) rt = do r ← update_realtime_tick fl tick rt; feed_ticks ticks r.1

  -- A realtime bar is active, valid and without NaN.
  pub record IsActive (rt : Runtime F S) (b : Bar F) : Type 0 where
    pub active : rt.current_bar ≡ some b
    pub realtime : rt.barstate.isrealtime ≡ true
    pub ready : IsReady rt
    pub valid : IsValid fl b
    pub numeric : IsNumeric fl b

module _ {F S : Type 0} (fl : Float F) (o : IsOrder fl) where
  -- Over prices that are ordered, an admissible tick of an active realtime bar is taken: the
  -- result is the updated bar, the runtime stays active on it, no history changes, the bar index
  -- stays, and the bar is confirmed exactly when the tick is final.
  pub update_realtime_tick_total :
      (tick : TickUpdate F) (rt : Runtime F S) (b : Bar F)
      → IsActive fl rt b
      → IsAdmissible fl b tick
      → (rt' : Runtime F S) × (update_realtime_tick fl tick rt ≡ ok (updated_bar fl o tick b, rt'))
        × IsActive fl rt' (updated_bar fl o tick b)
        × SameHistory rt rt'
        × (rt'.bar_index ≡ rt.bar_index)
        × (rt'.barstate.isconfirmed ≡ tick.is_final)
  unfolding update_realtime_tick set_builtin_current
  update_realtime_tick_total tick rt b a (num, inside) =
      let b' = updated_bar fl o tick b in
      let i = exposed_bar_index rt (rt.bar_index +ℤ pos 1) in
      let (reg, e, g) =
        set_all_total (builtin_values b' i) rt.series_registry a.ready.builtins
          (refl, (refl, (refl, (refl, (refl, (refl, (ground arith, (refl, tt)))))))) in
      (
        record rt {
          current_bar = some b';
          chart_bars = set_last rt.chart_bars b';
          barstate = record {
            isfirst = i == pos 0;
            islast = true;
            ishistory = false;
            isrealtime = true;
            isnew = false;
            isconfirmed = tick.is_final;
            islastconfirmedhistory = false;
          };
          series_registry = reg;
        },
        ground (
          arith,
          ticked_bar_total fl o tick b a.valid a.numeric num,
          a.active,
          a.realtime,
          inside,
          e,
        ),
        record {
          active = refl;
          realtime = refl;
          ready = record {
            builtins = AllIn-Grows builtin_names rt.series_registry reg g a.ready.builtins;
            committed = AllIn-Grows rt.commit_order rt.series_registry reg g a.ready.committed;
          };
          valid = (updated_bar-Ticked fl o tick b a.valid a.numeric num).valid;
          numeric = record {
            open_price = a.numeric.open_price;
            high = max-nan fl o b.high tick.price a.numeric.high num;
            low = min-nan fl o b.low tick.price a.numeric.low num;
            close = num;
          };
        },
        λ j. history-set_all j (builtin_values b' i) rt.series_registry reg e,
        refl,
        refl,
      )

  -- Over prices that are ordered, any admissible ticks of an active realtime bar are taken, in
  -- order: the bar stays valid, keeps its open and its times, covers its old range and every
  -- price, and closes at the last price; the bar index and every committed history stay as they
  -- were.
  pub feed_ticks_total :
      (ticks : List (TickUpdate F)) (rt : Runtime F S) (b : Bar F)
      → IsActive fl rt b
      → All (IsAdmissible fl b) ticks
      → (rt' : Runtime F S) × (b' : Bar F) × (feed_ticks fl ticks rt ≡ ok rt')
        × IsActive fl rt' b'
        × ((b'.open_price ≡ b.open_price) × (b'.time ≡ b.time) × (b'.time_close ≡ b.time_close))
        × ((fl.lt b'.high b.high ≡ false) × (fl.lt b.low b'.low ≡ false))
        × Covers fl b' ticks
        × (b'.close ≡ last_price fl b.close ticks)
        × SameHistory rt rt'
        × (rt'.bar_index ≡ rt.bar_index)
  unfolding feed_ticks
  feed_ticks_total [] rt b a h = (
    rt,
    b,
    refl,
    a,
    (refl, refl, refl),
    (o.lt_irrefl b.high a.numeric.high, o.lt_irrefl b.low a.numeric.low),
    tt,
    refl,
    λ j. refl,
    refl,
  )
  feed_ticks_total (tick ∷ ticks) rt b a h =
      let u = updated_bar fl o tick b in
      let step = updated_bar-Ticked fl o tick b a.valid a.numeric h.0.0 in
      let (mid, e1, a1, s1, i1, c1) = update_realtime_tick_total tick rt b a h.0 in
      let (rt', b', e2, a2, same, wide, cov, lp, s2, i2) =
        feed_ticks_total ticks mid u a1 (IsAdmissible-updated fl o b tick ticks h.1) in
      (
        rt',
        b',
        rw e1 e2,
        a2,
        same,
        (
          o.not_lt_trans b'.high u.high b.high a2.numeric.high a1.numeric.high a.numeric.high wide.0
              step.high_grows,
          o.not_lt_trans b.low u.low b'.low a.numeric.low a1.numeric.low a2.numeric.low
              step.low_falls wide.1,
        ),
        (
          (
            o.not_lt_trans b'.high u.high tick.price a2.numeric.high a1.numeric.high h.0.0 wide.0
                step.high_covers,
            o.not_lt_trans tick.price u.low b'.low h.0.0 a1.numeric.low a2.numeric.low
                step.low_covers wide.1,
          ),
          cov,
        ),
        lp,
        λ j. s2 j ∙ s1 j,
        i2 ∙ i1,
      )
