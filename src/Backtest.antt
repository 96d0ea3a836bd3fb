-- ===== src/Backtest.antt =====
-- Running a generated strategy bar by bar: pinelib/backtest.py. The strategy's callback, the
-- broker's projection of its ledger and the progress callback are the caller's: the first two are
-- parameters, and the calls of the third are listed.
use pinelib.Prelude.{
  returned, ℕ, Bool, List, Option, Result, String, [], false, get_elem?, if◌then◌else◌, length,
  none, not, ok, ledger_unavailable_error, or_else, or_raise, raise, runtime_error, some, suc, true,
  zero, ◌&&◌, ◌++◌, ◌-◌, ◌==◌, ◌>>=◌, ◌>>◌, ◌∷◌, map, int_eq, nat_eq, option_eq, pair_eq, string_eq,
}
use pinelib.Prelude.Int.{ℤ, negsuc, pos, ◌-ℤ◌}
use pinelib.Core.Value.{Float, Value}
use pinelib.Core.Bar.{Bar}
use pinelib.Core.Runtime.State.{Runtime, TickUpdate}
use pinelib.Core.Runtime.Lifecycle.{
  begin_bar, begin_realtime_bar, end_bar, set_last_confirmed_history,
}
use pinelib.Core.Runtime.Realtime.{update_realtime_tick}
use pinelib.Intent.Contracts.{Contracts}
use pinelib.Strategy.Ledger.{
  FloatMetric, LedgerView, SequenceMetric, equity, fills, ledger_float, ledger_sequence, netprofit,
  openprofit, position_avg_price, position_size,
}
use pinelib.Strategy.Context.{
  Strategy, attach_strategy_ledger_view, begin_intent_callback, commit_intents_for_current_bar,
  commit_scalar_history, note_historical_fallback,
}
use pinelib.Strategy.Attach.{Reading, attach_runtime}
pub mod Composition
pub mod Golden
pub mod Total
pub mod Snapshots

pub record StrategySchedule : Type 0 where
  pub process_orders : Bool
  pub calc_on_order_fills : Bool
  pub calc_on_every_tick : Bool
  pub max_recalculations_per_bar : Option ℤ

pub record BacktestSnapshot (F : Type 0) : Type 0 where
  pub bar_index : ℤ
  pub time : ℕ
  pub close : F
  pub order_intents_count : ℕ
  pub risk_rules_count : ℕ
  pub equity : Option F
  pub netprofit : Option F
  pub openprofit : Option F
  pub position_size : Option F
  pub position_avg_price : Option F
  pub fills_count : Option ℕ
  pub closedtrades : Option ℕ

-- `try: … except StrategyLedgerUnavailableError: return None`
abbrev pub or_none {ℓ} : {A : Type ℓ} → Result A → Result (Option A)
or_none (ok a) = ok (some a)
or_none (raise ledger_unavailable_error) = ok none
or_none (raise e) = raise e

module _ {F : Type 0} where
  unfoldable pub ledger_float_or_none : Strategy F → FloatMetric → Result (Option F)
  ledger_float_or_none s name = or_none (ledger_float name s.ledger_view)

  unfoldable pub ledger_len_or_none : Strategy F → SequenceMetric → Result (Option ℕ)
  ledger_len_or_none s name = or_none (ledger_sequence name s.ledger_view >>= λ xs. ok (length xs))

module _ {F S : Type 0} where
  unfoldable pub snapshot_from_state : Runtime F S → Strategy F → Result (BacktestSnapshot F)
  snapshot_from_state rt s = do
    bar ← or_raise rt.current_bar runtime_error
    worth ← ledger_float_or_none s equity
    net ← ledger_float_or_none s netprofit
    open_profit ← ledger_float_or_none s openprofit
    size ← ledger_float_or_none s position_size
    price ← ledger_float_or_none s position_avg_price
    count ← ledger_len_or_none s fills
    ok (record {
      bar_index = rt.bar_index;
      time = bar.time;
      close = bar.close;
      order_intents_count = length s.pending_orders;
      risk_rules_count = length s.risk_rules;
      equity = worth;
      netprofit = net;
      openprofit = open_profit;
      position_size = size;
      position_avg_price = price;
      fills_count = count;
      closedtrades = none;
    })

-- The generated strategy's `on_bar(runtime, strategy)`, and the broker's projection.
abbrev pub Callback : Type 0 → Type 0 → Type 0
Callback F S = Runtime F S → Strategy F → Result (Runtime F S × Strategy F)

abbrev pub Projection : Type 0 → Type 0 → Type 0
Projection F S = Runtime F S → Strategy F → Result (LedgerView F)

-- `_resolve_strategy_callback`: the instance's on_bar if it is callable, or else the instance.
unfoldable pub resolve_strategy_callback {ℓ} : {C : Type ℓ} → Option C → Option C → Result C
resolve_strategy_callback (some on_bar) instance_call = ok on_bar
resolve_strategy_callback none (some instance_call) = ok instance_call
resolve_strategy_callback none none = raise runtime_error

-- `bool(xs)`
abbrev pub has_items {ℓ} : {A : Type ℓ} → List A → Bool
has_items [] = false
has_items (x ∷ xs) = true

-- `next((idx for idx, ticks in enumerate(ticks_list) if ticks), None)`
abbrev pub first_with_items {ℓ} : {A : Type ℓ} → ℕ → List (List A) → Option ℕ
first_with_items i [] = none
first_with_items i (ts ∷ tss) =
    let rest = first_with_items (suc i) tss in if has_items ts then some i else rest

abbrev pub last_confirmed_history_index {ℓ} : {A : Type ℓ} → ℕ → List (List A) → ℤ
last_confirmed_history_index count tss = elim (first_with_items 0 tss) [
  | some i ↦ pos i -ℤ pos 1
  | none ↦ pos count -ℤ pos 1
]

-- The last tick of a bar is made final.
abbrev pub finished : {F : Type 0} → Bool → TickUpdate F → TickUpdate F
finished is_last tick =
    if is_last && not tick.is_final then record tick { is_final = true } else tick

module _ {F S : Type 0} where
  -- The projection's view is attached before each pass.
  unfoldable pub refresh_ledger_view :
      Option (Projection F S) → Runtime F S → Strategy F → Result (Strategy F)
  refresh_ledger_view none rt s = ok s
  refresh_ledger_view (some project) rt s =
      project rt s >>= λ view. ok (attach_strategy_ledger_view view s)

module _ {F S : Type 0} (fl : Float F) (ct : Contracts F) where
  -- `_run_strategy_pass`
  unfoldable pub run_strategy_pass :
      Callback F S
      → Option (Projection F S)
      → ℕ
      → Runtime F S
      → Strategy F
      → Result (Runtime F S × Strategy F)
  run_strategy_pass callback projection recalc rt s = do
    seen ← refresh_ledger_view projection rt s
    let (begun, done) = begin_intent_callback ct rt "BAR_BEGIN" (pos recalc) seen
    done >> callback rt begun

  -- The ticks of a bar, each with its number as the recalculation.
  unfoldable pub run_ticks :
      Callback F S
      → Option (Projection F S)
      → ℕ
      → List (TickUpdate F)
      → Runtime F S
      → Strategy F
      → Result (Runtime F S × Strategy F)
  unfolding run_strategy_pass
  run_ticks callback projection idx [] rt s = ok (rt, s)
  run_ticks callback projection idx (tick ∷ ticks) rt s = do
    (bar, ticked) ← update_realtime_tick fl (finished (not (has_items ticks)) tick) rt
    (rt', s') ← run_strategy_pass callback projection idx ticked s
    run_ticks callback projection (suc idx) ticks rt' s'

  -- A bar without a pass for each tick.
  unfoldable pub run_whole_bar :
      Callback F S
      → Option (Projection F S)
      → Bool
      → Bool
      → Bar F
      → Runtime F S
      → Strategy F
      → Result (Runtime F S × Strategy F)
  run_whole_bar callback projection falls_back is_last_confirmed bar rt s = do
    begun ← begin_bar fl bar rt
    let opened = set_last_confirmed_history is_last_confirmed begun
    if falls_back then note_historical_fallback s else ok tt
    active ← or_raise opened.current_bar runtime_error
    run_strategy_pass callback projection 0 opened s

  -- The passes of the bar at an index, with the value that the loop's `idx` has after them: the
  -- loop over the ticks uses the same variable.
  unfoldable pub run_passes :
      Callback F S
      → Option (Projection F S)
      → StrategySchedule
      → ℤ
      → ℕ
      → List (TickUpdate F)
      → Bar F
      → Runtime F S
      → Strategy F
      → Result ((Runtime F S × Strategy F) × ℕ)
  unfolding run_ticks run_whole_bar
  run_passes callback projection schedule last_confirmed idx ticks bar rt s =
      let every_tick = s.declaration.calc_on_every_tick && schedule.calc_on_every_tick in
      let is_last_confirmed = pos idx == last_confirmed in
      if has_items ticks && every_tick
      then (begin_realtime_bar fl bar rt >>= λ begun.
          run_ticks callback projection 0 ticks begun s >>= λ after. ok (after, length ticks - 1))
      else (run_whole_bar callback projection (not (has_items ticks) && every_tick)
            is_last_confirmed bar rt s
          >>= λ after. ok (after, idx))

-- What the loop of `run_generated_strategy` holds after some bars: the snapshots, and the
-- arguments that the progress callback was called with.
pub record Progress (F S : Type 0) : Type 0 where
  pub runtime : Runtime F S
  pub strategy : Strategy F
  pub snapshots : List (BacktestSnapshot F)
  pub reported : List (ℕ × ℕ)

module _ {F S : Type 0} (fl : Float F) (ct : Contracts F) where
  -- The body of the loop over the bars.
  unfoldable pub run_indexed_bar :
      Callback F S
      → Option (Projection F S)
      → StrategySchedule
      → ℤ
      → ℕ
      → ℕ
      → List (TickUpdate F)
      → Bar F
      → Progress F S
      → Result (Progress F S)
  run_indexed_bar callback projection schedule last_confirmed count idx ticks bar p = do
    ((rt, s), shown) ←
        run_passes fl ct callback projection schedule last_confirmed idx ticks bar p.runtime
          p.strategy
    let sealed = commit_intents_for_current_bar rt s
    ended ← end_bar rt
    shot ← snapshot_from_state ended sealed
    ok (record {
      runtime = ended;
      strategy = commit_scalar_history sealed;
      snapshots = p.snapshots ++ shot ∷ [];
      reported = p.reported ++ (suc shown, count) ∷ [];
    })

  unfoldable pub run_all :
      Callback F S
      → Option (Projection F S)
      → StrategySchedule
      → ℤ
      → ℕ
      → List (List (TickUpdate F))
      → ℕ
      → List (Bar F)
      → Progress F S
      → Result (Progress F S)
  unfolding run_indexed_bar
  run_all callback projection schedule last_confirmed count ticks idx [] p = ok p
  run_all callback projection schedule last_confirmed count ticks idx (bar ∷ bars) p = do
    q ←
        run_indexed_bar callback projection schedule last_confirmed count idx
          (or_else (get_elem? ticks idx) []) bar p
    run_all callback projection schedule last_confirmed count ticks (suc idx) bars q

module _ {F S : Type 0} (fl : Float F) (rd : Reading F) (ct : Contracts F) where
  -- `run_generated_strategy` up to its report. `own` says that the runtime already has this
  -- strategy; ticks that are not given are none on every bar.
  unfoldable pub run_generated_strategy :
      Callback F S
      → Option (Projection F S)
      → StrategySchedule
      → Bool
      → List (Bar F)
      → List (List (TickUpdate F))
      → Runtime F S
      → Strategy F
      → Result (Progress F S)
  unfolding run_all
  run_generated_strategy callback projection schedule own bars ticks rt s = do
    (attached, named) ← if own then ok (rt, s) else returned (attach_runtime fl rd ct rt s)
    run_all fl ct callback projection schedule (last_confirmed_history_index (length bars) ticks)
        (length bars) ticks 0 bars
        (record { runtime = attached; strategy = named; snapshots = []; reported = [] })
