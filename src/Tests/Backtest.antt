-- ===== src/Tests/Backtest.antt =====
-- Runs of the backtest driver on concrete inputs.
use pinelib.Prelude.{
  if-cases, inl, inr, ℕ, List, [], if◌then◌else◌, map, nat_beq, nat_eq, none, ok, ok-injective,
  ok_value, refl, some, subst, true, ◌>>=◌, ◌∷◌, ◌≡◌, >>=-eq-ok, ap, ◌↔◌, int_eq, option_eq,
  pair_eq, string_eq, false,
}
use pinelib.Prelude.Int.{pos}
use pinelib.Core.Bar.{Bar}
use pinelib.Core.Series.{commit_current, mark_between_bars, set_current}
use pinelib.Core.Runtime.Registry.{
  commit_all, commit_one, reopen_all, set_all, set_builtin_current, set_registered,
}
use pinelib.Core.Runtime.Lifecycle.{begin_bar, end_bar, normalize_bar, set_last_confirmed_history}
use pinelib.Intent.Tape.{set_series_identity, begin_callback, commit_bar, is_committed}
use pinelib.Intent.Tape.Record.{record_intent}
use pinelib.Strategy.Ledger.{ledger_float, ledger_sequence}
use pinelib.Intent.Tape.Frozen.{Kept}
use pinelib.Intent.Tape.Valid.{IsValid}
use pinelib.Strategy.Context.{
  begin_intent_callback, commit_intents_for_current_bar, record_strategy_intent,
  commit_scalar_history,
}
use pinelib.Strategy.Attach.{
  attach_intent_runtime_identity, attach_runtime, sync_runtime_strategy_flags, validate_settings,
}
use pinelib.Strategy.Orders.{close_all_orders}
use pinelib.Strategy.Calls.{Calls, closed_all, more, stay}
use pinelib.Strategy.Calls.Lasting.{OrdersLast}
use pinelib.Backtest.{
  has_items, ledger_float_or_none, ledger_len_or_none, snapshot_from_state, run_passes,
  refresh_ledger_view, Callback, Progress, StrategySchedule, run_generated_strategy,
}
use pinelib.Backtest.Composition.{CallsOnly, run_generated_strategy-Kept}
use pinelib.Backtest.Snapshots.{bar_of}
use pinelib.Backtest.Total.{Tame, run_generated_strategy_ends}
use pinelib.Backtest.Golden.{
  Closeness, Json, compare_golden, arr, field, float, int, item, nil, none_left, obj, str,
}
use pinelib.Backtest.Golden.Paths.{Step, agrees, walk}
use pinelib.Backtest.Golden.Complete.{compare_golden_iff}
use pinelib.Tests.Data.{whole, bar, three_bars}
use pinelib.Tests.Intent.{blank-IsValid, contracts}
use pinelib.Tests.Runtime.{live, live-IsReady}
use pinelib.Tests.Strategy.{idle, reading}

abbrev schedule : StrategySchedule
schedule = record {
  process_orders = true;
  calc_on_order_fills = true;
  calc_on_every_tick = true;
  max_recalculations_per_bar = none;
}

-- A script that closes everything once.
abbrev closes_once : Callback ℕ ℕ
closes_once rt s =
    if has_items s.pending_orders
    then ok (rt, s)
    else close_all_orders whole contracts rt true none none s >>= λ w. ok (rt, w)

closes_once-CallsOnly : CallsOnly whole contracts closes_once
closes_once-CallsOnly rt s rt' s' h = elim (if-cases (has_items s.pending_orders) _ _ h) [
  | inl nothing ↦ subst (Calls ℕ whole contracts s) (ap (λ p. p.1) (ok-injective nothing)) (stay s)
  | inr closed ↦
      let (w, first, last) =
        >>=-eq-ok (close_all_orders whole contracts rt true none none s) _ closed in
      subst (Calls ℕ whole contracts s) (ap (λ p. p.1) (ok-injective last))
        (more s w w (closed_all rt true none none s w first) (stay w))
]

abbrev two_bars : List (Bar ℕ)
two_bars = bar 0 10 20 ∷ bar 20 30 25 ∷ []

abbrev nothing_yet : Progress ℕ ℕ
nothing_yet = record { runtime = live; strategy = idle; snapshots = []; reported = [] }

abbrev finish : Progress ℕ ℕ
finish = ok_value nothing_yet (
    run_generated_strategy whole reading contracts closes_once none schedule false two_bars [] live
      idle)

finish_ok :
    run_generated_strategy whole reading contracts closes_once none schedule false two_bars [] live
      idle
    ≡ ok finish
unfolding run_generated_strategy begin_bar set_builtin_current set_all set_registered reopen_all
    set_current set_last_confirmed_history begin_intent_callback begin_callback close_all_orders
    record_strategy_intent record_intent end_bar commit_all snapshot_from_state ledger_float_or_none
    ledger_len_or_none ledger_float ledger_sequence commit_intents_for_current_bar commit_bar
    commit_scalar_history normalize_bar run_passes refresh_ledger_view commit_one mark_between_bars
    commit_current attach_runtime attach_intent_runtime_identity sync_runtime_strategy_flags
    validate_settings set_series_identity
finish_ok = refl

run_generated_strategy-Kept_example :
    OrdersLast [] finish.strategy.pending_orders
    × IsValid finish.strategy.intent_tape
    × ((i u : ℕ)
        → is_committed i u idle.intent_tape ≡ true
        → Kept i u idle.intent_tape finish.strategy.intent_tape)
run_generated_strategy-Kept_example =
    run_generated_strategy-Kept whole contracts closes_once none closes_once-CallsOnly reading
      schedule false two_bars [] live idle finish finish_ok blank-IsValid

-- A script that only counts bars.
abbrev counts : Callback ℕ ℕ
counts rt s = ok (rt, commit_scalar_history s)

counts-Tame : Tame counts
unfolding commit_scalar_history
counts-Tame = record {
  returns = λ rt s ready. (rt, commit_scalar_history s, refl, ready, refl, refl, refl);
}

run_generated_strategy_ends_example :
    (q : Progress ℕ ℕ) × (run_generated_strategy whole reading contracts counts none schedule true
        three_bars [] live idle
      ≡ ok q)
    × (map bar_of q.snapshots ≡ (pos 0, 0, 20) ∷ (pos 1, 10, 21) ∷ (pos 2, 20, 25) ∷ [])
    × (q.reported ≡ (1, 3) ∷ (2, 3) ∷ (3, 3) ∷ [])
run_generated_strategy_ends_example =
    run_generated_strategy_ends whole contracts refl counts counts-Tame none tt reading schedule
      three_bars live idle live-IsReady (refl, (refl, (refl, tt))) refl

abbrev equal : Closeness ℕ
equal = record { of_int = λ n. ok (whole.of_int n); isclose = nat_beq }

abbrev golden : Json ℕ
golden =
    obj (field "a" (arr (item (float 3) (item (str "x") nil))) (field "b" (int (pos 2)) none_left))

compare_golden_iff_example :
    (compare_golden equal golden golden ≡ ok tt)
    ↔ ((path : List Step) → agrees equal (walk path (some golden)) (walk path (some golden)) ≡ true)
compare_golden_iff_example =
    compare_golden_iff equal golden golden (refl, (tt, (tt, tt)), (refl, tt, tt))
