-- ===== src/Backtest/Composition.antt =====
-- A run of pinelib/backtest.py as a sequence of calls on the strategy.
use pinelib.Prelude.{
  returned, returned-eq-ok, length, sym, if-cases, ◌&&◌, inl, inr, ◌==◌, int_eq, nat_eq, ap, not,
  suc, or_else, or_raise, runtime_error, get_elem?, if◌then◌else◌, [], ◌∷◌, ℕ, Bool, List, Option,
  ok, some, none, >>=-eq-ok, ok-injective, subst, ◌≡◌, true, option_eq, pair_eq, string_eq,
}
use pinelib.Prelude.Int.{ℤ, pos}
use pinelib.Core.Value.{Float}
use pinelib.Core.Bar.{Bar}
use pinelib.Core.Runtime.State.{Runtime, TickUpdate}
use pinelib.Core.Runtime.Lifecycle.{
  begin_bar, begin_realtime_bar, end_bar, set_last_confirmed_history,
}
use pinelib.Core.Runtime.Realtime.{update_realtime_tick}
use pinelib.Intent.Contracts.{Contracts}
use pinelib.Intent.Tape.{is_committed}
use pinelib.Intent.Tape.Valid.{IsValid}
use pinelib.Intent.Tape.Frozen.{Kept, Steps, Steps-IsValid, Steps-Kept, done}
use pinelib.Strategy.Context.{
  Strategy, attach_strategy_ledger_view, begin_intent_callback, commit_intents_for_current_bar,
  note_historical_fallback,
}
use pinelib.Strategy.Calls.{Calls, counted, more, scoped, sealed, stay, viewed}
use pinelib.Strategy.Calls.Lasting.{
  Calls-Lasting, Calls-append, Calls-trans, OrdersLast, Steps-trans,
}
use pinelib.Strategy.Attach.{Reading, attach_runtime}
use pinelib.Strategy.Attach.Flags.{attach_runtime-Steps}
use pinelib.Backtest.{
  run_generated_strategy, last_confirmed_history_index, Callback, Progress, Projection,
  StrategySchedule, run_all, run_indexed_bar, run_passes, run_strategy_pass, run_ticks,
  run_whole_bar, finished, has_items, refresh_ledger_view, snapshot_from_state,
}

module _ {F S : Type 0} (fl : Float F) (ct : Contracts F) where
  -- A callback that changes the strategy by its calls only.
  abbrev pub CallsOnly : Callback F S → Type 0
  CallsOnly callback =
      (rt : Runtime F S) (s : Strategy F) (rt' : Runtime F S) (s' : Strategy F)
      → callback rt s ≡ ok (rt', s')
      → Calls S fl ct s s'

  refresh_ledger_view-Calls :
      (projection : Option (Projection F S)) (rt : Runtime F S) (s w : Strategy F)
      → refresh_ledger_view projection rt s ≡ ok w
      → Calls S fl ct s w
  unfolding refresh_ledger_view
  refresh_ledger_view-Calls none rt s w h = subst (Calls S fl ct s) (ok-injective h) (stay s)
  refresh_ledger_view-Calls (some project) rt s w h =
      let (view, _, last) = >>=-eq-ok (project rt s) _ h in
      subst (Calls S fl ct s) (ok-injective last)
        (more s _ _ (viewed view s) (stay (attach_strategy_ledger_view view s)))

module _ {F S : Type 0} (fl : Float F) (ct : Contracts F) (callback : Callback F S)
    (projection : Option (Projection F S)) (only : CallsOnly fl ct callback) where
  run_strategy_pass-Calls :
      (recalc : ℕ) (rt : Runtime F S) (s : Strategy F) (rt' : Runtime F S) (s' : Strategy F)
      → run_strategy_pass fl ct callback projection recalc rt s ≡ ok (rt', s')
      → Calls S fl ct s s'
  unfolding run_strategy_pass
  run_strategy_pass-Calls recalc rt s rt' s' h =
      let (seen, first, h1) = >>=-eq-ok (refresh_ledger_view projection rt s) _ h in
      let (checked, _, h2) =
        >>=-eq-ok (begin_intent_callback ct rt "BAR_BEGIN" (pos recalc) seen).1 _ h1 in
      Calls-trans S fl ct s seen s' (refresh_ledger_view-Calls fl ct projection rt s seen first)
        (more seen _ s' (scoped rt "BAR_BEGIN" (pos recalc) seen) (only rt _ rt' s' h2))

  run_ticks-Calls :
      (ticks : List (TickUpdate F)) (idx : ℕ) (rt : Runtime F S) (s : Strategy F)
      (rt' : Runtime F S) (s' : Strategy F)
      → run_ticks fl ct callback projection idx ticks rt s ≡ ok (rt', s')
      → Calls S fl ct s s'
  unfolding run_ticks
  run_ticks-Calls [] idx rt s rt' s' h =
      subst (Calls S fl ct s) (ap (λ p. p.1) (ok-injective h)) (stay s)
  run_ticks-Calls (tick ∷ ticks) idx rt s rt' s' h =
      let ((bar, ticked), _, h1) =
        >>=-eq-ok (update_realtime_tick fl (finished (not (has_items ticks)) tick) rt) _ h in
      let ((rt1, s1), pass, h2) =
        >>=-eq-ok (run_strategy_pass fl ct callback projection idx ticked s) _ h1 in
      Calls-trans S fl ct s s1 s' (run_strategy_pass-Calls idx ticked s rt1 s1 pass)
        (run_ticks-Calls ticks (suc idx) rt1 s1 rt' s' h2)

  run_whole_bar-Calls :
      (falls_back is_last : Bool) (bar : Bar F) (rt : Runtime F S) (s : Strategy F)
      (rt' : Runtime F S) (s' : Strategy F)
      → run_whole_bar fl ct callback projection falls_back is_last bar rt s ≡ ok (rt', s')
      → Calls S fl ct s s'
  unfolding run_whole_bar
  run_whole_bar-Calls falls_back is_last bar rt s rt' s' h =
      let (begun, _, h1) = >>=-eq-ok (begin_bar fl bar rt) _ h in
      let opened = set_last_confirmed_history is_last begun in
      let (checked, _, h2) =
        >>=-eq-ok (if falls_back then note_historical_fallback s else ok tt) _ h1 in
      let (active, _, h3) = >>=-eq-ok (or_raise opened.current_bar runtime_error) _ h2 in
      run_strategy_pass-Calls 0 opened s rt' s' h3

  run_passes-Calls :
      (schedule : StrategySchedule) (last_confirmed : ℤ) (idx : ℕ) (ticks : List (TickUpdate F))
      (bar : Bar F) (rt : Runtime F S) (s : Strategy F) (rt' : Runtime F S) (s' : Strategy F)
      (shown : ℕ)
      → run_passes fl ct callback projection schedule last_confirmed idx ticks bar rt s
        ≡ ok ((rt', s'), shown)
      → Calls S fl ct s s'
  unfolding run_passes
  run_passes-Calls schedule last_confirmed idx ticks bar rt s rt' s' shown h =
      let every_tick = s.declaration.calc_on_every_tick && schedule.calc_on_every_tick in
      elim (if-cases (has_items ticks && every_tick) _ _ h) [
        | inl h1 ↦
            let (begun, _, h2) = >>=-eq-ok (begin_realtime_bar fl bar rt) _ h1 in
            let ((rt1, s1), passes, h3) =
              >>=-eq-ok (run_ticks fl ct callback projection 0 ticks begun s) _ h2 in
            subst (Calls S fl ct s) (ap (λ x. x.0.1) (ok-injective h3))
              (run_ticks-Calls ticks 0 begun s rt1 s1 passes)
        | inr h1 ↦
            let falls_back = not (has_items ticks) && every_tick in
            let is_last = pos idx == last_confirmed in
            let ((rt1, s1), passes, h2) =
              >>=-eq-ok (run_whole_bar fl ct callback projection falls_back is_last bar rt s) _
                h1 in
            subst (Calls S fl ct s) (ap (λ x. x.0.1) (ok-injective h2))
              (run_whole_bar-Calls falls_back is_last bar rt s rt1 s1 passes)
      ]

  run_indexed_bar-Calls :
      (schedule : StrategySchedule) (last_confirmed : ℤ) (count idx : ℕ)
      (ticks : List (TickUpdate F)) (bar : Bar F) (p q : Progress F S)
      → run_indexed_bar fl ct callback projection schedule last_confirmed count idx ticks bar p
        ≡ ok q
      → Calls S fl ct p.strategy q.strategy
  unfolding run_indexed_bar
  run_indexed_bar-Calls schedule last_confirmed count idx ticks bar p q h =
      let (((rt, s), shown), passes, h1) =
        >>=-eq-ok
          (run_passes fl ct callback projection schedule last_confirmed idx ticks bar p.runtime
            p.strategy)
          _ h in
      let sealed_one = commit_intents_for_current_bar rt s in
      let (ended, _, h2) = >>=-eq-ok (end_bar rt) _ h1 in
      let (shot, _, h3) = >>=-eq-ok (snapshot_from_state ended sealed_one) _ h2 in
      let ran =
        run_passes-Calls schedule last_confirmed idx ticks bar p.runtime p.strategy rt s shown
          passes in
      subst (Calls S fl ct p.strategy) (ap (λ x. x.strategy) (ok-injective h3)) (
        Calls-append S fl ct p.strategy sealed_one _
          (Calls-append S fl ct p.strategy s sealed_one ran (sealed rt s)) (counted sealed_one))

  run_all-Calls :
      (schedule : StrategySchedule) (last_confirmed : ℤ) (count : ℕ)
      (ticks : List (List (TickUpdate F))) (idx : ℕ) (bars : List (Bar F)) (p q : Progress F S)
      → run_all fl ct callback projection schedule last_confirmed count ticks idx bars p ≡ ok q
      → Calls S fl ct p.strategy q.strategy
  unfolding run_all
  run_all-Calls schedule last_confirmed count ticks idx [] p q h =
      subst (Calls S fl ct p.strategy) (ap (λ x. x.strategy) (ok-injective h)) (stay p.strategy)
  run_all-Calls schedule last_confirmed count ticks idx (bar ∷ bars) p q h =
      let (m, first, h1) =
        >>=-eq-ok
          (run_indexed_bar fl ct callback projection schedule last_confirmed count idx
            (or_else (get_elem? ticks idx) []) bar p)
          _ h in
      Calls-trans S fl ct p.strategy m.strategy q.strategy
        (run_indexed_bar-Calls schedule last_confirmed count idx _ bar p m first)
        (run_all-Calls schedule last_confirmed count ticks (suc idx) bars m q h1)

  -- A start of a run: attached already, or attached now.
  start-Steps :
      (rd : Reading F) (own : Bool) (rt : Runtime F S) (s : Strategy F) (rt' : Runtime F S)
      (s' : Strategy F)
      → (if own then ok (rt, s) else returned (attach_runtime fl rd ct rt s)) ≡ ok (rt', s')
      → Steps ct s.intent_tape s'.intent_tape × (s'.pending_orders ≡ s.pending_orders)
  start-Steps rd own rt s rt' s' h = elim (if-cases own _ _ h) [
    | inl same ↦
        let e = ap (λ p. p.1) (ok-injective same) in
        (
          subst (λ x. Steps ct s.intent_tape x.intent_tape) e (done s.intent_tape),
          ap (λ x. x.pending_orders) (sym e),
        )
    | inr now ↦ attach_runtime-Steps fl rd ct rt rt' s s' (returned-eq-ok _ now)
  ]

  -- With a callback that changes the strategy by its calls only, a run that returns, over any bars
  -- and ticks, from a strategy whose tape is well formed leaves a well-formed tape, every order at
  -- its place with nothing changed but its status, and every bar that was committed before with
  -- the same events.
  pub run_generated_strategy-Kept :
      (rd : Reading F) (schedule : StrategySchedule) (own : Bool) (bars : List (Bar F))
      (ticks : List (List (TickUpdate F))) (rt : Runtime F S) (s : Strategy F) (q : Progress F S)
      → run_generated_strategy fl rd ct callback projection schedule own bars ticks rt s ≡ ok q
      → IsValid s.intent_tape
      → OrdersLast s.pending_orders q.strategy.pending_orders
        × IsValid q.strategy.intent_tape
        × ((i u : ℕ)
            → is_committed i u s.intent_tape ≡ true
            → Kept i u s.intent_tape q.strategy.intent_tape)
  unfolding run_generated_strategy
  run_generated_strategy-Kept rd schedule own bars ticks rt s q h v =
      let ((attached, named), first, h1) =
        >>=-eq-ok (if own then ok (rt, s) else returned (attach_runtime fl rd ct rt s)) _ h in
      let (begun, orders) = start-Steps rd own rt s attached named first in
      let last_confirmed = last_confirmed_history_index (length bars) ticks in
      let p : Progress F S = record {
        runtime = attached;
        strategy = named;
        snapshots = [];
        reported = [];
      } in
      let calls = run_all-Calls schedule last_confirmed (length bars) ticks 0 bars p q h1 in
      let ran = Calls-Lasting S fl ct named q.strategy calls in
      let steps =
        Steps-trans S fl ct s.intent_tape named.intent_tape q.strategy.intent_tape begun
          ran.steps in
      (
        subst (λ os. OrdersLast os q.strategy.pending_orders) orders ran.orders,
        Steps-IsValid ct s.intent_tape q.strategy.intent_tape steps v,
        λ i u k. Steps-Kept ct i u s.intent_tape q.strategy.intent_tape steps k,
      )
