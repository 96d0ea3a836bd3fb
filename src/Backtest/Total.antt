-- ===== src/Backtest/Total.antt =====
-- Runs of pinelib/backtest.py over historical bars come to their end.
use pinelib.Prelude.{
  All, append-nil, append_assoc, sym, ap, map-append, or_raise-some, runtime_error, ◌==◌, int_eq,
  nat_eq, Bool, is_some, true, map, ◌++◌, ◌&&◌, suc, [], ◌∷◌, ◌∙◌, ℕ, All, Bool, List, Option, [],
  ap, arith, false, is_some, length, map, none, ok, refl, some, suc, ◌++◌, ◌&&◌, ◌∷◌, ◌≡◌, ◌∙◌,
  append-nil, append_assoc, sym, true, option_eq, pair_eq, string_eq,
}
use pinelib.Prelude.Int.{◌-ℤ◌, ◌+ℤ◌, ℤ, pos, ◌+ℤ◌}
use pinelib.Core.Value.{Float}
use pinelib.Core.Bar.{Bar}
use pinelib.Core.Runtime.State.{Runtime}
use pinelib.Core.Runtime.Lifecycle.{set_last_confirmed_history}
use pinelib.Core.Runtime.Lifecycle.Total.{IsReady, begin_bar_total, end_bar_total}
use pinelib.Intent.Contracts.{Contracts}
use pinelib.Intent.Tape.{begin_callback}
use pinelib.Strategy.Ledger.{LedgerView}
use pinelib.Strategy.Context.{
  commit_intents_for_current_bar, commit_scalar_history, Strategy, begin_intent_callback,
  attach_strategy_ledger_view,
}
use pinelib.Strategy.Attach.{Reading}
use pinelib.Backtest.{
  run_generated_strategy, run_all, run_passes, Progress, StrategySchedule, Callback, Progress,
  Projection, StrategySchedule, run_all, run_indexed_bar, run_passes, run_strategy_pass,
  run_whole_bar, refresh_ledger_view, Projection,
}
use pinelib.Backtest.Snapshots.{bar_of, counted_from, numbered, snapshot_from_state_total}

module _ {F S : Type 0} where
  -- A callback that returns, and leaves the bar and what the driver reads of the declaration.
  pub record Tame (callback : Callback F S) : Type 0 where
    pub returns :
        (rt : Runtime F S) (s : Strategy F)
        → IsReady rt
        → (rt' : Runtime F S) × (s' : Strategy F) × (callback rt s ≡ ok (rt', s'))
          × IsReady rt'
          × (rt'.current_bar ≡ rt.current_bar)
          × (rt'.bar_index ≡ rt.bar_index)
          × (s'.declaration ≡ s.declaration)

  abbrev pub Projects : Option (Projection F S) → Type 0
  Projects none = Unit
  Projects (some project) =
      (rt : Runtime F S) (s : Strategy F) → (v : LedgerView F) × (project rt s ≡ ok v)

  refresh_ledger_view_total :
      (projection : Option (Projection F S)) (rt : Runtime F S) (s : Strategy F)
      → Projects projection
      → (w : Strategy F) × (refresh_ledger_view projection rt s ≡ ok w)
        × (w.declaration ≡ s.declaration)
  unfolding refresh_ledger_view attach_strategy_ledger_view
  refresh_ledger_view_total none rt s h = (s, refl, refl)
  refresh_ledger_view_total (some project) rt s h =
      let (v, e) = h rt s in (attach_strategy_ledger_view v s, rw e refl, refl)

  begin_intent_callback_total :
      (ct : Contracts F) (rt : Runtime F S) (s : Strategy F)
      → ct.is_blank "BAR_BEGIN" ≡ false
      → ((begin_intent_callback ct rt "BAR_BEGIN" (pos 0) s).1 ≡ ok tt)
        × ((begin_intent_callback ct rt "BAR_BEGIN" (pos 0) s).0.declaration ≡ s.declaration)
  unfolding begin_intent_callback begin_callback
  begin_intent_callback_total ct rt s h = (ground arith, ground arith)

module _ {F S : Type 0} (fl : Float F) (ct : Contracts F) (named : ct.is_blank "BAR_BEGIN" ≡ false)
    (callback : Callback F S) (tame : Tame callback) (projection : Option (Projection F S))
    (projects : Projects projection) where
  run_strategy_pass_total :
      (rt : Runtime F S) (s : Strategy F)
      → IsReady rt
      → (rt' : Runtime F S) × (s' : Strategy F) × (run_strategy_pass fl ct callback projection 0 rt
            s
          ≡ ok (rt', s'))
        × IsReady rt'
        × (rt'.current_bar ≡ rt.current_bar)
        × (rt'.bar_index ≡ rt.bar_index)
        × (s'.declaration ≡ s.declaration)
  unfolding run_strategy_pass
  run_strategy_pass_total rt s r =
      let (seen, e1, d1) = refresh_ledger_view_total projection rt s projects in
      let (e2, d2) = begin_intent_callback_total ct rt seen named in
      let begun = (begin_intent_callback ct rt "BAR_BEGIN" (pos 0) seen).0 in
      let (rt', s', e3, r3, c3, i3, d3) = tame.returns rt begun r in
      (rt', s', rw (e1, e2) e3, r3, c3, i3, d3 ∙ d2 ∙ d1)

  run_whole_bar_total :
      (is_last : Bool) (bar : Bar F) (rt : Runtime F S) (s : Strategy F)
      → IsReady rt
      → is_some bar.time_close ≡ true
      → (rt' : Runtime F S) × (s' : Strategy F) × (run_whole_bar fl ct callback projection false
            is_last bar rt s
          ≡ ok (rt', s'))
        × IsReady rt'
        × (rt'.current_bar ≡ some bar)
        × (rt'.bar_index ≡ rt.bar_index)
        × (s'.declaration ≡ s.declaration)
  unfolding run_whole_bar set_last_confirmed_history
  run_whole_bar_total is_last bar rt s r h =
      let (begun, e1, r1, c1, b1, i1) = begin_bar_total fl bar rt r h in
      let opened = set_last_confirmed_history is_last begun in
      let (rt', s', e2, r2, c2, i2, d2) =
        run_strategy_pass_total opened s
          (record { builtins = r1.builtins; committed = r1.committed }) in
      (
        rt',
        s',
        rw e1 (or_raise-some opened.current_bar runtime_error _ c1 ∙ e2),
        r2,
        c2 ∙ c1,
        i2 ∙ i1,
        d2,
      )

  run_passes_total :
      (schedule : StrategySchedule) (last_confirmed : ℤ) (idx : ℕ) (bar : Bar F) (rt : Runtime F S)
      (s : Strategy F)
      → IsReady rt
      → is_some bar.time_close ≡ true
      → (s.declaration.calc_on_every_tick && schedule.calc_on_every_tick) ≡ false
      → (rt' : Runtime F S) × (s' : Strategy F) × (run_passes fl ct callback projection schedule
            last_confirmed idx [] bar rt s
          ≡ ok ((rt', s'), idx))
        × IsReady rt'
        × (rt'.current_bar ≡ some bar)
        × (rt'.bar_index ≡ rt.bar_index)
        × (s'.declaration ≡ s.declaration)
  unfolding run_passes
  run_passes_total schedule last_confirmed idx bar rt s r h t =
      let (rt', s', e, r1, c1, i1, d1) =
        run_whole_bar_total (pos idx == last_confirmed) bar rt s r h in
      (rt', s', rw t (rw e refl), r1, c1, i1, d1)

  run_indexed_bar_total :
      (schedule : StrategySchedule) (last_confirmed : ℤ) (count idx : ℕ) (bar : Bar F)
      (p : Progress F S)
      → IsReady p.runtime
      → is_some bar.time_close ≡ true
      → (p.strategy.declaration.calc_on_every_tick && schedule.calc_on_every_tick) ≡ false
      → (q : Progress F S) × (run_indexed_bar fl ct callback projection schedule last_confirmed
            count idx [] bar p
          ≡ ok q)
        × IsReady q.runtime
        × (q.runtime.bar_index ≡ p.runtime.bar_index +ℤ pos 1)
        × (q.strategy.declaration ≡ p.strategy.declaration)
        × (map bar_of q.snapshots
            ≡ map bar_of p.snapshots ++ (q.runtime.bar_index, bar.time, bar.close) ∷ [])
        × (q.reported ≡ p.reported ++ (suc idx, count) ∷ [])
  unfolding run_indexed_bar commit_intents_for_current_bar commit_scalar_history
  run_indexed_bar_total schedule last_confirmed count idx bar p r h t =
      let (rt, s, e1, r1, c1, i1, d1) =
        run_passes_total schedule last_confirmed idx bar p.runtime p.strategy r h t in
      let sealed = commit_intents_for_current_bar rt s in
      let (ended, e2, r2, _, i2, c2) = end_bar_total fl bar rt r1 c1 in
      let (shot, e3, same) = snapshot_from_state_total ended sealed bar (c2 ∙ c1) in
      (
        record {
          runtime = ended;
          strategy = commit_scalar_history sealed;
          snapshots = p.snapshots ++ shot ∷ [];
          reported = p.reported ++ (suc idx, count) ∷ [];
        },
        rw (e1, e2, e3) refl,
        r2,
        rw i2 (ap (λ i. i +ℤ pos 1) i1),
        d1,
        map-append bar_of p.snapshots (shot ∷ []) ∙ ap (λ x. map bar_of p.snapshots ++ x ∷ []) same,
        refl,
      )

  run_all_total :
      (schedule : StrategySchedule) (last_confirmed : ℤ) (count idx : ℕ) (bars : List (Bar F))
      (p : Progress F S)
      → IsReady p.runtime
      → All (λ b. is_some b.time_close ≡ true) bars
      → (p.strategy.declaration.calc_on_every_tick && schedule.calc_on_every_tick) ≡ false
      → (q : Progress F S) × (run_all fl ct callback projection schedule last_confirmed count [] idx
            bars p
          ≡ ok q)
        × (map bar_of q.snapshots ≡ map bar_of p.snapshots ++ numbered p.runtime.bar_index bars)
        × (q.reported ≡ p.reported ++ counted_from idx count bars)
  unfolding run_all
  run_all_total schedule last_confirmed count idx [] p r h t =
      (p, refl, sym (append-nil _), sym (append-nil _))
  run_all_total schedule last_confirmed count idx (b ∷ bars) p r h t =
      let (m, e1, r1, i1, d1, s1, n1) =
        run_indexed_bar_total schedule last_confirmed count idx b p r h.0 t in
      let same = ap (λ d. d.calc_on_every_tick && schedule.calc_on_every_tick) d1 in
      let (q, e2, s2, n2) =
        run_all_total schedule last_confirmed count (suc idx) bars m r1 h.1 (same ∙ t) in
      (
        q,
        rw e1 e2,
        rw (s2, s1, i1) (append_assoc (map bar_of p.snapshots) (_ ∷ []) _),
        rw (n2, n1) (append_assoc p.reported (_ ∷ []) _),
      )

  -- From a ready runtime that has the strategy, a run over historical bars that have a close time
  -- ends when the callback always returns and keeps the bar, the projection always returns, the
  -- phase is not blank and the passes are not per tick; it takes one snapshot of each bar, in
  -- order, whose index counts on from the runtime's, and reports each bar by its number out of
  -- all.
  pub run_generated_strategy_ends :
      (rd : Reading F) (schedule : StrategySchedule) (bars : List (Bar F)) (rt : Runtime F S)
      (s : Strategy F)
      → IsReady rt
      → All (λ b. is_some b.time_close ≡ true) bars
      → (s.declaration.calc_on_every_tick && schedule.calc_on_every_tick) ≡ false
      → (q : Progress F S) × (run_generated_strategy fl rd ct callback projection schedule true bars
            [] rt s
          ≡ ok q)
        × (map bar_of q.snapshots ≡ numbered rt.bar_index bars)
        × (q.reported ≡ counted_from 0 (length bars) bars)
  unfolding run_generated_strategy
  run_generated_strategy_ends rd schedule bars rt s r h t =
      run_all_total schedule (pos (length bars) -ℤ pos 1) (length bars) 0 bars
        (record { runtime = rt; strategy = s; snapshots = []; reported = [] }) r h t
