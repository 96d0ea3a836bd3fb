-- ===== src/Core/Runtime/Lifecycle/History.antt =====
-- Over a run of historical bars the builtin series are the columns of the bars.
use pinelib.Prelude.{
  List, Result, String, [], false, ok, refl, some, ◌>>=◌, ◌∷◌, ◌≡◌, >>=-eq-ok, Option-cases, ap,
  arith, inl, inr, ok-injective, sym, int_eq, nat_eq, pair_eq, string_eq, map, true, ◌∙◌,
}
use pinelib.Prelude.Int.{ℤ, pos, ◌+ℤ◌, ◌-ℤ◌}
use mathlib.Core.Option
use pinelib.Prelude.Dict.{IsUnique, get}
use pinelib.Core.Value.{Value, Float, float, int}
use pinelib.Core.Series.{Series, set_current}
use pinelib.Core.Series.Timeline.{feed, one_bar}
use pinelib.Core.Bar.{Bar, make_bar, with_time_close}
use pinelib.Core.Runtime.State.{Runtime}
use pinelib.Core.Runtime.Registry.{
  builtin_values, reopen_all, set_builtin_current, commit_all, reopen, commit_one,
}
use pinelib.Core.Runtime.Registry.Laws.{
  get-set_all_self, HasNoRepeat, listed, get-commit_all, get-reopen_all,
}
use pinelib.Core.Runtime.Lifecycle.{
  begin_bar, end_bar, normalize_bar, exposed_bar_index, inferred_bar,
}

pub data Column : Type 0 where
  open_price high low close volume time : Column

abbrev pub column_name : Column → String
column_name open_price = "open"
column_name high = "high"
column_name low = "low"
column_name close = "close"
column_name volume = "volume"
column_name time = "time"

module _ {F : Type 0} where
  abbrev pub column : Column → Bar F → Value F
  column open_price b = float b.open_price
  column high b = float b.high
  column low b = float b.low
  column close b = float b.close
  column volume b = float b.volume
  column time b = int (pos b.time)

  one_bar-reopen :
      (v : Value F) (s u : Series F)
      → set_current v (reopen s) ≡ ok u
      → one_bar v s ≡ ok (commit_one false u)
  unfolding one_bar set_current commit_one
  one_bar-reopen v s u e = ground arith

  builtin_values-column :
      (c : Column) (b : Bar F) (i : ℤ)
      → get (column_name c) (builtin_values b i) ≡ some (column c b)
  builtin_values-column open_price b i = refl
  builtin_values-column high b i = refl
  builtin_values-column low b i = refl
  builtin_values-column close b i = refl
  builtin_values-column volume b i = refl
  builtin_values-column time b i = refl

  builtin_values-IsUnique : (b : Bar F) (i : ℤ) → IsUnique (builtin_values b i)
  builtin_values-IsUnique b i = (refl, (refl, (refl, (refl, (refl, (refl, (refl, (refl, tt))))))))

module _ {F : Type 0} (fl : Float F) where
  with_time_close-column :
      (c : Column) (tc : ℤ) (b b' : Bar F)
      → with_time_close fl tc b ≡ ok b'
      → column c b' ≡ column c b
  unfolding with_time_close make_bar
  with_time_close-column open_price tc b b' e = ground arith
  with_time_close-column _ tc b b' e = ground arith

module _ {F S : Type 0} (fl : Float F) where
  inferred_bar-column :
      (c : Column) (rt : Runtime F S) (b b' : Bar F)
      → inferred_bar fl rt b ≡ ok b'
      → column c b' ≡ column c b
  unfolding inferred_bar
  inferred_bar-column c rt b b' e = elim (Option-cases rt.timeframe.interval_ms) [
    | inl x ↦ ground arith
    | inr (i, ei) ↦ ground (arith, with_time_close-column fl c (pos b.time +ℤ pos i -ℤ pos 1) b b')
  ]

  -- Inferring the close time keeps the columns.
  normalize_bar-column :
      (c : Column) (rt : Runtime F S) (b b' : Bar F)
      → normalize_bar fl rt b ≡ ok b'
      → column c b' ≡ column c b
  unfolding normalize_bar
  normalize_bar-column c rt b b' e = elim (Option-cases b.time_close) [
    | inl no_close ↦ ground (arith, inferred_bar-column c rt b b')
    | inr (u, eu) ↦ ground arith
  ]

  -- A historical bar, from `begin_bar` to `end_bar`.
  unfoldable pub run_bar : Bar F → Runtime F S → Result (Runtime F S)
  run_bar b rt = do open_rt ← begin_bar fl b rt; end_bar open_rt

  unfoldable pub run_bars : List (Bar F) → Runtime F S → Result (Runtime F S)
  run_bars [] rt = ok rt
  run_bars (b ∷ bs) rt = do rt' ← run_bar b rt; run_bars bs rt'

  -- What opening a bar does to the runtime.
  begin_bar-inv :
      (b : Bar F) (rt rt' : Runtime F S)
      → begin_bar fl b rt ≡ ok rt'
      → (eff : Bar F) × (i : ℤ) × (normalize_bar fl rt b ≡ ok eff)
        × (set_builtin_current eff i (reopen_all rt.series_registry) ≡ ok rt'.series_registry)
        × (rt'.commit_order ≡ rt.commit_order)
        × (rt'.barstate.isrealtime ≡ false)
  unfolding begin_bar
  begin_bar-inv b rt rt' e =
      let (eff, e1, e2) = >>=-eq-ok (normalize_bar fl rt b) _ e in
      let (reg, e3, e4) =
        >>=-eq-ok
          (set_builtin_current eff (exposed_bar_index rt (rt.bar_index +ℤ pos 1))
            (reopen_all rt.series_registry))
          _ e2 in
      (
        eff,
        exposed_bar_index rt (rt.bar_index +ℤ pos 1),
        e1,
        rw e3 (ap (λ r. ok (r.series_registry)) (ok-injective e4)),
        sym (ap (λ r. r.commit_order) (ok-injective e4)),
        sym (ap (λ r. r.barstate.isrealtime) (ok-injective e4)),
      )

  end_bar-inv :
      (rt rt' : Runtime F S)
      → end_bar rt ≡ ok rt'
      → (commit_all rt.barstate.isrealtime rt.commit_order rt.series_registry
          ≡ ok rt'.series_registry)
        × (rt'.commit_order ≡ rt.commit_order)
        × (rt'.bar_index ≡ rt.bar_index +ℤ pos 1)
  unfolding end_bar
  end_bar-inv rt rt' e = elim (Option-cases rt.current_bar) [
    | inl x ↦ absurd (ground arith)
    | inr (b, eb) ↦
        let (reg, e1, e2) =
          >>=-eq-ok (commit_all rt.barstate.isrealtime rt.commit_order rt.series_registry) _
            (rw eb at e) in
        (
          rw e1 (ap (λ r. ok (r.series_registry)) (ok-injective e2)),
          sym (ap (λ r. r.commit_order) (ok-injective e2)),
          sym (ap (λ r. r.bar_index) (ok-injective e2)),
        )
  ]

  -- The series of a column goes through one bar of a series.
  run_bar-column :
      (c : Column) (b : Bar F) (rt rt' : Runtime F S) (s : Series F)
      → HasNoRepeat rt.commit_order
      → listed (column_name c) rt.commit_order ≡ true
      → get (column_name c) rt.series_registry ≡ some s
      → run_bar b rt ≡ ok rt'
      → (t : Series F) × (one_bar (column c b) s ≡ ok t)
        × (get (column_name c) rt'.series_registry ≡ some t)
        × (rt'.commit_order ≡ rt.commit_order)
  unfolding run_bar set_builtin_current
  run_bar-column c b rt rt' s nr ls gs e =
      let (mid, e1, e2) = >>=-eq-ok (begin_bar fl b rt) _ e in
      let (eff, i, en, es, eo, er) = begin_bar-inv b rt mid e1 in
      let (ec, eo', ei) = end_bar-inv mid rt' e2 in
      let (u, eu, gu) =
        get-set_all_self (column_name c) (builtin_values eff i) (reopen_all rt.series_registry)
          mid.series_registry (reopen s) (column c eff) (builtin_values-IsUnique eff i)
          (builtin_values-column c eff i)
          (get-reopen_all (column_name c) rt.series_registry ∙ ap (Option.map reopen) gs) es in
      let ev : column c eff ≡ column c b = normalize_bar-column c rt b eff en in
      (
        commit_one false u,
        one_bar-reopen (column c b) s u (rw (sym ev) eu),
        get-commit_all mid.barstate.isrealtime (column_name c) mid.commit_order mid.series_registry
              rt'.series_registry (rw eo nr) ec
            ∙ rw (eo, ls, gu, er),
        eo' ∙ eo,
      )

  -- The series of a column goes through all the bars.
  pub run_bars-column :
      (c : Column) (bs : List (Bar F)) (rt rt' : Runtime F S) (s : Series F)
      → HasNoRepeat rt.commit_order
      → listed (column_name c) rt.commit_order ≡ true
      → get (column_name c) rt.series_registry ≡ some s
      → run_bars bs rt ≡ ok rt'
      → (t : Series F) × (feed (map (column c) bs) s ≡ ok t)
        × (get (column_name c) rt'.series_registry ≡ some t)
  unfolding run_bars feed
  run_bars-column c [] rt rt' s nr ls gs e =
      (s, refl, ap (λ r. get (column_name c) (r.series_registry)) (sym (ok-injective e)) ∙ gs)
  run_bars-column c (b ∷ bs) rt rt' s nr ls gs e =
      let (mid, e1, e2) = >>=-eq-ok (run_bar b rt) _ e in
      let (u, eu, gu, eo) = run_bar-column c b rt mid s nr ls gs e1 in
      let (t, et, gt) = run_bars-column c bs mid rt' u (rw eo nr) (rw eo ls) gu e2 in
      (t, rw eu et, gt)
