-- ===== src/Core/Runtime/Lifecycle/Total.antt =====
-- Bars with a close time run through without an exception, and are read back bar by bar.
use pinelib.Prelude.{
  All, Bool, List, Option-cases, String, [], arith, false, inl, inr, int_eq, is_some, map, nat_eq,
  ok, ok-injective, pair_eq, refl, string_eq, sym, true, ◌∷◌, ◌≡◌, append-nil, append_assoc, length,
  not, some, ◌++◌, ◌==◌, option_eq,
}
use pinelib.Prelude.Int.{pos, ◌+ℤ◌}
use pinelib.Prelude.Dict.{contains, get, get-put, put}
use pinelib.Core.Value.{Value, Float, is_sentinel}
use pinelib.Core.Series.{Series, set_current}
use pinelib.Core.Bar.{Bar}
use pinelib.Core.Runtime.State.{Runtime, Registry}
use pinelib.Core.Runtime.Registry.{
  set_all, builtin_values, commit_all, commit_one, reopen_all, set_builtin_current, set_registered,
}
use pinelib.Core.Runtime.Registry.Laws.{commit_all_total, get-reopen_all}
use pinelib.Core.Runtime.Lifecycle.{
  begin_bar, end_bar, exposed_bar_index, normalize_bar, opened_barstate,
}
use pinelib.Core.Runtime.Lifecycle.History.{run_bars, run_bar}

module _ {F : Type 0} where
  -- No name is lost.
  abbrev pub Grows : Registry F → Registry F → Type 0
  Grows reg reg' = (j : String) → contains j reg ≡ true → contains j reg' ≡ true

  Grows-put : (n : String) (s : Series F) (reg : Registry F) → Grows reg (put n s reg)
  Grows-put n s reg j h = ground (arith, get-put n j s reg)

  abbrev pub AllIn : List String → Registry F → Type 0
  AllIn names reg = All (λ n. contains n reg ≡ true) names

  pub AllIn-Grows :
      (names : List String) (reg reg' : Registry F)
      → Grows reg reg'
      → AllIn names reg
      → AllIn names reg'
  AllIn-Grows [] reg reg' g h = tt
  AllIn-Grows (n ∷ names) reg reg' g h = (g n h.0, AllIn-Grows names reg reg' g h.1)

  abbrev pub names_of : List (String × Value F) → List String
  names_of ps = map (λ p. p.0) ps

  pub set_all_total :
      (ps : List (String × Value F)) (reg : Registry F)
      → AllIn (names_of ps) reg
      → All (λ p. is_sentinel (p.1) ≡ false) ps
      → (reg' : Registry F) × (set_all ps reg ≡ ok reg') × Grows reg reg'
  unfolding set_all set_registered set_current
  set_all_total [] reg h v = (reg, refl, λ j k. k)
  set_all_total ((n, v) ∷ ps) reg h nv = elim (Option-cases (get n reg)) [
    | inl x ↦ absurd (ground arith)
    | inr (s, es) ↦
        let t = record s { current = v; between_bars = false } in
        let mid = put n t reg in
        let (reg', e, g) =
          set_all_total ps mid (AllIn-Grows (names_of ps) reg mid (Grows-put n t reg) h.1) nv.1 in
        (reg', ground arith, λ j k. g j (Grows-put n t reg j k))
  ]

  Grows-commit_all :
      (r : Bool) (names : List String) (reg reg' : Registry F)
      → commit_all r names reg ≡ ok reg'
      → Grows reg reg'
  unfolding commit_all
  Grows-commit_all r [] reg reg' e j h = rw (sym (ok-injective e)) h
  Grows-commit_all r (n ∷ names) reg reg' e j h = elim (Option-cases (get n reg)) [
    | inl x ↦ absurd (ground arith)
    | inr (s, es) ↦
        let mid = put n (commit_one r s) reg in
        Grows-commit_all r names mid reg' (ground arith) j (Grows-put n (commit_one r s) reg j h)
  ]

  Grows-reopen_all : (reg : Registry F) → Grows reg (reopen_all reg)
  Grows-reopen_all reg j h = ground (arith, get-reopen_all j reg)

abbrev pub builtin_names : List String
builtin_names =
    "open" ∷ "high" ∷ "low" ∷ "close" ∷ "volume" ∷ "time" ∷ "time_close" ∷ "bar_index" ∷ []

module _ {F S : Type 0} where
  -- The builtin series and all series to be committed are registered.
  pub record IsReady (rt : Runtime F S) : Type 0 where
    pub builtins : AllIn builtin_names rt.series_registry
    pub committed : AllIn rt.commit_order rt.series_registry

module _ {F S : Type 0} (fl : Float F) where
  normalize_bar-closed :
      (b : Bar F) (rt : Runtime F S) → is_some b.time_close ≡ true → normalize_bar fl rt b ≡ ok b
  unfolding normalize_bar
  normalize_bar-closed b rt h = ground arith

  pub begin_bar_total :
      (b : Bar F) (rt : Runtime F S)
      → IsReady rt
      → is_some b.time_close ≡ true
      → (mid : Runtime F S) × (begin_bar fl b rt ≡ ok mid)
        × IsReady mid
        × (mid.current_bar ≡ some b)
        × (mid.chart_bars ≡ rt.chart_bars ++ b ∷ [])
        × (mid.bar_index ≡ rt.bar_index)
  unfolding begin_bar set_builtin_current
  begin_bar_total b rt r h =
      let i = exposed_bar_index rt (rt.bar_index +ℤ pos 1) in
      let reg = reopen_all rt.series_registry in
      let g0 = Grows-reopen_all rt.series_registry in
      let (mid, e1, g1) =
        set_all_total (builtin_values b i) reg
          (AllIn-Grows builtin_names rt.series_registry reg g0 r.builtins)
          (refl, (refl, (refl, (refl, (refl, (refl, (ground arith, (refl, tt)))))))) in
      let kept = λ (names : List String) (k : AllIn names rt.series_registry).
        AllIn-Grows names reg mid g1 (AllIn-Grows names rt.series_registry reg g0 k) in
      (
        record rt {
          current_bar = some b;
          chart_bars = rt.chart_bars ++ b ∷ [];
          barstate = opened_barstate false i;
          series_registry = mid;
        },
        rw (normalize_bar-closed b rt h) (rw e1),
        record {
          builtins = kept builtin_names r.builtins;
          committed = kept rt.commit_order r.committed;
        },
        refl,
        refl,
        refl,
      )

  pub end_bar_total :
      (b : Bar F) (rt : Runtime F S)
      → IsReady rt
      → rt.current_bar ≡ some b
      → (rt' : Runtime F S) × (end_bar rt ≡ ok rt')
        × IsReady rt'
        × (rt'.chart_bars ≡ rt.chart_bars)
        × (rt'.bar_index ≡ rt.bar_index +ℤ pos 1)
        × (rt'.current_bar ≡ rt.current_bar)
  unfolding end_bar
  end_bar_total b rt r h =
      let (reg', e) =
        commit_all_total rt.barstate.isrealtime rt.commit_order rt.series_registry r.committed in
      let g = Grows-commit_all rt.barstate.isrealtime rt.commit_order rt.series_registry reg' e in
      (
        record rt {
          series_registry = reg';
          bar_index = rt.bar_index +ℤ pos 1;
          barstate = record {
            isfirst = exposed_bar_index rt (rt.bar_index +ℤ pos 1) == pos 0;
            islast = true;
            ishistory = not rt.barstate.isrealtime;
            isrealtime = rt.barstate.isrealtime;
            isnew = false;
            isconfirmed = true;
            islastconfirmedhistory = rt.barstate.islastconfirmedhistory;
          };
        },
        ground arith,
        record {
          builtins = AllIn-Grows builtin_names rt.series_registry reg' g r.builtins;
          committed = AllIn-Grows rt.commit_order rt.series_registry reg' g r.committed;
        },
        refl,
        refl,
        refl,
      )

  -- A ready runtime runs any bars that have a close time to a result, which holds the bars and
  -- counts them.
  pub run_bars_total :
      (bs : List (Bar F)) (rt : Runtime F S)
      → IsReady rt
      → All (λ b. is_some b.time_close ≡ true) bs
      → (rt' : Runtime F S) × (run_bars fl bs rt ≡ ok rt')
        × (rt'.chart_bars ≡ rt.chart_bars ++ bs)
        × (rt'.bar_index ≡ rt.bar_index +ℤ pos (length bs))
  unfolding run_bars run_bar
  run_bars_total [] rt r h = (rt, refl, sym (append-nil _), ground arith)
  run_bars_total (b ∷ bs) rt r h =
      let (mid, e1, r1, c1, cb, i1) = begin_bar_total b rt r h.0 in
      let (mid', e2, r2, cb', i2, _) = end_bar_total b mid r1 c1 in
      let (rt', e3, cb'', i3) = run_bars_total bs mid' r2 h.1 in
      (
        rt',
        rw (e1, e2) e3,
        rw (cb'', cb', cb) (append_assoc rt.chart_bars (b ∷ []) bs),
        rw (i3, i2, i1) (ground arith),
      )
