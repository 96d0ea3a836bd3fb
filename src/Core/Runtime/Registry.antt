-- ===== src/Core/Runtime/Registry.antt =====
-- The registry of series: one object for each name, committed in the order of creation. An
-- attribute such as `runtime.close` is the registry's object, so it is written under its name.
pub mod Laws
use pinelib.Prelude.{
  ℕ, Bool, List, Option, Result, String, [], false, if◌then◌else◌, int_eq, key_error, nat_eq, none,
  not, ok, or_raise, pair_eq, raise, runtime_error, some, string_eq, ◌++◌, ◌==◌, ◌>>=◌, ◌>>◌, ◌∷◌,
}
use pinelib.Prelude.Int.{ℤ, pos}
use pinelib.Prelude.Dict.{Dict, get, put}
use pinelib.Core.Value.{Value, float, int, null}
use pinelib.Core.Series.{
  Series, TypeInfo, commit_current, mark_between_bars, new_series, set_current,
}
use pinelib.Core.Bar.{Bar}
use pinelib.Core.Runtime.State.{Runtime, Registry}

module _ {F : Type 0} where
  -- `series.set_current(value)` on the registry's object
  unfoldable pub set_registered : String → Value F → Registry F → Result (Registry F)
  set_registered name v reg = do
    s ← or_raise (get name reg) key_error
    t ← set_current v s
    ok (put name t reg)

  unfoldable pub set_all : List (String × Value F) → Registry F → Result (Registry F)
  set_all [] reg = ok reg
  set_all ((name, v) ∷ rest) reg = do reg' ← set_registered name v reg; set_all rest reg'

  -- `time_close` as the value of a series
  abbrev pub int_or_none : Option ℕ → Value F
  int_or_none none = null
  int_or_none (some n) = int (pos n)

  -- The writes of `_set_builtin_current`, in order.
  abbrev pub builtin_values : Bar F → ℤ → List (String × Value F)
  builtin_values bar current_index =
      ("open", float bar.open_price)
      ∷ ("high", float bar.high)
      ∷ ("low", float bar.low)
      ∷ ("close", float bar.close)
      ∷ ("volume", float bar.volume)
      ∷ ("time", int (pos bar.time))
      ∷ ("time_close", int_or_none bar.time_close)
      ∷ ("bar_index", int current_index)
      ∷ []

  unfoldable pub set_builtin_current : Bar F → ℤ → Registry F → Result (Registry F)
  set_builtin_current bar current_index = set_all (builtin_values bar current_index)

  abbrev pub reopen : Series F → Series F
  reopen s = record s { between_bars = false }

  -- `for series in self.series_registry.values(): series._between_bars = False`
  unfoldable pub reopen_all : Registry F → Registry F
  reopen_all [] = []
  reopen_all ((name, s) ∷ reg) = (name, reopen s) ∷ reopen_all reg

  -- One round of the loop in `end_bar`: a realtime bar's series stay open.
  unfoldable pub commit_one : Bool → Series F → Series F
  commit_one is_realtime s =
      if is_realtime then commit_current s else mark_between_bars (commit_current s)

  unfoldable pub commit_all : Bool → List String → Registry F → Result (Registry F)
  commit_all is_realtime [] reg = ok reg
  commit_all is_realtime (name ∷ names) reg = do
    s ← or_raise (get name reg) key_error
    commit_all is_realtime names (put name (commit_one is_realtime s) reg)

module _ {F S : Type 0} where
  -- `runtime.series(name, dtype, initial, type_info)`
  unfoldable pub series :
      String → String → Value F → Option TypeInfo → Runtime F S → Result (Series F × Runtime F S)
  series name dtype initial type_info rt = elim (get name rt.series_registry) [
    | some existing ↦
        if not (existing.dtype == dtype) then raise runtime_error else ok (existing, rt)
    | none ↦
        let fresh =
          new_series name dtype initial type_info (some rt.config.reference_history_mode) in
        ok (
          fresh,
          record rt {
            series_registry = put name fresh rt.series_registry;
            commit_order = rt.commit_order ++ name ∷ [];
          },
        )
  ]
