-- ===== src/Recorders/Plot.antt =====
-- Plot records (pinelib/plot.py). A plot call by the fast path stores a tuple, any other a
-- PlotRecord, in one list. A is the type of the extra keyword arguments.
use pinelib.Prelude.{
  int_eq, string_eq, Bool, List, Option, String, [], ap, arith, if◌then◌else◌, nat_eq, none,
  option_eq, or_else, pair_eq, refl, some, true, ◌&&◌, ◌++◌, ◌==◌, ◌∙◌, ◌∷◌, ◌≡◌,
}
use pinelib.Prelude.Int.{ℤ, leb_ℤ}
use pinelib.Prelude.Dict.{Dict, get, put, get-put}
use pinelib.Core.Value.{Value}
use pinelib.Core.Series.{Series}

-- What is plotted: a series, or a value of its own.
pub data Plotted (F : Type 0) : Type 0 where
  of_series : Series F → Plotted F
  of_value : Value F → Plotted F

pub data Record (F A : Type 0) : Type 0 where
  plot_record : ℤ → ℤ → String → Value F → String → A → Record F A
  tuple : ℤ → ℤ → Value F → String → Record F A

pub record PlotRecorder (F A : Type 0) : Type 0 where
  pub records : List (Record F A)
  pub from_time : Option ℤ
  pub to_time : Option ℤ

module _ {F : Type 0} where
  -- `_snapshot_plot_value`
  unfoldable pub snapshot_plot_value : Plotted F → Value F
  snapshot_plot_value (of_series s) = s.current
  snapshot_plot_value (of_value v) = v

module _ {F : Type 0} where
  -- One round of the loop of `get_data_by_time`.
  abbrev pub store :
      ℤ × String × Value F → Dict ℤ (Dict String (Value F)) → Dict ℤ (Dict String (Value F))
  store (t, title, value) data_by_time =
      put t (put title value (or_else (get t data_by_time) [])) data_by_time

  -- The value of a title at a time, where the data has one.
  abbrev pub look_up : ℤ → String → Dict ℤ (Dict String (Value F)) → Option (Value F)
  look_up t title d = get title (or_else (get t d) [])

  look_up-store :
      (t : ℤ) (title : String) (e : ℤ × String × Value F) (d : Dict ℤ (Dict String (Value F)))
      → look_up t title (store e d)
        ≡ (if (e.0 == t) && (e.1 == title) then some e.2 else look_up t title d)
  look_up-store t title (u, name, v) d = ground (
    arith,
    get-put u t (put name v (or_else (get u d) [])) d,
    get-put name title v (or_else (get u d) []),
    int_eq.beq_iff u t,
  )

module _ {F A : Type 0} where
  unfoldable pub new_plot_recorder : PlotRecorder F A
  new_plot_recorder = record { records = []; from_time = none; to_time = none }

  unfoldable pub set_time_window : Option ℤ → Option ℤ → PlotRecorder F A → PlotRecorder F A
  set_time_window from to r = record r { from_time = from; to_time = to }

  unfoldable pub in_time_window : ℤ → PlotRecorder F A → Bool
  in_time_window t r =
      elim r.from_time [ none ↦ true | some from ↦ leb_ℤ from t ]
      && elim r.to_time [ none ↦ true | some to ↦ leb_ℤ t to ]

  -- `record`
  unfoldable pub record_call :
      ℤ → ℤ → String → Plotted F → String → A → PlotRecorder F A → PlotRecorder F A
  unfolding in_time_window snapshot_plot_value
  record_call t i name value title kwargs r =
      if in_time_window t r
      then record r {
        records = r.records ++ plot_record t i name (snapshot_plot_value value) title kwargs ∷ [];
      }
      else r

  unfoldable pub record_plot : ℤ → ℤ → Plotted F → String → PlotRecorder F A → PlotRecorder F A
  unfolding in_time_window snapshot_plot_value
  record_plot t i value title r =
      if in_time_window t r
      then record r { records = r.records ++ tuple t i (snapshot_plot_value value) title ∷ [] }
      else r

  unfoldable pub reset : PlotRecorder F A → PlotRecorder F A
  reset r = record r { records = [] }

  -- The time, the title and the value of a record.
  abbrev pub entry : Record F A → ℤ × String × Value F
  entry (plot_record t i name value title kwargs) = (t, title, value)
  entry (tuple t i value title) = (t, title, value)

  abbrev pub collect :
      List (Record F A) → Dict ℤ (Dict String (Value F)) → Dict ℤ (Dict String (Value F))
  collect [] result = result
  collect (r ∷ rs) result = collect rs (store (entry r) result)

  unfoldable pub get_data_by_time : PlotRecorder F A → Dict ℤ (Dict String (Value F))
  get_data_by_time r = collect r.records []

  -- The last record of the time and the title, which wins.
  abbrev pub last_plotted : ℤ → String → List (Record F A) → Option (Value F) → Option (Value F)
  last_plotted t title [] so_far = so_far
  last_plotted t title (r ∷ rs) so_far =
      let e = entry r in
      last_plotted t title rs (if (e.0 == t) && (e.1 == title) then some e.2 else so_far)

  look_up-collect :
      (t : ℤ) (title : String) (rs : List (Record F A)) (d : Dict ℤ (Dict String (Value F)))
      → look_up t title (collect rs d) ≡ last_plotted t title rs (look_up t title d)
  look_up-collect t title [] d = refl
  look_up-collect t title (r ∷ rs) d =
      look_up-collect t title rs (store (entry r) d)
      ∙ ap (last_plotted t title rs) (look_up-store t title (entry r) d)

  -- At every time and title, the collected data is the value of the last record of that time and
  -- title, and nothing where there is no such record.
  pub get_data_by_time-last :
      (t : ℤ) (title : String) (r : PlotRecorder F A)
      → look_up t title (get_data_by_time r) ≡ last_plotted t title r.records none
  unfolding get_data_by_time
  get_data_by_time-last t title r = look_up-collect t title r.records []
