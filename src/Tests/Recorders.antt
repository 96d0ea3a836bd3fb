-- ===== src/Tests/Recorders.antt =====
-- Runs of the recorders on concrete inputs.
use pinelib.Prelude.{ℕ, string_eq, int_eq, All, [], arith, none, ok, refl, some, ◌∷◌, ◌≡◌, ◌≢◌}
use pinelib.Prelude.Int.{pos}
use pinelib.Core.Value.{int}
use pinelib.Recorders.Visual.{VisualRecorder, line, delete_object, new, new_object, VisualEvent}
use pinelib.Recorders.Visual.Log.{IsWellFormed, new_object-IsWellFormed}
use pinelib.Recorders.Visual.Calls.{Calls-IsWellFormed, made, more, deleted, stay}
use pinelib.Recorders.Plot.{
  PlotRecorder, get_data_by_time, get_data_by_time-last, look_up, plot_record, tuple,
}

abbrev empty_recorder : VisualRecorder ℕ
empty_recorder = record { max_counts = (line, 2) ∷ []; next_id = 1; objects = []; events = [] }

empty_recorder-IsWellFormed : IsWellFormed empty_recorder
empty_recorder-IsWellFormed = record {
  described = refl;
  unique = tt;
  logged = tt;
  numbered = λ id a h. ground arith;
  limited = λ kind limit h. omega arith;
}

abbrev one_line : VisualRecorder ℕ
one_line = record {
  max_counts = (line, 2) ∷ [];
  next_id = 2;
  objects = ((line, 1), ("width", 3) ∷ []) ∷ [];
  events = record { action = new; object_id = (line, 1); attrs = ("width", 3) ∷ [] } ∷ [];
}

drawn : new_object line (("width", 3) ∷ []) empty_recorder ≡ ok ((line, 1), one_line)
unfolding new_object
drawn = refl

new_object-IsWellFormed_example :
    IsWellFormed one_line × All (λ (e : VisualEvent ℕ). e.object_id ≢ (line, 1)) []
new_object-IsWellFormed_example =
    new_object-IsWellFormed line (("width", 3) ∷ []) empty_recorder one_line (line, 1)
      empty_recorder-IsWellFormed drawn

Calls-IsWellFormed_example : IsWellFormed (delete_object (line, 1) one_line)
Calls-IsWellFormed_example =
    Calls-IsWellFormed empty_recorder (delete_object (line, 1) one_line)
      (more _ _ _ (made line (("width", 3) ∷ []) empty_recorder one_line (line, 1) drawn)
        (more _ _ _ (deleted (line, 1) one_line) (stay _)))
      empty_recorder-IsWellFormed

abbrev plots : PlotRecorder ℕ ℕ
plots = record {
  records =
      tuple (pos 5) (pos 0) (int (pos 1)) "a"
      ∷ plot_record (pos 5) (pos 0) "plot" (int (pos 2)) "a" 0
      ∷ tuple (pos 6) (pos 1) (int (pos 3)) "a"
      ∷ [];
  from_time = none;
  to_time = none;
}

get_data_by_time-last_example : look_up (pos 5) "a" (get_data_by_time plots) ≡ some (int (pos 2))
get_data_by_time-last_example = get_data_by_time-last (pos 5) "a" plots
