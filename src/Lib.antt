-- ===== src/Lib.antt =====
-- A model of pinelib, a Python runtime for Pine scripts, with the theorems that make it correct.
--
-- The parts and the files that model them (paths from the repository's root):
--
-- pinelib/core: a PineRuntime runs a script over bars. Core/Value.antt has the values and the `na`
-- rules of core/na.py and core/operators.py, and Core/Series/Fixnan.antt has its fixnan; Core/Series.antt is core/series.py; Core/Bar.antt is
-- core/bar.py; Core/Runtime is core/runtime.py, where State.antt is the record of its fields,
-- Registry.antt the table of series (series, _set_builtin_current, the loops of begin_bar and end_bar),
-- Lifecycle.antt begin_bar, begin_realtime_bar, end_bar and the constructor, and Realtime.antt
-- update_realtime_tick. The attributes open, high, low, close, volume, time and time_close of a runtime
-- are the registry's series of that name.
--
-- pinelib/request: Request/Merge.antt is merge_requested_series_to_chart_bars with its cache
-- (_append_merged_requested_values) and Request/Intrabar.antt is _bars_inside_chart_bar, both of
-- request/security.py; Request/Provider.antt is InMemoryDataProvider of request/providers.py.
--
-- pinelib/strategy: Intent/Business.antt and Intent/Span.antt are the field and provenance checks of
-- intent_validation.py and _add_business_fields; Intent/Tape.antt and Intent/Tape/Record.antt are
-- IntentTape of intent_tape.py, whose `record` is `record_intent` here, with the constructor in
-- Intent/Tape/Construction.antt. An exception leaves the tape as it was, except in begin_callback,
-- which is modelled with the state it leaves.
--
-- Recorders/Visual.antt is pinelib/visual.py and Recorders/Plot.antt is pinelib/plot.py: `new_object`,
-- `set_object` and `delete_object` are `new`, `set` and `delete` of VisualRecorder, and `record_call` is
-- `record` of PlotRecorder.
--
-- pinelib/strategy, the script's side: Strategy/Models.antt is models.py; Strategy/Context.antt the
-- fields of a StrategyContext with the intent wiring of intent_context.py; Strategy/Orders.antt and
-- Strategy/Risk.antt its order and risk functions (`add_order` is `_add_order`, and `order` with its
-- own kind; `close_all_orders`, `cancel_order` and the others carry the source's name and a noun);
-- Strategy/Ledger.antt its reads of the broker's ledger; Strategy/Attach.antt attach_runtime with
-- assert_runtime_identity of execution_context.py. Strategy/Calls.antt is the relation of what calls
-- can do to a strategy. The runtime that a strategy is attached to is an argument.
--
-- pinelib/backtest.py: Backtest.antt is run_generated_strategy up to its report, where `run_passes` is
-- the inside of the loop over the bars up to the commit, and `run_ticks` its loop over ticks;
-- Backtest/Golden.antt is compare_golden. The driver calls the strategy, the strategy records on the
-- tape, and Backtest/Composition.antt carries the tape's theorems to a whole run.
--
-- pinelib/ta/_impl_states.py: Ta.antt has what the states share; Ta/Sar.antt, Ta/Extremes.antt,
-- Ta/Rolling.antt, Ta/Averages.antt and Ta/Oscillators with its children have one `..._update` for each
-- class's update. An argument is none where it is na; a result is none where the code returns na.
-- Python's floats round, so a sum that rolls is not the sum over the window: Ta/Rolling/Delay.antt
-- describes it by a delay line, with the additions and subtractions in the code's order.
-- Ta/Moving.antt has the states of pinelib/ta/_impl_core.py.
--
-- Parameters. Python's float is a type F with the operations of `Float`; what the theorems on ticks
-- need of its order is the hypothesis IsOrder, which speaks of numbers that are not NaN. `strip`,
-- `upper`, the content hashes, the sealing, the schema and the decimals of openpine_contracts are the
-- records and functions that a definition takes. A generated strategy's callback and the broker's
-- projection of its ledger are functions that the driver takes; what the ledger view holds is a record
-- of functions, and the projection only reads. The kinds of intents are the keys of the table of
-- allowed fields.
--
-- The search bisect_left of Python's standard library is written out (`bisect_left` of
-- Request/Intrabar.antt), with a lemma on what it finds. Python's conversions of an int to a float
-- and of a float to an int are parameters that may raise where the code is exposed to it: in
-- compare_golden and in the index of a trade.
--
-- Bounds. Integers are unbounded in Python and here. A bar's times are natural numbers because
-- `Bar.validate` refuses negative ones. The binary search runs on fuel, one more than the number of
-- bars, which halves the interval at each step and is enough; the merge loop's fuel is the number of
-- requested values that are left.
--
-- Not modelled: the texts of exceptions, arguments of a wrong type, checkpoints, the construction of a
-- strategy from keyword arguments, the report of a run, the functions that own the indicators' states,
-- time zones, containers and release tools. At most one runtime and one tape are in view: nothing
-- aliases their lists.
pub mod Prelude
pub mod Core
pub mod Request
pub mod Intent
pub mod Strategy
pub mod Backtest
pub mod Ta
pub mod Recorders
pub mod Tests
