-- ===== src/Tests/Intent.antt =====
-- Runs of the intent tape on concrete inputs.
use Prim.Native.String.{◌++◌ as str_append}
use pinelib.Prelude.{
  ℕ, string_eq, List, String, [], arith, false, get_elem?, if◌then◌else◌, int_eq, nat_beq, nat_eq,
  none, ok, ok_value, option_eq, pair_eq, refl, some, true, ◌==◌, ◌∷◌, ◌≡◌,
}
use pinelib.Prelude.Int.{pos}
use pinelib.Intent.Contracts.{Contracts, Event, Fields, Identity, unknown, ExecutionContext}
use pinelib.Intent.Tape.{
  Tape, begin_callback, commit_bar, is_committed, series_identity, set_series_identity,
}
use pinelib.Intent.Tape.Record.{Command, record_intent}
use pinelib.Intent.Tape.Valid.{IsValid}
use pinelib.Intent.Tape.Frozen.{
  Steps, Steps-Kept, Steps-IsValid, Kept, began, committed, done, next, recorded,
}
use pinelib.Intent.Tape.Construction.{Arguments, new_tape, supplied, expected, new_tape-strict}
use pinelib.Intent.Tape.Naming.{set_series_identity-frozen}
use pinelib.Intent.Tape.Replay.{replay, record_all}

-- Contracts whose keys are the command and whether the ordinal is the first.
abbrev pub contracts : Contracts ℕ
contracts = record {
  delivery_key = λ d.
      if nat_beq d.invocation_ordinal 0 then d.command_id else str_append "again:" d.command_id;
  semantic_event_id = λ p. str_append "event:" p.idempotency_key;
  seal = λ p id. str_append "sealed:" id;
  validate_payload = λ e. ok tt;
  decimal = λ n. ok (if nat_beq n 0 then "0" else "1");
  in_schema = λ field. true;
  is_content_hash = λ h. true;
  is_blank = λ s. s == "";
  strip_upper = λ s. s;
}

abbrev identity : Identity
identity = record {
  run_id = "run";
  strategy_id = "strategy";
  series_id = "series";
  instrument_id = "BTC";
  timeframe = "1";
  producer = "pinelib";
  producer_version = "1";
  producer_commit = "c";
  stack_id = "s";
  semantic_profile = "strict_5x";
  strict_production = false;
  execution_context_hash = none;
}

abbrev pub blank : Tape
blank = record {
  identity = identity;
  context = none;
  events = [];
  event_ordinals = [];
  by_key = [];
  committed_bars = (pos 1, pos 10) ∷ [];
  callback = record {
    bar_index = 0;
    bar_open_time_utc_ms = 0;
    phase = "BAR";
    recalc_iteration = 0;
  };
  invocation_counts = [];
}

pub blank-IsValid : IsValid blank
blank-IsValid = record {
  ordinals = refl;
  numbered = λ i e h. ground arith;
  indexed = λ i e h. ground arith;
  listed = λ k e h. ground arith;
}

abbrev no_fields : Fields ℕ
no_fields = record {
  order_id = none;
  direction = none;
  qty = none;
  qty_percent = none;
  stop = none;
  limit = none;
  profit = none;
  loss = none;
  trail_price = none;
  trail_points = none;
  trail_offset = none;
  from_entry = none;
  oca_name = none;
  oca_type = none;
  comment = none;
  immediately = none;
  risk_rule = none;
  risk_value = none;
  risk_unit = none;
  risk_scope = none;
}

abbrev command : String → Fields ℕ → Command ℕ
command kind fields = record {
  kind = kind;
  command_id = "A";
  fields = fields;
  price = none;
  origin_command_kind = none;
  bar_index = none;
  bar_open_time_utc_ms = none;
  phase = none;
  recalc_iteration = none;
  source_span = none;
  invocation_ordinal = none;
}

abbrev buy : Command ℕ
buy =
    command "entry"
      (record no_fields { order_id = some "A"; direction = some "LONG"; qty = some 3 })

abbrev commands : List (Command ℕ)
commands = buy ∷ buy ∷ []

abbrev begun : Tape
begun = (begin_callback contracts (pos 2) (pos 20) "BAR" (pos 0) blank).0

-- The tape and the events after the commands.
abbrev played : Tape × List Event
played = ok_value (blank, []) (record_all contracts commands begun)

begun_ok : (begin_callback contracts (pos 2) (pos 20) "BAR" (pos 0) blank).1 ≡ ok tt
unfolding begin_callback
begun_ok = refl

played_ok : record_all contracts commands begun ≡ ok (played.0, played.1)
unfolding record_all begin_callback
played_ok = refl

replay_example :
    ((begin_callback contracts (pos 2) (pos 20) "BAR" (pos 0) played.0).1 ≡ ok tt)
    × (record_all contracts commands
          (begin_callback contracts (pos 2) (pos 20) "BAR" (pos 0) played.0).0
        ≡ ok (played.0, played.1))
replay_example =
    replay contracts commands (pos 2) (pos 20) "BAR" (pos 0) blank played.0 played.1 blank-IsValid
      begun_ok played_ok

abbrev first : Tape × Event
first =
    ok_value
      (
        blank,
        record {
          payload = record {
            identity = identity;
            created_at_utc_ms = 0;
            sequence = 0;
            command_id = "";
            kind = "";
            position = blank.callback;
            source_span = unknown;
            idempotency_key = "";
            business = [];
          };
          event_id = "";
          content_hash = "";
        },
      )
      (record_intent contracts buy begun)

first_ok : record_intent contracts buy begun ≡ ok (first.0, first.1)
unfolding record_intent begin_callback
first_ok = refl

-- A callback of another bar begins and records an entry, and its bar is committed.
committing-Steps : Steps contracts blank (commit_bar (pos 2) (pos 20) first.0)
committing-Steps = next _ _ _ (began (pos 2) (pos 20) "BAR" (pos 0) blank) (
    next _ _ _ (recorded buy begun first.0 first.1 first_ok)
      (next _ _ _ (committed (pos 2) (pos 20) first.0) (done _)))

blank-is_committed : is_committed 1 10 blank ≡ true
unfolding is_committed
blank-is_committed = refl

Steps-Kept_example : Kept 1 10 blank (commit_bar (pos 2) (pos 20) first.0)
Steps-Kept_example =
    Steps-Kept contracts 1 10 blank (commit_bar (pos 2) (pos 20) first.0) committing-Steps
      blank-is_committed

Steps-IsValid_example : IsValid (commit_bar (pos 2) (pos 20) first.0)
Steps-IsValid_example =
    Steps-IsValid contracts blank (commit_bar (pos 2) (pos 20) first.0) committing-Steps
      blank-IsValid

first-has : get_elem? first.0.events 0 ≡ some first.1
unfolding record_intent begin_callback
first-has = refl

renamed_ok : set_series_identity contracts "series" "BTC" "1" none first.0 ≡ ok first.0
unfolding set_series_identity record_intent begin_callback
renamed_ok = refl

set_series_identity-frozen_example :
    series_identity first.0.identity ≡ series_identity first.0.identity
set_series_identity-frozen_example =
    set_series_identity-frozen contracts "series" "BTC" "1" none first.0 first.0 first.1 first-has
      renamed_ok

abbrev context : ExecutionContext
context = record {
  run_id = "r1";
  strategy_id = "s1";
  stack_id = "stack";
  pinelib_commit = "c1";
  content_hash = "h";
  series_id = "btc";
  instrument_id = "BTC";
  timeframe = "1";
  semantic_profile = "strict_5x";
  source_hash = "src";
  symbol = "BTC";
  timezone = "UTC";
  session_policy = "24x7";
  exchange = "X";
  market = "crypto";
  currency = "USD";
  mintick = "1";
  pointvalue = "1";
}

abbrev arguments : Arguments
arguments = record {
  run_id = "r1";
  strategy_id = "s1";
  series_id = "btc";
  instrument_id = "BTC";
  timeframe = "1";
  producer = "pinelib";
  producer_version = "5.0.0-rc.5";
  producer_commit = none;
  stack_id = none;
  semantic_profile = "strict_5x";
  phase = "BAR";
  strict_production = true;
  execution_context = some context;
}

abbrev strict_tape : Tape
strict_tape = ok_value blank (new_tape contracts none "compat" arguments)

strict_tape_ok : new_tape contracts none "compat" arguments ≡ ok strict_tape
unfolding new_tape
strict_tape_ok = refl

new_tape-strict_example :
    IsValid strict_tape
    × ((x : ExecutionContext) × (strict_tape.context ≡ some x)
        × (supplied strict_tape.identity ≡ expected x))
new_tape-strict_example =
    new_tape-strict contracts none "compat" arguments strict_tape refl strict_tape_ok
