-- ===== src/Intent/Tape.antt =====
-- The append-only tape of intents: IntentTape of pinelib/strategy/intent_tape.py.
use pinelib.Prelude.{
  ℕ, nat_eq, int_eq, string_eq, pair_eq, list_eq, Bool, List, Option, Result, String, [], any,
  builtin_runtime_error, false, if◌then◌else◌, none, not, ok, option_eq, raise, raise_if, some,
  true, value_error, ◌&&◌, ◌==◌, ◌>>=◌, ◌>>◌, ◌∷◌,
}
use pinelib.Prelude.Int.{ℤ, negsuc, pos}
use pinelib.Prelude.Dict.{Dict}
use pinelib.Intent.Contracts.{Contracts, Event, ExecutionContext, Identity, Position}
use pinelib.Intent.Business.{nonempty}
pub mod Record
pub mod Events
pub mod Valid
pub mod Frozen
pub mod Repeat
pub mod Naming
pub mod Construction
pub mod Replay

pub record Tape : Type 0 where
  pub identity : Identity
  pub context : Option ExecutionContext
  pub events : List Event
  pub event_ordinals : List ℕ
  pub by_key : Dict String Event
  pub committed_bars : List (ℤ × ℤ)
  pub callback : Position
  pub invocation_counts : Dict (String × String) ℕ

-- A nonnegative integer, as `_validate_event_position` and `begin_callback` demand.
unfoldable pub nonnegative : ℤ → Result ℕ
nonnegative (pos n) = ok n
nonnegative (negsuc n) = raise value_error

-- The three tests of a position, in their order.
unfoldable pub numbers : ℤ → ℤ → ℤ → Result (ℕ × ℕ × ℕ)
unfolding nonnegative
numbers bar_index bar_time recalc = do
  i ← nonnegative bar_index
  u ← nonnegative bar_time
  r ← nonnegative recalc
  ok (i, u, r)

-- `(bar_index, bar_time) in self._committed_bars`
unfoldable pub is_committed : ℕ → ℕ → Tape → Bool
is_committed i u t = any (λ b. b == (pos i, pos u)) t.committed_bars

unfoldable pub commit_bar : ℤ → ℤ → Tape → Tape
commit_bar i u t =
    if any (λ b. b == (i, u)) t.committed_bars
    then t
    else record t { committed_bars = (i, u) ∷ t.committed_bars }

-- The four fields that `set_series_identity` sets.
abbrev pub series_identity : Identity → List String
series_identity i = i.series_id ∷ i.instrument_id ∷ i.timeframe ∷ i.semantic_profile ∷ []

-- The new identity is the execution context's, where there is one.
abbrev pub context_agrees : Option ExecutionContext → List String → Bool
context_agrees none identity = true
context_agrees (some x) identity =
    identity == (x.series_id ∷ x.instrument_id ∷ x.timeframe ∷ x.semantic_profile ∷ [])

abbrev pub is_empty : List Event → Bool
is_empty [] = true
is_empty (e ∷ es) = false

module _ {N : Type 0} (ct : Contracts N) where
  -- `begin_callback`: the index and the time are stored before a blank phase raises.
  unfoldable pub begin_callback : ℤ → ℤ → String → ℤ → Tape → Tape × Result (Unit {0})
  unfolding numbers nonempty
  begin_callback bar_index bar_time phase recalc t = elim (numbers bar_index bar_time recalc) [
    | raise e ↦ (t, raise e)
    | ok (i, u, r) ↦
        let placed = record t.callback { bar_index = i; bar_open_time_utc_ms = u } in
        elim (nonempty ct phase) [
          | raise e ↦ (record t { callback = placed }, raise e)
          | ok p ↦ (
            record t {
              callback = record placed { phase = p; recalc_iteration = r };
              invocation_counts = [];
            },
            ok tt,
          )
        ]
  ]

  unfoldable pub profile_or : String → Option String → Result String
  unfolding nonempty
  profile_or own none = ok own
  profile_or own (some p) = nonempty ct p

  -- `set_series_identity`
  unfoldable pub set_series_identity : String → String → String → Option String → Tape → Result Tape
  unfolding nonempty profile_or
  set_series_identity series instrument timeframe profile t = do
    s ← nonempty ct series
    i ← nonempty ct instrument
    f ← nonempty ct timeframe
    p ← profile_or t.identity.semantic_profile profile
    let identity : List String = s ∷ i ∷ f ∷ p ∷ []
    raise_if (t.identity.strict_production && not (context_agrees t.context identity)) value_error
    raise_if (not (is_empty t.events) && not (identity == series_identity t.identity))
        builtin_runtime_error
    ok (record t {
      identity = record t.identity {
        series_id = s;
        instrument_id = i;
        timeframe = f;
        semantic_profile = p;
      };
    })
