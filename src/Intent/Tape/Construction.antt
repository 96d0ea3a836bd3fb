-- ===== src/Intent/Tape/Construction.antt =====
-- The constructor of IntentTape (pinelib/strategy/intent_tape.py). The environment's
-- PINELIB_PRODUCER_COMMIT and the hash of the compatibility stack are arguments.
use pinelib.Prelude.{
  string_eq, list_eq, nat_eq, >>=-eq-ok, Bool, List, Option, Result, String, [], arith, false,
  if◌then◌else◌, int_eq, none, not, ok, ok-injective, option_eq, pair_eq, raise, raise_if,
  raise_if-eq-ok, refl, some, subst, true, value_error, ◌==◌, ◌>>=◌, ◌>>◌, ◌||◌, ◌∷◌, ◌≡◌,
}
use pinelib.Intent.Contracts.{Contracts, ExecutionContext, Identity}
use pinelib.Intent.Business.{nonempty, given}
use pinelib.Intent.Tape.{Tape}
use pinelib.Intent.Tape.Valid.{IsValid}

pub record Arguments : Type 0 where
  pub run_id : String
  pub strategy_id : String
  pub series_id : String
  pub instrument_id : String
  pub timeframe : String
  pub producer : String
  pub producer_version : String
  pub producer_commit : Option String
  pub stack_id : Option String
  pub semantic_profile : String
  pub phase : String
  pub strict_production : Bool
  pub execution_context : Option ExecutionContext

-- `producer_commit or os.environ.get(...)`, where an empty text counts as none.
abbrev or_text : Option String → Option String → Option String
or_text none other = other
or_text (some s) other = if s == "" then other else some s

unfoldable resolved_commit : Option String → Option String → Option ExecutionContext → String
resolved_commit given environ context = elim (or_text given environ) [
  | some commit ↦ commit
  | none ↦ elim context [
    | none ↦ "0000000000000000000000000000000000000000"
    | some x ↦ x.pinelib_commit
  ]
]

unfoldable resolved_stack_id : Option String → String → Option ExecutionContext → String
resolved_stack_id (some stack) compat context = stack
resolved_stack_id none compat none = compat
resolved_stack_id none compat (some x) = x.stack_id

-- The identity that was supplied, and the one that an execution context expects.
abbrev pub supplied : Identity → List String
supplied i =
    i.run_id ∷ i.strategy_id ∷ i.series_id ∷ i.instrument_id ∷ i.timeframe ∷ i.semantic_profile
    ∷ i.producer_commit ∷ i.stack_id ∷ []

abbrev pub expected : ExecutionContext → List String
expected x =
    x.run_id ∷ x.strategy_id ∷ x.series_id ∷ x.instrument_id ∷ x.timeframe ∷ x.semantic_profile
    ∷ x.pinelib_commit ∷ x.stack_id ∷ []

-- `_STRICT_GENERIC_IDENTITIES`
abbrev is_generic : Identity → Bool
is_generic i =
    i.run_id == "run"
    || i.strategy_id == "strategy"
    || i.series_id == "series"
    || i.instrument_id == "instrument"
    || i.timeframe == "unspecified"

-- What strict production asks of an identity.
unfoldable pub check_strict : Bool → Option ExecutionContext → Identity → Result (Unit {0})
check_strict false context i = ok tt
check_strict true none i = raise value_error
check_strict true (some x) i = do
  raise_if (not (i.producer == "pinelib")) value_error
  raise_if (not (i.producer_version == "5.0.0-rc.5")) value_error
  raise_if (not (supplied i == expected x)) value_error
  raise_if (is_generic i) value_error

abbrev hash_of : Option ExecutionContext → Option String
hash_of none = none
hash_of (some x) = some x.content_hash

unfoldable identity_of : Option String → String → Arguments → Identity
unfolding resolved_commit resolved_stack_id
identity_of environ compat a = record {
  run_id = a.run_id;
  strategy_id = a.strategy_id;
  series_id = a.series_id;
  instrument_id = a.instrument_id;
  timeframe = a.timeframe;
  producer = a.producer;
  producer_version = a.producer_version;
  producer_commit = resolved_commit a.producer_commit environ a.execution_context;
  stack_id = resolved_stack_id a.stack_id compat a.execution_context;
  semantic_profile = a.semantic_profile;
  strict_production = a.strict_production;
  execution_context_hash = hash_of a.execution_context;
}

-- The state that `__init__` starts from.
abbrev fresh : Identity → Option ExecutionContext → String → Tape
fresh identity context phase = record {
  identity = identity;
  context = context;
  events = [];
  event_ordinals = [];
  by_key = [];
  committed_bars = [];
  callback = record {
    bar_index = 0;
    bar_open_time_utc_ms = 0;
    phase = phase;
    recalc_iteration = 0;
  };
  invocation_counts = [];
}

fresh-IsValid :
    (i : Identity) (x : Option ExecutionContext) (phase : String) → IsValid (fresh i x phase)
fresh-IsValid i x phase = record {
  ordinals = refl;
  numbered = λ n e g. ground arith;
  indexed = λ n e g. ground arith;
  listed = λ k e g. ground arith;
}

module _ {N : Type 0} (ct : Contracts N) where
  all_nonempty : List String → Result (Unit {0})
  unfolding nonempty
  all_nonempty [] = ok tt
  all_nonempty (s ∷ ss) = do t ← nonempty ct s; all_nonempty ss

  -- `IntentTape(...)`
  unfoldable pub new_tape : Option String → String → Arguments → Result Tape
  unfolding all_nonempty check_strict identity_of
  new_tape environ compat a = do
    let identity : Identity = identity_of environ compat a
    all_nonempty (supplied identity)
    check_strict a.strict_production a.execution_context identity
    all_nonempty (a.producer ∷ a.producer_version ∷ a.phase ∷ [])
    ok (fresh identity a.execution_context a.phase)

  check_strict-agrees :
      (b : Bool) (x : Option ExecutionContext) (i : Identity) {u : Unit {0}}
      → b ≡ true
      → check_strict b x i ≡ ok u
      → (y : ExecutionContext) × (x ≡ some y) × (supplied i ≡ expected y)
  unfolding check_strict
  check_strict-agrees false x i s h = cc
  check_strict-agrees true none i s h = cc
  check_strict-agrees true (some y) i s h =
      let (_, _, h1) = >>=-eq-ok (raise_if (not (i.producer == "pinelib")) value_error) _ h in
      let (_, _, h2) =
        >>=-eq-ok (raise_if (not (i.producer_version == "5.0.0-rc.5")) value_error) _ h1 in
      let (_, same, _) = >>=-eq-ok (raise_if (not (supplied i == expected y)) value_error) _ h2 in
      let agree = raise_if-eq-ok _ value_error same in
      (
        y,
        refl,
        (list_eq.beq_iff (supplied i) (expected y)).0 (double (supplied i == expected y) agree),
      )
    where
      double : (b : Bool) → not b ≡ false → b ≡ true
      double b h = ground arith

  -- A tape that is constructed in strict production is well formed, and its identity is that of
  -- the execution context that it was given.
  pub new_tape-strict :
      (environ : Option String) (compat : String) (a : Arguments) (t : Tape)
      → a.strict_production ≡ true
      → new_tape environ compat a ≡ ok t
      → IsValid t
        × ((x : ExecutionContext) × (t.context ≡ some x) × (supplied t.identity ≡ expected x))
  unfolding new_tape
  new_tape-strict environ compat a t s h =
      let identity = identity_of environ compat a in
      let x = a.execution_context in
      let (_, _, h1) = >>=-eq-ok (all_nonempty (supplied identity)) _ h in
      let (_, strict, h2) = >>=-eq-ok (check_strict a.strict_production x identity) _ h1 in
      let (_, _, h3) =
        >>=-eq-ok (all_nonempty (a.producer ∷ a.producer_version ∷ a.phase ∷ [])) _ h2 in
      let found = check_strict-agrees a.strict_production x identity s strict in
      subst
        (λ w.
          IsValid w
          × ((y : ExecutionContext) × (w.context ≡ some y) × (supplied w.identity ≡ expected y)))
        (ok-injective h3) (fresh-IsValid identity x a.phase, found)
