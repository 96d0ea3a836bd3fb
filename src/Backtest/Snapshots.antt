-- ===== src/Backtest/Snapshots.antt =====
-- The snapshots of a run (pinelib/backtest.py), which a ledger without its figures does not stop.
use pinelib.Prelude.{
  int_eq, nat_eq, suc, [], ◌∷◌, or_raise, ledger_unavailable_error, ◌>>=◌, ℕ, List, Option, [],
  length, none, ok, refl, some, suc, ◌∷◌, ◌≡◌, option_eq, pair_eq, string_eq,
}
use pinelib.Prelude.Int.{◌+ℤ◌, ℤ, pos, ◌+ℤ◌}
use pinelib.Core.Bar.{Bar}
use pinelib.Core.Runtime.State.{Runtime}
use pinelib.Strategy.Ledger.{
  equity, netprofit, openprofit, position_size, position_avg_price, fills, float_name,
  sequence_name, FloatMetric, LedgerView, SequenceMetric, ledger_float, ledger_sequence,
}
use pinelib.Strategy.Context.{Strategy}
use pinelib.Backtest.{
  BacktestSnapshot, ledger_float_or_none, ledger_len_or_none, snapshot_from_state, or_none,
}

or_raise_total :
    {A : Type 0} (o : Option A)
    → (r : Option A) × (or_none (or_raise o ledger_unavailable_error) ≡ ok r)
or_raise_total none = (none, refl)
or_raise_total (some a) = (some a, refl)

length-or_none_total :
    {A : Type 0} (o : Option (List A))
    → (r : Option ℕ) × (or_none (or_raise o ledger_unavailable_error >>= λ xs. ok (length xs))
        ≡ ok r)
length-or_none_total none = (none, refl)
length-or_none_total (some xs) = (some (length xs), refl)

module _ {F : Type 0} where
  float_or_none_total :
      (name : FloatMetric) (view : Option (LedgerView F))
      → (o : Option F) × (or_none (ledger_float name view) ≡ ok o)
  unfolding ledger_float
  float_or_none_total name none = (none, refl)
  float_or_none_total name (some v) = or_raise_total (v.floats (float_name name))

  len_or_none_total :
      (name : SequenceMetric) (view : Option (LedgerView F))
      → (o : Option ℕ) × (or_none (ledger_sequence name view >>= λ xs. ok (length xs)) ≡ ok o)
  unfolding ledger_sequence
  len_or_none_total name none = (none, refl)
  len_or_none_total name (some v) = length-or_none_total (v.sequences (sequence_name name))

  -- What a snapshot says of its bar.
  abbrev pub bar_of : BacktestSnapshot F → ℤ × ℕ × F
  bar_of x = (x.bar_index, x.time, x.close)

  -- The indices, times and closes of bars that run on from an index.
  abbrev pub numbered : ℤ → List (Bar F) → List (ℤ × ℕ × F)
  numbered i [] = []
  numbered i (b ∷ bs) = (i +ℤ pos 1, b.time, b.close) ∷ numbered (i +ℤ pos 1) bs

  -- What the progress callback is told of as many bars, from an index on.
  abbrev pub counted_from : ℕ → ℕ → List (Bar F) → List (ℕ × ℕ)
  counted_from idx count [] = []
  counted_from idx count (b ∷ bs) = (suc idx, count) ∷ counted_from (suc idx) count bs

module _ {F S : Type 0} where
  pub snapshot_from_state_total :
      (rt : Runtime F S) (s : Strategy F) (b : Bar F)
      → rt.current_bar ≡ some b
      → (x : BacktestSnapshot F) × (snapshot_from_state rt s ≡ ok x)
        × (bar_of x ≡ (rt.bar_index, b.time, b.close))
  unfolding snapshot_from_state ledger_float_or_none ledger_len_or_none
  snapshot_from_state_total rt s b h =
      let (a1, e1) = float_or_none_total equity s.ledger_view in
      let (a2, e2) = float_or_none_total netprofit s.ledger_view in
      let (a3, e3) = float_or_none_total openprofit s.ledger_view in
      let (a4, e4) = float_or_none_total position_size s.ledger_view in
      let (a5, e5) = float_or_none_total position_avg_price s.ledger_view in
      let (a6, e6) = len_or_none_total fills s.ledger_view in
      (
        record {
          bar_index = rt.bar_index;
          time = b.time;
          close = b.close;
          order_intents_count = length s.pending_orders;
          risk_rules_count = length s.risk_rules;
          equity = a1;
          netprofit = a2;
          openprofit = a3;
          position_size = a4;
          position_avg_price = a5;
          fills_count = a6;
          closedtrades = none;
        },
        rw (h, e1, e2, e3, e4, e5, e6) refl,
        refl,
      )
