-- ===== src/Ta/Moving.antt =====
-- Moving averages and what is made of them: _SmaState, _EmaState, _RmaState, _RsiState and
-- _MacdState of pinelib/ta/_impl_core.py.
pub mod Mean
use pinelib.Prelude.{
  ℕ, Bool, List, Option, Result, [], if◌then◌else◌, length, ltb, none, not, ok, raise, some, suc,
  type_error, ◌++◌, ◌∷◌,
}
use pinelib.Prelude.Int.{pos, ◌-ℤ◌}
use pinelib.Core.Value.{Float}
use pinelib.Core.Bar.{py_max}
use pinelib.Ta.{Arithmetic, Source, flag, missing, number, whole}

pub record SmaState (F : Type 0) : Type 0 where
  pub limit : ℕ
  pub values : List F
  pub total : F

-- _EmaState, and _RmaState with the same fields.
pub record EmaState (F : Type 0) : Type 0 where
  pub limit : ℕ
  pub value : Option F
  pub warmup : List F
  pub warmup_total : F

pub record RsiState (F : Type 0) : Type 0 where
  pub limit : ℕ
  pub previous : Option F
  pub gains : List F
  pub losses : List F
  pub avg_gain : Option F
  pub avg_loss : Option F

pub record MacdState (F : Type 0) : Type 0 where
  pub fast_ema : EmaState F
  pub slow_ema : EmaState F
  pub signal_ema : EmaState F

module _ {F : Type 0} (ar : Arithmetic F) where
  abbrev pub new_sma : ℕ → SmaState F
  new_sma n = record { limit = n; values = []; total = whole ar 0 }

  unfoldable pub sma_evict : SmaState F → SmaState F
  sma_evict s = elim s.values [
    | [] ↦ s
    | oldest ∷ values ↦ record s { values = values; total = ar.float.sub s.total oldest }
  ]

  unfoldable pub sma_push : F → SmaState F → SmaState F
  unfolding sma_evict
  sma_push x s =
      let grown : SmaState F = record s {
        values = s.values ++ x ∷ [];
        total = ar.float.add s.total x;
      } in
      if ltb s.limit (length grown.values) then sma_evict grown else grown

  unfoldable pub sma_value : SmaState F → Option F
  sma_value s =
      if ltb (length s.values) s.limit then none else some (ar.div s.total (whole ar s.limit))

  unfoldable pub sma_update : Source F → SmaState F → SmaState F × Result (Option F)
  unfolding sma_push sma_value
  sma_update missing s = (s, ok (sma_value s))
  sma_update (flag b) s = (s, raise type_error)
  sma_update (number x) s = let t = sma_push x s in (t, ok (sma_value t))

  -- A value while there is no average yet: the average starts as the mean of the first values.
  unfoldable pub ema_warm : F → EmaState F → EmaState F × Option F
  ema_warm x s =
      let grown : EmaState F = record s {
        warmup = s.warmup ++ x ∷ [];
        warmup_total = ar.float.add s.warmup_total x;
      } in
      let first = ar.div grown.warmup_total (whole ar s.limit) in
      if ltb (length grown.warmup) s.limit
      then (grown, none)
      else (record grown { value = some first }, some first)

  -- An average that is smoothed by a rule once it has started.
  unfoldable pub smoothed_update : (ℕ → F → F → F) → Option F → EmaState F → EmaState F × Option F
  unfolding ema_warm
  smoothed_update rule none s = (s, s.value)
  smoothed_update rule (some x) s = elim s.value [
    | none ↦ ema_warm x s
    | some old ↦ let new = rule s.limit old x in (record s { value = some new }, some new)
  ]

  -- `alpha * number + (1.0 - alpha) * value`
  abbrev pub ema_rule : ℕ → F → F → F
  ema_rule n old x =
      let alpha = ar.div (whole ar 2) (ar.float.add (whole ar n) (whole ar 1)) in
      ar.float.add (ar.mul alpha x) (ar.mul (ar.float.sub (whole ar 1) alpha) old)

  -- `(value * (length - 1) + number) / length`
  abbrev pub rma_rule : ℕ → F → F → F
  rma_rule n old x =
      ar.div (ar.float.add (ar.mul old (ar.float.of_int (pos n -ℤ pos 1))) x) (whole ar n)

  unfoldable pub ema_update : Option F → EmaState F → EmaState F × Option F
  unfolding smoothed_update
  ema_update = smoothed_update ema_rule

  unfoldable pub rma_update : Option F → EmaState F → EmaState F × Option F
  unfolding smoothed_update
  rma_update = smoothed_update rma_rule

  -- The index of the averages that the state has.
  unfoldable pub rsi_value : F → F → F
  rsi_value gain loss =
      if ar.float.is_zero loss
      then if not (ar.float.is_zero gain) then whole ar 100 else whole ar 50
      else ar.float.sub (whole ar 100)
          (ar.div (whole ar 100) (ar.float.add (whole ar 1) (ar.div gain loss)))

  -- Gains and losses until there are enough for their means.
  unfoldable pub rsi_warm : F → F → RsiState F → RsiState F × Option F
  unfolding rsi_value
  rsi_warm gain loss s =
      let grown : RsiState F = record s {
        gains = s.gains ++ gain ∷ [];
        losses = s.losses ++ loss ∷ [];
      } in
      let avg_gain = ar.div (ar.sum grown.gains) (whole ar s.limit) in
      let avg_loss = ar.div (ar.sum grown.losses) (whole ar s.limit) in
      if ltb (length grown.gains) s.limit then (grown, none) else (
        record grown { avg_gain = some avg_gain; avg_loss = some avg_loss },
        some (rsi_value avg_gain avg_loss),
      )

  unfoldable pub rsi_change : F → F → RsiState F → RsiState F × Option F
  unfolding rsi_warm
  rsi_change gain loss s = elim s.avg_gain [
    | none ↦ rsi_warm gain loss s
    | some old_gain ↦ elim s.avg_loss [
      | none ↦ rsi_warm gain loss s
      | some old_loss ↦
          let avg_gain = rma_rule s.limit old_gain gain in
          let avg_loss = rma_rule s.limit old_loss loss in
          (
            record s { avg_gain = some avg_gain; avg_loss = some avg_loss },
            some (rsi_value avg_gain avg_loss),
          )
    ]
  ]

  unfoldable pub rsi_update : Option F → RsiState F → RsiState F × Option F
  unfolding rsi_change
  rsi_update none s = (s, none)
  rsi_update (some x) s = elim s.previous [
    | none ↦ (record s { previous = some x }, none)
    | some from ↦
        let change = ar.float.sub x from in
        rsi_change (py_max ar.float change (whole ar 0))
          (py_max ar.float (ar.neg change) (whole ar 0)) (record s { previous = some x })
  ]

  -- The result, where `is_na` does not hold of it.
  abbrev pub not_na : Option F → Option F
  not_na none = none
  not_na (some x) = if ar.float.is_nan x then none else some x

  -- The macd, its signal and their difference, each na until it can be had.
  unfoldable pub macd_update :
      Option F → MacdState F → MacdState F × (Option F × Option F × Option F)
  unfolding ema_update
  macd_update value s =
      let (fast, fast_value) = ema_update value s.fast_ema in
      let (slow, slow_value) = ema_update value s.slow_ema in
      let moved : MacdState F = record s { fast_ema = fast; slow_ema = slow } in
      elim (not_na fast_value) [
        | none ↦ (moved, (none, none, none))
        | some f ↦ elim (not_na slow_value) [
          | none ↦ (moved, (none, none, none))
          | some w ↦
              let macd = ar.float.sub f w in
              let (signal, signal_value) = ema_update (not_na (some macd)) s.signal_ema in
              (
                record moved { signal_ema = signal },
                (
                  some macd,
                  signal_value,
                  elim (not_na signal_value) [
                    | none ↦ none
                    | some line ↦ some (ar.float.sub macd line)
                  ],
                ),
              )
        ]
      ]
