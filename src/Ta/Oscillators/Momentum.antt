-- ===== src/Ta/Oscillators/Momentum.antt =====
-- _CmoState and _TsiState of pinelib/ta/_impl_states.py.
use pinelib.Prelude.{
  ℕ, List, Option, [], drop, if◌then◌else◌, leb, length, ltb, none, some, suc, ◌++◌, ◌∷◌,
}
use pinelib.Core.Bar.{py_max}
use pinelib.Ta.{Arithmetic, gt, whole}

pub record CmoState (F : Type 0) : Type 0 where
  pub limit : ℕ
  pub prev_value : Option F
  pub changes : List F
  pub pos_sum : F
  pub neg_sum : F

pub record TsiState (F : Type 0) : Type 0 where
  pub short_length : ℕ
  pub long_length : ℕ
  pub prev_value : Option F
  pub momentum : List F
  pub abs_momentum : List F
  pub ema1 : Option F
  pub ema1_abs : Option F
  pub ema2 : Option F
  pub ema2_abs : Option F
  pub warmup_count : ℕ

module _ {F : Type 0} (ar : Arithmetic F) where
  unfoldable pub cmo_add : F → CmoState F → CmoState F
  cmo_add change s =
      if gt ar change (whole ar 0)
      then record s { pos_sum = ar.float.add s.pos_sum change }
      else if ar.float.lt change (whole ar 0)
      then record s { neg_sum = ar.float.add s.neg_sum (ar.abs change) }
      else s

  -- The oldest change leaves, and no sum falls below 0.
  unfoldable pub cmo_evict : CmoState F → CmoState F
  cmo_evict s = elim s.changes [
    | [] ↦ s
    | oldest ∷ changes ↦
        let left : CmoState F = record s { changes = changes } in
        let clipped = λ (a : F) (b : F). py_max ar.float (whole ar 0) (ar.float.sub a b) in
        if gt ar oldest (whole ar 0)
        then record left { pos_sum = clipped s.pos_sum oldest }
        else if ar.float.lt oldest (whole ar 0)
        then record left { neg_sum = clipped s.neg_sum (ar.abs oldest) }
        else left
  ]

  unfoldable pub cmo_value : CmoState F → Option F
  cmo_value s =
      let denom = ar.float.add s.pos_sum s.neg_sum in
      let spread = ar.float.sub s.pos_sum s.neg_sum in
      if ltb (length s.changes) s.limit
      then none
      else if ar.float.is_zero denom
      then none
      else some (ar.div (ar.mul (whole ar 100) spread) denom)

  unfoldable pub cmo_update : Option F → CmoState F → CmoState F × Option F
  unfolding cmo_add cmo_evict cmo_value
  cmo_update none s = (s, none)
  cmo_update (some number) s = elim s.prev_value [
    | none ↦ (record s { prev_value = some number }, none)
    | some prev ↦
        let change = ar.float.sub number prev in
        let added = cmo_add change (record s { prev_value = some number }) in
        let kept = if leb added.limit (length added.changes) then cmo_evict added else added in
        let t : CmoState F = record kept { changes = kept.changes ++ change ∷ [] } in
        (t, cmo_value t)
  ]

  -- `x if ema is None else alpha * x + (1 - alpha) * ema`
  abbrev pub smoothed : F → F → Option F → F
  smoothed alpha x none = x
  smoothed alpha x (some ema) =
      ar.float.add (ar.mul alpha x) (ar.mul (ar.float.sub (whole ar 1) alpha) ema)

  -- `2.0 / (length + 1)`
  abbrev pub ema_weight : ℕ → F
  ema_weight n = ar.div (whole ar 2) (whole ar (suc n))

  -- The double smoothing of a momentum and of its absolute value.
  unfoldable pub tsi_smooth : F → F → TsiState F → TsiState F × Option F
  tsi_smooth momentum abs_momentum s =
      let ema1 = smoothed (ema_weight s.short_length) momentum s.ema1 in
      let ema1_abs = smoothed (ema_weight s.short_length) abs_momentum s.ema1_abs in
      let ema2 = smoothed (ema_weight s.long_length) ema1 s.ema2 in
      let ema2_abs = smoothed (ema_weight s.long_length) ema1_abs s.ema2_abs in
      (
        record s {
          ema1 = some ema1;
          ema1_abs = some ema1_abs;
          ema2 = some ema2;
          ema2_abs = some ema2_abs;
        },
        if ar.float.is_zero ema2_abs then none else some (ar.div ema2 ema2_abs),
      )

  unfoldable pub tsi_update : Option F → TsiState F → TsiState F × Option F
  unfolding tsi_smooth
  tsi_update none s = (s, none)
  tsi_update (some number) s = elim s.prev_value [
    | none ↦ (record s { prev_value = some number; warmup_count = 0 }, none)
    | some prev ↦
        let momentum = ar.float.sub number prev in
        let is_full = leb s.long_length (length s.momentum) in
        let older = if is_full then drop 1 s.momentum else s.momentum in
        let older_abs = if is_full then drop 1 s.abs_momentum else s.abs_momentum in
        let t : TsiState F = record s {
          prev_value = some number;
          warmup_count = suc s.warmup_count;
          momentum = older ++ momentum ∷ [];
          abs_momentum = older_abs ++ ar.abs momentum ∷ [];
        } in
        if ltb t.warmup_count t.long_length
        then (t, none)
        else tsi_smooth momentum (ar.abs momentum) t
  ]
