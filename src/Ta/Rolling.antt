-- ===== src/Ta/Rolling.antt =====
-- Sums that roll with the last values (_VwmaState, _VarianceState and _SourceMfiState of
-- pinelib/ta/_impl_states.py).
pub mod Delay
pub mod Sums
pub mod Flows
use pinelib.Prelude.{
  ℕ, Bool, List, Option, [], drop, false, if◌then◌else◌, last?, leb, length, ltb, none, not, some,
  suc, ◌+◌, ◌++◌, ◌-◌, ◌&&◌, ◌||◌, ◌∷◌,
}
use pinelib.Prelude.Int.{ℤ, pos, ◌-ℤ◌}
use pinelib.Core.Value.{Float}
use pinelib.Core.Bar.{py_max}
use pinelib.Ta.{Arithmetic, gt, pushed, whole}

pub record VwmaState (F : Type 0) : Type 0 where
  pub limit : ℕ
  pub values : List F
  pub volumes : List F
  pub weighted_total : F
  pub volume_total : F

pub record VarianceState (F : Type 0) : Type 0 where
  pub limit : ℕ
  pub biased : Bool
  pub values : List (Option F)
  pub total : F
  pub total_sq : F
  pub na_count : ℕ

pub record SourceMfiState (F : Type 0) : Type 0 where
  pub limit : ℕ
  pub sources : List F
  pub flows : List F
  pub pos_sum : F
  pub neg_sum : F

module _ {F : Type 0} (ar : Arithmetic F) where
  abbrev pub new_vwma : ℕ → VwmaState F
  new_vwma n = record {
    limit = n;
    values = [];
    volumes = [];
    weighted_total = whole ar 0;
    volume_total = whole ar 0;
  }

  -- The pair that leaves the two deques is taken from the sums.
  unfoldable pub vwma_evict : VwmaState F → VwmaState F
  vwma_evict s = elim s.values [
    | [] ↦ s
    | old_value ∷ values ↦ elim s.volumes [
      | [] ↦ s
      | old_volume ∷ volumes ↦ record s {
        values = values;
        volumes = volumes;
        weighted_total = ar.float.sub s.weighted_total (ar.mul old_value old_volume);
        volume_total = ar.float.sub s.volume_total old_volume;
      }
    ]
  ]

  unfoldable pub vwma_update : Option F → Option F → VwmaState F → VwmaState F × Option F
  unfolding vwma_evict
  vwma_update (some number) (some vol) s =
      let grown : VwmaState F = record s {
        values = s.values ++ number ∷ [];
        volumes = s.volumes ++ vol ∷ [];
        weighted_total = ar.float.add s.weighted_total (ar.mul number vol);
        volume_total = ar.float.add s.volume_total vol;
      } in
      let kept = if ltb s.limit (length grown.values) then vwma_evict grown else grown in
      (
        kept,
        if ltb (length kept.values) s.limit || ar.float.is_zero kept.volume_total
            then none
            else some (ar.div kept.weighted_total kept.volume_total),
      )
  vwma_update (some number) none s = (s, none)
  vwma_update none volume s = (s, none)

  abbrev pub new_variance : ℕ → Bool → VarianceState F
  new_variance n biased = record {
    limit = n;
    biased = biased;
    values = [];
    total = whole ar 0;
    total_sq = whole ar 0;
    na_count = 0;
  }

  unfoldable pub variance_add : Option F → VarianceState F → VarianceState F
  variance_add none s = record s { values = s.values ++ none ∷ []; na_count = suc s.na_count }
  variance_add (some number) s = record s {
    values = s.values ++ some number ∷ [];
    total = ar.float.add s.total number;
    total_sq = ar.float.add s.total_sq (ar.mul number number);
  }

  unfoldable pub variance_evict : VarianceState F → VarianceState F
  variance_evict s = elim s.values [
    | [] ↦ s
    | old ∷ values ↦ elim old [
      | none ↦ record s { values = values; na_count = s.na_count - 1 }
      | some number ↦ record s {
        values = values;
        total = ar.float.sub s.total number;
        total_sq = ar.float.sub s.total_sq (ar.mul number number);
      }
    ]
  ]

  -- The state after an update.
  unfoldable pub variance_state : Option F → VarianceState F → VarianceState F
  unfolding variance_add variance_evict
  variance_state value s =
      let grown = variance_add value s in
      if ltb s.limit (length grown.values) then variance_evict grown else grown

  -- `max(0.0, (total_sq - length * mean * mean) / denom)`
  unfoldable pub variance_value : VarianceState F → Option F
  variance_value s =
      let n = whole ar s.limit in
      let mean = ar.div s.total n in
      let denom = if s.biased then n else ar.float.of_int (pos s.limit -ℤ pos 1) in
      let spread = ar.float.sub s.total_sq (ar.mul (ar.mul n mean) mean) in
      if ltb (length s.values) s.limit || not (leb s.na_count 0)
      then none
      else if not s.biased && leb s.limit 1
      then none
      else some (py_max ar.float (whole ar 0) (ar.div spread denom))

  unfoldable pub variance_update : Option F → VarianceState F → VarianceState F × Option F
  unfolding variance_state variance_value
  variance_update value s = let t = variance_state value s in (t, variance_value t)

  abbrev pub new_source_mfi : ℕ → SourceMfiState F
  new_source_mfi n = record {
    limit = n;
    sources = [];
    flows = [];
    pos_sum = whole ar 0;
    neg_sum = whole ar 0;
  }

  -- The flow of a change, added to or taken from the sum of its direction.
  unfoldable pub mfi_moved : (F → F → F) → F → F → F → SourceMfiState F → SourceMfiState F
  mfi_moved op from to flow s =
      if gt ar to from
      then record s { pos_sum = op s.pos_sum flow }
      else if ar.float.lt to from
      then record s { neg_sum = op s.neg_sum flow }
      else s

  unfoldable pub source_mfi_add : F → F → SourceMfiState F → SourceMfiState F
  unfolding mfi_moved
  source_mfi_add current flow s = elim (last? s.sources) [
    | none ↦ record s { sources = s.sources ++ current ∷ [] }
    | some previous ↦
        mfi_moved ar.float.add previous current flow
          (record s { sources = s.sources ++ current ∷ []; flows = s.flows ++ flow ∷ [] })
  ]

  unfoldable pub source_mfi_evict : SourceMfiState F → SourceMfiState F
  unfolding mfi_moved
  source_mfi_evict s = elim s.sources [
    | [] ↦ s
    | old ∷ sources ↦ elim sources [
      | [] ↦ s
      | next_old ∷ others ↦ elim s.flows [
        | [] ↦ s
        | old_flow ∷ flows ↦
            mfi_moved ar.float.sub old next_old old_flow
              (record s { sources = next_old ∷ others; flows = flows })
      ]
    ]
  ]

  -- `100.0 - 100.0 / (1.0 + pos_sum / neg_sum)`
  abbrev pub money_flow_index : F → F → F
  money_flow_index up down =
      if ar.float.is_zero down
      then whole ar 100
      else ar.float.sub (whole ar 100)
          (ar.div (whole ar 100) (ar.float.add (whole ar 1) (ar.div up down)))

  unfoldable pub source_mfi_update :
      Option F → Option F → SourceMfiState F → SourceMfiState F × Option F
  unfolding source_mfi_add source_mfi_evict
  source_mfi_update (some current) (some volume) s =
      let grown = source_mfi_add current (ar.mul current volume) s in
      let kept =
        if ltb (suc s.limit) (length grown.sources) then source_mfi_evict grown else grown in
      (
        kept,
        if leb (length kept.sources) s.limit
            then none
            else some (money_flow_index kept.pos_sum kept.neg_sum),
      )
  source_mfi_update (some current) none s = (s, none)
  source_mfi_update none volume s = (s, none)
