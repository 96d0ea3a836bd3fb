-- ===== src/Ta/Oscillators/Volume.antt =====
-- States that weigh by volume: _MfiState, _ObvState and _VwapState of
-- pinelib/ta/_impl_states.py.
use pinelib.Prelude.{
  ℕ, List, Option, [], drop, if◌then◌else◌, last?, length, ltb, none, not, some, ◌++◌, ◌∷◌, ◌==◌,
  ◌/◌, nat_eq, int_eq, option_eq, pair_eq, string_eq,
}
use pinelib.Ta.{Arithmetic, gt, whole}
use pinelib.Ta.Rolling.{money_flow_index}
use pinelib.Ta.Oscillators.{typical_price}

pub record MfiState (F : Type 0) : Type 0 where
  pub limit : ℕ
  pub typical_prices : List F
  pub raw_mfs : List F
  pub pos_sum : F
  pub neg_sum : F

pub record ObvState (F : Type 0) : Type 0 where
  pub prev_close : Option F
  pub obv : F

pub record VwapState (F : Type 0) : Type 0 where
  pub cumulative_volume : F
  pub cumulative_price_volume : F
  pub session_key : Option ℕ

module _ {F : Type 0} (ar : Arithmetic F) where
  -- The oldest price and flow leave; the price that the direction is judged by is the second one
  -- that stays.
  unfoldable pub mfi_evict : MfiState F → MfiState F
  mfi_evict s = elim s.typical_prices [
    | [] ↦ s
    | oldest_tp ∷ prices ↦ elim s.raw_mfs [
      | [] ↦ s
      | oldest_mf ∷ flows ↦
          let left : MfiState F = record s { typical_prices = prices; raw_mfs = flows } in
          elim (drop 1 prices) [
            | [] ↦ left
            | judge ∷ others ↦
                if ar.float.lt oldest_tp judge
                then record left { pos_sum = ar.float.sub s.pos_sum oldest_mf }
                else if gt ar oldest_tp judge
                then record left { neg_sum = ar.float.sub s.neg_sum oldest_mf }
                else left
          ]
    ]
  ]

  unfoldable pub mfi_count : Option F → F → F → MfiState F → MfiState F
  mfi_count none tp mf s = s
  mfi_count (some prev_tp) tp mf s =
      if gt ar tp prev_tp
      then record s { pos_sum = ar.float.add s.pos_sum mf }
      else if ar.float.lt tp prev_tp
      then record s { neg_sum = ar.float.add s.neg_sum mf }
      else s

  unfoldable pub mfi_bar : F → F → MfiState F → MfiState F × Option F
  unfolding mfi_evict mfi_count
  mfi_bar tp mf s =
      let grown : MfiState F = record s {
        typical_prices = s.typical_prices ++ tp ∷ [];
        raw_mfs = s.raw_mfs ++ mf ∷ [];
      } in
      let kept = if ltb s.limit (length grown.typical_prices) then mfi_evict grown else grown in
      let t = mfi_count (last? s.typical_prices) tp mf kept in
      (
        t,
        if ltb (length t.typical_prices) s.limit
            then none
            else some (money_flow_index ar t.pos_sum t.neg_sum),
      )

  unfoldable pub mfi_update :
      Option F → Option F → Option F → Option F → MfiState F → MfiState F × Option F
  unfolding mfi_bar
  mfi_update (some h) (some low) (some c) (some volume) s =
      let tp = typical_price ar h low c in mfi_bar tp (ar.mul tp volume) s
  mfi_update (some h) (some low) (some c) none s = (s, none)
  mfi_update (some h) (some low) none volume s = (s, none)
  mfi_update (some h) none c volume s = (s, none)
  mfi_update none low c volume s = (s, none)

  -- The volume added on a rise and taken on a fall.
  abbrev pub obv_moved : F → F → F → F → F
  obv_moved from to v obv =
      if gt ar to from
      then ar.float.add obv v
      else if ar.float.lt to from
      then ar.float.sub obv v
      else obv

  unfoldable pub obv_update : Option F → Option F → ObvState F → ObvState F × Option F
  obv_update (some c) (some v) s = elim s.prev_close [
    | none ↦ (record s { prev_close = some c; obv = v }, some v)
    | some from ↦
        let obv = obv_moved from c v s.obv in
        (record s { prev_close = some c; obv = obv }, some obv)
  ]
  obv_update (some c) none s = (s, none)
  obv_update none volume s = (s, none)

  -- The sums start anew on another day; times are UTC milliseconds.
  unfoldable pub vwap_session : Option ℕ → VwapState F → VwapState F
  vwap_session none s = s
  vwap_session (some time) s =
      let key = time / 86400000 in
      elim s.session_key [
        | none ↦ record s { session_key = some key }
        | some old ↦
            if not (key == old)
            then record s {
              session_key = some key;
              cumulative_volume = whole ar 0;
              cumulative_price_volume = whole ar 0;
            }
            else s
      ]

  unfoldable pub vwap_update : Option F → Option F → Option ℕ → VwapState F → VwapState F × Option F
  unfolding vwap_session
  vwap_update (some source) (some v) time s =
      let started = vwap_session time s in
      let t : VwapState F = record started {
        cumulative_volume = ar.float.add started.cumulative_volume v;
        cumulative_price_volume = ar.float.add started.cumulative_price_volume (ar.mul source v);
      } in
      (
        t,
        if ar.float.is_zero t.cumulative_volume
            then none
            else some (ar.div t.cumulative_price_volume t.cumulative_volume),
      )
  vwap_update (some source) none time s = (s, none)
  vwap_update none volume time s = (s, none)
