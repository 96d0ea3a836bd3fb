-- ===== src/Core/Series.antt =====
-- A Pine series (pinelib/core/series.py): the value of the bar being computed and the committed
-- history. A series refines the list of the values that it has taken, newest first.
pub mod Fixnan
pub mod Timeline
use pinelib.Prelude.{
  ℕ, Bool, List, Option, Result, String, [], false, get_elem?, history_error, history_not_allowed,
  if◌then◌else◌, length, ltb, nat_beq, none, not, ok, or_else, raise, raise_if,
  reference_history_unsupported, some, suc, true, type_error, zero, ◌&&◌, ◌++◌, ◌+◌, ◌-◌, ◌==◌,
  ◌||◌, ◌∷◌, int_eq, nat_eq, pair_eq, string_eq, ◌>>=◌, ◌>>◌, option_eq,
}
use pinelib.Prelude.Int.{ℤ, negsuc, pos}
use pinelib.Core.Value.{Value, bool, is_sentinel, na}

-- RuntimeConfig.reference_history_mode
pub data ReferenceHistoryMode : Type 0 where
  unsupported identity : ReferenceHistoryMode

pub record TypeInfo : Type 0 where
  pub base_type : String
  pub qualifier : String
  pub is_reference_type : Bool
  pub can_be_na : Bool
  pub is_history_allowed : Bool

-- `reference_mode` is runtime_config.reference_history_mode, which nothing assigns after
-- construction; it is `none` where the series has no runtime_config.
pub record Series (F : Type 0) : Type 0 where
  pub name : String
  pub dtype : String
  pub initial : Value F
  pub type_info : Option TypeInfo
  pub reference_mode : Option ReferenceHistoryMode
  pub current : Value F
  pub history : List (Value F)
  pub between_bars : Bool

-- `self.type_info and not self.type_info.is_history_allowed`
abbrev pub history_forbidden : Option TypeInfo → Bool
history_forbidden none = false
history_forbidden (some t) = not t.is_history_allowed

abbrev pub is_reference : Option TypeInfo → Bool
is_reference none = false
is_reference (some t) = t.is_reference_type

abbrev pub is_container : String → Bool
is_container dtype = dtype == "array" || dtype == "map" || dtype == "matrix"

-- `mode == "unsupported"`, the default without a runtime_config
abbrev pub is_unsupported : Option ReferenceHistoryMode → Bool
is_unsupported (some identity) = false
is_unsupported _ = true

module _ {F : Type 0} where
  unfoldable pub new_series :
      String → String → Value F → Option TypeInfo → Option ReferenceHistoryMode → Series F
  new_series name dtype initial type_info mode = record {
    name = name;
    dtype = dtype;
    initial = initial;
    type_info = type_info;
    reference_mode = mode;
    current = initial;
    history = [];
    between_bars = false;
  }

  unfoldable pub committed_length : Series F → ℕ
  committed_length s = length s.history

  unfoldable pub set_current : Value F → Series F → Result (Series F)
  set_current v s =
      if s.dtype == "bool" && is_sentinel v
      then raise type_error
      else ok (record s { current = v; between_bars = false })

  unfoldable pub commit_current : Series F → Series F
  commit_current s =
      if is_container s.dtype || history_forbidden s.type_info
      then record s { history = [] }
      else record s { history = s.history ++ s.current ∷ [] }

  unfoldable pub mark_between_bars : Series F → Series F
  mark_between_bars s = record s { between_bars = true }

  -- `False if self.dtype == "bool" else na`
  abbrev pub missing : Series F → Value F
  missing s = if s.dtype == "bool" then bool false else na

  -- How far the index stands from the end of the history; the source's index is
  -- `len(self._history)` less this, and it is negative when this is the larger.
  abbrev pub distance : Series F → ℕ → ℕ
  distance s offset = if s.between_bars then offset + 1 else offset

  unfoldable pub lookback : Series F → ℕ → Value F
  lookback s offset =
      if nat_beq (length s.history) 0
      then missing s
      else if ltb (length s.history) (distance s offset)
      then missing s
      else or_else (get_elem? s.history (length s.history - distance s offset)) (missing s)

  -- `series[offset]`
  unfoldable pub getitem : Series F → ℤ → Result (Value F)
  unfolding lookback
  getitem s (negsuc _) = raise history_error
  getitem s (pos zero) = ok s.current
  getitem s (pos (suc k)) = do
    raise_if (history_forbidden s.type_info) history_not_allowed
    raise_if (is_reference s.type_info && is_unsupported s.reference_mode)
        reference_history_unsupported
    ok (lookback s (suc k))
