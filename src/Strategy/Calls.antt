-- ===== src/Strategy/Calls.antt =====
-- Sequences of calls on a strategy (pinelib/strategy/context.py, pinelib/strategy/intent_context.py).
pub mod Lasting
use pinelib.Prelude.{
  ℕ, Bool, List, Option, String, [], ap, get_elem?, ok, refl, some, suc, zero, ◌++◌, ◌∙◌, ◌∷◌, ◌≡◌,
  >>=-eq-ok, arith, false, if◌then◌else◌, ok-injective, or_else, subst, sym, true, ◌>>=◌,
}
use pinelib.Prelude.Int.{ℤ}
use pinelib.Core.Value.{Float}
use pinelib.Core.Runtime.State.{Runtime}
use pinelib.Intent.Contracts.{Contracts, SpanInput, Fields}
use pinelib.Intent.Tape.Record.{record_intent}
use pinelib.Intent.Tape.{Tape, is_committed}
use pinelib.Intent.Tape.Valid.{get_elem?-some_append, IsValid}
use pinelib.Intent.Tape.Frozen.{
  Steps, done, next, recorded, began, committed, Kept, Steps-IsValid, Steps-Kept,
}
use pinelib.Strategy.Models.{Order, cancelled, Direction, OrderKind}
use pinelib.Strategy.Context.{
  Strategy, attach_strategy_ledger_view, begin_intent_callback, commit_intents_for_current_bar,
  commit_scalar_history, intent_command, record_strategy_intent,
}
use pinelib.Strategy.Orders.{
  Request, ExitRequest, add_order, cancel_all_orders, cancel_order, cancelled_where,
  close_all_orders, close_order, exit_order, answers_to,
}
use pinelib.Strategy.Ledger.{LedgerView}
use pinelib.Strategy.Risk.{RiskLimit, risk_allow_entry_in, risk_limit}

module _ {F : Type 0} (S : Type 0) (fl : Float F) (ct : Contracts F) where
  -- One call that a script or the driver makes without an exception, or a callback scope that
  -- begins, whether or not the tape takes it.
  pub data Call : Strategy F → Strategy F → Type 0 where
    added :
        (kind : OrderKind) (rt : Runtime F S) (d : Direction) (r : Request F) (s w : Strategy F)
        → add_order fl ct kind rt d r s ≡ ok w
        → Call s w
    exited :
        (rt : Runtime F S) (r : ExitRequest F) (s w : Strategy F)
        → exit_order fl ct rt r s ≡ ok w
        → Call s w
    closed :
        (rt : Runtime F S) (id : String) (qty percent : Option F) (now : Bool)
        (comment : Option String) (source_map : Option SpanInput) (s w : Strategy F)
        → close_order fl ct rt id qty percent now comment source_map s ≡ ok w
        → Call s w
    closed_all :
        (rt : Runtime F S) (now : Bool) (comment : Option String) (source_map : Option SpanInput)
        (s w : Strategy F)
        → close_all_orders fl ct rt now comment source_map s ≡ ok w
        → Call s w
    cancelled_one :
        (rt : Runtime F S) (id : String) (source_map : Option SpanInput) (s w : Strategy F)
        → cancel_order ct rt id source_map s ≡ ok w
        → Call s w
    cancelled_all :
        (rt : Runtime F S) (source_map : Option SpanInput) (s w : Strategy F)
        → cancel_all_orders ct rt source_map s ≡ ok w
        → Call s w
    allowed :
        (rt : Runtime F S) (direction : String) (s w : Strategy F)
        → risk_allow_entry_in fl ct rt direction s ≡ ok w
        → Call s w
    limited :
        (limit : RiskLimit) (rt : Runtime F S) (value : F) (type : String) (s w : Strategy F)
        → risk_limit fl ct limit rt value type s ≡ ok w
        → Call s w
    scoped :
        (rt : Runtime F S) (phase : String) (recalc : ℤ) (s : Strategy F)
        → Call s (begin_intent_callback ct rt phase recalc s).0
    sealed : (rt : Runtime F S) (s : Strategy F) → Call s (commit_intents_for_current_bar rt s)
    counted : (s : Strategy F) → Call s (commit_scalar_history s)
    viewed : (view : LedgerView F) (s : Strategy F) → Call s (attach_strategy_ledger_view view s)

  pub data Calls : Strategy F → Strategy F → Type 0 where
    stay : (s : Strategy F) → Calls s s
    more : (s m w : Strategy F) → Call s m → Calls m w → Calls s w
