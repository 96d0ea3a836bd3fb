-- ===== src/Strategy/Calls/Lasting.antt =====
-- What calls leave of a strategy (pinelib/strategy/context.py, pinelib/strategy/intent_context.py).
use pinelib.Prelude.{
  ℕ, Bool, List, Option, String, [], ap, get_elem?, ok, refl, some, suc, zero, ◌++◌, ◌∙◌, ◌∷◌, ◌≡◌,
  >>=-eq-ok, arith, false, if◌then◌else◌, ok-injective, or_else, subst, sym, true, ◌>>=◌,
}
use pinelib.Core.Value.{Float}
use pinelib.Core.Runtime.State.{Runtime}
use pinelib.Intent.Contracts.{Contracts, SpanInput, Fields}
use pinelib.Intent.Tape.Record.{record_intent}
use pinelib.Intent.Tape.{Tape}
use pinelib.Intent.Tape.Valid.{get_elem?-some_append}
use pinelib.Intent.Tape.Frozen.{Steps, done, next, recorded, began, committed}
use pinelib.Strategy.Models.{Order, cancelled}
use pinelib.Strategy.Context.{
  Strategy, attach_strategy_ledger_view, begin_intent_callback, commit_intents_for_current_bar,
  commit_scalar_history, intent_command, record_strategy_intent,
}
use pinelib.Strategy.Orders.{
  add_order, cancel_all_orders, cancel_order, cancelled_where, close_all_orders, close_order,
  exit_order, answers_to,
}
use pinelib.Strategy.Risk.{risk_allow_entry_in, risk_limit}
use pinelib.Strategy.Calls.{
  Call, Calls, added, allowed, cancelled_all, cancelled_one, closed, closed_all, counted, exited,
  limited, more, scoped, sealed, stay, viewed,
}

module _ {F : Type 0} where
  -- Every order stays at its place and changes nothing but its status; a cancelled one stays so.
  abbrev pub OrdersLast : List (Order F) → List (Order F) → Type 0
  OrdersLast os ps =
      (i : ℕ) (o : Order F)
      → get_elem? os i ≡ some o
      → (p : Order F) × (get_elem? ps i ≡ some p)
        × (p ≡ record o { status = p.status })
        × (o.status ≡ cancelled → p.status ≡ cancelled)

  OrdersLast-refl : (os : List (Order F)) → OrdersLast os os
  OrdersLast-refl os i o h = (o, h, refl, λ c. c)

  OrdersLast-append : (os : List (Order F)) (o : Order F) → OrdersLast os (os ++ o ∷ [])
  OrdersLast-append os o i p h = (p, get_elem?-some_append os (o ∷ []) i h, refl, λ c. c)

  Marked :
      (b : Bool) (o : Order F)
      → let p = if b then record o { status = cancelled } else o in
        (p ≡ record o { status = p.status }) × (o.status ≡ cancelled → p.status ≡ cancelled)
  Marked true o = (refl, λ c. refl)
  Marked false o = (refl, λ c. c)

  OrdersLast-cancelled :
      (test : Order F → Bool) (os : List (Order F)) → OrdersLast os (cancelled_where test os)
  OrdersLast-cancelled test [] i o h = ground arith
  OrdersLast-cancelled test (p ∷ os) zero o h =
      let same : p ≡ o = ap (λ x. or_else x p) h in
      (
        (if test p then record p { status = cancelled } else p),
        refl,
        subst
            (λ x. (if test p then record p { status = cancelled } else p) ≡ record x {
              status = (if test p then record p { status = cancelled } else p).status;
            })
            same (Marked (test p) p).0,
        λ c. (Marked (test p) p).1 (subst (λ x. x.status ≡ cancelled) (sym same) c),
      )
  OrdersLast-cancelled test (p ∷ os) (suc i) o h = OrdersLast-cancelled test os i o h

  OrdersLast-trans :
      (os ps qs : List (Order F)) → OrdersLast os ps → OrdersLast ps qs → OrdersLast os qs
  OrdersLast-trans os ps qs h k i o g =
      let (p, at, same, keeps) = h i o g in
      let (q, at', same', keeps') = k i p at in
      (
        q,
        at',
        same' ∙ ap {A = Order F} (λ x. record x { status = q.status }) same,
        λ c. keeps' (keeps c),
      )

module _ {F : Type 0} (S : Type 0) (fl : Float F) (ct : Contracts F) where
  -- What a call leaves of a strategy: its tape went through calls of the tape, its orders last, and
  -- its declaration is as it was.
  pub record Lasting (s w : Strategy F) : Type 0 where
    pub steps : Steps ct s.intent_tape w.intent_tape
    pub orders : OrdersLast s.pending_orders w.pending_orders
    pub declaration : w.declaration ≡ s.declaration

  record_strategy_intent-Steps :
      (rt : Runtime F S) (kind id : String) (fields : Fields F) (m : Option SpanInput)
      (s w : Strategy F)
      → record_strategy_intent ct rt kind id fields m s ≡ ok w
      → Steps ct s.intent_tape w.intent_tape × (w ≡ record s { intent_tape = w.intent_tape })
  unfolding record_strategy_intent
  record_strategy_intent-Steps rt kind id fields m s w h =
      let c = intent_command rt kind id fields m s in
      let ((tape, e), first, h1) = >>=-eq-ok (record_intent ct c s.intent_tape) _ h in
      let same = ok-injective h1 in
      (
        subst (λ x. Steps ct s.intent_tape x.intent_tape) same
            (next _ _ _ (recorded c s.intent_tape tape e first) (done tape)),
        subst (λ x. x ≡ record s { intent_tape = x.intent_tape }) same refl,
      )

  -- A call that records an intent and then changes only the orders and the risk rules.
  recorded-Lasting :
      (rt : Runtime F S) (kind id : String) (fields : Fields F) (m : Option SpanInput)
      (f : Strategy F → Strategy F) (s w : Strategy F)
      → ((x : Strategy F)
          → ((f x).intent_tape ≡ x.intent_tape)
            × OrdersLast x.pending_orders (f x).pending_orders
            × ((f x).declaration ≡ x.declaration))
      → (record_strategy_intent ct rt kind id fields m s >>= λ x. ok (f x)) ≡ ok w
      → Lasting s w
  recorded-Lasting rt kind id fields m f s w keeps h =
      let (x, first, h1) = >>=-eq-ok (record_strategy_intent ct rt kind id fields m s) _ h in
      let (steps, same) = record_strategy_intent-Steps rt kind id fields m s x first in
      let (tape, orders, declaration) = keeps x in
      subst (Lasting s) (ok-injective h1) (record {
        steps = rw tape steps;
        orders =
            subst (λ os. OrdersLast os (f x).pending_orders) (ap (λ y. y.pending_orders) same)
              orders;
        declaration = declaration ∙ ap (λ y. y.declaration) same;
      })

  Call-Lasting : (s w : Strategy F) → Call S fl ct s w → Lasting s w
  unfolding add_order exit_order close_order close_all_orders cancel_order cancel_all_orders
      risk_allow_entry_in risk_limit begin_intent_callback commit_intents_for_current_bar
      commit_scalar_history attach_strategy_ledger_view
  Call-Lasting _ _ (added kind rt d r s w h) =
      recorded-Lasting rt _ _ _ _ _ s w (λ x. (refl, OrdersLast-append _ _, refl)) h
  Call-Lasting _ _ (exited rt r s w h) =
      recorded-Lasting rt _ _ _ _ _ s w (λ x. (refl, OrdersLast-append _ _, refl)) h
  Call-Lasting _ _ (closed rt id qty percent now comment m s w h) =
      recorded-Lasting rt _ _ _ _ _ s w (λ x. (refl, OrdersLast-append _ _, refl)) h
  Call-Lasting _ _ (closed_all rt now comment m s w h) =
      recorded-Lasting rt _ _ _ _ _ s w (λ x. (refl, OrdersLast-append _ _, refl)) h
  Call-Lasting _ _ (cancelled_one rt id m s w h) =
      recorded-Lasting rt _ _ _ _
        (λ x. record x { pending_orders = cancelled_where (answers_to id) x.pending_orders }) s w
        (λ x. (refl, OrdersLast-cancelled (answers_to id) x.pending_orders, refl)) h
  Call-Lasting _ _ (cancelled_all rt m s w h) =
      recorded-Lasting rt _ _ _ _
        (λ x. record x { pending_orders = cancelled_where (λ o. true) x.pending_orders }) s w
        (λ x. (refl, OrdersLast-cancelled (λ o. true) x.pending_orders, refl)) h
  Call-Lasting _ _ (allowed rt d s w h) =
      recorded-Lasting rt _ _ _ _ _ s w (λ x. (refl, OrdersLast-refl _, refl)) h
  Call-Lasting _ _ (limited limit rt v t s w h) =
      recorded-Lasting rt _ _ _ _ _ s w (λ x. (refl, OrdersLast-refl _, refl)) h
  Call-Lasting _ _ (scoped rt phase recalc s) = record {
    steps = next _ _ _ (began _ _ phase recalc s.intent_tape) (done _);
    orders = OrdersLast-refl s.pending_orders;
    declaration = refl;
  }
  Call-Lasting _ _ (sealed rt s) = record {
    steps = next _ _ _ (committed _ _ s.intent_tape) (done _);
    orders = OrdersLast-refl s.pending_orders;
    declaration = refl;
  }
  Call-Lasting _ _ (counted s) = record {
    steps = done s.intent_tape;
    orders = OrdersLast-refl s.pending_orders;
    declaration = refl;
  }
  Call-Lasting _ _ (viewed view s) = record {
    steps = done s.intent_tape;
    orders = OrdersLast-refl s.pending_orders;
    declaration = refl;
  }

  pub Calls-append : (s m w : Strategy F) → Calls S fl ct s m → Call S fl ct m w → Calls S fl ct s w
  Calls-append _ _ w (stay s) last = more s w w last (stay w)
  Calls-append _ _ w (more s n m first rest) last = more s n w first (Calls-append n m w rest last)

  pub Calls-trans : (s m w : Strategy F) → Calls S fl ct s m → Calls S fl ct m w → Calls S fl ct s w
  Calls-trans _ _ w (stay s) b = b
  Calls-trans _ _ w (more s n m first rest) b = more s n w first (Calls-trans n m w rest b)

  pub Steps-trans : (t u v : Tape) → Steps ct t u → Steps ct u v → Steps ct t v
  Steps-trans _ _ v (done t) b = b
  Steps-trans _ _ v (next t m u s rest) b = next t m v s (Steps-trans m u v rest b)

  pub Calls-Lasting : (s w : Strategy F) → Calls S fl ct s w → Lasting s w
  Calls-Lasting _ _ (stay s) = record {
    steps = done s.intent_tape;
    orders = OrdersLast-refl s.pending_orders;
    declaration = refl;
  }
  Calls-Lasting _ _ (more s m w first rest) =
      let a = Call-Lasting s m first in
      let b = Calls-Lasting m w rest in
      record {
        steps = Steps-trans s.intent_tape m.intent_tape w.intent_tape a.steps b.steps;
        orders =
            OrdersLast-trans s.pending_orders m.pending_orders w.pending_orders a.orders b.orders;
        declaration = b.declaration ∙ a.declaration;
      }

  -- Any calls on a strategy leave every pending order at its place with nothing changed but its
  -- status, and a cancelled one stays cancelled.
  pub Calls-OrdersLast :
      (s w : Strategy F) → Calls S fl ct s w → OrdersLast s.pending_orders w.pending_orders
  Calls-OrdersLast s w h = (Calls-Lasting s w h).orders
