-- ===== src/Strategy/Attach/Flags.antt =====
-- What attaching a strategy establishes (attach_runtime of pinelib/strategy/context.py).
use pinelib.Prelude.{
  Bool, Bool-cases, Option, Result, Result-cases, and_then, and_then-eq-ok, ap, false, inl, inr, ok,
  ok-injective, refl, some, subst, sym, true, ◌&&◌, ◌∙◌, ◌≡◌, ◌||◌, arith, >>=-eq-ok,
}
use pinelib.Core.Value.{Float}
use pinelib.Core.Runtime.State.{Runtime, RuntimeConfig}
use pinelib.Intent.Contracts.{Contracts}
use pinelib.Intent.Tape.{set_series_identity}
use pinelib.Strategy.Models.{StrategyDeclaration}
use pinelib.Strategy.Context.{Strategy}
use pinelib.Intent.Tape.Frozen.{Steps, done, next, renamed}
use pinelib.Strategy.Attach.{
  Reading, attach_intent_runtime_identity, attach_runtime, check_strict_identity, conflicts,
  has_unsupported, name_tape, on_config, sync_on_close, sync_on_fills, sync_on_tick,
  sync_runtime_strategy_flags, synced, validate_settings,
}

-- Where a flag is taken, it is the strategy's.
synced-some :
    (strict : Bool) (configured : Option Bool) (value : Bool)
    → (synced strict configured value).1 ≡ ok tt
    → (synced strict configured value).0 ≡ some value
unfolding synced
synced-some strict configured value h = elim (Bool-cases (conflicts configured value && strict)) [
  | inl clash ↦ absurd (ground arith)
  | inr fine ↦ rw fine refl
]

module _ {F : Type 0} where
  -- The configuration has the strategy's flags.
  pub record HasFlags (d : StrategyDeclaration F) (cfg : RuntimeConfig) : Type 0 where
    pub on_close : cfg.process_orders_on_close ≡ some d.process_orders_on_close
    pub on_fills : cfg.calc_on_order_fills ≡ some d.calc_on_order_fills
    pub on_tick : cfg.calc_on_every_tick ≡ some d.calc_on_every_tick

  sync_on_close-flag :
      (d : StrategyDeclaration F) (cfg : RuntimeConfig) {out : RuntimeConfig}
      → sync_on_close d cfg ≡ (out, ok tt)
      → out.process_orders_on_close ≡ some d.process_orders_on_close
  unfolding sync_on_close
  sync_on_close-flag d cfg h =
      ap (λ p. p.0.process_orders_on_close) (sym h)
      ∙ synced-some d.strict_tv_parity cfg.process_orders_on_close d.process_orders_on_close
          (ap (λ p. p.1) h)

  sync_on_fills-flag :
      (d : StrategyDeclaration F) (cfg : RuntimeConfig) {out : RuntimeConfig}
      → sync_on_fills d cfg ≡ (out, ok tt)
      → (out.process_orders_on_close ≡ cfg.process_orders_on_close)
        × (out.calc_on_order_fills ≡ some d.calc_on_order_fills)
  unfolding sync_on_fills
  sync_on_fills-flag d cfg h = (
    ap (λ p. p.0.process_orders_on_close) (sym h),
    ap (λ p. p.0.calc_on_order_fills) (sym h)
        ∙ synced-some d.strict_tv_parity cfg.calc_on_order_fills d.calc_on_order_fills
            (ap (λ p. p.1) h),
  )

  sync_on_tick-flag :
      (d : StrategyDeclaration F) (cfg : RuntimeConfig) {out : RuntimeConfig}
      → sync_on_tick d cfg ≡ (out, ok tt)
      → (out.process_orders_on_close ≡ cfg.process_orders_on_close)
        × (out.calc_on_order_fills ≡ cfg.calc_on_order_fills)
        × (out.calc_on_every_tick ≡ some d.calc_on_every_tick)
  unfolding sync_on_tick
  sync_on_tick-flag d cfg h = (
    ap (λ p. p.0.process_orders_on_close) (sym h),
    ap (λ p. p.0.calc_on_order_fills) (sym h),
    ap (λ p. p.0.calc_on_every_tick) (sym h)
        ∙ synced-some d.strict_tv_parity cfg.calc_on_every_tick d.calc_on_every_tick
            (ap (λ p. p.1) h),
  )

  sync_runtime_strategy_flags-HasFlags :
      (d : StrategyDeclaration F) (cfg : RuntimeConfig) {out : RuntimeConfig}
      → sync_runtime_strategy_flags d cfg ≡ (out, ok tt)
      → HasFlags d out
  unfolding sync_runtime_strategy_flags
  sync_runtime_strategy_flags-HasFlags d cfg h =
      let (a, e1, h1) =
        and_then-eq-ok (sync_on_close d cfg) (λ x. and_then (sync_on_fills d x) (sync_on_tick d))
          h in
      let (b, e2, e3) = and_then-eq-ok (sync_on_fills d a) (sync_on_tick d) h1 in
      let (kept, fills) = sync_on_fills-flag d a e2 in
      let (kept1, kept2, tick) = sync_on_tick-flag d b e3 in
      record {
        on_close = kept1 ∙ kept ∙ sync_on_close-flag d cfg e1;
        on_fills = kept2 ∙ fills;
        on_tick = tick;
      }

module _ {F : Type 0} (fl : Float F) where
  validate_settings-HasFlags :
      (d : StrategyDeclaration F) (cfg : RuntimeConfig) {out : RuntimeConfig}
      → validate_settings fl d cfg ≡ (out, ok tt)
      → HasFlags d cfg
      → HasFlags d out × (has_unsupported fl d ≡ true → d.strict_tv_parity ≡ false)
  unfolding validate_settings
  validate_settings-HasFlags d cfg h f =
      elim (Bool-cases (has_unsupported fl d && (d.strict_tv_parity || cfg.strict_tv_parity))) [
        | inl refused ↦ absurd (let thrown = ap (λ p. p.1) (rw refused at h) in cc)
        | inr passed ↦
            let taken = rw passed at h in
            (
              subst (HasFlags d) (ap (λ p. p.0) taken)
                  (record { on_close = f.on_close; on_fills = f.on_fills; on_tick = f.on_tick }),
              λ x. ground arith,
            )
      ]

module _ {F S : Type 0} (fl : Float F) (rd : Reading F) (ct : Contracts F) where
  on_config-eq-ok :
      (change : RuntimeConfig → RuntimeConfig × Result (Unit {0})) (p : Runtime F S × Strategy F)
      {out : Runtime F S × Strategy F}
      → on_config fl rd ct change p ≡ (out, ok tt)
      → (change p.0.config ≡ (out.0.config, ok tt)) × (out.1 ≡ p.1)
  on_config-eq-ok change p h = (ap (λ q. (q.0.0.config, q.1)) h, ap (λ q. q.0.1) (sym h))

  name_tape-named :
      (rt : Runtime F S) (s : Strategy F) {out : Runtime F S × Strategy F}
      → name_tape fl rd ct (rt, s) ≡ (out, ok tt)
      → (out.0 ≡ rt) × (attach_intent_runtime_identity ct rt s ≡ ok (out.1))
  unfolding name_tape
  name_tape-named rt s h = elim (Result-cases (attach_intent_runtime_identity ct rt s)) [
    | inl (e, thrown) ↦ absurd (let raised = ap (λ p. p.1) (rw (name_tape, thrown) at h) in cc)
    | inr (w, named) ↦
        let same = ap (λ p. p.0) (rw (name_tape, named) at h) in
        (ap (λ p. p.0) (sym same), named ∙ ap (λ p. ok (p.1)) same)
  ]

  attach_intent_runtime_identity-keeps :
      (rt : Runtime F S) (s w : Strategy F)
      → attach_intent_runtime_identity ct rt s ≡ ok w
      → (w.attached ≡ s.attached)
        × (w.declaration ≡ s.declaration)
        × (w.pending_orders ≡ s.pending_orders)
        × Steps ct s.intent_tape w.intent_tape
  unfolding attach_intent_runtime_identity
  attach_intent_runtime_identity-keeps rt s w h =
      let (tape, e, last) = >>=-eq-ok (set_series_identity ct _ _ _ _ s.intent_tape) _ h in
      let same = ok-injective last in
      (
        ap (λ x. x.attached) (sym same),
        ap (λ x. x.declaration) (sym same),
        ap (λ x. x.pending_orders) (sym same),
        subst (λ x. Steps ct s.intent_tape x.intent_tape) same
            (next s.intent_tape tape tape (renamed _ _ _ _ s.intent_tape tape e) (done tape)),
      )

  -- The parts of an attachment that returned.
  record Attached (rt out : Runtime F S) (s w : Strategy F) : Type 0 where
    flags : RuntimeConfig
    synced_flags : sync_runtime_strategy_flags s.declaration rt.config ≡ (flags, ok tt)
    valid_settings : validate_settings fl s.declaration flags ≡ (out.config, ok tt)
    named : attach_intent_runtime_identity ct out (record s { attached = true }) ≡ ok w

  -- The two procedures on the configuration and the naming, each of which returned.
  attach_parts :
      (rt out : Runtime F S) (s w : Strategy F) (a b : Runtime F S × Strategy F)
      → let sync = on_config fl rd ct (sync_runtime_strategy_flags s.declaration) in
        let validate = on_config fl rd ct (validate_settings fl s.declaration) in
        sync (rt, record s { attached = true }) ≡ (a, ok tt)
        → validate a ≡ (b, ok tt)
        → name_tape fl rd ct b ≡ ((out, w), ok tt)
        → Attached rt out s w
  attach_parts rt out s w a b e1 e2 e3 =
      let held : Strategy F = record s { attached = true } in
      let (made, kept) =
        on_config-eq-ok (sync_runtime_strategy_flags s.declaration) (rt, held) e1 in
      let (valid, kept1) = on_config-eq-ok (validate_settings fl s.declaration) a e2 in
      let (same, given) = name_tape-named (b.0) (b.1) e3 in
      record {
        flags = a.0.config;
        synced_flags = made;
        valid_settings = valid ∙ ap (λ (r : Runtime F S). (r.config, ok tt)) (sym same);
        named =
            ap (λ r. attach_intent_runtime_identity ct r held) same
            ∙ ap (attach_intent_runtime_identity ct (b.0)) (sym (kept1 ∙ kept))
            ∙ given;
      }

  attach_runtime-Attached :
      (rt out : Runtime F S) (s w : Strategy F)
      → attach_runtime fl rd ct rt s ≡ ((out, w), ok tt)
      → Attached rt out s w
  unfolding attach_runtime
  attach_runtime-Attached rt out s w h = elim (Result-cases (check_strict_identity fl rd ct rt s)) [
    | inl (e, thrown) ↦ absurd (let raised = ap (λ p. p.1) (rw (attach_runtime, thrown) at h) in cc)
    | inr (u, passed) ↦
        let sync = on_config fl rd ct (sync_runtime_strategy_flags s.declaration) in
        let validate = on_config fl rd ct (validate_settings fl s.declaration) in
        let held : Runtime F S × Strategy F = (rt, record s { attached = true }) in
        let (a, e1, h1) =
          and_then-eq-ok (sync held) (λ x. and_then (validate x) (name_tape fl rd ct))
            (rw (attach_runtime, passed) at h) in
        let (b, e2, e3) = and_then-eq-ok (validate a) (name_tape fl rd ct) h1 in
        attach_parts rt out s w a b e1 e2 e3
  ]

  -- When a strategy is attached, the runtime's configuration has the strategy's three flags, the
  -- strategy is attached with the same declaration, and a declaration with an unsupported setting
  -- is not in strict parity.
  pub attach_runtime-HasFlags :
      (rt out : Runtime F S) (s w : Strategy F)
      → attach_runtime fl rd ct rt s ≡ ((out, w), ok tt)
      → HasFlags s.declaration out.config
        × (w.attached ≡ true)
        × (w.declaration ≡ s.declaration)
        × (has_unsupported fl s.declaration ≡ true → s.declaration.strict_tv_parity ≡ false)
  attach_runtime-HasFlags rt out s w h =
      let a = attach_runtime-Attached rt out s w h in
      let (has, lax) =
        validate_settings-HasFlags fl s.declaration a.flags a.valid_settings
          (sync_runtime_strategy_flags-HasFlags s.declaration rt.config a.synced_flags) in
      let (attached, declaration, _, _) =
        attach_intent_runtime_identity-keeps out (record s { attached = true }) w a.named in
      (has, attached, declaration, lax)

  -- Attaching gives the tape its identity and leaves the orders.
  pub attach_runtime-Steps :
      (rt out : Runtime F S) (s w : Strategy F)
      → attach_runtime fl rd ct rt s ≡ ((out, w), ok tt)
      → Steps ct s.intent_tape w.intent_tape × (w.pending_orders ≡ s.pending_orders)
  attach_runtime-Steps rt out s w h =
      let a = attach_runtime-Attached rt out s w h in
      let (_, _, orders, tape) =
        attach_intent_runtime_identity-keeps out (record s { attached = true }) w a.named in
      (tape, orders)
