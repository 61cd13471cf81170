-- ===== src/Signal/Loop/Sound.antt =====
-- The orders that the engine sends.
use hyperliquid_rust_bot.Prelude.{
  ◌≡◌, refl, sym, subst, ◌∙◌, true, not, Option, none, some, [], ◌∷◌, All, All-append, arith,
  Result, ok, err, ◌>>◌, bind-ok, Bool-cases, inl, inr,
}
use hyperliquid_rust_bot.Float.{Float}
use hyperliquid_rust_bot.Exec.Types.{
  EngineOrder, Limit, ExecCommand, order, force_taker, TriggerKind, tp, sl,
}
use hyperliquid_rust_bot.Exec.Orders.{new_tp, new_sl, new_trigger_close}
use hyperliquid_rust_bot.Signal.Intent.{Triggers}
use hyperliquid_rust_bot.Signal.Params.{get_max_open_size, OpenPosInfo, ExecParams}
use hyperliquid_rust_bot.Signal.Checks.{
  PendingOpen, PendingOrder, to_open, to_close, is_finite_positive, validate_engine_order,
  validate_trade, validate_finite_positive, Rejection, exceeded_max_size, validate_triggers, check,
  validate_action, validate_rest, validate_limit, validate_trigger_price, validate_tpsl,
  calc_trigger_px,
}
use hyperliquid_rust_bot.Signal.Engine.{Channels, SignalEngine, queue_exec_command}
use hyperliquid_rust_bot.Signal.Orders.{
  trigger_order, queue_trigger, queue_triggers, queue_pending, queue_pending_tpsl,
}
use hyperliquid_rust_bot.Signal.Ticks.{main_order}

-- Finite and positive: the size, and the limit price if there is one.
abbrev pub IsSoundLimit : {F : Type 0} ⦃f : Float F⦄ → Option (Limit F) → Type 0
IsSoundLimit none = Unit {0}
IsSoundLimit (some l) = is_finite_positive l.limit_px ≡ true

abbrev pub IsSoundOrder : {F : Type 0} ⦃f : Float F⦄ → EngineOrder F → Type 0
IsSoundOrder o = (is_finite_positive o.size ≡ true) × IsSoundLimit o.limit

-- A forced order is a market order: it has no limit and no trigger. Its size is not checked.
abbrev pub IsSoundCommand : {F : Type 0} ⦃f : Float F⦄ → ExecCommand F → Type 0
IsSoundCommand (order o) = IsSoundOrder o
IsSoundCommand (force_taker o) = o.limit ≡ none
IsSoundCommand _ = Unit {0}

abbrev pub IsSoundPending : {F : Type 0} ⦃f : Float F⦄ → Option (PendingOpen F) → Type 0
IsSoundPending none = Unit {0}
IsSoundPending (some p) = is_finite_positive p.order.size ≡ true

module _ {F : Type 0} ⦃f : Float F⦄ where
  validate_finite_positive-ok :
      (v : F) {u : Unit {0}} → validate_finite_positive v ≡ ok u → is_finite_positive v ≡ true
  unfolding validate_finite_positive
  validate_finite_positive-ok v h = ground arith

  validate_limit-ok :
      (l : Limit F) (px : F) {u : Unit {0}}
      → validate_limit l px ≡ ok u
      → is_finite_positive l.limit_px ≡ true
  unfolding validate_limit validate_finite_positive
  validate_limit-ok l px h = ground arith

  validate_rest-IsSound :
      (limit : Option (Limit F)) (o : EngineOrder F) (pos : Option (OpenPosInfo F)) (px : F)
      (u : Unit {0})
      → validate_rest limit o pos px ≡ ok u
      → IsSoundLimit limit
  unfolding validate_limit
  validate_rest-IsSound none o pos px u h = tt
  validate_rest-IsSound (some l) o pos px u h =
      let (x, p, _) = bind-ok (validate_limit l px) _ u h in validate_limit-ok l px p

  validate_engine_order-IsSound :
      (params : ExecParams F) (o : EngineOrder F) (px : F) (u : Unit {0})
      → validate_engine_order params o px ≡ ok u
      → IsSoundOrder o
  unfolding validate_engine_order validate_limit
  validate_engine_order-IsSound params o px u h =
      let (_, _, sized) = bind-ok (validate_finite_positive px) _ u h in
      let (_, p, rest) = bind-ok (validate_finite_positive o.size) _ u sized in
      (
        validate_finite_positive-ok o.size p,
        validate_rest-IsSound o.limit o params.open_pos px u rest,
      )

  -- A trade that is validated has a sound order.
  pub validate_trade-IsSound :
      (params : ExecParams F) (pending : PendingOrder F) (px : F) (u : Unit {0})
      → validate_trade params pending px ≡ ok u
      → IsSoundOrder (main_order pending)
  unfolding validate_trade get_max_open_size validate_tpsl validate_engine_order
  validate_trade-IsSound params (to_close o) px u h =
      let (_, _, rest) = bind-ok (validate_action o.action params.open_pos) _ u h in
      validate_engine_order-IsSound params o px u rest
  validate_trade-IsSound params (to_open p) px u h =
      let (_, _, rest) = bind-ok (validate_action p.order.action params.open_pos) _ u h in
      let fits = check (not (f.lt (get_max_open_size params px) p.order.size)) exceeded_max_size in
      let (_, _, sized) =
        bind-ok fits (λ _. validate_engine_order params p.order px >> validate_triggers p.tpsl) u
          rest in
      let (x, valid, _) =
        bind-ok (validate_engine_order params p.order px) (λ _. validate_triggers p.tpsl) u sized in
      validate_engine_order-IsSound params p.order px x valid

  validate_trigger_price-ok :
      (v : F) {u : Unit {0}} → validate_trigger_price v ≡ ok u → is_finite_positive v ≡ true
  unfolding validate_trigger_price
  validate_trigger_price-ok v h = ground arith

  trigger_order-IsSound :
      (trigger : TriggerKind) (size px : F)
      → is_finite_positive size ≡ true
      → is_finite_positive px ≡ true
      → IsSoundOrder (trigger_order trigger size px)
  unfolding new_tp new_sl new_trigger_close
  trigger_order-IsSound tp size px a b = (a, b)
  trigger_order-IsSound sl size px a b = (a, b)

-- Every order sent is sound, and so is the size of the pending one.
pub record IsSound {F I V K S : Type 0} ⦃f : Float F⦄ (e : SignalEngine F I V K S) : Type 0 where
  pub sent : All IsSoundCommand e.exec_log
  pub waiting : IsSoundPending e.pending_orders

module _ {F I V K S : Type 0} ⦃f : Float F⦄ (ch : Channels) where
  pub queue-IsSound :
      (cmd : ExecCommand F) (e : SignalEngine F I V K S)
      → IsSoundCommand cmd
      → All IsSoundCommand e.exec_log
      → All IsSoundCommand (queue_exec_command ch cmd e).1.exec_log
  unfolding queue_exec_command
  queue-IsSound cmd e c h = elim (Bool-cases (ch.trade_takes e.exec_offered)) [
    | inl q ↦ rw q (All-append IsSoundCommand e.exec_log (cmd ∷ []) h (c, tt))
    | inr q ↦ rw q h
  ]

  queue_trigger-IsSound :
      (trigger : TriggerKind) (delta : Option F) (size : F) (pos : OpenPosInfo F)
      (e : SignalEngine F I V K S)
      → is_finite_positive size ≡ true
      → All IsSoundCommand e.exec_log
      → All IsSoundCommand (queue_trigger ch trigger delta size pos e).exec_log
        × ((queue_trigger ch trigger delta size pos e).pending_orders ≡ e.pending_orders)
  unfolding queue_trigger
  queue_trigger-IsSound trigger none size pos e s h = (h, refl)
  queue_trigger-IsSound trigger (some delta) size pos e s h =
      by_check
        (validate_trigger_price
          (calc_trigger_px pos.side trigger delta pos.entry_px e.exec_params.lev))
        refl
    where
      by_check :
          (r : Result Rejection (Unit {0}))
          → validate_trigger_price
              (calc_trigger_px pos.side trigger delta pos.entry_px e.exec_params.lev)
            ≡ r
          → All IsSoundCommand (queue_trigger ch trigger (some delta) size pos e).exec_log
            × ((queue_trigger ch trigger (some delta) size pos e).pending_orders ≡ e.pending_orders)
      by_check (err _) q = rw (queue_trigger, q) (h, refl)
      by_check (ok _) q =
          let px = calc_trigger_px pos.side trigger delta pos.entry_px e.exec_params.lev in
          rw (queue_trigger, q)
            (
              queue-IsSound (order (trigger_order trigger size px)) e
                  (trigger_order-IsSound trigger size px s (validate_trigger_price-ok px q)) h,
              refl,
            )

  pub queue_pending_tpsl-IsSound :
      (pos : OpenPosInfo F) (e : SignalEngine F I V K S)
      → IsSound e
      → IsSound (queue_pending_tpsl ch pos e)
  unfolding queue_pending_tpsl queue_trigger
  queue_pending_tpsl-IsSound pos e h = by_pending e.pending_orders h.waiting
    where
      by_triggers :
          (t : Option (Triggers F)) (p : PendingOpen F)
          → IsSoundPending (some p)
          → IsSound (queue_triggers ch t p.order.size pos (record e { pending_orders = none }))
      by_triggers none p w = record { sent = h.sent; waiting = tt }
      by_triggers (some t) p w =
          let taken = record e { pending_orders = none } in
          let (a, q) = queue_trigger-IsSound tp t.tp p.order.size pos taken w h.sent in
          let (b, r) =
            queue_trigger-IsSound sl t.sl p.order.size pos
              (queue_trigger ch tp t.tp p.order.size pos taken) w a in
          record { sent = b; waiting = subst IsSoundPending (sym (r ∙ q)) tt }

      by_pending :
          (x : Option (PendingOpen F)) → IsSoundPending x → IsSound (queue_pending ch x pos e)
      by_pending none w = h
      by_pending (some p) w = by_triggers p.tpsl p w
