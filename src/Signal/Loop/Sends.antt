-- ===== src/Signal/Loop/Sends.antt =====
-- The orders that a tick of the engine sends.
use hyperliquid_rust_bot.Prelude.{
  ◌≡◌, refl, sym, subst, Option, none, some, [], ◌∷◌, All, All-append, leb, Result, ok, err,
  Bool-cases, inl, inr,
}
use hyperliquid_rust_bot.Float.{Float}
use hyperliquid_rust_bot.Price.{Price}
use hyperliquid_rust_bot.Exec.Types.{Side, long, short, order, force_taker, control, force_close}
use hyperliquid_rust_bot.Exec.Orders.{new_market, new_market_open, market_close}
use hyperliquid_rust_bot.Signal.Intent.{
  OnTimeout, force, cancel, Intent, open_order, reduce, flatten, arm, disarm, abort,
  LiveTimeoutInfo,
}
use hyperliquid_rust_bot.Signal.Params.{OpenPosInfo}
use hyperliquid_rust_bot.Signal.Checks.{Rejection, PendingOrder, to_open, to_close, validate_trade}
use hyperliquid_rust_bot.Signal.Engine.{
  EngineState, idle, opening, closing, armed, in_position, Channels, SignalEngine,
  queue_exec_command,
}
use hyperliquid_rust_bot.Signal.Orders.{
  queue_pending_tpsl, force_close_exec, force_as_taker_order, has_any, sized,
}
use hyperliquid_rust_bot.Signal.Ticks.{
  main_order, pending_open, on_timeout, expire, refresh, submit,
}
use hyperliquid_rust_bot.Signal.Loop.Frames.{Leaves}
use hyperliquid_rust_bot.Signal.Loop.Sound.{
  IsSoundOrder, IsSoundCommand, IsSoundPending, IsSound, queue-IsSound, validate_trade-IsSound,
  queue_pending_tpsl-IsSound,
}

module _ {F I V K S : Type 0} ⦃f : Float F⦄ where
  pub IsSound-Leaves : (a b : SignalEngine F I V K S) → IsSound a → Leaves a b → IsSound b
  IsSound-Leaves a b h l = record {
    sent = subst (All IsSoundCommand) (sym l.same_log) h.sent;
    waiting = subst IsSoundPending (sym l.same_pending) h.waiting;
  }

module _ {F : Type 0} ⦃f : Float F⦄ where
  pending_open-IsSound :
      (pending : PendingOrder F)
      → IsSoundOrder (main_order pending)
      → IsSoundPending (pending_open pending)
  pending_open-IsSound (to_close o) h = tt
  pending_open-IsSound (to_open p) (h, _) = elim (Bool-cases (has_any p.tpsl)) [
    | inl b ↦ rw b h
    | inr b ↦ rw b tt
  ]

module _ {F : Type 0} where
  limit-new_market_open : (side : Side) (size : F) → (new_market_open side size).limit ≡ none
  unfolding new_market_open new_market
  limit-new_market_open long size = refl
  limit-new_market_open short size = refl

  limit-market_close : (size : F) → (market_close size).limit ≡ none
  unfolding market_close new_market
  limit-market_close size = refl

module _ {F I V K S : Type 0} ⦃f : Float F⦄ (ch : Channels) where
  on_timeout-sent :
      (action : OnTimeout) (intent : Intent F) (price : Price F) (e : SignalEngine F I V K S)
      → All IsSoundCommand e.exec_log
      → All IsSoundCommand (on_timeout ch action intent price e).exec_log
  unfolding force_close_exec force_as_taker_order queue_exec_command
  on_timeout-sent cancel intent price e h = queue-IsSound ch (control force_close) e tt h
  on_timeout-sent force (flatten _) price e h = queue-IsSound ch (control force_close) e tt h
  on_timeout-sent force (open_order o) price e h =
      let size = sized e.exec_params o.size price.close_px in
      queue-IsSound ch (force_taker (new_market_open o.side size)) e
        (limit-new_market_open o.side size) h
  on_timeout-sent force (reduce o) price e h =
      let size = sized e.exec_params o.size price.close_px in
      queue-IsSound ch (force_taker (market_close size)) e (limit-market_close size) h
  on_timeout-sent force (arm _) price e h = h
  on_timeout-sent force disarm price e h = h
  on_timeout-sent force abort price e h = h

  expire-IsSound :
      (ttl : Option (LiveTimeoutInfo F)) (price : Price F) (e : SignalEngine F I V K S)
      → IsSound e
      → IsSound (expire ch ttl price e)
  unfolding expire
  expire-IsSound none price e h = h
  expire-IsSound (some t) price e h = elim (Bool-cases (leb t.expire_at price.open_time)) [
    | inl b ↦
        rw (expire, b)
          (record {
            sent = on_timeout-sent t.timeout_info.action t.intent price e h.sent;
            waiting = tt;
          })
    | inr b ↦ rw (expire, b) h
  ]

  pub restate-IsSound :
      (s : EngineState F) (e : SignalEngine F I V K S)
      → IsSound e
      → IsSound (record e { state = s })
  restate-IsSound s e h = record { sent = h.sent; waiting = h.waiting }

  pub refresh-IsSound :
      (s : EngineState F) (pos : Option (OpenPosInfo F)) (price : Price F)
      (e : SignalEngine F I V K S)
      → IsSound e
      → IsSound (refresh ch s pos price e)
  unfolding expire queue_pending_tpsl
  refresh-IsSound (opening ttl) (some pos) price e h =
      queue_pending_tpsl-IsSound ch pos _ (restate-IsSound (in_position pos) e h)
  refresh-IsSound (opening ttl) none price e h = expire-IsSound ttl price e h
  refresh-IsSound (closing ttl) none price e h = restate-IsSound idle e h
  refresh-IsSound (closing ttl) (some pos) price e h = expire-IsSound ttl price e h
  refresh-IsSound (armed expire_at) pos price e h =
      elim (Bool-cases (leb expire_at price.open_time)) [
        | inl b ↦ rw b (restate-IsSound idle e h)
        | inr b ↦ rw b h
      ]
  refresh-IsSound idle none price e h = h
  refresh-IsSound idle (some pos) price e h =
      queue_pending_tpsl-IsSound ch pos _ (restate-IsSound (in_position pos) e h)
  refresh-IsSound (in_position _) none price e h = restate-IsSound idle e h
  refresh-IsSound (in_position _) (some pos) price e h =
      queue_pending_tpsl-IsSound ch pos _ (restate-IsSound (in_position pos) e h)

  pub submit-IsSound :
      (intent : Intent F) (price : Price F) (pending : PendingOrder F) (e : SignalEngine F I V K S)
      → IsSound e
      → IsSound (submit ch intent price pending e)
  unfolding submit queue_exec_command
  submit-IsSound intent price pending e h =
      by_check (validate_trade e.exec_params pending price.close_px) refl
    where
      by_check :
          (r : Result Rejection (Unit {0}))
          → validate_trade e.exec_params pending price.close_px ≡ r
          → IsSound (submit ch intent price pending e)
      by_check (err _) q = rw (submit, q) h
      by_check (ok u) q =
          let sound = validate_trade-IsSound e.exec_params pending price.close_px u q in
          elim (Bool-cases (ch.trade_takes e.exec_offered)) [
            | inl b ↦
                rw (submit, q, b)
                  (record {
                    sent =
                        All-append IsSoundCommand e.exec_log (order (main_order pending) ∷ [])
                          h.sent (sound, tt);
                    waiting = pending_open-IsSound pending sound;
                  })
            | inr b ↦ rw (submit, q, b) (record { sent = h.sent; waiting = h.waiting })
          ]
