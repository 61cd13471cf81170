-- ===== src/Signal/Loop/Asked.antt =====
-- The candles that the script is asked on, over the candles that the engine receives.
use Prim.Native.String.{String}
use mathlib.Core.List.{append-nil, append_assoc}
use hyperliquid_rust_bot.Prelude.{
  ◌≡◌, refl, sym, subst, ap, ◌∙◌, Bool, true, false, Option, none, some, List, [], ◌∷◌, ◌++◌, map,
  if◌then◌else◌, Bool-cases, inl, inr,
}
use hyperliquid_rust_bot.Prelude.Maps.{Eq, string_eq}
use hyperliquid_rust_bot.Float.{Float}
use hyperliquid_rust_bot.Price.{Price}
use hyperliquid_rust_bot.Signal.Tracker.{Indicator}
use hyperliquid_rust_bot.Signal.Engine.{
  EngineState, idle, opening, closing, armed, in_position, Strat, StratContext, Channels,
  SignalEngine, queue_market_command, state_eq, get_active_values, get_indicators_data,
}
use hyperliquid_rust_bot.Signal.Ticks.{
  ask, context, refresh_state, strat_tick, process_strategy_tick,
}
use hyperliquid_rust_bot.Signal.Live.{
  single, EngineCommand, update_price, stage, stage_live_strategy_candle,
}
use hyperliquid_rust_bot.Signal.Live.Candles.{
  tick_before, ticks, InOrder, closed_candles, ticks-closed_candles,
}
use hyperliquid_rust_bot.Signal.Loop.{digest_single, send_data, tick_on, on_single, handle, start}
use hyperliquid_rust_bot.Signal.Loop.Scene.{
  frame, refresh-frame, act_on-frame, digest_single-frame, send_data-frame, tell_state-frame,
}

-- The strategy, writing down the candle that it is asked on each time that it is asked.
abbrev pub logged : {F V K C S : Type 0} → Strat F V K C S → Strat F V K C (S × List (Price F))
logged strat = record {
  new_strategy = λ compiled indicators. (strat.new_strategy compiled indicators, []);
  on_idle = λ ctx expiry s.
      let (intent, t) = strat.on_idle ctx expiry s.0 in (intent, (t, s.1 ++ ctx.last_price ∷ []));
  on_busy = λ ctx reason s.
      let (intent, t) = strat.on_busy ctx reason s.0 in (intent, (t, s.1 ++ ctx.last_price ∷ []));
  on_open = λ ctx pos s.
      let (intent, t) = strat.on_open ctx pos s.0 in (intent, (t, s.1 ++ ctx.last_price ∷ []));
  reset_scope = λ s. (strat.reset_scope s.0, s.1);
}

-- The commands that bring candles, each of an asset.
abbrev pub candle_commands : {F K C : Type 0} → List (String × Price F) → List (EngineCommand F K C)
candle_commands = map (λ r. update_price r.0 (single r.1))

-- Of the candles received, those of the asset.
abbrev pub own_candles : {F : Type 0} → String → List (String × Price F) → List (Price F)
own_candles asset [] = []
own_candles asset ((a, p) ∷ rs) =
    let rest = own_candles asset rs in if string_eq.beq asset a then p ∷ rest else rest

-- The engine trades the asset, is not paused, keeps the candle, and the script was asked on `log`.
record Asked {F I V K S : Type 0} (asset : String) (kept : Option (Price F)) (log : List (Price F))
    (e : SignalEngine F I V K (S × List (Price F))) : Type 0 where
  of_asset : e.asset ≡ asset
  running : e.paused ≡ false
  keeps : e.pending_strategy_candle ≡ kept
  asked_on : e.strategy.1 ≡ log

abbrev add_tick : {F : Type 0} → List (Price F) → Option (Price F) → List (Price F)
add_tick log none = log
add_tick log (some p) = log ++ p ∷ []

add_tick-append :
    {F : Type 0} (log : List (Price F)) (tick : Option (Price F)) (rest : List (Price F))
    → add_tick log tick ++ rest ≡ log ++ tick_before tick rest
add_tick-append log none rest = refl
add_tick-append log (some p) rest = append_assoc log (p ∷ []) rest

module _ {F I V K S : Type 0} where
  Asked-frame :
      {asset : String} {kept : Option (Price F)} {log : List (Price F)}
      (a b : SignalEngine F I V K (S × List (Price F)))
      → frame b ≡ frame a
      → Asked asset kept log a
      → Asked asset kept log b
  Asked-frame a b q h = record {
    of_asset = ap (λ t. t.0) q ∙ h.of_asset;
    running = ap (λ t. t.2) q ∙ h.running;
    keeps = ap (λ t. t.3) q ∙ h.keeps;
    asked_on = ap (λ t. t.1.1) q ∙ h.asked_on;
  }

module _ {F V K C S : Type 0} (strat : Strat F V K C S) where
  -- In every state the script is asked once.
  asked_once :
      (s : EngineState F) (ctx : StratContext F V K) (t : S × List (Price F))
      → (ask (logged strat) s ctx t).1.1 ≡ t.1 ++ ctx.last_price ∷ []
  asked_once idle ctx t = refl
  asked_once (armed _) ctx t = refl
  asked_once (opening _) ctx t = refl
  asked_once (closing _) ctx t = refl
  asked_once (in_position _) ctx t = refl

module _ {F I V K C S : Type 0} ⦃f : Float F⦄ ⦃k : Eq K⦄ (ind : Indicator F I V K)
    (strat : Strat F V K C S) (ch : Channels) where
  tick-Asked :
      {asset : String} {kept : Option (Price F)} {log : List (Price F)} (p : Price F)
      (e : SignalEngine F I V K (S × List (Price F)))
      → Asked asset kept log e
      → Asked asset kept (log ++ p ∷ []) (process_strategy_tick ind (logged strat) ch p e)
  unfolding process_strategy_tick strat_tick refresh_state
  tick-Asked p e h =
      let r = refresh_state ch p e in
      let a = Asked-frame e r (refresh-frame ch e.state e.exec_params.open_pos p e) h in
      let values = get_active_values ind e.trackers in
      let (intent, e') = strat_tick (logged strat) p values r in
      Asked-frame e' _ (act_on-frame ch intent p e') (record {
        of_asset = a.of_asset;
        running = a.running;
        keeps = a.keeps;
        asked_on =
            asked_once strat r.state (context p values r.exec_params) r.strategy
            ∙ ap (λ l. l ++ p ∷ []) a.asked_on;
      })

  tick_on-Asked :
      {asset : String} {kept : Option (Price F)} {log : List (Price F)} (paused : Bool)
      (candle : Option (Price F)) (e : SignalEngine F I V K (S × List (Price F)))
      → paused ≡ false
      → Asked asset kept log e
      → Asked asset kept (add_tick log candle) (tick_on ind (logged strat) ch paused candle e)
  unfolding process_strategy_tick
  tick_on-Asked true candle e q h = cc
  tick_on-Asked false none e q h = h
  tick_on-Asked false (some p) e q h = tick-Asked p e h

  -- What `on_single` does once the candle is staged.
  staged-Asked :
      {asset : String} {kept : Option (Price F)} {log : List (Price F)} (a : String) (p : Price F)
      (e : SignalEngine F I V K (S × List (Price F)))
      → let (candle, staged) = stage_live_strategy_candle a p e in
        Asked asset kept log staged
        → Asked asset kept (add_tick log candle) (on_single ind (logged strat) ch a p e)
  unfolding on_single process_strategy_tick queue_market_command state_eq
  staged-Asked a p e h =
      let (candle, staged) = stage_live_strategy_candle a p e in
      let ticked = tick_on ind (logged strat) ch staged.paused candle staged in
      let digested = digest_single ind a p ticked in
      let sent = send_data ind ch (get_indicators_data ind digested.trackers) digested in
      Asked-frame ticked _
        (tell_state-frame ch e.state sent
          ∙ send_data-frame ind ch (get_indicators_data ind digested.trackers) digested
          ∙ digest_single-frame ind a p ticked)
        (tick_on-Asked staged.paused candle staged h.running h)

  own-Asked :
      {asset : String} {kept : Option (Price F)} {log : List (Price F)} (a : String) (p : Price F)
      (e : SignalEngine F I V K (S × List (Price F)))
      → string_eq.beq asset a ≡ true
      → Asked asset kept log e
      → Asked asset
          (stage kept p).1
          (add_tick log (stage kept p).0)
          (on_single ind (logged strat) ch a p e)
  unfolding stage_live_strategy_candle
  own-Asked {asset} {kept} {log} a p e own h =
      let q : string_eq.beq e.asset a ≡ true = ap (λ x. string_eq.beq x a) h.of_asset ∙ own in
      let (tick, next) = stage kept p in
      let two : stage_live_strategy_candle a p e
          ≡ (tick, record e { pending_strategy_candle = next }) =
        rw (q, h.keeps) refl in
      let staged : Asked asset next log (stage_live_strategy_candle a p e).1 = rw two (record {
        of_asset = h.of_asset;
        running = h.running;
        keeps = refl;
        asked_on = h.asked_on;
      }) in
      subst (λ c. Asked asset next (add_tick log c) (on_single ind (logged strat) ch a p e))
        (ap (λ t. t.0) two) (staged-Asked a p e staged)

  other-Asked :
      {asset : String} {kept : Option (Price F)} {log : List (Price F)} (a : String) (p : Price F)
      (e : SignalEngine F I V K (S × List (Price F)))
      → string_eq.beq asset a ≡ false
      → Asked asset kept log e
      → Asked asset kept log (on_single ind (logged strat) ch a p e)
  unfolding stage_live_strategy_candle
  other-Asked {asset} {kept} {log} a p e own h =
      let q : string_eq.beq e.asset a ≡ false = ap (λ x. string_eq.beq x a) h.of_asset ∙ own in
      let two : stage_live_strategy_candle a p e ≡ (none, e) = rw q refl in
      subst (λ c. Asked asset kept (add_tick log c) (on_single ind (logged strat) ch a p e))
        (ap (λ t. t.0) two) (staged-Asked a p e (rw two h))

  start-ticks :
      (rs : List (String × Price F)) (asset : String) (kept : Option (Price F))
      (log : List (Price F)) (e : SignalEngine F I V K (S × List (Price F)))
      → Asked asset kept log e
      → (start ind (logged strat) ch (candle_commands rs) e).strategy.1
        ≡ log ++ ticks kept (own_candles asset rs)
  unfolding start handle ticks
  start-ticks [] asset kept log e h = h.asked_on ∙ sym (append-nil _)
  start-ticks ((a, p) ∷ rs) asset kept log e h = elim (Bool-cases (string_eq.beq asset a)) [
    | inl own ↦
        let (tick, next) = stage kept p in
        rw own (
          start-ticks rs asset next (add_tick log tick) (on_single ind (logged strat) ch a p e)
            (own-Asked a p e own h)
          ∙ add_tick-append log tick (ticks next (own_candles asset rs)))
    | inr other ↦ rw other (
        start-ticks rs asset kept log (on_single ind (logged strat) ch a p e)
          (other-Asked a p e other h))
  ]

  -- If the engine is not paused and keeps a candle, and receives single candles, of its own asset and of
  -- others, of which those of its asset come in order of their closing times, each at most the interval
  -- of the strategy after the one before: then the script is asked just once for each closing time but
  -- the last, in order, on the last candle that came with it, whatever the script answers and whatever
  -- the state of the engine.
  pub start-closed_candles :
      (last : Price F) (rs : List (String × Price F))
      (e : SignalEngine F I V K (S × List (Price F)))
      → e.paused ≡ false
      → e.pending_strategy_candle ≡ some last
      → InOrder last.close_time (own_candles e.asset rs)
      → (start ind (logged strat) ch (candle_commands rs) e).strategy.1
        ≡ e.strategy.1 ++ closed_candles last (own_candles e.asset rs)
  start-closed_candles last rs e running keeps ordered =
      start-ticks rs e.asset (some last) e.strategy.1 e
        (record { of_asset = refl; running = running; keeps = keeps; asked_on = refl })
      ∙ ap (λ l. e.strategy.1 ++ l) (ticks-closed_candles last (own_candles e.asset rs) ordered)
