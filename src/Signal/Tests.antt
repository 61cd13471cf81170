-- ===== src/Signal/Tests.antt =====
-- The signal engine on concrete candles and commands.
use Prim.Native.String.{String}
use hyperliquid_rust_bot.Prelude.{
  ℕ, suc, ◌+◌, ◌≡◌, refl, true, false, none, some, List, [], ◌∷◌, arith,
}
use hyperliquid_rust_bot.Prelude.Int.{pos, div_ℤ, ◌*ℤ◌}
use hyperliquid_rust_bot.Prelude.Maps.{nat_eq}
use hyperliquid_rust_bot.Float.{Sample, num, sample_float}
use hyperliquid_rust_bot.Price.{Price}
use hyperliquid_rust_bot.Exec.Types.{long}
use hyperliquid_rust_bot.Signal.Intent.{raw_size, open_market, flatten_market}
use hyperliquid_rust_bot.Signal.Tracker.{Indicator}
use hyperliquid_rust_bot.Signal.Engine.{idle, opening_view, view, Strat, Channels, SignalEngine}
use hyperliquid_rust_bot.Signal.Ticks.{process_strategy_tick}
use hyperliquid_rust_bot.Signal.Live.{
  single, EngineCommand, update_price, update_exec_params, exec_pause,
}
use hyperliquid_rust_bot.Signal.Live.Candles.{closed_candles}
use hyperliquid_rust_bot.Signal.Loop.Asked.{
  logged, candle_commands, own_candles, start-closed_candles,
}
use hyperliquid_rust_bot.Signal.Params.{set_margin}
use hyperliquid_rust_bot.Signal.Replay.{decide_backtest}
use hyperliquid_rust_bot.Signal.Loop.{start}
use hyperliquid_rust_bot.Signal.Loop.Paused.{IsPaused, start_pause}
use hyperliquid_rust_bot.Signal.Loop.Sound.{IsSound}
use hyperliquid_rust_bot.Signal.Loop.Runs.{start-IsSound}
use hyperliquid_rust_bot.Signal.Agreement.{Agrees}
use hyperliquid_rust_bot.Signal.Agreement.Decisions.{process_strategy_tick-decide_backtest}

abbrev pub candle : ℕ → Price Sample
candle t = record {
  open_px = num (pos 10);
  high = num (pos 12);
  low = num (pos 9);
  close_px = num (pos 11);
  open_time = t;
  close_time = t + 60_000;
  vlm = num (pos 1);
}

-- An indicator that counts its candles.
abbrev pub counter : Indicator Sample ℕ ℕ ℕ
counter = record {
  match_kind = λ kind. kind;
  update_before_close = λ p n. n;
  update_after_close = λ p n. suc n;
  get_last = λ n. some n;
  load_prices = λ ps n. n;
  reset_indicator = λ n. 0;
}

-- A script that opens when it is idle, and closes what is open.
abbrev pub script : Strat Sample ℕ ℕ ℕ ℕ
script = record {
  new_strategy = λ compiled indicators. compiled;
  on_idle = λ ctx is_armed s. (
    some (
        open_market long (raw_size (num (pos 2)))
          (some (record { tp = some (num (pos 5)); sl = none }))),
    suc s,
  );
  on_busy = λ ctx reason s. (none, suc s);
  on_open = λ ctx pos s. (some flatten_market, suc s);
  reset_scope = λ s. 0;
}

abbrev channels : Channels
channels = record { trade_takes = λ n. true; data_takes = λ n. true }

abbrev pub engine : SignalEngine Sample ℕ ℕ ℕ ℕ
engine = record {
  asset = "BTC";
  data_tx = true;
  trackers = [];
  strategy = 0;
  exec_params = record { margin = num (pos 100); lev = 2; open_pos = none };
  state = idle;
  pending_orders = none;
  pending_strategy_candle = none;
  paused = false;
  exec_offered = 0;
  exec_log = [];
  market_offered = 0;
  market_log = [];
}

abbrev commands : List (EngineCommand Sample ℕ ℕ)
commands =
    update_price "BTC" (single (candle 60_000))
    ∷ update_exec_params (set_margin (num (pos 200)))
    ∷ update_price "BTC" (single (candle 120_000))
    ∷ []

process_strategy_tick-decide_backtest_example :
    Agrees []
      (decide_backtest counter script (candle 60_000) (candle 60_000) engine).0
      (process_strategy_tick counter script channels (candle 60_000) engine)
      (decide_backtest counter script (candle 60_000) (candle 60_000) engine).1
process_strategy_tick-decide_backtest_example =
    process_strategy_tick-decide_backtest counter script channels (λ n. refl) (candle 60_000) engine

start_pause_example : IsPaused [] (start counter script channels (exec_pause ∷ commands) engine)
start_pause_example = start_pause counter script channels commands engine refl

start-IsSound_example : IsSound (start counter script channels commands engine)
start-IsSound_example =
    start-IsSound counter script channels commands engine (record { sent = tt; waiting = tt })

abbrev logged_engine : SignalEngine Sample ℕ ℕ ℕ (ℕ × List (Price Sample))
logged_engine = record {
  asset = "BTC";
  data_tx = true;
  trackers = [];
  strategy = (0, []);
  exec_params = record { margin = num (pos 100); lev = 2; open_pos = none };
  state = idle;
  pending_orders = none;
  pending_strategy_candle = some (candle 60_000);
  paused = false;
  exec_offered = 0;
  exec_log = [];
  market_offered = 0;
  market_log = [];
}

-- An update of the candle kept, a candle of another asset, and the next two candles.
abbrev candles_received : List (String × Price Sample)
candles_received =
    ("BTC", candle 60_000)
    ∷ ("ETH", candle 120_000)
    ∷ ("BTC", candle 120_000)
    ∷ ("BTC", candle 180_000)
    ∷ []

start-closed_candles_example :
    (start counter
      (logged script)
      channels
      (candle_commands candles_received)
      logged_engine).strategy.1
    ≡ closed_candles (candle 60_000) (own_candles "BTC" candles_received)
start-closed_candles_example =
    start-closed_candles counter script channels (candle 60_000) candles_received logged_engine refl
      refl (omega arith)

-- The second candle closes the first, on which the script opens a position.
opens_position : view (start counter script channels commands engine).state ≡ opening_view
unfolding start open_market div_ℤ ◌*ℤ◌
opens_position = refl
