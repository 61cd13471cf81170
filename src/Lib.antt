-- ===== src/Lib.antt =====
-- hyperliquid_rust_bot: a trading bot for the Hyperliquid exchange.
--
-- A bot runs one market per asset. A market owns a signal engine, which turns candles into order
-- intents, and an executor, which places them and keeps the position; the margin book shares the user's
-- margin between the markets; a cache of live candles answers their requests for past candles; and the
-- backtester replays candles that a fetcher loads from other exchanges into a store of files. Modelled
-- are the executor, the margin book, the candle cache, the candle store, the fetcher, the signal engine
-- and the simulation of the backtester, with the timeframes that they share.
--
-- Prelude and its children: the library names used throughout, Boolean tests on numbers, lists measured
--   by native numbers, results, integers, maps and sets as association lists, arithmetic of u64.
-- Float: f64 as an interface, and a sample instance for the examples.
-- Helper, Price, TimeFrame: src/helper.rs (round_ndp), the indicator library's candle,
--   src/trade_setup.rs.
-- Exec: src/exec. Types and Orders are the data of types.rs with the constructors of EngineOrder and
--   into_hl_order; Position is OpenPositionLocal; Fills is TradeFillInfo::try_from; Env is the exchange
--   client and the market channel; Cancels is cancel_resting_oids; Executor is the state with
--   apply_fill; Commands is kill, submit_order, force_taker and start.
-- Margin: src/margin.rs, MarginBook and its operations.
-- Broadcast: src/broadcast/candle_cache.rs. TfBuilder is the struct of that name; CandleCache has the
--   state and the answers to requests; Commands has prices, backfills, the ends of fetches, and start.
-- Backtest: src/backtest. CandleStore is candle_store.rs; Source, Ranges, Pages, Aggregate, Fetcher and
--   Requests are the parts of fetcher.rs: the interval plans, the normalized range, the paging loops of
--   fetch_segment, the aggregation, fetch_with_progress, and request_body with the request limiter.
--   Backtester is the simulation of backtester.rs: State has its records, Positions, Fills, Orders and
--   Liquidation what happens to the position and the resting orders, Run a candle, Funding the funding,
--   Windows the windows of a download, Merge the events of all series, Simulate the loop.
-- Signal: src/signal and src/strategy.rs. Intent, Params and Checks are the data of intents, of the
--   parameters and of the tests of an order; Tracker is the struct of that name; Engine, Orders, Ticks,
--   Live and Loop are the live engine of engine.rs, Actions and Replay the engine of a backtest;
--   Agreement relates the two.
-- The modules called Tests apply each result to concrete values.
--
-- State is a record that an operation returns anew. What the code asks of the exchange, the clock, the
-- channel, the file system and other tasks is a parameter: a function of the number of requests made
-- before, so that the same request may be answered differently each time. Requests and messages are
-- kept in a log. An unstable sort takes as a parameter which of two candles with one time comes first. Floating-point numbers are abstract, and no law of arithmetic is assumed of them.
--
-- Loops are recursive on their lists, or on fuel. `find_missing` has one round of fuel for each
-- millisecond of the range and one more: its cursor grows by the interval, which is positive. A paging
-- loop has as many rounds as its end and one more: its cursor grows in each round. `digest` of
-- a TfBuilder has two rounds more than the milliseconds of the candle's closing time. The rounds of the
-- retries are those that the code counts.
--
-- The simulation has a round for each candle to come and one more, its funding two more than the
-- milliseconds of the candle's opening time, and the windows one more than the milliseconds of the range.
-- The script of a strategy runs in a third-party engine and is given by the operations of the trait
-- Strat, an indicator by those of its library's trait.
--
-- Not modelled: log lines and sleeps, the Parquet files, the per-key lock of the store with its
-- progress channel, URLs and JSON; the tasks that the candle cache starts, and the ring buffer of its
-- histories; the backtester's validation, warm-up, download tasks, progress messages, summary and
-- downsampling; the broadcaster, the market, the bot, the backend and the web interface.
pub mod Prelude
pub mod Float
pub mod Helper
pub mod Price
pub mod TimeFrame
pub mod Exec
pub mod Margin
pub mod Broadcast
pub mod Backtest
pub mod Signal
