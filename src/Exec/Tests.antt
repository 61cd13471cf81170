-- ===== src/Exec/Tests.antt =====
-- The theorems on src/exec at a concrete executor.
use Prim.Native.String.{String}
use hyperliquid_rust_bot.Prelude.{
  ℕ, ◌+◌, ◌*◌, ◌≤◌, ◌≡◌, refl, true, false, Option, none, some, List, [], ◌∷◌, length, ok,
  if◌then◌else◌, is_some, not, ◌&&◌, ◌||◌,
}
use hyperliquid_rust_bot.Prelude.Int.{pos, ◌+ℤ◌, div_ℤ, ◌*ℤ◌}
use hyperliquid_rust_bot.Prelude.Maps.{nat_eq, get, contains_key, mem, remove}
use hyperliquid_rust_bot.Float.{Sample, num, sample_float}
use hyperliquid_rust_bot.Exec.Types.{
  open_long, close, long, short, market, EngineOrder, TradeFillInfo, OpenPositionLocal,
  RestingOrderLocal, ExecCommand, order, force_taker, control, event, kill, pause, fill,
}
use hyperliquid_rust_bot.Exec.Env.{Env, Io, response, resting, queued, cancel}
use hyperliquid_rust_bot.Exec.Cancels.{cancel_resting_oids, retry, cancel_each, cancel_one}
use hyperliquid_rust_bot.Exec.Cancels.Laws.{
  cancels_sent, confirmed, requested, cancel_resting_oids_lem, cancel_resting_oids-confirmed,
}
use hyperliquid_rust_bot.Exec.Cancels.Bounds.{cancel_resting_oids_bound}
use hyperliquid_rust_bot.Exec.Executor.{Executor, settle}
use hyperliquid_rust_bot.Exec.Executor.Settle.{SameSide, Follows, settle_lem}
use hyperliquid_rust_bot.Exec.Commands.{start, handle, submit_order, kill_orders, on_fill}
use hyperliquid_rust_bot.Exec.Commands.Placement.{placed_by, allowances, start_places_few}
use hyperliquid_rust_bot.Exec.Commands.Paused.{start_paused}
use hyperliquid_rust_bot.Exec.Commands.Sides.{handle_keeps_side}
use hyperliquid_rust_bot.Exec.Commands.Closing.{
  ClosingOrder, Closes, newest_order, submit_order_closes, kill_orders-Closes,
}
use hyperliquid_rust_bot.Exec.Commands.Manual.{on_fill_unknown}
use hyperliquid_rust_bot.Exec.Fills.{HlTradeInfo, try_from}
use hyperliquid_rust_bot.Exec.Fills.Batches.{Reported, try_from_lem}
use hyperliquid_rust_bot.Exec.Orders.{HlOrder}

-- Every request is granted, and every order rests.
abbrev env : Env Sample
env = record {
  clock = λ n. n;
  channel = λ n. queued;
  cancels = λ client tick oid. true;
  places = λ client tick o. ok (response (some (resting (100 + tick) ∷ [])));
}

abbrev resting_seven : RestingOrderLocal Sample
resting_seven = record {
  oid = 7;
  limit_px = some (num (pos 90));
  sz = num (pos 2);
  side = long;
  intent = open_long;
  tpsl = none;
}

abbrev position : OpenPositionLocal Sample
position = record {
  open_time = 1;
  size = num (pos 3);
  entry_px = num (pos 100);
  side = long;
  fees = num (pos 1);
  funding = num (pos 0);
  realised_pnl = num (pos 0);
  fill_type = market;
}

abbrev running : Executor Sample
running = record {
  asset = "BTC";
  sz_decimals = 2;
  exchange_client = 1;
  is_paused = false;
  closing = false;
  resting_orders = (7, resting_seven) ∷ [];
  open_position = some position;
  decimals = record { sz = 2; px = 3 };
  io = record { tick = 0; log = [] };
}

abbrev paused : Executor Sample
paused = record running { is_paused = true }

abbrev buy : EngineOrder Sample
buy = record { action = open_long; size = num (pos 2); limit = none }

abbrev sell_all : EngineOrder Sample
sell_all = record { action = close; size = num (pos 9); limit = none }

abbrev unknown_fill : TradeFillInfo Sample
unknown_fill = record {
  price = num (pos 110);
  sz = num (pos 3);
  oid = 55;
  fee = num (pos 1);
  side = short;
  intent = close;
  fill_type = market;
}

abbrev requests : List (ExecCommand Sample)
requests = order buy ∷ force_taker sell_all ∷ control pause ∷ []

abbrev events : List (ExecCommand Sample)
events = order buy ∷ event (fill unknown_fill) ∷ control kill ∷ []

start_places_few_example :
    placed_by (start env requests running) ≤ placed_by running + allowances requests
start_places_few_example = start_places_few env requests running

start_paused_example :
    ((start env events paused).is_paused ≡ true)
    × (placed_by (start env events paused) ≤ placed_by paused)
start_paused_example = start_paused env events paused (tt, (tt, (tt, tt))) refl

handle_keeps_side_example :
    SameSide position (handle env (event (fill unknown_fill)) running).1.open_position
handle_keeps_side_example = handle_keeps_side env (event (fill unknown_fill)) running position refl

submit_order_closes_example :
    ClosingOrder sell_all (some position) running (submit_order env sell_all running).io.log
submit_order_closes_example = submit_order_closes env sell_all running refl

kill_orders-Closes_example :
    (hl : HlOrder Sample) × (newest_order (kill_orders env false running).io.log ≡ some hl)
    × Closes hl position (num (pos 3)) (record { sz = 2; px = 3 })
kill_orders-Closes_example = kill_orders-Closes env false running position refl refl

on_fill_unknown_example :
    ((on_fill env unknown_fill running).is_paused ≡ true)
    × (get (on_fill env unknown_fill running).resting_orders 7 ≡ none)
    × (requested 7 (on_fill env unknown_fill running).io.log
        ≡ requested 7 running.io.log || contains_key running.resting_orders 7)
unfolding contains_key
on_fill_unknown_example = on_fill_unknown env unknown_fill running 7 refl

abbrev orders : List (ℕ × RestingOrderLocal Sample)
orders = (7, resting_seven) ∷ []

abbrev given_oids : List ℕ
given_oids = 7 ∷ 8 ∷ []

abbrev quiet : Io Sample
quiet = record { tick = 0; log = [] }

cancel_resting_oids_example :
    (get (cancel_resting_oids env 1 given_oids orders quiet).1.resting 7
      ≡ (if mem given_oids 7 then none else get orders 7))
    × (requested 7 (cancel_resting_oids env 1 given_oids orders quiet).1.io.log
        ≡ requested 7 quiet.log || mem given_oids 7 && contains_key orders 7)
cancel_resting_oids_example = cancel_resting_oids_lem env 1 given_oids orders quiet 7

cancel_resting_oids-confirmed_example :
    confirmed 7 (cancel_resting_oids env 1 given_oids orders quiet).1.io.log ≡ true
unfolding cancel_resting_oids mem contains_key retry cancel_each cancel_one remove cancel
cancel_resting_oids-confirmed_example =
    cancel_resting_oids-confirmed env 1 given_oids orders quiet 7 refl refl refl

cancel_resting_oids_bound_example :
    cancels_sent (cancel_resting_oids env 1 given_oids orders quiet).1.io.log
    ≤ cancels_sent quiet.log + 7 * length given_oids
cancel_resting_oids_bound_example = cancel_resting_oids_bound env 1 given_oids orders quiet

settle_example :
    let (trade, after) = settle 5 2 unknown_fill (some position) in
    Follows (some position) after × (is_some trade ≡ is_some (some position) && not (is_some after))
settle_example = settle_lem 5 2 unknown_fill (some position)

-- Every text is the number 4.
abbrev four : String → Option Sample
four s = some (num (pos 4))

abbrev exchange_fill : HlTradeInfo
exchange_fill = record {
  oid = 7;
  coin = "BTC";
  side = "B";
  dir = "Open Long";
  px = "4";
  sz = "4";
  fee = "4";
  crossed = true;
  liquidated = false;
}

abbrev fill_of_two : TradeFillInfo Sample
fill_of_two = record {
  price = num (pos 4);
  sz = num (pos 8);
  oid = 7;
  fee = num (pos 8);
  side = long;
  intent = open_long;
  fill_type = market;
}

try_from_example :
    (first : HlTradeInfo) × (rest : List HlTradeInfo) × (exchange_fill ∷ exchange_fill ∷ []
      ≡ first ∷ rest)
    × Reported four first rest fill_of_two
unfolding try_from ◌+ℤ◌ div_ℤ ◌*ℤ◌
try_from_example = try_from_lem four (exchange_fill ∷ exchange_fill ∷ []) fill_of_two refl
