-- ===== src/Exec/Env.antt =====
-- src/exec/helpers.rs and src/exec/executor.rs: what the executor asks of the exchange client, the
-- clock and the market channel. Their answers are a parameter: each is a function of how many requests
-- were made before it, so that it may differ from request to request.
use Prim.Native.Char.{code}
use Prim.Native.String.{String}
use hyperliquid_rust_bot.Prelude.{
  ℕ, ◌+◌, Bool, true, false, ◌&&◌, ◌||◌, Option, some, List, [], ◌∷◌, map, leb, ◌==◌, if◌then◌else◌,
  Result, ok, err, ◌>>=◌,
}
use hyperliquid_rust_bot.Exec.Types.{
  PositionOp, TriggerKind, TradeInfo, OpenPositionLocal, RestingOrderLocal,
}
use hyperliquid_rust_bot.Exec.Orders.{HlOrder, get_side, get_px, get_sz}

-- The code points of a text, in lower case (ASCII).
abbrev pub codes : String → List ℕ
codes String.[] = []
codes (String.◌∷◌ c s) = code c ∷ codes s

abbrev lower : ℕ → ℕ
lower c = if leb 65 c && leb c 90 then c + 32 else c

abbrev starts : List ℕ → List ℕ → Bool
starts [] s = true
starts (p ∷ ps) [] = false
starts (p ∷ ps) (c ∷ s) = p == c && starts ps s

abbrev pub contains : List ℕ → List ℕ → Bool
contains p [] = starts p []
contains p (c ∷ s) = starts p (c ∷ s) || contains p s

unfoldable pub is_unapproved_builder_error : String → Bool
is_unapproved_builder_error message =
    contains (codes "builder fee has not been approved") (map lower (codes message))

-- The errors of the SDK that the executor tells apart.
pub data Error : Type 0 where
  auth_error unapproved_builder custom execution_failure : String → Error
  other_error : Error

-- The SDK's answer to an order: the statuses of its data, or an error text.
pub data ExchangeDataStatus : Type 0 where
  filled resting : ℕ → ExchangeDataStatus
  error : String → ExchangeDataStatus
  other_status : ExchangeDataStatus

pub data ExchangeResponseStatus : Type 0 where
  response : Option (List ExchangeDataStatus) → ExchangeResponseStatus
  refused : String → ExchangeResponseStatus

unfoldable pub extract_order_status : ExchangeResponseStatus → Result Error ExchangeDataStatus
extract_order_status (response (some (status ∷ _))) = ok status
extract_order_status (response _) =
    err (execution_failure "Exchange Error: Couldn't fetch trade status")
extract_order_status (refused e) =
    if is_unapproved_builder_error e then err (unapproved_builder e) else err (execution_failure e)

-- What the executor sends to its market.
pub data MarketCommand (F : Type 0) : Type 0 where
  receive_trade : TradeInfo F → MarketCommand F
  update_open_position : Option (OpenPositionLocal F) → MarketCommand F
  send_auth_error builder_approval_error : String → MarketCommand F
  manual_trade_detected : MarketCommand F

-- How a send to the bounded channel goes: at once, after a wait, or not at all.
pub data SendOutcome : Type 0 where
  queued closed : SendOutcome
  full_then_sent full_then_closed full_then_timed_out : SendOutcome

abbrev pub arrives : SendOutcome → Bool
arrives queued = true
arrives full_then_sent = true
arrives _ = false

pub record Env (F : Type 0) : Type 0 where
  pub clock : ℕ → ℕ
  pub channel : ℕ → SendOutcome
  pub cancels : (client tick oid : ℕ) → Bool
  pub places : (client tick : ℕ) → HlOrder F → Result Error ExchangeResponseStatus

pub data Request (F : Type 0) : Type 0 where
  cancel_request : (oid : ℕ) (done : Bool) → Request F
  order_request : HlOrder F → Request F
  delivered : MarketCommand F → Request F

-- The number of requests made, and the requests, newest first.
pub record Io (F : Type 0) : Type 0 where
  pub tick : ℕ
  pub log : List (Request F)

module _ {F : Type 0} where
  abbrev pub note : Request F → Io F → Io F
  note r io = record { tick = io.tick + 1; log = r ∷ io.log }

  -- `ExchangeClient::cancel`.
  unfoldable pub cancel : Env F → ℕ → ℕ → Io F → Bool × Io F
  cancel env client oid io =
      let done = env.cancels client io.tick oid in (done, note (cancel_request oid done) io)

  -- `Executor::send_market_command`.
  unfoldable pub send_market_command : Env F → MarketCommand F → Io F → Bool × Io F
  send_market_command env cmd io =
      if arrives (env.channel io.tick)
      then (true, note (delivered cmd) io)
      else (false, record io { tick = io.tick + 1 })

  resting_order : ℕ → HlOrder F → PositionOp → Option TriggerKind → RestingOrderLocal F
  resting_order oid order intent trigger = record {
    oid = oid;
    limit_px = get_px order;
    sz = get_sz order;
    side = get_side order;
    intent = intent;
    tpsl = trigger;
  }

  -- The match on the order's status in `open_trade`.
  placed :
      HlOrder F
      → PositionOp
      → Option TriggerKind
      → ExchangeDataStatus
      → Result Error (RestingOrderLocal F)
  unfolding resting_order
  placed order intent trigger (filled oid) = ok (resting_order oid order intent trigger)
  placed order intent trigger (resting oid) = ok (resting_order oid order intent trigger)
  placed order intent trigger (error e) =
      if is_unapproved_builder_error e then err (unapproved_builder e) else err (custom e)
  placed order intent trigger other_status =
      err (execution_failure "unexpected exchange status response")

  -- `Executor::open_trade`: one request, and what becomes of it.
  unfoldable pub open_trade :
      Env F
      → ℕ
      → HlOrder F
      → PositionOp
      → Option TriggerKind
      → Io F
      → Result Error (RestingOrderLocal F) × Io F
  unfolding placed
  open_trade env client order intent trigger io = (
    env.places client io.tick order >>= λ res.
        extract_order_status res >>= placed order intent trigger,
    note (order_request order) io,
  )
