-- ===== src/Backtest/Pages.antt =====
-- src/backtest/fetcher.rs: pages of candles from an exchange, put together into one segment.
pub mod Turns
use hyperliquid_rust_bot.Prelude.{
  ℕ, zero, suc, ◌+◌, ◌*◌, ◌/◌, Bool, true, false, not, ◌&&◌, Option, none, some, List, [], ◌∷◌,
  ◌++◌, min, max, ltb, leb, ◌==◌, if◌then◌else◌, length, retain, Result, ok, err,
}
use hyperliquid_rust_bot.Prelude.Words.{saturating_add, wrapping_add}
use hyperliquid_rust_bot.Float.{Float}
use hyperliquid_rust_bot.Price.{Price}
use hyperliquid_rust_bot.TimeFrame.{TimeFrame, to_millis}
use hyperliquid_rust_bot.Backtest.Source.{
  Exchange, binance, bybit, htx, DataSource, FetchError, IntervalPlan, interval_plan, request_limit,
}

-- What the exchange answers to `fetch_once`: the candles of a page or an error, by the number of
-- requests before it and the bounds asked for.
abbrev pub Exchanges : Type 0 → Type 0
Exchanges F = (tick : ℕ) → (start end : ℕ) → Result FetchError (List (Price F))

abbrev pub Outcome : Type 0
Outcome = Result FetchError (Unit {0})

-- The variables of the paging loops, with what they have reported.
pub record Paging (F : Type 0) : Type 0 where
  pub cursor : ℕ
  pub out : List (Price F)
  pub loaded : ℕ
  pub tick : ℕ
  pub reported : List ℕ

pub data Turn (F : Type 0) : Type 0 where
  more done : Paging F → Turn F
  failed : FetchError → Paging F → Turn F

-- The next cursor, or `none` where the loop breaks.
unfoldable pub next_binance : (cursor last_start : ℕ) → Option ℕ
next_binance cursor last_start =
    if leb last_start cursor then none else some (wrapping_add last_start 1)

unfoldable pub next_bybit : (base_interval_ms cursor max_start : ℕ) → Option ℕ
next_bybit base_interval_ms cursor max_start =
    let next = saturating_add max_start base_interval_ms in
    if leb next cursor then none else some next

abbrev pub or_limit : Option ℕ → ℕ
or_limit none = 1000
or_limit (some limit) = limit

module _ {F : Type 0} where
  abbrev pub max_start : Price F → List (Price F) → ℕ
  max_start p [] = p.open_time
  max_start p (q ∷ ps) = max p.open_time (max_start q ps)

  abbrev pub asked : Paging F → Paging F
  asked s = record s { tick = suc s.tick }

  abbrev pub received : List (Price F) → Paging F → Paging F
  received page s =
      let loaded = saturating_add s.loaded (length page) in
      record s { out = s.out ++ page; loaded = loaded; reported = s.reported ++ loaded ∷ [] }

  -- The end of a round: the cursor moves, and a short page is the last.
  abbrev pub moved : Option ℕ → (short : Bool) → Paging F → Turn F
  moved none short s = done s
  moved (some next) short s = let t = record s { cursor = next } in if short then done t else more t

  abbrev pub answered :
      (ℕ → ℕ → Option ℕ) → (limit : ℕ) → Result FetchError (List (Price F)) → Paging F → Turn F
  answered next limit (err e) s = failed e s
  answered next limit (ok []) s = done s
  answered next limit (ok (p ∷ ps)) s =
      moved (next s.cursor (max_start p ps)) (ltb (length (p ∷ ps)) limit) (received (p ∷ ps) s)

  -- One round of a paging loop.
  unfoldable pub turn : Exchanges F → (ℕ → ℕ → Option ℕ) → (limit end : ℕ) → Paging F → Turn F
  turn exchanges next limit end s =
      if ltb s.cursor end
      then answered next limit (exchanges s.tick s.cursor end) (asked s)
      else done s

  -- `while cursor < end`; `none` if the fuel runs out.
  unfoldable pub pages :
      (fuel : ℕ)
      → Exchanges F
      → (ℕ → ℕ → Option ℕ)
      → (limit end : ℕ) → Paging F
      → Option (Outcome × Paging F)
  pages zero exchanges next limit end s = none
  pages (suc fuel) exchanges next limit end s = elim (turn exchanges next limit end s) [
    | more t ↦ pages fuel exchanges next limit end t
    | done t ↦ some (ok tt, t)
    | failed e t ↦ some (err e, t)
  ]

  -- The one request to HTX.
  abbrev pub single : Result FetchError (List (Price F)) → Paging F → Outcome × Paging F
  single (err e) s = (err e, s)
  single (ok page) s = (ok tt, record s { out = page; reported = s.reported ++ length page ∷ [] })

  unfoldable pub collect_pages :
      Exchanges F → DataSource → IntervalPlan → (tick start end : ℕ) → Option (Outcome × Paging F)
  unfolding pages turn next_binance next_bybit request_limit
  collect_pages exchanges source plan tick start end =
      let first : Paging F = record {
        cursor = start;
        out = [];
        loaded = 0;
        tick = tick;
        reported = [];
      } in
      let limit = or_limit (request_limit source) in by_exchange source.exchange first limit
    where
      by_exchange : Exchange → Paging F → ℕ → Option (Outcome × Paging F)
      by_exchange binance first limit = pages (suc end) exchanges next_binance limit end first
      by_exchange bybit first limit =
          pages (suc end) exchanges (next_bybit (to_millis plan.base_tf)) limit end first
      by_exchange htx first limit = some (single (exchanges tick start end) (asked first))
