-- ===== src/Backtest/Pages/Turns.antt =====
-- The paging loops end.
use Prim.Native.String.{String}
use hyperliquid_rust_bot.Prelude.{
  ℕ, zero, suc, ◌-◌, ◌<◌, ◌≡◌, refl, ap, Bool, true, false, Option, none, some, List, [], ◌∷◌, All,
  ltb, length, arith, Bool-cases, inl, inr, Result, ok, err,
}
use hyperliquid_rust_bot.Prelude.Words.{u64_max}
use hyperliquid_rust_bot.Price.{Price}
use hyperliquid_rust_bot.TimeFrame.{to_millis}
use hyperliquid_rust_bot.Backtest.Source.{
  DataSource, MarketType, Exchange, binance, bybit, htx, FetchError, IntervalPlan, request_limit,
}
use hyperliquid_rust_bot.Backtest.Pages.{
  Exchanges, Outcome, Paging, Turn, more, done, failed, next_binance, next_bybit, max_start, asked,
  received, moved, answered, turn, pages, single, collect_pages, or_limit,
}

-- The next cursor, where there is one, lies after the cursor, if the last candle's time is a `u64`
-- below the greatest.
abbrev Advances : (ℕ → ℕ → Option ℕ) → Type 0
Advances next = (cursor last n : ℕ) → last < u64_max → next cursor last ≡ some n → cursor < n

module _ {F : Type 0} where
  -- The opening times that the exchange answers lie below the greatest `u64`.
  abbrev pub IsDated : Exchanges F → Type 0
  IsDated exchanges =
      (tick start end : ℕ) (ps : List (Price F))
      → exchanges tick start end ≡ ok ps
      → All (λ p. p.open_time < u64_max) ps

  max_start_bound :
      (p : Price F) (ps : List (Price F))
      → All (λ q. q.open_time < u64_max) (p ∷ ps)
      → max_start p ps < u64_max
  max_start_bound p [] (h, _) = h
  max_start_bound p (q ∷ ps) (h, a) = omega (arith, h, max_start_bound q ps a)

  moved-more :
      (n : Option ℕ) (short : Bool) (s t : Paging F) → moved n short s ≡ more t → n ≡ some t.cursor
  moved-more none short s t e = ground arith
  moved-more (some k) false s t e = ap (λ c. some c) (ap cursor_of e)
    where
      cursor_of : Turn F → ℕ
      cursor_of (more t) = t.cursor
      cursor_of (done t) = t.cursor
      cursor_of (failed _ t) = t.cursor
  moved-more (some k) true s t e = ground arith

  answered-more :
      (next : ℕ → ℕ → Option ℕ) (limit : ℕ) (r : Result FetchError (List (Price F)))
      (s t : Paging F)
      → Advances next
      → ((ps : List (Price F)) → r ≡ ok ps → All (λ p. p.open_time < u64_max) ps)
      → answered next limit r s ≡ more t
      → s.cursor < t.cursor
  answered-more next limit (err x) s t adv d e = ground arith
  answered-more next limit (ok []) s t adv d e = ground arith
  answered-more next limit (ok (p ∷ ps)) s t adv d e =
      adv s.cursor (max_start p ps) t.cursor (max_start_bound p ps (d (p ∷ ps) refl))
        (moved-more _ (ltb (length (p ∷ ps)) limit) (received (p ∷ ps) s) t e)

  turn-more :
      (exchanges : Exchanges F) (next : ℕ → ℕ → Option ℕ) (limit end : ℕ) (s t : Paging F)
      → Advances next
      → IsDated exchanges
      → turn exchanges next limit end s ≡ more t
      → (s.cursor < end) × (s.cursor < t.cursor)
  unfolding turn
  turn-more exchanges next limit end s t adv d e = elim (Bool-cases (ltb s.cursor end)) [
    | inl lt ↦ (
      ground arith,
      answered-more next limit (exchanges s.tick s.cursor end) (asked s) t adv
          (d s.tick s.cursor end) (ground arith),
    )
    | inr ge ↦ ground arith
  ]

  -- With more fuel than the cursor has to go, a paging loop returns.
  pages-returns :
      (fuel : ℕ) (exchanges : Exchanges F) (next : ℕ → ℕ → Option ℕ) (limit end : ℕ) (s : Paging F)
      → Advances next
      → IsDated exchanges
      → end - s.cursor < fuel
      → (r : Outcome × Paging F) × (pages fuel exchanges next limit end s ≡ some r)
  unfolding pages
  pages-returns zero exchanges next limit end s adv d h = ground arith
  pages-returns (suc fuel) exchanges next limit end s adv d h =
      go (λ t. pages-returns fuel exchanges next limit end t adv d)
        (turn exchanges next limit end s) refl
    where
      go :
          ((t : Paging F)
            → end - t.cursor < fuel
            → (r : Outcome × Paging F) × (pages fuel exchanges next limit end t ≡ some r))
          → (x : Turn F) → turn exchanges next limit end s ≡ x
          → (r : Outcome × Paging F) × (pages (suc fuel) exchanges next limit end s ≡ some r)
      go rest (more t) e =
          let (lt, up) = turn-more exchanges next limit end s t adv d e in
          let (r, q) = rest t (omega (arith, lt, up, h)) in (r, rw (e, pages) q)
      go rest (done t) e = ((ok tt, t), rw (e, pages) refl)
      go rest (failed x t) e = ((err x, t), rw (e, pages) refl)

next_binance-Advances :
    (cursor last n : ℕ) → last < u64_max → next_binance cursor last ≡ some n → cursor < n
unfolding next_binance
next_binance-Advances cursor last n h e = ground arith

next_bybit-Advances : (base cursor last n : ℕ) → next_bybit base cursor last ≡ some n → cursor < n
unfolding next_bybit
next_bybit-Advances base cursor last n e = ground arith

abbrev source_of : Exchange → MarketType → String → DataSource
source_of x m q = record { exchange = x; market = m; quote_asset = q }

abbrev start_at : {F : Type 0} → (tick start : ℕ) → Paging F
start_at tick start = record { cursor = start; out = []; loaded = 0; tick = tick; reported = [] }

module _ {F : Type 0} where
  collect_by :
      (exchanges : Exchanges F) (x : Exchange) (m : MarketType) (q : String) (plan : IntervalPlan)
      (tick start end : ℕ)
      → IsDated exchanges
      → (r : Outcome × Paging F) × (collect_pages exchanges (source_of x m q) plan tick start end
          ≡ some r)
  unfolding collect_pages
  collect_by exchanges binance m q plan tick start end d =
      pages-returns (suc end) exchanges next_binance
        (or_limit (request_limit (source_of binance m q))) end (start_at tick start)
        next_binance-Advances d (omega arith)
  collect_by exchanges bybit m q plan tick start end d =
      let base = to_millis plan.base_tf in
      pages-returns (suc end) exchanges (next_bybit base)
        (or_limit (request_limit (source_of bybit m q))) end (start_at tick start)
        (λ cursor last n h. next_bybit-Advances base cursor last n) d (omega arith)
  collect_by exchanges htx m q plan tick start end d =
      (single (exchanges tick start end) (asked (start_at tick start)), refl)

  -- If the exchange's opening times lie below the greatest `u64`, `collect_pages` returns for every
  -- source, every plan and every range.
  pub collect_pages-returns :
      (exchanges : Exchanges F) (source : DataSource) (plan : IntervalPlan) (tick start end : ℕ)
      → IsDated exchanges
      → (r : Outcome × Paging F) × (collect_pages exchanges source plan tick start end ≡ some r)
  collect_pages-returns exchanges source plan =
      collect_by exchanges source.exchange source.market source.quote_asset plan
