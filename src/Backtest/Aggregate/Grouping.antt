-- ===== src/Backtest/Aggregate/Grouping.antt =====
-- `aggregate_prices`: one candle for each interval that a candle belongs to, in order of time.
use hyperliquid_rust_bot.Prelude.{
  ℕ, ◌≤◌, ◌<◌, ◌≡◌, refl, sym, subst, ◌∙◌, ◌||◌, Option, none, some, List, [], ◌∷◌, ◌++◌, All,
  All-append, All-map, ◌==◌, arith, Bool-cases, inl, inr, map,
}
use hyperliquid_rust_bot.Prelude.Maps.{nat_eq, mem}
use hyperliquid_rust_bot.Float.{Float}
use hyperliquid_rust_bot.Price.{Price, times}
use hyperliquid_rust_bot.Backtest.CandleStore.Insert.{IsIncreasing, mem-append}
use hyperliquid_rust_bot.Backtest.Aggregate.{
  Buckets, bucket_of, pushed, no_buckets, fresh, merged, bucket_round, bucket_loop,
  aggregate_prices,
}
use hyperliquid_rust_bot.Backtest.Aggregate.Order.{IsIncreasing-snoc, bucket_of_mono}

-- The starts of the intervals that the candles belong to.
abbrev pub buckets_of : {F : Type 0} → (target_ms : ℕ) → List (Price F) → List ℕ
buckets_of target_ms = map (λ p. bucket_of target_ms p.open_time)

module _ {F : Type 0} where
  -- The bucket in work stands at the current start, no later than `c`, and after all that is out.
  abbrev Held : List (Price F) → Option ℕ → Option (Price F) → ℕ → Type 0
  Held out none none c = out ≡ []
  Held out (some k) (some e) c =
      (e.open_time ≡ k) × (k ≤ c) × IsIncreasing out × All (λ p. p.open_time < k) out
  Held out _ _ c = ⊥

  abbrev Inv : Buckets F → ℕ → Type 0
  Inv s c = Held s.out s.current_start s.bucket c

  pushed-Inv :
      (out : List (Price F)) (k : Option ℕ) (e : Option (Price F)) (c : ℕ)
      → Held out k e c
      → IsIncreasing (pushed out e)
  pushed-Inv out none none c h = subst (λ o. IsIncreasing o) (sym h) tt
  pushed-Inv out none (some e) c h = elim h [ ]
  pushed-Inv out (some k) none c h = elim h [ ]
  pushed-Inv out (some k) (some e) c (at, _, v, a) =
      IsIncreasing-snoc out e v
        (All-map _ (λ p. p.open_time < e.open_time) out (λ p h. omega (arith, at)) a)

module _ {F : Type 0} ⦃f : Float F⦄ where
  bucket_round-Inv :
      (target : ℕ) (p : Price F) (out : List (Price F)) (k : Option ℕ) (e : Option (Price F))
      (c : ℕ)
      → Held out k e c
      → c ≤ bucket_of target p.open_time
      → Inv
          (bucket_round target p (record { out = out; current_start = k; bucket = e }))
          (bucket_of target p.open_time)
  unfolding bucket_round
  bucket_round-Inv target p out none none c h le = (
    refl,
    omega arith,
    subst (λ o. IsIncreasing o) (sym h) tt,
    subst (λ o. All (λ q. q.open_time < bucket_of target p.open_time) o) (sym h) tt,
  )
  bucket_round-Inv target p out none (some e) c h le = elim h [ ]
  bucket_round-Inv target p out (some k) none c h le = elim h [ ]
  bucket_round-Inv target p out (some k) (some e) c (at, below, v, a) le =
      elim (Bool-cases (k == bucket_of target p.open_time)) [
        | inl same ↦ rw (same) (at, omega (arith, below, le), v, a)
        | inr other ↦
            let later : k < bucket_of target p.open_time = ground arith in
            rw (other) (
              refl,
              omega arith,
              pushed-Inv out (some k) (some e) c (at, below, v, a),
              All-append (λ q. q.open_time < bucket_of target p.open_time) out (e ∷ [])
                  (All-map _ (λ q. q.open_time < bucket_of target p.open_time) out
                    (λ q h. omega (arith, later)) a)
                  (omega (arith, at, later), tt),
            )
      ]

  mem-bucket_round :
      (target : ℕ) (p : Price F) (out : List (Price F)) (k : Option ℕ) (e : Option (Price F))
      (c t : ℕ)
      → Held out k e c
      → let s = bucket_round target p (record { out = out; current_start = k; bucket = e }) in
        mem (times (pushed s.out s.bucket)) t
        ≡ mem (times (pushed out e)) t || (bucket_of target p.open_time == t)
  unfolding bucket_round mem
  mem-bucket_round target p out none none c t h =
      mem-append out (fresh target (bucket_of target p.open_time) p ∷ []) t ∙ ground (arith, h)
  mem-bucket_round target p out none (some e) c t h = elim h [ ]
  mem-bucket_round target p out (some k) none c t h = elim h [ ]
  mem-bucket_round target p out (some k) (some e) c t (at, below, v, a) =
      elim (Bool-cases (k == bucket_of target p.open_time)) [
        | inl same ↦
            rw (same)
              (ground (arith, mem-append out (merged p e ∷ []) t, mem-append out (e ∷ []) t))
        | inr other ↦ rw (other) (
            mem-append (out ++ e ∷ []) (fresh target (bucket_of target p.open_time) p ∷ []) t
            ∙ ground arith)
      ]

  -- What the loop has when it ends.
  abbrev Grouped : (target : ℕ) → Buckets F → List (Price F) → Buckets F → Type 0
  Grouped target s ps r =
      IsIncreasing (pushed r.out r.bucket)
      × ((t : ℕ)
          → mem (times (pushed r.out r.bucket)) t
            ≡ mem (times (pushed s.out s.bucket)) t || mem (buckets_of target ps) t)

  bucket_loop-Grouped :
      (target : ℕ) (s : Buckets F) (ps : List (Price F)) (c : ℕ)
      → 0 < target
      → Inv s c
      → IsIncreasing ps
      → All (λ p. c ≤ bucket_of target p.open_time) ps
      → Grouped target s ps (bucket_loop target s ps)
  unfolding bucket_loop mem
  bucket_loop-Grouped target s [] c positive h v a =
      (pushed-Inv s.out s.current_start s.bucket c h, λ t. ground arith)
  bucket_loop-Grouped target s (p ∷ ps) c positive h (later, v) (le, a) =
      let (up, eq) =
        bucket_loop-Grouped target (bucket_round target p s) ps (bucket_of target p.open_time)
          positive (bucket_round-Inv target p s.out s.current_start s.bucket c h le) v
          (All-map _ (λ q. bucket_of target p.open_time ≤ bucket_of target q.open_time) ps
            (λ q lt. bucket_of_mono target p.open_time q.open_time positive (omega (arith, lt)))
            later) in
      (
        up,
        λ t. ground (arith, eq t, mem-bucket_round target p s.out s.current_start s.bucket c t h),
      )

  -- Let the candles stand in order of time, no two at one time. `aggregate_prices` puts out candles in
  -- that order again, and one stands at a time just when the time is the start of the interval of one
  -- of the candles put in.
  pub aggregate_prices_lem :
      (ps : List (Price F)) (target : ℕ)
      → 0 < target
      → IsIncreasing ps
      → IsIncreasing (aggregate_prices ps target)
        × ((t : ℕ) → mem (times (aggregate_prices ps target)) t ≡ mem (buckets_of target ps) t)
  unfolding aggregate_prices mem
  aggregate_prices_lem [] target positive v = (tt, λ t. refl)
  aggregate_prices_lem (p ∷ ps) target positive v =
      bucket_loop-Grouped target no_buckets (p ∷ ps) 0 positive refl v (omega arith, All-zero ps)
    where
      All-zero : (ps : List (Price F)) → All (λ p. 0 ≤ bucket_of target p.open_time) ps
      All-zero [] = tt
      All-zero (p ∷ ps) = (omega arith, All-zero ps)
