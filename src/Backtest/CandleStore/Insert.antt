-- ===== src/Backtest/CandleStore/Insert.antt =====
-- What `insert_many` writes.
use hyperliquid_rust_bot.Prelude.{
  ℕ, ◌<◌, ◌≡◌, refl, ◌∙◌, Bool, true, false, not, ◌||◌, ◌&&◌, Option, none, some, List, [], ◌∷◌,
  ◌++◌, All, All-map, All-retain, arith, ◌==◌, retain, find?, if◌then◌else◌, Bool-cases, inl, inr,
}
use hyperliquid_rust_bot.Prelude.Maps.{nat_eq, mem}
use hyperliquid_rust_bot.Price.{Price, times}
use hyperliquid_rust_bot.Backtest.CandleStore.{
  comes_first, insert_sorted, sort_by_time, new_only, insert_many, written,
}

module _ {F : Type 0} where
  -- Candles in order of time, no two at one time.
  abbrev pub IsIncreasing : List (Price F) → Type 0
  IsIncreasing [] = Unit
  IsIncreasing (p ∷ ps) = All (λ q. p.open_time < q.open_time) ps × IsIncreasing ps

  -- No two candles at one time.
  abbrev pub IsDistinct : List (Price F) → Type 0
  IsDistinct [] = Unit
  IsDistinct (p ∷ ps) = (mem (times ps) p.open_time ≡ false) × IsDistinct ps

  -- The first candle at a time.
  abbrev pub candle_at : ℕ → List (Price F) → Option (Price F)
  candle_at t = find? (λ p. p.open_time == t)

  All-insert_sorted {κ} :
      (first : Price F → Price F → Bool) (P : Price F → Type κ) (p : Price F) (ps : List (Price F))
      → P p
      → All P ps
      → All P (insert_sorted first p ps)
  unfolding insert_sorted
  All-insert_sorted first P p [] h a = (h, tt)
  All-insert_sorted first P p (q ∷ qs) h (a, as') = elim (Bool-cases (comes_first first p q)) [
    | inl e ↦ rw (e) (h, (a, as'))
    | inr e ↦ rw (e) (a, All-insert_sorted first P p qs h as')
  ]

  mem-insert_sorted :
      (first : Price F → Price F → Bool) (p : Price F) (ps : List (Price F)) (t : ℕ)
      → mem (times (insert_sorted first p ps)) t ≡ (p.open_time == t) || mem (times ps) t
  unfolding insert_sorted mem
  mem-insert_sorted first p [] t = refl
  mem-insert_sorted first p (q ∷ qs) t = ground (arith, mem-insert_sorted first p qs t)

  pub mem-sort_by_time :
      (first : Price F → Price F → Bool) (ps : List (Price F)) (t : ℕ)
      → mem (times (sort_by_time first ps)) t ≡ mem (times ps) t
  unfolding sort_by_time mem
  mem-sort_by_time first [] t = refl
  mem-sort_by_time first (p ∷ ps) t =
      ground
        (arith, mem-insert_sorted first p (sort_by_time first ps) t, mem-sort_by_time first ps t)

  above :
      (t u : ℕ) (ps : List (Price F))
      → t < u
      → All (λ q. u < q.open_time) ps
      → All (λ q. t < q.open_time) ps
  above t u ps h = All-map _ (λ q. t < q.open_time) ps (λ q k. omega arith)

  IsIncreasing-insert_sorted :
      (first : Price F → Price F → Bool) (p : Price F) (ps : List (Price F))
      → mem (times ps) p.open_time ≡ false
      → IsIncreasing ps
      → IsIncreasing (insert_sorted first p ps)
  unfolding insert_sorted mem
  IsIncreasing-insert_sorted first p [] new v = (tt, tt)
  IsIncreasing-insert_sorted first p (q ∷ qs) new (a, v) =
      elim (Bool-cases (comes_first first p q)) [
        | inl e ↦
            let lt : p.open_time < q.open_time = ground arith in
            rw (e) ((lt, above p.open_time q.open_time qs lt a), (a, v))
        | inr e ↦ rw (e) (
          All-insert_sorted first (λ r. q.open_time < r.open_time) p qs (ground arith) a,
          IsIncreasing-insert_sorted first p qs (ground arith) v,
        )
      ]

  IsIncreasing-sort_by_time :
      (first : Price F → Price F → Bool) (ps : List (Price F))
      → IsDistinct ps
      → IsIncreasing (sort_by_time first ps)
  unfolding sort_by_time
  IsIncreasing-sort_by_time first [] d = tt
  IsIncreasing-sort_by_time first (p ∷ ps) (d, ds) =
      IsIncreasing-insert_sorted first p (sort_by_time first ps)
        (mem-sort_by_time first ps p.open_time ∙ d) (IsIncreasing-sort_by_time first ps ds)

  candle_at-insert_sorted :
      (first : Price F → Price F → Bool) (p : Price F) (ps : List (Price F)) (t : ℕ)
      → mem (times ps) p.open_time ≡ false
      → candle_at t (insert_sorted first p ps)
        ≡ (if p.open_time == t then some p else candle_at t ps)
  unfolding insert_sorted mem
  candle_at-insert_sorted first p [] t new = refl
  candle_at-insert_sorted first p (q ∷ qs) t new =
      ground (arith, candle_at-insert_sorted first p qs t)

  candle_at-sort_by_time :
      (first : Price F → Price F → Bool) (ps : List (Price F)) (t : ℕ)
      → IsDistinct ps
      → candle_at t (sort_by_time first ps) ≡ candle_at t ps
  unfolding sort_by_time
  candle_at-sort_by_time first [] t d = refl
  candle_at-sort_by_time first (p ∷ ps) t (d, ds) = ground (
    arith,
    candle_at-insert_sorted first p (sort_by_time first ps) t
        (mem-sort_by_time first ps p.open_time ∙ d),
    candle_at-sort_by_time first ps t ds,
  )

  pub mem-append :
      (ps qs : List (Price F)) (t : ℕ)
      → mem (times (ps ++ qs)) t ≡ mem (times ps) t || mem (times qs) t
  unfolding mem
  mem-append [] qs t = refl
  mem-append (p ∷ ps) qs t = ground (arith, mem-append ps qs t)

  pub mem-new_only :
      (file new : List (Price F)) (t : ℕ)
      → mem (times (new_only file new)) t ≡ not (mem (times file) t) && mem (times new) t
  unfolding new_only mem
  mem-new_only file [] t = ground arith
  mem-new_only file (p ∷ ps) t = ground (arith, mem-new_only file ps t)

  candle_at-append :
      (ps qs : List (Price F)) (t : ℕ)
      → candle_at t (ps ++ qs) ≡ (if mem (times ps) t then candle_at t ps else candle_at t qs)
  unfolding mem
  candle_at-append [] qs t = refl
  candle_at-append (p ∷ ps) qs t = ground (arith, candle_at-append ps qs t)

  candle_at-new_only :
      (file new : List (Price F)) (t : ℕ)
      → mem (times file) t ≡ false
      → candle_at t (new_only file new) ≡ candle_at t new
  unfolding new_only
  candle_at-new_only file [] t h = refl
  candle_at-new_only file (p ∷ ps) t h = ground (arith, candle_at-new_only file ps t h)

  IsDistinct-new_only :
      (file new : List (Price F)) → IsDistinct new → IsDistinct (new_only file new)
  unfolding new_only
  IsDistinct-new_only file [] d = tt
  IsDistinct-new_only file (p ∷ ps) (d, ds) = elim (Bool-cases (mem (times file) p.open_time)) [
    | inl e ↦ rw (e) (IsDistinct-new_only file ps ds)
    | inr e ↦
        rw (e) (ground (arith, mem-new_only file ps p.open_time), IsDistinct-new_only file ps ds)
  ]

  not_mem-above :
      (t : ℕ) (ps : List (Price F)) → All (λ q. t < q.open_time) ps → mem (times ps) t ≡ false
  unfolding mem
  not_mem-above t [] a = refl
  not_mem-above t (p ∷ ps) (h, a) = ground (arith, not_mem-above t ps a)

  IsDistinct-append :
      (file new : List (Price F))
      → IsIncreasing file
      → IsDistinct new
      → ((t : ℕ) → mem (times file) t ≡ true → mem (times new) t ≡ false)
      → IsDistinct (file ++ new)
  unfolding mem
  IsDistinct-append [] new v d apart = d
  IsDistinct-append (p ∷ file) new (a, v) d apart = (
    ground (
      arith,
      mem-append file new p.open_time,
      not_mem-above p.open_time file a,
      apart p.open_time,
    ),
    IsDistinct-append file new v d (λ t h. ground (arith, apart t, h)),
  )

  new_only-apart :
      (file new : List (Price F)) (t : ℕ)
      → mem (times file) t ≡ true
      → mem (times (new_only file new)) t ≡ false
  new_only-apart file new t h = rw (mem-new_only file new t, h) refl

  -- Let the candles of the file stand in order of time, no two at one time, and let no two new ones
  -- stand at one time. If `insert_many` writes the file, its candles stand in that order again.
  pub IsIncreasing-insert_many :
      (first : Price F → Price F → Bool) (file new : List (Price F))
      → IsIncreasing file
      → IsDistinct new
      → IsIncreasing (insert_many (written first) file new)
  unfolding insert_many
  IsIncreasing-insert_many first file [] v d = v
  IsIncreasing-insert_many first file (p ∷ ps) v d =
      IsIncreasing-sort_by_time first (file ++ new_only file (p ∷ ps)) (
        IsDistinct-append file (new_only file (p ∷ ps)) v (IsDistinct-new_only file (p ∷ ps) d)
          (new_only-apart file (p ∷ ps)))

  candle_at-absent :
      (ps : List (Price F)) (t : ℕ) → mem (times ps) t ≡ false → candle_at t ps ≡ none
  unfolding mem
  candle_at-absent [] t h = refl
  candle_at-absent (p ∷ ps) t h = ground (arith, candle_at-absent ps t, h)

  file_first :
      (file new : List (Price F)) (t : ℕ)
      → (if mem (times file) t then candle_at t file else candle_at t (new_only file new))
        ≡ (if mem (times file) t then candle_at t file else candle_at t new)
  file_first file new t = elim (Bool-cases (mem (times file) t)) [
    | inl e ↦ rw (e) refl
    | inr e ↦ rw (e) (candle_at-new_only file new t e)
  ]

  -- Where the times are distinct, the file's candle at a time is the one that it had, or the new one.
  pub candle_at-insert_many :
      (first : Price F → Price F → Bool) (file new : List (Price F)) (t : ℕ)
      → IsIncreasing file
      → IsDistinct new
      → candle_at t (insert_many (written first) file new)
        ≡ (if mem (times file) t then candle_at t file else candle_at t new)
  unfolding insert_many
  candle_at-insert_many first file [] t v d = ground (arith, candle_at-absent file t)
  candle_at-insert_many first file (p ∷ ps) t v d =
      candle_at-sort_by_time first (file ++ new_only file (p ∷ ps)) t (
        IsDistinct-append file (new_only file (p ∷ ps)) v (IsDistinct-new_only file (p ∷ ps) d)
          (new_only-apart file (p ∷ ps)))
      ∙ candle_at-append file (new_only file (p ∷ ps)) t
      ∙ file_first file (p ∷ ps) t

  pub IsDistinct-IsIncreasing : (ps : List (Price F)) → IsIncreasing ps → IsDistinct ps
  IsDistinct-IsIncreasing [] v = tt
  IsDistinct-IsIncreasing (p ∷ ps) (a, v) =
      (not_mem-above p.open_time ps a, IsDistinct-IsIncreasing ps v)

  pub IsIncreasing-retain :
      (keep : Price F → Bool) (ps : List (Price F))
      → IsIncreasing ps
      → IsIncreasing (retain keep ps)
  IsIncreasing-retain keep [] v = tt
  IsIncreasing-retain keep (p ∷ ps) (a, v) = elim (Bool-cases (keep p)) [
    | inl e ↦
        rw (e)
          (All-retain (λ q. p.open_time < q.open_time) keep ps a, IsIncreasing-retain keep ps v)
    | inr e ↦ rw (e) (IsIncreasing-retain keep ps v)
  ]
