-- ===== src/Backtest/Aggregate/Order.antt =====
-- Times of the candles in a tree and in an aggregation.
use native.Mathlib.Nat.{mul-le-mul_right, lt_of_mul-lt-mul_right}
use hyperliquid_rust_bot.Prelude.{
  ℕ, suc, ◌+◌, ◌*◌, ◌/◌, ◌%◌, ◌≤◌, ◌<◌, ◌≡◌, List, [], ◌∷◌, ◌++◌, All, All-append, All-map, ltb,
  ◌==◌, arith, Bool-cases, inl, inr,
}
use hyperliquid_rust_bot.Prelude.Maps.{nat_eq}
use hyperliquid_rust_bot.Price.{Price}
use hyperliquid_rust_bot.Backtest.CandleStore.Insert.{IsIncreasing}
use hyperliquid_rust_bot.Backtest.Aggregate.{tree_insert, tree_extend, bucket_of}

module _ {F : Type 0} where
  All-tree_insert {κ} :
      (P : Price F → Type κ) (p : Price F) (ps : List (Price F))
      → P p
      → All P ps
      → All P (tree_insert p ps)
  unfolding tree_insert
  All-tree_insert P p [] h a = (h, tt)
  All-tree_insert P p (q ∷ qs) h (a, as') = elim (Bool-cases (ltb p.open_time q.open_time)) [
    | inl e ↦ rw (e) (h, (a, as'))
    | inr e ↦ elim (Bool-cases (p.open_time == q.open_time)) [
      | inl d ↦ rw (e, d) (h, as')
      | inr d ↦ rw (e, d) (a, All-tree_insert P p qs h as')
    ]
  ]

  IsIncreasing-tree_insert :
      (p : Price F) (ps : List (Price F)) → IsIncreasing ps → IsIncreasing (tree_insert p ps)
  unfolding tree_insert
  IsIncreasing-tree_insert p [] v = (tt, tt)
  IsIncreasing-tree_insert p (q ∷ qs) (a, v) = elim (Bool-cases (ltb p.open_time q.open_time)) [
    | inl e ↦
        let h : p.open_time < q.open_time = ground arith in
        rw (e) ((h, All-map _ (λ r. p.open_time < r.open_time) qs (λ r k. omega arith) a), (a, v))
    | inr e ↦ elim (Bool-cases (p.open_time == q.open_time)) [
      | inl d ↦
          let h : p.open_time ≡ q.open_time = ground arith in
          rw (e, d) (All-map _ (λ r. p.open_time < r.open_time) qs (λ r k. omega arith) a, v)
      | inr d ↦
          rw (e, d)
            (
              All-tree_insert (λ r. q.open_time < r.open_time) p qs (ground arith) a,
              IsIncreasing-tree_insert p qs v,
            )
    ]
  ]

  pub All-tree_extend {κ} :
      (P : Price F → Type κ) (tree ps : List (Price F))
      → All P tree
      → All P ps
      → All P (tree_extend tree ps)
  unfolding tree_extend
  All-tree_extend P tree [] t _ = t
  All-tree_extend P tree (p ∷ ps) t (a, as') =
      All-tree_extend P (tree_insert p tree) ps (All-tree_insert P p tree a t) as'

  pub IsIncreasing-tree_extend :
      (tree ps : List (Price F)) → IsIncreasing tree → IsIncreasing (tree_extend tree ps)
  unfolding tree_extend
  IsIncreasing-tree_extend tree [] v = v
  IsIncreasing-tree_extend tree (p ∷ ps) v =
      IsIncreasing-tree_extend (tree_insert p tree) ps (IsIncreasing-tree_insert p tree v)

  pub IsIncreasing-snoc :
      (ps : List (Price F)) (q : Price F)
      → IsIncreasing ps
      → All (λ p. p.open_time < q.open_time) ps
      → IsIncreasing (ps ++ q ∷ [])
  IsIncreasing-snoc [] q v a = (tt, tt)
  IsIncreasing-snoc (p ∷ ps) q (b, v) (h, a) = (
    All-append (λ r. p.open_time < r.open_time) ps (q ∷ []) b (h, tt),
    IsIncreasing-snoc ps q v a,
  )

pub bucket_of_le : (target t : ℕ) → 0 < target → bucket_of target t ≤ t
bucket_of_le target t h = omega (arith, h)

pub bucket_of_mono : (target a b : ℕ) → 0 < target → a ≤ b → bucket_of target a ≤ bucket_of target b
bucket_of_mono target a b h le =
    let small : a % target < target = omega (arith, h) in
    let small' : b % target < target = omega (arith, h) in
    let split : a ≡ a / target * target + a % target = omega (arith, h) in
    let split' : b ≡ b / target * target + b % target = omega (arith, h) in
    let k : a / target < suc (b / target) =
      lt_of_mul-lt-mul_right target (omega (arith, le, split, split', small')) in
    mul-le-mul_right target (omega (arith, k))
