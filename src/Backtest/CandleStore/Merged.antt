-- ===== src/Backtest/CandleStore/Merged.antt =====
-- The candles that the file has at a time when `insert_many` has written it, in whatever order.
use mathlib.Core.Logic.{∥∥₁_elim, ∥∥₁_prop}
use mathlib.Core.List.{Permᴰ, Perm, append-nil}
use mathlib.Core.List.Perm
use hyperliquid_rust_bot.Prelude.{
  ℕ, ◌≡◌, refl, subst, ◌∙◌, Bool, false, ◌||◌, List, [], ◌∷◌, ◌++◌, arith, ◌==◌, retain,
  if◌then◌else◌, if_either, Bool-cases, inl, inr,
}
use hyperliquid_rust_bot.Prelude.Maps.{nat_eq, mem}
use hyperliquid_rust_bot.Price.{Price, times}
use hyperliquid_rust_bot.Backtest.CandleStore.{
  comes_first, insert_sorted, sort_by_time, new_only, insert_many, written,
}
use hyperliquid_rust_bot.Backtest.CandleStore.Insert.{mem-sort_by_time, mem-append, mem-new_only}

module _ {F : Type 0} where
  -- The candles of a file at a time.
  abbrev pub candles_at : ℕ → List (Price F) → List (Price F)
  candles_at t = retain (λ p. p.open_time == t)

  insert_sorted-Perm :
      (first : Price F → Price F → Bool) (p : Price F) (ps : List (Price F))
      → Perm (insert_sorted first p ps) (p ∷ ps)
  unfolding insert_sorted
  insert_sorted-Perm first p [] = Perm.refl (p ∷ [])
  insert_sorted-Perm first p (q ∷ qs) =
      if_either (λ l. Perm l (p ∷ q ∷ qs)) (comes_first first p q) (p ∷ q ∷ qs)
        (q ∷ insert_sorted first p qs) (Perm.refl (p ∷ q ∷ qs))
        (Perm.trans (Perm.cons q (insert_sorted-Perm first p qs)) (Perm.swap p q qs))

  sort_by_time-Perm :
      (first : Price F → Price F → Bool) (ps : List (Price F)) → Perm (sort_by_time first ps) ps
  unfolding sort_by_time
  sort_by_time-Perm first [] = Perm.refl []
  sort_by_time-Perm first (p ∷ ps) =
      Perm.trans (insert_sorted-Perm first p (sort_by_time first ps))
        (Perm.cons p (sort_by_time-Perm first ps))

  retain-cons :
      (keep : Price F → Bool) (x : Price F) (ps qs : List (Price F))
      → Perm (retain keep ps) (retain keep qs)
      → Perm (retain keep (x ∷ ps)) (retain keep (x ∷ qs))
  retain-cons keep x ps qs p = elim (Bool-cases (keep x)) [
    | inl e ↦ rw (e) (Perm.cons x p)
    | inr e ↦ rw (e) p
  ]

  retain-swap :
      (keep : Price F → Bool) (x y : Price F) (l : List (Price F))
      → Perm (retain keep (x ∷ y ∷ l)) (retain keep (y ∷ x ∷ l))
  retain-swap keep x y l = elim (Bool-cases (keep x)) [
    | inl e ↦ elim (Bool-cases (keep y)) [
      | inl d ↦ rw (e, d) (Perm.swap y x (retain keep l))
      | inr d ↦ rw (e, d) (Perm.refl (x ∷ retain keep l))
    ]
    | inr e ↦ elim (Bool-cases (keep y)) [
      | inl d ↦ rw (e, d) (Perm.refl (y ∷ retain keep l))
      | inr d ↦ rw (e, d) (Perm.refl (retain keep l))
    ]
  ]

  retain-Permᴰ :
      (keep : Price F → Bool) {ps qs : List (Price F)}
      → Permᴰ ps qs
      → Perm (retain keep ps) (retain keep qs)
  retain-Permᴰ keep Permᴰ.nil = Perm.refl []
  retain-Permᴰ keep (Permᴰ.cons {a = x} {l₁ = ps} {l₂ = qs} e p) =
      subst (λ y. Perm (retain keep (x ∷ ps)) (retain keep (y ∷ qs))) e
        (retain-cons keep x ps qs (retain-Permᴰ keep p))
  retain-Permᴰ keep (Permᴰ.swap {a = x} {b = y} {l = l} e d) =
      subst
        (λ (b : Price F × Price F). Perm (retain keep (x ∷ y ∷ l)) (retain keep (b.0 ∷ b.1 ∷ l)))
        (λ i. (d i, e i)) (retain-swap keep x y l)
  retain-Permᴰ keep (Permᴰ.trans p q) = Perm.trans (retain-Permᴰ keep p) (retain-Permᴰ keep q)

  retain-Perm :
      (keep : Price F → Bool) {ps qs : List (Price F)}
      → Perm ps qs
      → Perm (retain keep ps) (retain keep qs)
  retain-Perm keep p = ∥∥₁_elim p ∥∥₁_prop (retain-Permᴰ keep)

  candles_at-append :
      (t : ℕ) (ps qs : List (Price F))
      → candles_at t (ps ++ qs) ≡ candles_at t ps ++ candles_at t qs
  candles_at-append t [] qs = refl
  candles_at-append t (p ∷ ps) qs = ground (arith, candles_at-append t ps qs)

  candles_at-absent :
      (t : ℕ) (ps : List (Price F)) → mem (times ps) t ≡ false → candles_at t ps ≡ []
  unfolding mem
  candles_at-absent t [] h = refl
  candles_at-absent t (p ∷ ps) h = ground (arith, candles_at-absent t ps, h)

  candles_at-new_only :
      (file new : List (Price F)) (t : ℕ)
      → candles_at t (new_only file new) ≡ (if mem (times file) t then [] else candles_at t new)
  unfolding new_only
  candles_at-new_only file [] t = ground arith
  candles_at-new_only file (p ∷ ps) t = ground (arith, candles_at-new_only file ps t)

  merged_at :
      (file new : List (Price F)) (t : ℕ)
      → candles_at t (file ++ new_only file new)
        ≡ (if mem (times file) t then candles_at t file else candles_at t new)
  merged_at file new t =
      candles_at-append t file (new_only file new) ∙ (elim (Bool-cases (mem (times file) t)) [
        | inl e ↦ rw (e, candles_at-new_only file new t, e) (append-nil (candles_at t file))
        | inr e ↦ rw (e, candles_at-new_only file new t, e, candles_at-absent t file e) refl
      ])

  merged_times :
      (file new : List (Price F)) (t : ℕ)
      → mem (times (file ++ new_only file new)) t ≡ mem (times file) t || mem (times new) t
  merged_times file new t =
      ground (arith, mem-append file (new_only file new) t, mem-new_only file new t)

  -- If `insert_many` writes the file, the candles that it then has at a time are, in some order, those it
  -- had there, and if it had none, the new ones with that time; and it has a time just when it had it or
  -- a new candle has it. This holds however the unstable sort orders the candles of one time.
  pub insert_many_lem :
      (first : Price F → Price F → Bool) (file new : List (Price F)) (t : ℕ)
      → Perm
          (candles_at t (insert_many (written first) file new))
          (if mem (times file) t then candles_at t file else candles_at t new)
        × (mem (times (insert_many (written first) file new)) t
            ≡ mem (times file) t || mem (times new) t)
  unfolding insert_many mem
  insert_many_lem first file [] t = elim (Bool-cases (mem (times file) t)) [
    | inl e ↦ (rw (e) (Perm.refl (candles_at t file)), ground arith)
    | inr e ↦ (rw (e, candles_at-absent t file e) (Perm.refl []), ground arith)
  ]
  insert_many_lem first file (p ∷ ps) t =
      let all = file ++ new_only file (p ∷ ps) in
      (
        rw (merged_at file (p ∷ ps) t) at
            (retain-Perm (λ q. q.open_time == t) (sort_by_time-Perm first all)),
        mem-sort_by_time first all t ∙ merged_times file (p ∷ ps) t,
      )
