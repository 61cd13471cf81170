-- ===== src/Margin/Versions.antt =====
-- The version of a margin book tells whether its map has changed, so that a synchronization is for the
-- assets that the book has when it is applied.
use hyperliquid_rust_bot.Prelude.{
  ℕ, zero, suc, ◌≤◌, ◌<◌, ◌≡◌, refl, subst, ap, ◌∙◌, ◌==◌, some, List, [], ◌∷◌, Result, ok, err,
  arith, Bool-cases, inl, inr,
}
use hyperliquid_rust_bot.Prelude.Words.{u64_max}
use hyperliquid_rust_bot.Prelude.Maps.{string_eq}
use hyperliquid_rust_bot.Float.{Float}
use hyperliquid_rust_bot.Margin.{
  MarginBook, MarginError, Sync, Others, Operation, allocating, removing, resetting, syncing,
  committing, alloc, amount, run, run_all, allocate_from_current, remove_asset, reset, apply_sync,
  commit, sync_request, sync_rounds, sync_shared,
}

module _ {F : Type 0} ⦃f : Float F⦄ where
  -- The version grows, and as long as it stays the map stays.
  abbrev Tracks : (before after : MarginBook F) → Type 0
  Tracks b c =
      (b.version ≤ c.version)
      × (c.version ≤ u64_max)
      × (c.version < u64_max → c.version ≡ b.version → c.margins ≡ b.margins)

  run-Tracks : (o : Operation F) (b : MarginBook F) → b.version ≤ u64_max → Tracks b (run o b)
  unfolding run allocate_from_current remove_asset reset apply_sync commit
  run-Tracks (allocating asset (alloc ptc)) b h = ground arith
  run-Tracks (allocating asset (amount a)) b h = ground arith
  run-Tracks (removing asset) b h = ground arith
  run-Tracks resetting b h = ground arith
  run-Tracks (syncing total now) b h = ground arith
  run-Tracks (committing asset requested) b h = ground arith

  run_all-Tracks :
      (os : List (Operation F)) (b : MarginBook F) → b.version ≤ u64_max → Tracks b (run_all os b)
  unfolding run_all
  run_all-Tracks [] b h = (omega arith, h, λ lt e. refl)
  run_all-Tracks (o ∷ os) b h =
      let (le, bounded, same) = run-Tracks o b h in
      let (le', bounded', same') = run_all-Tracks os (run o b) bounded in
      (
        omega (arith, le, le'),
        bounded',
        λ lt e.
            same' lt (omega (arith, le, le', e))
            ∙ same (omega (arith, le, le', e, lt)) (omega (arith, le, le', e)),
      )

  -- A synchronization that has ended well: what was applied was asked for the book as it now is.
  pub record Current {P : Type 0} (w : Sync F P) (positions : P) (b : MarginBook F) : Type 0 where
    pub round : ℕ
    pub asked : w.ask round (sync_request b) ≡ ok (b.total_on_chain, positions)
    pub synced : b.last_sync ≡ some (w.time round)

  abbrev IsCurrent : {P : Type 0} → Sync F P → Result (MarginError F) P × MarginBook F → Type 0
  IsCurrent w (ok positions, b) = b.version < u64_max → Current w positions b
  IsCurrent w (err e, b) = Unit

  same_request :
      (b c : MarginBook F)
      → c.version ≡ b.version
      → c.margins ≡ b.margins
      → sync_request c ≡ sync_request b
  unfolding sync_request
  same_request b c v m = cc

  sync_rounds-IsCurrent :
      {P : Type 0} (left round : ℕ) (w : Sync F P) (others : Others F) (b : MarginBook F)
      → b.version ≤ u64_max
      → IsCurrent w (sync_rounds left round w others b)
  unfolding sync_rounds apply_sync
  sync_rounds-IsCurrent zero round w others b h = tt
  sync_rounds-IsCurrent {P} (suc left) round w others b h =
      by_answer (w.ask round (sync_request locked)) refl
        (sync_rounds-IsCurrent left (suc round) w others c track'.1)
    where
      locked : MarginBook F
      locked = run_all (others.before_lock round) b

      c : MarginBook F
      c = run_all (others.while_asked round) locked

      track' : Tracks locked c
      track' =
          run_all-Tracks (others.while_asked round) locked
            (run_all-Tracks (others.before_lock round) b h).1

      by_answer :
          (a : Result (MarginError F) (F × P))
          → w.ask round (sync_request locked) ≡ a
          → IsCurrent w (sync_rounds left (suc round) w others c)
          → IsCurrent w (sync_rounds (suc left) round w others b)
      by_answer (err e) q rest = rw (q, sync_rounds) tt
      by_answer (ok (total, positions)) q rest = elim (Bool-cases (c.version == locked.version)) [
        | inl e ↦
            let stayed : c.version ≡ locked.version = ground arith in
            rw (q, sync_rounds, e)
              (λ lt. record {
                round = round;
                asked =
                    ap (w.ask round) (
                      same_request locked (apply_sync total (w.time round) c) stayed
                        (track'.2 lt stayed))
                    ∙ q;
                synced = refl;
              })
        | inr e ↦ rw (q, sync_rounds, e) rest
      ]

  -- Let the other tasks run any operations between the parts of a synchronization, and let the version
  -- end up below the greatest `u64`. If `sync_shared` returns positions, the exchange was asked for just
  -- the assets that the book has then, and the book's total is the one that came with the positions.
  pub sync_shared_lem :
      {P : Type 0} (w : Sync F P) (others : Others F) (b : MarginBook F) (positions : P)
      → b.version ≤ u64_max
      → (sync_shared w others b).0 ≡ ok positions
      → (sync_shared w others b).1.version < u64_max
      → Current w positions (sync_shared w others b).1
  unfolding sync_shared
  sync_shared_lem {P} w others b positions h q lt =
      of_ok (sync_rounds 3 0 w others b) q lt (sync_rounds-IsCurrent 3 0 w others b h)
    where
      value : Result (MarginError F) P → P
      value (ok x) = x
      value (err e) = positions

      of_ok :
          (r : Result (MarginError F) P × MarginBook F)
          → r.0 ≡ ok positions
          → r.1.version < u64_max
          → IsCurrent w r
          → Current w positions r.1
      of_ok (ok p, b) q lt c = subst (λ x. Current w x b) (ap value q) (c lt)
      of_ok (err e, b) q lt c = ground arith
