-- ===== src/Broadcast/Commands/Replies.antt =====
-- The replies of the candle cache: each request is waiting, or has been answered once.
use Prim.Native.String.{String}
use hyperliquid_rust_bot.Prelude.{
  ℕ, ◌+◌, ◌≡◌, refl, ap, Bool, Option, none, some, List, [], ◌∷◌, ◌++◌, if◌then◌else◌, arith,
  Bool-cases, inl, inr,
}
use hyperliquid_rust_bot.Prelude.Maps.{string_eq, nat_eq, get}
use hyperliquid_rust_bot.TimeFrame.{TimeFrame, tf_eq}
use hyperliquid_rust_bot.Broadcast.CandleCache.{
  is_empty, TimeFrameData, PendingSnapshot, CandleCache, CacheCmdIn, new_feed, drop_feed_of, price,
  snapshot, backfill, fetch_complete, send_reply, fill_cached_snapshot, drop_pending,
}
use hyperliquid_rust_bot.Broadcast.Commands.{completed_snapshot, resolve_each}

abbrev pub one_if : Bool → ℕ
one_if b = if b then 1 else 0

-- The replies sent on a channel, the requests that wait for one, and the requests among commands.
abbrev pub replied : {A : Type 0} → ℕ → List (ℕ × A) → ℕ
replied k [] = 0
replied k ((r, _) ∷ rs) = one_if (nat_eq.beq k r) + replied k rs

module _ {F : Type 0} where
  abbrev pub waiting : ℕ → List (PendingSnapshot F) → ℕ
  waiting k [] = 0
  waiting k (s ∷ ss) = one_if (nat_eq.beq k s.reply) + waiting k ss

  abbrev pub asked : ℕ → List (CacheCmdIn F) → ℕ
  asked k [] = 0
  asked k (snapshot s ∷ cmds) = one_if (nat_eq.beq k s.reply) + asked k cmds
  asked k (new_feed _ ∷ cmds) = asked k cmds
  asked k (drop_feed_of _ ∷ cmds) = asked k cmds
  asked k (price _ _ ∷ cmds) = asked k cmds
  asked k (backfill _ _ ∷ cmds) = asked k cmds
  asked k (fetch_complete _ _ _ ∷ cmds) = asked k cmds

  abbrev pub accounted : ℕ → CandleCache F → ℕ
  accounted k c = replied k c.replies + waiting k c.pending_snapshots

replied-append :
    {A : Type 0}
    → (k : ℕ) (rs ss : List (ℕ × A)) → replied k (rs ++ ss) ≡ replied k rs + replied k ss
replied-append k [] ss = omega arith
replied-append k ((r, x) ∷ rs) ss =
    let ih : replied k (rs ++ ss) ≡ replied k rs + replied k ss = replied-append k rs ss in
    omega (arith, ih)

module _ {F : Type 0} (k : ℕ) where
  waiting-append :
      (rs ss : List (PendingSnapshot F)) → waiting k (rs ++ ss) ≡ waiting k rs + waiting k ss
  waiting-append [] ss = omega arith
  waiting-append (r ∷ rs) ss =
      let ih : waiting k (rs ++ ss) ≡ waiting k rs + waiting k ss = waiting-append rs ss in
      omega (arith, ih)

  pub accounted-send_reply :
      (r : ℕ) (answer : Option (TimeFrameData F)) (c : CandleCache F)
      → accounted k (send_reply r answer c) ≡ accounted k c + one_if (nat_eq.beq k r)
  accounted-send_reply r answer c = omega (arith, replied-append k c.replies ((r, answer) ∷ []))

  pub accounted-push :
      (s : PendingSnapshot F) (c : CandleCache F)
      → accounted k (record c { pending_snapshots = c.pending_snapshots ++ s ∷ [] })
        ≡ accounted k c + one_if (nat_eq.beq k s.reply)
  accounted-push s c = omega (arith, waiting-append c.pending_snapshots (s ∷ []))

  pub accounted-drop_pending :
      (asset : String) (ss : List (PendingSnapshot F)) (c : CandleCache F)
      → accounted k (drop_pending asset ss c) ≡ accounted k c + waiting k ss
  unfolding drop_pending
  accounted-drop_pending asset [] c = omega arith
  accounted-drop_pending asset (s ∷ ss) c = elim (Bool-cases (string_eq.beq s.asset asset)) [
    | inl e ↦
        rw (drop_pending, e)
          (omega (
            arith,
            accounted-drop_pending asset ss (send_reply s.reply none c),
            accounted-send_reply s.reply none c,
          ))
    | inr e ↦
        rw (drop_pending, e)
          (omega (
            arith,
            accounted-drop_pending asset ss
                (record c { pending_snapshots = c.pending_snapshots ++ s ∷ [] }),
            accounted-push s c,
          ))
  ]

  pub reply-fill_cached_snapshot :
      (c : CandleCache F) (s : PendingSnapshot F) → (fill_cached_snapshot c s).reply ≡ s.reply
  unfolding fill_cached_snapshot
  reply-fill_cached_snapshot c s = by_map (get c.candles s.asset) refl
    where
      by_map :
          (x : Option (TimeFrameData F))
          → get c.candles s.asset ≡ x
          → (fill_cached_snapshot c s).reply ≡ s.reply
      by_map none q = rw (fill_cached_snapshot, q) refl
      by_map (some m) q = rw (fill_cached_snapshot, q) refl

  reply-completed_snapshot :
      (asset : String) (completed : List TimeFrame) (c : CandleCache F) (s : PendingSnapshot F)
      → (completed_snapshot asset completed c s).reply ≡ s.reply
  unfolding completed_snapshot
  reply-completed_snapshot asset completed c s = elim (Bool-cases (string_eq.beq s.asset asset)) [
    | inl e ↦ rw (e) (reply-fill_cached_snapshot c s)
    | inr e ↦ rw (e) refl
  ]

  pub accounted-resolve_each :
      (asset : String) (completed : List TimeFrame) (ss : List (PendingSnapshot F))
      (c : CandleCache F)
      → accounted k (resolve_each asset completed ss c) ≡ accounted k c + waiting k ss
  unfolding resolve_each
  accounted-resolve_each asset completed [] c = omega arith
  accounted-resolve_each asset completed (s ∷ ss) c =
      let t = completed_snapshot asset completed c s in
      let same : one_if (nat_eq.beq k t.reply) ≡ one_if (nat_eq.beq k s.reply) =
        ap (λ r. one_if (nat_eq.beq k r)) (reply-completed_snapshot asset completed c s) in
      elim (Bool-cases (is_empty t.request)) [
        | inl e ↦
            rw (resolve_each, e)
              (omega (
                arith,
                same,
                accounted-resolve_each asset completed ss (send_reply t.reply (some t.cached) c),
                accounted-send_reply t.reply (some t.cached) c,
              ))
        | inr e ↦
            rw (resolve_each, e)
              (omega (
                arith,
                same,
                accounted-resolve_each asset completed ss
                    (record c { pending_snapshots = c.pending_snapshots ++ t ∷ [] }),
                accounted-push t c,
              ))
      ]
