-- ===== src/Broadcast/Commands/Landing.antt =====
-- The ends of fetches, and the whole loop: no request waits for a timeframe that is not being fetched.
use Prim.Native.String.{String}
use hyperliquid_rust_bot.Prelude.{
  ◌≡◌, refl, sym, ap, subst, ◌∙◌, true, false, Option, none, some, List, [], ◌∷◌, ◌++◌, All,
  All-append, if◌then◌else◌, arith, Bool-cases, inl, inr,
}
use hyperliquid_rust_bot.Prelude.Maps.{string_eq, get, erase, get-insert, get-remove}
use hyperliquid_rust_bot.TimeFrame.{TimeFrame, tf_eq}
use hyperliquid_rust_bot.Broadcast.CandleCache.{
  PendingSnapshot, CandleCache, or_empty, is_empty, erase_all, fill_cached_snapshot, send_reply,
}
use hyperliquid_rust_bot.Broadcast.Commands.{
  completed_snapshot, resolve_each, resolve_pending_snapshots, land,
}
use hyperliquid_rust_bot.Broadcast.Commands.Waits.{
  inflight_of, AllIn, IsAwaited, Waits, remove_all-AllIn, fill_cached_snapshot-AllIn,
}

erase_all_nil : (completed : List TimeFrame) → erase_all [] completed ≡ []
unfolding erase_all erase
erase_all_nil [] = refl
erase_all_nil (t ∷ ts) = erase_all_nil ts

none_of : (s : List TimeFrame) → is_empty s ≡ true → [] ≡ s
none_of [] e = refl
none_of (t ∷ s) e = ground (arith, e)

-- The timeframes in flight for `a`, once those for `asset` are `found`.
landed :
    (m n : List (String × List TimeFrame)) (asset a : String) (s left : List TimeFrame)
    (found : Option (List TimeFrame))
    → get n a ≡ (if string_eq.beq asset a then found else get m a)
    → or_empty found ≡ left
    → inflight_of n a ≡ (if string_eq.beq asset a then left else inflight_of m a)
landed m n asset a s left found g e = elim (Bool-cases (string_eq.beq asset a)) [
  | inl b ↦ rw (g, b) e
  | inr b ↦ rw (g, b) refl
]

-- What is in flight for an asset, once the completed timeframes have landed.
abbrev Landed :
    (asset : String) → List TimeFrame → (before after : List (String × List TimeFrame)) → Type 0
Landed asset completed m n =
    (a : String)
    → inflight_of n a
      ≡ (if string_eq.beq asset a then erase_all (inflight_of m a) completed else inflight_of m a)

module _ {F : Type 0} where
  land-inflight :
      (asset : String) (completed : List TimeFrame) (c : CandleCache F) (a : String)
      → inflight_of (land asset completed c).inflight a ≡ (
          if string_eq.beq asset a
          then erase_all (inflight_of c.inflight a) completed
          else inflight_of c.inflight a)
  unfolding land
  land-inflight asset completed c a = by_get (get c.inflight asset) refl
    where
      erased :
          (s : List TimeFrame)
          → get c.inflight asset ≡ some s
          → (if string_eq.beq asset a then erase_all s completed else inflight_of c.inflight a) ≡ (
              if string_eq.beq asset a
              then erase_all (inflight_of c.inflight a) completed
              else inflight_of c.inflight a)
      erased s q = elim (Bool-cases (string_eq.beq asset a)) [
        | inl n ↦
            let same : asset ≡ a = ground (arith, string_eq.beq_iff asset a, n) in
            rw (n) (
              ap (λ l. erase_all l completed)
                (sym (ap (inflight_of c.inflight) (sym same) ∙ ap or_empty q)))
        | inr n ↦ rw (n) refl
      ]

      by_get :
          (x : Option (List TimeFrame))
          → get c.inflight asset ≡ x
          → inflight_of (land asset completed c).inflight a ≡ (
              if string_eq.beq asset a
              then erase_all (inflight_of c.inflight a) completed
              else inflight_of c.inflight a)
      by_get none q = elim (Bool-cases (string_eq.beq asset a)) [
        | inl n ↦
            let same : asset ≡ a = ground (arith, string_eq.beq_iff asset a, n) in
            let none_there : inflight_of c.inflight a ≡ [] =
              ap (inflight_of c.inflight) (sym same) ∙ ap or_empty q in
            rw (land, q, n, none_there) (sym (erase_all_nil completed))
        | inr n ↦ rw (land, q, n) refl
      ]
      by_get (some s) q = elim (Bool-cases (is_empty (erase_all s completed))) [
        | inl e ↦
            rw (land, q, e)
              (landed c.inflight _ asset a s _ none (get-remove c.inflight asset a)
                  (none_of (erase_all s completed) e)
                ∙ erased s q)
        | inr e ↦
            rw (land, q, e)
              (landed c.inflight _ asset a s _ (some (erase_all s completed))
                  (get-insert c.inflight asset a (erase_all s completed)) refl
                ∙ erased s q)
      ]

  -- A waiting request after its timeframes landed: what it still waits for is in flight.
  completed-AllIn :
      (asset : String) (completed : List TimeFrame) (c : CandleCache F) (s : PendingSnapshot F)
      (m : List (String × List TimeFrame))
      → Landed asset completed m c.inflight
      → AllIn (inflight_of m s.asset) s.request
      → let t = completed_snapshot asset completed c s in
        AllIn (inflight_of c.inflight t.asset) t.request
  unfolding completed_snapshot
  completed-AllIn asset completed c s m l a = elim (Bool-cases (string_eq.beq s.asset asset)) [
    | inl e ↦
        let (b, same) = fill_cached_snapshot-AllIn c s (inflight_of m s.asset) a in
        let own : string_eq.beq asset s.asset ≡ true =
          ground (arith, string_eq.beq_iff s.asset asset, string_eq.beq_iff asset s.asset, e) in
        let left : inflight_of c.inflight s.asset ≡ erase_all (inflight_of m s.asset) completed =
          l s.asset
          ∙ ap
              (λ x.
                if x then erase_all (inflight_of m s.asset) completed else inflight_of m s.asset)
              own in
        rw (e, same, left)
          (remove_all-AllIn (inflight_of m s.asset) completed (fill_cached_snapshot c s).request b)
    | inr e ↦
        let other : string_eq.beq asset s.asset ≡ false =
          ground (arith, string_eq.beq_iff s.asset asset, string_eq.beq_iff asset s.asset, e) in
        let left : inflight_of c.inflight s.asset ≡ inflight_of m s.asset =
          l s.asset
          ∙ ap
              (λ x.
                if x then erase_all (inflight_of m s.asset) completed else inflight_of m s.asset)
              other in
        rw (e, left) a
  ]

  resolve_each-Waits :
      (asset : String) (completed : List TimeFrame) (ss : List (PendingSnapshot F))
      (c : CandleCache F) (m : List (String × List TimeFrame))
      → Landed asset completed m c.inflight
      → All (IsAwaited m) ss
      → Waits c
      → Waits (resolve_each asset completed ss c)
  unfolding resolve_each
  resolve_each-Waits asset completed [] c m l _ w = w
  resolve_each-Waits asset completed (s ∷ ss) c m l ((_, h), a) w =
      let t = completed_snapshot asset completed c s in
      elim (Bool-cases (is_empty t.request)) [
        | inl e ↦
            rw (resolve_each, e)
              (resolve_each-Waits asset completed ss (send_reply t.reply (some t.cached) c) m l a w)
        | inr e ↦
            rw (resolve_each, e)
              (resolve_each-Waits asset completed ss
                (record c { pending_snapshots = c.pending_snapshots ++ t ∷ [] }) m l a
                (All-append (IsAwaited c.inflight) c.pending_snapshots (t ∷ []) w
                  ((e, completed-AllIn asset completed c s m l h), tt)))
      ]

  pending-land :
      (asset : String) (completed : List TimeFrame) (c : CandleCache F)
      → (land asset completed c).pending_snapshots ≡ c.pending_snapshots
  unfolding land
  pending-land asset completed c = by_get (get c.inflight asset) refl
    where
      by_get :
          (x : Option (List TimeFrame))
          → get c.inflight asset ≡ x
          → (land asset completed c).pending_snapshots ≡ c.pending_snapshots
      by_get none q = rw (land, q) refl
      by_get (some s) q = rw (land, q) refl

  pub resolve-Waits :
      (asset : String) (completed : List TimeFrame) (c : CandleCache F)
      → Waits c
      → Waits (resolve_pending_snapshots asset completed (land asset completed c))
  unfolding resolve_pending_snapshots
  resolve-Waits asset completed c w =
      resolve_each-Waits asset completed (land asset completed c).pending_snapshots
        (record (land asset completed c) { pending_snapshots = [] }) c.inflight
        (land-inflight asset completed c)
        (subst (All (IsAwaited c.inflight)) (sym (pending-land asset completed c)) w) tt
