-- ===== src/Margin/Limits.antt =====
-- What an allocation and an update of a margin do.
use Prim.Native.String.{String}
use hyperliquid_rust_bot.Prelude.{
  not, ◌&&◌, if◌then◌else◌, ◌≡◌, refl, sym, ap, subst, ◌∙◌, Bool, true, false, Option, none, some,
  List, Result, ok, err, arith, Bool-cases, inl, inr, if◌then◌else◌,
}
use hyperliquid_rust_bot.Prelude.Maps.{string_eq, get, contains_key, get-insert}
use hyperliquid_rust_bot.Float.{Float}
use hyperliquid_rust_bot.Margin.{
  MarginAllocation, alloc, amount, MarginBook, MarginError, invalid_margin_amount, no_market, Sync,
  Others, Operation, run_all, allocate_from_current, commit, free, is_valid_margin_value,
  place_margin, sync_shared, update_asset_shared,
}

abbrev pub is_ok : {E A : Type 0} → Result E A → Bool
is_ok (ok x) = true
is_ok (err e) = false

module _ {F : Type 0} ⦃f : Float F⦄ where
  -- What is asked for: the margin, and the number that the user gave.
  abbrev pub requested : MarginAllocation F → MarginBook F → F
  requested (alloc ptc) b = f.mul (free b) ptc
  requested (amount a) b = a

  abbrev pub given : MarginAllocation F → F
  given (alloc ptc) = ptc
  given (amount a) = a

  -- The map has the margin for the asset, and for other assets what it had.
  abbrev pub IsPut : (asset : String) → F → (before after : MarginBook F) → Type 0
  IsPut asset m b c =
      (j : String) → get c.margins j ≡ (if string_eq.beq asset j then some m else get b.margins j)

  -- The outcome of a request for `m` when `available` is available.
  abbrev pub IsPlaced :
      (asset : String)
      → (m available : F) → MarginBook F
      → Result (MarginError F) F × MarginBook F
      → Type 0
  IsPlaced asset m available b (ok given, c) =
      (given ≡ m) × (f.lt available m ≡ false) × IsPut asset m b c
  IsPlaced asset m available b (err e, c) = c ≡ b

  place_margin-IsPlaced :
      (asset : String) (m : F) (b : MarginBook F)
      → IsPlaced asset m (free b) b (place_margin asset m b)
  place_margin-IsPlaced asset m b = elim (Bool-cases (f.lt (free b) m)) [
    | inl e ↦ rw (e) refl
    | inr e ↦ rw (e) (refl, e, λ j. get-insert b.margins asset j m)
  ]

  -- What a request for `m`, by the number `v`, comes to.
  abbrev pub IsAllocated :
      (asset : String) → (v m : F) → MarginBook F → Result (MarginError F) F × MarginBook F → Type 0
  IsAllocated asset v m b r =
      IsPlaced asset m (free b) b r × (is_ok r.0 ≡ is_valid_margin_value v && not (f.lt (free b) m))

  checked_margin :
      (asset : String) (v m : F) (b : MarginBook F)
      → IsAllocated asset v m b (
          if is_valid_margin_value v
          then place_margin asset m b
          else (err invalid_margin_amount, b))
  checked_margin asset v m b = elim (Bool-cases (is_valid_margin_value v)) [
    | inl e ↦ rw (e) (place_margin-IsPlaced asset m b, ground arith)
    | inr e ↦ rw (e) (refl, refl)
  ]

  -- `allocate_from_current` stores a margin just when the number given is finite and positive and what is
  -- free is not below the margin asked for. It then stores the part of what is free, or the amount, that
  -- was asked for, and no other asset's margin changes. On an error the book stays as it was.
  pub allocate_from_current_lem :
      (asset : String) (a : MarginAllocation F) (b : MarginBook F)
      → IsAllocated asset (given a) (requested a b) b (allocate_from_current asset a b)
  unfolding allocate_from_current
  allocate_from_current_lem asset (alloc ptc) b = checked_margin asset ptc (f.mul (free b) ptc) b
  allocate_from_current_lem asset (amount a) b = checked_margin asset a a b

  -- The last part of an update finds the asset, or it is an error.
  abbrev pub IsCommitted :
      (asset : String) → F → MarginBook F → Result (MarginError F) F × MarginBook F → Type 0
  IsCommitted asset m b (ok given, c) =
      (given ≡ m)
      × (current : F) × (get b.margins asset ≡ some current)
      × (f.lt (f.add (free b) current) m ≡ false)
      × IsPut asset m b c
  IsCommitted asset m b (err e, c) = c ≡ b

  commit-IsCommitted :
      (asset : String) (m : F) (b : MarginBook F) → IsCommitted asset m b (commit asset m b)
  unfolding commit
  commit-IsCommitted asset m b = by_asset (get b.margins asset) refl
    where
      by_asset : (x : Option F) → get b.margins asset ≡ x → IsCommitted asset m b (commit asset m b)
      by_asset none q = rw (q, commit) refl
      by_asset (some current) q = elim (Bool-cases (f.lt (f.add (free b) current) m)) [
        | inl e ↦ rw (q, commit, e) refl
        | inr e ↦ rw (q, commit, e) (refl, current, q, e, λ j. get-insert b.margins asset j m)
      ]

  -- If `update_asset_shared` stores a margin, the book had the asset and the synchronization went well;
  -- and in the book that the last part found, the asset had a margin still, what was free together with
  -- it is not below the margin stored, and no other asset's margin changes.
  pub update_asset_shared_lem :
      {P : Type 0} (w : Sync F P) (others : Others F) (after : List (Operation F)) (asset : String)
      (m stored : F) (b : MarginBook F)
      → (update_asset_shared w others after asset m b).0 ≡ ok stored
      → (contains_key b.margins asset ≡ true)
        × (is_ok (sync_shared w others b).0 ≡ true)
        × IsCommitted asset m
            (run_all after (sync_shared w others b).1)
            (update_asset_shared w others after asset m b)
  unfolding update_asset_shared
  update_asset_shared_lem {P} w others after asset m stored b q =
      elim (Bool-cases (contains_key b.margins asset)) [
        | inl e ↦ by_sync e (sync_shared w others b).0 refl
        | inr e ↦
            let r : update_asset_shared w others after asset m b ≡ (err (no_market asset), b) =
              rw (e, update_asset_shared) refl in
            elim (not_stored (no_market asset) (ap (λ x. x.0) r)) [ ]
      ]
    where
      not_stored :
          (x : MarginError F) → (update_asset_shared w others after asset m b).0 ≡ err x → ⊥
      not_stored x r =
          let both : ◌≡◌ {A = Result (MarginError F) F} (err x) (ok stored) = sym r ∙ q in
          ground (arith, both)

      d : MarginBook F
      d = run_all after (sync_shared w others b).1

      by_sync :
          contains_key b.margins asset ≡ true
          → (r : Result (MarginError F) P) → (sync_shared w others b).0 ≡ r
          → (contains_key b.margins asset ≡ true)
            × (is_ok (sync_shared w others b).0 ≡ true)
            × IsCommitted asset m
                (run_all after (sync_shared w others b).1)
                (update_asset_shared w others after asset m b)
      by_sync e (ok p) z =
          let r : update_asset_shared w others after asset m b ≡ commit asset m d =
            rw (e, update_asset_shared, z) refl in
          (
            e,
            rw (z) refl,
            subst (λ x. IsCommitted asset m d x) (sym r) (commit-IsCommitted asset m d),
          )
      by_sync e (err x) z =
          let r : update_asset_shared w others after asset m b
              ≡ (err x, (sync_shared w others b).1) =
            rw (e, update_asset_shared, z) refl in
          elim (not_stored x (ap (λ y. y.0) r)) [ ]
