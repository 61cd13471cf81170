-- ===== src/Margin.antt =====
-- src/margin.rs: the margin that the markets of one user share. A book stands behind a lock; a
-- synchronization releases it while the exchange is asked, so that other tasks' operations run in
-- between. They are lists of operations, given as parameters with the exchange's answers and the clock.
pub mod Versions
pub mod Limits
mod Tests
use Prim.Native.String.{String}
use hyperliquid_rust_bot.Prelude.{
  ℕ, zero, suc, ◌-◌, Bool, true, false, not, ◌&&◌, Option, none, some, List, [], ◌∷◌, ltb, ◌==◌,
  if◌then◌else◌, map, Result, ok, err,
}
use hyperliquid_rust_bot.Prelude.Words.{saturating_add}
use hyperliquid_rust_bot.Prelude.Maps.{string_eq, get, contains_key, insert, remove}
use hyperliquid_rust_bot.Float.{Float}
use hyperliquid_rust_bot.Helper.{round_ndp}

pub data MarginAllocation (F : Type 0) : Type 0 where
  alloc amount : F → MarginAllocation F

pub data MarginError (F : Type 0) : Type 0 where
  invalid_margin_amount changed_while_syncing : MarginError F
  insufficient_free_margin : F → MarginError F
  no_market : String → MarginError F
  sync_failed : String → MarginError F

-- `resets` counts the signals that `reset_sync_timer` sends.
pub record MarginBook (F : Type 0) : Type 0 where
  pub margins : List (String × F)
  pub total_on_chain : F
  pub last_sync : Option ℕ
  pub version : ℕ
  pub resets : ℕ

pub record MarginSyncRequest : Type 0 where
  pub bot_assets : List String
  pub version : ℕ

-- What happens while a synchronization waits: the exchange's answer with the total and the positions,
-- of a type of its own, and the time.
pub record Sync (F P : Type 0) : Type 0 where
  pub ask : (round : ℕ) → MarginSyncRequest → Result (MarginError F) (F × P)
  pub time : (round : ℕ) → ℕ

abbrev pub max_margin_sync_retries : ℕ
max_margin_sync_retries = 3

abbrev pub is_fresh : Option ℕ → (now max_age : ℕ) → Bool
is_fresh none now max_age = false
is_fresh (some last) now max_age = ltb (now - last) max_age

-- What another task does while it holds the lock.
pub data Operation (F : Type 0) : Type 0 where
  allocating : String → MarginAllocation F → Operation F
  removing : String → Operation F
  resetting : Operation F
  syncing : F → ℕ → Operation F
  committing : String → F → Operation F

-- The other tasks' operations, before a round of a synchronization takes the lock and while the exchange
-- is asked.
pub record Others (F : Type 0) : Type 0 where
  pub before_lock : (round : ℕ) → List (Operation F)
  pub while_asked : (round : ℕ) → List (Operation F)

module _ {F : Type 0} where
  abbrev pub reset_sync_timer : MarginBook F → MarginBook F
  reset_sync_timer b = record b { resets = suc b.resets }

  abbrev pub bump : MarginBook F → MarginBook F
  bump b = record b { version = saturating_add b.version 1 }

  -- The three statements that follow each change of the map.
  abbrev pub put : (asset : String) → F → MarginBook F → MarginBook F
  put asset margin b =
      reset_sync_timer (bump (record b { margins = insert b.margins asset margin }))

  unfoldable pub sync_request : MarginBook F → MarginSyncRequest
  sync_request b = record { bot_assets = map (λ m. m.0) b.margins; version = b.version }

  unfoldable pub apply_sync : (total : F) → (now : ℕ) → MarginBook F → MarginBook F
  apply_sync total now b =
      reset_sync_timer (record b { total_on_chain = total; last_sync = some now })

  unfoldable pub remove_asset : String → MarginBook F → MarginBook F
  remove_asset asset b =
      if contains_key b.margins asset
      then reset_sync_timer (bump (record b { margins = remove b.margins asset }))
      else b

  unfoldable pub reset : MarginBook F → MarginBook F
  reset b = reset_sync_timer (bump (record b { margins = []; last_sync = none }))

module _ {F : Type 0} ⦃f : Float F⦄ where
  unfoldable pub new : MarginBook F
  new = record { margins = []; total_on_chain = f.tiny; last_sync = none; version = 0; resets = 0 }

  abbrev pub sum_from : F → List (String × F) → F
  sum_from total [] = total
  sum_from total ((_, m) ∷ ms) = sum_from (f.add total m) ms

  unfoldable pub used : MarginBook F → F
  used b = sum_from (f.of_nat 0) b.margins

  unfoldable pub free : MarginBook F → F
  unfolding used
  free b = f.sub b.total_on_chain (used b)

  unfoldable pub is_valid_margin_value : F → Bool
  is_valid_margin_value v = f.is_finite v && f.lt (f.of_nat 0) v

  -- The checks of a request against what is free.
  abbrev pub place_margin :
      (asset : String) → (requested : F) → MarginBook F → Result (MarginError F) F × MarginBook F
  place_margin asset requested b =
      if f.lt (free b) requested
      then (err (insufficient_free_margin (round_ndp (free b) 2)), b)
      else (ok requested, put asset requested b)

  unfoldable pub allocate_from_current :
      (asset : String) → MarginAllocation F → MarginBook F → Result (MarginError F) F × MarginBook F
  unfolding is_valid_margin_value
  allocate_from_current asset (alloc ptc) b =
      if is_valid_margin_value ptc
      then place_margin asset (f.mul (free b) ptc) b
      else (err invalid_margin_amount, b)
  allocate_from_current asset (amount a) b =
      if is_valid_margin_value a then place_margin asset a b else (err invalid_margin_amount, b)

  -- The last part of `update_asset_shared`, under the lock.
  unfoldable pub commit :
      (asset : String) → (requested : F) → MarginBook F → Result (MarginError F) F × MarginBook F
  unfolding free
  commit asset requested b = elim (get b.margins asset) [
    | none ↦ (err (no_market asset), b)
    | some current ↦
        let available = f.add (free b) current in
        if f.lt available requested
        then (err (insufficient_free_margin (round_ndp available 2)), b)
        else (ok requested, put asset requested b)
  ]

  unfoldable pub run : Operation F → MarginBook F → MarginBook F
  unfolding allocate_from_current remove_asset reset apply_sync commit
  run (allocating asset a) b = (allocate_from_current asset a b).1
  run (removing asset) b = remove_asset asset b
  run resetting b = reset b
  run (syncing total now) b = apply_sync total now b
  run (committing asset requested) b = (commit asset requested b).1

  unfoldable pub run_all : List (Operation F) → MarginBook F → MarginBook F
  unfolding run
  run_all [] b = b
  run_all (o ∷ os) b = run_all os (run o b)

  -- The rounds of `sync_shared`.
  unfoldable pub sync_rounds :
      {P : Type 0}
      → (left round : ℕ) → Sync F P
      → (others : Others F) → MarginBook F
      → Result (MarginError F) P × MarginBook F
  unfolding run_all sync_request apply_sync
  sync_rounds zero round w others b = (err changed_while_syncing, b)
  sync_rounds (suc left) round w others b =
      let locked = run_all (others.before_lock round) b in
      let request = sync_request locked in
      let c = run_all (others.while_asked round) locked in
      elim (w.ask round request) [
        | err e ↦ (err e, c)
        | ok (total, positions) ↦
            let again = sync_rounds left (suc round) w others c in
            if c.version == request.version
            then (ok positions, apply_sync total (w.time round) c)
            else again
      ]

  unfoldable pub sync_shared :
      {P : Type 0}
      → Sync F P
      → (others : Others F) → MarginBook F
      → Result (MarginError F) P × MarginBook F
  unfolding sync_rounds
  sync_shared w others b = sync_rounds max_margin_sync_retries 0 w others b

  unfoldable pub sync_total_if_stale_shared :
      {P : Type 0}
      → Sync F P
      → (others : Others F) → (now max_age : ℕ) → (after : List (Operation F)) → MarginBook F
      → Result (MarginError F) F × MarginBook F
  unfolding sync_shared free
  sync_total_if_stale_shared w others now max_age after b =
      let (r, c) = sync_shared w others b in
      let d = run_all after c in
      if is_fresh b.last_sync now max_age
      then (ok (free b), b)
      else elim r [ err e ↦ (err e, c) | ok _ ↦ (ok (free d), d) ]

  -- `after` are the operations between the synchronization and the last part.
  unfoldable pub update_asset_shared :
      {P : Type 0}
      → Sync F P
      → (others : Others F) → (after : List (Operation F)) → (asset : String) → (requested : F)
      → MarginBook F
      → Result (MarginError F) F × MarginBook F
  unfolding sync_shared commit run_all
  update_asset_shared w others after asset requested b =
      let (r, c) = sync_shared w others b in
      if contains_key b.margins asset
      then elim r [ err e ↦ (err e, c) | ok _ ↦ commit asset requested (run_all after c) ]
      else (err (no_market asset), b)
