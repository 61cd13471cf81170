-- ===== src/Signal/Tracker.antt =====
-- src/signal/types.rs: the indicators of an asset on a timeframe. An indicator is the library's, given by
-- its operations.
use Prim.Native.String.{String}
use hyperliquid_rust_bot.Prelude.{
  ℕ, suc, ◌*◌, ◌/◌, Bool, true, false, not, Option, none, some, List, [], ◌∷◌, map, last?, ltb,
  if◌then◌else◌,
}
use hyperliquid_rust_bot.Prelude.Maps.{Eq, get, contains_key, insert, remove}
use hyperliquid_rust_bot.Prelude.Words.{wrapping_add}
use hyperliquid_rust_bot.Price.{Price}
use hyperliquid_rust_bot.TimeFrame.{TimeFrame, to_millis}
use hyperliquid_rust_bot.Broadcast.TfBuilder.{advance}

-- The trait `Indicator`, with `match_kind` for its constructors.
pub record Indicator (F I V K : Type 0) : Type 0 where
  pub match_kind : K → I
  pub update_before_close : Price F → I → I
  pub update_after_close : Price F → I → I
  pub get_last : I → Option V
  pub load_prices : List (Price F) → I → I
  pub reset_indicator : I → I

pub record Handler (I : Type 0) : Type 0 where
  pub indicator : I
  pub is_active : Bool
  pub closed : Bool

pub record Tracker (I K : Type 0) : Type 0 where
  pub indicators : List (K × Handler I)
  pub asset : String
  pub tf : TimeFrame
  pub prev_close : Option ℕ
  pub next_close : Option ℕ

abbrev pub IndexId : Type 0 → Type 0
IndexId K = String × K × TimeFrame

pub record TimedValue (V : Type 0) : Type 0 where
  pub value : V
  pub on_close : Bool
  pub ts : ℕ

pub record IndicatorData (V K : Type 0) : Type 0 where
  pub id : IndexId K
  pub value : Option V

abbrev pub or_zero : Option ℕ → ℕ
or_zero none = 0
or_zero (some t) = t

unfoldable pub new_tracker : {I K : Type 0} → String → TimeFrame → Tracker I K
new_tracker asset tf = record {
  indicators = [];
  asset = asset;
  tf = tf;
  prev_close = none;
  next_close = none;
}

module _ {F I V K : Type 0} ⦃k : Eq K⦄ (ind : Indicator F I V K) where
  new_handler : K → Handler I
  new_handler kind = record { indicator = ind.match_kind kind; is_active = true; closed = false }

  abbrev pub before_close : Price F → K × Handler I → K × Handler I
  before_close p (kind, h) =
      (kind, record h { indicator = ind.update_before_close p h.indicator; closed = false })

  abbrev pub after_close : Price F → K × Handler I → K × Handler I
  after_close p (kind, h) =
      (kind, record h { indicator = ind.update_after_close p h.indicator; closed = true })

  unfoldable pub update_indicators_before_close : Price F → Tracker I K → Tracker I K
  update_indicators_before_close p t = record t { indicators = map (before_close p) t.indicators }

  unfoldable pub update_indicators_after_close : Price F → Tracker I K → Tracker I K
  update_indicators_after_close p t = record t { indicators = map (after_close p) t.indicators }

  -- A candle past the closing time, once the loop has passed all closing times up to it; its fuel
  -- suffices, as for the builders of the candle cache.
  abbrev pub at_close : Price F → Tracker I K → Option (Option ℕ × ℕ) → Tracker I K
  unfolding update_indicators_after_close
  at_close p t none = t
  at_close p t (some (prev, next)) =
      update_indicators_after_close p (record t { prev_close = prev; next_close = some next })

  unfoldable pub digest_price : Price F → Tracker I K → Tracker I K
  unfolding update_indicators_before_close at_close
  digest_price p t = elim t.next_close [
    | none ↦ record (update_indicators_before_close p t) { next_close = some p.close_time }
    | some next ↦
        if ltb next p.close_time
        then at_close p t
            (advance (suc (suc p.close_time)) (to_millis t.tf) p.close_time t.prev_close next)
        else update_indicators_before_close p t
  ]

  unfoldable pub digest_bulk : List (Price F) → Tracker I K → Tracker I K
  unfolding digest_price
  digest_bulk [] t = t
  digest_bulk (p ∷ ps) t = digest_bulk ps (digest_price p t)

  abbrev pub loaded : List (Price F) → K × Handler I → K × Handler I
  loaded ps (kind, h) = (kind, record h { indicator = ind.load_prices ps h.indicator })

  unfoldable pub load : List (Price F) → Tracker I K → Tracker I K
  load ps t = elim (last? ps) [
    | none ↦ t
    | some last ↦
        let tf_ms = to_millis t.tf in
        let prev = last.close_time / tf_ms * tf_ms in
        record t {
          indicators = map (loaded ps) t.indicators;
          prev_close = some prev;
          next_close = some (wrapping_add prev tf_ms);
        }
  ]

  unfoldable pub add_kind : K → Tracker I K → Tracker I K
  unfolding new_handler
  add_kind kind t =
      if contains_key t.indicators kind
      then t
      else record t { indicators = insert t.indicators kind (new_handler kind) }

  unfoldable pub remove_kind : K → Tracker I K → Tracker I K
  remove_kind kind t = record t { indicators = remove t.indicators kind }

  unfoldable pub toggle_kind : K → Tracker I K → Tracker I K
  toggle_kind kind t = elim (get t.indicators kind) [
    | none ↦ t
    | some h ↦ record t {
      indicators = insert t.indicators kind (record h { is_active = not h.is_active });
    }
  ]

  -- `get_active_values` of a tracker, by its handlers.
  unfoldable pub values_of : Tracker I K → List (K × Handler I) → List (IndexId K × TimedValue V)
  values_of t [] = []
  values_of t ((kind, h) ∷ hs) =
      let rest = values_of t hs in
      elim (ind.get_last h.indicator) [
        | none ↦ rest
        | some v ↦
            (
              (t.asset, kind, t.tf),
              record { value = v; on_close = h.closed; ts = or_zero t.prev_close },
            )
            ∷ rest
      ]

  unfoldable pub data_of : Tracker I K → List (IndicatorData V K)
  data_of t =
      map (λ h. record { id = (t.asset, h.0, t.tf); value = ind.get_last h.1.indicator })
        t.indicators

  abbrev pub cleared : K × Handler I → K × Handler I
  cleared (kind, h) = (kind, record h { indicator = ind.reset_indicator h.indicator })

  unfoldable pub reset_tracker : Tracker I K → Tracker I K
  reset_tracker t = record t {
    indicators = map cleared t.indicators;
    prev_close = none;
    next_close = none;
  }
