-- ===== src/Exec/Cancels/Laws.antt =====
-- What `cancel_resting_oids` does to the resting orders and to the requests made.
use hyperliquid_rust_bot.Prelude.{
  ℕ, zero, suc, ◌≡◌, refl, ◌∙◌, Bool, true, false, none, List, [], ◌∷◌, arith, ◌==◌, ==_iff,
  if◌then◌else◌, ◌||◌, ◌&&◌, not,
}
use hyperliquid_rust_bot.Prelude.Maps.{
  nat_eq, get, contains_key, remove, get-remove, contains_key-get, mem, mem-add, mem-erase,
}
use hyperliquid_rust_bot.Exec.Types.{RestingOrderLocal}
use hyperliquid_rust_bot.Exec.Env.{Env, Io, Request, cancel_request, order_request, cancel}
use hyperliquid_rust_bot.Exec.Cancels.{
  Cancels, max_retries, is_empty, cancel_one, cancel_each, retry_one, retry_each, retry,
  cancel_resting_oids,
}

module _ {F : Type 0} where
  -- The orders placed, among requests.
  abbrev pub orders_placed : List (Request F) → ℕ
  orders_placed [] = 0
  orders_placed (order_request _ ∷ log) = suc (orders_placed log)
  orders_placed (_ ∷ log) = orders_placed log

  -- The cancellations requested.
  abbrev pub cancels_sent : List (Request F) → ℕ
  cancels_sent [] = 0
  cancels_sent (cancel_request _ _ ∷ log) = suc (cancels_sent log)
  cancels_sent (_ ∷ log) = cancels_sent log

  -- Whether the exchange confirmed the cancellation of an order.
  abbrev pub confirmed : ℕ → List (Request F) → Bool
  confirmed oid [] = false
  confirmed oid (cancel_request j true ∷ log) = if j == oid then true else confirmed oid log
  confirmed oid (_ ∷ log) = confirmed oid log

-- Whether a cancellation of an order was requested, refused or not.
abbrev pub requested : {F : Type 0} → ℕ → List (Request F) → Bool
requested oid [] = false
requested oid (cancel_request j done ∷ log) = j == oid || requested oid log
requested oid (_ ∷ log) = requested oid log

mem-nil : (l : List ℕ) (oid : ℕ) → is_empty l ≡ true → mem l oid ≡ false
unfolding mem
mem-nil [] oid h = refl
mem-nil (x ∷ l) oid h = cc

module _ {F : Type 0} (env : Env F) (client : ℕ) where
  orders_placed-cancel_one :
      (oid : ℕ) (s : Cancels F)
      → orders_placed (cancel_one env client oid s).io.log ≡ orders_placed s.io.log
  unfolding cancel_one cancel
  orders_placed-cancel_one oid s = ground arith

  orders_placed-cancel_each :
      (oids : List ℕ) (s : Cancels F)
      → orders_placed (cancel_each env client oids s).io.log ≡ orders_placed s.io.log
  unfolding cancel_each
  orders_placed-cancel_each [] s = refl
  orders_placed-cancel_each (oid ∷ oids) s =
      orders_placed-cancel_each oids (cancel_one env client oid s) ∙ orders_placed-cancel_one oid s

  orders_placed-retry_each :
      (oids : List ℕ) (s : Cancels F)
      → orders_placed (retry_each env client oids s).io.log ≡ orders_placed s.io.log
  unfolding retry_each retry_one cancel
  orders_placed-retry_each [] s = refl
  orders_placed-retry_each (oid ∷ oids) s =
      orders_placed-retry_each oids (retry_one env client oid s)

  orders_placed-retry :
      (rounds : ℕ) (s : Cancels F)
      → orders_placed (retry env client rounds s).1.io.log ≡ orders_placed s.io.log
  unfolding retry
  orders_placed-retry zero s = ground (arith, orders_placed-retry_each s.failed s)
  orders_placed-retry (suc rounds) s = ground (
    arith,
    orders_placed-retry_each s.failed s,
    orders_placed-retry rounds (retry_each env client s.failed s),
  )

  pub orders_placed-cancel_resting_oids :
      (oids : List ℕ) (resting : List (ℕ × RestingOrderLocal F)) (io : Io F)
      → orders_placed (cancel_resting_oids env client oids resting io).1.io.log
        ≡ orders_placed io.log
  unfolding cancel_resting_oids
  orders_placed-cancel_resting_oids oids resting io =
      let s : Cancels F = record { resting = resting; failed = []; io = io } in
      orders_placed-retry max_retries (cancel_each env client oids s)
      ∙ orders_placed-cancel_each oids s

  resting-retry_each :
      (oids : List ℕ) (s : Cancels F) → (retry_each env client oids s).resting ≡ s.resting
  unfolding retry_each retry_one
  resting-retry_each [] s = refl
  resting-retry_each (oid ∷ oids) s = resting-retry_each oids (retry_one env client oid s)

  resting-retry : (rounds : ℕ) (s : Cancels F) → (retry env client rounds s).1.resting ≡ s.resting
  unfolding retry
  resting-retry zero s = ground (arith, resting-retry_each s.failed s)
  resting-retry (suc rounds) s = ground (
    arith,
    resting-retry_each s.failed s,
    resting-retry rounds (retry_each env client s.failed s),
  )

  get-cancel_one :
      (o : ℕ) (s : Cancels F) (oid : ℕ)
      → get (cancel_one env client o s).resting oid ≡ (if o == oid then none else get s.resting oid)
  unfolding cancel_one
  get-cancel_one o s oid =
      ground (arith, contains_key-get s.resting o, get-remove s.resting o oid, ==_iff o oid)

  get-cancel_each :
      (oids : List ℕ) (s : Cancels F) (oid : ℕ)
      → get (cancel_each env client oids s).resting oid
        ≡ (if mem oids oid then none else get s.resting oid)
  unfolding cancel_each mem
  get-cancel_each [] s oid = refl
  get-cancel_each (o ∷ oids) s oid =
      ground (arith, get-cancel_one o s oid, get-cancel_each oids (cancel_one env client o s) oid)

  -- An order is accounted for if it rests, or its cancellation failed or was confirmed.
  abbrev accounted : ℕ → Cancels F → Bool
  accounted oid s = contains_key s.resting oid || mem s.failed oid || confirmed oid s.io.log

  accounted-cancel_one :
      (o : ℕ) (s : Cancels F) (oid : ℕ)
      → accounted oid s ≡ true
      → accounted oid (cancel_one env client o s) ≡ true
  unfolding cancel_one cancel
  accounted-cancel_one o s oid h = ground (
    arith,
    contains_key-get s.resting oid,
    contains_key-get (remove s.resting o) oid,
    get-remove s.resting o oid,
    mem-add s.failed o oid,
    ==_iff o oid,
  )

  accounted-retry_one :
      (o : ℕ) (s : Cancels F) (oid : ℕ)
      → accounted oid s ≡ true
      → accounted oid (retry_one env client o s) ≡ true
  unfolding retry_one cancel
  accounted-retry_one o s oid h = ground (arith, mem-erase s.failed o oid, ==_iff o oid)

  accounted-cancel_each :
      (oids : List ℕ) (s : Cancels F) (oid : ℕ)
      → accounted oid s ≡ true
      → accounted oid (cancel_each env client oids s) ≡ true
  unfolding cancel_each
  accounted-cancel_each [] s oid h = h
  accounted-cancel_each (o ∷ oids) s oid h =
      accounted-cancel_each oids (cancel_one env client o s) oid (accounted-cancel_one o s oid h)

  accounted-retry_each :
      (oids : List ℕ) (s : Cancels F) (oid : ℕ)
      → accounted oid s ≡ true
      → accounted oid (retry_each env client oids s) ≡ true
  unfolding retry_each
  accounted-retry_each [] s oid h = h
  accounted-retry_each (o ∷ oids) s oid h =
      accounted-retry_each oids (retry_one env client o s) oid (accounted-retry_one o s oid h)

  confirmed-retry :
      (rounds : ℕ) (s : Cancels F) (oid : ℕ)
      → get s.resting oid ≡ none
      → accounted oid s ≡ true
      → (retry env client rounds s).0 ≡ true
      → confirmed oid (retry env client rounds s).1.io.log ≡ true
  unfolding retry mem
  confirmed-retry zero s oid gone h e =
      ground (arith, contains_key-get s.resting oid, mem-nil s.failed oid)
  confirmed-retry (suc rounds) s oid gone h e =
      let t = retry_each env client s.failed s in
      ground (
        arith,
        contains_key-get s.resting oid,
        mem-nil s.failed oid,
        resting-retry_each s.failed s,
        accounted-retry_each s.failed s oid h,
        confirmed-retry rounds t oid,
      )

  requested-cancel_one :
      (o : ℕ) (s : Cancels F) (oid : ℕ)
      → requested oid (cancel_one env client o s).io.log
        ≡ requested oid s.io.log || (o == oid && contains_key s.resting oid)
  unfolding cancel_one cancel
  requested-cancel_one o s oid =
      ground (arith, contains_key-get s.resting o, contains_key-get s.resting oid, ==_iff o oid)

  contains-cancel_one :
      (o : ℕ) (s : Cancels F) (oid : ℕ)
      → contains_key (cancel_one env client o s).resting oid
        ≡ not (o == oid) && contains_key s.resting oid
  contains-cancel_one o s oid = ground (
    arith,
    get-cancel_one o s oid,
    contains_key-get s.resting oid,
    contains_key-get (cancel_one env client o s).resting oid,
  )

  requested-cancel_each :
      (oids : List ℕ) (s : Cancels F) (oid : ℕ)
      → requested oid (cancel_each env client oids s).io.log
        ≡ requested oid s.io.log || (mem oids oid && contains_key s.resting oid)
  unfolding cancel_each mem
  requested-cancel_each [] s oid = ground arith
  requested-cancel_each (o ∷ oids) s oid = ground (
    arith,
    requested-cancel_each oids (cancel_one env client o s) oid,
    requested-cancel_one o s oid,
    contains-cancel_one o s oid,
  )

  -- Where the cancellation of an order failed, it was requested.
  abbrev IsAsked : ℕ → Cancels F → Type 0
  IsAsked oid s = not (mem s.failed oid) || requested oid s.io.log ≡ true

  IsAsked-cancel_one :
      (o : ℕ) (s : Cancels F) (oid : ℕ) → IsAsked oid s → IsAsked oid (cancel_one env client o s)
  unfolding cancel_one cancel
  IsAsked-cancel_one o s oid h = ground (arith, mem-add s.failed o oid)

  IsAsked-cancel_each :
      (oids : List ℕ) (s : Cancels F) (oid : ℕ)
      → IsAsked oid s
      → IsAsked oid (cancel_each env client oids s)
  unfolding cancel_each
  IsAsked-cancel_each [] s oid h = h
  IsAsked-cancel_each (o ∷ oids) s oid h =
      IsAsked-cancel_each oids (cancel_one env client o s) oid (IsAsked-cancel_one o s oid h)

  -- The orders of a retry round are among those whose cancellation failed.
  retry_each-IsAsked :
      (oids : List ℕ) (s : Cancels F) (oid : ℕ)
      → not (mem oids oid) || requested oid s.io.log ≡ true
      → IsAsked oid s
      → (requested oid (retry_each env client oids s).io.log ≡ requested oid s.io.log)
        × IsAsked oid (retry_each env client oids s)
  unfolding retry_each retry_one cancel mem
  retry_each-IsAsked [] s oid g h = (refl, h)
  retry_each-IsAsked (o ∷ oids) s oid g h =
      let t = retry_one env client o s in
      let same : requested oid t.io.log ≡ requested oid s.io.log = ground (arith, g) in
      let (e, k) =
        retry_each-IsAsked oids t oid (ground (arith, g, same))
          (ground (arith, h, same, mem-erase s.failed o oid)) in
      (e ∙ same, k)

  requested-retry :
      (rounds : ℕ) (s : Cancels F) (oid : ℕ)
      → IsAsked oid s
      → requested oid (retry env client rounds s).1.io.log ≡ requested oid s.io.log
  unfolding retry
  requested-retry zero s oid h = ground (arith, (retry_each-IsAsked s.failed s oid h h).0)
  requested-retry (suc rounds) s oid h =
      let (e, k) = retry_each-IsAsked s.failed s oid h h in
      ground (arith, e, requested-retry rounds (retry_each env client s.failed s) oid k)

  -- After `cancel_resting_oids` the executor knows none of the given orders as resting, whether the
  -- exchange confirmed their cancellation or refused it, and every other order as before; and it has
  -- requested, beside what was requested before, the cancellation of just those given orders that rested.
  pub cancel_resting_oids_lem :
      (oids : List ℕ) (resting : List (ℕ × RestingOrderLocal F)) (io : Io F) (oid : ℕ)
      → (get (cancel_resting_oids env client oids resting io).1.resting oid
          ≡ (if mem oids oid then none else get resting oid))
        × (requested oid (cancel_resting_oids env client oids resting io).1.io.log
            ≡ requested oid io.log || (mem oids oid && contains_key resting oid))
  unfolding cancel_resting_oids mem
  cancel_resting_oids_lem oids resting io oid =
      let s : Cancels F = record { resting = resting; failed = []; io = io } in
      let t = cancel_each env client oids s in
      (
        rw (resting-retry max_retries t) (get-cancel_each oids s oid),
        requested-retry max_retries t oid (IsAsked-cancel_each oids s oid refl)
            ∙ requested-cancel_each oids s oid,
      )

  -- If `cancel_resting_oids` reports success, the exchange confirmed the cancellation of each given
  -- order that rested.
  pub cancel_resting_oids-confirmed :
      (oids : List ℕ) (resting : List (ℕ × RestingOrderLocal F)) (io : Io F) (oid : ℕ)
      → mem oids oid ≡ true
      → contains_key resting oid ≡ true
      → (cancel_resting_oids env client oids resting io).0 ≡ true
      → confirmed oid (cancel_resting_oids env client oids resting io).1.io.log ≡ true
  unfolding cancel_resting_oids
  cancel_resting_oids-confirmed oids resting io oid given rested done =
      let s : Cancels F = record { resting = resting; failed = []; io = io } in
      confirmed-retry max_retries (cancel_each env client oids s) oid
        (ground (arith, get-cancel_each oids s oid))
        (accounted-cancel_each oids s oid (rw rested refl)) done
