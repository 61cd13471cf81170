-- ===== src/Backtest/Fetcher/Store.antt =====
-- A fetch returns, and the candle file stays in order and keeps its candles.
use hyperliquid_rust_bot.Prelude.{
  ℕ, ◌≡◌, ◌≢◌, refl, ◌∙◌, true, some, List, [], ◌∷◌, min, max, ◌&&◌, ◌==◌, Bool-cases, inl, inr,
  Result, ok, err, arith, ltb, length,
}
use hyperliquid_rust_bot.Prelude.Maps.{nat_eq, mem}
use hyperliquid_rust_bot.Float.{Float}
use hyperliquid_rust_bot.Price.{Price, times}
use hyperliquid_rust_bot.TimeFrame.{TimeFrame, to_millis}
use hyperliquid_rust_bot.Backtest.CandleStore.{
  Written, written, kept, lost, MissingSegment, range_to_vec, insert_many, lookup_of, no_gaps,
}
use hyperliquid_rust_bot.Backtest.CandleStore.Insert.{
  IsIncreasing, candle_at, IsIncreasing-insert_many, candle_at-insert_many, IsDistinct-IsIncreasing,
}
use hyperliquid_rust_bot.Backtest.Source.{DataSource, FetchError}
use hyperliquid_rust_bot.Backtest.Ranges.{estimate_points_in_range}
use hyperliquid_rust_bot.Backtest.Pages.{Outcome}
use hyperliquid_rust_bot.Backtest.Pages.Turns.{IsDated}
use hyperliquid_rust_bot.Backtest.Fetcher.{
  Segment, Session, World, on_progress, report_segment, fetch_segment, store_segment,
  reported_segment, fetch_missing, finished, fetch_looked_up,
}
use hyperliquid_rust_bot.Backtest.Fetcher.Segments.{IsOrdered, fetch_segment_lem}

module _ {F : Type 0} where
  -- Every candle of the first file is in the second, at its time.
  abbrev pub Keeps : List (Price F) → List (Price F) → Type 0
  Keeps old new = (t : ℕ) (p : Price F) → candle_at t old ≡ some p → candle_at t new ≡ some p

  -- The file is in order, and has the candles that it had.
  abbrev pub IsSound : (before after : Session F) → Type 0
  IsSound s t = IsIncreasing t.file × Keeps s.file t.file

  -- The answers are dated, and no write loses the file.
  abbrev pub IsSafe : World F → Type 0
  IsSafe w = IsDated w.exchanges × ((n : ℕ) → w.write_outcome n ≢ lost)

  candle_at-mem :
      (ps : List (Price F)) (t : ℕ) (p : Price F)
      → candle_at t ps ≡ some p
      → mem (times ps) t ≡ true
  unfolding mem
  candle_at-mem [] t p h = ground arith
  candle_at-mem (q ∷ ps) t p h = elim (Bool-cases (q.open_time == t)) [
    | inl e ↦ rw (e) refl
    | inr e ↦ rw (e) (candle_at-mem ps t p (ground (arith, e, h)))
  ]

  kept_file : (file page : List (Price F)) → insert_many kept file page ≡ file
  unfolding insert_many
  kept_file file [] = refl
  kept_file file (p ∷ ps) = refl

  insert_many_sound :
      (outcome : Written F) (file page : List (Price F))
      → outcome ≢ lost
      → IsIncreasing file
      → IsIncreasing page
      → IsIncreasing (insert_many outcome file page) × Keeps file (insert_many outcome file page)
  insert_many_sound (written first) file page ne v x = (
    IsIncreasing-insert_many first file page v (IsDistinct-IsIncreasing page x),
    λ t p h.
        candle_at-insert_many first file page t v (IsDistinct-IsIncreasing page x)
        ∙ rw (candle_at-mem file t p h) h,
  )
  insert_many_sound kept file page ne v x = rw (kept_file file page) (v, λ t p h. h)
  insert_many_sound lost file page ne v x = elim (ne refl) [ ]

  file-report_segment :
      (base segment_total total : ℕ) (ls : List ℕ) (s : Session F)
      → (report_segment base segment_total total ls s).file ≡ s.file
  unfolding report_segment
  file-report_segment base segment_total total [] s = refl
  file-report_segment base segment_total total (l ∷ ls) s =
      file-report_segment base segment_total total ls _

module _ {F : Type 0} ⦃f : Float F⦄ where
  file-store_segment :
      (w : World F) (start end total : ℕ) (page : List (Price F)) (s : Session F)
      → (store_segment w start end total page s).file
        ≡ insert_many (w.write_outcome s.writes) s.file page
  unfolding store_segment
  file-store_segment w start end total page s = refl

  -- One segment of the loop, stored.
  stored :
      (w : World F) (start end total segment_total : ℕ) (page : List (Price F)) (g : Segment F)
      (s : Session F)
      → IsSafe w
      → IsIncreasing s.file
      → IsIncreasing page
      → IsSound s (store_segment w start end total page (reported_segment segment_total total g s))
  stored w start end total segment_total page g s (_, safe) v x =
      let t = reported_segment segment_total total g s in
      let same : t.file ≡ s.file =
        file-report_segment s.loaded segment_total total g.reported (record s { tick = g.tick }) in
      rw (file-store_segment w start end total page t, same)
        (insert_many_sound (w.write_outcome t.writes) s.file page (safe t.writes) v x)

  fetch_missing_lem :
      (w : World F) (source : DataSource) (tf : TimeFrame) (start end total : ℕ)
      (ms : List MissingSegment) (s : Session F)
      → IsSafe w
      → IsIncreasing s.file
      → (r : Outcome × Session F) × (fetch_missing w source tf start end total ms s ≡ some r)
        × IsSound s r.1
  unfolding fetch_missing
  fetch_missing_lem w source tf start end total [] s safe v = ((ok tt, s), refl, (v, λ t p h. h))
  fetch_missing_lem w source tf start end total (m ∷ ms) s safe v =
      let (g, q, x) = fetch_segment_lem w.exchanges source tf s.tick m.start m.end safe.0 in
      by_result (λ t. fetch_missing_lem w source tf start end total ms t safe) g q g.result refl x
    where
      points : ℕ
      points = estimate_points_in_range m.start m.end (to_millis tf)

      by_result :
          ((t : Session F)
            → IsIncreasing t.file
            → (r : Outcome × Session F) × (fetch_missing w source tf start end total ms t ≡ some r)
              × IsSound t r.1)
          → (g : Segment F) → fetch_segment w.exchanges source tf s.tick m.start m.end ≡ some g
          → (x : Result FetchError (List (Price F))) → g.result ≡ x
          → IsOrdered x
          → (r : Outcome × Session F) × (fetch_missing w source tf start end total (m ∷ ms) s
              ≡ some r)
            × IsSound s r.1
      by_result rest g q (err e) y _ =
          let t = reported_segment points total g s in
          (
            (err e, t),
            rw (q, fetch_missing, y) refl,
            rw (file-report_segment s.loaded points total g.reported (record s { tick = g.tick }))
                (v, λ t p h. h),
          )
      by_result rest g q (ok page) y x =
          let t = store_segment w start end total page (reported_segment points total g s) in
          let e : fetch_missing w source tf start end total (m ∷ ms) s
              ≡ fetch_missing w source tf start end total ms t =
            rw (q, fetch_missing, y) refl in
          let (up, keeps) = stored w start end total points page g s safe v x in
          let (r, c, (up', keeps')) = rest t up in
          (r, e ∙ c, (up', λ u p h. keeps' u p (keeps u p h)))

  -- The result of a fetch: the file is sound, and candles that are returned are those of the file in the
  -- range.
  abbrev pub IsFetched :
      (range : ℕ × ℕ) → Session F → Result FetchError (List (Price F)) × Session F → Type 0
  IsFetched range s (ok out, t) = (out ≡ range_to_vec t.file range.0 range.1) × IsSound s t
  IsFetched range s (err e, t) = IsSound s t

  finished-IsFetched :
      (start end total : ℕ) (s : Session F) (r : Outcome × Session F)
      → IsSound s r.1
      → IsFetched (start, end) s (finished start end total r)
  finished-IsFetched start end total s (ok _, t) h = (refl, h)
  finished-IsFetched start end total s (err e, t) h = h

  pub fetch_looked_up_lem :
      (w : World F) (source : DataSource) (tf : TimeFrame) (start end total : ℕ)
      (missing : List MissingSegment) (count : ℕ) (s : Session F)
      → IsSafe w
      → IsIncreasing s.file
      → (r : Result FetchError (List (Price F)) × Session F) × (fetch_looked_up w source tf start
            end total
            (lookup_of s.file start end missing count)
            s
          ≡ some r)
        × IsFetched (start, end) s r
  unfolding fetch_looked_up
  fetch_looked_up_lem w source tf start end total missing count s safe v =
      elim (Bool-cases (no_gaps missing && ltb 0 count)) [
        | inl hit ↦
            let out = range_to_vec s.file start end in
            (
              (
                ok out,
                on_progress (length out) (max total (length out)) (on_progress count total s),
              ),
              rw (hit, fetch_looked_up) refl,
              (refl, (v, λ t p h. h)),
            )
        | inr miss ↦
            let s1 : Session F = record (on_progress count total s) { loaded = min count total } in
            let (r, q, h) = fetch_missing_lem w source tf start end total missing s1 safe v in
            (
              finished start end total r,
              rw (miss, fetch_looked_up, q) refl,
              finished-IsFetched start end total s r h,
            )
      ]
