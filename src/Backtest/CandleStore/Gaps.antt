-- ===== src/Backtest/CandleStore/Gaps.antt =====
-- The invariant of the loop in `find_missing`, and its end.
use hyperliquid_rust_bot.Prelude.{
  ℕ, zero, suc, ◌+◌, ◌-◌, ◌*◌, ◌≤◌, ◌<◌, ◌≡◌, refl, ◌⊎◌, inl, inr, false, not, ◌||◌, Option, none,
  some, List, [], ◌∷◌, All, All-append, All-map, arith, ltb, Bool-cases, ltb→lt,
}
use hyperliquid_rust_bot.Prelude.Words.{u64_max, saturating_add}
use hyperliquid_rust_bot.Prelude.Maps.{nat_eq, mem}
use hyperliquid_rust_bot.Backtest.CandleStore.Cover.{
  covers, in_gap, StartsBefore, covers-ended, seen_hit, seen_miss, grid_step,
}
use hyperliquid_rust_bot.Backtest.CandleStore.{
  MissingSegment, Scan, end_gap, or_start, first_scan, scan_round, scan,
}

module _ (cached : List ℕ) (start interval end : ℕ) where
  -- The k-th expected timestamp.
  abbrev pub grid : ℕ → ℕ
  grid k = start + k * interval

  -- A segment of the range that begins at an expected timestamp which is not cached.
  pub record IsGap (m : MissingSegment) : Type 0 where
    pub begins : (k : ℕ) × (m.start ≡ grid k)
    pub absent : mem cached m.start ≡ false
    pub nonempty : m.start < m.end
    pub inside : m.end ≤ end

  abbrev pub IsGapBefore : ℕ → MissingSegment → Type 0
  IsGapBefore t m = IsGap m × (m.end ≤ t)

  abbrev pub IsStart : ℕ → Option ℕ → Type 0
  IsStart ts none = Unit
  IsStart ts (some g) = ((k : ℕ) × (g ≡ grid k)) × (mem cached g ≡ false) × (g < ts) × (g < end)

  pub record Inv (s : Scan) : Type 0 where
    pub at : s.ts < end → (k : ℕ) × (s.ts ≡ grid k)
    pub seen :
        (k : ℕ)
        → grid k < s.ts
        → grid k < end
        → covers s.missing (grid k) || in_gap s.gap_start (grid k) ≡ not (mem cached (grid k))
    pub ended : All (IsGapBefore s.ts) s.missing
    pub gap : IsStart s.ts s.gap_start

  pub first_scan-Inv : Inv (first_scan start)
  first_scan-Inv = record {
    at = λ h. (0, omega arith);
    seen = λ k h g. absurd (omega arith);
    ended = tt;
    gap = tt;
  }

  ended_by : (ms : List MissingSegment) (t : ℕ) → All (IsGapBefore t) ms → All (λ m. m.end ≤ t) ms
  ended_by ms t = All-map (IsGapBefore t) (λ m. m.end ≤ t) ms (λ m h. h.1)

  later :
      (ms : List MissingSegment) {t u : ℕ} → t ≤ u → All (IsGapBefore t) ms → All (IsGapBefore u) ms
  later ms {t} {u} h = All-map (IsGapBefore t) (IsGapBefore u) ms (λ m g. (g.0, omega arith))

  module _ (positive : 0 < interval) (bounded : end ≤ u64_max) where
    ts-scan_round : (s : Scan) → (scan_round cached interval s).ts ≡ saturating_add s.ts interval
    unfolding scan_round
    ts-scan_round s = ground arith

    pub starts_before : (ts : ℕ) (gap : Option ℕ) → IsStart ts gap → StartsBefore gap ts
    starts_before ts none g = tt
    starts_before ts (some g) w = w.2

    -- An expected timestamp below the next one is below the present one, or is it.
    grid_split :
        (s : Scan)
        → Inv s
        → s.ts < end
        → (k : ℕ) → grid k < (scan_round cached interval s).ts
        → (grid k < s.ts) ⊎ (grid k ≡ s.ts)
    grid_split s v h k lt =
        let (j, at) = v.at h in
        let below : grid k < grid j + interval = omega (arith, ts-scan_round s) in
        elim (grid_step start interval j k positive below) [
          | inl q ↦ inl (omega arith)
          | inr q ↦ inr (rw (q, at) refl)
        ]

    seen-scan_round :
        (s : Scan)
        → Inv s
        → s.ts < end
        → (k : ℕ) → grid k < (scan_round cached interval s).ts
        → grid k < end
        → let t = scan_round cached interval s in
          covers t.missing (grid k) || in_gap t.gap_start (grid k) ≡ not (mem cached (grid k))
    unfolding scan_round
    seen-scan_round s v h k lt le =
        let w = starts_before s.ts s.gap_start v.gap in
        elim (Bool-cases (mem cached s.ts)) [
          | inl hit ↦
              rw (hit, scan_round)
                (seen_hit s.missing s.gap_start s.ts (grid k) _
                  (covers-ended s.missing s.ts (ended_by s.missing s.ts v.ended)) w
                  (elim (grid_split s v h k lt) [
                    | inl q ↦ inl (q, v.seen k q le)
                    | inr q ↦ inr (q, rw (q, hit) refl)
                  ]))
          | inr miss ↦
              rw (miss, scan_round)
                (seen_miss s.missing s.gap_start s.ts (grid k) _ w (elim (grid_split s v h k lt) [
                  | inl q ↦ inl (q, v.seen k q le)
                  | inr q ↦ inr (q, rw (q, miss) refl)
                ]))
        ]

    pub ended-end_gap :
        (ms : List MissingSegment) (gap : Option ℕ) (ts : ℕ)
        → ts ≤ end
        → IsStart ts gap
        → All (IsGapBefore ts) ms
        → All (IsGapBefore ts) (end_gap ms gap ts)
    ended-end_gap ms none ts h w a = a
    ended-end_gap ms (some g) ts h w a =
        All-append (IsGapBefore ts) ms (record { start = g; end = ts } ∷ []) a
          ((record { begins = w.0; absent = w.1; nonempty = w.2; inside = h }, omega arith), tt)

    IsStart-or_start :
        (gap : Option ℕ) (ts next : ℕ)
        → ts < next
        → ts < end
        → (k : ℕ) × (ts ≡ grid k)
        → mem cached ts ≡ false
        → IsStart ts gap
        → IsStart next (or_start gap ts)
    IsStart-or_start none ts next h le at absent w = (at, absent, h, le)
    IsStart-or_start (some g) ts next h le at absent w = (w.0, w.1, omega arith, w.3)

    -- The next timestamp is later than the present one.
    lt-scan_round : (s : Scan) → s.ts < end → s.ts < saturating_add s.ts interval
    lt-scan_round s h = omega arith

    gap-scan_round :
        (s : Scan)
        → s.ts < end
        → Inv s
        → let t = scan_round cached interval s in
          All (IsGapBefore t.ts) t.missing × IsStart t.ts t.gap_start
    unfolding scan_round
    gap-scan_round s h v =
        let next = saturating_add s.ts interval in
        let le : s.ts ≤ next = omega (arith, lt-scan_round s h) in
        elim (Bool-cases (mem cached s.ts)) [
          | inl hit ↦
              let ms = end_gap s.missing s.gap_start s.ts in
              let e = ended-end_gap s.missing s.gap_start s.ts (omega arith) v.gap v.ended in
              rw (hit, scan_round) (later ms {t = s.ts} {u = next} le e, tt)
          | inr miss ↦
              rw (miss, scan_round)
                (
                  later s.missing {t = s.ts} {u = next} le v.ended,
                  IsStart-or_start s.gap_start s.ts next (lt-scan_round s h) h (v.at h) miss v.gap,
                )
        ]

    scan_round-Inv : (s : Scan) → s.ts < end → Inv s → Inv (scan_round cached interval s)
    scan_round-Inv s h v =
        let rest = gap-scan_round s h v in
        record {
          at = λ lt. let (j, e) = v.at h in (suc j, omega (arith, ts-scan_round s));
          seen = seen-scan_round s v h;
          ended = rest.0;
          gap = rest.1;
        }

    -- What the loop ends in.
    pub record Done (r : Option Scan) : Type 0 where
      pub final : Scan
      pub returned : r ≡ some final
      pub inv : Inv final
      pub over : end ≤ final.ts

    pub scan-Done :
        (fuel : ℕ) (s : Scan) → end - s.ts < fuel → Inv s → Done (scan fuel cached interval end s)
    unfolding scan
    scan-Done zero s m v = absurd (omega arith)
    scan-Done (suc fuel) s m v = elim (Bool-cases (ltb s.ts end)) [
      | inl go ↦
          let h = ltb→lt s.ts end go in
          rw (go) (
            scan-Done fuel (scan_round cached interval s)
              (omega (arith, ts-scan_round s, lt-scan_round s h)) (scan_round-Inv s h v))
      | inr stop ↦ rw (stop) (record { final = s; returned = refl; inv = v; over = ground arith })
    ]
