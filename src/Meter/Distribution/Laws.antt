-- ===== src/Meter/Distribution/Laws.antt =====
-- What a timer and a distribution summary publish of the amounts of an interval.
use spectatord.Base.{
  ℕ, ◌+◌, ◌<◌, ◌^◌, ◌≡◌, refl, ap, ◌∙◌, List, [], ◌∷◌, false, arith, ltb, if◌then◌else◌, length,
}
use spectatord.Int.{ℤ, pos, negsuc, wrap64, ◌+ℤ◌}
use spectatord.Float.{Float}
use spectatord.Id.{MeterId}
use spectatord.Id.Refs
use spectatord.Meter.{Measurement}
use spectatord.Meter.Distribution.{
  dist_stats, DistributionSummary, record_summary, is_recorded, Timer, new_timer, measure_timer,
  record_timer,
}

-- The nanoseconds that a timer counts.
abbrev pub counted : List (ℕ × ℤ) → List ℕ
counted [] = []
counted ((now, pos ns) ∷ rs) = ns ∷ counted rs
counted ((now, negsuc ns) ∷ rs) = counted rs

abbrev pub sum : List ℕ → ℕ
sum [] = 0
sum (n ∷ ns) = n + sum ns

abbrev pub maximum : ℕ → List ℕ → ℕ
maximum m [] = m
maximum m (n ∷ ns) = maximum (if ltb m n then n else m) ns

wrap_small : (n : ℕ) → n < 2 ^ 63 → wrap64 (pos n) ≡ pos n
wrap_small n h = ground arith

module _ (F : Float) where
  unfoldable pub record_each : Timer F → List (ℕ × ℤ) → Timer F
  record_each t [] = t
  record_each t ((now, ns) ∷ rs) = record_each (record_timer F t now ns) rs

  add_small : (a b : ℕ) → a + b < 2 ^ 63 → wrap64 (pos a +ℤ pos b) ≡ pos (a + b)
  add_small a b h = ground arith

  -- One duration that is not negative.
  record_timer-pos :
      (t : Timer F) (now ns c s m : ℕ)
      → t.count ≡ pos c
      → t.total ≡ pos s
      → t.max ≡ pos m
      → c + 1 < 2 ^ 63
      → s + ns < 2 ^ 63
      → let t' = record_timer F t now (pos ns) in
        (t'.count ≡ pos (c + 1))
        × (t'.total ≡ pos (s + ns))
        × (t'.max ≡ pos (if ltb m ns then ns else m))
        × (t'.meter.id ≡ t.meter.id)
  unfolding record_timer
  record_timer-pos t now ns c s m hc hs hm fc fs =
      (rw hc (add_small c 1 fc), rw hs (add_small s ns fs), rw hm (ground arith), refl)

  -- The sums of a timer stand for the durations so far, as long as they fit 63 bits.
  timer_sums :
      (rs : List (ℕ × ℤ)) (t : Timer F) (c s m : ℕ)
      → t.count ≡ pos c
      → t.total ≡ pos s
      → t.max ≡ pos m
      → c + length (counted rs) < 2 ^ 63
      → s + sum (counted rs) < 2 ^ 63
      → ((record_each t rs).count ≡ pos (c + length (counted rs)))
        × ((record_each t rs).total ≡ pos (s + sum (counted rs)))
        × ((record_each t rs).max ≡ pos (maximum m (counted rs)))
        × ((record_each t rs).meter.id ≡ t.meter.id)
  unfolding record_each record_timer
  timer_sums [] t c s m hc hs hm fc fs = ground arith
  timer_sums ((now, pos ns) ∷ rs) t c s m hc hs hm fc fs =
      let (pc, ps, pm, pi) = record_timer-pos t now ns c s m hc hs hm (omega arith) (omega arith) in
      let (qc, qs, qm, qi) =
        timer_sums rs (record_timer F t now (pos ns)) (c + 1) (s + ns) (if ltb m ns then ns else m)
          pc ps pm (omega arith) (omega arith) in
      (qc ∙ ap pos (omega arith), qs ∙ ap pos (omega arith), qm, qi ∙ pi)
  timer_sums ((now, negsuc ns) ∷ rs) t c s m hc hs hm fc fs =
      timer_sums rs (record_timer F t now (negsuc ns)) c s m hc hs hm fc fs

  -- The four measurements of a timer with a given number, total and maximum, if the number is not 0.
  abbrev pub timer_report : MeterId → ℕ → ℕ → ℕ → F.Double → List (Measurement F)
  timer_report id n s m total_sq =
      let st = dist_stats id Refs.total_time in
      let seconds = λ (k : ℕ). F.div (F.of_int (pos k)) (F.of_int (pos 1_000_000_000)) in
      if ltb 0 n
      then record { id = st.count; value = F.of_int (pos n) }
        ∷ record { id = st.total; value = seconds s }
        ∷ record {
          id = st.total_sq;
          value = F.div total_sq (F.of_int (pos 1_000_000_000_000_000_000));
        }
        ∷ record { id = st.max; value = seconds m }
        ∷ []
      else []

  measure_timer-report :
      (t : Timer F) (id : MeterId) (n s m : ℕ)
      → t.count ≡ pos n
      → t.total ≡ pos s
      → t.max ≡ pos m
      → t.meter.id ≡ id
      → ((measure_timer F t).1 ≡ timer_report id n s m t.total_sq)
        × ((measure_timer F t).0.count ≡ pos 0)
  unfolding measure_timer
  measure_timer-report t id n s m hc hs hm hi = rw (hc, hs, hm, hi) (ground arith, ground arith)

  -- A new timer publishes, of the durations of an interval that are not negative, their number, their
  -- total and their maximum, with the total of squares that it has summed up; it publishes nothing if there is
  -- none. Its count is 0 again.
  pub measure-record_each :
      (id : MeterId) (born : ℕ) (rs : List (ℕ × ℤ))
      → length (counted rs) < 2 ^ 63
      → sum (counted rs) < 2 ^ 63
      → let t = record_each (new_timer F id born) rs in
        ((measure_timer F t).1
          ≡ timer_report id
              (length (counted rs))
              (sum (counted rs))
              (maximum 0 (counted rs))
              t.total_sq)
        × ((measure_timer F t).0.count ≡ pos 0)
  unfolding new_timer
  measure-record_each id born rs hl hs =
      let (qc, qs, qm, qi) =
        timer_sums rs (new_timer F id born) 0 0 0 refl refl refl (omega arith) (omega arith) in
      measure_timer-report _ id _ _ _ (qc ∙ ap pos (omega arith)) (qs ∙ ap pos (omega arith)) qm qi

  -- A summary ignores what is negative and what is NaN, but for the time of the update.
  pub record_summary_ignored :
      (s : DistributionSummary F) (now : ℕ) (amount : F.Double)
      → is_recorded F amount ≡ false
      → record_summary F s now amount
        ≡ record s { meter = record { id = s.meter.id; last_updated = now } }
  unfolding record_summary
  record_summary_ignored s now amount h = rw h refl
