-- ===== src/Meter/Distribution.antt =====
-- spectator/dist_summary.cc, timer.cc and dist_stats.h: a count, a total, a total of squares and a maximum
-- of the amounts recorded in an interval.
pub mod Laws
use spectatord.Base.{ℕ, ◌+◌, List, [], ◌∷◌, Bool, true, false, ◌==◌, if◌then◌else◌}
use spectatord.Int.{ℤ, pos, negsuc, ◌+ℤ◌, ltb_ℤ, wrap64, is_negative}
use spectatord.Float.{Float}
use spectatord.Id.{MeterId, with_stat}
use spectatord.Id.Refs
use spectatord.Meter.{Meter, Measurement, new_meter, touch, zero_double, update_max}
use spectatord.Tags.{StrRef}

-- `DistStats`: the ids of the four measurements.
pub record DistStats : Type 0 where
  pub total : MeterId
  pub total_sq : MeterId
  pub max : MeterId
  pub count : MeterId

unfoldable pub dist_stats : MeterId → StrRef → DistStats
dist_stats base total_stat = record {
  total = with_stat base total_stat;
  total_sq = with_stat base Refs.total_of_squares;
  max = with_stat base Refs.max;
  count = with_stat base Refs.count;
}

-- `count_` is of type `int64_t`.
pub record DistributionSummary (F : Float) : Type 0 where
  pub meter : Meter
  pub count : ℤ
  pub total : F.Double
  pub total_sq : F.Double
  pub max : F.Double

unfoldable pub new_summary : (F : Float) → MeterId → ℕ → DistributionSummary F
new_summary F id now = record {
  meter = new_meter id now;
  count = pos 0;
  total = zero_double F;
  total_sq = zero_double F;
  max = zero_double F;
}

abbrev pub is_zero : ℤ → Bool
is_zero (pos n) = n == 0
is_zero (negsuc n) = false

-- `Measure` as a whole: no other thread comes between its atomic exchanges.
unfoldable pub measure_summary :
    (F : Float) → DistributionSummary F → DistributionSummary F × List (Measurement F)
measure_summary F s =
    let st = dist_stats s.meter.id Refs.total_amount in
    if is_zero s.count then (record s { count = pos 0 }, []) else (
      record s {
        count = pos 0;
        total = zero_double F;
        total_sq = zero_double F;
        max = zero_double F;
      },
      record { id = st.count; value = F.of_int s.count }
          ∷ record { id = st.total; value = s.total }
          ∷ record { id = st.total_sq; value = s.total_sq }
          ∷ record { id = st.max; value = s.max }
          ∷ [],
    )

-- `amount >= 0`, which NaN is not.
abbrev pub is_recorded : (F : Float) → F.Double → Bool
is_recorded F amount = if F.lt (zero_double F) amount then true else F.eq amount (zero_double F)

-- `Record` as a whole: no other thread comes between its atomic updates.
unfoldable pub record_summary :
    (F : Float) → DistributionSummary F → ℕ → F.Double → DistributionSummary F
unfolding update_max
record_summary F s now amount =
    let s' : DistributionSummary F = record s { meter = touch s.meter now } in
    if is_recorded F amount
    then record s' {
      count = wrap64 (s.count +ℤ pos 1);
      total = F.add s.total amount;
      total_sq = F.add s.total_sq (F.mul amount amount);
      max = update_max F s.max amount;
    }
    else s'

-- Of a timer the total and the maximum are of type `int64_t` too, in nanoseconds.
pub record Timer (F : Float) : Type 0 where
  pub meter : Meter
  pub count : ℤ
  pub total : ℤ
  pub total_sq : F.Double
  pub max : ℤ

unfoldable pub new_timer : (F : Float) → MeterId → ℕ → Timer F
new_timer F id now = record {
  meter = new_meter id now;
  count = pos 0;
  total = pos 0;
  total_sq = zero_double F;
  max = pos 0;
}

-- `Measure` as a whole, as of a summary.
unfoldable pub measure_timer : (F : Float) → Timer F → Timer F × List (Measurement F)
measure_timer F t =
    let st = dist_stats t.meter.id Refs.total_time in
    let nanos : F.Double = F.of_int (pos 1_000_000_000) in
    let nanos_sq : F.Double = F.of_int (pos 1_000_000_000_000_000_000) in
    if is_zero t.count then (record t { count = pos 0 }, []) else (
      record t { count = pos 0; total = pos 0; total_sq = zero_double F; max = pos 0 },
      record { id = st.count; value = F.of_int t.count }
          ∷ record { id = st.total; value = F.div (F.of_int t.total) nanos }
          ∷ record { id = st.total_sq; value = F.div t.total_sq nanos_sq }
          ∷ record { id = st.max; value = F.div (F.of_int t.max) nanos }
          ∷ [],
    )

-- `update_max` of an `int64_t`.
abbrev pub max_ℤ : ℤ → ℤ → ℤ
max_ℤ n value = if ltb_ℤ n value then value else n

-- `Record` as a whole, as of a summary.
unfoldable pub record_timer : (F : Float) → Timer F → ℕ → ℤ → Timer F
record_timer F t now ns =
    let t' : Timer F = record t { meter = touch t.meter now } in
    if is_negative ns then t' else record t' {
      count = wrap64 (t.count +ℤ pos 1);
      total = wrap64 (t.total +ℤ ns);
      total_sq = F.add t.total_sq (F.mul (F.of_int ns) (F.of_int ns));
      max = max_ℤ t.max ns;
    }
