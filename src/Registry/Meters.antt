-- ===== src/Registry/Meters.antt =====
-- `all_meters` of spectator/registry.h: one map for each type, and what goes through all of them.
use spectatord.Base.{ℕ, ◌+◌, ◌-◌, List, ◌++◌, Bool, false, ltb}
use spectatord.Float.{Float}
use spectatord.Meter.{Meter, Measurement}
use spectatord.Meter.Counter.{Counter}
use spectatord.Meter.Counter
use spectatord.Meter.Gauge.{
  Gauge, has_expired, measure_gauge, MaxGauge, measure_max_gauge, AgeGauge, measure_age_gauge,
}
use spectatord.Meter.Monotonic.{
  MonotonicCounter, measure_monotonic, MonotonicCounterUint, measure_monotonic_uint,
  MonotonicSampled, measure_sampled,
}
use spectatord.Meter.Distribution.{DistributionSummary, measure_summary, Timer, measure_timer}
use spectatord.MeterMap.{MeterOps, MeterMap, size, measure_map, remove_expired}

-- `is_meter_expired` of the general case. Where the clock has gone back the age is negative.
unfoldable pub is_meter_expired : ℕ → Meter → ℕ → Bool
is_meter_expired now m meter_ttl = ltb meter_ttl (now - m.last_updated)

module _ (F : Float) where
  -- Age gauges do not expire, and a gauge goes by its own TTL.
  abbrev pub age_gauge_ops : MeterOps F AgeGauge
  age_gauge_ops = record {
    meter_id = λ g. g.meter.id;
    is_expired = λ now ttl g. false;
    measure = λ now g. measure_age_gauge F now g;
  }

  abbrev pub gauge_ops : MeterOps F (Gauge F)
  gauge_ops = record {
    meter_id = λ g. g.meter.id;
    is_expired = λ now ttl g. has_expired now g;
    measure = λ now g. measure_gauge F now g;
  }

  abbrev pub counter_ops : MeterOps F (Counter F)
  counter_ops = record {
    meter_id = λ c. c.meter.id;
    is_expired = λ now ttl c. is_meter_expired now c.meter ttl;
    measure = λ now c. Counter.measure F c;
  }

  abbrev pub summary_ops : MeterOps F (DistributionSummary F)
  summary_ops = record {
    meter_id = λ s. s.meter.id;
    is_expired = λ now ttl s. is_meter_expired now s.meter ttl;
    measure = λ now s. measure_summary F s;
  }

  abbrev pub max_gauge_ops : MeterOps F (MaxGauge F)
  max_gauge_ops = record {
    meter_id = λ g. g.meter.id;
    is_expired = λ now ttl g. is_meter_expired now g.meter ttl;
    measure = λ now g. measure_max_gauge F g;
  }

  abbrev pub monotonic_ops : MeterOps F (MonotonicCounter F)
  monotonic_ops = record {
    meter_id = λ c. c.meter.id;
    is_expired = λ now ttl c. is_meter_expired now c.meter ttl;
    measure = λ now c. measure_monotonic F c;
  }

  abbrev pub monotonic_uint_ops : MeterOps F MonotonicCounterUint
  monotonic_uint_ops = record {
    meter_id = λ c. c.meter.id;
    is_expired = λ now ttl c. is_meter_expired now c.meter ttl;
    measure = λ now c. measure_monotonic_uint F c;
  }

  abbrev pub sampled_ops : MeterOps F (MonotonicSampled F)
  sampled_ops = record {
    meter_id = λ c. c.meter.id;
    is_expired = λ now ttl c. is_meter_expired now c.meter ttl;
    measure = λ now c. measure_sampled F c;
  }

  abbrev pub timer_ops : MeterOps F (Timer F)
  timer_ops = record {
    meter_id = λ t. t.meter.id;
    is_expired = λ now ttl t. is_meter_expired now t.meter ttl;
    measure = λ now t. measure_timer F t;
  }

pub record AllMeters (F : Float) : Type 0 where
  pub age_gauges : MeterMap AgeGauge
  pub counters : MeterMap (Counter F)
  pub dist_sums : MeterMap (DistributionSummary F)
  pub gauges : MeterMap (Gauge F)
  pub max_gauges : MeterMap (MaxGauge F)
  pub mono_counters : MeterMap (MonotonicCounter F)
  pub mono_counters_uint : MeterMap MonotonicCounterUint
  pub mono_sampled : MeterMap (MonotonicSampled F)
  pub timers : MeterMap (Timer F)

module _ (F : Float) where
  -- `size`: eight of the nine maps.
  unfoldable pub all_size : AllMeters F → ℕ
  all_size all =
      size all.age_gauges
      + size all.counters
      + size all.dist_sums
      + size all.gauges
      + size all.max_gauges
      + size all.mono_counters
      + size all.mono_counters_uint
      + size all.timers

  -- `measure`: the same eight maps, one after the other.
  unfoldable pub all_measure : AllMeters F → ℕ → ℕ → AllMeters F × List (Measurement F)
  all_measure all now ttl =
      let (age_gauges, r1) = measure_map (age_gauge_ops F) all.age_gauges now ttl in
      let (counters, r2) = measure_map (counter_ops F) all.counters now ttl in
      let (dist_sums, r3) = measure_map (summary_ops F) all.dist_sums now ttl in
      let (gauges, r4) = measure_map (gauge_ops F) all.gauges now ttl in
      let (max_gauges, r5) = measure_map (max_gauge_ops F) all.max_gauges now ttl in
      let (mono_counters, r6) = measure_map (monotonic_ops F) all.mono_counters now ttl in
      let (uints, r7) = measure_map (monotonic_uint_ops F) all.mono_counters_uint now ttl in
      let (timers, r8) = measure_map (timer_ops F) all.timers now ttl in
      (
        record {
          age_gauges = age_gauges;
          counters = counters;
          dist_sums = dist_sums;
          gauges = gauges;
          max_gauges = max_gauges;
          mono_counters = mono_counters;
          mono_counters_uint = uints;
          mono_sampled = all.mono_sampled;
          timers = timers;
        },
        r1 ++ (r2 ++ (r3 ++ (r4 ++ (r5 ++ (r6 ++ (r7 ++ r8)))))),
      )

  -- `remove_expired`: the age gauges are counted, the sampled sources are not looked at, and the pairs of the
  -- other maps are added up.
  unfoldable pub all_remove_expired : AllMeters F → ℕ → ℕ → AllMeters F × ℕ × ℕ
  all_remove_expired all now ttl =
      let (counters, e2, n2) = remove_expired (counter_ops F) all.counters now ttl in
      let (dist_sums, e3, n3) = remove_expired (summary_ops F) all.dist_sums now ttl in
      let (gauges, e4, n4) = remove_expired (gauge_ops F) all.gauges now ttl in
      let (max_gauges, e5, n5) = remove_expired (max_gauge_ops F) all.max_gauges now ttl in
      let (mono_counters, e6, n6) = remove_expired (monotonic_ops F) all.mono_counters now ttl in
      let (uints, e7, n7) = remove_expired (monotonic_uint_ops F) all.mono_counters_uint now ttl in
      let (timers, e8, n8) = remove_expired (timer_ops F) all.timers now ttl in
      (
        record all {
          counters = counters;
          dist_sums = dist_sums;
          gauges = gauges;
          max_gauges = max_gauges;
          mono_counters = mono_counters;
          mono_counters_uint = uints;
          timers = timers;
        },
        e2 + e3 + e4 + e5 + e6 + e7 + e8,
        size all.age_gauges + n2 + n3 + n4 + n5 + n6 + n7 + n8,
      )
