-- ===== src/Registry/Tables.antt =====
-- The nine tables of the registry, in spectator/registry.h and registry.cc, and the operations that change several of them,
-- or take meters out.
use spectatord.Base.{
  ℕ, List, [], ◌∷◌, Option, none, some, ltb, ◌≡◌, refl, Bool-cases, inl, inr, arith,
}
use spectatord.Float.{Float}
use spectatord.Id.{MeterId}
use spectatord.Id.Laws.{id_eq_refl}
use spectatord.CText.{chars, text_eq}
use spectatord.Meter.Counter.{new_counter}
use spectatord.Meter.Counter as Counter
use spectatord.Meter.Gauge.{
  new_gauge, new_age_gauge, set_ttl, measure_gauge, measure_max_gauge, measure_age_gauge,
}
use spectatord.Meter.Monotonic.{measure_monotonic, measure_monotonic_uint}
use spectatord.Meter.Distribution.{
  DistributionSummary, record_summary, measure_summary, measure_timer,
}
use spectatord.MeterMap.{size}
use spectatord.MeterMap.Invariant.{IsTable-append}
use spectatord.MeterMap.Insert.{IsValid, update-IsValid}
use spectatord.MeterMap.Validity.{
  KeepsId, insert-IsValid, remove_one-IsValid, remove_all-IsValid, remove_expired-IsValid,
  measure_map-IsValid,
}
use spectatord.Registry.Meters.{
  AllMeters, age_gauge_ops, counter_ops, summary_ops, gauge_ops, max_gauge_ops, monotonic_ops,
  monotonic_uint_ops, sampled_ops, timer_ops, all_measure, all_remove_expired,
}
use spectatord.Registry.{
  Registry, age_gauge_at, get_gauge_ttl, measurements, delete_meter, delete_all_meters,
}

module _ (F : Float) where
  -- Each of the nine tables has one entry for an id, with a meter of that id at its own address.
  pub record AllValid (all : AllMeters F) : Type 0 where
    pub age_gauges : IsValid (age_gauge_ops F).meter_id all.age_gauges
    pub counters : IsValid (counter_ops F).meter_id all.counters
    pub dist_sums : IsValid (summary_ops F).meter_id all.dist_sums
    pub gauges : IsValid (gauge_ops F).meter_id all.gauges
    pub max_gauges : IsValid (max_gauge_ops F).meter_id all.max_gauges
    pub mono_counters : IsValid (monotonic_ops F).meter_id all.mono_counters
    pub mono_counters_uint : IsValid (monotonic_uint_ops F).meter_id all.mono_counters_uint
    pub mono_sampled : IsValid (sampled_ops F).meter_id all.mono_sampled
    pub timers : IsValid (timer_ops F).meter_id all.timers

  pub tables :
      (all : AllMeters F)
      → IsValid (age_gauge_ops F).meter_id all.age_gauges
      → IsValid (counter_ops F).meter_id all.counters
      → IsValid (summary_ops F).meter_id all.dist_sums
      → IsValid (gauge_ops F).meter_id all.gauges
      → IsValid (max_gauge_ops F).meter_id all.max_gauges
      → IsValid (monotonic_ops F).meter_id all.mono_counters
      → IsValid (monotonic_uint_ops F).meter_id all.mono_counters_uint
      → IsValid (sampled_ops F).meter_id all.mono_sampled
      → IsValid (timer_ops F).meter_id all.timers
      → AllValid all
  tables all a c d g x m u s t = record {
    age_gauges = a;
    counters = c;
    dist_sums = d;
    gauges = g;
    max_gauges = x;
    mono_counters = m;
    mono_counters_uint = u;
    mono_sampled = s;
    timers = t;
  }

  age_gauge-KeepsId : KeepsId (age_gauge_ops F)
  unfolding measure_age_gauge
  age_gauge-KeepsId now x = refl

  counter-KeepsId : KeepsId (counter_ops F)
  unfolding Counter.measure
  counter-KeepsId now x = refl

  summary-KeepsId : KeepsId (summary_ops F)
  unfolding measure_summary
  summary-KeepsId now x = ground arith

  gauge-KeepsId : KeepsId (gauge_ops F)
  unfolding measure_gauge
  gauge-KeepsId now x = ground arith

  max_gauge-KeepsId : KeepsId (max_gauge_ops F)
  unfolding measure_max_gauge
  max_gauge-KeepsId now x = refl

  monotonic-KeepsId : KeepsId (monotonic_ops F)
  unfolding measure_monotonic
  monotonic-KeepsId now x = refl

  monotonic_uint-KeepsId : KeepsId (monotonic_uint_ops F)
  unfolding measure_monotonic_uint
  monotonic_uint-KeepsId now x = refl

  timer-KeepsId : KeepsId (timer_ops F)
  unfolding measure_timer
  timer-KeepsId now x = ground arith

  pub age_gauge_at-AllValid :
      (r : Registry F) (id : MeterId) (now : ℕ) (o : Option ℕ)
      → AllValid r.all_meters
      → AllValid (age_gauge_at F r id now o).0.all_meters
  age_gauge_at-AllValid r id now (some a) v = v
  age_gauge_at-AllValid r id now none v =
      elim (Bool-cases (ltb (size r.all_meters.age_gauges) r.config.age_gauge_limit)) [
        | inl e ↦ rw e (
            tables _
              (insert-IsValid (age_gauge_ops F).meter_id r.all_meters.age_gauges id
                (new_age_gauge id now) (unfold new_age_gauge in id_eq_refl id) v.age_gauges)
              v.counters v.dist_sums v.gauges v.max_gauges v.mono_counters v.mono_counters_uint
              v.mono_sampled v.timers)
        | inr e ↦ rw e (
            tables _
              (record {
                entries =
                    IsTable-append (age_gauge_ops F).meter_id r.all_meters.age_gauges.heap
                      (new_age_gauge id now ∷ []) r.all_meters.age_gauges.table
                      v.age_gauges.entries;
              })
              v.counters v.dist_sums v.gauges v.max_gauges v.mono_counters v.mono_counters_uint
              v.mono_sampled v.timers)
      ]

  pub get_gauge_ttl-AllValid :
      (r : Registry F) (id : MeterId) (ttl now : ℕ)
      → AllValid r.all_meters
      → AllValid (get_gauge_ttl F r id ttl now).0.all_meters
  unfolding get_gauge_ttl
  get_gauge_ttl-AllValid r id ttl now v =
      tables _ v.age_gauges v.counters v.dist_sums
        (update-IsValid (gauge_ops F).meter_id _ _ (λ g. set_ttl g ttl)
          (λ g. unfold set_ttl in refl)
          (insert-IsValid (gauge_ops F).meter_id r.all_meters.gauges id (new_gauge F id ttl now)
            (unfold new_gauge in id_eq_refl id) v.gauges))
        v.max_gauges v.mono_counters v.mono_counters_uint v.mono_sampled v.timers

  pub all_measure-AllValid :
      (all : AllMeters F) (now ttl : ℕ) → AllValid all → AllValid (all_measure F all now ttl).0
  unfolding all_measure
  all_measure-AllValid all now ttl v =
      tables _
        (measure_map-IsValid (age_gauge_ops F) all.age_gauges now ttl age_gauge-KeepsId
          v.age_gauges)
        (measure_map-IsValid (counter_ops F) all.counters now ttl counter-KeepsId v.counters)
        (measure_map-IsValid (summary_ops F) all.dist_sums now ttl summary-KeepsId v.dist_sums)
        (measure_map-IsValid (gauge_ops F) all.gauges now ttl gauge-KeepsId v.gauges)
        (measure_map-IsValid (max_gauge_ops F) all.max_gauges now ttl max_gauge-KeepsId
          v.max_gauges)
        (measure_map-IsValid (monotonic_ops F) all.mono_counters now ttl monotonic-KeepsId
          v.mono_counters)
        (measure_map-IsValid (monotonic_uint_ops F) all.mono_counters_uint now ttl
          monotonic_uint-KeepsId v.mono_counters_uint)
        v.mono_sampled (measure_map-IsValid (timer_ops F) all.timers now ttl timer-KeepsId v.timers)

  record_summary-id :
      (s : DistributionSummary F) (now : ℕ) (x : F.Double)
      → (record_summary F s now x).meter.id ≡ s.meter.id
  unfolding record_summary
  record_summary-id s now x = ground arith

  pub measurements-AllValid :
      (r : Registry F) (now : ℕ)
      → AllValid r.all_meters
      → AllValid (measurements F r now).0.all_meters
  unfolding measurements
  measurements-AllValid r now w =
      let v = all_measure-AllValid r.all_meters now r.meter_ttl w in
      elim (Bool-cases r.config.status_metrics_enabled) [
        | inl e ↦ rw e (
            tables _ v.age_gauges v.counters
              (update-IsValid (summary_ops F).meter_id _ r.registry_size _
                (λ s. record_summary-id s now _) v.dist_sums)
              v.gauges v.max_gauges v.mono_counters v.mono_counters_uint v.mono_sampled v.timers)
        | inr e ↦ rw e v
      ]

  pub all_remove_expired-AllValid :
      (all : AllMeters F) (now ttl : ℕ) (id : MeterId)
      → AllValid all
      → AllValid (all_remove_expired F all now ttl).0
  unfolding all_remove_expired
  all_remove_expired-AllValid all now ttl id v =
      tables _ v.age_gauges
        (remove_expired-IsValid (counter_ops F) all.counters now ttl id v.counters)
        (remove_expired-IsValid (summary_ops F) all.dist_sums now ttl id v.dist_sums)
        (remove_expired-IsValid (gauge_ops F) all.gauges now ttl id v.gauges)
        (remove_expired-IsValid (max_gauge_ops F) all.max_gauges now ttl id v.max_gauges)
        (remove_expired-IsValid (monotonic_ops F) all.mono_counters now ttl id v.mono_counters)
        (remove_expired-IsValid (monotonic_uint_ops F) all.mono_counters_uint now ttl id
          v.mono_counters_uint)
        v.mono_sampled (remove_expired-IsValid (timer_ops F) all.timers now ttl id v.timers)

  pub delete_meter-AllValid :
      (r : Registry F) (type : List ℕ) (id : MeterId)
      → AllValid r.all_meters
      → AllValid (delete_meter F r type id).0.all_meters
  unfolding delete_meter
  delete_meter-AllValid r type id v = elim (Bool-cases (text_eq type (chars "A"))) [
    | inl e ↦ rw e (
        tables _
          (remove_one-IsValid (age_gauge_ops F).meter_id r.all_meters.age_gauges id v.age_gauges)
          v.counters v.dist_sums v.gauges v.max_gauges v.mono_counters v.mono_counters_uint
          v.mono_sampled v.timers)
    | inr e ↦ rw e (elim (Bool-cases (text_eq type (chars "g"))) [
      | inl g ↦ rw g (
          tables _ v.age_gauges v.counters v.dist_sums
            (remove_one-IsValid (gauge_ops F).meter_id r.all_meters.gauges id v.gauges) v.max_gauges
            v.mono_counters v.mono_counters_uint v.mono_sampled v.timers)
      | inr g ↦ rw g v
    ])
  ]

  pub delete_all_meters-AllValid :
      (r : Registry F) (type : List ℕ)
      → AllValid r.all_meters
      → AllValid (delete_all_meters F r type).all_meters
  unfolding delete_all_meters
  delete_all_meters-AllValid r type v = elim (Bool-cases (text_eq type (chars "A"))) [
    | inl e ↦ rw e (
        tables _
          (remove_all-IsValid (age_gauge_ops F).meter_id r.all_meters.age_gauges v.age_gauges)
          v.counters v.dist_sums v.gauges v.max_gauges v.mono_counters v.mono_counters_uint
          v.mono_sampled v.timers)
    | inr e ↦ rw e (elim (Bool-cases (text_eq type (chars "g"))) [
      | inl g ↦ rw g (
          tables _ v.age_gauges v.counters v.dist_sums
            (remove_all-IsValid (gauge_ops F).meter_id r.all_meters.gauges v.gauges) v.max_gauges
            v.mono_counters v.mono_counters_uint v.mono_sampled v.timers)
      | inr g ↦ rw g v
    ])
  ]
