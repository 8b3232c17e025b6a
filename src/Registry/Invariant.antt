-- ===== src/Registry/Invariant.antt =====
-- The operations of the registry on its nine tables, in spectator/registry.cc and registry.h.
use spectatord.Base.{ℕ, List, []}
use spectatord.Float.{Float}
use spectatord.Id.{MeterId}
use spectatord.Tags.{empty_tags}
use spectatord.Id.Laws.{id_eq_refl}
use spectatord.Meter.Counter.{new_counter}
use spectatord.Meter.Gauge.{new_gauge, new_max_gauge}
use spectatord.Meter.Monotonic.{new_monotonic, new_monotonic_uint, new_sampled}
use spectatord.Meter.Distribution.{new_summary, new_timer}
use spectatord.MeterMap.{at}
use spectatord.MeterMap.Validity.{insert-IsValid}
use spectatord.Registry.Meters.{
  counter_ops, summary_ops, gauge_ops, max_gauge_ops, monotonic_ops, monotonic_uint_ops,
  sampled_ops, timer_ops,
}
use spectatord.Registry.{
  Registry, get_age_gauge, get_counter, get_distribution_summary, get_gauge, get_gauge_ttl,
  get_max_gauge, get_monotonic_counter, get_monotonic_counter_uint, get_monotonic_sampled,
  get_timer, measurements, remove_expired_meters, delete_meter, delete_all_meters,
}
use spectatord.Registry.Tables.{
  AllValid, tables, age_gauge_at-AllValid, get_gauge_ttl-AllValid, measurements-AllValid,
  all_remove_expired-AllValid, delete_meter-AllValid, delete_all_meters-AllValid,
}

module _ (F : Float) where
  -- What the registry is asked to do: its getters, `Measurements`, `remove_expired_meters`, `DeleteMeter` and
  -- `DeleteAllMeters`.
  pub data Operation : Type 0 where
    age_gauge counter summary gauge max_gauge monotonic monotonic_uint sampled timer :
        MeterId → Operation
    gauge_ttl : MeterId → ℕ → Operation
    measure_all expire_meters : Operation
    delete_one : List ℕ → MeterId → Operation
    delete_all : List ℕ → Operation

  unfoldable pub operate : Operation → Registry F → ℕ → Registry F
  operate (age_gauge id) r now = (get_age_gauge F r id now).0
  operate (counter id) r now = (get_counter F r id now).0
  operate (summary id) r now = (get_distribution_summary F r id now).0
  operate (gauge id) r now = (get_gauge F r id now).0
  operate (max_gauge id) r now = (get_max_gauge F r id now).0
  operate (monotonic id) r now = (get_monotonic_counter F r id now).0
  operate (monotonic_uint id) r now = (get_monotonic_counter_uint F r id now).0
  operate (sampled id) r now = (get_monotonic_sampled F r id now).0
  operate (timer id) r now = (get_timer F r id now).0
  operate (gauge_ttl id ttl) r now = (get_gauge_ttl F r id ttl now).0
  operate measure_all r now = (measurements F r now).0
  operate expire_meters r now = (remove_expired_meters F r now).0
  operate (delete_one type id) r now = (delete_meter F r type id).0
  operate (delete_all type) r now = delete_all_meters F r type

  -- Each operation of the registry keeps all nine tables F valid: a table has one entry for an id, with a meter of that id
  -- at an address of its own.
  pub operate-AllValid :
      (o : Operation) (r : Registry F) (now : ℕ)
      → AllValid F r.all_meters
      → AllValid F (operate o r now).all_meters
  unfolding operate get_counter get_distribution_summary get_gauge get_max_gauge
      get_monotonic_counter get_monotonic_counter_uint get_monotonic_sampled get_timer
  operate-AllValid (counter id) r now v =
      tables F _ v.age_gauges
        (insert-IsValid (counter_ops F).meter_id r.all_meters.counters id (new_counter F id now)
          (unfold new_counter in id_eq_refl id) v.counters)
        v.dist_sums v.gauges v.max_gauges v.mono_counters v.mono_counters_uint v.mono_sampled
        v.timers
  operate-AllValid (summary id) r now v =
      tables F _ v.age_gauges v.counters
        (insert-IsValid (summary_ops F).meter_id r.all_meters.dist_sums id (new_summary F id now)
          (unfold new_summary in id_eq_refl id) v.dist_sums)
        v.gauges v.max_gauges v.mono_counters v.mono_counters_uint v.mono_sampled v.timers
  operate-AllValid (gauge id) r now v =
      tables F _ v.age_gauges v.counters v.dist_sums
        (insert-IsValid (gauge_ops F).meter_id r.all_meters.gauges id
          (new_gauge F id r.config.meter_ttl now) (unfold new_gauge in id_eq_refl id) v.gauges)
        v.max_gauges v.mono_counters v.mono_counters_uint v.mono_sampled v.timers
  operate-AllValid (max_gauge id) r now v =
      tables F _ v.age_gauges v.counters v.dist_sums v.gauges
        (insert-IsValid (max_gauge_ops F).meter_id r.all_meters.max_gauges id
          (new_max_gauge F id now) (unfold new_max_gauge in id_eq_refl id) v.max_gauges)
        v.mono_counters v.mono_counters_uint v.mono_sampled v.timers
  operate-AllValid (monotonic id) r now v =
      tables F _ v.age_gauges v.counters v.dist_sums v.gauges v.max_gauges
        (insert-IsValid (monotonic_ops F).meter_id r.all_meters.mono_counters id
          (new_monotonic F id now) (unfold new_monotonic in id_eq_refl id) v.mono_counters)
        v.mono_counters_uint v.mono_sampled v.timers
  operate-AllValid (monotonic_uint id) r now v =
      tables F _ v.age_gauges v.counters v.dist_sums v.gauges v.max_gauges v.mono_counters
        (insert-IsValid (monotonic_uint_ops F).meter_id r.all_meters.mono_counters_uint id
          (new_monotonic_uint id now) (unfold new_monotonic_uint in id_eq_refl id)
          v.mono_counters_uint)
        v.mono_sampled v.timers
  operate-AllValid (sampled id) r now v =
      tables F _ v.age_gauges v.counters v.dist_sums v.gauges v.max_gauges v.mono_counters
        v.mono_counters_uint
        (insert-IsValid (sampled_ops F).meter_id r.all_meters.mono_sampled id (new_sampled F id now)
          (unfold new_sampled in id_eq_refl id) v.mono_sampled)
        v.timers
  operate-AllValid (timer id) r now v =
      tables F _ v.age_gauges v.counters v.dist_sums v.gauges v.max_gauges v.mono_counters
        v.mono_counters_uint v.mono_sampled
        (insert-IsValid (timer_ops F).meter_id r.all_meters.timers id (new_timer F id now)
          (unfold new_timer in id_eq_refl id) v.timers)
  operate-AllValid (age_gauge id) r now v =
      unfold get_age_gauge in age_gauge_at-AllValid F r id now (at r.all_meters.age_gauges id) v
  operate-AllValid (gauge_ttl id ttl) r now v = get_gauge_ttl-AllValid F r id ttl now v
  operate-AllValid measure_all r now v = measurements-AllValid F r now v
  operate-AllValid expire_meters r now v =
      unfold remove_expired_meters in
      all_remove_expired-AllValid F r.all_meters now r.meter_ttl
        (record { name = []; tags = empty_tags }) v
  operate-AllValid (delete_one type id) r now v = delete_meter-AllValid F r type id v
  operate-AllValid (delete_all type) r now v = delete_all_meters-AllValid F r type v
