-- ===== src/Registry.antt =====
-- spectator/registry.h and registry.cc: the meters of all types, and the operations of the registry on
-- them. A getter returns the registry and the address of the meter in the map of its type; the client then
-- calls a method through that address (`update`). Logging, the callbacks of `OnMeasurements` (which only read)
-- and the expirer's thread are not modelled; `remove_expired_meters` is one round of the latter.
pub mod Meters
pub mod Tables
pub mod Invariant
pub mod Laws
mod Tests
use spectatord.Base.{
  ℕ, ◌+◌, ◌*◌, List, [], ◌∷◌, ◌++◌, Option, none, some, Bool, true, false, ltb, ◌==◌, length,
  if◌then◌else◌,
}
use spectatord.CText.{text_eq, chars}
use spectatord.Int.{pos}
use spectatord.Float.{Float}
use spectatord.Id.{MeterId}
use spectatord.Meter.{Measurement}
use spectatord.Meter.Counter.{Counter, new_counter}
use spectatord.Meter.Gauge.{
  Gauge, new_gauge, set_ttl, MaxGauge, new_max_gauge, AgeGauge, new_age_gauge,
}
use spectatord.Meter.Monotonic.{
  MonotonicCounter, new_monotonic, MonotonicCounterUint, new_monotonic_uint, MonotonicSampled,
  new_sampled,
}
use spectatord.Meter.Distribution.{
  DistributionSummary, new_summary, record_summary, Timer, new_timer,
}
use spectatord.MeterMap.{
  MeterMap, empty_map, insert, update, contains, at, size, remove_one, remove_all,
}
use Meters.{AllMeters, all_size, all_measure, all_remove_expired}

-- The fields of `Config` that the modelled code reads. Durations are in nanoseconds.
pub record Config : Type 0 where
  pub common_tags : List (List ℕ × List ℕ)
  pub meter_ttl : ℕ
  pub age_gauge_limit : ℕ
  pub status_metrics_enabled : Bool

pub record Registry (F : Float) : Type 0 where
  pub config : Config
  pub meter_ttl : ℕ
  pub age_gauge_first_warn : Bool
  pub all_meters : AllMeters F
  -- The address of the summary `spectator.registrySize`.
  pub registry_size : ℕ

-- The constructor's choice of the TTL: a configured 0 stands for fifteen minutes.
unfoldable pub effective_ttl : ℕ → ℕ
effective_ttl ttl = if ttl == 0 then 15 * 60 * 1000 * 1000 * 1000 else ttl

module _ (F : Float) where
  -- `Registry::Registry`: `size_id` is the id of `spectator.registrySize`, tagged with the process name.
  unfoldable pub new_registry : Config → MeterId → ℕ → Registry F
  unfolding effective_ttl insert
  new_registry config size_id now =
      let r : MeterMap (DistributionSummary F) × ℕ =
        insert empty_map size_id (new_summary F size_id now) in
      record {
        config = config;
        meter_ttl = effective_ttl config.meter_ttl;
        age_gauge_first_warn = true;
        all_meters = record {
          age_gauges = empty_map;
          counters = empty_map;
          dist_sums = r.0;
          gauges = empty_map;
          max_gauges = empty_map;
          mono_counters = empty_map;
          mono_counters_uint = empty_map;
          mono_sampled = empty_map;
          timers = empty_map;
        };
        registry_size = r.1;
      }

  abbrev with_meters : Registry F → AllMeters F → Registry F
  with_meters r all = record r { all_meters = all }

  -- An age gauge that no table holds: the caller alone has its pointer.
  abbrev detached : MeterMap AgeGauge → AgeGauge → MeterMap AgeGauge × ℕ
  detached m g = (record m { heap = m.heap ++ g ∷ [] }, length m.heap)

  abbrev age_gauge_at : Registry F → MeterId → ℕ → Option ℕ → Registry F × ℕ
  age_gauge_at r id now (some a) = (r, a)
  age_gauge_at r id now none =
      let all = r.all_meters in
      let made : MeterMap AgeGauge × ℕ = insert all.age_gauges id (new_age_gauge id now) in
      let alone : MeterMap AgeGauge × ℕ = detached all.age_gauges (new_age_gauge id now) in
      if ltb (size all.age_gauges) r.config.age_gauge_limit
      then (with_meters r (record all { age_gauges = made.0 }), made.1)
      else (
        record r { all_meters = record all { age_gauges = alone.0 }; age_gauge_first_warn = false },
        alone.1,
      )

  -- `GetAgeGauge`: past the limit the caller gets a gauge that is not registered.
  unfoldable pub get_age_gauge : Registry F → MeterId → ℕ → Registry F × ℕ
  get_age_gauge r id now = age_gauge_at r id now (at r.all_meters.age_gauges id)

  unfoldable pub get_counter : Registry F → MeterId → ℕ → Registry F × ℕ
  get_counter r id now =
      let all = r.all_meters in
      let made : MeterMap (Counter F) × ℕ = insert all.counters id (new_counter F id now) in
      (with_meters r (record all { counters = made.0 }), made.1)

  unfoldable pub get_distribution_summary : Registry F → MeterId → ℕ → Registry F × ℕ
  get_distribution_summary r id now =
      let all = r.all_meters in
      let made : MeterMap (DistributionSummary F) × ℕ =
        insert all.dist_sums id (new_summary F id now) in
      (with_meters r (record all { dist_sums = made.0 }), made.1)

  -- `GetGauge(Id)`: the TTL of the configuration serves a new gauge alone.
  unfoldable pub get_gauge : Registry F → MeterId → ℕ → Registry F × ℕ
  get_gauge r id now =
      let all = r.all_meters in
      let made : MeterMap (Gauge F) × ℕ =
        insert all.gauges id (new_gauge F id r.config.meter_ttl now) in
      (with_meters r (record all { gauges = made.0 }), made.1)

  -- `GetGauge(Id, ttl)`
  unfoldable pub get_gauge_ttl : Registry F → MeterId → ℕ → ℕ → Registry F × ℕ
  get_gauge_ttl r id ttl now =
      let all = r.all_meters in
      let made : MeterMap (Gauge F) × ℕ = insert all.gauges id (new_gauge F id ttl now) in
      (with_meters r (record all { gauges = update made.0 made.1 (λ g. set_ttl g ttl) }), made.1)

  unfoldable pub get_max_gauge : Registry F → MeterId → ℕ → Registry F × ℕ
  get_max_gauge r id now =
      let all = r.all_meters in
      let made : MeterMap (MaxGauge F) × ℕ = insert all.max_gauges id (new_max_gauge F id now) in
      (with_meters r (record all { max_gauges = made.0 }), made.1)

  unfoldable pub get_monotonic_counter : Registry F → MeterId → ℕ → Registry F × ℕ
  get_monotonic_counter r id now =
      let all = r.all_meters in
      let made : MeterMap (MonotonicCounter F) × ℕ =
        insert all.mono_counters id (new_monotonic F id now) in
      (with_meters r (record all { mono_counters = made.0 }), made.1)

  unfoldable pub get_monotonic_counter_uint : Registry F → MeterId → ℕ → Registry F × ℕ
  get_monotonic_counter_uint r id now =
      let all = r.all_meters in
      let made : MeterMap MonotonicCounterUint × ℕ =
        insert all.mono_counters_uint id (new_monotonic_uint id now) in
      (with_meters r (record all { mono_counters_uint = made.0 }), made.1)

  unfoldable pub get_monotonic_sampled : Registry F → MeterId → ℕ → Registry F × ℕ
  get_monotonic_sampled r id now =
      let all = r.all_meters in
      let made : MeterMap (MonotonicSampled F) × ℕ =
        insert all.mono_sampled id (new_sampled F id now) in
      (with_meters r (record all { mono_sampled = made.0 }), made.1)

  unfoldable pub get_timer : Registry F → MeterId → ℕ → Registry F × ℕ
  get_timer r id now =
      let all = r.all_meters in
      let made : MeterMap (Timer F) × ℕ = insert all.timers id (new_timer F id now) in
      (with_meters r (record all { timers = made.0 }), made.1)

  -- `Measurements`
  unfoldable pub measurements : Registry F → ℕ → Registry F × List (Measurement F)
  unfolding all_measure
  measurements r now =
      let m : AllMeters F × List (Measurement F) = all_measure F r.all_meters now r.meter_ttl in
      let all : AllMeters F = m.0 in
      let sized : AllMeters F = record all {
        dist_sums =
            update all.dist_sums r.registry_size
              (λ s. record_summary F s now (F.of_int (pos (length m.1))));
      } in
      (with_meters r (if r.config.status_metrics_enabled then sized else all), m.1)

  -- `remove_expired_meters`, with the pair (expired, total) that is logged.
  unfoldable pub remove_expired_meters : Registry F → ℕ → Registry F × ℕ × ℕ
  unfolding all_remove_expired
  remove_expired_meters r now =
      let (all, expired, total) = all_remove_expired F r.all_meters now r.meter_ttl in
      (with_meters r all, expired, total)

  unfoldable pub registry_meters : Registry F → ℕ
  unfolding all_size
  registry_meters r = all_size F r.all_meters

  -- `DeleteMeter`: age gauges and gauges alone can be deleted.
  unfoldable pub delete_meter : Registry F → List ℕ → MeterId → Registry F × Bool
  delete_meter r type id =
      let all = r.all_meters in
      if text_eq type (chars "A")
      then (
        with_meters r (record all { age_gauges = (remove_one all.age_gauges id).0 }),
        (remove_one all.age_gauges id).1,
      )
      else if text_eq type (chars "g")
      then (
        with_meters r (record all { gauges = (remove_one all.gauges id).0 }),
        (remove_one all.gauges id).1,
      )
      else (r, false)

  unfoldable pub delete_all_meters : Registry F → List ℕ → Registry F
  delete_all_meters r type =
      let all = r.all_meters in
      if text_eq type (chars "A")
      then with_meters r (record all { age_gauges = remove_all all.age_gauges })
      else if text_eq type (chars "g")
      then with_meters r (record all { gauges = remove_all all.gauges })
      else r
