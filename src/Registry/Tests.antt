-- ===== src/Registry/Tests.antt =====
-- The theorems at a registry with no meter.
use spectatord.Base.{◌+◌, ◌≤◌, ◌≡◌, ◌⊎◌, [], ◌∷◌, some, true, arith, get_elem?}
use spectatord.CText.{chars}
use spectatord.Int.{pos}
use spectatord.Float.Fixed.{fin, fixed}
use spectatord.Tags.{empty_tags}
use spectatord.Id.{MeterId}
use spectatord.Meter.Gauge.{Gauge, AgeGauge, get_ttl}
use spectatord.Meter.Monotonic.{MonotonicSampled}
use spectatord.MeterMap.{MeterMap, empty_map, find, size}
use spectatord.MeterMap.Insert.{IsValid}
use spectatord.Registry.{
  Registry, get_age_gauge, get_gauge_ttl, remove_expired_meters, registry_meters, measurements,
}
use spectatord.Registry.Tables.{AllValid}
use spectatord.Registry.Invariant.{operate, operate-AllValid, counter, measure_all}
use spectatord.Registry.Laws.{
  sampled_unpublished, remove_expired_meters_counts, get_age_gauge_limit, get_gauge_ttl_sets,
}

abbrev requests : MeterId
requests = record { name = chars "requests"; tags = empty_tags }

abbrev pub empty_registry : Registry fixed
empty_registry = record {
  config = record {
    common_tags = [];
    meter_ttl = 900;
    age_gauge_limit = 10;
    status_metrics_enabled = true;
  };
  meter_ttl = 900;
  age_gauge_first_warn = true;
  all_meters = record {
    age_gauges = empty_map;
    counters = empty_map;
    dist_sums = empty_map;
    gauges = empty_map;
    max_gauges = empty_map;
    mono_counters = empty_map;
    mono_counters_uint = empty_map;
    mono_sampled = empty_map;
    timers = empty_map;
  };
  registry_size = 0;
}

empty_map-IsValid : {M : Type 0} (meter_id : M → MeterId) → IsValid meter_id empty_map
empty_map-IsValid meter_id = record { entries = tt }

empty_registry-AllValid : AllValid fixed empty_registry.all_meters
empty_registry-AllValid = record {
  age_gauges = empty_map-IsValid _;
  counters = empty_map-IsValid _;
  dist_sums = empty_map-IsValid _;
  gauges = empty_map-IsValid _;
  max_gauges = empty_map-IsValid _;
  mono_counters = empty_map-IsValid _;
  mono_counters_uint = empty_map-IsValid _;
  mono_sampled = empty_map-IsValid _;
  timers = empty_map-IsValid _;
}

abbrev with_counter : Registry fixed
with_counter = operate fixed (counter requests) empty_registry 5

with_counter-AllValid : AllValid fixed with_counter.all_meters
with_counter-AllValid =
    operate-AllValid fixed (counter requests) empty_registry 5 empty_registry-AllValid

operate-AllValid_example : AllValid fixed (operate fixed measure_all with_counter 7).all_meters
operate-AllValid_example = operate-AllValid fixed measure_all with_counter 7 with_counter-AllValid

remove_expired_meters_counts_run :
    ((remove_expired_meters fixed with_counter 2000).2 ≡ registry_meters fixed with_counter)
    × ((remove_expired_meters fixed with_counter 2000).1
          + registry_meters fixed (remove_expired_meters fixed with_counter 2000).0
        ≡ registry_meters fixed with_counter)
remove_expired_meters_counts_run =
    remove_expired_meters_counts fixed with_counter 2000 with_counter-AllValid

get_age_gauge_limit_run :
    (size (get_age_gauge fixed empty_registry requests 5).0.all_meters.age_gauges ≤ 10)
    × ((find requests (get_age_gauge fixed empty_registry requests 5).0.all_meters.age_gauges.table
          ≡ some (get_age_gauge fixed empty_registry requests 5).1)
        ⊎ ((size (empty_map {M = AgeGauge}) ≡ 10)
            × ((get_age_gauge fixed empty_registry requests 5).0.all_meters.age_gauges.table ≡ [])))
get_age_gauge_limit_run =
    get_age_gauge_limit fixed empty_registry requests 5 (empty_map-IsValid _)
      (unfold size in omega arith)

get_gauge_ttl_sets_run :
    (g : Gauge fixed) × (get_elem?
        (get_gauge_ttl fixed empty_registry requests 7 5).0.all_meters.gauges.heap
        (get_gauge_ttl fixed empty_registry requests 7 5).1
      ≡ some g)
    × (g.ttl_nanos ≡ get_ttl 7)
    × (find requests (get_gauge_ttl fixed empty_registry requests 7 5).0.all_meters.gauges.table
        ≡ some (get_gauge_ttl fixed empty_registry requests 7 5).1)
get_gauge_ttl_sets_run = get_gauge_ttl_sets fixed empty_registry requests 7 5 (empty_map-IsValid _)

abbrev sampled_map : MeterMap (MonotonicSampled fixed)
sampled_map = record {
  table = (requests, 0) ∷ [];
  heap =
      record {
        meter = record { id = requests; last_updated = 5 };
        value = fin (pos 2);
        prev_value = fin (pos 1);
        ts = pos 2;
        prev_ts = pos 1;
      }
      ∷ [];
}

abbrev with_sampled : Registry fixed
with_sampled = record empty_registry {
  all_meters = record (empty_registry.all_meters) { mono_sampled = sampled_map };
}

sampled_unpublished_example :
    ((measurements fixed with_sampled 6).1 ≡ (measurements fixed empty_registry 6).1)
    × (registry_meters fixed with_sampled ≡ registry_meters fixed empty_registry)
    × ((remove_expired_meters fixed with_sampled 6).0.all_meters.mono_sampled ≡ sampled_map)
sampled_unpublished_example = sampled_unpublished fixed empty_registry sampled_map 6
