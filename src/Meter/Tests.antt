-- ===== src/Meter/Tests.antt =====
-- Runs, and the theorems at concrete meters, whose doubles are the integers of `fixed`.
use spectatord.Base.{
  ℕ, ◌+◌, ◌%◌, ◌^◌, ◌-◌, ◌<◌, ◌≡◌, refl, List, [], ◌∷◌, true, ◌↔◌, arith, if◌then◌else◌,
}
use spectatord.CText.{chars}
use spectatord.Int.{ℤ, pos}
use spectatord.Float.Fixed.{Fixed, fin, not_a_number, fixed, fixed-IsIeee}
use spectatord.Tags.{empty_tags}
use spectatord.Id.{MeterId, with_default_stat, with_stat}
use spectatord.Id.Refs
use spectatord.Meter.{zero_double}
use spectatord.Meter.Counter.{Counter, measure, add}
use spectatord.Meter.Counter.Laws.{add_each, sum_from, measure-add_each, measure_nan}
use spectatord.Meter.Monotonic.{
  MonotonicCounter, MonotonicCounterUint, new_sampled, set_monotonic, set_monotonic_uint,
  set_sampled, measure_monotonic, measure_monotonic_uint, measure_sampled, uint_delta, k_overflow,
}
use spectatord.Meter.Monotonic.Laws.{uint_delta_reaches, measure-set_monotonic, measure-set_uint}
use spectatord.Meter.Monotonic.Sampled.{first_silent_sampled}
use spectatord.Meter.Gauge.{
  Gauge, has_expired, set_gauge, set_ttl, measure_gauge, k_min_ttl_nanos, measure_max_gauge,
  MaxGauge,
}
use spectatord.Meter.Gauge.Laws.{
  has_expired_iff, measure_expired_twice, update_each, Bounds, Among, measure-update_each,
}
use spectatord.Meter.Distribution.{new_timer, measure_timer}
use spectatord.Meter.Distribution.Laws.{record_each, timer_report, measure-record_each}

abbrev requests : MeterId
requests = record { name = chars "requests"; tags = empty_tags }

abbrev counter_of_two : Counter fixed
counter_of_two = record { meter = record { id = requests; last_updated = 5 }; count = fin (pos 2) }

abbrev three_and_four : List (ℕ × Fixed)
three_and_four = (6, fin (pos 3)) ∷ (7, fin (pos 4)) ∷ []

measure-add_each_example :
    ((measure fixed (add_each fixed counter_of_two three_and_four)).1 ≡ (
      if fixed.lt (zero_double fixed) (sum_from fixed (fin (pos 2)) three_and_four)
      then record {
        id = with_default_stat requests Refs.count;
        value = sum_from fixed (fin (pos 2)) three_and_four;
      }
        ∷ []
      else []))
    × ((measure fixed (add_each fixed counter_of_two three_and_four)).0.count ≡ zero_double fixed)
measure-add_each_example = measure-add_each fixed counter_of_two three_and_four

measure_nan_run :
    (measure fixed (
      add_each fixed
        (add fixed (add_each fixed counter_of_two three_and_four) 8 not_a_number)
        three_and_four)).1
    ≡ []
measure_nan_run =
    measure_nan fixed fixed-IsIeee counter_of_two three_and_four three_and_four 8 not_a_number refl

uint_delta_reaches_example :
    (((2 ^ 64 - 1) + uint_delta (2 ^ 64 - 1) 4) % 2 ^ 64 ≡ 4) × (uint_delta (2 ^ 64 - 1) 4 < 2 ^ 64)
uint_delta_reaches_example = uint_delta_reaches (2 ^ 64 - 1) 4 (omega arith) (omega arith)

abbrev source_at_two : MonotonicCounter fixed
source_at_two = record {
  meter = record { id = requests; last_updated = 5 };
  value = fin (pos 2);
  prev_value = fin (pos 1);
}

measure-set_monotonic_run :
    ((measure_monotonic fixed
        (set_monotonic fixed (measure_monotonic fixed source_at_two).0 6 (fin (pos 9)))).1
      ≡ (if fixed.lt (zero_double fixed) (fin (pos 7))
          then record { id = with_default_stat requests Refs.count; value = fin (pos 7) } ∷ []
          else []))
    × ((measure_monotonic fixed (
          set_monotonic fixed
            (measure_monotonic fixed source_at_two).0
            6
            (fin (pos 9)))).0.prev_value
        ≡ fin (pos 9))
measure-set_monotonic_run = measure-set_monotonic fixed source_at_two 6 (fin (pos 9))

abbrev uint_source : MonotonicCounterUint
uint_source = record {
  meter = record { id = requests; last_updated = 5 };
  init = true;
  value = 2;
  prev_value = 1;
}

measure-set_uint_run :
    (measure_monotonic_uint fixed
      (set_monotonic_uint (measure_monotonic_uint fixed uint_source).0 6 9)).1
    ≡ (if fixed.lt (zero_double fixed) (fin (pos ((9 + (2 ^ 64 - 2)) % 2 ^ 64)))
        then (if fixed.lt (k_overflow fixed) (fin (pos ((9 + (2 ^ 64 - 2)) % 2 ^ 64)))
            then record { id = with_default_stat requests Refs.count; value = zero_double fixed }
              ∷ []
            else record {
              id = with_default_stat requests Refs.count;
              value = fin (pos ((9 + (2 ^ 64 - 2)) % 2 ^ 64));
            }
              ∷ [])
        else [])
measure-set_uint_run = measure-set_uint fixed uint_source 6 9 (omega arith) (omega arith)

first_silent_sampled_run :
    measure_sampled fixed
      (set_sampled fixed (new_sampled fixed requests 1) 2 (fin (pos 9)) (pos 100))
    ≡ (set_sampled fixed (new_sampled fixed requests 1) 2 (fin (pos 9)) (pos 100), [])
first_silent_sampled_run =
    first_silent_sampled fixed fixed-IsIeee requests 1 2 (fin (pos 9)) (pos 100)

abbrev gauge_of_three : Gauge fixed
gauge_of_three = record {
  meter = record { id = requests; last_updated = 5 };
  ttl_nanos = 5_000_000_000;
  value = fin (pos 3);
}

has_expired_iff_run :
    (has_expired 9_000_000_000 (set_gauge fixed (set_ttl gauge_of_three 1) 6 (fin (pos 4))) ≡ true)
    ↔ ((6 + 1 < 9_000_000_000) × (6 + k_min_ttl_nanos < 9_000_000_000))
has_expired_iff_run = has_expired_iff fixed gauge_of_three 1 6 9_000_000_000 (fin (pos 4))

measure_expired_twice_run :
    ((measure_gauge fixed 9_000_000_000 gauge_of_three).1
      ≡ record { id = with_default_stat requests Refs.gauge; value = fin (pos 3) } ∷ [])
    × ((measure_gauge fixed 9_500_000_000 (measure_gauge fixed 9_000_000_000 gauge_of_three).0).1
        ≡ [])
measure_expired_twice_run =
    measure_expired_twice fixed fixed-IsIeee gauge_of_three 9_000_000_000 9_500_000_000
      (unfold has_expired in refl) refl

abbrev max_of_three : MaxGauge fixed
max_of_three = record { meter = record { id = requests; last_updated = 5 }; value = fin (pos 3) }

measure-update_each_run :
    Bounds fixed (update_each fixed max_of_three three_and_four).value three_and_four
    × Among fixed (update_each fixed max_of_three three_and_four).value (fin (pos 3)) three_and_four
    × ((measure_max_gauge fixed (update_each fixed max_of_three three_and_four)).1 ≡ (
        if fixed.eq (update_each fixed max_of_three three_and_four).value fixed.lowest
        then []
        else record {
          id = with_stat requests Refs.max;
          value = (update_each fixed max_of_three three_and_four).value;
        }
          ∷ []))
    × ((measure_max_gauge fixed
          (measure_max_gauge fixed (update_each fixed max_of_three three_and_four)).0).1
        ≡ [])
measure-update_each_run = measure-update_each fixed fixed-IsIeee max_of_three three_and_four

abbrev durations : List (ℕ × ℤ)
durations = (6, pos 30) ∷ (7, pos 40) ∷ []

measure-record_each_example :
    ((measure_timer fixed (record_each fixed (new_timer fixed requests 1) durations)).1
      ≡ timer_report fixed requests 2 70 40
          (record_each fixed (new_timer fixed requests 1) durations).total_sq)
    × ((measure_timer fixed (record_each fixed (new_timer fixed requests 1) durations)).0.count
        ≡ pos 0)
measure-record_each_example =
    measure-record_each fixed requests 1 durations (omega arith) (omega arith)
