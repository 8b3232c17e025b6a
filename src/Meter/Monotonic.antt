-- ===== src/Meter/Monotonic.antt =====
-- spectator/monotonic_counter.cc, monotonic_counter_uint.cc and monotonic_sampled.cc: sources that only
-- grow, of which the increase is published.
pub mod Laws
pub mod Sampled
use spectatord.Base.{ℕ, ◌+◌, ◌-◌, ◌%◌, ◌^◌, List, [], ◌∷◌, Bool, true, false, ltb, if◌then◌else◌}
use spectatord.Int.{ℤ, pos, ltb_ℤ, ◌-ℤ◌, wrap64}
use spectatord.Float.{Float}
use spectatord.Id.{MeterId, with_default_stat, with_stat}
use spectatord.Id.Refs
use spectatord.Meter.{Meter, Measurement, new_meter, touch, zero_double}

pub record MonotonicCounter (F : Float) : Type 0 where
  pub meter : Meter
  pub value : F.Double
  pub prev_value : F.Double

unfoldable pub new_monotonic : (F : Float) → MeterId → ℕ → MonotonicCounter F
new_monotonic F id now = record { meter = new_meter id now; value = F.nan; prev_value = F.nan }

unfoldable pub set_monotonic : (F : Float) → MonotonicCounter F → ℕ → F.Double → MonotonicCounter F
set_monotonic F c now amount = record c { meter = touch c.meter now; value = amount }

unfoldable pub delta : (F : Float) → MonotonicCounter F → F.Double
delta F c = F.sub c.value c.prev_value

-- `Measure` as a whole: no `Set` of another thread comes between its two loads of `value_`.
unfoldable pub measure_monotonic :
    (F : Float) → MonotonicCounter F → MonotonicCounter F × List (Measurement F)
unfolding delta
measure_monotonic F c =
    let d = delta F c in
    (
      record c { prev_value = c.value },
      if F.lt (zero_double F) d
          then record { id = with_default_stat c.meter.id Refs.count; value = d } ∷ []
          else [],
    )

-- Values are of type `uint64_t`.
pub record MonotonicCounterUint : Type 0 where
  pub meter : Meter
  pub init : Bool
  pub value : ℕ
  pub prev_value : ℕ

unfoldable pub new_monotonic_uint : MeterId → ℕ → MonotonicCounterUint
new_monotonic_uint id now = record {
  meter = new_meter id now;
  init = false;
  value = 0;
  prev_value = 0;
}

unfoldable pub set_monotonic_uint : MonotonicCounterUint → ℕ → ℕ → MonotonicCounterUint
set_monotonic_uint c now amount = record c { meter = touch c.meter now; value = amount }

abbrev pub k_max : ℕ
k_max = 2 ^ 64 - 1

-- The branches of `Delta` once a first value has been published, in 64 bits.
unfoldable pub uint_delta : ℕ → ℕ → ℕ
uint_delta prev curr =
    if ltb curr prev
    then (((k_max + 2 ^ 64 - prev) % 2 ^ 64 + curr) % 2 ^ 64 + 1) % 2 ^ 64
    else (curr + 2 ^ 64 - prev) % 2 ^ 64

unfoldable pub delta_uint : (F : Float) → MonotonicCounterUint → F.Double
delta_uint F c = if c.init then F.of_int (pos (uint_delta c.prev_value c.value)) else F.nan

-- `kOverflow`, 9.223372e+18.
abbrev pub k_overflow : (F : Float) → F.Double
k_overflow F = F.of_int (pos 9_223_372_000_000_000_000)

unfoldable pub measure_monotonic_uint :
    (F : Float) → MonotonicCounterUint → MonotonicCounterUint × List (Measurement F)
unfolding delta_uint
measure_monotonic_uint F c =
    let d = delta_uint F c in
    let id = with_default_stat c.meter.id Refs.count in
    (
      record c { prev_value = c.value; init = true },
      if F.lt (zero_double F) d
          then (if F.lt (k_overflow F) d
              then record { id = id; value = zero_double F } ∷ []
              else record { id = id; value = d } ∷ [])
          else [],
    )

-- Timestamps are of type `int64_t`.
pub record MonotonicSampled (F : Float) : Type 0 where
  pub meter : Meter
  pub value : F.Double
  pub prev_value : F.Double
  pub ts : ℤ
  pub prev_ts : ℤ

unfoldable pub new_sampled : (F : Float) → MeterId → ℕ → MonotonicSampled F
new_sampled F id now = record {
  meter = new_meter id now;
  value = F.nan;
  prev_value = F.nan;
  ts = pos 0;
  prev_ts = pos 0;
}

unfoldable pub set_sampled :
    (F : Float) → MonotonicSampled F → ℕ → F.Double → ℤ → MonotonicSampled F
set_sampled F c now amount ts_nanos =
    let c' : MonotonicSampled F = record c { meter = touch c.meter now } in
    if ltb_ℤ ts_nanos c.ts
    then c'
    else if F.is_nan c.prev_value
    then record c' { prev_value = c.value; prev_ts = c.ts; value = amount; ts = ts_nanos }
    else record c' { value = amount; ts = ts_nanos }

unfoldable pub sampled_rate : (F : Float) → MonotonicSampled F → F.Double
sampled_rate F c =
    F.div (F.sub c.value c.prev_value)
      (F.div (F.of_int (wrap64 (c.ts -ℤ c.prev_ts))) (F.of_int (pos 1_000_000_000)))

unfoldable pub measure_sampled :
    (F : Float) → MonotonicSampled F → MonotonicSampled F × List (Measurement F)
measure_sampled F c =
    let d = sampled_rate F c in
    if F.is_nan d then (c, []) else (
      record c { prev_value = c.value; prev_ts = c.ts },
      if F.lt (zero_double F) d
          then record { id = with_stat c.meter.id Refs.count; value = d } ∷ []
          else [],
    )
