-- ===== src/Meter/Monotonic/Laws.antt =====
-- What the monotonic counters publish.
use spectatord.Base.{ℕ, ◌+◌, ◌-◌, ◌%◌, ◌^◌, ◌<◌, ◌≡◌, refl, [], ◌∷◌, arith, if◌then◌else◌}
use spectatord.Int.{pos}
use spectatord.Float.{Float, IsIeee}
use spectatord.Id.{MeterId, with_default_stat}
use spectatord.Id.Refs
use spectatord.Meter.{zero_double}
use spectatord.Meter.Monotonic.{
  MonotonicCounter, new_monotonic, set_monotonic, measure_monotonic, MonotonicCounterUint,
  uint_delta, new_monotonic_uint, set_monotonic_uint, measure_monotonic_uint, k_overflow,
}

-- The delta of two `uint64_t` values is their distance going up, modulo 2^64, in both branches.
pub uint_delta_mod :
    (prev curr : ℕ)
    → prev < 2 ^ 64
    → curr < 2 ^ 64
    → uint_delta prev curr ≡ (curr + (2 ^ 64 - prev)) % 2 ^ 64
unfolding uint_delta
uint_delta_mod prev curr h k = ground arith

-- Going up from the previous value by the delta reaches the new one, across the wrap too.
pub uint_delta_reaches :
    (prev curr : ℕ)
    → prev < 2 ^ 64
    → curr < 2 ^ 64
    → ((prev + uint_delta prev curr) % 2 ^ 64 ≡ curr) × (uint_delta prev curr < 2 ^ 64)
unfolding uint_delta
uint_delta_reaches prev curr h k = ground arith

module _ (F : Float) where
  -- A new monotonic counter publishes nothing at its first measurement, whatever it has been set to.
  pub first_silent :
      (ieee : IsIeee F) (id : MeterId) (born now : ℕ) (amount : F.Double)
      → (measure_monotonic F (set_monotonic F (new_monotonic F id born) now amount)).1 ≡ []
  unfolding measure_monotonic set_monotonic new_monotonic
  first_silent ieee id born now amount =
      rw (ieee.lt-nan_right (zero_double F) _ (ieee.sub-nan_right amount F.nan ieee.nan-is_nan))
        refl

  -- Then it publishes the increase since the value at the last measurement, if that is positive.
  pub measure-set_monotonic :
      (c : MonotonicCounter F) (now : ℕ) (amount : F.Double)
      → let d = F.sub amount c.value in
        ((measure_monotonic F (set_monotonic F (measure_monotonic F c).0 now amount)).1 ≡ (
          if F.lt (zero_double F) d
          then record { id = with_default_stat c.meter.id Refs.count; value = d } ∷ []
          else []))
        × ((measure_monotonic F (set_monotonic F (measure_monotonic F c).0 now amount)).0.prev_value
            ≡ amount)
  unfolding measure_monotonic set_monotonic
  measure-set_monotonic c now amount = (refl, refl)

  -- The first measurement of an unsigned counter is silent.
  pub first_silent_uint :
      (ieee : IsIeee F) (id : MeterId) (born now amount : ℕ)
      → (measure_monotonic_uint F (set_monotonic_uint (new_monotonic_uint id born) now amount)).1
        ≡ []
  unfolding measure_monotonic_uint set_monotonic_uint new_monotonic_uint
  first_silent_uint ieee id born now amount =
      rw (ieee.lt-nan_right (zero_double F) F.nan ieee.nan-is_nan) refl

  -- From the second measurement on an unsigned counter publishes how far it has gone up modulo 2^64: a
  -- delta above `kOverflow` as 0, any other positive delta as it is, and a delta of 0 not at all.
  pub measure-set_uint :
      (c : MonotonicCounterUint) (now amount : ℕ)
      → c.value < 2 ^ 64
      → amount < 2 ^ 64
      → let d = F.of_int (pos ((amount + (2 ^ 64 - c.value)) % 2 ^ 64)) in
        let id = with_default_stat c.meter.id Refs.count in
        (measure_monotonic_uint F (set_monotonic_uint (measure_monotonic_uint F c).0 now amount)).1
        ≡ (if F.lt (zero_double F) d
            then (if F.lt (k_overflow F) d
                then record { id = id; value = zero_double F } ∷ []
                else record { id = id; value = d } ∷ [])
            else [])
  unfolding measure_monotonic_uint set_monotonic_uint
  measure-set_uint c now amount h k = rw (uint_delta_mod c.value amount h k) refl
