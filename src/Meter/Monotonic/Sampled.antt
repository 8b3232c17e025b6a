-- ===== src/Meter/Monotonic/Sampled.antt =====
-- What a sampled source publishes.
use spectatord.Base.{ℕ, ◌≡◌, refl, [], true, false, arith}
use spectatord.Int.{ℤ, ltb_ℤ}
use spectatord.Float.{Float, IsIeee}
use spectatord.Id.{MeterId}
use spectatord.Meter.{touch}
use spectatord.Meter.Monotonic.{
  MonotonicSampled, new_sampled, set_sampled, sampled_rate, measure_sampled,
}

module _ (F : Float) where
  -- A point older than the last one only counts as an update.
  pub set_sampled_old :
      (c : MonotonicSampled F) (now : ℕ) (amount : F.Double) (ts : ℤ)
      → ltb_ℤ ts c.ts ≡ true
      → set_sampled F c now amount ts ≡ record c { meter = touch c.meter now }
  unfolding set_sampled
  set_sampled_old c now amount ts h = rw h refl

  nan_rate :
      (ieee : IsIeee F) (c : MonotonicSampled F)
      → F.is_nan c.prev_value ≡ true
      → F.is_nan (sampled_rate F c) ≡ true
  unfolding sampled_rate
  nan_rate ieee c h = ieee.div-nan_left _ _ (ieee.sub-nan_right c.value c.prev_value h)

  -- With one point alone nothing is published, and the point is kept as it is.
  pub first_silent_sampled :
      (ieee : IsIeee F) (id : MeterId) (born now : ℕ) (amount : F.Double) (ts : ℤ)
      → measure_sampled F (set_sampled F (new_sampled F id born) now amount ts)
        ≡ (set_sampled F (new_sampled F id born) now amount ts, [])
  unfolding measure_sampled
  first_silent_sampled ieee id born now amount ts =
      rw (nan_rate ieee (set_sampled F (new_sampled F id born) now amount ts) prev_nan) refl
    where
      prev_nan : F.is_nan (set_sampled F (new_sampled F id born) now amount ts).prev_value ≡ true
      prev_nan = unfold set_sampled new_sampled in ground (arith, ieee.nan-is_nan)

  -- Within one reporting interval the baseline stays: the point of the last measurement is what the next
  -- rate is taken from, however many points come in between.
  pub set_sampled_baseline :
      (c : MonotonicSampled F) (now : ℕ) (amount : F.Double) (ts : ℤ)
      → F.is_nan c.prev_value ≡ false
      → ((set_sampled F c now amount ts).prev_value ≡ c.prev_value)
        × ((set_sampled F c now amount ts).prev_ts ≡ c.prev_ts)
  unfolding set_sampled
  set_sampled_baseline c now amount ts h = ground (arith, h)
