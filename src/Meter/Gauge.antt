-- ===== src/Meter/Gauge.antt =====
-- spectator/gauge.cc, max_gauge.cc and age_gauge.h. A TTL is in nanoseconds and not negative.
pub mod Laws
use spectatord.Base.{ℕ, ◌+◌, ◌-◌, ◌*◌, List, [], ◌∷◌, Bool, true, false, ltb, if◌then◌else◌}
use spectatord.Int.{ℤ, pos, ◌-ℤ◌, wrap64}
use spectatord.Float.{Float}
use spectatord.Id.{MeterId, with_default_stat, with_stat}
use spectatord.Id.Refs
use spectatord.Meter.{Meter, Measurement, new_meter, touch, zero_double, update_max}

abbrev pub k_min_ttl_nanos : ℕ
k_min_ttl_nanos = 5_000_000_000

unfoldable pub get_ttl : ℕ → ℕ
get_ttl ttl = if ltb ttl k_min_ttl_nanos then k_min_ttl_nanos else ttl

pub record Gauge (F : Float) : Type 0 where
  pub meter : Meter
  pub ttl_nanos : ℕ
  pub value : F.Double

unfoldable pub new_gauge : (F : Float) → MeterId → ℕ → ℕ → Gauge F
unfolding get_ttl
new_gauge F id ttl now = record { meter = new_meter id now; ttl_nanos = get_ttl ttl; value = F.nan }

-- `HasExpired`: where the clock has gone back, `now - Updated()` is negative, and so is no more than the TTL.
unfoldable pub has_expired : {F : Float} → ℕ → Gauge F → Bool
has_expired now g = ltb g.ttl_nanos (now - g.meter.last_updated)

unfoldable pub measure_gauge : (F : Float) → ℕ → Gauge F → Gauge F × List (Measurement F)
measure_gauge F now g = (
  if has_expired now g then record g { value = F.nan } else g,
  if F.is_nan g.value
      then []
      else record { id = with_default_stat g.meter.id Refs.gauge; value = g.value } ∷ [],
)

unfoldable pub set_gauge : (F : Float) → Gauge F → ℕ → F.Double → Gauge F
set_gauge F g now value = record g { meter = touch g.meter now; value = value }

unfoldable pub set_ttl : {F : Float} → Gauge F → ℕ → Gauge F
unfolding get_ttl
set_ttl g ttl = record g { ttl_nanos = get_ttl ttl }

pub record MaxGauge (F : Float) : Type 0 where
  pub meter : Meter
  pub value : F.Double

unfoldable pub new_max_gauge : (F : Float) → MeterId → ℕ → MaxGauge F
new_max_gauge F id now = record { meter = new_meter id now; value = F.lowest }

unfoldable pub measure_max_gauge : (F : Float) → MaxGauge F → MaxGauge F × List (Measurement F)
measure_max_gauge F g = (
  record g { value = F.lowest },
  if F.eq g.value F.lowest
      then []
      else record { id = with_stat g.meter.id Refs.max; value = g.value } ∷ [],
)

-- `Update` and `Set`
unfoldable pub update_max_gauge : (F : Float) → MaxGauge F → ℕ → F.Double → MaxGauge F
unfolding update_max
update_max_gauge F g now value = record g {
  meter = touch g.meter now;
  value = update_max F g.value value;
}

unfoldable pub get_max_gauge : (F : Float) → MaxGauge F → F.Double
get_max_gauge F g = if F.eq g.value F.lowest then F.nan else g.value

-- The time of the last success is of type `int64_t`.
pub record AgeGauge : Type 0 where
  pub meter : Meter
  pub last_success : ℤ

unfoldable pub new_age_gauge : MeterId → ℕ → AgeGauge
new_age_gauge id now = record { meter = new_meter id now; last_success = pos 0 }

unfoldable pub update_last_success : AgeGauge → ℤ → AgeGauge
update_last_success g now = record g { last_success = now }

-- `Value`, in seconds.
unfoldable pub age_value : (F : Float) → ℕ → AgeGauge → F.Double
age_value F now g =
    F.div (F.of_int (wrap64 (pos now -ℤ g.last_success))) (F.of_int (pos 1_000_000_000))

unfoldable pub measure_age_gauge : (F : Float) → ℕ → AgeGauge → AgeGauge × List (Measurement F)
unfolding age_value
measure_age_gauge F now g =
    (g, record { id = with_default_stat g.meter.id Refs.gauge; value = age_value F now g } ∷ [])
