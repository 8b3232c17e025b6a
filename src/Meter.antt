-- ===== src/Meter.antt =====
-- spectator/meter.h, measurement.h and atomicnumber.h: what all meters share. Times are nanoseconds of the
-- clock, passed in where the sources read it. Each method is one step here: what another thread does
-- between the atomic accesses of a method is left out, and the retry loops of `add_double` and `update_max` are taken
-- at their result.
pub mod Counter
pub mod Monotonic
pub mod Gauge
pub mod Distribution
mod Tests
use spectatord.Base.{ℕ, List, [], ◌∷◌, Bool, if◌then◌else◌}
use spectatord.Int.{pos}
use spectatord.Float.{Float}
use spectatord.Id.{MeterId}

-- The base class: the id and the time of the last update.
pub record Meter : Type 0 where
  pub id : MeterId
  pub last_updated : ℕ

-- `Meter(Id)` and `Update()`
abbrev pub new_meter : MeterId → ℕ → Meter
new_meter id now = record { id = id; last_updated = now }

abbrev pub touch : Meter → ℕ → Meter
touch m now = record m { last_updated = now }

pub record Measurement (F : Float) : Type 0 where
  pub id : MeterId
  pub value : F.Double

-- A number of the sources: 0.0.
abbrev pub zero_double : (F : Float) → F.Double
zero_double F = F.of_int (pos 0)

-- `update_max`: the atomic holds the larger value, and keeps its own where the two do not compare.
unfoldable pub update_max : (F : Float) → F.Double → F.Double → F.Double
update_max F n value = if F.lt n value then value else n
