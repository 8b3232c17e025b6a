-- ===== src/Meter/Counter.antt =====
-- spectator/counter.cc
pub mod Laws
use spectatord.Base.{ℕ, List, [], ◌∷◌, Bool, if◌then◌else◌}
use spectatord.Int.{pos}
use spectatord.Float.{Float}
use spectatord.Id.{MeterId, with_default_stat}
use spectatord.Id.Refs
use spectatord.Meter.{Meter, Measurement, new_meter, touch, zero_double}

pub record Counter (F : Float) : Type 0 where
  pub meter : Meter
  pub count : F.Double

unfoldable pub new_counter : (F : Float) → MeterId → ℕ → Counter F
new_counter F id now = record { meter = new_meter id now; count = zero_double F }

-- `Measure`
unfoldable pub measure : (F : Float) → Counter F → Counter F × List (Measurement F)
measure F c = (
  record c { count = zero_double F },
  if F.lt (zero_double F) c.count
      then record { id = with_default_stat c.meter.id Refs.count; value = c.count } ∷ []
      else [],
)

-- `Add`
unfoldable pub add : (F : Float) → Counter F → ℕ → F.Double → Counter F
add F c now delta =
    let c' : Counter F = record c { meter = touch c.meter now } in
    if F.lt delta (zero_double F) then c' else record c' { count = F.add c.count delta }

-- `Increment`
unfoldable pub increment : (F : Float) → Counter F → ℕ → Counter F
unfolding add
increment F c now = add F c now (F.of_int (pos 1))
