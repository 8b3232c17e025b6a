-- ===== src/Server.antt =====
-- server/spectatord.h and spectatord.cc: the daemon's state and the parsers of its two protocols. The sockets, the
-- threads of `Start` and `Stop`, and logging are not modelled.
pub mod Measurement
pub mod Line
pub mod Lines
pub mod Statsd
pub mod Upkeep
mod Tests
use spectatord.Base.{ℕ, List}
use spectatord.Int.{ℤ}
use spectatord.Float.{Float}
use spectatord.Registry.{Registry}
use spectatord.ExpiringCache.{ExpiringCache}
use spectatord.Percentile.{PercentileTimer, PercentileDistributionSummary}

-- The number parsers of the C library: each returns its value and the number of characters that it took,
-- which is 0 if there is no number at the pointer.
pub record CLib (F : Float) : Type 0 where
  pub strtod : List ℕ → F.Double × ℕ
  pub strtoull : List ℕ → ℕ × ℕ
  pub strtoll : List ℕ → ℤ × ℕ

pub record Server (F : Float) : Type 0 where
  pub registry : Registry F
  -- The addresses of the counters `spectatord.parsedCount` and `spectatord.parseErrors`.
  pub parsed_count : ℕ
  pub parse_errors : ℕ
  pub perc_timers : ExpiringCache PercentileTimer
  pub perc_ds : ExpiringCache PercentileDistributionSummary
