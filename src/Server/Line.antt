-- ===== src/Server/Line.antt =====
-- `Server::parse_line` of server/spectatord.cc: a line `type[,extra]:measurement` of the native protocol.
pub mod Laws
use spectatord.Base.{
  ℕ, zero, suc, ◌+◌, ◌-◌, ◌*◌, ◌^◌, List, [], ◌∷◌, Option, none, some, Bool, true, false, ◌==◌,
  length, drop, min, if◌then◌else◌,
}
use spectatord.CText.{deref, advance}
use spectatord.Int.{ℤ, pos, negsuc, ◌*ℤ◌, wrap64, is_positive}
use spectatord.Float.{Float}
use spectatord.Id.{MeterId}
use spectatord.Meter.{zero_double}
use spectatord.Meter.Counter
use spectatord.Meter.Gauge.{set_gauge, update_max_gauge, update_last_success}
use spectatord.Meter.Monotonic.{set_monotonic, set_monotonic_uint, set_sampled}
use spectatord.Meter.Distribution.{record_summary, record_timer}
use spectatord.MeterMap.{update}
use spectatord.Registry.{
  Registry, get_age_gauge, get_counter, get_distribution_summary, get_gauge, get_gauge_ttl,
  get_max_gauge, get_monotonic_counter, get_monotonic_counter_uint, get_monotonic_sampled,
  get_timer,
}
use spectatord.ExpiringCache.{get_or_create}
use spectatord.Percentile.{
  create_perc_timer, create_perc_ds, record_percentile_timer, record_percentile_summary,
}
use spectatord.Server.{CLib, Server}
use spectatord.Server.Measurement.{
  Value, value_d, value_u, ParseResult, missing_name, missing_value, unable_to_parse_value,
  measured, get_measurement,
}

-- The messages, with the index that some of them name.
pub data LineError : Type 0 where
  invalid_ttl invalid_timestamp expecting_separator : ℕ → LineError
  no_name no_value unable_to_parse : LineError
  unknown_type : ℕ → LineError

module _ (F : Float) where
  -- A method call through the address that a getter returned.
  abbrev pub with_registry : Server F → Registry F → Server F
  with_registry s r = record s { registry = r }

  -- `static_cast<int64_t>(value * 1e9)`
  abbrev pub to_nanos : F.Double → ℤ
  to_nanos x = F.to_int64 (F.mul x (F.of_int (pos 1_000_000_000)))

  -- `absl::Seconds(extra)` in nanoseconds; the conversion to `int64_t` saturates.
  abbrev pub seconds : ℕ → ℕ
  seconds extra = min (extra * 1_000_000_000) (2 ^ 63 - 1)

  abbrev pub record_age : Server F → ℕ → MeterId → F.Double → Server F
  record_age s now id x =
      let (r, a) = get_age_gauge F s.registry id now in
      let at = if F.eq x (zero_double F) then pos now else to_nanos x in
      with_registry s (record r {
        all_meters = record (r.all_meters) {
          age_gauges = update r.all_meters.age_gauges a (λ g. update_last_success g at);
        };
      })

  abbrev pub record_counter : Server F → ℕ → MeterId → F.Double → Server F
  record_counter s now id x =
      let (r, a) = get_counter F s.registry id now in
      with_registry s (record r {
        all_meters = record (r.all_meters) {
          counters = update r.all_meters.counters a (λ c. Counter.add F c now x);
        };
      })

  abbrev pub record_monotonic : Server F → ℕ → MeterId → F.Double → Server F
  record_monotonic s now id x =
      let (r, a) = get_monotonic_counter F s.registry id now in
      with_registry s (record r {
        all_meters = record (r.all_meters) {
          mono_counters = update r.all_meters.mono_counters a (λ c. set_monotonic F c now x);
        };
      })

  abbrev pub record_distribution : Server F → ℕ → MeterId → F.Double → Server F
  record_distribution s now id x =
      let (r, a) = get_distribution_summary F s.registry id now in
      with_registry s (record r {
        all_meters = record (r.all_meters) {
          dist_sums = update r.all_meters.dist_sums a (λ d. record_summary F d now x);
        };
      })

  abbrev pub record_perc_distribution : Server F → ℕ → MeterId → F.Double → Server F
  record_perc_distribution s now id x =
      let (cache, r, d) = get_or_create (create_perc_ds F now) s.perc_ds s.registry now id in
      record s { registry = record_percentile_summary F r d now (F.to_int64 x); perc_ds = cache }

  abbrev pub gauge_of : Server F → ℕ → ℤ → MeterId → Registry F × ℕ
  gauge_of s now (pos zero) id = get_gauge F s.registry id now
  gauge_of s now (pos (suc n)) id = get_gauge_ttl F s.registry id (seconds (suc n)) now
  gauge_of s now (negsuc n) id = get_gauge F s.registry id now

  abbrev pub record_gauge : Server F → ℕ → ℤ → MeterId → F.Double → Server F
  record_gauge s now extra id x =
      let (r, a) = gauge_of s now extra id in
      with_registry s (record r {
        all_meters = record (r.all_meters) {
          gauges = update r.all_meters.gauges a (λ g. set_gauge F g now x);
        };
      })

  abbrev pub record_max_gauge : Server F → ℕ → MeterId → F.Double → Server F
  record_max_gauge s now id x =
      let (r, a) = get_max_gauge F s.registry id now in
      with_registry s (record r {
        all_meters = record (r.all_meters) {
          max_gauges = update r.all_meters.max_gauges a (λ g. update_max_gauge F g now x);
        };
      })

  abbrev pub record_timing : Server F → ℕ → MeterId → ℤ → Server F
  record_timing s now id nanos =
      let (r, a) = get_timer F s.registry id now in
      with_registry s (record r {
        all_meters = record (r.all_meters) {
          timers = update r.all_meters.timers a (λ t. record_timer F t now nanos);
        };
      })

  abbrev pub record_perc_timing : Server F → ℕ → MeterId → ℤ → Server F
  record_perc_timing s now id nanos =
      let (cache, r, t) = get_or_create (create_perc_timer F now) s.perc_timers s.registry now id in
      record s { registry = record_percentile_timer F r t now nanos; perc_timers = cache }

  abbrev pub record_uint : Server F → ℕ → MeterId → ℕ → Server F
  record_uint s now id n =
      let (r, a) = get_monotonic_counter_uint F s.registry id now in
      with_registry s (record r {
        all_meters = record (r.all_meters) {
          mono_counters_uint =
              update r.all_meters.mono_counters_uint a (λ c. set_monotonic_uint c now n);
        };
      })

  -- The timestamp is given in milliseconds. `Set` takes a double, so the integer is converted.
  abbrev pub record_sampled : Server F → ℕ → ℤ → MeterId → ℕ → Server F
  record_sampled s now extra id n =
      let (r, a) = get_monotonic_sampled F s.registry id now in
      with_registry s (record r {
        all_meters = record (r.all_meters) {
          mono_sampled =
              update r.all_meters.mono_sampled a
                (λ c. set_sampled F c now (F.of_int (pos n)) (wrap64 (extra *ℤ pos 1_000_000)));
        };
      })

  -- The `switch` over the type.
  unfoldable pub dispatch : Server F → ℕ → ℕ → ℤ → MeterId → Value F → Server F × Option LineError
  dispatch s now type extra id value =
      let x = value_d F value in
      if type == b'A'
      then (record_age s now id x, none)
      else if type == b'c'
      then (record_counter s now id x, none)
      else if type == b'C'
      then (record_monotonic s now id x, none)
      else if type == b'd'
      then (record_distribution s now id x, none)
      else if type == b'D'
      then (record_perc_distribution s now id x, none)
      else if type == b'g'
      then (record_gauge s now extra id x, none)
      else if type == b'm'
      then (record_max_gauge s now id x, none)
      else if type == b't'
      then (record_timing s now id (to_nanos x), none)
      else if type == b'T'
      then (record_perc_timing s now id (to_nanos x), none)
      else if type == b'U'
      then (record_uint s now id (value_u F value), none)
      else if type == b'X'
      then (
        (if is_positive extra then record_sampled s now extra id (value_u F value) else s),
        none,
      )
      else (s, some (unknown_type type))

  abbrev pub after_measurement : Server F → ℕ → ℕ → ℤ → ParseResult F → Server F × Option LineError
  after_measurement s now type extra missing_name = (s, some no_name)
  after_measurement s now type extra missing_value = (s, some no_value)
  after_measurement s now type extra unable_to_parse_value = (s, some unable_to_parse)
  after_measurement s now type extra (measured id value warned) = dispatch s now type extra id value

  module _ (lib : CLib F) where
    -- From the separator on, at the index `i`.
    abbrev pub from_separator : Server F → ℕ → ℕ → ℤ → List ℕ → ℕ → Server F × Option LineError
    from_separator s now type extra p i =
        if deref p == b':'
        then after_measurement s now type extra (get_measurement lib type (advance p))
        else (s, some (expecting_separator i))

    -- `parse_line`, of the memory from the line on.
    unfoldable pub parse_line : Server F → ℕ → List ℕ → Server F × Option LineError
    parse_line s now buffer =
        let type = deref buffer in
        let p = advance buffer in
        let q = advance p in
        let extra : ℤ = (lib.strtoll q).0 in
        let n = (lib.strtoll q).1 in
        if deref p == b','
        then (if is_positive extra
            then from_separator s now type extra (drop n q) (2 + n)
            else if type == b'g'
            then (s, some (invalid_ttl 2))
            else if type == b'X'
            then (s, some (invalid_timestamp 2))
            else from_separator s now type extra (drop n q) (2 + n))
        else from_separator s now type (pos 0) p 1
