-- ===== src/Server/Tests.antt =====
-- The theorems at a daemon with no meter, and a C library that reads decimal digits.
use spectatord.Base.{
  ℕ, ◌+◌, ◌-◌, ◌*◌, ◌≡◌, ◌≢◌, refl, List, [], ◌∷◌, ◌++◌, Option, some, none, true, ◌&&◌, leb, arith,
  if◌then◌else◌,
}
use spectatord.CText.{chars}
use spectatord.Int.{pos}
use spectatord.Float.Fixed.{fin, fixed}
use spectatord.Tags.{empty_tags}
use spectatord.MeterMap.{empty_map}
use spectatord.ExpiringCache.{empty_cache}
use spectatord.Server.{CLib, Server}
use spectatord.Server.Measurement.{get_measurement}
use spectatord.Server.Measurement.Scan.{printed_tags, added}
use spectatord.Server.Measurement.Printed.{expected, get_measurement-printed}
use spectatord.Server.Measurement.Overrun.{get_measurement_overrun}
use spectatord.Server.Line.{LineError, no_name, parse_line}
use spectatord.Server.Line.Laws.{parse_line_error}
use spectatord.Server.Lines.{parse_lines}
use spectatord.Server.Lines.Laws.{joined, IsLine, feed, parse_lines-joined, parse_lines_ends}
use spectatord.Server.Statsd.{name_required, parse_statsd_line, statsd_tag_loop, stuck}
use spectatord.Server.Statsd.Laws.{parse_statsd_line_error, statsd_tag_loop_ends}

-- The value of the leading digits, and their number.
abbrev digits : ℕ → ℕ → List ℕ → ℕ × ℕ
digits n k [] = (n, k)
digits n k (c ∷ p) =
    if leb b'0' c && leb c b'9' then digits (n * 10 + (c - b'0')) (k + 1) p else (n, k)

abbrev decimal : CLib fixed
decimal = record {
  strtod = λ p. (fin (pos (digits 0 0 p).0), (digits 0 0 p).1);
  strtoull = digits 0 0;
  strtoll = λ p. (pos (digits 0 0 p).0, (digits 0 0 p).1);
}

abbrev idle : Server fixed
idle = record {
  registry = record {
    config = record {
      common_tags = [];
      meter_ttl = 900;
      age_gauge_limit = 10;
      status_metrics_enabled = true;
    };
    meter_ttl = 900;
    age_gauge_first_warn = true;
    all_meters = record {
      age_gauges = empty_map;
      counters = empty_map;
      dist_sums = empty_map;
      gauges = empty_map;
      max_gauges = empty_map;
      mono_counters = empty_map;
      mono_counters_uint = empty_map;
      mono_sampled = empty_map;
      timers = empty_map;
    };
    registry_size = 0;
  };
  parsed_count = 0;
  parse_errors = 1;
  perc_timers = empty_cache;
  perc_ds = empty_cache;
}

abbrev nameless : List ℕ
nameless = chars "c::42"

nameless_refused : (parse_line fixed decimal idle 5 nameless).1 ≡ some no_name
unfolding parse_line get_measurement
nameless_refused = refl

parse_line_error_example :
    ((parse_line fixed decimal idle 5 nameless).0.registry ≡ idle.registry)
    × ((parse_line fixed decimal idle 5 nameless).0.perc_timers ≡ idle.perc_timers)
    × ((parse_line fixed decimal idle 5 nameless).0.perc_ds ≡ idle.perc_ds)
parse_line_error_example = parse_line_error fixed decimal idle 5 nameless no_name nameless_refused

statsd_nameless_refused :
    (parse_statsd_line fixed decimal idle 5 (chars ":1|c")).1 ≡ some name_required
unfolding parse_statsd_line
statsd_nameless_refused = refl

parse_statsd_line_error_example :
    ((parse_statsd_line fixed decimal idle 5 (chars ":1|c")).0.registry ≡ idle.registry)
    × ((parse_statsd_line fixed decimal idle 5 (chars ":1|c")).0.perc_timers ≡ idle.perc_timers)
    × ((parse_statsd_line fixed decimal idle 5 (chars ":1|c")).0.perc_ds ≡ idle.perc_ds)
parse_statsd_line_error_example =
    parse_statsd_line_error fixed decimal idle 5 (chars ":1|c") name_required
      statsd_nameless_refused

abbrev parser : Server fixed → List ℕ → Server fixed × Option LineError
parser s p = parse_line fixed decimal s 5 p

c_a_1-IsLine : IsLine (chars "c:a:1")
c_a_1-IsLine = (refl, omega arith)

parse_lines-joined_example :
    parse_lines fixed 5 parser 2 idle (joined (chars "c:a:1") (chars "c:a:1" ∷ []))
    ≡ some (feed fixed 5 parser idle (chars "c:a:1") (chars "c:a:1" ∷ []))
parse_lines-joined_example =
    parse_lines-joined fixed 5 parser 2 idle (chars "c:a:1") (chars "c:a:1" ∷ []) c_a_1-IsLine
      (c_a_1-IsLine, tt) (omega arith)

parse_lines_ends_run :
    (r : Server fixed × List LineError) × (parse_lines fixed 5 parser 7 idle (chars "c:a:1")
      ≡ some r)
parse_lines_ends_run = parse_lines_ends fixed 5 parser 7 idle (chars "c:a:1") (omega arith)

statsd_tag_loop_ends_run : statsd_tag_loop 10 (chars "a:1,b") empty_tags 0 0 0 none ≢ stuck
statsd_tag_loop_ends_run =
    statsd_tag_loop_ends 10 (chars "a:1,b") empty_tags 0 0 0 none (omega arith) (omega arith)

abbrev app_web : List (List ℕ × List ℕ)
app_web = (chars "app", chars "web") ∷ (chars "zone", chars "a") ∷ []

get_measurement-printed_example :
    get_measurement decimal b'c' (chars "requests" ++ printed_tags app_web (b':' ∷ chars "42"))
    ≡ expected decimal b'c' (chars "requests") (added empty_tags app_web) (chars "42")
get_measurement-printed_example =
    get_measurement-printed decimal b'c' b'r' (chars "equests") (chars "42") app_web refl refl

get_measurement_overrun_example :
    get_measurement decimal b'c' (chars "requests" ++ b',' ∷ 0 ∷ chars "42")
    ≡ expected decimal b'c' (chars "requests") empty_tags (chars "42")
get_measurement_overrun_example =
    get_measurement_overrun decimal b'c' b'r' (chars "equests") (chars "42") refl
