-- ===== src/HttpClient/Tests.antt =====
-- The theorems at a backend that is overloaded once.
use spectatord.Base.{ℕ, zero, suc, ◌≡◌, refl, [], ◌∷◌, List, none, some, false, true}
use spectatord.CText.{chars}
use spectatord.Int.{pos}
use spectatord.Float.Fixed.{fin, fixed}
use spectatord.Registry.{Registry}
use spectatord.Id.{MeterId}
use spectatord.MeterMap.{empty_map}
use spectatord.Tags.{empty_tags}
use spectatord.HttpClient.{HttpClientConfig, Request, Exchange, Performed, perform}
use spectatord.HttpClient.Url.{path_from_url, path_from_url-url_of}
use spectatord.HttpClient.Headers.{header_of, header_of-line}
use spectatord.HttpClient.Retries.{Tried, perform-Tried}

abbrev config : HttpClientConfig
config = record {
  connect_timeout = 2_000_000_000;
  read_timeout = 3_000_000_000;
  compress = true;
  read_headers = false;
  read_body = true;
  status_metrics_enabled = true;
  external_enabled = false;
}

abbrev pub answer : ℕ → ℕ → Exchange
answer start status = record {
  start = start;
  end = start;
  logged = start;
  error = none;
  status_code = pos status;
  body = chars "{}" ∷ [];
  header_lines = [];
}

-- A status of 503, and then of 200.
abbrev overloaded : Request → ℕ → Exchange
overloaded request zero = answer 5 503
overloaded request (suc n) = answer 9 200

abbrev requests : MeterId
requests = record { name = chars "requests"; tags = empty_tags }

-- A registry with a counter.
abbrev pub registry : Registry fixed
registry = record {
  config = record {
    common_tags = [];
    meter_ttl = 900;
    age_gauge_limit = 10;
    status_metrics_enabled = true;
  };
  meter_ttl = 900;
  age_gauge_first_warn = true;
  all_meters = record {
    age_gauges = empty_map;
    counters = record {
      table = (requests, 0) ∷ [];
      heap =
          record { meter = record { id = requests; last_updated = 5 }; count = fin (pos 2) } ∷ [];
    };
    dist_sums = empty_map;
    gauges = empty_map;
    max_gauges = empty_map;
    mono_counters = empty_map;
    mono_counters_uint = empty_map;
    mono_sampled = empty_map;
    timers = empty_map;
  };
  registry_size = 0;
}

abbrev url : List ℕ
url = chars "http://host/api/v4?x=1"

perform-Tried_example :
    (p : Performed fixed) × (perform fixed
        (chars "main")
        overloaded
        3
        registry
        config
        (chars "GET")
        url
        []
        []
        0
      ≡ some p)
    × Tried fixed (chars "main") overloaded config (chars "GET") url [] [] 0 registry p
perform-Tried_example =
    perform-Tried fixed (chars "main") overloaded config (chars "GET") url [] [] registry

path_from_url-url_of_run : path_from_url url ≡ chars "/api/v4"
path_from_url-url_of_run =
    path_from_url-url_of (chars "http") (chars "host") (chars "api/v4") (some (chars "x=1"))
      (refl, (refl, (refl, (refl, tt)))) (refl, (refl, (refl, (refl, tt))))
      (refl, (refl, (refl, (refl, (refl, (refl, tt))))))

header_of-line_run : header_of (chars "Etag: x7\n") ≡ some (chars "Etag", chars "x7")
header_of-line_run = header_of-line (chars "Etag") (chars "x7") (refl, (refl, (refl, (refl, tt))))
