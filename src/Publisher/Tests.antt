-- ===== src/Publisher/Tests.antt =====
-- The theorems at a publisher with two measurements, and a backend that takes everything.
use mathlib.Core.List.Permᴰ as Permᴰ
use spectatord.Base.{
  ◌>>=◌, ℕ, ◌+◌, ◌^◌, ◌<◌, ◌≡◌, ◌&&◌, refl, [], ◌∷◌, List, some, true, false, Bool, arith, length,
  map, ltb,
}
use spectatord.CText.{chars}
use spectatord.Int.{pos, negsuc}
use spectatord.Float.Fixed.{fin, fixed}
use spectatord.Tags.{StrRef, Tag, empty_tags}
use spectatord.Id.{MeterId}
use spectatord.Meter.{Measurement}
use spectatord.MeterMap.{measure_map, measure_each}
use spectatord.Meter.Counter.{measure}
use spectatord.Registry.Meters.{is_meter_expired}
use spectatord.Registry.{measurements}
use spectatord.Smile.{result}
use spectatord.Smile.RoundTrip.{IsAscii}
use spectatord.HttpClient.{Request, Exchange, HttpResponse}
use spectatord.HttpClient.Tests.{registry, answer}
use spectatord.Publisher.Payload.{measurements_to_json, str_keys}
use spectatord.Publisher.Payload.Reader.{read_payload}
use spectatord.Publisher.Payload.EntryBytes.{entry_of}
use spectatord.Publisher.Payload.StringBytes.{AllAscii}
use spectatord.Publisher.Payload.RoundTrip.{Sendable, read_payload-measurements_to_json}
use spectatord.Publisher.Batches.{batches, Batched, batches-Batched}
use spectatord.Publisher.Response.{Publisher, Body, Report, handle_aggr_response}
use spectatord.Publisher.Response.Accounting.{Reports, credits, handle_aggr_response-Accounts}
use spectatord.Publisher.Send.{PublishConfig, send_metrics}
use spectatord.Publisher.Send.Totals.{AllSound, send_metrics-total}
use spectatord.Publisher.Lifecycle.{
  Call, Lifecycle, Inv, Outcome, run, fresh, start, stop, run-Inv, stop-start_invalid,
  start-stop_again,
}

-- Texts of ASCII, decided.
abbrev is_ascii : List ℕ → Bool
is_ascii [] = true
is_ascii (c ∷ s) = ltb c 128 && is_ascii s

abbrev all_ascii : List StrRef → Bool
all_ascii [] = true
all_ascii (s ∷ ts) = is_ascii s && all_ascii ts

IsAscii-decided : (s : StrRef) → is_ascii s ≡ true → IsAscii s
IsAscii-decided [] h = tt
IsAscii-decided (c ∷ s) h = (ground arith, IsAscii-decided s (ground arith))

AllAscii-decided : (ts : List StrRef) → all_ascii ts ≡ true → AllAscii ts
AllAscii-decided [] h = tt
AllAscii-decided (s ∷ ts) h = (IsAscii-decided s (ground arith), AllAscii-decided ts (ground arith))

abbrev common : List Tag
common = record { key = chars "nf.app"; value = chars "www" } ∷ []

abbrev one_tag : MeterId
one_tag = record {
  name = chars "requests";
  tags = record empty_tags {
    entries = record { key = chars "statistic"; value = chars "count" } ∷ [];
  };
}

abbrev two : List (Measurement fixed)
two =
    record { id = one_tag; value = fin (pos 5) }
    ∷ record { id = record { name = chars "load"; tags = empty_tags }; value = fin (negsuc 1) }
    ∷ []

two-ascii : AllAscii (str_keys fixed common two)
unfolding str_keys
two-ascii = AllAscii-decided (str_keys fixed common two) refl

two-Sendable : Sendable fixed common (λ ts. ts) two
unfolding str_keys
two-Sendable = record {
  reorders = λ ts. Permᴰ.refl ts;
  few = omega arith;
  ascii = two-ascii;
  fit = ((omega arith, omega arith), ((omega arith, omega arith), tt));
}

read_payload-measurements_to_json_example :
    (measurements_to_json fixed (λ ts. ts) common two >>= λ payload. read_payload (result payload))
    ≡ some (map (entry_of fixed common) two)
read_payload-measurements_to_json_example =
    read_payload-measurements_to_json fixed common (λ ts. ts) two two-Sendable

batches-Batched_example : Batched {A = ℕ} 2 (7 ∷ 8 ∷ 9 ∷ []) (batches 3 2 (7 ∷ 8 ∷ 9 ∷ []))
batches-Batched_example = batches-Batched 3 2 (7 ∷ 8 ∷ 9 ∷ []) (omega arith) (omega arith)

abbrev publisher : Publisher
publisher = record {
  sent_metrics = 0;
  invalid_metrics = 1;
  dropped_http = 2;
  dropped_other = 3;
  common_tags = empty_tags;
}

abbrev one_error : List ℕ → Body
one_error body = Body.error_count (some (pos 1)) (some (chars "bad name" ∷ []))

abbrev refused : HttpResponse
refused = record { status = pos 400; raw_body = chars "{}"; headers = [] }

handle_aggr_response-Accounts_example :
    Reports fixed one_error publisher registry 9 3 2
      (credits fixed one_error publisher refused 3)
      (handle_aggr_response fixed one_error publisher registry 9 refused 3 [])
handle_aggr_response-Accounts_example =
    handle_aggr_response-Accounts fixed one_error publisher registry 9 refused 3 [] (omega arith)
      (λ h. omega arith)

abbrev cfg : PublishConfig
cfg = record {
  uri = chars "http://atlas/publish";
  connect_timeout = 0;
  read_timeout = 0;
  external_enabled = false;
  batch_size = 10;
  is_enabled = true;
}

abbrev unreadable : List ℕ → Body
unreadable body = Body.parse_error

abbrev takes_all : ℕ → Request → ℕ → Exchange
takes_all i request n = answer 9 200

all_sound :
    (responses : List (ℕ × HttpResponse))
    → AllSound fixed (chars "main") unreadable (λ ts. ts) (λ rs. rs) takes_all publisher responses
all_sound [] = tt
all_sound (resp ∷ responses) = (tt, all_sound responses)

few_measurements : length (measurements fixed registry 9).1 < 2 ^ 32
unfolding measurements measure_map measure_each is_meter_expired measure
few_measurements = omega arith

send_metrics-total_example :
    (report : Report fixed) × (send_metrics fixed
        (chars "main")
        unreadable
        (λ ts. ts)
        (λ rs. rs)
        takes_all
        publisher
        cfg
        registry
        9
        9
      ≡ some report)
    × (report.num_sent + report.num_err ≡ length (measurements fixed registry 9).1)
send_metrics-total_example =
    send_metrics-total fixed (chars "main") unreadable (λ ts. ts) (λ rs. rs) takes_all publisher cfg
      registry 9 9 (λ ts. Permᴰ.refl ts) (λ rs. Permᴰ.refl rs) refl (omega arith) few_measurements
      (λ bs r' responses e. all_sound responses)

run-Inv_example : Inv (run (Call.start_call false (pos 10) ∷ Call.stop_call ∷ []) fresh)
run-Inv_example = run-Inv (Call.start_call false (pos 10) ∷ Call.stop_call ∷ []) (refl, tt)

abbrev running : Lifecycle
running = record fresh {
  started = true;
  sender_thread = true;
  http_initialized = true;
  init = true;
  curl_inits = 1;
  spawned = 1;
}

start-stop_again_example :
    ((start false (pos 10) (stop running).0).1 ≡ Outcome.done)
    × ((start false (pos 10) (stop running).0).0.sender_thread ≡ true)
    × ((start false (pos 10) (stop running).0).0.spawned ≡ 2)
    × ((start false (pos 10) (stop running).0).0.should_stop ≡ true)
    × ((start false (pos 10) (stop running).0).0.http_initialized ≡ true)
    × ((start false (pos 10) (stop running).0).0.shutdown ≡ true)
    × ((start false (pos 10) (stop running).0).0.curl_inits ≡ 1)
start-stop_again_example = start-stop_again (pos 10) running refl refl refl refl refl

stop-start_invalid_example :
    ((start false (pos 0) fresh).1 ≡ Outcome.invalid_batch_size)
    × ((start false (pos 10) (start false (pos 0) fresh).0).1 ≡ Outcome.ignored)
    × ((start false (pos 10) (start false (pos 0) fresh).0).0.sender_thread ≡ false)
    × ((stop (start false (pos 0) fresh).0).1 ≡ Outcome.no_thread_to_join)
    × ((stop (start false (pos 0) fresh).0).0.http_initialized ≡ true)
stop-start_invalid_example = stop-start_invalid (pos 0) (pos 10) fresh refl refl refl
