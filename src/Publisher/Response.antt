-- ===== src/Publisher/Response.antt =====
-- `Publisher` of spectator/publisher.h: its constructor, and `handle_aggr_response`, which counts what the backend took.
-- The JSON parser is a library: what it makes of a body is a parameter.
pub mod Accounting
use spectatord.Base.{
  ℕ, ◌+◌, ◌-◌, ◌%◌, ◌^◌, ◌==◌, ◌&&◌, List, [], ◌∷◌, Option, none, some, Bool, true, false,
  if◌then◌else◌,
}
use spectatord.CText.{chars}
use spectatord.Int.{ℤ, pos, negsuc, ltb_ℤ, eq_ℤ, pos_part, neg_part, pattern64, sub_ℕ, ◌-ℤ◌}
use spectatord.Float.{Float}
use spectatord.Tags.{Tags, empty_tags}
use spectatord.Id.{add, make_id, intern_str}
use spectatord.Meter.Counter as Counter
use spectatord.MeterMap.{update}
use spectatord.Registry.{Registry, get_counter}
use spectatord.HttpClient.{HttpResponse}
use spectatord.Publisher.Payload.{put_key}

-- The four counters, as their addresses, and the tags of all measurements.
pub record Publisher : Type 0 where
  pub sent_metrics : ℕ
  pub invalid_metrics : ℕ
  pub dropped_http : ℕ
  pub dropped_other : ℕ
  pub common_tags : Tags

-- What the parser finds: `errorCount` as an integer, and `message` as an array of texts; `none` where it is of another
-- type, or missing, which the parser's accessors do not allow.
pub data Body : Type 0 where
  parse_error : Body
  no_error_count : Body
  error_count : Option ℤ → Option (List (List ℕ)) → Body

-- `err_messages->emplace` for each text.
abbrev pub emplace_all : List (List ℕ) → List (List ℕ) → List (List ℕ)
emplace_all messages [] = messages
emplace_all messages (m ∷ ms) = emplace_all (put_key messages m) ms

module _ (F : Float) where
  pub record Report : Type 0 where
    pub registry : Registry F
    pub num_sent : ℕ
    pub num_err : ℕ
    pub err_messages : List (List ℕ)

  -- `detail::get_counter`
  unfoldable pub measurements_counter : Registry F → List ℕ → Tags → ℕ → Registry F × ℕ
  measurements_counter r process_name tags now =
      get_counter F r
        (make_id (intern_str (chars "spectator.measurements"))
          (add tags (chars "nf.process") process_name))
        now

  abbrev dropped : List ℕ → Tags
  dropped error = add (add empty_tags (chars "id") (chars "dropped")) (chars "error") error

  abbrev add_common : Tags → List (List ℕ × List ℕ) → Tags
  add_common tags [] = tags
  add_common tags (kv ∷ kvs) = add_common (add tags kv.0 kv.1) kvs

  -- The constructor
  unfoldable pub new_publisher : Registry F → List ℕ → ℕ → Registry F × Publisher
  unfolding measurements_counter
  new_publisher r process_name now =
      let (r1, sent) =
        measurements_counter r process_name (add empty_tags (chars "id") (chars "sent")) now in
      let (r2, invalid) = measurements_counter r1 process_name (dropped (chars "validation")) now in
      let (r3, http) = measurements_counter r2 process_name (dropped (chars "http-error")) now in
      let (r4, other) = measurements_counter r3 process_name (dropped (chars "other")) now in
      (
        r4,
        record {
          sent_metrics = sent;
          invalid_metrics = invalid;
          dropped_http = http;
          dropped_other = other;
          common_tags = add_common empty_tags r.config.common_tags;
        },
      )

  -- `->Add` on one of the counters, if status metrics are enabled.
  abbrev pub count : Registry F → ℕ → ℕ → ℤ → Registry F
  count r address now amount =
      let all = r.all_meters in
      if r.config.status_metrics_enabled
      then record r {
        all_meters = record all {
          counters = update all.counters address (λ c. Counter.add F c now (F.of_int amount));
        };
      }
      else r

  -- All measurements are dropped.
  abbrev pub drop_all : Registry F → ℕ → ℕ → ℕ → List (List ℕ) → Report
  drop_all r address now n messages = record {
    registry = count r address now (pos n);
    num_sent = 0;
    num_err = n;
    err_messages = messages;
  }

  -- `errorCount` is converted to `size_t`, and so is the difference.
  abbrev pub errors :
      Publisher
      → Registry F
      → ℕ
      → ℕ
      → List (List ℕ)
      → Option ℤ
      → Option (List (List ℕ))
      → Option Report
  errors p r now n messages none more = none
  errors p r now n messages (some err_count) none = none
  errors p r now n messages (some err_count) (some more) =
      let num_sent = pattern64 (pos n -ℤ err_count) in
      some (record {
        registry =
            count (count r p.invalid_metrics now err_count) p.sent_metrics now (pos num_sent);
        num_sent = num_sent;
        num_err = pattern64 err_count;
        err_messages = emplace_all messages more;
      })

  abbrev pub handle_body : Publisher → Registry F → ℕ → ℕ → List (List ℕ) → Body → Option Report
  handle_body p r now n messages parse_error = some (drop_all r p.dropped_other now n messages)
  handle_body p r now n messages no_error_count = some (drop_all r p.dropped_other now n messages)
  handle_body p r now n messages (error_count c m) = errors p r now n messages c m

  -- `handle_aggr_response`: `none` is an access that the parser does not allow.
  unfoldable pub handle_aggr_response :
      (List ℕ → Body)
      → Publisher
      → Registry F
      → ℕ
      → HttpResponse
      → ℕ
      → List (List ℕ)
      → Option Report
  handle_aggr_response parse p r now response n messages =
      let http_code = response.status in
      if eq_ℤ http_code (pos 200)
      then some (record {
        registry = count r p.sent_metrics now (pos n);
        num_sent = n;
        num_err = 0;
        err_messages = messages;
      })
      else if ltb_ℤ (pos 200) http_code && ltb_ℤ http_code (pos 500)
      then handle_body p r now n messages (parse response.raw_body)
      else if eq_ℤ http_code (negsuc 0)
      then some (drop_all r p.dropped_other now n messages)
      else some (drop_all r p.dropped_http now n messages)
