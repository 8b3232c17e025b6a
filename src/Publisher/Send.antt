-- ===== src/Publisher/Send.antt =====
-- `send_metrics` of spectator/publisher.h: the measurements of the registry in batches, a request for each, and the
-- totals of what the backend took. The requests are made in the order of the batches (Pool has the interleavings); their
-- responses are handled in the order `complete` of their completion.
pub mod Totals
use spectatord.Base.{
  ◌>>=◌, ℕ, suc, ◌+◌, ◌%◌, ◌^◌, ◌==◌, List, [], ◌∷◌, Option, none, some, Bool, true, false, length,
  if◌then◌else◌, not, ◌||◌,
}
use spectatord.CText.{chars}
use spectatord.Float.{Float}
use spectatord.Tags.{StrRef}
use spectatord.Meter.{Measurement}
use spectatord.Registry.{Registry, measurements}
use spectatord.Smile.{result}
use spectatord.HttpClient.{HttpClientConfig, Request, Exchange, HttpResponse, Performed, post}
use spectatord.Publisher.Payload.{measurements_to_json}
use spectatord.Publisher.Batches.{batches}
use spectatord.Publisher.Response.{Publisher, Body, Report, handle_aggr_response}

-- The rest of the fields of `Config` that the publisher reads. Durations are in nanoseconds, and `Start` has refused a
-- size of a batch that is not positive.
pub record PublishConfig : Type 0 where
  pub uri : List ℕ
  pub connect_timeout : ℕ
  pub read_timeout : ℕ
  pub external_enabled : Bool
  pub batch_size : ℕ
  pub is_enabled : Bool

-- A timeout of zero stands for a default.
abbrev pub or_default : ℕ → ℕ → ℕ
or_default d default = if d == 0 then default else d

-- `get_http_config`
unfoldable pub get_http_config : PublishConfig → Bool → HttpClientConfig
get_http_config cfg status_metrics_enabled = record {
  connect_timeout = or_default cfg.connect_timeout 2_000_000_000;
  read_timeout = or_default cfg.read_timeout 3_000_000_000;
  compress = true;
  read_headers = false;
  read_body = true;
  status_metrics_enabled = status_metrics_enabled;
  external_enabled = cfg.external_enabled;
}

-- `HttpClient::kSmileJson`
abbrev pub k_smile_json : List ℕ
k_smile_json = chars "Content-Type: application/x-jackson-smile"

module _ (F : Float) where
  abbrev pub no_report : Registry F → Report F
  no_report r = record { registry = r; num_sent = 0; num_err = 0; err_messages = [] }

  abbrev pub is_empty : List (Measurement F) → Bool
  is_empty [] = true
  is_empty (m ∷ ms) = false

module _ (F : Float) (process_name : List ℕ) (parse : List ℕ → Body)
    (order : List StrRef → List StrRef)
    (complete : List (ℕ × HttpResponse) → List (ℕ × HttpResponse))
    (exchange : ℕ → Request → ℕ → Exchange) where
  -- The body of a task: what batch number `i` posts, with its size and its response.
  unfoldable pub post_batches :
      Publisher
      → PublishConfig
      → Registry F
      → ℕ
      → List (List (Measurement F))
      → Option (Registry F × List (ℕ × HttpResponse))
  post_batches p cfg r i [] = some (r, [])
  post_batches p cfg r i (b ∷ bs) = do
    payload ← measurements_to_json F order p.common_tags.entries b
    sent ←
        post F process_name (exchange i) r (get_http_config cfg r.config.status_metrics_enabled)
          cfg.uri k_smile_json (result payload)
    (r', responses) ← post_batches p cfg sent.registry (suc i) bs
    some (r', (length b, sent.response) ∷ responses)

  -- The loop over the responses; the totals are `unsigned`.
  unfoldable pub handle_all : Publisher → ℕ → List (ℕ × HttpResponse) → Report F → Option (Report F)
  handle_all p now [] total = some total
  handle_all p now (resp ∷ responses) total = do
    report ← handle_aggr_response F parse p total.registry now resp.1 resp.0 total.err_messages
    handle_all p now responses (record {
      registry = report.registry;
      num_sent = (total.num_sent + report.num_sent) % 2 ^ 32;
      num_err = (total.num_err + report.num_err) % 2 ^ 32;
      err_messages = report.err_messages;
    })

  -- From the loop of the batches on.
  unfoldable pub send_batches :
      Publisher → PublishConfig → Registry F → ℕ → List (Measurement F) → Option (Report F)
  send_batches p cfg r done ms = do
    bs ← batches (length ms) cfg.batch_size ms
    (r', responses) ← post_batches p cfg r 0 bs
    handle_all p done (complete responses) (no_report F r')

  -- `now` is when the measurements are taken, and `done` when the responses are handled.
  unfoldable pub send_metrics : Publisher → PublishConfig → Registry F → ℕ → ℕ → Option (Report F)
  send_metrics p cfg r now done =
      let (r', ms) = measurements F r now in
      if not cfg.is_enabled || is_empty F ms
      then some (no_report F r')
      else send_batches p cfg r' done ms
