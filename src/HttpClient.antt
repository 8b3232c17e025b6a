-- ===== src/HttpClient.antt =====
-- spectator/http_client.cc: a request with its retries. The library curl makes the exchanges: what it gives for each
-- attempt at a request is a parameter of the model.
pub mod Url
pub mod Entry
pub mod Headers
pub mod Retries
pub mod Tests
use spectatord.Base.{
  ◌>>=◌, ℕ, zero, suc, ◌+◌, ◌-◌, ◌*◌, ◌/◌, ◌^◌, List, [], ◌∷◌, ◌++◌, Option, none, some, Bool, true,
  false, ◌==◌, ◌&&◌, ◌||◌, not, ltb, if◌then◌else◌,
}
use spectatord.CText.{chars, text_eq}
use spectatord.Int.{ℤ, pos, negsuc, div_ℤ, eq_ℤ}
use spectatord.Float.{Float}
use spectatord.Registry.{Registry}
use spectatord.HttpClient.Entry.{
  LogEntry, new_entry, set_status_code, set_attempt, set_error, set_success, log,
}
use spectatord.HttpClient.Headers.{capture_headers}

-- Durations in nanoseconds. The certificates and the tracing are options of curl alone.
pub record HttpClientConfig : Type 0 where
  pub connect_timeout : ℕ
  pub read_timeout : ℕ
  pub compress : Bool
  pub read_headers : Bool
  pub read_body : Bool
  pub status_metrics_enabled : Bool
  pub external_enabled : Bool

-- The codes of curl that are told apart.
pub data CurlCode : Type 0 where
  couldnt_resolve_host : CurlCode
  couldnt_connect : CurlCode
  operation_timedout : CurlCode
  other : CurlCode

-- What a handle is set to before `curl_easy_perform`.
pub record Request : Type 0 where
  pub url : List ℕ
  pub headers : List (List ℕ)
  pub post_fields : Option (List ℕ)
  pub custom_request : Option (List ℕ)
  pub timeout_ms : ℕ
  pub connect_timeout_ms : ℕ
  pub metatron : Bool

-- One exchange: the times at which the attempt starts, ends, and is logged, how curl ended (`none` is `CURLE_OK`), the
-- status code, and the blocks of the body and of the headers that curl handed over.
pub record Exchange : Type 0 where
  pub start : ℕ
  pub end : ℕ
  pub logged : ℕ
  pub error : Option CurlCode
  pub status_code : ℤ
  pub body : List (List ℕ)
  pub header_lines : List (List ℕ)

pub record HttpResponse : Type 0 where
  pub status : ℤ
  pub raw_body : List ℕ
  pub headers : List (List ℕ × List ℕ)

-- `is_retryable_error`
unfoldable pub is_retryable_error : ℤ → Bool
is_retryable_error http_code = eq_ℤ http_code (pos 429) || eq_ℤ (div_ℤ http_code 100) (pos 5)

abbrev pub total_timeout : HttpClientConfig → ℕ
total_timeout config = config.connect_timeout + config.read_timeout

-- `ToInt64Milliseconds`
abbrev pub to_ms : ℕ → ℕ
to_ms d = d / 1_000_000

-- The set-up of the handle in `perform`.
unfoldable pub request_of : HttpClientConfig → List ℕ → List ℕ → List (List ℕ) → List ℕ → Request
request_of config method url headers payload = record {
  url = url;
  headers = headers;
  post_fields = if text_eq (chars "POST") method then some payload else none;
  custom_request =
      if text_eq (chars "POST") method
      then none
      else if text_eq (chars "GET") method
      then none
      else some method;
  timeout_ms = to_ms (total_timeout config);
  connect_timeout_ms = to_ms config.connect_timeout;
  metatron = config.external_enabled;
}

abbrev pub error_name : CurlCode → List ℕ
error_name CurlCode.couldnt_resolve_host = chars "dns_error"
error_name CurlCode.couldnt_connect = chars "connection_error"
error_name CurlCode.operation_timedout = chars "timeout"
error_name CurlCode.other = chars "unknown"

-- The callbacks of the body append each block.
abbrev pub capture_output : Bool → List (List ℕ) → List ℕ
capture_output false blocks = []
capture_output true [] = []
capture_output true (b ∷ blocks) = b ++ capture_output true blocks

-- The entry of a failed exchange, and of one with a status.
abbrev pub failed_entry : LogEntry → CurlCode → LogEntry
failed_entry e code = set_error e (error_name code)

abbrev pub answered_entry : LogEntry → ℤ → LogEntry
answered_entry e http_code =
    let e' = set_status_code e http_code in
    if eq_ℤ (div_ℤ http_code 100) (pos 2) then set_success e' else set_error e' (chars "http_error")

-- What an attempt comes to: its entry before the number of the attempt is set, the status, whether another attempt is
-- due, and the milliseconds to sleep before it.
pub record Attempt : Type 0 where
  pub entry : LogEntry
  pub http_code : ℤ
  pub retry : Bool
  pub sleep_ms : ℕ

unfoldable pub attempt_of : HttpClientConfig → LogEntry → ℕ → Exchange → Option CurlCode → Attempt
unfolding is_retryable_error
attempt_of config e n x (some code) =
    let again = ltb (x.end - x.start) (total_timeout config) && ltb n 2 in
    let failed = failed_entry e code in
    record {
      entry = if again then failed else set_status_code failed (negsuc 0);
      http_code = negsuc 0;
      retry = again;
      sleep_ms = 0;
    }
attempt_of config e n x none = record {
  entry = answered_entry e x.status_code;
  http_code = x.status_code;
  retry = is_retryable_error x.status_code && ltb n 2;
  sleep_ms = 200 * 2 ^ n;
}

module _ (F : Float) where
  -- What a call of `perform` leaves: the registry, the response, the number of exchanges, and the milliseconds slept.
  pub record Performed : Type 0 where
    pub registry : Registry F
    pub response : HttpResponse
    pub exchanges : ℕ
    pub slept_ms : ℕ

  abbrev one_more : ℕ → Performed → Performed
  one_more ms p = record p { exchanges = suc p.exchanges; slept_ms = ms + p.slept_ms }

  abbrev respond : HttpClientConfig → Exchange → ℤ → HttpResponse
  respond config x http_code = record {
    status = http_code;
    raw_body = capture_output config.read_body x.body;
    headers = capture_headers config.read_headers x.header_lines;
  }

  module _ (process_name : List ℕ) (exchange : Request → ℕ → Exchange) where
    -- `perform`, on fuel: `attempt_number` counts the exchanges before this one.
    unfoldable pub perform :
        ℕ
        → Registry F
        → HttpClientConfig
        → List ℕ
        → List ℕ
        → List (List ℕ)
        → List ℕ
        → ℕ
        → Option Performed
    unfolding attempt_of request_of
    perform zero r config method url headers payload attempt_number = none
    perform (suc fuel) r config method url headers payload attempt_number =
        let x = exchange (request_of config method url headers payload) attempt_number in
        let a =
          attempt_of config (new_entry process_name method url x.start) attempt_number x x.error in
        let r' =
          log F r (set_attempt a.entry attempt_number (not a.retry)) x.logged
            config.status_metrics_enabled in
        let rest = perform fuel r' config method url headers payload (suc attempt_number) in
        if a.retry
        then (do p ← rest; some (one_more a.sleep_ms p))
        else some (record {
          registry = r';
          response = respond config x a.http_code;
          exchanges = 1;
          slept_ms = 0;
        })

    -- `Get`, `Put` and `method_header`
    abbrev pub method_header :
        Registry F → HttpClientConfig → List ℕ → List ℕ → List (List ℕ) → Option Performed
    method_header r config method url headers = perform 3 r config method url headers [] 0

    abbrev pub get : Registry F → HttpClientConfig → List ℕ → List (List ℕ) → Option Performed
    get r config url headers = method_header r config (chars "GET") url headers

    abbrev pub put : Registry F → HttpClientConfig → List ℕ → List (List ℕ) → Option Performed
    put r config url headers = method_header r config (chars "PUT") url headers

    -- `Post` of a payload that is compressed.
    abbrev pub post : Registry F → HttpClientConfig → List ℕ → List ℕ → List ℕ → Option Performed
    post r config url content_type payload =
        perform 3 r config (chars "POST") url (content_type ∷ chars "Content-Encoding: gzip" ∷ [])
          payload 0
