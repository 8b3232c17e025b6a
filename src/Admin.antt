-- ===== src/Admin.antt =====
-- admin/admin_server.cc: the HTTP interface that shows the state of the daemon, changes the common tags, and deletes
-- meters. The server and the JSON parser come from a library: a request is its method, URI, host and body, and what
-- the parser makes of a body is a parameter.
pub mod MeterName
pub mod CommonTags
pub mod Access
mod Tests
use spectatord.Base.{
  ℕ, ◌+◌, List, [], ◌∷◌, ◌++◌, foldl, Option, none, some, Bool, true, false, ◌==◌, ◌&&◌, ◌||◌,
  length, drop, if◌then◌else◌,
}
use spectatord.CText.{chars, text_eq}
use spectatord.Float.{Float}
use spectatord.MeterMap.{size}
use spectatord.Registry.{Registry, delete_meter, delete_all_meters}
use spectatord.Admin.MeterName.{parse_id}
use spectatord.Admin.CommonTags.{Json, set_common_tags}

pub record HttpRequest : Type 0 where
  pub method : List ℕ
  pub uri : List ℕ
  pub host : List ℕ
  pub body : List ℕ

-- What is sent: the descriptions, the configuration with its common tags, the number of meters, a message, or nothing.
pub data Content : Type 0 where
  endpoints : Content
  configuration : List (List ℕ × List ℕ) → Content
  usage : Option (List ℕ) → Content
  metrics : ℕ → Content
  message : List ℕ → Content
  nothing : Content

pub record HttpAnswer : Type 0 where
  pub status : ℕ
  pub content : Content

-- `join`, of at least one text.
unfoldable pub join : List (List ℕ) → List ℕ → Option (List ℕ)
join [] delimiter = none
join (s ∷ strings) delimiter = some (foldl (λ a b. a ++ (delimiter ++ b)) s strings)

abbrev pub starts_with : List ℕ → List ℕ → Bool
starts_with [] s = true
starts_with (p ∷ prefix) [] = false
starts_with (p ∷ prefix) (c ∷ s) = p == c && starts_with prefix s

-- `rfind(text) != npos`
abbrev pub occurs : List ℕ → List ℕ → Bool
occurs text [] = starts_with text []
occurs text (c ∷ s) = starts_with text (c ∷ s) || occurs text s

unfoldable pub localhost_found : List ℕ → Bool
localhost_found host =
    occurs (chars "localhost") host
    || occurs (chars "127.0.0.1") host
    || occurs (chars "[::1]") host

abbrev pub bad_request : HttpAnswer
bad_request = record { status = 400; content = Content.nothing }

module _ (F : Float) where
  -- The types that `GET_metrics` lists; the sampled sources are not among them.
  unfoldable pub listed_meters : Registry F → ℕ
  listed_meters r =
      let all = r.all_meters in
      size all.age_gauges
      + size all.counters
      + size all.dist_sums
      + size all.gauges
      + size all.max_gauges
      + size all.mono_counters
      + size all.mono_counters_uint
      + size all.timers

  -- `DELETE_metrics`
  unfoldable pub delete_metrics : Registry F → List ℕ → List ℕ → Registry F × HttpAnswer
  delete_metrics r type uri =
      let one = delete_meter F r type (parse_id (drop 11 uri)) in
      if length uri == 10
      then (delete_all_meters F r type, record { status = 200; content = Content.nothing })
      else if one.1
      then (one.0, record { status = 200; content = Content.nothing })
      else (one.0, record { status = 404; content = Content.nothing })

  -- `POST_config_common_tags`
  unfoldable pub post_common_tags :
      (List ℕ → Json) → List (List ℕ) → Registry F → List ℕ → Registry F × HttpAnswer
  post_common_tags parse allowed_tags r body =
      let (tags, status, text) = set_common_tags allowed_tags r.config.common_tags (parse body) in
      (
        record r { config = record (r.config) { common_tags = tags } },
        record { status = status; content = Content.message text },
      )

  -- `handleRequest`
  unfoldable pub handle_request :
      (List ℕ → Json) → List (List ℕ) → Registry F → HttpRequest → Registry F × HttpAnswer
  unfolding localhost_found
  handle_request parse allowed_tags r req =
      let local = localhost_found req.host in
      let is_get = text_eq req.method (chars "GET") in
      let is_post = text_eq req.method (chars "POST") in
      let is_delete = text_eq req.method (chars "DELETE") in
      if text_eq req.uri (chars "/") && is_get
      then (r, record { status = 200; content = Content.endpoints })
      else if text_eq req.uri (chars "/config") && is_get
      then (r, record { status = 200; content = Content.configuration r.config.common_tags })
      else if text_eq req.uri (chars "/config/common_tags") && is_get
      then (r, record { status = 200; content = Content.usage (join allowed_tags (chars ", ")) })
      else if text_eq req.uri (chars "/config/common_tags") && is_post
      then (if local then post_common_tags parse allowed_tags r req.body else (r, bad_request))
      else if text_eq req.uri (chars "/metrics") && is_get
      then (r, record { status = 200; content = Content.metrics (listed_meters r) })
      else if starts_with (chars "/metrics/A") req.uri && is_delete
      then (if local then delete_metrics r (chars "A") req.uri else (r, bad_request))
      else if starts_with (chars "/metrics/g") req.uri && is_delete
      then (if local then delete_metrics r (chars "g") req.uri else (r, bad_request))
      else (r, record { status = 404; content = Content.nothing })
