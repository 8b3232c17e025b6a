-- ===== src/Server/Statsd.antt =====
-- `Server::parse_statsd_line` of server/spectatord.cc: a line `name:value|type|@rate|#tags` of the statsd protocol.
pub mod Laws
use spectatord.Base.{
  ℕ, zero, suc, ◌+◌, List, [], ◌∷◌, Option, none, some, Bool, true, false, ◌==◌, ◌||◌, length, take,
  drop, get_or, if◌then◌else◌,
}
use spectatord.CText.{deref, advance, c_str, strchr}
use spectatord.Int.{ℤ, pos, pos_part}
use spectatord.Float.{Float}
use spectatord.Tags.{Tags, empty_tags, move_construct}
use spectatord.Id.{MeterId, add, make_id, intern_str}
use spectatord.Meter.{zero_double}
use spectatord.Meter.Counter
use spectatord.Meter.Gauge.{set_gauge}
use spectatord.Meter.Distribution.{DistributionSummary, Timer, record_summary, record_timer}
use spectatord.MeterMap.{update}
use spectatord.Registry.{Registry, get_counter, get_distribution_summary, get_gauge, get_timer}
use spectatord.Server.{CLib, Server}
use spectatord.Server.Measurement.{substr}

pub data StatsdMetricType : Type 0 where
  counter timing gauge histogram set : StatsdMetricType

pub data StatsdError : Type 0 where
  name_required unable_to_parse_number expected_bar invalid_ms invalid_type : StatsdError
  invalid_sampling_rate invalid_tags : StatsdError

-- `add_tag`: the pointers are positions in the text. A tag without a value is a marker, whose value is 1.
unfoldable pub add_tag : Tags → List ℕ → ℕ → ℕ → Option ℕ → ℕ → Option Tags
add_tag tags str begin_key end_key begin_value end_value =
    let key : List ℕ = elim begin_value [
      | none ↦ substr str begin_key end_value
      | some i ↦ substr str begin_key end_key
    ] in
    let value : List ℕ = elim begin_value [ none ↦ b'1' ∷ [] | some i ↦ substr str i end_value ] in
    if length key == 0 || length value == 0 then none else some (add tags key value)

-- How the loop over the tags ends: out of fuel, at a tag that is refused, or with what the call after the loop gets.
pub data TagsRead : Type 0 where
  stuck refused : TagsRead
  last_tag : Tags → ℕ → ℕ → Option ℕ → ℕ → TagsRead

-- `while (*p != '\0')`. A round moves on by a character at least.
unfoldable pub statsd_tag_loop : ℕ → List ℕ → Tags → ℕ → ℕ → ℕ → Option ℕ → TagsRead
statsd_tag_loop zero str tags p begin_key end_key begin_value = stuck
statsd_tag_loop (suc fuel) str tags p begin_key end_key begin_value = elim (get_or str p 0 == 0) [
  | true ↦ last_tag tags begin_key end_key begin_value p
  | false ↦
      let colon = get_or str (p + 1) 0 == b':' in
      let end_key' = if colon then p + 1 else end_key in
      let begin_value' = if colon then some (p + 2) else begin_value in
      let p' = if colon then p + 2 else p + 1 in
      elim (get_or str p' 0 == b',') [
        | true ↦ elim (add_tag tags str begin_key end_key' begin_value' p') [
          | none ↦ refused
          | some tags' ↦ statsd_tag_loop fuel str tags' (p' + 1) (p' + 1) end_key' none
        ]
        | false ↦ statsd_tag_loop fuel str tags p' begin_key end_key' begin_value'
      ]
]

-- The call of `add_tag` after the loop.
abbrev pub after_tag_loop : List ℕ → TagsRead → Option Tags
after_tag_loop str stuck = none
after_tag_loop str refused = none
after_tag_loop str (last_tag tags begin_key end_key begin_value p) =
    add_tag tags str begin_key end_key begin_value p

-- The tags behind `#`.
unfoldable pub statsd_tags : List ℕ → Option Tags
unfolding statsd_tag_loop add_tag
statsd_tags p =
    let str = c_str p in
    after_tag_loop str (statsd_tag_loop (suc (length str)) str empty_tags 0 0 0 none)

-- The type, with the memory behind it.
abbrev pub metric_type : List ℕ → Option (StatsdMetricType × List ℕ) × StatsdError
metric_type p =
    let c = deref p in
    if c == b'c'
    then (some (counter, advance p), invalid_type)
    else if c == b'g'
    then (some (gauge, advance p), invalid_type)
    else if c == b'h'
    then (some (histogram, advance p), invalid_type)
    else if c == b's'
    then (some (set, advance p), invalid_type)
    else if c == b'm'
    then (if deref (advance p) == b's'
        then (some (timing, advance (advance p)), invalid_type)
        else (none, invalid_ms))
    else (none, invalid_type)

-- The loop of a histogram or a timer, `for (auto i = 0; i < k; ++i)`.
abbrev pub repeat {ℓ} : {A : Type ℓ} → ℕ → (A → A) → A → A
repeat zero f a = a
repeat (suc k) f a = repeat k f (f a)

module _ (F : Float) where
  -- The constants 1.0 and 1e6.
  abbrev pub one_double : F.Double
  one_double = F.of_int (pos 1)

  abbrev pub in_meters : Server F → Registry F → Server F
  in_meters s r = record s { registry = r }

  -- `update_statsd_metric`. A set is ignored.
  unfoldable pub update_statsd_metric :
      Registry F → ℕ → StatsdMetricType → MeterId → F.Double → F.Double → Registry F
  update_statsd_metric r now counter id value sampling_rate =
      let (r', a) = get_counter F r id now in
      record r' {
        all_meters = record (r'.all_meters) {
          counters =
              update r'.all_meters.counters a
                (λ c. Counter.add F c now (F.div value sampling_rate));
        };
      }
  update_statsd_metric r now gauge id value sampling_rate =
      let (r', a) = get_gauge F r id now in
      record r' {
        all_meters = record (r'.all_meters) {
          gauges = update r'.all_meters.gauges a (λ g. set_gauge F g now value);
        };
      }
  update_statsd_metric r now histogram id value sampling_rate =
      let k = pos_part (F.lround (F.div one_double sampling_rate)) in
      let (r', a) = get_distribution_summary F r id now in
      record r' {
        all_meters = record (r'.all_meters) {
          dist_sums =
              update r'.all_meters.dist_sums a (repeat k (λ d. record_summary F d now value));
        };
      }
  update_statsd_metric r now timing id value sampling_rate =
      let k = pos_part (F.lround (F.div one_double sampling_rate)) in
      let ns = F.lround (F.mul value (F.of_int (pos 1_000_000))) in
      let (r', a) = get_timer F r id now in
      record r' {
        all_meters = record (r'.all_meters) {
          timers = update r'.all_meters.timers a (repeat k (λ t. record_timer F t now ns));
        };
      }
  update_statsd_metric r now set id value sampling_rate = r

  module _ (lib : CLib F) where
    -- `@rate` where it stands, with the memory behind it and a bar.
    abbrev pub sampling_rate_of : List ℕ → Option (F.Double × List ℕ)
    sampling_rate_of p =
        if deref p == b'@'
        then (let q = advance p in
            let rate = (lib.strtod q).0 in
            let rest = drop (lib.strtod q).1 q in
            if (lib.strtod q).1 == 0
              || (F.lt rate (zero_double F) || F.eq rate (zero_double F))
              || F.lt one_double rate
            then none
            else some (rate, if deref rest == b'|' then advance rest else rest))
        else some (one_double, p)

    abbrev pub tags_of : List ℕ → Option Tags
    tags_of p = if deref p == b'#' then statsd_tags (advance p) else some empty_tags

    -- From the end of the type on: the rate and the tags, or the error.
    abbrev pub rate_and_tags : List ℕ → Option (F.Double × Tags) × StatsdError
    rate_and_tags p =
        if deref p == b'|'
        then elim (sampling_rate_of (advance p)) [
          | none ↦ (none, invalid_sampling_rate)
          | some (rate, q) ↦ elim (tags_of q) [
            | none ↦ (none, invalid_tags)
            | some tags ↦ (some (rate, tags), invalid_tags)
          ]
        ]
        else (some (one_double, empty_tags), invalid_tags)

    abbrev pub after_rate :
        Server F
        → ℕ
        → List ℕ
        → F.Double
        → StatsdMetricType
        → Option (F.Double × Tags) × StatsdError
        → Server F × Option StatsdError
    after_rate s now name value type (none, e) = (s, some e)
    after_rate s now name value type (some (rate, tags), e) =
        let id = make_id (intern_str name) (move_construct tags) in
        (in_meters s (update_statsd_metric s.registry now type id value rate), none)

    abbrev pub after_type :
        Server F
        → ℕ
        → List ℕ
        → F.Double
        → Option (StatsdMetricType × List ℕ) × StatsdError
        → Server F × Option StatsdError
    after_type s now name value (none, e) = (s, some e)
    after_type s now name value (some (type, p), e) =
        after_rate s now name value type (rate_and_tags p)

    abbrev pub after_statsd_name : Server F → ℕ → List ℕ → Option ℕ → Server F × Option StatsdError
    after_statsd_name s now buffer none = (s, some name_required)
    after_statsd_name s now buffer (some zero) = (s, some name_required)
    after_statsd_name s now buffer (some (suc i)) =
        let name = take (suc i) buffer in
        let p = drop (i + 2) buffer in
        let value = (lib.strtod p).0 in
        let n = (lib.strtod p).1 in
        let q = drop n p in
        if n == 0
        then (s, some unable_to_parse_number)
        else if deref q == b'|'
        then after_type s now name value (metric_type (advance q))
        else (s, some expected_bar)

    -- `parse_statsd_line`, of the memory from the line on.
    unfoldable pub parse_statsd_line : Server F → ℕ → List ℕ → Server F × Option StatsdError
    unfolding update_statsd_metric statsd_tags
    parse_statsd_line s now buffer = after_statsd_name s now buffer (strchr b':' buffer)
