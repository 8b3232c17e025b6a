-- ===== src/Percentile.antt =====
-- spectator/percentile_timer.h and percentile_distribution_summary.h: a meter with a counter for each bucket.
-- The tags of the buckets are those of the generator tools/gen_perc_bucket_tags.cc.
use spectatord.Base.{ℕ, ◌+◌, ◌-◌, ◌/◌, ◌%◌, List, [], ◌∷◌, ltb, if◌then◌else◌}
use spectatord.Int.{ℤ, pos, ltb_ℤ, pattern64, is_negative}
use spectatord.Float.{Float}
use spectatord.Id.{MeterId, with_tags, intern_str}
use spectatord.Id.Refs
use spectatord.Meter.Counter
use spectatord.Meter.Distribution.{record_timer, record_summary}
use spectatord.MeterMap.{update}
use spectatord.Buckets.{percentile_bucket_index_of}
use spectatord.Registry.{Registry, get_counter, get_timer, get_distribution_summary}

abbrev hex_digit : ℕ → ℕ
hex_digit d = if ltb d 10 then b'0' + d else b'A' + (d - 10)

-- `"%c%04zX"`, of an index below 16^4.
unfoldable pub bucket_tag : ℕ → ℕ → List ℕ
bucket_tag prefix i =
    prefix
    ∷ hex_digit (i / 4096 % 16)
    ∷ hex_digit (i / 256 % 16)
    ∷ hex_digit (i / 16 % 16)
    ∷ hex_digit (i % 16)
    ∷ []

-- A percentile meter: its id, and the address of its timer or summary. Durations are in nanoseconds.
pub record PercentileTimer : Type 0 where
  pub id : MeterId
  pub min : ℤ
  pub max : ℤ
  pub timer : ℕ

pub record PercentileDistributionSummary : Type 0 where
  pub id : MeterId
  pub dist_summary : ℕ

-- `std::clamp`
abbrev pub clamp : ℤ → ℤ → ℤ → ℤ
clamp amount min max = if ltb_ℤ amount min then min else if ltb_ℤ max amount then max else amount

-- `min_perc_timer` and `max_perc_timer` of the server: a nanosecond and 24 hours.
abbrev pub min_perc_timer : ℤ
min_perc_timer = pos 1

abbrev pub max_perc_timer : ℤ
max_perc_timer = pos 86_400_000_000_000

module _ (F : Float) where
  -- The constructor
  abbrev pub new_perc_timer : ℕ → Registry F → MeterId → ℤ → ℤ → Registry F × PercentileTimer
  new_perc_timer now r id min max =
      let (r', a) = get_timer F r id now in
      (r', record { id = id; min = min; max = max; timer = a })

  -- `create_perc_timer` and `create_perc_ds`
  unfoldable pub create_perc_timer : ℕ → Registry F → MeterId → Registry F × PercentileTimer
  create_perc_timer now r id = new_perc_timer now r id min_perc_timer max_perc_timer

  unfoldable pub create_perc_ds :
      ℕ → Registry F → MeterId → Registry F × PercentileDistributionSummary
  create_perc_ds now r id =
      let (r', a) = get_distribution_summary F r id now in
      (r', record { id = id; dist_summary = a })

  -- `get_counter(index)->Increment()`
  unfoldable pub count_bucket : Registry F → MeterId → ℕ → ℕ → ℕ → Registry F
  unfolding bucket_tag
  count_bucket r id prefix index now =
      let counter_id =
        with_tags id Refs.statistic Refs.percentile Refs.percentile
          (intern_str (bucket_tag prefix index)) in
      let (r', a) = get_counter F r counter_id now in
      record r' {
        all_meters = record (r'.all_meters) {
          counters = update (r'.all_meters.counters) a (λ c. Counter.increment F c now);
        };
      }

  unfoldable pub record_percentile_timer : Registry F → PercentileTimer → ℕ → ℤ → Registry F
  unfolding count_bucket
  record_percentile_timer r t now amount =
      let r' : Registry F = record r {
        all_meters = record (r.all_meters) {
          timers = update r.all_meters.timers t.timer (λ x. record_timer F x now amount);
        };
      } in
      let index = percentile_bucket_index_of (pattern64 (clamp amount t.min t.max)) in
      count_bucket r' t.id b'T' index now

  -- `min_ds` and `max_ds` are the ends of `int64_t`, so the clamp keeps every amount.
  unfoldable pub record_percentile_summary :
      Registry F → PercentileDistributionSummary → ℕ → ℤ → Registry F
  unfolding count_bucket
  record_percentile_summary r s now amount =
      let r' : Registry F = record r {
        all_meters = record (r.all_meters) {
          dist_sums =
              update r.all_meters.dist_sums s.dist_summary
                (λ x. record_summary F x now (F.of_int amount));
        };
      } in
      let index = percentile_bucket_index_of (pattern64 amount) in
      if is_negative amount then r else count_bucket r' s.id b'D' index now
