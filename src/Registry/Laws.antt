-- ===== src/Registry/Laws.antt =====
-- What the registry's operations promise.
use spectatord.Base.{
  ℕ, ◌+◌, ◌≤◌, ◌≡◌, refl, [], Option, none, some, arith, length, ltb, ltb→lt, Bool-cases, inl, inr,
  get_elem?, get_elem?-set_self, ◌⊎◌,
}
use spectatord.Float.{Float}
use spectatord.Id.{MeterId}
use spectatord.Meter.Gauge.{Gauge, new_gauge, set_ttl, get_ttl, new_age_gauge}
use spectatord.Meter.Monotonic.{MonotonicSampled}
use spectatord.MeterMap.{MeterMap, insert, update, at, size, find}
use spectatord.MeterMap.Insert.{IsValid, insert-Inserted, get_elem?-lt}
use spectatord.MeterMap.Invariant.{find_live}
use spectatord.Id.Laws.{id_eq_refl}
use spectatord.MeterMap.Expiry.{remove_expired_lem}
use spectatord.Registry.Meters.{
  age_gauge_ops, counter_ops, summary_ops, gauge_ops, max_gauge_ops, monotonic_ops,
  monotonic_uint_ops, timer_ops,
}
use spectatord.Registry.Tables.{AllValid}
use spectatord.Registry.{
  Registry, age_gauge_at, get_age_gauge, get_gauge, get_gauge_ttl, measurements,
  remove_expired_meters, registry_meters,
}

module _ (F : Float) where
  -- The sampled sources are never published: whatever they hold, `Measurements` returns the same list, and
  -- it leaves them as they are. Nor do they count for `Size`, or expire.
  pub sampled_unpublished :
      (r : Registry F) (sampled : MeterMap (MonotonicSampled F)) (now : ℕ)
      → let r' : Registry F = record r {
        all_meters = record (r.all_meters) { mono_sampled = sampled };
      } in
        ((measurements F r' now).1 ≡ (measurements F r now).1)
        × (registry_meters F r' ≡ registry_meters F r)
        × ((remove_expired_meters F r' now).0.all_meters.mono_sampled ≡ sampled)
  unfolding measurements registry_meters remove_expired_meters
  sampled_unpublished r sampled now = (refl, refl, refl)

  -- The pair of `remove_expired_meters`: the total is the size of the registry before, and it is the number
  -- expired with the size after.
  pub remove_expired_meters_counts :
      (r : Registry F) (now : ℕ)
      → AllValid F r.all_meters
      → let x = remove_expired_meters F r now in
        (x.2 ≡ registry_meters F r) × (x.1 + registry_meters F x.0 ≡ registry_meters F r)
  unfolding remove_expired_meters registry_meters size
  remove_expired_meters_counts r now v =
      let all = r.all_meters in
      let id : MeterId = record {
        name = [];
        tags = record { entries = []; capacity_ = 0; allocated = 8 };
      } in
      let ttl = r.meter_ttl in
      let (_, _, a2, b2, _) =
        remove_expired_lem (counter_ops F) all.counters now ttl id v.counters in
      let (_, _, a3, b3, _) =
        remove_expired_lem (summary_ops F) all.dist_sums now ttl id v.dist_sums in
      let (_, _, a4, b4, _) = remove_expired_lem (gauge_ops F) all.gauges now ttl id v.gauges in
      let (_, _, a5, b5, _) =
        remove_expired_lem (max_gauge_ops F) all.max_gauges now ttl id v.max_gauges in
      let (_, _, a6, b6, _) =
        remove_expired_lem (monotonic_ops F) all.mono_counters now ttl id v.mono_counters in
      let (_, _, a7, b7, _) =
        remove_expired_lem (monotonic_uint_ops F) all.mono_counters_uint now ttl id
          v.mono_counters_uint in
      let (_, _, a8, b8, _) = remove_expired_lem (timer_ops F) all.timers now ttl id v.timers in
      (omega arith, omega arith)

  limit_at :
      (r : Registry F) (id : MeterId) (now : ℕ) (o : Option ℕ)
      → IsValid (age_gauge_ops F).meter_id r.all_meters.age_gauges
      → size r.all_meters.age_gauges ≤ r.config.age_gauge_limit
      → find id r.all_meters.age_gauges.table ≡ o
      → let x = age_gauge_at F r id now o in
        (size x.0.all_meters.age_gauges ≤ r.config.age_gauge_limit)
        × ((find id x.0.all_meters.age_gauges.table ≡ some x.1)
            ⊎ ((size r.all_meters.age_gauges ≡ r.config.age_gauge_limit)
                × (x.0.all_meters.age_gauges.table ≡ r.all_meters.age_gauges.table)))
  unfolding size
  limit_at r id now (some a) v h e = (h, inl e)
  limit_at r id now none v h e =
      elim (Bool-cases (ltb (length r.all_meters.age_gauges.table) r.config.age_gauge_limit)) [
        | inl q ↦
            let made =
              insert-Inserted _ r.all_meters.age_gauges id (new_age_gauge id now) v
                (unfold new_age_gauge in id_eq_refl id) in
            rw q (omega (arith, (made.new e).1, ltb→lt _ _ q), inl made.found)
        | inr q ↦ rw q (h, inr (ground (arith, h, q), refl))
      ]

  -- The number of registered age gauges never passes the limit. An id that is known keeps its gauge; past
  -- the limit a new id gets a gauge that is in no table, and the table stays.
  pub get_age_gauge_limit :
      (r : Registry F) (id : MeterId) (now : ℕ)
      → IsValid (age_gauge_ops F).meter_id r.all_meters.age_gauges
      → size r.all_meters.age_gauges ≤ r.config.age_gauge_limit
      → let x = get_age_gauge F r id now in
        (size x.0.all_meters.age_gauges ≤ r.config.age_gauge_limit)
        × ((find id x.0.all_meters.age_gauges.table ≡ some x.1)
            ⊎ ((size r.all_meters.age_gauges ≡ r.config.age_gauge_limit)
                × (x.0.all_meters.age_gauges.table ≡ r.all_meters.age_gauges.table)))
  unfolding get_age_gauge at
  get_age_gauge_limit r id now v h = limit_at r id now _ v h refl

  -- Asking for a gauge that exists, with no TTL, changes nothing: its TTL stays.
  pub get_gauge_keeps :
      (r : Registry F) (id : MeterId) (a now : ℕ)
      → find id r.all_meters.gauges.table ≡ some a
      → get_gauge F r id now ≡ (r, a)
  unfolding get_gauge insert
  get_gauge_keeps r id a now h = rw h refl

  -- With a TTL the gauge of the id has that TTL afterwards, five seconds at least, whether it is new or
  -- not; a gauge that exists keeps its value and its time.
  pub get_gauge_ttl_sets :
      (r : Registry F) (id : MeterId) (ttl now : ℕ)
      → IsValid (gauge_ops F).meter_id r.all_meters.gauges
      → let x = get_gauge_ttl F r id ttl now in
        (g : Gauge F) × (get_elem? x.0.all_meters.gauges.heap x.1 ≡ some g)
        × (g.ttl_nanos ≡ get_ttl ttl)
        × (find id x.0.all_meters.gauges.table ≡ some x.1)
  unfolding get_gauge_ttl update
  get_gauge_ttl_sets r id ttl now v =
      let made =
        insert-Inserted _ r.all_meters.gauges id (new_gauge F id ttl now) v
          (unfold new_gauge in id_eq_refl id) in
      let m : MeterMap (Gauge F) = (insert r.all_meters.gauges id (new_gauge F id ttl now)).0 in
      let a : ℕ = (insert r.all_meters.gauges id (new_gauge F id ttl now)).1 in
      let (g, live) =
        find_live (λ (x : Gauge F). x.meter.id) m.heap id a m.table made.valid.entries made.found in
      (
        set_ttl g ttl,
        rw live (
            get_elem?-set_self m.heap a (set_ttl g ttl)
              (get_elem?-lt (λ (x : Gauge F). x.meter.id) m.heap a g live)),
        unfold set_ttl in refl,
        made.found,
      )
