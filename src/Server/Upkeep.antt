-- ===== src/Server/Upkeep.antt =====
-- `upkeep`, `update_network_metrics` and `ensure_not_stuck` of server/spectatord.cc: one round of the background task. The
-- pause between two rounds is not modelled.
use spectatord.Base.{
  ℕ, ◌-◌, ◌≡◌, refl, ap, ◌∙◌, Option, none, some, Bool, false, ◌&&◌, ltb, if◌then◌else◌,
}
use spectatord.Int.{pos}
use spectatord.Float.{Float}
use spectatord.StringPool.{StringPoolStats}
use spectatord.Meter.Counter as Counter
use spectatord.Meter.Gauge.{set_gauge, update_max_gauge}
use spectatord.Meter.Monotonic.{set_monotonic}
use spectatord.MeterMap.{update}
use spectatord.Registry.{Registry}
use spectatord.ExpiringCache.{expire}
use spectatord.ExpiringCache.Laws.{Recent, expire_lem}
use spectatord.Sockets.Proc.{UdpInfo}
use spectatord.Server.{Server}

-- The addresses of the meters that `upkeep` and `update_network_metrics` set.
pub record UpkeepMeters : Type 0 where
  pub timers_size_gauge : ℕ
  pub ds_size_gauge : ℕ
  pub timers_expired_ctr : ℕ
  pub ds_expired_ctr : ℕ
  pub pool_hits : ℕ
  pub pool_misses : ℕ
  pub pool_alloc_size : ℕ
  pub pool_entries : ℕ
  pub udp_packets_dropped_ctr : ℕ
  pub udp_queue : ℕ

module _ (F : Float) where
  abbrev set : Registry F → ℕ → ℕ → ℕ → Registry F
  set r address now n =
      let all = r.all_meters in
      record r {
        all_meters = record all {
          gauges = update all.gauges address (λ g. set_gauge F g now (F.of_int (pos n)));
        };
      }

  abbrev set_mono : Registry F → ℕ → ℕ → ℕ → Registry F
  set_mono r address now n =
      let all = r.all_meters in
      record r {
        all_meters = record all {
          mono_counters =
              update all.mono_counters address (λ c. set_monotonic F c now (F.of_int (pos n)));
        };
      }

  abbrev add : Registry F → ℕ → ℕ → ℕ → Registry F
  add r address now n =
      let all = r.all_meters in
      record r {
        all_meters = record all {
          counters = update all.counters address (λ c. Counter.add F c now (F.of_int (pos n)));
        };
      }

  abbrev set_max : Registry F → ℕ → ℕ → ℕ → Registry F
  set_max r address now n =
      let all = r.all_meters in
      record r {
        all_meters = record all {
          max_gauges =
              update all.max_gauges address (λ g. update_max_gauge F g now (F.of_int (pos n)));
        };
      }

  -- The sizes of the caches, and the numbers expired.
  unfoldable pub set_cache_metrics : UpkeepMeters → Registry F → ℕ → ℕ × ℕ → ℕ × ℕ → Registry F
  set_cache_metrics u r now (t_size, t_expired) (ds_size, ds_expired) =
      let r1 = set r u.timers_size_gauge now t_size in
      let r2 = set r1 u.ds_size_gauge now ds_size in
      let r3 = add r2 u.timers_expired_ctr now t_expired in add r3 u.ds_expired_ctr now ds_expired

  unfoldable pub set_pool_metrics : UpkeepMeters → Registry F → ℕ → StringPoolStats → Registry F
  set_pool_metrics u r now pool_stats =
      let r1 = set_mono r u.pool_hits now pool_stats.hits in
      let r2 = set_mono r1 u.pool_misses now pool_stats.misses in
      let r3 = set r2 u.pool_alloc_size now pool_stats.alloc_size in
      set r3 u.pool_entries now pool_stats.table_size

  -- `update_network_metrics`, given what `udp_info` says of the port.
  unfoldable pub update_network_metrics :
      UpkeepMeters → Registry F → ℕ → Option UdpInfo → Registry F
  update_network_metrics u r now none = r
  update_network_metrics u r now (some info) =
      if r.config.status_metrics_enabled
      then set_max (set_mono r u.udp_packets_dropped_ctr now info.num_dropped) u.udp_queue now
          info.rx_queue_bytes
      else r

  -- A round of `upkeep`.
  unfoldable pub upkeep_round :
      UpkeepMeters → Server F → ℕ → Option UdpInfo → StringPoolStats → Server F
  unfolding set_cache_metrics set_pool_metrics update_network_metrics expire
  upkeep_round u s now info pool_stats =
      let (ds, ds_size, ds_expired) = expire s.perc_ds now in
      let (timers, t_size, t_expired) = expire s.perc_timers now in
      let r = s.registry in
      let cached =
        if r.config.status_metrics_enabled
        then set_cache_metrics u r now (t_size, t_expired) (ds_size, ds_expired)
        else r in
      let networked = update_network_metrics u cached now info in
      record s {
        perc_ds = ds;
        perc_timers = timers;
        registry =
            if r.config.status_metrics_enabled
            then set_pool_metrics u networked now pool_stats
            else networked;
      }

  -- `ensure_not_stuck`: whether the process is aborted; the seconds since the last success are above 60.
  unfoldable pub ensure_not_stuck : Bool → ℕ → ℕ → Bool
  ensure_not_stuck is_enabled now last_success =
      is_enabled && ltb 60_000_000_000 (now - last_success)

  network_off :
      (u : UpkeepMeters) (r : Registry F) (now : ℕ) (info : Option UdpInfo)
      → r.config.status_metrics_enabled ≡ false
      → update_network_metrics u r now info ≡ r
  unfolding update_network_metrics
  network_off u r now none h = refl
  network_off u r now (some info) h = rw h refl

  if_off : {A : Type 0} {b : Bool} (x y : A) → b ≡ false → (if b then x else y) ≡ y
  if_off x y h = rw h refl

  -- A round of upkeep leaves in both caches the entries of the last two minutes alone, and the registry is as it was if
  -- status metrics are off.
  pub upkeep_round_lem :
      (u : UpkeepMeters) (s : Server F) (now : ℕ) (info : Option UdpInfo)
      (pool_stats : StringPoolStats)
      → let done = upkeep_round u s now info pool_stats in
        Recent now done.perc_ds.cache
        × Recent now done.perc_timers.cache
        × (s.registry.config.status_metrics_enabled ≡ false → done.registry ≡ s.registry)
  unfolding upkeep_round
  upkeep_round_lem u s now info pool_stats = (
    (expire_lem s.perc_ds now).0,
    (expire_lem s.perc_timers now).0,
    λ off.
        if_off _ _ off
        ∙ ap (λ r. update_network_metrics u r now info) (if_off _ _ off)
        ∙ network_off u s.registry now info off,
  )
