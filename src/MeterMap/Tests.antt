-- ===== src/MeterMap/Tests.antt =====
-- The theorems at a map of counters.
use spectatord.Base.{◌+◌, ◌<◌, ◌≡◌, refl, [], ◌∷◌, some, none, true, length, if◌then◌else◌}
use spectatord.CText.{chars}
use spectatord.Int.{pos}
use spectatord.Float.Fixed.{fin, fixed}
use spectatord.Tags.{empty_tags, tags_eq}
use spectatord.Id.{MeterId, id_eq}
use spectatord.Id.Laws.{id_eq_refl}
use spectatord.Meter.Counter.{Counter, new_counter}
use spectatord.MeterMap.{
  MeterMap, find, insert, remove_one, has_entry, remove_expired, measure_map, expired_at, update,
}
use spectatord.MeterMap.Insert.{IsValid, Inserted, insert-Inserted, remove_one_lem}
use spectatord.MeterMap.Expiry.{remove_expired_lem, if_fresh}
use spectatord.MeterMap.Measure.{measure_map-report, report}
use spectatord.MeterMap.Stale.{stale_pointer}
use spectatord.Registry.Meters.{counter_ops, is_meter_expired}

abbrev requests : MeterId
requests = record { name = chars "requests"; tags = empty_tags }

abbrev errors : MeterId
errors = record { name = chars "errors"; tags = empty_tags }

abbrev counter_id : Counter fixed → MeterId
counter_id c = c.meter.id

abbrev old_counter : Counter fixed
old_counter = record { meter = record { id = requests; last_updated = 5 }; count = fin (pos 2) }

abbrev one_counter : MeterMap (Counter fixed)
one_counter = record { table = (requests, 0) ∷ []; heap = old_counter ∷ [] }

one_counter-IsValid : IsValid counter_id one_counter
unfolding find
one_counter-IsValid = record { entries = (refl, tt, id_eq_refl requests, tt) }

one_counter_found : find requests one_counter.table ≡ some 0
unfolding find id_eq tags_eq
one_counter_found = refl

old_counter_expired : expired_at (counter_ops fixed) 9 3 (some old_counter) ≡ true
unfolding is_meter_expired
old_counter_expired = refl

insert-Inserted_example :
    Inserted counter_id one_counter errors
      (new_counter fixed errors 7)
      (insert one_counter errors (new_counter fixed errors 7)).0
      (insert one_counter errors (new_counter fixed errors 7)).1
insert-Inserted_example =
    insert-Inserted counter_id one_counter errors (new_counter fixed errors 7) one_counter-IsValid
      (unfold new_counter in id_eq_refl errors)

remove_one_lem_run :
    IsValid counter_id (remove_one one_counter requests).0
    × ((remove_one one_counter requests).1 ≡ has_entry (find requests one_counter.table))
    × (find errors (remove_one one_counter requests).0.table
        ≡ (if id_eq requests errors then none else find errors one_counter.table))
    × ((remove_one one_counter requests).0.heap ≡ one_counter.heap)
remove_one_lem_run = remove_one_lem counter_id one_counter requests errors one_counter-IsValid

remove_expired_lem_example :
    IsValid counter_id (remove_expired (counter_ops fixed) one_counter 9 3).0
    × (find requests (remove_expired (counter_ops fixed) one_counter 9 3).0.table
        ≡ if_fresh (counter_ops fixed) 9 3 one_counter.heap (find requests one_counter.table))
    × ((remove_expired (counter_ops fixed) one_counter 9 3).2 ≡ 1)
    × ((remove_expired (counter_ops fixed) one_counter 9 3).1
          + length (remove_expired (counter_ops fixed) one_counter 9 3).0.table
        ≡ 1)
    × ((remove_expired (counter_ops fixed) one_counter 9 3).0.heap ≡ one_counter.heap)
remove_expired_lem_example =
    remove_expired_lem (counter_ops fixed) one_counter 9 3 requests one_counter-IsValid

measure_map-report_example :
    (measure_map (counter_ops fixed) one_counter 6 3).1
    ≡ report (counter_ops fixed) 6 3 one_counter.table one_counter.heap
measure_map-report_example =
    measure_map-report (counter_ops fixed) one_counter 6 3 one_counter-IsValid

stale_pointer_example :
    ((measure_map
        (counter_ops fixed)
        (update (remove_expired (counter_ops fixed) one_counter 9 3).0 0 (λ c. c))
        10
        3).1
      ≡ (measure_map
          (counter_ops fixed)
          (remove_expired (counter_ops fixed) one_counter 9 3).0
          10
          3).1)
    × (0 < (insert (remove_expired (counter_ops fixed) one_counter 9 3).0 requests old_counter).1)
stale_pointer_example =
    stale_pointer (counter_ops fixed) one_counter requests 0 9 3 10 (λ c. c) old_counter
      one_counter-IsValid one_counter_found old_counter_expired
