-- ===== src/MeterMap/Validity.antt =====
-- The operations of `meter_map`, in spectator/registry.h, and the table.
use spectatord.Base.{
  ℕ, ◌≡◌, refl, List, [], ◌∷◌, Option, none, some, true, get_elem?, Bool-cases, inl, inr,
}
use spectatord.Float.{Float}
use spectatord.Id.{MeterId, id_eq}
use spectatord.MeterMap.{
  MeterOps, MeterMap, measure_each, measure_map, measure_object, remove_all, remove_expired,
  remove_one, insert,
}
use spectatord.MeterMap.Invariant.{IsTable, remove_all_lem}
use spectatord.MeterMap.Insert.{IsValid, IsTable-set, insert-Inserted, remove_one_lem}
use spectatord.MeterMap.Expiry.{remove_expired_lem}

module _ {M : Type 0} (meter_id : M → MeterId) where
  pub insert-IsValid :
      (m : MeterMap M) (id : MeterId) (meter : M)
      → id_eq (meter_id meter) id ≡ true
      → IsValid meter_id m
      → IsValid meter_id (insert m id meter).0
  insert-IsValid m id meter e v = (insert-Inserted meter_id m id meter v e).valid

  pub remove_one-IsValid :
      (m : MeterMap M) (id : MeterId) → IsValid meter_id m → IsValid meter_id (remove_one m id).0
  remove_one-IsValid m id v = (remove_one_lem meter_id m id id v).0

  pub remove_all-IsValid : (m : MeterMap M) → IsValid meter_id m → IsValid meter_id (remove_all m)
  remove_all-IsValid m v = record { entries = rw (remove_all_lem m) tt }

module _ {F : Float} {M : Type 0} (ops : MeterOps F M) where
  pub remove_expired-IsValid :
      (m : MeterMap M) (now ttl : ℕ) (id : MeterId)
      → IsValid ops.meter_id m
      → IsValid ops.meter_id (remove_expired ops m now ttl).0
  remove_expired-IsValid m now ttl id v = (remove_expired_lem ops m now ttl id v).0

  -- A measurement of a meter leaves its id.
  abbrev pub KeepsId : Type 0
  KeepsId = (now : ℕ) (x : M) → ops.meter_id (ops.measure now x).0 ≡ ops.meter_id x

  measure_object-IsTable :
      (now ttl a : ℕ) (o : Option M) (heap : List M) (table : List (MeterId × ℕ))
      → KeepsId
      → get_elem? heap a ≡ o
      → IsTable ops.meter_id heap table
      → IsTable ops.meter_id (measure_object ops now ttl a o heap).0 table
  measure_object-IsTable now ttl a none heap table keeps h t = t
  measure_object-IsTable now ttl a (some x) heap table keeps h t =
      elim (Bool-cases (ops.is_expired now ttl x)) [
        | inl e ↦ rw e t
        | inr e ↦
            rw e (IsTable-set ops.meter_id heap a x (ops.measure now x).0 table h (keeps now x) t)
      ]

  measure_each-IsTable :
      (now ttl : ℕ) (seen : List (MeterId × ℕ)) (heap : List M) (table : List (MeterId × ℕ))
      → KeepsId
      → IsTable ops.meter_id heap table
      → IsTable ops.meter_id (measure_each ops now ttl seen heap).0 table
  unfolding measure_each
  measure_each-IsTable now ttl [] heap table keeps t = t
  measure_each-IsTable now ttl ((k, a) ∷ seen) heap table keeps t =
      measure_each-IsTable now ttl seen _ table keeps
        (measure_object-IsTable now ttl a (get_elem? heap a) heap table keeps refl t)

  pub measure_map-IsValid :
      (m : MeterMap M) (now ttl : ℕ)
      → KeepsId
      → IsValid ops.meter_id m
      → IsValid ops.meter_id (measure_map ops m now ttl).0
  unfolding measure_map
  measure_map-IsValid m now ttl keeps v = record {
    entries = measure_each-IsTable now ttl m.table m.heap m.table keeps v.entries;
  }
