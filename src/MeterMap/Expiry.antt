-- ===== src/MeterMap/Expiry.antt =====
-- `remove_expired` of `meter_map`, in spectator/registry.h.
use spectatord.Base.{
  ℕ, ◌+◌, ◌≡◌, refl, ap, ◌∙◌, List, [], ◌∷◌, Option, none, some, arith, length, get_elem?,
  if◌then◌else◌, Bool-cases, inl, inr,
}
use spectatord.Float.{Float}
use spectatord.Id.{MeterId}
use spectatord.MeterMap.{MeterOps, MeterMap, find, expire_each, expired_at, remove_expired}
use spectatord.MeterMap.Invariant.{Unused, IsTable, find-id_eq}
use spectatord.MeterMap.Insert.{IsValid}

module _ {F : Float} {M : Type 0} (ops : MeterOps F M) where
  -- The pointer that a lookup finds, if its meter has not expired.
  abbrev pub if_fresh : ℕ → ℕ → List M → Option ℕ → Option ℕ
  if_fresh now ttl heap none = none
  if_fresh now ttl heap (some a) =
      if expired_at ops now ttl (get_elem? heap a) then none else some a

  expire-counts :
      (now ttl : ℕ) (table : List (MeterId × ℕ)) (heap : List M)
      → let r = expire_each ops now ttl table heap in
        (r.2 ≡ length table) × (r.1 + length r.0 ≡ length table)
  unfolding expire_each
  expire-counts now ttl [] heap = omega arith
  expire-counts now ttl ((k, a) ∷ table) heap = ground (arith, expire-counts now ttl table heap)

  find-expire :
      (now ttl : ℕ) (table : List (MeterId × ℕ)) (heap : List M) (j : MeterId)
      → IsTable ops.meter_id heap table
      → find j (expire_each ops now ttl table heap).0 ≡ if_fresh now ttl heap (find j table)
  unfolding expire_each find
  find-expire now ttl [] heap j t = refl
  find-expire now ttl ((k, a) ∷ table) heap j t =
      ground (arith, find-expire now ttl table heap j t.3, find-id_eq k j table, t.0)

  pub Unused-expire :
      (now ttl : ℕ) (table : List (MeterId × ℕ)) (heap : List M) (b : ℕ)
      → Unused b table
      → Unused b (expire_each ops now ttl table heap).0
  unfolding expire_each
  Unused-expire now ttl [] heap b u = tt
  Unused-expire now ttl ((k, a) ∷ table) heap b u =
      elim (Bool-cases (expired_at ops now ttl (get_elem? heap a))) [
        | inl e ↦ rw e (Unused-expire now ttl table heap b u.1)
        | inr e ↦ rw e (u.0, Unused-expire now ttl table heap b u.1)
      ]

  expire-IsTable :
      (now ttl : ℕ) (table : List (MeterId × ℕ)) (heap : List M)
      → IsTable ops.meter_id heap table
      → IsTable ops.meter_id heap (expire_each ops now ttl table heap).0
  unfolding expire_each
  expire-IsTable now ttl [] heap t = tt
  expire-IsTable now ttl ((k, a) ∷ table) heap t =
      elim (Bool-cases (expired_at ops now ttl (get_elem? heap a))) [
        | inl e ↦ rw e (expire-IsTable now ttl table heap t.3)
        | inr e ↦ rw e (
          find-expire now ttl table heap k t.3 ∙ ap (if_fresh now ttl heap) t.0,
          Unused-expire now ttl table heap a t.1,
          t.2,
          expire-IsTable now ttl table heap t.3,
        )
      ]

  -- After `remove_expired` a lookup finds what it found before, if that has not expired. The pair is
  -- (expired, total): the total is the number of meters before, and it is the expired and those left. No
  -- object changes.
  pub remove_expired_lem :
      (m : MeterMap M) (now ttl : ℕ) (j : MeterId)
      → IsValid ops.meter_id m
      → let r = remove_expired ops m now ttl in
        IsValid ops.meter_id r.0
        × (find j r.0.table ≡ if_fresh now ttl m.heap (find j m.table))
        × (r.2 ≡ length m.table)
        × (r.1 + length r.0.table ≡ length m.table)
        × (r.0.heap ≡ m.heap)
  unfolding remove_expired
  remove_expired_lem m now ttl j v = (
    record { entries = expire-IsTable now ttl m.table m.heap v.entries },
    find-expire now ttl m.table m.heap j v.entries,
    (expire-counts now ttl m.table m.heap).0,
    (expire-counts now ttl m.table m.heap).1,
    refl,
  )
