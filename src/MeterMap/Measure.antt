-- ===== src/MeterMap/Measure.antt =====
-- `measure` of `meter_map`, in spectator/registry.h, beside its plain reading.
use spectatord.Base.{
  ℕ, ◌≡◌, ◌≢◌, refl, ap, ap₂, ◌∙◌, List, [], ◌∷◌, ◌++◌, Option, none, some, ◌==◌, arith, get_elem?,
  if◌then◌else◌, Bool-cases, inl, inr,
}
use spectatord.Float.{Float}
use spectatord.Meter.{Measurement}
use spectatord.Id.{MeterId}
use spectatord.MeterMap.{MeterOps, MeterMap, measure_each, measure_map, measure_object}
use spectatord.MeterMap.Invariant.{Unused, IsTable}
use spectatord.MeterMap.Insert.{IsValid, get_elem?-set, get_elem?-lt}

module _ {F : Float} {M : Type 0} (ops : MeterOps F M) where
  -- What one object of the heap contributes.
  abbrev pub object_report : ℕ → ℕ → Option M → List (Measurement F)
  object_report now ttl none = []
  object_report now ttl (some x) = if ops.is_expired now ttl x then [] else (ops.measure now x).1

  -- What one object becomes.
  abbrev pub object_after : ℕ → ℕ → Option M → Option M
  object_after now ttl none = none
  object_after now ttl (some x) =
      if ops.is_expired now ttl x then some x else some (ops.measure now x).0

  -- All objects of the table, as they stand before the call.
  unfoldable pub report : ℕ → ℕ → List (MeterId × ℕ) → List M → List (Measurement F)
  report now ttl [] heap = []
  report now ttl ((k, a) ∷ table) heap =
      object_report now ttl (get_elem? heap a) ++ report now ttl table heap

  measure_object-report :
      (now ttl a : ℕ) (o : Option M) (heap : List M)
      → get_elem? heap a ≡ o
      → ((measure_object ops now ttl a o heap).1 ≡ object_report now ttl o)
        × ((i : ℕ)
            → get_elem? (measure_object ops now ttl a o heap).0 i
              ≡ (if a == i then object_after now ttl o else get_elem? heap i))
  measure_object-report now ttl a none heap h = (refl, λ i. ground (arith, h))
  measure_object-report now ttl a (some x) heap h = elim (Bool-cases (ops.is_expired now ttl x)) [
    | inl e ↦ rw e (refl, λ i. ground (arith, h))
    | inr e ↦
        rw e
          (refl, λ i. get_elem?-set ops.meter_id heap a i _ (get_elem?-lt ops.meter_id heap a x h))
  ]

  report-eq :
      (now ttl a : ℕ) (table : List (MeterId × ℕ)) (xs ys : List M)
      → Unused a table
      → ((i : ℕ) → a ≢ i → get_elem? xs i ≡ get_elem? ys i)
      → report now ttl table xs ≡ report now ttl table ys
  unfolding report
  report-eq now ttl a [] xs ys u h = refl
  report-eq now ttl a ((k, b) ∷ table) xs ys u h =
      ap₂ (λ (l r : List (Measurement F)). l ++ r) (ap (object_report now ttl) (h b u.0))
        (report-eq now ttl a table xs ys u.1 h)

  other_index : (a i : ℕ) (x y : Option M) → a ≢ i → (if a == i then x else y) ≡ y
  other_index a i x y n = ground (arith, n)

  -- No two entries have one address.
  abbrev pub Distinct : List (MeterId × ℕ) → Type 0
  Distinct [] = Unit {0}
  Distinct ((k, a) ∷ table) = Unused a table × Distinct table

  IsTable-Distinct :
      (heap : List M) (table : List (MeterId × ℕ))
      → IsTable ops.meter_id heap table
      → Distinct table
  IsTable-Distinct heap [] t = tt
  IsTable-Distinct heap ((k, a) ∷ table) t = (t.1, IsTable-Distinct heap table t.3)

  measure_each-report :
      (now ttl : ℕ) (table : List (MeterId × ℕ)) (heap : List M)
      → Distinct table
      → (measure_each ops now ttl table heap).1 ≡ report now ttl table heap
  unfolding measure_each report
  measure_each-report now ttl [] heap t = refl
  measure_each-report now ttl ((k, a) ∷ table) heap t =
      let (p, q) = measure_object-report now ttl a (get_elem? heap a) heap refl in
      let later : List M = (measure_object ops now ttl a (get_elem? heap a) heap).0 in
      ap₂ (λ (l r : List (Measurement F)). l ++ r) p
        (measure_each-report now ttl table later t.1
          ∙ report-eq now ttl a table later heap t.0 (λ i n. q i ∙ other_index a i _ _ n))

  -- `measure` publishes, for each entry in order, what its meter as it stood before the call publishes, and
  -- nothing for a meter that has expired.
  pub measure_map-report :
      (m : MeterMap M) (now ttl : ℕ)
      → IsValid ops.meter_id m
      → (measure_map ops m now ttl).1 ≡ report now ttl m.table m.heap
  unfolding measure_map
  measure_map-report m now ttl v =
      measure_each-report now ttl m.table m.heap (IsTable-Distinct m.heap m.table v.entries)
