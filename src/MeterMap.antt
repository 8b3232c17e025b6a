-- ===== src/MeterMap.antt =====
-- `meter_map` of spectator/registry.h: meters by id, handed out as shared pointers. A pointer is an address into
-- `heap`, which keeps an object for as long as a pointer to it may live, so a meter that is taken out of the
-- table can still be updated by who holds it. The hash table is an association list; its order stands for
-- the order of iteration. Each method runs under the mutex and is one step; so is
-- `remove_one` here, which locks it twice.
pub mod Invariant
pub mod Insert
pub mod Expiry
pub mod Measure
pub mod Stale
pub mod Validity
mod Tests
use spectatord.Base.{
  ℕ, suc, ◌+◌, List, [], ◌∷◌, ◌++◌, map, Option, none, some, Bool, true, false, ltb, length,
  get_elem?, set, if◌then◌else◌,
}
use spectatord.Float.{Float}
use spectatord.Id.{MeterId, id_eq}
use spectatord.Meter.{Measurement}

-- What the template asks of a meter type: its id, `is_meter_expired`, and `Measure`, both at a time.
pub record MeterOps (F : Float) (M : Type 0) : Type 0 where
  pub meter_id : M → MeterId
  pub is_expired : ℕ → ℕ → M → Bool
  pub measure : ℕ → M → M × List (Measurement F)

pub record MeterMap (M : Type 0) : Type 0 where
  pub table : List (MeterId × ℕ)
  pub heap : List M

abbrev pub empty_map : {M : Type 0} → MeterMap M
empty_map = record { table = []; heap = [] }

unfoldable pub find : MeterId → List (MeterId × ℕ) → Option ℕ
find id [] = none
find id ((k, a) ∷ table) = if id_eq k id then some a else find id table

-- `erase` of a key: keys are unique.
unfoldable pub erase : MeterId → List (MeterId × ℕ) → List (MeterId × ℕ)
erase id [] = []
erase id ((k, a) ∷ table) = if id_eq k id then table else (k, a) ∷ erase id table

-- Erases each of the keys that the walk comes to.
unfoldable pub erase_each : List (MeterId × ℕ) → List (MeterId × ℕ) → List (MeterId × ℕ)
erase_each [] table = table
erase_each ((k, a) ∷ walk) table = erase_each walk (erase k table)

abbrev pub has_entry : Option ℕ → Bool
has_entry none = false
has_entry (some a) = true

module _ {M : Type 0} where
  unfoldable pub size : MeterMap M → ℕ
  size m = length m.table

  unfoldable pub contains : MeterMap M → MeterId → Bool
  contains m id = has_entry (find id m.table)

  abbrev pub emplace : MeterMap M → MeterId → M → Option ℕ → MeterMap M × ℕ
  emplace m id meter (some a) = (m, a)
  emplace m id meter none =
      (record { table = (id, length m.heap) ∷ m.table; heap = m.heap ++ meter ∷ [] }, length m.heap)

  -- `insert`: a meter that is already there stays, and the new object is dropped.
  unfoldable pub insert : MeterMap M → MeterId → M → MeterMap M × ℕ
  insert m id meter = emplace m id meter (find id m.table)

  -- `at`: the pointer of a key, `none` where the source throws.
  unfoldable pub at : MeterMap M → MeterId → Option ℕ
  at m id = find id m.table

  unfoldable pub remove_one : MeterMap M → MeterId → MeterMap M × Bool
  unfolding contains
  remove_one m id =
      if contains m id then (record m { table = erase id m.table }, true) else (m, false)

  -- `remove_all`: `++it` goes to the element behind the one that is erased.
  unfoldable pub remove_all : MeterMap M → MeterMap M
  remove_all m = record m { table = erase_each m.table m.table }

  abbrev pub get_ids : MeterMap M → List MeterId
  get_ids m = map (λ (e : MeterId × ℕ). e.0) m.table

  abbrev pub update_object : (M → M) → Option M → List M → ℕ → List M
  update_object f none heap a = heap
  update_object f (some x) heap a = set heap a (f x)

  -- A call of a method through a pointer.
  unfoldable pub update : MeterMap M → ℕ → (M → M) → MeterMap M
  update m a f = record m { heap = update_object f (get_elem? m.heap a) m.heap a }

module _ {F : Float} {M : Type 0} (ops : MeterOps F M) where
  -- Whether the object at an address has expired. Every address of a table has an object.
  abbrev pub expired_at : ℕ → ℕ → Option M → Bool
  expired_at now ttl none = false
  expired_at now ttl (some x) = ops.is_expired now ttl x

  abbrev pub measure_object : ℕ → ℕ → ℕ → Option M → List M → List M × List (Measurement F)
  measure_object now ttl a none heap = (heap, [])
  measure_object now ttl a (some x) heap =
      if ops.is_expired now ttl x
      then (heap, [])
      else (set heap a (ops.measure now x).0, (ops.measure now x).1)

  -- The loop of `measure`: what has expired is passed over, and the rest is appended in order.
  unfoldable pub measure_each : ℕ → ℕ → List (MeterId × ℕ) → List M → List M × List (Measurement F)
  measure_each now ttl [] heap = (heap, [])
  measure_each now ttl ((k, a) ∷ table) heap =
      let one : List M × List (Measurement F) = measure_object now ttl a (get_elem? heap a) heap in
      let rest : List M × List (Measurement F) = measure_each now ttl table one.0 in
      (rest.0, one.1 ++ rest.1)

  unfoldable pub measure_map : MeterMap M → ℕ → ℕ → MeterMap M × List (Measurement F)
  measure_map m now ttl =
      let r : List M × List (Measurement F) = measure_each now ttl m.table m.heap in
      (record m { heap = r.0 }, r.1)

  -- The loop of `remove_expired`: the entries that stay, the number erased and the number seen.
  unfoldable pub expire_each : ℕ → ℕ → List (MeterId × ℕ) → List M → List (MeterId × ℕ) × ℕ × ℕ
  expire_each now ttl [] heap = ([], 0, 0)
  expire_each now ttl ((k, a) ∷ table) heap =
      let (stay, expired, total) = expire_each now ttl table heap in
      if expired_at now ttl (get_elem? heap a)
      then (stay, suc expired, suc total)
      else ((k, a) ∷ stay, expired, suc total)

  -- `remove_expired`, with its pair (expired, total).
  unfoldable pub remove_expired : MeterMap M → ℕ → ℕ → MeterMap M × ℕ × ℕ
  remove_expired m now ttl =
      let (stay, expired, total) = expire_each now ttl m.table m.heap in
      (record m { table = stay }, expired, total)
