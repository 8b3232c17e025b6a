-- ===== src/MeterMap/Stale.antt =====
-- Pointers to meters that are no longer in the table of a `meter_map`, in spectator/registry.h.
use spectatord.Base.{
  ℕ, ◌<◌, ◌≡◌, ◌≢◌, refl, sym, ap, ap₂, ◌∙◌, List, [], ◌∷◌, ◌++◌, Option, none, some, true, ◌==◌,
  arith, length, get_elem?, set, get_elem?-set_ne, if◌then◌else◌, Bool-cases, inl, inr,
}
use spectatord.Float.{Float}
use spectatord.Meter.{Measurement}
use spectatord.Id.{MeterId, id_eq}
use spectatord.MeterMap.{
  MeterOps, MeterMap, find, measure_each, measure_map, measure_object, expire_each, expired_at,
  remove_expired, insert, update, update_object,
}
use spectatord.MeterMap.Invariant.{Unused, Lives-lt, IsTable}
use spectatord.MeterMap.Insert.{IsValid, get_elem?-set, get_elem?-lt}
use spectatord.MeterMap.Expiry.{Unused-expire, remove_expired_lem}

-- Two heaps that agree but at one address.
abbrev pub AgreeOff : {M : Type 0} → ℕ → List M → List M → Type 0
AgreeOff a xs ys = (i : ℕ) → i ≢ a → get_elem? xs i ≡ get_elem? ys i

module _ {F : Float} {M : Type 0} (ops : MeterOps F M) where
  set-AgreeOff :
      (a b : ℕ) (x y : M) (xs ys : List M)
      → get_elem? xs b ≡ some y
      → get_elem? ys b ≡ some y
      → AgreeOff a xs ys
      → AgreeOff a (set xs b x) (set ys b x)
  set-AgreeOff a b x y xs ys p q h i n =
      get_elem?-set ops.meter_id xs b i x (get_elem?-lt ops.meter_id xs b y p)
      ∙ ap (λ (o : Option M). if b == i then some x else o) (h i n)
      ∙ sym (get_elem?-set ops.meter_id ys b i x (get_elem?-lt ops.meter_id ys b y q))

  object-agrees :
      (now ttl a b : ℕ) (o : Option M) (xs ys : List M)
      → get_elem? xs b ≡ o
      → get_elem? ys b ≡ o
      → AgreeOff a xs ys
      → ((measure_object ops now ttl b o xs).1 ≡ (measure_object ops now ttl b o ys).1)
        × AgreeOff a (measure_object ops now ttl b o xs).0 (measure_object ops now ttl b o ys).0
  object-agrees now ttl a b none xs ys p q h = (refl, h)
  object-agrees now ttl a b (some x) xs ys p q h = elim (Bool-cases (ops.is_expired now ttl x)) [
    | inl e ↦ rw e (refl, h)
    | inr e ↦ rw e (refl, set-AgreeOff a b (ops.measure now x).0 x xs ys p q h)
  ]

  measure_each-agrees :
      (now ttl a : ℕ) (table : List (MeterId × ℕ)) (xs ys : List M)
      → Unused a table
      → AgreeOff a xs ys
      → (measure_each ops now ttl table xs).1 ≡ (measure_each ops now ttl table ys).1
  unfolding measure_each
  measure_each-agrees now ttl a [] xs ys u h = refl
  measure_each-agrees now ttl a ((k, b) ∷ table) xs ys u h =
      let same : get_elem? ys b ≡ get_elem? xs b = sym (h b (λ e. u.0 (sym e))) in
      rw same (
        let (p, q) = object-agrees now ttl a b (get_elem? xs b) xs ys refl same h in
        ap₂ (λ (l r : List (Measurement F)). l ++ r) p
          (measure_each-agrees now ttl a table _ _ u.1 q))

  pub update-AgreeOff : (m : MeterMap M) (a : ℕ) (f : M → M) → AgreeOff a (update m a f).heap m.heap
  unfolding update
  update-AgreeOff m a f i n = off (get_elem? m.heap a)
    where
      off : (o : Option M) → get_elem? (update_object f o m.heap a) i ≡ get_elem? m.heap i
      off none = refl
      off (some x) = get_elem?-set_ne m.heap (f x) (λ e. n (sym e))

  found-ne :
      (id : MeterId) (a b : ℕ) (table : List (MeterId × ℕ))
      → Unused b table
      → find id table ≡ some a
      → a ≢ b
  unfolding find
  found-ne id a b [] u h = cc
  found-ne id a b ((k, c) ∷ table) u h = elim (Bool-cases (id_eq k id)) [
    | inl e ↦ λ q. u.0 (ground (arith, h, e, q))
    | inr e ↦ found-ne id a b table u.1 (ground (arith, h, e))
  ]

  found-lt :
      (id : MeterId) (a : ℕ) (table : List (MeterId × ℕ)) (heap : List M)
      → IsTable ops.meter_id heap table
      → find id table ≡ some a
      → a < length heap
  unfolding find
  found-lt id a [] heap t h = cc
  found-lt id a ((k, c) ∷ table) heap t h = elim (Bool-cases (id_eq k id)) [
    | inl e ↦ omega (arith, Lives-lt ops.meter_id k heap c t.2, hit e)
    | inr e ↦ found-lt id a table heap t.3 (ground (arith, h, e))
  ]
    where
      hit : id_eq k id ≡ true → c ≡ a
      hit e = ground (arith, h, e)

  expired-Unused :
      (now ttl : ℕ) (id : MeterId) (a : ℕ) (table : List (MeterId × ℕ)) (heap : List M)
      → IsTable ops.meter_id heap table
      → find id table ≡ some a
      → expired_at ops now ttl (get_elem? heap a) ≡ true
      → Unused a (expire_each ops now ttl table heap).0
  unfolding expire_each find
  expired-Unused now ttl id a [] heap t h x = cc
  expired-Unused now ttl id a ((k, c) ∷ table) heap t h x = elim (Bool-cases (id_eq k id)) [
    | inl e ↦
        let hit : c ≡ a = ground (arith, h, e) in
        rw hit (rw x (Unused-expire ops now ttl table heap a (rw hit at (t.1))))
    | inr e ↦
        let below : find id table ≡ some a = ground (arith, h, e) in
        elim (Bool-cases (expired_at ops now ttl (get_elem? heap c))) [
          | inl y ↦ rw y (expired-Unused now ttl id a table heap t.3 below x)
          | inr y ↦
              rw y (
                found-ne id a c table t.1 below,
                expired-Unused now ttl id a table heap t.3 below x,
              )
        ]
  ]

  -- Once a meter has expired and been removed, what is done through an old pointer to it changes no later
  -- measurement, and asking for its id again gives another meter.
  pub stale_pointer :
      (m : MeterMap M) (id : MeterId) (a now ttl later : ℕ) (f : M → M) (meter : M)
      → IsValid ops.meter_id m
      → find id m.table ≡ some a
      → expired_at ops now ttl (get_elem? m.heap a) ≡ true
      → let r = (remove_expired ops m now ttl).0 in
        ((measure_map ops (update r a f) later ttl).1 ≡ (measure_map ops r later ttl).1)
        × (a < (insert r id meter).1)
  unfolding measure_map update remove_expired insert
  stale_pointer m id a now ttl later f meter v h x = (silent, rw gone fresh)
    where
      r : MeterMap M
      r = (remove_expired ops m now ttl).0

      silent :
          (measure_each ops later ttl (update r a f).table (update r a f).heap).1
          ≡ (measure_each ops later ttl r.table r.heap).1
      silent =
          measure_each-agrees later ttl a r.table _ r.heap
            (expired-Unused now ttl id a m.table m.heap v.entries h x) (update-AgreeOff r a f)

      gone : find id r.table ≡ none
      gone = (remove_expired_lem ops m now ttl id v).1 ∙ rw h (rw x refl)

      fresh : a < length m.heap
      fresh = found-lt id a m.table m.heap v.entries h
