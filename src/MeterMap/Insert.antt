-- ===== src/MeterMap/Insert.antt =====
-- `insert`, `remove_one` and updates through a pointer, of `meter_map` in spectator/registry.h.
use spectatord.Base.{
  ℕ, zero, suc, ◌<◌, ◌≡◌, refl, ◌∙◌, List, [], ◌∷◌, Option, none, some, true, false, ◌==◌, arith,
  length, get_elem?, set, if◌then◌else◌, Bool-cases, Option-cases, inl, inr,
}
use spectatord.Id.{MeterId, id_eq}
use spectatord.Id.Laws.{id_eq_refl}
use spectatord.MeterMap.{
  MeterMap, find, insert, emplace, remove_one, contains, update, update_object, has_entry,
}
use spectatord.MeterMap.Invariant.{
  Unused, Lives, IsTable, find-id_eq, find-erase, erase-IsTable, get_elem?-append_last, Unused-new,
  IsTable-append,
}

module _ {M : Type 0} (meter_id : M → MeterId) where
  pub record IsValid (m : MeterMap M) : Type 0 where
    pub entries : IsTable meter_id m.heap m.table

  -- What `insert` promises for the map `m'` and the pointer `a`: a meter that is there stays, with its
  -- state, and otherwise the new one stands under a new pointer; no other id is touched.
  pub record Inserted (m : MeterMap M) (id : MeterId) (meter : M) (m' : MeterMap M) (a : ℕ)
      : Type 0 where
    pub valid : IsValid m'
    pub found : find id m'.table ≡ some a
    pub others : (j : MeterId) → id_eq id j ≡ false → find j m'.table ≡ find j m.table
    pub old : (b : ℕ) → find id m.table ≡ some b → (a ≡ b) × (m' ≡ m)
    pub new :
        find id m.table ≡ none
        → (get_elem? m'.heap a ≡ some meter)
          × (length m'.table ≡ suc (length m.table))
          × Unused a m.table

  emplace-Inserted :
      (m : MeterMap M) (id : MeterId) (meter : M) (o : Option ℕ)
      → IsValid m
      → id_eq (meter_id meter) id ≡ true
      → find id m.table ≡ o
      → Inserted m id meter (emplace m id meter o).0 (emplace m id meter o).1
  unfolding find
  emplace-Inserted m id meter (some a) v e h = record {
    valid = v;
    found = h;
    others = λ j k. refl;
    old = λ b q. (ground (arith, h, q), refl);
    new = λ q. absurd (cc (h, q));
  }
  emplace-Inserted m id meter none v e h = record {
    valid = record {
      entries = (
        h,
        Unused-new meter_id m.heap m.table v.entries,
        rw (get_elem?-append_last m.heap meter) e,
        IsTable-append meter_id m.heap (meter ∷ []) m.table v.entries,
      );
    };
    found = rw (id_eq_refl id) refl;
    others = λ j k. rw k refl;
    old = λ b q. absurd (cc (h, q));
    new = λ q.
        (get_elem?-append_last m.heap meter, refl, Unused-new meter_id m.heap m.table v.entries);
  }

  -- `insert` returns the meter that is there, or else stores the new one.
  pub insert-Inserted :
      (m : MeterMap M) (id : MeterId) (meter : M)
      → IsValid m
      → id_eq (meter_id meter) id ≡ true
      → Inserted m id meter (insert m id meter).0 (insert m id meter).1
  unfolding insert
  insert-Inserted m id meter v e = emplace-Inserted m id meter (find id m.table) v e refl

  -- `remove_one` tells whether the id was there, and takes out its entry alone. The objects stay.
  pub remove_one_lem :
      (m : MeterMap M) (id j : MeterId)
      → IsValid m
      → IsValid (remove_one m id).0
        × ((remove_one m id).1 ≡ has_entry (find id m.table))
        × (find j (remove_one m id).0.table ≡ (if id_eq id j then none else find j m.table))
        × ((remove_one m id).0.heap ≡ m.heap)
  unfolding remove_one contains
  remove_one_lem m id j v = elim (Option-cases (find id m.table)) [
    | inl e ↦ rw (e, has_entry) (v, refl, ground (arith, find-id_eq id j m.table), refl)
    | inr (a, e) ↦
        rw (e, has_entry)
          (
            record { entries = erase-IsTable meter_id m.heap id m.table v.entries },
            refl,
            find-erase meter_id m.heap id j m.table v.entries,
            refl,
          )
  ]

  pub get_elem?-set :
      (xs : List M) (i j : ℕ) (x : M)
      → i < length xs
      → get_elem? (set xs i x) j ≡ (if i == j then some x else get_elem? xs j)
  get_elem?-set [] i j x h = absurd (omega arith)
  get_elem?-set (y ∷ xs) zero zero x h = ground arith
  get_elem?-set (y ∷ xs) zero (suc j) x h = ground arith
  get_elem?-set (y ∷ xs) (suc i) zero x h = ground arith
  get_elem?-set (y ∷ xs) (suc i) (suc j) x h = get_elem?-set xs i j x (omega arith) ∙ ground arith

  pub get_elem?-lt : (xs : List M) (i : ℕ) (x : M) → get_elem? xs i ≡ some x → i < length xs
  get_elem?-lt [] i x h = cc
  get_elem?-lt (y ∷ xs) zero x h = omega arith
  get_elem?-lt (y ∷ xs) (suc i) x h = omega (arith, get_elem?-lt xs i x h)

  Lives-set :
      (k : MeterId) (heap : List M) (a b : ℕ) (x y : M)
      → get_elem? heap a ≡ some x
      → meter_id y ≡ meter_id x
      → Lives meter_id k (get_elem? heap b)
      → Lives meter_id k (get_elem? (set heap a y) b)
  Lives-set k heap a b x y h e l =
      rw (get_elem?-set heap a b y (get_elem?-lt heap a x h))
        (elim (Bool-cases (a == b)) [ inl q ↦ rw q (hit (ground arith)) | inr q ↦ rw q l ])
    where
      hit : a ≡ b → id_eq (meter_id y) k ≡ true
      hit p = rw e (rw (← p, h) at l)

  pub IsTable-set :
      (heap : List M) (a : ℕ) (x y : M) (table : List (MeterId × ℕ))
      → get_elem? heap a ≡ some x
      → meter_id y ≡ meter_id x
      → IsTable meter_id heap table
      → IsTable meter_id (set heap a y) table
  IsTable-set heap a x y [] h e t = tt
  IsTable-set heap a x y ((k, b) ∷ table) h e t =
      (t.0, t.1, Lives-set k heap a b x y h e t.2, IsTable-set heap a x y table h e t.3)

  update_object-IsTable :
      (heap : List M) (a : ℕ) (f : M → M) (table : List (MeterId × ℕ)) (o : Option M)
      → ((x : M) → meter_id (f x) ≡ meter_id x)
      → get_elem? heap a ≡ o
      → IsTable meter_id heap table
      → IsTable meter_id (update_object f o heap a) table
  update_object-IsTable heap a f table none e h t = t
  update_object-IsTable heap a f table (some x) e h t = IsTable-set heap a x (f x) table h (e x) t

  -- A method that keeps a meter's id keeps the table valid, called through any pointer.
  pub update-IsValid :
      (m : MeterMap M) (a : ℕ) (f : M → M)
      → ((x : M) → meter_id (f x) ≡ meter_id x)
      → IsValid m
      → IsValid (update m a f)
  unfolding update
  update-IsValid m a f e v = record {
    entries = update_object-IsTable m.heap a f m.table _ e refl v.entries;
  }
