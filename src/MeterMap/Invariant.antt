-- ===== src/MeterMap/Invariant.antt =====
-- When the table of a meter map is well formed: one entry for each id, each with a live meter of that id, no two
-- entries with one address.
use spectatord.Base.{
  ℕ, zero, suc, ◌<◌, ◌≡◌, ◌≢◌, refl, ◌∙◌, List, [], ◌∷◌, ◌++◌, Option, none, some, true, arith,
  length, get_elem?, if◌then◌else◌, Bool-cases, inl, inr,
}
use spectatord.Id.{MeterId, id_eq}
use spectatord.Id.Laws.{id_eq_refl, id_eq_sym, id_eq_trans}
use spectatord.MeterMap.{MeterMap, find, erase, erase_each, remove_all}

-- No entry of the table has the address.
abbrev pub Unused : ℕ → List (MeterId × ℕ) → Type 0
Unused a [] = Unit {0}
Unused a ((k, b) ∷ table) = (a ≢ b) × Unused a table

module _ {M : Type 0} where
  -- At the address there is a meter with the id.
  abbrev pub Lives : (M → MeterId) → MeterId → Option M → Type 0
  Lives meter_id k none = ⊥
  Lives meter_id k (some x) = id_eq (meter_id x) k ≡ true

  abbrev pub IsTable : (M → MeterId) → List M → List (MeterId × ℕ) → Type 0
  IsTable meter_id heap [] = Unit {0}
  IsTable meter_id heap ((k, a) ∷ table) =
      (find k table ≡ none)
      × Unused a table
      × Lives meter_id k (get_elem? heap a)
      × IsTable meter_id heap table

pub find-id_eq :
    (i j : MeterId) (table : List (MeterId × ℕ)) → id_eq i j ≡ true → find i table ≡ find j table
unfolding find
find-id_eq i j [] h = refl
find-id_eq i j ((k, a) ∷ table) h =
    ground (arith, find-id_eq i j table h, id_eq_trans k i j, id_eq_trans k j i, id_eq_sym i j)

-- `find` after `insert`, in the form of a finite map.
pub find-erase :
    {M : Type 0} (meter_id : M → MeterId) (heap : List M) (id j : MeterId)
    (table : List (MeterId × ℕ))
    → IsTable meter_id heap table
    → find j (erase id table) ≡ (if id_eq id j then none else find j table)
unfolding find erase
find-erase meter_id heap id j [] t = ground arith
find-erase meter_id heap id j ((k, a) ∷ table) t = ground (
  arith,
  find-erase meter_id heap id j table t.3,
  id_eq_trans k id j,
  id_eq_trans id k j,
  id_eq_trans k j id,
  id_eq_sym k id,
  id_eq_sym k j,
  id_eq_sym id j,
  find-id_eq k j table,
)

Unused-erase :
    (a : ℕ) (id : MeterId) (table : List (MeterId × ℕ)) → Unused a table → Unused a (erase id table)
unfolding erase
Unused-erase a id [] u = tt
Unused-erase a id ((k, b) ∷ table) u = elim (Bool-cases (id_eq k id)) [
  | inl e ↦ rw e u.1
  | inr e ↦ rw e (u.0, Unused-erase a id table u.1)
]

pub erase-IsTable :
    {M : Type 0} (meter_id : M → MeterId) (heap : List M) (id : MeterId)
    (table : List (MeterId × ℕ))
    → IsTable meter_id heap table
    → IsTable meter_id heap (erase id table)
unfolding erase
erase-IsTable meter_id heap id [] t = tt
erase-IsTable meter_id heap id ((k, b) ∷ table) t = elim (Bool-cases (id_eq k id)) [
  | inl e ↦ rw e t.3
  | inr e ↦ rw e (
    find-erase meter_id heap id k table t.3 ∙ ground (arith, t.0),
    Unused-erase b id table t.1,
    t.2,
    erase-IsTable meter_id heap id table t.3,
  )
]

pub length-erase :
    (id : MeterId) (table : List (MeterId × ℕ)) (a : ℕ)
    → find id table ≡ some a
    → suc (length (erase id table)) ≡ length table
unfolding find erase
length-erase id [] a h = cc
length-erase id ((k, b) ∷ table) a h = ground (arith, length-erase id table a)

erase_each_self : (table : List (MeterId × ℕ)) → erase_each table table ≡ []
unfolding erase_each erase
erase_each_self [] = refl
erase_each_self ((k, a) ∷ table) = rw (id_eq_refl k) (erase_each_self table)

-- `remove_all` empties the table.
pub remove_all_lem : {M : Type 0} (m : MeterMap M) → (remove_all m).table ≡ []
unfolding remove_all
remove_all_lem m = erase_each_self m.table

pub get_elem?-append :
    {M : Type 0} (xs ys : List M) (i : ℕ) → i < length xs → get_elem? (xs ++ ys) i ≡ get_elem? xs i
get_elem?-append [] ys i h = absurd (omega arith)
get_elem?-append (x ∷ xs) ys zero h = refl
get_elem?-append (x ∷ xs) ys (suc i) h = get_elem?-append xs ys i (omega arith)

pub get_elem?-append_last :
    {M : Type 0} (xs : List M) (x : M) → get_elem? (xs ++ x ∷ []) (length xs) ≡ some x
get_elem?-append_last [] x = refl
get_elem?-append_last (y ∷ xs) x = get_elem?-append_last xs x

pub Lives-lt :
    {M : Type 0} (meter_id : M → MeterId) (k : MeterId) (heap : List M) (a : ℕ)
    → Lives meter_id k (get_elem? heap a)
    → a < length heap
Lives-lt meter_id k [] a l = elim l [ ]
Lives-lt meter_id k (x ∷ heap) zero l = omega arith
Lives-lt meter_id k (x ∷ heap) (suc a) l = omega (arith, Lives-lt meter_id k heap a l)

pub Unused-new :
    {M : Type 0} (meter_id : M → MeterId) (heap : List M) (table : List (MeterId × ℕ))
    → IsTable meter_id heap table
    → Unused (length heap) table
Unused-new meter_id heap [] t = tt
Unused-new meter_id heap ((k, a) ∷ table) t = (
  (λ e. absurd (omega (arith, e, Lives-lt meter_id k heap a t.2))),
  Unused-new meter_id heap table t.3,
)

pub IsTable-append :
    {M : Type 0} (meter_id : M → MeterId) (heap more : List M) (table : List (MeterId × ℕ))
    → IsTable meter_id heap table
    → IsTable meter_id (heap ++ more) table
IsTable-append meter_id heap more [] t = tt
IsTable-append meter_id heap more ((k, a) ∷ table) t = (
  t.0,
  t.1,
  rw (get_elem?-append heap more a (Lives-lt meter_id k heap a t.2)) t.2,
  IsTable-append meter_id heap more table t.3,
)

-- What a lookup finds is a live meter.
pub find_live :
    {M : Type 0} (meter_id : M → MeterId) (heap : List M) (id : MeterId) (a : ℕ)
    (table : List (MeterId × ℕ))
    → IsTable meter_id heap table
    → find id table ≡ some a
    → (x : M) × (get_elem? heap a ≡ some x)
unfolding find
find_live {M} meter_id heap id a [] t h = absurd (cc h)
find_live {M} meter_id heap id a ((k, b) ∷ table) t h = elim (Bool-cases (id_eq k id)) [
  | inl e ↦ live (get_elem? heap b) (ground (arith, h, e)) refl t.2
  | inr e ↦ find_live meter_id heap id a table t.3 (ground (arith, h, e))
]
  where
    live :
        (o : Option M)
        → b ≡ a
        → get_elem? heap b ≡ o
        → Lives meter_id k (get_elem? heap b)
        → (x : M) × (get_elem? heap a ≡ some x)
    live none p q l = absurd (rw q at l)
    live (some x) p q l = (x, rw (← p) q)
