-- ===== src/Tags/Storage.antt =====
-- The array of a tag set, and the slots that are allocated for it.
use spectatord.Base.{
  ℕ, suc, ◌≤◌, ◌<◌, ◌≡◌, refl, if◌then◌else◌, List, [], ◌∷◌, Option, none, some, true, false, arith,
  length, length-append, length-take, length-drop, length-set, take, drop, get_elem?, Bool-cases,
  inl, inr,
}
use spectatord.CText.{text_eq}
use spectatord.Tags.{
  StrRef, Tag, Tags, lower_bound, has, has_at, insert, insert_at, store_at, make_room, reallocate,
  size, capacity, is_large, empty_tags, copy, move_construct, move_assign,
}

-- The entries fit the slots at `begin_`, and `capacity` is their number.
pub record IsStored (t : Tags) : Type 0 where
  pub fits : size t ≤ t.allocated
  pub exact : capacity t ≡ t.allocated

-- `length` of `store_at`, at a position in range.
size-store_at : (i : ℕ) (tag : Tag) (t : Tags) → i ≤ size t → size (store_at i tag t) ≡ suc (size t)
unfolding store_at
size-store_at i tag t h = omega (
  arith,
  length-append (take i t.entries) (tag ∷ drop i t.entries),
  length-take i t.entries,
  length-drop i t.entries,
)

lower_bound-le : (tags : List Tag) (k : StrRef) → lower_bound tags k ≤ length tags
unfolding lower_bound
lower_bound-le [] k = omega arith
lower_bound-le (tag ∷ tags) k = ground (arith, lower_bound-le tags k)

-- After `make_room` there is a free slot, which keeps its size once the set has grown by one.
make_room-free :
    (t : Tags) (i : ℕ) (tag : Tag)
    → IsStored t
    → i ≤ size t
    → IsStored (store_at i tag (make_room t)) × (size t < (make_room t).allocated)
unfolding reallocate store_at
make_room-free t i tag v h = ground (
  arith,
  length-append (take i t.entries) (tag ∷ drop i t.entries),
  length-take i t.entries,
  length-drop i t.entries,
)

insert_at-IsStored :
    (t : Tags) (k v : StrRef) (it : ℕ) (o : Option Tag)
    → IsStored t
    → it ≤ size t
    → IsStored (insert_at t k v it o)
insert_at-IsStored t k v it none s h =
    (make_room-free t (size t) (record { key = k; value = v }) s (omega arith)).0
insert_at-IsStored t k v it (some tag) s h = elim (Bool-cases (text_eq tag.key k)) [
  | inl e ↦ rw e (ground (arith, length-set t.entries it (record { key = tag.key; value = v })))
  | inr e ↦ rw e (make_room-free t it (record { key = k; value = v }) s h).0
]

-- `insert` keeps the entries within the array: it grows the array where it is full.
pub insert-IsStored : (t : Tags) (k v : StrRef) → IsStored t → IsStored (insert t k v)
unfolding insert
insert-IsStored t k v s =
    insert_at-IsStored t k v _ (get_elem? t.entries (lower_bound t.entries k)) s
      (lower_bound-le t.entries k)

pub copy-IsStored : (o : Tags) → IsStored o → IsStored (copy o) × ((copy o).entries ≡ o.entries)
unfolding copy
copy-IsStored o s = ground arith

pub move_construct-IsStored :
    (o : Tags) → IsStored o → IsStored (move_construct o) × ((move_construct o).entries ≡ o.entries)
unfolding move_construct
move_construct-IsStored o s = ground arith

-- After a large set is moved by assignment into a set, `capacity` is what the union of the left side held before.
pub move_assign-capacity :
    (bits : ℕ) (t o : Tags)
    → is_large o ≡ true
    → capacity (move_assign bits t o) ≡ (if is_large t then t.capacity_ else bits)
unfolding move_assign
move_assign-capacity bits t o h = ground arith

-- With a capacity of 0 in the union a large set never grows its array.
full_store :
    (m : Tags) (i : ℕ) (tag : Tag)
    → m.capacity_ ≡ 0
    → is_large m ≡ true
    → size m ≡ m.allocated
    → i ≤ size m
    → (store_at i tag (make_room m)).allocated < size (store_at i tag (make_room m))
unfolding store_at
full_store m i tag z l f h = ground (
  arith,
  length-append (take i m.entries) (tag ∷ drop i m.entries),
  length-take i m.entries,
  length-drop i m.entries,
)

full_insert_at :
    (m : Tags) (k v : StrRef) (it : ℕ) (o : Option Tag)
    → m.capacity_ ≡ 0
    → is_large m ≡ true
    → size m ≡ m.allocated
    → it ≤ size m
    → has_at k o ≡ false
    → (insert_at m k v it o).allocated < size (insert_at m k v it o)
full_insert_at m k v it none z l f h e = full_store m (size m) _ z l f (omega arith)
full_insert_at m k v it (some tag) z l f h e = rw e (full_store m it _ z l f h)

move_assign_large :
    (o : Tags)
    → is_large o ≡ true
    → move_assign 0 empty_tags o
      ≡ record { entries = o.entries; capacity_ = 0; allocated = o.allocated }
unfolding move_assign
move_assign_large o h = rw h refl

-- Once a full large set has been moved by assignment into a new set, whose union holds zeros, an insert of a key that is
-- not there has more entries than slots: one is written past the array.
pub move_assign_overflow :
    (o : Tags) (k v : StrRef)
    → is_large o ≡ true
    → size o ≡ o.allocated
    → has o k ≡ false
    → let after = insert (move_assign 0 empty_tags o) k v in after.allocated < size after
unfolding insert has
move_assign_overflow o k v l f e = rw (move_assign_large o l) (
    full_insert_at (record { entries = o.entries; capacity_ = 0; allocated = o.allocated }) k v _
      (get_elem? o.entries (lower_bound o.entries k)) refl l f (lower_bound-le o.entries k) e)
