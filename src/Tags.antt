-- ===== src/Tags.antt =====
-- spectator/tags.h: a set of tags in an array sorted by key, with the small-buffer optimisation. A
-- `StrRef` is the interned text, and pointers to interned texts are equal exactly if the texts are (StringPool).
-- `allocated` is the number of slots at `begin_`; `capacity_` is the member of the union that a large set uses. Of a
-- small set, whose texts stand in the union, no operation reads the field `capacity_`.
pub mod Order
pub mod Lookup
pub mod Storage
pub mod Equality
mod Tests
use spectatord.Base.{
  ℕ, zero, suc, ◌+◌, List, [], ◌∷◌, ◌++◌, Option, none, some, Bool, true, false, ◌==◌, ◌&&◌, ltb,
  length, get_elem?, set, take, drop, if◌then◌else◌,
}
use spectatord.CText.{text_eq, strcmp_lt}

abbrev pub StrRef : Type 0
StrRef = List ℕ

pub record Tag : Type 0 where
  pub key : StrRef
  pub value : StrRef

pub record Tags : Type 0 where
  pub entries : List Tag
  pub capacity_ : ℕ
  pub allocated : ℕ

abbrev pub k_small_tags : ℕ
k_small_tags = 8

abbrev pub size : Tags → ℕ
size t = length t.entries

abbrev pub is_large : Tags → Bool
is_large t = ltb k_small_tags (size t)

abbrev pub capacity : Tags → ℕ
capacity t = if is_large t then t.capacity_ else k_small_tags

-- `Tags()`: the entries are inline, and the union holds zeros.
abbrev pub empty_tags : Tags
empty_tags = record { entries = []; capacity_ = 0; allocated = k_small_tags }

-- `std::lower_bound` on the keys, of a sorted range: the first position whose key is not less.
unfoldable pub lower_bound : List Tag → StrRef → ℕ
lower_bound [] k = 0
lower_bound (tag ∷ tags) k = if strcmp_lt tag.key k then suc (lower_bound tags k) else 0

-- `reallocate`
unfoldable pub reallocate : Tags → Tags
reallocate t =
    let c = capacity t in
    if is_large t
    then record t { capacity_ = t.capacity_ + 4; allocated = c + 4 }
    else record t { capacity_ = c + 4; allocated = c + 4 }

-- `copy_backward` makes room at position `i`, and the new entry goes there.
unfoldable pub store_at : ℕ → Tag → Tags → Tags
store_at i tag t = record t { entries = take i t.entries ++ tag ∷ drop i t.entries }

-- `if (size() == capacity()) reallocate()`
abbrev pub make_room : Tags → Tags
make_room t = if size t == capacity t then reallocate t else t

abbrev pub insert_at : Tags → StrRef → StrRef → ℕ → Option Tag → Tags
insert_at t k v it none = store_at (size t) (record { key = k; value = v }) (make_room t)
insert_at t k v it (some tag) =
    if text_eq tag.key k
    then record t { entries = set t.entries it (record { key = tag.key; value = v }) }
    else store_at it (record { key = k; value = v }) (make_room t)

-- `insert`; `add` interns its texts and calls it. Nothing stands at `end()`.
unfoldable pub insert : Tags → StrRef → StrRef → Tags
insert t k v = let it = lower_bound t.entries k in insert_at t k v it (get_elem? t.entries it)

unfoldable pub insert_entries : Tags → List Tag → Tags
insert_entries t [] = t
insert_entries t (tag ∷ source) = insert_entries (insert t tag.key tag.value) source

-- `add_all`
unfoldable pub add_all : Tags → Tags → Tags
unfolding insert_entries
add_all t source = insert_entries t source.entries

abbrev pub has_at : StrRef → Option Tag → Bool
has_at key none = false
has_at key (some tag) = text_eq tag.key key

-- `has`
unfoldable pub has : Tags → StrRef → Bool
has t key = has_at key (get_elem? t.entries (lower_bound t.entries key))

abbrev pub value_at : StrRef → Option Tag → Option StrRef
value_at key none = none
value_at key (some tag) = if text_eq tag.key key then some tag.value else none

-- `at`: `none` is the null reference.
unfoldable pub at : Tags → StrRef → Option StrRef
at t key = value_at key (get_elem? t.entries (lower_bound t.entries key))

abbrev pub tag_eq : Tag → Tag → Bool
tag_eq a b = text_eq a.key b.key && text_eq a.value b.value

-- `memcmp` over the entries, of two arrays of one length.
abbrev pub entries_eq : List Tag → List Tag → Bool
entries_eq [] [] = true
entries_eq [] (b ∷ bs) = false
entries_eq (a ∷ as') [] = false
entries_eq (a ∷ as') (b ∷ bs) = tag_eq a b && entries_eq as' bs

-- `operator==`
unfoldable pub tags_eq : Tags → Tags → Bool
tags_eq t that =
    if size t == size that
    then (if size t == 0 then true else entries_eq t.entries that.entries)
    else false

-- `Tags(const Tags&)`
unfoldable pub copy : Tags → Tags
copy o =
    if is_large o
    then record { entries = o.entries; capacity_ = size o; allocated = size o }
    else record { entries = o.entries; capacity_ = 0; allocated = k_small_tags }

-- `Tags(Tags&&)`: the new set.
unfoldable pub move_construct : Tags → Tags
move_construct o =
    if is_large o
    then record { entries = o.entries; capacity_ = o.capacity_; allocated = o.allocated }
    else record { entries = o.entries; capacity_ = 0; allocated = k_small_tags }

-- `operator=(Tags&&)`: the left side afterwards. Its own union stays as it is; `bits` is what `capacity_` reads of the
-- union of a small set: 0 for one that never had an entry, else bits of a pointer.
unfoldable pub move_assign : ℕ → Tags → Tags → Tags
move_assign bits t o =
    let stale = if is_large t then t.capacity_ else bits in
    if is_large o
    then record { entries = o.entries; capacity_ = stale; allocated = o.allocated }
    else record { entries = o.entries; capacity_ = stale; allocated = k_small_tags }
