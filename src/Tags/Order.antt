-- ===== src/Tags/Order.antt =====
-- The order of the entries of a set of tags, in spectator/tags.h.
use spectatord.Base.{
  ℕ, suc, ◌≡◌, refl, ap, ◌∙◌, List, [], ◌∷◌, ◌++◌, Option, none, some, true, arith, length,
  get_elem?, set, take, drop, Bool-cases, inl, inr, if◌then◌else◌,
}
use spectatord.CText.{text_eq, strcmp_lt}
use spectatord.CText.Order.{strcmp_trans, strcmp_total}
use spectatord.Tags.{
  StrRef, Tag, Tags, lower_bound, insert, insert_at, store_at, make_room, reallocate,
}

-- Every key of the list is behind `k`.
abbrev pub Above : StrRef → List Tag → Type 0
Above k [] = Unit {0}
Above k (tag ∷ tags) = (strcmp_lt k tag.key ≡ true) × Above k tags

abbrev pub IsSorted : List Tag → Type 0
IsSorted [] = Unit {0}
IsSorted (tag ∷ tags) = Above tag.key tags × IsSorted tags

-- What `insert` does to the entries, as a recursion on them.
unfoldable pub put : List Tag → StrRef → StrRef → List Tag
put [] k v = record { key = k; value = v } ∷ []
put (tag ∷ tags) k v =
    if strcmp_lt tag.key k
    then tag ∷ put tags k v
    else if text_eq tag.key k
    then record { key = tag.key; value = v } ∷ tags
    else record { key = k; value = v } ∷ tag ∷ tags

abbrev put_at : List Tag → StrRef → StrRef → ℕ → Option Tag → List Tag
put_at tags k v it none =
    take (length tags) tags ++ record { key = k; value = v } ∷ drop (length tags) tags
put_at tags k v it (some tag) =
    if text_eq tag.key k
    then set tags it (record { key = tag.key; value = v })
    else take it tags ++ record { key = k; value = v } ∷ drop it tags

put_at_cons :
    (x : Tag) (tags : List Tag) (k v : StrRef) (it : ℕ) (o : Option Tag)
    → put_at (x ∷ tags) k v (suc it) o ≡ x ∷ put_at tags k v it o
put_at_cons x tags k v it none = refl
put_at_cons x tags k v it (some tag) = ground arith

put_at-put :
    (tags : List Tag) (k v : StrRef)
    → put_at tags k v (lower_bound tags k) (get_elem? tags (lower_bound tags k)) ≡ put tags k v
unfolding put lower_bound
put_at-put [] k v = refl
put_at-put (tag ∷ tags) k v = elim (Bool-cases (strcmp_lt tag.key k)) [
  | inl e ↦ rw e (
      put_at_cons tag tags k v _ (get_elem? tags (lower_bound tags k))
      ∙ ap (◌∷◌ tag) (put_at-put tags k v))
  | inr e ↦ rw e refl
]

make_room-entries : (t : Tags) → (make_room t).entries ≡ t.entries
unfolding reallocate
make_room-entries t = ground arith

entries-insert_at :
    (t : Tags) (k v : StrRef) (it : ℕ) (o : Option Tag)
    → (insert_at t k v it o).entries ≡ put_at t.entries k v it o
unfolding store_at
entries-insert_at t k v it none = ground (arith, make_room-entries t)
entries-insert_at t k v it (some tag) = ground (arith, make_room-entries t)

pub entries-insert : (t : Tags) (k v : StrRef) → (insert t k v).entries ≡ put t.entries k v
unfolding insert
entries-insert t k v =
    entries-insert_at t k v _ (get_elem? t.entries (lower_bound t.entries k))
    ∙ put_at-put t.entries k v

Above-trans : (j k : StrRef) (tags : List Tag) → strcmp_lt j k ≡ true → Above k tags → Above j tags
Above-trans j k [] h a = tt
Above-trans j k (tag ∷ tags) h a = (strcmp_trans j k tag.key h a.0, Above-trans j k tags h a.1)

put-Above :
    (j k v : StrRef) (tags : List Tag)
    → strcmp_lt j k ≡ true
    → Above j tags
    → Above j (put tags k v)
unfolding put
put-Above j k v [] h a = (h, tt)
put-Above j k v (tag ∷ tags) h a = ground (arith, put-Above j k v tags h a.1)

put-IsSorted : (tags : List Tag) (k v : StrRef) → IsSorted tags → IsSorted (put tags k v)
unfolding put
put-IsSorted [] k v s = (tt, tt)
put-IsSorted (tag ∷ tags) k v s = ground (
  arith,
  put-IsSorted tags k v s.1,
  put-Above tag.key k v tags,
  strcmp_total tag.key k,
  Above-trans k tag.key tags,
)

-- Adding a tag to a sorted set leaves it sorted, with no key twice.
pub insert-IsSorted :
    (t : Tags) (k v : StrRef) → IsSorted t.entries → IsSorted (insert t k v).entries
insert-IsSorted t k v s = rw (entries-insert t k v) (put-IsSorted t.entries k v s)
