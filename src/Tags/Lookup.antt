-- ===== src/Tags/Lookup.antt =====
-- A set of tags of spectator/tags.h as a finite map from keys to values.
use spectatord.Base.{
  ◌≡◌, refl, sym, ap, ◌∙◌, List, [], ◌∷◌, Option, none, some, Bool, true, false, arith, get_elem?,
  Bool-cases, inl, inr, if◌then◌else◌,
}
use spectatord.CText.{text_eq, strcmp_lt}
use spectatord.CText.Order.{text_eq→eq, text_eq_refl, strcmp_irrefl}
use spectatord.Tags.{
  StrRef, Tag, Tags, lower_bound, insert, insert_entries, add_all, at, has, value_at, has_at,
}
use spectatord.Tags.Order.{Above, IsSorted, put, entries-insert, insert-IsSorted}

-- The value of a key, by a walk over all entries.
unfoldable pub find_value : List Tag → StrRef → Option StrRef
find_value [] j = none
find_value (tag ∷ tags) j = if text_eq tag.key j then some tag.value else find_value tags j

-- Whether it has one.
abbrev pub is_some : Option StrRef → Bool
is_some none = false
is_some (some v) = true

pub find_value-Above :
    (j k : StrRef) (tags : List Tag)
    → strcmp_lt j k ≡ false
    → Above j tags
    → find_value tags k ≡ none
unfolding find_value
find_value-Above j k [] h a = refl
find_value-Above j k (tag ∷ tags) h a =
    ground (arith, find_value-Above j k tags h a.1, text_eq→eq tag.key k)

at-find_value_entries :
    (tags : List Tag) (k : StrRef)
    → IsSorted tags
    → value_at k (get_elem? tags (lower_bound tags k)) ≡ find_value tags k
unfolding lower_bound find_value
at-find_value_entries [] k s = refl
at-find_value_entries (tag ∷ tags) k s = elim (Bool-cases (strcmp_lt tag.key k)) [
  | inl e ↦
      rw e (ground (arith, at-find_value_entries tags k s.1, text_eq→eq tag.key k, strcmp_irrefl k))
  | inr e ↦ rw e (ground (arith, find_value-Above tag.key k tags e s.0))
]

pub at-find_value : (t : Tags) (k : StrRef) → IsSorted t.entries → at t k ≡ find_value t.entries k
unfolding at
at-find_value t k s = at-find_value_entries t.entries k s

find_value-put :
    (tags : List Tag) (k v j : StrRef)
    → find_value (put tags k v) j ≡ (if text_eq k j then some v else find_value tags j)
unfolding put find_value
find_value-put [] k v j = refl
find_value-put (tag ∷ tags) k v j = ground (
  arith,
  find_value-put tags k v j,
  text_eq→eq tag.key k,
  text_eq→eq k j,
  text_eq→eq tag.key j,
  strcmp_irrefl k,
  text_eq_refl k,
)

-- `at` after `insert`: the new value at the new key, and no other key changes.
pub at-insert :
    (t : Tags) (k v j : StrRef)
    → IsSorted t.entries
    → at (insert t k v) j ≡ (if text_eq k j then some v else at t j)
at-insert t k v j s =
    at-find_value (insert t k v) j (insert-IsSorted t k v s)
    ∙ ap (λ e. find_value e j) (entries-insert t k v)
    ∙ find_value-put t.entries k v j
    ∙ ap (λ (o : Option StrRef). if text_eq k j then some v else o) (sym (at-find_value t j s))

has_at-value_at : (k : StrRef) (o : Option Tag) → has_at k o ≡ is_some (value_at k o)
has_at-value_at k none = refl
has_at-value_at k (some tag) = ground arith

-- `has` holds exactly of the keys at which `at` finds a value.
pub has-at : (t : Tags) (k : StrRef) → has t k ≡ is_some (at t k)
unfolding has at
has-at t k = has_at-value_at k (get_elem? t.entries (lower_bound t.entries k))

-- The value that the last of the entries with this key gives, or else an old one.
unfoldable pub last_value : List Tag → StrRef → Option StrRef → Option StrRef
last_value [] j old = old
last_value (tag ∷ source) j old =
    last_value source j (if text_eq tag.key j then some tag.value else old)

pub insert_entries-IsSorted :
    (source : List Tag) (t : Tags) → IsSorted t.entries → IsSorted (insert_entries t source).entries
unfolding insert_entries
insert_entries-IsSorted [] t s = s
insert_entries-IsSorted (tag ∷ source) t s =
    insert_entries-IsSorted source (insert t tag.key tag.value) (insert-IsSorted t _ _ s)

at-insert_entries :
    (source : List Tag) (t : Tags) (j : StrRef)
    → IsSorted t.entries
    → at (insert_entries t source) j ≡ last_value source j (at t j)
unfolding insert_entries last_value
at-insert_entries [] t j s = refl
at-insert_entries (tag ∷ source) t j s =
    at-insert_entries source (insert t tag.key tag.value) j (insert-IsSorted t _ _ s)
    ∙ ap (last_value source j) (at-insert t tag.key tag.value j s)

last_value-Above :
    (source : List Tag) (j k : StrRef) (old : Option StrRef)
    → strcmp_lt j k ≡ false
    → Above j source
    → last_value source k old ≡ old
unfolding last_value
last_value-Above [] j k old h a = refl
last_value-Above (tag ∷ source) j k old h a =
    ground (arith, last_value-Above source j k old h a.1, text_eq→eq tag.key k)

-- One of two optional values, the first if it is there.
abbrev pub or_else : Option StrRef → Option StrRef → Option StrRef
or_else none o = o
or_else (some v) o = some v

last_value-find_value :
    (source : List Tag) (j : StrRef) (old : Option StrRef)
    → IsSorted source
    → last_value source j old ≡ or_else (find_value source j) old
unfolding last_value find_value
last_value-find_value [] j old s = refl
last_value-find_value (tag ∷ source) j old s = ground (
  arith,
  last_value-find_value source j old s.1,
  text_eq→eq tag.key j,
  last_value-Above source tag.key j (some tag.value),
  strcmp_irrefl j,
)

-- `add_all` of one set to another: the tags of the source win, and the other tags stay.
pub at-add_all :
    (t source : Tags) (j : StrRef)
    → IsSorted t.entries
    → IsSorted source.entries
    → at (add_all t source) j ≡ or_else (at source j) (at t j)
unfolding add_all
at-add_all t source j s r =
    at-insert_entries source.entries t j s
    ∙ last_value-find_value source.entries j (at t j) r
    ∙ ap (λ o. or_else o (at t j)) (sym (at-find_value source j r))

pub add_all-IsSorted : (t source : Tags) → IsSorted t.entries → IsSorted (add_all t source).entries
unfolding add_all
add_all-IsSorted t source s = insert_entries-IsSorted source.entries t s
