-- ===== src/Id/Laws.antt =====
-- What the operations on an id do to its tags, seen as a map.
use spectatord.Base.{
  ◌≡◌, refl, sym, ap, ◌∙◌, Option, none, some, true, ◌&&◌, arith, if◌then◌else◌, ◌↔◌,
}
use spectatord.CText.{text_eq}
use spectatord.CText.Order.{text_eq_refl, text_eq→eq}
use spectatord.Tags.{StrRef, Tags, insert, has, at, copy, move_construct, tags_eq}
use spectatord.Tags.Order.{IsSorted, insert-IsSorted}
use spectatord.Tags.Lookup.{find_value, at-find_value, at-insert, or_else, has-at}
use spectatord.Tags.Equality.{tags_eq-entries_eq, entries_eq→eq, entries_eq_refl}
use spectatord.Id.{MeterId, make_id, id_eq, with_tag, with_stat, with_default_stat}
use spectatord.Id.Refs

pub copy-entries : (t : Tags) → (copy t).entries ≡ t.entries
unfolding copy
copy-entries t = ground arith

pub move-entries : (t : Tags) → (move_construct t).entries ≡ t.entries
unfolding move_construct
move-entries t = ground arith

-- An id is well formed if its tags are sorted.
abbrev pub IsIdSorted : MeterId → Type 0
IsIdSorted id = IsSorted id.tags.entries

-- The value of a tag of an id.
abbrev pub tag_of : MeterId → StrRef → Option StrRef
tag_of id key = at id.tags key

-- `at` depends on the entries alone.
at-entries :
    (t u : Tags) (j : StrRef) → t.entries ≡ u.entries → IsSorted u.entries → at t j ≡ at u j
at-entries t u j e s =
    at-find_value t j (rw e s) ∙ ap (λ x. find_value x j) e ∙ sym (at-find_value u j s)

entries-with_tag :
    (id : MeterId) (k v : StrRef)
    → (with_tag id k v).tags.entries ≡ (insert (copy id.tags) k v).entries
unfolding with_tag make_id
entries-with_tag id k v = move-entries _ ∙ copy-entries _

copy-IsSorted : (t : Tags) → IsSorted t.entries → IsSorted (copy t).entries
copy-IsSorted t s = rw (copy-entries t) s

pub with_tag-IsIdSorted :
    (id : MeterId) (k v : StrRef) → IsIdSorted id → IsIdSorted (with_tag id k v)
with_tag-IsIdSorted id k v s =
    rw (entries-with_tag id k v) (insert-IsSorted _ k v (copy-IsSorted id.tags s))

-- `WithTag` sets one tag, and leaves the name and the other tags.
pub tag_of-with_tag :
    (id : MeterId) (k v j : StrRef)
    → IsIdSorted id
    → ((with_tag id k v).name ≡ id.name)
      × (tag_of (with_tag id k v) j ≡ (if text_eq k j then some v else tag_of id j))
tag_of-with_tag id k v j s = (unfold with_tag make_id in refl, value)
  where
    base : IsSorted (copy id.tags).entries
    base = copy-IsSorted id.tags s

    value : tag_of (with_tag id k v) j ≡ (if text_eq k j then some v else tag_of id j)
    value =
        at-entries (with_tag id k v).tags (insert (copy id.tags) k v) j (entries-with_tag id k v)
          (insert-IsSorted _ k v base)
        ∙ at-insert (copy id.tags) k v j base
        ∙ ap (λ (o : Option StrRef). if text_eq k j then some v else o)
            (at-entries (copy id.tags) id.tags j (copy-entries id.tags) s)

default_tag :
    (id : MeterId) (key stat j : StrRef)
    → IsIdSorted id
    → ((if has id.tags key then id else with_tag id key stat).name ≡ id.name)
      × (tag_of (if has id.tags key then id else with_tag id key stat) j
          ≡ or_else (tag_of id j) (if text_eq key j then some stat else none))
default_tag id key stat j s =
    ground (
      arith,
      has-at id.tags key,
      tag_of-with_tag id key stat j s,
      text_eq→eq key j,
      text_eq_refl key,
    )

-- `WithDefaultStat` gives an id a statistic if it has none, and changes nothing else: the statistic that
-- a tag of the line names wins.
pub tag_of-with_default_stat :
    (id : MeterId) (stat j : StrRef)
    → IsIdSorted id
    → ((with_default_stat id stat).name ≡ id.name)
      × (tag_of (with_default_stat id stat) j
          ≡ or_else (tag_of id j) (if text_eq Refs.statistic j then some stat else none))
unfolding with_default_stat with_stat
tag_of-with_default_stat id stat j s = default_tag id Refs.statistic stat j s

-- Equality of ids is that of the name and the entries.
pub id_eq_iff :
    (a b : MeterId) → (id_eq a b ≡ true) ↔ ((a.name ≡ b.name) × (a.tags.entries ≡ b.tags.entries))
unfolding id_eq
id_eq_iff a b = (to, from)
  where
    to :
        (text_eq a.name b.name && tags_eq a.tags b.tags) ≡ true
        → (a.name ≡ b.name) × (a.tags.entries ≡ b.tags.entries)
    to h = ground (
      arith,
      text_eq→eq a.name b.name,
      tags_eq-entries_eq a.tags b.tags,
      entries_eq→eq a.tags.entries b.tags.entries,
    )

    from :
        (a.name ≡ b.name) × (a.tags.entries ≡ b.tags.entries)
        → (text_eq a.name b.name && tags_eq a.tags b.tags) ≡ true
    from (p, q) =
        rw (p, tags_eq-entries_eq a.tags b.tags, q, entries_eq_refl b.tags.entries)
          (ground (arith, text_eq_refl b.name))

pub id_eq_refl : (a : MeterId) → id_eq a a ≡ true
id_eq_refl a = (id_eq_iff a a).1 (refl, refl)

pub id_eq_sym : (a b : MeterId) → id_eq a b ≡ true → id_eq b a ≡ true
id_eq_sym a b h = let (p, q) = (id_eq_iff a b).0 h in (id_eq_iff b a).1 (sym p, sym q)

pub id_eq_trans : (a b c : MeterId) → id_eq a b ≡ true → id_eq b c ≡ true → id_eq a c ≡ true
id_eq_trans a b c h k =
    let (p, q) = (id_eq_iff a b).0 h in
    let (r, s) = (id_eq_iff b c).0 k in (id_eq_iff a c).1 (p ∙ r, q ∙ s)
