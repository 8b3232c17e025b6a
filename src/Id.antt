-- ===== src/Id.antt =====
-- spectator/id.h and common_refs.h: a meter's name with its tags. The cached hash is not modelled: it
-- only spreads the keys of a hash table.
pub mod Refs
pub mod Laws
mod Tests
use spectatord.Base.{ℕ, List, [], ◌∷◌, Bool, ◌&&◌, if◌then◌else◌}
use spectatord.CText.{text_eq}
use spectatord.StringPool.{sanitize}
use spectatord.Tags.{StrRef, Tags, tags_eq, insert, add_all, has, copy, move_construct}

pub record MeterId : Type 0 where
  pub name : StrRef
  pub tags : Tags

-- `intern_str`: the text that the reference stands for, as StringPool has it. What the call adds to the pool and its
-- statistics is not kept here.
abbrev pub intern_str : List ℕ → StrRef
intern_str = sanitize

-- `Tags::add` of two texts.
abbrev pub add : Tags → List ℕ → List ℕ → Tags
add t k v = insert t (intern_str k) (intern_str v)

-- `Id(StrRef, Tags)`, whose second parameter has been copied or moved to.
unfoldable pub make_id : StrRef → Tags → MeterId
make_id name tags = record { name = name; tags = move_construct tags }

-- `operator==`
unfoldable pub id_eq : MeterId → MeterId → Bool
id_eq a b = text_eq a.name b.name && tags_eq a.tags b.tags

-- `WithTag`
unfoldable pub with_tag : MeterId → StrRef → StrRef → MeterId
with_tag id key value = make_id id.name (copy (insert (copy id.tags) key value))

-- `WithTags`, of two tags.
unfoldable pub with_tags : MeterId → StrRef → StrRef → StrRef → StrRef → MeterId
with_tags id k1 v1 k2 v2 = make_id id.name (copy (insert (insert (copy id.tags) k1 v1) k2 v2))

-- `WithTags(Tags&&)`
unfoldable pub with_all_tags : MeterId → Tags → MeterId
with_all_tags id extra_tags = make_id id.name (move_construct (add_all (copy id.tags) extra_tags))

unfoldable pub with_stat : MeterId → StrRef → MeterId
with_stat id stat = with_tag id Refs.statistic stat

unfoldable pub with_default_stat : MeterId → StrRef → MeterId
with_default_stat id stat = if has id.tags Refs.statistic then id else with_stat id stat
