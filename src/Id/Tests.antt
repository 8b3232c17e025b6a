-- ===== src/Id/Tests.antt =====
-- The theorems at concrete ids.
use spectatord.Base.{◌≡◌, some, none, if◌then◌else◌}
use spectatord.CText.{chars, text_eq}
use spectatord.Tags.{empty_tags}
use spectatord.Tags.Lookup.{or_else}
use spectatord.Id.{MeterId, with_tag, with_default_stat}
use spectatord.Id.Refs
use spectatord.Id.Laws.{tag_of, tag_of-with_tag, tag_of-with_default_stat}

abbrev requests : MeterId
requests = record { name = chars "requests"; tags = empty_tags }

tag_of-with_tag_run :
    ((with_tag requests (chars "app") (chars "web")).name ≡ requests.name)
    × (tag_of (with_tag requests (chars "app") (chars "web")) (chars "app") ≡ (
        if text_eq (chars "app") (chars "app")
        then some (chars "web")
        else tag_of requests (chars "app")))
tag_of-with_tag_run = tag_of-with_tag requests (chars "app") (chars "web") (chars "app") tt

tag_of-with_default_stat_run :
    ((with_default_stat requests Refs.count).name ≡ requests.name)
    × (tag_of (with_default_stat requests Refs.count) Refs.statistic
        ≡ or_else
            (tag_of requests Refs.statistic)
            (if text_eq Refs.statistic Refs.statistic then some Refs.count else none))
tag_of-with_default_stat_run = tag_of-with_default_stat requests Refs.count Refs.statistic tt
