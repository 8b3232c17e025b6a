-- ===== src/ExpiringCache/Tests.antt =====
-- The theorems at a cache of numbers.
use spectatord.Base.{ℕ, ◌+◌, ◌≡◌, [], ◌∷◌, length}
use spectatord.CText.{chars}
use spectatord.Tags.{empty_tags}
use spectatord.Id.{MeterId}
use spectatord.ExpiringCache.{ExpiringCache, get_or_create, expire}
use spectatord.ExpiringCache.Laws.{Recent, get_or_create_again, expire_lem}

abbrev requests : MeterId
requests = record { name = chars "requests"; tags = empty_tags }

abbrev one_entry : ExpiringCache ℕ
one_entry = record { cache = (requests, record { updated = 5; v = 42 }) ∷ [] }

-- A supplier that counts its calls.
abbrev counting : ℕ → MeterId → ℕ × ℕ
counting s k = (s + 1, s)

get_or_create_again_run :
    ((get_or_create counting (get_or_create counting one_entry 0 9 requests).0 7 12 requests).2
      ≡ (get_or_create counting one_entry 0 9 requests).2)
    × ((get_or_create counting (get_or_create counting one_entry 0 9 requests).0 7 12 requests).1
        ≡ 7)
get_or_create_again_run = get_or_create_again counting one_entry 0 7 9 12 requests

expire_lem_run :
    Recent 200_000_000_000 (expire one_entry 200_000_000_000).0.cache
    × ((expire one_entry 200_000_000_000).1 ≡ 1)
    × ((expire one_entry 200_000_000_000).2 + length (expire one_entry 200_000_000_000).0.cache ≡ 1)
    × ((expire (expire one_entry 200_000_000_000).0 200_000_000_000).0.cache
        ≡ (expire one_entry 200_000_000_000).0.cache)
expire_lem_run = expire_lem one_entry 200_000_000_000
