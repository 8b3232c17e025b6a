-- ===== src/ExpiringCache.antt =====
-- server/expiring_cache.h: values by id with the time of their last use, in nanoseconds. The supplier may
-- change a state of the caller, such as the registry.
pub mod Laws
mod Tests
use spectatord.Base.{
  ℕ, suc, ◌+◌, ◌-◌, List, [], ◌∷◌, Option, none, some, Bool, true, false, ltb, length,
  if◌then◌else◌,
}
use spectatord.Id.{MeterId, id_eq}

pub record CacheEntry (V : Type 0) : Type 0 where
  pub updated : ℕ
  pub v : V

pub record ExpiringCache (V : Type 0) : Type 0 where
  pub cache : List (MeterId × CacheEntry V)

abbrev pub k_expire_after : ℕ
k_expire_after = 120_000_000_000

module _ {V : Type 0} where
  abbrev pub empty_cache : ExpiringCache V
  empty_cache = record { cache = [] }

  unfoldable pub find_entry : MeterId → List (MeterId × CacheEntry V) → Option (CacheEntry V)
  find_entry k [] = none
  find_entry k ((j, e) ∷ cache) = if id_eq j k then some e else find_entry k cache

  -- `entry.updated = now`, of the entry of a key.
  unfoldable pub touch_entry :
      MeterId → ℕ → List (MeterId × CacheEntry V) → List (MeterId × CacheEntry V)
  touch_entry k now [] = []
  touch_entry k now ((j, e) ∷ cache) =
      if id_eq j k
      then (j, record e { updated = now }) ∷ cache
      else (j, e) ∷ touch_entry k now cache

  abbrev pub use_entry :
      {S : Type 0}
      → (S → MeterId → S × V)
      → ExpiringCache V
      → S
      → ℕ
      → MeterId
      → Option (CacheEntry V)
      → ExpiringCache V × S × V
  use_entry supplier c s now k (some e) = (record { cache = touch_entry k now c.cache }, s, e.v)
  use_entry supplier c s now k none =
      let (s', v) = supplier s k in
      (record { cache = (k, record { updated = now; v = v }) ∷ c.cache }, s', v)

  unfoldable pub get_or_create :
      {S : Type 0}
      → (S → MeterId → S × V)
      → ExpiringCache V
      → S
      → ℕ
      → MeterId
      → ExpiringCache V × S × V
  get_or_create supplier c s now k = use_entry supplier c s now k (find_entry k c.cache)

  -- The walk of `expire`: the entries that stay, and the number erased.
  unfoldable pub expire_entries :
      ℕ → List (MeterId × CacheEntry V) → List (MeterId × CacheEntry V) × ℕ
  expire_entries now [] = ([], 0)
  expire_entries now ((j, e) ∷ cache) =
      let (stay, expired) = expire_entries now cache in
      if ltb k_expire_after (now - e.updated) then (stay, suc expired) else ((j, e) ∷ stay, expired)

  -- `expire`, with its pair (size before, expired).
  unfoldable pub expire : ExpiringCache V → ℕ → ExpiringCache V × ℕ × ℕ
  unfolding expire_entries
  expire c now =
      let (stay, expired) = expire_entries now c.cache in
      (record { cache = stay }, length c.cache, expired)
