-- ===== src/ExpiringCache/Laws.antt =====
-- What the cache of server/expiring_cache.h hands out, and what it forgets.
use spectatord.Base.{
  ℕ, ◌+◌, ◌-◌, ◌≤◌, ◌≡◌, refl, List, [], ◌∷◌, Option, none, some, ltb, length, arith, Bool-cases,
  inl, inr,
}
use spectatord.Id.{MeterId}
use spectatord.Id.Laws.{id_eq_refl}
use spectatord.ExpiringCache.{
  CacheEntry, ExpiringCache, k_expire_after, find_entry, touch_entry, use_entry, get_or_create,
  expire_entries, expire,
}

module _ {V : Type 0} where
  touched :
      (k : MeterId) (now : ℕ) (cache : List (MeterId × CacheEntry V)) (e : CacheEntry V)
      → find_entry k cache ≡ some e
      → find_entry k (touch_entry k now cache) ≡ some (record e { updated = now })
  unfolding find_entry touch_entry
  touched k now [] e h = cc
  touched k now ((j, x) ∷ cache) e h = ground (arith, touched k now cache e)

  used :
      {S : Type 0} (supplier : S → MeterId → S × V) (c : ExpiringCache V) (s : S) (now : ℕ)
      (k : MeterId) (o : Option (CacheEntry V))
      → find_entry k c.cache ≡ o
      → let r = use_entry supplier c s now k o in
        find_entry k r.0.cache ≡ some (record { updated = now; v = r.2 })
  unfolding find_entry
  used supplier c s now k none h = rw (id_eq_refl k) refl
  used supplier c s now k (some e) h = touched k now c.cache e h

  -- After a use the id has its value in the cache, dated to the use: the next use, at any later time with no
  -- expiry between, returns the same value and calls no supplier.
  pub get_or_create_again :
      {S : Type 0} (supplier : S → MeterId → S × V) (c : ExpiringCache V) (s s' : S) (now later : ℕ)
      (k : MeterId)
      → let first = get_or_create supplier c s now k in
        let second = get_or_create supplier first.0 s' later k in
        (second.2 ≡ first.2) × (second.1 ≡ s')
  unfolding get_or_create
  get_or_create_again supplier c s s' now later k =
      rw (used supplier c s now k (find_entry k c.cache) refl) (refl, refl)

  -- The entries in use lately.
  abbrev pub Recent : ℕ → List (MeterId × CacheEntry V) → Type 0
  Recent now [] = Unit {0}
  Recent now ((j, e) ∷ cache) = (now ≤ e.updated + k_expire_after) × Recent now cache

  expire-Recent :
      (now : ℕ) (cache : List (MeterId × CacheEntry V)) → Recent now (expire_entries now cache).0
  unfolding expire_entries
  expire-Recent now [] = tt
  expire-Recent now ((j, e) ∷ cache) = elim (Bool-cases (ltb k_expire_after (now - e.updated))) [
    | inl h ↦ rw h (expire-Recent now cache)
    | inr h ↦ rw h (ground (arith, h), expire-Recent now cache)
  ]

  expire-counts :
      (now : ℕ) (cache : List (MeterId × CacheEntry V))
      → (expire_entries now cache).1 + length (expire_entries now cache).0 ≡ length cache
  unfolding expire_entries
  expire-counts now [] = omega arith
  expire-counts now ((j, e) ∷ cache) = ground (arith, expire-counts now cache)

  expire-kept :
      (now : ℕ) (cache : List (MeterId × CacheEntry V))
      → Recent now cache
      → (expire_entries now cache).0 ≡ cache
  unfolding expire_entries
  expire-kept now [] r = refl
  expire-kept now ((j, e) ∷ cache) r = ground (arith, expire-kept now cache r.1)

  -- `expire` leaves the entries of the last two minutes, and reports the size before with the number of those
  -- that it erased. A second call at that time erases none.
  pub expire_lem :
      (c : ExpiringCache V) (now : ℕ)
      → let r = expire c now in
        Recent now r.0.cache
        × (r.1 ≡ length c.cache)
        × (r.2 + length r.0.cache ≡ length c.cache)
        × ((expire r.0 now).0.cache ≡ r.0.cache)
  unfolding expire
  expire_lem c now = (
    expire-Recent now c.cache,
    refl,
    expire-counts now c.cache,
    expire-kept now (expire_entries now c.cache).0 (expire-Recent now c.cache),
  )
