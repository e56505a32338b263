-- ===== src/Redis/CacheAside.antt =====
-- libs/redis/src/redis.service.ts: `getOrSet` and `delIfEqual`. A value that the source does not have is
-- cached as null, here `none`. The cached texts are the values themselves: parsing what was stringified
-- is left to the caller. Lock values are numbers; times are milliseconds, options of `ttl` seconds.
use ocean_chat_private.Prelude.{
  ℕ, ◌+◌, ◌*◌, List, [], ◌∷◌, Option, none, some, Bool, Result, ok, err, ltb, ◌==◌, if◌then◌else◌,
}
use ocean_chat_private.Exceptions.{Exception}
use ocean_chat_private.Store.{Store, setnx_until}

pub record GetOrSetOptions : Type 0 where
  pub ttl : ℕ
  pub null_ttl : ℕ
  pub lock_ttl : ℕ

-- What `getOrSet` does first: it returns what is cached, it has the lock and fetches, or it waits.
pub data Lookup (V : Type 0) : Type 0 where
  hit : Option V → Lookup V
  fetches : Lookup V
  waits : Lookup V

module _ (L : Store ℕ ℕ) where
  unfoldable pub del_if_equal : ℕ → ℕ → ℕ → L.State → L.State
  del_if_equal key expected now locks = elim (L.get key now locks) [
    | none ↦ locks
    | some value ↦ if value == expected then L.delete key locks else locks
  ]

module _ {V : Type 0} (S : Store ℕ (Option V)) where
  abbrev pub ttl_of : GetOrSetOptions → ℕ → Option V → ℕ
  ttl_of options jitter none = options.null_ttl
  ttl_of options jitter (some value) = options.ttl + jitter

  -- Nothing is cached for a time of 0.
  unfoldable pub cache_value : GetOrSetOptions → ℕ → ℕ → ℕ → Option V → S.State → S.State
  cache_value options jitter key now value s =
      let ttl = ttl_of options jitter value in
      if ltb 0 ttl then S.set key value (ttl * 1000) now s else s

  module _ (L : Store ℕ ℕ) where
    -- The lock of a key has the key's number in a store of its own.
    unfoldable pub look_up : GetOrSetOptions → ℕ → ℕ → ℕ → S.State → L.State → L.State × Lookup V
    unfolding setnx_until
    look_up options lock_value key now s locks = elim (S.get key now s) [
      | some cached ↦ (locks, hit cached)
      | none ↦
          (let (locked, acquired) =
              setnx_until L key lock_value (options.lock_ttl * 1000) now locks in
            (locked, if acquired then fetches else waits))
    ]

    -- What the holder of the lock does when the fetcher has returned or thrown. `release_fails` says
    -- that the release throws, which is only logged.
    unfoldable pub after_fetch :
        Bool
        → GetOrSetOptions
        → ℕ
        → ℕ
        → ℕ
        → ℕ
        → Result Exception (Option V)
        → S.State
        → L.State
        → S.State × L.State × Result Exception (Option V)
    unfolding del_if_equal cache_value
    after_fetch release_fails options jitter lock_value key now fetched s locks =
        let released = if release_fails then locks else del_if_equal L key lock_value now locks in
        elim fetched [
          | ok value ↦ (cache_value options jitter key now value s, released, ok value)
          | err e ↦ (s, released, err e)
        ]

  -- The loop of a caller that waits: each item is the time of a poll and the store at that time, or
  -- no store where Redis fails. When the polls are over it returns null.
  unfoldable pub wait_for : ℕ → List (ℕ × Option S.State) → Option V
  wait_for key [] = none
  wait_for key ((now, none) ∷ polls) = wait_for key polls
  wait_for key ((now, some s) ∷ polls) =
      let rest = wait_for key polls in elim (S.get key now s) [ some cached ↦ cached | none ↦ rest ]
