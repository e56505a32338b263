-- ===== src/Redis/Tests.antt =====
-- libs/redis/src/redis.service.ts: getOrSet on concrete stores.
use ocean_chat_private.Prelude.{
  ℕ, ◌≡◌, ◌≢◌, refl, [], ◌∷◌, ◌++◌, Option, none, some, true, false, ok, arith,
}
use ocean_chat_private.Store.{setnx_until}
use ocean_chat_private.Store.Table.{table}
use ocean_chat_private.Redis.CacheAside.{
  GetOrSetOptions, hit, fetches, cache_value, look_up, after_fetch, wait_for,
}
use ocean_chat_private.Redis.SingleFlight.{
  FindsNothing, single_flight, release_spares_others, fetched_is_shared, waiting_finds,
  waiting_gives_up,
}

abbrev options : GetOrSetOptions
options = record { ttl = 3600; null_ttl = 300; lock_ttl = 5 }

abbrev Values : Type 0
Values = (table (Option ℕ)).State

abbrev Locks : Type 0
Locks = (table ℕ).State

abbrev no_values : Values
no_values = (table (Option ℕ)).empty

abbrev no_locks : Locks
no_locks = (table ℕ).empty

single_flight_run :
    (look_up
      (table (Option ℕ))
      (table ℕ)
      options
      22
      1
      4000
      no_values
      (look_up (table (Option ℕ)) (table ℕ) options 11 1 1000 no_values no_locks).0).1
    ≢ fetches
unfolding look_up setnx_until
single_flight_run =
    single_flight (table (Option ℕ)) (table ℕ) options options 11 22 1 1000 4000 no_values no_values
      no_locks refl (omega arith)

-- After 6 seconds the lock has run out and another caller has it.
lock_of_another_kept :
    (table ℕ).get 1 7500
      (after_fetch
        (table (Option ℕ))
        (table ℕ)
        false
        options
        30
        11
        1
        7500
        (ok (some 8))
        no_values
        (look_up
          (table (Option ℕ))
          (table ℕ)
          options
          22
          1
          7000
          no_values
          (look_up (table (Option ℕ)) (table ℕ) options 11 1 1000 no_values no_locks).0).0).1
    ≡ some 22
unfolding look_up setnx_until
lock_of_another_kept =
    release_spares_others (table (Option ℕ)) (table ℕ) false options options 30 11 22 1 7000 7500
      (ok (some 8)) no_values no_values
      (look_up (table (Option ℕ)) (table ℕ) options 11 1 1000 no_values no_locks).0
      (λ e. ground arith) refl (omega arith)

abbrev cached : Values
cached =
    (after_fetch (table (Option ℕ)) (table ℕ) true options 30 11 1 2000 (ok (some 8)) no_values
      no_locks).0

cached_hit :
    look_up (table (Option ℕ)) (table ℕ) options 22 1 3000 cached no_locks
    ≡ (no_locks, hit (some 8))
cached_hit =
    fetched_is_shared (table (Option ℕ)) (table ℕ) true options options 30 11 22 1 2000 3000 8
      no_values no_locks no_locks (omega arith) (omega arith)

first_poll :
    wait_for
      (table (Option ℕ))
      1
      (((1100, some no_values) ∷ (1200, none) ∷ []) ++ (3000, some cached) ∷ (3100, none) ∷ [])
    ≡ some 8
unfolding FindsNothing after_fetch cache_value
first_poll =
    waiting_finds (table (Option ℕ)) (table ℕ) 1 3000 (some 8) cached
      ((1100, some no_values) ∷ (1200, none) ∷ []) ((3100, none) ∷ []) (refl, (tt, tt)) refl

waiting_gives_up_run :
    wait_for (table (Option ℕ)) 1 ((1100, some no_values) ∷ (1200, none) ∷ []) ≡ none
unfolding FindsNothing
waiting_gives_up_run =
    waiting_gives_up (table (Option ℕ)) (table ℕ) 1 ((1100, some no_values) ∷ (1200, none) ∷ [])
      (refl, (tt, tt))
