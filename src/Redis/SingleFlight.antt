-- ===== src/Redis/SingleFlight.antt =====
-- libs/redis/src/redis.service.ts: callers that ask for the same key.
use ocean_chat_private.Prelude.{
  ℕ, ◌+◌, ◌*◌, ◌<◌, ◌≤◌, ◌≡◌, ◌≢◌, refl, sym, ap, ◌∙◌, List, [], ◌∷◌, ◌++◌, Option, none, some,
  Bool, Result, ok, err, arith, All, append-nil,
}
use ocean_chat_private.Exceptions.{Exception}
use ocean_chat_private.Store.{Store, setnx_until}
use ocean_chat_private.Redis.CacheAside.{
  GetOrSetOptions, hit, fetches, del_if_equal, cache_value, look_up, after_fetch, wait_for,
}

-- A poll finds nothing: Redis fails, or the key is not there.
unfoldable pub FindsNothing :
    {V : Type 0} (S : Store ℕ (Option V)) → ℕ → ℕ × Option S.State → Type 0
FindsNothing S key (now, none) = Unit
FindsNothing S key (now, some s) = S.get key now s ≡ none

module _ {V : Type 0} (S : Store ℕ (Option V)) (L : Store ℕ ℕ) where
  -- When a caller has found nothing and taken the lock, the next caller in the time of the lock
  -- does not fetch: it gets what is cached by then, or waits.
  pub single_flight :
      (o p : GetOrSetOptions) (mine yours key start now : ℕ) (s t : S.State) (locks : L.State)
      → (look_up S L o mine key start s locks).1 ≡ fetches
      → now < start + o.lock_ttl * 1000
      → (look_up S L p yours key now t (look_up S L o mine key start s locks).0).1 ≢ fetches
  unfolding look_up setnx_until
  single_flight o p mine yours key start now s t locks f l e =
      ground (arith, L.get-set key mine (o.lock_ttl * 1000) start now locks l)

  -- A caller whose lock has run out does not release the lock that another caller has taken with
  -- another value, while that lasts.
  pub release_spares_others :
      (f : Bool) (o p : GetOrSetOptions) (jitter mine yours key start now : ℕ)
      (r : Result Exception (Option V)) (s t : S.State) (locks : L.State)
      → mine ≢ yours
      → (look_up S L p yours key start s locks).1 ≡ fetches
      → now < start + p.lock_ttl * 1000
      → L.get key now
          (after_fetch S L f o jitter mine key now r t (look_up S L p yours key start s locks).0).1
        ≡ some yours
  unfolding after_fetch del_if_equal look_up setnx_until
  release_spares_others f o p jitter mine yours key start now (ok v) s t locks d a l =
      ground (arith, L.get-set key yours (p.lock_ttl * 1000) start now locks l)
  release_spares_others f o p jitter mine yours key start now (err e) s t locks d a l =
      ground (arith, L.get-set key yours (p.lock_ttl * 1000) start now locks l)

  -- A fetched value is what every caller gets that comes while it is cached, without touching a lock.
  pub fetched_is_shared :
      (f : Bool) (o p : GetOrSetOptions) (jitter mine yours key done now : ℕ) (value : V)
      (s : S.State) (locks held : L.State)
      → done ≤ now
      → now < done + (o.ttl + jitter) * 1000
      → look_up S L p yours key now
          (after_fetch S L f o jitter mine key done (ok (some value)) s locks).0
          held
        ≡ (held, hit (some value))
  unfolding after_fetch cache_value look_up
  fetched_is_shared f o p jitter mine yours key done now value s locks held after l =
      ground (arith, S.get-set key (some value) ((o.ttl + jitter) * 1000) done now s l)

  wait_for-nothing :
      (key : ℕ) (before : List (ℕ × Option S.State)) (rest : List (ℕ × Option S.State))
      → All (FindsNothing S key) before
      → wait_for S key (before ++ rest) ≡ wait_for S key rest
  unfolding wait_for FindsNothing
  wait_for-nothing key [] rest a = refl
  wait_for-nothing key ((now, none) ∷ before) rest (n, a) = wait_for-nothing key before rest a
  wait_for-nothing key ((now, some s) ∷ before) rest (n, a) =
      ground (arith, wait_for-nothing key before rest a)

  -- A caller that waits gets the value of the first poll that finds one.
  pub waiting_finds :
      (key now : ℕ) (value : Option V) (s : S.State) (before after : List (ℕ × Option S.State))
      → All (FindsNothing S key) before
      → S.get key now s ≡ some value
      → wait_for S key (before ++ (now, some s) ∷ after) ≡ value
  unfolding wait_for
  waiting_finds key now value s before after a h =
      wait_for-nothing key before ((now, some s) ∷ after) a ∙ ground arith

  -- A caller whose polls all find nothing returns null, without asking the source.
  pub waiting_gives_up :
      (key : ℕ) (polls : List (ℕ × Option S.State))
      → All (FindsNothing S key) polls
      → wait_for S key polls ≡ none
  unfolding wait_for
  waiting_gives_up key polls a =
      ap (wait_for S key) (sym (append-nil polls)) ∙ wait_for-nothing key polls [] a
