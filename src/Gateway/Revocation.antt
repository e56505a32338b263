-- ===== src/Gateway/Revocation.antt =====
-- apps/oceanchat-api-gateway/src: common/services/token-blacklist.service.ts and
-- modules/nats-events/nats-events.service.ts. Each pod has an in-memory cache of its own; Redis is
-- shared. Token ids are numbers; `exp` is in seconds, `now` in milliseconds.
pub mod Laws
use ocean_chat_private.Prelude.{
  ℕ, ◌-◌, ◌*◌, ◌/◌, Option, none, some, Bool, true, false, Result, ok, err, ltb, if◌then◌else◌,
}
use ocean_chat_private.Exceptions.{Exception, other}
use ocean_chat_private.Store.{Store, setnx_until}

pub record TokenRevokedEvent : Type 0 where
  pub jti : ℕ
  pub exp : ℕ

-- Which of the calls of Redis and of the cache throw while an event is handled.
pub record Faults : Type 0 where
  pub setnx : Bool
  pub cache_set : Bool
  pub del : Bool

-- The time an idempotency key of an event lives.
abbrev pub idempotency_ttl : ℕ
idempotency_ttl = 120 * 1000

module _ (C : Store ℕ Bool) where
  -- `add`; the Boolean says that the cache throws when it is asked to set.
  unfoldable pub add : Bool → ℕ → ℕ → ℕ → C.State → Result Exception C.State
  add throws jti exp now cache =
      if ltb (now / 1000) exp
      then (if throws then err other else ok (C.set jti true ((exp - now / 1000) * 1000) now cache))
      else ok cache

  unfoldable pub is_revoked : ℕ → ℕ → C.State → Bool
  is_revoked jti now cache = elim (C.get jti now cache) [ none ↦ false | some revoked ↦ revoked ]

module _ (C : Store ℕ Bool) (R : Store ℕ (Unit {0})) where
  -- What the `try` and `catch` of `onEvent` leave: Redis, the cache of the pod and what is thrown.
  unfoldable pub after_add :
      Faults
      → ℕ
      → R.State
      → C.State
      → Result Exception C.State
      → R.State × C.State × Option Exception
  after_add f jti redis cache (ok added) = (redis, added, none)
  after_add f jti redis cache (err e) =
      if f.del then (redis, cache, some other) else (R.delete jti redis, cache, some e)

  unfoldable pub on_event :
      Faults → TokenRevokedEvent → ℕ → R.State → C.State → R.State × C.State × Option Exception
  unfolding setnx_until
  on_event f event now redis cache =
      if f.setnx
      then (redis, cache, some other)
      else (let (locked, first) = setnx_until R event.jti tt idempotency_ttl now redis in
          if first
          then after_add f event.jti locked cache (add C f.cache_set event.jti event.exp now cache)
          else (locked, cache, none))

  -- The cache of a pod through any number of deliveries, whatever Redis holds at each.
  pub data Handled (P : TokenRevokedEvent → Type 0) (cache : C.State) : C.State → Type 0 where
    here : Handled P cache cache
    next :
        {between : C.State} (f : Faults) (event : TokenRevokedEvent) (now : ℕ) (redis : R.State)
        → P event
        → Handled P cache between
        → Handled P cache (on_event f event now redis between).1
