-- ===== src/Store.antt =====
-- What the program relies on in the stores it does not implement, Redis with its expiring strings and
-- the in-memory cache of cache-manager: an interface with the documented behaviour as laws. The
-- clients take it as a parameter. Times are milliseconds.
pub mod Table
use ocean_chat_private.Prelude.{ℕ, ◌+◌, ◌<◌, ◌≡◌, ◌≢◌, Option, none, some, Bool, true, false}

pub record Store (K V : Type 0) : Type 1 where
  pub State : Type 0
  pub empty : State
  -- `get key now`, `set key value ttl now`, `delete key`.
  pub get : K → ℕ → State → Option V
  pub set : K → V → ℕ → ℕ → State → State
  pub delete : K → State → State
  pub get-empty : (k : K) (now : ℕ) → get k now empty ≡ none
  pub get-set :
      (k : K) (v : V) (ttl now later : ℕ) (s : State)
      → later < now + ttl
      → get k later (set k v ttl now s) ≡ some v
  pub get-set_other :
      (k l : K) (v : V) (ttl now later : ℕ) (s : State)
      → l ≢ k
      → get l later (set k v ttl now s) ≡ get l later s
  pub get-delete : (k : K) (later : ℕ) (s : State) → get k later (delete k s) ≡ none
  pub get-delete_other :
      (k l : K) (later : ℕ) (s : State) → l ≢ k → get l later (delete k s) ≡ get l later s

-- RedisService.setnx of libs/redis/src/redis.service.ts: `SET key value EX ttl NX`, `true` for 'OK'.
unfoldable pub setnx_until :
    {K V : Type 0} (S : Store K V) → K → V → ℕ → ℕ → S.State → S.State × Bool
setnx_until S k v ttl now s = elim (S.get k now s) [
  | none ↦ (S.set k v ttl now s, true)
  | some _ ↦ (s, false)
]
