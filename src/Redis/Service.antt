-- ===== src/Redis/Service.antt =====
-- libs/redis/src/redis.service.ts: the operations on strings and hashes. The client of Redis is a parameter, with
-- what Redis documents as laws; times are milliseconds, a time to live is in seconds. Keys and values are texts.
pub mod Strings
pub mod Table
use ocean_chat_private.Prelude.{
  ℕ, ◌+◌, ◌*◌, ◌<◌, ◌≤◌, ◌≡◌, ◌≢◌, List, [], ◌∷◌, Option, none, some, Bool, true, false, Result, ok,
  err, ltb, same_text, if◌then◌else◌,
}

abbrev pub Text : Type 0
Text = List ℕ

-- The commands that the service sends. `set_ex` is SET with EX, `set` is SET without it.
pub record RedisClient : Type 1 where
  pub State : Type 0
  pub get : Text → ℕ → State → Option Text
  pub set : Text → Text → State → State
  pub set_ex : Text → Text → ℕ → ℕ → State → State
  pub expire : Text → ℕ → ℕ → State → State
  pub del : Text → State → State

pub record IsRedis (C : RedisClient) : Type 1 where
  pub get-set : (k v : Text) (now : ℕ) (s : C.State) → C.get k now (C.set k v s) ≡ some v
  pub get-set_other :
      (k l v : Text) (now : ℕ) (s : C.State) → l ≢ k → C.get l now (C.set k v s) ≡ C.get l now s
  pub get-set_ex :
      (k v : Text) (ttl now later : ℕ) (s : C.State)
      → later < now + ttl * 1000
      → C.get k later (C.set_ex k v ttl now s) ≡ some v
  pub get-set_ex_other :
      (k l v : Text) (ttl now later : ℕ) (s : C.State)
      → l ≢ k
      → C.get l later (C.set_ex k v ttl now s) ≡ C.get l later s
  pub get-expire :
      (k v : Text) (ttl now later : ℕ) (s : C.State)
      → C.get k now s ≡ some v
      → later < now + ttl * 1000
      → C.get k later (C.expire k ttl now s) ≡ some v
  pub get-expire_other :
      (k l : Text) (ttl now later : ℕ) (s : C.State)
      → l ≢ k
      → C.get l later (C.expire k ttl now s) ≡ C.get l later s
  pub get-del : (k : Text) (now : ℕ) (s : C.State) → C.get k now (C.del k s) ≡ none
  pub get-del_other :
      (k l : Text) (now : ℕ) (s : C.State) → l ≢ k → C.get l now (C.del k s) ≡ C.get l now s

-- A value that is stored: a text or a buffer, or anything else, given by its JSON.
pub data Value : Type 0 where
  raw : Text → Value
  serialised : (json : Text) → Value

abbrev pub value_to_store : Value → Text
value_to_store (raw t) = t
value_to_store (serialised json) = json

module _ (C : RedisClient) where
  -- `if (ttl)`: no time and the time 0 are alike.
  abbrev pub set_for : Text → Text → ℕ → Option ℕ → C.State → C.State
  set_for key value now none s = C.set key value s
  set_for key value now (some ttl) s =
      if ltb 0 ttl then C.set_ex key value ttl now s else C.set key value s

  -- `set`.
  unfoldable pub set : Text → Value → Option ℕ → ℕ → C.State → C.State
  set key value ttl now s = set_for key (value_to_store value) now ttl s

  -- `get`.
  unfoldable pub get : Text → ℕ → C.State → Option Text
  get key now s = C.get key now s

  -- `setnx`: SET with EX and NX, `true` for 'OK'.
  unfoldable pub setnx : Text → Text → ℕ → ℕ → C.State → C.State × Bool
  setnx key value ttl now s = elim (C.get key now s) [
    | none ↦ (C.set_ex key value ttl now s, true)
    | some old ↦ (s, false)
  ]

  abbrev pub count_of : Option Text → ℕ → ℕ
  count_of none n = n
  count_of (some v) n = n + 1

  -- `del` of any number of keys, and how many of them were there.
  unfoldable pub del : List Text → ℕ → C.State → C.State × ℕ
  del [] now s = (s, 0)
  del (key ∷ keys) now s =
      let (rest, n) = del keys now (C.del key s) in (rest, count_of (C.get key now s) n)

  -- The script of `delIfEqual`.
  unfoldable pub del_if_equal : Text → Text → ℕ → C.State → C.State × ℕ
  unfolding same_text
  del_if_equal key expected now s = elim (C.get key now s) [
    | none ↦ (s, 0)
    | some value ↦ if same_text value expected then (C.del key s, 1) else (s, 0)
  ]

  -- The script of `getAndDelete`.
  unfoldable pub get_and_delete : Text → ℕ → C.State → C.State × Option Text
  get_and_delete key now s = elim (C.get key now s) [
    | none ↦ (s, none)
    | some value ↦ (C.del key s, some value)
  ]

  -- `mset`: MSET is one step that sets every pair, from the first to the last.
  unfoldable pub mset : List (Text × Text) → C.State → C.State
  mset [] s = s
  mset ((key, value) ∷ pairs) s = mset pairs (C.set key value s)

  -- `expire`: 1 where the key is there.
  unfoldable pub expire : Text → ℕ → ℕ → C.State → C.State × ℕ
  expire key seconds now s = (C.expire key seconds now s, count_of (C.get key now s) 0)
