-- ===== src/Authorization/Lru.antt =====
-- libs/authorization/src/services/role-cache.service.ts: the class LRUCache, a Map with a maximal size,
-- as the list of its entries, oldest first. Keys are numbers, times milliseconds.
pub mod Laws
pub mod Invariant
use ocean_chat_private.Prelude.{
  ℕ, ◌+◌, List, [], ◌∷◌, ◌++◌, Option, none, some, Bool, true, false, length, leb, ltb, ◌==◌,
  if◌then◌else◌,
}

pub record Entry (V : Type 0) : Type 0 where
  pub key : ℕ
  pub value : V
  pub expiry : ℕ

module _ {V : Type 0} where
  -- `Map.prototype.get`.
  unfoldable pub find : ℕ → List (Entry V) → Option (Entry V)
  find k [] = none
  find k (e ∷ es) = let rest = find k es in if e.key == k then some e else rest

  -- `Map.prototype.delete`.
  unfoldable pub remove : ℕ → List (Entry V) → List (Entry V)
  remove k [] = []
  remove k (e ∷ es) = let rest = remove k es in if e.key == k then es else e ∷ rest

  -- `Map.prototype.set`: an entry that is there keeps its place.
  unfoldable pub put : Entry V → List (Entry V) → List (Entry V)
  put new [] = new ∷ []
  put new (e ∷ es) = let rest = put new es in if e.key == new.key then new ∷ es else e ∷ rest

  -- `get`, once the Map has been asked.
  unfoldable pub refresh : ℕ → ℕ → List (Entry V) → Option (Entry V) → List (Entry V) × Option V
  refresh k now entries none = (entries, none)
  refresh k now entries (some e) =
      if ltb e.expiry now
      then (remove k entries, none)
      else (remove k entries ++ e ∷ [], some e.value)

  unfoldable pub get : ℕ → ℕ → List (Entry V) → List (Entry V) × Option V
  unfolding refresh
  get k now entries = refresh k now entries (find k entries)

  -- What is left when the oldest entry is evicted.
  unfoldable pub evict : List (Entry V) → List (Entry V)
  unfolding remove
  evict [] = []
  evict (e ∷ es) = remove e.key (e ∷ es)

  unfoldable pub set : ℕ → ℕ → V → ℕ → ℕ → List (Entry V) → List (Entry V)
  set max k value ttl now entries =
      put (record { key = k; value = value; expiry = now + ttl })
        (if leb max (length entries) then evict entries else entries)
