-- ===== src/Redis/Service/Strings.antt =====
-- libs/redis/src/redis.service.ts: what callers of the operations on strings see of one another.
use ocean_chat_private.Prelude.{
  ℕ, ◌+◌, ◌*◌, ◌<◌, ◌≡◌, ◌≢◌, refl, sym, ◌∙◌, List, [], ◌∷◌, ◌++◌, none, some, true, false, arith,
  All, same_text, same_text_sound,
}
use ocean_chat_private.Redis.Service.{
  Text, RedisClient, IsRedis, setnx, del_if_equal, get_and_delete, mset,
}

-- No pair has the key.
abbrev pub Lacks : Text → List (Text × Text) → Type 0
Lacks k pairs = All (λ (p : Text × Text). k ≢ p.0) pairs

module _ (C : RedisClient) (law : IsRedis C) where
  pub get-mset_other :
      (k : Text) (pairs : List (Text × Text)) (now : ℕ) (s : C.State)
      → Lacks k pairs
      → C.get k now (mset C pairs s) ≡ C.get k now s
  unfolding mset
  get-mset_other k [] now s l = refl
  get-mset_other k ((j, v) ∷ pairs) now s (d, l) =
      get-mset_other k pairs now (C.set j v s) l ∙ law.get-set_other j k v now s d

  pub get-mset :
      (before after : List (Text × Text)) (k v : Text) (now : ℕ) (s : C.State)
      → Lacks k after
      → C.get k now (mset C (before ++ (k, v) ∷ after) s) ≡ some v
  unfolding mset
  get-mset [] after k v now s l = get-mset_other k after now (C.set k v s) l ∙ law.get-set k v now s
  get-mset ((j, w) ∷ before) after k v now s l = get-mset before after k v now (C.set j w s) l

  -- A value that is taken by `getAndDelete` is taken once: the second caller gets null, whatever the time.
  pub taken_once :
      (k v : Text) (now later : ℕ) (s : C.State)
      → C.get k now s ≡ some v
      → ((get_and_delete C k now s).1 ≡ some v)
        × ((get_and_delete C k later (get_and_delete C k now s).0).1 ≡ none)
  unfolding get_and_delete
  taken_once k v now later s h = (ground arith, ground (arith, law.get-del k later s))

  -- A lock excludes: once `setnx` has set a key, no other `setnx` sets it before its time is over, and a
  -- release with another value leaves it.
  pub lock_excludes :
      (k mine other : Text) (ttl ttl' now later : ℕ) (s : C.State)
      → C.get k now s ≡ none
      → later < now + ttl * 1000
      → other ≢ mine
      → (C.get k later (setnx C k mine ttl now s).0 ≡ some mine)
        × ((setnx C k other ttl' later (setnx C k mine ttl now s).0).1 ≡ false)
        × (C.get k later (del_if_equal C k other later (setnx C k mine ttl now s).0).0 ≡ some mine)
  unfolding setnx del_if_equal
  lock_excludes k mine other ttl ttl' now later s free soon differs =
      let held = law.get-set_ex k mine ttl now later s soon in
      (
        ground (arith, held),
        ground (arith, held),
        ground (
          arith,
          held,
          λ (e : same_text mine other ≡ true). differs (sym (same_text_sound mine other e)),
        ),
      )
