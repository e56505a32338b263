-- ===== src/Authorization/RoleCache/Freshness.antt =====
-- libs/authorization/src/services/role-cache.service.ts: how old the roles may be that an instance
-- answers with.
use ocean_chat_private.Prelude.{
  ℕ, ◌+◌, ◌≤◌, ◌≡◌, inl, inr, refl, ap, subst, List, [], ◌∷◌, Option, none, some, Result, ok, err,
  length, leb, ltb, ◌==◌, arith, All, All-append, Bool-cases, both_branches,
}
use ocean_chat_private.Exceptions.{Exception}
use ocean_chat_private.Authorization.Lru.{Entry, find, remove, put, refresh, get, evict, set}
use ocean_chat_private.Authorization.Lru.Laws.{Distinct, find-remove, find-key}
use ocean_chat_private.Authorization.Lru.Invariant.{Kept, get-Kept, set-Kept, remove-Kept}
use ocean_chat_private.Authorization.RoleCache.{
  Cache, l1_cache_ttl_ms, l1_max_size, or_empty, after_fetch, after_l1, get_roles, invalidate, Step,
  asks, invalidates, Reach, here, next,
}

module _ (Fetched : ℕ → ℕ → List ℕ → Type 0) where
  -- The value of the entry was fetched ten seconds before its expiry.
  unfoldable pub IsFresh : Entry (List ℕ) → Type 0
  IsFresh e = (t : ℕ) × Fetched e.key t e.value × (e.expiry ≡ t + l1_cache_ttl_ms)

  remove-IsFresh : (k : ℕ) (es : Cache) → All IsFresh es → All IsFresh (remove k es)
  unfolding remove
  remove-IsFresh k [] a = tt
  remove-IsFresh k (x ∷ es) (f, a) =
      both_branches (All IsFresh) (x.key == k) (λ h. a) λ h. (f, remove-IsFresh k es a)

  put-IsFresh :
      (e : Entry (List ℕ)) (es : Cache) → IsFresh e → All IsFresh es → All IsFresh (put e es)
  unfolding put
  put-IsFresh e [] g a = (g, tt)
  put-IsFresh e (x ∷ es) g (f, a) =
      both_branches (All IsFresh) (x.key == e.key) (λ h. (g, a)) λ h. (f, put-IsFresh e es g a)

  find-IsFresh :
      (k : ℕ) (es : Cache) (e : Entry (List ℕ)) → find k es ≡ some e → All IsFresh es → IsFresh e
  unfolding find
  find-IsFresh k [] e h a = cc
  find-IsFresh k (x ∷ es) e h (f, a) = elim (Bool-cases (x.key == k)) [
    | inl same ↦ subst IsFresh (ground arith) f
    | inr other_key ↦ find-IsFresh k es e (ground arith) a
  ]

  evict-IsFresh : (es : Cache) → All IsFresh es → All IsFresh (evict es)
  unfolding evict
  evict-IsFresh [] a = tt
  evict-IsFresh (e ∷ es) a = remove-IsFresh e.key (e ∷ es) a

  set-IsFresh :
      (max k now : ℕ) (value : List ℕ) (es : Cache)
      → Fetched k now value
      → All IsFresh es
      → All IsFresh (set max k value l1_cache_ttl_ms now es)
  unfolding set IsFresh
  set-IsFresh max k now value es f a =
      both_branches
        (λ r.
          All IsFresh (put (record { key = k; value = value; expiry = now + l1_cache_ttl_ms }) r))
        (leb max (length es)) (λ h. put-IsFresh _ (evict es) (now, f, refl) (evict-IsFresh es a))
        λ h. put-IsFresh _ es (now, f, refl) a

  -- What the first level answers with was fetched at most ten seconds ago.
  refresh-answers :
      (k now : ℕ) (es : Cache) (o : Option (Entry (List ℕ)))
      → find k es ≡ o
      → All IsFresh es
      → All IsFresh (refresh k now es o).0
        × ((roles : List ℕ)
            → (refresh k now es o).1 ≡ some roles
            → (t : ℕ) × Fetched k t roles × (now ≤ t + l1_cache_ttl_ms))
  unfolding refresh IsFresh
  refresh-answers k now es none f a = (a, λ roles h. cc)
  refresh-answers k now es (some e) f a =
      let (t, was, at) = find-IsFresh k es e f a in
      both_branches
        (λ (r : Cache × Option (List ℕ)).
          All IsFresh r.0
          × ((roles : List ℕ)
              → r.1 ≡ some roles
              → (s : ℕ) × Fetched k s roles × (now ≤ s + l1_cache_ttl_ms)))
        (ltb e.expiry now) (λ h. (remove-IsFresh k es a, λ roles n. cc))
        λ h. (
          All-append IsFresh (remove k es) (e ∷ []) (remove-IsFresh k es a) ((t, was, at), tt),
          λ roles n. (
            t,
            subst (λ v. Fetched k t v) (ground arith)
                (subst (λ j. Fetched j t e.value) (find-key k es e f) was),
            ground arith,
          ),
        )

  -- What holds of the cache of an instance.
  pub record Inv (cache : Cache) : Type 0 where
    pub fresh : All IsFresh cache
    pub kept : Kept l1_max_size cache

  after_fetch-Inv :
      (key now : ℕ) (cache : Cache) (fetched : Result Exception (Option (List ℕ)))
      → ((roles : Option (List ℕ)) → fetched ≡ ok roles → Fetched key now (or_empty roles))
      → Inv cache
      → Inv (after_fetch key now cache fetched).0
  unfolding after_fetch
  after_fetch-Inv key now cache (err e) f v = v
  after_fetch-Inv key now cache (ok roles) f v = record {
    fresh = set-IsFresh l1_max_size key now (or_empty roles) cache (f roles refl) v.fresh;
    kept = set-Kept l1_max_size key l1_cache_ttl_ms now (or_empty roles) cache (omega arith) v.kept;
  }

  after_l1-Inv :
      (key now : ℕ) (fetched : Result Exception (Option (List ℕ))) (l1 : Cache × Option (List ℕ))
      → ((roles : Option (List ℕ)) → fetched ≡ ok roles → Fetched key now (or_empty roles))
      → Inv l1.0
      → Inv (after_l1 key now fetched l1).0
  unfolding after_l1
  after_l1-Inv key now fetched (cache, some roles) f v = v
  after_l1-Inv key now fetched (cache, none) f v = after_fetch-Inv key now cache fetched f v

  get-Inv : (key now : ℕ) (cache : Cache) → Inv cache → Inv (get key now cache).0
  unfolding get
  get-Inv key now cache v = record {
    fresh = (refresh-answers key now cache (find key cache) refl v.fresh).0;
    kept = get-Kept l1_max_size key now cache v.kept;
  }

  Step-Inv : {b c : Cache} → Step Fetched b c → Inv b → Inv c
  unfolding get_roles invalidate
  Step-Inv {b} (asks key asked now fetched f) v =
      after_l1-Inv key now fetched (get key asked b) f (get-Inv key asked b v)
  Step-Inv {b} (invalidates key) v = record {
    fresh = remove-IsFresh key b v.fresh;
    kept = remove-Kept l1_max_size key b v.kept;
  }

  -- In every course of calls from an empty cache, it has at most 10000 entries, no key twice, and every
  -- entry expires ten seconds after its value was fetched.
  pub reached-Inv : (cache : Cache) → Reach Fetched [] cache → Inv cache
  unfolding Distinct
  reached-Inv cache here = record {
    fresh = tt;
    kept = record { distinct = tt; bounded = omega arith };
  }
  reached-Inv cache (next r s) = Step-Inv s (reached-Inv _ r)

  answers_are_fresh :
      (key asked now : ℕ) (fetched : Result Exception (Option (List ℕ))) (roles : List ℕ)
      (l1 : Cache × Option (List ℕ))
      → ((found : Option (List ℕ)) → fetched ≡ ok found → Fetched key now (or_empty found))
      → asked ≤ now
      → ((hit : List ℕ)
          → l1.1 ≡ some hit
          → (t : ℕ) × Fetched key t hit × (asked ≤ t + l1_cache_ttl_ms))
      → (after_l1 key now fetched l1).1 ≡ ok roles
      → (t : ℕ) × Fetched key t roles × (asked ≤ t + l1_cache_ttl_ms)
  unfolding after_l1 after_fetch
  answers_are_fresh key asked now fetched roles (cache, some hit) f le l h = l roles (ground arith)
  answers_are_fresh key asked now (ok found) roles (cache, none) f le l h =
      (now, subst (Fetched key now) (ground arith) (f found refl), omega arith)
  answers_are_fresh key asked now (err e) roles (cache, none) f le l h = cc

  -- In every course of calls from an empty cache, the roles that a call answers with were fetched from
  -- Redis or the data source for that user or permission, and at most ten seconds before the call.
  pub roles_at_most_10s_old :
      (cache : Cache) (key asked now : ℕ) (fetched : Result Exception (Option (List ℕ)))
      (roles : List ℕ)
      → Reach Fetched [] cache
      → asked ≤ now
      → ((found : Option (List ℕ)) → fetched ≡ ok found → Fetched key now (or_empty found))
      → (get_roles key asked now fetched cache).1 ≡ ok roles
      → (t : ℕ) × Fetched key t roles × (asked ≤ t + l1_cache_ttl_ms)
  unfolding get_roles get
  roles_at_most_10s_old cache key asked now fetched roles r le f h =
      answers_are_fresh key asked now fetched roles (get key asked cache) f le
        (refresh-answers key asked cache (find key cache) refl (reached-Inv cache r).fresh).1 h

  -- After an invalidation the next call asks the second level.
  invalidated_asks_again :
      (cache : Cache) (key asked now : ℕ) (fetched : Result Exception (Option (List ℕ)))
      → Reach Fetched [] cache
      → get_roles key asked now fetched (invalidate key cache)
        ≡ after_fetch key now (invalidate key cache) fetched
  unfolding get_roles get invalidate after_fetch after_l1
  invalidated_asks_again cache key asked now fetched r =
      ap (λ o. after_l1 key now fetched (refresh key asked (remove key cache) o))
        (find-remove key cache (reached-Inv cache r).kept.distinct)
