-- ===== src/Authorization/Lru/Invariant.antt =====
-- libs/authorization/src/services/role-cache.service.ts: well-formed LRU caches, and lookups after a set.
use ocean_chat_private.Prelude.{
  ℕ, suc, ◌+◌, ◌-◌, ◌≤◌, ◌<◌, ◌≡◌, ◌≢◌, refl, ap, ◌∙◌, List, [], ◌∷◌, Option, none, some, length,
  length-append, leb, ltb, if◌then◌else◌, arith, both_branches,
}
use ocean_chat_private.Authorization.Lru.{Entry, find, remove, put, refresh, get, evict, set}
use ocean_chat_private.Authorization.Lru.Laws.{
  Distinct, find-put, find-put_other, find-remove, find-key, remove-Distinct, put-Distinct,
  append-Distinct, length-remove, length-remove_found, length-put, length-put_found,
}

module _ {V : Type 0} where
  -- No key twice and at most `max` entries.
  pub record Kept (max : ℕ) (es : List (Entry V)) : Type 0 where
    pub distinct : Distinct es
    pub bounded : length es ≤ max

  pub remove-Kept : (max k : ℕ) (es : List (Entry V)) → Kept max es → Kept max (remove k es)
  remove-Kept max k es v = record {
    distinct = remove-Distinct k es v.distinct;
    bounded = omega (arith, length-remove k es, v.bounded);
  }

  refresh-Kept :
      (max k now : ℕ) (es : List (Entry V)) (o : Option (Entry V))
      → find k es ≡ o
      → Kept max es
      → Kept max (refresh k now es o).0
  unfolding refresh
  refresh-Kept max k now es none f v = v
  refresh-Kept max k now es (some e) f v =
      both_branches (λ (r : List (Entry V) × Option V). Kept max r.0) (ltb e.expiry now)
        (λ h. remove-Kept max k es v)
        λ h. record {
          distinct =
              append-Distinct (remove k es) e (remove-Distinct k es v.distinct)
                (ap (λ x. find x (remove k es)) (find-key k es e f) ∙ find-remove k es v.distinct);
          bounded = omega (
            arith,
            length-append (remove k es) (e ∷ []),
            length-remove_found k es e f,
            v.bounded,
          );
        }

  -- Looking a key up keeps a cache well-formed.
  pub get-Kept : (max k now : ℕ) (es : List (Entry V)) → Kept max es → Kept max (get k now es).0
  unfolding get
  get-Kept max k now es v = refresh-Kept max k now es (find k es) refl v

  evict-Kept : (max : ℕ) (es : List (Entry V)) → Kept max es → Kept max (evict es)
  unfolding evict
  evict-Kept max [] v = v
  evict-Kept max (e ∷ es) v = remove-Kept max e.key (e ∷ es) v

  length-evict : (es : List (Entry V)) → length (evict es) ≡ length es - 1
  unfolding evict remove
  length-evict [] = refl
  length-evict (e ∷ es) = ground arith

  -- A cache for at least one entry stays well-formed when a key is set, whether it was there or not.
  pub set-Kept :
      (max k ttl now : ℕ) (value : V) (es : List (Entry V))
      → 0 < max
      → Kept max es
      → Kept max (set max k value ttl now es)
  unfolding set
  set-Kept max k ttl now value es pos v =
      both_branches (λ r. Kept max (put (record { key = k; value = value; expiry = now + ttl }) r))
        (leb max (length es))
        (λ h. record {
          distinct = put-Distinct _ (evict es) (evict-Kept max es v).distinct;
          bounded = omega (
            arith,
            length-put (record { key = k; value = value; expiry = now + ttl }) (evict es),
            length-evict es,
            v.bounded,
            pos,
          );
        })
        λ h. record {
          distinct = put-Distinct _ es v.distinct;
          bounded =
              ground (arith, length-put (record { key = k; value = value; expiry = now + ttl }) es);
        }

  -- What was set is found, and not after its time.
  pub get-set :
      (max k ttl now later : ℕ) (value : V) (es : List (Entry V))
      → (get k later (set max k value ttl now es)).1
        ≡ (if ltb (now + ttl) later then none else some value)
  unfolding get refresh set
  get-set max k ttl now later value es = ground (
    arith,
    find-put (record { key = k; value = value; expiry = now + ttl }) es,
    find-put (record { key = k; value = value; expiry = now + ttl }) (evict es),
  )

  set-full :
      (k ttl now : ℕ) (value : V) (oldest : Entry V) (es : List (Entry V))
      → set (suc (length es)) k value ttl now (oldest ∷ es)
        ≡ put (record { key = k; value = value; expiry = now + ttl }) es
  unfolding set evict remove
  set-full k ttl now value oldest es = ground arith

  -- Setting a key that a full cache holds already evicts its oldest entry, if that is another one: the
  -- cache has one entry less than before and the oldest key is gone.
  pub needless_eviction :
      (k ttl now : ℕ) (value : V) (oldest mine : Entry V) (es : List (Entry V))
      → Kept (suc (length es)) (oldest ∷ es)
      → oldest.key ≢ k
      → find k es ≡ some mine
      → (length (set (suc (length es)) k value ttl now (oldest ∷ es)) ≡ length es)
        × (find oldest.key (set (suc (length es)) k value ttl now (oldest ∷ es)) ≡ none)
  unfolding Distinct
  needless_eviction k ttl now value oldest mine es v d f =
      let new : Entry V = record { key = k; value = value; expiry = now + ttl } in
      let evicted = set-full k ttl now value oldest es in
      (
        ap length evicted ∙ length-put_found new mine es f,
        ap (find oldest.key) evicted ∙ find-put_other oldest.key new es d ∙ v.distinct.0,
      )
