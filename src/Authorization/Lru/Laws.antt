-- ===== src/Authorization/Lru/Laws.antt =====
-- libs/authorization/src/services/role-cache.service.ts: what the LRU cache keeps.
use ocean_chat_private.Prelude.{
  ℕ, suc, ◌≤◌, ◌≡◌, ◌≢◌, refl, sym, ap, ◌∙◌, List, [], ◌∷◌, ◌++◌, none, some, length, ◌==◌, ==_iff,
  if◌then◌else◌, arith, both_branches,
}
use ocean_chat_private.Authorization.Lru.{Entry, find, remove, put}

module _ {V : Type 0} where
  -- No two entries have the same key.
  unfoldable pub Distinct : List (Entry V) → Type 0
  Distinct [] = Unit
  Distinct (e ∷ es) = (find e.key es ≡ none) × Distinct es

  pub find-put : (e : Entry V) (es : List (Entry V)) → find e.key (put e es) ≡ some e
  unfolding find put
  find-put e [] = ground arith
  find-put e (x ∷ es) = ground (arith, find-put e es)

  pub find-put_other :
      (k : ℕ) (e : Entry V) (es : List (Entry V)) → k ≢ e.key → find k (put e es) ≡ find k es
  unfolding find put
  find-put_other k e [] d = ground arith
  find-put_other k e (x ∷ es) d = ground (arith, find-put_other k e es d)

  find-remove_other : (k l : ℕ) (es : List (Entry V)) → k ≢ l → find k (remove l es) ≡ find k es
  unfolding find remove
  find-remove_other k l [] d = refl
  find-remove_other k l (x ∷ es) d = ground (arith, find-remove_other k l es d)

  pub find-remove : (k : ℕ) (es : List (Entry V)) → Distinct es → find k (remove k es) ≡ none
  unfolding find remove Distinct
  find-remove k [] d = refl
  find-remove k (x ∷ es) (n, d) = ground (arith, find-remove k es d)

  find-append :
      (k : ℕ) (es : List (Entry V)) (e : Entry V)
      → find k es ≡ none
      → find k (es ++ e ∷ []) ≡ (if e.key == k then some e else none)
  unfolding find
  find-append k [] e n = refl
  find-append k (x ∷ es) e n = ground (arith, find-append k es e)

  pub find-key : (k : ℕ) (es : List (Entry V)) (e : Entry V) → find k es ≡ some e → e.key ≡ k
  unfolding find
  find-key k [] e h = cc
  find-key k (x ∷ es) e h = ground (arith, find-key k es e)

  pub remove-Distinct : (k : ℕ) (es : List (Entry V)) → Distinct es → Distinct (remove k es)
  unfolding Distinct remove
  remove-Distinct k [] d = tt
  remove-Distinct k (x ∷ es) (n, d) =
      both_branches Distinct (x.key == k) (λ _. d)
        λ h. (find-remove_other x.key k es (λ e. ground arith) ∙ n, remove-Distinct k es d)

  pub put-Distinct : (e : Entry V) (es : List (Entry V)) → Distinct es → Distinct (put e es)
  unfolding Distinct put find
  put-Distinct e [] d = (refl, tt)
  put-Distinct e (x ∷ es) (n, d) =
      both_branches Distinct (x.key == e.key)
        (λ h. (ap (λ y. find y es) (sym ((==_iff x.key e.key).0 h)) ∙ n, d))
        λ h. (find-put_other x.key e es (λ q. ground arith) ∙ n, put-Distinct e es d)

  pub append-Distinct :
      (es : List (Entry V)) (e : Entry V)
      → Distinct es
      → find e.key es ≡ none
      → Distinct (es ++ e ∷ [])
  unfolding Distinct find
  append-Distinct [] e d h = (refl, tt)
  append-Distinct (x ∷ es) e (n, d) h =
      let differs : x.key ≢ e.key = λ q. ground arith in
      (find-append x.key es e n ∙ ground arith, append-Distinct es e d (ground arith))

  pub length-remove : (k : ℕ) (es : List (Entry V)) → length (remove k es) ≤ length es
  unfolding remove
  length-remove k [] = omega arith
  length-remove k (x ∷ es) = ground (arith, length-remove k es)

  pub length-remove_found :
      (k : ℕ) (es : List (Entry V)) (e : Entry V)
      → find k es ≡ some e
      → suc (length (remove k es)) ≡ length es
  unfolding remove find
  length-remove_found k [] e h = cc
  length-remove_found k (x ∷ es) e h = ground (arith, length-remove_found k es e)

  pub length-put : (e : Entry V) (es : List (Entry V)) → length (put e es) ≤ suc (length es)
  unfolding put
  length-put e [] = omega arith
  length-put e (x ∷ es) = ground (arith, length-put e es)

  pub length-put_found :
      (e x : Entry V) (es : List (Entry V)) → find e.key es ≡ some x → length (put e es) ≡ length es
  unfolding put find
  length-put_found e x [] h = cc
  length-put_found e x (y ∷ es) h = ground (arith, length-put_found e x es)
