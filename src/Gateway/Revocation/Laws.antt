-- ===== src/Gateway/Revocation/Laws.antt =====
-- apps/oceanchat-api-gateway/src: what a delivered revocation changes on the pod that handles it and on
-- the pods that come after it.
use ocean_chat_private.Prelude.{
  ℕ, ◌+◌, ◌-◌, ◌*◌, ◌/◌, ◌<◌, ◌≡◌, ◌≢◌, sym, ap, subst, ◌==◌, ==_iff, ◌∙◌, ◌⊎◌, inl, inr, none,
  some, Bool, true, false, arith, Bool-cases,
}
use ocean_chat_private.Store.{Store, setnx_until}
use ocean_chat_private.Gateway.Revocation.{
  TokenRevokedEvent, Faults, idempotency_ttl, add, is_revoked, after_add, on_event, Handled, here,
  next,
}

unfoldable pub NoFaults : Faults → Type 0
NoFaults f = (f.setnx ≡ false) × (f.cache_set ≡ false) × (f.del ≡ false)

-- The token is refused until it expires.
unfoldable pub Revoked : (C : Store ℕ Bool) → ℕ → ℕ → C.State → Type 0
Revoked C jti exp cache = (later : ℕ) → later < exp * 1000 → is_revoked C jti later cache ≡ true

module _ (C : Store ℕ Bool) (R : Store ℕ (Unit {0})) where
  -- A later event about the same token carries the same expiry.
  unfoldable pub Agrees : ℕ → ℕ → TokenRevokedEvent → Type 0
  Agrees jti exp event = event.jti ≡ jti → event.exp ≡ exp

  set-Revoked :
      (jti exp now : ℕ) (cache : C.State)
      → now / 1000 < exp
      → Revoked C jti exp (C.set jti true ((exp - now / 1000) * 1000) now cache)
  unfolding Revoked is_revoked
  set-Revoked jti exp now cache h later l =
      ap (λ o. elim o [ none ↦ false | some r ↦ r ])
        (C.get-set jti true ((exp - now / 1000) * 1000) now later cache (omega arith))

  set_other-Revoked :
      (jti exp j ttl now : ℕ) (cache : C.State)
      → jti ≢ j
      → Revoked C jti exp cache
      → Revoked C jti exp (C.set j true ttl now cache)
  unfolding Revoked is_revoked
  set_other-Revoked jti exp j ttl now cache d r later l =
      ap (λ o. elim o [ none ↦ false | some r ↦ r ])
        (C.get-set_other j jti true ttl now later cache d)
      ∙ r later l

  set_any-Revoked :
      (jti exp j e now : ℕ) (cache : C.State)
      → now / 1000 < e
      → (j ≡ jti → e ≡ exp)
      → Revoked C jti exp cache
      → Revoked C jti exp (C.set j true ((e - now / 1000) * 1000) now cache)
  set_any-Revoked jti exp j e now cache fresh a r = elim (Bool-cases (jti == j)) [
    | inl same ↦ at_jti ((==_iff jti j).0 same)
    | inr other ↦ set_other-Revoked jti exp j _ now cache (λ eq. ground arith) r
  ]
    where
      at_jti : jti ≡ j → Revoked C jti exp (C.set j true ((e - now / 1000) * 1000) now cache)
      at_jti eq =
          let exps = a (sym eq) in
          subst (λ x. Revoked C jti exp (C.set x true ((e - now / 1000) * 1000) now cache)) eq
            (subst (λ y. Revoked C jti exp (C.set jti true ((y - now / 1000) * 1000) now cache))
              (sym exps) (set-Revoked jti exp now cache (omega arith)))

  -- The cache is left as it was, or the token of the event is set.
  on_event-cache :
      (f : Faults) (event : TokenRevokedEvent) (now : ℕ) (redis : R.State) (cache : C.State)
      → ((on_event C R f event now redis cache).1 ≡ cache)
        ⊎ ((now / 1000 < event.exp)
            × ((on_event C R f event now redis cache).1
                ≡ C.set event.jti true ((event.exp - now / 1000) * 1000) now cache))
  unfolding on_event setnx_until after_add add
  on_event-cache f event now redis cache = ground arith

  on_event-Revoked :
      (jti exp : ℕ) (f : Faults) (event : TokenRevokedEvent) (now : ℕ) (redis : R.State)
      (cache : C.State)
      → Agrees jti exp event
      → Revoked C jti exp cache
      → Revoked C jti exp (on_event C R f event now redis cache).1
  unfolding Agrees
  on_event-Revoked jti exp f event now redis cache a r =
      elim (on_event-cache f event now redis cache) [
        | inl same ↦ subst (Revoked C jti exp) (sym same) r
        | inr (fresh, new) ↦
            subst (Revoked C jti exp) (sym new)
              (set_any-Revoked jti exp event.jti event.exp now cache fresh a r)
      ]

  -- A delivery that meets no failure adds the token of a revocation that no pod has handled before.
  on_event-first :
      (f : Faults) (event : TokenRevokedEvent) (now : ℕ) (redis : R.State) (cache : C.State)
      → NoFaults f
      → R.get event.jti now redis ≡ none
      → now / 1000 < event.exp
      → (on_event C R f event now redis cache).1
        ≡ C.set event.jti true ((event.exp - now / 1000) * 1000) now cache
  unfolding on_event setnx_until after_add add NoFaults
  on_event-first f event now redis cache nf first fresh = ground arith

  pub Handled-Revoked :
      (jti exp now : ℕ) (f : Faults) (redis : R.State) (cache later : C.State)
      → NoFaults f
      → R.get jti now redis ≡ none
      → now / 1000 < exp
      → Handled C R
          (Agrees jti exp)
          (on_event C R f (record { jti = jti; exp = exp }) now redis cache).1
          later
      → Revoked C jti exp later
  Handled-Revoked jti exp now f redis cache later nf first fresh here =
      subst (Revoked C jti exp) (sym (on_event-first f _ now redis cache nf first fresh))
        (set-Revoked jti exp now cache fresh)
  Handled-Revoked jti exp now f redis cache later nf first fresh (next g event t s a before) =
      on_event-Revoked jti exp g event t s _ a
        (Handled-Revoked jti exp now f redis cache _ nf first fresh before)

  -- A revocation is handled by one pod only. While the idempotency key that the first pod has set
  -- lives, any other pod that gets the event leaves its cache as it is.
  pub second_pod_ignores :
      (f g : Faults) (event : TokenRevokedEvent) (now later : ℕ) (redis : R.State)
      (first second : C.State)
      → NoFaults f
      → R.get event.jti now redis ≡ none
      → later < now + idempotency_ttl
      → (on_event C R g event later (on_event C R f event now redis first).0 second).1 ≡ second
  unfolding on_event setnx_until after_add add NoFaults
  second_pod_ignores f g event now later redis first second nf none_yet soon =
      ground (arith, R.get-set event.jti tt idempotency_ttl now later redis soon)
