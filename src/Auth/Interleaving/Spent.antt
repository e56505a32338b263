-- ===== src/Auth/Interleaving/Spent.antt =====
-- apps/oceanchat-auth/src/oceanchat-auth.service.ts: what a call of refreshToken is about, and whether its token
-- is still the last one.
use ocean_chat_private.Prelude.{
  ℕ, ◌≡◌, ◌≢◌, sym, ap, subst, ◌∙◌, ◌⊎◌, inl, inr, [], ◌∷◌, Option, none, some, ok, ◌==◌, arith,
  Bool-cases,
}
use ocean_chat_private.Auth.Sessions.{
  Session, session, Stored, corrupted, Hash, hget, hset, hdel, Fresh, new_session,
}
use ocean_chat_private.Auth.Rotation.{hget-hset, hget-hdel, hget-hdel_other}
use ocean_chat_private.Auth.Interleaving.{Point, locks, asks_user, stores, releases, finished}

-- The call has the lock, unless it has lost it.
abbrev pub Holds : Point → Type 0
Holds locks = ⊥
Holds (finished answer) = ⊥
Holds _ = Unit

-- It has found its refresh token to be the last one.
abbrev pub Verified : Point → Type 0
Verified (asks_user old) = Unit
Verified (stores old) = Unit
Verified _ = ⊥

-- It answers, or has answered, with new tokens.
abbrev pub Served : Point → Type 0
Served (releases (ok tokens)) = Unit
Served (finished (ok tokens)) = Unit
Served _ = ⊥

hget-hset_other :
    (d device : ℕ) (new : Stored) (h : Hash) → d ≢ device → hget d (hset device new h) ≡ hget d h
unfolding hget hset
hget-hset_other d device new [] differs = ground arith
hget-hset_other d device new ((e, stored) ∷ rest) differs =
    ground (arith, hget-hset_other d device new rest differs)

abbrev jti_in : Option Stored → ℕ
jti_in none = 0
jti_in (some corrupted) = 0
jti_in (some (session s)) = s.refresh_jti

same_device : (d device : ℕ) → (d ≡ device) ⊎ (device ≢ d)
same_device d device = elim (Bool-cases (d == device)) [
  | inl same ↦ inl (ground (arith, same))
  | inr differs ↦ inr (λ e. ground (arith, differs, e))
]

module _ (device : ℕ) (jti : ℕ) where
  -- The session of the device, if it has one, is not that of the token.
  unfoldable pub Spent : Hash → Type 0
  Spent h = (s : Session) → hget device h ≡ some (session s) → s.refresh_jti ≢ jti

  pub Spent-hset_here :
      (fresh : Fresh) (h : Hash)
      → fresh.refresh_jti ≢ jti
      → Spent (hset device (new_session fresh) h)
  unfolding Spent
  Spent-hset_here fresh h new s there e =
      new (ap jti_in (sym (hget-hset device (new_session fresh) h) ∙ there) ∙ e)

  pub Spent-hset :
      (d : ℕ) (fresh : Fresh) (h : Hash)
      → fresh.refresh_jti ≢ jti
      → Spent h
      → Spent (hset d (new_session fresh) h)
  unfolding Spent
  Spent-hset d fresh h new spent = elim (same_device d device) [
    | inl same ↦
        subst (λ x. Spent (hset x (new_session fresh) h)) (sym same) (Spent-hset_here fresh h new)
    | inr differs ↦ other_device differs spent
  ]
    where
      other_device : device ≢ d → Spent h → Spent (hset d (new_session fresh) h)
      other_device differs before s there =
          before s (sym (hget-hset_other device d (new_session fresh) h differs) ∙ there)

  pub Spent-hdel : (d : ℕ) (h : Hash) → Spent h → Spent (hdel d h)
  unfolding Spent
  Spent-hdel d h spent s there = elim (same_device d device) [
    | inl same ↦
        absurd
          (gone (sym (hget-hdel device h) ∙ ap (λ x. hget device (hdel x h)) (sym same) ∙ there))
    | inr differs ↦ spent s (sym (hget-hdel_other device d h differs) ∙ there)
  ]
    where
      gone : ◌≡◌ {A = Option Stored} none (some (session s)) → ⊥
      gone e = cc

  pub Spent-none : Spent []
  unfolding Spent hget
  Spent-none s there = cc
