-- ===== src/Auth/Rotation.antt =====
-- apps/oceanchat-auth/src/oceanchat-auth.service.ts: lemmas on what a refresh does with the sessions, the
-- revocations and the lock.
pub mod Between
pub mod Reuse
use ocean_chat_private.Prelude.{
  ℕ, ◌+◌, ◌*◌, ◌<◌, ◌≡◌, ◌≢◌, ◌⊎◌, inl, inr, refl, sym, ap, subst, ◌∙◌, List, [], ◌∷◌, ◌++◌, Option,
  none, some, Bool, true, false, Result, ok, err, ◌==◌, ==_iff, if◌then◌else◌, arith, Option-cases,
  Bool-cases,
}
use ocean_chat_private.Exceptions.{
  Exception, domain, infrastructure, other, unauthorized, refresh_token_reused_or_revoked,
  token_refresh_error, unexpected_error,
}
use ocean_chat_private.Store.{Store, setnx_until}
use ocean_chat_private.Redis.CacheAside.{del_if_equal}
use ocean_chat_private.Auth.Sessions.{
  Session, Stored, session, corrupted, Hash, hget, hset, hdel, State, JwtPayload, Verified, valid,
  throws, Fresh, Faults, wrapped, reused, new_session, unless_fails, revoke_at, revoke_session,
  revoke_all, generate_tokens, login, revoke_stored, logout, end_family, revoke_old, rotate,
  with_session, wrap_result, locked_refresh, release, with_payload, refresh_token,
}

pub data In {A : Type 0} (x : A) : List A → Type 0 where
  here : {xs : List A} → In x (x ∷ xs)
  there : {y : A} {xs : List A} → In x xs → In x (y ∷ xs)

pub hget-hset : (device : ℕ) (new : Stored) (h : Hash) → hget device (hset device new h) ≡ some new
unfolding hget hset
hget-hset device new [] = ground arith
hget-hset device new ((d, stored) ∷ rest) = ground (arith, hget-hset device new rest)

pub hget-hset_other :
    (d device : ℕ) (new : Stored) (h : Hash)
    → (device == d) ≡ false
    → hget d (hset device new h) ≡ hget d h
unfolding hget hset
hget-hset_other d device new [] differs = ground arith
hget-hset_other d device new ((e, stored) ∷ rest) differs =
    ground (arith, hget-hset_other d device new rest differs)

pub hget-hdel : (device : ℕ) (h : Hash) → hget device (hdel device h) ≡ none
unfolding hget hdel
hget-hdel device [] = refl
hget-hdel device ((d, stored) ∷ rest) = ground (arith, hget-hdel device rest)

pub hget-hdel_other : (d device : ℕ) (h : Hash) → d ≢ device → hget d (hdel device h) ≡ hget d h
unfolding hget hdel
hget-hdel_other d device [] differs = refl
hget-hdel_other d device ((e, stored) ∷ rest) differs =
    ground (arith, hget-hdel_other d device rest differs)

module _ (L : Store ℕ ℕ) (decode : ℕ → Option ℕ) where
  -- What is revoked stays so.
  revoke_all-In :
      (h : Hash) (r : List (ℕ × ℕ)) (x : ℕ × ℕ) → In x r → In x (revoke_all L decode h r)
  unfolding revoke_all
  revoke_all-In [] r x i = i
  revoke_all-In ((device, corrupted) ∷ rest) r x i = revoke_all-In rest r x i
  revoke_all-In ((device, session s) ∷ rest) r x i =
      revoke_all-In rest _ x (kept (decode s.access_token))
    where
      kept : (o : Option ℕ) → In x (revoke_at L decode s.access_jti o r)
      kept none = i
      kept (some exp) = there i

  -- Every session with a readable expiry is revoked.
  pub revoke_all-revokes :
      (h : Hash) (r : List (ℕ × ℕ)) (device : ℕ) (s : Session) (exp : ℕ)
      → hget device h ≡ some (session s)
      → decode s.access_token ≡ some exp
      → In (s.access_jti, exp) (revoke_all L decode h r)
  unfolding revoke_all hget
  revoke_all-revokes [] r device s exp g e = cc
  revoke_all-revokes ((d, corrupted) ∷ rest) r device s exp g e =
      revoke_all-revokes rest r device s exp (ground arith) e
  revoke_all-revokes ((d, session x) ∷ rest) r device s exp g e = elim (Bool-cases (d == device)) [
    | inl same ↦ revoke_all-In rest _ _ (
        subst (λ y. In (y.access_jti, exp) (revoke_session L decode x r)) (is_x same)
          (newest x (decode x.access_token) refl (ap (λ y. decode y.access_token) (is_x same))))
    | inr differs ↦ revoke_all-revokes rest _ device s exp (ground arith) e
  ]
    where
      is_x : (d == device) ≡ true → x ≡ s
      is_x same = ground arith

      newest :
          (x : Session) (o : Option ℕ)
          → decode x.access_token ≡ o
          → decode x.access_token ≡ decode s.access_token
          → In (x.access_jti, exp) (revoke_at L decode x.access_jti (decode x.access_token) r)
      newest x o p q =
          subst (λ z. In (x.access_jti, exp) (revoke_at L decode x.access_jti z r)) (sym (q ∙ e))
            here

  with_session-replayed :
      (faults : Faults) (fresh : Fresh) (user_exists : Bool) (payload : JwtPayload) (old : Session)
      (s : State L)
      → old.refresh_jti ≢ payload.jti
      → faults.hgetall ≡ none
      → faults.del ≡ none
      → with_session L decode faults fresh user_exists payload (some (session old)) s ≡ (
        record s { sessions = []; revocations = revoke_all L decode s.sessions s.revocations },
        err reused,
      )
  unfolding with_session end_family
  with_session-replayed faults fresh user_exists payload old s d a b = ground arith

  -- The lock of a device is free again after its release.
  pub release-frees :
      (faults : Faults) (device lock_value now later : ℕ) (s : State L)
      → faults.release ≡ false
      → L.get device now s.locks ≡ some lock_value
      → L.get device later (release L decode faults device lock_value now s).locks ≡ none
  unfolding release del_if_equal
  release-frees faults device lock_value now later s r h =
      ground (arith, L.get-delete device later s.locks)

  -- The state under the lock of the device.
  abbrev pub entered : ℕ → ℕ → ℕ → State L → State L
  entered device lock_value start s = record s {
    locks = L.set device lock_value (10 * 1000) start s.locks;
  }

  pub with_payload-entered :
      (faults : Faults) (fresh : Fresh) (user_exists : Bool) (lock_value start now : ℕ)
      (payload : JwtPayload) (s : State L)
      → faults.setnx ≡ none
      → L.get payload.device_id start s.locks ≡ none
      → with_payload L decode faults fresh user_exists lock_value start now payload s ≡ (
          let (t, result) =
            locked_refresh L decode faults fresh user_exists payload
              (entered payload.device_id lock_value start s) in
          (release L decode faults payload.device_id lock_value now t, result))
  unfolding with_payload setnx_until
  with_payload-entered faults fresh user_exists lock_value start now payload s f free = ground arith

  pub with_payload-eq-ok :
      (faults : Faults) (fresh : Fresh) (user_exists : Bool) (lock_value start now : ℕ)
      (payload : JwtPayload) (s : State L) (tokens : ℕ × ℕ)
      → (with_payload L decode faults fresh user_exists lock_value start now payload s).1
        ≡ ok tokens
      → (faults.setnx ≡ none) × (L.get payload.device_id start s.locks ≡ none)
  unfolding with_payload setnx_until
  with_payload-eq-ok faults fresh user_exists lock_value start now payload s tokens h =
      (ground arith, ground arith)

  pub locked_refresh-replayed :
      (faults : Faults) (fresh : Fresh) (user_exists : Bool) (payload : JwtPayload) (old : Session)
      (s : State L)
      → hget payload.device_id s.sessions ≡ some (session old)
      → old.refresh_jti ≢ payload.jti
      → faults.hget ≡ none
      → faults.hgetall ≡ none
      → faults.del ≡ none
      → locked_refresh L decode faults fresh user_exists payload s ≡ (
        record s { sessions = []; revocations = revoke_all L decode s.sessions s.revocations },
        err reused,
      )
  unfolding locked_refresh wrapped
  locked_refresh-replayed faults fresh user_exists payload old s g d h a b =
      ground (arith, with_session-replayed faults fresh user_exists payload old s d a b)

  -- What a refresh that succeeds has done.
  unfoldable pub Rotated : Fresh → JwtPayload → State L → State L → Type 0
  Rotated fresh payload s t =
      (old : Session) × (hget payload.device_id s.sessions ≡ some (session old))
      × (old.refresh_jti ≡ payload.jti)
      × (t.sessions ≡ hset payload.device_id (new_session fresh) s.sessions)
      × (t.revocations ≡ revoke_session L decode old s.revocations)
      × (t.locks ≡ s.locks)

  rotate-eq-ok :
      (faults : Faults) (fresh : Fresh) (user_exists : Bool) (device : ℕ) (old : Session)
      (s : State L) (tokens : ℕ × ℕ)
      → (rotate L decode faults fresh user_exists device old s).1 ≡ ok tokens
      → ((rotate L decode faults fresh user_exists device old s).0 ≡ record s {
        sessions = hset device (new_session fresh) s.sessions;
        revocations = revoke_session L decode old s.revocations;
      })
  unfolding rotate generate_tokens
  rotate-eq-ok faults fresh user_exists device old s tokens h = ground arith

  with_session-rotates :
      (faults : Faults) (fresh : Fresh) (user_exists : Bool) (payload : JwtPayload) (old : Session)
      (s : State L) (tokens : ℕ × ℕ)
      → (with_session L decode faults fresh user_exists payload (some (session old)) s).1
        ≡ ok tokens
      → (old.refresh_jti ≡ payload.jti)
        × (with_session L decode faults fresh user_exists payload (some (session old)) s
            ≡ rotate L decode faults fresh user_exists payload.device_id old s)
  unfolding with_session end_family
  with_session-rotates faults fresh user_exists payload old s tokens h =
      (ground arith, ground arith)

  with_session-eq-ok :
      (faults : Faults) (fresh : Fresh) (user_exists : Bool) (payload : JwtPayload)
      (o : Option Stored) (s : State L) (tokens : ℕ × ℕ)
      → hget payload.device_id s.sessions ≡ o
      → (with_session L decode faults fresh user_exists payload o s).1 ≡ ok tokens
      → Rotated fresh payload s (with_session L decode faults fresh user_exists payload o s).0
  unfolding with_session end_family Rotated
  with_session-eq-ok faults fresh user_exists payload none s tokens g h = cc
  with_session-eq-ok faults fresh user_exists payload (some corrupted) s tokens g h = cc
  with_session-eq-ok faults fresh user_exists payload (some (session old)) s tokens g h =
      let (same, rotated) = with_session-rotates faults fresh user_exists payload old s tokens h in
      let state =
        ap (λ (r : State L × Result Exception (ℕ × ℕ)). r.0) rotated
        ∙ rotate-eq-ok faults fresh user_exists payload.device_id old s tokens
            (ap (λ (r : State L × Result Exception (ℕ × ℕ)). r.1) (sym rotated) ∙ h) in
      (
        old,
        g,
        same,
        ap (λ (t : State L). t.sessions) state,
        ap (λ (t : State L). t.revocations) state,
        ap (λ (t : State L). t.locks) state,
      )

  wrap_result-eq-ok :
      (r : State L × Result Exception (ℕ × ℕ)) (tokens : ℕ × ℕ)
      → (wrap_result L decode r).1 ≡ ok tokens
      → (r.1 ≡ ok tokens) × ((wrap_result L decode r).0 ≡ r.0)
  wrap_result-eq-ok (s, ok x) tokens h = (h, refl)
  wrap_result-eq-ok (s, err e) tokens h = cc

  pub locked_refresh-eq-ok :
      (faults : Faults) (fresh : Fresh) (user_exists : Bool) (payload : JwtPayload) (s : State L)
      (tokens : ℕ × ℕ)
      → (locked_refresh L decode faults fresh user_exists payload s).1 ≡ ok tokens
      → Rotated fresh payload s (locked_refresh L decode faults fresh user_exists payload s).0
  unfolding locked_refresh
  locked_refresh-eq-ok faults fresh user_exists payload s tokens h = got faults.hget h
    where
      attempt : Option Exception → State L × Result Exception (ℕ × ℕ)
      attempt f =
          unless_fails f
            (with_session L decode faults fresh user_exists payload
              (hget payload.device_id s.sessions) s)
            (λ e. (s, err e))

      got :
          (f : Option Exception)
          → (wrap_result L decode (attempt f)).1 ≡ ok tokens
          → Rotated fresh payload s (wrap_result L decode (attempt f)).0
      got (some e) h = cc
      got none h =
          let (passed, kept) =
            wrap_result-eq-ok
              (with_session L decode faults fresh user_exists payload
                (hget payload.device_id s.sessions) s)
              tokens h in
          subst (Rotated fresh payload s) (sym kept)
            (with_session-eq-ok faults fresh user_exists payload _ s tokens refl passed)
