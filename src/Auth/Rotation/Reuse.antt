-- ===== src/Auth/Rotation/Reuse.antt =====
-- apps/oceanchat-auth/src/oceanchat-auth.service.ts: what the owner and a thief of a refresh token get.
use ocean_chat_private.Prelude.{
  ℕ, ◌+◌, ◌*◌, ◌<◌, ◌≡◌, ◌≢◌, sym, ap, subst, ◌∙◌, [], ◌∷◌, Option, none, some, Bool, false, Result,
  ok, err, arith,
}
use ocean_chat_private.Exceptions.{Exception}
use ocean_chat_private.Store.{Store}
use ocean_chat_private.Auth.Sessions.{
  Session, session, hget, State, JwtPayload, valid, Fresh, Faults, reused, new_session,
  revoke_session, locked_refresh, release, refresh_token, logout,
}
use ocean_chat_private.Auth.Rotation.{
  In, hget-hset, hget-hdel, hget-hdel_other, revoke_all-revokes, release-frees, entered,
  with_payload-entered, with_payload-eq-ok, locked_refresh-replayed, locked_refresh-eq-ok, Rotated,
}
use ocean_chat_private.Auth.Rotation.Between.{Between, Between-Replaced}

-- No call fails.
unfoldable pub NoFaults : Faults → Type 0
NoFaults f =
    (f.setnx ≡ none) × (f.hget ≡ none) × (f.hgetall ≡ none) × (f.del ≡ none) × (f.release ≡ false)

module _ (L : Store ℕ ℕ) (decode : ℕ → Option ℕ) where
  -- All sessions of the user are over: the answer is 401, the hash is empty, and every session whose
  -- access token carries an expiry is among the revocations.
  unfoldable pub Ended : State L → State L × Result Exception (ℕ × ℕ) → Type 0
  Ended s (t, result) =
      (result ≡ err reused)
      × (t.sessions ≡ [])
      × ((device : ℕ) (x : Session) (exp : ℕ)
          → hget device s.sessions ≡ some (session x)
          → decode x.access_token ≡ some exp
          → In (x.access_jti, exp) t.revocations)

  release-keeps :
      (faults : Faults) (device lock_value now : ℕ) (s : State L)
      → ((release L decode faults device lock_value now s).sessions ≡ s.sessions)
        × ((release L decode faults device lock_value now s).revocations ≡ s.revocations)
  unfolding release
  release-keeps faults device lock_value now s = (ground arith, ground arith)

  -- When a verified refresh token is not the last one of the session of its device, the lock of the device
  -- is free and no call fails, all sessions of the user are over.
  pub replayed_token_ends_family :
      (faults : Faults) (fresh : Fresh) (user_exists : Bool) (lock_value start now : ℕ)
      (payload : JwtPayload) (old : Session) (s : State L)
      → NoFaults faults
      → L.get payload.device_id start s.locks ≡ none
      → hget payload.device_id s.sessions ≡ some (session old)
      → old.refresh_jti ≢ payload.jti
      → Ended s
          (refresh_token L decode faults fresh user_exists lock_value start now (valid payload) s)
  unfolding refresh_token NoFaults Ended
  replayed_token_ends_family faults fresh user_exists lock_value start now payload old s
        (a, b, c, d, e) free g differs =
      let run =
        with_payload-entered L decode faults fresh user_exists lock_value start now payload s a
          free in
      let inner =
        locked_refresh-replayed L decode faults fresh user_exists payload old
          (entered L decode payload.device_id lock_value start s) g differs b c d in
      let kept =
        release-keeps faults payload.device_id lock_value now
          (locked_refresh L decode faults fresh user_exists payload
            (entered L decode payload.device_id lock_value start s)).0 in
      let revoked =
        ap (λ (r : State L × Result Exception (ℕ × ℕ)). r.0.revocations) run
        ∙ kept.1
        ∙ ap (λ (r : State L × Result Exception (ℕ × ℕ)). r.0.revocations) inner in
      (
        ap (λ (r : State L × Result Exception (ℕ × ℕ)). r.1) run
            ∙ ap (λ (r : State L × Result Exception (ℕ × ℕ)). r.1) inner,
        ap (λ (r : State L × Result Exception (ℕ × ℕ)). r.0.sessions) run
            ∙ kept.0
            ∙ ap (λ (r : State L × Result Exception (ℕ × ℕ)). r.0.sessions) inner,
        λ device x exp h q.
            subst (In (x.access_jti, exp)) (sym revoked)
              (revoke_all-revokes L decode s.sessions s.revocations device x exp h q),
      )

  -- What a refresh that succeeds and releases its lock in time leaves.
  after_success :
      (faults : Faults) (fresh : Fresh) (user_exists : Bool) (lock_value start now later : ℕ)
      (payload : JwtPayload) (s : State L) (tokens : ℕ × ℕ)
      → faults.release ≡ false
      → now < start + 10 * 1000
      → (refresh_token L decode faults fresh user_exists lock_value start now (valid payload) s).1
        ≡ ok tokens
      → (hget payload.device_id
            (refresh_token L decode faults fresh user_exists lock_value start now
              (valid payload)
              s).0.sessions
          ≡ some (new_session fresh))
        × (L.get payload.device_id later
              (refresh_token L decode faults fresh user_exists lock_value start now
                (valid payload)
                s).0.locks
            ≡ none)
        × ((old : Session) × (hget payload.device_id s.sessions ≡ some (session old))
            × (old.refresh_jti ≡ payload.jti)
            × ((refresh_token L decode faults fresh user_exists lock_value start now
                  (valid payload)
                  s).0.revocations
                ≡ revoke_session L decode old s.revocations))
  unfolding refresh_token Rotated
  after_success faults fresh user_exists lock_value start now later payload s tokens rel soon h =
      let (f, free) =
        with_payload-eq-ok L decode faults fresh user_exists lock_value start now payload s tokens
          h in
      let run =
        with_payload-entered L decode faults fresh user_exists lock_value start now payload s f
          free in
      let state = ap (λ (r : State L × Result Exception (ℕ × ℕ)). r.0) run in
      let (old, g, same, sessions, revocations, locks) =
        locked_refresh-eq-ok L decode faults fresh user_exists payload
          (entered L decode payload.device_id lock_value start s) tokens
          (ap (λ (r : State L × Result Exception (ℕ × ℕ)). r.1) (sym run) ∙ h) in
      let inside =
        (locked_refresh L decode faults fresh user_exists payload
          (entered L decode payload.device_id lock_value start s)).0 in
      let kept = release-keeps faults payload.device_id lock_value now inside in
      (
        ap (λ (t : State L). hget payload.device_id t.sessions) state
            ∙ ap (hget payload.device_id) (kept.0 ∙ sessions)
            ∙ hget-hset payload.device_id (new_session fresh) s.sessions,
        ap (λ (t : State L). L.get payload.device_id later t.locks) state
            ∙ release-frees L decode faults payload.device_id lock_value now later inside rel (
                ap (L.get payload.device_id now) locks
                ∙ L.get-set payload.device_id lock_value (10 * 1000) start now s.locks soon),
        (old, g, same, ap (λ (t : State L). t.revocations) state ∙ kept.1 ∙ revocations),
      )

  -- A refresh that releases its lock within ten seconds succeeds only for the last token of the
  -- session of its device, and then the old access token is revoked.
  pub refresh_rotates :
      (faults : Faults) (fresh : Fresh) (user_exists : Bool) (lock_value start now : ℕ)
      (payload : JwtPayload) (s : State L) (tokens : ℕ × ℕ)
      → faults.release ≡ false
      → now < start + 10 * 1000
      → (refresh_token L decode faults fresh user_exists lock_value start now (valid payload) s).1
        ≡ ok tokens
      → (old : Session) × (hget payload.device_id s.sessions ≡ some (session old))
        × (old.refresh_jti ≡ payload.jti)
        × ((refresh_token L decode faults fresh user_exists lock_value start now
              (valid payload)
              s).0.revocations
            ≡ revoke_session L decode old s.revocations)
  refresh_rotates faults fresh user_exists lock_value start now payload s tokens rel soon h =
      (after_success faults fresh user_exists lock_value start now now payload s tokens rel soon
        h).2

  -- A refresh token serves once: after a refresh that succeeded and released its lock within ten seconds, with a
  -- new id for the new refresh token, the same token, if it is still valid and is presented again with no call
  -- failing, ends all sessions of the user, whatever logins there were in between, with new ids, and logouts of
  -- other devices.
  pub refresh_token_serves_once :
      (faults again : Faults) (fresh other_fresh : Fresh) (user_exists still_exists : Bool)
      (lock_value other_value start now start_again now_again : ℕ) (payload : JwtPayload)
      (s later : State L) (tokens : ℕ × ℕ)
      → faults.release ≡ false
      → now < start + 10 * 1000
      → NoFaults again
      → fresh.refresh_jti ≢ payload.jti
      → (refresh_token L decode faults fresh user_exists lock_value start now (valid payload) s).1
        ≡ ok tokens
      → Between L decode payload
          (refresh_token L decode faults fresh user_exists lock_value start now (valid payload) s).0
          later
      → Ended later (
          refresh_token L decode again other_fresh still_exists other_value start_again now_again
            (valid payload)
            later)
  refresh_token_serves_once faults again fresh other_fresh user_exists still_exists lock_value
        other_value start now start_again now_again payload s later tokens rel soon nf differs h
        steps =
      let (stored, free, _) =
        after_success faults fresh user_exists lock_value start now start_again payload s tokens rel
          soon h in
      let r =
        Between-Replaced L decode start_again steps
          (record { old = _; stored = stored; differs = differs; free = free }) in
      replayed_token_ends_family again other_fresh still_exists other_value start_again now_again
        payload r.old later nf r.free r.stored r.differs

  -- A logout whose calls do not fail ends the session of its device, leaves those of the other devices, and
  -- revokes the access token of the session, if it carries an expiry.
  pub logout_ends_session :
      (faults : Faults) (device : ℕ) (x : Session) (exp : ℕ) (s : State L)
      → faults.hget ≡ none
      → faults.hdel ≡ none
      → hget device s.sessions ≡ some (session x)
      → decode x.access_token ≡ some exp
      → ((logout L decode faults device s).1 ≡ ok tt)
        × (hget device (logout L decode faults device s).0.sessions ≡ none)
        × ((d : ℕ)
            → d ≢ device
            → hget d (logout L decode faults device s).0.sessions ≡ hget d s.sessions)
        × ((logout L decode faults device s).0.revocations ≡ (x.access_jti, exp) ∷ s.revocations)
  unfolding logout
  logout_ends_session faults device x exp s a b g e = (
    ground arith,
    ground (arith, hget-hdel device s.sessions),
    λ d differs. ground (arith, hget-hdel_other d device s.sessions differs),
    ground arith,
  )
