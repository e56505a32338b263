-- ===== src/Flows/Revoked.antt =====
-- apps/oceanchat-auth/src/oceanchat-auth.service.ts with apps/oceanchat-api-gateway/src: access tokens after a
-- logout and after a refresh.
use ocean_chat_private.Prelude.{
  ℕ, ◌+◌, ◌*◌, ◌/◌, ◌<◌, ◌≡◌, ap, ◌∙◌, List, ◌∷◌, Option, none, some, Bool, false, ok, err, arith,
}
use ocean_chat_private.Store.{Store}
use ocean_chat_private.Auth.Sessions
use ocean_chat_private.Auth.Sessions.{
  Session, session, hget, State, Fresh, Stored, revoke_session, revoke_at, logout, refresh_token,
}
use ocean_chat_private.Auth.Rotation.Reuse.{logout_ends_session, refresh_rotates}
use ocean_chat_private.Gateway.Revocation
use ocean_chat_private.Gateway.Revocation.{TokenRevokedEvent, on_event, Handled}
use ocean_chat_private.Gateway.Revocation.Laws.{NoFaults, Agrees}
use ocean_chat_private.Gateway.Guard.{
  JwtPayload, Verified, extract_token_from_header, refused, can_activate,
}
use ocean_chat_private.Gateway.Guard
use ocean_chat_private.Gateway.Guard.Decisions.{revoked_token_refused}

-- The event for the access token of a session.
abbrev pub revocation : Session → ℕ → TokenRevokedEvent
revocation x exp = record { jti = x.access_jti; exp = exp }

one_session :
    {o : Option Stored} {x y : Session} → o ≡ some (session x) → o ≡ some (session y) → x ≡ y
one_session p q = ground arith

module _ (L : Store ℕ ℕ) (decode : ℕ → Option ℕ) (C : Store ℕ Bool) (R : Store ℕ (Unit {0}))
    (verify : List ℕ → ℕ → Verified) where
  -- If the access token of a session carries an expiry, a logout whose calls do not fail hands the event for it
  -- to the publisher, and a pod that handles the event as the first pod, without failures and before the
  -- token expires, refuses the token with 401 from then on until it expires, whatever other events it
  -- handles, if those about the same token carry the same expiry.
  pub logged_out_token_refused :
      (faults : Sessions.Faults) (device : ℕ) (x : Session) (exp : ℕ) (s : State L)
      (f : Revocation.Faults) (handled now : ℕ) (redis : R.State) (cache later : C.State)
      (authorization : Option (List ℕ)) (token : List ℕ) (p : JwtPayload)
      → (faults.hget ≡ none) × (faults.hdel ≡ none)
      → hget device s.sessions ≡ some (session x)
      → decode x.access_token ≡ some exp
      → NoFaults f
      → R.get x.access_jti handled redis ≡ none
      → handled / 1000 < exp
      → Handled C R
          (Agrees C R x.access_jti exp)
          (on_event C R f (revocation x exp) handled redis cache).1
          later
      → extract_token_from_header authorization ≡ some token
      → verify token now ≡ Guard.valid p
      → p.jti ≡ x.access_jti
      → now < exp * 1000
      → ((logout L decode faults device s).0.revocations ≡ (x.access_jti, exp) ∷ s.revocations)
        × (can_activate C verify false authorization now later ≡ err refused)
  logged_out_token_refused faults device x exp s f handled now redis cache later authorization token
        p (a, b) stored expires nf first fresh steps t v same soon =
      (
        (logout_ends_session L decode faults device x exp s a b stored expires).3,
        revoked_token_refused C verify R f (revocation x exp) handled now redis cache later
            authorization token p nf first fresh steps t v same soon,
      )

  -- If the access token of the old session carries an expiry, a refresh that succeeds and releases its lock
  -- within ten seconds hands the event for it to the publisher, and a pod that handles the event as the first
  -- pod, without failures and before the token expires, refuses the token with 401 from then on until it
  -- expires, whatever other events it handles, if those about the same token carry the same expiry.
  pub rotated_token_refused :
      (faults : Sessions.Faults) (new : Fresh) (user_exists : Bool) (lock_value start end exp : ℕ)
      (payload : Sessions.JwtPayload) (x : Session) (s : State L) (tokens : ℕ × ℕ)
      (f : Revocation.Faults) (handled now : ℕ) (redis : R.State) (cache later : C.State)
      (authorization : Option (List ℕ)) (token : List ℕ) (p : JwtPayload)
      → faults.release ≡ false
      → end < start + 10 * 1000
      → (refresh_token L decode faults new user_exists lock_value start end
          (Sessions.Verified.valid payload)
          s).1
        ≡ ok tokens
      → hget payload.device_id s.sessions ≡ some (session x)
      → decode x.access_token ≡ some exp
      → NoFaults f
      → R.get x.access_jti handled redis ≡ none
      → handled / 1000 < exp
      → Handled C R
          (Agrees C R x.access_jti exp)
          (on_event C R f (revocation x exp) handled redis cache).1
          later
      → extract_token_from_header authorization ≡ some token
      → verify token now ≡ Guard.valid p
      → p.jti ≡ x.access_jti
      → now < exp * 1000
      → ((refresh_token L decode faults new user_exists lock_value start end
            (Sessions.Verified.valid payload)
            s).0.revocations
          ≡ (x.access_jti, exp) ∷ s.revocations)
        × (can_activate C verify false authorization now later ≡ err refused)
  rotated_token_refused faults new user_exists lock_value start end exp payload x s tokens f handled
        now redis cache later authorization token p rel in_time succeeds stored expires nf first
        fresh steps t v same soon =
      let (old, found, _, revoked) =
        refresh_rotates L decode faults new user_exists lock_value start end payload s tokens rel
          in_time succeeds in
      (
        revoked
            ∙ ap (λ (y : Session). revoke_session L decode y s.revocations)
                (one_session found stored)
            ∙ ap (λ o. revoke_at L decode x.access_jti o s.revocations) expires,
        revoked_token_refused C verify R f (revocation x exp) handled now redis cache later
            authorization token p nf first fresh steps t v same soon,
      )
