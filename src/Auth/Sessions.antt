-- ===== src/Auth/Sessions.antt =====
-- apps/oceanchat-auth/src/oceanchat-auth.service.ts: login, logout and the refresh of tokens, for one user.
-- Devices, tokens and their ids are numbers. A handler runs in one step; the locks of the devices are a
-- store, and each call that can fail does so where its fault is set.
use ocean_chat_private.Prelude.{
  ℕ, ◌*◌, List, [], ◌∷◌, Option, none, some, Bool, Result, ok, err, ◌==◌, if◌then◌else◌,
}
use ocean_chat_private.Exceptions.{
  Exception, domain, infrastructure, other, unauthorized, refresh_token_reused_or_revoked,
  token_refresh_error, unexpected_error,
}
use ocean_chat_private.Store.{Store, setnx_until}
use ocean_chat_private.Redis.CacheAside.{del_if_equal}

-- ITokenStorage: the session of a device as it is stored.
pub record Session : Type 0 where
  pub access_token : ℕ
  pub refresh_token : ℕ
  pub access_jti : ℕ
  pub refresh_jti : ℕ

-- What the hash of the user holds under a device: a session, or a text that does not parse.
pub data Stored : Type 0 where
  session : Session → Stored
  corrupted : Stored

abbrev pub Hash : Type 0
Hash = List (ℕ × Stored)

unfoldable pub hget : ℕ → Hash → Option Stored
hget device [] = none
hget device ((d, stored) ∷ rest) =
    let later = hget device rest in if d == device then some stored else later

unfoldable pub hset : ℕ → Stored → Hash → Hash
hset device new [] = (device, new) ∷ []
hset device new ((d, stored) ∷ rest) =
    let later = hset device new rest in
    if d == device then (device, new) ∷ rest else (d, stored) ∷ later

unfoldable pub hdel : ℕ → Hash → Hash
hdel device [] = []
hdel device ((d, stored) ∷ rest) =
    let later = hdel device rest in if d == device then later else (d, stored) ∷ later

-- `revocations` lists the ids and expiries for which 'auth.jwt.revoke' was handed to the publisher,
-- newest first.
pub record State (L : Store ℕ ℕ) : Type 0 where
  pub sessions : Hash
  pub revocations : List (ℕ × ℕ)
  pub locks : L.State

-- The claims of a verified refresh token, for the user at hand.
pub record JwtPayload : Type 0 where
  pub jti : ℕ
  pub device_id : ℕ

-- What `verifyAsync` does: it returns the claims or throws.
pub data Verified : Type 0 where
  valid : JwtPayload → Verified
  throws : Exception → Verified

-- What the new pair of tokens is made of: two fresh ids and the signed tokens.
pub record Fresh : Type 0 where
  pub access_jti : ℕ
  pub refresh_jti : ℕ
  pub access_token : ℕ
  pub refresh_token : ℕ

-- The exception of each call, where it fails.
pub record Faults : Type 0 where
  pub setnx : Option Exception
  pub hget : Option Exception
  pub hgetall : Option Exception
  pub del : Option Exception
  pub hdel : Option Exception
  pub find_user : Option Exception
  pub sign : Option Exception
  pub exec : Option Exception
  pub release : Bool

-- Application exceptions pass, others are wrapped.
unfoldable pub wrapped : Exception → Exception → Exception
wrapped wrapper (domain code status) = domain code status
wrapped wrapper (infrastructure code status) = infrastructure code status
wrapped wrapper other = wrapper

abbrev pub reused : Exception
reused = domain refresh_token_reused_or_revoked 401

abbrev pub new_session : Fresh → Stored
new_session fresh = session (record {
  access_token = fresh.access_token;
  refresh_token = fresh.refresh_token;
  access_jti = fresh.access_jti;
  refresh_jti = fresh.refresh_jti;
})

abbrev pub unless_fails {ℓ} : {A : Type ℓ} → Option Exception → A → (Exception → A) → A
unless_fails none a handle = a
unless_fails (some e) a handle = handle e

-- `decode`: the expiry that an access token carries, where it can be read.
module _ (L : Store ℕ ℕ) (decode : ℕ → Option ℕ) where
  -- The revocation of the access token of a session.
  abbrev pub revoke_at : ℕ → Option ℕ → List (ℕ × ℕ) → List (ℕ × ℕ)
  revoke_at jti none revocations = revocations
  revoke_at jti (some exp) revocations = (jti, exp) ∷ revocations

  abbrev pub revoke_session : Session → List (ℕ × ℕ) → List (ℕ × ℕ)
  revoke_session s revocations = revoke_at s.access_jti (decode s.access_token) revocations

  -- Sessions that do not parse are passed over.
  unfoldable pub revoke_all : Hash → List (ℕ × ℕ) → List (ℕ × ℕ)
  revoke_all [] revocations = revocations
  revoke_all ((device, session s) ∷ rest) revocations =
      revoke_all rest (revoke_session s revocations)
  revoke_all ((device, corrupted) ∷ rest) revocations = revoke_all rest revocations

  -- `generateTokens`, for a device.
  unfoldable pub generate_tokens : Faults → Fresh → ℕ → State L → State L × Result Exception (ℕ × ℕ)
  unfolding wrapped
  generate_tokens faults fresh device s =
      unless_fails faults.sign
        (unless_fails faults.exec
          (
            record s { sessions = hset device (new_session fresh) s.sessions },
            ok (fresh.access_token, fresh.refresh_token),
          )
          (λ e. (s, err (wrapped (infrastructure unexpected_error 500) e))))
        (λ e. (s, err e))

  -- `login`; the login event, which is not critical, is left out.
  unfoldable pub login : Faults → Fresh → ℕ → State L → State L × Result Exception (ℕ × ℕ)
  unfolding generate_tokens
  login faults fresh device s = generate_tokens faults fresh device s

  -- The `try` of `logout`; its errors are only logged.
  abbrev pub revoke_stored : Option Stored → List (ℕ × ℕ) → List (ℕ × ℕ)
  revoke_stored none revocations = revocations
  revoke_stored (some corrupted) revocations = revocations
  revoke_stored (some (session s)) revocations = revoke_session s revocations

  -- `logout`.
  unfoldable pub logout : Faults → ℕ → State L → State L × Result Exception (Unit {0})
  unfolding hget hdel
  logout faults device s =
      let told =
        unless_fails faults.hget
          (record s { revocations = revoke_stored (hget device s.sessions) s.revocations })
          (λ e. s) in
      unless_fails faults.hdel (record told { sessions = hdel device told.sessions }, ok tt)
        (λ e. (told, err e))

  -- A refresh token that is not the last of its session: all sessions of the user end.
  unfoldable pub end_family : Faults → State L → State L × Result Exception (ℕ × ℕ)
  unfolding revoke_all
  end_family faults s =
      unless_fails faults.hgetall
        (let told = record s { revocations = revoke_all s.sessions s.revocations } in
          unless_fails faults.del (record told { sessions = [] }, err reused) (λ e. (told, err e)))
        (λ e. (s, err e))

  -- `user_exists`: `findOneById` returns a user.
  abbrev pub revoke_old :
      Session → State L × Result Exception (ℕ × ℕ) → State L × Result Exception (ℕ × ℕ)
  revoke_old old (s, ok tokens) =
      (record s { revocations = revoke_session old s.revocations }, ok tokens)
  revoke_old old (s, err e) = (s, err e)

  unfoldable pub rotate :
      Faults → Fresh → Bool → ℕ → Session → State L → State L × Result Exception (ℕ × ℕ)
  unfolding generate_tokens
  rotate faults fresh user_exists device old s =
      unless_fails faults.find_user
        (if user_exists
          then revoke_old old (generate_tokens faults fresh device s)
          else (s, err (domain unauthorized 401)))
        (λ e. (s, err e))

  unfoldable pub with_session :
      Faults
      → Fresh
      → Bool
      → JwtPayload
      → Option Stored
      → State L
      → State L × Result Exception (ℕ × ℕ)
  unfolding rotate end_family
  with_session faults fresh user_exists payload none s = (s, err reused)
  with_session faults fresh user_exists payload (some corrupted) s = (s, err reused)
  with_session faults fresh user_exists payload (some (session old)) s =
      if old.refresh_jti == payload.jti
      then rotate faults fresh user_exists payload.device_id old s
      else end_family faults s

  abbrev pub wrap_result : State L × Result Exception (ℕ × ℕ) → State L × Result Exception (ℕ × ℕ)
  wrap_result (s, ok tokens) = (s, ok tokens)
  wrap_result (s, err e) = (s, err (wrapped (infrastructure token_refresh_error 500) e))

  -- The `try` under the lock.
  unfoldable pub locked_refresh :
      Faults → Fresh → Bool → JwtPayload → State L → State L × Result Exception (ℕ × ℕ)
  unfolding with_session wrapped
  locked_refresh faults fresh user_exists payload s = wrap_result (
      unless_fails faults.hget
        (with_session faults fresh user_exists payload (hget payload.device_id s.sessions) s)
        (λ e. (s, err e)))

  -- The `finally`: a failure is only logged.
  unfoldable pub release : Faults → ℕ → ℕ → ℕ → State L → State L
  unfolding del_if_equal
  release faults device lock_value now s =
      if faults.release
      then s
      else record s { locks = del_if_equal L device lock_value now s.locks }

  -- `refreshToken`. It takes the lock at `start` and releases it at `now`.
  unfoldable pub with_payload :
      Faults → Fresh → Bool → ℕ → ℕ → ℕ → JwtPayload → State L → State L × Result Exception (ℕ × ℕ)
  unfolding locked_refresh release setnx_until
  with_payload faults fresh user_exists lock_value start now payload s =
      unless_fails faults.setnx
        (let (locks, acquired) =
            setnx_until L payload.device_id lock_value (10 * 1000) start s.locks in
          if acquired
          then (let (t, result) =
                locked_refresh faults fresh user_exists payload (record s { locks = locks }) in
              (release faults payload.device_id lock_value now t, result))
          else (record s { locks = locks }, err reused))
        (λ e. (s, err (infrastructure token_refresh_error 500)))

  unfoldable pub refresh_token :
      Faults → Fresh → Bool → ℕ → ℕ → ℕ → Verified → State L → State L × Result Exception (ℕ × ℕ)
  unfolding with_payload wrapped
  refresh_token faults fresh user_exists lock_value start now (throws e) s =
      (s, err (wrapped (domain unauthorized 401) e))
  refresh_token faults fresh user_exists lock_value start now (valid payload) s =
      with_payload faults fresh user_exists lock_value start now payload s
