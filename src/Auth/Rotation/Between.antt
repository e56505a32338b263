-- ===== src/Auth/Rotation/Between.antt =====
-- apps/oceanchat-auth/src/oceanchat-auth.service.ts: logins and logouts between two uses of a refresh token.
use ocean_chat_private.Prelude.{
  ℕ, ◌≡◌, ◌≢◌, subst, ◌∙◌, Option, none, some, true, ◌==◌, Bool-cases, inl, inr, Result, ok, err,
  arith,
}
use ocean_chat_private.Exceptions.{Exception, infrastructure, unexpected_error}
use ocean_chat_private.Store.{Store}
use ocean_chat_private.Auth.Sessions.{
  Session, session, hget, State, JwtPayload, Fresh, Faults, new_session, unless_fails, wrapped,
  hset, hdel, generate_tokens, login, revoke_stored, logout,
}
use ocean_chat_private.Auth.Rotation.{hget-hset, hget-hset_other, hget-hdel_other}

module _ (L : Store ℕ ℕ) (decode : ℕ → Option ℕ) where
  -- The session of the device is there, and its refresh token is another one; the lock is free.
  pub record Replaced (payload : JwtPayload) (at : ℕ) (s : State L) : Type 0 where
    pub old : Session
    pub stored : hget payload.device_id s.sessions ≡ some (session old)
    pub differs : old.refresh_jti ≢ payload.jti
    pub free : L.get payload.device_id at s.locks ≡ none

  login-Replaced :
      (faults : Faults) (fresh : Fresh) (device : ℕ) (payload : JwtPayload) (at : ℕ) (s : State L)
      → fresh.refresh_jti ≢ payload.jti
      → Replaced payload at s
      → Replaced payload at (login L decode faults fresh device s).0
  unfolding login generate_tokens
  login-Replaced faults fresh device payload at s new r = signed faults.sign faults.exec
    where
      stored_new :
          Replaced payload at (record s { sessions = hset device (new_session fresh) s.sessions })
      stored_new = elim (Bool-cases (device == payload.device_id)) [
        | inl same ↦ record {
          old = record {
            access_token = fresh.access_token;
            refresh_token = fresh.refresh_token;
            access_jti = fresh.access_jti;
            refresh_jti = fresh.refresh_jti;
          };
          stored =
              subst
                (λ d.
                  hget d (hset device (new_session fresh) s.sessions) ≡ some (new_session fresh))
                (equal same) (hget-hset device (new_session fresh) s.sessions);
          differs = new;
          free = r.free;
        }
        | inr other ↦ record {
          old = r.old;
          stored =
              hget-hset_other payload.device_id device (new_session fresh) s.sessions other
              ∙ r.stored;
          differs = r.differs;
          free = r.free;
        }
      ]
        where
          equal : (device == payload.device_id) ≡ true → device ≡ payload.device_id
          equal same = ground arith

      signed :
          (sign exec : Option Exception)
          → Replaced payload at
              (unless_fails {A = State L × Result Exception (ℕ × ℕ)} sign
                (unless_fails exec
                  (
                    record s { sessions = hset device (new_session fresh) s.sessions },
                    ok (fresh.access_token, fresh.refresh_token),
                  )
                  (λ e. (s, err (wrapped (infrastructure unexpected_error 500) e))))
                (λ e. (s, err e))).0
      signed none none = stored_new
      signed none (some e) = r
      signed (some e) exec = r

  logout-Replaced :
      (faults : Faults) (device : ℕ) (payload : JwtPayload) (at : ℕ) (s : State L)
      → payload.device_id ≢ device
      → Replaced payload at s
      → Replaced payload at (logout L decode faults device s).0
  unfolding logout
  logout-Replaced faults device payload at s other r = cases faults.hget faults.hdel
    where
      cases :
          (read delete : Option Exception)
          → Replaced payload at
              (let told =
                  unless_fails read
                    (record s {
                      revocations = revoke_stored L decode (hget device s.sessions) s.revocations;
                    })
                    (λ e. s) in
                unless_fails {A = State L × Result Exception (Unit {0})} delete
                  (record told { sessions = hdel device told.sessions }, ok tt)
                  (λ e. (told, err e))).0
      cases none none = record {
        old = r.old;
        stored = hget-hdel_other payload.device_id device s.sessions other ∙ r.stored;
        differs = r.differs;
        free = r.free;
      }
      cases (some e) none = record {
        old = r.old;
        stored = hget-hdel_other payload.device_id device s.sessions other ∙ r.stored;
        differs = r.differs;
        free = r.free;
      }
      cases none (some x) = record {
        old = r.old;
        stored = r.stored;
        differs = r.differs;
        free = r.free;
      }
      cases (some e) (some x) = r

  -- Logins of the user on any devices, and logouts of other devices than that of the token, with whatever failures.
  pub data Between (payload : JwtPayload) (s : State L) : State L → Type 0 where
    at_once : Between payload s s
    logs_in :
        {t : State L} (faults : Faults) (fresh : Fresh) (device : ℕ)
        → fresh.refresh_jti ≢ payload.jti
        → Between payload s t
        → Between payload s (login L decode faults fresh device t).0
    logs_out :
        {t : State L} (faults : Faults) (device : ℕ)
        → payload.device_id ≢ device
        → Between payload s t
        → Between payload s (logout L decode faults device t).0

  pub Between-Replaced :
      {payload : JwtPayload} {s t : State L} (at : ℕ)
      → Between payload s t
      → Replaced payload at s
      → Replaced payload at t
  Between-Replaced at at_once r = r
  Between-Replaced {payload} at (logs_in faults fresh device new steps) r =
      login-Replaced faults fresh device payload at _ new (Between-Replaced at steps r)
  Between-Replaced {payload} at (logs_out faults device other steps) r =
      logout-Replaced faults device payload at _ other (Between-Replaced at steps r)
